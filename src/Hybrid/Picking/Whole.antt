-- ===== src/Hybrid/Picking/Whole.antt =====
-- prune_neighbors_no_opt as a whole: it ends, and what it picks.
use hvs_disk.Base.{
  ℕ, zero, suc, ◌+◌, ◌≤◌, ◌<◌, ◌≡◌, refl, ap, subst, ◌∙◌, List, [], ◌∷◌, some, Bool, true, arith,
  leb, ◌==◌, length, Bool-cases, All, All-weaken, inl, inr,
}
use hvs_disk.Hybrid.Skyline.{NeighborH, layered, sort_neighbors}
use hvs_disk.Hybrid.Skyline.Parts.{count_id, IsFinite}
use hvs_disk.Hybrid.Skyline.Layers.{layered-IsLayered}
use hvs_disk.Hybrid.Skyline.Order.{Ascends, layer_loop-Ascends}
use hvs_disk.Hybrid.Picking.{
  FloatOps, DegNeighbor, take_layer, is_useful, pick_layer, pick_loop, prune_neighbors_no_opt,
  picked_of,
}
use hvs_disk.Hybrid.Picking.Layer.{
  count_edge, AreChosen, pick_layer-IsLayerPicked, all_weights, pick_layer-first,
}

take_layer-counts :
    (l i : ℕ) (ps : List NeighborH)
    → count_id i (take_layer l ps).0 + count_id i (take_layer l ps).1 ≡ count_id i ps
unfolding take_layer
take_layer-counts l i [] = refl
take_layer-counts l i (p ∷ ps) = elim (Bool-cases (p.layer == l)) [
  | inl here ↦ rw here (omega (arith, take_layer-counts l i ps))
  | inr other ↦ rw other (omega arith)
]

take_layer-Ascends :
    (l top : ℕ) (ps : List NeighborH)
    → Ascends l ps
    → All (λ (p : NeighborH). p.layer < top) ps
    → Ascends (suc l) (take_layer l ps).1
      × All (λ (p : NeighborH). p.layer < top) (take_layer l ps).1
unfolding take_layer
take_layer-Ascends l top [] a b = (tt, tt)
take_layer-Ascends l top (p ∷ ps) a b = elim (Bool-cases (p.layer == l)) [
  | inl here ↦
      let q : p.layer ≡ l = ground (arith, here) in
      rw here (take_layer-Ascends l top ps (subst (λ (x : ℕ). Ascends x ps) q a.1) b.1)
  | inr other ↦ rw other ((ground (arith, a.0, other), a.1), b)
]

counted-nonempty :
    (p : NeighborH) (pool sorted : List NeighborH)
    → count_id p.id sorted ≡ count_id p.id (p ∷ pool)
    → 0 < length sorted
counted-nonempty p pool [] e = absurd (ground (arith, e))
counted-nonempty p pool (q ∷ qs) e = omega arith

module _ (f : FloatOps) (wide : ℕ → ℕ → Bool) (threshold : f.F) (dist1 dist2 : ℕ → ℕ → ℕ) where
  -- A run of the loop from the edges picked so far.
  pub record IsPickedFrom (fuel range l : ℕ) (pool : List NeighborH) (picked : List DegNeighbor)
      : Type 0 where
    pub out : List DegNeighbor
    pub run : pick_loop f wide threshold dist1 dist2 fuel range l pool picked ≡ some out
    pub chosen : AreChosen f wide threshold dist1 dist2 [] out
    pub counts : (i : ℕ) → count_edge i out ≤ count_edge i picked + count_id i pool
    pub some_edge :
        0 < range
        → 0 < length picked + length pool
        → is_useful f wide threshold dist1 dist2 (all_weights f wide threshold dist1 dist2) ≡ true
        → 0 < length out

  -- A layer gives an edge, or it is empty and the pool is left as it was.
  first-parts :
      (l : ℕ) (p : NeighborH) (ps : List NeighborH) (picked : List DegNeighbor)
      → is_useful f wide threshold dist1 dist2 (all_weights f wide threshold dist1 dist2) ≡ true
      → 0
        < length (pick_layer f wide threshold dist1 dist2 l (take_layer l (p ∷ ps)).0 picked)
          + length (take_layer l (p ∷ ps)).1
  unfolding take_layer
  first-parts l p ps picked u = elim (Bool-cases (p.layer == l)) [
    | inl here ↦ rw here (
        omega
          (arith, pick_layer-first f wide threshold dist1 dist2 l p (take_layer l ps).0 picked u))
    | inr other ↦ rw other (omega arith)
  ]

  pick_loop-IsPickedFrom :
      (fuel range l : ℕ) (pool : List NeighborH) (picked : List DegNeighbor)
      → Ascends l pool
      → All (λ (p : NeighborH). p.layer < l + fuel) pool
      → AreChosen f wide threshold dist1 dist2 [] picked
      → IsPickedFrom fuel range l pool picked
  unfolding pick_loop
  pick_loop-IsPickedFrom fuel range l [] picked asc below c = record {
    out = picked;
    run = refl;
    chosen = c;
    counts = λ i. omega arith;
    some_edge = λ r n u. omega (arith, n);
  }
  pick_loop-IsPickedFrom zero range l (p ∷ ps) picked asc below c =
      absurd (omega (arith, asc.0, below.0))
  pick_loop-IsPickedFrom (suc fuel) range l (p ∷ ps) picked asc below c =
      let parts = take_layer l (p ∷ ps) in
      let first = pick_layer-IsLayerPicked f wide threshold dist1 dist2 l parts.0 picked c in
      let picked' = pick_layer f wide threshold dist1 dist2 l parts.0 picked in
      let (asc', below') = take_layer-Ascends l (l + suc fuel) (p ∷ ps) asc below in
      let rest =
        pick_loop-IsPickedFrom fuel range (suc l) parts.1 picked' asc'
          (All-weaken _ _ parts.1 (λ x lt. omega (arith, lt)) below') first.chosen in
      elim (Bool-cases (leb range (length picked))) [
        | inl full ↦ record {
          out = picked;
          run = rw full refl;
          chosen = c;
          counts = λ i. omega arith;
          some_edge = λ r n u. ground (arith, full, r);
        }
        | inr room ↦ elim (Bool-cases (leb range (length picked'))) [
          | inl full ↦ record {
            out = picked';
            run = rw (room, full) refl;
            chosen = first.chosen;
            counts = λ i. omega (arith, first.counts i, take_layer-counts l i (p ∷ ps));
            some_edge = λ r n u. ground (arith, full, r);
          }
          | inr more ↦ record {
            out = rest.out;
            run = rw (room, more) rest.run;
            chosen = rest.chosen;
            counts =
                λ i. omega (arith, rest.counts i, first.counts i, take_layer-counts l i (p ∷ ps));
            some_edge = λ r n u. rest.some_edge r (first-parts l p ps picked u) u;
          }
        ]
      ]

  prune_neighbors_no_opt-IsPickedFrom :
      (range : ℕ) (pool : List NeighborH)
      → IsFinite pool
      → (sorted : List NeighborH) × ((i : ℕ) → count_id i sorted ≡ count_id i pool)
        × (r : IsPickedFrom (length pool) range 0 sorted []) × (prune_neighbors_no_opt f wide
              threshold dist1 dist2 range pool
            ≡ some r.out)
  unfolding prune_neighbors_no_opt layered
  prune_neighbors_no_opt-IsPickedFrom range pool fin =
      let (sorted, run, count, _) = layered-IsLayered pool fin in
      let (asc, below) = layer_loop-Ascends (length pool) 0 (sort_neighbors pool) sorted run in
      let r = pick_loop-IsPickedFrom (length pool) range 0 sorted [] asc below tt in
      (
        sorted,
        count,
        r,
        ap (picked_of f wide threshold dist1 dist2 (length pool) range) run ∙ r.run,
      )

  -- A pool whose embedding distances are below the largest float is pruned: the loops end, a point is
  -- picked at most as often as it is in the pool, and each edge that is picked has useful weights. No
  -- weight strictly within them lies in what merge_intervals makes of the ranges in which the edges
  -- picked before prune it; that leaves out the last of two or more ranges, as merge_intervals does.
  pub prune_neighbors_no_opt-AreChosen :
      (range : ℕ) (pool : List NeighborH)
      → IsFinite pool
      → (out : List DegNeighbor) × (prune_neighbors_no_opt f wide threshold dist1 dist2 range pool
          ≡ some out)
        × AreChosen f wide threshold dist1 dist2 [] out
        × ((i : ℕ) → count_edge i out ≤ count_id i pool)
  prune_neighbors_no_opt-AreChosen range pool fin =
      let (sorted, count, r, run) = prune_neighbors_no_opt-IsPickedFrom range pool fin in
      (r.out, run, r.chosen, λ i. omega (arith, r.counts i, count i))

  -- Where an edge that nothing prunes has useful weights and the degree is not 0, a pool that is not
  -- empty and whose embedding distances are below the largest float gives at least one edge.
  pub prune_neighbors_no_opt-nonempty :
      (range : ℕ) (pool : List NeighborH)
      → IsFinite pool
      → 0 < range
      → 0 < length pool
      → is_useful f wide threshold dist1 dist2 (all_weights f wide threshold dist1 dist2) ≡ true
      → (out : List DegNeighbor) × (prune_neighbors_no_opt f wide threshold dist1 dist2 range pool
          ≡ some out)
        × (0 < length out)
  prune_neighbors_no_opt-nonempty range [] fin r n u = absurd (omega (arith, n))
  prune_neighbors_no_opt-nonempty range (p ∷ pool) fin r n u =
      let (sorted, count, from, run) = prune_neighbors_no_opt-IsPickedFrom range (p ∷ pool) fin in
      (
        from.out,
        run,
        from.some_edge r (omega (arith, counted-nonempty p pool sorted (count p.id))) u,
      )
