-- ===== src/Hybrid/Picking/Kept.antt =====
-- What holds of the candidates' ids and distances holds of the edges that are picked.
use mathlib.Core.Option.{some-injective, none-ne-some}
use hvs_disk.Base.{
  ℕ, zero, suc, ◌≡◌, refl, Option, none, subst, List, [], ◌∷◌, some, Bool, leb, ◌==◌, length, All,
  All-append, Bool-cases, inl, inr,
}
use hvs_disk.Hybrid.Skyline.{NeighborH, layered, sort_neighbors}
use hvs_disk.Hybrid.Skyline.Parts.{sort_neighbors-All}
use hvs_disk.Hybrid.Skyline.Order.{layer_loop-All}
use hvs_disk.Hybrid.Picking.{
  FloatOps, DegNeighbor, take_layer, after_pruned, is_useful, pick_layer, pick_loop, picked_of,
  prune_neighbors_no_opt,
}

module _ (Q : ℕ → ℕ → Type 0) where
  abbrev pub AreKeptCandidates : List NeighborH → Type 0
  AreKeptCandidates cs = All (λ (c : NeighborH). Q c.id c.distance1) cs

  abbrev pub AreKeptEdges : List DegNeighbor → Type 0
  AreKeptEdges es = All (λ (e : DegNeighbor). Q e.id e.emb_distance) es

  take_layer-kept :
      (l : ℕ) (ps : List NeighborH)
      → AreKeptCandidates ps
      → AreKeptCandidates (take_layer l ps).0 × AreKeptCandidates (take_layer l ps).1
  unfolding take_layer
  take_layer-kept l [] a = (tt, tt)
  take_layer-kept l (p ∷ ps) a = elim (Bool-cases (p.layer == l)) [
    | inl e ↦ let r = take_layer-kept l ps a.1 in rw e ((a.0, r.0), r.1)
    | inr e ↦ rw e (tt, a)
  ]

  module _ (f : FloatOps) (wide : ℕ → ℕ → Bool) (threshold : f.F) (dist1 dist2 : ℕ → ℕ → ℕ) where
    pick_layer-kept :
        (l : ℕ) (cs : List NeighborH) (picked : List DegNeighbor)
        → AreKeptCandidates cs
        → AreKeptEdges picked
        → AreKeptEdges (pick_layer f wide threshold dist1 dist2 l cs picked)
    unfolding pick_layer
    pick_layer-kept l [] picked a b = b
    pick_layer-kept l (c ∷ cs) picked a b =
        let range = after_pruned f wide threshold dist1 dist2 c.id c.distance1 c.distance2 picked in
        elim (Bool-cases (is_useful f wide threshold dist1 dist2 range)) [
          | inl e ↦ rw e (pick_layer-kept l cs _ a.1 (All-append _ picked _ b (a.0, tt)))
          | inr e ↦ rw e (pick_layer-kept l cs picked a.1 b)
        ]

    pick_loop-kept :
        (fuel range l : ℕ) (pool : List NeighborH) (picked out : List DegNeighbor)
        → pick_loop f wide threshold dist1 dist2 fuel range l pool picked ≡ some out
        → AreKeptCandidates pool
        → AreKeptEdges picked
        → AreKeptEdges out
    unfolding pick_loop
    pick_loop-kept fuel range l [] picked out e a b =
        subst AreKeptEdges (some-injective picked out e) b
    pick_loop-kept zero range l (p ∷ ps) picked out e a b = absurd (none-ne-some out e)
    pick_loop-kept (suc fuel) range l (p ∷ ps) picked out e a b =
        let parts = take_layer l (p ∷ ps) in
        let (here, later) = take_layer-kept l (p ∷ ps) a in
        let picked' = pick_layer f wide threshold dist1 dist2 l parts.0 picked in
        let more = pick_layer-kept l parts.0 picked here b in
        elim (Bool-cases (leb range (length picked))) [
          | inl full ↦ subst AreKeptEdges (some-injective picked out (rw full at e)) b
          | inr room ↦ elim (Bool-cases (leb range (length picked'))) [
            | inl full ↦ subst AreKeptEdges (some-injective picked' out (rw (room, full) at e)) more
            | inr more_room ↦
                pick_loop-kept fuel range (suc l) parts.1 picked' out (rw (room, more_room) at e)
                  later more
          ]
        ]

    picked_of-kept :
        (fuel range : ℕ) (o : Option (List NeighborH)) (out : List DegNeighbor)
        → ((pool : List NeighborH) → o ≡ some pool → AreKeptCandidates pool)
        → picked_of f wide threshold dist1 dist2 fuel range o ≡ some out
        → AreKeptEdges out
    picked_of-kept fuel range none out a e = absurd (none-ne-some out e)
    picked_of-kept fuel range (some pool) out a e =
        pick_loop-kept fuel range 0 pool [] out e (a pool refl) tt

    pub prune_neighbors_no_opt-kept :
        (range : ℕ) (pool : List NeighborH) (out : List DegNeighbor)
        → prune_neighbors_no_opt f wide threshold dist1 dist2 range pool ≡ some out
        → AreKeptCandidates pool
        → AreKeptEdges out
    unfolding prune_neighbors_no_opt layered
    prune_neighbors_no_opt-kept range pool out e a =
        picked_of-kept (length pool) range (layered pool) out
          (λ qs run.
            layer_loop-All (λ (c : NeighborH). Q c.id c.distance1) (λ p l q. q) (length pool) 0
              (sort_neighbors pool) qs run (sort_neighbors-All _ pool a))
          e
