-- ===== src/Hybrid/Picking/Layer.antt =====
-- What the picking of one layer keeps.
use hvs_disk.Base.{
  ℕ, ◌+◌, ◌≤◌, ◌<◌, ◌≡◌, sym, subst, List, [], ◌∷◌, ◌++◌, Bool, true, false, arith, ◌==◌,
  if◌then◌else◌, length, length-append, Bool-cases, All-append, inl, inr,
}
use mathlib.Core.List.{append-nil, append_assoc}
use hvs_disk.Hybrid.Skyline.{NeighborH}
use hvs_disk.Hybrid.Skyline.Parts.{count_id}
use hvs_disk.Hybrid.Ranges.{Interval, intersection, merge_intervals, get_use_range}
use hvs_disk.Hybrid.Ranges.Use.{inside, within, IsProper, get_use_range-apart}
use hvs_disk.Hybrid.Picking.{
  FloatOps, DegNeighbor, cut, prune_range, after_pruned, is_useful, pick_layer,
}

abbrev pub count_edge : ℕ → List DegNeighbor → ℕ
count_edge i [] = 0
count_edge i (e ∷ es) = (if e.id == i then 1 else 0) + count_edge i es

pub count_edge-append :
    (i : ℕ) (xs ys : List DegNeighbor) → count_edge i (xs ++ ys) ≡ count_edge i xs + count_edge i ys
count_edge-append i [] ys = omega arith
count_edge-append i (x ∷ xs) ys = omega (arith, count_edge-append i xs ys)

intersection-IsProper : (rs : List Interval) (w : Interval) → IsProper (intersection rs w)
unfolding intersection
intersection-IsProper [] w = tt
intersection-IsProper (r ∷ rs) w = ground (arith, intersection-IsProper rs w)

guarded-IsProper :
    (b : Bool) (rs : List Interval) (w : Interval) → IsProper (if b then intersection rs w else [])
guarded-IsProper true rs w = intersection-IsProper rs w
guarded-IsProper false rs w = tt

module _ (f : FloatOps) (wide : ℕ → ℕ → Bool) (threshold : f.F) (dist1 dist2 : ℕ → ℕ → ℕ) where
  cut-IsProper :
      (id e s : ℕ) (p : DegNeighbor) → IsProper (cut f wide threshold dist1 dist2 id e s p)
  unfolding cut
  cut-IsProper id e s p = guarded-IsProper _ p.available_range _

  prune_range-IsProper :
      (id e s : ℕ) (ps : List DegNeighbor)
      → IsProper (prune_range f wide threshold dist1 dist2 id e s ps)
  unfolding prune_range
  prune_range-IsProper id e s [] = tt
  prune_range-IsProper id e s (p ∷ ps) =
      All-append (λ (a : Interval). a.first ≤ a.second) (cut f wide threshold dist1 dist2 id e s p)
        (prune_range f wide threshold dist1 dist2 id e s ps) (cut-IsProper id e s p)
        (prune_range-IsProper id e s ps)

  -- An edge that is picked after others: its weights are useful, and none strictly within them lies in
  -- what merge_intervals makes of the ranges in which the others prune it.
  pub record IsChosen (before : List DegNeighbor) (e : DegNeighbor) : Type 0 where
    pub useful : is_useful f wide threshold dist1 dist2 e.available_range ≡ true
    pub apart :
        (x : ℕ)
        → within e.available_range x ≡ true
        → inside
            (merge_intervals
              (prune_range f wide threshold dist1 dist2 e.id e.emb_distance e.geo_distance before))
            x
          ≡ false

  abbrev pub AreChosen : List DegNeighbor → List DegNeighbor → Type 0
  AreChosen before [] = Unit
  AreChosen before (e ∷ es) = IsChosen before e × AreChosen (before ++ e ∷ []) es

  AreChosen-push :
      (before es : List DegNeighbor) (e : DegNeighbor)
      → AreChosen before es
      → IsChosen (before ++ es) e
      → AreChosen before (es ++ e ∷ [])
  AreChosen-push before [] e a c =
      (subst (λ (xs : List DegNeighbor). IsChosen xs e) (append-nil before) c, tt)
  AreChosen-push before (x ∷ xs) e a c = (
    a.0,
    AreChosen-push (before ++ x ∷ []) xs e a.1 (
        subst (λ (ys : List DegNeighbor). IsChosen ys e) (sym (append_assoc before (x ∷ []) xs)) c),
  )

  pub record IsLayerPicked (cs : List NeighborH) (picked picked' : List DegNeighbor) : Type 0 where
    pub chosen : AreChosen [] picked'
    pub counts : (i : ℕ) → count_edge i picked' ≤ count_edge i picked + count_id i cs

  pub pick_layer-IsLayerPicked :
      (l : ℕ) (cs : List NeighborH) (picked : List DegNeighbor)
      → AreChosen [] picked
      → IsLayerPicked cs picked (pick_layer f wide threshold dist1 dist2 l cs picked)
  unfolding pick_layer
  pick_layer-IsLayerPicked l [] picked a = record { chosen = a; counts = λ i. omega arith }
  pick_layer-IsLayerPicked l (c ∷ cs) picked a =
      let range = after_pruned f wide threshold dist1 dist2 c.id c.distance1 c.distance2 picked in
      let edge : DegNeighbor = record {
        id = c.id;
        emb_distance = c.distance1;
        geo_distance = c.distance2;
        available_range = range;
        layer = l;
      } in
      elim (Bool-cases (is_useful f wide threshold dist1 dist2 range)) [
        | inr poor ↦
            let r = pick_layer-IsLayerPicked l cs picked a in
            rw poor (record { chosen = r.chosen; counts = λ i. omega (arith, r.counts i) })
        | inl good ↦
            let e : IsChosen picked edge = record {
              useful = good;
              apart = λ x w.
                  get_use_range-apart wide
                    (prune_range f wide threshold dist1 dist2 c.id c.distance1 c.distance2 picked) x
                    (prune_range-IsProper c.id c.distance1 c.distance2 picked) w;
            } in
            let r =
              pick_layer-IsLayerPicked l cs (picked ++ edge ∷ [])
                (AreChosen-push [] picked edge a e) in
            rw good (record {
              chosen = r.chosen;
              counts = λ i. omega (arith, r.counts i, count_edge-append i picked (edge ∷ []));
            })
      ]

  pub pick_layer-grows :
      (l : ℕ) (cs : List NeighborH) (picked : List DegNeighbor)
      → length picked ≤ length (pick_layer f wide threshold dist1 dist2 l cs picked)
  unfolding pick_layer
  pick_layer-grows l [] picked = omega arith
  pick_layer-grows l (c ∷ cs) picked =
      let range = after_pruned f wide threshold dist1 dist2 c.id c.distance1 c.distance2 picked in
      let edge : DegNeighbor = record {
        id = c.id;
        emb_distance = c.distance1;
        geo_distance = c.distance2;
        available_range = range;
        layer = l;
      } in
      elim (Bool-cases (is_useful f wide threshold dist1 dist2 range)) [
        | inr poor ↦ rw poor (pick_layer-grows l cs picked)
        | inl good ↦ rw good (
            omega (
              arith,
              pick_layer-grows l cs (picked ++ edge ∷ []),
              length-append picked (edge ∷ []),
            ))
      ]

  -- The weights of an edge that nothing prunes.
  abbrev pub all_weights : List Interval
  all_weights = get_use_range wide (merge_intervals [])

  pub pick_layer-first :
      (l : ℕ) (c : NeighborH) (cs : List NeighborH) (picked : List DegNeighbor)
      → is_useful f wide threshold dist1 dist2 all_weights ≡ true
      → 0 < length (pick_layer f wide threshold dist1 dist2 l (c ∷ cs) picked)
  unfolding pick_layer prune_range
  pick_layer-first l c cs [] u =
      let edge : DegNeighbor = record {
        id = c.id;
        emb_distance = c.distance1;
        geo_distance = c.distance2;
        available_range = all_weights;
        layer = l;
      } in
      rw u (omega (arith, pick_layer-grows l cs (edge ∷ [])))
  pick_layer-first l c cs (x ∷ xs) u = omega (arith, pick_layer-grows l (c ∷ cs) (x ∷ xs))
