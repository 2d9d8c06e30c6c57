-- ===== src/Hybrid/Picking.antt =====
-- The picking of edges in prune_neighbors_no_opt of src/hybrid_index.cpp: each edge is kept for the
-- weights that its merged prune ranges leave. The arithmetic of floats is an interface.
pub mod Layer
pub mod Whole
pub mod Kept
use hvs_disk.Base.{
  ℕ, zero, suc, ◌+◌, List, [], ◌∷◌, ◌++◌, Option, none, some, Bool, true, false, not, ◌&&◌, ltb,
  leb, min, max, ◌==◌, if◌then◌else◌, length, one_float,
}
use hvs_disk.Hybrid.Skyline.{NeighborH, layered}
use hvs_disk.Hybrid.Ranges.{Interval, intersection, merge_intervals, get_use_range}

-- Floats of either sign, and the quotient of two of the same sign as a bit pattern.
pub record FloatOps : Type 1 where
  pub F : Type 0
  pub of : ℕ → F
  pub add : F → F → F
  pub sub : F → F → F
  pub less : F → F → Bool
  pub div : F → F → ℕ

pub record DegNeighbor : Type 0 where
  pub id : ℕ
  pub emb_distance : ℕ
  pub geo_distance : ℕ
  pub available_range : List Interval
  pub layer : ℕ

-- The loop that takes the points of one layer, and those that are left.
unfoldable pub take_layer : ℕ → List NeighborH → List NeighborH × List NeighborH
take_layer l [] = ([], [])
take_layer l (p ∷ ps) =
    let rest = take_layer l ps in if p.layer == l then (p ∷ rest.0, rest.1) else ([], p ∷ ps)

-- `wide` is the test of a gap in get_use_range; the threshold is 0.1. The distances are between points
-- of the index in the two spaces.
module _ (f : FloatOps) (wide : ℕ → ℕ → Bool) (threshold : f.F) (dist1 dist2 : ℕ → ℕ → ℕ) where
  abbrev positive : f.F → Bool
  positive x = f.less (f.of 0) x

  abbrev negative : f.F → Bool
  negative x = f.less x (f.of 0)

  -- The weights that one of the two inequalities allows.
  unfoldable pub half : f.F → f.F → Interval
  half diff1 diff2 =
      if positive diff1 && positive diff2
      then record { first = 0; second = min (f.div diff2 diff1) one_float }
      else if negative diff1 && negative diff2
      then record { first = min (f.div diff2 diff1) one_float; second = one_float }
      else if negative diff1 && positive diff2
      then record { first = 0; second = one_float }
      else record { first = 0; second = 0 }

  -- With the distances e and s of the other two sides.
  abbrev pub side : (cur_emb_dist cur_geo_dist e s : ℕ) → Interval
  side cur_emb_dist cur_geo_dist e s =
      half (f.sub (f.add (f.sub (f.of e) (f.of cur_emb_dist)) (f.of cur_geo_dist)) (f.of s))
        (f.sub (f.of cur_geo_dist) (f.of s))

  -- What one picked edge adds to prune_range.
  unfoldable pub cut : (id cur_emb_dist cur_geo_dist : ℕ) → DegNeighbor → List Interval
  unfolding half intersection
  cut id cur_emb_dist cur_geo_dist p =
      let tmp_prune_range_1 = side cur_emb_dist cur_geo_dist p.emb_distance p.geo_distance in
      let tmp_prune_range_2 = side cur_emb_dist cur_geo_dist (dist1 p.id id) (dist2 p.id id) in
      let low = max tmp_prune_range_1.first tmp_prune_range_2.first in
      let high = min tmp_prune_range_1.second tmp_prune_range_2.second in
      if ltb low high
      then intersection p.available_range (record { first = low; second = high })
      else []

  unfoldable pub prune_range : (id cur_emb_dist cur_geo_dist : ℕ) → List DegNeighbor → List Interval
  unfolding cut
  prune_range id cur_emb_dist cur_geo_dist [] = []
  prune_range id cur_emb_dist cur_geo_dist (p ∷ ps) =
      cut id cur_emb_dist cur_geo_dist p ++ prune_range id cur_emb_dist cur_geo_dist ps

  abbrev pub after_pruned : (id cur_emb_dist cur_geo_dist : ℕ) → List DegNeighbor → List Interval
  after_pruned id cur_emb_dist cur_geo_dist picked =
      get_use_range wide (merge_intervals (prune_range id cur_emb_dist cur_geo_dist picked))

  unfoldable pub use_size : f.F → List Interval → f.F
  use_size size [] = size
  use_size size (r ∷ rs) = use_size (f.sub (f.add size (f.of r.second)) (f.of r.first)) rs

  -- use_size >= threshold
  abbrev pub is_useful : List Interval → Bool
  is_useful rs = not (f.less (use_size (f.of 0) rs) threshold)

  -- The loop over the candidates of one layer.
  unfoldable pub pick_layer : ℕ → List NeighborH → List DegNeighbor → List DegNeighbor
  unfolding prune_range use_size merge_intervals get_use_range
  pick_layer visited_layer [] picked = picked
  pick_layer visited_layer (c ∷ cs) picked =
      let range = after_pruned c.id c.distance1 c.distance2 picked in
      let edge : DegNeighbor = record {
        id = c.id;
        emb_distance = c.distance1;
        geo_distance = c.distance2;
        available_range = range;
        layer = visited_layer;
      } in
      pick_layer visited_layer cs (if is_useful range then picked ++ edge ∷ [] else picked)

  -- The loop over the layers; `none` is out of fuel.
  unfoldable pub pick_loop :
      ℕ → ℕ → ℕ → List NeighborH → List DegNeighbor → Option (List DegNeighbor)
  unfolding pick_layer take_layer
  pick_loop fuel range visited_layer [] picked = some picked
  pick_loop zero range visited_layer (p ∷ ps) picked = none
  pick_loop (suc fuel) range visited_layer (p ∷ ps) picked =
      let parts = take_layer visited_layer (p ∷ ps) in
      let picked' = pick_layer visited_layer parts.0 picked in
      let rest = pick_loop fuel range (suc visited_layer) parts.1 picked' in
      if leb range (length picked)
      then some picked
      else if leb range (length picked')
      then some picked'
      else rest

  abbrev pub picked_of : ℕ → ℕ → Option (List NeighborH) → Option (List DegNeighbor)
  picked_of fuel range none = none
  picked_of fuel range (some pool) = pick_loop fuel range 0 pool []

  unfoldable pub prune_neighbors_no_opt : ℕ → List NeighborH → Option (List DegNeighbor)
  unfolding layered pick_loop
  prune_neighbors_no_opt range pool = picked_of (length pool) range (layered pool)
