-- ===== src/Hybrid/Queue.antt =====
-- iterate_to_fixed_point of src/hybrid_index.cpp: the search of the hybrid index in memory. The pool is
-- split at k: the entries before it, and those from it on.
pub mod Visit
pub mod Refill
pub mod Fixed
use hvs_disk.Base.{
  ℕ, zero, suc, ◌+◌, ◌*◌, List, [], ◌∷◌, ◌++◌, Option, none, some, Bool, true, false, not, ◌&&◌,
  ◌||◌, ltb, ◌==◌, if◌then◌else◌, length, map, contains,
}
use hvs_disk.Hybrid.Skyline.{NeighborH, sort_neighbors, find_skyline, then_layer, layered}

-- g is the graph, dist1 and dist2 are the distances to the query (compare is symmetric, the order of
-- its arguments is left out), and limit is _max_points + _num_frozen_pts.
module _ (g : ℕ → List ℕ) (dist1 dist2 : ℕ → ℕ) (limit : ℕ) where
  abbrev pub found_point : ℕ → ℕ → NeighborH
  found_point l id = record {
    id = id;
    distance1 = dist1 id;
    distance2 = dist2 id;
    flag = true;
    layer = l;
  }

  -- Neighbours that are new join the end of the pool, and expanded_nodes_ids.
  unfoldable pub add_found : List ℕ → List NeighborH → List ℕ → List NeighborH × List ℕ
  add_found [] rest seen = (rest, seen)
  add_found (id ∷ ids) rest seen =
      let old = contains seen id in
      add_found ids (if old then rest else rest ++ found_point 1 id ∷ [])
        (if old then seen else id ∷ seen)

  abbrev pub are_valid : List ℕ → Bool
  are_valid [] = true
  are_valid (id ∷ ids) = ltb id limit && are_valid ids

  -- `while (pool[k].layer == l)`; `none` is a wrong id, or out of fuel.
  unfoldable pub visit_layer :
      ℕ → ℕ → List NeighborH → List NeighborH → List ℕ → Option (List NeighborH × List ℕ)
  unfolding add_found
  visit_layer fuel l done [] seen = some (done, seen)
  visit_layer zero l done (p ∷ rest) seen = none
  visit_layer (suc fuel) l done (p ∷ rest) seen =
      let found = if p.flag then add_found (g p.id) rest seen else (rest, seen) in
      let next = visit_layer fuel l (done ++ record p { flag = false } ∷ []) found.0 found.1 in
      if p.layer == l
      then (if not p.flag || are_valid (g p.id) then next else none)
      else some (done ++ p ∷ rest, seen)

  -- updateNeighbor
  unfoldable pub fill_layers : ℕ → ℕ → ℕ → ℕ → List NeighborH → Option (List NeighborH)
  unfolding find_skyline
  fill_layers fuel size l count [] = some []
  fill_layers zero size l count (c ∷ cs) = none
  fill_layers (suc fuel) size l count (c ∷ cs) =
      let parts = find_skyline (c ∷ cs) in
      let top = map (λ (p : NeighborH). record p { layer = l }) parts.0 in
      let more = fill_layers fuel size (suc l) (count + length top) parts.1 in
      if ltb count size then then_layer top more else some []

  -- The entries before nk, and from it on: nk is the first that is flagged, or the end.
  unfoldable pub next_flagged : List NeighborH → List NeighborH × List NeighborH
  next_flagged [] = ([], [])
  next_flagged (p ∷ ps) =
      let rest = next_flagged ps in if p.flag then ([], p ∷ ps) else (p ∷ rest.0, rest.1)

  abbrev pub update_neighbor : ℕ → List NeighborH → Option (List NeighborH)
  update_neighbor size pool = fill_layers (length pool) size 0 0 (sort_neighbors pool)

  abbrev pub layer_of : ℕ → List NeighborH → ℕ
  layer_of l [] = l
  layer_of l (p ∷ ps) = p.layer

  -- The round after a layer: update the pool and go on at nk.
  abbrev pub updated : ℕ → Option (List NeighborH × List ℕ) → Option (List NeighborH × List ℕ)
  updated size none = none
  updated size (some (pool, seen)) = elim (update_neighbor size pool) [
    | none ↦ none
    | some next ↦ some (next, seen)
  ]

  -- `while (k < pool.size())`
  unfoldable pub search_layers :
      ℕ → ℕ → ℕ → List NeighborH → List NeighborH → List ℕ → Option (List NeighborH × List ℕ)
  unfolding visit_layer fill_layers next_flagged sort_neighbors
  search_layers fuel size l done [] seen = some (done, seen)
  search_layers zero size l done (p ∷ rest) seen = none
  search_layers (suc fuel) size l done (p ∷ rest) seen =
      elim (updated size (visit_layer (length (p ∷ rest) + limit) l done (p ∷ rest) seen)) [
        | none ↦ none
        | some s ↦
            let parts = next_flagged s.0 in
            search_layers fuel size (layer_of l parts.1) parts.0 parts.1 s.1
      ]

  abbrev pub from_queue : ℕ → List ℕ → Option (List NeighborH) → Option (List NeighborH × List ℕ)
  from_queue size init_ids none = none
  from_queue size init_ids (some pool) =
      search_layers (length pool + limit + 2) size 0 [] pool init_ids

  -- The pool and expanded_nodes_ids in the end; the queue is initialised as the pool of
  -- prune_neighbors_no_opt is.
  unfoldable pub iterate_to_fixed_point : ℕ → List ℕ → Option (List NeighborH × List ℕ)
  unfolding layered search_layers
  iterate_to_fixed_point size init_ids =
      from_queue size init_ids (layered (map (found_point 0) init_ids))
