-- ===== src/Hybrid/Build.antt =====
-- link of src/hybrid_index.cpp: for each node the search for its candidates (get_expanded_nodes), the
-- choice of its edges, the edges back, and UpdateEnterpointSet; then the final cleanup. One thread links
-- the nodes here.
pub mod Step
pub mod Whole
use hvs_disk.Base.{
  ℕ, zero, suc, ◌-◌, ◌++◌, ltb, length, true, List, [], ◌∷◌, Option, none, some, Bool, ◌==◌,
  if◌then◌else◌, map,
}
use hvs_disk.Hybrid.Skyline.{NeighborH, sort_neighbors}
use hvs_disk.Hybrid.Picking.{FloatOps, DegNeighbor, prune_neighbors_no_opt}
use hvs_disk.Hybrid.Link.{edge_ids, assign_edges, candidate_of, dummy_neighbors, inter_insert}
use hvs_disk.Hybrid.Queue.{iterate_to_fixed_point}

abbrev pub or_ep : ℕ → List ℕ → List ℕ
or_ep ep [] = ep ∷ []
or_ep ep (i ∷ is) = i ∷ is

-- The candidates but the node itself.
unfoldable pub without_node : ℕ → List NeighborH → List NeighborH
without_node node [] = []
without_node node (p ∷ ps) =
    let rest = without_node node ps in if p.id == node then rest else p ∷ rest

-- From the back, the points farther than all before; and the largest distance.
unfoldable pub outer : List NeighborH → List NeighborH × ℕ
outer [] = ([], 0)
outer (p ∷ ps) =
    let rest = outer ps in if ltb rest.1 p.distance1 then (rest.0 ++ p ∷ [], p.distance1) else rest

module _ (f : FloatOps) (wide : ℕ → ℕ → Bool) (threshold : f.F) (dist1 dist2 : ℕ → ℕ → ℕ)
    (limit size range ep : ℕ) where
  abbrev pub with_edges :
      ℕ → (ℕ → List DegNeighbor) → Option (List DegNeighbor) → Option (ℕ → List DegNeighbor)
  with_edges node g none = none
  with_edges node g (some pruned_list) =
      inter_insert f wide threshold dist1 dist2 range node pruned_list
        (assign_edges node pruned_list g)

  abbrev pub with_pool :
      ℕ → (ℕ → List DegNeighbor) → Option (List NeighborH × List ℕ) → Option (ℕ → List DegNeighbor)
  with_pool node g none = none
  with_pool node g (some found) =
      with_edges node g
        (prune_neighbors_no_opt f wide threshold dist1 dist2 range (without_node node found.0))

  unfoldable pub get_expanded_nodes :
      ℕ → List ℕ → (ℕ → List DegNeighbor) → Option (List NeighborH × List ℕ)
  unfolding iterate_to_fixed_point
  get_expanded_nodes node init_ids g =
      iterate_to_fixed_point (λ i. edge_ids (g i)) (dist1 node) (dist2 node) limit size
        (or_ep ep init_ids)

  unfoldable pub link_node : ℕ → List ℕ → (ℕ → List DegNeighbor) → Option (ℕ → List DegNeighbor)
  unfolding get_expanded_nodes prune_neighbors_no_opt inter_insert without_node
  link_node node init_ids g = with_pool node g (get_expanded_nodes node init_ids g)

  -- One list of the final cleanup.
  abbrev pub cleaned : ℕ → List DegNeighbor → Option (List DegNeighbor)
  cleaned node es =
      if ltb range (length es)
      then prune_neighbors_no_opt f wide threshold dist1 dist2 range
          (dummy_neighbors node [] (map candidate_of es))
      else some es

  -- The final cleanup of the nodes from `node` on.
  unfoldable pub clean_up : ℕ → ℕ → (ℕ → List DegNeighbor) → Option (ℕ → List DegNeighbor)
  unfolding prune_neighbors_no_opt dummy_neighbors
  clean_up zero node g = some g
  clean_up (suc count) node g = elim (cleaned node (g node)) [
    | none ↦ none
    | some es ↦ clean_up count (suc node) (assign_edges node es g)
  ]

  -- With the distances to the two centers.
  module _ (e_d s_d : ℕ → ℕ) where
    abbrev pub update_enterpoint_set : List NeighborH → ℕ → List NeighborH
    update_enterpoint_set enterpoints id =
        (outer (
          sort_neighbors (
            enterpoints
            ++ record { id = id; distance1 = e_d id; distance2 = s_d id; flag = true; layer = 0 }
              ∷ []))).0

    -- The nodes from `node` on; after the first one the enter points are the first ids.
    unfoldable pub link_nodes :
        ℕ → ℕ → List NeighborH → List ℕ → (ℕ → List DegNeighbor) → Option (ℕ → List DegNeighbor)
    unfolding link_node outer sort_neighbors
    link_nodes zero node enterpoints init_ids g = some g
    link_nodes (suc count) node enterpoints init_ids g =
        let next = update_enterpoint_set enterpoints node in
        elim (link_node node init_ids g) [
          | none ↦ none
          | some h ↦ link_nodes count (suc node) next (map (λ (p : NeighborH). p.id) next) h
        ]

    abbrev pub finished : ℕ → Option (ℕ → List DegNeighbor) → Option (ℕ → List DegNeighbor)
    finished n_vecs_to_visit none = none
    finished n_vecs_to_visit (some g) = clean_up n_vecs_to_visit 0 g

    unfoldable pub link : ℕ → (ℕ → List DegNeighbor) → Option (ℕ → List DegNeighbor)
    unfolding link_nodes clean_up
    link n_vecs_to_visit g =
        finished n_vecs_to_visit (link_nodes (n_vecs_to_visit - 1) 1 [] (ep ∷ []) g)
