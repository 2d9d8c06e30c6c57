-- ===== src/Hybrid/Link.antt =====
-- inter_insert of src/hybrid_index.cpp: the edges back from the edges that were picked for a new node.
-- The graph is a function from ids. A list is read and written under its lock in one step.
pub mod Back
pub mod Graph
pub mod Kept
use hvs_disk.Base.{
  ℕ, List, [], ◌∷◌, ◌++◌, Option, none, some, Bool, false, true, not, ◌&&◌, ◌||◌, ltb, ◌==◌,
  if◌then◌else◌, length, map, contains,
}
use hvs_disk.Hybrid.Skyline.{NeighborH}
use hvs_disk.Hybrid.Picking.{FloatOps, DegNeighbor, prune_neighbors_no_opt}

abbrev pub edge_ids : List DegNeighbor → List ℕ
edge_ids es = map (λ (e : DegNeighbor). e.id) es

abbrev pub has_edge : ℕ → List DegNeighbor → Bool
has_edge n [] = false
has_edge n (e ∷ es) = (e.id == n) || has_edge n es

abbrev pub assign_edges : ℕ → List DegNeighbor → (ℕ → List DegNeighbor) → ℕ → List DegNeighbor
assign_edges i es g j = if i == j then es else g j

abbrev pub candidate_of : DegNeighbor → NeighborH
candidate_of e = record {
  id = e.id;
  distance1 = e.emb_distance;
  distance2 = e.geo_distance;
  flag = false;
  layer = e.layer;
}

-- The edge from des back to n.
abbrev pub back_edge : ℕ → DegNeighbor → DegNeighbor
back_edge n des = record des { id = n }

-- dummy_pool: the candidates but des, once each.
unfoldable pub dummy_neighbors : ℕ → List ℕ → List NeighborH → List NeighborH
dummy_neighbors des visited [] = []
dummy_neighbors des visited (c ∷ cs) =
    let fresh = not (contains visited c.id) && not (c.id == des) in
    let rest = dummy_neighbors des (if fresh then c.id ∷ visited else visited) cs in
    if fresh then record c { flag = true; layer = 0 } ∷ rest else rest

module _ (f : FloatOps) (wide : ℕ → ℕ → Bool) (threshold : f.F) (dist1 dist2 : ℕ → ℕ → ℕ)
    (range : ℕ) where
  -- The new list of des.
  unfoldable pub linked_edges : ℕ → DegNeighbor → List DegNeighbor → Option (List DegNeighbor)
  unfolding prune_neighbors_no_opt dummy_neighbors
  linked_edges n des des_pool =
      if has_edge n des_pool
      then some des_pool
      else if ltb (length des_pool) range
      then some (des_pool ++ back_edge n des ∷ [])
      else prune_neighbors_no_opt f wide threshold dist1 dist2 range
          (dummy_neighbors des.id [] (map candidate_of (des_pool ++ back_edge n des ∷ [])))

  unfoldable pub inter_insert :
      ℕ → List DegNeighbor → (ℕ → List DegNeighbor) → Option (ℕ → List DegNeighbor)
  unfolding linked_edges
  inter_insert n [] g = some g
  inter_insert n (des ∷ more) g = elim (linked_edges n des (g des.id)) [
    | none ↦ none
    | some es ↦ inter_insert n more (assign_edges des.id es g)
  ]
