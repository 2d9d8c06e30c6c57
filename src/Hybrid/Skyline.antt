-- ===== src/Hybrid/Skyline.antt =====
-- NeighborH of include/neighbor.h and the skyline layers of src/hybrid_index.cpp: findSkyline, the
-- loops around it in prune_neighbors_no_opt and init_queue, and the sort before them. Points that tie
-- in all three keys of the order are the same point, so insertion stands for std::sort.
pub mod Parts
pub mod Layers
pub mod Order
use hvs_disk.Base.{
  ℕ, zero, suc, ◌+◌, List, [], ◌∷◌, ◌++◌, Option, none, some, Bool, true, false, not, ltb, ◌==◌,
  ◌&&◌, ◌||◌, if◌then◌else◌, length, map, max_float,
}

pub record NeighborH : Type 0 where
  pub id : ℕ
  pub distance1 : ℕ
  pub distance2 : ℕ
  pub flag : Bool
  pub layer : ℕ

-- `<` of NeighborH
pub neighbor_lt : NeighborH → NeighborH → Bool
neighbor_lt a b =
    ltb a.distance2 b.distance2
    || ((a.distance2 == b.distance2) && ltb a.distance1 b.distance1)
    || ((a.distance2 == b.distance2) && (a.distance1 == b.distance1) && ltb a.id b.id)

unfoldable pub insert_neighbor : NeighborH → List NeighborH → List NeighborH
insert_neighbor p [] = p ∷ []
insert_neighbor p (q ∷ qs) =
    let rest = insert_neighbor p qs in if neighbor_lt q p then q ∷ rest else p ∷ q ∷ qs

unfoldable pub sort_neighbors : List NeighborH → List NeighborH
unfolding insert_neighbor
sort_neighbors [] = []
sort_neighbors (p ∷ ps) = insert_neighbor p (sort_neighbors ps)

-- The skyline and the remaining points, by the least embedding distance so far.
unfoldable pub skyline : ℕ → List NeighborH → List NeighborH × List NeighborH
skyline least [] = ([], [])
skyline least (p ∷ ps) =
    let better = ltb p.distance1 least in
    let rest = skyline (if better then p.distance1 else least) ps in
    if better then (p ∷ rest.0, rest.1) else (rest.0, p ∷ rest.1)

unfoldable pub find_skyline : List NeighborH → List NeighborH × List NeighborH
unfolding skyline
find_skyline points = skyline max_float points

abbrev pub in_layer : ℕ → NeighborH → NeighborH
in_layer l p = record p { flag = true; layer = l }

abbrev pub then_layer : List NeighborH → Option (List NeighborH) → Option (List NeighborH)
then_layer ps none = none
then_layer ps (some qs) = some (ps ++ qs)

-- `while (!pool.empty())`; `none` is out of fuel.
unfoldable pub layer_loop : ℕ → ℕ → List NeighborH → Option (List NeighborH)
unfolding find_skyline
layer_loop fuel l [] = some []
layer_loop zero l (p ∷ ps) = none
layer_loop (suc fuel) l (p ∷ ps) =
    let parts = find_skyline (p ∷ ps) in
    then_layer (map (in_layer l) parts.0) (layer_loop fuel (suc l) parts.1)

-- The pool of prune_neighbors_no_opt: sorted and put in layers.
unfoldable pub layered : List NeighborH → Option (List NeighborH)
unfolding sort_neighbors layer_loop
layered pool = layer_loop (length pool) 0 (sort_neighbors pool)
