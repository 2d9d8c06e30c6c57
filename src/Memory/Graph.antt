-- ===== src/Memory/Graph.antt =====
-- The repair of the graph in consolidate_deletes of src/index.cpp, with occlude_list of that file.
-- The graph is a function from locations to lists of neighbours. The nodes are repaired in one
-- order: a repair reads the lists of the node and of deleted ones only, and writes that of the node.
pub mod Occlude
pub mod Repair
pub mod Whole
use hvs_disk.Base.{
  ℕ, zero, suc, List, [], ◌∷◌, ◌++◌, Option, none, some, Bool, true, false, not, ◌&&◌, ◌||◌, ltb,
  leb, min, ◌==◌, if◌then◌else◌, length, get_or, set, map, replicate, max_float, one_float,
}
use hvs_disk.Base.HashSet.{HashSet}
use hvs_disk.Prune.Occlude.{Neighbor, Setting, alphas, sort_pool}

-- range, maxc and alpha are those of the parameters; the result is a vector here.
module _ (s : Setting) where
  abbrev pub push_back : Neighbor → List Neighbor → List Neighbor
  push_back p result = result ++ p ∷ []

  -- From an empty result.
  unfoldable pub occlude_list : ℕ → List Neighbor → Option (List Neighbor)
  occlude_list fuel [] = some []
  occlude_list fuel (p ∷ ps) =
      alphas s push_back fuel (p ∷ ps) one_float
        (record { result_set = []; occlude_factor = replicate (length (p ∷ ps)) 0 })

  module _ (h : HashSet) (delete_set empty_slots : h.Table) (fuel : ℕ) where
    abbrev pub Graph : Type 0
    Graph = ℕ → List ℕ

    abbrev pub assign : ℕ → List ℕ → Graph → Graph
    assign i ns g j = if i == j then ns else g j

    -- The outgoing links of a deleted neighbour.
    unfoldable pub add_links : List ℕ → h.Table → h.Table
    add_links [] candidates = candidates
    add_links (j ∷ js) candidates =
        add_links js (if h.has j delete_set then candidates else h.insert j candidates)

    -- The loop over the neighbours of a node: modify and candidate_set.
    unfoldable pub gather : Graph → List ℕ → Bool → h.Table → Bool × h.Table
    unfolding add_links
    gather g [] modify candidates = (modify, candidates)
    gather g (n ∷ ns) modify candidates =
        if h.has n delete_set
        then gather g ns true (add_links (g n) candidates)
        else gather g ns modify (h.insert n candidates)

    unfoldable pub keep : ℕ → List Neighbor → List ℕ
    keep i [] = []
    keep i (p ∷ ps) =
        let rest = keep i ps in
        if not (p.id == i) && not (h.has p.id delete_set) then p.id ∷ rest else rest

    abbrev pub pool_of : ℕ → h.Table → List Neighbor
    pool_of i candidates =
        map (λ (j : ℕ). record { id = j; distance = s.pq_dist i j }) (h.elements candidates)

    abbrev pub kept_of : ℕ → Option (List Neighbor) → Option (List ℕ)
    kept_of i none = none
    kept_of i (some result) = some (keep i result)

    unfoldable pub repaired : Graph → ℕ → Option (List ℕ)
    unfolding gather keep occlude_list
    repaired g i =
        let r = gather g (g i) false h.empty in
        if r.0 then kept_of i (occlude_list fuel (sort_pool (pool_of i r.1))) else some (g i)

    -- The nodes from i on, as many as are left.
    unfoldable pub repair : ℕ → ℕ → Graph → Option Graph
    unfolding repaired
    repair zero i g = some g
    repair (suc left) i g =
        if h.has i delete_set || h.has i empty_slots
        then repair left (suc i) g
        else elim (repaired g i) [ none ↦ none | some ns ↦ repair left (suc i) (assign i ns g) ]
