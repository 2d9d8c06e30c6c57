-- ===== src/Memory/Link.antt =====
-- prune_neighbors and inter_insert of src/index.cpp: the lists of neighbours of the index in memory,
-- a function from locations. A list is read, pruned and written under its lock or in one step.
pub mod Bounds
pub mod Reverse
use hvs_disk.Base.{
  ℕ, List, [], ◌∷◌, ◌++◌, Option, none, some, Bool, not, ◌&&◌, ltb, ◌==◌, if◌then◌else◌, length,
  map, contains, one_float,
}
use hvs_disk.Prune.Occlude.{Neighbor, Setting, sort_pool, holds_id}
use hvs_disk.Memory.Graph.{occlude_list}

abbrev pub assign_list : ℕ → List ℕ → (ℕ → List ℕ) → ℕ → List ℕ
assign_list i ns g j = if i == j then ns else g j

unfoldable pub without_self : ℕ → List Neighbor → List Neighbor
without_self location [] = []
without_self location (p ∷ ps) =
    let rest = without_self location ps in if p.id == location then rest else p ∷ rest

-- The last sort is by the distance alone: a parameter. `slack` is SLACK_FACTOR * range.
module _ (s : Setting) (saturate_graph : Bool) (sort_by_distance : List Neighbor → List Neighbor)
    (slack fuel : ℕ) where
  unfoldable pub saturate : ℕ → List Neighbor → List Neighbor → List Neighbor
  saturate location acc [] = acc
  saturate location acc (p ∷ ps) =
      let new = not (holds_id acc p.id) && not (p.id == location) in
      let more = saturate location (if new then acc ++ p ∷ [] else acc) ps in
      if ltb (length acc) s.range then more else acc

  abbrev pub pruned_of : ℕ → List Neighbor → Option (List Neighbor) → Option (List ℕ)
  pruned_of location pool none = none
  pruned_of location pool (some result) =
      let kept = without_self location result in
      let pruned : List Neighbor =
        if saturate_graph && ltb one_float s.alpha then saturate location kept pool else kept in
      some (map (λ (p : Neighbor). p.id) (sort_by_distance pruned))

  -- An empty pool is a crash.
  unfoldable pub prune_neighbors : ℕ → List Neighbor → Option (List ℕ)
  unfolding without_self saturate occlude_list
  prune_neighbors location [] = none
  prune_neighbors location (p ∷ ps) =
      let pool = sort_pool (p ∷ ps) in pruned_of location pool (occlude_list s fuel pool)

  -- dummy_pool: the entries but des, once each.
  unfoldable pub dummy_pool : ℕ → List ℕ → List ℕ → List Neighbor
  dummy_pool des visited [] = []
  dummy_pool des visited (c ∷ cs) =
      let more = dummy_pool des (c ∷ visited) cs in
      let same = dummy_pool des visited cs in
      if not (contains visited c) && not (c == des)
      then record { id = c; distance = s.pq_dist des c } ∷ more
      else same

  -- The new list of des.
  unfoldable pub linked : ℕ → (ℕ → List ℕ) → ℕ → Option (List ℕ)
  unfolding prune_neighbors dummy_pool
  linked n g des =
      if contains (g des) n
      then some (g des)
      else if ltb (length (g des)) slack
      then some (g des ++ n ∷ [])
      else prune_neighbors des (dummy_pool des [] (g des ++ n ∷ []))

  unfoldable pub inter_insert : ℕ → List ℕ → (ℕ → List ℕ) → Option (ℕ → List ℕ)
  unfolding linked
  inter_insert n [] g = some g
  inter_insert n (des ∷ more) g = elim (linked n g des) [
    | none ↦ none
    | some ns ↦ inter_insert n more (assign_list des ns g)
  ]
