-- ===== src/Memory/Calls.antt =====
-- The calls of the dynamic index in memory, src/index.cpp, in any order.
use hvs_disk.Base.{ℕ, List, [], ◌∷◌, Option, none, some}
use hvs_disk.Base.HashMap.{HashMap, Iterates}
use hvs_disk.Base.HashSet.{HashSet}
use hvs_disk.Memory.{Memory, insert_point, lazy_delete, lazy_delete_all}
use hvs_disk.Memory.Compaction.{consolidate}

-- The calls that change the slots.
pub data Call : Type 0 where
  insert_tag : ℕ → Call
  delete_tag : ℕ → Call
  delete_tags : List ℕ → Call
  compact : Call

module _ (s : HashSet) (m : HashMap ℕ) where
  -- `graph` is the graph after the repair, and the start node is the frozen point.
  module _ (it : Iterates m) (grow : ℕ → ℕ) (search : Memory s m → ℕ → List ℕ)
      (graph : Memory s m → ℕ → List ℕ) where
    unfoldable pub step : Memory s m → Call → Option (Memory s m)
    unfolding insert_point lazy_delete lazy_delete_all consolidate
    step d (insert_tag tag) = elim (insert_point s m grow search d tag) [
      | none ↦ none
      | some r ↦ some r.1
    ]
    step d (delete_tag tag) = some (lazy_delete s m d tag).1
    step d (delete_tags tags) = some (lazy_delete_all s m d tags []).1.1
    step d compact = elim (consolidate s m it d.max_points (graph d) d) [
      | none ↦ none
      | some r ↦ some r.1.1
    ]

    unfoldable pub run : Memory s m → List Call → Option (Memory s m)
    unfolding step
    run d [] = some d
    run d (c ∷ cs) = elim (step d c) [ none ↦ none | some d' ↦ run d' cs ]
