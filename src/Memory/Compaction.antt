-- ===== src/Memory/Compaction.antt =====
-- consolidate_deletes but for the repair of the graph, and compact_data, of src/index.cpp: the slots,
-- and the graph that compact_data moves.
use hvs_disk.Base.{
  ℕ, zero, suc, ◌+◌, ◌-◌, ◌^◌, List, [], ◌∷◌, Option, none, some, true, false, not, ◌&&◌, ltb, leb,
  ◌==◌, if◌then◌else◌, length, get_or,
}
use hvs_disk.Base.HashMap.{HashMap, Iterates}
use hvs_disk.Base.HashSet.{HashSet}
use hvs_disk.Memory.{Memory, is_some, insert_slots, insert_all}
use hvs_disk.Memory.Moving.{move_points, new_start}

-- size_t.
abbrev pub minus : ℕ → ℕ → ℕ
minus a b = if leb b a then a - b else a + 2 ^ 64 - b

module _ (m : HashMap ℕ) where
  -- new_location: the locations that have a tag are numbered in their order.
  unfoldable pub new_locations : m.Table → ℕ → ℕ → ℕ → ℕ → List ℕ
  new_locations location_to_tag max_points zero old_counter new_counter = []
  new_locations location_to_tag max_points (suc left) old_counter new_counter =
      let live = is_some (m.find old_counter location_to_tag) in
      (if live then new_counter else max_points)
      ∷ new_locations location_to_tag max_points left (suc old_counter)
          (if live then new_counter + 1 else new_counter)

  -- Each entry (a, b) sets the value of b.
  unfoldable pub refill : (ℕ → ℕ) → List (ℕ × ℕ) → m.Table → m.Table
  refill f [] t = t
  refill f ((a, b) ∷ es) t = refill f es (m.insert_or_assign b (f a) t)

module _ (s : HashSet) (m : HashMap ℕ) where
  -- The slots after the repair of the graph; the first component is the number of points left.
  unfoldable pub consolidate_deletes : Memory s m → ℕ × Memory s m
  unfolding insert_all
  consolidate_deletes d =
      let deleted = s.elements d.delete_set in
      let nd' = minus d.nd (length deleted) in
      if d.eager_done then (0, d) else (
        nd',
        record d {
          empty_slots = insert_all s m deleted d.empty_slots;
          nd = nd';
          data_compacted = length deleted == 0;
        },
      )

  module _ (it : Iterates m) where
    -- new_location; num_frozen_pts is 1.
    abbrev pub renumbered : Memory s m → ℕ → ℕ
    renumbered d old =
        get_or (new_locations m d.location_to_tag d.max_points (d.max_points + 1) 0 0) old 0

    -- The slots after compact_data.
    unfoldable pub compact_slots : Memory s m → Memory s m
    unfolding new_locations refill insert_slots
    compact_slots d =
        let tags = refill m (renumbered d) (it.entries d.location_to_tag) m.empty in
        record d {
          tag_to_location = tags;
          location_to_tag = refill m (λ (location : ℕ). location) (it.entries tags) m.empty;
          delete_set = s.empty;
          empty_slots = insert_slots s m (d.max_points - d.nd) d.nd s.empty;
          lazy_done = false;
          eager_done = false;
          data_compacted = true;
        }

    abbrev pub cleared : Memory s m → (ℕ → List ℕ) → ℕ → List ℕ
    cleared d g i = if leb d.nd i && ltb i d.max_points then [] else g i

    abbrev pub with_moved :
        Memory s m → ℕ → Option (ℕ → List ℕ) → Option (ℕ × ((ℕ → List ℕ) × Memory s m))
    with_moved d ep none = none
    with_moved d ep (some g) = some (ep, (cleared d g, compact_slots d))

    abbrev pub with_start :
        Memory s m → (ℕ → List ℕ) → Option ℕ → Option (ℕ × ((ℕ → List ℕ) × Memory s m))
    with_start d g none = none
    with_start d g (some ep) =
        with_moved d ep (move_points (renumbered d) d.max_points (d.max_points + 1) 0 g)

    -- The start node, the graph and the slots after compact_data; `none` is a crash.
    unfoldable pub compact_data :
        ℕ → (ℕ → List ℕ) → Memory s m → Option (ℕ × ((ℕ → List ℕ) × Memory s m))
    unfolding compact_slots move_points
    compact_data ep g d =
        if not d.dynamic_index
        then some (ep, (g, d))
        else if not d.lazy_done && not d.eager_done
        then some (ep, (g, d))
        else if d.data_compacted
        then some (ep, (g, d))
        else with_start d g (new_start (λ (l : ℕ). s.has l d.delete_set) ep (g ep))

    -- g is the graph after the repair in consolidate_deletes.
    unfoldable pub consolidate :
        ℕ → (ℕ → List ℕ) → Memory s m → Option (ℕ × ((ℕ → List ℕ) × Memory s m))
    unfolding consolidate_deletes compact_data
    consolidate ep g d = compact_data ep g (consolidate_deletes d).1
