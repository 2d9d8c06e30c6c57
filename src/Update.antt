-- ===== src/Update.antt =====
-- Moving records after an insertion: id2loc_, id2loc and verify_id2loc of include/ssd_index.h, and the
-- end of insert_in_place in src/update/direct_insert.cpp, which gives new locations to the target and
-- to its neighbours (without NO_MAPPING and IN_PLACE_RECORD_UPDATE).
pub mod Lookup
pub mod Mapping
pub mod Agree
pub mod Consistent
pub mod Insert
pub mod Writes
mod Tests
use hvs_disk.Base.{
  ℕ, zero, suc, ◌+◌, List, [], ◌∷◌, ◌++◌, Option, none, some, Bool, true, false, ltb, ◌==◌, ◌&&◌,
  length, get_elem?, u32,
}
use hvs_disk.Base.HashMap.{HashMap}
use hvs_disk.Layout.Sector.{Geometry}
use hvs_disk.Layout.Slots.{PageArr, Slots, loc2id, erase_and_set_loc}
use hvs_disk.Locks.{id2loc}
use hvs_disk.Layout.Alloc.{Space, alloc_loc}

-- The maps from ids to locations and from locations to ids.
pub record Index (m : HashMap ℕ) (h : HashMap PageArr) : Type 0 where
  pub id2loc_ : m.Table
  pub space : Space h

module _ (m : HashMap ℕ) (g : Geometry) where
  -- The loop that collects the old locations and enters the new ones; `none` is the crash of id2loc,
  -- or a read past the end of locs.
  unfoldable pub move_ids : List ℕ → List ℕ → m.Table → Option (m.Table × List ℕ)
  unfolding id2loc
  move_ids [] locs t = some (t, [])
  move_ids (id ∷ ids) [] t = none
  move_ids (id ∷ ids) (l ∷ ls) t = elim (id2loc m g t id) [
    | none ↦ none
    | some old ↦ elim (move_ids ids ls (m.insert_or_assign id (u32 l) t)) [
      | none ↦ none
      | some r ↦ some (r.0, old ∷ r.1)
    ]
  ]

module _ (m : HashMap ℕ) (h : HashMap PageArr) (g : Geometry) where
  unfoldable pub update_locs : ℕ → List ℕ → List ℕ → Index m h → Option (Index m h)
  unfolding move_ids
  update_locs target_id new_nhood locs x = elim (get_elem? locs (length new_nhood)) [
    | none ↦ none
    | some l ↦ elim (move_ids m g new_nhood locs (m.insert_or_assign target_id (u32 l) x.id2loc_)) [
      | none ↦ none
      | some r ↦
          let slots = erase_and_set_loc h g x.space.slots r.1 locs (new_nhood ++ target_id ∷ []) in
          some
            (record { id2loc_ = r.0; space = record { slots = slots; cur_loc = x.space.cur_loc } })
    ]
  ]

  -- Allocation and move of one insertion, with the pages read for it as hints.
  unfoldable pub insert_records : ℕ → List ℕ → List ℕ → Index m h → Option (Index m h)
  unfolding update_locs
  insert_records target_id new_nhood page_ref x =
      elim (alloc_loc h g (length new_nhood + 1) page_ref x.space) [
        | none ↦ none
        | some r ↦ update_locs target_id new_nhood r.1 (record { id2loc_ = x.id2loc_; space = r.0 })
      ]

  -- The first loop of verify_id2loc over the ids below n; false is the crash.
  unfoldable pub verify_id2loc : ℕ → Index m h → Bool
  unfolding id2loc
  verify_id2loc zero x = true
  verify_id2loc (suc n) x =
      let rest = verify_id2loc n x in
      elim (id2loc m g x.id2loc_ n) [
        | none ↦ false
        | some loc ↦ ltb loc x.space.cur_loc && ((loc2id h g x.space.slots loc == n) && rest)
      ]
