-- ===== src/Topo.antt =====
-- Topology and coordinates stored apart, each with its own map from ids to locations, page layout and
-- queue of free locations: id2loc_topo, id2page_topo, verify_id2loc_topo and their _coord copies of
-- include/ssd_index.h, the choice of locations in src/update/direct_to_topo_insert.cpp (without
-- use_topo_reorder) and the last loop of src/update/trigger_deletion.cpp (with USE_TOPO_DISK).
-- alloc_lock makes each choice and each deletion one step.
pub mod Placed
pub mod Checks
pub mod Runs
mod Tests
use hvs_disk.Base.{
  ℕ, zero, suc, ◌+◌, List, [], ◌∷◌, ◌++◌, Option, none, some, Bool, true, ltb, ◌==◌, ◌&&◌, ◌||◌,
  if◌then◌else◌, u32,
}
use hvs_disk.Base.HashMap.{HashMap}
use hvs_disk.Layout.Sector.{Geometry}
use hvs_disk.Layout.Slots.{
  invalid_id, allocated_id, PageArr, Kind, topo_kind, coord_kind, Slots, slot_get, slot_set,
  slot_erase,
}

-- One of the two: where its records stand and where the used space ends.
pub record Part (m : HashMap ℕ) (h : HashMap PageArr) : Type 0 where
  pub id2loc_ : m.Table
  pub slots : Slots h
  pub cur_loc : ℕ

module _ (m : HashMap ℕ) (h : HashMap PageArr) (k : Kind) where
  unfoldable pub find_loc : Part m h → ℕ → ℕ
  find_loc p id = elim (m.find id p.id2loc_) [ none ↦ invalid_id | some loc ↦ loc ]

  unfoldable pub id2page_part : Part m h → ℕ → ℕ
  unfolding find_loc
  id2page_part p id =
      let loc = find_loc p id in if loc == invalid_id then invalid_id else k.sector_no loc

  -- pop of the queue of free locations: without one, kInvalidID.
  abbrev pub pop_loc : List ℕ → ℕ × List ℕ
  pop_loc [] = (invalid_id, [])
  pop_loc (l ∷ ls) = (l, ls)

  -- A free location, or the next at the end of the used space.
  unfoldable pub next_loc : Part m h → ℕ × Part m h
  next_loc p =
      let (empty_loc, queue) = pop_loc p.slots.empty_locs in
      let popped = record p { slots = record p.slots { empty_locs = queue } } in
      if empty_loc == invalid_id
      then (u32 p.cur_loc, record popped { cur_loc = p.cur_loc + 1 })
      else (empty_loc, popped)

  unfoldable pub place : ℕ → Part m h → Part m h
  unfolding next_loc
  place id p =
      let (l, p') = next_loc p in
      record p' { id2loc_ = m.insert_or_assign id l p'.id2loc_; slots = slot_set h k p'.slots l id }

  -- erase_loc2id_topo and erase_loc2id_coord at the location of an id.
  unfoldable pub remove : ℕ → Part m h → Part m h
  unfolding find_loc
  remove id p =
      let l = find_loc p id in
      record p {
        slots = slot_erase h k (record p.slots { empty_locs = p.slots.empty_locs ++ l ∷ [] }) l;
      }

  -- The first loop of the check over the ids below n; false is the crash.
  unfoldable pub verify_part : ℕ → m.Table → Part m h → Bool
  unfolding find_loc
  verify_part zero tags p = true
  verify_part (suc n) tags p =
      let rest = verify_part n tags p in
      let loc = find_loc p n in
      elim (m.find n tags) [
        | none ↦ rest
        | some tag ↦ ltb loc p.cur_loc && ((slot_get h k p.slots loc == n) && rest)
      ]

  -- The second loop, over the locations below n; false is an inconsistency, which is only logged.
  unfoldable pub verify_locs : ℕ → Part m h → Bool
  unfolding find_loc
  verify_locs zero p = true
  verify_locs (suc n) p =
      let rest = verify_locs n p in
      let id = slot_get h k p.slots n in
      if (id == invalid_id) || (id == allocated_id) then rest else (find_loc p id == n) && rest

  -- Both loops: `none` is the crash, and the flag says whether the second loop finds no inconsistency.
  unfoldable pub verify_id2loc_part : ℕ → m.Table → Part m h → Option Bool
  unfolding verify_part verify_locs
  verify_id2loc_part n tags p =
      if verify_part n tags p then some (verify_locs p.cur_loc p) else none

-- Both parts, and the tags of the ids that stand in them.
pub record Parts (m : HashMap ℕ) (h : HashMap PageArr) : Type 0 where
  pub topo : Part m h
  pub coord : Part m h
  pub tags : m.Table

module _ (m : HashMap ℕ) (h : HashMap PageArr) (g : Geometry) where
  unfoldable pub id2loc_topo : Parts m h → ℕ → ℕ
  unfolding find_loc
  id2loc_topo s id = find_loc m h (topo_kind g) s.topo id

  unfoldable pub id2loc_coord : Parts m h → ℕ → ℕ
  unfolding find_loc
  id2loc_coord s id = find_loc m h (coord_kind g) s.coord id

  unfoldable pub id2page_topo : Parts m h → ℕ → ℕ
  unfolding id2page_part
  id2page_topo s id = id2page_part m h (topo_kind g) s.topo id

  unfoldable pub id2page_coord : Parts m h → ℕ → ℕ
  unfolding id2page_part
  id2page_coord s id = id2page_part m h (coord_kind g) s.coord id

  unfoldable pub insert_target : ℕ → ℕ → Parts m h → Parts m h
  unfolding place
  insert_target target_id tag s = record {
    topo = place m h (topo_kind g) target_id s.topo;
    coord = place m h (coord_kind g) target_id s.coord;
    tags = m.insert_or_assign target_id tag s.tags;
  }

  -- One round of the loop over the deleted ids.
  unfoldable pub delete_id : ℕ → Parts m h → Parts m h
  unfolding remove
  delete_id id s = record {
    topo = remove m h (topo_kind g) id s.topo;
    coord = remove m h (coord_kind g) id s.coord;
    tags = m.erase id s.tags;
  }

  unfoldable pub verify_id2loc_topo : ℕ → Parts m h → Option Bool
  unfolding verify_id2loc_part
  verify_id2loc_topo n s = verify_id2loc_part m h (topo_kind g) n s.tags s.topo

  unfoldable pub verify_id2loc_coord : ℕ → Parts m h → Option Bool
  unfolding verify_id2loc_part
  verify_id2loc_coord n s = verify_id2loc_part m h (coord_kind g) n s.tags s.coord
