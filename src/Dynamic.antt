-- ===== src/Dynamic.antt =====
-- DynamicSSDIndex of src/update/dynamic_index.cpp and include/v2/dynamic_index.h: deletions are
-- collected in one of two epochs while the other is merged into the disk index. The locks make each
-- call one step. The search of the disk index enters as its list of candidates; the journal's calls
-- do nothing and the merge itself works on the files.
pub mod Deletion
pub mod Search
mod Tests
use hvs_disk.Base.{
  ℕ, zero, suc, ◌+◌, List, [], ◌∷◌, ◌++◌, Option, none, some, Bool, true, false, not, ◌==◌,
  if◌then◌else◌,
}
use hvs_disk.Base.HashMap.{HashMap}

-- deletion_sets[i], deleted_tags[i] and active_del[i]. A robin_set is a map to the unit type.
pub record Epoch (h : HashMap (Unit {0})) : Type 0 where
  pub deletion_set : h.Table
  pub deleted_tags : List ℕ
  pub active_del : Bool

pub record Dynamic (h : HashMap (Unit {0})) : Type 0 where
  pub active_delete_set : Bool
  pub epoch0 : Epoch h
  pub epoch1 : Epoch h

abbrev pub found : Option (Unit {0}) → Bool
found none = false
found (some u) = true

-- A candidate of the disk search: its tag and the bit pattern of its distance.
pub record NeighborTag : Type 0 where
  pub tag : ℕ
  pub dist : ℕ

module _ (h : HashMap (Unit {0})) where
  abbrev pub epoch : Bool → Dynamic h → Epoch h
  epoch false d = d.epoch0
  epoch true d = d.epoch1

  abbrev pub set_epoch : Bool → Epoch h → Dynamic h → Dynamic h
  set_epoch false e d = record d { epoch0 = e }
  set_epoch true e d = record d { epoch1 = e }

  abbrev pub is_deleted : Epoch h → ℕ → Bool
  is_deleted e tag = found (h.find tag e.deletion_set)

  -- The constructor: both sets empty, the first one active.
  pub init : Dynamic h
  init = record {
    active_delete_set = false;
    epoch0 = record { deletion_set = h.empty; deleted_tags = []; active_del = true };
    epoch1 = record { deletion_set = h.empty; deleted_tags = []; active_del = false };
  }

  -- An inactive set is reported in the log only.
  pub lazy_delete : Dynamic h → ℕ → Dynamic h
  lazy_delete d tag =
      let e = epoch d.active_delete_set d in
      if is_deleted e tag
      then d
      else set_epoch d.active_delete_set
          (record e {
            deletion_set = h.insert_or_assign tag tt e.deletion_set;
            deleted_tags = e.deleted_tags ++ tag ∷ [];
          })
          d

  -- The exchange of active_del[nxt] from false to true leaves it true in either case.
  pub save_del_set : Dynamic h → Dynamic h
  save_del_set d =
      let cur = d.active_delete_set in
      let nxt = not cur in
      let cleared : Epoch h = record {
        deletion_set = h.empty;
        deleted_tags = [];
        active_del = true;
      } in
      let d' : Dynamic h = record (set_epoch nxt cleared d) { active_delete_set = nxt } in
      set_epoch cur (record (epoch cur d') { active_del = false }) d'

  -- The filter at the end of search: what is written to tags and distances, in order.
  pub collect : Epoch h → ℕ → ℕ → List NeighborTag → List NeighborTag
  collect e k pos [] = []
  collect e k pos (c ∷ cs) =
      let live = not (is_deleted e c.tag) in
      let pos' : ℕ = if live then pos + 1 else pos in
      let rest = collect e k pos' cs in
      let more = if pos' == k then [] else rest in if live then c ∷ more else more

  unfoldable pub search : Dynamic h → ℕ → List NeighborTag → List NeighborTag
  unfolding collect
  search d k candidates = collect (epoch d.active_delete_set d) k 0 candidates

  -- The calls that change the state; final_merge and trigger_deletion both begin with save_del_set.
  pub data Call : Type 0 where
    delete_tag : ℕ → Call
    merge_epoch : Call

  pub step : Dynamic h → Call → Dynamic h
  unfolding lazy_delete save_del_set
  step d (delete_tag tag) = lazy_delete d tag
  step d merge_epoch = save_del_set d

  pub run : Dynamic h → List Call → Dynamic h
  unfolding step
  run d [] = d
  run d (c ∷ cs) = run (step d c) cs
