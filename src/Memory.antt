-- ===== src/Memory.antt =====
-- The slots of the dynamic index in memory, src/index.cpp: which of the max_points locations are
-- empty, deleted, or hold the vector of a tag. The vectors are left; the graph is apart, in Graph and
-- Link, and an argument of compact_data, which moves it. A call that runs under the locks is one step.
pub mod Moving
pub mod Compaction
pub mod Calls
pub mod Slots
pub mod Valid
pub mod Reserve
pub mod Insert
pub mod Delete
pub mod Renumber
pub mod Moves
pub mod Compact
pub mod Renamed
pub mod Packed
pub mod Consolidate
pub mod Runs
pub mod Graph
pub mod Link
mod Tests
use hvs_disk.Base.{
  ℕ, zero, suc, ◌+◌, ◌-◌, ◌^◌, List, [], ◌∷◌, ◌++◌, Option, none, some, Bool, true, false, not,
  ◌&&◌, ◌||◌, ltb, leb, ◌==◌, if◌then◌else◌, length, get_or, map,
}
use hvs_disk.Base.Int.{ℤ, pos, negsuc}
use hvs_disk.Base.HashMap.{HashMap, Iterates}
use hvs_disk.Base.HashSet.{HashSet}
use hvs_disk.Memory.Moving.{move_points, new_start, erase_first, is_empty}

pub record Memory (s : HashSet) (m : HashMap ℕ) : Type 0 where
  pub nd : ℕ
  pub max_points : ℕ
  pub dynamic_index : Bool
  pub enable_tags : Bool
  pub eager_done : Bool
  pub lazy_done : Bool
  pub data_compacted : Bool
  pub empty_slots : s.Table
  pub delete_set : s.Table
  pub tag_to_location : m.Table
  pub location_to_tag : m.Table

-- What reserve_location gives: -1, the failed assertion that there is an empty slot, or a location.
pub data Reserved (s : HashSet) (m : HashMap ℕ) : Type 0 where
  full : Reserved s m
  no_slot : Reserved s m
  reserved : ℕ → Memory s m → Reserved s m

abbrev pub is_some : {A : Type 0} → Option A → Bool
is_some none = false
is_some (some a) = true

module _ (s : HashSet) (m : HashMap ℕ) where
  -- The slots from the first one on, as many as are left of the loop.
  unfoldable pub insert_slots : ℕ → ℕ → s.Table → s.Table
  insert_slots zero slot t = t
  insert_slots (suc left) slot t = insert_slots left (slot + 1) (s.insert slot t)

  unfoldable pub insert_all : List ℕ → s.Table → s.Table
  insert_all [] t = t
  insert_all (x ∷ xs) t = insert_all xs (s.insert x t)

  -- The constructor.
  abbrev pub created : (max_points : ℕ) (dynamic_index enable_tags : Bool) → Memory s m
  created max_points dynamic_index enable_tags = record {
    nd = 0;
    max_points = if max_points == 0 then 1 else max_points;
    dynamic_index = dynamic_index;
    enable_tags = dynamic_index || enable_tags;
    eager_done = false;
    lazy_done = false;
    data_compacted = true;
    empty_slots = s.empty;
    delete_set = s.empty;
    tag_to_location = m.empty;
    location_to_tag = m.empty;
  }

  unfoldable pub enable_delete : Memory s m → ℤ × Memory s m
  unfolding insert_slots
  enable_delete d =
      if not d.enable_tags
      then (negsuc 1, d)
      else let slots = insert_slots (d.max_points - d.nd) d.nd d.empty_slots in
        (
          pos 0,
          record d {
            empty_slots = if d.data_compacted then slots else d.empty_slots;
            lazy_done = false;
            eager_done = false;
          },
        )

  unfoldable pub reserve_location : Memory s m → Reserved s m
  reserve_location d =
      if leb d.max_points d.nd
      then full
      else if d.data_compacted
      then reserved d.nd (record d { empty_slots = s.erase d.nd d.empty_slots; nd = d.nd + 1 })
      else elim (s.elements d.empty_slots) [
        | [] ↦ no_slot
        | location ∷ more ↦ reserved location (record d {
          empty_slots = s.erase location d.empty_slots;
          delete_set = s.erase location d.delete_set;
          nd = d.nd + 1;
        })
      ]

  -- The location of a tag becomes a deleted one.
  abbrev pub drop_tag : ℕ → ℕ → Memory s m → Memory s m
  drop_tag tag location d = record d {
    delete_set = s.insert location d.delete_set;
    location_to_tag = m.erase location d.location_to_tag;
    tag_to_location = m.erase tag d.tag_to_location;
  }

  unfoldable pub lazy_delete : Memory s m → ℕ → ℤ × Memory s m
  lazy_delete d tag =
      if d.eager_done && not d.data_compacted
      then (negsuc 1, d)
      else let d' : Memory s m = record d { lazy_done = true } in
        elim (m.find tag d.tag_to_location) [
          | none ↦ (negsuc 0, d')
          | some location ↦ (pos 0, drop_tag tag location d')
        ]

  -- The loop of the lazy_delete of many tags, with the failed ones.
  unfoldable pub drop_tags : List ℕ → List ℕ → Memory s m → List ℕ × Memory s m
  drop_tags [] failed_tags d = (failed_tags, d)
  drop_tags (tag ∷ tags) failed_tags d = elim (m.find tag d.tag_to_location) [
    | none ↦ drop_tags tags (failed_tags ++ tag ∷ []) d
    | some location ↦ drop_tags tags failed_tags (drop_tag tag location d)
  ]

  unfoldable pub lazy_delete_all : Memory s m → List ℕ → List ℕ → ℤ × (List ℕ × Memory s m)
  unfolding drop_tags
  lazy_delete_all d tags failed_tags =
      if ltb 0 (length failed_tags)
      then (negsuc 2, (failed_tags, d))
      else if d.eager_done && not d.data_compacted
      then (negsuc 1, (failed_tags, d))
      else (pos 0, drop_tags tags failed_tags (record d { lazy_done = true }))

  unfoldable pub resize : ℕ → Memory s m → Memory s m
  unfolding insert_slots
  resize new_max_points d = record d {
    max_points = new_max_points;
    empty_slots = insert_slots (new_max_points - d.nd) d.nd d.empty_slots;
  }

  -- The old location of a tag that is inserted again.
  unfoldable pub drop_old : ℕ → Memory s m → Memory s m
  drop_old tag d = elim (m.find tag d.tag_to_location) [
    | none ↦ d
    | some location ↦
        if d.enable_tags then drop_tag tag location (record d { lazy_done = true }) else d
  ]

  unfoldable pub set_tag : ℕ → Reserved s m → Option (ℕ × Memory s m)
  set_tag tag full = none
  set_tag tag no_slot = none
  set_tag tag (reserved location d) = some (
    location,
    record d {
      tag_to_location = m.insert_or_assign tag location d.tag_to_location;
      location_to_tag = m.insert_or_assign location tag d.location_to_tag;
    },
  )

  -- The growth of a full index; `grow` is the product with INDEX_GROWTH_FACTOR.
  unfoldable pub enlarge : (ℕ → ℕ) → Memory s m → Memory s m
  unfolding resize
  enlarge grow d = if leb d.max_points d.nd then resize (grow d.max_points) d else d

  -- A second attempt when the first call finds the index full.
  unfoldable pub reserve_or_grow : (ℕ → ℕ) → Memory s m → Reserved s m
  unfolding reserve_location enlarge
  reserve_or_grow grow d = elim (reserve_location d) [
    | full ↦ reserve_location (enlarge grow d)
    | no_slot ↦ no_slot
    | reserved location d' ↦ reserved location d'
  ]

  -- The location and the tags of an insertion; `none` is a crash.
  unfoldable pub place_tag : (ℕ → ℕ) → Memory s m → ℕ → Option (ℕ × Memory s m)
  unfolding drop_old reserve_or_grow set_tag
  place_tag grow d tag = set_tag tag (reserve_or_grow grow (drop_old tag d))

  -- insert_point up to the pruning, which crashes without a candidate; `search` is get_expanded_nodes
  -- at the new location. The pruning and the links do not change the slots; they are in Link.
  unfoldable pub insert_point :
      (ℕ → ℕ) → (Memory s m → ℕ → List ℕ) → Memory s m → ℕ → Option (ℕ × Memory s m)
  unfolding place_tag
  insert_point grow search d tag = elim (place_tag grow d tag) [
    | none ↦ none
    | some r ↦ if is_empty (erase_first r.0 (search r.1 r.0)) then none else some r
  ]
