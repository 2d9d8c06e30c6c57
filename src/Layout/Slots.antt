-- ===== src/Layout/Slots.antt =====
-- The page layout: which id stands in each slot, include/ssd_index.h (loc2id, set_loc2id,
-- erase_loc2id and their _topo and _coord copies). A page is an array of fixed capacity whose first
-- `per_sector` entries are used; the pages stand in a concurrent hash map from sector to array.
pub mod View
pub mod Move
pub mod Keys
use hvs_disk.Base.{
  ℕ, zero, suc, ◌+◌, ◌-◌, ◌%◌, ◌^◌, List, [], ◌∷◌, ◌++◌, Option, none, some, Bool, true, false,
  ◌==◌, ◌&&◌, if◌then◌else◌, get_or, set, replicate, u32,
}
use hvs_disk.Base.HashMap.{HashMap}
use hvs_disk.Layout.Sector.{Geometry, loc_sector_no, loc_sector_no_topo, loc_sector_no_coord}

abbrev pub invalid_id : ℕ
invalid_id = 2 ^ 32 - 1

abbrev pub allocated_id : ℕ
allocated_id = 2 ^ 32 - 2

abbrev pub PageArr : Type 0
PageArr = List ℕ

-- What the three copies of the code differ in.
pub record Kind : Type 0 where
  pub per_sector : ℕ
  pub capacity : ℕ
  pub sector_no : ℕ → ℕ

abbrev pub node_kind : Geometry → Kind
node_kind g = record {
  per_sector = g.nnodes_per_sector;
  capacity = 60;
  sector_no = loc_sector_no g;
}

abbrev pub topo_kind : Geometry → Kind
topo_kind g = record {
  per_sector = g.ntopo_per_sector;
  capacity = 60;
  sector_no = loc_sector_no_topo g;
}

abbrev pub coord_kind : Geometry → Kind
coord_kind g = record {
  per_sector = g.ncoord_per_sector;
  capacity = 16;
  sector_no = loc_sector_no_coord g;
}

-- `for (i = 0; i < n; ++i) v[i] = kInvalidID`
pub fill_invalid : ℕ → PageArr → PageArr
fill_invalid zero v = v
fill_invalid (suc n) [] = []
fill_invalid (suc n) (x ∷ v) = invalid_id ∷ fill_invalid n v

-- The loop of erase_loc2id that looks for an id among the first n slots.
unfoldable pub all_invalid : ℕ → PageArr → Bool
all_invalid zero v = true
all_invalid (suc n) [] = true
all_invalid (suc n) (x ∷ v) = (x == invalid_id) && all_invalid n v

-- The array that a lookup with NEWLY_INSERTED starts from.
pub page_or_fresh : Kind → Option PageArr → PageArr
unfolding fill_invalid
page_or_fresh k none = fill_invalid k.per_sector (replicate k.capacity 0)
page_or_fresh k (some v) = v

unfoldable pub slot_or_invalid : Option PageArr → ℕ → ℕ
slot_or_invalid none off = invalid_id
slot_or_invalid (some v) off = get_or v off invalid_id

-- The state: the page layout, and the queues of pages and of locations to use again.
pub record Slots (h : HashMap PageArr) : Type 0 where
  pub page_layout : h.Table
  pub empty_pages : List ℕ
  pub empty_locs : List ℕ

module _ (h : HashMap PageArr) (k : Kind) where
  unfoldable pub page_of : ℕ → ℕ
  page_of loc = u32 (k.sector_no loc)

  unfoldable pub slot_get : Slots h → ℕ → ℕ
  unfolding page_of slot_or_invalid
  slot_get s loc = slot_or_invalid (h.find (page_of loc) s.page_layout) (loc % k.per_sector)

  unfoldable pub slot_set : Slots h → ℕ → ℕ → Slots h
  unfolding page_of page_or_fresh
  slot_set s loc id =
      let page = page_of loc in
      let v = page_or_fresh k (h.find page s.page_layout) in
      record s {
        page_layout = h.insert_or_assign page (set v (loc % k.per_sector) id) s.page_layout;
      }

  -- The upsert of erase_loc2id: its function takes no context, so a missing page is inserted with
  -- zeros and left at that.
  pub slot_erase : Slots h → ℕ → Slots h
  unfolding page_of all_invalid
  slot_erase s loc =
      let page = page_of loc in
      elim (h.find page s.page_layout) [
        | none ↦ record s {
          page_layout = h.insert_or_assign page (replicate k.capacity 0) s.page_layout;
        }
        | some v ↦
            let v' = set v (loc % k.per_sector) invalid_id in
            record s {
              page_layout = h.insert_or_assign page v' s.page_layout;
              empty_pages =
                  if all_invalid k.per_sector v' then s.empty_pages ++ page ∷ [] else s.empty_pages;
            }
      ]

module _ (h : HashMap PageArr) (g : Geometry) where
  unfoldable pub loc2id : Slots h → ℕ → ℕ
  unfolding slot_get
  loc2id s loc = slot_get h (node_kind g) s loc

  unfoldable pub loc2id_topo : Slots h → ℕ → ℕ
  unfolding slot_get
  loc2id_topo s loc = slot_get h (topo_kind g) s loc

  unfoldable pub loc2id_coord : Slots h → ℕ → ℕ
  unfolding slot_get
  loc2id_coord s loc = slot_get h (coord_kind g) s loc

  unfoldable pub set_loc2id : Slots h → ℕ → ℕ → Slots h
  unfolding slot_set
  set_loc2id s loc id = slot_set h (node_kind g) s loc id

  unfoldable pub set_loc2id_topo : Slots h → ℕ → ℕ → Slots h
  unfolding slot_set
  set_loc2id_topo s loc id = slot_set h (topo_kind g) s loc id

  unfoldable pub set_loc2id_coord : Slots h → ℕ → ℕ → Slots h
  unfolding slot_set
  set_loc2id_coord s loc id = slot_set h (coord_kind g) s loc id

  pub erase_loc2id : Slots h → ℕ → Slots h
  unfolding slot_erase
  erase_loc2id s loc = slot_erase h (node_kind g) s loc

  pub erase_loc2id_topo : Slots h → ℕ → Slots h
  unfolding slot_erase
  erase_loc2id_topo s loc =
      slot_erase h (topo_kind g) (record s { empty_locs = s.empty_locs ++ loc ∷ [] }) loc

  pub erase_loc2id_coord : Slots h → ℕ → Slots h
  unfolding slot_erase
  erase_loc2id_coord s loc =
      slot_erase h (coord_kind g) (record s { empty_locs = s.empty_locs ++ loc ∷ [] }) loc

-- erase_and_set_loc and its copies. Locations arrive as 64 bits and are cut to 32. A location without
-- an id is not read.
module _ (h : HashMap PageArr) where
  pub set_locs : (Slots h → ℕ → ℕ → Slots h) → Slots h → List ℕ → List ℕ → Slots h
  set_locs put s [] ids = s
  set_locs put s (l ∷ ls) [] = s
  set_locs put s (l ∷ ls) (i ∷ ids) = set_locs put (put s (u32 l) i) ls ids

  pub erase_locs : (Slots h → ℕ → Slots h) → Slots h → List ℕ → Slots h
  erase_locs remove s [] = s
  erase_locs remove s (l ∷ ls) = erase_locs remove (remove s (u32 l)) ls

module _ (h : HashMap PageArr) (g : Geometry) where
  unfoldable pub erase_and_set_loc : Slots h → List ℕ → List ℕ → List ℕ → Slots h
  unfolding set_locs erase_locs
  erase_and_set_loc s old_locs new_locs new_ids =
      erase_locs h (erase_loc2id h g) (set_locs h (set_loc2id h g) s new_locs new_ids) old_locs

  unfoldable pub erase_and_set_loc_topo : Slots h → List ℕ → List ℕ → List ℕ → Slots h
  unfolding set_locs erase_locs
  erase_and_set_loc_topo s old_locs new_locs new_ids =
      erase_locs h (erase_loc2id_topo h g) (set_locs h (set_loc2id_topo h g) s new_locs new_ids)
        old_locs

  unfoldable pub erase_and_set_loc_coord : Slots h → List ℕ → List ℕ → List ℕ → Slots h
  unfolding set_locs erase_locs
  erase_and_set_loc_coord s old_locs new_locs new_ids =
      erase_locs h (erase_loc2id_coord h g) (set_locs h (set_loc2id_coord h g) s new_locs new_ids)
        old_locs
