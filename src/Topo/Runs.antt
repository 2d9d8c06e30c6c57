-- ===== src/Topo/Runs.antt =====
-- Insertions and deletions in any order: every id with a tag stands where the maps say.
use hvs_disk.Base.{ℕ, ◌<◌, ◌≤◌, ◌≡◌, none, some, true}
use hvs_disk.Base.HashMap.{HashMap}
use hvs_disk.Layout.Sector.{Geometry, loc_sector_no_topo, loc_sector_no_coord}
use hvs_disk.Layout.Slots.{invalid_id, PageArr, topo_kind, coord_kind, loc2id_topo, loc2id_coord}
use hvs_disk.Layout.Slots.View.{max_loc, IsSound, topo_kind-IsSound, coord_kind-IsSound}
use hvs_disk.Topo.{
  Parts, insert_target, delete_id, verify_id2loc_topo, verify_id2loc_coord, id2page_topo,
  id2page_coord,
}
use hvs_disk.Topo.Placed.{IsPlaced, place-IsPlaced, remove-IsPlaced}
use hvs_disk.Topo.Checks.{verify_id2loc_part-IsPlaced, id2page_part-IsPlaced}

-- Pages of both kinds hold at least one record, and fit their arrays.
pub record IsRegular (g : Geometry) : Type 0 where
  pub topo_positive : 0 < g.ntopo_per_sector
  pub topo_fits : g.ntopo_per_sector ≤ 60
  pub coord_positive : 0 < g.ncoord_per_sector
  pub coord_fits : g.ncoord_per_sector ≤ 16

module _ (m : HashMap ℕ) (h : HashMap PageArr) (g : Geometry) (regular : IsRegular g) where
  abbrev topo_sound : IsSound (topo_kind g)
  topo_sound = topo_kind-IsSound g regular.topo_positive regular.topo_fits

  abbrev coord_sound : IsSound (coord_kind g)
  coord_sound = coord_kind-IsSound g regular.coord_positive regular.coord_fits

  pub record AreParts (s : Parts m h) : Type 0 where
    pub topo : IsPlaced m h (topo_kind g) topo_sound s.tags s.topo
    pub coord : IsPlaced m h (coord_kind g) coord_sound s.tags s.coord

  -- The states that insertions of new ids, where both parts have room, and deletions of ids with a tag
  -- lead to.
  pub data Reach (s : Parts m h) : Parts m h → Type 0 where
    here : Reach s s
    insert :
        {t : Parts m h}
        → Reach s t
        → (target_id tag : ℕ) → m.find target_id t.tags ≡ none
        → target_id < invalid_id
        → t.topo.cur_loc < max_loc
        → t.coord.cur_loc < max_loc
        → Reach s (insert_target m h g target_id tag t)
    delete :
        {t : Parts m h}
        → Reach s t
        → (id tag : ℕ) → m.find id t.tags ≡ some tag
        → Reach s (delete_id m h g id t)

  Reach-AreParts : {s t : Parts m h} → AreParts s → Reach s t → AreParts t
  unfolding insert_target delete_id
  Reach-AreParts a here = a
  Reach-AreParts a (insert {t} r id tag new small rt rc) =
      let b = Reach-AreParts a r in
      record {
        topo = place-IsPlaced m h (topo_kind g) topo_sound t.tags t.topo id tag b.topo new small rt;
        coord =
            place-IsPlaced m h (coord_kind g) coord_sound t.tags t.coord id tag b.coord new small
              rc;
      }
  Reach-AreParts a (delete {t} r id tag e) =
      let b = Reach-AreParts a r in
      record {
        topo = remove-IsPlaced m h (topo_kind g) topo_sound t.tags t.topo id tag b.topo e;
        coord = remove-IsPlaced m h (coord_kind g) coord_sound t.tags t.coord id tag b.coord e;
      }

  -- After any insertions and deletions, from a state in which every id with a tag stands at its
  -- locations and no other id at any, neither check crashes, however many ids it goes over, and neither
  -- finds an inconsistency in its second loop. Conditions: pages hold 1 to 60 topology and 1 to 16
  -- coordinate records; an insertion is of an id without a tag below 2^32 - 1 while both used spaces end
  -- below 2^32 - 1; a deletion is of an id with a tag.
  pub verify-Reach :
      (s t : Parts m h) (n : ℕ)
      → AreParts s
      → Reach s t
      → (verify_id2loc_topo m h g n t ≡ some true) × (verify_id2loc_coord m h g n t ≡ some true)
  unfolding verify_id2loc_topo verify_id2loc_coord
  verify-Reach s t n a r =
      let b = Reach-AreParts a r in
      (
        verify_id2loc_part-IsPlaced m h (topo_kind g) topo_sound n t.tags t.topo b.topo,
        verify_id2loc_part-IsPlaced m h (coord_kind g) coord_sound n t.tags t.coord b.coord,
      )

  -- In every such state an id with a tag has a page of each kind, which is that of a location where
  -- the layout has this id.
  pub id2page-Reach :
      (s t : Parts m h) (id tag : ℕ)
      → AreParts s
      → Reach s t
      → m.find id t.tags ≡ some tag
      → ((l : ℕ) × (id2page_topo m h g t id ≡ loc_sector_no_topo g l)
          × (loc2id_topo h g t.topo.slots l ≡ id))
        × ((l : ℕ) × (id2page_coord m h g t id ≡ loc_sector_no_coord g l)
            × (loc2id_coord h g t.coord.slots l ≡ id))
  unfolding id2page_topo id2page_coord loc2id_topo loc2id_coord
  id2page-Reach s t id tag a r e =
      let b = Reach-AreParts a r in
      (
        id2page_part-IsPlaced m h (topo_kind g) topo_sound t.tags t.topo id tag b.topo e,
        id2page_part-IsPlaced m h (coord_kind g) coord_sound t.tags t.coord id tag b.coord e,
      )
