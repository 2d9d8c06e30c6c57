-- ===== src/Topo/Tests.antt =====
-- Two insertions, a deletion, and an insertion that takes the freed locations.
use hvs_disk.Base.{ℕ, ◌≡◌, refl, [], some, true, arith}
use hvs_disk.Base.HashMap.{HashMap, assoc_map}
use hvs_disk.Layout.Sector.{Geometry}
use hvs_disk.Layout.Slots.{PageArr, slot_set}
use hvs_disk.Topo.{
  Part, Parts, next_loc, place, insert_target, delete_id, verify_id2loc_topo, verify_id2loc_coord,
}
use hvs_disk.Topo.Runs.{IsRegular, AreParts, Reach, here, insert, delete, verify-Reach}

abbrev four : Geometry
four = record {
  nnodes_per_sector = 3;
  max_node_len = 2000;
  ntopo_per_sector = 4;
  topo_len = 1000;
  ncoord_per_sector = 5;
  coord_len = 512;
}

four-IsRegular : IsRegular four
four-IsRegular = record {
  topo_positive = omega arith;
  topo_fits = omega arith;
  coord_positive = omega arith;
  coord_fits = omega arith;
}

abbrev ids : HashMap ℕ
ids = assoc_map ℕ

abbrev pages : HashMap PageArr
pages = assoc_map PageArr

abbrev nothing : Part ids pages
nothing = record {
  id2loc_ = [];
  slots = record { page_layout = []; empty_pages = []; empty_locs = [] };
  cur_loc = 0;
}

abbrev empty : Parts ids pages
empty = record { topo = nothing; coord = nothing; tags = [] }

empty-AreParts : AreParts ids pages four four-IsRegular empty
empty-AreParts = record {
  topo = record {
    sized = λ p v e. absurd (ground (arith, e));
    room = omega arith;
    placed = λ i tag e. absurd (ground (arith, e));
    free = tt;
    distinct = tt;
    owned = λ l lt. absurd (omega (arith, lt));
  };
  coord = record {
    sized = λ p v e. absurd (ground (arith, e));
    room = omega arith;
    placed = λ i tag e. absurd (ground (arith, e));
    free = tt;
    distinct = tt;
    owned = λ l lt. absurd (omega (arith, lt));
  };
}

abbrev busy : Parts ids pages
busy = insert_target ids pages four 7 70 (
    delete_id ids pages four 5
      (insert_target ids pages four 6 60 (insert_target ids pages four 5 50 empty)))

empty-busy : Reach ids pages four four-IsRegular empty busy
unfolding insert_target delete_id place next_loc slot_set
empty-busy =
    insert
      (delete
        (insert (insert here 5 50 refl (omega arith) (omega arith) (omega arith)) 6 60 refl
          (omega arith) (omega arith) (omega arith))
        5 50 refl)
      7 70 refl (omega arith) (omega arith) (omega arith)

verify-Reach_example :
    (verify_id2loc_topo ids pages four 8 busy ≡ some true)
    × (verify_id2loc_coord ids pages four 8 busy ≡ some true)
verify-Reach_example =
    verify-Reach ids pages four four-IsRegular empty busy 8 empty-AreParts empty-busy

has_tag : ids.find 7 busy.tags ≡ some 70
unfolding insert_target
has_tag = refl
