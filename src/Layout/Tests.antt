-- ===== src/Layout/Tests.antt =====
-- Runs of the layout arithmetic and of the page layout on a small geometry.
use hvs_disk.Base.{◌≡◌, [], ◌∷◌, none, some, arith, set, replicate, ◌≢◌}
use hvs_disk.Base.HashMap.{HashMap, assoc_map, assoc_find}
use hvs_disk.Layout.Sector.{Geometry, loc_sector_no}
use hvs_disk.Layout.Slots.{PageArr, Slots, node_kind, page_of, loc2id, erase_and_set_loc}
use hvs_disk.Layout.Slots.View.{IsSized}
use hvs_disk.Layout.Slots.Move.{loc2id-erase_and_set_loc}

abbrev three : Geometry
three = record {
  nnodes_per_sector = 3;
  max_node_len = 2000;
  ntopo_per_sector = 4;
  topo_len = 1000;
  ncoord_per_sector = 5;
  coord_len = 512;
}

abbrev maps : HashMap PageArr
maps = assoc_map PageArr

abbrev page : PageArr
page = set (set (replicate 60 0) 1 7) 2 8

-- Page 1 holds the locations 0 to 2.
abbrev one_page : Slots maps
one_page = record { page_layout = (1, page) ∷ []; empty_pages = []; empty_locs = [] }

one_page-IsSized : IsSized maps (node_kind three) one_page
one_page-IsSized p v e = ground arith

some_not_none : (v : PageArr) → some v ≢ none
some_not_none v e = absurd (ground arith)

there : assoc_find (page_of maps (node_kind three) 1) one_page.page_layout ≢ none
unfolding page_of loc_sector_no
there e = some_not_none page e

loc2id-erase_and_set_loc_example :
    loc2id maps three (erase_and_set_loc maps three one_page (1 ∷ []) (5 ∷ []) (7 ∷ [])) 5 ≡ 7
loc2id-erase_and_set_loc_example =
    loc2id-erase_and_set_loc maps three one_page (1 ∷ []) (5 ∷ []) (7 ∷ []) 5 (omega arith)
      (omega arith) one_page-IsSized (omega arith, tt) ((omega arith, there), tt) (omega arith)
