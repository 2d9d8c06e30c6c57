-- ===== src/Dynamic/Tests.antt =====
-- Runs of the dynamic index: two deletions, a merge and a search.
use hvs_disk.Base.{◌≡◌, List, [], ◌∷◌, false, arith, take}
use hvs_disk.Base.HashMap.{HashMap, assoc_map}
use hvs_disk.Dynamic.{
  Dynamic, NeighborTag, epoch, init, lazy_delete, search, Call, delete_tag, merge_epoch, run,
}
use hvs_disk.Dynamic.Search.{live, search-live, returns_tag, search-lazy_delete}
use hvs_disk.Dynamic.Deletion.{IsValid, run-init-IsValid, active_tags, active_tags-run}

abbrev sets : HashMap (Unit {0})
sets = assoc_map Unit

abbrev calls : List (Call sets)
calls = delete_tag 4 ∷ delete_tag 4 ∷ merge_epoch ∷ delete_tag 5 ∷ []

abbrev after : Dynamic sets
after = run sets (init sets) calls

abbrev candidates : List NeighborTag
candidates = record { tag = 5; dist = 1 } ∷ record { tag = 6; dist = 2 } ∷ []

search-live_example :
    search sets after 1 candidates
    ≡ take 1 (live sets (epoch sets after.active_delete_set after) candidates)
search-live_example = search-live sets after 1 candidates (omega arith)

search-lazy_delete_example :
    returns_tag sets (search sets (lazy_delete sets after 6) 2 candidates) 6 ≡ false
search-lazy_delete_example = search-lazy_delete sets after 6 2 candidates (omega arith)

run-init-IsValid_example : IsValid sets after
run-init-IsValid_example = run-init-IsValid sets calls

active_tags-run_example : active_tags sets after ≡ 5 ∷ []
active_tags-run_example = active_tags-run sets calls
