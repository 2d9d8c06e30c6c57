-- ===== src/Update/Tests.antt =====
-- An insertion into an index of three records.
use hvs_disk.Base.{
  ℕ, zero, suc, ◌+◌, ◌/◌, ◌<◌, ◌≡◌, ◌≢◌, refl, sym, ◌⊎◌, inl, inr, List, [], ◌∷◌, none, some, arith,
  ◌==◌, set, replicate, Bool-cases,
}
use native.Mathlib.Nat.{mod-lt, div-add-mod'}
use hvs_disk.Base.HashMap.{HashMap, assoc_map}
use hvs_disk.Layout.Sector.{Geometry, loc_sector_no}
use hvs_disk.Layout.Slots.{allocated_id, PageArr, Slots, page_of, slot_or_invalid, slot_get, loc2id}
use hvs_disk.Layout.Slots.View.{max_loc}
use hvs_disk.Layout.Alloc.{Space, alloc_loc}
use hvs_disk.Layout.Alloc.Whole.{Allocated, alloc_loc-Allocated}
use hvs_disk.Layout.Alloc.Takes.{IsSpace}
use hvs_disk.Layout.Alloc.Extend.{sector-u32}
use hvs_disk.Update.{Index, insert_records}
use hvs_disk.Update.Agree.{Agree}
use hvs_disk.Update.Consistent.{find_id, IsInsertable}
use hvs_disk.Update.Writes.{
  continuous_writes, page_writes, split_all, continuous_writes-page_writes,
}
use hvs_disk.Update.Insert.{IsSettled, IsRoomy, insert_records-IsSettled}

abbrev three : Geometry
three = record {
  nnodes_per_sector = 3;
  max_node_len = 2000;
  ntopo_per_sector = 4;
  topo_len = 1000;
  ncoord_per_sector = 5;
  coord_len = 512;
}

abbrev ids : HashMap ℕ
ids = assoc_map ℕ

abbrev pages : HashMap PageArr
pages = assoc_map PageArr

abbrev page : PageArr
page = set (set (replicate 60 0) 1 7) 2 8

abbrev one_page : Slots pages
one_page = record { page_layout = (1, page) ∷ []; empty_pages = []; empty_locs = [] }

-- The ids 0, 7 and 8 stand at the locations 0, 1 and 2.
abbrev three_ids : Index ids pages
three_ids = record {
  id2loc_ = (0, 0) ∷ (7, 1) ∷ (8, 2) ∷ [];
  space = record { slots = one_page; cur_loc = 3 };
}

one_page-IsSpace : IsSpace pages three one_page 3
one_page-IsSpace = record {
  sized = λ p v e. ground arith;
  below = λ p x. elim (Bool-cases (1 == p)) [
    | inl here ↦ ground (arith, here)
    | inr other ↦ absurd (x (rw other refl))
  ];
}

stands :
    (l : ℕ)
    → l < 3
    → find_id ids pages three three_ids.id2loc_ (loc2id pages three one_page l) ≡ some l
unfolding loc2id slot_get page_of slot_or_invalid loc_sector_no
stands zero lt = refl
stands (suc zero) lt = refl
stands (suc (suc zero)) lt = refl
stands (suc (suc (suc l))) lt = absurd (omega (arith, lt))

past : (l : ℕ) → l < max_loc → loc2id pages three one_page l < allocated_id → l < 3
unfolding loc2id slot_get page_of slot_or_invalid
past l lt small =
    let sector = sector-u32 pages three l (omega arith) lt in
    elim (Bool-cases (1 == (1 + l / 3))) [
      | inl here ↦
          let q : l / 3 ≡ 0 = ground (arith, here) in
          omega (arith, q, div-add-mod' l 3, mod-lt l {m = 3} (omega arith))
      | inr other ↦ absurd (omega (arith, rw (sector, other) at small))
    ]

places :
    (i l : ℕ)
    → find_id ids pages three three_ids.id2loc_ i ≡ some l
    → ((i ≡ 0) × (l ≡ 0)) ⊎ (((i ≡ 7) × (l ≡ 1)) ⊎ ((i ≡ 8) × (l ≡ 2)))
places i l e = elim (Bool-cases (0 == i)) [
  | inl zeroth ↦ inl (ground (arith, zeroth), ground (arith, e, zeroth))
  | inr a ↦ elim (Bool-cases (7 == i)) [
    | inl seven ↦ inr (inl (ground (arith, seven), ground (arith, e, a, seven)))
    | inr b ↦ elim (Bool-cases (8 == i)) [
      | inl eight ↦ inr (inr (ground (arith, eight), ground (arith, e, a, b, eight)))
      | inr c ↦ absurd (ground (arith, e, a, b, c))
    ]
  ]
]

agree : Agree (find_id ids pages three three_ids.id2loc_) (loc2id pages three one_page)
unfolding loc2id slot_get page_of slot_or_invalid loc_sector_no
agree = record {
  placed = λ i l e. elim (places i l e) [
    | inl (a, b) ↦ rw (a, b) (omega arith, omega arith, refl)
    | inr (inl (a, b)) ↦ rw (a, b) (omega arith, omega arith, refl)
    | inr (inr (a, b)) ↦ rw (a, b) (omega arith, omega arith, refl)
  ];
  found = λ l lt small. stands l (past l lt small);
}

three_ids-IsSettled : IsSettled ids pages three three_ids
three_ids-IsSettled = record {
  consistent = record { sized = one_page-IsSpace.sized; agree = agree };
  space = one_page-IsSpace;
}

alloc_loc-Allocated_example :
    (r : Space pages × List ℕ × List ℕ) × (alloc_loc pages three 2 (1 ∷ []) three_ids.space
      ≡ some r)
    × Allocated pages three 2 three_ids.space r
alloc_loc-Allocated_example =
    alloc_loc-Allocated pages three 2 (1 ∷ []) three_ids.space (omega arith) (omega arith)
      (omega arith) (omega arith) one_page-IsSpace tt tt (omega arith, tt)

roomy : IsRoomy ids pages three (1 ∷ []) 2 three_ids.space
roomy = record {
  some_node = omega arith;
  fits = omega arith;
  room = omega arith;
  distinct = tt;
  empty = tt;
  hints = (omega arith, tt);
}

near_seven : IsInsertable ids pages three 9 (7 ∷ []) three_ids
near_seven = record {
  distinct = (refl, tt);
  known = λ i c. let q : 7 ≡ i = ground (arith, c) in (1, rw (sym q) refl);
  new = refl;
  small = omega arith;
}

insert_records-IsSettled_example :
    (y : Index ids pages) × (insert_records ids pages three 9 (7 ∷ []) (1 ∷ []) three_ids ≡ some y)
    × IsSettled ids pages three y
    × (find_id ids pages three y.id2loc_ 9 ≢ none)
insert_records-IsSettled_example =
    insert_records-IsSettled ids pages three 9 (7 ∷ []) (1 ∷ []) three_ids roomy three_ids-IsSettled
      near_seven

continuous_writes-page_writes_example :
    split_all 4096 (continuous_writes 4096 (page_writes 4096 4096 (2 ∷ 3 ∷ 10 ∷ []) 0))
    ≡ page_writes 4096 4096 (2 ∷ 3 ∷ 10 ∷ []) 0
continuous_writes-page_writes_example =
    continuous_writes-page_writes 4096 4096 (2 ∷ 3 ∷ 10 ∷ []) 0 (omega arith)
      (omega arith, (omega arith, (omega arith, tt)))
