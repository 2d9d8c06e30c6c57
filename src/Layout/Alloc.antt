-- ===== src/Layout/Alloc.antt =====
-- alloc_loc of include/ssd_index.h: locations for n changed records, from empty pages, from pages
-- with enough holes, and from new space. n is positive, as in its callers. alloc_lock makes the call
-- one step. NO_POLLUTE_ORIGINAL is not set.
pub mod Claim
pub mod Takes
pub mod Fresh
pub mod Extend
pub mod Whole
use hvs_disk.Base.{
  ℕ, zero, suc, ◌+◌, ◌-◌, ◌/◌, ◌%◌, List, [], ◌∷◌, ◌++◌, Option, none, some, Bool, true, false, ltb,
  ◌==◌, if◌then◌else◌, length, map, u32,
}
use hvs_disk.Base.HashMap.{HashMap}
use hvs_disk.Layout.Sector.{Geometry, sector_to_loc}
use hvs_disk.Layout.Slots.{invalid_id, allocated_id, PageArr, Slots, set_loc2id}

abbrev pub index_size_factor : ℕ
index_size_factor = 2

-- The invalid slots among the next n, the first of them at offset i: at most `need` of them are
-- marked as allocated; their offsets are the second part.
pub claim : ℕ → ℕ → ℕ → PageArr → PageArr × List ℕ
claim zero i need v = (v, [])
claim (suc n) i need [] = ([], [])
claim (suc n) i need (x ∷ v) =
    let free = x == invalid_id in
    let rest = claim n (suc i) (if free then need - 1 else need) v in
    if free
    then (if need == 1 then (allocated_id ∷ v, i ∷ []) else (allocated_id ∷ rest.0, i ∷ rest.1))
    else (x ∷ rest.0, rest.1)

-- The same on a page that is said to be empty; `none` is the crash on a slot in use.
pub claim_empty : ℕ → ℕ → ℕ → PageArr → Option (PageArr × List ℕ)
claim_empty zero i need v = some (v, [])
claim_empty (suc n) i need [] = some ([], [])
claim_empty (suc n) i need (x ∷ v) =
    let rest = claim_empty n (suc i) (need - 1) v in
    if x == invalid_id
    then (if need == 1
        then some (allocated_id ∷ v, i ∷ [])
        else elim rest [ none ↦ none | some r ↦ some (allocated_id ∷ r.0, i ∷ r.1) ])
    else none

pub holes : ℕ → PageArr → ℕ
holes zero v = 0
holes (suc n) [] = 0
holes (suc n) (x ∷ v) = (if x == invalid_id then 1 else 0) + holes n v

-- The page layout with its queue, the end of the used space, and what an allocation returns.
pub record Space (h : HashMap PageArr) : Type 0 where
  pub slots : Slots h
  pub cur_loc : ℕ

pub record Taken (h : HashMap PageArr) : Type 0 where
  pub slots : Slots h
  pub locs : List ℕ
  pub page_need_to_read : List ℕ

module _ (h : HashMap PageArr) (g : Geometry) where
  abbrev pub put_page : Slots h → ℕ → PageArr → Slots h
  put_page s page v = record s { page_layout = h.insert_or_assign page v s.page_layout }

  abbrev pub more : List ℕ → List ℕ → Taken h → Taken h
  more locs reads r = record r {
    locs = locs ++ r.locs;
    page_need_to_read = reads ++ r.page_need_to_read;
  }

  abbrev pub more_some : List ℕ → Option (Taken h) → Option (Taken h)
  more_some locs none = none
  more_some locs (some r) = some (more locs [] r)

  abbrev pub nothing : Slots h → Taken h
  nothing s = record { slots = s; locs = []; page_need_to_read = [] }

  -- The loop over the queue of empty pages.
  pub use_empty : List ℕ → Slots h → ℕ → Option (Taken h)
  unfolding claim_empty
  use_empty [] s need = some (nothing (record s { empty_pages = [] }))
  use_empty (page ∷ pages) s need =
      if page == invalid_id
      then some (nothing (record s { empty_pages = pages }))
      else elim (h.find page s.page_layout) [
        | none ↦ use_empty pages s need
        | some v ↦ elim (claim_empty g.nnodes_per_sector 0 need v) [
          | none ↦ none
          | some (v', offs) ↦
              let locs = map (sector_to_loc g page) offs in
              let s' = put_page s page v' in
              let rest = use_empty pages s' (need - length offs) in
              if length offs == need
              then some (record {
                slots = record s' { empty_pages = pages };
                locs = locs;
                page_need_to_read = [];
              })
              else more_some locs rest
        ]
      ]

  abbrev pub threshold : ℕ
  threshold = (g.nnodes_per_sector + index_size_factor - 1) / index_size_factor

  -- The loop over the hint pages.
  pub use_hints : List ℕ → Slots h → ℕ → Taken h
  unfolding claim holes
  use_hints [] s need = nothing s
  use_hints (page ∷ pages) s need = elim (h.find (u32 page) s.page_layout) [
    | none ↦ use_hints pages s need
    | some v ↦
        let count = holes g.nnodes_per_sector v in
        let (v', offs) = claim g.nnodes_per_sector 0 need v in
        let locs = map (sector_to_loc g page) offs in
        let reads = if ltb count g.nnodes_per_sector then page ∷ [] else [] in
        let s' = put_page s (u32 page) v' in
        let skip = use_hints pages s need in
        let rest = use_hints pages s' (need - length offs) in
        if ltb count threshold
        then skip
        else if length offs == need
        then record { slots = s'; locs = locs; page_need_to_read = reads }
        else more locs reads rest
  ]

  -- New space: n locations from loc on.
  pub extend : ℕ → ℕ → Slots h → Taken h
  extend zero loc s = nothing s
  extend (suc n) loc s =
      more (loc ∷ []) [] (extend n (suc loc) (set_loc2id h g s (u32 loc) allocated_id))

  pub aligned : ℕ → ℕ
  aligned loc = let n = g.nnodes_per_sector in if loc % n == 0 then loc else loc + (n - loc % n)

  abbrev pub add_new : ℕ → ℕ → Taken h → Space h × List ℕ × List ℕ
  add_new cur_loc need r =
      let new = extend need cur_loc r.slots in
      (
        record { slots = new.slots; cur_loc = aligned (cur_loc + need) },
        r.locs ++ new.locs,
        r.page_need_to_read,
      )

  abbrev pub add_hints : List ℕ → ℕ → ℕ → Taken h → Space h × List ℕ × List ℕ
  add_hints hint_pages cur_loc need r =
      let need' = need - length r.locs in
      let hinted = more r.locs [] (use_hints hint_pages r.slots need') in
      let need'' = need - length hinted.locs in
      if length r.locs == need
      then (record { slots = r.slots; cur_loc = cur_loc }, r.locs, [])
      else if length hinted.locs == need
      then (
        record { slots = hinted.slots; cur_loc = cur_loc },
        hinted.locs,
        hinted.page_need_to_read,
      )
      else add_new cur_loc need'' hinted

  -- The space, the locations and the pages to read; `none` is the crash.
  unfoldable pub alloc_loc : ℕ → List ℕ → Space h → Option (Space h × List ℕ × List ℕ)
  unfolding use_empty use_hints extend aligned
  alloc_loc n hint_pages s = elim (use_empty s.slots.empty_pages s.slots n) [
    | none ↦ none
    | some r ↦ some (add_hints hint_pages s.cur_loc n r)
  ]
