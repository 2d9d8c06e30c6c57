-- ===== src/Search.antt =====
-- The list of candidates of a search: InsertIntoPool of include/neighbor.h, and the loop of
-- src/search/beam_search.cpp over the neighbours of an expanded node. The first entries of the array,
-- those in use, are a list; the array has room for one more.
pub mod Narrow
pub mod Pool
pub mod Entries
pub mod Expand
pub mod Crash
pub mod Beam
mod Tests
use hvs_disk.Base.{
  ℕ, zero, suc, ◌+◌, ◌-◌, ◌/◌, List, [], ◌∷◌, ◌++◌, Option, none, some, Bool, true, false, ltb,
  ◌==◌, ◌||◌, ◌&&◌, if◌then◌else◌, length, get_or, contains, take, leb, max, replicate,
}

-- The fields that this code reads.
pub record Neighbor : Type 0 where
  pub id : ℕ
  pub distance : ℕ
  pub flag : Bool

-- memmove from index i on by one, and a write at i.
abbrev pub insert_at : ℕ → Neighbor → List Neighbor → List Neighbor
insert_at zero nn addr = nn ∷ addr
insert_at (suc i) nn [] = []
insert_at (suc i) nn (x ∷ addr) = x ∷ insert_at i nn addr

module _ (addr : List Neighbor) (nn : Neighbor) where
  abbrev pub entry : ℕ → Neighbor
  entry i = get_or addr i nn

  -- The binary search, on fuel.
  unfoldable pub narrow : ℕ → ℕ → ℕ → Option (ℕ × ℕ)
  narrow zero left right = none
  narrow (suc fuel) left right =
      let mid = (left + right) / 2 in
      let low = narrow fuel left mid in
      let high = narrow fuel mid right in
      if ltb 1 right && ltb left (right - 1)
      then (if ltb nn.distance (entry mid).distance then low else high)
      else some (left, right)

  -- The check for an equal id; `none` when it finds one.
  unfoldable pub scan_equal : ℕ → Option ℕ
  scan_equal zero = some zero
  scan_equal (suc left) =
      let rest = scan_equal left in
      if ltb (entry (suc left)).distance nn.distance
      then some (suc left)
      else if (entry (suc left)).id == nn.id
      then none
      else rest

  abbrev pub put_new : ℕ → Option ℕ → List Neighbor × ℕ
  put_new right none = (addr, length addr + 1)
  put_new right (some left) =
      if ((entry left).id == nn.id) || ((entry right).id == nn.id)
      then (addr, length addr + 1)
      else (insert_at right nn addr, right)

  -- The entries afterwards, and the index that is returned. The number of entries is enough fuel.
  unfoldable pub insert_into_pool : Option (List Neighbor × ℕ)
  unfolding narrow scan_equal
  insert_into_pool =
      let right = length addr - 1 in
      if ltb nn.distance (entry 0).distance
      then some (insert_at 0 nn addr, 0)
      else if ltb (entry right).distance nn.distance
      then some (addr ++ nn ∷ [], length addr)
      else elim (narrow (length addr) 0 right) [
        | none ↦ none
        | some bounds ↦ some (put_new bounds.1 (scan_equal bounds.0))
      ]

-- The candidates in use, the ids seen, and the best index of an insertion since the last expansion.
pub record Candidates : Type 0 where
  pub retset : List Neighbor
  pub visited : List ℕ
  pub nk : ℕ

abbrev pub no_entry : Neighbor
no_entry = record { id = 0; distance = 0; flag = false }

module _ (l_search cur_id : ℕ) (stale : Neighbor) where
  -- cur_list_size after InsertIntoPool: one more entry is in use, if there is room; without an
  -- insertion it is whatever the array holds there.
  abbrev pub grown : ℕ → List Neighbor → List Neighbor
  grown size entries =
      if ltb size l_search
      then (if length entries == size then entries ++ stale ∷ [] else entries)
      else take size entries

  -- One neighbour, with its distance; `none` is the crash on an id that is too large.
  unfoldable pub visit : ℕ → ℕ → Candidates → Option Candidates
  unfolding insert_into_pool
  visit id dist s =
      let size = length s.retset in
      let seen = record s { visited = id ∷ s.visited } in
      let worst = (get_or s.retset (size - 1) no_entry).distance in
      if ltb cur_id id
      then none
      else if contains s.visited id
      then some s
      else if leb worst dist && (size == l_search)
      then some seen
      else elim (insert_into_pool s.retset (record { id = id; distance = dist; flag = true })) [
        | none ↦ none
        | some r ↦
            some (record seen { retset = grown size r.0; nk = if ltb r.1 s.nk then r.1 else s.nk })
      ]

  -- The neighbours of a node in order.
  unfoldable pub expand : List (ℕ × ℕ) → Candidates → Option Candidates
  unfolding visit
  expand [] s = some s
  expand (n ∷ nbrs) s = elim (visit n.0 n.1 s) [ none ↦ none | some t ↦ expand nbrs t ]

-- The choice of the entries to expand from index `marker` on, at most `beam_width` of them: their ids,
-- and the entries with those flags cleared.
unfoldable pub next_beam : ℕ → List Neighbor → List ℕ × List Neighbor
next_beam beam_width [] = ([], [])
next_beam zero (x ∷ xs) = ([], x ∷ xs)
next_beam (suc beam_width) (x ∷ xs) =
    let taken = next_beam beam_width xs in
    let rest = next_beam (suc beam_width) xs in
    if x.flag then (x.id ∷ taken.0, record x { flag = false } ∷ taken.1) else (rest.0, x ∷ rest.1)
