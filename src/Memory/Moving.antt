-- ===== src/Memory/Moving.antt =====
-- The lists of neighbours in compact_data of src/index.cpp and its choice of a start node, and the
-- candidates of insert_point.
use hvs_disk.Base.{
  ℕ, zero, suc, List, [], ◌∷◌, Option, none, some, Bool, true, false, not, ◌&&◌, ◌||◌, ltb, leb,
  ◌==◌, if◌then◌else◌, map,
}

-- The lists of neighbours in compact_data: `new` gives the new locations, and no neighbour may move up.
abbrev pub move_down : (ℕ → ℕ) → List ℕ → Bool
move_down new [] = true
move_down new (n ∷ ns) = leb (new n) n && move_down new ns

abbrev pub set_list : ℕ → List ℕ → (ℕ → List ℕ) → ℕ → List ℕ
set_list i ns g j = if i == j then ns else g j

-- The loop from the location old on; `none` is the crash. The list of a point is swapped to its new
-- location, the list of any other location is cleared.
unfoldable pub move_points : (ℕ → ℕ) → ℕ → ℕ → ℕ → (ℕ → List ℕ) → Option (ℕ → List ℕ)
move_points new max_points zero old g = some g
move_points new max_points (suc left) old g =
    let stays = ltb (new old) max_points || (old == max_points) in
    let emptied = if new old == old then g else set_list old (g (new old)) g in
    let moved = set_list (new old) (map new (g old)) emptied in
    let next =
      move_points new max_points left (suc old) (if stays then moved else set_list old [] g) in
    if stays && not (move_down new (g old)) then none else next

-- The start node: where it is deleted, its first neighbour that is deleted; `none` is the crash.
abbrev pub first_deleted : (ℕ → Bool) → List ℕ → Option ℕ
first_deleted deleted [] = none
first_deleted deleted (n ∷ ns) =
    let rest = first_deleted deleted ns in if deleted n then some n else rest

abbrev pub other_than : ℕ → Option ℕ → Option ℕ
other_than ep none = none
other_than ep (some n) = if n == ep then none else some n

abbrev pub new_start : (ℕ → Bool) → ℕ → List ℕ → Option ℕ
new_start deleted ep ns = if deleted ep then other_than ep (first_deleted deleted ns) else some ep

-- The candidates of an insertion without the new location: the first entry that is it is erased.
abbrev pub erase_first : ℕ → List ℕ → List ℕ
erase_first location [] = []
erase_first location (n ∷ ns) =
    let rest = erase_first location ns in if n == location then ns else n ∷ rest

abbrev pub is_empty : List ℕ → Bool
is_empty [] = true
is_empty (n ∷ ns) = false
