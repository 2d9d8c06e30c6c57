-- ===== src/Alpha/Bitmap.antt =====
-- merge_ranges_max_coverage of src/utils/aux_utils.cpp. The sentinel -1 of an int is `none`; the
-- bounds of the result are between 0 and 100, so the casts to int8_t change nothing.
pub mod Covers
use hvs_disk.Base.{
  ℕ, zero, suc, ◌+◌, ◌-◌, ◌≤◌, ◌<◌, ◌≡◌, refl, ap, ◌∙◌, inl, inr, List, [], ◌∷◌, ◌++◌, Option, none,
  some, Bool, true, false, arith, min, ltb, leb, ltb→lt, leb→le, ◌==◌, ◌&&◌, ◌||◌, if◌then◌else◌,
  length, get_or, set, replicate, length-set, get_or-set, Bool-cases, Option-cases, not,
}
use hvs_disk.Base.Int.{ℤ, pos, negsuc, pos_part, neg_part, ◌≤ℤ◌, leb_ℤ}
use hvs_disk.Alpha.{Range, covers, is_covered}

-- `for (i = lo; i <= hi; i++) covered[i] = true`, by the number of rounds left.
pub mark : ℕ → ℕ → List Bool → List Bool
mark zero i bm = bm
mark (suc n) i bm = mark n (suc i) (set bm i true)

-- The number of rounds for one range, after the clamps to 0 and 100.
pub rounds : Range → ℕ
rounds r = elim r.second [ pos m ↦ min 100 m + 1 - pos_part r.first | negsuc m ↦ 0 ]

pub mark_all : List Range → List Bool → List Bool
unfolding mark rounds
mark_all [] bm = bm
mark_all (r ∷ rs) bm = mark_all rs (mark (rounds r) (pos_part r.first) bm)

-- The first and the last covered point: `first < 0` tests the first.
pub ends : ℕ → Option ℕ → Option ℕ → List Bool → Option (ℕ × ℕ)
ends i first last [] = elim first [
  | none ↦ none
  | some f ↦ elim last [ none ↦ none | some l ↦ some (f, l) ]
]
ends i first last (b ∷ bm) =
    ends (suc i) (if b then elim first [ none ↦ some i | some f ↦ some f ] else first)
      (if b then some i else last) bm

pub record Gap : Type 0 where
  pub start : ℕ
  pub stop : ℕ
  pub len : ℕ

-- The update of the best gap by one that starts at s and ends before e.
pub better_gap : Option Gap → ℕ → ℕ → Option Gap
better_gap none s e = some (record { start = s; stop = e - 1; len = e - s })
better_gap (some g) s e =
    if ltb g.len (e - s) then some (record { start = s; stop = e - 1; len = e - s }) else some g

-- The loop from first to last, by the rounds left; then the check of a trailing gap.
pub find_gap : List Bool → ℕ → ℕ → Option Gap → Option ℕ → Option Gap
unfolding better_gap
find_gap bm zero i best none = best
find_gap bm zero i best (some s) = better_gap best s i
find_gap bm (suc n) i best none =
    find_gap bm n (suc i) best (if get_or bm i false then none else some i)
find_gap bm (suc n) i best (some s) =
    let covered = get_or bm i false in
    find_gap bm n (suc i) (if covered then better_gap best s i else best)
      (if covered then none else some s)

abbrev pub range_of : ℕ → ℕ → Range
range_of a b = record { first = pos a; second = pos b }

pub split_at : ℕ → ℕ → Option Gap → List Range
split_at first last none = range_of first last ∷ []
split_at first last (some g) =
    let low = if ltb first g.start then range_of first (g.start - 1) ∷ [] else [] in
    let high = if ltb g.stop last then range_of (g.stop + 1) last ∷ [] else [] in
    let both = low ++ high in
    if leb g.len 0 || (length both == 0) then range_of first last ∷ [] else both

pub cover_ends : List Bool → ℕ → Option (ℕ × ℕ) → List Range
unfolding find_gap split_at
cover_ends bm target none = []
cover_ends bm target (some (first, last)) =
    if target == 1
    then range_of first last ∷ []
    else split_at first last (find_gap bm (last + 1 - first) first none none)

unfoldable pub merge_ranges_max_coverage : List Range → ℕ → List Range
unfolding mark_all ends cover_ends
merge_ranges_max_coverage ranges target =
    let bm = mark_all ranges (replicate 101 false) in
    if leb (length ranges) target || (length ranges == 0)
    then ranges
    else if target == 0
    then []
    else cover_ends bm target (ends 0 none none bm)
