-- ===== src/Alpha/Merge.antt =====
-- The dispatcher merge_alpha_ranges of src/utils/aux_utils.cpp.
use hvs_disk.Base.{
  ℕ, ◌≤◌, ◌<◌, ◌≡◌, refl, inl, inr, ◌⊎◌, List, Option, some, true, arith, leb, ◌==◌, if◌then◌else◌,
  length, Bool-cases, leb→le,
}
use hvs_disk.Base.Int.{pos}
use hvs_disk.Alpha.{Range, is_covered}
use hvs_disk.Alpha.Greedy.{merge_ranges_greedy, merge_ranges_greedy-covers}
use hvs_disk.Alpha.Bitmap.{merge_ranges_max_coverage}
use hvs_disk.Alpha.Bitmap.Covers.{merge_ranges_max_coverage-covers}

abbrev pub merged_max_alpha_range_len : ℕ
merged_max_alpha_range_len = 2

-- `none` is a greedy loop out of fuel.
unfoldable pub merge_alpha_ranges : List Range → ℕ → Option (List Range)
merge_alpha_ranges ranges merge_method =
    if leb (length ranges) merged_max_alpha_range_len
    then some ranges
    else if merge_method == 2
    then merge_ranges_greedy ranges merged_max_alpha_range_len
    else if merge_method == 3
    then some (merge_ranges_max_coverage ranges merged_max_alpha_range_len)
    else some ranges

two_pos : 0 < 2
two_pos = omega arith

-- With either method of merging the call returns; the result fits the two pairs that the disk record
-- has room for, and an alpha from 0 to 100 that the input covers is covered by the result: merging
-- never hides an edge from a query.
pub merge_alpha_ranges-covers :
    (ranges : List Range) (merge_method x : ℕ)
    → (merge_method ≡ 2) ⊎ (merge_method ≡ 3)
    → x ≤ 100
    → is_covered ranges (pos x) ≡ true
    → (out : List Range) × (merge_alpha_ranges ranges merge_method ≡ some out)
      × (length out ≤ merged_max_alpha_range_len)
      × (is_covered out (pos x) ≡ true)
unfolding merge_alpha_ranges
merge_alpha_ranges-covers ranges m x method h c =
    elim (Bool-cases (leb (length ranges) merged_max_alpha_range_len)) [
      | inl few ↦ (ranges, rw few, leb→le _ _ few, c)
      | inr many ↦ elim method [
        | inl two ↦
            let (out, run, fits, keeps) = merge_ranges_greedy-covers ranges 2 two_pos in
            (out, rw (many, two) run, fits, keeps (pos x) c)
        | inr three ↦
            let (fits, keeps) = merge_ranges_max_coverage-covers ranges 2 x two_pos h c in
            (merge_ranges_max_coverage ranges 2, rw (many, three) refl, fits, keeps)
      ]
    ]
