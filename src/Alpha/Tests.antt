-- ===== src/Alpha/Tests.antt =====
-- Runs of the merges of alpha ranges on three ranges.
use hvs_disk.Base.{◌≤◌, ◌≡◌, refl, inl, List, [], ◌∷◌, some, true, arith, length}
use hvs_disk.Base.Int.{ℤ, pos}
use hvs_disk.Alpha.{Range, is_covered}
use hvs_disk.Alpha.Greedy.{merge_ranges_greedy, merge_ranges_greedy-covers}
use hvs_disk.Alpha.Bitmap.{merge_ranges_max_coverage}
use hvs_disk.Alpha.Bitmap.Covers.{merge_ranges_max_coverage-covers}
use hvs_disk.Alpha.Merge.{merged_max_alpha_range_len, merge_alpha_ranges, merge_alpha_ranges-covers}

abbrev three : List Range
three =
    record { first = pos 50; second = pos 60 }
    ∷ record { first = pos 0; second = pos 10 }
    ∷ record { first = pos 20; second = pos 30 }
    ∷ []

merge_ranges_greedy-covers_example :
    (out : List Range) × (merge_ranges_greedy three 2 ≡ some out)
    × (length out ≤ 2)
    × ((x : ℤ) → is_covered three x ≡ true → is_covered out x ≡ true)
merge_ranges_greedy-covers_example = merge_ranges_greedy-covers three 2 (omega arith)

merge_ranges_max_coverage-covers_example :
    (length (merge_ranges_max_coverage three 2) ≤ 2)
    × (is_covered (merge_ranges_max_coverage three 2) (pos 25) ≡ true)
merge_ranges_max_coverage-covers_example =
    merge_ranges_max_coverage-covers three 2 25 (omega arith) (omega arith) refl

merge_alpha_ranges-covers_example :
    (out : List Range) × (merge_alpha_ranges three 2 ≡ some out)
    × (length out ≤ merged_max_alpha_range_len)
    × (is_covered out (pos 25) ≡ true)
merge_alpha_ranges-covers_example =
    merge_alpha_ranges-covers three 2 25 (inl refl) (omega arith) refl
