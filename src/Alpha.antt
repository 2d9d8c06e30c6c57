-- ===== src/Alpha.antt =====
-- Alpha ranges of edges: merge_alpha_ranges and its two methods in src/utils/aux_utils.cpp (also in
-- tests/merge_alpha.cpp). A range is a pair of int8_t bounds, both included, in hundredths.
pub mod Greedy
pub mod Bitmap
pub mod Merge
mod Tests
use hvs_disk.Base.{ℕ, List, [], ◌∷◌, Bool, false, ◌&&◌, ◌||◌}
use hvs_disk.Base.Int.{ℤ, leb_ℤ}

pub record Range : Type 0 where
  pub first : ℤ
  pub second : ℤ

-- The query value x lies in the range.
abbrev pub covers : Range → ℤ → Bool
covers r x = leb_ℤ r.first x && leb_ℤ x r.second

abbrev pub is_covered : List Range → ℤ → Bool
is_covered [] x = false
is_covered (r ∷ rs) x = covers r x || is_covered rs x
