-- ===== src/Hybrid/Ranges.antt =====
-- The ranges of weights of an edge, in src/hybrid_index.cpp: intersection, mergeIntervals and both
-- versions of get_use_range. The test of a gap against 0.01 is a subtraction of floats and a
-- comparison: a parameter.
pub mod Use
use hvs_disk.Base.{
  one_float, ℕ, zero, suc, ◌+◌, ◌-◌, List, [], ◌∷◌, ◌++◌, Bool, true, false, min, max, ltb, leb,
  ◌==◌, ◌&&◌, ◌||◌, if◌then◌else◌,
}

pub record Interval : Type 0 where
  pub first : ℕ
  pub second : ℕ

-- `<` of std::pair<float, float>
pub interval_lt : Interval → Interval → Bool
interval_lt a b = ltb a.first b.first || ((a.first == b.first) && ltb a.second b.second)

pub insert_interval : Interval → List Interval → List Interval
unfolding interval_lt
insert_interval a [] = a ∷ []
insert_interval a (b ∷ bs) =
    let rest = insert_interval a bs in if interval_lt b a then b ∷ rest else a ∷ b ∷ bs

pub sort_intervals : List Interval → List Interval
unfolding insert_interval
sort_intervals [] = []
sort_intervals (a ∷ cs) = insert_interval a (sort_intervals cs)

-- What one call adds to shared_use_range; the loop ends at a range that starts after use_range.
unfoldable pub intersection : List Interval → Interval → List Interval
intersection [] w = []
intersection (r ∷ rs) w =
    let rest = intersection rs w in
    let lower_bound = max r.first w.first in
    let upper_bound = min r.second w.second in
    if leb r.second w.first
    then rest
    else if leb w.second r.first
    then []
    else if ltb lower_bound upper_bound
    then record { first = lower_bound; second = upper_bound } ∷ rest
    else rest

-- The loop of mergeIntervals with merged.back() first: it runs to intervals.size() - 1, so the last
-- interval of two or more is not read.
pub merge_into : Interval → List Interval → List Interval
merge_into back [] = back ∷ []
merge_into back (a ∷ []) = back ∷ []
merge_into back (a ∷ b ∷ rest) =
    let joined = merge_into (record back { second = max back.second a.second }) (b ∷ rest) in
    let apart = merge_into a (b ∷ rest) in if leb a.first back.second then joined else back ∷ apart

abbrev pub merge_sorted : List Interval → List Interval
merge_sorted [] = []
merge_sorted (a ∷ cs) = merge_into a cs

unfoldable pub merge_intervals : List Interval → List Interval
unfolding sort_intervals merge_into
merge_intervals intervals = merge_sorted (sort_intervals intervals)

module _ (wide : ℕ → ℕ → Bool) where
  abbrev pub gap : ℕ → ℕ → List Interval → List Interval
  gap a b rest = if wide a b then record { first = a; second = b } ∷ rest else rest

  -- The gaps between neighbours, then the gap up to 1.
  pub use_after : Interval → List Interval → List Interval
  use_after a [] = if ltb a.second one_float then gap a.second one_float [] else []
  use_after a (b ∷ bs) = gap a.second b.first (use_after b bs)

  unfoldable pub get_use_range : List Interval → List Interval
  unfolding use_after
  get_use_range [] = record { first = 0; second = one_float } ∷ []
  get_use_range (a ∷ cs) = if ltb 0 a.first then gap 0 a.first (use_after a cs) else use_after a cs
