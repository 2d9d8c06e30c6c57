-- ===== src/Alpha/Greedy.antt =====
-- merge_ranges_greedy of src/utils/aux_utils.cpp. The pairs are totally ordered, so every sort of
-- them gives the same list, and insertion stands for std::sort. The gaps of int8_t bounds fit int16_t.
use hvs_disk.Base.{
  ℕ, zero, suc, ◌+◌, ◌-◌, ◌≤◌, ◌<◌, ◌≡◌, refl, ap, ◌∙◌, inl, inr, List, [], ◌∷◌, Option, none, some,
  Bool, true, arith, ltb, leb, ltb→lt, ◌==◌, ◌&&◌, ◌||◌, if◌then◌else◌, length, Bool-cases, not,
}
use hvs_disk.Base.Int.{ℤ, pos, ◌-ℤ◌, ◌≤ℤ◌, ltb_ℤ, max_ℤ}
use hvs_disk.Alpha.{Range, covers, is_covered}

-- `<` of std::pair<int8_t, int8_t>
pub range_lt : Range → Range → Bool
range_lt a b = ltb_ℤ a.first b.first || (not (ltb_ℤ b.first a.first) && ltb_ℤ a.second b.second)

pub insert_range : Range → List Range → List Range
insert_range r [] = r ∷ []
insert_range r (s ∷ rs) =
    let rest = insert_range r rs in if range_lt s r then s ∷ rest else r ∷ s ∷ rs

pub sort_ranges : List Range → List Range
unfolding range_lt insert_range
sort_ranges [] = []
sort_ranges (r ∷ rs) = insert_range r (sort_ranges rs)

-- The inner loop: the first index i whose gap to the next range is least.
pub best_gap : ℕ → ℤ → ℕ → List Range → ℕ
best_gap i gap idx [] = idx
best_gap i gap idx (a ∷ []) = idx
best_gap i gap idx (a ∷ b ∷ rs) =
    let here = b.first -ℤ a.second in
    let better = ltb_ℤ here gap in
    best_gap (suc i) (if better then here else gap) (if better then i else idx) (b ∷ rs)

-- `result[i].second = max(...)` and the erasure of `result[i + 1]`; past the end nothing is left to
-- merge.
pub merge_at : ℕ → List Range → List Range
merge_at i [] = []
merge_at i (a ∷ []) = a ∷ []
merge_at zero (a ∷ b ∷ rs) = record a { second = max_ℤ a.second b.second } ∷ rs
merge_at (suc i) (a ∷ b ∷ rs) = a ∷ merge_at i (b ∷ rs)

-- The while loop; `none` is out of fuel.
pub merge_loop : ℕ → ℕ → List Range → Option (List Range)
unfolding best_gap merge_at ◌-ℤ◌
merge_loop zero target rs = none
merge_loop (suc fuel) target rs =
    let rest = merge_loop fuel target (merge_at (best_gap 0 (pos 32767) 0 rs) rs) in
    if ltb target (length rs) then rest else some rs

unfoldable pub merge_ranges_greedy : List Range → ℕ → Option (List Range)
unfolding sort_ranges merge_loop
merge_ranges_greedy ranges target =
    if leb (length ranges) target || (length ranges == 0)
    then some ranges
    else merge_loop (suc (length ranges)) target (sort_ranges ranges)

-- The lower bounds grow along the list.
abbrev IsAbove : ℤ → List Range → Type 0
IsAbove x [] = Unit
IsAbove x (r ∷ rs) = (x ≤ℤ r.first) × IsAbove r.first rs

abbrev IsOrdered : List Range → Type 0
IsOrdered [] = Unit
IsOrdered (r ∷ rs) = IsAbove r.first rs

insert_range-IsAbove :
    (x : ℤ) (r : Range) (rs : List Range)
    → x ≤ℤ r.first
    → IsAbove x rs
    → IsAbove x (insert_range r rs)
unfolding insert_range range_lt
insert_range-IsAbove x r [] h a = (h, tt)
insert_range-IsAbove x r (s ∷ rs) h a = ground (arith, insert_range-IsAbove s.first r rs)

insert_range-IsOrdered :
    (r : Range) (rs : List Range) → IsOrdered rs → IsOrdered (insert_range r rs)
unfolding insert_range range_lt
insert_range-IsOrdered r [] h = tt
insert_range-IsOrdered r (s ∷ rs) h = ground (arith, insert_range-IsAbove s.first r rs)

sort_ranges-IsOrdered : (rs : List Range) → IsOrdered (sort_ranges rs)
unfolding sort_ranges
sort_ranges-IsOrdered [] = tt
sort_ranges-IsOrdered (r ∷ rs) =
    insert_range-IsOrdered r (sort_ranges rs) (sort_ranges-IsOrdered rs)

length-insert_range : (r : Range) (rs : List Range) → length (insert_range r rs) ≡ suc (length rs)
unfolding insert_range
length-insert_range r [] = refl
length-insert_range r (s ∷ rs) = ground (arith, length-insert_range r rs)

length-sort_ranges : (rs : List Range) → length (sort_ranges rs) ≡ length rs
unfolding sort_ranges
length-sort_ranges [] = refl
length-sort_ranges (r ∷ rs) =
    omega (arith, length-insert_range r (sort_ranges rs), length-sort_ranges rs)

is_covered-insert_range :
    (r : Range) (rs : List Range) (x : ℤ)
    → is_covered (insert_range r rs) x ≡ (covers r x || is_covered rs x)
unfolding insert_range
is_covered-insert_range r [] x = refl
is_covered-insert_range r (s ∷ rs) x = ground (arith, is_covered-insert_range r rs x)

is_covered-sort_ranges : (rs : List Range) (x : ℤ) → is_covered (sort_ranges rs) x ≡ is_covered rs x
unfolding sort_ranges
is_covered-sort_ranges [] x = refl
is_covered-sort_ranges (r ∷ rs) x =
    is_covered-insert_range r (sort_ranges rs) x
    ∙ ap (λ (b : Bool). covers r x || b) (is_covered-sort_ranges rs x)

merge_at-IsAbove : (x : ℤ) (i : ℕ) (rs : List Range) → IsAbove x rs → IsAbove x (merge_at i rs)
unfolding merge_at
merge_at-IsAbove x i [] h = h
merge_at-IsAbove x i (a ∷ []) h = h
merge_at-IsAbove x zero (a ∷ b ∷ []) h = (h.0, tt)
merge_at-IsAbove x zero (a ∷ b ∷ c ∷ rs) h = (h.0, (omega arith, h.1.1.1))
merge_at-IsAbove x (suc i) (a ∷ b ∷ rs) h = (h.0, merge_at-IsAbove a.first i (b ∷ rs) h.1)

merge_at-IsOrdered : (i : ℕ) (rs : List Range) → IsOrdered rs → IsOrdered (merge_at i rs)
unfolding merge_at
merge_at-IsOrdered i [] h = h
merge_at-IsOrdered i (a ∷ []) h = h
merge_at-IsOrdered zero (a ∷ b ∷ []) h = tt
merge_at-IsOrdered zero (a ∷ b ∷ c ∷ rs) h = (omega arith, h.1.1)
merge_at-IsOrdered (suc i) (a ∷ b ∷ rs) h = merge_at-IsAbove a.first i (b ∷ rs) h

is_covered-merge_at :
    (i : ℕ) (rs : List Range) (x : ℤ)
    → IsOrdered rs
    → is_covered rs x ≡ true
    → is_covered (merge_at i rs) x ≡ true
unfolding merge_at
is_covered-merge_at i [] x h c = c
is_covered-merge_at i (a ∷ []) x h c = c
is_covered-merge_at zero (a ∷ b ∷ rs) x h c = ground (arith, h.0)
is_covered-merge_at (suc i) (a ∷ b ∷ []) x h c = ground (arith, is_covered-merge_at i (b ∷ []) x tt)
is_covered-merge_at (suc i) (a ∷ b ∷ d ∷ rs) x h c =
    ground (arith, is_covered-merge_at i (b ∷ d ∷ rs) x h.1)

length-merge_at :
    (i : ℕ) (rs : List Range) → suc i < length rs → suc (length (merge_at i rs)) ≡ length rs
unfolding merge_at
length-merge_at i [] h = absurd (omega arith)
length-merge_at i (a ∷ []) h = absurd (omega arith)
length-merge_at zero (a ∷ b ∷ rs) h = refl
length-merge_at (suc i) (a ∷ b ∷ rs) h = ap suc (length-merge_at i (b ∷ rs) (omega arith))

best_gap-lt :
    (i : ℕ) (gap : ℤ) (idx : ℕ) (rs : List Range)
    → idx < i + length rs - 1
    → best_gap i gap idx rs < i + length rs - 1
unfolding best_gap
best_gap-lt i gap idx [] h = h
best_gap-lt i gap idx (a ∷ []) h = h
best_gap-lt i gap idx (a ∷ b ∷ rs) h =
    let here = b.first -ℤ a.second in
    let better = ltb_ℤ here gap in
    let idx' : ℕ = if better then i else idx in
    let bound : idx' < suc i + length (b ∷ rs) - 1 = elim (Bool-cases better) [
      | inl e ↦ rw e (omega arith)
      | inr e ↦ rw e (omega arith)
    ] in
    omega (arith, best_gap-lt (suc i) (if better then here else gap) idx' (b ∷ rs) bound)

-- One round keeps the order and the coverage, and shortens a list of two or more.
merge_round :
    (rs : List Range)
    → 1 < length rs
    → suc (length (merge_at (best_gap 0 (pos 32767) 0 rs) rs)) ≡ length rs
merge_round rs h =
    length-merge_at (best_gap 0 (pos 32767) 0 rs) rs
      (omega (arith, best_gap-lt 0 (pos 32767) 0 rs (omega arith)))

merge_loop_lem :
    (fuel target : ℕ) (rs : List Range)
    → 0 < target
    → length rs < fuel
    → IsOrdered rs
    → (out : List Range) × (merge_loop fuel target rs ≡ some out)
      × (length out ≤ target)
      × IsOrdered out
      × ((x : ℤ) → is_covered rs x ≡ true → is_covered out x ≡ true)
unfolding merge_loop
merge_loop_lem zero target rs p f o = absurd (omega arith)
merge_loop_lem (suc fuel) target rs p f o = elim (Bool-cases (ltb target (length rs))) [
  | inr done ↦ (rs, rw done, ground arith, o, λ x c. c)
  | inl more ↦
      let i = best_gap 0 (pos 32767) 0 rs in
      let long : 1 < length rs = omega (arith, ltb→lt target (length rs) more) in
      let shorter = merge_round rs long in
      let (out, run, fits, order, keeps) =
        merge_loop_lem fuel target (merge_at i rs) p (omega arith) (merge_at-IsOrdered i rs o) in
      (out, rw more run, fits, order, λ x c. keeps x (is_covered-merge_at i rs x o c))
]

-- With a positive target the loop ends within its fuel, returns at most target ranges, or the input
-- where that has no more, and every value covered by the input is covered by the result.
pub merge_ranges_greedy-covers :
    (ranges : List Range) (target : ℕ)
    → 0 < target
    → (out : List Range) × (merge_ranges_greedy ranges target ≡ some out)
      × (length out ≤ target)
      × ((x : ℤ) → is_covered ranges x ≡ true → is_covered out x ≡ true)
unfolding merge_ranges_greedy
merge_ranges_greedy-covers ranges target p =
    elim (Bool-cases (leb (length ranges) target || (length ranges == 0))) [
      | inl few ↦ (ranges, rw few, ground arith, λ x c. c)
      | inr many ↦
          let (out, run, fits, _, keeps) =
            merge_loop_lem (suc (length ranges)) target (sort_ranges ranges) p
              (omega (arith, length-sort_ranges ranges)) (sort_ranges-IsOrdered ranges) in
          (out, rw many run, fits, λ x c. keeps x (is_covered-sort_ranges ranges x ∙ c))
    ]
