-- ===== src/Alpha/Bitmap/Covers.antt =====
-- The bitmap method covers every value that its input covers.
use hvs_disk.Base.{
  ℕ, zero, suc, ◌+◌, ◌-◌, ◌≤◌, ◌<◌, ◌≡◌, refl, ◌∙◌, inl, inr, List, [], ◌∷◌, Option, none, some,
  Bool, true, false, arith, ltb, leb, ◌==◌, ◌&&◌, ◌||◌, length, get_or, set, replicate, length-set,
  length-replicate, get_or-set, Bool-cases, lt→==_zero,
}
use hvs_disk.Base.Int.{pos, pos_part}
use hvs_disk.Alpha.{Range, covers, is_covered}
use hvs_disk.Alpha.Bitmap.{
  mark, rounds, mark_all, ends, Gap, better_gap, find_gap, split_at, cover_ends,
  merge_ranges_max_coverage,
}

abbrev bit : List Bool → ℕ → Bool
bit bm x = get_or bm x false

or_true : (a b : Bool) → b ≡ true → (a || b) ≡ true
or_true a b h = ground arith

length-mark : (n i : ℕ) (bm : List Bool) → length (mark n i bm) ≡ length bm
unfolding mark
length-mark zero i bm = refl
length-mark (suc n) i bm = length-mark n (suc i) (set bm i true) ∙ length-set bm i true

-- Marking adds the marked indices and no others.
bit-mark :
    (n i : ℕ) (bm : List Bool) (x : ℕ)
    → (0 < n → i + n ≤ length bm)
    → bit (mark n i bm) x ≡ (bit bm x || (leb i x && ltb x (i + n)))
unfolding mark
bit-mark zero i bm x h = ground arith
bit-mark (suc n) i bm x h =
    let room = h (omega arith) in
    let rest = bit-mark n (suc i) (set bm i true) x (λ p. omega (arith, length-set bm i true)) in
    rest ∙ ground (arith, get_or-set bm i x true false)

rounds-le : (r : Range) → 0 < rounds r → pos_part r.first + rounds r ≤ 101
unfolding rounds
rounds-le r h = ground arith

bit-rounds :
    (r : Range) (x : ℕ)
    → x ≤ 100
    → (leb (pos_part r.first) x && ltb x (pos_part r.first + rounds r)) ≡ covers r (pos x)
unfolding rounds
bit-rounds r x h = ground arith

-- The bitmap holds exactly the covered values.
bit-mark_all :
    (rs : List Range) (bm : List Bool) (x : ℕ)
    → x ≤ 100
    → length bm ≡ 101
    → bit (mark_all rs bm) x ≡ (bit bm x || is_covered rs (pos x))
unfolding mark_all
bit-mark_all [] bm x h l = ground arith
bit-mark_all (r ∷ rs) bm x h l =
    let bm' = mark (rounds r) (pos_part r.first) bm in
    let here = bit-mark (rounds r) (pos_part r.first) bm x (λ p. omega (arith, rounds-le r p)) in
    bit-mark_all rs bm' x h (length-mark (rounds r) (pos_part r.first) bm ∙ l)
    ∙ ground (arith, here, bit-rounds r x h)

ends-some :
    (i f last : ℕ) (bm : List Bool)
    → (l : ℕ) × (ends i (some f) (some last) bm ≡ some (f, l))
      × (last ≤ i → last ≤ l)
      × ((x : ℕ) → bit bm x ≡ true → i + x ≤ l)
unfolding ends
ends-some i f last [] = (last, refl, λ h. omega arith, λ x h. cc)
ends-some i f last (true ∷ bm) =
    let (l, run, above, all) = ends-some (suc i) f i bm in
    let here = above (omega arith) in
    (
      l,
      run,
      λ h. omega arith,
      λ x. elim x as (λ y. bit (true ∷ bm) y ≡ true → i + y ≤ l) [
        | zero ↦ λ h. omega arith
        | suc y ↦ λ h. omega (arith, all y h)
      ],
    )
ends-some i f last (false ∷ bm) =
    let (l, run, above, all) = ends-some (suc i) f last bm in
    (
      l,
      run,
      λ h. above (omega arith),
      λ x. elim x as (λ y. bit (false ∷ bm) y ≡ true → i + y ≤ l) [
        | zero ↦ λ h. cc
        | suc y ↦ λ h. omega (arith, all y h)
      ],
    )

-- Every covered point lies between the two ends; with no covered point there are no ends.
abbrev Bounds : ℕ → List Bool → Option (ℕ × ℕ) → Type 0
Bounds i bm none = (x : ℕ) → bit bm x ≡ false
Bounds i bm (some (f, l)) = (x : ℕ) → bit bm x ≡ true → (f ≤ i + x) × (i + x ≤ l)

Bounds-false :
    (i : ℕ) (bm : List Bool) (o : Option (ℕ × ℕ)) → Bounds (suc i) bm o → Bounds i (false ∷ bm) o
Bounds-false i bm none h =
    λ x. elim x as (λ y. bit (false ∷ bm) y ≡ false) [ zero ↦ refl | suc y ↦ h y ]
Bounds-false i bm (some (f, l)) h = λ x.
    elim x as (λ y. bit (false ∷ bm) y ≡ true → (f ≤ i + y) × (i + y ≤ l)) [
      | zero ↦ λ e. cc
      | suc y ↦ λ e. omega (arith, h y e)
    ]

ends-Bounds : (i : ℕ) (bm : List Bool) → Bounds i bm (ends i none none bm)
unfolding ends
ends-Bounds i [] = λ x. refl
ends-Bounds i (true ∷ bm) =
    let (l, run, above, all) = ends-some (suc i) i i bm in
    let here = above (omega arith) in
    rw run λ x. elim x as (λ y. bit (true ∷ bm) y ≡ true → (i ≤ i + y) × (i + y ≤ l)) [
      | zero ↦ λ h. omega arith
      | suc y ↦ λ h. omega (arith, all y h)
    ]
ends-Bounds i (false ∷ bm) = Bounds-false i bm (ends (suc i) none none bm) (ends-Bounds (suc i) bm)

-- No covered point lies in the gap; none lies between the start of an open gap and i.
abbrev IsFree : List Bool → Option Gap → Type 0
IsFree bm none = Unit
IsFree bm (some g) = (x : ℕ) → g.start ≤ x → x ≤ g.stop → bit bm x ≡ false

abbrev IsOpen : List Bool → ℕ → Option ℕ → Type 0
IsOpen bm i none = Unit
IsOpen bm i (some s) = (s < i) × ((x : ℕ) → s ≤ x → x < i → bit bm x ≡ false)

better_gap-IsFree :
    (bm : List Bool) (best : Option Gap) (s e : ℕ)
    → IsFree bm best
    → IsOpen bm e (some s)
    → IsFree bm (better_gap best s e)
unfolding better_gap
better_gap-IsFree bm none s e f o = λ x a b. o.1 x a (omega arith)
better_gap-IsFree bm (some g) s e f o = elim (Bool-cases (ltb g.len (e - s))) [
  | inl longer ↦ rw longer (λ x a b. o.1 x a (omega arith))
  | inr shorter ↦ rw shorter f
]

find_gap-IsFree :
    (bm : List Bool) (n i : ℕ) (best : Option Gap) (start : Option ℕ)
    → IsFree bm best
    → IsOpen bm i start
    → IsFree bm (find_gap bm n i best start)
unfolding find_gap
find_gap-IsFree bm zero i best none f o = f
find_gap-IsFree bm zero i best (some s) f o = better_gap-IsFree bm best s i f o
find_gap-IsFree bm (suc n) i best none f o = elim (Bool-cases (bit bm i)) [
  | inl c ↦ rw c (find_gap-IsFree bm n (suc i) best none f tt)
  | inr c ↦ rw c (
      find_gap-IsFree bm n (suc i) best (some i) f
        (omega arith, λ x a b. let e : x ≡ i = omega arith in rw e c))
]
find_gap-IsFree bm (suc n) i best (some s) f o = elim (Bool-cases (bit bm i)) [
  | inl c ↦ rw c (find_gap-IsFree bm n (suc i) _ none (better_gap-IsFree bm best s i f o) tt)
  | inr c ↦ rw c (
      find_gap-IsFree bm n (suc i) best (some s) f (
        omega arith,
        λ x a b. elim (Bool-cases (x == i)) [
          | inl same ↦ let e : x ≡ i = ground arith in rw e c
          | inr other ↦ o.1 x a (ground arith)
        ],
      ))
]

-- A point between the ends and outside the gap is covered by the split, and the split has at most
-- two ranges.
split_at-covers :
    (bm : List Bool) (f l : ℕ) (o : Option Gap) (x : ℕ)
    → IsFree bm o
    → bit bm x ≡ true
    → f ≤ x
    → x ≤ l
    → is_covered (split_at f l o) (pos x) ≡ true
unfolding split_at
split_at-covers bm f l none x free c lo hi = ground arith
split_at-covers bm f l (some g) x free c lo hi = ground (arith, free x)

length-split_at : (f l : ℕ) (o : Option Gap) → length (split_at f l o) ≤ 2
unfolding split_at
length-split_at f l none = omega arith
length-split_at f l (some g) = ground arith

cover_ends-covers :
    (bm : List Bool) (target : ℕ) (o : Option (ℕ × ℕ)) (x : ℕ)
    → Bounds 0 bm o
    → bit bm x ≡ true
    → is_covered (cover_ends bm target o) (pos x) ≡ true
unfolding cover_ends
cover_ends-covers bm target none x b c = cc (b x)
cover_ends-covers bm target (some (f, l)) x b c =
    let (lo, hi) = b x c in
    elim (Bool-cases (target == 1)) [
      | inl one ↦ rw one (ground arith)
      | inr more ↦ rw more (
          split_at-covers bm f l (find_gap bm (l + 1 - f) f none none) x
            (find_gap-IsFree bm (l + 1 - f) f none none tt tt) c (omega arith) (omega arith))
    ]

length-cover_ends :
    (bm : List Bool) (target : ℕ) (o : Option (ℕ × ℕ))
    → 0 < target
    → length (cover_ends bm target o) ≤ target
unfolding cover_ends
length-cover_ends bm target none p = omega arith
length-cover_ends bm target (some (f, l)) p = elim (Bool-cases (target == 1)) [
  | inl one ↦ rw one (ground arith)
  | inr more ↦
      rw more (let two = length-split_at f l (find_gap bm (l + 1 - f) f none none) in ground arith)
]

-- With a positive target the result has at most target ranges, or is the input where that has no
-- more, and every alpha from 0 to 100 that the input covers is covered by the result.
pub merge_ranges_max_coverage-covers :
    (ranges : List Range) (target x : ℕ)
    → 0 < target
    → x ≤ 100
    → is_covered ranges (pos x) ≡ true
    → (length (merge_ranges_max_coverage ranges target) ≤ target)
      × (is_covered (merge_ranges_max_coverage ranges target) (pos x) ≡ true)
unfolding merge_ranges_max_coverage
merge_ranges_max_coverage-covers ranges target x p h c =
    let blank = replicate 101 false in
    let bm = mark_all ranges blank in
    let marked : bit bm x ≡ true =
      bit-mark_all ranges blank x h (length-replicate 101 false) ∙ or_true (bit blank x) _ c in
    elim (Bool-cases (leb (length ranges) target || (length ranges == 0))) [
      | inl few ↦ rw few (ground arith, c)
      | inr many ↦
          rw (many, lt→==_zero target p)
            (
              length-cover_ends bm target (ends 0 none none bm) p,
              cover_ends-covers bm target (ends 0 none none bm) x (ends-Bounds 0 bm) marked,
            )
    ]
