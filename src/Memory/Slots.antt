-- ===== src/Memory/Slots.antt =====
-- Sets of slots: the loops that insert them, and how many there are.
use hvs_disk.Base.{
  ℕ, zero, suc, ◌+◌, ◌<◌, ◌≡◌, refl, sym, ap, ◌∙◌, List, [], ◌∷◌, Bool, true, false, not, ◌&&◌,
  ◌||◌, arith, ltb, leb, ◌==◌, if◌then◌else◌, length, contains, IsDistinct, All, Bool-cases, inl,
  inr,
}
use hvs_disk.Base.HashMap.{HashMap}
use hvs_disk.Base.HashSet.{HashSet}
use hvs_disk.Memory.{insert_slots, insert_all}

module _ (s : HashSet) (m : HashMap ℕ) where
  pub has-insert_slots :
      (left slot j : ℕ) (t : s.Table)
      → s.has j (insert_slots s m left slot t) ≡ ((leb slot j && ltb j (slot + left)) || s.has j t)
  unfolding insert_slots
  has-insert_slots zero slot j t = ground arith
  has-insert_slots (suc left) slot j t =
      ground (arith, has-insert_slots left (slot + 1) j (s.insert slot t), s.has-insert slot j t)

  pub has-insert_all :
      (xs : List ℕ) (j : ℕ) (t : s.Table)
      → s.has j (insert_all s m xs t) ≡ (contains xs j || s.has j t)
  unfolding insert_all
  has-insert_all [] j t = refl
  has-insert_all (x ∷ xs) j t =
      ground (arith, has-insert_all xs j (s.insert x t), s.has-insert x j t)

-- How many numbers below a bound pass a test.
abbrev pub count : (ℕ → Bool) → ℕ → ℕ
count p zero = 0
count p (suc n) = let rest = count p n in if p n then suc rest else rest

pub count-same : (p q : ℕ → Bool) (n : ℕ) → ((i : ℕ) → i < n → p i ≡ q i) → count p n ≡ count q n
count-same p q zero same = refl
count-same p q (suc n) same =
    ground (arith, same n (omega arith), count-same p q n (λ i lt. same i (omega (arith, lt))))

pub count-not : (p : ℕ → Bool) (n : ℕ) → count (λ i. not (p i)) n + count p n ≡ n
count-not p zero = refl
count-not p (suc n) = ground (arith, count-not p n)

-- One more number that did not pass before.
count-more :
    (p : ℕ → Bool) (x n : ℕ)
    → p x ≡ false
    → count (λ i. (x == i) || p i) n ≡ (if ltb x n then suc (count p n) else count p n)
count-more p x zero new = ground arith
count-more p x (suc n) new = elim (Bool-cases (x == n)) [
  | inl e ↦
      let q : x ≡ n = ground (arith, e) in
      ground (arith, count-more p x n new, new, e, sym (ap p q) ∙ new)
  | inr e ↦ ground (arith, count-more p x n new, e)
]

count-none : (n : ℕ) → count (λ i. false) n ≡ 0
count-none zero = refl
count-none (suc n) = count-none n

-- A list of distinct numbers below a bound is as long as there are such members.
pub count-contains :
    (xs : List ℕ) (n : ℕ) → IsDistinct xs → All (λ x. x < n) xs → count (contains xs) n ≡ length xs
count-contains [] n d a = count-none n
count-contains (x ∷ xs) n d a =
    ground (arith, count-more (contains xs) x n d.0, count-contains xs n d.1 a.1, a.0)

pub All-contains :
    {P : ℕ → Type 0} (xs : List ℕ) → ((x : ℕ) → contains xs x ≡ true → P x) → All P xs
All-contains [] f = tt
All-contains (x ∷ xs) f = (f x (ground arith), All-contains xs (λ y e. f y (ground (arith, e))))
