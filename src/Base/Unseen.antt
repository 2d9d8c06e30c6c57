-- ===== src/Base/Unseen.antt =====
-- How many numbers below a bound a list leaves out: what a search can still find.
use hvs_disk.Base.{
  ℕ, zero, suc, ◌+◌, ◌≤◌, ◌<◌, ◌≡◌, refl, List, ◌∷◌, false, arith, ◌==◌, if◌then◌else◌, contains,
  inl, inr, Bool-cases,
}

-- The ids below n that have not been seen.
abbrev pub unseen : ℕ → List ℕ → ℕ
unseen zero v = 0
unseen (suc n) v = (if contains v n then 0 else 1) + unseen n v

unseen-beyond : (n i : ℕ) (v : List ℕ) → n ≤ i → unseen n (i ∷ v) ≡ unseen n v
unseen-beyond zero i v le = refl
unseen-beyond (suc n) i v le = ground (arith, le, unseen-beyond n i v)

pub unseen-visit :
    (n i : ℕ) (v : List ℕ) → i < n → contains v i ≡ false → unseen n v ≡ suc (unseen n (i ∷ v))
unseen-visit zero i v lt e = absurd (omega (arith, lt))
unseen-visit (suc n) i v lt e = elim (Bool-cases (i == n)) [
  | inl last ↦ ground (arith, last, e, unseen-beyond n i v)
  | inr before ↦ ground (arith, before, lt, e, unseen-visit n i v)
]

pub unseen-le : (n : ℕ) (v : List ℕ) → unseen n v ≤ n
unseen-le zero v = omega arith
unseen-le (suc n) v = ground (arith, unseen-le n v)
