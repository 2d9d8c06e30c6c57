-- ===== src/Locks/Threads/Holders.antt =====
-- Which thread has which lock.
use hvs_disk.Base.{
  ℕ, zero, suc, ◌+◌, ◌*◌, ◌≤◌, ◌<◌, ◌≡◌, refl, ap, ◌∙◌, subst, inl, inr, List, [], ◌∷◌, ◌++◌,
  Option, none, some, Bool, true, false, arith, length, contains, get_elem?, set, All, Bool-cases,
}
use mathlib.Core.Option.{some-injective}
use hvs_disk.Base.HashMap.{HashMap}
use hvs_disk.Locks.{RwLock}
use hvs_disk.Locks.Held.{IsIncreasing, held}
use hvs_disk.Locks.Threads.{
  Worker, locking, unlocking, step_worker, first_worker, later_worker, advance,
}

abbrev pub taken_by : Worker → List ℕ
taken_by (locking taken wanted) = taken
taken_by (unlocking taken) = taken

-- Its locks and the ones that it still wants.
abbrev pub keys_of : Worker → List ℕ
keys_of (locking taken wanted) = taken ++ wanted
keys_of (unlocking taken) = taken

-- The steps that a thread has left.
abbrev pub work_of : Worker → ℕ
work_of (locking taken wanted) = length taken + 2 * length wanted + 1
work_of (unlocking taken) = length taken

abbrev pub work : List Worker → ℕ
work [] = 0
work (w ∷ ws) = work_of w + work ws

abbrev pub one_if : Bool → ℕ
one_if true = 1
one_if false = 0

-- How many threads have a lock.
abbrev pub holders : ℕ → List Worker → ℕ
holders k [] = 0
holders k (w ∷ ws) = one_if (contains (taken_by w) k) + holders k ws

pub holders-set :
    (k : ℕ) (ws : List Worker) (i : ℕ) (w w' : Worker)
    → get_elem? ws i ≡ some w
    → holders k (set ws i w') + one_if (contains (taken_by w) k)
      ≡ holders k ws + one_if (contains (taken_by w') k)
holders-set k [] i w w' e = absurd (ground (arith, e))
holders-set k (v ∷ ws) zero w w' e =
    omega (arith, ap (λ (x : Worker). one_if (contains (taken_by x) k)) (some-injective v w e))
holders-set k (v ∷ ws) (suc i) w w' e = omega (arith, holders-set k ws i w w' e)

pub work-set :
    (ws : List Worker) (i : ℕ) (w w' : Worker)
    → get_elem? ws i ≡ some w
    → work (set ws i w') + work_of w ≡ work ws + work_of w'
work-set [] i w w' e = absurd (ground (arith, e))
work-set (v ∷ ws) zero w w' e = omega (arith, ap work_of (some-injective v w e))
work-set (v ∷ ws) (suc i) w w' e = omega (arith, work-set ws i w w' e)

pub All-set :
    (P : Worker → Type 0) (ws : List Worker) (i : ℕ) (w : Worker)
    → All P ws
    → P w
    → All P (set ws i w)
All-set P [] i w a p = tt
All-set P (v ∷ ws) zero w a p = (p, a.1)
All-set P (v ∷ ws) (suc i) w a p = (a.0, All-set P ws i w a.1 p)

pub All-get :
    (P : Worker → Type 0) (ws : List Worker) (i : ℕ) (w : Worker)
    → All P ws
    → get_elem? ws i ≡ some w
    → P w
All-get P [] i w a e = absurd (ground (arith, e))
All-get P (v ∷ ws) zero w a e = subst P (some-injective v w e) a.0
All-get P (v ∷ ws) (suc i) w a e = All-get P ws i w a.1 e

pub holder-of :
    (k : ℕ) (ws : List Worker)
    → 0 < holders k ws
    → (i : ℕ) × (w : Worker) × (get_elem? ws i ≡ some w) × (contains (taken_by w) k ≡ true)
holder-of k [] lt = absurd (omega (arith, lt))
holder-of k (w ∷ ws) lt = elim (Bool-cases (contains (taken_by w) k)) [
  | inl here ↦ (0, w, refl, here)
  | inr other ↦ let (i, v, e, c) = holder-of k ws (ground (arith, lt, other)) in (suc i, v, e, c)
]

module _ (r : RwLock) (h : HashMap (r.Lock × ℕ)) where
  -- The entry of a key that so many threads have.
  abbrev pub entry_for : ℕ → Option (r.Lock × ℕ)
  entry_for zero = none
  entry_for (suc n) = some (held r h)

  -- The table has an entry for exactly the locks that a thread has, no lock has two threads, and the
  -- keys of every thread increase.
  pub record AreApart (ws : List Worker) (t : h.Table) : Type 0 where
    pub entries : (k : ℕ) → h.find k t ≡ entry_for (holders k ws)
    pub single : (k : ℕ) → holders k ws ≤ 1
    pub ordered : All (λ w. IsIncreasing 0 (keys_of w)) ws

  pub advance-at :
      (ws : List Worker) (i : ℕ) (w w' : Worker) (t u : h.Table)
      → get_elem? ws i ≡ some w
      → step_worker r h w t ≡ some (w', u)
      → advance r h i ws t ≡ some (set ws i w', u)
  unfolding advance
  advance-at [] i w w' t u e run = absurd (ground (arith, e))
  advance-at (v ∷ ws) zero w w' t u e run =
      ap (first_worker r h ws)
        (ap (λ (x : Worker). step_worker r h x t) (some-injective v w e) ∙ run)
  advance-at (v ∷ ws) (suc i) w w' t u e run =
      ap (later_worker r h v) (advance-at ws i w w' t u e run)
