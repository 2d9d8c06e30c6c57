-- ===== src/Locks/Threads/Progress.antt =====
-- No order of steps ends in a deadlock.
use hvs_disk.Base.{
  ℕ, zero, suc, ◌+◌, ◌≤◌, ◌<◌, ◌≡◌, refl, sym, ap, ◌∙◌, inl, inr, List, [], ◌∷◌, ◌++◌, some, true,
  max, arith, ◌==◌, contains, get_elem?, set, Bool-cases,
}
use mathlib.Core.Option.{some-injective, none-ne-some}
use hvs_disk.Base.HashMap.{HashMap}
use hvs_disk.Locks.{RwLock}
use hvs_disk.Locks.Held.{IsIncreasing, held, trywrlock-free, unlock-held}
use hvs_disk.Locks.Threads.{Worker, locking, unlocking, got, gave, step_worker, advance}
use hvs_disk.Locks.Threads.Holders.{
  taken_by, keys_of, work_of, work, holders, All-get, holder-of, entry_for, AreApart, advance-at,
}
use hvs_disk.Locks.Threads.Kept.{entry-free, taken-entry}

-- The key that a thread asks for next.
abbrev next_key : Worker → ℕ
next_key (locking taken []) = 0
next_key (locking taken (k ∷ ks)) = k
next_key (unlocking taken) = 0

abbrev top_key : List Worker → ℕ
top_key [] = 0
top_key (w ∷ ws) = max (next_key w) (top_key ws)

top_key-get :
    (ws : List Worker) (i : ℕ) (w : Worker) → get_elem? ws i ≡ some w → next_key w ≤ top_key ws
top_key-get [] i w e = absurd (ground (arith, e))
top_key-get (v ∷ ws) zero w e = omega (arith, ap next_key (some-injective v w e))
top_key-get (v ∷ ws) (suc i) w e = omega (arith, top_key-get ws i w e)

-- What stands before a key is less.
before-less :
    (from j k : ℕ) (xs ys : List ℕ)
    → IsIncreasing from (xs ++ k ∷ ys)
    → contains xs j ≡ true
    → j < k
before-less from j k [] ys s c = absurd (ground (arith, c))
before-less from j k (x ∷ xs) ys s c = elim (Bool-cases (x == j)) [
  | inl here ↦ ground (arith, here, least (suc x) k xs ys s.1)
  | inr other ↦ before-less (suc x) j k xs ys s.1 (ground (arith, c, other))
]
  where
    least : (from k : ℕ) (xs ys : List ℕ) → IsIncreasing from (xs ++ k ∷ ys) → from ≤ k
    least from k [] ys s = s.0
    least from k (x ∷ xs) ys s = omega (arith, s.0, least (suc x) k xs ys s.1)

module _ (r : RwLock) (h : HashMap (r.Lock × ℕ)) where
  -- Some thread can make a step.
  abbrev pub CanMove : List Worker → h.Table → Type 0
  CanMove ws t =
      (i : ℕ) × (ws' : List Worker) × (t' : h.Table) × (advance r h i ws t ≡ some (ws', t'))

  -- The moves of one thread.
  can-end :
      (ws : List Worker) (t : h.Table) (i : ℕ) (taken : List ℕ)
      → get_elem? ws i ≡ some (locking taken [])
      → CanMove ws t
  unfolding step_worker
  can-end ws t i taken e = (
    i,
    set ws i (unlocking taken),
    t,
    advance-at r h ws i (locking taken []) (unlocking taken) t t e refl,
  )

  can-unlock :
      (ws : List Worker) (t : h.Table) (i k : ℕ) (ks : List ℕ)
      → AreApart r h ws t
      → get_elem? ws i ≡ some (unlocking (k ∷ ks))
      → CanMove ws t
  unfolding step_worker
  can-unlock ws t i k ks a e = (
    i,
    set ws i (unlocking ks),
    h.erase k t,
    advance-at r h ws i (unlocking (k ∷ ks)) (unlocking ks) t (h.erase k t) e
        (ap (gave r h ks) (unlock-held r h k t (taken-entry r h ws i k ks t a e))),
  )

  can-lock :
      (ws : List Worker) (t : h.Table) (i k : ℕ) (taken ks : List ℕ)
      → AreApart r h ws t
      → get_elem? ws i ≡ some (locking taken (k ∷ ks))
      → holders k ws ≡ 0
      → CanMove ws t
  unfolding step_worker
  can-lock ws t i k taken ks a e free =
      let w' = locking (taken ++ k ∷ []) ks in
      let u = h.insert_or_assign k (held r h) t in
      let new = trywrlock-free r h k t (a.entries k ∙ ap (entry_for r h) free) in
      (
        i,
        set ws i w',
        u,
        advance-at r h ws i (locking taken (k ∷ ks)) w' t u e (ap (got r h taken k ks) new),
      )

  -- A thread that has a lock can move, or waits for a larger one.
  holder-moves :
      (ws : List Worker) (t : h.Table) (k j : ℕ) (v : Worker)
      → AreApart r h ws t
      → get_elem? ws j ≡ some v
      → contains (taken_by v) k ≡ true
      → ((k' : ℕ) (taken ks : List ℕ)
          → get_elem? ws j ≡ some (locking taken (k' ∷ ks))
          → k < k'
          → CanMove ws t)
      → CanMove ws t
  holder-moves ws t k j (locking taken []) a e c larger = can-end ws t j taken e
  holder-moves ws t k j (locking taken (k' ∷ ks)) a e c larger = larger k' taken ks e (
      before-less 0 k k' taken ks
        (All-get (λ x. IsIncreasing 0 (keys_of x)) ws j (locking taken (k' ∷ ks)) a.ordered e) c)
  holder-moves ws t k j (unlocking []) a e c larger = absurd (ground (arith, c))
  holder-moves ws t k j (unlocking (x ∷ xs)) a e c larger = can-unlock ws t j x xs a e

  -- The chain of waiting threads has increasing keys, so it ends.
  locking-moves :
      (fuel : ℕ) (ws : List Worker) (t : h.Table) (i k : ℕ) (taken ks : List ℕ)
      → AreApart r h ws t
      → get_elem? ws i ≡ some (locking taken (k ∷ ks))
      → top_key ws < fuel + k
      → CanMove ws t
  locking-moves zero ws t i k taken ks a e lt =
      absurd (omega (arith, lt, top_key-get ws i (locking taken (k ∷ ks)) e))
  locking-moves (suc fuel) ws t i k taken ks a e lt = elim (entry-free r h k ws t a) [
    | inl free ↦ can-lock ws t i k taken ks a e free
    | inr busy ↦
        let (j, v, at, c) = holder-of k ws (some-holds k ws t a busy) in
        holder-moves ws t k j v a at c (λ k' taken' ks' e' less.
          locking-moves fuel ws t j k' taken' ks' a e' (omega (arith, lt, less)))
  ]
    where
      some-holds :
          (k : ℕ) (ws : List Worker) (t : h.Table)
          → AreApart r h ws t
          → h.find k t ≡ some (held r h)
          → 0 < holders k ws
      some-holds k ws t a busy = elim (Bool-cases (holders k ws == 0)) [
        | inr some_holder ↦ ground (arith, some_holder)
        | inl none_holds ↦
            let z : holders k ws ≡ 0 = ground (arith, none_holds) in
            absurd (none-ne-some (held r h) (sym (a.entries k ∙ ap (entry_for r h) z) ∙ busy))
      ]

  worker-moves :
      (ws : List Worker) (t : h.Table) (i : ℕ) (w : Worker)
      → AreApart r h ws t
      → get_elem? ws i ≡ some w
      → 0 < work_of w
      → CanMove ws t
  worker-moves ws t i (locking taken []) a e lt = can-end ws t i taken e
  worker-moves ws t i (locking taken (k ∷ ks)) a e lt =
      locking-moves (suc (top_key ws)) ws t i k taken ks a e (omega arith)
  worker-moves ws t i (unlocking []) a e lt = absurd (omega (arith, lt))
  worker-moves ws t i (unlocking (k ∷ ks)) a e lt = can-unlock ws t i k ks a e

  -- While there is work, some thread moves.
  pub work-moves : (ws : List Worker) (t : h.Table) → AreApart r h ws t → 0 < work ws → CanMove ws t
  work-moves ws t a lt = let (i, w, e, more) = busy-worker ws lt in worker-moves ws t i w a e more
    where
      busy-worker :
          (ws : List Worker)
          → 0 < work ws
          → (i : ℕ) × (w : Worker) × (get_elem? ws i ≡ some w) × (0 < work_of w)
      busy-worker [] lt = absurd (omega (arith, lt))
      busy-worker (w ∷ ws) lt = elim (Bool-cases (work_of w == 0)) [
        | inr more ↦ (0, w, refl, ground (arith, more))
        | inl none_left ↦
            let (i, v, e, more) = busy-worker ws (ground (arith, lt, none_left)) in
            (suc i, v, e, more)
      ]
