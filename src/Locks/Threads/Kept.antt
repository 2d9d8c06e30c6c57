-- ===== src/Locks/Threads/Kept.antt =====
-- What one step of a thread keeps.
use hvs_disk.Base.{
  ℕ, zero, suc, ◌≤◌, ◌≡◌, refl, sym, ap, ◌∙◌, subst, ◌⊎◌, inl, inr, List, [], ◌∷◌, ◌++◌, Option,
  none, some, Bool, true, false, arith, ◌==◌, contains, contains-append, get_elem?, set, Bool-cases,
  length-append,
}
use mathlib.Core.Option.{some-injective, none-ne-some}
use hvs_disk.Base.HashMap.{HashMap}
use hvs_disk.Locks.{RwLock, trywrlock, or_new, store}
use hvs_disk.Locks.Held.{IsIncreasing, IsIncreasing-IsDistinct, held, trywrlock-free, unlock-held}
use hvs_disk.Locks.Threads.{Worker, locking, unlocking, got, gave, step_worker}
use hvs_disk.Locks.Threads.Holders.{
  taken_by, keys_of, work_of, work, one_if, holders, holders-set, work-set, All-set, All-get,
  entry_for, AreApart,
}

pub holders-least :
    (k : ℕ) (ws : List Worker) (i : ℕ) (w : Worker)
    → get_elem? ws i ≡ some w
    → one_if (contains (taken_by w) k) ≤ holders k ws
holders-least k [] i w e = absurd (ground (arith, e))
holders-least k (v ∷ ws) zero w e =
    omega (arith, ap (λ (x : Worker). one_if (contains (taken_by x) k)) (some-injective v w e))
holders-least k (v ∷ ws) (suc i) w e = omega (arith, holders-least k ws i w e)

IsIncreasing-prefix :
    (from : ℕ) (xs ys : List ℕ) → IsIncreasing from (xs ++ ys) → IsIncreasing from xs
IsIncreasing-prefix from [] ys s = tt
IsIncreasing-prefix from (x ∷ xs) ys s = (s.0, IsIncreasing-prefix (suc x) xs ys s.1)

IsIncreasing-shift :
    (from k : ℕ) (xs ys : List ℕ)
    → IsIncreasing from (xs ++ k ∷ ys)
    → IsIncreasing from ((xs ++ k ∷ []) ++ ys)
IsIncreasing-shift from k [] ys s = s
IsIncreasing-shift from k (x ∷ xs) ys s = (s.0, IsIncreasing-shift (suc x) k xs ys s.1)

IsIncreasing-tail : (k : ℕ) (ks : List ℕ) → IsIncreasing 0 (k ∷ ks) → IsIncreasing 0 ks
IsIncreasing-tail k [] s = tt
IsIncreasing-tail k (x ∷ xs) s = (omega arith, s.1.1)

module _ (r : RwLock) (h : HashMap (r.Lock × ℕ)) where
  pub trywrlock-taken :
      (k : ℕ) (t : h.Table) → h.find k t ≡ some (held r h) → (trywrlock r h k t).0 ≡ false
  unfolding trywrlock
  trywrlock-taken k t e =
      ap
        (λ (o : Option (r.Lock × ℕ)).
          (store r h k (or_new r h o) (r.trywrlock (or_new r h o).0) t).0)
        e
      ∙ ap (λ (l : Option r.Lock). (store r h k (held r h) l t).0) r.trywrlock-write_locked

  -- The step of one thread keeps the locks apart and does one unit of its work.
  pub record IsStep (ws : List Worker) (i : ℕ) (w w' : Worker) (u : h.Table) : Type 0 where
    pub apart : AreApart r h (set ws i w') u
    pub less : work ws ≡ suc (work (set ws i w'))

  changed :
      (ws : List Worker) (i : ℕ) (w w' : Worker) (t u : h.Table)
      → AreApart r h ws t
      → get_elem? ws i ≡ some w
      → ((k : ℕ) → h.find k u ≡ entry_for r h (holders k (set ws i w')))
      → ((k : ℕ) → holders k (set ws i w') ≤ 1)
      → IsIncreasing 0 (keys_of w')
      → work_of w ≡ suc (work_of w')
      → IsStep ws i w w' u
  changed ws i w w' t u a e entries single inc one = record {
    apart = record {
      entries = entries;
      single = single;
      ordered = All-set (λ x. IsIncreasing 0 (keys_of x)) ws i w' a.ordered inc;
    };
    less = omega (arith, work-set ws i w w' e, one);
  }

  as_made :
      (ws : List Worker) (i : ℕ) (w x w' : Worker) (t u : h.Table)
      → ◌≡◌ {A = Option (Worker × h.Table)} (some (x, t)) (some (w', u))
      → IsStep ws i w x t
      → IsStep ws i w w' u
  as_made ws i w x w' t u e st =
      subst (λ (p : Worker × h.Table). IsStep ws i w p.0 p.1) (some-injective (x, t) (w', u) e) st

  locked :
      (ws : List Worker) (i k : ℕ) (taken ks : List ℕ) (t : h.Table)
      → AreApart r h ws t
      → get_elem? ws i ≡ some (locking taken (k ∷ ks))
      → holders k ws ≡ 0
      → IsStep ws i
          (locking taken (k ∷ ks))
          (locking (taken ++ k ∷ []) ks)
          (h.insert_or_assign k (held r h) t)
  locked ws i k taken ks t a e free =
      changed ws i w w' t (h.insert_or_assign k (held r h) t) a e
        (λ j. elim (Bool-cases (k == j)) [
          | inl here ↦
              ground (arith, h.find-insert_or_assign k j (held r h) t, here)
              ∙ sym (ap (entry_for r h) (mine j here))
          | inr other ↦
              ground (arith, h.find-insert_or_assign k j (held r h) t, other)
              ∙ (a.entries j ∙ sym (ap (entry_for r h) (theirs j other)))
        ])
        (λ j. elim (Bool-cases (k == j)) [
          | inl here ↦ omega (arith, mine j here)
          | inr other ↦ omega (arith, theirs j other, a.single j)
        ])
        (IsIncreasing-shift 0 k taken ks
          (All-get (λ x. IsIncreasing 0 (keys_of x)) ws i w a.ordered e))
        (omega (arith, length-append taken (k ∷ [])))
    where
      w : Worker
      w = locking taken (k ∷ ks)

      w' : Worker
      w' = locking (taken ++ k ∷ []) ks

      mine : (j : ℕ) → (k == j) ≡ true → holders j (set ws i w') ≡ 1
      mine j here =
          let q : k ≡ j = ground (arith, here) in
          let none_yet = subst (λ (x : ℕ). holders x ws ≡ 0) q free in
          ground (
            arith,
            holders-set j ws i w w' e,
            holders-least j ws i w e,
            contains-append taken (k ∷ []) j,
            none_yet,
            here,
          )

      theirs : (j : ℕ) → (k == j) ≡ false → holders j (set ws i w') ≡ holders j ws
      theirs j other =
          ground (arith, holders-set j ws i w w' e, contains-append taken (k ∷ []) j, other)

  unlocked :
      (ws : List Worker) (i k : ℕ) (ks : List ℕ) (t : h.Table)
      → AreApart r h ws t
      → get_elem? ws i ≡ some (unlocking (k ∷ ks))
      → IsStep ws i (unlocking (k ∷ ks)) (unlocking ks) (h.erase k t)
  unlocked ws i k ks t a e =
      changed ws i w w' t (h.erase k t) a e
        (λ j. elim (Bool-cases (k == j)) [
          | inl here ↦
              ground (arith, h.find-erase k j t, here) ∙ sym (ap (entry_for r h) (mine j here))
          | inr other ↦
              ground (arith, h.find-erase k j t, other)
              ∙ (a.entries j ∙ sym (ap (entry_for r h) (theirs j other)))
        ])
        (λ j. elim (Bool-cases (k == j)) [
          | inl here ↦ omega (arith, mine j here)
          | inr other ↦ omega (arith, theirs j other, a.single j)
        ])
        (IsIncreasing-tail k ks inc) (omega arith)
    where
      w : Worker
      w = unlocking (k ∷ ks)

      w' : Worker
      w' = unlocking ks

      inc : IsIncreasing 0 (k ∷ ks)
      inc = All-get (λ x. IsIncreasing 0 (keys_of x)) ws i w a.ordered e

      mine : (j : ℕ) → (k == j) ≡ true → holders j (set ws i w') ≡ 0
      mine j here =
          let q : k ≡ j = ground (arith, here) in
          let out =
            subst (λ (x : ℕ). contains ks x ≡ false) q (IsIncreasing-IsDistinct 0 (k ∷ ks) inc).0 in
          ground (arith, holders-set j ws i w w' e, a.single j, out, here)

      theirs : (j : ℕ) → (k == j) ≡ false → holders j (set ws i w') ≡ holders j ws
      theirs j other = ground (arith, holders-set j ws i w w' e, other)

  ended :
      (ws : List Worker) (i : ℕ) (taken : List ℕ) (t : h.Table)
      → AreApart r h ws t
      → get_elem? ws i ≡ some (locking taken [])
      → IsStep ws i (locking taken []) (unlocking taken) t
  ended ws i taken t a e =
      changed ws i w w' t t a e (λ j. a.entries j ∙ sym (ap (entry_for r h) (same j)))
        (λ j. omega (arith, same j, a.single j))
        (IsIncreasing-prefix 0 taken []
          (All-get (λ x. IsIncreasing 0 (keys_of x)) ws i w a.ordered e))
        (omega arith)
    where
      w : Worker
      w = locking taken []

      w' : Worker
      w' = unlocking taken

      same : (j : ℕ) → holders j (set ws i w') ≡ holders j ws
      same j = omega (arith, holders-set j ws i w w' e)

  pub entry-free :
      (k : ℕ) (ws : List Worker) (t : h.Table)
      → AreApart r h ws t
      → (holders k ws ≡ 0) ⊎ (h.find k t ≡ some (held r h))
  entry-free k ws t a = elim (Bool-cases (holders k ws == 0)) [
    | inl free ↦ inl (ground (arith, free))
    | inr busy ↦
        let one : holders k ws ≡ 1 = ground (arith, busy, a.single k) in
        inr (a.entries k ∙ ap (entry_for r h) one)
  ]

  pub taken-entry :
      (ws : List Worker) (i k : ℕ) (ks : List ℕ) (t : h.Table)
      → AreApart r h ws t
      → get_elem? ws i ≡ some (unlocking (k ∷ ks))
      → h.find k t ≡ some (held r h)
  taken-entry ws i k ks t a e = elim (entry-free k ws t a) [
    | inl free ↦ absurd (ground (arith, free, holders-least k ws i (unlocking (k ∷ ks)) e))
    | inr busy ↦ busy
  ]

  got-waits :
      (taken : List ℕ) (k : ℕ) (ks : List ℕ) (p : Bool × h.Table)
      → p.0 ≡ false
      → got r h taken k ks p ≡ none
  got-waits taken k ks (true, t) e = absurd (ground (arith, e))
  got-waits taken k ks (false, t) e = refl

  -- Whatever a step of a thread is.
  pub step_worker-IsStep :
      (ws : List Worker) (i : ℕ) (w w' : Worker) (t u : h.Table)
      → AreApart r h ws t
      → get_elem? ws i ≡ some w
      → step_worker r h w t ≡ some (w', u)
      → IsStep ws i w w' u
  unfolding step_worker
  step_worker-IsStep ws i (locking taken []) w' t u a e run =
      as_made ws i (locking taken []) (unlocking taken) w' t u run (ended ws i taken t a e)
  step_worker-IsStep ws i (locking taken (k ∷ ks)) w' t u a e run = elim (entry-free k ws t a) [
    | inl free ↦
        let new = trywrlock-free r h k t (a.entries k ∙ ap (entry_for r h) free) in
        as_made ws i (locking taken (k ∷ ks)) (locking (taken ++ k ∷ []) ks) w'
          (h.insert_or_assign k (held r h) t) u (ap (got r h taken k ks) (sym new) ∙ run)
          (locked ws i k taken ks t a e free)
    | inr busy ↦
        let waits = got-waits taken k ks (trywrlock r h k t) (trywrlock-taken k t busy) in
        absurd (none-ne-some (w', u) (sym waits ∙ run))
  ]
  step_worker-IsStep ws i (unlocking []) w' t u a e run = absurd (none-ne-some (w', u) run)
  step_worker-IsStep ws i (unlocking (k ∷ ks)) w' t u a e run =
      as_made ws i (unlocking (k ∷ ks)) (unlocking ks) w' (h.erase k t) u
        (ap (gave r h ks) (sym (unlock-held r h k t (taken-entry ws i k ks t a e))) ∙ run)
        (unlocked ws i k ks t a e)
