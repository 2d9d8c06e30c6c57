-- ===== src/Locks/Threads/Runs.antt =====
-- Any order of the steps of several threads.
use hvs_disk.Base.{
  ℕ, zero, suc, ◌+◌, ◌≤◌, ◌<◌, ◌≡◌, refl, sym, ap, ◌∙◌, subst, List, [], ◌∷◌, Option, none, some,
  arith, get_elem?, set, All, map,
}
use mathlib.Core.Option.{some-injective, none-ne-some}
use hvs_disk.Base.HashMap.{HashMap}
use hvs_disk.Locks.{RwLock}
use hvs_disk.Locks.Held.{IsIncreasing, get_to_lock_idx-IsIncreasing}
use hvs_disk.Locks.Threads.{
  Worker, locking, unlocking, caller, step_worker, first_worker, later_worker, advance, Steps, halt,
  step,
}
use hvs_disk.Locks.Threads.Holders.{keys_of, work_of, work, holders, entry_for, AreApart}
use hvs_disk.Locks.Threads.Kept.{step_worker-IsStep}
use hvs_disk.Locks.Threads.Progress.{CanMove, work-moves}

caller-work : (target : ℕ) (neighbors : List ℕ) → 0 < work_of (caller (target, neighbors))
caller-work target neighbors = omega arith

idle-holders : (k : ℕ) (ws : List Worker) → work ws ≡ 0 → holders k ws ≡ 0
idle-holders k [] e = refl
idle-holders k (locking taken wanted ∷ ws) e = absurd (omega (arith, e))
idle-holders k (unlocking [] ∷ ws) e =
    let rest = idle-holders k ws (omega (arith, e)) in omega (arith, rest)
idle-holders k (unlocking (x ∷ xs) ∷ ws) e = absurd (omega (arith, e))

caller-holders : (k : ℕ) (reqs : List (ℕ × List ℕ)) → holders k (map caller reqs) ≡ 0
caller-holders k [] = refl
caller-holders k (req ∷ reqs) = omega (arith, caller-holders k reqs)

caller-ordered :
    (reqs : List (ℕ × List ℕ)) → All (λ w. IsIncreasing 0 (keys_of w)) (map caller reqs)
caller-ordered [] = tt
caller-ordered ((target, neighbors) ∷ reqs) =
    ((get_to_lock_idx-IsIncreasing target neighbors).0, caller-ordered reqs)

module _ (r : RwLock) (h : HashMap (r.Lock × ℕ)) where
  -- The thread whose step it was.
  record IsMove (i : ℕ) (ws : List Worker) (t : h.Table) (ws' : List Worker) (t' : h.Table)
      : Type 0 where
    before : Worker
    after : Worker
    at : get_elem? ws i ≡ some before
    made : step_worker r h before t ≡ some (after, t')
    rest : ws' ≡ set ws i after

  first-IsMove :
      (w : Worker) (ws : List Worker) (t : h.Table) (o : Option (Worker × h.Table))
      (ws' : List Worker) (t' : h.Table)
      → step_worker r h w t ≡ o
      → first_worker r h ws o ≡ some (ws', t')
      → IsMove zero (w ∷ ws) t ws' t'
  first-IsMove w ws t none ws' t' e run = absurd (none-ne-some (ws', t') run)
  first-IsMove w ws t (some (v, u)) ws' t' e run =
      let q = some-injective (v ∷ ws, u) (ws', t') run in
      record {
        before = w;
        after = v;
        at = refl;
        made = e ∙ ap (λ (p : List Worker × h.Table). some (v, p.1)) q;
        rest = sym (ap (λ (p : List Worker × h.Table). p.0) q);
      }

  later-IsMove :
      (i : ℕ) (w : Worker) (ws : List Worker) (t : h.Table) (o : Option (List Worker × h.Table))
      (ws' : List Worker) (t' : h.Table)
      → ((vs : List Worker) (u : h.Table) → o ≡ some (vs, u) → IsMove i ws t vs u)
      → later_worker r h w o ≡ some (ws', t')
      → IsMove (suc i) (w ∷ ws) t ws' t'
  later-IsMove i w ws t none ws' t' found run = absurd (none-ne-some (ws', t') run)
  later-IsMove i w ws t (some (vs, u)) ws' t' found run =
      let q = some-injective (w ∷ vs, u) (ws', t') run in
      let f = found vs u refl in
      record {
        before = f.before;
        after = f.after;
        at = f.at;
        made = f.made ∙ ap (λ (p : List Worker × h.Table). some (f.after, p.1)) q;
        rest =
            sym (ap (λ (p : List Worker × h.Table). p.0) q)
            ∙ ap (λ (xs : List Worker). w ∷ xs) f.rest;
      }

  advance-IsMove :
      (i : ℕ) (ws : List Worker) (t : h.Table) (ws' : List Worker) (t' : h.Table)
      → advance r h i ws t ≡ some (ws', t')
      → IsMove i ws t ws' t'
  unfolding advance
  advance-IsMove i [] t ws' t' run = absurd (none-ne-some (ws', t') run)
  advance-IsMove zero (w ∷ ws) t ws' t' run =
      first-IsMove w ws t (step_worker r h w t) ws' t' refl run
  advance-IsMove (suc i) (w ∷ ws) t ws' t' run =
      later-IsMove i w ws t (advance r h i ws t) ws' t' (advance-IsMove i ws t) run

  advance-kept :
      (i : ℕ) (ws : List Worker) (t : h.Table) (ws' : List Worker) (t' : h.Table)
      → AreApart r h ws t
      → advance r h i ws t ≡ some (ws', t')
      → AreApart r h ws' t' × (work ws ≡ suc (work ws'))
  advance-kept i ws t ws' t' a run =
      let mv = advance-IsMove i ws t ws' t' run in
      let st = step_worker-IsStep r h ws i mv.before mv.after t t' a mv.at mv.made in
      subst (λ (xs : List Worker). AreApart r h xs t' × (work ws ≡ suc (work xs))) (sym mv.rest)
        (st.apart, st.less)

  Steps-kept :
      (n : ℕ) (ws : List Worker) (t : h.Table) (ws' : List Worker) (t' : h.Table)
      → AreApart r h ws t
      → Steps r h n ws t ws' t'
      → AreApart r h ws' t' × (work ws ≡ n + work ws')
  Steps-kept n ws t ws' t' a halt = (a, omega arith)
  Steps-kept n ws t ws' t' a (step {n = k} {ws' = vs} {t' = u} i run more) =
      let (b, less) = advance-kept i ws t vs u a run in
      let (c, left) = Steps-kept k vs u ws' t' b more in (c, omega (arith, less, left))

  -- Several threads each call lock_idx on a table without locks, and later unlock_idx on the result.
  -- After any number of their steps, in any order: as many steps are left as the work that was not
  -- done, so no order of steps is endless; no lock has two threads; while a thread is not done, some
  -- thread can make a step, so there is no deadlock and no trap; and when all are done, the table has
  -- no locks again.
  pub lock_idx-no_deadlock :
      (reqs : List (ℕ × List ℕ)) (t : h.Table) (n : ℕ) (ws : List Worker) (u : h.Table)
      → ((k : ℕ) → h.find k t ≡ none)
      → Steps r h n (map caller reqs) t ws u
      → (work (map caller reqs) ≡ n + work ws)
        × ((k : ℕ) → holders k ws ≤ 1)
        × (0 < work ws → CanMove r h ws u)
        × (work ws ≡ 0 → (k : ℕ) → h.find k u ≡ none)
  lock_idx-no_deadlock reqs t n ws u empty steps =
      let begun : AreApart r h (map caller reqs) t = record {
        entries = λ k. empty k ∙ sym (ap (entry_for r h) (caller-holders k reqs));
        single = λ k. omega (arith, caller-holders k reqs);
        ordered = caller-ordered reqs;
      } in
      let (a, left) = Steps-kept n (map caller reqs) t ws u begun steps in
      (
        left,
        a.single,
        work-moves r h ws u a,
        λ idle k. a.entries k ∙ ap (entry_for r h) (idle-holders k ws idle),
      )
