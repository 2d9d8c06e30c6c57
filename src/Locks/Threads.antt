-- ===== src/Locks/Threads.antt =====
-- Several threads that call lock_idx and unlock_idx of include/ssd_index.h on one SparseLockTable. A
-- step of a thread is one call of trywrlock that succeeds, the end of its work, or one unlock.
pub mod Holders
pub mod Kept
pub mod Progress
pub mod Runs
use hvs_disk.Base.{
  ℕ, zero, suc, ◌+◌, ◌*◌, ◌≡◌, List, [], ◌∷◌, ◌++◌, Option, none, some, Bool, true, false,
  if◌then◌else◌, length, map,
}
use hvs_disk.Base.HashMap.{HashMap}
use hvs_disk.Locks.{RwLock, get_to_lock_idx, trywrlock, unlock}

-- The locks that a thread has, in the order of to_lock, and while it still locks, those that follow.
pub data Worker : Type 0 where
  locking : List ℕ → List ℕ → Worker
  unlocking : List ℕ → Worker

-- A call of lock_idx begins.
abbrev pub caller : ℕ × List ℕ → Worker
caller (target, neighbors) = locking [] (get_to_lock_idx target neighbors)

module _ (r : RwLock) (h : HashMap (r.Lock × ℕ)) where
  -- `none`: the thread waits in wrlock, traps in unlock, or is done. A trywrlock that fails leaves
  -- the table as it was.
  abbrev pub got : List ℕ → ℕ → List ℕ → Bool × h.Table → Option (Worker × h.Table)
  got taken k ks (true, t) = some (locking (taken ++ k ∷ []) ks, t)
  got taken k ks (false, t) = none

  abbrev pub gave : List ℕ → Option h.Table → Option (Worker × h.Table)
  gave ks none = none
  gave ks (some t) = some (unlocking ks, t)

  unfoldable pub step_worker : Worker → h.Table → Option (Worker × h.Table)
  step_worker (locking taken []) t = some (unlocking taken, t)
  step_worker (locking taken (k ∷ ks)) t = got taken k ks (trywrlock r h k t)
  step_worker (unlocking []) t = none
  step_worker (unlocking (k ∷ ks)) t = gave ks (unlock r h k t)

  abbrev pub first_worker : List Worker → Option (Worker × h.Table) → Option (List Worker × h.Table)
  first_worker ws none = none
  first_worker ws (some (w, t)) = some (w ∷ ws, t)

  abbrev pub later_worker : Worker → Option (List Worker × h.Table) → Option (List Worker × h.Table)
  later_worker w none = none
  later_worker w (some (ws, t)) = some (w ∷ ws, t)

  -- A step of the thread with an index.
  unfoldable pub advance : ℕ → List Worker → h.Table → Option (List Worker × h.Table)
  unfolding step_worker
  advance i [] t = none
  advance zero (w ∷ ws) t = first_worker ws (step_worker w t)
  advance (suc i) (w ∷ ws) t = later_worker w (advance i ws t)

  -- Any order of steps.
  pub data Steps : ℕ → List Worker → h.Table → List Worker → h.Table → Type 0 where
    halt : {ws : List Worker} {t : h.Table} → Steps zero ws t ws t
    step :
        {n : ℕ} {ws ws' ws'' : List Worker} {t t' t'' : h.Table} (i : ℕ)
        → advance i ws t ≡ some (ws', t')
        → Steps n ws' t' ws'' t''
        → Steps (suc n) ws t ws'' t''
