-- ===== src/Locks/Tests.antt =====
-- Runs of the lock table on a lock that is free or taken.
use hvs_disk.Base.{
  arith, ◌↔◌, List, ℕ, ◌≡◌, refl, [], ◌∷◌, none, some, Bool, true, false, ◌==◌, ◌||◌, if◌then◌else◌,
  contains, map, ◌+◌, ◌≤◌, ◌<◌,
}
use hvs_disk.Base.HashMap.{HashMap, assoc_map}
use hvs_disk.Layout.Slots.{invalid_id}
use hvs_disk.Layout.Sector.{Geometry}
use hvs_disk.Locks.Many.{lock_vec-unlock_vec}
use hvs_disk.Locks.{
  trywrlock, sort_ids, unique, insert_id, lock_vec, unlock_vec, RwLock, get_to_lock_idx, unlock_all,
  lock_idx,
}
use hvs_disk.Update.Writes.{IoRequest}
use hvs_disk.Locks.Requests.{lock_reqs, unlock_reqs, AnyTouches, lock_reqs-unlock_reqs}
use hvs_disk.Locks.Threads.{Worker, locking, caller, Steps, step, halt, step_worker, advance}
use hvs_disk.Locks.Threads.Holders.{work, holders}
use hvs_disk.Locks.Threads.Progress.{CanMove}
use hvs_disk.Locks.Threads.Runs.{lock_idx-no_deadlock}
use hvs_disk.Locks.Held.{IsIncreasing, held, get_to_lock_idx-IsIncreasing, lock_idx-unlock_all}

abbrev flag : RwLock
flag = record {
  Lock = Bool;
  init = false;
  write_locked = true;
  tryrdlock = λ b. none;
  trywrlock = λ b. if b then none else some true;
  unlock = λ b. false;
  trywrlock-init = refl;
  trywrlock-write_locked = refl;
}

abbrev table : HashMap (Bool × ℕ)
table = assoc_map (Bool × ℕ)

get_to_lock_idx-IsIncreasing_example :
    IsIncreasing 0 (get_to_lock_idx 5 (7 ∷ 5 ∷ 2 ∷ []))
    × ((i : ℕ)
        → contains (get_to_lock_idx 5 (7 ∷ 5 ∷ 2 ∷ [])) i ≡ (
            if 5 == invalid_id
            then contains (7 ∷ 5 ∷ 2 ∷ []) i
            else contains (7 ∷ 5 ∷ 2 ∷ []) i || (5 == i)))
get_to_lock_idx-IsIncreasing_example = get_to_lock_idx-IsIncreasing 5 (7 ∷ 5 ∷ 2 ∷ [])

lock_idx-unlock_all_example :
    (t' : table.Table) × (t'' : table.Table) × (lock_idx flag table 5 (7 ∷ 5 ∷ []) []
      ≡ (get_to_lock_idx 5 (7 ∷ 5 ∷ []), some t'))
    × ((j : ℕ)
        → table.find j t'
          ≡ (if contains (get_to_lock_idx 5 (7 ∷ 5 ∷ [])) j then some (held flag table) else none))
    × (unlock_all flag table (get_to_lock_idx 5 (7 ∷ 5 ∷ [])) t' ≡ some t'')
    × ((j : ℕ) → table.find j t'' ≡ none)
lock_idx-unlock_all_example = lock_idx-unlock_all flag table 5 (7 ∷ 5 ∷ []) [] (λ j c. refl)

lock_vec-unlock_vec_example :
    (t' : table.Table) × (t'' : table.Table) × (lock_vec flag table 5 (7 ∷ 2 ∷ []) [] ≡ some t')
    × (unlock_vec flag table 5 (7 ∷ 2 ∷ []) t' ≡ some t'')
    × ((j : ℕ) → table.find j t'' ≡ none)
lock_vec-unlock_vec_example =
    lock_vec-unlock_vec flag table 5 (7 ∷ 2 ∷ []) [] refl (refl, (refl, (refl, tt))) (λ j c. refl)

abbrev locations : HashMap ℕ
locations = assoc_map ℕ

abbrev three : Geometry
three = record {
  nnodes_per_sector = 3;
  max_node_len = 2000;
  ntopo_per_sector = 4;
  topo_len = 1000;
  ncoord_per_sector = 5;
  coord_len = 512;
}

abbrev placed : locations.Table
placed = (5, 9) ∷ (7, 0) ∷ []

abbrev two_reqs : List IoRequest
two_reqs =
    record { offset = 8192; len = 8192; buf = 0 }
    ∷ record { offset = 4096; len = 4096; buf = 8192 }
    ∷ []

lock_reqs-unlock_reqs_example :
    (ks : List ℕ) × (t' : table.Table) × (t'' : table.Table) × (lock_reqs 4096 flag table two_reqs
        []
      ≡ some (ks, some t'))
    × IsIncreasing 0 ks
    × ((p : ℕ) → (contains ks p ≡ true) ↔ AnyTouches 4096 (omega arith) two_reqs p)
    × ((p : ℕ) → table.find p t' ≡ (if contains ks p then some (held flag table) else none))
    × (unlock_reqs 4096 flag table ks t' ≡ some t'')
    × ((p : ℕ) → table.find p t'' ≡ none)
lock_reqs-unlock_reqs_example =
    lock_reqs-unlock_reqs 4096 (omega arith) flag table two_reqs []
      ((refl, omega arith), ((refl, omega arith), tt)) (λ p c. refl)

-- Two threads want the locks 5 and 7; the second one takes 5 first, and the first one waits.
abbrev two_reqs_idx : List (ℕ × List ℕ)
two_reqs_idx = (5, 7 ∷ []) ∷ (7, 5 ∷ []) ∷ []

abbrev second_first : List Worker
second_first = locking [] (5 ∷ 7 ∷ []) ∷ locking (5 ∷ []) (7 ∷ []) ∷ []

abbrev five_locked : table.Table
five_locked = (5, (true, 1)) ∷ []

one_step : Steps flag table 1 (map caller two_reqs_idx) [] second_first five_locked
unfolding advance step_worker trywrlock get_to_lock_idx sort_ids unique insert_id
one_step = step 1 refl halt

waits : advance flag table 0 second_first five_locked ≡ none
unfolding advance step_worker trywrlock
waits = refl

lock_idx-no_deadlock_example :
    (work (map caller two_reqs_idx) ≡ 1 + work second_first)
    × ((k : ℕ) → holders k second_first ≤ 1)
    × (0 < work second_first → CanMove flag table second_first five_locked)
    × (work second_first ≡ 0 → (k : ℕ) → table.find k five_locked ≡ none)
lock_idx-no_deadlock_example =
    lock_idx-no_deadlock flag table two_reqs_idx [] 1 second_first five_locked (λ k. refl) one_step
