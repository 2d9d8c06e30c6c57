-- ===== src/Locks.antt =====
-- The locks of include/v2/lock_table.h (SparseLockTable) and the order in which SSDIndex of
-- include/ssd_index.h takes them. The lock of the operating system is an interface, and its laws are
-- those of pthread_rwlock_t for one thread that may hold a lock once.
pub mod Held
pub mod Many
pub mod Requests
pub mod Threads
mod Tests
use hvs_disk.Base.{
  ℕ, zero, suc, ◌+◌, ◌-◌, ◌≡◌, List, [], ◌∷◌, ◌++◌, Option, none, some, Bool, true, false, leb, ltb,
  ◌==◌, if◌then◌else◌,
}
use hvs_disk.Base.HashMap.{HashMap}
use hvs_disk.Layout.Sector.{Geometry, loc_sector_no}
use hvs_disk.Layout.Slots.{invalid_id}

-- pthread_rwlock_t: a new lock can be taken for writing, and then not again.
pub record RwLock : Type 1 where
  pub Lock : Type 0
  pub init : Lock
  pub write_locked : Lock
  pub tryrdlock : Lock → Option Lock
  pub trywrlock : Lock → Option Lock
  pub unlock : Lock → Lock
  pub trywrlock-init : trywrlock init ≡ some write_locked
  pub trywrlock-write_locked : trywrlock write_locked ≡ none

pub insert_id : ℕ → List ℕ → List ℕ
insert_id a [] = a ∷ []
insert_id a (b ∷ bs) = let rest = insert_id a bs in if ltb b a then b ∷ rest else a ∷ b ∷ bs

pub sort_ids : List ℕ → List ℕ
unfolding insert_id
sort_ids [] = []
sort_ids (a ∷ xs) = insert_id a (sort_ids xs)

-- std::unique
pub unique : List ℕ → List ℕ
unique [] = []
unique (a ∷ []) = a ∷ []
unique (a ∷ b ∷ rest) = let more = unique (b ∷ rest) in if a == b then more else a ∷ more

abbrev pub with_target : ℕ → List ℕ → List ℕ
with_target target neighbors = if target == invalid_id then neighbors else neighbors ++ target ∷ []

unfoldable pub get_to_lock_idx : ℕ → List ℕ → List ℕ
unfolding sort_ids unique
get_to_lock_idx target neighbors = unique (sort_ids (with_target target neighbors))

module _ (r : RwLock) (h : HashMap (r.Lock × ℕ)) where
  abbrev pub or_new : Option (r.Lock × ℕ) → r.Lock × ℕ
  or_new none = (r.init, 0)
  or_new (some e) = e

  abbrev pub store : ℕ → r.Lock × ℕ → Option r.Lock → h.Table → Bool × h.Table
  store key e none t = (false, h.insert_or_assign key e t)
  store key e (some l) t = (true, h.insert_or_assign key (l, e.1 + 1) t)

  -- Whether the lock was taken, and the table.
  pub tryrdlock : ℕ → h.Table → Bool × h.Table
  tryrdlock key t = let e = or_new (h.find key t) in store key e (r.tryrdlock e.0) t

  pub trywrlock : ℕ → h.Table → Bool × h.Table
  trywrlock key t = let e = or_new (h.find key t) in store key e (r.trywrlock e.0) t

  abbrev pub drop_one : ℕ → Option (r.Lock × ℕ) → h.Table → Option h.Table
  drop_one key none t = some t
  drop_one key (some (l, n)) t =
      if n == 0
      then none
      else if n == 1
      then some (h.erase key t)
      else some (h.insert_or_assign key (r.unlock l, n - 1) t)

  -- `none` is the trap on a key that is not locked.
  pub unlock : ℕ → h.Table → Option h.Table
  unlock key t = drop_one key (h.find key t) t

  -- The loop of lock_idx with wrlock; `none` waits for a lock that is held.
  pub wrlock_all : List ℕ → h.Table → Option h.Table
  unfolding trywrlock
  wrlock_all [] t = some t
  wrlock_all (k ∷ ks) t =
      let tried = trywrlock k t in
      let rest = wrlock_all ks tried.1 in if tried.0 then rest else none

  abbrev pub and_then : Option h.Table → (h.Table → Option h.Table) → Option h.Table
  and_then none f = none
  and_then (some t) f = f t

  -- unlock_idx
  pub unlock_all : List ℕ → h.Table → Option h.Table
  unfolding unlock
  unlock_all [] t = some t
  unlock_all (k ∷ ks) t = and_then (unlock k t) (λ (u : h.Table). unlock_all ks u)

  unfoldable pub lock_idx : ℕ → List ℕ → h.Table → List ℕ × Option h.Table
  unfolding wrlock_all
  lock_idx target neighbors t =
      let to_lock = get_to_lock_idx target neighbors in (to_lock, wrlock_all to_lock t)

  -- lock_vec does not remove duplicates.
  unfoldable pub lock_vec : ℕ → List ℕ → h.Table → Option h.Table
  unfolding wrlock_all sort_ids
  lock_vec target neighbors t = wrlock_all (sort_ids (with_target target neighbors)) t

  unfoldable pub unlock_vec : ℕ → List ℕ → h.Table → Option h.Table
  unfolding unlock_all unlock
  unlock_vec target neighbors t =
      if target == invalid_id
      then unlock_all neighbors t
      else and_then (unlock target t) (λ (u : h.Table). unlock_all neighbors u)

-- The page of an id; `none` is the crash on an id without a location.
module _ (m : HashMap ℕ) (g : Geometry) where
  abbrev pub page_at : ℕ → ℕ
  page_at loc = if loc == invalid_id then invalid_id else loc_sector_no g loc

  unfoldable pub id2loc : m.Table → ℕ → Option ℕ
  id2loc id2loc_ id = m.find id id2loc_

  unfoldable pub id2page : m.Table → ℕ → Option ℕ
  unfolding id2loc
  id2page id2loc_ id = elim (id2loc id2loc_ id) [ none ↦ none | some loc ↦ some (page_at loc) ]

  abbrev pub cons_some : Option ℕ → Option (List ℕ) → Option (List ℕ)
  cons_some none ps = none
  cons_some (some p) none = none
  cons_some (some p) (some ps) = some (p ∷ ps)

  pub id2pages : m.Table → List ℕ → Option (List ℕ)
  unfolding id2page
  id2pages id2loc_ [] = some []
  id2pages id2loc_ (id ∷ ids) = cons_some (id2page id2loc_ id) (id2pages id2loc_ ids)

  -- The pages to lock.
  abbrev pub sorted_once : Option (List ℕ) → Option (List ℕ)
  sorted_once none = none
  sorted_once (some ps) = some (unique (sort_ids ps))

  unfoldable pub lock_page_idx : Bool → m.Table → ℕ → List ℕ → Option (List ℕ)
  unfolding id2pages sort_ids unique
  lock_page_idx false id2loc_ target neighbors = some []
  lock_page_idx true id2loc_ target neighbors =
      sorted_once (id2pages id2loc_ (with_target target neighbors))
