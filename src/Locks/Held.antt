-- ===== src/Locks/Held.antt =====
-- What lock_idx and unlock_idx do to the table of locks.
use hvs_disk.Base.{
  ℕ, suc, ◌≤◌, ◌<◌, ◌≡◌, refl, ap, ◌∙◌, List, [], ◌∷◌, Option, none, some, true, false, arith, ◌==◌,
  ◌||◌, if◌then◌else◌, contains, contains-append, IsDistinct,
}
use hvs_disk.Base.HashMap.{HashMap}
use hvs_disk.Layout.Slots.{invalid_id}
use hvs_disk.Locks.{
  RwLock, insert_id, sort_ids, unique, with_target, get_to_lock_idx, or_new, store, trywrlock,
  unlock, drop_one, wrlock_all, and_then, unlock_all, lock_idx,
}

pub contains-insert_id :
    (a : ℕ) (xs : List ℕ) (i : ℕ) → contains (insert_id a xs) i ≡ contains (a ∷ xs) i
unfolding insert_id
contains-insert_id a [] i = refl
contains-insert_id a (b ∷ bs) i = ground (arith, contains-insert_id a bs i)

pub contains-sort_ids : (xs : List ℕ) (i : ℕ) → contains (sort_ids xs) i ≡ contains xs i
unfolding sort_ids
contains-sort_ids [] i = refl
contains-sort_ids (a ∷ xs) i =
    ground (arith, contains-insert_id a (sort_ids xs) i, contains-sort_ids xs i)

pub contains-unique : (xs : List ℕ) (i : ℕ) → contains (unique xs) i ≡ contains xs i
unfolding unique
contains-unique [] i = refl
contains-unique (a ∷ []) i = refl
contains-unique (a ∷ b ∷ rest) i = ground (arith, contains-unique (b ∷ rest) i)

-- Each number is at least the one before.
abbrev pub IsRising : ℕ → List ℕ → Type 0
IsRising from [] = Unit
IsRising from (x ∷ xs) = (from ≤ x) × IsRising x xs

insert_id-IsRising :
    (from a : ℕ) (xs : List ℕ) → from ≤ a → IsRising from xs → IsRising from (insert_id a xs)
unfolding insert_id
insert_id-IsRising from a [] h s = (h, tt)
insert_id-IsRising from a (b ∷ bs) h s = ground (arith, insert_id-IsRising b a bs)

pub sort_ids-IsRising : (xs : List ℕ) → IsRising 0 (sort_ids xs)
unfolding sort_ids
sort_ids-IsRising [] = tt
sort_ids-IsRising (a ∷ xs) =
    insert_id-IsRising 0 a (sort_ids xs) (omega arith) (sort_ids-IsRising xs)

-- Each number is more than the one before.
abbrev pub IsIncreasing : ℕ → List ℕ → Type 0
IsIncreasing from [] = Unit
IsIncreasing from (x ∷ xs) = (from ≤ x) × IsIncreasing (suc x) xs

pub unique-IsIncreasing :
    (from : ℕ) (xs : List ℕ) → IsRising from xs → IsIncreasing from (unique xs)
unfolding unique
unique-IsIncreasing from [] s = tt
unique-IsIncreasing from (a ∷ []) s = (s.0, tt)
unique-IsIncreasing from (a ∷ b ∷ rest) s =
    ground (arith, s, unique-IsIncreasing from (b ∷ rest), unique-IsIncreasing (suc a) (b ∷ rest))

absent-below :
    (from : ℕ) (xs : List ℕ) (i : ℕ) → IsIncreasing from xs → i < from → contains xs i ≡ false
absent-below from [] i s h = refl
absent-below from (x ∷ xs) i s h = ground (arith, s, h, absent-below (suc x) xs i)

pub IsIncreasing-IsDistinct : (from : ℕ) (xs : List ℕ) → IsIncreasing from xs → IsDistinct xs
IsIncreasing-IsDistinct from [] s = tt
IsIncreasing-IsDistinct from (x ∷ xs) s =
    (absent-below (suc x) xs x s.1 (omega arith), IsIncreasing-IsDistinct (suc x) xs s.1)

-- The ids to lock are strictly increasing, which is the order in which every thread takes them, and
-- they are exactly the neighbours and, where it is valid, the target.
pub get_to_lock_idx-IsIncreasing :
    (target : ℕ) (neighbors : List ℕ)
    → IsIncreasing 0 (get_to_lock_idx target neighbors)
      × ((i : ℕ)
          → contains (get_to_lock_idx target neighbors) i ≡ (
              if target == invalid_id
              then contains neighbors i
              else contains neighbors i || (target == i)))
unfolding get_to_lock_idx
get_to_lock_idx-IsIncreasing target neighbors =
    let xs = with_target target neighbors in
    (
      unique-IsIncreasing 0 (sort_ids xs) (sort_ids-IsRising xs),
      λ i.
          contains-unique (sort_ids xs) i
          ∙ contains-sort_ids xs i
          ∙ ground (arith, contains-append neighbors (target ∷ []) i),
    )

module _ (r : RwLock) (h : HashMap (r.Lock × ℕ)) where
  abbrev pub held : r.Lock × ℕ
  held = (r.write_locked, 1)

  -- A lock that no entry holds is taken, and one that is held by one writer is given back.
  pub trywrlock-free :
      (k : ℕ) (t : h.Table)
      → h.find k t ≡ none
      → trywrlock r h k t ≡ (true, h.insert_or_assign k held t)
  unfolding trywrlock
  trywrlock-free k t new =
      ap (λ (o : Option (r.Lock × ℕ)). store r h k (or_new r h o) (r.trywrlock (or_new r h o).0) t)
        new
      ∙ ap (λ (l : Option r.Lock). store r h k (r.init, 0) l t) r.trywrlock-init

  pub unlock-held :
      (k : ℕ) (t : h.Table) → h.find k t ≡ some held → unlock r h k t ≡ some (h.erase k t)
  unfolding unlock
  unlock-held k t here = ap (λ (o : Option (r.Lock × ℕ)). drop_one r h k o t) here

  pub wrlock_all-finds :
      (ks : List ℕ) (t : h.Table)
      → IsDistinct ks
      → ((j : ℕ) → contains ks j ≡ true → h.find j t ≡ none)
      → (t' : h.Table) × (wrlock_all r h ks t ≡ some t')
        × ((j : ℕ) → h.find j t' ≡ (if contains ks j then some held else h.find j t))
  unfolding wrlock_all trywrlock
  wrlock_all-finds [] t d a = (t, refl, λ j. refl)
  wrlock_all-finds (k ∷ ks) t d a =
      let new : h.find k t ≡ none = a k (ground arith) in
      let t1 = h.insert_or_assign k held t in
      let e = trywrlock-free k t new in
      let (t', run, look) =
        wrlock_all-finds ks t1 d.1
          (λ j c. ground (arith, h.find-insert_or_assign k j held t, c, d.0, a j)) in
      (t', rw e run, λ j. ground (arith, look j, h.find-insert_or_assign k j held t, d.0))

  pub unlock_all-finds :
      (ks : List ℕ) (t : h.Table)
      → IsDistinct ks
      → ((j : ℕ) → contains ks j ≡ true → h.find j t ≡ some held)
      → (t' : h.Table) × (unlock_all r h ks t ≡ some t')
        × ((j : ℕ) → h.find j t' ≡ (if contains ks j then none else h.find j t))
  unfolding unlock_all unlock
  unlock_all-finds [] t d a = (t, refl, λ j. refl)
  unlock_all-finds (k ∷ ks) t d a =
      let here : h.find k t ≡ some held = a k (ground arith) in
      let t1 = h.erase k t in
      let gone = unlock-held k t here in
      let (t', run, look) =
        unlock_all-finds ks t1 d.1 (λ j c. ground (arith, h.find-erase k j t, c, d.0, a j)) in
      (
        t',
        ap (λ (u : Option h.Table). and_then r h u (λ (v : h.Table). unlock_all r h ks v)) gone
            ∙ run,
        λ j. ground (arith, look j, h.find-erase k j t),
      )

  -- Where none of the ids to lock is held: lock_idx takes all locks without waiting for itself, after
  -- it exactly those ids are held besides what was, and unlock_idx of its result does not trap and
  -- leaves every key of the table as it was before.
  pub lock_idx-unlock_all :
      (target : ℕ) (neighbors : List ℕ) (t : h.Table)
      → ((j : ℕ) → contains (get_to_lock_idx target neighbors) j ≡ true → h.find j t ≡ none)
      → (t' : h.Table) × (t'' : h.Table) × (lock_idx r h target neighbors t
          ≡ (get_to_lock_idx target neighbors, some t'))
        × ((j : ℕ)
            → h.find j t'
              ≡ (if contains (get_to_lock_idx target neighbors) j then some held else h.find j t))
        × (unlock_all r h (get_to_lock_idx target neighbors) t' ≡ some t'')
        × ((j : ℕ) → h.find j t'' ≡ h.find j t)
  unfolding lock_idx
  lock_idx-unlock_all target neighbors t a =
      let ks = get_to_lock_idx target neighbors in
      let d = IsIncreasing-IsDistinct 0 ks (get_to_lock_idx-IsIncreasing target neighbors).0 in
      let (t', run, look) = wrlock_all-finds ks t d a in
      let (t'', back, look') = unlock_all-finds ks t' d (λ j c. ground (arith, look j, c)) in
      (
        t',
        t'',
        ap (λ (u : Option h.Table). (ks, u)) run,
        look,
        back,
        λ j. ground (arith, look j, look' j, a j),
      )
