-- ===== src/Memory/Renumber.antt =====
-- The parts of compact_data: the new locations, and the maps that are filled again.
use hvs_disk.Base.{
  ℕ, zero, suc, ◌+◌, ◌≤◌, ◌<◌, ◌≡◌, refl, ap, subst, List, [], ◌∷◌, Option, none, some, Bool, true,
  false, ◌||◌, ◌&&◌, arith, ◌==◌, if◌then◌else◌, get_or, Bool-cases, inl, inr, All, All-weaken,
}
use hvs_disk.Base.HashMap.{HashMap, Iterates, has_pair}
use hvs_disk.Memory.{is_some}
use hvs_disk.Memory.Compaction.{new_locations, refill}
use hvs_disk.Memory.Slots.{count}

count-step : (p : ℕ → Bool) (n : ℕ) → count p n ≤ count p (suc n)
count-step p n = ground arith

pub count_mono : (p : ℕ → Bool) (a b : ℕ) → a ≤ b → count p a ≤ count p b
count_mono p a zero le =
    let q : zero ≡ a = omega (arith, le) in subst (λ (x : ℕ). count p x ≤ 0) q (omega arith)
count_mono p a (suc b) le = elim (Bool-cases (a == suc b)) [
  | inl same ↦
      let q : suc b ≡ a = ground (arith, same) in
      subst (λ (x : ℕ). count p x ≤ count p (suc b)) q (omega arith)
  | inr other ↦ omega (arith, count_mono p a b (ground (arith, le, other)), count-step p b)
]

-- Numbers that pass are numbered in their order, without gaps.
pub count-below : (p : ℕ → Bool) (a b : ℕ) → p a ≡ true → a < b → count p a < count p b
count-below p a b on lt =
    let next : count p (suc a) ≡ suc (count p a) = ground (arith, on) in
    omega (arith, next, count_mono p (suc a) b lt)

pub count-hits :
    (p : ℕ → Bool) (n i : ℕ) → i < count p n → (l : ℕ) × (l < n) × (p l ≡ true) × (count p l ≡ i)
count-hits p zero i lt = absurd (omega (arith, lt))
count-hits p (suc n) i lt = elim (Bool-cases (i == count p n && p n)) [
  | inl last ↦ (n, omega arith, ground (arith, last), ground (arith, last))
  | inr early ↦
      let (l, less, on, e) = count-hits p n i (ground (arith, lt, early)) in
      (l, omega (arith, less), on, e)
]

pub count-injective :
    (p : ℕ → Bool) (a b : ℕ) → p a ≡ true → p b ≡ true → count p a ≡ count p b → a ≡ b
count-injective p a b on on' e = elim (Bool-cases (a == b)) [
  | inl same ↦ ground (arith, same)
  | inr other ↦ absurd (ground (arith, other, e, count-below p a b on, count-below p b a on'))
]

module _ (m : HashMap ℕ) where
  abbrev pub has_tag : m.Table → ℕ → Bool
  has_tag t l = is_some (m.find l t)

  pub get_or-new_locations :
      (t : m.Table) (max left old counter i l x : ℕ)
      → l ≡ old + i
      → i < left
      → has_tag t l ≡ true
      → get_or (new_locations m t max left old counter) i x + count (has_tag t) old
        ≡ counter + count (has_tag t) l
  unfolding new_locations
  get_or-new_locations t max zero old counter i l x e lt on = absurd (omega (arith, lt))
  get_or-new_locations t max (suc left) old counter zero l x e lt on =
      let q : l ≡ old = omega (arith, e) in
      let on' = subst (λ (y : ℕ). has_tag t y ≡ true) q on in
      ground (arith, on', ap (count (has_tag t)) q)
  get_or-new_locations t max (suc left) old counter (suc i) l x e lt on = ground (
    arith,
    get_or-new_locations t max left (suc old) (if has_tag t old then counter + 1 else counter) i l x
        (omega (arith, e)) (omega (arith, lt)) on,
  )

  pub get_or-no_location :
      (t : m.Table) (max left old counter i l x : ℕ)
      → l ≡ old + i
      → i < left
      → has_tag t l ≡ false
      → get_or (new_locations m t max left old counter) i x ≡ max
  unfolding new_locations
  get_or-no_location t max zero old counter i l x e lt off = absurd (omega (arith, lt))
  get_or-no_location t max (suc left) old counter zero l x e lt off =
      let q : l ≡ old = omega (arith, e) in
      let off' = subst (λ (y : ℕ). has_tag t y ≡ false) q off in rw off' refl
  get_or-no_location t max (suc left) old counter (suc i) l x e lt off =
      get_or-no_location t max left (suc old) (if has_tag t old then counter + 1 else counter) i l x
        (omega (arith, e)) (omega (arith, lt)) off

  module _ (f : ℕ → ℕ) where
    refill-from :
        (P : ℕ → ℕ → Type 0) (es : List (ℕ × ℕ)) (t : m.Table)
        → All (λ (e : ℕ × ℕ). P e.1 (f e.0)) es
        → ((j v : ℕ) → m.find j t ≡ some v → P j v)
        → (j v : ℕ) → m.find j (refill m f es t) ≡ some v
        → P j v
    unfolding refill
    refill-from P [] t a before = before
    refill-from P ((k, b) ∷ es) t a before =
        refill-from P es (m.insert_or_assign b (f k) t) a.1 (λ j v h. elim (Bool-cases (b == j)) [
          | inl same ↦
              let q : b ≡ j = ground (arith, same) in
              let w : f k ≡ v = ground (arith, m.find-insert_or_assign b j (f k) t, h, same) in
              subst (λ (x : ℕ). P x v) q (subst (P b) w a.0)
          | inr other ↦ before j v (ground (arith, m.find-insert_or_assign b j (f k) t, h, other))
        ])

    refill-holds :
        (es : List (ℕ × ℕ)) (t : m.Table) (a j : ℕ)
        → (has_pair es a j || is_some (m.find j t)) ≡ true
        → is_some (m.find j (refill m f es t)) ≡ true
    unfolding refill
    refill-holds [] t a j h = ground (arith, h)
    refill-holds ((k, b) ∷ es) t a j h =
        refill-holds es (m.insert_or_assign b (f k) t) a j
          (ground (arith, h, m.find-insert_or_assign b j (f k) t))

    is_some-value : (o : Option ℕ) → is_some o ≡ true → (v : ℕ) × (o ≡ some v)
    is_some-value none e = absurd (ground (arith, e))
    is_some-value (some v) e = (v, refl)

    module _ (it : Iterates m) (t : m.Table) where
      pub refill_sound :
          (j v : ℕ)
          → m.find j (refill m f (it.entries t) m.empty) ≡ some v
          → (a : ℕ) × (m.find a t ≡ some j) × (v ≡ f a)
      refill_sound =
          refill-from (λ j v. (a : ℕ) × (m.find a t ≡ some j) × (v ≡ f a)) (it.entries t) m.empty
            (All-weaken _ _ (it.entries t) (λ e h. (e.0, h, refl)) (it.find-entries t))
            (λ j v h. absurd (ground (arith, m.find-empty j, h)))

      pub refill_complete :
          (a j : ℕ)
          → m.find a t ≡ some j
          → (v : ℕ) × (m.find j (refill m f (it.entries t) m.empty) ≡ some v)
      refill_complete a j h =
          is_some-value _
            (refill-holds (it.entries t) m.empty a j (ground (arith, it.entries-find t a j h)))
