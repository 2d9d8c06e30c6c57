-- ===== src/Memory/Reserve.antt =====
-- reserve_location and the growth of a full index.
use hvs_disk.Base.{ℕ, ◌+◌, ◌<◌, ◌≡◌, refl, ap, ◌∙◌, true, false, arith, leb, Bool-cases, inl, inr}
use hvs_disk.Base.HashMap.{HashMap}
use hvs_disk.Base.HashSet.{HashSet}
use hvs_disk.Memory.{Memory, full, reserved, resize, reserve_location, reserve_or_grow, enlarge}
use hvs_disk.Memory.Valid.{IsValid, resize-IsValid}

module _ (s : HashSet) (m : HashMap ℕ) where
  abbrev pub popped : Memory s m → Memory s m
  popped d = record d { empty_slots = s.erase d.nd d.empty_slots; nd = d.nd + 1 }

  reserve_location-free :
      (d : Memory s m)
      → d.data_compacted ≡ true
      → d.nd < d.max_points
      → reserve_location s m d ≡ reserved d.nd (popped d)
  unfolding reserve_location
  reserve_location-free d on lt =
      let some_left : leb d.max_points d.nd ≡ false = ground (arith, lt) in rw (some_left, on) refl

  reserve_location-full :
      (d : Memory s m) → leb d.max_points d.nd ≡ true → reserve_location s m d ≡ full
  unfolding reserve_location
  reserve_location-full d e = rw (e) refl

  reserve_or_grow-free :
      (grow : ℕ → ℕ) (d : Memory s m) (location : ℕ) (d' : Memory s m)
      → reserve_location s m d ≡ reserved location d'
      → reserve_or_grow s m grow d ≡ reserved location d'
  unfolding reserve_or_grow
  reserve_or_grow-free grow d location d' e = rw (reserve_or_grow, e) refl

  enlarge-full :
      (grow : ℕ → ℕ) (d : Memory s m)
      → leb d.max_points d.nd ≡ true
      → enlarge s m grow d ≡ resize s m (grow d.max_points) d
  unfolding enlarge
  enlarge-full grow d none_left = rw (none_left) refl

  reserve_or_grow-full :
      (grow : ℕ → ℕ) (d : Memory s m)
      → reserve_location s m d ≡ full
      → reserve_or_grow s m grow d ≡ reserve_location s m (enlarge s m grow d)
  unfolding reserve_or_grow
  reserve_or_grow-full grow d e = rw (reserve_or_grow, e) refl

  -- Where the location comes from: the state before or after growth.
  pub record IsRoom (d g : Memory s m) : Type 0 where
    pub valid : IsValid s m g
    pub free : g.nd < g.max_points
    pub nd : g.nd ≡ d.nd
    pub tags : g.tag_to_location ≡ d.tag_to_location

  pub reserve_or_grow-IsRoom :
      (grow : ℕ → ℕ) (d : Memory s m)
      → IsValid s m d
      → (d.nd ≡ d.max_points → d.max_points < grow d.max_points)
      → (g : Memory s m) × (reserve_or_grow s m grow d ≡ reserved g.nd (popped g)) × IsRoom d g
  unfolding resize
  reserve_or_grow-IsRoom grow d v more = elim (Bool-cases (leb d.max_points d.nd)) [
    | inr left ↦
        let lt : d.nd < d.max_points = ground (arith, left) in
        (
          d,
          reserve_or_grow-free grow d d.nd (popped d) (reserve_location-free d v.compacted lt),
          record { valid = v; free = lt; nd = refl; tags = refl },
        )
    | inl none_left ↦ after-growth none_left
  ]
    where
      after-growth :
          leb d.max_points d.nd ≡ true
          → (g : Memory s m) × (reserve_or_grow s m grow d ≡ reserved g.nd (popped g)) × IsRoom d g
      after-growth none_left =
          let more_points = more (ground (arith, none_left, v.room)) in
          let g = resize s m (grow d.max_points) d in
          let valid = resize-IsValid s m d (grow d.max_points) v (omega (arith, more_points)) in
          let lt : d.nd < grow d.max_points = omega (arith, more_points, v.room) in
          (
            g,
            reserve_or_grow-full grow d (reserve_location-full d none_left)
                ∙ ap (reserve_location s m) (enlarge-full grow d none_left)
                ∙ reserve_location-free g valid.compacted lt,
            record { valid = valid; free = lt; nd = refl; tags = refl },
          )
