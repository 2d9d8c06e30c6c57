-- ===== src/Memory/Renamed.antt =====
-- The new locations of compact_data: points move down in their order, and so do their lists.
use hvs_disk.Base.{
  ℕ, zero, suc, ◌+◌, ◌≤◌, ◌<◌, ◌≡◌, refl, List, Option, none, some, Bool, true, false, ◌||◌, arith,
  ltb, ◌==◌, map, All, All-weaken, Bool-cases, inl, inr, subst,
}
use hvs_disk.Base.HashMap.{HashMap}
use hvs_disk.Base.HashSet.{HashSet}
use hvs_disk.Memory.{Memory, is_some}
use hvs_disk.Memory.Moving.{move_points}
use hvs_disk.Memory.Slots.{count}
use hvs_disk.Memory.Renumber.{has_tag, count-below, get_or-no_location}
use hvs_disk.Memory.Moves.{move_points-AreMoved}
use hvs_disk.Memory.Compact.{moved, moved-count}
use hvs_disk.Memory.Valid.{IsValid}

count-le : (p : ℕ → Bool) (n : ℕ) → count p n ≤ n
count-le p zero = omega arith
count-le p (suc n) = ground (arith, count-le p n)

module _ (s : HashSet) (m : HashMap ℕ) where
  -- The points that stay: those with a tag, and the frozen one.
  abbrev pub stays : Memory s m → ℕ → Bool
  stays d l = (l == d.max_points) || has_tag m d.location_to_tag l

  -- The lists of the points that stay lead only to such points.
  abbrev pub IsSettled : Memory s m → (ℕ → List ℕ) → Type 0
  IsSettled d g = (l : ℕ) → stays d l ≡ true → All (λ (n : ℕ). stays d n ≡ true) (g l)

  module _ (d : Memory s m) (v : IsValid s m d) where
    value :
        (l : ℕ)
        → has_tag m d.location_to_tag l ≡ true
        → (tag : ℕ) × (m.find l d.location_to_tag ≡ some tag)
    value l on = pick (m.find l d.location_to_tag) on
      where
        pick : (o : Option ℕ) → is_some o ≡ true → (tag : ℕ) × (o ≡ some tag)
        pick none e = absurd (ground (arith, e))
        pick (some tag) e = (tag, refl)

    -- A point with a tag stands below nd, and gets its number.
    pub tagged :
        (l : ℕ)
        → has_tag m d.location_to_tag l ≡ true
        → (l < d.nd) × (moved s m d l ≡ count (has_tag m d.location_to_tag) l)
    tagged l on = let (tag, e) = value l on in (v.live l tag e, moved-count s m d l tag v e)

    untagged :
        (l : ℕ)
        → l ≤ d.max_points
        → has_tag m d.location_to_tag l ≡ false
        → moved s m d l ≡ d.max_points
    untagged l le off =
        get_or-no_location m d.location_to_tag d.max_points (d.max_points + 1) 0 0 l l 0
          (omega arith) (omega (arith, le)) off

    pub moved-frozen : moved s m d d.max_points ≡ d.max_points
    moved-frozen = elim (Bool-cases (has_tag m d.location_to_tag d.max_points)) [
      | inl on ↦ absurd (omega (arith, (tagged d.max_points on).0, v.room))
      | inr off ↦ untagged d.max_points (omega arith) off
    ]

    pub stays-le : (l : ℕ) → stays d l ≡ true → l ≤ d.max_points
    stays-le l on = elim (Bool-cases (has_tag m d.location_to_tag l)) [
      | inl tag ↦ omega (arith, (tagged l tag).0, v.room)
      | inr off ↦ ground (arith, on, off)
    ]

    kept :
        (l : ℕ)
        → l ≤ d.max_points
        → (ltb (moved s m d l) d.max_points || (l == d.max_points)) ≡ stays d l
    kept l le = elim (Bool-cases (has_tag m d.location_to_tag l)) [
      | inl on ↦
          let (lt, is) = tagged l on in
          ground (arith, on, lt, is, v.room, count-le (has_tag m d.location_to_tag) l)
      | inr off ↦ ground (arith, off, untagged l le off)
    ]

    pub down : (l : ℕ) → stays d l ≡ true → moved s m d l ≤ l
    down l on = elim (Bool-cases (has_tag m d.location_to_tag l)) [
      | inl tag ↦ omega (arith, (tagged l tag).1, count-le (has_tag m d.location_to_tag) l)
      | inr off ↦
          let q : d.max_points ≡ l = ground (arith, on, off) in
          subst (λ (x : ℕ). moved s m d x ≤ x) q (omega (arith, moved-frozen))
    ]

    ordered :
        (k l : ℕ)
        → k < l
        → l ≤ d.max_points
        → stays d k ≡ true
        → stays d l ≡ true
        → moved s m d k < moved s m d l
    ordered k l lt le on_k on_l =
        let tag_k : has_tag m d.location_to_tag k ≡ true = ground (arith, on_k, lt, le) in
        let is_k = (tagged k tag_k).1 in
        elim (Bool-cases (has_tag m d.location_to_tag l)) [
          | inl tag_l ↦ omega (
            arith,
            is_k,
            (tagged l tag_l).1,
            count-below (has_tag m d.location_to_tag) k l tag_k lt,
          )
          | inr off ↦
              omega
                (arith, is_k, untagged l le off, count-le (has_tag m d.location_to_tag) k, lt, le)
        ]

    -- The loop over the points does not crash, and moves the lists.
    pub move_points-moved :
        (g : ℕ → List ℕ)
        → IsSettled d g
        → (g' : ℕ → List ℕ) × (move_points (moved s m d) d.max_points (d.max_points + 1) 0 g
            ≡ some g')
          × ((l : ℕ)
              → l ≤ d.max_points
              → stays d l ≡ true
              → g' (moved s m d l) ≡ map (moved s m d) (g l))
    move_points-moved g settled =
        let (g', run, r) =
          move_points-AreMoved (moved s m d) d.max_points (stays d) kept (λ l le. down l) ordered g
            (λ l le on. All-weaken _ _ (g l) down (settled l on)) (d.max_points + 1) 0 g
            (omega arith)
            (record { done = λ l lt. absurd (omega (arith, lt)); ahead = λ l le. refl }) in
        (g', run, λ l le on. r.done l (omega (arith, le)) on)
