-- ===== src/Search/Narrow.antt =====
-- The binary search and the check for an equal id in InsertIntoPool.
use native.Mathlib.Nat.{div-add-mod', mod-lt}
use hvs_disk.Base.{
  ℕ, zero, suc, ◌+◌, ◌-◌, ◌/◌, ◌≤◌, ◌<◌, ◌≡◌, ◌⊎◌, refl, subst, inl, inr, List, none, some, arith,
  ltb, ◌==◌, ◌&&◌, length, Bool-cases,
}
use hvs_disk.Search.{Neighbor, entry, narrow, scan_equal}

-- The middle of a gap of two or more lies inside it.
mid-inside : (l r : ℕ) → l + 1 < r → (l < (l + r) / 2) × ((l + r) / 2 < r)
mid-inside l r lt =
    let split = div-add-mod' (l + r) 2 in
    let part = mod-lt (l + r) {m = 2} (omega arith) in
    (omega (arith, split, part, lt), omega (arith, split, part, lt))

module _ (addr : List Neighbor) (nn : Neighbor) where
  -- The entries are in order of distance.
  abbrev pub IsAscending : Type 0
  IsAscending =
      (i j : ℕ) → i ≤ j → j < length addr → (entry addr nn i).distance ≤ (entry addr nn j).distance

  -- What holds of the bounds of the search: below them are entries no farther than the new one, from
  -- the right bound on entries no closer, and farther ones if the bound has moved.
  pub record Bounds (left right : ℕ) : Type 0 where
    pub left_near : (entry addr nn left).distance ≤ nn.distance
    pub right_far : nn.distance ≤ (entry addr nn right).distance
    pub right_end : (right + 1 ≡ length addr) ⊎ (nn.distance < (entry addr nn right).distance)
    pub order : (left < right) ⊎ ((left ≡ 0) × (right ≡ 0))
    pub inside : right < length addr

  pub narrow-Bounds :
      (fuel left right : ℕ)
      → right < left + fuel
      → Bounds left right
      → (l : ℕ) × (r : ℕ) × (narrow addr nn fuel left right ≡ some (l, r))
        × Bounds l r
        × ((l + 1 ≡ r) ⊎ ((l ≡ 0) × (r ≡ 0)))
  unfolding narrow
  narrow-Bounds zero left right enough b = absurd (ground (arith, b.order, enough))
  narrow-Bounds (suc fuel) left right enough b =
      elim (Bool-cases (ltb 1 right && ltb left (right - 1))) [
        | inr stop ↦ (left, right, rw (narrow, stop) refl, b, ground (arith, stop, b.order))
        | inl more ↦
            let mid = (left + right) / 2 in
            let (lo, hi) = mid-inside left right (ground (arith, more)) in
            elim (Bool-cases (ltb nn.distance (entry addr nn mid).distance)) [
              | inl far ↦
                  let far' : nn.distance < (entry addr nn mid).distance = ground (arith, far) in
                  let (l, r, run, b', end) =
                    narrow-Bounds fuel left mid (omega (arith, hi, enough)) (record {
                      left_near = b.left_near;
                      right_far = omega (arith, far');
                      right_end = inr far';
                      order = inl lo;
                      inside = omega (arith, hi, b.inside);
                    }) in
                  (l, r, rw (narrow, more, far) run, b', end)
              | inr near ↦
                  let (l, r, run, b', end) =
                    narrow-Bounds fuel mid right (omega (arith, lo, enough)) (record {
                      left_near = ground (arith, near);
                      right_far = b.right_far;
                      right_end = b.right_end;
                      order = inl hi;
                      inside = b.inside;
                    }) in
                  (l, r, rw (narrow, more, near) run, b', end)
            ]
      ]

  -- What the check says of the entries up to `left`: an equal id, or the entry where it has stopped,
  -- with no equal id after it and none at the same distance before it.
  pub scan_equal-cases :
      (left : ℕ)
      → IsAscending
      → left < length addr
      → ((scan_equal addr nn left ≡ none)
          × (i : ℕ) × (i < length addr)
          × ((entry addr nn i).id ≡ nn.id))
        ⊎ ((l : ℕ) × (scan_equal addr nn left ≡ some l)
            × (l ≤ left)
            × ((i : ℕ)
                → i ≤ left
                → (entry addr nn i).distance ≡ nn.distance
                → (entry addr nn i).id ≡ nn.id
                → (i ≡ l)))
  unfolding scan_equal
  scan_equal-cases zero asc lt = inr (zero, refl, omega arith, λ i le d e. omega (arith, le))
  scan_equal-cases (suc left) asc lt =
      elim (Bool-cases (ltb (entry addr nn (suc left)).distance nn.distance)) [
        | inl near ↦
            let near' : (entry addr nn (suc left)).distance < nn.distance = ground (arith, near) in
            inr (
              suc left,
              rw (scan_equal, near) refl,
              omega arith,
              λ i le d e. absurd (omega (arith, asc i (suc left) le lt, d, near')),
            )
        | inr far ↦ elim (Bool-cases ((entry addr nn (suc left)).id == nn.id)) [
          | inl same ↦ inl (rw (scan_equal, far, same) refl, suc left, lt, ground (arith, same))
          | inr other ↦ elim (scan_equal-cases left asc (omega (arith, lt))) [
            | inl (run, i, li, e) ↦ inl (rw (scan_equal, far, other) run, i, li, e)
            | inr (l, run, le, unique) ↦ inr (
              l,
              rw (scan_equal, far, other) run,
              omega (arith, le),
              λ i li d e. elim (Bool-cases (i == suc left)) [
                | inl last ↦
                    let q : i ≡ suc left = ground (arith, last) in
                    let e' = subst (λ (x : ℕ). (entry addr nn x).id ≡ nn.id) q e in
                    absurd (ground (arith, other, e'))
                | inr before ↦ unique i (ground (arith, li, before)) d e
              ],
            )
          ]
        ]
      ]
