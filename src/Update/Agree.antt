-- ===== src/Update/Agree.antt =====
-- Two maps, from ids to locations and back, agree; a move keeps it so.
use hvs_disk.Base.{
  ℕ, ◌≤◌, ◌<◌, ◌≡◌, refl, sym, ap, subst, ◌∙◌, inl, inr, List, [], ◌∷◌, Option, some, Bool, true,
  false, arith, ◌==◌, if◌then◌else◌, length, Bool-cases, All, contains, IsDistinct,
}
use mathlib.Core.Option.{some-injective}
use hvs_disk.Layout.Slots.{invalid_id, allocated_id}
use hvs_disk.Layout.Slots.View.{max_loc}
use hvs_disk.Layout.Slots.Move.{assigned}
use hvs_disk.Update.Lookup.{located, assigned-absent, located-assigned, assigned-back}

-- An id with a location stands there, and a location with an id is the location of that id.
pub record Agree (f : ℕ → Option ℕ) (k : ℕ → ℕ) : Type 0 where
  pub placed : (i l : ℕ) → f i ≡ some l → (l < max_loc) × (i < allocated_id) × (k l ≡ i)
  pub found : (l : ℕ) → l < max_loc → k l < allocated_id → f (k l) ≡ some l

pub All-contains {κ} :
    (P : ℕ → Type κ) (xs : List ℕ) (x : ℕ) → All P xs → contains xs x ≡ true → P x
All-contains P [] x a c = absurd (ground (arith, c))
All-contains P (y ∷ ys) x a c = elim (Bool-cases (y == x)) [
  | inl here ↦ subst P (ground (arith, here)) a.0
  | inr later ↦ All-contains P ys x a.1 (ground (arith, c, later))
]

by_contradiction : (b : Bool) → (b ≡ true → true ≡ false) → b ≡ false
by_contradiction b h = elim (Bool-cases b) [ inr e ↦ e | inl e ↦ absurd (ground (arith, h e)) ]

module _ (f f' : ℕ → Option ℕ) (k k' : ℕ → ℕ) (ids locs olds : List ℕ)
    (len : length ids ≡ length locs) (distinct_ids : IsDistinct ids)
    (distinct_locs : IsDistinct locs) (ids_small : All (λ (i : ℕ). i < allocated_id) ids)
    (locs_free : All (λ (l : ℕ). (l < max_loc) × (k l ≡ allocated_id)) locs)
    (olds_known : All (λ (o : ℕ). (i : ℕ) × (contains ids i ≡ true) × (f i ≡ some o)) olds)
    (olds_every : (i o : ℕ) → contains ids i ≡ true → f i ≡ some o → contains olds o ≡ true)
    (new_f : (i : ℕ) → f' i ≡ located ids locs i (f i))
    (new_k : (b : ℕ)
      → b < max_loc
      → k' b ≡ (if contains olds b then invalid_id else assigned locs ids b (k b)))
    (agree : Agree f k) where
  le : length ids ≤ length locs
  le = omega (arith, len)

  moved-placed :
      (i l : ℕ)
      → contains ids i ≡ true
      → f' i ≡ some l
      → (l < max_loc) × (i < allocated_id) × (k' l ≡ i)
  moved-placed i l c e =
      let q : some (assigned ids locs i 0) ≡ some l =
        sym (new_f i ∙ located-assigned ids locs i 0 (f i) le ∙ rw c refl) ∙ e in
      let at : assigned ids locs i 0 ≡ l = some-injective _ _ q in
      let (c0, b0) = assigned-back ids locs i 0 (k l) len distinct_locs c in
      let (c1, b1) =
        subst (λ (x : ℕ). (contains locs x ≡ true) × (assigned locs ids x (k l) ≡ i)) at (c0, b0) in
      let (lt, free) = All-contains _ locs l locs_free c1 in
      let kept : contains olds l ≡ false = by_contradiction (contains olds l) (λ o.
        let (j, cj, fj) = All-contains _ olds l olds_known o in
        let (_, sj, kj) = agree.placed j l fj in absurd (omega (arith, sj, kj, free))) in
      (lt, All-contains _ ids i ids_small c, new_k l lt ∙ rw kept b1)

  stayed-placed :
      (i l : ℕ)
      → contains ids i ≡ false
      → f' i ≡ some l
      → (l < max_loc) × (i < allocated_id) × (k' l ≡ i)
  stayed-placed i l c e =
      let e' : f i ≡ some l =
        sym (new_f i ∙ located-assigned ids locs i 0 (f i) le ∙ rw c refl) ∙ e in
      let (lt, small, stands) = agree.placed i l e' in
      let apart : contains locs l ≡ false = by_contradiction (contains locs l) (λ n.
        let (_, free) = All-contains _ locs l locs_free n in
        absurd (omega (arith, free, stands, small))) in
      let kept : contains olds l ≡ false = by_contradiction (contains olds l) (λ o.
        let (j, cj, fj) = All-contains _ olds l olds_known o in
        let (_, _, kj) = agree.placed j l fj in
        sym (subst (λ (x : ℕ). contains ids x ≡ true) (sym kj ∙ stands) cj) ∙ c) in
      (lt, small, new_k l lt ∙ rw kept (assigned-absent locs ids l (k l) apart ∙ stands))

  moved-found : (b : ℕ) → b < max_loc → k' b < allocated_id → f' (k' b) ≡ some b
  moved-found b lt small = elim (Bool-cases (contains olds b)) [
    | inl old ↦
        let gone : k' b ≡ invalid_id = new_k b lt ∙ rw old refl in
        absurd (omega (arith, gone, small))
    | inr kept ↦
        let now : k' b ≡ assigned locs ids b (k b) = new_k b lt ∙ rw kept refl in
        elim (Bool-cases (contains locs b)) [
          | inl new ↦
              let (c, back) = assigned-back locs ids b (k b) 0 (sym len) distinct_ids new in
              rw now (
                new_f (assigned locs ids b (k b))
                ∙ located-assigned ids locs (assigned locs ids b (k b)) 0 _ le
                ∙ rw c (ap some back))
          | inr other ↦
              let same : k' b ≡ k b = now ∙ assigned-absent locs ids b (k b) other in
              let here = agree.found b lt (omega (arith, same, small)) in
              let stays : contains ids (k b) ≡ false =
                by_contradiction (contains ids (k b))
                  (λ c. sym (olds_every (k b) b c here) ∙ kept) in
              rw same (new_f (k b) ∙ located-assigned ids locs (k b) 0 (f (k b)) le ∙ rw stays here)
        ]
  ]

  pub Agree-move : Agree f' k'
  Agree-move = record {
    placed = λ i l e. elim (Bool-cases (contains ids i)) [
      | inl c ↦ moved-placed i l c e
      | inr c ↦ stayed-placed i l c e
    ];
    found = moved-found;
  }
