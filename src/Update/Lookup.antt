-- ===== src/Update/Lookup.antt =====
-- Lists of keys and of values read as a map, where the last value of a key counts.
use hvs_disk.Base.{
  ℕ, ◌≤◌, ◌≡◌, refl, ap, ◌∙◌, inl, inr, List, [], ◌∷◌, ◌++◌, Option, some, true, false, arith, ◌==◌,
  if◌then◌else◌, length, get_elem?, contains, IsDistinct, Bool-cases,
}
use hvs_disk.Layout.Slots.Move.{assigned}

abbrev pub located : List ℕ → List ℕ → ℕ → Option ℕ → Option ℕ
located [] vs k d = d
located (x ∷ ks) [] k d = d
located (x ∷ ks) (v ∷ vs) k d = located ks vs k (if x == k then some v else d)

pub assigned-absent : (ks vs : List ℕ) (k d : ℕ) → contains ks k ≡ false → assigned ks vs k d ≡ d
assigned-absent [] vs k d a = refl
assigned-absent (x ∷ ks) [] k d a = refl
assigned-absent (x ∷ ks) (v ∷ vs) k d a =
    ground (arith, a, assigned-absent ks vs k (if x == k then v else d))

pub located-assigned :
    (ks vs : List ℕ) (k e : ℕ) (d : Option ℕ)
    → length ks ≤ length vs
    → located ks vs k d ≡ (if contains ks k then some (assigned ks vs k e) else d)
located-assigned [] vs k e d le = refl
located-assigned (x ∷ ks) [] k e d le = absurd (omega (arith, le))
located-assigned (x ∷ ks) (v ∷ vs) k e d le =
    let e' = if x == k then v else e in
    let rest = located-assigned ks vs k e' (if x == k then some v else d) (omega (arith, le)) in
    elim (Bool-cases (contains ks k)) [
      | inl later ↦ ground (arith, rest, later)
      | inr last ↦ ground (arith, rest, last, assigned-absent ks vs k e' last)
    ]

-- A last key that is new may as well come first.
pub located-push :
    (ks vs : List ℕ) (k k' v : ℕ) (d : Option ℕ)
    → contains ks k ≡ false
    → get_elem? vs (length ks) ≡ some v
    → located (ks ++ k ∷ []) vs k' d ≡ located ks vs k' (if k == k' then some v else d)
located-push [] [] k k' v d a e = absurd (ground (arith, e))
located-push [] (w ∷ vs) k k' v d a e = ground (arith, e)
located-push (x ∷ ks) [] k k' v d a e = absurd (ground (arith, e))
located-push (x ∷ ks) (w ∷ vs) k k' v d a e =
    located-push ks vs k k' v (if x == k' then some w else d) (ground (arith, a)) e
    ∙ ap (located ks vs k') (ground (arith, a))

-- With distinct values the map goes back from a value to its key.
pub assigned-back :
    (ks vs : List ℕ) (k d e : ℕ)
    → length ks ≡ length vs
    → IsDistinct vs
    → contains ks k ≡ true
    → (contains vs (assigned ks vs k d) ≡ true) × (assigned vs ks (assigned ks vs k d) e ≡ k)
assigned-back [] vs k d e l dv c = absurd (ground (arith, c))
assigned-back (x ∷ ks) [] k d e l dv c = absurd (omega (arith, l))
assigned-back (x ∷ ks) (v ∷ vs) k d e l dv c =
    let d' = if x == k then v else d in
    elim (Bool-cases (contains ks k)) [
      | inl later ↦
          let w = assigned ks vs k d' in
          let (c', b) =
            assigned-back ks vs k d' (if v == w then x else e) (omega (arith, l)) dv.1 later in
          (ground (arith, c'), b)
      | inr last ↦
          let here : (x == k) ≡ true = ground (arith, c, last) in
          let q : assigned ks vs k d' ≡ v = assigned-absent ks vs k d' last ∙ rw here refl in
          rw q (ground arith, assigned-absent vs ks v _ dv.0 ∙ ground (arith, here))
    ]
