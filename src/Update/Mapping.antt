-- ===== src/Update/Mapping.antt =====
-- What the loop over the neighbours in insert_in_place returns.
use hvs_disk.Base.{
  ℕ, ◌≤◌, ◌<◌, ◌≡◌, refl, sym, ap, subst, ◌∙◌, inl, inr, List, [], ◌∷◌, some, true, false, arith,
  ◌==◌, length, u32, map, Bool-cases, All, All-weaken, contains, IsDistinct,
}
use mathlib.Core.Option.{some-injective}
use hvs_disk.Base.HashMap.{HashMap}
use hvs_disk.Layout.Sector.{Geometry}
use hvs_disk.Layout.Slots.View.{max_loc}
use hvs_disk.Locks.{id2loc}
use hvs_disk.Update.{move_ids}
use hvs_disk.Update.Lookup.{located}

pub map-u32 : (ls : List ℕ) → All (λ (l : ℕ). l < max_loc) ls → map u32 ls ≡ ls
map-u32 [] a = refl
map-u32 (l ∷ ls) a = let e : u32 l ≡ l = omega (arith, a.0) in rw (e, map-u32 ls a.1) refl

module _ (m : HashMap ℕ) (g : Geometry) where
  -- What the collecting loop returns for distinct known ids.
  pub record Moved (ids ls : List ℕ) (t : m.Table) (r : m.Table × List ℕ) : Type 0 where
    pub after : (i : ℕ) → m.find i r.0 ≡ located ids (map u32 ls) i (m.find i t)
    pub olds : All (λ (o : ℕ). (i : ℕ) × (contains ids i ≡ true) × (m.find i t ≡ some o)) r.1
    pub every : (i o : ℕ) → contains ids i ≡ true → m.find i t ≡ some o → contains r.1 o ≡ true

  pub move_ids-Moved :
      (ids ls : List ℕ) (t : m.Table)
      → IsDistinct ids
      → length ids ≤ length ls
      → ((i : ℕ) → contains ids i ≡ true → (o : ℕ) × (m.find i t ≡ some o))
      → (r : m.Table × List ℕ) × (move_ids m g ids ls t ≡ some r) × Moved ids ls t r
  unfolding move_ids id2loc
  move_ids-Moved [] ls t d le f = (
    (t, []),
    refl,
    record { after = λ i. refl; olds = tt; every = λ i o c. absurd (ground (arith, c)) },
  )
  move_ids-Moved (id ∷ ids) [] t d le f = absurd (omega (arith, le))
  move_ids-Moved (id ∷ ids) (l ∷ ls) t d le f =
      let t1 = m.insert_or_assign id (u32 l) t in
      let (old, e) = f id (ground arith) in
      let look = λ (i : ℕ). m.find-insert_or_assign id i (u32 l) t in
      let kept : (i : ℕ) → contains ids i ≡ true → m.find i t1 ≡ m.find i t =
        λ i c. let ne : (id == i) ≡ false = apart id i ids d.0 c in look i ∙ rw ne refl in
      let (r, run, mv) =
        move_ids-Moved ids ls t1 d.1 (omega (arith, le))
          (λ i c. let (o, q) = f i (ground (arith, c)) in (o, kept i c ∙ q)) in
      (
        (r.0, old ∷ r.1),
        rw (move_ids, e, run) refl,
        record {
          after = λ i. mv.after i ∙ ap (located ids (map u32 ls) i) (look i);
          olds = (
            (id, ground arith, e),
            All-weaken _ _ r.1 (λ o (i, c, q). (i, ground (arith, c), sym (kept i c) ∙ q)) mv.olds,
          );
          every = λ i o c q. elim (Bool-cases (contains ids i)) [
            | inl later ↦ ground (arith, mv.every i o later (kept i later ∙ q))
            | inr last ↦
                let same : id ≡ i = ground (arith, c, last) in
                let q' : some old ≡ some o = sym e ∙ (ap (λ (x : ℕ). m.find x t) same ∙ q) in
                ground (arith, some-injective _ _ q')
          ];
        },
      )
    where
      apart :
          (x i : ℕ) (xs : List ℕ) → contains xs x ≡ false → contains xs i ≡ true → (x == i) ≡ false
      apart x i xs a c = elim (Bool-cases (x == i)) [
        | inr ne ↦ ne
        | inl same ↦
            let q : x ≡ i = ground (arith, same) in
            absurd (ground (arith, a, subst (λ (y : ℕ). contains xs y ≡ true) (sym q) c))
      ]
