-- ===== src/Memory/Moves.antt =====
-- The graph in compact_data: the lists move down with their points.
use hvs_disk.Base.{
  ℕ, zero, suc, ◌+◌, ◌≤◌, ◌<◌, ◌≡◌, refl, sym, ap, ◌∙◌, List, [], ◌∷◌, some, Bool, true, false,
  ◌||◌, arith, ltb, ◌==◌, if◌then◌else◌, map, All, Bool-cases, inl, inr, contains, subst,
}
use hvs_disk.Memory.Moving.{move_down, set_list, move_points, erase_first, is_empty}

pub set_list-here : (i : ℕ) (ns : List ℕ) (g : ℕ → List ℕ) → set_list i ns g i ≡ ns
set_list-here i ns g = let e : (i == i) ≡ true = ground arith in rw e refl

pub set_list-other :
    (i j : ℕ) (ns : List ℕ) (g : ℕ → List ℕ) → (i == j) ≡ false → set_list i ns g j ≡ g j
set_list-other i j ns g e = rw e refl

pub All-move_down :
    (new : ℕ → ℕ) (ns : List ℕ) → All (λ (n : ℕ). new n ≤ n) ns → move_down new ns ≡ true
All-move_down new [] a = refl
All-move_down new (n ∷ ns) a = ground (arith, a.0, All-move_down new ns a.1)

-- Another entry is left.
pub erase_first-left :
    (location a : ℕ) (ns : List ℕ)
    → contains ns a ≡ true
    → (a == location) ≡ false
    → is_empty (erase_first location ns) ≡ false
erase_first-left location a [] c ne = absurd (ground (arith, c))
erase_first-left location a (n ∷ ns) c ne = elim (Bool-cases (n == location)) [
  | inr other ↦ rw other refl
  | inl same ↦ rw same (left ns (ground (arith, c, same, ne)))
]
  where
    left : (ns : List ℕ) → contains ns a ≡ true → is_empty ns ≡ false
    left [] c = absurd (ground (arith, c))
    left (n ∷ ns) c = refl

-- The points that stay move down, in their order; the others have no new location.
module _ (new : ℕ → ℕ) (max_points : ℕ) (stays : ℕ → Bool)
    (kept : (l : ℕ) → l ≤ max_points → (ltb (new l) max_points || (l == max_points)) ≡ stays l)
    (down : (l : ℕ) → l ≤ max_points → stays l ≡ true → new l ≤ l)
    (ordered : (k l : ℕ) → k < l → l ≤ max_points → stays k ≡ true → stays l ≡ true → new k < new l)
    (g0 : ℕ → List ℕ)
    (safe : (l : ℕ) → l ≤ max_points → stays l ≡ true → All (λ (n : ℕ). new n ≤ n) (g0 l)) where
  -- The points below old have moved, the others not yet.
  pub record AreMoved (old : ℕ) (g : ℕ → List ℕ) : Type 0 where
    pub done : (l : ℕ) → l < old → stays l ≡ true → g (new l) ≡ map new (g0 l)
    pub ahead : (l : ℕ) → old ≤ l → g l ≡ g0 l

  moved-AreMoved :
      (old : ℕ) (g : ℕ → List ℕ)
      → old ≤ max_points
      → stays old ≡ true
      → AreMoved old g
      → AreMoved (suc old) (
          set_list
            (new old)
            (map new (g old))
            (if new old == old then g else set_list old (g (new old)) g))
  moved-AreMoved old g le on a =
      let low = down old le on in
      let emptied = if new old == old then g else set_list old (g (new old)) g in
      let elsewhere : (j : ℕ) → (old == j) ≡ false → emptied j ≡ g j = λ j ne.
        elim (Bool-cases (new old == old)) [ inl e ↦ rw e refl | inr e ↦ rw (e, ne) refl ] in
      record {
        done = λ l lt st. elim (Bool-cases (l == old)) [
          | inl same ↦
              let q : l ≡ old = ground (arith, same) in
              subst
                (λ (x : ℕ). set_list (new old) (map new (g old)) emptied (new x) ≡ map new (g0 x))
                (sym q)
                (set_list-here (new old) (map new (g old)) emptied
                  ∙ ap (map new) (a.ahead old (omega arith)))
          | inr other ↦
              let before : l < old = ground (arith, lt, other) in
              let less = ordered l old before le st on in
              let down_l = down l (omega (arith, before, le)) st in
              set_list-other (new old) (new l) (map new (g old)) emptied (ground (arith, less))
              ∙ elsewhere (new l) (ground (arith, down_l, before))
              ∙ a.done l before st
        ];
        ahead = λ l far.
            set_list-other (new old) l (map new (g old)) emptied (ground (arith, low, far))
            ∙ elsewhere l (ground (arith, far))
            ∙ a.ahead l (omega (arith, far));
      }

  gone-AreMoved :
      (old : ℕ) (g : ℕ → List ℕ)
      → old ≤ max_points
      → stays old ≡ false
      → AreMoved old g
      → AreMoved (suc old) (set_list old [] g)
  gone-AreMoved old g le off a = record {
    done = λ l lt st. elim (Bool-cases (l == old)) [
      | inl same ↦
          let q : l ≡ old = ground (arith, same) in
          absurd (ground (arith, sym (ap stays q) ∙ st, off))
      | inr other ↦
          let before : l < old = ground (arith, lt, other) in
          let down_l = down l (omega (arith, before, le)) st in
          set_list-other old (new l) [] g (ground (arith, down_l, before)) ∙ a.done l before st
    ];
    ahead =
        λ l far. set_list-other old l [] g (ground (arith, far)) ∙ a.ahead l (omega (arith, far));
  }

  pub move_points-AreMoved :
      (left old : ℕ) (g : ℕ → List ℕ)
      → old + left ≤ suc max_points
      → AreMoved old g
      → (g' : ℕ → List ℕ) × (move_points new max_points left old g ≡ some g')
        × AreMoved (old + left) g'
  unfolding move_points
  move_points-AreMoved zero old g le a =
      let q : old ≡ old + 0 = omega arith in (g, refl, subst (λ (x : ℕ). AreMoved x g) q a)
  move_points-AreMoved (suc left) old g le a =
      let low : old ≤ max_points = omega (arith, le) in
      let q : suc old + left ≡ old + suc left = omega arith in
      elim (Bool-cases (stays old)) [
        | inl on ↦
            let st = kept old low ∙ on in
            let fine : move_down new (g old) ≡ true =
              ap (move_down new) (a.ahead old (omega arith))
              ∙ All-move_down new (g0 old) (safe old low on) in
            let (g', run, r) =
              move_points-AreMoved left (suc old) _ (omega (arith, le))
                (moved-AreMoved old g low on a) in
            (g', rw (move_points, st, fine) run, subst (λ (x : ℕ). AreMoved x g') q r)
        | inr off ↦
            let st = kept old low ∙ off in
            let (g', run, r) =
              move_points-AreMoved left (suc old) _ (omega (arith, le))
                (gone-AreMoved old g low off a) in
            (g', rw (move_points, st) run, subst (λ (x : ℕ). AreMoved x g') q r)
      ]
