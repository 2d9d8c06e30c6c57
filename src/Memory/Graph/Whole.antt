-- ===== src/Memory/Graph/Whole.antt =====
-- The repair of all nodes.
use hvs_disk.Base.{
  one_float, ℕ, zero, suc, ◌+◌, ◌≤◌, ◌<◌, ◌≡◌, refl, sym, ap, subst, ◌∙◌, inl, inr, List, some,
  Bool, true, false, ◌||◌, arith, ◌==◌, Bool-cases,
}
use hvs_disk.Base.HashSet.{HashSet}
use hvs_disk.Prune.Occlude.{Setting}
use hvs_disk.Memory.Graph.{assign, repair}
use hvs_disk.Memory.Graph.Repair.{around, around-same, IsRepaired, repaired-IsRepaired}

module _ (s : Setting) (h : HashSet) (del empty : h.Table) (fuel : ℕ)
    (up : (x : ℕ) → one_float ≤ x → x ≤ s.alpha → x < s.grow x) (enough : s.alpha < fuel) where
  abbrev skip : ℕ → Bool
  skip i = h.has i del || h.has i empty

  -- The nodes from i on are repaired but the deleted and the empty ones; the others are as they were.
  pub record AreRepaired (g g' : ℕ → List ℕ) (i left : ℕ) : Type 0 where
    pub done :
        (j : ℕ) → i ≤ j → j < i + left → skip j ≡ false → IsRepaired s h del empty fuel g j (g' j)
    pub before : (j : ℕ) → j < i → g' j ≡ g j
    pub out : (j : ℕ) → skip j ≡ true → g' j ≡ g j

  -- A repair that is relative to lists that agree on deleted nodes and on this one.
  moved_back :
      (g g1 : ℕ → List ℕ) (j : ℕ) (ns : List ℕ)
      → ((n : ℕ) → h.has n del ≡ true → g1 n ≡ g n)
      → g1 j ≡ g j
      → IsRepaired s h del empty fuel g1 j ns
      → IsRepaired s h del empty fuel g j ns
  moved_back g g1 j ns dead here r = record {
    live = r.live;
    bounded = elim r.bounded [ inl e ↦ inl (e ∙ here) | inr few ↦ inr few ];
    origin = λ k c.
        sym (around-same s h del empty fuel g g1 (g j) k dead)
        ∙ (ap (λ (xs : List ℕ). around s h del empty fuel g1 xs k) (sym here) ∙ r.origin k c);
  }

  assign-here : (i : ℕ) (ns : List ℕ) (g : ℕ → List ℕ) → assign s h del empty fuel i ns g i ≡ ns
  assign-here i ns g = let e : (i == i) ≡ true = ground arith in rw e refl

  assign-other :
      (i j : ℕ) (ns : List ℕ) (g : ℕ → List ℕ)
      → (i == j) ≡ false
      → assign s h del empty fuel i ns g j ≡ g j
  assign-other i j ns g e = rw e refl

  repair-AreRepaired :
      (left i : ℕ) (g : ℕ → List ℕ)
      → (g' : ℕ → List ℕ) × (repair s h del empty fuel left i g ≡ some g') × AreRepaired g g' i left
  unfolding repair
  repair-AreRepaired zero i g = (
    g,
    refl,
    record {
      done = λ j le lt on. absurd (omega (arith, le, lt));
      before = λ j lt. refl;
      out = λ j off. refl;
    },
  )
  repair-AreRepaired (suc left) i g = elim (Bool-cases (skip i)) [
    | inl out ↦
        let (g', run, r) = repair-AreRepaired left (suc i) g in
        (
          g',
          rw out run,
          record {
            done = λ j le lt on.
                r.done j (ground (arith, le, differ i j out on)) (omega (arith, lt)) on;
            before = λ j lt. r.before j (omega (arith, lt));
            out = r.out;
          },
        )
    | inr on ↦
        let (ns, fixed, q) = repaired-IsRepaired s h del empty fuel up enough g i in
        let g1 = assign s h del empty fuel i ns g in
        let (g', run, r) = repair-AreRepaired left (suc i) g1 in
        (
          g',
          rw (on, fixed) run,
          record {
            done = λ j le lt on'. elim (Bool-cases (i == j)) [
              | inl here ↦
                  let p : i ≡ j = ground (arith, here) in
                  let e : g' i ≡ ns = r.before i (omega arith) ∙ assign-here i ns g in
                  subst (λ (x : ℕ). IsRepaired s h del empty fuel g x (g' x)) p
                    (subst (IsRepaired s h del empty fuel g i) (sym e) q)
              | inr other ↦
                  moved_back g g1 j (g' j)
                    (λ n gone. assign-other i n ns g (unlike n i (ground (arith, gone)) on))
                    (assign-other i j ns g other)
                    (r.done j (ground (arith, le, other)) (omega (arith, lt)) on')
            ];
            before =
                λ j lt. r.before j (omega (arith, lt)) ∙ assign-other i j ns g (ground (arith, lt));
            out = λ j off. r.out j off ∙ assign-other i j ns g (unlike j i off on);
          },
        )
  ]
    where
      differ : (a b : ℕ) → skip a ≡ true → skip b ≡ false → (a == b) ≡ false
      differ a b yes_a no_b = elim (Bool-cases (a == b)) [
        | inr e ↦ e
        | inl e ↦
            let q : a ≡ b = ground (arith, e) in
            absurd (ground (arith, sym yes_a ∙ (ap skip q ∙ no_b)))
      ]

      unlike : (a b : ℕ) → skip a ≡ true → skip b ≡ false → (b == a) ≡ false
      unlike a b yes_a no_b = ground (arith, differ a b yes_a no_b)

  -- Where each step makes an alpha from 1 up to the largest one larger, and with fuel beyond that, the repair of all nodes ends. No node that is
  -- neither deleted nor empty has a deleted neighbour any more; its list is the old one or has at most
  -- range entries, and each entry was a neighbour or a link of a deleted neighbour. The lists of
  -- deleted and of empty nodes are as they were.
  pub repair-IsClean :
      (total : ℕ) (g : ℕ → List ℕ)
      → (g' : ℕ → List ℕ) × (repair s h del empty fuel total 0 g ≡ some g')
        × ((j : ℕ) → j < total → skip j ≡ false → IsRepaired s h del empty fuel g j (g' j))
        × ((j : ℕ) → skip j ≡ true → g' j ≡ g j)
  repair-IsClean total g =
      let (g', run, r) = repair-AreRepaired total 0 g in
      (g', run, λ j lt on. r.done j (omega arith) (omega (arith, lt)) on, r.out)
