-- ===== src/Memory/Link/Reverse.antt =====
-- inter_insert: the links back from the chosen neighbours.
use hvs_disk.Base.{
  one_float, ℕ, ◌≤◌, ◌<◌, ◌≡◌, refl, subst, ◌∙◌, inl, inr, List, [], ◌∷◌, some, Bool, true, false,
  ◌||◌, arith, ◌==◌, length, Bool-cases, contains,
}
use hvs_disk.Prune.Occlude.{Neighbor, Setting}
use hvs_disk.Prune.Occlude.Bounds.{ids, IsFrom}
use hvs_disk.Memory.Link.{assign_list, linked, inter_insert}
use hvs_disk.Memory.Link.Bounds.{linked-IsLinked}

module _ (s : Setting) (sat : Bool) (sort_by_distance : List Neighbor → List Neighbor)
    (slack fuel : ℕ) (up : (x : ℕ) → one_float ≤ x → x ≤ s.alpha → x < s.grow x)
    (enough : s.alpha < fuel)
    (keeps : (ps : List Neighbor)
      → (length (sort_by_distance ps) ≡ length ps) × IsFrom (ids (sort_by_distance ps)) (ids ps))
    (room : s.range ≤ slack) (n : ℕ) where
  -- Lists within the slack; new entries are n only; the lists of nodes that were not chosen stay.
  pub record AreLinked (chosen : List ℕ) (g g' : ℕ → List ℕ) : Type 0 where
    pub short : (j : ℕ) → length (g' j) ≤ slack
    pub entries : (j i : ℕ) → contains (g' j) i ≡ true → ((n == i) || contains (g j) i) ≡ true
    pub others : (j : ℕ) → contains chosen j ≡ false → g' j ≡ g j

  assign_list-other :
      (i j : ℕ) (ns : List ℕ) (g : ℕ → List ℕ) → (i == j) ≡ false → assign_list i ns g j ≡ g j
  assign_list-other i j ns g e = rw e refl

  assign_list-all :
      (P : ℕ → List ℕ → Type 0) (i : ℕ) (ns : List ℕ) (g : ℕ → List ℕ)
      → P i ns
      → ((j : ℕ) → P j (g j))
      → (j : ℕ) → P j (assign_list i ns g j)
  assign_list-all P i ns g here there j = elim (Bool-cases (i == j)) [
    | inl e ↦ let q : i ≡ j = ground (arith, e) in rw e (subst (λ (x : ℕ). P x ns) q here)
    | inr e ↦ rw e (there j)
  ]

  inter_insert-step :
      (des : ℕ) (more : List ℕ) (g : ℕ → List ℕ) (ns : List ℕ)
      → linked s sat sort_by_distance slack fuel n g des ≡ some ns
      → inter_insert s sat sort_by_distance slack fuel n (des ∷ more) g
        ≡ inter_insert s sat sort_by_distance slack fuel n more (assign_list des ns g)
  unfolding inter_insert
  inter_insert-step des more g ns e = rw (inter_insert, e) refl

  -- When the new node is not among its chosen neighbours and all lists are within the slack, where the
  -- slack is at least range, each step makes an alpha from 1 up to the largest one larger, the fuel is beyond its bound and the last sort keeps its
  -- points: inter_insert does not crash, all lists stay within the slack, an entry that is new is the
  -- new node, and the lists of the nodes that were not chosen stay as they were.
  pub inter_insert-AreLinked :
      (chosen : List ℕ) (g : ℕ → List ℕ)
      → contains chosen n ≡ false
      → ((j : ℕ) → length (g j) ≤ slack)
      → (g' : ℕ → List ℕ) × (inter_insert s sat sort_by_distance slack fuel n chosen g ≡ some g')
        × AreLinked chosen g g'
  unfolding inter_insert
  inter_insert-AreLinked [] g out small = (
    g,
    refl,
    record { short = small; entries = λ j i c. ground (arith, c); others = λ j o. refl },
  )
  inter_insert-AreLinked (des ∷ more) g out small =
      let (ns, made, few, from) =
        linked-IsLinked s sat sort_by_distance slack fuel up enough keeps n g des
          (ground (arith, out)) room (small des) in
      let g1 = assign_list des ns g in
      let (g', run, r) =
        inter_insert-AreLinked more g1 (ground (arith, out))
          (assign_list-all (λ j xs. length xs ≤ slack) des ns g few small) in
      let old =
        assign_list-all
          (λ j xs. (i : ℕ) → contains xs i ≡ true → ((n == i) || contains (g j) i) ≡ true) des ns g
          from (λ j i c. ground (arith, c)) in
      (
        g',
        inter_insert-step des more g ns made ∙ run,
        record {
          short = r.short;
          entries = λ j i c. ground (arith, r.entries j i c, old j i);
          others = λ j o.
              r.others j (ground (arith, o)) ∙ assign_list-other des j ns g (ground (arith, o));
        },
      )
