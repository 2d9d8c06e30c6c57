-- ===== src/Hybrid/Link/Graph.antt =====
-- inter_insert on the whole graph.
use hvs_disk.Base.{
  ℕ, ◌+◌, ◌≤◌, ◌<◌, ◌≡◌, refl, sym, ap, subst, ◌∙◌, inl, inr, List, [], ◌∷◌, some, Bool, true,
  false, arith, ◌==◌, if◌then◌else◌, length, contains, IsDistinct, Bool-cases, max_float, All,
}
use hvs_disk.Hybrid.Picking.{FloatOps, DegNeighbor}
use hvs_disk.Hybrid.Picking.Layer.{count_edge}
use hvs_disk.Hybrid.Link.{edge_ids, assign_edges, linked_edges, inter_insert}
use hvs_disk.Hybrid.Link.Back.{AreFinite, IsBack, linked_edges-IsBack}

-- Two graphs that agree on the ends of the edges.
at-ends :
    (P : DegNeighbor → List DegNeighbor → Type 0) (g h : ℕ → List DegNeighbor)
    (es : List DegNeighbor)
    → ((i : ℕ) → contains (edge_ids es) i ≡ true → g i ≡ h i)
    → All (λ (e : DegNeighbor). P e (g e.id)) es
    → All (λ (e : DegNeighbor). P e (h e.id)) es
at-ends P g h [] same all = tt
at-ends P g h (e ∷ es) same all = (
  subst (P e) (same e.id (ground arith)) all.0,
  at-ends P g h es (λ i c. same i (ground (arith, c))) all.1,
)

assign_edges-others :
    (i : ℕ) (new : List DegNeighbor) (g : ℕ → List DegNeighbor) (es : List DegNeighbor)
    → contains (edge_ids es) i ≡ false
    → (j : ℕ) → contains (edge_ids es) j ≡ true
    → g j ≡ assign_edges i new g j
assign_edges-others i new g es out j c = elim (Bool-cases (i == j)) [
  | inl e ↦
      let q : i ≡ j = ground (arith, e) in
      absurd (ground (arith, c, subst (λ (x : ℕ). contains (edge_ids es) x ≡ false) q out))
  | inr e ↦ rw e refl
]

pub assign_edges-all :
    (P : ℕ → List DegNeighbor → Type 0) (i : ℕ) (new : List DegNeighbor) (g : ℕ → List DegNeighbor)
    → P i new
    → ((j : ℕ) → P j (g j))
    → (j : ℕ) → P j (assign_edges i new g j)
assign_edges-all P i new g here there j = elim (Bool-cases (i == j)) [
  | inl e ↦ let q : i ≡ j = ground (arith, e) in rw e (subst (λ (x : ℕ). P x new) q here)
  | inr e ↦ rw e (there j)
]

pub assign_edges-at :
    (i : ℕ) (new : List DegNeighbor) (g : ℕ → List DegNeighbor) → assign_edges i new g i ≡ new
assign_edges-at i new g = let e : (i == i) ≡ true = ground arith in rw e refl

pub assign_edges-other :
    (i j : ℕ) (new : List DegNeighbor) (g : ℕ → List DegNeighbor)
    → (i == j) ≡ false
    → assign_edges i new g j ≡ g j
assign_edges-other i j new g e = rw e refl

-- No edge twice.
abbrev pub IsSimple : (ℕ → List DegNeighbor) → Type 0
IsSimple g = (i j : ℕ) → count_edge i (g j) ≤ 1

-- The edges that can be put back: distances below the largest float.
abbrev pub CanLink : (ℕ → List DegNeighbor) → List DegNeighbor → Type 0
CanLink g es = All (λ (e : DegNeighbor). AreFinite (g e.id) × (e.emb_distance < max_float)) es

-- What the links back do to a graph.
pub record AreBack (range n : ℕ) (es : List DegNeighbor) (g g' : ℕ → List DegNeighbor)
    : Type 0 where
  pub simple : IsSimple g'
  pub entries : (i j : ℕ) → count_edge i (g' j) ≤ count_edge i (g j) + (if n == i then 1 else 0)
  pub others : (j : ℕ) → contains (edge_ids es) j ≡ false → g' j ≡ g j
  pub back : All (λ (e : DegNeighbor). length (g e.id) < range → 0 < count_edge n (g' e.id)) es

module _ (f : FloatOps) (wide : ℕ → ℕ → Bool) (threshold : f.F) (dist1 dist2 : ℕ → ℕ → ℕ)
    (range : ℕ) where
  inter_insert-step :
      (n : ℕ) (des : DegNeighbor) (more : List DegNeighbor) (g : ℕ → List DegNeighbor)
      (new : List DegNeighbor)
      → linked_edges f wide threshold dist1 dist2 range n des (g des.id) ≡ some new
      → inter_insert f wide threshold dist1 dist2 range n (des ∷ more) g
        ≡ inter_insert f wide threshold dist1 dist2 range n more (assign_edges des.id new g)
  unfolding inter_insert
  inter_insert-step n des more g new e = rw (inter_insert, e) refl

  step-AreBack :
      (n : ℕ) (des : DegNeighbor) (more : List DegNeighbor) (g g' : ℕ → List DegNeighbor)
      (new : List DegNeighbor)
      → contains (edge_ids more) des.id ≡ false
      → IsBack range n (g des.id) new
      → AreBack range n more (assign_edges des.id new g) g'
      → AreBack range n (des ∷ more) g g'
  step-AreBack n des more g g' new out b r =
      let here : g' des.id ≡ new = r.others des.id out ∙ assign_edges-at des.id new g in
      record {
        simple = r.simple;
        entries = λ i j. elim (Bool-cases (contains (edge_ids more) j)) [
          | inl c ↦ omega (
            arith,
            r.entries i j,
            ap (count_edge i) (assign_edges-others des.id new g more out j c),
          )
          | inr c ↦
              subst
                (λ (xs : List DegNeighbor).
                  count_edge i xs ≤ count_edge i (g j) + (if n == i then 1 else 0))
                (sym (r.others j c))
                (assign_edges-all
                  (λ j xs. count_edge i xs ≤ count_edge i (g j) + (if n == i then 1 else 0)) des.id
                  new g (b.entries i) (λ j. omega arith) j)
        ];
        others = λ j o.
            r.others j (ground (arith, o)) ∙ assign_edges-other des.id j new g (ground (arith, o));
        back = (
          λ room. subst (λ (xs : List DegNeighbor). 0 < count_edge n xs) (sym here) (b.back room),
          at-ends (λ e xs. length xs < range → 0 < count_edge n (g' e.id))
              (assign_edges des.id new g) g more
              (λ i c. sym (assign_edges-others des.id new g more out i c)) r.back,
        );
      }

  -- The edges picked for n end in different nodes, their distances and those of the lists of their ends
  -- are below the largest float, and no list of the graph has a node twice: then inter_insert ends, and
  -- again no list has a node twice, what is new in a list is n only, the lists of other nodes are as
  -- they were, and a list that had fewer than range edges has n.
  pub inter_insert-AreBack :
      (n : ℕ) (es : List DegNeighbor) (g : ℕ → List DegNeighbor)
      → IsDistinct (edge_ids es)
      → IsSimple g
      → CanLink g es
      → (g' : ℕ → List DegNeighbor) × (inter_insert f wide threshold dist1 dist2 range n es g
          ≡ some g')
        × AreBack range n es g g'
  unfolding inter_insert
  inter_insert-AreBack n [] g d s c = (
    g,
    refl,
    record { simple = s; entries = λ i j. omega arith; others = λ j o. refl; back = tt },
  )
  inter_insert-AreBack n (des ∷ more) g d s c =
      let (new, made, b) =
        linked_edges-IsBack f wide threshold dist1 dist2 range n des (g des.id) c.0.0 c.0.1
          (λ i. s i des.id) in
      let g1 = assign_edges des.id new g in
      let (g', run, r) =
        inter_insert-AreBack n more g1 d.1
          (λ i. assign_edges-all (λ j xs. count_edge i xs ≤ 1) des.id new g (b.once i) (s i))
          (at-ends (λ e xs. AreFinite xs × (e.emb_distance < max_float)) g g1 more
            (assign_edges-others des.id new g more d.0) c.1) in
      (g', inter_insert-step n des more g new made ∙ run, step-AreBack n des more g g' new d.0 b r)
