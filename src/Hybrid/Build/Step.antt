-- ===== src/Hybrid/Build/Step.antt =====
-- The graph stays good when a node is linked.
use hvs_disk.Base.{
  ℕ, ◌≤◌, ◌<◌, ◌≡◌, refl, ap, subst, ◌∙◌, List, [], ◌∷◌, some, Bool, false, arith, ◌==◌, map,
  contains, IsDistinct, max_float, All, All-weaken, Bool-cases, inl, inr,
}
use hvs_disk.Hybrid.Skyline.{NeighborH}
use hvs_disk.Hybrid.Skyline.Parts.{count_id}
use hvs_disk.Hybrid.Picking.{FloatOps, DegNeighbor}
use hvs_disk.Hybrid.Picking.Layer.{count_edge}
use hvs_disk.Hybrid.Picking.Whole.{prune_neighbors_no_opt-AreChosen}
use hvs_disk.Hybrid.Picking.Kept.{AreKeptCandidates, AreKeptEdges, prune_neighbors_no_opt-kept}
use hvs_disk.Hybrid.Link.{edge_ids, assign_edges}
use hvs_disk.Hybrid.Link.Graph.{
  IsSimple, assign_edges-all, assign_edges-at, assign_edges-other, inter_insert-AreBack,
}
use hvs_disk.Hybrid.Link.Kept.{inter_insert-kept}
use hvs_disk.Hybrid.Queue.{found_point}
use hvs_disk.Hybrid.Queue.Visit.{places}
use hvs_disk.Hybrid.Queue.Fixed.{iterate_to_fixed_point-IsFixed}
use hvs_disk.Hybrid.Build.{
  or_ep, without_node, with_edges, with_pool, get_expanded_nodes, link_node,
}

-- An id below the limit, at a distance below the largest float.
abbrev pub IsNode : ℕ → ℕ → ℕ → Type 0
IsNode limit id d = (id < limit) × (d < max_float)

-- No list has a node twice or the node itself, all ids are below the limit, and all embedding distances
-- below the largest float.
pub record IsGood (limit : ℕ) (g : ℕ → List DegNeighbor) : Type 0 where
  pub simple : IsSimple g
  pub no_self : (j : ℕ) → count_edge j (g j) ≡ 0
  pub nodes : (j : ℕ) → AreKeptEdges (IsNode limit) (g j)

without_node-counts :
    (node i : ℕ) (ps : List NeighborH)
    → (count_id i (without_node node ps) ≤ count_id i ps)
      × (count_id node (without_node node ps) ≡ 0)
unfolding without_node
without_node-counts node i [] = ground arith
without_node-counts node i (p ∷ ps) = elim (Bool-cases (p.id == node)) [
  | inl e ↦ rw e (ground (arith, without_node-counts node i ps))
  | inr e ↦ rw e (ground (arith, e, without_node-counts node i ps))
]

without_node-All :
    (P : NeighborH → Type 0) (node : ℕ) (ps : List NeighborH)
    → All P ps
    → All P (without_node node ps)
unfolding without_node
without_node-All P node [] a = tt
without_node-All P node (p ∷ ps) a = elim (Bool-cases (p.id == node)) [
  | inl e ↦ rw e (without_node-All P node ps a.1)
  | inr e ↦ rw e ((a.0, without_node-All P node ps a.1))
]

-- The counts of ids say what the list of ids contains.
counted-contains :
    (i : ℕ) (es : List DegNeighbor) → count_edge i es ≡ 0 → contains (edge_ids es) i ≡ false
counted-contains i [] e = refl
counted-contains i (x ∷ xs) e = ground (arith, e, counted-contains i xs)

counted-IsDistinct :
    (es : List DegNeighbor) → ((i : ℕ) → count_edge i es ≤ 1) → IsDistinct (edge_ids es)
counted-IsDistinct [] c = tt
counted-IsDistinct (x ∷ xs) c = (
  counted-contains x.id xs (ground (arith, c x.id)),
  counted-IsDistinct xs (λ i. omega (arith, c i)),
)

kept-ids :
    (limit : ℕ) (es : List DegNeighbor)
    → AreKeptEdges (IsNode limit) es
    → All (λ (n : ℕ). n < limit) (edge_ids es)
kept-ids limit [] a = tt
kept-ids limit (e ∷ es) a = (a.0.0, kept-ids limit es a.1)

module _ (g : ℕ → List ℕ) (dist1 dist2 : ℕ → ℕ) (limit : ℕ) where
  -- Distinct ids have one place each.
  places-started :
      (i : ℕ) (ids : List ℕ)
      → IsDistinct ids
      → places i (map (found_point g dist1 dist2 limit 0) ids) ids ≤ 1
  places-started i [] d = omega arith
  places-started i (x ∷ xs) d = elim (Bool-cases (x == i)) [
    | inl e ↦
        let q : x ≡ i = ground (arith, e) in
        let out : contains xs i ≡ false = subst (λ (y : ℕ). contains xs y ≡ false) q d.0 in
        ground (arith, e, out, places-started i xs d.1)
    | inr e ↦ ground (arith, e, places-started i xs d.1)
  ]

module _ (f : FloatOps) (wide : ℕ → ℕ → Bool) (threshold : f.F) (dist1 dist2 : ℕ → ℕ → ℕ)
    (limit size range ep : ℕ) (near : (i j : ℕ) → dist1 i j < max_float) where
  or_ep-first :
      (init_ids : List ℕ)
      → ep < limit
      → All (λ (n : ℕ). n < limit) init_ids
      → IsDistinct init_ids
      → All (λ (n : ℕ). n < limit) (or_ep ep init_ids) × IsDistinct (or_ep ep init_ids)
  or_ep-first [] lt a d = ((lt, tt), (refl, tt))
  or_ep-first (i ∷ is) lt a d = (a, d)

  -- The edges of a new node are put into a good graph.
  with_edges-IsGood :
      (node : ℕ) (picked : List DegNeighbor) (g : ℕ → List DegNeighbor)
      → node < limit
      → IsGood limit g
      → ((i : ℕ) → count_edge i picked ≤ 1)
      → count_edge node picked ≡ 0
      → AreKeptEdges (IsNode limit) picked
      → (g' : ℕ → List DegNeighbor) × (with_edges f wide threshold dist1 dist2 limit size range ep
            node g
            (some picked)
          ≡ some g')
        × IsGood limit g'
  with_edges-IsGood node picked g lt good once out kept =
      let g1 = assign_edges node picked g in
      let simple1 : IsSimple g1 = λ i.
        assign_edges-all (λ j xs. count_edge i xs ≤ 1) node picked g (once i) (good.simple i) in
      let nodes1 =
        assign_edges-all (λ j xs. AreKeptEdges (IsNode limit) xs) node picked g kept good.nodes in
      let far : contains (edge_ids picked) node ≡ false = counted-contains node picked out in
      let (g', run, b) =
        inter_insert-AreBack f wide threshold dist1 dist2 range node picked g1
          (counted-IsDistinct picked once) simple1
          (All-weaken _ _ picked (λ e q. (All-weaken _ _ (g1 e.id) (λ x r. r.1) (nodes1 e.id), q.1))
            kept) in
      (
        g',
        run,
        record {
          simple = b.simple;
          no_self = λ j. elim (Bool-cases (node == j)) [
            | inl e ↦
                let q : node ≡ j = ground (arith, e) in
                subst (λ (x : ℕ). count_edge x (g' x) ≡ 0) q
                  (ap (count_edge node) (b.others node far ∙ assign_edges-at node picked g) ∙ out)
            | inr e ↦ ground (
              arith,
              e,
              b.entries j j,
              good.no_self j,
              ap (count_edge j) (assign_edges-other node j picked g e),
            )
          ];
          nodes =
              inter_insert-kept (IsNode limit) f wide threshold dist1 dist2 range node picked g1 g'
                run nodes1 (All-weaken _ _ picked (λ e q. (lt, q.1)) kept);
        },
      )

  with_pool-IsGood :
      (node : ℕ) (pool : List NeighborH) (seen : List ℕ) (g : ℕ → List DegNeighbor)
      → node < limit
      → IsGood limit g
      → ((i : ℕ) → count_id i pool ≤ 1)
      → AreKeptCandidates (IsNode limit) pool
      → (g' : ℕ → List DegNeighbor) × (with_pool f wide threshold dist1 dist2 limit size range ep
            node g
            (some (pool, seen))
          ≡ some g')
        × IsGood limit g'
  with_pool-IsGood node pool seen g lt good once kept =
      let others = without_node node pool in
      let others_kept = without_node-All _ node pool kept in
      let (picked, made, _, counts) =
        prune_neighbors_no_opt-AreChosen f wide threshold dist1 dist2 range others
          (All-weaken _ _ others (λ c q. q.1) others_kept) in
      let few = λ (i : ℕ). without_node-counts node i pool in
      let (g', run, r) =
        with_edges-IsGood node picked g lt good (λ i. omega (arith, counts i, (few i).0, once i))
          (omega (arith, counts node, (few node).1))
          (prune_neighbors_no_opt-kept (IsNode limit) f wide threshold dist1 dist2 range others
            picked made others_kept) in
      (g', ap (with_edges f wide threshold dist1 dist2 limit size range ep node g) made ∙ run, r)

  -- A node is linked into a good graph: where the first ids are distinct and, like the node and the
  -- entry point, below the limit, and all embedding distances are below the largest float, the search,
  -- the choice of edges and the edges back all end without a crash, and the graph stays good.
  pub link_node-IsGood :
      (node : ℕ) (init_ids : List ℕ) (g : ℕ → List DegNeighbor)
      → node < limit
      → ep < limit
      → All (λ (n : ℕ). n < limit) init_ids
      → IsDistinct init_ids
      → IsGood limit g
      → (g' : ℕ → List DegNeighbor) × (link_node f wide threshold dist1 dist2 limit size range ep
            node init_ids g
          ≡ some g')
        × IsGood limit g'
  unfolding link_node get_expanded_nodes
  link_node-IsGood node init_ids g lt ep_lt valid distinct good =
      let ids = or_ep ep init_ids in
      let edges = λ (i : ℕ). edge_ids (g i) in
      let (ids_valid, ids_distinct) = or_ep-first init_ids ep_lt valid distinct in
      let small = λ (i : ℕ). kept-ids limit (g i) (good.nodes i) in
      let (pool, seen, found, r) =
        iterate_to_fixed_point-IsFixed edges (dist1 node) (dist2 node) limit (near node) small size
          ids ids_valid in
      let (g', run, kept) =
        with_pool-IsGood node pool seen g lt good
          (λ i. omega (
            arith,
            r.ids i,
            places-started edges (dist1 node) (dist2 node) limit i ids ids_distinct,
          ))
          (All-weaken _ _ pool (λ p q. (q.0, q.1)) r.closed) in
      (g', ap (with_pool f wide threshold dist1 dist2 limit size range ep node g) found ∙ run, kept)
