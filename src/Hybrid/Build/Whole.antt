-- ===== src/Hybrid/Build/Whole.antt =====
-- link as a whole: it ends, and leaves a good graph.
use hvs_disk.Base.{
  ℕ, zero, suc, ◌+◌, ◌-◌, ◌≤◌, ◌<◌, ◌≡◌, refl, ap, ◌∙◌, List, [], ◌∷◌, ◌++◌, some, Bool, true,
  false, arith, ltb, if◌then◌else◌, length, map, contains, IsDistinct, max_float, All, All-weaken,
  Bool-cases, inl, inr,
}
use hvs_disk.Hybrid.Skyline.{NeighborH, sort_neighbors}
use hvs_disk.Hybrid.Skyline.Parts.{count_id, count_id-append, count_id-sort_neighbors}
use hvs_disk.Hybrid.Picking.{FloatOps, DegNeighbor}
use hvs_disk.Hybrid.Picking.Layer.{count_edge}
use hvs_disk.Hybrid.Picking.Whole.{prune_neighbors_no_opt-AreChosen}
use hvs_disk.Hybrid.Picking.Kept.{AreKeptEdges, prune_neighbors_no_opt-kept}
use hvs_disk.Hybrid.Link.{assign_edges, candidate_of, dummy_neighbors}
use hvs_disk.Hybrid.Link.Back.{dummy_neighbors-counts, count_id-candidates}
use hvs_disk.Hybrid.Link.Kept.{candidates-kept, dummy_neighbors-kept}
use hvs_disk.Hybrid.Link.Graph.{assign_edges-all}
use hvs_disk.Hybrid.Build.{
  outer, link_node, cleaned, clean_up, update_enterpoint_set, link_nodes, finished, link,
}
use hvs_disk.Hybrid.Build.Step.{IsNode, IsGood, link_node-IsGood}

abbrev point_ids : List NeighborH → List ℕ
point_ids ps = map (λ (p : NeighborH). p.id) ps

count_id-outer : (i : ℕ) (ps : List NeighborH) → count_id i (outer ps).0 ≤ count_id i ps
unfolding outer
count_id-outer i [] = omega arith
count_id-outer i (p ∷ ps) = elim (Bool-cases (ltb (outer ps).1 p.distance1)) [
  | inl e ↦ rw e (omega (arith, count_id-append i (outer ps).0 (p ∷ []), count_id-outer i ps))
  | inr e ↦ rw e (omega (arith, count_id-outer i ps))
]

-- Points whose ids are below a bound, each once.
abbrev ArePoints : ℕ → List NeighborH → Type 0
ArePoints node ps = (i : ℕ) → count_id i ps ≤ (if ltb i node then 1 else 0)

points-contains :
    (i : ℕ) (ps : List NeighborH) → count_id i ps ≡ 0 → contains (point_ids ps) i ≡ false
points-contains i [] e = refl
points-contains i (p ∷ ps) e = ground (arith, e, points-contains i ps)

points-IsDistinct :
    (ps : List NeighborH) → ((i : ℕ) → count_id i ps ≤ 1) → IsDistinct (point_ids ps)
points-IsDistinct [] c = tt
points-IsDistinct (p ∷ ps) c = (
  points-contains p.id ps (ground (arith, c p.id)),
  points-IsDistinct ps (λ i. omega (arith, c i)),
)

points-below :
    (node limit : ℕ) (ps : List NeighborH)
    → node ≤ limit
    → ArePoints node ps
    → All (λ (n : ℕ). n < limit) (point_ids ps)
points-below node limit [] le c = tt
points-below node limit (p ∷ ps) le c =
    (ground (arith, le, c p.id), points-below node limit ps le (λ i. omega (arith, c i)))

assign_edges-IsGood :
    (limit node : ℕ) (es : List DegNeighbor) (g : ℕ → List DegNeighbor)
    → IsGood limit g
    → ((i : ℕ) → count_edge i es ≤ 1)
    → count_edge node es ≡ 0
    → AreKeptEdges (IsNode limit) es
    → IsGood limit (assign_edges node es g)
assign_edges-IsGood limit node es g good once out kept = record {
  simple = λ i. assign_edges-all (λ j xs. count_edge i xs ≤ 1) node es g (once i) (good.simple i);
  no_self = assign_edges-all (λ j xs. count_edge j xs ≡ 0) node es g out good.no_self;
  nodes = assign_edges-all (λ j xs. AreKeptEdges (IsNode limit) xs) node es g kept good.nodes;
}

module _ (f : FloatOps) (wide : ℕ → ℕ → Bool) (threshold : f.F) (dist1 dist2 : ℕ → ℕ → ℕ)
    (limit size range ep : ℕ) where
  clean_up-step :
      (count node : ℕ) (g : ℕ → List DegNeighbor) (es : List DegNeighbor)
      → cleaned f wide threshold dist1 dist2 limit size range ep node (g node) ≡ some es
      → clean_up f wide threshold dist1 dist2 limit size range ep (suc count) node g
        ≡ clean_up f wide threshold dist1 dist2 limit size range ep count
            (suc node)
            (assign_edges node es g)
  unfolding clean_up
  clean_up-step count node g es e = rw (clean_up, e) refl

  cleaned-IsGood :
      (node : ℕ) (g : ℕ → List DegNeighbor)
      → IsGood limit g
      → (es : List DegNeighbor) × (cleaned f wide threshold dist1 dist2 limit size range ep node
            (g node)
          ≡ some es)
        × IsGood limit (assign_edges node es g)
  cleaned-IsGood node g good = elim (Bool-cases (ltb range (length (g node)))) [
    | inr short ↦ (
      g node,
      rw short refl,
      assign_edges-IsGood limit node (g node) g good (λ i. good.simple i node) (good.no_self node)
          (good.nodes node),
    )
    | inl long ↦
        let cs = map candidate_of (g node) in
        let pool = dummy_neighbors node [] cs in
        let kept =
          dummy_neighbors-kept (IsNode limit) node [] cs
            (candidates-kept (IsNode limit) (g node) (good.nodes node)) in
        let (es, made, _, counts) =
          prune_neighbors_no_opt-AreChosen f wide threshold dist1 dist2 range pool
            (All-weaken _ _ pool (λ c q. q.1) kept) in
        let few = λ (i : ℕ). dummy_neighbors-counts node i [] cs in
        (
          es,
          rw long made,
          assign_edges-IsGood limit node es g good (λ i. ground (arith, counts i, (few i).1))
              (omega (
                arith,
                counts node,
                (few node).0,
                count_id-candidates node (g node),
                good.no_self node,
              ))
              (prune_neighbors_no_opt-kept (IsNode limit) f wide threshold dist1 dist2 range pool es
                made kept),
        )
  ]

  clean_up-IsGood :
      (count node : ℕ) (g : ℕ → List DegNeighbor)
      → IsGood limit g
      → (g' : ℕ → List DegNeighbor) × (clean_up f wide threshold dist1 dist2 limit size range ep
            count node g
          ≡ some g')
        × IsGood limit g'
  unfolding clean_up
  clean_up-IsGood zero node g good = (g, refl, good)
  clean_up-IsGood (suc count) node g good =
      let (es, made, good1) = cleaned-IsGood node g good in
      let (g', run, r) = clean_up-IsGood count (suc node) (assign_edges node es g) good1 in
      (g', clean_up-step count node g es made ∙ run, r)

  module _ (near : (i j : ℕ) → dist1 i j < max_float) (ep_lt : ep < limit) (e_d s_d : ℕ → ℕ) where
    update_enterpoint_set-ArePoints :
        (ps : List NeighborH) (node : ℕ)
        → ArePoints node ps
        → ArePoints
            (suc node)
            (update_enterpoint_set f wide threshold dist1 dist2 limit size range ep e_d s_d ps node)
    update_enterpoint_set-ArePoints ps node c i =
        let p : NeighborH = record {
          id = node;
          distance1 = e_d node;
          distance2 = s_d node;
          flag = true;
          layer = 0;
        } in
        ground (
          arith,
          c i,
          count_id-outer i (sort_neighbors (ps ++ p ∷ [])),
          count_id-sort_neighbors i (ps ++ p ∷ []),
          count_id-append i ps (p ∷ []),
        )

    link_nodes-step :
        (count node : ℕ) (ps : List NeighborH) (ids : List ℕ) (g h : ℕ → List DegNeighbor)
        → link_node f wide threshold dist1 dist2 limit size range ep node ids g ≡ some h
        → link_nodes f wide threshold dist1 dist2 limit size range ep e_d s_d
            (suc count)
            node
            ps
            ids
            g
          ≡ link_nodes f wide threshold dist1 dist2 limit size range ep e_d s_d count
              (suc node)
              (update_enterpoint_set f wide threshold dist1 dist2 limit size range ep e_d s_d ps
                node)
              (point_ids (
                update_enterpoint_set f wide threshold dist1 dist2 limit size range ep e_d s_d ps
                  node))
              h
    unfolding link_nodes
    link_nodes-step count node ps ids g h e = rw (link_nodes, e) refl

    link_nodes-IsGood :
        (count node : ℕ) (ps : List NeighborH) (ids : List ℕ) (g : ℕ → List DegNeighbor)
        → node + count ≤ limit
        → ArePoints node ps
        → All (λ (n : ℕ). n < limit) ids
        → IsDistinct ids
        → IsGood limit g
        → (g' : ℕ → List DegNeighbor) × (link_nodes f wide threshold dist1 dist2 limit size range ep
              e_d s_d count node ps ids g
            ≡ some g')
          × IsGood limit g'
    unfolding link_nodes
    link_nodes-IsGood zero node ps ids g le points valid distinct good = (g, refl, good)
    link_nodes-IsGood (suc count) node ps ids g le points valid distinct good =
        let (h, made, good1) =
          link_node-IsGood f wide threshold dist1 dist2 limit size range ep near node ids g
            (omega (arith, le)) ep_lt valid distinct good in
        let next =
          update_enterpoint_set f wide threshold dist1 dist2 limit size range ep e_d s_d ps node in
        let after = update_enterpoint_set-ArePoints ps node points in
        let (g', run, r) =
          link_nodes-IsGood count (suc node) next (point_ids next) h (omega (arith, le)) after
            (points-below (suc node) limit next (omega (arith, le)) after)
            (points-IsDistinct next (λ i. ground (arith, after i))) good1 in
        (g', link_nodes-step count node ps ids g h made ∙ run, r)

    -- Where all embedding distances are below the largest float, the entry point is below the limit and
    -- there are no more nodes than the limit: from a good graph, link by one thread ends without a
    -- crash and leaves a good graph. In a good graph no list has a node twice or the node itself, all ids
    -- are below the limit, and all embedding distances of edges below the largest float.
    pub link-IsGood :
        (n_vecs_to_visit : ℕ) (g : ℕ → List DegNeighbor)
        → n_vecs_to_visit ≤ limit
        → IsGood limit g
        → (g' : ℕ → List DegNeighbor) × (link f wide threshold dist1 dist2 limit size range ep e_d
              s_d n_vecs_to_visit g
            ≡ some g')
          × IsGood limit g'
    unfolding link
    link-IsGood n g le good =
        let (h, run, good1) =
          link_nodes-IsGood (n - 1) 1 [] (ep ∷ []) g (omega (arith, le, ep_lt)) (λ i. ground arith)
            (ep_lt, tt) (refl, tt) good in
        let (g', cleaned_up, r) = clean_up-IsGood n 0 h good1 in
        (
          g',
          ap (finished f wide threshold dist1 dist2 limit size range ep e_d s_d n) run ∙ cleaned_up,
          r,
        )
