-- ===== src/Hybrid/Link/Kept.antt =====
-- What holds of the ids and distances of all edges still holds after inter_insert.
use mathlib.Core.Option.{some-injective, none-ne-some}
use hvs_disk.Base.{
  ℕ, ◌≡◌, refl, subst, List, [], ◌∷◌, ◌++◌, Option, none, some, Bool, not, ◌&&◌, ltb, ◌==◌, length,
  map, contains, All, All-append, Bool-cases, inl, inr,
}
use hvs_disk.Hybrid.Skyline.{NeighborH}
use hvs_disk.Hybrid.Picking.{FloatOps, DegNeighbor}
use hvs_disk.Hybrid.Picking.Kept.{AreKeptCandidates, AreKeptEdges, prune_neighbors_no_opt-kept}
use hvs_disk.Hybrid.Link.{
  has_edge, assign_edges, candidate_of, back_edge, dummy_neighbors, linked_edges, inter_insert,
}
use hvs_disk.Hybrid.Link.Graph.{assign_edges-all}

module _ (Q : ℕ → ℕ → Type 0) where
  pub candidates-kept :
      (es : List DegNeighbor) → AreKeptEdges Q es → AreKeptCandidates Q (map candidate_of es)
  candidates-kept [] a = tt
  candidates-kept (e ∷ es) a = (a.0, candidates-kept es a.1)

  pub dummy_neighbors-kept :
      (des : ℕ) (visited : List ℕ) (cs : List NeighborH)
      → AreKeptCandidates Q cs
      → AreKeptCandidates Q (dummy_neighbors des visited cs)
  unfolding dummy_neighbors
  dummy_neighbors-kept des visited [] a = tt
  dummy_neighbors-kept des visited (c ∷ cs) a =
      elim (Bool-cases (not (contains visited c.id) && not (c.id == des))) [
        | inl e ↦ rw e ((a.0, dummy_neighbors-kept des (c.id ∷ visited) cs a.1))
        | inr e ↦ rw e (dummy_neighbors-kept des visited cs a.1)
      ]

  module _ (f : FloatOps) (wide : ℕ → ℕ → Bool) (threshold : f.F) (dist1 dist2 : ℕ → ℕ → ℕ)
      (range : ℕ) where
    linked_edges-kept :
        (n : ℕ) (des : DegNeighbor) (pool new : List DegNeighbor)
        → linked_edges f wide threshold dist1 dist2 range n des pool ≡ some new
        → AreKeptEdges Q pool
        → Q n des.emb_distance
        → AreKeptEdges Q new
    unfolding linked_edges
    linked_edges-kept n des pool new made a q =
        let more = pool ++ back_edge n des ∷ [] in
        let b : AreKeptEdges Q more = All-append _ pool _ a (q, tt) in
        elim (Bool-cases (has_edge n pool)) [
          | inl has ↦ subst (AreKeptEdges Q) (some-injective pool new (rw has at made)) a
          | inr out ↦ elim (Bool-cases (ltb (length pool) range)) [
            | inl room ↦ subst (AreKeptEdges Q) (some-injective more new (rw (out, room) at made)) b
            | inr full ↦
                prune_neighbors_no_opt-kept Q f wide threshold dist1 dist2 range
                  (dummy_neighbors des.id [] (map candidate_of more)) new (rw (out, full) at made)
                  (dummy_neighbors-kept des.id [] (map candidate_of more) (candidates-kept more b))
          ]
        ]

    linked_edges-some :
        (n : ℕ) (des : DegNeighbor) (more : List DegNeighbor) (g g' : ℕ → List DegNeighbor)
        (o : Option (List DegNeighbor))
        → (elim o as (λ o. Option (ℕ → List DegNeighbor)) [
          | none ↦ none
          | some es ↦
              inter_insert f wide threshold dist1 dist2 range n more (assign_edges des.id es g)
        ])
          ≡ some g'
        → (new : List DegNeighbor) × (o ≡ some new)
          × (inter_insert f wide threshold dist1 dist2 range n more (assign_edges des.id new g)
              ≡ some g')
    linked_edges-some n des more g g' none e = absurd (none-ne-some g' e)
    linked_edges-some n des more g g' (some new) e = (new, refl, e)

    pub inter_insert-kept :
        (n : ℕ) (es : List DegNeighbor) (g g' : ℕ → List DegNeighbor)
        → inter_insert f wide threshold dist1 dist2 range n es g ≡ some g'
        → ((j : ℕ) → AreKeptEdges Q (g j))
        → All (λ (d : DegNeighbor). Q n d.emb_distance) es
        → (j : ℕ) → AreKeptEdges Q (g' j)
    unfolding inter_insert
    inter_insert-kept n [] g g' e a q =
        subst (λ (h : ℕ → List DegNeighbor). (j : ℕ) → AreKeptEdges Q (h j)) (some-injective g g' e)
          a
    inter_insert-kept n (des ∷ more) g g' e a q =
        let (new, made, run) =
          linked_edges-some n des more g g'
            (linked_edges f wide threshold dist1 dist2 range n des (g des.id)) e in
        inter_insert-kept n more (assign_edges des.id new g) g' run
          (assign_edges-all (λ j xs. AreKeptEdges Q xs) des.id new g
            (linked_edges-kept n des (g des.id) new made (a des.id) q.0) a)
          q.1
