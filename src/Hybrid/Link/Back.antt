-- ===== src/Hybrid/Link/Back.antt =====
-- The new list of one node that gets an edge back.
use hvs_disk.Base.{
  ℕ, ◌+◌, ◌≤◌, ◌<◌, ◌≡◌, refl, subst, List, [], ◌∷◌, ◌++◌, some, Bool, true, false, ◌&&◌, not,
  arith, ltb, ◌==◌, if◌then◌else◌, length, map, contains, Bool-cases, inl, inr, max_float, All,
  All-append,
}
use hvs_disk.Hybrid.Skyline.{NeighborH}
use hvs_disk.Hybrid.Skyline.Parts.{count_id, IsFinite}
use hvs_disk.Hybrid.Picking.{FloatOps, DegNeighbor}
use hvs_disk.Hybrid.Picking.Layer.{count_edge, count_edge-append}
use hvs_disk.Hybrid.Picking.Whole.{prune_neighbors_no_opt-AreChosen}
use hvs_disk.Hybrid.Link.{has_edge, candidate_of, back_edge, dummy_neighbors, linked_edges}

abbrev pub AreFinite : List DegNeighbor → Type 0
AreFinite es = All (λ (e : DegNeighbor). e.emb_distance < max_float) es

pub count_id-candidates :
    (i : ℕ) (es : List DegNeighbor) → count_id i (map candidate_of es) ≡ count_edge i es
count_id-candidates i [] = refl
count_id-candidates i (e ∷ es) = omega (arith, count_id-candidates i es)

IsFinite-candidates : (es : List DegNeighbor) → AreFinite es → IsFinite (map candidate_of es)
IsFinite-candidates [] h = tt
IsFinite-candidates (e ∷ es) h = (h.0, IsFinite-candidates es h.1)

dummy_neighbors-IsFinite :
    (des : ℕ) (visited : List ℕ) (cs : List NeighborH)
    → IsFinite cs
    → IsFinite (dummy_neighbors des visited cs)
unfolding dummy_neighbors
dummy_neighbors-IsFinite des visited [] h = tt
dummy_neighbors-IsFinite des visited (c ∷ cs) h =
    elim (Bool-cases (not (contains visited c.id) && not (c.id == des))) [
      | inl e ↦ rw e ((h.0, dummy_neighbors-IsFinite des (c.id ∷ visited) cs h.1))
      | inr e ↦ rw e (dummy_neighbors-IsFinite des visited cs h.1)
    ]

-- A candidate is taken no more often than it occurs, at most once, and not if it was visited.
pub dummy_neighbors-counts :
    (des i : ℕ) (visited : List ℕ) (cs : List NeighborH)
    → (count_id i (dummy_neighbors des visited cs) ≤ count_id i cs)
      × (count_id i (dummy_neighbors des visited cs) + (if contains visited i then 1 else 0) ≤ 1)
unfolding dummy_neighbors
dummy_neighbors-counts des i visited [] = ground arith
dummy_neighbors-counts des i visited (c ∷ cs) =
    elim (Bool-cases (not (contains visited c.id) && not (c.id == des))) [
      | inl e ↦ rw e (ground (arith, e, dummy_neighbors-counts des i (c.id ∷ visited) cs))
      | inr e ↦ rw e (ground (arith, e, dummy_neighbors-counts des i visited cs))
    ]

count_edge-missing : (n : ℕ) (es : List DegNeighbor) → has_edge n es ≡ false → count_edge n es ≡ 0
count_edge-missing n [] h = refl
count_edge-missing n (e ∷ es) h = ground (arith, h, count_edge-missing n es)

count_edge-has : (n : ℕ) (es : List DegNeighbor) → has_edge n es ≡ true → 0 < count_edge n es
count_edge-has n [] h = absurd (ground (arith, h))
count_edge-has n (e ∷ es) h = ground (arith, h, count_edge-has n es)

new-once :
    (n i : ℕ) (es : List DegNeighbor)
    → count_edge i es ≤ 1
    → count_edge n es ≡ 0
    → count_edge i es + (if n == i then 1 else 0) ≤ 1
new-once n i es few zero_n = elim (Bool-cases (n == i)) [
  | inl e ↦
      let q : n ≡ i = ground (arith, e) in
      rw e (omega (arith, subst (λ (x : ℕ). count_edge x es ≡ 0) q zero_n))
  | inr e ↦ rw e (omega (arith, few))
]

-- The entries are those of the list and n, none of them twice; where there is room, n is one of them.
pub record IsBack (range n : ℕ) (old new : List DegNeighbor) : Type 0 where
  pub entries : (i : ℕ) → count_edge i new ≤ count_edge i old + (if n == i then 1 else 0)
  pub once : (i : ℕ) → count_edge i new ≤ 1
  pub back : length old < range → 0 < count_edge n new

module _ (f : FloatOps) (wide : ℕ → ℕ → Bool) (threshold : f.F) (dist1 dist2 : ℕ → ℕ → ℕ)
    (range : ℕ) where
  pub linked_edges-IsBack :
      (n : ℕ) (des : DegNeighbor) (pool : List DegNeighbor)
      → AreFinite pool
      → des.emb_distance < max_float
      → ((i : ℕ) → count_edge i pool ≤ 1)
      → (new : List DegNeighbor) × (linked_edges f wide threshold dist1 dist2 range n des pool
          ≡ some new)
        × IsBack range n pool new
  unfolding linked_edges
  linked_edges-IsBack n des pool fin near single = elim (Bool-cases (has_edge n pool)) [
    | inl has ↦ rw has (
      pool,
      refl,
      record { entries = λ i. omega arith; once = single; back = λ r. count_edge-has n pool has },
    )
    | inr out ↦
        let e = back_edge n des in
        let added = λ (i : ℕ). count_edge-append i pool (e ∷ []) in
        elim (Bool-cases (ltb (length pool) range)) [
          | inl room ↦
              rw (out, room)
                (
                  pool ++ e ∷ [],
                  refl,
                  record {
                    entries = λ i. ground (arith, added i);
                    once = λ i. omega (
                      arith,
                      added i,
                      new-once n i pool (single i) (count_edge-missing n pool out),
                    );
                    back = λ r. ground (arith, added n);
                  },
                )
          | inr full ↦
              let cs = map candidate_of (pool ++ e ∷ []) in
              let all_finite = All-append _ pool (e ∷ []) fin (near, tt) in
              let (new, run, _, counts) =
                prune_neighbors_no_opt-AreChosen f wide threshold dist1 dist2 range
                  (dummy_neighbors des.id [] cs)
                  (dummy_neighbors-IsFinite des.id [] cs
                    (IsFinite-candidates (pool ++ e ∷ []) all_finite)) in
              rw (out, full)
                (
                  new,
                  run,
                  record {
                    entries = λ i. ground (
                      arith,
                      counts i,
                      (dummy_neighbors-counts des.id i [] cs).0,
                      count_id-candidates i (pool ++ e ∷ []),
                      added i,
                    );
                    once = λ i. ground (arith, counts i, (dummy_neighbors-counts des.id i [] cs).1);
                    back = λ r. absurd (ground (arith, full, r));
                  },
                )
        ]
  ]
