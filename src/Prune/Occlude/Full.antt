-- ===== src/Prune/Occlude/Full.antt =====
-- What prune_neighbors leaves.
use hvs_disk.Base.{
  ℕ, suc, ◌*◌, ◌/◌, ◌≤◌, ◌<◌, ◌≡◌, refl, ap, List, [], ◌∷◌, ◌++◌, some, true, arith, ltb, ◌==◌,
  ◌||◌, if◌then◌else◌, length, length-append, replicate, contains, one_float,
}
use hvs_disk.Prune.Occlude.{
  set_insert, Neighbor, Picked, Setting, occlude_list_pq, insert_pool, sort_pool, drop_medoid,
  fill_pool, finish_full, prune_neighbors,
}
use hvs_disk.Prune.Occlude.Bounds.{
  ids, length-ids, IsFrom, alphas-IsBounded, length-set_insert, contains-set_insert,
}

contains-insert_pool :
    (p : Neighbor) (ps : List Neighbor) (i : ℕ)
    → contains (ids (insert_pool p ps)) i ≡ contains (ids (p ∷ ps)) i
unfolding insert_pool
contains-insert_pool p [] i = refl
contains-insert_pool p (q ∷ qs) i = ground (arith, contains-insert_pool p qs i)

pub contains-sort_pool :
    (ps : List Neighbor) (i : ℕ) → contains (ids (sort_pool ps)) i ≡ contains (ids ps) i
unfolding sort_pool
contains-sort_pool [] i = refl
contains-sort_pool (p ∷ ps) i =
    ground (arith, contains-insert_pool p (sort_pool ps) i, contains-sort_pool ps i)

length-drop_medoid : (m t i : ℕ) (ps : List Neighbor) → length (drop_medoid m t i ps) ≤ length ps
unfolding drop_medoid
length-drop_medoid m t i [] = omega arith
length-drop_medoid m t i (p ∷ ps) = ground (arith, length-drop_medoid m t (suc i) ps)

contains-drop_medoid :
    (m t i : ℕ) (ps : List Neighbor) (x : ℕ)
    → contains (ids (drop_medoid m t i ps)) x ≡ true
    → contains (ids ps) x ≡ true
unfolding drop_medoid
contains-drop_medoid m t i [] x h = h
contains-drop_medoid m t i (p ∷ ps) x h = ground (arith, contains-drop_medoid m t (suc i) ps x, h)

pub contains-push :
    (ps : List Neighbor) (p : Neighbor) (i : ℕ)
    → contains (ids (ps ++ p ∷ [])) i ≡ (contains (ids ps) i || (p.id == i))
contains-push [] p i = ground arith
contains-push (q ∷ qs) p i = ground (arith, contains-push qs p i)

module _ (s : Setting) (sort_by_distance : List Neighbor → List Neighbor) where
  fill_pool-bound :
      (acc ps : List Neighbor)
      → length acc ≤ s.range
      → length (fill_pool s sort_by_distance acc ps) ≤ s.range
  unfolding fill_pool
  fill_pool-bound acc [] h = h
  fill_pool-bound acc (p ∷ ps) h = ground (
    arith,
    h,
    fill_pool-bound acc ps h,
    fill_pool-bound (acc ++ p ∷ []) ps,
    length-append acc (p ∷ []),
  )

  fill_pool-IsFrom :
      (acc ps : List Neighbor) (i : ℕ)
      → contains (ids (fill_pool s sort_by_distance acc ps)) i ≡ true
      → contains (ids acc) i || contains (ids ps) i ≡ true
  unfolding fill_pool
  fill_pool-IsFrom acc [] i h = ground (arith, h)
  fill_pool-IsFrom acc (p ∷ ps) i h = ground (
    arith,
    h,
    fill_pool-IsFrom acc ps i,
    fill_pool-IsFrom (acc ++ p ∷ []) ps i,
    contains-push acc p i,
  )

  -- Where the step of alpha makes every alpha from 1 up to the largest one larger, with fuel beyond
  -- alpha, and where the last sort keeps the number of its points and adds no id: prune_neighbors
  -- returns at most range ids, all of them ids of the pool.
  pub prune_neighbors-IsBounded :
      (fuel medoid : ℕ) (pool : List Neighbor)
      → ((x : ℕ) → one_float ≤ x → x ≤ s.alpha → x < s.grow x)
      → s.alpha < fuel
      → ((ps : List Neighbor)
          → (length (sort_by_distance ps) ≡ length ps)
            × IsFrom (ids (sort_by_distance ps)) (ids ps))
      → (out : List ℕ) × (prune_neighbors s sort_by_distance fuel medoid pool ≡ some out)
        × (length out ≤ s.range)
        × IsFrom out (ids pool)
  unfolding prune_neighbors occlude_list_pq
  prune_neighbors-IsBounded fuel medoid pool g m keeps =
      let sorted = sort_pool pool in
      let start : Picked = record {
        result_set = [];
        occlude_factor = replicate (length sorted) 0;
      } in
      let (result, run, (few, origin)) =
        alphas-IsBounded s set_insert length-set_insert contains-set_insert fuel sorted one_float
          start g (omega arith) (omega (arith, m)) (omega (arith, m))
          (omega arith, λ i c. absurd (ground (arith, c))) in
      let kept = drop_medoid medoid (length result * 3 / 4) 0 result in
      let filled : List Neighbor =
        if ltb one_float s.alpha then fill_pool s sort_by_distance kept sorted else kept in
      let few' : length kept ≤ s.range =
        omega (arith, few, length-drop_medoid medoid (length result * 3 / 4) 0 result) in
      let bound : length filled ≤ s.range =
        ground (arith, few', fill_pool-bound kept sorted few') in
      let origin' : IsFrom (ids filled) (ids pool) = λ i c. ground (
        arith,
        c,
        fill_pool-IsFrom kept sorted i,
        contains-drop_medoid medoid (length result * 3 / 4) 0 result i,
        origin i,
        contains-sort_pool pool i,
      ) in
      (
        ids (sort_by_distance filled),
        ap (finish_full s sort_by_distance medoid sorted) run,
        rw (length-ids (sort_by_distance filled), (keeps filled).0) bound,
        λ i c. origin' i ((keeps filled).1 i c),
      )
