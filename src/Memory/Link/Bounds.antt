-- ===== src/Memory/Link/Bounds.antt =====
-- The lists stay short, and a link is added from each chosen neighbour or its list is pruned.
use hvs_disk.Base.{
  ℕ, ◌≤◌, ◌<◌, ◌≡◌, refl, ap, ◌∙◌, inl, inr, List, [], ◌∷◌, ◌++◌, some, Bool, true, false, not,
  ◌&&◌, ◌||◌, arith, ltb, ◌==◌, if◌then◌else◌, length, Bool-cases, contains, contains-append,
  length-append, one_float,
}
use hvs_disk.Prune.Occlude.{Neighbor, Setting, sort_pool}
use hvs_disk.Prune.Occlude.Bounds.{ids, length-ids, IsFrom}
use hvs_disk.Prune.Occlude.Full.{contains-sort_pool, contains-push}
use hvs_disk.Memory.Graph.Occlude.{occlude_list-IsBounded}
use hvs_disk.Memory.Link.{without_self, saturate, pruned_of, prune_neighbors, dummy_pool, linked}

length-without_self : (l : ℕ) (ps : List Neighbor) → length (without_self l ps) ≤ length ps
unfolding without_self
length-without_self l [] = omega arith
length-without_self l (p ∷ ps) = ground (arith, length-without_self l ps)

contains-without_self :
    (l : ℕ) (ps : List Neighbor) (i : ℕ)
    → contains (ids (without_self l ps)) i ≡ (contains (ids ps) i && not (l == i))
unfolding without_self
contains-without_self l [] i = refl
contains-without_self l (p ∷ ps) i = ground (arith, contains-without_self l ps i)

module _ (s : Setting) (sat : Bool) (sort_by_distance : List Neighbor → List Neighbor)
    (slack fuel : ℕ) where
  length-saturate :
      (l : ℕ) (acc ps : List Neighbor)
      → length acc ≤ s.range
      → length (saturate s sat sort_by_distance slack fuel l acc ps) ≤ s.range
  unfolding saturate
  length-saturate l acc [] h = h
  length-saturate l acc (p ∷ ps) h = ground (
    arith,
    h,
    length-saturate l acc ps h,
    length-saturate l (acc ++ p ∷ []) ps,
    length-append acc (p ∷ []),
  )

  -- What is added comes from the pool and is not the node itself.
  contains-saturate :
      (l : ℕ) (acc ps : List Neighbor) (i : ℕ)
      → contains (ids (saturate s sat sort_by_distance slack fuel l acc ps)) i ≡ true
      → contains (ids acc) i || (contains (ids ps) i && not (l == i)) ≡ true
  unfolding saturate
  contains-saturate l acc [] i h = ground (arith, h)
  contains-saturate l acc (p ∷ ps) i h = ground (
    arith,
    h,
    contains-saturate l acc ps i,
    contains-saturate l (acc ++ p ∷ []) ps i,
    contains-push acc p i,
  )

  contains-dummy_pool :
      (des : ℕ) (visited cs : List ℕ)
      → IsFrom (ids (dummy_pool s sat sort_by_distance slack fuel des visited cs)) cs
  unfolding dummy_pool
  contains-dummy_pool des visited [] i c = c
  contains-dummy_pool des visited (x ∷ xs) i c =
      ground
        (arith, c, contains-dummy_pool des (x ∷ visited) xs i, contains-dummy_pool des visited xs i)

  -- The node linked from is in the pool.
  dummy_pool-some :
      (des n : ℕ) (visited cs : List ℕ)
      → (n == des) ≡ false
      → contains visited n ≡ false
      → contains cs n ≡ true
      → (p : Neighbor) × (ps : List Neighbor) × (dummy_pool s sat sort_by_distance slack fuel des
            visited cs
          ≡ p ∷ ps)
  unfolding dummy_pool
  dummy_pool-some des n visited [] ne new c = absurd (ground (arith, c))
  dummy_pool-some des n visited (x ∷ xs) ne new c =
      elim (Bool-cases (not (contains visited x) && not (x == des))) [
        | inl taken ↦ (
          record { id = x; distance = s.pq_dist des x },
          dummy_pool s sat sort_by_distance slack fuel des (x ∷ visited) xs,
          rw taken refl,
        )
        | inr skipped ↦
            let (p, ps, e) =
              dummy_pool-some des n visited xs ne new (ground (arith, c, other x skipped)) in
            (p, ps, rw skipped e)
      ]
    where
      other : (x : ℕ) → (not (contains visited x) && not (x == des)) ≡ false → (x == n) ≡ false
      other x skipped = elim (Bool-cases (x == n)) [
        | inr e ↦ e
        | inl e ↦
            let q : n ≡ x = ground (arith, e) in
            absurd (ground (arith, skipped, ap (contains visited) q, new, ne, e))
      ]

  module _ (up : (x : ℕ) → one_float ≤ x → x ≤ s.alpha → x < s.grow x) (enough : s.alpha < fuel)
      (keeps : (ps : List Neighbor)
        → (length (sort_by_distance ps) ≡ length ps)
          × IsFrom (ids (sort_by_distance ps)) (ids ps)) where
    -- With an alpha that grows, fuel beyond its bound and a last sort that keeps its points: a pool that
    -- is not empty is pruned to at most range ids of the pool, without the node itself.
    pub prune_neighbors-IsPruned :
        (location : ℕ) (p : Neighbor) (ps : List Neighbor)
        → (out : List ℕ) × (prune_neighbors s sat sort_by_distance slack fuel location (p ∷ ps)
            ≡ some out)
          × (length out ≤ s.range)
          × ((i : ℕ)
              → contains out i ≡ true
              → (contains (ids (p ∷ ps)) i && not (location == i)) ≡ true)
    unfolding prune_neighbors
    prune_neighbors-IsPruned location p ps =
        let pool = sort_pool (p ∷ ps) in
        let (result, run, (few, from)) = occlude_list-IsBounded s fuel pool up enough in
        let kept = without_self location result in
        let small : length kept ≤ s.range =
          omega (arith, few, length-without_self location result) in
        let on = sat && ltb one_float s.alpha in
        let pruned : List Neighbor =
          if on then saturate s sat sort_by_distance slack fuel location kept pool else kept in
        let bound : length pruned ≤ s.range =
          ground (arith, small, length-saturate location kept pool small) in
        let origin : (i : ℕ)
            → contains (ids pruned) i ≡ true
            → (contains (ids (p ∷ ps)) i && not (location == i)) ≡ true =
          λ i c. ground (
            arith,
            c,
            contains-saturate location kept pool i,
            contains-without_self location result i,
            from i,
            contains-sort_pool (p ∷ ps) i,
          ) in
        (
          ids (sort_by_distance pruned),
          ap (pruned_of s sat sort_by_distance slack fuel location pool) run,
          rw (length-ids (sort_by_distance pruned), (keeps pruned).0) bound,
          λ i c. origin i ((keeps pruned).1 i c),
        )

    -- The new list of des: its old entries and n, or at most range of these without des.
    pub linked-IsLinked :
        (n : ℕ) (g : ℕ → List ℕ) (des : ℕ)
        → (n == des) ≡ false
        → s.range ≤ slack
        → length (g des) ≤ slack
        → (out : List ℕ) × (linked s sat sort_by_distance slack fuel n g des ≡ some out)
          × (length out ≤ slack)
          × ((i : ℕ) → contains out i ≡ true → ((n == i) || contains (g des) i) ≡ true)
    unfolding linked
    linked-IsLinked n g des ne room small = elim (Bool-cases (contains (g des) n)) [
      | inl there ↦ (g des, rw there refl, small, λ i c. ground (arith, c))
      | inr absent ↦ elim (Bool-cases (ltb (length (g des)) slack)) [
        | inl free ↦ (
          g des ++ n ∷ [],
          rw (absent, free) refl,
          ground (arith, length-append (g des) (n ∷ []), free),
          λ i c. ground (arith, contains-append (g des) (n ∷ []) i, c),
        )
        | inr full ↦
            let all = g des ++ n ∷ [] in
            let here : contains all n ≡ true = ground (arith, contains-append (g des) (n ∷ []) n) in
            let (p, ps, e) = dummy_pool-some des n [] all ne refl here in
            let (out, run, few, from) = prune_neighbors-IsPruned des p ps in
            (
              out,
              rw (absent, full)
                  (ap (prune_neighbors s sat sort_by_distance slack fuel des) e ∙ run),
              omega (arith, few, room),
              λ i c. ground (
                arith,
                from i c,
                ap (λ (xs : List Neighbor). contains (ids xs) i) e,
                contains-dummy_pool des [] all i,
                contains-append (g des) (n ∷ []) i,
              ),
            )
      ]
    ]
