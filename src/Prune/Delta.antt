-- ===== src/Prune/Delta.antt =====
-- delta_prune_neighbors_pq: a full neighbourhood that has gained one point loses one.
use hvs_disk.Base.{
  ℕ, zero, suc, ◌+◌, ◌-◌, ◌≤◌, ◌<◌, ◌≡◌, refl, ap, inl, inr, List, [], ◌∷◌, Option, none, some,
  arith, ltb, leb, ◌==◌, if◌then◌else◌, length, get_or, map, Bool-cases, Option-cases,
}

pub record TriangleNeighbor : Type 0 where
  pub id : ℕ
  pub tgt_dis : ℕ
  pub distance : ℕ

abbrev pub nobody : TriangleNeighbor
nobody = record { id = 0; tgt_dis = 0; distance = 0 }

-- finish: the ids of all but the evicted one.
pub finish : List TriangleNeighbor → ℕ → List ℕ
finish [] to_evict = []
finish (p ∷ ps) zero = map (λ (q : TriangleNeighbor). q.id) ps
finish (p ∷ ps) (suc i) = p.id ∷ finish ps i

-- The list ys is the list xs without its entry at index i.
pub data IsWithout : List ℕ → ℕ → List ℕ → Type 0 where
  here : (x : ℕ) (xs : List ℕ) → IsWithout (x ∷ xs) 0 xs
  there : (x i : ℕ) (xs ys : List ℕ) → IsWithout xs i ys → IsWithout (x ∷ xs) (suc i) (x ∷ ys)

length-ids :
    (ps : List TriangleNeighbor) → length (map (λ (q : TriangleNeighbor). q.id) ps) ≡ length ps
length-ids [] = refl
length-ids (p ∷ ps) = ap suc (length-ids ps)

finish-IsWithout :
    (pool : List TriangleNeighbor) (e : ℕ)
    → e < length pool
    → (suc (length (finish pool e)) ≡ length pool)
      × IsWithout (map (λ (q : TriangleNeighbor). q.id) pool) e (finish pool e)
unfolding finish
finish-IsWithout [] e h = absurd (omega (arith, h))
finish-IsWithout (p ∷ ps) zero h = (omega (arith, length-ids ps), here p.id _)
finish-IsWithout (p ∷ ps) (suc e) h =
    let (count, without) = finish-IsWithout ps e (omega (arith, h)) in
    (omega (arith, count), there p.id e _ _ without)

-- The distance by product quantization and the division of floats.
module _ (pq_dist : ℕ → ℕ → ℕ) (div : ℕ → ℕ → ℕ) where
  -- One round of the fast path, from the last neighbour to the first.
  pub scan : List TriangleNeighbor → ℕ → ℕ → ℕ → Option ℕ
  scan pool tgt_idx cur_alpha zero = none
  scan pool tgt_idx cur_alpha (suc i) =
      let p = get_or pool i nobody in
      let target = get_or pool tgt_idx nobody in
      let rest = scan pool tgt_idx cur_alpha i in
      if i == tgt_idx
      then rest
      else if ltb target.distance p.distance
      then (if ltb cur_alpha (div p.distance p.tgt_dis) then some i else rest)
      else if ltb cur_alpha (div target.distance p.tgt_dis)
      then some tgt_idx
      else rest

  -- The rounds, with a smaller alpha each; the outer `none` is out of fuel.
  pub fast_path : (ℕ → ℕ) → ℕ → ℕ → List TriangleNeighbor → ℕ → ℕ → Option (Option ℕ)
  unfolding scan
  fast_path shrink limit zero pool tgt_idx cur_alpha = none
  fast_path shrink limit (suc fuel) pool tgt_idx cur_alpha =
      let rest = fast_path shrink limit fuel pool tgt_idx (shrink cur_alpha) in
      if leb limit cur_alpha
      then elim (scan pool tgt_idx cur_alpha (length pool)) [ none ↦ rest | some e ↦ some (some e) ]
      else some none

  -- The neighbours after p, the first of them at index t: one that p hides.
  pub hidden_by : ℕ → TriangleNeighbor → ℕ → List TriangleNeighbor → Option ℕ
  hidden_by alpha p t [] = none
  hidden_by alpha p t (q ∷ qs) =
      let rest = hidden_by alpha p (suc t) qs in
      if ltb alpha (div q.distance (pq_dist p.id q.id)) then some t else rest

  -- The second step: every pair whose first one is not the target.
  pub pairs : ℕ → ℕ → ℕ → List TriangleNeighbor → Option ℕ
  unfolding hidden_by
  pairs alpha tgt_idx start [] = none
  pairs alpha tgt_idx start (p ∷ ps) =
      let rest = pairs alpha tgt_idx (suc start) ps in
      if start == tgt_idx
      then rest
      else elim (hidden_by alpha p (suc start) ps) [ none ↦ rest | some t ↦ some t ]

  -- Which neighbour to evict; the third step takes the last one.
  pub to_evict : (ℕ → ℕ) → ℕ → ℕ → ℕ → List TriangleNeighbor → ℕ → Option ℕ
  unfolding fast_path pairs
  to_evict shrink limit fuel alpha pool tgt_idx =
      elim (fast_path shrink limit fuel pool tgt_idx alpha) [
        | none ↦ none
        | some (some e) ↦ some e
        | some none ↦ elim (pairs alpha tgt_idx 0 pool) [
          | none ↦ some (length pool - 1)
          | some e ↦ some e
        ]
      ]

  abbrev pub finish_at : List TriangleNeighbor → Option ℕ → Option (List ℕ)
  finish_at pool none = none
  finish_at pool (some e) = some (finish pool e)

  unfoldable pub delta_prune_neighbors_pq :
      (ℕ → ℕ) → ℕ → ℕ → ℕ → List TriangleNeighbor → ℕ → Option (List ℕ)
  unfolding to_evict finish
  delta_prune_neighbors_pq shrink limit fuel alpha pool tgt_idx =
      finish_at pool (to_evict shrink limit fuel alpha pool tgt_idx)

  scan-bound :
      (pool : List TriangleNeighbor) (tgt_idx a n e : ℕ)
      → tgt_idx < length pool
      → n ≤ length pool
      → scan pool tgt_idx a n ≡ some e
      → e < length pool
  unfolding scan
  scan-bound pool tgt_idx a zero e ht hn h = absurd (ground (arith, h))
  scan-bound pool tgt_idx a (suc n) e ht hn h =
      ground (arith, ht, hn, h, scan-bound pool tgt_idx a n e ht)

  hidden_by-bound :
      (alpha : ℕ) (p : TriangleNeighbor) (t e : ℕ) (qs : List TriangleNeighbor)
      → hidden_by alpha p t qs ≡ some e
      → e < t + length qs
  unfolding hidden_by
  hidden_by-bound alpha p t e [] h = absurd (ground (arith, h))
  hidden_by-bound alpha p t e (q ∷ qs) h = ground (arith, h, hidden_by-bound alpha p (suc t) e qs)

  pairs-bound :
      (alpha tgt_idx start e : ℕ) (ps : List TriangleNeighbor)
      → pairs alpha tgt_idx start ps ≡ some e
      → e < start + length ps
  unfolding pairs
  pairs-bound alpha tgt_idx start e [] h = absurd (ground (arith, h))
  pairs-bound alpha tgt_idx start e (p ∷ ps) h = ground (
    arith,
    h,
    pairs-bound alpha tgt_idx (suc start) e ps,
    hidden_by-bound alpha p (suc start) e ps,
  )

  -- The rounds end within their fuel, and what they find is in the pool.
  fast_path-end :
      (shrink : ℕ → ℕ) (limit fuel : ℕ) (pool : List TriangleNeighbor) (tgt_idx top a : ℕ)
      → 0 < limit
      → ((x : ℕ) → limit ≤ x → x ≤ top → shrink x < x)
      → a ≤ top
      → tgt_idx < length pool
      → a < fuel
      → (found : Option ℕ) × (fast_path shrink limit fuel pool tgt_idx a ≡ some found)
        × ((e : ℕ) → found ≡ some e → e < length pool)
  unfolding fast_path
  fast_path-end shrink limit zero pool tgt_idx top a hl hs le ht hf = absurd (omega (arith, hf))
  fast_path-end shrink limit (suc fuel) pool tgt_idx top a hl hs le ht hf =
      elim (Bool-cases (leb limit a)) [
        | inr e ↦ (none, rw e refl, λ x q. absurd (ground (arith, q)))
        | inl e ↦ elim (Option-cases (scan pool tgt_idx a (length pool))) [
          | inr (x, q) ↦
              let bound = scan-bound pool tgt_idx a (length pool) x ht (omega arith) q in
              (some x, rw (e, q) refl, λ y r. ground (arith, r, bound))
          | inl q ↦
              let down = hs a (ground (arith, e)) le in
              let (found, run, bound) =
                fast_path-end shrink limit fuel pool tgt_idx top (shrink a) hl hs
                  (omega (arith, down, le)) ht (omega (arith, down, hf)) in
              (found, rw (e, q) run, bound)
        ]
      ]

  to_evict-bound :
      (shrink : ℕ → ℕ) (limit fuel alpha : ℕ) (pool : List TriangleNeighbor) (tgt_idx : ℕ)
      → 0 < limit
      → ((x : ℕ) → limit ≤ x → x ≤ alpha → shrink x < x)
      → tgt_idx < length pool
      → alpha < fuel
      → (e : ℕ) × (to_evict shrink limit fuel alpha pool tgt_idx ≡ some e) × (e < length pool)
  unfolding to_evict
  to_evict-bound shrink limit fuel alpha pool tgt_idx hl hs ht hf =
      let (found, run, bound) =
        fast_path-end shrink limit fuel pool tgt_idx alpha alpha hl hs (omega arith) ht hf in
      elim (Option-cases found) [
        | inr (e, q) ↦ (e, rw (run, to_evict, q) refl, bound e q)
        | inl q ↦ elim (Option-cases (pairs alpha tgt_idx 0 pool)) [
          | inl r ↦ (length pool - 1, rw (run, to_evict, q, r) refl, omega (arith, ht))
          | inr (e, r) ↦ (
            e,
            rw (run, to_evict, q, r) refl,
            omega (arith, pairs-bound alpha tgt_idx 0 e pool r),
          )
        ]
      ]

  -- For a target in the pool, where the step of alpha makes every alpha from the limit to the first
  -- one smaller and the fuel is beyond alpha: the function returns, and the new list is that of all
  -- ids of the pool, in their order, without exactly one of them. So a pool of range + 1 points
  -- leaves range.
  pub delta_prune_neighbors_pq-removes_one :
      (shrink : ℕ → ℕ) (limit fuel alpha : ℕ) (pool : List TriangleNeighbor) (tgt_idx : ℕ)
      → 0 < limit
      → ((x : ℕ) → limit ≤ x → x ≤ alpha → shrink x < x)
      → tgt_idx < length pool
      → alpha < fuel
      → (e : ℕ) × (out : List ℕ) × (delta_prune_neighbors_pq shrink limit fuel alpha pool tgt_idx
          ≡ some out)
        × (suc (length out) ≡ length pool)
        × IsWithout (map (λ (q : TriangleNeighbor). q.id) pool) e out
  unfolding delta_prune_neighbors_pq
  delta_prune_neighbors_pq-removes_one shrink limit fuel alpha pool tgt_idx hl hs ht hf =
      let (e, run, bound) = to_evict-bound shrink limit fuel alpha pool tgt_idx hl hs ht hf in
      let (count, without) = finish-IsWithout pool e bound in
      (e, finish pool e, ap (finish_at pool) run, count, without)
