-- ===== src/Prune/Occlude/Bounds.antt =====
-- What the pruning leaves: it ends, at most range neighbours are left, and all come from the pool.
use hvs_disk.Base.{
  ℕ, zero, suc, ◌+◌, ◌≤◌, ◌<◌, ◌≡◌, refl, ap, ◌∙◌, inl, inr, List, [], ◌∷◌, ◌++◌, some, true, arith,
  ltb, leb, min, ◌==◌, ◌&&◌, ◌||◌, length, get_or, map, replicate, Bool-cases, contains,
  contains-append, length-append, one_float,
}
use hvs_disk.Prune.Occlude.{
  Neighbor, no_neighbor, set_insert, Picked, Setting, pass, alphas, occlude_list_pq, fill,
  fill_above_one, prune_neighbors_pq,
}

abbrev pub ids : List Neighbor → List ℕ
ids ps = map (λ (p : Neighbor). p.id) ps

pub length-ids : (ps : List Neighbor) → length (ids ps) ≡ length ps
length-ids [] = refl
length-ids (p ∷ ps) = ap suc (length-ids ps)

pub length-set_insert :
    (p : Neighbor) (ps : List Neighbor) → length (set_insert p ps) ≤ suc (length ps)
unfolding set_insert
length-set_insert p [] = omega arith
length-set_insert p (q ∷ qs) = ground (arith, length-set_insert p qs)

pub contains-set_insert :
    (p : Neighbor) (ps : List Neighbor) (i : ℕ)
    → contains (ids (set_insert p ps)) i ≡ true
    → (p.id == i) || contains (ids ps) i ≡ true
unfolding set_insert
contains-set_insert p [] i h = h
contains-set_insert p (q ∷ qs) i h = ground (arith, h, contains-set_insert p qs i)

contains-get_or :
    (ps : List Neighbor) (k i : ℕ)
    → k < length ps
    → ((get_or ps k no_neighbor).id == i) ≡ true
    → contains (ids ps) i ≡ true
contains-get_or [] k i h e = absurd (omega (arith, h))
contains-get_or (p ∷ ps) zero i h e = ground (arith, e)
contains-get_or (p ∷ ps) (suc k) i h e = ground (arith, contains-get_or ps k i (omega (arith, h)) e)

-- The ids of the first list are among those of the second.
abbrev pub IsFrom : List ℕ → List ℕ → Type 0
IsFrom xs ys = (i : ℕ) → contains xs i ≡ true → contains ys i ≡ true

module _ (s : Setting) where
  -- At most range neighbours, all of the pool.
  abbrev pub IsBounded : List Neighbor → List Neighbor → Type 0
  IsBounded pool result = (length result ≤ s.range) × IsFrom (ids result) (ids pool)

-- The loops keep the bound, whatever way of adding a neighbour to the result adds at most that one.
module _ (s : Setting) (add : Neighbor → List Neighbor → List Neighbor)
    (grows : (p : Neighbor) (ps : List Neighbor) → length (add p ps) ≤ suc (length ps))
    (from : (p : Neighbor) (ps : List Neighbor) (i : ℕ)
      → contains (ids (add p ps)) i ≡ true
      → (p.id == i) || contains (ids ps) i ≡ true) where
  add-IsBounded :
      (pool result : List Neighbor) (k : ℕ)
      → k < length pool
      → ltb (length result) s.range ≡ true
      → IsBounded s pool result
      → IsBounded s pool (add (get_or pool k no_neighbor) result)
  add-IsBounded pool result k h room b =
      let p = get_or pool k no_neighbor in
      (
        ground (arith, room, grows p result),
        λ i c. ground (arith, from p result i c, b.1 i, contains-get_or pool k i h),
      )

  pass-IsBounded :
      (pool : List Neighbor) (a n start : ℕ) (st : Picked)
      → start + n ≤ length pool
      → IsBounded s pool st.result_set
      → IsBounded s pool (pass s add pool a n start st).result_set
  unfolding pass
  pass-IsBounded pool a zero start st h b = b
  pass-IsBounded pool a (suc n) start st h b =
      let h' : suc start + n ≤ length pool = omega (arith, h) in
      elim (Bool-cases (ltb (length st.result_set) s.range)) [
        | inr full ↦ rw full b
        | inl room ↦ elim (Bool-cases (ltb a (get_or st.occlude_factor start 0))) [
          | inl hidden ↦ rw (room, hidden) (pass-IsBounded pool a n (suc start) st h' b)
          | inr shown ↦
              rw (room, shown)
                (pass-IsBounded pool a n (suc start) _ h'
                  (add-IsBounded pool st.result_set start (omega (arith, h)) room b))
        ]
      ]

  pub alphas-IsBounded :
      (fuel : ℕ) (pool : List Neighbor) (a : ℕ) (st : Picked)
      → ((x : ℕ) → one_float ≤ x → x ≤ s.alpha → x < s.grow x)
      → one_float ≤ a
      → suc s.alpha < a + fuel
      → 0 < fuel
      → IsBounded s pool st.result_set
      → (result : List Neighbor) × (alphas s add fuel pool a st ≡ some result)
        × IsBounded s pool result
  unfolding alphas
  alphas-IsBounded zero pool a st g pa m pf b = absurd (omega (arith, pf))
  alphas-IsBounded (suc fuel) pool a st g pa m pf b =
      elim (Bool-cases (leb a s.alpha && ltb (length st.result_set) s.range)) [
        | inr done ↦ (st.result_set, rw done refl, b)
        | inl more ↦
            let up = g a pa (ground (arith, more)) in
            let (result, run, ok) =
              alphas-IsBounded fuel pool (s.grow a)
                (pass s add pool a (min (length pool) s.maxc) 0 st) g (omega (arith, pa, up))
                (omega (arith, up, m)) (ground (arith, more, m))
                (pass-IsBounded pool a (min (length pool) s.maxc) 0 st (omega arith) b) in
            (result, rw more run, ok)
      ]

module _ (s : Setting) where
  fill-bound :
      (xs : List ℕ) (ps : List Neighbor) → length xs ≤ s.range → length (fill s xs ps) ≤ s.range
  unfolding fill
  fill-bound xs [] h = h
  fill-bound xs (p ∷ ps) h =
      ground (
        arith,
        h,
        fill-bound xs ps h,
        fill-bound (xs ++ p.id ∷ []) ps,
        length-append xs (p.id ∷ []),
      )

  fill-IsFrom :
      (xs : List ℕ) (ps : List Neighbor) (i : ℕ)
      → contains (fill s xs ps) i ≡ true
      → contains xs i || contains (ids ps) i ≡ true
  unfolding fill
  fill-IsFrom xs [] i h = ground (arith, h)
  fill-IsFrom xs (p ∷ ps) i h = ground (
    arith,
    h,
    fill-IsFrom xs ps i,
    fill-IsFrom (xs ++ p.id ∷ []) ps i,
    contains-append xs (p.id ∷ []) i,
  )

  -- Where the step of alpha makes every alpha from 1 up to the largest one larger, and with fuel beyond
  -- alpha, the function returns: at most range ids, all of them ids of the pool.
  pub prune_neighbors_pq-IsBounded :
      (fuel : ℕ) (pool : List Neighbor)
      → ((x : ℕ) → one_float ≤ x → x ≤ s.alpha → x < s.grow x)
      → s.alpha < fuel
      → (out : List ℕ) × (prune_neighbors_pq s fuel pool ≡ some out)
        × (length out ≤ s.range)
        × IsFrom out (ids pool)
  unfolding prune_neighbors_pq occlude_list_pq
  prune_neighbors_pq-IsBounded fuel pool g m =
      let start : Picked = record { result_set = []; occlude_factor = replicate (length pool) 0 } in
      let (result, run, (few, origin)) =
        alphas-IsBounded s set_insert length-set_insert contains-set_insert fuel pool one_float
          start g (omega arith) (omega (arith, m)) (omega (arith, m))
          (omega arith, λ i c. absurd (ground (arith, c))) in
      let few' : length (ids result) ≤ s.range = rw (length-ids result) few in
      elim (Bool-cases (ltb one_float s.alpha)) [
        | inr plain ↦ (ids result, ap (fill_above_one s pool) run ∙ rw plain refl, few', origin)
        | inl above ↦ (
          fill s (ids result) pool,
          ap (fill_above_one s pool) run ∙ rw above refl,
          fill-bound (ids result) pool few',
          λ i c. ground (arith, fill-IsFrom (ids result) pool i c, origin i),
        )
      ]
