-- ===== src/Search/Beam/Potential.antt =====
-- What one neighbour of an expanded node does to the flags of the candidates and to the ids seen.
use hvs_disk.Base.{
  ℕ, zero, suc, ◌+◌, ◌≤◌, ◌≡◌, ◌⊎◌, refl, ap, inl, inr, List, [], ◌∷◌, some, true, false, arith,
  ltb, ◌==◌, if◌then◌else◌, length, take, contains, All, Bool-cases,
}
use hvs_disk.Base.Unseen.{unseen, unseen-visit}
use hvs_disk.Search.{Neighbor, Candidates, insert_at, grown, expand}
use hvs_disk.Search.Pool.{length-insert_at}
use hvs_disk.Search.Entries.{All-insert_at, All-take}
use hvs_disk.Search.Beam.Nearest.{IsNearest, Visits-IsNearest}
use hvs_disk.Search.Expand.{
  IsCandidates, flagged, fresh, Visits, old, far, new, visit-Visits, Visits-IsCandidates,
  Visits-Advances, Advances,
}

flagged-insert_at :
    (r : ℕ) (nn : Neighbor) (xs : List Neighbor)
    → r ≤ length xs
    → nn.flag ≡ true
    → flagged (insert_at r nn xs) ≡ suc (flagged xs)
flagged-insert_at zero nn xs le f = ground (arith, f)
flagged-insert_at (suc r) nn [] le f = absurd (omega (arith, le))
flagged-insert_at (suc r) nn (x ∷ xs) le f =
    omega (arith, flagged-insert_at r nn xs (omega (arith, le)) f)

pub flagged-take : (n : ℕ) (xs : List Neighbor) → flagged (take n xs) ≤ flagged xs
flagged-take zero xs = omega arith
flagged-take (suc n) [] = omega arith
flagged-take (suc n) (x ∷ xs) = omega (arith, flagged-take n xs)

pub flagged-front :
    (j i : ℕ) (xs : List Neighbor) → j ≤ i → flagged (take i xs) ≡ 0 → flagged (take j xs) ≡ 0
flagged-front zero i xs le e = refl
flagged-front (suc j) zero xs le e = absurd (omega (arith, le))
flagged-front (suc j) (suc i) [] le e = refl
flagged-front (suc j) (suc i) (x ∷ xs) le e =
    omega (arith, e, flagged-front j i xs (omega (arith, le)) (omega (arith, e)))

-- An insertion from j on leaves the entries before j alone, and so does a cut.
take-insert_at :
    (j r : ℕ) (nn : Neighbor) (xs : List Neighbor)
    → j ≤ r
    → r ≤ length xs
    → take j (insert_at r nn xs) ≡ take j xs
take-insert_at zero r nn xs le fits = refl
take-insert_at (suc j) zero nn xs le fits = absurd (omega (arith, le))
take-insert_at (suc j) (suc r) nn [] le fits = absurd (omega (arith, fits))
take-insert_at (suc j) (suc r) nn (x ∷ xs) le fits =
    ap (λ (ys : List Neighbor). x ∷ ys)
      (take-insert_at j r nn xs (omega (arith, le)) (omega (arith, fits)))

flagged-take-take :
    (j n : ℕ) (xs : List Neighbor) → flagged (take j xs) ≡ 0 → flagged (take j (take n xs)) ≡ 0
flagged-take-take zero n xs e = refl
flagged-take-take (suc j) zero xs e = refl
flagged-take-take (suc j) (suc n) [] e = refl
flagged-take-take (suc j) (suc n) (x ∷ xs) e =
    omega (arith, e, flagged-take-take j n xs (omega (arith, e)))

-- Entries without their flag have been expanded.
abbrev pub AreDone : List ℕ → List Neighbor → Type 0
AreDone done xs = All (λ (x : Neighbor). (x.flag ≡ true) ⊎ (contains done x.id ≡ true)) xs

module _ (l_search cur_id : ℕ) (stale : Neighbor) where
  abbrev pub potential : Candidates → ℕ
  potential s = flagged s.retset + unseen (suc cur_id) s.visited

module _ (l_search cur_id : ℕ) (stale : Neighbor) (dist : ℕ → ℕ) where
  -- The flags and the ids seen never add up to more; entries before every insertion keep their flags;
  -- entries without a flag have been expanded;
  -- the candidates stay the nearest of the ids seen.
  pub record Settles (s t : Candidates) : Type 0 where
    pub falls : potential l_search cur_id stale t ≤ potential l_search cur_id stale s
    pub front : (j : ℕ) → j ≤ t.nk → flagged (take j s.retset) ≡ 0 → flagged (take j t.retset) ≡ 0
    pub done : (ids : List ℕ) → AreDone ids s.retset → AreDone ids t.retset
    pub nearest :
        IsNearest l_search cur_id stale dist s.visited s.retset
        → IsNearest l_search cur_id stale dist t.visited t.retset

  grown-cases :
      (s : Candidates) (xs : List Neighbor)
      → length xs ≡ suc (length s.retset)
      → (grown l_search cur_id stale (length s.retset) xs ≡ xs)
        ⊎ (grown l_search cur_id stale (length s.retset) xs ≡ take (length s.retset) xs)
  grown-cases s xs len = elim (Bool-cases (ltb (length s.retset) l_search)) [
    | inl room ↦
        let more : (length xs == length s.retset) ≡ false = ground (arith, len) in
        inl (rw (room, more) refl)
    | inr full ↦ inr (rw full refl)
  ]

  pub Visits-Settles :
      {id d : ℕ} {s t : Candidates}
      → id ≤ cur_id
      → d ≡ dist id
      → IsCandidates l_search cur_id stale s
      → Visits l_search cur_id stale id d s t
      → Settles s t
  Visits-Settles le e0 c (old seen) = record {
    falls = omega arith;
    front = λ j lt e. e;
    done = λ ids a. a;
    nearest = λ near. near;
  }
  Visits-Settles {id} {d} {s} le e0 c (far fresh_id late) = record {
    falls = omega (arith, unseen-visit (suc cur_id) id s.visited (omega (arith, le)) fresh_id);
    front = λ j lt e. e;
    done = λ ids a. a;
    nearest = Visits-IsNearest l_search cur_id stale dist e0 c (far fresh_id late);
  }
  Visits-Settles {id} {d} {s} le e0 c (new r fresh_id ins) =
      let xs = insert_at r (fresh l_search cur_id stale id d) s.retset in
      let more =
        flagged-insert_at r (fresh l_search cur_id stale id d) s.retset ins.in_range refl in
      let less = unseen-visit (suc cur_id) id s.visited (omega (arith, le)) fresh_id in
      let keeps : (j : ℕ)
          → j ≤ (if ltb r s.nk then r else s.nk)
          → flagged (take j s.retset) ≡ 0
          → flagged (take j xs) ≡ 0 =
        λ j lt e.
          let same =
            take-insert_at j r (fresh l_search cur_id stale id d) s.retset (ground (arith, lt))
              ins.in_range in
          rw same e in
      elim (grown-cases s xs
        (length-insert_at r (fresh l_search cur_id stale id d) s.retset ins.in_range)) [
          | inl whole ↦ record {
            falls = rw whole (omega (arith, more, less));
            front = λ j lt e. rw whole (keeps j lt e);
            nearest = Visits-IsNearest l_search cur_id stale dist e0 c (new r fresh_id ins);
            done = λ ids a. rw whole (All-insert_at _ r _ s.retset a (inl refl));
          }
          | inr cut ↦ record {
            falls = rw cut (omega (arith, more, less, flagged-take (length s.retset) xs));
            front = λ j lt e. rw cut (flagged-take-take j (length s.retset) xs (keeps j lt e));
            nearest = Visits-IsNearest l_search cur_id stale dist e0 c (new r fresh_id ins);
            done = λ ids a.
                rw cut
                  (All-take _ (length s.retset) xs (All-insert_at _ r _ s.retset a (inl refl)));
          }
        ]

  pub Settles-trans : (s t u : Candidates) → u.nk ≤ t.nk → Settles s t → Settles t u → Settles s u
  Settles-trans s t u le a b = record {
    falls = omega (arith, a.falls, b.falls);
    front = λ j lt e. b.front j lt (a.front j (omega (arith, lt, le)) e);
    done = λ ids x. b.done ids (a.done ids x);
    nearest = λ near. b.nearest (a.nearest near);
  }

  -- The loop over the neighbours as a whole.
  pub expand-Settles :
      (nbrs : List (ℕ × ℕ)) (s : Candidates)
      → All (λ (n : ℕ × ℕ). (n.0 ≤ cur_id) × (n.1 ≡ dist n.0)) nbrs
      → IsCandidates l_search cur_id stale s
      → (t : Candidates) × (expand l_search cur_id stale nbrs s ≡ some t)
        × IsCandidates l_search cur_id stale t
        × Advances l_search cur_id stale s t
        × Settles s t
        × All (λ (n : ℕ × ℕ). contains t.visited n.0 ≡ true) nbrs
  unfolding expand
  expand-Settles [] s a c = (
    s,
    refl,
    c,
    record { keeps = λ b x. x; best = omega arith },
    record { falls = omega arith; front = λ j lt e. e; done = λ ids x. x; nearest = λ near. near },
    tt,
  )
  expand-Settles (n ∷ nbrs) s a c =
      let (t, run, v) = visit-Visits l_search cur_id stale n.0 n.1 s a.0.0 c in
      let (st, here) = Visits-Advances l_search cur_id stale v in
      let (u, run', cu, tu, settled, all) =
        expand-Settles nbrs t a.1 (Visits-IsCandidates l_search cur_id stale c v) in
      (
        u,
        rw (expand, run) run',
        cu,
        record { keeps = λ b x. tu.keeps b (st.keeps b x); best = omega (arith, st.best, tu.best) },
        Settles-trans s t u tu.best (Visits-Settles a.0.0 a.0.1 c v) settled,
        (tu.keeps n.0 here, all),
      )
