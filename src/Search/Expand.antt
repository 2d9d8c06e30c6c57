-- ===== src/Search/Expand.antt =====
-- The loop over the neighbours of a node keeps the candidates a short list, in order and without
-- repetitions; the choice of the next beam.
use hvs_disk.Base.{
  ℕ, zero, suc, ◌+◌, ◌-◌, ◌≤◌, ◌<◌, ◌≡◌, refl, ap, inl, inr, List, [], ◌∷◌, some, true, false,
  arith, ltb, leb, ◌==◌, ◌&&◌, if◌then◌else◌, length, get_or, take, min, All, contains, IsDistinct,
  Bool-cases,
}
use hvs_disk.Search.{Neighbor, insert_at, Candidates, no_entry, grown, visit, expand, next_beam}
use hvs_disk.Search.Narrow.{IsAscending}
use hvs_disk.Search.Pool.{length-insert_at, Inserted, insert_into_pool-Inserted}
use hvs_disk.Search.Entries.{
  get_or-default, get_or-take, length-take, ids_of, insert_at-IsDistinct, take-IsDistinct, AreSeen,
  All-insert_at, All-take, AreSeen-more, unseen-absent, entry-contains,
}

pub default-IsAscending :
    (xs : List Neighbor) (d e : Neighbor) → IsAscending xs d → IsAscending xs e
default-IsAscending xs d e asc i j le lt =
    rw (get_or-default xs i e d (omega (arith, le, lt)), get_or-default xs j e d lt) (asc i j le lt)

take-IsAscending :
    (n : ℕ) (xs : List Neighbor) (d : Neighbor)
    → n ≤ length xs
    → IsAscending xs d
    → IsAscending (take n xs) d
take-IsAscending n xs d fits asc i j le lt =
    let len = length-take n xs fits in
    let hj : j < n = omega (arith, lt, len) in
    rw (get_or-take n i xs d (omega (arith, le, hj)), get_or-take n j xs d hj)
      (asc i j le (omega (arith, hj, fits)))

module _ (l_search cur_id : ℕ) (stale : Neighbor) where
  pub record IsCandidates (s : Candidates) : Type 0 where
    pub some_entry : 0 < length s.retset
    pub bounded : length s.retset ≤ l_search
    pub ascending : IsAscending s.retset no_entry
    pub seen : AreSeen s.visited s.retset
    pub distinct : IsDistinct (ids_of s.retset)

  -- The entries in use after an insertion.
  grown-IsCandidates :
      (s : Candidates) (nn : Neighbor) (r nk : ℕ)
      → IsCandidates s
      → contains s.visited nn.id ≡ false
      → Inserted s.retset nn r
      → IsCandidates (record {
        retset = grown l_search cur_id stale (length s.retset) (insert_at r nn s.retset);
        visited = nn.id ∷ s.visited;
        nk = nk;
      })
  grown-IsCandidates s nn r nk c new ins =
      let xs = insert_at r nn s.retset in
      let size = length s.retset in
      let len = length-insert_at r nn s.retset ins.in_range in
      let asc = default-IsAscending xs nn no_entry ins.ascending in
      let seen =
        All-insert_at (λ (x : Neighbor). contains (nn.id ∷ s.visited) x.id ≡ true) r nn s.retset
          (AreSeen-more s.visited nn.id s.retset c.seen) (ground arith) in
      let distinct =
        insert_at-IsDistinct r nn s.retset ins.in_range c.distinct
          (unseen-absent s.visited nn.id s.retset c.seen new) in
      elim (Bool-cases (ltb size l_search)) [
        | inl room ↦
            let more : (length xs == size) ≡ false = ground (arith, len) in
            rw (room, more)
              (record {
                some_entry = omega (arith, len);
                bounded = ground (arith, room, len);
                ascending = asc;
                seen = seen;
                distinct = distinct;
              })
        | inr full ↦
            let cut = length-take size xs (omega (arith, len)) in
            rw full (record {
              some_entry = omega (arith, cut, c.some_entry);
              bounded = omega (arith, cut, c.bounded);
              ascending = take-IsAscending size xs no_entry (omega (arith, len)) asc;
              seen = All-take _ size xs seen;
              distinct = take-IsDistinct size xs distinct;
            })
      ]

  -- What a step has done for the ids seen and the best index.
  pub record Advances (s t : Candidates) : Type 0 where
    pub keeps : (a : ℕ) → contains s.visited a ≡ true → contains t.visited a ≡ true
    pub best : t.nk ≤ s.nk

  abbrev pub fresh : ℕ → ℕ → Neighbor
  fresh id dist = record { id = id; distance = dist; flag = true }

  -- The entry is inserted at r.
  abbrev pub placed : ℕ → ℕ → ℕ → Candidates → Candidates
  placed id dist r s = record {
    retset = grown l_search cur_id stale (length s.retset) (insert_at r (fresh id dist) s.retset);
    visited = id ∷ s.visited;
    nk = if ltb r s.nk then r else s.nk;
  }

  -- A neighbour was seen before, or is too far, or is inserted.
  pub data Visits (id dist : ℕ) (s : Candidates) : Candidates → Type 0 where
    old : contains s.visited id ≡ true → Visits id dist s s
    far :
        contains s.visited id ≡ false
        → (leb (get_or s.retset (length s.retset - 1) no_entry).distance dist
            && (length s.retset == l_search))
          ≡ true
        → Visits id dist s (record s { visited = id ∷ s.visited })
    new :
        (r : ℕ)
        → contains s.visited id ≡ false
        → Inserted s.retset (fresh id dist) r
        → Visits id dist s (placed id dist r s)

  pub visit-Visits :
      (id dist : ℕ) (s : Candidates)
      → id ≤ cur_id
      → IsCandidates s
      → (t : Candidates) × (visit l_search cur_id stale id dist s ≡ some t) × Visits id dist s t
  unfolding visit
  visit-Visits id dist s le c =
      let known : ltb cur_id id ≡ false = ground (arith, le) in
      let nn = fresh id dist in
      let worst = (get_or s.retset (length s.retset - 1) no_entry).distance in
      elim (Bool-cases (contains s.visited id)) [
        | inl seen ↦ (s, rw (visit, known, seen) refl, old seen)
        | inr unseen ↦ elim (Bool-cases (leb worst dist && (length s.retset == l_search))) [
          | inl late ↦ (_, rw (visit, known, unseen, late) refl, far unseen late)
          | inr close ↦
              elim (insert_into_pool-Inserted s.retset nn c.some_entry
                (default-IsAscending s.retset no_entry nn c.ascending)) [
                  | inl (run, i, li, e) ↦
                      let here = entry-contains s.retset i id nn li e in
                      absurd
                        (ground (arith, here, unseen-absent s.visited id s.retset c.seen unseen))
                  | inr (r, run, ins) ↦
                      (_, rw (visit, known, unseen, close, run) refl, new r unseen ins)
                ]
        ]
      ]

  pub Visits-IsCandidates :
      {id dist : ℕ} {s t : Candidates} → IsCandidates s → Visits id dist s t → IsCandidates t
  Visits-IsCandidates c (old seen) = c
  Visits-IsCandidates {id} {dist} {s} c (far unseen late) = record {
    some_entry = c.some_entry;
    bounded = c.bounded;
    ascending = c.ascending;
    seen = AreSeen-more s.visited id s.retset c.seen;
    distinct = c.distinct;
  }
  Visits-IsCandidates {id} {dist} {s} c (new r unseen ins) =
      grown-IsCandidates s (fresh id dist) r (if ltb r s.nk then r else s.nk) c unseen ins

  pub Visits-Advances :
      {id dist : ℕ} {s t : Candidates}
      → Visits id dist s t
      → Advances s t × (contains t.visited id ≡ true)
  Visits-Advances (old seen) = (record { keeps = λ a x. x; best = omega arith }, seen)
  Visits-Advances (far unseen late) =
      (record { keeps = λ a x. ground (arith, x); best = omega arith }, ground arith)
  Visits-Advances {id} {dist} {s} (new r unseen ins) =
      (record { keeps = λ a x. ground (arith, x); best = ground arith }, ground arith)

  pub visit-IsCandidates :
      (id dist : ℕ) (s : Candidates)
      → id ≤ cur_id
      → IsCandidates s
      → (t : Candidates) × (visit l_search cur_id stale id dist s ≡ some t)
        × IsCandidates t
        × Advances s t
        × (contains t.visited id ≡ true)
  visit-IsCandidates id dist s le c =
      let (t, run, v) = visit-Visits id dist s le c in
      let (st, here) = Visits-Advances v in (t, run, Visits-IsCandidates c v, st, here)

  -- From a list of 1 to l_search candidates, in order of distance, with distinct ids that have been
  -- seen, the loop over neighbours with ids up to cur_id ends without a crash in such a list again;
  -- all these ids and those seen before are seen then, and the best index has not grown.
  pub expand-IsCandidates :
      (nbrs : List (ℕ × ℕ)) (s : Candidates)
      → All (λ (n : ℕ × ℕ). n.0 ≤ cur_id) nbrs
      → IsCandidates s
      → (t : Candidates) × (expand l_search cur_id stale nbrs s ≡ some t)
        × IsCandidates t
        × Advances s t
        × All (λ (n : ℕ × ℕ). contains t.visited n.0 ≡ true) nbrs
  unfolding expand
  expand-IsCandidates [] s a c = (s, refl, c, record { keeps = λ b x. x; best = omega arith }, tt)
  expand-IsCandidates (n ∷ nbrs) s a c =
      let (t, run, ct, st, here) = visit-IsCandidates n.0 n.1 s a.0 c in
      let (u, run', cu, tu, all) = expand-IsCandidates nbrs t a.1 ct in
      (
        u,
        rw (expand, run) run',
        cu,
        record { keeps = λ b x. tu.keeps b (st.keeps b x); best = omega (arith, st.best, tu.best) },
        (tu.keeps n.0 here, all),
      )

-- The entries that are still to be expanded.
abbrev pub flagged : List Neighbor → ℕ
flagged [] = 0
flagged (x ∷ xs) = (if x.flag then 1 else 0) + flagged xs

-- The beam takes as many of the flagged entries as it is wide, or all of them, and clears exactly
-- their flags; so with a width of at least one every round makes progress while an entry is flagged.
pub next_beam-flagged :
    (beam_width : ℕ) (xs : List Neighbor)
    → (length (next_beam beam_width xs).0 ≡ min beam_width (flagged xs))
      × (flagged (next_beam beam_width xs).1 + length (next_beam beam_width xs).0 ≡ flagged xs)
      × (ids_of (next_beam beam_width xs).1 ≡ ids_of xs)
unfolding next_beam
next_beam-flagged zero [] = (omega arith, refl, refl)
next_beam-flagged (suc w) [] = (omega arith, refl, refl)
next_beam-flagged zero (x ∷ xs) = (omega arith, omega arith, refl)
next_beam-flagged (suc w) (x ∷ xs) = elim (Bool-cases x.flag) [
  | inl marked ↦
      let (n, f, e) = next_beam-flagged w xs in
      rw marked (omega (arith, n), omega (arith, f), ap (λ (ys : List ℕ). x.id ∷ ys) e)
  | inr skip ↦
      let (n, f, e) = next_beam-flagged (suc w) xs in
      rw skip (omega (arith, n), omega (arith, f), ap (λ (ys : List ℕ). x.id ∷ ys) e)
]
