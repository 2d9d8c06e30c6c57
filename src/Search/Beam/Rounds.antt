-- ===== src/Search/Beam/Rounds.antt =====
-- The search loop ends, and its result is closed under the neighbours of what it has expanded.
use native.Mathlib.Nat.{mul-le-mul_right, suc-mul}
use mathlib.Core.List.{append_assoc}
use hvs_disk.Base.{
  ℕ, zero, suc, ◌+◌, ◌-◌, ◌*◌, ◌≤◌, ◌<◌, ◌≡◌, ◌⊎◌, refl, sym, ap, ◌∙◌, inl, inr, List, [], ◌∷◌,
  ◌++◌, some, true, false, arith, ltb, leb, if◌then◌else◌, length, take, map, contains,
  contains-append, All, All-weaken, All-append, Bool-cases,
}
use hvs_disk.Search.{Neighbor, next_beam}
use hvs_disk.Search.Entries.{ids_of}
use hvs_disk.Search.Expand.{IsCandidates, flagged}
use hvs_disk.Search.Beam.{Searched, drop, with_dists, expand_all, beam_of, marked, search_loop}
use hvs_disk.Search.Beam.Nearest.{IsNearest}
use hvs_disk.Search.Beam.Potential.{
  potential, AreDone, Settles, Settles-trans, expand-Settles, flagged-front,
}
use hvs_disk.Search.Beam.Marks.{
  Alike-length, Alike-ids_of, Alike-IsAscending, Alike-AreSeen, Alike-IsNearest, marks, marks-Alike,
  marks-AreDone, marks-flagged, marks-front,
}

ids_of-append : (xs ys : List Neighbor) → ids_of (xs ++ ys) ≡ ids_of xs ++ ids_of ys
ids_of-append [] ys = refl
ids_of-append (x ∷ xs) ys = ap (λ (is : List ℕ). x.id ∷ is) (ids_of-append xs ys)

append_nil : (xs : List ℕ) → xs ++ [] ≡ xs
append_nil [] = refl
append_nil (x ∷ xs) = ap (λ (is : List ℕ). x ∷ is) (append_nil xs)

-- Every neighbour of every id has been seen.
abbrev pub AreClosed : (ℕ → List ℕ) → List ℕ → List ℕ → Type 0
AreClosed node_nbrs visited done =
    All (λ (i : ℕ). All (λ (n : ℕ). contains visited n ≡ true) (node_nbrs i)) done

AreClosed-more :
    (node_nbrs : ℕ → List ℕ) (v w done : List ℕ)
    → ((a : ℕ) → contains v a ≡ true → contains w a ≡ true)
    → AreClosed node_nbrs v done
    → AreClosed node_nbrs w done
AreClosed-more node_nbrs v w done f = All-weaken _ _ done (λ i. All-weaken _ _ (node_nbrs i) f)

module _ (l_search cur_id : ℕ) (stale : Neighbor) (node_nbrs : ℕ → List ℕ) (dist exact : ℕ → ℕ)
    (small : (i : ℕ) → All (λ (n : ℕ). n ≤ cur_id) (node_nbrs i)) where
  with_dists-small :
      (ns : List ℕ)
      → All (λ (n : ℕ). n ≤ cur_id) ns
      → All (λ (n : ℕ × ℕ). (n.0 ≤ cur_id) × (n.1 ≡ dist n.0)) (map (λ (i : ℕ). (i, dist i)) ns)
  with_dists-small [] a = tt
  with_dists-small (n ∷ ns) a = ((a.0, refl), with_dists-small ns a.1)

  with_dists-seen :
      (v ns : List ℕ)
      → All (λ (n : ℕ × ℕ). contains v n.0 ≡ true) (map (λ (i : ℕ). (i, dist i)) ns)
      → All (λ (n : ℕ). contains v n ≡ true) ns
  with_dists-seen v [] a = tt
  with_dists-seen v (n ∷ ns) a = (a.0, with_dists-seen v ns a.1)

  -- What the expansion of a frontier does.
  record Expands (ids : List ℕ) (s t : Searched) : Type 0 where
    cands : IsCandidates l_search cur_id stale t.candidates
    keeps :
        (a : ℕ) → contains s.candidates.visited a ≡ true → contains t.candidates.visited a ≡ true
    best : t.candidates.nk ≤ s.candidates.nk
    settles : Settles l_search cur_id stale dist s.candidates t.candidates
    full : ids_of t.full_retset ≡ ids_of s.full_retset ++ ids
    closed : AreClosed node_nbrs t.candidates.visited ids
    idle : ids ≡ [] → t ≡ s

  expand_all-Expands :
      (beam_width : ℕ) (ids : List ℕ) (s : Searched)
      → IsCandidates l_search cur_id stale s.candidates
      → (t : Searched) × (expand_all l_search cur_id beam_width stale node_nbrs dist exact ids s
          ≡ some t)
        × Expands ids s t
  unfolding expand_all
  expand_all-Expands w [] s c = (
    s,
    refl,
    record {
      cands = c;
      keeps = λ a x. x;
      best = omega arith;
      settles = record {
        falls = omega arith;
        front = λ j lt e. e;
        done = λ ids x. x;
        nearest = λ near. near;
      };
      full = sym (append_nil (ids_of s.full_retset));
      closed = tt;
      idle = λ e. refl;
    },
  )
  expand_all-Expands w (id ∷ ids) s c =
      let nbrs = with_dists l_search cur_id w stale node_nbrs dist exact (node_nbrs id) in
      let (d, run, cd, adv, settled, seen) =
        expand-Settles l_search cur_id stale dist nbrs s.candidates
          (with_dists-small (node_nbrs id) (small id)) c in
      let s1 : Searched = record {
        candidates = d;
        full_retset = s.full_retset ++ record { id = id; distance = exact id; flag = true } ∷ [];
      } in
      let (t, run', ex) = expand_all-Expands w ids s1 cd in
      (
        t,
        rw (expand_all, run) run',
        record {
          cands = ex.cands;
          keeps = λ a x. ex.keeps a (adv.keeps a x);
          best = omega (arith, ex.best, adv.best);
          settles =
              Settles-trans l_search cur_id stale dist s.candidates d t.candidates ex.best settled
                ex.settles;
          full =
              ex.full
              ∙ ap (λ (is : List ℕ). is ++ ids) (ids_of-append s.full_retset _)
              ∙ append_assoc (ids_of s.full_retset) (id ∷ []) ids;
          closed = (
            All-weaken _ _ (node_nbrs id) ex.keeps (with_dists-seen d.visited (node_nbrs id) seen),
            ex.closed,
          );
          idle = λ e. absurd (ground (arith, e));
        },
      )

  -- The state at the top of the loop: entries before k have no flag, entries without a flag have been
  -- expanded, all neighbours of the expanded nodes have been seen, and the candidates are the nearest
  -- of the ids seen.
  pub record IsRound (k : ℕ) (s : Searched) : Type 0 where
    pub cands : IsCandidates l_search cur_id stale s.candidates
    pub front : flagged (take k s.candidates.retset) ≡ 0
    pub done : AreDone (ids_of s.full_retset) s.candidates.retset
    pub closed : AreClosed node_nbrs s.candidates.visited (ids_of s.full_retset)
    pub nearest : IsNearest l_search cur_id stale dist s.candidates.visited s.candidates.retset

  marked-IsCandidates :
      (w k : ℕ) (s : Searched)
      → IsCandidates l_search cur_id stale s.candidates
      → IsCandidates l_search cur_id stale
          (marked l_search cur_id w stale node_nbrs dist exact k s).candidates
  marked-IsCandidates w k s c =
      let xs = s.candidates.retset in
      let alike = marks-Alike w k xs in
      let len = Alike-length (marks w k xs) xs alike in
      record {
        some_entry = omega (arith, len, c.some_entry);
        bounded = omega (arith, len, c.bounded);
        ascending = Alike-IsAscending (marks w k xs) xs _ alike c.ascending;
        seen = Alike-AreSeen s.candidates.visited (marks w k xs) xs alike c.seen;
        distinct = rw (Alike-ids_of (marks w k xs) xs alike) c.distinct;
      }

  abbrev pub measure : ℕ → Searched → ℕ
  measure k s =
      potential l_search cur_id stale s.candidates * suc l_search + (length s.candidates.retset - k)

  abbrev next_k : ℕ → Searched → ℕ
  next_k k t = if leb t.candidates.nk k then t.candidates.nk else k + 1

  -- A round with an expansion lowers the potential, and one without moves k on.
  measure-falls :
      (w k : ℕ) (s t : Searched)
      → k < length s.candidates.retset
      → Expands
          (beam_of l_search cur_id (suc w) stale node_nbrs dist exact k s)
          (marked l_search cur_id (suc w) stale node_nbrs dist exact k s)
          t
      → measure (next_k k t) t < measure k s
  measure-falls w k s t lt ex =
      let xs = s.candidates.retset in
      let p = potential l_search cur_id stale s.candidates in
      let pt = potential l_search cur_id stale t.candidates in
      let split = marks-flagged (suc w) k xs in
      let len = Alike-length (marks (suc w) k xs) xs (marks-Alike (suc w) k xs) in
      elim (list-cases (next_beam (suc w) (drop k xs)).0) [
        | inl none_left ↦
            let same = ex.idle none_left in
            let on : leb (length xs) k ≡ false = ground (arith, lt) in
            let whole : flagged (marks (suc w) k xs) ≡ flagged xs =
              omega (arith, split, ap length none_left) in
            rw (same, on, len, whole) (omega (arith, lt))
        | inr some_left ↦
            let less : suc pt ≤ p = omega (arith, ex.settles.falls, split, some_left) in
            let scaled = mul-le-mul_right (suc l_search) less in
            omega (arith, scaled, suc-mul pt (suc l_search), ex.cands.bounded)
      ]
    where
      list-cases : (is : List ℕ) → (is ≡ []) ⊎ (0 < length is)
      list-cases [] = inl refl
      list-cases (i ∷ is) = inr (omega arith)

  IsRound-IsRound :
      (w k : ℕ) (s t : Searched)
      → k < length s.candidates.retset
      → IsRound k s
      → Expands
          (beam_of l_search cur_id (suc w) stale node_nbrs dist exact k s)
          (marked l_search cur_id (suc w) stale node_nbrs dist exact k s)
          t
      → IsRound (next_k k t) t
  IsRound-IsRound w k s t lt r ex =
      let xs = s.candidates.retset in
      let beam = (next_beam (suc w) (drop k xs)).0 in
      let old = ids_of s.full_retset in
      let cleared : flagged (take (next_k k t) (marks (suc w) k xs)) ≡ 0 =
        flagged-front (next_k k t) (suc k) (marks (suc w) k xs) (ground arith)
          (marks-front w k xs lt r.front) in
      record {
        cands = ex.cands;
        front = ex.settles.front (next_k k t) (ground arith) cleared;
        done = rw ex.full (
            ex.settles.done (old ++ beam) (
              marks-AreDone (suc w) k xs old (old ++ beam)
                (λ a c. ground (arith, contains-append old beam a, c))
                (λ a c. ground (arith, contains-append old beam a, c)) r.done));
        nearest = ex.settles.nearest (
            Alike-IsNearest l_search cur_id stale dist s.candidates.visited (marks (suc w) k xs) xs
              (marks-Alike (suc w) k xs) r.nearest);
        closed = rw ex.full (
            All-append _ old beam
              (AreClosed-more node_nbrs s.candidates.visited t.candidates.visited old ex.keeps
                r.closed)
              ex.closed);
      }

  pub search_loop-ends :
      (w fuel k : ℕ) (s : Searched)
      → measure k s < fuel
      → IsRound k s
      → (t : Searched) × (l : ℕ) × (search_loop l_search cur_id
            (suc w)
            stale
            node_nbrs
            dist
            exact
            fuel
            k
            s
          ≡ some t)
        × IsRound l t
        × (length t.candidates.retset ≤ l)
  unfolding search_loop
  search_loop-ends w zero k s enough r = absurd (omega (arith, enough))
  search_loop-ends w (suc fuel) k s enough r =
      elim (Bool-cases (ltb k (length s.candidates.retset))) [
        | inr over ↦ (s, k, rw (search_loop, over) refl, r, ground (arith, over))
        | inl more ↦
            let lt : k < length s.candidates.retset = ground (arith, more) in
            let (t, run, ex) =
              expand_all-Expands (suc w)
                (beam_of l_search cur_id (suc w) stale node_nbrs dist exact k s)
                (marked l_search cur_id (suc w) stale node_nbrs dist exact k s)
                (marked-IsCandidates (suc w) k s r.cands) in
            let (u, l, run', ru, out) =
              search_loop-ends w fuel (next_k k t) t
                (omega (arith, measure-falls w k s t lt ex, enough))
                (IsRound-IsRound w k s t lt r ex) in
            (u, l, rw (search_loop, more, run) run', ru, out)
      ]
