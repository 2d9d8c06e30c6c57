-- ===== src/Search/Beam/Whole.antt =====
-- do_beam_search as a whole.
use native.Mathlib.Nat.{mul-le-mul_right}
use hvs_disk.Base.{
  ℕ, zero, suc, ◌+◌, ◌*◌, ◌≤◌, ◌<◌, ◌≡◌, refl, inl, List, [], ◌∷◌, some, true, arith, length, take,
  contains, All,
}
use hvs_disk.Base.Unseen.{unseen-le}
use hvs_disk.Search.{Neighbor, no_entry}
use hvs_disk.Search.Narrow.{IsAscending}
use hvs_disk.Search.Entries.{ids_of}
use hvs_disk.Search.Expand.{IsCandidates, flagged}
use hvs_disk.Search.Beam.{Searched, started, beam_search}
use hvs_disk.Search.Beam.Nearest.{IsNearest}
use hvs_disk.Search.Beam.Potential.{potential, AreDone}
use hvs_disk.Search.Beam.Rounds.{AreClosed, IsRound, search_loop-ends}

flagged-all :
    (l : ℕ) (xs : List Neighbor) → length xs ≤ l → flagged (take l xs) ≡ 0 → flagged xs ≡ 0
flagged-all zero [] le e = refl
flagged-all zero (x ∷ xs) le e = absurd (omega (arith, le))
flagged-all (suc l) [] le e = refl
flagged-all (suc l) (x ∷ xs) le e =
    omega (arith, e, flagged-all l xs (omega (arith, le)) (omega (arith, e)))

AreDone-all :
    (done : List ℕ) (xs : List Neighbor)
    → flagged xs ≡ 0
    → AreDone done xs
    → All (λ (x : Neighbor). contains done x.id ≡ true) xs
AreDone-all done [] e a = tt
AreDone-all done (x ∷ xs) e a = (ground (arith, e, a.0), AreDone-all done xs (omega (arith, e)) a.1)

module _ (l_search cur_id : ℕ) (stale : Neighbor) (node_nbrs : ℕ → List ℕ)
    (dist exact : ℕ → ℕ) where
  -- The result of a search: candidates in order and without repetitions, all of them expanded; all
  -- neighbours of every expanded node have been seen.
  pub record IsResult (t : Searched) : Type 0 where
    pub cands : IsCandidates l_search cur_id stale t.candidates
    pub expanded :
        All (λ (x : Neighbor). contains (ids_of t.full_retset) x.id ≡ true) t.candidates.retset
    pub closed : AreClosed node_nbrs t.candidates.visited (ids_of t.full_retset)
    pub nearest : IsNearest l_search cur_id stale dist t.candidates.visited t.candidates.retset

  -- On a graph whose ids are at most cur_id, with l_search and beam_width positive, the search from
  -- any medoid ends: (cur_id + 3) * (l_search + 1) + 2 rounds are enough. Its candidates are 1 to
  -- l_search, in order of distance, with distinct ids, each has been expanded, every neighbour of every
  -- expanded node has been seen, and every id that was seen is a candidate or not nearer than the last
  -- of l_search candidates.
  pub beam_search-IsResult :
      (w fuel best_medoid : ℕ)
      → ((i : ℕ) → All (λ (n : ℕ). n ≤ cur_id) (node_nbrs i))
      → 0 < l_search
      → (cur_id + 3) * suc l_search + 2 ≤ fuel
      → (t : Searched) × (beam_search l_search cur_id
            (suc w)
            stale
            node_nbrs
            dist
            exact
            fuel
            best_medoid
          ≡ some t)
        × IsResult t
  unfolding beam_search
  beam_search-IsResult w fuel best_medoid small pos enough =
      let s = started l_search cur_id (suc w) stale node_nbrs dist exact best_medoid in
      let few = unseen-le (suc cur_id) (best_medoid ∷ []) in
      let potential_few : potential l_search cur_id stale s.candidates ≤ cur_id + 3 =
        omega (arith, few) in
      let scaled = mul-le-mul_right (suc l_search) potential_few in
      let begun : IsRound l_search cur_id stale node_nbrs dist exact small 0 s = record {
        cands = record {
          some_entry = omega arith;
          bounded = omega (arith, pos);
          ascending = alone (record { id = best_medoid; distance = dist best_medoid; flag = true });
          seen = (ground arith, tt);
          distinct = (refl, tt);
        };
        front = refl;
        done = (inl refl, tt);
        closed = tt;
        nearest = record { exact = (refl, tt); nearest = λ v seen. inl seen };
      } in
      let (t, l, run, r, out) =
        search_loop-ends l_search cur_id stale node_nbrs dist exact small w fuel 0 s
          (omega (arith, scaled, enough)) begun in
      (
        t,
        run,
        record {
          cands = r.cands;
          expanded =
              AreDone-all (ids_of t.full_retset) t.candidates.retset
                (flagged-all l t.candidates.retset out r.front) r.done;
          closed = r.closed;
          nearest = r.nearest;
        },
      )
    where
      alone : (x : Neighbor) → IsAscending (x ∷ []) no_entry
      alone x zero zero le lt = omega arith
      alone x (suc i) zero le lt = absurd (omega (arith, le))
      alone x i (suc j) le lt = absurd (omega (arith, lt))
