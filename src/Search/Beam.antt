-- ===== src/Search/Beam.antt =====
-- The loop of do_beam_search in src/search/beam_search.cpp for one query, without dyn_search_l and
-- without a limit of time. What is read from disk, the neighbours of a node, and the distances are
-- functions of the ids.
pub mod Nearest
pub mod Potential
pub mod Marks
pub mod Rounds
pub mod Whole
use hvs_disk.Base.{
  ℕ, zero, suc, ◌+◌, List, [], ◌∷◌, ◌++◌, Option, none, some, true, false, ltb, leb, if◌then◌else◌,
  length, map, take,
}
use hvs_disk.Search.{Neighbor, Candidates, expand, next_beam}

abbrev pub drop : ℕ → List Neighbor → List Neighbor
drop zero xs = xs
drop (suc n) [] = []
drop (suc n) (x ∷ xs) = drop n xs

-- The candidates and the expanded nodes, in the order of their expansion.
pub record Searched : Type 0 where
  pub candidates : Candidates
  pub full_retset : List Neighbor

module _ (l_search cur_id beam_width : ℕ) (stale : Neighbor) (node_nbrs : ℕ → List ℕ)
    (dist exact : ℕ → ℕ) where
  abbrev pub with_dists : List ℕ → List (ℕ × ℕ)
  with_dists ids = map (λ (i : ℕ). (i, dist i)) ids

  -- The nodes of the frontier in order.
  unfoldable pub expand_all : List ℕ → Searched → Option Searched
  expand_all [] s = some s
  expand_all (id ∷ ids) s =
      elim (expand l_search cur_id stale (with_dists (node_nbrs id)) s.candidates) [
        | none ↦ none
        | some c ↦ expand_all ids (record {
          candidates = c;
          full_retset = s.full_retset ++ record { id = id; distance = exact id; flag = true } ∷ [];
        })
      ]

  -- The next frontier from index k on, and the state in which it is expanded.
  abbrev pub beam_of : ℕ → Searched → List ℕ
  beam_of k s = (next_beam beam_width (drop k s.candidates.retset)).0

  abbrev pub marked : ℕ → Searched → Searched
  marked k s =
      let c = s.candidates in
      record s {
        candidates = record c {
          retset = take k c.retset ++ (next_beam beam_width (drop k c.retset)).1;
          nk = length c.retset;
        };
      }

  -- The loop, on fuel.
  unfoldable pub search_loop : ℕ → ℕ → Searched → Option Searched
  unfolding expand_all
  search_loop zero k s = none
  search_loop (suc fuel) k s =
      if ltb k (length s.candidates.retset)
      then elim (expand_all (beam_of k s) (marked k s)) [
        | none ↦ none
        | some t ↦ let nk = t.candidates.nk in search_loop fuel (if leb nk k then nk else k + 1) t
      ]
      else some s

  -- The search from the medoid; mem_L is 0.
  abbrev pub started : ℕ → Searched
  started best_medoid = record {
    candidates = record {
      retset = record { id = best_medoid; distance = dist best_medoid; flag = true } ∷ [];
      visited = best_medoid ∷ [];
      nk = 0;
    };
    full_retset = [];
  }

  unfoldable pub beam_search : ℕ → ℕ → Option Searched
  unfolding search_loop
  beam_search fuel best_medoid = search_loop fuel 0 (started best_medoid)
