-- ===== src/Search/Crash.antt =====
-- When the loop over the neighbours of a node crashes.
use hvs_disk.Base.{
  ℕ, ◌≤◌, ◌≡◌, ◌↔◌, refl, sym, ◌∙◌, inl, inr, List, [], ◌∷◌, none, Bool, true, false, arith, ltb,
  ◌||◌, All, Bool-cases,
}
use hvs_disk.Search.{Neighbor, Candidates, visit, expand}
use hvs_disk.Search.Expand.{IsCandidates, visit-IsCandidates, expand-IsCandidates}

-- An id beyond the last that has been given out.
abbrev pub too_large : ℕ → List (ℕ × ℕ) → Bool
too_large cur_id [] = false
too_large cur_id (n ∷ nbrs) = ltb cur_id n.0 || too_large cur_id nbrs

all-small :
    (cur_id : ℕ) (nbrs : List (ℕ × ℕ))
    → too_large cur_id nbrs ≡ false
    → All (λ (n : ℕ × ℕ). n.0 ≤ cur_id) nbrs
all-small cur_id [] e = tt
all-small cur_id (n ∷ nbrs) e = (ground (arith, e), all-small cur_id nbrs (ground (arith, e)))

module _ (l_search cur_id : ℕ) (stale : Neighbor) where
  crashes :
      (nbrs : List (ℕ × ℕ)) (s : Candidates)
      → IsCandidates l_search cur_id stale s
      → too_large cur_id nbrs ≡ true
      → expand l_search cur_id stale nbrs s ≡ none
  unfolding expand visit
  crashes [] s c e = absurd (ground (arith, e))
  crashes (n ∷ nbrs) s c e = elim (Bool-cases (ltb cur_id n.0)) [
    | inl large ↦ rw (expand, visit, large) refl
    | inr small ↦
        let (t, run, ct, st, here) =
          visit-IsCandidates l_search cur_id stale n.0 n.1 s (ground (arith, small)) c in
        rw (expand, run) (crashes nbrs t ct (ground (arith, e, small)))
  ]

  -- From 1 to l_search candidates in order, with distinct ids that have been seen, the loop crashes if
  -- and only if a neighbour's id is larger than cur_id, whether or not it has been seen.
  pub expand-crash :
      (nbrs : List (ℕ × ℕ)) (s : Candidates)
      → IsCandidates l_search cur_id stale s
      → (expand l_search cur_id stale nbrs s ≡ none) ↔ (too_large cur_id nbrs ≡ true)
  expand-crash nbrs s c = (
    λ stop. elim (Bool-cases (too_large cur_id nbrs)) [
      | inl large ↦ large
      | inr small ↦
          let (t, run, ct, st, all) =
            expand-IsCandidates l_search cur_id stale nbrs s (all-small cur_id nbrs small) c in
          absurd (ground (arith, sym run ∙ stop))
    ],
    crashes nbrs s c,
  )
