-- ===== src/Search/Tests.antt =====
-- Candidates of two entries.
use hvs_disk.Base.{
  ◌==◌, ◌≤◌, ◌-◌, if◌then◌else◌, Bool-cases, inl, inr, ◌↔◌, none, ℕ, zero, suc, ◌<◌, ◌≡◌, ◌⊎◌, refl,
  List, [], ◌∷◌, some, true, false, arith, length, All,
}
use hvs_disk.Search.{Neighbor, Candidates, no_entry, entry, insert_at, insert_into_pool, expand}
use hvs_disk.Search.Narrow.{IsAscending}
use hvs_disk.Search.Pool.{Inserted, insert_into_pool-Inserted}
use hvs_disk.Search.Expand.{IsCandidates}
use hvs_disk.Search.Beam.{Searched, beam_search}
use hvs_disk.Search.Beam.Whole.{IsResult, beam_search-IsResult}
use hvs_disk.Search.Crash.{too_large, expand-crash}

abbrev pool : List Neighbor
pool =
    record { id = 3; distance = 10; flag = false }
    ∷ record { id = 5; distance = 20; flag = true }
    ∷ []

abbrev tied : Neighbor
tied = record { id = 4; distance = 20; flag = true }

pool-IsAscending : (d : Neighbor) → IsAscending pool d
pool-IsAscending d zero zero le lt = omega arith
pool-IsAscending d zero (suc zero) le lt = omega arith
pool-IsAscending d (suc i) zero le lt = absurd (omega (arith, le))
pool-IsAscending d (suc zero) (suc zero) le lt = omega arith
pool-IsAscending d (suc (suc i)) (suc zero) le lt = absurd (omega (arith, le))
pool-IsAscending d i (suc (suc j)) le lt = absurd (omega (arith, lt))

insert_into_pool-Inserted_example :
    ((insert_into_pool pool tied ≡ some (pool, 3))
      × (i : ℕ) × (i < length pool)
      × ((entry pool tied i).id ≡ 4))
    ⊎ ((r : ℕ) × (insert_into_pool pool tied ≡ some (insert_at r tied pool, r))
        × Inserted pool tied r)
insert_into_pool-Inserted_example =
    insert_into_pool-Inserted pool tied (omega arith) (pool-IsAscending tied)

abbrev started : Candidates
started = record { retset = pool; visited = 5 ∷ 3 ∷ []; nk = 2 }

started-IsCandidates : IsCandidates 2 9 no_entry started
started-IsCandidates = record {
  some_entry = omega arith;
  bounded = omega arith;
  ascending = pool-IsAscending no_entry;
  seen = (refl, (refl, tt));
  distinct = (refl, (refl, tt));
}

expand-crash_example :
    (expand 2 9 no_entry ((3, 10) ∷ (10, 5) ∷ []) started ≡ none)
    ↔ (too_large 9 ((3, 10) ∷ (10, 5) ∷ []) ≡ true)
expand-crash_example =
    expand-crash 2 9 no_entry ((3, 10) ∷ (10, 5) ∷ []) started started-IsCandidates

-- A triangle whose node 2 is the nearest.
abbrev triangle : ℕ → List ℕ
triangle i = if i == 0 then 1 ∷ 2 ∷ [] else if i == 1 then 0 ∷ 2 ∷ [] else 0 ∷ []

triangle-small : (i : ℕ) → All (λ (n : ℕ). n ≤ 2) (triangle i)
triangle-small i = elim (Bool-cases (i == 0)) [
  | inl first ↦ rw first (omega arith, (omega arith, tt))
  | inr other ↦ elim (Bool-cases (i == 1)) [
    | inl second ↦ rw (other, second) (omega arith, (omega arith, tt))
    | inr third ↦ rw (other, third) (omega arith, tt)
  ]
]

abbrev far_from_two : ℕ → ℕ
far_from_two i = 20 - i

beam_search-IsResult_example :
    (t : Searched) × (beam_search 2 2 2 no_entry triangle far_from_two far_from_two 17 0 ≡ some t)
    × IsResult 2 2 no_entry triangle far_from_two far_from_two t
beam_search-IsResult_example =
    beam_search-IsResult 2 2 no_entry triangle far_from_two far_from_two 1 17 0 triangle-small
      (omega arith) (omega arith)
