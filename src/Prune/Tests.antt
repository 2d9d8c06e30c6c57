-- ===== src/Prune/Tests.antt =====
-- Runs of the pruning on three points, with halves in place of the steps of alpha.
use hvs_disk.Base.{
  refl, ℕ, suc, ◌+◌, ◌-◌, ◌*◌, ◌/◌, one_float, ◌≤◌, ◌≡◌, List, [], ◌∷◌, some, arith, length,
}
use hvs_disk.Prune.Delta.{
  TriangleNeighbor, IsWithout, delta_prune_neighbors_pq, delta_prune_neighbors_pq-removes_one,
}
use hvs_disk.Prune.Occlude.Full.{prune_neighbors-IsBounded}
use hvs_disk.Prune.Occlude.{prune_neighbors, Neighbor, Setting, occlude_list_pq, prune_neighbors_pq}
use hvs_disk.Prune.Occlude.Bounds.{ids, IsFrom, prune_neighbors_pq-IsBounded}

abbrev triangle : List TriangleNeighbor
triangle =
    record { id = 4; tgt_dis = 2; distance = 1 }
    ∷ record { id = 5; tgt_dis = 0; distance = 2 }
    ∷ record { id = 6; tgt_dis = 1; distance = 3 }
    ∷ []

abbrev apart : ℕ → ℕ → ℕ
apart x y = 7

delta_prune_neighbors_pq-removes_one_example :
    (e : ℕ) × (out : List ℕ) × (delta_prune_neighbors_pq apart
        (λ x y. x)
        (λ x. x - 1)
        1
        5
        4
        triangle
        1
      ≡ some out)
    × (suc (length out) ≡ 3)
    × IsWithout (4 ∷ 5 ∷ 6 ∷ []) e out
delta_prune_neighbors_pq-removes_one_example =
    delta_prune_neighbors_pq-removes_one apart (λ x y. x) (λ x. x - 1) 1 5 4 triangle 1
      (omega arith) (λ x h k. omega (arith, h)) (omega arith) (omega arith)

abbrev pool : List Neighbor
pool =
    record { id = 4; distance = 4 }
    ∷ record { id = 5; distance = 5 }
    ∷ record { id = 14; distance = 6 }
    ∷ []

-- 1.2 as a float, and the step of alpha from 1 to 1.2.
abbrev alpha_max : ℕ
alpha_max = 1067030938

abbrev setting : Setting
setting = record {
  range = 3;
  maxc = 10;
  alpha = alpha_max;
  pq_dist = λ x y. (x - y) + (y - x);
  div = λ x y. x * one_float / y;
  grow = λ x. x + 1677722;
}

-- The rounds with alpha 1 and 1.2 leave 5 out, which is near to 4; the fill adds it.
occluded :
    occlude_list_pq setting 3 pool
    ≡ some (record { id = 4; distance = 4 } ∷ record { id = 14; distance = 6 } ∷ [])
unfolding occlude_list_pq
occluded = refl

filled : prune_neighbors_pq setting 3 pool ≡ some (4 ∷ 14 ∷ 5 ∷ [])
unfolding prune_neighbors_pq
filled = refl

prune_neighbors_pq-IsBounded_example :
    (out : List ℕ) × (prune_neighbors_pq setting (alpha_max + 1) pool ≡ some out)
    × (length out ≤ 3)
    × IsFrom out (ids pool)
prune_neighbors_pq-IsBounded_example =
    prune_neighbors_pq-IsBounded setting (alpha_max + 1) pool (λ x h k. omega arith) (omega arith)

prune_neighbors-IsBounded_example :
    (out : List ℕ) × (prune_neighbors setting (λ ps. ps) (alpha_max + 1) 4 pool ≡ some out)
    × (length out ≤ 3)
    × IsFrom out (ids pool)
prune_neighbors-IsBounded_example =
    prune_neighbors-IsBounded setting (λ ps. ps) (alpha_max + 1) 4 pool (λ x h k. omega arith)
      (omega arith) (λ ps. (refl, λ i c. c))
