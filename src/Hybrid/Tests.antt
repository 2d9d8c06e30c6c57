-- ===== src/Hybrid/Tests.antt =====
-- Runs of the skyline layers and of the ranges of weights.
use hvs_disk.Base.{
  ◌%◌, All, ◌==◌, if◌then◌else◌, Bool, ◌+◌, ◌*◌, ◌/◌, ◌≤◌, ◌<◌, ltb, length, one_float, ℕ, ◌-◌, ◌≡◌,
  refl, List, [], ◌∷◌, some, true, false, arith, leb,
}
use hvs_disk.Hybrid.Skyline.{NeighborH, layered}
use hvs_disk.Hybrid.Skyline.Parts.{count_id}
use hvs_disk.Hybrid.Skyline.Layers.{IsLayered, layered-IsLayered}
use hvs_disk.Hybrid.Picking.{FloatOps, DegNeighbor, use_size, is_useful, prune_neighbors_no_opt}
use hvs_disk.Hybrid.Picking.Layer.{count_edge, AreChosen, all_weights}
use hvs_disk.Hybrid.Picking.Whole.{
  prune_neighbors_no_opt-AreChosen, prune_neighbors_no_opt-nonempty,
}
use hvs_disk.Hybrid.Link.{inter_insert}
use hvs_disk.Hybrid.Link.Graph.{IsSimple, AreBack, inter_insert-AreBack}
use hvs_disk.Hybrid.Queue.{iterate_to_fixed_point}
use hvs_disk.Hybrid.Queue.Fixed.{IsFixed, iterate_to_fixed_point-IsFixed}
use hvs_disk.Hybrid.Build.{link}
use hvs_disk.Hybrid.Build.Step.{IsGood}
use hvs_disk.Hybrid.Build.Whole.{link-IsGood}
use hvs_disk.Hybrid.Ranges.{Interval, sort_intervals, merge_intervals, get_use_range}
use hvs_disk.Hybrid.Ranges.Use.{
  inside, IsChain, IsProper, read_sorted, merge_intervals-read, get_use_range-apart,
}

abbrev pool : List NeighborH
pool =
    record { id = 1; distance1 = 5; distance2 = 1; flag = false; layer = 0 }
    ∷ record { id = 2; distance1 = 6; distance2 = 2; flag = false; layer = 0 }
    ∷ record { id = 3; distance1 = 4; distance2 = 3; flag = false; layer = 0 }
    ∷ []

layered-IsLayered_example :
    (out : List NeighborH) × (layered pool ≡ some out)
    × ((i : ℕ) → count_id i out ≡ count_id i pool)
    × IsLayered 0 out
layered-IsLayered_example = layered-IsLayered pool (omega arith, (omega arith, (omega arith, tt)))

abbrev pruned : List Interval
pruned = record { first = 30; second = 40 } ∷ record { first = 10; second = 20 } ∷ []

pruned-IsProper : IsProper pruned
pruned-IsProper = (omega arith, (omega arith, tt))

merge_intervals-read_example :
    IsChain 0 (merge_intervals pruned)
    × (inside (merge_intervals pruned) 35 ≡ inside (read_sorted (sort_intervals pruned)) 35)
merge_intervals-read_example = merge_intervals-read pruned 35 pruned-IsProper

-- The last of two pruned ranges is lost: the edge is used for a weight in which it is pruned.
lost : inside (merge_intervals pruned) 35 ≡ false
unfolding merge_intervals
lost = refl

get_use_range-apart_example : inside (merge_intervals pruned) 50 ≡ false
unfolding get_use_range merge_intervals
get_use_range-apart_example =
    get_use_range-apart (λ a b. leb 5 (b - a)) pruned 50 pruned-IsProper refl

-- Differences of two numbers, in place of floats.
abbrev differences : FloatOps
differences = record {
  F = ℕ × ℕ;
  of = λ n. (n, 0);
  add = λ x y. (x.0 + y.0, x.1 + y.1);
  sub = λ x y. (x.0 + y.1, x.1 + y.0);
  less = λ x y. ltb (x.0 + y.1) (y.0 + x.1);
  div = λ x y. ((x.0 - x.1) + (x.1 - x.0)) * one_float / ((y.0 - y.1) + (y.1 - y.0));
}

abbrev any_gap : ℕ → ℕ → Bool
any_gap a b = ltb a b

abbrev line : ℕ → ℕ → ℕ
line i j = (i - j) + (j - i)

prune_neighbors_no_opt-AreChosen_example :
    (out : List DegNeighbor) × (prune_neighbors_no_opt differences any_gap (100, 0) line line 2 pool
      ≡ some out)
    × AreChosen differences any_gap (100, 0) line line [] out
    × ((i : ℕ) → count_edge i out ≤ count_id i pool)
prune_neighbors_no_opt-AreChosen_example =
    prune_neighbors_no_opt-AreChosen differences any_gap (100, 0) line line 2 pool
      (omega arith, (omega arith, (omega arith, tt)))

all_useful :
    is_useful differences any_gap
      (100, 0)
      line
      line
      (all_weights differences any_gap (100, 0) line line)
    ≡ true
unfolding use_size get_use_range merge_intervals
all_useful = refl

prune_neighbors_no_opt-nonempty_example :
    (out : List DegNeighbor) × (prune_neighbors_no_opt differences any_gap (100, 0) line line 2 pool
      ≡ some out)
    × (0 < length out)
prune_neighbors_no_opt-nonempty_example =
    prune_neighbors_no_opt-nonempty differences any_gap (100, 0) line line 2 pool
      (omega arith, (omega arith, (omega arith, tt))) (omega arith) (omega arith) all_useful

abbrev edge : ℕ → ℕ → ℕ → DegNeighbor
edge i e s = record { id = i; emb_distance = e; geo_distance = s; available_range = []; layer = 0 }

-- Node 1 has an edge to node 2, all others have none.
abbrev small_graph : ℕ → List DegNeighbor
small_graph i = if i == 1 then edge 2 3 4 ∷ [] else []

small_graph-IsSimple : IsSimple small_graph
small_graph-IsSimple i j = ground arith

inter_insert-AreBack_example :
    (g' : ℕ → List DegNeighbor) × (inter_insert differences any_gap
        (100, 0)
        line
        line
        1
        5
        (edge 1 3 4 ∷ edge 3 5 2 ∷ [])
        small_graph
      ≡ some g')
    × AreBack 1 5 (edge 1 3 4 ∷ edge 3 5 2 ∷ []) small_graph g'
inter_insert-AreBack_example =
    inter_insert-AreBack differences any_gap (100, 0) line line 1 5 (edge 1 3 4 ∷ edge 3 5 2 ∷ [])
      small_graph (refl, (refl, tt)) small_graph-IsSimple
      (((omega arith, tt), omega arith), ((tt, omega arith), tt))

-- A ring of four nodes.
abbrev ring : ℕ → List ℕ
ring i = (i + 1) % 4 ∷ []

ring-valid : (i : ℕ) → All (λ (n : ℕ). n < 4) (ring i)
ring-valid i = (omega arith, tt)

iterate_to_fixed_point-IsFixed_example :
    (out : List NeighborH) × (seen : List ℕ) × (iterate_to_fixed_point ring
        (λ i. i % 3)
        (λ i. i % 2)
        4
        2
        (0 ∷ [])
      ≡ some (out, seen))
    × IsFixed ring (λ i. i % 3) (λ i. i % 2) 4 (λ i. omega arith) ring-valid (0 ∷ []) out seen
iterate_to_fixed_point-IsFixed_example =
    iterate_to_fixed_point-IsFixed ring (λ i. i % 3) (λ i. i % 2) 4 (λ i. omega arith) ring-valid 2
      (0 ∷ []) (omega arith, tt)

no_edges-IsGood : IsGood 4 (λ i. [])
no_edges-IsGood = record { simple = λ i j. omega arith; no_self = λ j. refl; nodes = λ j. tt }

link-IsGood_example :
    (g' : ℕ → List DegNeighbor) × (link differences any_gap
        (100, 0)
        (λ i j. (i + j) % 4)
        line
        4
        3
        2
        0
        (λ i. i)
        (λ i. 4 - i)
        4
        (λ i. [])
      ≡ some g')
    × IsGood 4 g'
link-IsGood_example =
    link-IsGood differences any_gap (100, 0) (λ i j. (i + j) % 4) line 4 3 2 0 (λ i j. omega arith)
      (omega arith) (λ i. i) (λ i. 4 - i) 4 (λ i. []) (omega arith) no_edges-IsGood
