-- ===== src/Memory/Tests.antt =====
-- Concrete runs.
use hvs_disk.Base.{
  one_float, ◌*◌, ℕ, ◌≤◌, length, contains, ◌||◌, if◌then◌else◌, ◌+◌, ◌/◌, ◌≡◌, ◌<◌, refl, List, [],
  ◌∷◌, Option, none, some, true, false, arith, ◌==◌, Bool-cases, inl, inr,
}
use hvs_disk.Base.Int.{pos}
use hvs_disk.Base.HashMap.{assoc_map, assoc_iterates, assoc_find}
use hvs_disk.Base.HashSet.{list_set, Distinct}
use hvs_disk.Memory.{Memory, created, enable_delete, lazy_delete_all}
use hvs_disk.Memory.Compaction.{consolidate}
use hvs_disk.Memory.Calls.{insert_tag, delete_tag, delete_tags, compact, run, Call}
use hvs_disk.Prune.Occlude.{Setting, sort_pool, insert_pool, alphas, pass, raise}
use hvs_disk.Memory.Graph.{repair}
use hvs_disk.Memory.Graph.Repair.{IsRepaired}
use hvs_disk.Memory.Graph.Whole.{repair-IsClean}
use hvs_disk.Memory.Link.{inter_insert}
use hvs_disk.Memory.Link.Reverse.{AreLinked, inter_insert-AreLinked}
use hvs_disk.Memory.Valid.{IsValid}
use hvs_disk.Memory.Delete.Many.{IsDone, lazy_delete_all-IsDone}
use hvs_disk.Memory.Packed.{IsCompacted}
use hvs_disk.Memory.Consolidate.{AreRenamed, consolidate-IsCompacted}
use hvs_disk.Memory.Renamed.{IsSettled}
use hvs_disk.Memory.Runs.{active, tags_after, run-IsValid}

-- The memory of the runs.
abbrev Slots : Type 0
Slots = Memory list_set (assoc_map ℕ)

-- The search gives the frozen point only, and every point leads to it only.
abbrev start_only : Slots → ℕ → List ℕ
start_only d l = d.max_points ∷ []

-- A search that finds nothing.
abbrev nothing : Slots → ℕ → List ℕ
nothing d l = []

start_only-IsSettled :
    (d : Slots)
    → IsValid list_set (assoc_map ℕ) d
    → IsSettled list_set (assoc_map ℕ) d (start_only d)
start_only-IsSettled d v l on = (ground arith, tt)

abbrev half_more : ℕ → ℕ
half_more n = n + n / 2

-- The third insertion finds the index full, and the last one takes a place again.
abbrev calls : List Call
calls =
    insert_tag 5
    ∷ insert_tag 6
    ∷ insert_tag 7
    ∷ delete_tags (5 ∷ 9 ∷ [])
    ∷ compact
    ∷ insert_tag 8
    ∷ delete_tag 6
    ∷ []

half_more-large : (n : ℕ) → 1 < n → n < half_more n
half_more-large n lt = omega (arith, lt)

run-IsValid_example :
    (e : Memory list_set (assoc_map ℕ)) × (run list_set
        (assoc_map ℕ)
        assoc_iterates
        half_more
        start_only
        start_only
        (enable_delete list_set (assoc_map ℕ) (created list_set (assoc_map ℕ) 2 true true)).1
        calls
      ≡ some e)
    × IsValid list_set (assoc_map ℕ) e
    × ((j : ℕ) → active list_set (assoc_map ℕ) assoc_iterates e j ≡ tags_after (λ i. false) calls j)
run-IsValid_example =
    run-IsValid list_set (assoc_map ℕ) assoc_iterates half_more start_only start_only 2 true calls
      (omega arith) (λ n lt le. half_more-large n lt) (λ d l. ground arith) start_only-IsSettled
      ((refl, (refl, tt)), tt)

-- Slot 0 is deleted, slot 1 holds tag 6, and slot 2 is empty.
abbrev partly : Memory list_set (assoc_map ℕ)
partly = record {
  nd = 2;
  max_points = 3;
  dynamic_index = true;
  enable_tags = true;
  eager_done = false;
  lazy_done = true;
  data_compacted = true;
  empty_slots = record { elems = 2 ∷ []; distinct = (refl, tt) };
  delete_set = record { elems = 0 ∷ []; distinct = (refl, tt) };
  tag_to_location = (6, 1) ∷ [];
  location_to_tag = (1, 6) ∷ [];
}

one_entry :
    (k v j w : ℕ) → assoc_find j ((k, v) ∷ []) ≡ some w → ((k == j) ≡ true) × ((v == w) ≡ true)
one_entry k v j w h = (ground (arith, h), ground (arith, h))

partly-IsValid : IsValid list_set (assoc_map ℕ) partly
partly-IsValid = record {
  enabled = refl;
  dynamic = refl;
  compacted = refl;
  eager = refl;
  lazy = λ l h. refl;
  several = omega arith;
  room = omega arith;
  empties = λ l. ground arith;
  deleted = λ l. ground arith;
  live = λ l t h. ground (arith, one_entry 1 6 l t h);
  there = λ t l h. ground (arith, one_entry 6 1 t l h);
  back = λ l t h. ground (arith, one_entry 1 6 l t h);
}

-- Node 1 leads to itself and to the frozen point 3, which leads to node 1.
abbrev chain : ℕ → List ℕ
chain i = if i == 1 then 1 ∷ 3 ∷ [] else if i == 3 then 1 ∷ [] else 0 ∷ []

chain-IsSettled : IsSettled list_set (assoc_map ℕ) partly chain
chain-IsSettled l on = elim (Bool-cases (l == 1)) [
  | inl one ↦ rw one (refl, (refl, tt))
  | inr other ↦
      let frozen : (l == 3) ≡ true = ground (arith, on, other) in rw (other, frozen) (refl, tt)
]

consolidate-IsCompacted_example :
    (g' : ℕ → List ℕ) × (e : Slots) × (consolidate list_set
        (assoc_map ℕ)
        assoc_iterates
        3
        chain
        partly
      ≡ some (3, (g', e)))
    × IsCompacted list_set (assoc_map ℕ) assoc_iterates partly e
    × AreRenamed list_set (assoc_map ℕ) assoc_iterates partly chain g'
consolidate-IsCompacted_example =
    consolidate-IsCompacted list_set (assoc_map ℕ) assoc_iterates partly 3 chain partly-IsValid refl
      chain-IsSettled

-- Node 1 moves to slot 0, and the ids in the lists with it.
abbrev lists_of : Option (ℕ × ((ℕ → List ℕ) × Slots)) → List (List ℕ)
lists_of none = []
lists_of (some r) = r.1.0 0 ∷ r.1.0 1 ∷ r.1.0 3 ∷ []

consolidate-lists :
    lists_of (consolidate list_set (assoc_map ℕ) assoc_iterates 3 chain partly)
    ≡ (0 ∷ 3 ∷ []) ∷ [] ∷ (0 ∷ []) ∷ []
unfolding consolidate
consolidate-lists = refl

-- A neighbour that goes makes compact_data crash, and so does a start node without a replacement.
consolidate-crashes :
    (consolidate list_set (assoc_map ℕ) assoc_iterates 3 (λ i. 0 ∷ []) partly ≡ none)
    × (consolidate list_set (assoc_map ℕ) assoc_iterates 0 chain partly ≡ none)
unfolding consolidate
consolidate-crashes = (refl, refl)

lazy_delete_all-IsDone_example :
    ((lazy_delete_all list_set (assoc_map ℕ) partly (6 ∷ 9 ∷ []) []).0 ≡ pos 0)
    × IsDone list_set
        (assoc_map ℕ)
        partly
        (6 ∷ 9 ∷ [])
        []
        (lazy_delete_all list_set (assoc_map ℕ) partly (6 ∷ 9 ∷ []) []).1
lazy_delete_all-IsDone_example =
    lazy_delete_all-IsDone list_set (assoc_map ℕ) partly (6 ∷ 9 ∷ []) partly-IsValid
      (refl, (refl, tt))

-- The slots after the calls: tag 7 moved to slot 1, and tag 8 took slot 2.
abbrev slots_of : Option (Memory list_set (assoc_map ℕ)) → List (ℕ × ℕ) × (List ℕ × List ℕ)
slots_of none = ([], ([], []))
slots_of (some e) = (e.tag_to_location, (e.empty_slots.elems, e.delete_set.elems))

run-calls :
    slots_of (
      run list_set
        (assoc_map ℕ)
        assoc_iterates
        half_more
        start_only
        start_only
        (enable_delete list_set (assoc_map ℕ) (created list_set (assoc_map ℕ) 2 true true)).1
        calls)
    ≡ ((8, 2) ∷ (7, 1) ∷ [], ([], 0 ∷ []))
unfolding run enable_delete
run-calls = refl

-- An insertion that finds no candidate crashes.
run-crashes :
    run list_set
      (assoc_map ℕ)
      assoc_iterates
      half_more
      nothing
      start_only
      (enable_delete list_set (assoc_map ℕ) (created list_set (assoc_map ℕ) 2 true true)).1
      calls
    ≡ none
unfolding run enable_delete
run-crashes = refl

-- 1.2 as a float, and below the step of alpha from 1 to 1.2.
abbrev alpha_max : ℕ
alpha_max = 1067030938

-- Node 0 loses its deleted neighbour 1 and gets that one's link to 3.
abbrev nearby : Setting
nearby = record {
  range = 2;
  maxc = 5;
  alpha = alpha_max;
  pq_dist = λ i j. i + j + 1;
  div = λ a b. a * one_float / b;
  grow = λ x. x + 1677722;
}

abbrev lists : ℕ → List ℕ
lists i = if i == 0 then 1 ∷ 2 ∷ [] else if i == 1 then 3 ∷ 0 ∷ [] else 0 ∷ []

-- With one more neighbour.
abbrev nearby_three : Setting
nearby_three = record nearby { range = 3 }

abbrev only : ℕ → Distinct
only k = list_set.insert k list_set.empty

repair-IsClean_example :
    (g' : ℕ → List ℕ) × (repair nearby_three list_set (only 1) (only 4) (alpha_max + 1) 5 0 lists
      ≡ some g')
    × ((j : ℕ)
        → j < 5
        → (contains (only 1).elems j || contains (only 4).elems j) ≡ false
        → IsRepaired nearby_three list_set (only 1) (only 4) (alpha_max + 1) lists j (g' j))
    × ((j : ℕ) → (contains (only 1).elems j || contains (only 4).elems j) ≡ true → g' j ≡ lists j)
repair-IsClean_example =
    repair-IsClean nearby_three list_set (only 1) (only 4) (alpha_max + 1) (λ x h k. omega arith)
      (omega arith) 5 lists

list_of : Option (ℕ → List ℕ) → ℕ → List ℕ
list_of none i = []
list_of (some g) i = g i

repaired-list : list_of (repair nearby_three list_set (only 1) (only 4) 3 5 0 lists) 0 ≡ 2 ∷ 3 ∷ []
unfolding list_of repair sort_pool insert_pool alphas pass raise
repaired-list = refl

-- The list of node 1 is full and is pruned, that of node 2 is extended.
inter_insert-AreLinked_example :
    (g' : ℕ → List ℕ) × (inter_insert nearby true (λ ps. ps) 2 (alpha_max + 1) 7 (1 ∷ 2 ∷ []) lists
      ≡ some g')
    × AreLinked nearby true
        (λ ps. ps)
        2
        (alpha_max + 1)
        (λ x h k. omega arith)
        (omega arith)
        (λ ps. (refl, λ i c. c))
        (omega arith)
        7
        (1 ∷ 2 ∷ [])
        lists
        g'
inter_insert-AreLinked_example =
    inter_insert-AreLinked nearby true (λ ps. ps) 2 (alpha_max + 1) (λ x h k. omega arith)
      (omega arith) (λ ps. (refl, λ i c. c)) (omega arith) 7 (1 ∷ 2 ∷ []) lists refl short
  where
    short : (j : ℕ) → length (lists j) ≤ 2
    short j = ground arith
