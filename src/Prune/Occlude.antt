-- ===== src/Prune/Occlude.antt =====
-- occlude_list_pq and prune_neighbors_pq: the robust pruning of a sorted pool. A std::set of
-- Neighbor is a sorted list without equivalent entries.
pub mod Bounds
pub mod Full
use hvs_disk.Base.{
  ◌*◌, ◌/◌, ◌&&◌, suc, ℕ, zero, suc, ◌+◌, ◌-◌, ◌≤◌, ◌<◌, ◌≡◌, refl, sym, ap, ◌∙◌, inl, inr, ◌⊎◌,
  List, [], ◌∷◌, ◌++◌, Option, none, some, Bool, true, false, arith, ltb, leb, min, max, ◌==◌, ◌&&◌,
  ◌||◌, if◌then◌else◌, length, get_or, set, map, replicate, contains, max_float, one_float,
}

pub record Neighbor : Type 0 where
  pub id : ℕ
  pub distance : ℕ

abbrev pub no_neighbor : Neighbor
no_neighbor = record { id = 0; distance = 0 }

-- `<` of Neighbor
unfoldable pub pool_lt : Neighbor → Neighbor → Bool
pool_lt a b = ltb a.distance b.distance || ((a.distance == b.distance) && ltb a.id b.id)

-- std::set::insert: an equivalent entry stays.
unfoldable pub set_insert : Neighbor → List Neighbor → List Neighbor
unfolding pool_lt
set_insert p [] = p ∷ []
set_insert p (q ∷ qs) =
    let rest = set_insert p qs in
    if pool_lt p q then p ∷ q ∷ qs else if pool_lt q p then q ∷ rest else q ∷ qs

-- result_set and occlude_factor.
pub record Picked : Type 0 where
  pub result_set : List Neighbor
  pub occlude_factor : List ℕ

-- range, maxc and alpha of the index; the distance, the division and the growth of alpha.
pub record Setting : Type 0 where
  pub range : ℕ
  pub maxc : ℕ
  pub alpha : ℕ
  pub pq_dist : ℕ → ℕ → ℕ
  pub div : ℕ → ℕ → ℕ
  pub grow : ℕ → ℕ

module _ (s : Setting) where
  -- The loop over t: n rounds from the index t on.
  unfoldable pub raise : List Neighbor → Neighbor → ℕ → ℕ → List ℕ → List ℕ
  raise pool p zero t factors = factors
  raise pool p (suc n) t factors =
      let f = get_or factors t 0 in
      let q = get_or pool t no_neighbor in
      let new = max f (s.div q.distance (s.pq_dist p.id q.id)) in
      raise pool p n (suc t) (if ltb s.alpha f then factors else set factors t new)

  -- The loop over start, where `add` puts a neighbour into the result; below min(pool.size(), maxc): n rounds from the index start on.
  unfoldable pub pass :
      (Neighbor → List Neighbor → List Neighbor) → List Neighbor → ℕ → ℕ → ℕ → Picked → Picked
  unfolding raise
  pass add pool cur_alpha zero start st = st
  pass add pool cur_alpha (suc n) start st =
      let p = get_or pool start no_neighbor in
      let factors = set st.occlude_factor start max_float in
      let took : Picked = record {
        result_set = add p st.result_set;
        occlude_factor = raise pool p n (suc start) factors;
      } in
      let hidden = ltb cur_alpha (get_or st.occlude_factor start 0) in
      let rest = pass add pool cur_alpha n (suc start) (if hidden then st else took) in
      if ltb (length st.result_set) s.range then rest else st

  -- The loop over alpha; `none` is out of fuel.
  unfoldable pub alphas :
      (Neighbor → List Neighbor → List Neighbor)
      → ℕ
      → List Neighbor
      → ℕ
      → Picked
      → Option (List Neighbor)
  unfolding pass
  alphas add zero pool cur_alpha st = none
  alphas add (suc fuel) pool cur_alpha st =
      let st' = pass add pool cur_alpha (min (length pool) s.maxc) 0 st in
      let rest = alphas add fuel pool (s.grow cur_alpha) st' in
      if leb cur_alpha s.alpha && ltb (length st.result_set) s.range
      then rest
      else some st.result_set

  unfoldable pub occlude_list_pq : ℕ → List Neighbor → Option (List Neighbor)
  unfolding alphas set_insert
  occlude_list_pq fuel pool =
      alphas set_insert fuel pool one_float
        (record { result_set = []; occlude_factor = replicate (length pool) 0 })

  -- The fill up to range for an alpha above 1.
  pub fill : List ℕ → List Neighbor → List ℕ
  fill ids [] = ids
  fill ids (p ∷ ps) =
      let more = fill (if contains ids p.id then ids else ids ++ p.id ∷ []) ps in
      if ltb (length ids) s.range then more else ids

  abbrev pub fill_above_one : List Neighbor → Option (List Neighbor) → Option (List ℕ)
  fill_above_one pool none = none
  fill_above_one pool (some result) =
      let ids = map (λ (p : Neighbor). p.id) result in
      some (if ltb one_float s.alpha then fill ids pool else ids)

  -- For a pool that is not empty; the result of an empty one is the caller's list, as it was.
  unfoldable pub prune_neighbors_pq : ℕ → List Neighbor → Option (List ℕ)
  unfolding occlude_list_pq fill
  prune_neighbors_pq fuel pool = fill_above_one pool (occlude_list_pq fuel pool)

unfoldable pub insert_pool : Neighbor → List Neighbor → List Neighbor
unfolding pool_lt
insert_pool p [] = p ∷ []
insert_pool p (q ∷ qs) = let rest = insert_pool p qs in if pool_lt q p then q ∷ rest else p ∷ q ∷ qs

unfoldable pub sort_pool : List Neighbor → List Neighbor
unfolding insert_pool
sort_pool [] = []
sort_pool (p ∷ ps) = insert_pool p (sort_pool ps)

-- The medoid is dropped where it stands after the threshold.
pub drop_medoid : ℕ → ℕ → ℕ → List Neighbor → List Neighbor
drop_medoid medoid threshold i [] = []
drop_medoid medoid threshold i (p ∷ ps) =
    let rest = drop_medoid medoid threshold (suc i) ps in
    if ltb threshold i && (p.id == medoid) then rest else p ∷ rest

abbrev pub holds_id : List Neighbor → ℕ → Bool
holds_id [] i = false
holds_id (p ∷ ps) i = (p.id == i) || holds_id ps i

-- prune_neighbors, with distances of full vectors. The last sort is by the distance alone, so where
-- distances tie its order is not determined: a parameter.
module _ (s : Setting) (sort_by_distance : List Neighbor → List Neighbor) where
  -- The loops of occlude_list are those of occlude_list_pq, with the distance of full vectors.
  abbrev pub occlude_list : ℕ → List Neighbor → Option (List Neighbor)
  occlude_list fuel pool = occlude_list_pq s fuel pool

  pub fill_pool : List Neighbor → List Neighbor → List Neighbor
  fill_pool acc [] = acc
  fill_pool acc (p ∷ ps) =
      let more = fill_pool (if holds_id acc p.id then acc else acc ++ p ∷ []) ps in
      if ltb (length acc) s.range then more else acc

  abbrev pub finish_full : ℕ → List Neighbor → Option (List Neighbor) → Option (List ℕ)
  finish_full medoid pool none = none
  finish_full medoid pool (some result) =
      let kept = drop_medoid medoid (length result * 3 / 4) 0 result in
      let filled : List Neighbor = if ltb one_float s.alpha then fill_pool kept pool else kept in
      some (map (λ (p : Neighbor). p.id) (sort_by_distance filled))

  -- For a pool that is not empty, as above.
  unfoldable pub prune_neighbors : ℕ → ℕ → List Neighbor → Option (List ℕ)
  unfolding sort_pool occlude_list_pq drop_medoid fill_pool
  prune_neighbors fuel medoid pool =
      let sorted = sort_pool pool in finish_full medoid sorted (occlude_list fuel sorted)
