-- ===== src/Hybrid/Queue/Fixed.antt =====
-- iterate_to_fixed_point as a whole: it ends, and has seen all neighbours of what it leaves.
use hvs_disk.Base.{
  ℕ, zero, suc, ◌+◌, ◌≤◌, ◌<◌, ◌≡◌, ◌⊎◌, refl, ap, ◌∙◌, List, [], ◌∷◌, some, true, arith, length,
  map, max_float, All, All-weaken, inl, inr,
}
use hvs_disk.Base.Unseen.{unseen, unseen-le}
use hvs_disk.Hybrid.Skyline.{NeighborH, sort_neighbors, layered}
use hvs_disk.Hybrid.Skyline.Parts.{sort_neighbors-All, count_id, IsFinite}
use hvs_disk.Hybrid.Skyline.Order.{layer_loop-All}
use hvs_disk.Hybrid.Skyline.Layers.{layered-IsLayered}
use hvs_disk.Hybrid.Queue.{
  found_point, visit_layer, update_neighbor, next_flagged, layer_of, search_layers, from_queue,
  iterate_to_fixed_point,
}
use hvs_disk.Hybrid.Queue.Visit.{
  places, flags, AreSeen, is_next, IsEntry, AreEntries, Extends, visit_layer-IsVisited,
}
use hvs_disk.Hybrid.Queue.Refill.{update_neighbor-IsFilled, next_flagged-IsSplit, is_at_flag}

flags-le : (ps : List NeighborH) → flags ps ≤ length ps
flags-le [] = omega arith
flags-le (p ∷ ps) = ground (arith, flags-le ps)

module _ (g : ℕ → List ℕ) (dist1 dist2 : ℕ → ℕ) (limit : ℕ) (near : (i : ℕ) → dist1 i < max_float)
    (small : (i : ℕ) → All (λ (n : ℕ). n < limit) (g i)) where
  record IsSearched (fuel size l : ℕ) (done rest : List NeighborH) (seen : List ℕ) : Type 0 where
    pool : List NeighborH
    seen' : List ℕ
    run : search_layers g dist1 dist2 limit fuel size l done rest seen ≡ some (pool, seen')
    entries : AreEntries g dist1 dist2 limit seen' pool
    extends : Extends g dist1 dist2 limit seen seen'
    settled : flags pool ≡ 0
    ids : (i : ℕ) → places i pool seen' ≤ count_id i done + places i rest seen

  search_layers-step :
      (fuel size l : ℕ) (done : List NeighborH) (p : NeighborH) (rest : List NeighborH)
      (seen seen' : List ℕ) (pool next : List NeighborH)
      → visit_layer g dist1 dist2 limit (length (p ∷ rest) + limit) l done (p ∷ rest) seen
        ≡ some (pool, seen')
      → update_neighbor g dist1 dist2 limit size pool ≡ some next
      → search_layers g dist1 dist2 limit (suc fuel) size l done (p ∷ rest) seen
        ≡ search_layers g dist1 dist2 limit fuel size
            (layer_of g dist1 dist2 limit l (next_flagged g dist1 dist2 limit next).1)
            (next_flagged g dist1 dist2 limit next).0
            (next_flagged g dist1 dist2 limit next).1
            seen'
  unfolding search_layers
  search_layers-step fuel size l done p rest seen seen' pool next e1 e2 =
      rw (search_layers, e1, e2) refl

  at_flag-next :
      (l : ℕ) (ps : List NeighborH)
      → is_at_flag ps ≡ true
      → is_next (layer_of g dist1 dist2 limit l ps) ps ≡ true
  at_flag-next l [] e = absurd (ground (arith, e))
  at_flag-next l (p ∷ ps) e = ground (arith, e)

  -- Enough fuel: each round expands an entry, but for a first round in the wrong layer.
  abbrev IsEnough : (fuel l : ℕ) (rest : List NeighborH) (seen : List ℕ) → Type 0
  IsEnough fuel l rest seen =
      ((is_next l rest ≡ true) × (flags rest + unseen limit seen < fuel))
      ⊎ (suc (flags rest + unseen limit seen) < fuel)

  search_layers-IsSearched :
      (fuel size l : ℕ) (done rest : List NeighborH) (seen : List ℕ)
      → (0 < length rest → IsEnough fuel l rest seen)
      → flags done ≡ 0
      → AreEntries g dist1 dist2 limit seen done
      → AreEntries g dist1 dist2 limit seen rest
      → IsSearched fuel size l done rest seen
  unfolding search_layers
  search_layers-IsSearched fuel size l done [] seen enough z a b = record {
    pool = done;
    seen' = seen;
    run = refl;
    entries = a;
    extends = λ i c. c;
    settled = z;
    ids = λ i. omega arith;
  }
  search_layers-IsSearched zero size l done (p ∷ rest) seen enough z a b =
      absurd (elim (enough (omega arith)) [ inl e ↦ omega (arith, e.1) | inr e ↦ omega (arith, e) ])
  search_layers-IsSearched (suc fuel) size l done (p ∷ rest) seen enough z a b =
      let v =
        visit_layer-IsVisited g dist1 dist2 limit near small (length (p ∷ rest) + limit) l done
          (p ∷ rest) seen (omega (arith, unseen-le limit seen)) a b in
      let falls : flags v.pool + unseen limit v.seen' < suc fuel = elim (enough (omega arith)) [
        | inl e ↦ omega (arith, z, e.1, v.total)
        | inr e ↦ omega (arith, z, e, v.total)
      ] in
      let sooner : flags v.pool + unseen limit v.seen' < fuel = elim (enough (omega arith)) [
        | inl e ↦ omega (arith, z, e.1, v.less e.0)
        | inr e ↦ omega (arith, z, e, v.total)
      ] in
      let (next, filled, all, fewer, thinner) =
        update_neighbor-IsFilled g dist1 dist2 limit (IsEntry g dist1 dist2 limit v.seen')
          (λ q k e. record { valid = e.valid; finite = e.finite; expanded = e.expanded })
          (λ q e. e.finite) size v.pool v.entries in
      let parts = next_flagged g dist1 dist2 limit next in
      let s =
        next_flagged-IsSplit g dist1 dist2 limit (IsEntry g dist1 dist2 limit v.seen') next all in
      let r =
        search_layers-IsSearched fuel size (layer_of g dist1 dist2 limit l parts.1) parts.0 parts.1
          v.seen'
          (λ n. inl ((at_flag-next l parts.1 (s.at n), omega (arith, s.from, fewer, sooner))))
          s.before s.all_before s.all_from in
      record {
        pool = r.pool;
        seen' = r.seen';
        run =
            search_layers-step fuel size l done p rest seen v.seen' v.pool next v.run filled
            ∙ r.run;
        entries = r.entries;
        extends = λ i c. r.extends i (v.extends i c);
        settled = r.settled;
        ids = λ i. omega (arith, r.ids i, s.ids i, thinner i, v.ids i);
      }

  -- What a search leaves.
  pub record IsFixed (init_ids : List ℕ) (pool : List NeighborH) (seen : List ℕ) : Type 0 where
    pub started : AreSeen seen init_ids
    pub expanded : flags pool ≡ 0
    pub ids :
        (i : ℕ)
        → count_id i pool ≤ places i (map (found_point g dist1 dist2 limit 0) init_ids) init_ids
    pub closed :
        All
          (λ (p : NeighborH). (p.id < limit) × (p.distance1 < max_float) × AreSeen seen (g p.id))
          pool

  closed-all :
      (seen : List ℕ) (pool : List NeighborH)
      → flags pool ≡ 0
      → AreEntries g dist1 dist2 limit seen pool
      → All
          (λ (p : NeighborH). (p.id < limit) × (p.distance1 < max_float) × AreSeen seen (g p.id))
          pool
  closed-all seen [] z a = tt
  closed-all seen (p ∷ ps) z a = (
    (a.0.valid, a.0.finite, a.0.expanded (ground (arith, z))),
    closed-all seen ps (omega (arith, z)) a.1,
  )

  self-seen : (ids : List ℕ) → AreSeen ids ids
  self-seen [] = tt
  self-seen (i ∷ is) = (ground arith, All-weaken _ _ is (λ j c. ground (arith, c)) (self-seen is))

  started-entries :
      (seen ids : List ℕ)
      → All (λ (n : ℕ). n < limit) ids
      → AreEntries g dist1 dist2 limit seen (map (found_point g dist1 dist2 limit 0) ids)
  started-entries seen [] a = tt
  started-entries seen (i ∷ is) a = (
    record { valid = a.0; finite = near i; expanded = λ x. absurd (ground (arith, x)) },
    started-entries seen is a.1,
  )

  started-IsFinite : (ids : List ℕ) → IsFinite (map (found_point g dist1 dist2 limit 0) ids)
  started-IsFinite [] = tt
  started-IsFinite (i ∷ is) = (near i, started-IsFinite is)

  -- All ids in the graph and among the first ones are below the limit, and the distances to the query
  -- are below the largest float: then the search does not crash and ends. All entries that are left in
  -- the pool have been expanded, every neighbour of each of them has been seen, and so have the first
  -- ids. The entries have ids below the limit and distances below the largest float, and an id is left
  -- no more often than it is among the first ids, or at most once where it is not.
  pub iterate_to_fixed_point-IsFixed :
      (size : ℕ) (init_ids : List ℕ)
      → All (λ (n : ℕ). n < limit) init_ids
      → (pool : List NeighborH) × (seen : List ℕ) × (iterate_to_fixed_point g dist1 dist2 limit size
            init_ids
          ≡ some (pool, seen))
        × IsFixed init_ids pool seen
  unfolding iterate_to_fixed_point layered
  iterate_to_fixed_point-IsFixed size init_ids valid =
      let points = map (found_point g dist1 dist2 limit 0) init_ids in
      let (queue, run, count, _) = layered-IsLayered points (started-IsFinite init_ids) in
      let E = IsEntry g dist1 dist2 limit init_ids in
      let entries =
        layer_loop-All E
          (λ p l e. record {
            valid = e.valid;
            finite = e.finite;
            expanded = λ x. absurd (ground (arith, x));
          })
          (length points) 0 (sort_neighbors points) queue run
          (sort_neighbors-All E points (started-entries init_ids init_ids valid)) in
      let r =
        search_layers-IsSearched (length queue + limit + 2) size 0 [] queue init_ids
          (λ n. inr (omega (arith, flags-le queue, unseen-le limit init_ids))) refl tt entries in
      (
        r.pool,
        r.seen',
        ap (from_queue g dist1 dist2 limit size init_ids) run ∙ r.run,
        record {
          started = All-weaken _ _ init_ids (λ i c. r.extends i c) (self-seen init_ids);
          expanded = r.settled;
          ids = λ i. omega (arith, r.ids i, count i);
          closed = closed-all r.seen' r.pool r.settled r.entries;
        },
      )
