-- ===== src/Hybrid/Queue/Visit.antt =====
-- What the loop over one layer of the queue does.
use hvs_disk.Base.{
  ℕ, zero, suc, ◌+◌, ◌≤◌, ◌<◌, ◌≡◌, refl, List, [], ◌∷◌, ◌++◌, some, Bool, true, false, not, ◌&&◌,
  ◌||◌, arith, ◌==◌, if◌then◌else◌, length, length-append, contains, max_float, All, All-append,
  All-weaken, Bool-cases, inl, inr,
}
use hvs_disk.Base.Unseen.{unseen, unseen-visit}
use hvs_disk.Hybrid.Skyline.{NeighborH}
use hvs_disk.Hybrid.Skyline.Parts.{count_id, count_id-append}
use hvs_disk.Hybrid.Queue.{found_point, add_found, are_valid, visit_layer}

-- How many entries are still to be expanded.
abbrev pub flags : List NeighborH → ℕ
flags [] = 0
flags (p ∷ ps) = (if p.flag then 1 else 0) + flags ps

pub flags-append : (xs ys : List NeighborH) → flags (xs ++ ys) ≡ flags xs + flags ys
flags-append [] ys = omega arith
flags-append (x ∷ xs) ys = omega (arith, flags-append xs ys)

flag-counted : (b : Bool) → b ≡ true → (if b then 1 else 0) ≡ (suc zero)
flag-counted true e = refl
flag-counted false e = absurd (ground (arith, e))

-- How often an id is in the pool, or can still join it.
abbrev pub places : ℕ → List NeighborH → List ℕ → ℕ
places i ps seen = count_id i ps + (if contains seen i then 0 else 1)

abbrev pub AreSeen : List ℕ → List ℕ → Type 0
AreSeen seen ids = All (λ (i : ℕ). contains seen i ≡ true) ids

-- The next entry is to be expanded now.
abbrev pub is_next : ℕ → List NeighborH → Bool
is_next l [] = false
is_next l (p ∷ ps) = p.flag && (p.layer == l)

module _ (g : ℕ → List ℕ) (dist1 dist2 : ℕ → ℕ) (limit : ℕ) where
  -- An entry of the pool: where it has been expanded, its neighbours have been seen.
  pub record IsEntry (seen : List ℕ) (p : NeighborH) : Type 0 where
    pub valid : p.id < limit
    pub finite : p.distance1 < max_float
    pub expanded : p.flag ≡ false → AreSeen seen (g p.id)

  abbrev pub AreEntries : List ℕ → List NeighborH → Type 0
  AreEntries seen ps = All (IsEntry seen) ps

  abbrev pub Extends : List ℕ → List ℕ → Type 0
  Extends seen seen' = (i : ℕ) → contains seen i ≡ true → contains seen' i ≡ true

  pub AreEntries-more :
      (seen seen' : List ℕ) (ps : List NeighborH)
      → Extends seen seen'
      → AreEntries seen ps
      → AreEntries seen' ps
  AreEntries-more seen seen' ps more all =
      All-weaken (IsEntry seen) (IsEntry seen') ps
        (λ p e. record {
          valid = e.valid;
          finite = e.finite;
          expanded = λ x. All-weaken _ _ (g p.id) more (e.expanded x);
        })
        all

  module _ (near : (i : ℕ) → dist1 i < max_float)
      (small : (i : ℕ) → All (λ (n : ℕ). n < limit) (g i)) where
    record Adds (found : List ℕ) (rest : List NeighborH) (seen : List ℕ)
        (out : List NeighborH × List ℕ) : Type 0 where
      entries : AreEntries out.1 out.0
      extends : Extends seen out.1
      seen_all : AreSeen out.1 found
      counts : flags out.0 + unseen limit out.1 ≡ flags rest + unseen limit seen
      ids : (i : ℕ) → places i out.0 out.1 ≡ places i rest seen
      lengths : length out.0 + unseen limit out.1 ≡ length rest + unseen limit seen

    add_found-Adds :
        (ids : List ℕ) (rest : List NeighborH) (seen : List ℕ)
        → All (λ (n : ℕ). n < limit) ids
        → AreEntries seen rest
        → Adds ids rest seen (add_found g dist1 dist2 limit ids rest seen)
    unfolding add_found
    add_found-Adds [] rest seen lt all = record {
      entries = all;
      extends = λ i c. c;
      seen_all = tt;
      counts = refl;
      ids = λ i. refl;
      lengths = refl;
    }
    add_found-Adds (id ∷ ids) rest seen lt all = elim (Bool-cases (contains seen id)) [
      | inl old ↦
          let r = add_found-Adds ids rest seen lt.1 all in
          rw old (record {
            entries = r.entries;
            extends = r.extends;
            seen_all = (r.extends id old, r.seen_all);
            counts = r.counts;
            ids = r.ids;
            lengths = r.lengths;
          })
      | inr new ↦
          let p = found_point g dist1 dist2 limit 1 id in
          let wider : Extends seen (id ∷ seen) = λ i c. ground (arith, c) in
          let entry : IsEntry (id ∷ seen) p = record {
            valid = lt.0;
            finite = near id;
            expanded = λ x. absurd (ground (arith, x));
          } in
          let r = add_found-Adds ids (rest ++ p ∷ []) (id ∷ seen) lt.1 (
            All-append _ rest (p ∷ []) (AreEntries-more seen (id ∷ seen) rest wider all)
              (entry, tt)) in
          let one = unseen-visit limit id seen lt.0 new in
          rw new (record {
            entries = r.entries;
            extends = λ i c. r.extends i (wider i c);
            seen_all = (r.extends id (ground arith), r.seen_all);
            counts = omega (arith, r.counts, flags-append rest (p ∷ []), one);
            ids = λ i. ground (arith, r.ids i, count_id-append i rest (p ∷ []), new);
            lengths = omega (arith, r.lengths, length-append rest (p ∷ []), one);
          })
    ]

    are_valid-small :
        (ids : List ℕ) → All (λ (n : ℕ). n < limit) ids → are_valid g dist1 dist2 limit ids ≡ true
    are_valid-small [] lt = refl
    are_valid-small (id ∷ ids) lt = ground (arith, lt.0, are_valid-small ids lt.1)

    found-Adds :
        (p : NeighborH) (rest : List NeighborH) (seen : List ℕ)
        → AreEntries seen (p ∷ rest)
        → Adds
            (g p.id)
            rest
            seen
            (if p.flag then add_found g dist1 dist2 limit (g p.id) rest seen else (rest, seen))
    found-Adds p rest seen all = elim (Bool-cases p.flag) [
      | inl e ↦ rw e (add_found-Adds (g p.id) rest seen (small p.id) all.1)
      | inr e ↦ rw e (record {
        entries = all.1;
        extends = λ i c. c;
        seen_all = all.0.expanded e;
        counts = refl;
        ids = λ i. refl;
        lengths = refl;
      })
    ]

    -- A run of the loop.
    pub record IsVisited (fuel l : ℕ) (done rest : List NeighborH) (seen : List ℕ) : Type 0 where
      pub pool : List NeighborH
      pub seen' : List ℕ
      pub run : visit_layer g dist1 dist2 limit fuel l done rest seen ≡ some (pool, seen')
      pub entries : AreEntries seen' pool
      pub extends : Extends seen seen'
      pub total : flags pool + unseen limit seen' ≤ flags done + flags rest + unseen limit seen
      pub ids : (i : ℕ) → places i pool seen' ≤ count_id i done + places i rest seen
      pub less :
          is_next l rest ≡ true
          → flags pool + unseen limit seen' < flags done + flags rest + unseen limit seen

    pub visit_layer-IsVisited :
        (fuel l : ℕ) (done rest : List NeighborH) (seen : List ℕ)
        → length rest + unseen limit seen ≤ fuel
        → AreEntries seen done
        → AreEntries seen rest
        → IsVisited fuel l done rest seen
    unfolding visit_layer
    visit_layer-IsVisited fuel l done [] seen enough a b = record {
      pool = done;
      seen' = seen;
      run = refl;
      entries = a;
      extends = λ i c. c;
      total = omega arith;
      ids = λ i. omega arith;
      less = λ n. absurd (ground (arith, n));
    }
    visit_layer-IsVisited zero l done (p ∷ rest) seen enough a b = absurd (omega (arith, enough))
    visit_layer-IsVisited (suc fuel) l done (p ∷ rest) seen enough a b =
        let found =
          if p.flag then add_found g dist1 dist2 limit (g p.id) rest seen else (rest, seen) in
        let q = record p { flag = false } in
        let r = found-Adds p rest seen b in
        let entry : IsEntry found.1 q = record {
          valid = b.0.valid;
          finite = b.0.finite;
          expanded = λ x. r.seen_all;
        } in
        let v =
          visit_layer-IsVisited fuel l (done ++ q ∷ []) found.0 found.1
            (omega (arith, r.lengths, enough))
            (All-append _ done (q ∷ []) (AreEntries-more seen found.1 done r.extends a) (entry, tt))
            r.entries in
        elim (Bool-cases (p.layer == l)) [
          | inl here ↦
              let valid : (not p.flag || are_valid g dist1 dist2 limit (g p.id)) ≡ true =
                ground (arith, are_valid-small (g p.id) (small p.id)) in
              record {
                pool = v.pool;
                seen' = v.seen';
                run = rw (here, valid) v.run;
                entries = v.entries;
                extends = λ i c. v.extends i (r.extends i c);
                total = omega (arith, v.total, r.counts, flags-append done (q ∷ []));
                ids = λ i. ground (arith, v.ids i, r.ids i, count_id-append i done (q ∷ []));
                less = λ n.
                    let e : p.flag ≡ true = ground (arith, n) in
                    omega
                      (arith, flag-counted p.flag e, v.total, r.counts, flags-append done (q ∷ []));
              }
          | inr other ↦ record {
            pool = done ++ p ∷ rest;
            seen' = seen;
            run = rw other refl;
            entries = All-append _ done (p ∷ rest) a b;
            extends = λ i c. c;
            total = omega (arith, flags-append done (p ∷ rest));
            ids = λ i. omega (arith, count_id-append i done (p ∷ rest));
            less = λ n. absurd (ground (arith, n, other));
          }
        ]
