-- ===== src/Update/Consistent.antt =====
-- insert_in_place and verify_id2loc: the maps of the index agree after an insertion.
use hvs_disk.Base.{
  ℕ, zero, suc, ◌≤◌, ◌<◌, ◌≡◌, refl, sym, ap, subst, ◌∙◌, inl, inr, List, [], ◌∷◌, ◌++◌, Option,
  none, some, true, false, arith, ◌==◌, length, length-append, length-map, get_elem?, u32, map,
  Bool-cases, All, All-weaken, All-append, contains, contains-append, IsDistinct, IsDistinct-push,
}
use mathlib.Core.Option.{some-injective}
use hvs_disk.Base.HashMap.{HashMap}
use hvs_disk.Layout.Sector.{Geometry}
use hvs_disk.Layout.Slots.{
  invalid_id, allocated_id, PageArr, Slots, node_kind, slot_get, slot_or_invalid, loc2id,
  erase_and_set_loc,
}
use hvs_disk.Layout.Slots.View.{max_loc, IsSized}
use hvs_disk.Layout.Slots.Move.{IsPresent, loc2id-erase_and_set_loc, erase_and_set_loc-IsSized}
use hvs_disk.Layout.Slots.Keys.{IsWithin, erase_and_set_loc-IsWithin}
use hvs_disk.Update.{Index, update_locs}
use hvs_disk.Update.Lookup.{located, located-assigned, located-push}
use hvs_disk.Update.Mapping.{Moved, move_ids-Moved, map-u32}
use hvs_disk.Update.Agree.{Agree, Agree-move}

get_elem-last : (xs : List ℕ) (n : ℕ) → length xs ≡ suc n → (x : ℕ) × (get_elem? xs n ≡ some x)
get_elem-last [] n e = absurd (omega (arith, e))
get_elem-last (x ∷ xs) zero e = (x, refl)
get_elem-last (x ∷ xs) (suc n) e = get_elem-last xs n (omega (arith, e))

get_elem-All :
    (xs : List ℕ) (n x : ℕ)
    → All (λ (l : ℕ). l < max_loc) xs
    → get_elem? xs n ≡ some x
    → x < max_loc
get_elem-All [] n x a q = absurd (ground (arith, q))
get_elem-All (y ∷ ys) zero x a q = omega (arith, a.0, some-injective _ _ q)
get_elem-All (y ∷ ys) (suc n) x a q = get_elem-All ys n x a.1 q

module _ (m : HashMap ℕ) (h : HashMap PageArr) (g : Geometry) where
  abbrev pub find_id : m.Table → ℕ → Option ℕ
  find_id t i = m.find i t

  -- Pages have their sizes; the map of the ids and the page layout agree.
  pub record IsConsistent (x : Index m h) : Type 0 where
    pub sized : IsSized h (node_kind g) x.space.slots
    pub agree : Agree (find_id x.id2loc_) (loc2id h g x.space.slots)

  -- A location with an id stands in a page of the layout.
  stands-IsPresent :
      (s : Slots h) (l : ℕ) → loc2id h g s l < invalid_id → IsPresent h (node_kind g) s l
  unfolding loc2id slot_get slot_or_invalid
  stands-IsPresent s l lt e = absurd (omega (arith, rw e at lt))

  old-places :
      (x : Index m h) (olds : List ℕ)
      → IsConsistent x
      → All (λ (o : ℕ). (i : ℕ) × (find_id x.id2loc_ i ≡ some o)) olds
      → All (λ (l : ℕ). (l < max_loc) × IsPresent h (node_kind g) x.space.slots l) olds
  old-places x olds con a =
      All-weaken _ _ olds
        (λ o (i, e).
          let (lt, small, k) = con.agree.placed i o e in
          (lt, stands-IsPresent x.space.slots o (omega (arith, small, k))))
        a

  -- The ids that an insertion touches: distinct known neighbours and a new target.
  pub record IsInsertable (target_id : ℕ) (new_nhood : List ℕ) (x : Index m h) : Type 0 where
    pub distinct : IsDistinct new_nhood
    pub known : (i : ℕ) → contains new_nhood i ≡ true → (o : ℕ) × (find_id x.id2loc_ i ≡ some o)
    pub new : find_id x.id2loc_ target_id ≡ none
    pub small : target_id < allocated_id

  target-apart :
      (target_id : ℕ) (new_nhood : List ℕ) (x : Index m h)
      → IsInsertable target_id new_nhood x
      → contains new_nhood target_id ≡ false
  target-apart target_id new_nhood x ins = elim (Bool-cases (contains new_nhood target_id)) [
    | inr apart ↦ apart
    | inl within ↦
        let (o, e) = ins.known target_id within in absurd (ground (arith, sym ins.new ∙ e))
  ]

  known-small :
      (ids : List ℕ) (x : Index m h)
      → IsConsistent x
      → ((i : ℕ) → contains ids i ≡ true → (o : ℕ) × (find_id x.id2loc_ i ≡ some o))
      → All (λ (i : ℕ). i < allocated_id) ids
  known-small [] x con kn = tt
  known-small (i ∷ ids) x con kn =
      let (o, e) = kn i (ground arith) in
      ((con.agree.placed i o e).1, known-small ids x con (λ j c. kn j (ground (arith, c))))

  -- Locations that an allocation has just taken.
  abbrev pub AreTaken : List ℕ → Index m h → Type 0
  AreTaken locs x =
      IsDistinct locs
      × All (λ (l : ℕ). (l < max_loc) × (loc2id h g x.space.slots l ≡ allocated_id)) locs

  module _ (target_id : ℕ) (new_nhood locs : List ℕ) (x : Index m h) (hn : 0 < g.nnodes_per_sector)
      (fits : g.nnodes_per_sector ≤ 60) (con : IsConsistent x)
      (ins : IsInsertable target_id new_nhood x) (len : length locs ≡ suc (length new_nhood))
      (taken : AreTaken locs x) where
    ids : List ℕ
    ids = new_nhood ++ target_id ∷ []

    places : All (λ (l : ℕ). l < max_loc) locs
    places = All-weaken _ _ locs (λ l (lt, e). lt) taken.1

    kept-find :
        (l i : ℕ)
        → contains new_nhood i ≡ true
        → m.find i (m.insert_or_assign target_id (u32 l) x.id2loc_) ≡ m.find i x.id2loc_
    kept-find l i c = elim (Bool-cases (target_id == i)) [
      | inr other ↦ m.find-insert_or_assign target_id i (u32 l) x.id2loc_ ∙ rw other refl
      | inl same ↦
          let q : target_id ≡ i = ground (arith, same) in
          absurd (
            ground (
              arith,
              target-apart target_id new_nhood x ins,
              subst (λ (y : ℕ). contains new_nhood y ≡ true) (sym q) c,
            ))
    ]

    olds-known :
        (l : ℕ) (r : m.Table × List ℕ)
        → Moved m g new_nhood locs (m.insert_or_assign target_id (u32 l) x.id2loc_) r
        → All
            (λ (o : ℕ). (i : ℕ) × (contains new_nhood i ≡ true) × (find_id x.id2loc_ i ≡ some o))
            r.1
    olds-known l r mv =
        All-weaken _ _ r.1 (λ o (i, c, q). (i, c, sym (kept-find l i c) ∙ q)) mv.olds

    Moved-IsConsistent :
        (l : ℕ) (r : m.Table × List ℕ)
        → get_elem? locs (length new_nhood) ≡ some l
        → Moved m g new_nhood locs (m.insert_or_assign target_id (u32 l) x.id2loc_) r
        → IsConsistent (record {
          id2loc_ = r.0;
          space = record {
            slots = erase_and_set_loc h g x.space.slots r.1 locs ids;
            cur_loc = x.space.cur_loc;
          };
        })
    unfolding ids
    Moved-IsConsistent l r e mv =
        let apart = target-apart target_id new_nhood x ins in
        let look = λ (i : ℕ). m.find-insert_or_assign target_id i (u32 l) x.id2loc_ in
        let kept = kept-find l in
        let olds = olds-known l r mv in
        let lt : l < max_loc = get_elem-All locs (length new_nhood) l places e in
        let cut : u32 l ≡ l = omega (arith, lt) in
        record {
          sized = erase_and_set_loc-IsSized h g x.space.slots r.1 locs ids hn fits con.sized places;
          agree =
              Agree-move (find_id x.id2loc_) (find_id r.0) (loc2id h g x.space.slots) _ ids locs r.1
                (omega (arith, len, length-append new_nhood (target_id ∷ [])))
                (IsDistinct-push new_nhood target_id ins.distinct apart) taken.0
                (All-append _ new_nhood (target_id ∷ []) (known-small new_nhood x con ins.known)
                  (ins.small, tt))
                taken.1
                (All-weaken _ _ r.1
                  (λ o (i, c, q).
                    (i, ground (arith, contains-append new_nhood (target_id ∷ []) i, c), q))
                  olds)
                (λ i o c q. elim (Bool-cases (contains new_nhood i)) [
                  | inl near ↦ mv.every i o near (kept i near ∙ q)
                  | inr far ↦
                      let same : target_id ≡ i =
                        ground (arith, contains-append new_nhood (target_id ∷ []) i, far, c) in
                      absurd (ground (arith, sym ins.new ∙ (ap (find_id x.id2loc_) same ∙ q)))
                ])
                (λ i.
                  mv.after i
                  ∙ ap
                      (λ (ls : List ℕ).
                        located new_nhood ls i
                          (m.find i (m.insert_or_assign target_id (u32 l) x.id2loc_)))
                      (map-u32 locs places)
                  ∙ ap (located new_nhood locs i) (look i ∙ rw cut refl)
                  ∙ sym (located-push new_nhood locs target_id i l (m.find i x.id2loc_) apart e))
                (λ b small.
                  loc2id-erase_and_set_loc h g x.space.slots r.1 locs ids b hn fits con.sized places
                    (old-places x r.1 con (All-weaken _ _ r.1 (λ o (i, c, q). (i, q)) olds)) small)
                con.agree;
        }

    pub update_locs-IsConsistent :
        (y : Index m h) × (update_locs m h g target_id new_nhood locs x ≡ some y)
        × IsConsistent y
        × IsWithin h (node_kind g) x.space.slots y.space.slots
        × (y.space.cur_loc ≡ x.space.cur_loc)
        × (find_id y.id2loc_ target_id ≡ get_elem? locs (length new_nhood))
    unfolding update_locs ids
    update_locs-IsConsistent =
        let (l, e) = get_elem-last locs (length new_nhood) len in
        let t = m.insert_or_assign target_id (u32 l) x.id2loc_ in
        let cut : u32 l ≡ l = omega (arith, get_elem-All locs (length new_nhood) l places e) in
        let (r, run, mv) =
          move_ids-Moved m g new_nhood locs t ins.distinct (omega (arith, len))
            (λ i c. let (o, q) = ins.known i c in (o, kept-find l i c ∙ q)) in
        (
          _,
          rw (update_locs, e, run) refl,
          Moved-IsConsistent l r e mv,
          erase_and_set_loc-IsWithin h g x.space.slots r.1 locs (new_nhood ++ target_id ∷ [])
              (All-weaken _ _ locs
                (λ b (lt, q). (lt, stands-IsPresent x.space.slots b (omega (arith, q)))) taken.1)
              (old-places x r.1 con
                (All-weaken _ _ r.1 (λ o (i, c, q). (i, q)) (olds-known l r mv))),
          refl,
          mv.after target_id
              ∙ located-assigned new_nhood (map u32 locs) target_id 0 _
                  (omega (arith, len, length-map u32 locs))
              ∙ rw
                  (
                    target-apart target_id new_nhood x ins,
                    m.find-insert_or_assign target_id target_id (u32 l) x.id2loc_,
                    e,
                  )
                  (ground (arith, cut)),
        )
