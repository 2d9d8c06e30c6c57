-- ===== src/Update/Insert.antt =====
-- A whole insertion: allocation, move of the records, and the check of verify_id2loc.
use hvs_disk.Base.{
  ℕ, zero, suc, ◌+◌, ◌^◌, ◌≤◌, ◌<◌, ◌≡◌, ◌≢◌, get_elem?, refl, sym, subst, ◌∙◌, inl, inr, List, [],
  ◌∷◌, none, some, true, arith, ltb, length, Bool-cases, Option-cases, All, contains, IsDistinct,
}
use hvs_disk.Base.HashMap.{HashMap}
use hvs_disk.Layout.Sector.{Geometry}
use hvs_disk.Layout.Slots.{invalid_id, allocated_id, PageArr, Slots, node_kind, loc2id}
use hvs_disk.Layout.Slots.View.{max_loc, IsSized}
use hvs_disk.Layout.Slots.Keys.{IsWithin}
use hvs_disk.Layout.Alloc.{Space}
use hvs_disk.Layout.Alloc.Takes.{view, Takes, IsSpace}
use hvs_disk.Layout.Alloc.Fresh.{IsEmptyPage}
use hvs_disk.Layout.Alloc.Extend.{past-end}
use hvs_disk.Layout.Alloc.Whole.{alloc_loc-Allocated}
use hvs_disk.Locks.{id2loc}
use hvs_disk.Update.{Index, insert_records, verify_id2loc}
use hvs_disk.Update.Agree.{All-contains}
use hvs_disk.Update.Consistent.{
  find_id, IsConsistent, IsInsertable, AreTaken, update_locs-IsConsistent,
}

All-self : (xs : List ℕ) (P : ℕ → Type 0) → ((x : ℕ) → contains xs x ≡ true → P x) → All P xs
All-self [] P f = tt
All-self (x ∷ xs) P f = (f x (ground arith), All-self xs P (λ y c. f y (ground (arith, c))))

missing : (xs : List ℕ) (n : ℕ) → n < length xs → get_elem? xs n ≢ none
missing [] n lt e = absurd (omega (arith, lt))
missing (x ∷ xs) zero lt e = absurd (ground (arith, e))
missing (x ∷ xs) (suc n) lt e = missing xs n (omega (arith, lt)) e

module _ (m : HashMap ℕ) (h : HashMap PageArr) (g : Geometry) where
  -- The maps agree, and the pages stand below the end of the used space.
  pub record IsSettled (x : Index m h) : Type 0 where
    pub consistent : IsConsistent m h g x
    pub space : IsSpace h g x.space.slots x.space.cur_loc

  -- An allocation takes no location of an id.
  taken-IsConsistent :
      (x : Index m h) (space : Space h) (locs : List ℕ)
      → IsConsistent m h g x
      → Takes h g x.space.slots space.slots locs
      → IsSized h (node_kind g) space.slots
      → IsConsistent m h g (record { id2loc_ = x.id2loc_; space = space })
  unfolding loc2id
  taken-IsConsistent x space locs con tk sized =
      let fresh : (b : ℕ) → contains locs b ≡ true → view h g x.space.slots b ≡ invalid_id =
        λ b c. (All-contains _ locs b tk.fresh c).1 in
      record {
        sized = sized;
        agree = record {
          placed = λ i l e.
              let (lt, small, stands) = con.agree.placed i l e in
              let now = tk.after l lt in
              elim (Bool-cases (contains locs l)) [
                | inl c ↦ absurd (omega (arith, fresh l c, stands, small))
                | inr c ↦ (lt, small, now ∙ rw c stands)
              ];
          found = λ l lt small.
              let now = tk.after l lt in
              elim (Bool-cases (contains locs l)) [
                | inl c ↦
                    let full : view h g space.slots l ≡ allocated_id = now ∙ rw c refl in
                    absurd (omega (arith, full, small))
                | inr c ↦
                    let same : view h g space.slots l ≡ view h g x.space.slots l =
                      now ∙ rw c refl in
                    rw same (con.agree.found l lt (omega (arith, same, small)))
              ];
        };
      }

  within-IsSpace :
      (s t : Slots h) (end : ℕ)
      → IsSpace h g s end
      → IsSized h (node_kind g) t
      → IsWithin h (node_kind g) s t
      → IsSpace h g t end
  within-IsSpace s t end sp sized w = record { sized = sized; below = λ p x. sp.below p (w p x) }

  -- What the pages and hints of an insertion are like.
  pub record IsRoomy (page_ref : List ℕ) (n : ℕ) (s : Space h) : Type 0 where
    pub some_node : 0 < g.nnodes_per_sector
    pub fits : g.nnodes_per_sector ≤ 60
    pub room : s.cur_loc + n + g.nnodes_per_sector ≤ max_loc
    pub distinct : IsDistinct s.slots.empty_pages
    pub empty : All (IsEmptyPage h g s.slots) s.slots.empty_pages
    pub hints : All (λ (p : ℕ). p < 2 ^ 32) page_ref

  taken-AreTaken :
      (x : Index m h) (space : Space h) (locs : List ℕ)
      → Takes h g x.space.slots space.slots locs
      → AreTaken m h g locs (record { id2loc_ = x.id2loc_; space = space })
  unfolding loc2id
  taken-AreTaken x space locs tk = (
    tk.distinct,
    All-self locs _ (λ l c.
        let (lt, free) = All-contains _ locs l tk.fresh c in (lt, tk.after l lt ∙ rw c refl)),
  )

  -- An insertion of a new id with distinct known neighbours runs to its end: afterwards id2loc and
  -- loc2id are inverse to each other again, on every id and every location, pages stand below the end
  -- of the used space, and the target has a location. Conditions: the index is in such a state before,
  -- 1 to 60 locations per page, room below 2^32 - 1, distinct pages in the queue with only invalid
  -- slots, hints of 32 bits.
  pub insert_records-IsSettled :
      (target_id : ℕ) (new_nhood page_ref : List ℕ) (x : Index m h)
      → IsRoomy page_ref (length new_nhood + 1) x.space
      → IsSettled x
      → IsInsertable m h g target_id new_nhood x
      → (y : Index m h) × (insert_records m h g target_id new_nhood page_ref x ≡ some y)
        × IsSettled y
        × (find_id m h g y.id2loc_ target_id ≢ none)
  unfolding insert_records loc2id
  insert_records-IsSettled target_id new_nhood page_ref x roomy st ins =
      let n = length new_nhood + 1 in
      let hn = roomy.some_node in
      let (r, run, al) =
        alloc_loc-Allocated h g n page_ref x.space (omega arith) hn roomy.fits roomy.room st.space
          roomy.distinct roomy.empty roomy.hints in
      let x1 : Index m h = record { id2loc_ = x.id2loc_; space = r.0 } in
      let con1 = taken-IsConsistent x r.0 r.1 st.consistent al.takes al.space.sized in
      let ins1 : IsInsertable m h g target_id new_nhood x1 = record {
        distinct = ins.distinct;
        known = ins.known;
        new = ins.new;
        small = ins.small;
      } in
      let (y, run', con2, within, same_end, place) =
        update_locs-IsConsistent m h g target_id new_nhood r.1 x1 hn roomy.fits con1 ins1
          (omega (arith, al.enough)) (taken-AreTaken x r.0 r.1 al.takes) in
      (
        y,
        rw (insert_records, run) run',
        record {
          consistent = con2;
          space =
              subst (IsSpace h g y.space.slots) (sym same_end)
                (within-IsSpace r.0.slots y.space.slots r.0.cur_loc al.space con2.sized within);
        },
        λ gone. missing r.1 (length new_nhood) (omega (arith, al.enough)) (sym place ∙ gone),
      )

  -- In such a state verify_id2loc passes over ids that all have a location.
  pub verify_id2loc-IsSettled :
      (n : ℕ) (x : Index m h)
      → 0 < g.nnodes_per_sector
      → IsSettled x
      → ((i : ℕ) → i < n → find_id m h g x.id2loc_ i ≢ none)
      → verify_id2loc m h g n x ≡ true
  unfolding verify_id2loc id2loc loc2id
  verify_id2loc-IsSettled zero x hn st known = refl
  verify_id2loc-IsSettled (suc n) x hn st known = elim (Option-cases (m.find n x.id2loc_)) [
    | inl gone ↦ absurd (known n (omega arith) gone)
    | inr (l, e) ↦
        let (lt, small, stands) = st.consistent.agree.placed n l e in
        let rest = verify_id2loc-IsSettled n x hn st (λ i less. known i (omega (arith, less))) in
        let inside : l < x.space.cur_loc = elim (Bool-cases (ltb l x.space.cur_loc)) [
          | inl less ↦ ground (arith, less)
          | inr past ↦
              let free =
                past-end h g x.space.slots x.space.cur_loc l hn st.space (ground (arith, past))
                  lt in
              absurd (omega (arith, free, stands, small))
        ] in
        rw (verify_id2loc, e) (ground (arith, inside, stands, rest))
  ]
