-- ===== src/Layout/Slots/Keys.antt =====
-- Which pages stand in the layout after writes and erasures.
use hvs_disk.Base.{
  ℕ, ◌<◌, ◌≡◌, ◌≢◌, refl, sym, subst, ◌∙◌, inl, inr, List, [], ◌∷◌, none, true, arith, ◌==◌, u32,
  Option-cases, Bool-cases, All,
}
use hvs_disk.Base.HashMap.{HashMap}
use hvs_disk.Layout.Sector.{Geometry}
use hvs_disk.Layout.Slots.{
  PageArr, Kind, node_kind, Slots, page_of, slot_set, slot_erase, set_loc2id, erase_loc2id,
  set_locs, erase_locs, erase_and_set_loc,
}
use hvs_disk.Layout.Slots.View.{max_loc}
use hvs_disk.Layout.Slots.Move.{IsPresent}

module _ (h : HashMap PageArr) (k : Kind) where
  -- Every page of the second layout is one of the first.
  abbrev pub IsWithin : Slots h → Slots h → Type 0
  IsWithin s t = (p : ℕ) → h.find p t.page_layout ≢ none → h.find p s.page_layout ≢ none

  -- A write to a page that stands in the layout adds none.
  within-write :
      (s t : Slots h) (q : ℕ) (v : PageArr)
      → IsWithin s t
      → h.find q s.page_layout ≢ none
      → (p : ℕ) → h.find p (h.insert_or_assign q v t.page_layout) ≢ none
      → h.find p s.page_layout ≢ none
  within-write s t q v w here p x gone = elim (Bool-cases (q == p)) [
    | inl same ↦ here (subst (λ (y : ℕ). h.find y s.page_layout ≡ none) (sym (eq same)) gone)
    | inr other ↦ w p (λ e. x (h.find-insert_or_assign q p v t.page_layout ∙ rw other e)) gone
  ]
    where
      eq : (q == p) ≡ true → q ≡ p
      eq same = ground (arith, same)

  abbrev Places : Slots h → List ℕ → Type 0
  Places s ls = All (λ (l : ℕ). (l < max_loc) × IsPresent h k s l) ls

  set_locs-IsWithin :
      (s t : Slots h) (ls ids : List ℕ)
      → IsWithin s t
      → Places s ls
      → IsWithin s (set_locs h (slot_set h k) t ls ids)
  unfolding set_locs slot_set page_of
  set_locs-IsWithin s t [] ids w a = w
  set_locs-IsWithin s t (l ∷ ls) [] w a = w
  set_locs-IsWithin s t (l ∷ ls) (i ∷ ids) w ((lt, here), a) =
      let e : u32 l ≡ l = omega (arith, lt) in
      set_locs-IsWithin s (slot_set h k t (u32 l) i) ls ids
        (within-write s t _ _ w (subst (IsPresent h k s) (sym e) here)) a

  slot_erase-IsWithin :
      (s t : Slots h) (l : ℕ) → IsWithin s t → IsPresent h k s l → IsWithin s (slot_erase h k t l)
  unfolding slot_erase page_of
  slot_erase-IsWithin s t l w there =
      elim (Option-cases (h.find (u32 (k.sector_no l)) t.page_layout)) [
        | inl gone ↦ rw (gone, slot_erase) (within-write s t _ _ w there)
        | inr (v, e) ↦ rw (e, slot_erase) (within-write s t _ _ w there)
      ]

  -- Erasing leaves the queue of locations alone.
  pub slot_erase-empty_locs : (s : Slots h) (l : ℕ) → (slot_erase h k s l).empty_locs ≡ s.empty_locs
  unfolding slot_erase page_of
  slot_erase-empty_locs s l = elim (Option-cases (h.find (u32 (k.sector_no l)) s.page_layout)) [
    | inl gone ↦ rw (gone, slot_erase) refl
    | inr (v, e) ↦ rw (e, slot_erase) refl
  ]

  erase_locs-IsWithin :
      (s t : Slots h) (ls : List ℕ)
      → IsWithin s t
      → Places s ls
      → IsWithin s (erase_locs h (slot_erase h k) t ls)
  unfolding erase_locs
  erase_locs-IsWithin s t [] w a = w
  erase_locs-IsWithin s t (l ∷ ls) w ((lt, here), a) =
      let e : u32 l ≡ l = omega (arith, lt) in
      erase_locs-IsWithin s (slot_erase h k t (u32 l)) ls
        (slot_erase-IsWithin s t (u32 l) w (subst (IsPresent h k s) (sym e) here)) a

module _ (h : HashMap PageArr) (g : Geometry) where
  -- Moves between pages of the layout add no page.
  pub erase_and_set_loc-IsWithin :
      (s : Slots h) (old_locs new_locs new_ids : List ℕ)
      → Places h (node_kind g) s new_locs
      → Places h (node_kind g) s old_locs
      → IsWithin h (node_kind g) s (erase_and_set_loc h g s old_locs new_locs new_ids)
  unfolding erase_and_set_loc set_loc2id erase_loc2id
  erase_and_set_loc-IsWithin s old_locs new_locs new_ids pn po =
      let k = node_kind g in
      erase_locs-IsWithin h k s _ old_locs
        (set_locs-IsWithin h k s s new_locs new_ids (λ p x. x) pn) po
