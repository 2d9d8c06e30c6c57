-- ===== src/Layout/Slots/Move.antt =====
-- Moving records: what erase_and_set_loc does to the page layout as a whole.
use hvs_disk.Base.{
  ℕ, ◌≤◌, ◌<◌, ◌≡◌, ◌≢◌, refl, sym, ap, subst, ◌∙◌, inl, inr, List, [], ◌∷◌, none, arith, ◌==◌,
  if◌then◌else◌, u32, Option-cases, All, contains,
}
use hvs_disk.Base.HashMap.{HashMap}
use hvs_disk.Layout.Sector.{Geometry}
use hvs_disk.Layout.Slots.{
  invalid_id, PageArr, Kind, node_kind, Slots, page_of, slot_get, slot_set, slot_erase, loc2id,
  set_loc2id, erase_loc2id, set_locs, erase_locs, erase_and_set_loc,
}
use hvs_disk.Layout.Slots.View.{
  max_loc, IsSound, IsSized, slot_get-slot_set, slot_set-IsSized, slot_get-slot_erase,
  slot_erase-IsSized, node_kind-IsSound,
}

-- The ids after the writes: the last write to a location counts.
abbrev pub assigned : List ℕ → List ℕ → ℕ → ℕ → ℕ
assigned [] ids l d = d
assigned (n ∷ ns) [] l d = d
assigned (n ∷ ns) (i ∷ ids) l d = assigned ns ids l (if n == l then i else d)

module _ (h : HashMap PageArr) (k : Kind) where
  -- The page of a location is in the map.
  abbrev pub IsPresent : Slots h → ℕ → Type 0
  IsPresent s l = h.find (page_of h k l) s.page_layout ≢ none

  slot_set-IsPresent :
      (s : Slots h) (a id l : ℕ) → IsPresent s l → IsPresent (slot_set h k s a id) l
  unfolding slot_set page_of
  slot_set-IsPresent s a id l p =
      let q = u32 (k.sector_no a) in
      rw (h.find-insert_or_assign q (u32 (k.sector_no l)) _ s.page_layout) (ground (arith, p))

  slot_erase-IsPresent : (s : Slots h) (a l : ℕ) → IsPresent s l → IsPresent (slot_erase h k s a) l
  unfolding slot_erase page_of
  slot_erase-IsPresent s a l p =
      let q = u32 (k.sector_no a) in
      elim (Option-cases (h.find q s.page_layout)) [
        | inl e ↦
            rw (e, slot_erase, h.find-insert_or_assign q (u32 (k.sector_no l)) _ s.page_layout)
              (ground (arith, p))
        | inr (v, e) ↦
            rw (e, slot_erase, h.find-insert_or_assign q (u32 (k.sector_no l)) _ s.page_layout)
              (ground (arith, p))
      ]

  abbrev IsPlace : Slots h → ℕ → Type 0
  IsPlace s l = (l < max_loc) × IsPresent s l

  IsPlace-slot_set :
      (s : Slots h) (a id : ℕ) (ls : List ℕ)
      → All (IsPlace s) ls
      → All (IsPlace (slot_set h k s a id)) ls
  IsPlace-slot_set s a id [] p = tt
  IsPlace-slot_set s a id (l ∷ ls) (p, ps) =
      ((p.0, slot_set-IsPresent s a id l p.1), IsPlace-slot_set s a id ls ps)

  IsPlace-slot_erase :
      (s : Slots h) (a : ℕ) (ls : List ℕ)
      → All (IsPlace s) ls
      → All (IsPlace (slot_erase h k s a)) ls
  IsPlace-slot_erase s a [] p = tt
  IsPlace-slot_erase s a (l ∷ ls) (p, ps) =
      ((p.0, slot_erase-IsPresent s a l p.1), IsPlace-slot_erase s a ls ps)

module _ (h : HashMap PageArr) (k : Kind) (sound : IsSound k) where
  -- After the writes: every page is sized, present pages stay, and the last id counts.
  set_locs-assigned :
      (s : Slots h) (ls ids olds : List ℕ) (b : ℕ)
      → IsSized h k s
      → All (λ l. l < max_loc) ls
      → All (IsPlace h k s) olds
      → b < max_loc
      → let s' = set_locs h (slot_set h k) s ls ids in
        IsSized h k s'
        × All (IsPlace h k s') olds
        × (slot_get h k s' b ≡ assigned ls ids b (slot_get h k s b))
  unfolding set_locs
  set_locs-assigned s [] ids olds b w p q lt = (w, q, refl)
  set_locs-assigned s (l ∷ ls) [] olds b w p q lt = (w, q, refl)
  set_locs-assigned s (l ∷ ls) (i ∷ ids) olds b w (pl, ps) q lt =
      let e : u32 l ≡ l = omega (arith, pl) in
      let s' = slot_set h k s (u32 l) i in
      let pl' : u32 l < max_loc = omega (arith, pl) in
      let (w', q', r) =
        set_locs-assigned s' ls ids olds b (slot_set-IsSized h k sound s (u32 l) i w) ps
          (IsPlace-slot_set h k s (u32 l) i olds q) lt in
      (
        w',
        q',
        r
            ∙ ap (assigned ls ids b) (
                slot_get-slot_set h k sound s (u32 l) b i w pl' lt
                ∙ ap (λ (x : ℕ). if x == b then i else slot_get h k s b) e),
      )

  erase_locs-get :
      (s : Slots h) (ls : List ℕ) (b : ℕ)
      → IsSized h k s
      → All (IsPlace h k s) ls
      → b < max_loc
      → slot_get h k (erase_locs h (slot_erase h k) s ls) b
        ≡ (if contains ls b then invalid_id else slot_get h k s b)
  unfolding erase_locs
  erase_locs-get s [] b w p lt = refl
  erase_locs-get s (l ∷ ls) b w ((pl, here), ps) lt =
      let e : u32 l ≡ l = omega (arith, pl) in
      let pl' : u32 l < max_loc = omega (arith, pl) in
      let here' = subst (IsPresent h k s) (sym e) here in
      let rest =
        erase_locs-get (slot_erase h k s (u32 l)) ls b (slot_erase-IsSized h k sound s (u32 l) w)
          (IsPlace-slot_erase h k s (u32 l) ls ps) lt in
      ground (arith, rest, slot_get-slot_erase h k sound s (u32 l) b w pl' lt here')

  erase_locs-IsSized :
      (s : Slots h) (ls : List ℕ) → IsSized h k s → IsSized h k (erase_locs h (slot_erase h k) s ls)
  unfolding erase_locs
  erase_locs-IsSized s [] w = w
  erase_locs-IsSized s (l ∷ ls) w =
      erase_locs-IsSized (slot_erase h k s (u32 l)) ls (slot_erase-IsSized h k sound s (u32 l) w)

module _ (h : HashMap PageArr) (g : Geometry) where
  -- erase_and_set_loc, for pages of 1 to 60 nodes, locations below 2^32 - 1 and old locations whose
  -- pages are in the layout: afterwards an old location reads as invalid, any other new location
  -- reads the last id written to it, and every other location reads what it read before.
  pub loc2id-erase_and_set_loc :
      (s : Slots h) (old_locs new_locs new_ids : List ℕ) (b : ℕ)
      → 0 < g.nnodes_per_sector
      → g.nnodes_per_sector ≤ 60
      → IsSized h (node_kind g) s
      → All (λ l. l < max_loc) new_locs
      → All (λ l. (l < max_loc) × IsPresent h (node_kind g) s l) old_locs
      → b < max_loc
      → loc2id h g (erase_and_set_loc h g s old_locs new_locs new_ids) b
        ≡ (if contains old_locs b then invalid_id else assigned new_locs new_ids b (loc2id h g s b))
  unfolding erase_and_set_loc loc2id set_loc2id erase_loc2id
  loc2id-erase_and_set_loc s old_locs new_locs new_ids b pos fits w pn po lt =
      let k = node_kind g in
      let sound = node_kind-IsSound g pos fits in
      let (w', q, r) = set_locs-assigned h k sound s new_locs new_ids old_locs b w pn po lt in
      erase_locs-get h k sound _ old_locs b w' q lt
      ∙ ap (λ (x : ℕ). if contains old_locs b then invalid_id else x) r

  pub erase_and_set_loc-IsSized :
      (s : Slots h) (old_locs new_locs new_ids : List ℕ)
      → 0 < g.nnodes_per_sector
      → g.nnodes_per_sector ≤ 60
      → IsSized h (node_kind g) s
      → All (λ l. l < max_loc) new_locs
      → IsSized h (node_kind g) (erase_and_set_loc h g s old_locs new_locs new_ids)
  unfolding erase_and_set_loc set_loc2id erase_loc2id
  erase_and_set_loc-IsSized s old_locs new_locs new_ids pos fits w pn =
      let k = node_kind g in
      let sound = node_kind-IsSound g pos fits in
      let (w', q, r) = set_locs-assigned h k sound s new_locs new_ids [] 0 w pn tt (omega arith) in
      erase_locs-IsSized h k sound _ old_locs w'
