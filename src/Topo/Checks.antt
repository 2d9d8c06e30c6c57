-- ===== src/Topo/Checks.antt =====
-- The checks and the pages of a part whose ids stand at their locations.
use hvs_disk.Base.{
  ℕ, zero, suc, ◌≡◌, ◌≤◌, ◌||◌, refl, ap, inl, inr, some, true, false, arith, ◌==◌, Option-cases,
  Bool-cases,
}
use hvs_disk.Base.HashMap.{HashMap}
use hvs_disk.Layout.Slots.{invalid_id, allocated_id, PageArr, Kind, slot_get}
use hvs_disk.Layout.Slots.View.{IsSound}
use hvs_disk.Topo.Placed.{IsPlaced}
use hvs_disk.Topo.{Part, find_loc, verify_part, verify_locs, verify_id2loc_part, id2page_part}

module _ (m : HashMap ℕ) (h : HashMap PageArr) (k : Kind) (sound : IsSound k) where
  -- The check passes over ids that stand where the map says.
  verify_part-IsPlaced :
      (n : ℕ) (tags : m.Table) (p : Part m h)
      → IsPlaced m h k sound tags p
      → verify_part m h k n tags p ≡ true
  unfolding verify_part find_loc
  verify_part-IsPlaced zero tags p pl = refl
  verify_part-IsPlaced (suc n) tags p pl =
      let rest = verify_part-IsPlaced n tags p pl in
      elim (Option-cases (m.find n tags)) [
        | inl gone ↦ rw (verify_part, gone) rest
        | inr (tag, e) ↦
            let (l, el, lt, stands, si) = pl.placed n tag e in
            rw (verify_part, e, find_loc, el) (ground (arith, lt, stands, rest))
      ]

  -- The second loop finds no inconsistency.
  verify_locs-IsPlaced :
      (n : ℕ) (tags : m.Table) (p : Part m h)
      → IsPlaced m h k sound tags p
      → n ≤ p.cur_loc
      → verify_locs m h k n p ≡ true
  unfolding verify_locs find_loc
  verify_locs-IsPlaced zero tags p pl le = refl
  verify_locs-IsPlaced (suc n) tags p pl le =
      let rest = verify_locs-IsPlaced n tags p pl (omega (arith, le)) in
      let id = slot_get h k p.slots n in
      elim (Bool-cases ((id == invalid_id) || (id == allocated_id))) [
        | inl none_here ↦ rw none_here rest
        | inr one ↦
            let (tag, at, _) = pl.owned n (omega (arith, le)) (ground (arith, one)) in
            rw (one, find_loc, at) (ground (arith, rest))
      ]

  pub verify_id2loc_part-IsPlaced :
      (n : ℕ) (tags : m.Table) (p : Part m h)
      → IsPlaced m h k sound tags p
      → verify_id2loc_part m h k n tags p ≡ some true
  unfolding verify_id2loc_part
  verify_id2loc_part-IsPlaced n tags p pl =
      rw (verify_part-IsPlaced n tags p pl)
        (ap some (verify_locs-IsPlaced p.cur_loc tags p pl (omega arith)))

  -- The page of an id holds it.
  pub id2page_part-IsPlaced :
      (tags : m.Table) (p : Part m h) (id tag : ℕ)
      → IsPlaced m h k sound tags p
      → m.find id tags ≡ some tag
      → (l : ℕ) × (id2page_part m h k p id ≡ k.sector_no l) × (slot_get h k p.slots l ≡ id)
  unfolding id2page_part find_loc
  id2page_part-IsPlaced tags p id tag pl e =
      let (l, el, lt, stands, si) = pl.placed id tag e in
      let ne : (l == invalid_id) ≡ false = ground (arith, lt, pl.room) in
      (l, rw (id2page_part, find_loc, el, ne) refl, stands)
