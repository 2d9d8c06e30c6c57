-- ===== src/Layout/Alloc/Extend.antt =====
-- What alloc_loc grants past the used space.
use native.Mathlib.Nat.{
  div-lt_iff_lt-mul, mul-le-mul_right, mul-mod_left, div-add-mod', mod-lt, div-le_self, suc-mul,
}
use hvs_disk.Base.{
  ℕ, zero, suc, ◌+◌, ◌-◌, ◌*◌, ◌/◌, ◌%◌, ◌≤◌, ◌<◌, ◌≡◌, ◌≢◌, refl, sym, ap, ◌∙◌, inl, inr, [], ◌∷◌,
  none, arith, ◌==◌, length, Bool-cases, Option-cases, u32, lt→ltb,
}
use hvs_disk.Base.HashMap.{HashMap}
use hvs_disk.Layout.Sector.{Geometry, loc_sector_no}
use hvs_disk.Layout.Slots.{
  invalid_id, allocated_id, PageArr, Slots, node_kind, page_of, slot_or_invalid, slot_get, slot_set,
  set_loc2id,
}
use hvs_disk.Layout.Slots.View.{max_loc, node_kind-IsSound, slot_get-slot_set, slot_set-IsSized}
use hvs_disk.Layout.Alloc.{extend, aligned}
use hvs_disk.Layout.Alloc.Takes.{view, Takes, IsSpace, Takes-none}
use hvs_disk.Layout.Alloc.Fresh.{Grants, Grants-more}

-- The last page that a location below an aligned end touches ends there.
page-end : (n loc end : ℕ) → 0 < n → end % n ≡ 0 → loc < end → (1 + loc / n) * n ≤ end
page-end n loc end hn al lt =
    let whole : end / n * n ≡ end = omega (arith, div-add-mod' end n, al) in
    let q : loc / n < end / n = (div-lt_iff_lt-mul {x = loc} hn).1 (omega (arith, lt, whole)) in
    omega (arith, mul-le-mul_right n (le_suc q), whole)
  where
    le_suc : loc / n < end / n → 1 + loc / n ≤ end / n
    le_suc q = omega (arith, q)

module _ (h : HashMap PageArr) (g : Geometry) where
  pub aligned-end :
      (loc : ℕ)
      → 0 < g.nnodes_per_sector
      → (loc ≤ aligned h g loc)
        × (aligned h g loc % g.nnodes_per_sector ≡ 0)
        × (aligned h g loc < loc + g.nnodes_per_sector)
  unfolding aligned
  aligned-end loc hn =
      let n = g.nnodes_per_sector in
      let lt = mod-lt loc hn in
      let split = div-add-mod' loc n in
      elim (Bool-cases (loc % n == 0)) [
        | inl whole ↦ rw whole (omega arith, ground (arith, whole), omega (arith, hn))
        | inr part ↦
            let q : loc + (n - loc % n) ≡ suc (loc / n) * n =
              omega (arith, suc-mul (loc / n) n, split, lt) in
            rw part (
              omega arith,
              ap (λ (x : ℕ). x % n) q ∙ mul-mod_left (suc (loc / n)) n,
              ground (arith, part, lt),
            )
      ]

  pub sector-u32 :
      (b : ℕ)
      → 0 < g.nnodes_per_sector
      → b < max_loc
      → u32 (loc_sector_no g b) ≡ 1 + b / g.nnodes_per_sector
  unfolding loc_sector_no
  sector-u32 b hn lt =
      let q = div-le_self b g.nnodes_per_sector in
      rw (lt→ltb 0 g.nnodes_per_sector hn) (omega (arith, q, lt))

  set-below :
      (s : Slots h) (loc end p : ℕ)
      → IsSpace h g s end
      → u32 (loc_sector_no g loc) ≡ 1 + loc / g.nnodes_per_sector
      → (1 + loc / g.nnodes_per_sector) * g.nnodes_per_sector ≤ end
      → h.find p (slot_set h (node_kind g) s loc allocated_id).page_layout ≢ none
      → (0 < p) × (p * g.nnodes_per_sector ≤ end)
  unfolding slot_set page_of
  set-below s loc end p sp page end_of_page x =
      let q = u32 (loc_sector_no g loc) in
      elim (Bool-cases (q == p)) [
        | inl here ↦
            let e : p ≡ 1 + loc / g.nnodes_per_sector = ground (arith, here, page) in
            rw e (omega arith, end_of_page)
        | inr other ↦ sp.below p (λ y. x (h.find-insert_or_assign q p _ s.page_layout ∙ rw other y))
      ]

  -- Past the end every location reads as invalid.
  pub past-end :
      (s : Slots h) (end b : ℕ)
      → 0 < g.nnodes_per_sector
      → IsSpace h g s end
      → end ≤ b
      → b < max_loc
      → view h g s b ≡ invalid_id
  unfolding slot_get slot_or_invalid page_of
  past-end s end b hn sp le lt =
      let n = g.nnodes_per_sector in
      let page = sector-u32 b hn lt in
      elim (Option-cases (h.find (u32 (loc_sector_no g b)) s.page_layout)) [
        | inl gone ↦ rw gone refl
        | inr (v, e) ↦
            let (_, pe) =
              sp.below (u32 (loc_sector_no g b)) (λ x. absurd (ground (arith, sym e ∙ x))) in
            let pe' : (1 + b / n) * n ≤ end = rw page at pe in
            absurd (omega (arith, suc-mul (b / n) n, div-add-mod' b n, mod-lt b hn, pe', le))
      ]

  -- One location of new space.
  set-Takes :
      (s : Slots h) (loc end : ℕ)
      → 0 < g.nnodes_per_sector
      → g.nnodes_per_sector ≤ 60
      → end % g.nnodes_per_sector ≡ 0
      → end ≤ max_loc
      → loc < end
      → IsSpace h g s end
      → view h g s loc ≡ invalid_id
      → Takes h g s (set_loc2id h g s (u32 loc) allocated_id) (loc ∷ [])
        × IsSpace h g (set_loc2id h g s (u32 loc) allocated_id) end
  unfolding set_loc2id
  set-Takes s loc end hn fits al room lt sp free =
      let k = node_kind g in
      let n = g.nnodes_per_sector in
      let sound = node_kind-IsSound g hn fits in
      let small : loc < max_loc = omega (arith, lt, room) in
      let same : u32 loc ≡ loc = omega (arith, small) in
      let page : u32 (loc_sector_no g loc) ≡ 1 + loc / n = sector-u32 loc hn small in
      let end_of_page = page-end n loc end hn al lt in
      rw same (
        record {
          fresh = ((small, free), tt);
          distinct = (refl, tt);
          after = λ b lb.
              slot_get-slot_set h k sound s loc b allocated_id sp.sized small lb ∙ ground arith;
        },
        record {
          sized = slot_set-IsSized h k sound s loc allocated_id sp.sized;
          below = λ p x. set-below s loc end p sp page end_of_page x;
        },
      )

  pub extend-Grants :
      (k loc : ℕ) (s : Slots h) (end : ℕ)
      → 0 < g.nnodes_per_sector
      → g.nnodes_per_sector ≤ 60
      → end % g.nnodes_per_sector ≡ 0
      → end ≤ max_loc
      → loc + k ≤ end
      → IsSpace h g s end
      → ((b : ℕ) → loc ≤ b → b < max_loc → view h g s b ≡ invalid_id)
      → Grants h g s end k (extend h g k loc s) × (length (extend h g k loc s).locs ≡ k)
  unfolding extend
  extend-Grants zero loc s end hn fits al room le sp free =
      (record { space = sp; takes = Takes-none h g s s (λ b. refl); few = omega arith }, refl)
  extend-Grants (suc k) loc s end hn fits al room le sp free =
      let lt : loc < end = omega (arith, le) in
      let s' = set_loc2id h g s (u32 loc) allocated_id in
      let (tk, sp') =
        set-Takes s loc end hn fits al room lt sp
          (free loc (omega arith) (omega (arith, lt, room))) in
      let (gr, len) =
        extend-Grants k (suc loc) s' end hn fits al room (omega (arith, le)) sp'
          (λ b lb small. ground (arith, tk.after b small, free b (omega (arith, lb)) small, lb)) in
      (
        Grants-more h g s s' end (suc k) (loc ∷ []) [] (extend h g k (suc loc) s') tk (omega arith)
            (let e : suc k - 1 ≡ k = omega arith in rw e gr),
        ap suc len,
      )
