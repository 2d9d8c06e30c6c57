-- ===== src/Layout/Alloc/Takes.antt =====
-- What an allocation takes from the page layout, and the steps that take it.
use native.Mathlib.Nat.{suc-mul, div-le_self}
use hvs_disk.Base.{
  ℕ, zero, suc, ◌+◌, ◌-◌, ◌*◌, ◌%◌, ◌^◌, ◌≤◌, ◌<◌, ◌≡◌, ◌≢◌, refl, sym, ap, ◌∙◌, subst, inl, inr,
  List, [], ◌∷◌, ◌++◌, none, some, false, arith, ◌==◌, ◌&&◌, if◌then◌else◌, length, map, All,
  All-weaken, All-map, All-append, contains, contains-append, IsDistinct, Bool-cases, u32, lt→ltb,
}
use hvs_disk.Base.HashMap.{HashMap}
use hvs_disk.Layout.Sector.{
  Geometry, loc_sector_no, sector_to_loc, sector-sector_to_loc, sector_to_loc-sector,
}
use hvs_disk.Layout.Slots.{
  invalid_id, allocated_id, PageArr, Slots, node_kind, page_of, slot_or_invalid, slot_get,
}
use hvs_disk.Layout.Slots.View.{max_loc, IsSized}
use hvs_disk.Layout.Alloc.{put_page}
use hvs_disk.Layout.Alloc.Claim.{Claims}

le-mul : (p n : ℕ) → 0 < n → p ≤ p * n
le-mul zero n h = omega arith
le-mul (suc p) n h = omega (arith, suc-mul p n, le-mul p n h)

module _ (h : HashMap PageArr) (g : Geometry) where
  abbrev pub view : Slots h → ℕ → ℕ
  view s l = slot_get h (node_kind g) s l

  -- The locations were invalid, are distinct and are allocated now; no other location has changed.
  pub record Takes (s s' : Slots h) (ls : List ℕ) : Type 0 where
    pub fresh : All (λ (l : ℕ). (l < max_loc) × (view s l ≡ invalid_id)) ls
    pub distinct : IsDistinct ls
    pub after :
        (b : ℕ) → b < max_loc → view s' b ≡ (if contains ls b then allocated_id else view s b)

  -- Pages have their sizes, and stand between the first sector and the end of the used space.
  pub record IsSpace (s : Slots h) (end : ℕ) : Type 0 where
    pub sized : IsSized h (node_kind g) s
    pub below : (p : ℕ) → h.find p s.page_layout ≢ none → (0 < p) × (p * g.nnodes_per_sector ≤ end)

  pub Takes-none : (s s' : Slots h) → ((b : ℕ) → view s' b ≡ view s b) → Takes s s' []
  Takes-none s s' e = record { fresh = tt; distinct = tt; after = λ b lt. e b }

  fresh-later :
      (s t : Slots h) (ls ms : List ℕ)
      → Takes s t ls
      → All (λ (l : ℕ). (l < max_loc) × (view t l ≡ invalid_id)) ms
      → All (λ (l : ℕ). (contains ls l ≡ false) × (l < max_loc) × (view s l ≡ invalid_id)) ms
  fresh-later s t ls ms f = All-weaken _ _ ms (λ l (lt, e). ground (arith, f.after l lt, lt, e))

  contains-apart :
      (ls ms : List ℕ) (x : ℕ)
      → All (λ (l : ℕ). contains (x ∷ ls) l ≡ false) ms
      → contains ms x ≡ false
  contains-apart ls [] x a = refl
  contains-apart ls (m ∷ ms) x a = ground (arith, a.0, contains-apart ls ms x a.1)

  IsDistinct-append :
      (ls ms : List ℕ)
      → IsDistinct ls
      → IsDistinct ms
      → All (λ (l : ℕ). contains ls l ≡ false) ms
      → IsDistinct (ls ++ ms)
  IsDistinct-append [] ms d e a = e
  IsDistinct-append (l ∷ ls) ms d e a = (
    contains-append ls ms l ∙ ground (arith, d.0, contains-apart ls ms l a),
    IsDistinct-append ls ms d.1 e (All-weaken _ _ ms (λ m b. ground (arith, b)) a),
  )

  pub Takes-append :
      (s t u : Slots h) (ls ms : List ℕ) → Takes s t ls → Takes t u ms → Takes s u (ls ++ ms)
  Takes-append s t u ls ms f k =
      let later = fresh-later s t ls ms f k.fresh in
      record {
        fresh = All-append _ ls ms f.fresh (All-weaken _ _ ms (λ l x. (x.1, x.2)) later);
        distinct =
            IsDistinct-append ls ms f.distinct k.distinct (All-weaken _ _ ms (λ l x. x.0) later);
        after = λ b lt. ground (arith, f.after b lt, k.after b lt, contains-append ls ms b);
      }

  -- The location of an offset in a page below the end.
  sector-small : (b : ℕ) → 0 < g.nnodes_per_sector → b < max_loc → loc_sector_no g b < 2 ^ 32
  unfolding loc_sector_no
  sector-small b hn lt =
      let q = div-le_self b g.nnodes_per_sector in
      rw (lt→ltb 0 g.nnodes_per_sector hn) (omega (arith, q, lt))

  locates :
      (p o b : ℕ)
      → 0 < g.nnodes_per_sector
      → 0 < p
      → p < 2 ^ 32
      → o < g.nnodes_per_sector
      → b < max_loc
      → (sector_to_loc g p o == b)
        ≡ ((u32 (loc_sector_no g b) == p) && (o == b % g.nnodes_per_sector))
  locates p o b hn hp small ho lt =
      let n = g.nnodes_per_sector in
      let (r1, r2) = sector-sector_to_loc g p o hp (omega (arith, small)) ho in
      let fits : u32 (loc_sector_no g b) ≡ loc_sector_no g b =
        omega (arith, sector-small b hn lt) in
      elim (Bool-cases (sector_to_loc g p o == b)) [
        | inl same ↦
            let q : sector_to_loc g p o ≡ b = ground (arith, same) in
            let s1 = subst (λ (x : ℕ). loc_sector_no g x ≡ p) q r1 in
            let s2 = subst (λ (x : ℕ). x % n ≡ o) q r2 in ground (arith, same, fits, s1, s2)
        | inr other ↦ elim (Bool-cases ((u32 (loc_sector_no g b) == p) && (o == b % n))) [
          | inr no_page ↦ other ∙ sym no_page
          | inl here ↦
              let s1 : loc_sector_no g b ≡ p = ground (arith, here, fits) in
              let s2 : b % n ≡ o = ground (arith, here) in
              let back : sector_to_loc g p o ≡ b =
                ap (λ (x : ℕ). sector_to_loc g x o) (sym s1)
                ∙ ap (sector_to_loc g (loc_sector_no g b)) (sym s2)
                ∙ sector_to_loc-sector g b hn (omega (arith, lt)) in
              absurd (ground (arith, other, back))
        ]
      ]

  contains-page :
      (p b : ℕ) (offs : List ℕ)
      → 0 < g.nnodes_per_sector
      → 0 < p
      → p < 2 ^ 32
      → b < max_loc
      → All (λ (o : ℕ). o < g.nnodes_per_sector) offs
      → contains (map (sector_to_loc g p) offs) b
        ≡ ((u32 (loc_sector_no g b) == p) && contains offs (b % g.nnodes_per_sector))
  contains-page p b [] hn hp small lt a = ground arith
  contains-page p b (o ∷ offs) hn hp small lt a =
      ground (arith, locates p o b hn hp small a.0 lt, contains-page p b offs hn hp small lt a.1)

  -- A page below the end has a number and locations of 32 bits.
  page-small :
      (p end o : ℕ)
      → 0 < g.nnodes_per_sector
      → 0 < p
      → p * g.nnodes_per_sector ≤ end
      → end ≤ max_loc
      → o < g.nnodes_per_sector
      → (p < 2 ^ 32) × (sector_to_loc g p o < max_loc)
  unfolding sector_to_loc
  page-small p end o hn hp pe room ho =
      let n = g.nnodes_per_sector in
      let p' = p - 1 in
      let q : p ≡ suc p' = omega (arith, hp) in
      let prod : p * n ≡ p' * n + n = ap (λ (x : ℕ). x * n) q ∙ suc-mul p' n in
      let big : p ≤ p * n = le-mul p n hn in
      let pre : (p + 2 ^ 64 - 1) % 2 ^ 64 ≡ p' = omega (arith, big, pe, room, hp) in
      (omega (arith, big, pe, room), rw pre (omega (arith, prod, pe, room, ho)))

  IsDistinct-page :
      (p : ℕ) (offs : List ℕ)
      → 0 < g.nnodes_per_sector
      → 0 < p
      → p < 2 ^ 32
      → ((o : ℕ) → o < g.nnodes_per_sector → sector_to_loc g p o < max_loc)
      → All (λ (o : ℕ). o < g.nnodes_per_sector) offs
      → IsDistinct offs
      → IsDistinct (map (sector_to_loc g p) offs)
  IsDistinct-page p [] hn hp small big a d = tt
  IsDistinct-page p (o ∷ offs) hn hp small big a d =
      let (r1, r2) = sector-sector_to_loc g p o hp (omega (arith, small)) a.0 in
      (
        contains-page p (sector_to_loc g p o) offs hn hp small (big o a.0) a.1
            ∙ rw r2 (ground (arith, d.0)),
        IsDistinct-page p offs hn hp small big a.1 d.1,
      )

  pub Takes-page :
      (s : Slots h) (p end need : ℕ) (v v' : PageArr) (offs : List ℕ)
      → 0 < g.nnodes_per_sector
      → IsSpace s end
      → end ≤ max_loc
      → h.find p s.page_layout ≡ some v
      → Claims g.nnodes_per_sector 0 need v v' offs
      → Takes s (put_page h g s p v') (map (sector_to_loc g p) offs)
  unfolding slot_get page_of slot_or_invalid
  Takes-page s p end need v v' offs hn sp room e c =
      let n = g.nnodes_per_sector in
      let there : h.find p s.page_layout ≢ none = λ x. absurd (ground (arith, sym e ∙ x)) in
      let (hp, pe) = sp.below p there in
      let (small, _) = page-small p end 0 hn hp pe room hn in
      let bounds = All-weaken _ (λ (o : ℕ). o < n) offs (λ o x. omega (arith, x)) c.within in
      record {
        fresh = All-map _ (sector_to_loc g p) offs (
            All-weaken _ _ offs
              (λ o (lo, hi, inv).
                let ho : o < n = omega (arith, hi) in
                let (r1, r2) = sector-sector_to_loc g p o hp (omega (arith, small)) ho in
                let page : u32 (loc_sector_no g (sector_to_loc g p o)) ≡ p =
                  omega (arith, r1, small) in
                let o0 : o - 0 ≡ o = omega arith in
                ((page-small p end o hn hp pe room ho).1, rw (page, e, r2) (rw o0 at inv)))
              c.within);
        distinct =
            IsDistinct-page p offs hn hp small (λ o ho. (page-small p end o hn hp pe room ho).1)
              bounds c.distinct;
        after = λ b lt.
            let look = h.find-insert_or_assign p (u32 (loc_sector_no g b)) v' s.page_layout in
            let mem = contains-page p b offs hn hp small lt bounds in
            elim (Bool-cases (u32 (loc_sector_no g b) == p)) [
              | inl here ↦
                  let q : u32 (loc_sector_no g b) ≡ p = ground (arith, here) in
                  let found : h.find (u32 (loc_sector_no g b))
                        (h.insert_or_assign p v' s.page_layout)
                      ≡ some v' =
                    ground (arith, look, q) in
                  let old : h.find (u32 (loc_sector_no g b)) s.page_layout ≡ some v = rw q e in
                  let off : 0 + b % n ≡ b % n = omega arith in
                  let changed = rw off at (c.after (b % n)) in
                  rw (found, old) (ground (arith, mem, here, changed))
              | inr else_where ↦
                  let found : h.find (u32 (loc_sector_no g b))
                        (h.insert_or_assign p v' s.page_layout)
                      ≡ h.find (u32 (loc_sector_no g b)) s.page_layout =
                    ground (arith, look, else_where) in
                  rw found (ground (arith, mem, else_where))
            ];
      }

  pub IsSpace-page :
      (s : Slots h) (p end : ℕ) (v v' : PageArr)
      → IsSpace s end
      → h.find p s.page_layout ≡ some v
      → length v' ≡ length v
      → IsSpace (put_page h g s p v') end
  IsSpace-page s p end v v' sp e l = record {
    sized = λ q w x.
        ground
          (arith, h.find-insert_or_assign p q v' s.page_layout, x, l, sp.sized p v e, sp.sized q w);
    below = λ q x.
        ground (arith, h.find-insert_or_assign p q v' s.page_layout, x, sp.below q, sp.below p, e);
  }
