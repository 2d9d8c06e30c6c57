-- ===== src/Layout/Alloc/Fresh.antt =====
-- What alloc_loc grants from the empty pages and from the hint pages.
use hvs_disk.Base.{
  ℕ, zero, suc, ◌-◌, ◌^◌, ◌≤◌, ◌<◌, ◌≡◌, refl, sym, subst, inl, inr, List, [], ◌∷◌, some, true,
  false, arith, ◌==◌, if◌then◌else◌, length, length-append, length-map, map, All, contains,
  IsDistinct, Bool-cases, Option-cases, u32, ltb,
}
use hvs_disk.Base.HashMap.{HashMap}
use hvs_disk.Layout.Sector.{Geometry, sector_to_loc}
use hvs_disk.Layout.Slots.{invalid_id, allocated_id, PageArr, Slots, slot_get, all_invalid}
use hvs_disk.Layout.Slots.View.{max_loc}
use hvs_disk.Layout.Alloc.{
  claim, claim_empty, holes, Taken, put_page, more, nothing, use_empty, threshold, use_hints,
}
use hvs_disk.Layout.Alloc.Claim.{Claims, claim-Claims, claim_empty-claim}
use hvs_disk.Layout.Alloc.Takes.{Takes, IsSpace, Takes-none, Takes-append, Takes-page, IsSpace-page}

claim_empty-some :
    (n i need : ℕ) (v : PageArr)
    → all_invalid n v ≡ true
    → (r : PageArr × List ℕ) × (claim_empty n i need v ≡ some r)
unfolding claim_empty all_invalid
claim_empty-some zero i need v a = ((v, []), refl)
claim_empty-some (suc n) i need [] a = (([], []), refl)
claim_empty-some (suc n) i need (x ∷ v) a =
    let free : (x == invalid_id) ≡ true = ground (arith, a) in
    elim (Bool-cases (need == 1)) [
      | inl last ↦ ((allocated_id ∷ v, i ∷ []), rw (free, last) refl)
      | inr further ↦
          let (r, e) = claim_empty-some n (suc i) (need - 1) v (ground (arith, a)) in
          ((allocated_id ∷ r.0, i ∷ r.1), rw (free, further, e) refl)
    ]

module _ (h : HashMap PageArr) (g : Geometry) where
  -- What a part of the allocation grants, of at most `need` locations.
  pub record Grants (s : Slots h) (end need : ℕ) (r : Taken h) : Type 0 where
    pub space : IsSpace h g r.slots end
    pub takes : Takes h g s r.slots r.locs
    pub few : length r.locs ≤ need

  pub Grants-more :
      (s t : Slots h) (end need : ℕ) (ls reads : List ℕ) (r : Taken h)
      → Takes h g s t ls
      → length ls ≤ need
      → Grants t end (need - length ls) r
      → Grants s end need (more h g ls reads r)
  Grants-more s t end need ls reads r tk few gr = record {
    space = gr.space;
    takes = Takes-append h g s t r.slots ls r.locs tk gr.takes;
    few = omega (arith, length-append ls r.locs, few, gr.few);
  }

  -- A page of the queue, if it is in the layout, has invalid slots only.
  abbrev pub IsEmptyPage : Slots h → ℕ → Type 0
  IsEmptyPage s p =
      (v : PageArr) → h.find p s.page_layout ≡ some v → all_invalid g.nnodes_per_sector v ≡ true

  -- The queues are no part of the layout.
  requeue :
      (s t : Slots h) (end need : ℕ) (queue ls reads : List ℕ)
      → IsSpace h g t end
      → Takes h g s t ls
      → length ls ≤ need
      → Grants s end need (record {
        slots = record t { empty_pages = queue };
        locs = ls;
        page_need_to_read = reads;
      })
  unfolding slot_get
  requeue s t end need queue ls reads sp tk few = record {
    space = record { sized = sp.sized; below = sp.below };
    takes = record { fresh = tk.fresh; distinct = tk.distinct; after = tk.after };
    few = few;
  }

  empties-kept :
      (s : Slots h) (page : ℕ) (v' : PageArr) (ps : List ℕ)
      → contains ps page ≡ false
      → All (IsEmptyPage s) ps
      → All (IsEmptyPage (put_page h g s page v')) ps
  empties-kept s page v' [] d a = tt
  empties-kept s page v' (p ∷ ps) d a = (
    λ v e. a.0 v (ground (arith, d, e, h.find-insert_or_assign page p v' s.page_layout)),
    empties-kept s page v' ps (ground (arith, d)) a.1,
  )

  pub use_empty-Grants :
      (pages : List ℕ) (s : Slots h) (need end : ℕ)
      → 0 < g.nnodes_per_sector
      → 0 < need
      → end ≤ max_loc
      → IsSpace h g s end
      → IsDistinct pages
      → All (IsEmptyPage s) pages
      → (r : Taken h) × (use_empty h g pages s need ≡ some r) × Grants s end need r
  unfolding use_empty
  use_empty-Grants [] s need end hn p room sp d a =
      (_, refl, requeue s s end need [] [] [] sp (Takes-none h g s s (λ b. refl)) (omega arith))
  use_empty-Grants (page ∷ pages) s need end hn p room sp d a =
      elim (Bool-cases (page == invalid_id)) [
        | inl stop ↦ (
          nothing h g (record s { empty_pages = pages }),
          rw stop refl,
          requeue s s end need pages [] [] sp (Takes-none h g s s (λ b. refl)) (omega arith),
        )
        | inr real ↦ elim (Option-cases (h.find page s.page_layout)) [
          | inl gone ↦
              let (r, run, gr) = use_empty-Grants pages s need end hn p room sp d.1 a.1 in
              (r, rw (real, gone) run, gr)
          | inr (v, e) ↦
              let ((v', offs), ce) = claim_empty-some g.nnodes_per_sector 0 need v (a.0 v e) in
              let same = claim_empty-claim g.nnodes_per_sector 0 need v (v', offs) ce in
              let c : Claims g.nnodes_per_sector 0 need v v' offs =
                subst (λ (x : PageArr × List ℕ). Claims g.nnodes_per_sector 0 need v x.0 x.1)
                  (sym same) (claim-Claims g.nnodes_per_sector 0 need v p) in
              let locs = map (sector_to_loc g page) offs in
              let s' = put_page h g s page v' in
              let tk = Takes-page h g s page end need v v' offs hn sp room e c in
              let sp' = IsSpace-page h g s page end v v' sp e c.same_length in
              let len : length locs ≡ length offs = length-map (sector_to_loc g page) offs in
              elim (Bool-cases (length offs == need)) [
                | inl done ↦ (
                  record {
                    slots = record s' { empty_pages = pages };
                    locs = locs;
                    page_need_to_read = [];
                  },
                  rw (real, e, ce, done) refl,
                  requeue s s' end need pages locs [] sp' tk (omega (arith, len, c.few)),
                )
                | inr on ↦
                    let left : 0 < need - length offs = ground (arith, on, c.few) in
                    let (r, run, gr) =
                      use_empty-Grants pages s' (need - length offs) end hn left room sp' d.1
                        (empties-kept s page v' pages d.0 a.1) in
                    (
                      more h g locs [] r,
                      rw (real, e, ce, on, run) refl,
                      Grants-more s s' end need locs [] r tk (omega (arith, len, c.few))
                          (rw len gr),
                    )
              ]
        ]
      ]

  pub use_hints-Grants :
      (pages : List ℕ) (s : Slots h) (need end : ℕ)
      → 0 < g.nnodes_per_sector
      → 0 < need
      → end ≤ max_loc
      → IsSpace h g s end
      → All (λ (p : ℕ). p < 2 ^ 32) pages
      → Grants s end need (use_hints h g pages s need)
  unfolding use_hints
  use_hints-Grants [] s need end hn p room sp a = record {
    space = sp;
    takes = Takes-none h g s s (λ b. refl);
    few = omega arith;
  }
  use_hints-Grants (page ∷ pages) s need end hn p room sp a =
      let n = g.nnodes_per_sector in
      let same : u32 page ≡ page = omega (arith, a.0) in
      elim (Option-cases (h.find (u32 page) s.page_layout)) [
        | inl gone ↦ rw (gone, use_hints) (use_hints-Grants pages s need end hn p room sp a.1)
        | inr (v, e0) ↦ elim (Bool-cases (ltb (holes n v) (threshold h g))) [
          | inl few ↦ rw (e0, use_hints, few) (use_hints-Grants pages s need end hn p room sp a.1)
          | inr enough ↦
              let e : h.find page s.page_layout ≡ some v = rw same at e0 in
              let v' = (claim n 0 need v).0 in
              let offs = (claim n 0 need v).1 in
              let c = claim-Claims n 0 need v p in
              let locs = map (sector_to_loc g page) offs in
              let s' = put_page h g s page v' in
              let tk = Takes-page h g s page end need v v' offs hn sp room e c in
              let sp' = IsSpace-page h g s page end v v' sp e c.same_length in
              let len : length locs ≡ length offs = length-map (sector_to_loc g page) offs in
              let fits : length locs ≤ need = omega (arith, len, c.few) in
              elim (Bool-cases (length offs == need)) [
                | inl done ↦
                    rw (e0, use_hints, enough, done, same)
                      (record { space = sp'; takes = tk; few = fits })
                | inr on ↦
                    let left : 0 < need - length offs = ground (arith, on, c.few) in
                    rw (e0, use_hints, enough, on, same)
                      (Grants-more s s' end need locs (if ltb (holes n v) n then page ∷ [] else [])
                        (use_hints h g pages s' (need - length offs)) tk fits
                        (rw len (
                          use_hints-Grants pages s' (need - length offs) end hn left room sp' a.1)))
              ]
        ]
      ]
