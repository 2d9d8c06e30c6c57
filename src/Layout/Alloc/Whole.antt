-- ===== src/Layout/Alloc/Whole.antt =====
-- alloc_loc as a whole.
use hvs_disk.Base.{
  ℕ, ◌+◌, ◌-◌, ◌^◌, ◌≤◌, ◌<◌, ◌≡◌, refl, inl, inr, List, [], ◌++◌, some, arith, ◌==◌, length,
  length-append, All, IsDistinct, Bool-cases,
}
use hvs_disk.Base.HashMap.{HashMap}
use hvs_disk.Layout.Sector.{Geometry}
use hvs_disk.Layout.Slots.{PageArr, Slots}
use hvs_disk.Layout.Slots.View.{max_loc}
use hvs_disk.Layout.Alloc.{
  Space, Taken, more, use_hints, extend, aligned, add_new, add_hints, alloc_loc,
}
use hvs_disk.Layout.Alloc.Takes.{Takes, IsSpace, Takes-append}
use hvs_disk.Layout.Alloc.Fresh.{Grants, IsEmptyPage, use_empty-Grants, use_hints-Grants}
use hvs_disk.Layout.Alloc.Extend.{aligned-end, past-end, extend-Grants}

module _ (h : HashMap PageArr) (g : Geometry) where
  -- What an allocation of n locations returns.
  pub record Allocated (n : ℕ) (s : Space h) (r : Space h × List ℕ × List ℕ) : Type 0 where
    pub takes : Takes h g s.slots r.0.slots r.1
    pub enough : length r.1 ≡ n
    pub space : IsSpace h g r.0.slots r.0.cur_loc
    pub grows : (s.cur_loc ≤ r.0.cur_loc) × (r.0.cur_loc ≤ s.cur_loc + n + g.nnodes_per_sector)

  weaken : (s : Slots h) (a b : ℕ) → a ≤ b → IsSpace h g s a → IsSpace h g s b
  weaken s a b le sp = record {
    sized = sp.sized;
    below = λ p x. let (p1, p2) = sp.below p x in (p1, omega (arith, p2, le));
  }

  add_new-Allocated :
      (s : Space h) (n need : ℕ) (r : Taken h)
      → 0 < g.nnodes_per_sector
      → g.nnodes_per_sector ≤ 60
      → s.cur_loc + n + g.nnodes_per_sector ≤ max_loc
      → Takes h g s.slots r.slots r.locs
      → IsSpace h g r.slots s.cur_loc
      → length r.locs + need ≡ n
      → Allocated n s (add_new h g s.cur_loc need r)
  add_new-Allocated s n need r hn fits room tk sp count =
      let end = aligned h g (s.cur_loc + need) in
      let (lo, al, hi) = aligned-end h g (s.cur_loc + need) hn in
      let small : end ≤ max_loc = omega (arith, hi, room, count) in
      let sp' = weaken r.slots s.cur_loc end (omega (arith, lo)) sp in
      let (gr, len) =
        extend-Grants h g need s.cur_loc r.slots end hn fits al small lo sp'
          (λ b le lt. past-end h g r.slots s.cur_loc b hn sp le lt) in
      let new = extend h g need s.cur_loc r.slots in
      record {
        takes = Takes-append h g s.slots r.slots new.slots r.locs new.locs tk gr.takes;
        enough = omega (arith, length-append r.locs new.locs, len, count);
        space = gr.space;
        grows = (omega (arith, lo), omega (arith, hi, count));
      }

  add_hints-Allocated :
      (hints : List ℕ) (s : Space h) (n : ℕ) (r : Taken h)
      → 0 < g.nnodes_per_sector
      → g.nnodes_per_sector ≤ 60
      → s.cur_loc + n + g.nnodes_per_sector ≤ max_loc
      → All (λ (p : ℕ). p < 2 ^ 32) hints
      → Grants h g s.slots s.cur_loc n r
      → Allocated n s (add_hints h g hints s.cur_loc n r)
  add_hints-Allocated hints s n r hn fits room small gr =
      let below : s.cur_loc ≤ max_loc = omega (arith, room) in
      elim (Bool-cases (length r.locs == n)) [
        | inl done ↦ rw done (record {
          takes = gr.takes;
          enough = ground (arith, done);
          space = gr.space;
          grows = (omega arith, omega arith);
        })
        | inr on ↦
            let left : 0 < n - length r.locs = ground (arith, on, gr.few) in
            let hinted = use_hints h g hints r.slots (n - length r.locs) in
            let hg =
              use_hints-Grants h g hints r.slots (n - length r.locs) s.cur_loc hn left below
                gr.space small in
            let tk =
              Takes-append h g s.slots r.slots hinted.slots r.locs hinted.locs gr.takes hg.takes in
            let len = length-append r.locs hinted.locs in
            elim (Bool-cases (length (r.locs ++ hinted.locs) == n)) [
              | inl done ↦
                  rw (on, done)
                    (record {
                      takes = tk;
                      enough = ground (arith, done);
                      space = hg.space;
                      grows = (omega arith, omega arith);
                    })
              | inr short ↦
                  rw (on, short)
                    (add_new-Allocated s n _ (more h g r.locs [] hinted) hn fits room tk hg.space
                      (omega (arith, len, gr.few, hg.few)))
            ]
      ]

  -- An allocation of n > 0 locations succeeds: it returns n locations, distinct, invalid before and
  -- allocated now, and changes no other location; pages still stand between the first sector and the
  -- end of the used space, which grows by at most n and one page. Conditions: 1 to 60 locations per
  -- page, pages of their sizes below the end of the used space, room below 2^32 - 2 for n more
  -- locations and one page, distinct pages in the queue with only invalid slots, hints of 32 bits.
  pub alloc_loc-Allocated :
      (n : ℕ) (hints : List ℕ) (s : Space h)
      → 0 < n
      → 0 < g.nnodes_per_sector
      → g.nnodes_per_sector ≤ 60
      → s.cur_loc + n + g.nnodes_per_sector ≤ max_loc
      → IsSpace h g s.slots s.cur_loc
      → IsDistinct s.slots.empty_pages
      → All (IsEmptyPage h g s.slots) s.slots.empty_pages
      → All (λ (p : ℕ). p < 2 ^ 32) hints
      → (r : Space h × List ℕ × List ℕ) × (alloc_loc h g n hints s ≡ some r) × Allocated n s r
  unfolding alloc_loc
  alloc_loc-Allocated n hints s p hn fits room sp d a small =
      let below : s.cur_loc ≤ max_loc = omega (arith, room) in
      let (r, run, gr) =
        use_empty-Grants h g s.slots.empty_pages s.slots n s.cur_loc hn p below sp d a in
      (
        add_hints h g hints s.cur_loc n r,
        rw (alloc_loc, run) refl,
        add_hints-Allocated hints s n r hn fits room small gr,
      )
