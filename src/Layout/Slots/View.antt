-- ===== src/Layout/Slots/View.antt =====
-- The page layout as a function from locations to ids: what each write does to it.
use native.Mathlib.Nat.{le_trans, mod-lt, div-le_self}
use hvs_disk.Base.{
  ℕ, zero, suc, ◌+◌, ◌-◌, ◌/◌, ◌%◌, ◌^◌, ◌≤◌, ◌<◌, ◌≡◌, refl, ap, ◌∙◌, inl, inr, [], ◌∷◌, Option,
  none, some, true, arith, ◌==◌, if◌then◌else◌, length, get_or, set, replicate, length-set,
  length-replicate, get_or-set, u32, Option-cases, Bool-cases, ◌≢◌, lt→ltb,
}
use hvs_disk.Base.HashMap.{HashMap}
use hvs_disk.Layout.Sector.{
  Geometry, loc_sector_no, loc_sector_no_topo, loc_sector_no_coord, same_place,
}
use hvs_disk.Layout.Slots.{
  invalid_id, PageArr, Kind, node_kind, topo_kind, coord_kind, fill_invalid, all_invalid,
  page_or_fresh, slot_or_invalid, Slots, page_of, slot_get, slot_set, slot_erase,
}

length-fill_invalid : (n : ℕ) (v : PageArr) → length (fill_invalid n v) ≡ length v
unfolding fill_invalid
length-fill_invalid zero v = refl
length-fill_invalid (suc n) [] = refl
length-fill_invalid (suc n) (x ∷ v) = ap suc (length-fill_invalid n v)

get_or-fill_invalid :
    (n i : ℕ) (v : PageArr) → i < n → get_or (fill_invalid n v) i invalid_id ≡ invalid_id
unfolding fill_invalid
get_or-fill_invalid zero i v h = absurd (omega arith)
get_or-fill_invalid (suc n) i [] h = refl
get_or-fill_invalid (suc n) zero (x ∷ v) h = refl
get_or-fill_invalid (suc n) (suc i) (x ∷ v) h = get_or-fill_invalid n i v (omega arith)

all_invalid-get_or :
    (n i : ℕ) (v : PageArr) → all_invalid n v ≡ true → i < n → get_or v i invalid_id ≡ invalid_id
unfolding all_invalid
all_invalid-get_or zero i v t h = absurd (omega arith)
all_invalid-get_or (suc n) i [] t h = refl
all_invalid-get_or (suc n) zero (x ∷ v) t h = ground arith
all_invalid-get_or (suc n) (suc i) (x ∷ v) t h = ground (arith, all_invalid-get_or n i v)

-- Locations are below this bound, so that no sector number wraps in 32 bits.
abbrev pub max_loc : ℕ
max_loc = 2 ^ 32 - 1

-- A slot is determined by its page and its offset; a page's slots fit its array.
pub record IsSound (k : Kind) : Type 0 where
  pub positive : 0 < k.per_sector
  pub fits : k.per_sector ≤ k.capacity
  pub separates :
      (a b : ℕ)
      → a < max_loc
      → b < max_loc
      → u32 (k.sector_no a) ≡ u32 (k.sector_no b)
      → a % k.per_sector ≡ b % k.per_sector
      → a ≡ b

pub node_kind-IsSound :
    (g : Geometry) → 0 < g.nnodes_per_sector → g.nnodes_per_sector ≤ 60 → IsSound (node_kind g)
unfolding loc_sector_no
node_kind-IsSound g p f = record {
  positive = p;
  fits = f;
  separates = λ a b ha hb e r.
      let n = g.nnodes_per_sector in
      let qa = div-le_self a n in
      let qb = div-le_self b n in
      let e' : u32 (1 + a / n) ≡ u32 (1 + b / n) = rw (lt→ltb 0 n p) at e in
      same_place n a b (omega arith) r;
}

pub topo_kind-IsSound :
    (g : Geometry) → 0 < g.ntopo_per_sector → g.ntopo_per_sector ≤ 60 → IsSound (topo_kind g)
unfolding loc_sector_no_topo
topo_kind-IsSound g p f = record {
  positive = p;
  fits = f;
  separates = λ a b ha hb e r.
      let n = g.ntopo_per_sector in
      let qa = div-le_self a n in let qb = div-le_self b n in same_place n a b (omega arith) r;
}

pub coord_kind-IsSound :
    (g : Geometry) → 0 < g.ncoord_per_sector → g.ncoord_per_sector ≤ 16 → IsSound (coord_kind g)
unfolding loc_sector_no_coord
coord_kind-IsSound g p f = record {
  positive = p;
  fits = f;
  separates = λ a b ha hb e r.
      let n = g.ncoord_per_sector in
      let qa = div-le_self a n in
      let qb = div-le_self b n in
      let e' : u32 (a / n) ≡ u32 (b / n) = rw (lt→ltb 0 n p) at e in
      same_place n a b (omega arith) r;
}

module _ (h : HashMap PageArr) (k : Kind) where
  -- Every page's array has the capacity of its kind.
  abbrev pub IsSized : Slots h → Type 0
  IsSized s = (p : ℕ) (v : PageArr) → h.find p s.page_layout ≡ some v → length v ≡ k.capacity

module _ (h : HashMap PageArr) (k : Kind) (sound : IsSound k) where
  length-page_or_fresh :
      (s : Slots h) (p : ℕ)
      → IsSized h k s
      → length (page_or_fresh k (h.find p s.page_layout)) ≡ k.capacity
  unfolding page_or_fresh
  length-page_or_fresh s p w = elim (Option-cases (h.find p s.page_layout)) [
    | inl e ↦
        rw e (
          length-fill_invalid k.per_sector (replicate k.capacity 0) ∙ length-replicate k.capacity 0)
    | inr (v, e) ↦ rw e (w p v e)
  ]

  -- An absent page and a fresh one read alike.
  slot-page_or_fresh :
      (o : Option PageArr) (i : ℕ)
      → i < k.per_sector
      → get_or (page_or_fresh k o) i invalid_id ≡ slot_or_invalid o i
  unfolding page_or_fresh slot_or_invalid
  slot-page_or_fresh none i lt = get_or-fill_invalid k.per_sector i _ lt
  slot-page_or_fresh (some v) i lt = refl

  pub slot_set-IsSized :
      (s : Slots h) (a id : ℕ) → IsSized h k s → IsSized h k (slot_set h k s a id)
  unfolding slot_set page_of
  slot_set-IsSized s a id w p v e =
      let q = u32 (k.sector_no a) in
      let old = page_or_fresh k (h.find q s.page_layout) in
      ground (
        arith,
        h.find-insert_or_assign q p (set old (a % k.per_sector) id) s.page_layout,
        w p v,
        length-set old (a % k.per_sector) id,
        length-page_or_fresh s q w,
      )

  -- A write changes the id of its location, and of no other.
  pub slot_get-slot_set :
      (s : Slots h) (a b id : ℕ)
      → IsSized h k s
      → a < max_loc
      → b < max_loc
      → slot_get h k (slot_set h k s a id) b ≡ (if a == b then id else slot_get h k s b)
  unfolding slot_get slot_set page_of
  slot_get-slot_set s a b id w ha hb =
      let n = k.per_sector in
      let pa = u32 (k.sector_no a) in
      let pb = u32 (k.sector_no b) in
      let old = page_or_fresh k (h.find pa s.page_layout) in
      let la = mod-lt a sound.positive in
      let lb = mod-lt b sound.positive in
      let room : a % n < length old = rw (length-page_or_fresh s pa w) (le_trans la sound.fits) in
      rw (h.find-insert_or_assign pa pb (set old (a % n) id) s.page_layout)
        (elim (Bool-cases (pa == pb)) [
          | inr other ↦ rw other (ground (arith, ap k.sector_no))
          | inl same ↦
              rw (same, get_or-set old (a % n) (b % n) id invalid_id room)
                (ground (
                  arith,
                  sound.separates a b,
                  slot-page_or_fresh (h.find pa s.page_layout) (b % n),
                ))
        ])

  -- An erased slot reads as invalid if its page was there; no other slot changes.
  pub slot_get-slot_erase :
      (s : Slots h) (a b : ℕ)
      → IsSized h k s
      → a < max_loc
      → b < max_loc
      → h.find (page_of h k a) s.page_layout ≢ none
      → slot_get h k (slot_erase h k s a) b ≡ (if a == b then invalid_id else slot_get h k s b)
  unfolding slot_get slot_erase page_of
  slot_get-slot_erase s a b w ha hb there =
      let n = k.per_sector in
      let pa = u32 (k.sector_no a) in
      let pb = u32 (k.sector_no b) in
      let la = mod-lt a sound.positive in
      elim (Option-cases (h.find pa s.page_layout)) [
        | inl e ↦ absurd (there e)
        | inr (v, e) ↦
            let v' = set v (a % n) invalid_id in
            let room : a % n < length v = rw (w pa v e) (le_trans la sound.fits) in
            rw (e, slot_erase, h.find-insert_or_assign pa pb v' s.page_layout)
              (elim (Bool-cases (pa == pb)) [
                | inr other ↦ rw other (ground (arith, ap k.sector_no))
                | inl same ↦
                    rw (same, get_or-set v (a % n) (b % n) invalid_id invalid_id room)
                      (ground (arith, sound.separates a b, e))
              ])
      ]

  pub slot_erase-IsSized : (s : Slots h) (a : ℕ) → IsSized h k s → IsSized h k (slot_erase h k s a)
  unfolding slot_erase page_of
  slot_erase-IsSized s a w p v e =
      let q = u32 (k.sector_no a) in
      elim (Option-cases (h.find q s.page_layout)) [
        | inl gone ↦ ground (
          arith,
          gone,
          e,
          h.find-insert_or_assign q p (replicate k.capacity 0) s.page_layout,
          w p v,
          length-replicate k.capacity (zero),
        )
        | inr (u, there) ↦ ground (
          arith,
          there,
          e,
          h.find-insert_or_assign q p (set u (a % k.per_sector) invalid_id) s.page_layout,
          w p v,
          w q u there,
          length-set u (a % k.per_sector) invalid_id,
        )
      ]
