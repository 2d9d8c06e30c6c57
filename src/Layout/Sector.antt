-- ===== src/Layout/Sector.antt =====
-- Locations, sectors and offsets: the arithmetic members of SSDIndex in include/ssd_index.h, and
-- DIV_ROUND_UP of include/utils.h. Locations and sectors are far below 2 ^ 64, so sums and products
-- are written without a wrap; `sector_no - 1` keeps its own.
use native.Mathlib.Nat.{
  mul-add-div_right, mul-add-mod_self_right, div-eq_of_lt, mod-eq_of_lt, div-add-mod', div-le_self,
  add-zero,
}
use hvs_disk.Base.{
  ℕ, ◌+◌, ◌-◌, ◌*◌, ◌/◌, ◌%◌, ◌^◌, ◌<◌, ◌≡◌, refl, sym, ap₂, ◌∙◌, arith, ltb, lt→ltb, ◌==◌,
  if◌then◌else◌,
}

pub record Geometry : Type 0 where
  pub nnodes_per_sector : ℕ
  pub max_node_len : ℕ
  pub ntopo_per_sector : ℕ
  pub topo_len : ℕ
  pub ncoord_per_sector : ℕ
  pub coord_len : ℕ

abbrev pub sector_len : ℕ
sector_len = 8192

pub div_round_up : ℕ → ℕ → ℕ
div_round_up x y = x / y + (if x % y == 0 then 0 else 1)

unfoldable pub loc_sector_no : Geometry → ℕ → ℕ
unfolding div_round_up
loc_sector_no g loc =
    1
    + (if ltb 0 g.nnodes_per_sector
        then loc / g.nnodes_per_sector
        else loc * div_round_up g.max_node_len sector_len)

unfoldable pub loc_sector_no_topo : Geometry → ℕ → ℕ
loc_sector_no_topo g loc = loc / g.ntopo_per_sector

unfoldable pub loc_sector_no_coord : Geometry → ℕ → ℕ
unfolding div_round_up
loc_sector_no_coord g loc =
    if ltb 0 g.ncoord_per_sector
    then loc / g.ncoord_per_sector
    else loc * div_round_up g.coord_len sector_len

unfoldable pub sector_to_loc : Geometry → ℕ → ℕ → ℕ
sector_to_loc g sector_no sector_off =
    (sector_no + 2 ^ 64 - 1) % 2 ^ 64 * g.nnodes_per_sector + sector_off

pub sector_to_loc_topo : Geometry → ℕ → ℕ → ℕ
sector_to_loc_topo g sector_no sector_off = sector_no * g.ntopo_per_sector + sector_off

pub sector_to_loc_coord : Geometry → ℕ → ℕ → ℕ
sector_to_loc_coord g sector_no sector_off = sector_no * g.ncoord_per_sector + sector_off

-- The offset of a slot in its sector's buffer.
pub offset_to_loc : Geometry → ℕ → ℕ
offset_to_loc g loc =
    if g.nnodes_per_sector == 0 then 0 else loc % g.nnodes_per_sector * g.max_node_len

pub offset_to_loc_topo : Geometry → ℕ → ℕ
offset_to_loc_topo g loc =
    if g.ntopo_per_sector == 0 then 0 else loc % g.ntopo_per_sector * g.topo_len

pub offset_to_loc_coord : Geometry → ℕ → ℕ
offset_to_loc_coord g loc =
    if g.ncoord_per_sector == 0 then 0 else loc % g.ncoord_per_sector * g.coord_len

-- Division with remainder determines the number.
pub same_place : (n a b : ℕ) → a / n ≡ b / n → a % n ≡ b % n → a ≡ b
same_place n a b p q = sym (div-add-mod' a n) ∙ ap₂ (λ (x y : ℕ). x * n + y) p q ∙ div-add-mod' b n

quotient_lem : (n x r : ℕ) → r < n → (x * n + r) / n ≡ x
quotient_lem n x r h =
    mul-add-div_right {m = n} (omega arith) x r ∙ rw (div-eq_of_lt h) (add-zero x)

remainder_lem : (n x r : ℕ) → r < n → (x * n + r) % n ≡ r
remainder_lem n x r h = mul-add-mod_self_right x n r ∙ mod-eq_of_lt h

-- A sector and an offset below the count of a sector's nodes name one location: the sector and the
-- offset are given back.
pub sector-sector_to_loc :
    (g : Geometry) (s off : ℕ)
    → 0 < s
    → s < 2 ^ 64
    → off < g.nnodes_per_sector
    → (loc_sector_no g (sector_to_loc g s off) ≡ s)
      × (sector_to_loc g s off % g.nnodes_per_sector ≡ off)
unfolding loc_sector_no sector_to_loc
sector-sector_to_loc g s off h k o =
    let n = g.nnodes_per_sector in
    let e : (s + 2 ^ 64 - 1) % 2 ^ 64 ≡ s - 1 = omega arith in
    (
      rw (lt→ltb 0 n (omega arith), e, quotient_lem n (s - 1) off o) (omega arith),
      rw (e, remainder_lem n (s - 1) off o) refl,
    )

-- The other way round: the sector and the offset of a location name that location.
pub sector_to_loc-sector :
    (g : Geometry) (loc : ℕ)
    → 0 < g.nnodes_per_sector
    → loc < 2 ^ 63
    → sector_to_loc g (loc_sector_no g loc) (loc % g.nnodes_per_sector) ≡ loc
unfolding loc_sector_no sector_to_loc
sector_to_loc-sector g loc h k =
    let n = g.nnodes_per_sector in
    let small = div-le_self loc n in
    let e : (1 + loc / n + 2 ^ 64 - 1) % 2 ^ 64 ≡ loc / n = omega arith in
    rw (lt→ltb 0 n h, e) (div-add-mod' loc n)
