-- ===== src/Hybrid/Skyline/Layers.antt =====
-- What the layers are: every point in one of them, each layer dominated by the one before.
use hvs_disk.Base.{
  max_float, ℕ, zero, suc, ◌+◌, ◌≤◌, ◌<◌, ◌≡◌, refl, ap, ◌∙◌, inl, inr, ◌⊎◌, List, [], ◌∷◌, ◌++◌,
  some, Bool, true, false, arith, leb, ◌==◌, ◌&&◌, ◌||◌, if◌then◌else◌, length, map, All,
  All-weaken, All-zip, All-append,
}
use hvs_disk.Hybrid.Skyline.{
  NeighborH, sort_neighbors, skyline, find_skyline, in_layer, then_layer, layer_loop, layered,
}
use hvs_disk.Hybrid.Skyline.Parts.{
  count_id, count_id-append, has_dominator, IsAfter, sort_neighbors-IsAfter,
  count_id-sort_neighbors, length-sort_neighbors, IsFinite, sort_neighbors-IsFinite,
  count_id-skyline, length-skyline, skyline-IsAfter, skyline-All, skyline-finds,
  remaining-dominated,
}

-- A point of the layer before is at least as near as p in both distances.
abbrev pub dominated_before : List NeighborH → NeighborH → Bool
dominated_before [] p = false
dominated_before (q ∷ qs) p =
    ((suc q.layer == p.layer) && leb q.distance1 p.distance1 && leb q.distance2 p.distance2)
    || dominated_before qs p

dominated_before-append :
    (qs rs : List NeighborH) (p : NeighborH)
    → dominated_before rs p ≡ true
    → dominated_before (qs ++ rs) p ≡ true
dominated_before-append [] rs p h = h
dominated_before-append (q ∷ qs) rs p h = ground (arith, dominated_before-append qs rs p h)

dominated_before-layer :
    (l : ℕ) (qs rs : List NeighborH) (p : NeighborH)
    → has_dominator qs p ≡ true
    → p.layer ≡ suc l
    → dominated_before (map (in_layer l) qs ++ rs) p ≡ true
dominated_before-layer l [] rs p h e = absurd (ground (arith, h))
dominated_before-layer l (q ∷ qs) rs p h e = ground (arith, dominated_before-layer l qs rs p, h, e)

has_dominator-in_layer :
    (l : ℕ) (qs : List NeighborH) (p : NeighborH)
    → has_dominator qs (in_layer l p) ≡ has_dominator qs p
has_dominator-in_layer l [] p = refl
has_dominator-in_layer l (q ∷ qs) p = ground (arith, has_dominator-in_layer l qs p)

map-in_layer :
    (l : ℕ) (ps : List NeighborH) → All (λ (p : NeighborH). p.layer ≡ l) (map (in_layer l) ps)
map-in_layer l [] = tt
map-in_layer l (p ∷ ps) = (refl, map-in_layer l ps)

map-in_layer-dominator :
    (l : ℕ) (qs ps : List NeighborH)
    → All (λ (p : NeighborH). has_dominator qs p ≡ true) ps
    → All (λ (p : NeighborH). has_dominator qs p ≡ true) (map (in_layer l) ps)
map-in_layer-dominator l qs [] h = tt
map-in_layer-dominator l qs (p ∷ ps) h =
    (has_dominator-in_layer l qs p ∙ h.0, map-in_layer-dominator l qs ps h.1)

count_id-in_layer :
    (i l : ℕ) (ps : List NeighborH) → count_id i (map (in_layer l) ps) ≡ count_id i ps
count_id-in_layer i l [] = refl
count_id-in_layer i l (p ∷ ps) =
    ap (λ (n : ℕ). (if p.id == i then 1 else 0) + n) (count_id-in_layer i l ps)

-- Each point is in the first layer or dominated by a point of the layer before its own.
abbrev pub IsLayered : ℕ → List NeighborH → Type 0
IsLayered l out = All (λ (p : NeighborH). (p.layer ≡ l) ⊎ (dominated_before out p ≡ true)) out

-- What the loop leaves: all points, in layers; what dominates the points still dominates them.
abbrev pub Layers : ℕ → ℕ → List NeighborH → Type 0
Layers fuel l ps =
    (out : List NeighborH) × (layer_loop fuel l ps ≡ some out)
    × ((i : ℕ) → count_id i out ≡ count_id i ps)
    × IsLayered l out
    × ((qs : List NeighborH)
        → All (λ (p : NeighborH). has_dominator qs p ≡ true) ps
        → All (λ (p : NeighborH). has_dominator qs p ≡ true) out)

dominated-later :
    (l : ℕ) (sky out : List NeighborH) (q : NeighborH)
    → (q.layer ≡ suc l) ⊎ (dominated_before out q ≡ true)
    → has_dominator sky q ≡ true
    → dominated_before (map (in_layer l) sky ++ out) q ≡ true
dominated-later l sky out q (inl e) d = dominated_before-layer l sky out q d e
dominated-later l sky out q (inr e) d = dominated_before-append (map (in_layer l) sky) out q e

layer_loop-Layers :
    (fuel l : ℕ) (ps : List NeighborH)
    → length ps ≤ fuel
    → IsAfter 0 ps
    → IsFinite ps
    → Layers fuel l ps
unfolding layer_loop find_skyline
layer_loop-Layers fuel l [] h s f = ([], refl, λ i. refl, tt, λ qs d. tt)
layer_loop-Layers zero l (p ∷ ps) h s f = absurd (omega (arith, h))
layer_loop-Layers (suc fuel) l (p ∷ ps) h s f =
    let sky = (skyline max_float (p ∷ ps)).0 in
    let rem = (skyline max_float (p ∷ ps)).1 in
    let one = skyline-finds max_float p ps f.0 in
    let sum = length-skyline max_float (p ∷ ps) in
    let less : length rem ≤ fuel = omega (arith, one, sum, h) in
    let rf = (skyline-All (λ (q : NeighborH). q.distance1 < max_float) max_float (p ∷ ps) f).1 in
    let (out, run, count, ok, keeps) =
      layer_loop-Layers fuel (suc l) rem less (skyline-IsAfter max_float 0 (p ∷ ps) s) rf in
    let dom = remaining-dominated (p ∷ ps) s f in
    let top = map (in_layer l) sky in
    (
      top ++ out,
      ap (then_layer top) run,
      λ i. omega (
        arith,
        count_id-append i top out,
        count_id-in_layer i l sky,
        count i,
        count_id-skyline i max_float (p ∷ ps),
      ),
      All-append (λ (q : NeighborH). (q.layer ≡ l) ⊎ (dominated_before (top ++ out) q ≡ true)) top
          out
          (All-weaken (λ (q : NeighborH). q.layer ≡ l) _ top (λ q e. inl e) (map-in_layer l sky))
          (All-weaken _ _ out (λ q e. inr (dominated-later l sky out q e.0 e.1))
            (All-zip _ _ out ok (keeps sky dom))),
      λ qs d.
          let (a, b) =
            skyline-All (λ (q : NeighborH). has_dominator qs q ≡ true) max_float (p ∷ ps) d in
          All-append (λ (q : NeighborH). has_dominator qs q ≡ true) top out
            (map-in_layer-dominator l qs sky a) (keeps qs b),
    )

-- A pool whose embedding distances are below the largest float is put in layers: the loop ends, every
-- point is in the result as often as in the pool, and a point that is not in layer 0 has a point in
-- the layer before its own that is at least as near in both distances.
pub layered-IsLayered :
    (pool : List NeighborH)
    → IsFinite pool
    → (out : List NeighborH) × (layered pool ≡ some out)
      × ((i : ℕ) → count_id i out ≡ count_id i pool)
      × IsLayered 0 out
unfolding layered
layered-IsLayered pool f =
    let sorted = sort_neighbors pool in
    let (out, run, count, ok, _) =
      layer_loop-Layers (length pool) 0 sorted (omega (arith, length-sort_neighbors pool))
        (sort_neighbors-IsAfter pool) (sort_neighbors-IsFinite pool f) in
    (out, run, λ i. count i ∙ count_id-sort_neighbors i pool, ok)
