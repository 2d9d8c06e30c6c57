-- ===== src/Hybrid/Skyline/Order.antt =====
-- The order that layer_loop leaves: what holds of all points, and that the layers do not descend and there are no more than its rounds.
use hvs_disk.Base.{
  ℕ, zero, suc, ◌+◌, ◌≤◌, ◌<◌, ◌≡◌, refl, sym, subst, List, [], ◌∷◌, ◌++◌, Option, none, some,
  arith, All, All-append, All-weaken, max_float, map,
}
use mathlib.Core.Option.{some-injective, none-ne-some}
use hvs_disk.Hybrid.Skyline.Parts.{skyline-All}
use hvs_disk.Hybrid.Skyline.{NeighborH, skyline, find_skyline, in_layer, then_layer, layer_loop}

-- The layers do not descend.
abbrev pub Ascends : ℕ → List NeighborH → Type 0
Ascends l [] = Unit
Ascends l (p ∷ ps) = (l ≤ p.layer) × Ascends p.layer ps

Ascends-weaken : (l k : ℕ) (ps : List NeighborH) → l ≤ k → Ascends k ps → Ascends l ps
Ascends-weaken l k [] le a = tt
Ascends-weaken l k (p ∷ ps) le a = (omega (arith, le, a.0), a.1)

in_layer-Ascends :
    (l : ℕ) (ps qs : List NeighborH) → Ascends (suc l) qs → Ascends l (map (in_layer l) ps ++ qs)
in_layer-Ascends l [] qs a = Ascends-weaken l (suc l) qs (omega arith) a
in_layer-Ascends l (p ∷ ps) qs a = (omega arith, in_layer-Ascends l ps qs a)

in_layer-below :
    (l top : ℕ) (ps : List NeighborH)
    → l < top
    → All (λ (p : NeighborH). p.layer < top) (map (in_layer l) ps)
in_layer-below l top [] lt = tt
in_layer-below l top (p ∷ ps) lt = (lt, in_layer-below l top ps lt)

then_layer-parts :
    (ps out : List NeighborH) (o : Option (List NeighborH))
    → then_layer ps o ≡ some out
    → (qs : List NeighborH) × (o ≡ some qs) × (out ≡ ps ++ qs)
then_layer-parts ps out none e = absurd (none-ne-some out e)
then_layer-parts ps out (some qs) e = (qs, refl, sym (some-injective (ps ++ qs) out e))

pub layer_loop-Ascends :
    (fuel l : ℕ) (ps out : List NeighborH)
    → layer_loop fuel l ps ≡ some out
    → Ascends l out × All (λ (p : NeighborH). p.layer < l + fuel) out
unfolding layer_loop
layer_loop-Ascends fuel l [] out e =
    let q = some-injective [] out e in
    subst (λ (xs : List NeighborH). Ascends l xs × All (λ (p : NeighborH). p.layer < l + fuel) xs) q
      (tt, tt)
layer_loop-Ascends zero l (p ∷ ps) out e = absurd (none-ne-some out e)
layer_loop-Ascends (suc fuel) l (p ∷ ps) out e =
    let parts = find_skyline (p ∷ ps) in
    let (qs, run, is) =
      then_layer-parts (map (in_layer l) parts.0) out (layer_loop fuel (suc l) parts.1) e in
    let (asc, below) = layer_loop-Ascends fuel (suc l) parts.1 qs run in
    subst
      (λ (xs : List NeighborH). Ascends l xs × All (λ (p : NeighborH). p.layer < l + suc fuel) xs)
      (sym is)
      (
        in_layer-Ascends l parts.0 qs asc,
        All-append _ (map (in_layer l) parts.0) qs
            (in_layer-below l (l + suc fuel) parts.0 (omega arith))
            (All-weaken _ _ qs (λ x lt. omega (arith, lt)) below),
      )

in_layer-All :
    (P : NeighborH → Type 0)
    → ((p : NeighborH) (l : ℕ) → P p → P (in_layer l p))
    → (l : ℕ) (ps : List NeighborH) → All P ps
    → All P (map (in_layer l) ps)
in_layer-All P i l [] a = tt
in_layer-All P i l (p ∷ ps) a = (i p l a.0, in_layer-All P i l ps a.1)

pub layer_loop-All :
    (P : NeighborH → Type 0)
    → ((p : NeighborH) (l : ℕ) → P p → P (in_layer l p))
    → (fuel l : ℕ) (ps out : List NeighborH) → layer_loop fuel l ps ≡ some out
    → All P ps
    → All P out
unfolding layer_loop find_skyline
layer_loop-All P i fuel l [] out e a = subst (All P) (some-injective [] out e) tt
layer_loop-All P i zero l (p ∷ ps) out e a = absurd (none-ne-some out e)
layer_loop-All P i (suc fuel) l (p ∷ ps) out e a =
    let sky = (skyline max_float (p ∷ ps)).0 in
    let rem = (skyline max_float (p ∷ ps)).1 in
    let (s, r) = skyline-All P max_float (p ∷ ps) a in
    let (qs, run, is) =
      then_layer-parts (map (in_layer l) sky) out (layer_loop fuel (suc l) rem) e in
    subst (All P) (sym is) (
      All-append P (map (in_layer l) sky) qs (in_layer-All P i l sky s)
        (layer_loop-All P i fuel (suc l) rem qs run r))
