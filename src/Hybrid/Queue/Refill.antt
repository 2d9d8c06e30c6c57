-- ===== src/Hybrid/Queue/Refill.antt =====
-- What the update of the pool keeps: its entries, and no more to expand.
use hvs_disk.Base.{
  ℕ, zero, suc, ◌+◌, ◌≤◌, ◌<◌, ◌≡◌, refl, sym, ap, subst, List, [], ◌∷◌, ◌++◌, some, Bool, true,
  false, arith, ltb, if◌then◌else◌, length, map, max_float, All, All-append, Bool-cases, inl, inr,
}
use hvs_disk.Hybrid.Skyline.{
  NeighborH, insert_neighbor, sort_neighbors, skyline, find_skyline, then_layer,
}
use hvs_disk.Hybrid.Skyline.Parts.{
  sort_neighbors-All, count_id, count_id-append, count_id-skyline, count_id-sort_neighbors,
  length-skyline, skyline-All, skyline-finds, length-sort_neighbors,
}
use hvs_disk.Hybrid.Queue.{fill_layers, next_flagged, update_neighbor}
use hvs_disk.Hybrid.Queue.Visit.{flags, flags-append}

flags-insert_neighbor :
    (p : NeighborH) (ps : List NeighborH)
    → flags (insert_neighbor p ps) ≡ (if p.flag then 1 else 0) + flags ps
unfolding insert_neighbor
flags-insert_neighbor p [] = refl
flags-insert_neighbor p (q ∷ qs) = ground (arith, flags-insert_neighbor p qs)

flags-sort_neighbors : (ps : List NeighborH) → flags (sort_neighbors ps) ≡ flags ps
unfolding sort_neighbors
flags-sort_neighbors [] = refl
flags-sort_neighbors (p ∷ ps) =
    omega (arith, flags-insert_neighbor p (sort_neighbors ps), flags-sort_neighbors ps)

flags-skyline :
    (m : ℕ) (ps : List NeighborH) → flags (skyline m ps).0 + flags (skyline m ps).1 ≡ flags ps
unfolding skyline
flags-skyline m [] = refl
flags-skyline m (p ∷ ps) = elim (Bool-cases (ltb p.distance1 m)) [
  | inl e ↦ rw e (omega (arith, flags-skyline p.distance1 ps))
  | inr e ↦ rw e (omega (arith, flags-skyline m ps))
]

abbrev pub in_row : ℕ → List NeighborH → List NeighborH
in_row l ps = map (λ (p : NeighborH). record p { layer = l }) ps

flags-in_row : (l : ℕ) (ps : List NeighborH) → flags (in_row l ps) ≡ flags ps
flags-in_row l [] = refl
flags-in_row l (p ∷ ps) = omega (arith, flags-in_row l ps)

count_id-in_row : (i l : ℕ) (ps : List NeighborH) → count_id i (in_row l ps) ≡ count_id i ps
count_id-in_row i l [] = refl
count_id-in_row i l (p ∷ ps) = omega (arith, count_id-in_row i l ps)

-- A property of entries that does not look at the layer.
abbrev pub IgnoresLayer : (NeighborH → Type 0) → Type 0
IgnoresLayer P = (p : NeighborH) (l : ℕ) → P p → P (record p { layer = l })

in_row-All :
    (P : NeighborH → Type 0)
    → IgnoresLayer P
    → (l : ℕ) (ps : List NeighborH) → All P ps
    → All P (in_row l ps)
in_row-All P i l [] a = tt
in_row-All P i l (p ∷ ps) a = (i p l a.0, in_row-All P i l ps a.1)

module _ (g : ℕ → List ℕ) (dist1 dist2 : ℕ → ℕ) (limit : ℕ) (P : NeighborH → Type 0)
    (ignores : IgnoresLayer P) (finite : (p : NeighborH) → P p → p.distance1 < max_float) where
  pub record IsFilled (fuel size l count : ℕ) (cs : List NeighborH) : Type 0 where
    pub out : List NeighborH
    pub run : fill_layers g dist1 dist2 limit fuel size l count cs ≡ some out
    pub all : All P out
    pub less : flags out ≤ flags cs
    pub ids : (i : ℕ) → count_id i out ≤ count_id i cs

  fill_layers-IsFilled :
      (fuel size l count : ℕ) (cs : List NeighborH)
      → length cs ≤ fuel
      → All P cs
      → IsFilled fuel size l count cs
  unfolding fill_layers find_skyline
  fill_layers-IsFilled fuel size l count [] enough a = record {
    out = [];
    run = refl;
    all = tt;
    less = omega arith;
    ids = λ i. omega arith;
  }
  fill_layers-IsFilled zero size l count (c ∷ cs) enough a = absurd (omega (arith, enough))
  fill_layers-IsFilled (suc fuel) size l count (c ∷ cs) enough a =
      let sky = (skyline max_float (c ∷ cs)).0 in
      let rem = (skyline max_float (c ∷ cs)).1 in
      let (s, r) = skyline-All P max_float (c ∷ cs) a in
      let shorter : length rem ≤ fuel = omega (
        arith,
        enough,
        length-skyline max_float (c ∷ cs),
        skyline-finds max_float c cs (finite c a.0),
      ) in
      let f =
        fill_layers-IsFilled fuel size (suc l) (count + length (in_row l sky)) rem shorter r in
      elim (Bool-cases (ltb count size)) [
        | inl room ↦ record {
          out = in_row l sky ++ f.out;
          run = rw room (ap (then_layer (in_row l sky)) f.run);
          all = All-append P (in_row l sky) f.out (in_row-All P ignores l sky s) f.all;
          less = omega (
            arith,
            f.less,
            flags-append (in_row l sky) f.out,
            flags-in_row l sky,
            flags-skyline max_float (c ∷ cs),
          );
          ids = λ i. omega (
            arith,
            f.ids i,
            count_id-append i (in_row l sky) f.out,
            count_id-in_row i l sky,
            count_id-skyline i max_float (c ∷ cs),
          );
        }
        | inr full ↦ record {
          out = [];
          run = rw full refl;
          all = tt;
          less = omega arith;
          ids = λ i. omega arith;
        }
      ]

  pub update_neighbor-IsFilled :
      (size : ℕ) (pool : List NeighborH)
      → All P pool
      → (out : List NeighborH) × (update_neighbor g dist1 dist2 limit size pool ≡ some out)
        × All P out
        × (flags out ≤ flags pool)
        × ((i : ℕ) → count_id i out ≤ count_id i pool)
  update_neighbor-IsFilled size pool a =
      let f =
        fill_layers-IsFilled (length pool) size 0 0 (sort_neighbors pool)
          (omega (arith, length-sort_neighbors pool)) (sort_neighbors-All P pool a) in
      (
        f.out,
        f.run,
        f.all,
        omega (arith, f.less, flags-sort_neighbors pool),
        λ i. omega (arith, f.ids i, count_id-sort_neighbors i pool),
      )

abbrev pub is_at_flag : List NeighborH → Bool
is_at_flag [] = false
is_at_flag (p ∷ ps) = p.flag

-- Before nk nothing is flagged, and at nk there is a flag.
pub record IsSplit (P : NeighborH → Type 0) (ps : List NeighborH)
    (parts : List NeighborH × List NeighborH) : Type 0 where
  pub all_before : All P parts.0
  pub all_from : All P parts.1
  pub before : flags parts.0 ≡ 0
  pub from : flags parts.1 ≡ flags ps
  pub ids : (i : ℕ) → count_id i parts.0 + count_id i parts.1 ≡ count_id i ps
  pub at : 0 < length parts.1 → is_at_flag parts.1 ≡ true

module _ (g : ℕ → List ℕ) (dist1 dist2 : ℕ → ℕ) (limit : ℕ) where
  next_flagged-stop :
      (p : NeighborH) (ps : List NeighborH)
      → p.flag ≡ true
      → next_flagged g dist1 dist2 limit (p ∷ ps) ≡ ([], p ∷ ps)
  unfolding next_flagged
  next_flagged-stop p ps e = simp (e) refl

  next_flagged-skip :
      (p : NeighborH) (ps : List NeighborH)
      → p.flag ≡ false
      → next_flagged g dist1 dist2 limit (p ∷ ps)
        ≡ (p ∷ (next_flagged g dist1 dist2 limit ps).0, (next_flagged g dist1 dist2 limit ps).1)
  unfolding next_flagged
  next_flagged-skip p ps e = simp (e) refl

  pub next_flagged-IsSplit :
      (P : NeighborH → Type 0) (ps : List NeighborH)
      → All P ps
      → IsSplit P ps (next_flagged g dist1 dist2 limit ps)
  unfolding next_flagged
  next_flagged-IsSplit P [] a = record {
    all_before = tt;
    all_from = tt;
    before = refl;
    from = refl;
    ids = λ i. refl;
    at = λ n. absurd (omega (arith, n));
  }
  next_flagged-IsSplit P (p ∷ ps) a = elim (Bool-cases p.flag) [
    | inl e ↦ subst (IsSplit P (p ∷ ps)) (sym (next_flagged-stop p ps e)) (record {
      all_before = tt;
      all_from = a;
      before = refl;
      from = refl;
      ids = λ i. omega arith;
      at = λ n. ground (arith, e);
    })
    | inr e ↦
        let r = next_flagged-IsSplit P ps a.1 in
        subst (IsSplit P (p ∷ ps)) (sym (next_flagged-skip p ps e)) (record {
          all_before = (a.0, r.all_before);
          all_from = r.all_from;
          before = ground (arith, e, r.before);
          from = ground (arith, e, r.from);
          ids = λ i. omega (arith, r.ids i);
          at = r.at;
        })
  ]
