-- ===== src/Search/Beam/Marks.antt =====
-- Taking a frontier clears flags and changes nothing else.
use hvs_disk.Base.{
  ℕ, zero, suc, ◌+◌, ◌-◌, ◌<◌, ◌≡◌, refl, sym, ap, ◌∙◌, inl, inr, List, [], ◌∷◌, ◌++◌, true, false,
  arith, length, get_or, take, contains, All, All-weaken, Bool-cases,
}
use hvs_disk.Search.{Neighbor, no_entry, next_beam}
use hvs_disk.Search.Beam.Nearest.{IsNearest, last_distance}
use hvs_disk.Search.Narrow.{IsAscending}
use hvs_disk.Search.Entries.{ids_of, AreSeen}
use hvs_disk.Search.Expand.{flagged, next_beam-flagged}
use hvs_disk.Search.Beam.{drop}
use hvs_disk.Search.Beam.Potential.{AreDone}

-- The same ids and distances in the same order.
abbrev pub Alike : List Neighbor → List Neighbor → Type 0
Alike [] [] = Unit
Alike [] (y ∷ ys) = false ≡ true
Alike (x ∷ xs) [] = false ≡ true
Alike (x ∷ xs) (y ∷ ys) = (x.id ≡ y.id) × (x.distance ≡ y.distance) × Alike xs ys

Alike-refl : (xs : List Neighbor) → Alike xs xs
Alike-refl [] = tt
Alike-refl (x ∷ xs) = (refl, refl, Alike-refl xs)

pub Alike-length : (xs ys : List Neighbor) → Alike xs ys → length xs ≡ length ys
Alike-length [] [] a = refl
Alike-length [] (y ∷ ys) a = absurd (ground (arith, a))
Alike-length (x ∷ xs) [] a = absurd (ground (arith, a))
Alike-length (x ∷ xs) (y ∷ ys) (i, d, a) = ap suc (Alike-length xs ys a)

pub Alike-ids_of : (xs ys : List Neighbor) → Alike xs ys → ids_of xs ≡ ids_of ys
Alike-ids_of [] [] a = refl
Alike-ids_of [] (y ∷ ys) a = absurd (ground (arith, a))
Alike-ids_of (x ∷ xs) [] a = absurd (ground (arith, a))
Alike-ids_of (x ∷ xs) (y ∷ ys) (i, d, a) = rw (i, Alike-ids_of xs ys a) refl

Alike-distance :
    (xs ys : List Neighbor) (i : ℕ) (d : Neighbor)
    → Alike xs ys
    → (get_or xs i d).distance ≡ (get_or ys i d).distance
Alike-distance [] [] i d a = refl
Alike-distance [] (y ∷ ys) i d a = absurd (ground (arith, a))
Alike-distance (x ∷ xs) [] i d a = absurd (ground (arith, a))
Alike-distance (x ∷ xs) (y ∷ ys) zero d (j, e, a) = e
Alike-distance (x ∷ xs) (y ∷ ys) (suc i) d (j, e, a) = Alike-distance xs ys i d a

pub Alike-IsAscending :
    (xs ys : List Neighbor) (d : Neighbor) → Alike xs ys → IsAscending ys d → IsAscending xs d
Alike-IsAscending xs ys d a asc i j le lt =
    rw (Alike-distance xs ys i d a, Alike-distance xs ys j d a)
      (asc i j le (omega (arith, lt, Alike-length xs ys a)))

pub Alike-AreSeen : (v : List ℕ) (xs ys : List Neighbor) → Alike xs ys → AreSeen v ys → AreSeen v xs
Alike-AreSeen v [] [] a s = tt
Alike-AreSeen v [] (y ∷ ys) a s = tt
Alike-AreSeen v (x ∷ xs) [] a s = absurd (ground (arith, a))
Alike-AreSeen v (x ∷ xs) (y ∷ ys) (i, d, a) s = (rw i s.0, Alike-AreSeen v xs ys a s.1)

Alike-exact :
    (dist : ℕ → ℕ) (xs ys : List Neighbor)
    → Alike xs ys
    → All (λ (x : Neighbor). x.distance ≡ dist x.id) ys
    → All (λ (x : Neighbor). x.distance ≡ dist x.id) xs
Alike-exact dist [] [] a e = tt
Alike-exact dist [] (y ∷ ys) a e = tt
Alike-exact dist (x ∷ xs) [] a e = absurd (ground (arith, a))
Alike-exact dist (x ∷ xs) (y ∷ ys) (i, d, a) e =
    (d ∙ e.0 ∙ ap dist (sym i), Alike-exact dist xs ys a e.1)

pub Alike-IsNearest :
    (l_search cur_id : ℕ) (stale : Neighbor) (dist : ℕ → ℕ) (v : List ℕ) (xs ys : List Neighbor)
    → Alike xs ys
    → IsNearest l_search cur_id stale dist v ys
    → IsNearest l_search cur_id stale dist v xs
Alike-IsNearest l_search cur_id stale dist v xs ys a near =
    let len = Alike-length xs ys a in
    let ids = Alike-ids_of xs ys a in
    let last : last_distance xs ≡ last_distance ys =
      Alike-distance xs ys (length xs - 1) no_entry a
      ∙ ap (λ (n : ℕ). (get_or ys (n - 1) no_entry).distance) len in
    record {
      exact = Alike-exact dist xs ys a near.exact;
      nearest = λ b seen. elim (near.nearest b seen) [
        | inl here ↦ inl (ap (λ (is : List ℕ). contains is b) ids ∙ here)
        | inr (full, le) ↦ inr (len ∙ full, omega (arith, last, le))
      ];
    }

next_beam-Alike : (w : ℕ) (xs : List Neighbor) → Alike (next_beam w xs).1 xs
unfolding next_beam
next_beam-Alike zero [] = tt
next_beam-Alike (suc w) [] = tt
next_beam-Alike zero (x ∷ xs) = (refl, refl, Alike-refl xs)
next_beam-Alike (suc w) (x ∷ xs) = elim (Bool-cases x.flag) [
  | inl marked ↦ rw marked (refl, refl, next_beam-Alike w xs)
  | inr skip ↦ rw skip (refl, refl, next_beam-Alike (suc w) xs)
]

-- The ids that the frontier takes.
next_beam-AreDone :
    (w : ℕ) (xs : List Neighbor) (ids all : List ℕ)
    → ((a : ℕ) → contains ids a ≡ true → contains all a ≡ true)
    → ((a : ℕ) → contains (next_beam w xs).0 a ≡ true → contains all a ≡ true)
    → AreDone ids xs
    → AreDone all (next_beam w xs).1
unfolding next_beam
next_beam-AreDone zero [] ids all f k a = tt
next_beam-AreDone (suc w) [] ids all f k a = tt
next_beam-AreDone zero (x ∷ xs) ids all f k a =
    (ground (arith, a.0, f x.id), All-weaken _ _ xs (λ y d. ground (arith, d, f y.id)) a.1)
next_beam-AreDone (suc w) (x ∷ xs) ids all f k a = elim (Bool-cases x.flag) [
  | inl marked ↦
      let k' : (b : ℕ) → contains (x.id ∷ (next_beam w xs).0) b ≡ true → contains all b ≡ true =
        rw marked at k in
      rw marked (
        inr (k' x.id (ground arith)),
        next_beam-AreDone w xs ids all f (λ b c. k' b (ground (arith, c))) a.1,
      )
  | inr skip ↦
      let k' : (b : ℕ) → contains (next_beam (suc w) xs).0 b ≡ true → contains all b ≡ true =
        rw skip at k in
      rw skip (ground (arith, a.0, f x.id), next_beam-AreDone (suc w) xs ids all f k' a.1)
]

-- The list of candidates with the flags of the frontier from index k on cleared.
abbrev pub marks : ℕ → ℕ → List Neighbor → List Neighbor
marks w k xs = take k xs ++ (next_beam w (drop k xs)).1

pub marks-Alike : (w k : ℕ) (xs : List Neighbor) → Alike (marks w k xs) xs
marks-Alike w zero xs = next_beam-Alike w xs
marks-Alike w (suc k) [] = next_beam-Alike w []
marks-Alike w (suc k) (x ∷ xs) = (refl, refl, marks-Alike w k xs)

pub marks-AreDone :
    (w k : ℕ) (xs : List Neighbor) (ids all : List ℕ)
    → ((a : ℕ) → contains ids a ≡ true → contains all a ≡ true)
    → ((a : ℕ) → contains (next_beam w (drop k xs)).0 a ≡ true → contains all a ≡ true)
    → AreDone ids xs
    → AreDone all (marks w k xs)
marks-AreDone w zero xs ids all f h a = next_beam-AreDone w xs ids all f h a
marks-AreDone w (suc k) [] ids all f h a = next_beam-AreDone w [] ids all f h a
marks-AreDone w (suc k) (x ∷ xs) ids all f h a =
    (ground (arith, a.0, f x.id), marks-AreDone w k xs ids all f h a.1)

pub marks-flagged :
    (w k : ℕ) (xs : List Neighbor)
    → flagged (marks w k xs) + length (next_beam w (drop k xs)).0 ≡ flagged xs
marks-flagged w zero xs = (next_beam-flagged w xs).1
marks-flagged w (suc k) [] = (next_beam-flagged w []).1
marks-flagged w (suc k) (x ∷ xs) = omega (arith, marks-flagged w k xs)

-- With a frontier of at least one node, entry k has no flag afterwards.
pub marks-front :
    (w k : ℕ) (xs : List Neighbor)
    → k < length xs
    → flagged (take k xs) ≡ 0
    → flagged (take (suc k) (marks (suc w) k xs)) ≡ 0
unfolding next_beam
marks-front w zero [] lt e = absurd (omega (arith, lt))
marks-front w zero (x ∷ xs) lt e = elim (Bool-cases x.flag) [
  | inl marked ↦ rw marked refl
  | inr skip ↦ rw skip (ground (arith, skip))
]
marks-front w (suc k) [] lt e = absurd (omega (arith, lt))
marks-front w (suc k) (x ∷ xs) lt e =
    omega (arith, e, marks-front w k xs (omega (arith, lt)) (omega (arith, e)))
