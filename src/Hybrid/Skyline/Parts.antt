-- ===== src/Hybrid/Skyline/Parts.antt =====
-- What the sort and one skyline leave: the points, their order, and what dominates the others.
use hvs_disk.Base.{
  max_float, ℕ, suc, ◌+◌, ◌≤◌, ◌<◌, ◌≡◌, refl, inl, inr, ◌⊎◌, List, [], ◌∷◌, ◌++◌, Bool, true,
  false, arith, ltb, leb, ◌==◌, ◌&&◌, ◌||◌, if◌then◌else◌, length, All, All-weaken, All-zip,
  Bool-cases,
}
use hvs_disk.Hybrid.Skyline.{NeighborH, neighbor_lt, insert_neighbor, sort_neighbors, skyline}

-- How often an id occurs.
abbrev pub count_id : ℕ → List NeighborH → ℕ
count_id i [] = 0
count_id i (p ∷ ps) = (if p.id == i then 1 else 0) + count_id i ps

pub count_id-append :
    (i : ℕ) (ps qs : List NeighborH) → count_id i (ps ++ qs) ≡ count_id i ps + count_id i qs
count_id-append i [] qs = omega arith
count_id-append i (p ∷ ps) qs = omega (arith, count_id-append i ps qs)

-- A point of the list is at least as near as p in both distances.
abbrev pub has_dominator : List NeighborH → NeighborH → Bool
has_dominator [] p = false
has_dominator (q ∷ qs) p =
    (leb q.distance1 p.distance1 && leb q.distance2 p.distance2) || has_dominator qs p

abbrev pub IsAfter : ℕ → List NeighborH → Type 0
IsAfter d [] = Unit
IsAfter d (p ∷ ps) = (d ≤ p.distance2) × IsAfter p.distance2 ps

pub IsAfter-weaken : (d e : ℕ) (ps : List NeighborH) → d ≤ e → IsAfter e ps → IsAfter d ps
IsAfter-weaken d e [] h s = tt
IsAfter-weaken d e (p ∷ ps) h s = (omega (arith, h, s.0), s.1)

pub insert_neighbor-IsAfter :
    (d : ℕ) (p : NeighborH) (ps : List NeighborH)
    → d ≤ p.distance2
    → IsAfter d ps
    → IsAfter d (insert_neighbor p ps)
unfolding insert_neighbor neighbor_lt
insert_neighbor-IsAfter d p [] h s = (h, tt)
insert_neighbor-IsAfter d p (q ∷ qs) h s = ground (arith, insert_neighbor-IsAfter q.distance2 p qs)

pub sort_neighbors-IsAfter : (ps : List NeighborH) → IsAfter 0 (sort_neighbors ps)
unfolding sort_neighbors
sort_neighbors-IsAfter [] = tt
sort_neighbors-IsAfter (p ∷ ps) =
    insert_neighbor-IsAfter 0 p (sort_neighbors ps) (omega arith) (sort_neighbors-IsAfter ps)

pub count_id-insert_neighbor :
    (i : ℕ) (p : NeighborH) (ps : List NeighborH)
    → count_id i (insert_neighbor p ps) ≡ count_id i (p ∷ ps)
unfolding insert_neighbor
count_id-insert_neighbor i p [] = refl
count_id-insert_neighbor i p (q ∷ qs) = ground (arith, count_id-insert_neighbor i p qs)

pub count_id-sort_neighbors :
    (i : ℕ) (ps : List NeighborH) → count_id i (sort_neighbors ps) ≡ count_id i ps
unfolding sort_neighbors
count_id-sort_neighbors i [] = refl
count_id-sort_neighbors i (p ∷ ps) =
    omega (arith, count_id-insert_neighbor i p (sort_neighbors ps), count_id-sort_neighbors i ps)

pub length-insert_neighbor :
    (p : NeighborH) (ps : List NeighborH) → length (insert_neighbor p ps) ≡ suc (length ps)
unfolding insert_neighbor
length-insert_neighbor p [] = refl
length-insert_neighbor p (q ∷ qs) = ground (arith, length-insert_neighbor p qs)

pub length-sort_neighbors : (ps : List NeighborH) → length (sort_neighbors ps) ≡ length ps
unfolding sort_neighbors
length-sort_neighbors [] = refl
length-sort_neighbors (p ∷ ps) =
    omega (arith, length-insert_neighbor p (sort_neighbors ps), length-sort_neighbors ps)

-- The embedding distances are below the start value of the skyline.
abbrev pub IsFinite : List NeighborH → Type 0
IsFinite ps = All (λ (p : NeighborH). p.distance1 < max_float) ps

pub insert_neighbor-IsFinite :
    (p : NeighborH) (ps : List NeighborH)
    → p.distance1 < max_float
    → IsFinite ps
    → IsFinite (insert_neighbor p ps)
unfolding insert_neighbor
insert_neighbor-IsFinite p [] h s = (h, tt)
insert_neighbor-IsFinite p (q ∷ qs) h s =
    let rest = insert_neighbor-IsFinite p qs h s.1 in
    elim (Bool-cases (neighbor_lt q p)) [ inl e ↦ rw e (s.0, rest) | inr e ↦ rw e (h, s) ]

pub sort_neighbors-IsFinite : (ps : List NeighborH) → IsFinite ps → IsFinite (sort_neighbors ps)
unfolding sort_neighbors
sort_neighbors-IsFinite [] h = tt
sort_neighbors-IsFinite (p ∷ ps) h =
    insert_neighbor-IsFinite p (sort_neighbors ps) h.0 (sort_neighbors-IsFinite ps h.1)

-- The two parts hold the points of the list; the remaining ones are in order and finite again.
pub count_id-skyline :
    (i m : ℕ) (ps : List NeighborH)
    → count_id i (skyline m ps).0 + count_id i (skyline m ps).1 ≡ count_id i ps
unfolding skyline
count_id-skyline i m [] = refl
count_id-skyline i m (p ∷ ps) =
    ground (arith, count_id-skyline i p.distance1 ps, count_id-skyline i m ps)

pub length-skyline :
    (m : ℕ) (ps : List NeighborH) → length (skyline m ps).0 + length (skyline m ps).1 ≡ length ps
unfolding skyline
length-skyline m [] = refl
length-skyline m (p ∷ ps) = ground (arith, length-skyline p.distance1 ps, length-skyline m ps)

pub skyline-IsAfter : (m d : ℕ) (ps : List NeighborH) → IsAfter d ps → IsAfter d (skyline m ps).1
unfolding skyline
skyline-IsAfter m d [] s = tt
skyline-IsAfter m d (p ∷ ps) s = elim (Bool-cases (ltb p.distance1 m)) [
  | inl e ↦
      rw e (IsAfter-weaken d p.distance2 _ s.0 (skyline-IsAfter p.distance1 p.distance2 ps s.1))
  | inr e ↦ rw e (s.0, skyline-IsAfter m p.distance2 ps s.1)
]

pub skyline-All :
    (P : NeighborH → Type 0) (m : ℕ) (ps : List NeighborH)
    → All P ps
    → All P (skyline m ps).0 × All P (skyline m ps).1
unfolding skyline
skyline-All P m [] s = (tt, tt)
skyline-All P m (p ∷ ps) s = elim (Bool-cases (ltb p.distance1 m)) [
  | inl e ↦ let (a, b) = skyline-All P p.distance1 ps s.1 in rw e ((s.0, a), b)
  | inr e ↦ let (a, b) = skyline-All P m ps s.1 in rw e (a, (s.0, b))
]

pub skyline-finds :
    (m : ℕ) (p : NeighborH) (ps : List NeighborH)
    → p.distance1 < m
    → 0 < length (skyline m (p ∷ ps)).0
unfolding skyline
skyline-finds m p ps h = ground arith

-- What remains has a dominator in the skyline, or was not below the start value.
pub skyline-dominates :
    (m d : ℕ) (ps : List NeighborH)
    → IsAfter d ps
    → All
        (λ (r : NeighborH).
          (d ≤ r.distance2) × ((has_dominator (skyline m ps).0 r ≡ true) ⊎ (m ≤ r.distance1)))
        (skyline m ps).1
unfolding skyline
skyline-dominates m d [] s = tt
skyline-dominates m d (p ∷ ps) s = elim (Bool-cases (ltb p.distance1 m)) [
  | inl e ↦ rw e (
      All-weaken _ _ _ (λ r h. (omega (arith, s.0, h.0), ground (arith, h, e)))
        (skyline-dominates p.distance1 p.distance2 ps s.1))
  | inr e ↦ rw e (
    (s.0, inr (ground (arith, e))),
    All-weaken _ _ _ (λ r h. (omega (arith, s.0, h.0), h.1))
        (skyline-dominates m p.distance2 ps s.1),
  )
]

pub remaining-dominated :
    (ps : List NeighborH)
    → IsAfter 0 ps
    → IsFinite ps
    → All
        (λ (r : NeighborH). has_dominator (skyline max_float ps).0 r ≡ true)
        (skyline max_float ps).1
remaining-dominated ps s f =
    let rem = (skyline max_float ps).1 in
    let rf = (skyline-All (λ (q : NeighborH). q.distance1 < max_float) max_float ps f).1 in
    All-weaken
      (λ (r : NeighborH).
        ((0 ≤ r.distance2)
          × ((has_dominator (skyline max_float ps).0 r ≡ true) ⊎ (max_float ≤ r.distance1)))
        × (r.distance1 < max_float))
      (λ (r : NeighborH). has_dominator (skyline max_float ps).0 r ≡ true) rem
      (λ r x. ground (arith, x)) (All-zip _ _ rem (skyline-dominates max_float 0 ps s) rf)

insert_neighbor-All :
    (P : NeighborH → Type 0) (p : NeighborH) (ps : List NeighborH)
    → P p
    → All P ps
    → All P (insert_neighbor p ps)
unfolding insert_neighbor
insert_neighbor-All P p [] h a = (h, tt)
insert_neighbor-All P p (q ∷ qs) h a = ground (arith, h, a, insert_neighbor-All P p qs h a.1)

pub sort_neighbors-All :
    (P : NeighborH → Type 0) (ps : List NeighborH) → All P ps → All P (sort_neighbors ps)
unfolding sort_neighbors
sort_neighbors-All P [] a = tt
sort_neighbors-All P (p ∷ ps) a =
    insert_neighbor-All P p (sort_neighbors ps) a.0 (sort_neighbors-All P ps a.1)
