-- ===== src/Search/Entries.antt =====
-- Lists of candidates after an insertion or a cut.
use hvs_disk.Base.{
  ℕ, zero, suc, ◌≤◌, ◌<◌, ◌≡◌, ◌⊎◌, refl, ap, subst, inl, inr, List, [], ◌∷◌, true, false, arith,
  ◌==◌, ◌||◌, length, get_or, take, All, contains, IsDistinct, Bool-cases,
}
use hvs_disk.Search.{Neighbor, insert_at}

pub get_or-default :
    (xs : List Neighbor) (i : ℕ) (d e : Neighbor) → i < length xs → get_or xs i d ≡ get_or xs i e
get_or-default [] i d e lt = absurd (omega (arith, lt))
get_or-default (x ∷ xs) zero d e lt = refl
get_or-default (x ∷ xs) (suc i) d e lt = get_or-default xs i d e (omega (arith, lt))

pub get_or-take :
    (n i : ℕ) (xs : List Neighbor) (d : Neighbor) → i < n → get_or (take n xs) i d ≡ get_or xs i d
get_or-take zero i xs d lt = absurd (omega (arith, lt))
get_or-take (suc n) i [] d lt = refl
get_or-take (suc n) zero (x ∷ xs) d lt = refl
get_or-take (suc n) (suc i) (x ∷ xs) d lt = get_or-take n i xs d (omega (arith, lt))

pub length-take : (n : ℕ) (xs : List Neighbor) → n ≤ length xs → length (take n xs) ≡ n
length-take zero xs le = refl
length-take (suc n) [] le = absurd (omega (arith, le))
length-take (suc n) (x ∷ xs) le = ap suc (length-take n xs (omega (arith, le)))

abbrev pub ids_of : List Neighbor → List ℕ
ids_of [] = []
ids_of (x ∷ xs) = x.id ∷ ids_of xs

pub contains-insert_at :
    (r : ℕ) (nn : Neighbor) (xs : List Neighbor) (a : ℕ)
    → r ≤ length xs
    → contains (ids_of (insert_at r nn xs)) a ≡ ((nn.id == a) || contains (ids_of xs) a)
contains-insert_at zero nn xs a le = refl
contains-insert_at (suc r) nn [] a le = absurd (omega (arith, le))
contains-insert_at (suc r) nn (x ∷ xs) a le =
    ground (arith, contains-insert_at r nn xs a (omega (arith, le)))

pub insert_at-IsDistinct :
    (r : ℕ) (nn : Neighbor) (xs : List Neighbor)
    → r ≤ length xs
    → IsDistinct (ids_of xs)
    → contains (ids_of xs) nn.id ≡ false
    → IsDistinct (ids_of (insert_at r nn xs))
insert_at-IsDistinct zero nn xs le d a = (a, d)
insert_at-IsDistinct (suc r) nn [] le d a = absurd (omega (arith, le))
insert_at-IsDistinct (suc r) nn (x ∷ xs) le d a = (
  ground (arith, contains-insert_at r nn xs x.id (omega (arith, le)), d.0, a),
  insert_at-IsDistinct r nn xs (omega (arith, le)) d.1 (ground (arith, a)),
)

contains-take :
    (n : ℕ) (xs : List Neighbor) (a : ℕ)
    → contains (ids_of xs) a ≡ false
    → contains (ids_of (take n xs)) a ≡ false
contains-take zero xs a c = refl
contains-take (suc n) [] a c = refl
contains-take (suc n) (x ∷ xs) a c = ground (arith, c, contains-take n xs a)

pub take-IsDistinct :
    (n : ℕ) (xs : List Neighbor) → IsDistinct (ids_of xs) → IsDistinct (ids_of (take n xs))
take-IsDistinct zero xs d = tt
take-IsDistinct (suc n) [] d = tt
take-IsDistinct (suc n) (x ∷ xs) d = (contains-take n xs x.id d.0, take-IsDistinct n xs d.1)

-- Every id has been seen.
abbrev pub AreSeen : List ℕ → List Neighbor → Type 0
AreSeen visited xs = All (λ (x : Neighbor). contains visited x.id ≡ true) xs

pub All-insert_at {κ} :
    (P : Neighbor → Type κ) (r : ℕ) (nn : Neighbor) (xs : List Neighbor)
    → All P xs
    → P nn
    → All P (insert_at r nn xs)
All-insert_at P zero nn xs a p = (p, a)
All-insert_at P (suc r) nn [] a p = tt
All-insert_at P (suc r) nn (x ∷ xs) a p = (a.0, All-insert_at P r nn xs a.1 p)

pub All-take {κ} :
    (P : Neighbor → Type κ) (n : ℕ) (xs : List Neighbor) → All P xs → All P (take n xs)
All-take P zero xs a = tt
All-take P (suc n) [] a = tt
All-take P (suc n) (x ∷ xs) a = (a.0, All-take P n xs a.1)

pub AreSeen-more : (v : List ℕ) (id : ℕ) (xs : List Neighbor) → AreSeen v xs → AreSeen (id ∷ v) xs
AreSeen-more v id [] a = tt
AreSeen-more v id (x ∷ xs) a = (ground (arith, a.0), AreSeen-more v id xs a.1)

-- An id that has not been seen is none of theirs.
pub unseen-absent :
    (v : List ℕ) (id : ℕ) (xs : List Neighbor)
    → AreSeen v xs
    → contains v id ≡ false
    → contains (ids_of xs) id ≡ false
unseen-absent v id [] a c = refl
unseen-absent v id (x ∷ xs) a c = elim (Bool-cases (x.id == id)) [
  | inr other ↦ ground (arith, other, unseen-absent v id xs a.1 c)
  | inl same ↦
      let q : x.id ≡ id = ground (arith, same) in
      absurd (ground (arith, c, subst (λ (y : ℕ). contains v y ≡ true) q a.0))
]

pub entry-contains :
    (xs : List Neighbor) (i id : ℕ) (d : Neighbor)
    → i < length xs
    → (get_or xs i d).id ≡ id
    → contains (ids_of xs) id ≡ true
entry-contains [] i id d lt e = absurd (omega (arith, lt))
entry-contains (x ∷ xs) zero id d lt e = ground (arith, e)
entry-contains (x ∷ xs) (suc i) id d lt e =
    ground (arith, entry-contains xs i id d (omega (arith, lt)) e)

-- One entry is cut off.
pub contains-cut :
    (n a : ℕ) (xs : List Neighbor) (d : Neighbor)
    → length xs ≡ suc n
    → contains (ids_of xs) a ≡ true
    → (contains (ids_of (take n xs)) a ≡ true) ⊎ ((get_or xs n d).id ≡ a)
contains-cut n a [] d len c = absurd (ground (arith, c))
contains-cut zero a (x ∷ []) d len c = inr (ground (arith, c))
contains-cut zero a (x ∷ y ∷ xs) d len c = absurd (omega (arith, len))
contains-cut (suc n) a (x ∷ xs) d len c = elim (Bool-cases (x.id == a)) [
  | inl here ↦ inl (ground (arith, here))
  | inr later ↦ ground (arith, later, c, contains-cut n a xs d (omega (arith, len)))
]

pub All-entry {κ} :
    (P : Neighbor → Type κ) (xs : List Neighbor) (i : ℕ) (d : Neighbor)
    → All P xs
    → i < length xs
    → P (get_or xs i d)
All-entry P [] i d a lt = absurd (omega (arith, lt))
All-entry P (x ∷ xs) zero d a lt = a.0
All-entry P (x ∷ xs) (suc i) d a lt = All-entry P xs i d a.1 (omega (arith, lt))
