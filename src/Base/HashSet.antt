-- ===== src/Base/HashSet.antt =====
-- The hash sets of unsigned numbers that the program takes from a library (robin_set), as an
-- interface: their members, and the list of their elements in the order of iteration.
use hvs_disk.Base.{
  ℕ, ◌≡◌, refl, List, [], ◌∷◌, Bool, true, false, arith, ◌==◌, if◌then◌else◌, contains, IsDistinct,
}

pub record HashSet : Type 1 where
  pub Table : Type 0
  pub empty : Table
  pub has : ℕ → Table → Bool
  pub insert : ℕ → Table → Table
  pub erase : ℕ → Table → Table
  pub elements : Table → List ℕ
  pub has-empty : (k : ℕ) → has k empty ≡ false
  pub has-insert : (k j : ℕ) (t : Table) → has j (insert k t) ≡ (if k == j then true else has j t)
  pub has-erase : (k j : ℕ) (t : Table) → has j (erase k t) ≡ (if k == j then false else has j t)
  pub contains-elements : (t : Table) (j : ℕ) → contains (elements t) j ≡ has j t
  pub elements-IsDistinct : (t : Table) → IsDistinct (elements t)

-- Lists without repetitions meet the laws.
abbrev pub forget : ℕ → List ℕ → List ℕ
forget k [] = []
forget k (x ∷ xs) = let rest = forget k xs in if k == x then rest else x ∷ rest

pub contains-forget :
    (k j : ℕ) (xs : List ℕ) → contains (forget k xs) j ≡ (if k == j then false else contains xs j)
contains-forget k j [] = ground arith
contains-forget k j (x ∷ xs) = ground (arith, contains-forget k j xs)

pub forget-IsDistinct : (k : ℕ) (xs : List ℕ) → IsDistinct xs → IsDistinct (forget k xs)
forget-IsDistinct k [] d = tt
forget-IsDistinct k (x ∷ xs) d =
    kept (k == x) (ground (arith, contains-forget k x xs, d.0)) (forget-IsDistinct k xs d.1)
  where
    kept :
        (same : Bool)
        → contains (forget k xs) x ≡ false
        → IsDistinct (forget k xs)
        → IsDistinct (if same then forget k xs else x ∷ forget k xs)
    kept true new rest = rest
    kept false new rest = (new, rest)

pub contains-drop_self : (k : ℕ) (xs : List ℕ) → contains (forget k xs) k ≡ false
contains-drop_self k xs = ground (arith, contains-forget k k xs)

pub contains-forget_insert :
    (k j : ℕ) (xs : List ℕ)
    → contains (k ∷ forget k xs) j ≡ (if k == j then true else contains xs j)
contains-forget_insert k j xs = ground (arith, contains-forget k j xs)

pub record Distinct : Type 0 where
  pub elems : List ℕ
  pub distinct : IsDistinct elems

abbrev pub list_set : HashSet
list_set = record {
  Table = Distinct;
  empty = record { elems = []; distinct = tt };
  has = λ k t. contains t.elems k;
  insert = λ k t. record {
    elems = k ∷ forget k t.elems;
    distinct = (contains-drop_self k t.elems, forget-IsDistinct k t.elems t.distinct);
  };
  erase =
      λ k t. record { elems = forget k t.elems; distinct = forget-IsDistinct k t.elems t.distinct };
  elements = λ t. t.elems;
  has-empty = λ k. refl;
  has-insert = λ k j t. contains-forget_insert k j t.elems;
  has-erase = λ k j t. contains-forget k j t.elems;
  contains-elements = λ t j. refl;
  elements-IsDistinct = λ t. t.distinct;
}
