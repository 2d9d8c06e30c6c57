-- ===== src/Base/HashMap.antt =====
-- The concurrent hash maps that the program takes from libraries (libcuckoo, parallel_hashmap),
-- as an interface: a table from unsigned keys, with the laws of its operations on one key.
use hvs_disk.Base.{
  ℕ, ◌≡◌, refl, List, [], ◌∷◌, Option, none, some, Bool, true, false, ◌&&◌, ◌||◌, arith, ◌==◌,
  if◌then◌else◌, All, All-weaken, Bool-cases, inl, inr,
}

pub record HashMap (V : Type 0) : Type 1 where
  pub Table : Type 0
  pub empty : Table
  pub find : ℕ → Table → Option V
  pub insert_or_assign : ℕ → V → Table → Table
  pub erase : ℕ → Table → Table
  pub find-empty : (k : ℕ) → find k empty ≡ none
  pub find-insert_or_assign :
      (k j : ℕ) (v : V) (t : Table)
      → find j (insert_or_assign k v t) ≡ (if k == j then some v else find j t)
  pub find-erase : (k j : ℕ) (t : Table) → find j (erase k t) ≡ (if k == j then none else find j t)

-- An association list meets the laws.
abbrev pub assoc_find : {V : Type 0} → ℕ → List (ℕ × V) → Option V
assoc_find j [] = none
assoc_find j ((k, v) ∷ t) = if k == j then some v else assoc_find j t

abbrev pub assoc_erase : {V : Type 0} → ℕ → List (ℕ × V) → List (ℕ × V)
assoc_erase j [] = []
assoc_erase j ((k, v) ∷ t) = let rest = assoc_erase j t in if j == k then rest else (k, v) ∷ rest

pub assoc_find-erase :
    {V : Type 0} (k j : ℕ) (t : List (ℕ × V))
    → assoc_find j (assoc_erase k t) ≡ (if k == j then none else assoc_find j t)
assoc_find-erase k j [] = ground arith
assoc_find-erase k j ((i, v) ∷ t) = ground (arith, assoc_find-erase k j t)

abbrev pub assoc_map : (V : Type 0) → HashMap V
assoc_map V = record {
  Table = List (ℕ × V);
  empty = [];
  find = assoc_find;
  insert_or_assign = λ k v t. (k, v) ∷ t;
  erase = assoc_erase;
  find-empty = λ k. refl;
  find-insert_or_assign = λ k j v t. refl;
  find-erase = assoc_find-erase;
}

-- The iteration over a map whose values are numbers: its entries are the pairs of a key and its
-- value.
abbrev pub has_pair : List (ℕ × ℕ) → ℕ → ℕ → Bool
has_pair [] k v = false
has_pair ((i, w) ∷ t) k v = (i == k && w == v) || has_pair t k v

pub record Iterates (h : HashMap ℕ) : Type 0 where
  pub entries : h.Table → List (ℕ × ℕ)
  pub find-entries : (t : h.Table) → All (λ (e : ℕ × ℕ). h.find e.0 t ≡ some e.1) (entries t)
  pub entries-find : (t : h.Table) (k v : ℕ) → h.find k t ≡ some v → has_pair (entries t) k v ≡ true

abbrev pub assoc_entries : List (ℕ × ℕ) → List (ℕ × ℕ)
assoc_entries [] = []
assoc_entries ((k, v) ∷ t) = (k, v) ∷ assoc_erase k (assoc_entries t)

module _ (P : ℕ × ℕ → Type 0) (k : ℕ) where
  All-assoc_erase :
      (t : List (ℕ × ℕ)) → All P t → All (λ e. P e × ((k == e.0) ≡ false)) (assoc_erase k t)
  All-assoc_erase [] a = tt
  All-assoc_erase ((i, v) ∷ t) a = kept (k == i) (λ e. (a.0, e)) (All-assoc_erase t a.1)
    where
      kept :
          (same : Bool)
          → (same ≡ false → P (i, v) × ((k == i) ≡ false))
          → All (λ e. P e × ((k == e.0) ≡ false)) (assoc_erase k t)
          → All
              (λ e. P e × ((k == e.0) ≡ false))
              (if same then assoc_erase k t else (i, v) ∷ assoc_erase k t)
      kept true h rest = rest
      kept false h rest = (h refl, rest)

has_pair-assoc_erase :
    (k j v : ℕ) (t : List (ℕ × ℕ))
    → (k == j) ≡ false
    → has_pair (assoc_erase k t) j v ≡ has_pair t j v
has_pair-assoc_erase k j v [] ne = refl
has_pair-assoc_erase k j v ((i, w) ∷ t) ne = ground (arith, has_pair-assoc_erase k j v t ne, ne)

pub assoc_find-entries :
    (t : List (ℕ × ℕ)) → All (λ (e : ℕ × ℕ). assoc_find e.0 t ≡ some e.1) (assoc_entries t)
assoc_find-entries [] = tt
assoc_find-entries ((k, v) ∷ t) = (
  ground arith,
  All-weaken _ _ (assoc_erase k (assoc_entries t)) (λ e h. ground (arith, h.0, h.1))
      (All-assoc_erase (λ e. assoc_find e.0 t ≡ some e.1) k (assoc_entries t)
        (assoc_find-entries t)),
)

pub entries-assoc_find :
    (t : List (ℕ × ℕ)) (k v : ℕ) → assoc_find k t ≡ some v → has_pair (assoc_entries t) k v ≡ true
entries-assoc_find [] k v h = absurd (ground (arith, h))
entries-assoc_find ((i, w) ∷ t) k v h = elim (Bool-cases (i == k)) [
  | inl e ↦ ground (arith, h, e)
  | inr e ↦ ground (
    arith,
    has_pair-assoc_erase i k v (assoc_entries t) e,
    entries-assoc_find t k v (ground (arith, h, e)),
  )
]

abbrev pub assoc_iterates : Iterates (assoc_map ℕ)
assoc_iterates = record {
  entries = assoc_entries;
  find-entries = assoc_find-entries;
  entries-find = entries-assoc_find;
}
