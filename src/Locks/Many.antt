-- ===== src/Locks/Many.antt =====
-- lock_vec and unlock_vec, and the pages that lock_page_idx takes.
use hvs_disk.Base.{
  ℕ, ◌≡◌, refl, sym, ap, ◌∙◌, List, [], ◌∷◌, ◌++◌, none, some, Bool, true, false, arith, ◌==◌, ◌||◌,
  contains, contains-append, IsDistinct, IsDistinct-push, inl, inr, Bool-cases, Option-cases, ltb,
  All,
}
use hvs_disk.Base.HashMap.{HashMap}
use hvs_disk.Layout.Sector.{Geometry}
use hvs_disk.Layout.Slots.{invalid_id}
use hvs_disk.Locks.{
  RwLock, insert_id, sort_ids, unique, with_target, unlock_all, lock_vec, unlock_vec, id2page,
  id2pages, sorted_once, lock_page_idx,
}
use hvs_disk.Locks.Held.{
  contains-insert_id, contains-sort_ids, contains-unique, IsIncreasing, sort_ids-IsRising,
  unique-IsIncreasing, wrlock_all-finds, unlock_all-finds,
}

insert_id-IsDistinct :
    (a : ℕ) (xs : List ℕ) → contains xs a ≡ false → IsDistinct xs → IsDistinct (insert_id a xs)
unfolding insert_id
insert_id-IsDistinct a [] h d = (refl, tt)
insert_id-IsDistinct a (b ∷ bs) h d = elim (Bool-cases (ltb b a)) [
  | inl e ↦ rw e (
    contains-insert_id a bs b ∙ ground (arith, h, d.0),
    insert_id-IsDistinct a bs (ground (arith, h)) d.1,
  )
  | inr e ↦ rw e (h, d)
]

sort_ids-IsDistinct : (xs : List ℕ) → IsDistinct xs → IsDistinct (sort_ids xs)
unfolding sort_ids
sort_ids-IsDistinct [] d = tt
sort_ids-IsDistinct (a ∷ xs) d =
    insert_id-IsDistinct a (sort_ids xs) (contains-sort_ids xs a ∙ d.0) (sort_ids-IsDistinct xs d.1)

module _ (r : RwLock) (h : HashMap (r.Lock × ℕ)) where
  -- For distinct neighbours and a valid target that is none of them, none of them held: lock_vec
  -- takes all locks without waiting for itself, and unlock_vec afterwards does not trap and leaves
  -- every key of the table as it was.
  pub lock_vec-unlock_vec :
      (target : ℕ) (neighbors : List ℕ) (t : h.Table)
      → (target == invalid_id) ≡ false
      → IsDistinct (target ∷ neighbors)
      → ((j : ℕ) → contains (target ∷ neighbors) j ≡ true → h.find j t ≡ none)
      → (t' : h.Table) × (t'' : h.Table) × (lock_vec r h target neighbors t ≡ some t')
        × (unlock_vec r h target neighbors t' ≡ some t'')
        × ((j : ℕ) → h.find j t'' ≡ h.find j t)
  unfolding lock_vec unlock_vec unlock_all
  lock_vec-unlock_vec target neighbors t v d a =
      let xs = neighbors ++ target ∷ [] in
      let same : (j : ℕ) → contains (sort_ids xs) j ≡ contains (target ∷ neighbors) j =
        λ j. contains-sort_ids xs j ∙ ground (arith, contains-append neighbors (target ∷ []) j) in
      let sd = sort_ids-IsDistinct xs (IsDistinct-push neighbors target d.1 d.0) in
      let (t', run, look) =
        wrlock_all-finds r h (sort_ids xs) t sd (λ j c. a j (sym (same j) ∙ c)) in
      let (t'', back, look') =
        unlock_all-finds r h (target ∷ neighbors) t' d (λ j c. ground (arith, look j, same j, c)) in
      (t', t'', rw v run, rw v back, λ j. ground (arith, look j, look' j, same j, a j))

module _ (m : HashMap ℕ) (g : Geometry) where
  -- Some id of the list stands on the page.
  abbrev pub on_page : m.Table → List ℕ → ℕ → Bool
  on_page id2loc_ [] p = false
  on_page id2loc_ (id ∷ ids) p =
      (elim (id2page m g id2loc_ id) [ none ↦ false | some q ↦ q == p ]) || on_page id2loc_ ids p

  id2pages-on_page :
      (id2loc_ : m.Table) (ids ps : List ℕ)
      → id2pages m g id2loc_ ids ≡ some ps
      → (p : ℕ) → contains ps p ≡ on_page id2loc_ ids p
  unfolding id2pages
  id2pages-on_page id2loc_ [] ps e p = ground (arith, e)
  id2pages-on_page id2loc_ (id ∷ ids) ps e p = elim (Option-cases (id2pages m g id2loc_ ids)) [
    | inl none_rest ↦ elim (Option-cases (id2page m g id2loc_ id)) [
      | inl q ↦ absurd (ground (arith, e, q))
      | inr (x, q) ↦ absurd (ground (arith, rw (q, none_rest) at e))
    ]
    | inr (rest, r) ↦ elim (Option-cases (id2page m g id2loc_ id)) [
      | inl q ↦ absurd (ground (arith, rw q at e))
      | inr (x, q) ↦
          let same : some (x ∷ rest) ≡ some ps = rw (q, r) at e in
          let tail = id2pages-on_page id2loc_ ids rest r p in rw q (ground (arith, same, tail))
    ]
  ]

  abbrev pub HasLocation : m.Table → ℕ → Type 0
  HasLocation id2loc_ id = (p : ℕ) × (id2page m g id2loc_ id ≡ some p)

  id2pages-some :
      (id2loc_ : m.Table) (ids : List ℕ)
      → All (HasLocation id2loc_) ids
      → (ps : List ℕ) × (id2pages m g id2loc_ ids ≡ some ps)
  unfolding id2pages
  id2pages-some id2loc_ [] a = ([], refl)
  id2pages-some id2loc_ (id ∷ ids) a =
      let (p, e) = a.0 in let (ps, r) = id2pages-some id2loc_ ids a.1 in (p ∷ ps, rw (e, r) refl)

  -- Where every neighbour and the valid target have a location, lock_page_idx does not crash: the
  -- pages to lock are strictly increasing, and exactly those on which one of the ids stands.
  pub lock_page_idx-on_page :
      (id2loc_ : m.Table) (target : ℕ) (neighbors : List ℕ)
      → All (HasLocation id2loc_) (with_target target neighbors)
      → (pages : List ℕ) × (lock_page_idx m g true id2loc_ target neighbors ≡ some pages)
        × IsIncreasing 0 pages
        × ((p : ℕ) → contains pages p ≡ on_page id2loc_ (with_target target neighbors) p)
  unfolding lock_page_idx
  lock_page_idx-on_page id2loc_ target neighbors a =
      let ids = with_target target neighbors in
      let (ps, r) = id2pages-some id2loc_ ids a in
      (
        unique (sort_ids ps),
        ap (sorted_once m g) r,
        unique-IsIncreasing 0 (sort_ids ps) (sort_ids-IsRising ps),
        λ p.
            contains-unique (sort_ids ps) p
            ∙ contains-sort_ids ps p
            ∙ id2pages-on_page id2loc_ ids ps r p,
      )
