-- ===== src/Search/Pool.antt =====
-- InsertIntoPool keeps the candidates in order, and takes no candidate twice.
use hvs_disk.Base.{
  ℕ, zero, suc, ◌+◌, ◌-◌, ◌≤◌, ◌<◌, ◌≡◌, ◌≢◌, ◌⊎◌, refl, ap, subst, inl, inr, List, [], ◌∷◌, ◌++◌,
  some, false, arith, ltb, ◌==◌, if◌then◌else◌, length, get_or, Bool-cases,
}
use hvs_disk.Search.{Neighbor, insert_at, entry, narrow, insert_into_pool}
use hvs_disk.Search.Narrow.{IsAscending, Bounds, narrow-Bounds, scan_equal-cases}

insert_at-end :
    (addr : List Neighbor) (nn : Neighbor) → insert_at (length addr) nn addr ≡ addr ++ nn ∷ []
insert_at-end [] nn = refl
insert_at-end (x ∷ addr) nn = ap (λ (ys : List Neighbor). x ∷ ys) (insert_at-end addr nn)

pub length-insert_at :
    (r : ℕ) (nn : Neighbor) (addr : List Neighbor)
    → r ≤ length addr
    → length (insert_at r nn addr) ≡ suc (length addr)
length-insert_at zero nn addr le = refl
length-insert_at (suc r) nn [] le = absurd (omega (arith, le))
length-insert_at (suc r) nn (x ∷ addr) le = ap suc (length-insert_at r nn addr (omega (arith, le)))

-- The entries after an insertion.
pub entry-insert_at :
    (r i : ℕ) (nn d : Neighbor) (addr : List Neighbor)
    → r ≤ length addr
    → get_or (insert_at r nn addr) i d
      ≡ (if ltb i r then get_or addr i d else if i == r then nn else get_or addr (i - 1) d)
entry-insert_at zero zero nn d addr le = refl
entry-insert_at zero (suc i) nn d addr le =
    let q : suc i - 1 ≡ i = omega arith in rw q (ground arith)
entry-insert_at (suc r) i nn d [] le = absurd (omega (arith, le))
entry-insert_at (suc r) zero nn d (x ∷ addr) le = ground arith
entry-insert_at (suc r) (suc zero) nn d (x ∷ addr) le =
    ground (arith, entry-insert_at r zero nn d addr (omega (arith, le)))
entry-insert_at (suc r) (suc (suc i)) nn d (x ∷ addr) le =
    let q : suc (suc i) - 1 ≡ suc i = omega arith in
    let q' : suc i - 1 ≡ i = omega arith in
    rw q (ground (arith, rw q' at (entry-insert_at r (suc i) nn d addr (omega (arith, le)))))

module _ (addr : List Neighbor) (nn : Neighbor) where
  -- Index r splits the entries by distance.
  record Splits (r : ℕ) : Type 0 where
    in_range : r ≤ length addr
    before : (i : ℕ) → i < r → (entry addr nn i).distance ≤ nn.distance
    after : (i : ℕ) → r ≤ i → i < length addr → nn.distance ≤ (entry addr nn i).distance

  insert_at-IsAscending :
      (r : ℕ) → IsAscending addr nn → Splits r → IsAscending (insert_at r nn addr) nn
  insert_at-IsAscending r asc sp i j le lt = ground (
    arith,
    length-insert_at r nn addr sp.in_range,
    entry-insert_at r i nn nn addr sp.in_range,
    entry-insert_at r j nn nn addr sp.in_range,
    asc i j,
    asc i (j - 1),
    asc (i - 1) (j - 1),
    sp.before i,
    sp.after (j - 1),
    le,
    lt,
  )

  -- No entry has the distance and the id of the new one.
  pub record IsNew : Type 0 where
    pub new :
        (i : ℕ)
        → i < length addr
        → (entry addr nn i).distance ≡ nn.distance
        → (entry addr nn i).id ≢ nn.id

  -- What an insertion at r leaves.
  pub record Inserted (r : ℕ) : Type 0 where
    pub in_range : r ≤ length addr
    pub ascending : IsAscending (insert_at r nn addr) nn
    pub new : IsNew

  inserted : (r : ℕ) → IsAscending addr nn → Splits r → IsNew → Inserted r
  inserted r asc sp new = record {
    in_range = sp.in_range;
    ascending = insert_at-IsAscending r asc sp;
    new = new;
  }

  -- Between the bounds of the search there is no entry.
  Bounds-Splits :
      (l r : ℕ)
      → IsAscending addr nn
      → Bounds addr nn l r
      → (l + 1 ≡ r) ⊎ ((l ≡ 0) × (r ≡ 0))
      → Splits r
  Bounds-Splits l r asc b end = record {
    in_range = omega (arith, b.inside);
    before = λ i lt. ground (arith, end, lt, asc i l, b.left_near, b.inside);
    after = λ i le lt. omega (arith, asc r i le lt, b.right_far);
  }

  bounds-IsNew :
      (left r l : ℕ)
      → IsAscending addr nn
      → Bounds addr nn left r
      → (left + 1 ≡ r) ⊎ ((left ≡ 0) × (r ≡ 0))
      → ((entry addr nn l).id == nn.id) ≡ false
      → ((entry addr nn r).id == nn.id) ≡ false
      → ((i : ℕ)
          → i ≤ left
          → (entry addr nn i).distance ≡ nn.distance
          → (entry addr nn i).id ≡ nn.id
          → (i ≡ l))
      → IsNew
  bounds-IsNew left r l asc b end el er unique = record {
    new = λ i lt d e. elim (Bool-cases (ltb left i)) [
      | inr low ↦
          let q = unique i (ground (arith, low)) d e in
          ground (arith, el, subst (λ (x : ℕ). (entry addr nn x).id ≡ nn.id) q e)
      | inl high ↦ elim (Bool-cases (i == r)) [
        | inl same ↦
            let q : i ≡ r = ground (arith, same) in
            ground (arith, er, subst (λ (x : ℕ). (entry addr nn x).id ≡ nn.id) q e)
        | inr other ↦ ground (arith, high, other, end, b.right_end, asc r i, lt, d)
      ]
    ];
  }

  abbrev pub Outcome : Type 0
  Outcome =
      ((insert_into_pool addr nn ≡ some (addr, length addr + 1))
        × (i : ℕ) × (i < length addr)
        × ((entry addr nn i).id ≡ nn.id))
      ⊎ ((r : ℕ) × (insert_into_pool addr nn ≡ some (insert_at r nn addr, r)) × Inserted r)

  searched :
      (left r : ℕ)
      → IsAscending addr nn
      → ltb nn.distance (entry addr nn 0).distance ≡ false
      → ltb (entry addr nn (length addr - 1)).distance nn.distance ≡ false
      → narrow addr nn (length addr) 0 (length addr - 1) ≡ some (left, r)
      → Bounds addr nn left r
      → (left + 1 ≡ r) ⊎ ((left ≡ 0) × (r ≡ 0))
      → Outcome
  unfolding insert_into_pool
  searched left r asc first last run b end =
      let within : left < length addr = ground (arith, end, b.inside) in
      elim (scan_equal-cases addr nn left asc within) [
        | inl (stop, i, li, e) ↦ inl (rw (insert_into_pool, first, last, run, stop) refl, i, li, e)
        | inr (l, go, le, unique) ↦ elim (Bool-cases ((entry addr nn l).id == nn.id)) [
          | inl same ↦ inl (
            rw (insert_into_pool, first, last, run, go, same) refl,
            l,
            omega (arith, le, within),
            ground (arith, same),
          )
          | inr el ↦ elim (Bool-cases ((entry addr nn r).id == nn.id)) [
            | inl same ↦ inl (
              rw (insert_into_pool, first, last, run, go, el, same) refl,
              r,
              b.inside,
              ground (arith, same),
            )
            | inr er ↦ inr (
              r,
              rw (insert_into_pool, first, last, run, go, el, er) refl,
              inserted r asc (Bounds-Splits left r asc b end)
                  (bounds-IsNew left r l asc b end el er unique),
            )
          ]
        ]
      ]

  -- On a list in order and not empty, InsertIntoPool ends, and either finds an entry with the id of
  -- the new one and changes nothing, or inserts it, where no entry of its distance has its id, so that
  -- the list is in order.
  pub insert_into_pool-Inserted :
      0 < length addr
      → IsAscending addr nn
      → ((insert_into_pool addr nn ≡ some (addr, length addr + 1))
          × (i : ℕ) × (i < length addr)
          × ((entry addr nn i).id ≡ nn.id))
        ⊎ ((r : ℕ) × (insert_into_pool addr nn ≡ some (insert_at r nn addr, r)) × Inserted r)
  unfolding insert_into_pool
  insert_into_pool-Inserted some_entry asc =
      let right = length addr - 1 in
      elim (Bool-cases (ltb nn.distance (entry addr nn 0).distance)) [
        | inl first ↦
            let far : nn.distance < (entry addr nn 0).distance = ground (arith, first) in
            inr (
              0,
              rw (insert_into_pool, first) refl,
              inserted 0 asc
                  (record {
                    in_range = omega arith;
                    before = λ i lt. absurd (omega (arith, lt));
                    after = λ i le lt. omega (arith, asc 0 i (omega arith) lt, far);
                  })
                  (record {
                    new = λ i lt d e. absurd (omega (arith, asc 0 i (omega arith) lt, far, d));
                  }),
            )
        | inr not_first ↦ elim (Bool-cases (ltb (entry addr nn right).distance nn.distance)) [
          | inl last ↦
              let near : (entry addr nn right).distance < nn.distance = ground (arith, last) in
              inr (
                length addr,
                rw (insert_into_pool, not_first, last, insert_at-end addr nn) refl,
                inserted (length addr) asc
                    (record {
                      in_range = omega arith;
                      before = λ i lt. omega (
                        arith,
                        asc i right (omega (arith, lt)) (omega (arith, some_entry)),
                        near,
                      );
                      after = λ i le lt. absurd (omega (arith, le, lt));
                    })
                    (record {
                      new = λ i lt d e. absurd (
                          omega (
                            arith,
                            asc i right (omega (arith, lt)) (omega (arith, some_entry)),
                            near,
                            d,
                          ));
                    }),
              )
          | inr between ↦
              let (l, r, run, b, end) =
                narrow-Bounds addr nn (length addr) 0 right (omega (arith, some_entry)) (record {
                  left_near = ground (arith, not_first);
                  right_far = ground (arith, between);
                  right_end = inl (omega (arith, some_entry));
                  order = ground (arith, some_entry);
                  inside = omega (arith, some_entry);
                }) in
              searched l r asc not_first between run b end
        ]
      ]
