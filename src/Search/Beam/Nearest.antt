-- ===== src/Search/Beam/Nearest.antt =====
-- The candidates are the nearest of all ids seen.
use hvs_disk.Base.{
  ℕ, ◌-◌, ◌≤◌, ◌<◌, ◌≡◌, ◌⊎◌, refl, sym, ap, subst, ◌∙◌, inl, inr, List, ◌∷◌, true, false, arith,
  ltb, ◌==◌, length, get_or, take, contains, All, Bool-cases,
}
use hvs_disk.Search.{Neighbor, Candidates, no_entry, insert_at}
use hvs_disk.Search.Pool.{Inserted, length-insert_at, entry-insert_at}
use hvs_disk.Search.Entries.{
  ids_of, get_or-take, length-take, contains-insert_at, contains-cut, All-insert_at, All-take,
  All-entry,
}
use hvs_disk.Search.Expand.{IsCandidates, fresh, Visits, old, far, new, default-IsAscending}

abbrev pub last_distance : List Neighbor → ℕ
last_distance xs = (get_or xs (length xs - 1) no_entry).distance

module _ (l_search cur_id : ℕ) (stale : Neighbor) (dist : ℕ → ℕ) where
  -- Entries have the distances of their ids; an id that was seen and is no candidate is not nearer
  -- than the last of l_search candidates.
  pub record IsNearest (visited : List ℕ) (xs : List Neighbor) : Type 0 where
    pub exact : All (λ (x : Neighbor). x.distance ≡ dist x.id) xs
    pub nearest :
        (v : ℕ)
        → contains visited v ≡ true
        → (contains (ids_of xs) v ≡ true) ⊎ ((length xs ≡ l_search) × (last_distance xs ≤ dist v))

  Inserted-IsNearest :
      (v : List ℕ) (xs : List Neighbor) (id r : ℕ)
      → IsNearest v xs
      → Inserted xs (fresh l_search cur_id stale id (dist id)) r
      → length xs < l_search
      → IsNearest (id ∷ v) (insert_at r (fresh l_search cur_id stale id (dist id)) xs)
  Inserted-IsNearest v xs id r c ins room =
      let nn = fresh l_search cur_id stale id (dist id) in
      record {
        exact = All-insert_at _ r nn xs c.exact refl;
        nearest = λ a s.
            inl (ground (arith, contains-insert_at r nn xs a ins.in_range, s, c.nearest a, room));
      }

  cut-IsNearest :
      (v : List ℕ) (xs : List Neighbor) (id r : ℕ)
      → IsNearest v xs
      → 0 < length xs
      → Inserted xs (fresh l_search cur_id stale id (dist id)) r
      → length xs ≡ l_search
      → IsNearest
          (id ∷ v)
          (take (length xs) (insert_at r (fresh l_search cur_id stale id (dist id)) xs))
  cut-IsNearest v xs id r c some_entry ins full =
      let nn = fresh l_search cur_id stale id (dist id) in
      let n = length xs in
      let ys = insert_at r nn xs in
      let len = length-insert_at r nn xs ins.in_range in
      let cut = length-take n ys (omega (arith, len)) in
      let exact = All-insert_at (λ (x : Neighbor). x.distance ≡ dist x.id) r nn xs c.exact refl in
      let asc = default-IsAscending ys nn no_entry ins.ascending in
      let last : last_distance (take n ys) ≡ (get_or ys (n - 1) no_entry).distance =
        ap (λ (l : ℕ). (get_or (take n ys) (l - 1) no_entry).distance) cut
        ∙ ap (λ (x : Neighbor). x.distance)
            (get_or-take n (n - 1) ys no_entry (omega (arith, some_entry))) in
      let falls : (get_or ys (n - 1) no_entry).distance ≤ last_distance xs = ground (
        arith,
        some_entry,
        entry-insert_at r (n - 1) nn no_entry xs ins.in_range,
        entry-insert_at r n nn no_entry xs ins.in_range,
        asc (n - 1) n (omega arith) (omega (arith, len)),
      ) in
      record {
        exact = All-take _ n ys exact;
        nearest = λ a s. elim (Bool-cases (contains (ids_of ys) a)) [
          | inl within ↦ elim (contains-cut n a ys no_entry len within) [
            | inl kept ↦ inl kept
            | inr dropped ↦
                let far : (get_or ys n no_entry).distance ≡ dist a =
                  All-entry _ ys n no_entry exact (omega (arith, len)) ∙ ap dist dropped in
                inr (
                  cut ∙ full,
                  omega (arith, last, far, asc (n - 1) n (omega arith) (omega (arith, len))),
                )
          ]
          | inr out ↦
              let before : last_distance xs ≤ dist a =
                elim (c.nearest a
                  (ground (arith, s, out, contains-insert_at r nn xs a ins.in_range))) [
                    | inl was ↦
                        absurd (ground (arith, was, out, contains-insert_at r nn xs a ins.in_range))
                    | inr (len', le) ↦ le
                  ] in
              inr (cut ∙ full, omega (arith, last, falls, before))
        ];
      }

  pub Visits-IsNearest :
      {id d : ℕ} {s t : Candidates}
      → d ≡ dist id
      → IsCandidates l_search cur_id stale s
      → Visits l_search cur_id stale id d s t
      → IsNearest s.visited s.retset
      → IsNearest t.visited t.retset
  Visits-IsNearest e c (old seen) near = near
  Visits-IsNearest {id} {d} {s} e c (far fresh_id late) near = record {
    exact = near.exact;
    nearest = λ a seen. elim (Bool-cases (id == a)) [
      | inl same ↦
          let q : id ≡ a = ground (arith, same) in
          inr (ground (arith, late), ground (arith, late, e, ap dist q))
      | inr other ↦ near.nearest a (ground (arith, other, seen))
    ];
  }
  Visits-IsNearest {id} {d} {s} e c (new r fresh_id ins) near =
      let size = length s.retset in
      let ins' = subst (λ (x : ℕ). Inserted s.retset (fresh l_search cur_id stale id x) r) e ins in
      let ys = insert_at r (fresh l_search cur_id stale id d) s.retset in
      let len = length-insert_at r (fresh l_search cur_id stale id d) s.retset ins.in_range in
      elim (Bool-cases (ltb size l_search)) [
        | inl room ↦
            let more : (length ys == size) ≡ false = ground (arith, len) in
            rw (room, more)
              (subst
                (λ (x : ℕ).
                  IsNearest (id ∷ s.visited)
                    (insert_at r (fresh l_search cur_id stale id x) s.retset))
                (sym e)
                (Inserted-IsNearest s.visited s.retset id r near ins' (ground (arith, room))))
        | inr full ↦
            let same : size ≡ l_search = ground (arith, full, c.bounded) in
            rw full (
              subst
                (λ (x : ℕ).
                  IsNearest (id ∷ s.visited)
                    (take size (insert_at r (fresh l_search cur_id stale id x) s.retset)))
                (sym e) (cut-IsNearest s.visited s.retset id r near c.some_entry ins' same))
      ]
