-- ===== src/Pages/Counted.antt =====
-- The reference counts of the page cache.
use hvs_disk.Base.{
  ℕ, zero, suc, ◌+◌, ◌-◌, ◌%◌, ◌^◌, ◌<◌, ◌≡◌, refl, sym, ap, ◌∙◌, inl, inr, List, [], ◌∷◌, length,
  Option, none, some, true, arith, ◌==◌, if◌then◌else◌, Bool-cases, subst,
}
use hvs_disk.Base.HashMap.{HashMap}
use hvs_disk.Pages.{PageCacheItem, count_or_zero, put, deref}

module _ (Buf : Type 0) (h : HashMap (PageCacheItem Buf)) where
  abbrev pub item : Buf → ℕ → PageCacheItem Buf
  item value n = record { buf = value; ref_cnt = n }

  -- n times deref of one page.
  abbrev pub deref_all : ℕ → ℕ → h.Table → h.Table
  deref_all zero b t = t
  deref_all (suc n) b t = deref_all n b (deref Buf h b t)

  -- The puts of some values, each of which takes a reference.
  abbrev pub put_all : ℕ → List Buf → h.Table → h.Table
  put_all b [] t = t
  put_all b (value ∷ values) t = put_all b values (put Buf h b value true t)

  abbrev pub last : Buf → List Buf → Buf
  last value [] = value
  last value (next ∷ values) = last next values

  put-find :
      (b m : ℕ) (value : Buf) (t : h.Table)
      → m + 1 < 2 ^ 64
      → count_or_zero Buf h (h.find b t) ≡ m
      → (j : ℕ)
      → h.find j (put Buf h b value true t)
        ≡ (if b == j then some (item value (m + 1)) else h.find j t)
  unfolding put
  put-find b m value t small e j =
      let counted : (count_or_zero Buf h (h.find b t) + 1) % 2 ^ 64 ≡ m + 1 =
        omega (arith, e, small) in
      h.find-insert_or_assign b j _ t
      ∙ ap (λ (x : ℕ). if b == j then some (item value x) else h.find j t) counted

  put_all-find :
      (values : List Buf) (b m : ℕ) (value : Buf) (t : h.Table)
      → suc (length values) + m < 2 ^ 64
      → count_or_zero Buf h (h.find b t) ≡ m
      → (j : ℕ)
      → h.find j (put_all b (value ∷ values) t)
        ≡ (if b == j then some (item (last value values) (suc (length values) + m)) else h.find j t)
  put_all-find [] b m value t small e j =
      put-find b m value t (omega (arith, small)) e j
      ∙ ap (λ (x : ℕ). if b == j then some (item value x) else h.find j t) (omega arith)
  put_all-find (next ∷ values) b m value t small e j =
      let step = put-find b m value t (omega (arith, small)) e in
      let now : h.find b (put Buf h b value true t) ≡ some (item value (m + 1)) =
        ground (arith, step b) in
      let n = suc (length values) in
      put_all-find values b (m + 1) next (put Buf h b value true t) (omega (arith, small))
        (ap (count_or_zero Buf h) now) j
      ∙ ap
          (λ (o : Option (PageCacheItem Buf)).
            if b == j then some (item (last next values) (n + (m + 1))) else o)
          (step j)
      ∙ ground arith

  deref-find :
      (b n : ℕ) (value : Buf) (t : h.Table)
      → suc n < 2 ^ 64
      → h.find b t ≡ some (item value (suc n))
      → (j : ℕ)
      → h.find j (deref Buf h b t)
        ≡ (if b == j then (if n == 0 then none else some (item value n)) else h.find j t)
  unfolding deref
  deref-find b n value t small e j =
      let wrap : (suc n + 2 ^ 64 - 1) % 2 ^ 64 ≡ n = omega (arith, small) in
      rw (e, wrap)
        (ground (arith, h.find-erase b j t, h.find-insert_or_assign b j (item value n) t))

  deref_all-find :
      (n b : ℕ) (value : Buf) (t : h.Table)
      → suc n < 2 ^ 64
      → h.find b t ≡ some (item value (suc n))
      → (j : ℕ) → h.find j (deref_all (suc n) b t) ≡ (if b == j then none else h.find j t)
  deref_all-find zero b value t small e j = deref-find b 0 value t small e j
  deref_all-find (suc n) b value t small e j =
      let step = deref-find b (suc n) value t small e in
      let now : h.find b (deref Buf h b t) ≡ some (item value (suc n)) = ground (arith, step b) in
      let rest = deref_all-find n b value (deref Buf h b t) (omega (arith, small)) now j in
      ground (arith, rest, step j)

  -- Where a page is not in the cache: puts of one or more values, but fewer than 2 ^ 64, each of which
  -- takes a reference, leave the last value with their number as its count, and as many derefs remove
  -- the page again; no call touches another page.
  pub deref_all-put_all :
      (values : List Buf) (b : ℕ) (value : Buf) (t : h.Table)
      → suc (length values) < 2 ^ 64
      → h.find b t ≡ none
      → (j : ℕ)
      → (h.find j (put_all b (value ∷ values) t)
          ≡ (if b == j then some (item (last value values) (suc (length values))) else h.find j t))
        × (h.find j (deref_all (suc (length values)) b (put_all b (value ∷ values) t)) ≡ h.find j t)
  deref_all-put_all values b value t small e j =
      let n = length values in
      let end = last value values in
      let up : (i : ℕ)
          → h.find i (put_all b (value ∷ values) t)
            ≡ (if b == i then some (item end (suc n)) else h.find i t) =
        λ i.
          put_all-find values b 0 value t (omega (arith, small)) (ap (count_or_zero Buf h) e) i
          ∙ ap (λ (x : ℕ). if b == i then some (item end x) else h.find i t) (omega arith) in
      let here : h.find b (put_all b (value ∷ values) t) ≡ some (item end (suc n)) =
        ground (arith, up b) in
      let down = deref_all-find n b end (put_all b (value ∷ values) t) small here j in
      (
        up j,
        elim (Bool-cases (b == j)) [
          | inl same ↦
              let q : b ≡ j = ground (arith, same) in
              down ∙ rw same (sym (subst (λ (x : ℕ). h.find x t ≡ none) q e))
          | inr other ↦ down ∙ rw other (up j ∙ rw other refl)
        ],
      )
