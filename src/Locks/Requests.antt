-- ===== src/Locks/Requests.antt =====
-- lockReqs and unlockReqs of include/linux_aligned_file_reader.h: the locks of the pages that a list
-- of requests touches. Offsets and lengths are of 64 bits.
use native.Mathlib.Nat.{mod-add-div', mul-add-div_right, div-eq_of_lt, add-mod_right}
use hvs_disk.Base.{
  ℕ, zero, suc, ◌+◌, ◌-◌, ◌*◌, ◌/◌, ◌%◌, ◌^◌, ◌≤◌, ◌<◌, ◌≡◌, ◌⊎◌, refl, sym, ap, subst, ◌∙◌, ◌↔◌,
  inl, inr, List, [], ◌∷◌, ◌++◌, Option, none, some, true, false, arith, ltb, ◌==◌, if◌then◌else◌,
  All, contains, contains-append, Bool-cases,
}
use hvs_disk.Base.HashMap.{HashMap}
use hvs_disk.Locks.{RwLock, sort_ids, unique, wrlock_all, unlock_all}
use hvs_disk.Locks.Held.{
  contains-sort_ids, contains-unique, sort_ids-IsRising, unique-IsIncreasing, IsIncreasing,
  IsIncreasing-IsDistinct, held, wrlock_all-finds, unlock_all-finds,
}
use hvs_disk.Update.Writes.{IoRequest}

module _ (sector_len : ℕ) where
  -- The loop over one request from i on, on fuel.
  pub req_pages : ℕ → ℕ → IoRequest → Option (List ℕ)
  req_pages zero i req = none
  req_pages (suc fuel) i req =
      let rest = req_pages fuel ((i + sector_len) % 2 ^ 64) req in
      if ltb i req.len
      then elim rest [ none ↦ none | some ps ↦ some ((req.offset + i) % 2 ^ 64 / sector_len ∷ ps) ]
      else some []

  -- The pages of all requests, with repetitions. The length of a request and one is enough fuel
  -- where the loop counter does not wrap.
  pub reqs_pages : List IoRequest → Option (List ℕ)
  unfolding req_pages
  reqs_pages [] = some []
  reqs_pages (req ∷ reqs) = elim (req_pages (suc req.len) 0 req) [
    | none ↦ none
    | some ps ↦ elim (reqs_pages reqs) [ none ↦ none | some qs ↦ some (ps ++ qs) ]
  ]

module _ (sector_len : ℕ) (r : RwLock) (h : HashMap (r.Lock × ℕ)) where
  -- The pages in the order of locking, and the table, unless a lock is waited for.
  pub lock_reqs : List IoRequest → h.Table → Option (List ℕ × Option h.Table)
  unfolding reqs_pages
  lock_reqs reqs t = elim (reqs_pages sector_len reqs) [
    | none ↦ none
    | some ps ↦ let ret = unique (sort_ids ps) in some (ret, wrlock_all r h ret t)
  ]

  pub unlock_reqs : List ℕ → h.Table → Option h.Table
  unlock_reqs reqs t = unlock_all r h reqs t

module _ (sector_len : ℕ) (pos : 0 < sector_len) where
  -- Whether the request reads or writes a byte whose page this is: i is its place in the request.
  pub record Touches (req : IoRequest) (from p : ℕ) : Type 0 where
    pub i : ℕ
    pub after : from ≤ i
    pub inside : i < req.len
    pub page : (req.offset + i) / sector_len ≡ p

  same_page :
      (x y : ℕ) → x % sector_len ≡ 0 → y < sector_len → (x + y) / sector_len ≡ x / sector_len
  same_page x y al lt =
      let whole : x / sector_len * sector_len ≡ x = omega (arith, mod-add-div' x sector_len, al) in
      ap (λ (z : ℕ). (z + y) / sector_len) (sym whole)
      ∙ mul-add-div_right pos (x / sector_len) y
      ∙ omega (arith, div-eq_of_lt lt)

  next_aligned :
      (i : ℕ) (req : IoRequest)
      → (req.offset + i) % sector_len ≡ 0
      → (req.offset + (i + sector_len)) % sector_len ≡ 0
  next_aligned i req al =
      let q : req.offset + (i + sector_len) ≡ req.offset + i + sector_len = omega arith in
      ap (λ (x : ℕ). x % sector_len) q ∙ add-mod_right (req.offset + i) sector_len ∙ al

  -- The request and one more page end below 2 ^ 64.
  abbrev pub Fits : IoRequest → Type 0
  Fits req = req.offset + req.len + sector_len ≤ 2 ^ 64

  -- A round of the loop, where nothing wraps.
  req_pages-round :
      (fuel i : ℕ) (req : IoRequest) (ps : List ℕ)
      → Fits req
      → i < req.len
      → req_pages sector_len fuel (i + sector_len) req ≡ some ps
      → req_pages sector_len (suc fuel) i req ≡ some ((req.offset + i) / sector_len ∷ ps)
  unfolding req_pages
  req_pages-round fuel i req ps fits inside run =
      let more : ltb i req.len ≡ true = ground (arith, inside) in
      let same_i : (i + sector_len) % 2 ^ 64 ≡ i + sector_len = omega (arith, inside, fits) in
      let same_at : (req.offset + i) % 2 ^ 64 ≡ req.offset + i = omega (arith, inside, fits) in
      rw (req_pages, more, same_i, run) (ap (λ (x : ℕ). some (x / sector_len ∷ ps)) same_at)

  req_pages-Touches :
      (fuel i : ℕ) (req : IoRequest)
      → Fits req
      → req.len < i + fuel
      → 0 < fuel
      → (req.offset + i) % sector_len ≡ 0
      → (ps : List ℕ) × (req_pages sector_len fuel i req ≡ some ps)
        × ((p : ℕ) → contains ps p ≡ true → Touches req i p)
        × ((b : ℕ) → i ≤ b → b < req.len → contains ps ((req.offset + b) / sector_len) ≡ true)
  unfolding req_pages
  req_pages-Touches zero i req fits enough some_fuel al = absurd (omega (arith, some_fuel))
  req_pages-Touches (suc fuel) i req fits enough some_fuel al = elim (Bool-cases (ltb i req.len)) [
    | inr over ↦ (
      [],
      rw over refl,
      λ p c. absurd (ground (arith, c)),
      λ b le lt. absurd (ground (arith, over, le, lt)),
    )
    | inl more ↦
        let inside : i < req.len = ground (arith, more) in
        let (ps, run, sound, complete) =
          req_pages-Touches fuel (i + sector_len) req fits (omega (arith, enough, pos))
            (omega (arith, enough, inside)) (next_aligned i req al) in
        (
          (req.offset + i) / sector_len ∷ ps,
          req_pages-round fuel i req ps fits inside run,
          λ p c. elim (Bool-cases (((req.offset + i) / sector_len) == p)) [
            | inl here ↦ record {
              i = i;
              after = omega arith;
              inside = inside;
              page = ground (arith, here);
            }
            | inr later ↦
                let t = sound p (ground (arith, c, later)) in
                record { i = t.i; after = omega (arith, t.after); inside = t.inside; page = t.page }
          ],
          λ b le lt. elim (Bool-cases (ltb b (i + sector_len))) [
            | inl near ↦
                let y : b - i < sector_len = ground (arith, near, le) in
                let q : req.offset + b ≡ req.offset + i + (b - i) = omega (arith, le) in
                let e : (req.offset + b) / sector_len ≡ (req.offset + i) / sector_len =
                  ap (λ (x : ℕ). x / sector_len) q ∙ same_page (req.offset + i) (b - i) al y in
                rw e (ground arith)
            | inr far ↦ let c = complete b (ground (arith, far)) lt in ground (arith, c)
          ],
        )
  ]

  -- A byte of one of the requests is on the page.
  abbrev pub AnyTouches : List IoRequest → ℕ → Type 0
  AnyTouches [] p = false ≡ true
  AnyTouches (req ∷ reqs) p = Touches req 0 p ⊎ AnyTouches reqs p

  abbrev pub AreAligned : List IoRequest → Type 0
  AreAligned reqs = All (λ (req : IoRequest). (req.offset % sector_len ≡ 0) × Fits req) reqs

  reqs_pages-touches :
      (reqs : List IoRequest)
      → AreAligned reqs
      → (ps : List ℕ) × (reqs_pages sector_len reqs ≡ some ps)
        × ((p : ℕ) → contains ps p ≡ true → AnyTouches reqs p)
        × ((p : ℕ) → AnyTouches reqs p → contains ps p ≡ true)
  unfolding reqs_pages
  reqs_pages-touches [] a = ([], refl, λ p c. c, λ p c. c)
  reqs_pages-touches (req ∷ reqs) ((al, fits), a) =
      let zeroth : req.offset + 0 ≡ req.offset = omega arith in
      let al0 : (req.offset + 0) % sector_len ≡ 0 = rw zeroth al in
      let (ps, run, sound, complete) =
        req_pages-Touches (suc req.len) 0 req fits (omega arith) (omega arith) al0 in
      let (qs, run', sound', complete') = reqs_pages-touches reqs a in
      (
        ps ++ qs,
        rw (reqs_pages, run, run') refl,
        λ p c. elim (Bool-cases (contains ps p)) [
          | inl first ↦ inl (sound p first)
          | inr second ↦ inr (sound' p (ground (arith, contains-append ps qs p, c, second)))
        ],
        λ p. joined_complete ps qs p (complete' p) (λ t. page_of_touch ps t complete),
      )
    where
      page_of_touch :
          (ps : List ℕ) {p : ℕ}
          → Touches req 0 p
          → ((b : ℕ) → 0 ≤ b → b < req.len → contains ps ((req.offset + b) / sector_len) ≡ true)
          → contains ps p ≡ true
      page_of_touch ps t f = subst (λ (x : ℕ). contains ps x ≡ true) t.page (f t.i t.after t.inside)

      joined_complete :
          (ps qs : List ℕ) (p : ℕ)
          → (AnyTouches reqs p → contains qs p ≡ true)
          → (Touches req 0 p → contains ps p ≡ true)
          → AnyTouches (req ∷ reqs) p
          → contains (ps ++ qs) p ≡ true
      joined_complete ps qs p f k (inl t) = ground (arith, contains-append ps qs p, k t)
      joined_complete ps qs p f k (inr t) = ground (arith, contains-append ps qs p, f t)

  module _ (r : RwLock) (h : HashMap (r.Lock × ℕ)) where
    -- For requests that start on page boundaries and end at least a page below 2^64, and whose pages are
    -- not locked: lockReqs takes, in
    -- increasing order and without waiting for itself, the locks of exactly the pages on which a
    -- request has a byte, and unlockReqs of its result leaves every key of the table as it was.
    pub lock_reqs-unlock_reqs :
        (reqs : List IoRequest) (t : h.Table)
        → AreAligned reqs
        → ((p : ℕ) → AnyTouches reqs p → h.find p t ≡ none)
        → (ks : List ℕ) × (t' : h.Table) × (t'' : h.Table) × (lock_reqs sector_len r h reqs t
            ≡ some (ks, some t'))
          × IsIncreasing 0 ks
          × ((p : ℕ) → (contains ks p ≡ true) ↔ AnyTouches reqs p)
          × ((p : ℕ) → h.find p t' ≡ (if contains ks p then some (held r h) else h.find p t))
          × (unlock_reqs sector_len r h ks t' ≡ some t'')
          × ((p : ℕ) → h.find p t'' ≡ h.find p t)
    unfolding lock_reqs unlock_reqs
    lock_reqs-unlock_reqs reqs t al idle =
        let (ps, run, sound, complete) = reqs_pages-touches reqs al in
        let ks = unique (sort_ids ps) in
        let rising = unique-IsIncreasing 0 (sort_ids ps) (sort_ids-IsRising ps) in
        let d = IsIncreasing-IsDistinct 0 ks rising in
        let same = λ (p : ℕ). contains-unique (sort_ids ps) p ∙ contains-sort_ids ps p in
        let free : (p : ℕ) → contains ks p ≡ true → h.find p t ≡ none =
          λ p c. idle p (sound p (sym (same p) ∙ c)) in
        let (t', lock_run, look) = wrlock_all-finds r h ks t d free in
        let (t'', back, look') = unlock_all-finds r h ks t' d (λ j c. ground (arith, look j, c)) in
        (
          ks,
          t',
          t'',
          rw (lock_reqs, run) (ap (λ (o : Option h.Table). some (ks, o)) lock_run),
          rising,
          λ p. (λ c. sound p (sym (same p) ∙ c), λ c. same p ∙ complete p c),
          look,
          back,
          λ j. ground (arith, look j, look' j, free j),
        )
