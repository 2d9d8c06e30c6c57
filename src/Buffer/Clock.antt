-- ===== src/Buffer/Clock.antt =====
-- The two loops of request_block over the slots in a circle: what they find, and that they end.
use native.Mathlib.Nat.{mod-eq_of_lt, mod_self, suc-mul}
use hvs_disk.Base.{
  ℕ, zero, suc, ◌+◌, ◌-◌, ◌*◌, ◌%◌, ◌^◌, ◌<◌, ◌≡◌, ◌≢◌, refl, sym, ap, ◌∙◌, subst, inl, inr, ◌⊎◌,
  List, some, true, false, arith, leb, ◌==◌, if◌then◌else◌, ◌&&◌, length, set, length-set,
  get_or-set, u32, Bool-cases,
}
use hvs_disk.Buffer.{Slot, is_invalid, blank, slot_at, probe, tick, evict}

-- One step of the circle.
pub next-cases :
    (n i : ℕ) → i < n → (((i + 1) % n ≡ i + 1) × (i + 1 < n)) ⊎ (((i + 1) % n ≡ 0) × (i + 1 ≡ n))
next-cases n i h = elim (Bool-cases (leb n (i + 1))) [
  | inl e ↦ let q : i + 1 ≡ n = ground (arith, e, h) in inr (rw q (mod_self n), q)
  | inr e ↦ let q : i + 1 < n = ground (arith, e) in inl (mod-eq_of_lt q, q)
]

-- The steps from i to j.
abbrev pub steps_to : ℕ → ℕ → ℕ → ℕ
steps_to n i j = if leb i j then j - i else j + n - i

pub next-lt : (n i : ℕ) → i < n → (i + 1) % n < n
next-lt n i h = elim (next-cases n i h) [
  | inl (e, l) ↦ rw e l
  | inr (e, l) ↦ rw e (omega (arith, h))
]

steps_to-next :
    (n i j : ℕ)
    → i < n
    → j < n
    → steps_to n ((i + 1) % n) j ≡ (if i == j then n - 1 else steps_to n i j - 1)
steps_to-next n i j h k = elim (next-cases n i h) [
  | inl (e, l) ↦ rw e (ground (arith, l, h, k))
  | inr (e, l) ↦ rw e (ground (arith, l, h, k))
]

-- With fuel beyond the way to a free slot, the probe finds a free one.
pub probe-finds :
    (fuel n i j : ℕ) (slots : List Slot)
    → i < n
    → j < n
    → is_invalid (slot_at slots j).status ≡ true
    → steps_to n i j < fuel
    → (k : ℕ) × (probe fuel n i slots ≡ some k)
      × (k < n)
      × (is_invalid (slot_at slots k).status ≡ true)
unfolding probe
probe-finds zero n i j slots hi hj e m = absurd (omega arith)
probe-finds (suc fuel) n i j slots hi hj e m =
    elim (Bool-cases (is_invalid (slot_at slots i).status)) [
      | inl here ↦ (i, rw here refl, hi, here)
      | inr other ↦
          let apart : i ≢ j = λ q. absurd (ground (arith, rw q at other, e)) in
          elim (next-cases n i hi) [
            | inl (q, lt) ↦
                let (k, r, lk, f) =
                  probe-finds fuel n (i + 1) j slots lt hj e (ground (arith, apart, m)) in
                (k, rw (other, q) r, lk, f)
            | inr (q, all) ↦
                let (k, r, lk, f) =
                  probe-finds fuel n 0 j slots (omega arith) hj e (ground (arith, apart, m)) in
                (k, rw (other, q) r, lk, f)
          ]
    ]

-- The clock changes reference counts only.
pub record Keeps (xs ys : List Slot) : Type 0 where
  pub same_length : length ys ≡ length xs
  pub same_block : (k : ℕ) → (slot_at ys k).cached_block_id ≡ (slot_at xs k).cached_block_id
  pub same_pin : (k : ℕ) → (slot_at ys k).pinned_count ≡ (slot_at xs k).pinned_count
  pub same_status : (k : ℕ) → (slot_at ys k).status ≡ (slot_at xs k).status

tick-Keeps : (slots : List Slot) (i : ℕ) → i < length slots → Keeps slots (tick slots i)
unfolding tick
tick-Keeps slots i h =
    let s' : Slot = record (slot_at slots i) {
      ref_count = u32 ((slot_at slots i).ref_count + 2 ^ 32 - 1);
    } in
    let l = length-set slots i s' in
    let g : (k : ℕ) → slot_at (set slots i s') k ≡ (if i == k then s' else slot_at slots k) =
      λ k. get_or-set slots i k s' blank h in
    record {
      same_length = ground (arith, l);
      same_block = λ k. ground (arith, g k);
      same_pin = λ k. ground (arith, g k);
      same_status = λ k. ground (arith, g k);
    }

tick-ref :
    (slots : List Slot) (i k : ℕ)
    → i < length slots
    → (slot_at (tick slots i) k).ref_count ≡ (
        if (i == k) && ((slot_at slots i).pinned_count == 0)
        then u32 ((slot_at slots k).ref_count + 2 ^ 32 - 1)
        else (slot_at slots k).ref_count)
unfolding tick
tick-ref slots i k h =
    let s' : Slot = record (slot_at slots i) {
      ref_count = u32 ((slot_at slots i).ref_count + 2 ^ 32 - 1);
    } in
    ground (arith, get_or-set slots i k s' blank h)

Keeps-trans : (xs ys zs : List Slot) → Keeps xs ys → Keeps ys zs → Keeps xs zs
Keeps-trans xs ys zs p q = record {
  same_length = q.same_length ∙ p.same_length;
  same_block = λ k. q.same_block k ∙ p.same_block k;
  same_pin = λ k. q.same_pin k ∙ p.same_pin k;
  same_status = λ k. q.same_status k ∙ p.same_status k;
}

-- The references of every slot but k stay positive.
abbrev pub StayReferenced : ℕ → List Slot → List Slot → Type 0
StayReferenced k xs ys =
    (m : ℕ) → m ≢ k → 0 < (slot_at xs m).ref_count → 0 < (slot_at ys m).ref_count

-- What the clock finds: an unpinned slot, with nothing changed but reference counts.
abbrev pub Finds : ℕ → ℕ → ℕ → List Slot → Type 0
Finds fuel n i slots =
    (k : ℕ) × (slots' : List Slot) × (evict fuel n i slots ≡ some (k, slots'))
    × (k < n)
    × ((slot_at slots k).pinned_count ≡ 0)
    × Keeps slots slots'
    × StayReferenced k slots slots'

-- A tick that does not evict leaves every slot its references.
kept :
    (slots : List Slot) (i m : ℕ)
    → i < length slots
    → ((slot_at slots i).pinned_count == 0) && ((slot_at (tick slots i) i).ref_count == 0) ≡ false
    → 0 < (slot_at slots m).ref_count
    → 0 < (slot_at (tick slots i) m).ref_count
kept slots i m hl later pm = elim (Bool-cases (i == m)) [
  | inr apart ↦ ground (arith, tick-ref slots i m hl, apart, pm)
  | inl same ↦
      let im : i ≡ m = ground (arith, same) in
      subst (λ (x : ℕ). 0 < (slot_at (tick slots i) x).ref_count) im
        (ground (
          arith,
          later,
          tick-ref slots i i hl,
          subst (λ (x : ℕ). 0 < (slot_at slots x).ref_count) (sym im) pm,
        ))
]

evict-step :
    (fuel n i : ℕ) (slots : List Slot)
    → i < n
    → length slots ≡ n
    → Finds fuel n ((i + 1) % n) (tick slots i)
    → Finds (suc fuel) n i slots
unfolding evict
evict-step fuel n i slots hi e (k, slots', r, lk, p, keeps, refs) =
    let hl : i < length slots = omega (arith, hi, e) in
    let here = tick-Keeps slots i hl in
    elim (Bool-cases
      (((slot_at slots i).pinned_count == 0) && ((slot_at (tick slots i) i).ref_count == 0))) [
        | inl now ↦ (
          i,
          tick slots i,
          rw now refl,
          hi,
          ground (arith, now),
          here,
          λ m ne pm. ground (arith, tick-ref slots i m hl, ne, pm),
        )
        | inr later ↦ (
          k,
          slots',
          rw later r,
          lk,
          sym (here.same_pin k) ∙ p,
          Keeps-trans _ _ _ here keeps,
          λ m ne pm. refs m ne (kept slots i m hl later pm),
        )
      ]

-- The clock ends: an unpinned slot j with r references is evicted, or another one before it, within
-- r - 1 rounds and the way to j.
pub evict-Finds :
    (fuel n i j r : ℕ) (slots : List Slot)
    → i < n
    → j < n
    → length slots ≡ n
    → (slot_at slots j).pinned_count ≡ 0
    → (slot_at slots j).ref_count ≡ suc r
    → suc r < 2 ^ 32
    → r * n + steps_to n i j < fuel
    → Finds fuel n i slots
unfolding evict
evict-Finds zero n i j r slots hi hj e p q small m = absurd (omega arith)
evict-Finds (suc fuel) n i j r slots hi hj e p q small m =
    let hl : i < length slots = omega (arith, hi, e) in
    let here = tick-Keeps slots i hl in
    let e' : length (tick slots i) ≡ n = here.same_length ∙ e in
    let p' = here.same_pin j ∙ p in
    let t = tick-ref slots i j hl in
    let w = steps_to-next n i j hi hj in
    elim (Bool-cases (i == j)) [
      | inr apart ↦ evict-step fuel n i slots hi e (
          evict-Finds fuel n ((i + 1) % n) j r (tick slots i) (next-lt n i hi) hj e' p'
            (t ∙ ground (arith, apart, q)) small (ground (arith, apart, w, m)))
      | inl same ↦
          let ij : i ≡ j = ground (arith, same) in
          let pi = subst (λ (x : ℕ). (slot_at slots x).pinned_count ≡ 0) (sym ij) p in
          let qi = subst (λ (x : ℕ). (slot_at slots x).ref_count ≡ suc r) (sym ij) q in
          let less : (slot_at (tick slots i) i).ref_count ≡ r =
            tick-ref slots i i hl ∙ ground (arith, pi, qi, small) in
          elim r as (λ x. r ≡ x → Finds (suc fuel) n i slots) [
            | zero ↦ λ z.
                let now : ((slot_at slots i).pinned_count == 0)
                      && ((slot_at (tick slots i) i).ref_count == 0)
                    ≡ true =
                  ground (arith, pi, less ∙ z) in
                (
                  i,
                  tick slots i,
                  rw now refl,
                  hi,
                  pi,
                  here,
                  λ y ne py. ground (arith, tick-ref slots i y hl, ne, py),
                )
            | suc x ↦ λ z.
                let rounds : r * n ≡ x * n + n = ap (λ (y : ℕ). y * n) z ∙ suc-mul x n in
                let less_j =
                  subst (λ (y : ℕ). (slot_at (tick slots i) y).ref_count ≡ suc x) ij (less ∙ z) in
                evict-step fuel n i slots hi e (
                  evict-Finds fuel n ((i + 1) % n) j x (tick slots i) (next-lt n i hi) hj e' p'
                    less_j (omega (arith, small, z)) (ground (arith, same, w, rounds, m, hi)))
          ]
            refl
    ]
