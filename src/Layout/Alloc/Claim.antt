-- ===== src/Layout/Alloc/Claim.antt =====
-- What claiming slots does to one page.
use hvs_disk.Base.{
  ℕ, zero, suc, ◌+◌, ◌-◌, ◌≤◌, ◌<◌, ◌≡◌, refl, sym, ap, inl, inr, List, [], ◌∷◌, some, false, arith,
  ◌==◌, if◌then◌else◌, length, get_or, All, All-weaken, contains, IsDistinct, Bool-cases,
  Option-cases,
}
use mathlib.Core.Option.{some-injective}
use hvs_disk.Layout.Slots.{invalid_id, allocated_id, PageArr}
use hvs_disk.Layout.Alloc.{claim, claim_empty}

-- The offsets are in order, below the end, and were of invalid slots; those slots are allocated now
-- and no other has changed; at most `need` offsets.
pub record Claims (n i need : ℕ) (v v' : PageArr) (offs : List ℕ) : Type 0 where
  pub few : length offs ≤ need
  pub same_length : length v' ≡ length v
  pub absent : (o : ℕ) → o < i → contains offs o ≡ false
  pub distinct : IsDistinct offs
  pub within :
      All (λ (o : ℕ). (i ≤ o) × (o < i + n) × (get_or v (o - i) invalid_id ≡ invalid_id)) offs
  pub after :
      (k : ℕ)
      → get_or v' k invalid_id
        ≡ (if contains offs (i + k) then allocated_id else get_or v k invalid_id)

Claims-none : (n i need : ℕ) (v : PageArr) → Claims n i need v v []
Claims-none n i need v = record {
  few = omega arith;
  same_length = refl;
  absent = λ o h. refl;
  distinct = tt;
  within = tt;
  after = λ k. refl;
}

shift-within :
    (n i x : ℕ) (v : PageArr) (offs : List ℕ)
    → All
        (λ (o : ℕ). (suc i ≤ o) × (o < suc i + n) × (get_or v (o - suc i) invalid_id ≡ invalid_id))
        offs
    → All
        (λ (o : ℕ). (i ≤ o) × (o < i + suc n) × (get_or (x ∷ v) (o - i) invalid_id ≡ invalid_id))
        offs
shift-within n i x v offs = All-weaken _ _ offs (λ o (lo, hi, e).
    let q : o - i ≡ suc (o - suc i) = omega (arith, lo) in
    (omega (arith, lo), omega (arith, hi), rw q e))

after-skip :
    (i x : ℕ) (v v' : PageArr) (offs : List ℕ)
    → contains offs i ≡ false
    → ((k : ℕ)
        → get_or v' k invalid_id
          ≡ (if contains offs (suc i + k) then allocated_id else get_or v k invalid_id))
    → (k : ℕ)
    → get_or (x ∷ v') k invalid_id
      ≡ (if contains offs (i + k) then allocated_id else get_or (x ∷ v) k invalid_id)
after-skip i x v v' offs a f zero = let q : i + 0 ≡ i = omega arith in rw (q, a) refl
after-skip i x v v' offs a f (suc k) = let q : i + suc k ≡ suc i + k = omega arith in rw q (f k)

after-take :
    (i x : ℕ) (v v' : PageArr) (offs : List ℕ)
    → ((k : ℕ)
        → get_or v' k invalid_id
          ≡ (if contains offs (suc i + k) then allocated_id else get_or v k invalid_id))
    → (k : ℕ)
    → get_or (allocated_id ∷ v') k invalid_id
      ≡ (if contains (i ∷ offs) (i + k) then allocated_id else get_or (x ∷ v) k invalid_id)
after-take i x v v' offs f zero = ground arith
after-take i x v v' offs f (suc k) =
    let q : i + suc k ≡ suc i + k = omega arith in
    let ne : (i == (suc i + k)) ≡ false = ground arith in rw (q, ne) (f k)

Claims-skip :
    (n i need x : ℕ) (v v' : PageArr) (offs : List ℕ)
    → Claims n (suc i) need v v' offs
    → Claims (suc n) i need (x ∷ v) (x ∷ v') offs
Claims-skip n i need x v v' offs c = record {
  few = c.few;
  same_length = ap suc c.same_length;
  absent = λ o h. c.absent o (omega (arith, h));
  distinct = c.distinct;
  within = shift-within n i x v offs c.within;
  after = λ k. after-skip i x v v' offs (c.absent i (omega arith)) c.after k;
}

Claims-take :
    (n i need x : ℕ) (v v' : PageArr) (offs : List ℕ)
    → 0 < need
    → x ≡ invalid_id
    → Claims n (suc i) (need - 1) v v' offs
    → Claims (suc n) i need (x ∷ v) (allocated_id ∷ v') (i ∷ offs)
Claims-take n i need x v v' offs p e c = record {
  few = omega (arith, c.few, p);
  same_length = ap suc c.same_length;
  absent = λ o h. ground (arith, c.absent o, h);
  distinct = (c.absent i (omega arith), c.distinct);
  within = (
    let q : i - i ≡ 0 = omega arith in (omega arith, omega arith, rw q e),
    shift-within n i x v offs c.within,
  );
  after = λ k. after-take i x v v' offs c.after k;
}

pub claim-Claims :
    (n i need : ℕ) (v : PageArr)
    → 0 < need
    → Claims n i need v (claim n i need v).0 (claim n i need v).1
unfolding claim
claim-Claims zero i need v p = Claims-none 0 i need v
claim-Claims (suc n) i need [] p = Claims-none (suc n) i need []
claim-Claims (suc n) i need (x ∷ v) p = elim (Bool-cases (x == invalid_id)) [
  | inr used ↦ rw used (Claims-skip n i need x v _ _ (claim-Claims n (suc i) need v p))
  | inl free ↦
      let e : x ≡ invalid_id = ground (arith, free) in
      elim (Bool-cases (need == 1)) [
        | inl last ↦
            rw (free, last) (Claims-take n i need x v v [] p e (Claims-none n (suc i) (need - 1) v))
        | inr further ↦
            rw (free, further)
              (Claims-take n i need x v _ _ p e
                (claim-Claims n (suc i) (need - 1) v (ground (arith, p, further))))
      ]
]

-- A page of invalid slots is claimed without a crash.
pub claim_empty-claim :
    (n i need : ℕ) (v : PageArr) (r : PageArr × List ℕ)
    → claim_empty n i need v ≡ some r
    → r ≡ claim n i need v
unfolding claim claim_empty
claim_empty-claim zero i need v r h = ground (arith, h)
claim_empty-claim (suc n) i need [] r h = ground (arith, h)
claim_empty-claim (suc n) i need (x ∷ v) r h = elim (Bool-cases (x == invalid_id)) [
  | inr used ↦ absurd (ground (arith, rw used at h))
  | inl free ↦ elim (Bool-cases (need == 1)) [
    | inl last ↦ rw (free, last) (ground (arith, rw (free, last) at h))
    | inr further ↦ elim (Option-cases (claim_empty n (suc i) (need - 1) v)) [
      | inl stop ↦ absurd (ground (arith, rw (free, further, stop) at h))
      | inr (q, e) ↦
          let ih = claim_empty-claim n (suc i) (need - 1) v q e in
          let h' : some (allocated_id ∷ q.0, i ∷ q.1) ≡ some r = rw (free, further, e) at h in
          rw (free, further, sym ih) (sym (some-injective _ _ h'))
    ]
  ]
]
