-- ===== src/Buffer/Lifecycle.antt =====
-- The other calls of the block cache: clear, get_cache_block and release_cache_block.
use hvs_disk.Base.{
  ℕ, zero, suc, ◌+◌, ◌-◌, ◌^◌, ◌<◌, ◌≡◌, refl, ap, subst, ◌∙◌, Option, none, some, Bool-cases, inl,
  inr, true, false, arith, leb, ◌==◌, if◌then◌else◌, ◌||◌, length, set, replicate, length-set,
  length-replicate, get_or-set, u32,
}
use hvs_disk.Base.HashMap.{HashMap}
use hvs_disk.Buffer.{
  Status, invalid, allocated, read_done, Slot, Cache, is_invalid, blank, slot_at, clear, read_slot,
  get_cache_block, release_cache_block,
}
use hvs_disk.Buffer.Invariant.{free_slots, free_slots-set, IsValid}

slot_at-blank : (n k : ℕ) → slot_at (replicate n blank) k ≡ blank
slot_at-blank zero k = refl
slot_at-blank (suc n) zero = refl
slot_at-blank (suc n) (suc k) = slot_at-blank n k

free_slots-blank : (n : ℕ) → free_slots (replicate n blank) ≡ n
free_slots-blank zero = refl
free_slots-blank (suc n) = omega (arith, free_slots-blank n)

module _ (h : HashMap ℕ) where
  -- A new cache of a positive size is valid.
  pub clear-IsValid : (n : ℕ) → 0 < n → IsValid h (clear h n)
  unfolding clear
  clear-IsValid n p = record {
    sized = length-replicate n blank;
    hand = p;
    counted = omega (arith, free_slots-blank n);
    free_empty = λ k lk. rw (slot_at-blank n k) refl;
    referenced = λ k lk e. absurd (ground (arith, slot_at-blank n k, e));
    map_to = λ b k e. absurd (ground (arith, h.find-empty b, e));
    to_map = λ b k lk e. absurd (ground (arith, slot_at-blank n k, e));
  }

  -- A write to one slot that keeps its block, whether it is free and its references keeps a cache
  -- valid.
  set-IsValid :
      (c : Cache h) (i : ℕ) (s : Slot)
      → IsValid h c
      → i < c.cache_size
      → s.cached_block_id ≡ (slot_at c.slots i).cached_block_id
      → is_invalid s.status ≡ is_invalid (slot_at c.slots i).status
      → s.ref_count ≡ (slot_at c.slots i).ref_count
      → IsValid h (record c { slots = set c.slots i s })
  set-IsValid c i s v hi eb es er =
      let hl : i < length c.slots = omega (arith, hi, v.sized) in
      let g : (k : ℕ) → slot_at (set c.slots i s) k ≡ (if i == k then s else slot_at c.slots k) =
        λ k. get_or-set c.slots i k s blank hl in
      record {
        sized = length-set c.slots i s ∙ v.sized;
        hand = v.hand;
        counted = ground (arith, v.counted, free_slots-set c.slots i s hl, es);
        free_empty = λ k lk. ground (arith, g k, v.free_empty k lk, eb, es);
        referenced = λ k lk e. ground (arith, g k, v.referenced k lk, e, es, er);
        map_to = λ b k e. ground (arith, g k, v.map_to b k e, eb);
        to_map = λ b k lk e. ground (arith, g k, v.to_map b k lk, e, eb);
      }

  -- One release of a pinned slot.
  release_cache_block-unpins :
      (c : Cache h) (i : ℕ)
      → IsValid h c
      → i < c.cache_size
      → 0 < (slot_at c.slots i).pinned_count
      → (slot_at c.slots i).pinned_count < 2 ^ 31
      → (c' : Cache h) × (release_cache_block h c i ≡ some c')
        × (c'.cache_size ≡ c.cache_size)
        × IsValid h c'
        × ((k : ℕ)
            → (slot_at c'.slots k).pinned_count ≡ (
                if i == k
                then (slot_at c.slots i).pinned_count - 1
                else (slot_at c.slots k).pinned_count))
  unfolding release_cache_block
  release_cache_block-unpins c i v hi pos small =
      let s = slot_at c.slots i in
      let s' : Slot = record s { pinned_count = u32 (s.pinned_count + 2 ^ 32 - 1) } in
      let ok : (s.pinned_count == 0) || leb (2 ^ 31) s.pinned_count ≡ false =
        ground (arith, pos, small) in
      let hl : i < length c.slots = omega (arith, hi, v.sized) in
      (
        record c { slots = set c.slots i s' },
        rw ok refl,
        refl,
        set-IsValid c i s' v hi refl refl refl,
        λ k. ground (arith, get_or-set c.slots i k s' blank hl, pos, small),
      )

  -- n releases of one slot; `none` is an exit.
  abbrev pub release_all : ℕ → Cache h → ℕ → Option (Cache h)
  release_all zero c i = some c
  release_all (suc n) c i = elim (release_cache_block h c i) [
    | none ↦ none
    | some c' ↦ release_all n c' i
  ]

  release_cache_block-unpinned :
      (c : Cache h) (i : ℕ)
      → (slot_at c.slots i).pinned_count ≡ 0
      → release_cache_block h c i ≡ none
  unfolding release_cache_block
  release_cache_block-unpinned c i e =
      let n = (slot_at c.slots i).pinned_count in
      let bad : (n == 0) || leb (2 ^ 31) n ≡ true = ground (arith, e) in rw bad refl

  -- In a valid cache, a slot whose count is not negative as an int can be released as often as it is
  -- pinned: the cache stays valid, the slot has no pin left, and no other slot loses one. One more
  -- release exits.
  pub release_all-exits :
      (n : ℕ) (c : Cache h) (i : ℕ)
      → IsValid h c
      → i < c.cache_size
      → (slot_at c.slots i).pinned_count ≡ n
      → n < 2 ^ 31
      → (c' : Cache h) × (release_all n c i ≡ some c')
        × IsValid h c'
        × ((k : ℕ)
            → (slot_at c'.slots k).pinned_count
              ≡ (if i == k then 0 else (slot_at c.slots k).pinned_count))
        × (release_all (suc n) c i ≡ none)
  release_all-exits zero c i v hi e small = (
    c,
    refl,
    v,
    λ k. elim (Bool-cases (i == k)) [
      | inl same ↦
          let q : i ≡ k = ground (arith, same) in
          rw same (subst (λ (x : ℕ). (slot_at c.slots x).pinned_count ≡ 0) q e)
      | inr other ↦ rw other refl
    ],
    rw (release_all, release_cache_block-unpinned c i e) refl,
  )
  release_all-exits (suc n) c i v hi e small =
      let (c1, made, size, v1, pins) =
        release_cache_block-unpins c i v hi (omega (arith, e)) (omega (arith, e, small)) in
      let here : (slot_at c1.slots i).pinned_count ≡ n = ground (arith, pins i, e) in
      let (c', run, v', left, exit) =
        release_all-exits n c1 i v1 (omega (arith, size, hi)) here (omega (arith, small)) in
      (
        c',
        rw (release_all, made) run,
        v',
        λ k. ground (arith, left k, pins k),
        rw (release_all, made) exit,
      )

  abbrev state : Cache h → ℕ → Status
  state c i = (slot_at c.slots i).status

  get_cache_block-cases :
      (c : Cache h) (i : ℕ) (s : Status)
      → state c i ≡ s
      → IsValid h c
      → i < c.cache_size
      → IsValid h (get_cache_block h c i).0
        × ((get_cache_block h (get_cache_block h c i).0 i).1 ≡ false)
  unfolding get_cache_block
  get_cache_block-cases c i invalid e v hi =
      let first : get_cache_block h c i ≡ (c, false) = ap (read_slot h c i) e in
      rw (first, first) (v, refl)
  get_cache_block-cases c i read_done e v hi =
      let first : get_cache_block h c i ≡ (c, false) = ap (read_slot h c i) e in
      rw (first, first) (v, refl)
  get_cache_block-cases c i allocated e v hi =
      let s' : Slot = record (slot_at c.slots i) { status = read_done } in
      let c' : Cache h = record c { slots = set c.slots i s' } in
      let g = get_or-set c.slots i i s' blank (omega (arith, hi, v.sized)) in
      let done : (slot_at (set c.slots i s') i).status ≡ read_done = ground (arith, g) in
      let first : get_cache_block h c i ≡ (c', true) = ap (read_slot h c i) e in
      let second : get_cache_block h c' i ≡ (c', false) = ap (read_slot h c' i) done in
      rw (first, second) (set-IsValid c i s' v hi refl (ground (arith, e)) refl, refl)

  -- Reading a slot keeps a valid cache valid, and a second reader never reads the block from disk
  -- again.
  pub get_cache_block-once :
      (c : Cache h) (i : ℕ)
      → IsValid h c
      → i < c.cache_size
      → IsValid h (get_cache_block h c i).0
        × ((get_cache_block h (get_cache_block h c i).0 i).1 ≡ false)
  get_cache_block-once c i v hi = get_cache_block-cases c i (state c i) refl v hi
