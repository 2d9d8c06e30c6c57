-- ===== src/Buffer/Request.antt =====
-- request_block as a whole.
use native.Mathlib.Nat.{suc-mul}
use hvs_disk.Base.{
  ℕ, suc, ◌+◌, ◌-◌, ◌*◌, ◌^◌, ◌<◌, ◌≡◌, ◌≢◌, refl, sym, ap, ◌∙◌, subst, inl, inr, ◌⊎◌, List, [],
  ◌∷◌, Option, none, some, true, false, arith, ltb, ◌==◌, if◌then◌else◌, length, set, length-set,
  get_or-set, u32, Bool-cases, Option-cases,
}
use hvs_disk.Base.HashMap.{HashMap}
use hvs_disk.Buffer.{Slot, Cache, is_invalid, blank, slot_at, erase_if, pin, give, request_block}
use hvs_disk.Buffer.Clock.{next-lt, probe-finds, Keeps, StayReferenced, evict-Finds}
use hvs_disk.Buffer.Invariant.{
  is_none, free_slots, free_slots-some, free_slots-none, free_slots-set, IsValid, IsValidBut, given,
  give-IsValid, find-try_emplace,
}

is_none-none : (o : Option ℕ) → is_none o ≡ true → o ≡ none
is_none-none none e = refl
is_none-none (some a) e = absurd (ground (arith, e))

is_none-some : (o : Option ℕ) → is_none o ≡ false → (b : ℕ) × (o ≡ some b)
is_none-some none e = absurd (ground (arith, e))
is_none-some (some a) e = (a, refl)

free_slots-same :
    (xs ys : List Slot)
    → length ys ≡ length xs
    → ((k : ℕ) → (slot_at ys k).status ≡ (slot_at xs k).status)
    → free_slots ys ≡ free_slots xs
free_slots-same [] [] l e = refl
free_slots-same [] (y ∷ ys) l e = absurd (omega (arith, l))
free_slots-same (x ∷ xs) [] l e = absurd (omega (arith, l))
free_slots-same (x ∷ xs) (y ∷ ys) l e =
    rw (e 0, free_slots-same xs ys (omega (arith, l)) (λ k. e (suc k))) refl

module _ (h : HashMap ℕ) where
  -- A request answered by the slot i of c': the cache stays valid, b is mapped to i and pinned there;
  -- i held b before, or no block, or was not pinned; every other slot keeps its block and its pins.
  pub record Serves (c : Cache h) (b i : ℕ) (c' : Cache h) : Type 0 where
    pub valid : IsValid h c'
    pub mapped : h.find b c'.cache_ph_map ≡ some i
    pub pinned : (slot_at c'.slots i).pinned_count ≢ 0
    pub spared :
        ((slot_at c.slots i).cached_block_id ≡ some b)
        ⊎ ((slot_at c.slots i).cached_block_id ≡ none)
        ⊎ ((slot_at c.slots i).pinned_count ≡ 0)
    pub others :
        (k : ℕ)
        → k ≢ i
        → ((slot_at c'.slots k).cached_block_id ≡ (slot_at c.slots k).cached_block_id)
          × ((slot_at c'.slots k).pinned_count ≡ (slot_at c.slots k).pinned_count)

  -- No counter is about to pass 2 ^ 31 - 1.
  abbrev pub HasRoom : Cache h → Type 0
  HasRoom c =
      (k : ℕ)
      → ((slot_at c.slots k).pinned_count + 1 < 2 ^ 31)
        × ((slot_at c.slots k).ref_count + 1 < 2 ^ 31)

  pin-Serves :
      (c : Cache h) (b i : ℕ)
      → IsValid h c
      → HasRoom c
      → h.find b c.cache_ph_map ≡ some i
      → Serves c b i (pin h c i)
  unfolding pin
  pin-Serves c b i v room e =
      let (hi, hold) = v.map_to b i e in
      let s = slot_at c.slots i in
      let s' : Slot = record s {
        pinned_count = u32 (s.pinned_count + 1);
        ref_count = u32 (s.ref_count + 1);
      } in
      let hl : i < length c.slots = omega (arith, hi, v.sized) in
      let g : (k : ℕ) → slot_at (set c.slots i s') k ≡ (if i == k then s' else slot_at c.slots k) =
        λ k. get_or-set c.slots i k s' blank hl in
      let (pr, rr) = room i in
      record {
        valid = record {
          sized = length-set c.slots i s' ∙ v.sized;
          hand = v.hand;
          counted = omega (arith, v.counted, free_slots-set c.slots i s' hl);
          free_empty = λ k lk. ground (arith, g k, v.free_empty k lk);
          referenced = λ k lk f. ground (arith, g k, v.referenced k lk, f, rr);
          map_to = λ j k m. ground (arith, g k, v.map_to j k m);
          to_map = λ j k lk m. ground (arith, g k, v.to_map j k lk, m);
        };
        mapped = e;
        pinned = ground (arith, g i, pr);
        spared = inl hold;
        others = λ k ne. ground (arith, g k, ne);
      }

  free-IsValidBut :
      (c : Cache h) (i n : ℕ)
      → IsValid h c
      → i < c.cache_size
      → is_invalid (slot_at c.slots i).status ≡ true
      → IsValidBut h (record c { num_free_blocks = n }) i
  free-IsValidBut c i n v hi e = record {
    sized = v.sized;
    free_empty = λ k lk ne. v.free_empty k lk;
    referenced = λ k lk ne. v.referenced k lk;
    map_to = λ b k m.
        let (lk, hold) = v.map_to b k m in
        (
          λ ki.
              let there = subst (λ (x : ℕ). (slot_at c.slots x).cached_block_id ≡ some b) ki hold in
              absurd (ground (arith, v.free_empty i hi, e, there)),
          lk,
          hold,
        );
    to_map = λ b k lk ne. v.to_map b k lk;
  }

  free-Serves :
      (c : Cache h) (b i n : ℕ)
      → IsValid h c
      → h.find b c.cache_ph_map ≡ none
      → i < c.cache_size
      → is_invalid (slot_at c.slots i).status ≡ true
      → n + 1 ≡ c.num_free_blocks
      → Serves c b i (give h (record c { num_free_blocks = n }) i b)
  unfolding give
  free-Serves c b i n v new hi e en =
      let hl : i < length c.slots = omega (arith, hi, v.sized) in
      let g : (k : ℕ)
          → slot_at (set c.slots i (given h b)) k
            ≡ (if i == k then given h b else slot_at c.slots k) =
        λ k. get_or-set c.slots i k (given h b) blank hl in
      let at_i : slot_at (set c.slots i (given h b)) i ≡ given h b = ground (arith, g i) in
      record {
        valid =
            give-IsValid h (record c { num_free_blocks = n }) i b (free-IsValidBut c i n v hi e) hi
              new (next-lt c.cache_size i hi) (ground (arith, e, en, v.counted));
        mapped = find-try_emplace h b b i c.cache_ph_map new ∙ ground arith;
        pinned = ground (arith, at_i);
        spared = inr (inl (is_none-none _ (sym (v.free_empty i hi) ∙ e)));
        others = λ k ne. ground (arith, g k, ne);
      }

  erase_if-held :
      (o : Option ℕ) (old i : ℕ) (t : h.Table)
      → o ≡ some old
      → h.find old t ≡ some i
      → erase_if h o i t ≡ h.erase old t
  erase_if-held none old i t e at = absurd (ground (arith, e))
  erase_if-held (some a) old i t e at =
      let q : a ≡ old = ground (arith, e) in rw (q, at) (ground arith)

  evicted-IsValidBut :
      (c : Cache h) (i old : ℕ) (slots : List Slot)
      → IsValid h c
      → i < c.cache_size
      → (slot_at c.slots i).cached_block_id ≡ some old
      → Keeps c.slots slots
      → StayReferenced i c.slots slots
      → IsValidBut h (record c { slots = slots; cache_ph_map = h.erase old c.cache_ph_map }) i
  evicted-IsValidBut c i old slots v hi was keeps refs = record {
    sized = keeps.same_length ∙ v.sized;
    free_empty =
        λ k lk ne. ground (arith, keeps.same_status k, keeps.same_block k, v.free_empty k lk);
    referenced =
        λ k lk ne f. refs k ne (v.referenced k lk (ground (arith, keeps.same_status k, f)));
    map_to = λ b k e.
        let look = h.find-erase old b c.cache_ph_map in
        let apart : (old == b) ≡ false = ground (arith, look, e) in
        let m : h.find b c.cache_ph_map ≡ some k = ground (arith, look, e, apart) in
        let (lk, hold) = v.map_to b k m in
        (
          λ ki.
              let there = subst (λ (x : ℕ). (slot_at c.slots x).cached_block_id ≡ some b) ki hold in
              absurd (ground (arith, apart, was, there)),
          lk,
          keeps.same_block k ∙ hold,
        );
    to_map = λ b k lk ne e.
        let m = v.to_map b k lk (sym (keeps.same_block k) ∙ e) in
        let here = v.to_map old i hi was in
        elim (Bool-cases (old == b)) [
          | inr apart ↦ ground (arith, h.find-erase old b c.cache_ph_map, apart, m)
          | inl same ↦
              let q : old ≡ b = ground (arith, same) in
              let here' = subst (λ (x : ℕ). h.find x c.cache_ph_map ≡ some i) q here in
              absurd (ground (arith, ne, m, here'))
        ];
  }

  evicted-Serves :
      (c : Cache h) (b i : ℕ) (slots : List Slot)
      → IsValid h c
      → h.find b c.cache_ph_map ≡ none
      → i < c.cache_size
      → (slot_at c.slots i).pinned_count ≡ 0
      → c.num_free_blocks ≡ 0
      → Keeps c.slots slots
      → StayReferenced i c.slots slots
      → Serves c b i (
          give h
            (record c {
              slots = slots;
              cache_ph_map = erase_if h (slot_at slots i).cached_block_id i c.cache_ph_map;
            })
            i
            b)
  unfolding give
  evicted-Serves c b i slots v new hi p full keeps refs =
      let busy = free_slots-none c.slots i (sym v.counted ∙ full) (omega (arith, hi, v.sized)) in
      let (old, was) =
        is_none-some (slot_at c.slots i).cached_block_id (sym (v.free_empty i hi) ∙ busy) in
      let now = keeps.same_block i ∙ was in
      let t' = h.erase old c.cache_ph_map in
      let erased = erase_if-held _ old i c.cache_ph_map now (v.to_map old i hi was) in
      let but = evicted-IsValidBut c i old slots v hi was keeps refs in
      let new' : h.find b t' ≡ none = ground (arith, h.find-erase old b c.cache_ph_map, new) in
      let hl : i < length slots = omega (arith, hi, v.sized, keeps.same_length) in
      let g : (k : ℕ)
          → slot_at (set slots i (given h b)) k ≡ (if i == k then given h b else slot_at slots k) =
        λ k. get_or-set slots i k (given h b) blank hl in
      let at_i : slot_at (set slots i (given h b)) i ≡ given h b = ground (arith, g i) in
      let busy' : is_invalid (slot_at slots i).status ≡ false =
        ap is_invalid (keeps.same_status i) ∙ busy in
      let count = free_slots-same c.slots slots keeps.same_length keeps.same_status in
      subst
        (λ (t : h.Table). Serves c b i (give h (record c { slots = slots; cache_ph_map = t }) i b))
        (sym erased)
        (record {
          valid =
              give-IsValid h (record c { slots = slots; cache_ph_map = t' }) i b but hi new'
                (next-lt c.cache_size i hi) (ground (arith, busy', v.counted, count));
          mapped = find-try_emplace h b b i t' new' ∙ ground arith;
          pinned = ground (arith, at_i);
          spared = inr (inr p);
          others = λ k ne. ground (arith, g k, ne, keeps.same_block k, keeps.same_pin k);
        })

  -- In a valid cache with an unpinned slot j, no counter near its limit and fuel for the laps of the
  -- clock, a request is answered: the cache stays valid, the block is mapped to a slot that is
  -- pinned, the slot held the block before, or none, or was unpinned, and no other slot loses its
  -- block or a pin.
  pub request_block-Serves :
      (fuel : ℕ) (c : Cache h) (b j : ℕ)
      → IsValid h c
      → HasRoom c
      → j < c.cache_size
      → (slot_at c.slots j).pinned_count ≡ 0
      → c.cache_size < fuel
      → (slot_at c.slots j).ref_count * c.cache_size < fuel
      → (i : ℕ) × (c' : Cache h) × (request_block h fuel c b ≡ some (i, c')) × Serves c b i c'
  unfolding request_block
  request_block-Serves fuel c b j v room hj p f1 f2 =
      elim (Option-cases (h.find b c.cache_ph_map)) [
        | inr (i, e) ↦ (i, pin h c i, rw (e, request_block) refl, pin-Serves c b i v room e)
        | inl new ↦ elim (Bool-cases (ltb 0 c.num_free_blocks)) [
          | inl some_free ↦
              let (k, lk, fk) = free_slots-some c.slots (ground (arith, v.counted, some_free)) in
              let (i, r, li, fi) =
                probe-finds fuel c.cache_size c.clock_hand k c.slots v.hand
                  (omega (arith, lk, v.sized)) fk (ground (arith, v.hand, lk, v.sized, f1)) in
              (
                i,
                give h (record c { num_free_blocks = c.num_free_blocks - 1 }) i b,
                rw (new, request_block, some_free, r) refl,
                free-Serves c b i (c.num_free_blocks - 1) v new li fi (ground (arith, some_free)),
              )
          | inr full ↦
              let none_free : c.num_free_blocks ≡ 0 = ground (arith, full) in
              let hl : j < length c.slots = omega (arith, hj, v.sized) in
              let busy = free_slots-none c.slots j (sym v.counted ∙ none_free) hl in
              let pos = v.referenced j hj busy in
              let (pr, rr) = room j in
              let r = (slot_at c.slots j).ref_count - 1 in
              let n = c.cache_size in
              let e : (slot_at c.slots j).ref_count ≡ suc r = omega (arith, pos) in
              let laps : (slot_at c.slots j).ref_count * n ≡ r * n + n =
                ap (λ (y : ℕ). y * n) e ∙ suc-mul r n in
              let (i, slots, run, li, pi, keeps, refs) =
                evict-Finds fuel n c.clock_hand j r c.slots v.hand hj v.sized p e
                  (omega (arith, rr, e)) (ground (arith, laps, f2, v.hand, hj)) in
              (
                i,
                _,
                rw (new, request_block, full, run) refl,
                evicted-Serves c b i slots v new li pi none_free keeps refs,
              )
        ]
      ]
