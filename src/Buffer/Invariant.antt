-- ===== src/Buffer/Invariant.antt =====
-- The invariant of the block cache, and what handing a slot to a block does to it.
use hvs_disk.Base.{
  ℕ, zero, suc, ◌+◌, ◌%◌, ◌<◌, ◌≡◌, ◌≢◌, ◌∙◌, inl, inr, List, [], ◌∷◌, Option, none, some, Bool,
  true, false, arith, ◌==◌, if◌then◌else◌, length, set, length-set, get_or-set, Bool-cases,
}
use hvs_disk.Base.HashMap.{HashMap}
use hvs_disk.Buffer.{Slot, Cache, allocated, is_invalid, blank, slot_at, try_emplace, give}

abbrev pub is_none : Option ℕ → Bool
is_none none = true
is_none (some b) = false

abbrev pub free_slots : List Slot → ℕ
free_slots [] = 0
free_slots (s ∷ ss) = (if is_invalid s.status then 1 else 0) + free_slots ss

pub free_slots-set :
    (ss : List Slot) (i : ℕ) (v : Slot)
    → i < length ss
    → free_slots (set ss i v) + (if is_invalid (slot_at ss i).status then 1 else 0)
      ≡ free_slots ss + (if is_invalid v.status then 1 else 0)
free_slots-set [] i v h = absurd (omega arith)
free_slots-set (s ∷ ss) zero v h = ground arith
free_slots-set (s ∷ ss) (suc i) v h = omega (arith, free_slots-set ss i v (omega (arith, h)))

pub free_slots-some :
    (ss : List Slot)
    → 0 < free_slots ss
    → (j : ℕ) × (j < length ss) × (is_invalid (slot_at ss j).status ≡ true)
free_slots-some [] h = absurd (omega arith)
free_slots-some (s ∷ ss) h = elim (Bool-cases (is_invalid s.status)) [
  | inl e ↦ (0, omega arith, e)
  | inr e ↦
      let (j, l, f) = free_slots-some ss (ground (arith, e, h)) in (suc j, omega (arith, l), f)
]

pub free_slots-none :
    (ss : List Slot) (j : ℕ)
    → free_slots ss ≡ 0
    → j < length ss
    → is_invalid (slot_at ss j).status ≡ false
free_slots-none [] j e h = absurd (omega arith)
free_slots-none (s ∷ ss) zero e h = ground (arith, e)
free_slots-none (s ∷ ss) (suc j) e h = free_slots-none ss j (omega (arith, e)) (omega (arith, h))

module _ (h : HashMap ℕ) where
  -- The map and the slots agree, a slot is free exactly when it holds no block, a slot in use has a
  -- reference, and the free slots are counted.
  pub record IsValid (c : Cache h) : Type 0 where
    pub sized : length c.slots ≡ c.cache_size
    pub hand : c.clock_hand < c.cache_size
    pub counted : c.num_free_blocks ≡ free_slots c.slots
    pub free_empty :
        (k : ℕ)
        → k < c.cache_size
        → is_invalid (slot_at c.slots k).status ≡ is_none (slot_at c.slots k).cached_block_id
    pub referenced :
        (k : ℕ)
        → k < c.cache_size
        → is_invalid (slot_at c.slots k).status ≡ false
        → 0 < (slot_at c.slots k).ref_count
    pub map_to :
        (b k : ℕ)
        → h.find b c.cache_ph_map ≡ some k
        → (k < c.cache_size) × ((slot_at c.slots k).cached_block_id ≡ some b)
    pub to_map :
        (b k : ℕ)
        → k < c.cache_size
        → (slot_at c.slots k).cached_block_id ≡ some b
        → h.find b c.cache_ph_map ≡ some k

  -- The same of every slot but i, which no block is mapped to.
  pub record IsValidBut (c : Cache h) (i : ℕ) : Type 0 where
    pub sized : length c.slots ≡ c.cache_size
    pub free_empty :
        (k : ℕ)
        → k < c.cache_size
        → k ≢ i
        → is_invalid (slot_at c.slots k).status ≡ is_none (slot_at c.slots k).cached_block_id
    pub referenced :
        (k : ℕ)
        → k < c.cache_size
        → k ≢ i
        → is_invalid (slot_at c.slots k).status ≡ false
        → 0 < (slot_at c.slots k).ref_count
    pub map_to :
        (b k : ℕ)
        → h.find b c.cache_ph_map ≡ some k
        → (k ≢ i) × (k < c.cache_size) × ((slot_at c.slots k).cached_block_id ≡ some b)
    pub to_map :
        (b k : ℕ)
        → k < c.cache_size
        → k ≢ i
        → (slot_at c.slots k).cached_block_id ≡ some b
        → h.find b c.cache_ph_map ≡ some k

  abbrev pub given : ℕ → Slot
  given b = record { cached_block_id = some b; pinned_count = 1; ref_count = 1; status = allocated }

  pub find-try_emplace :
      (k j v : ℕ) (t : h.Table)
      → h.find k t ≡ none
      → h.find j (try_emplace h k v t) ≡ (if k == j then some v else h.find j t)
  find-try_emplace k j v t e = rw (e, try_emplace) (h.find-insert_or_assign k j v t)

  -- Handing the slot left out to a block that is not mapped makes the whole valid.
  pub give-IsValid :
      (c : Cache h) (i b : ℕ)
      → IsValidBut c i
      → i < c.cache_size
      → h.find b c.cache_ph_map ≡ none
      → (i + 1) % c.cache_size < c.cache_size
      → c.num_free_blocks + (if is_invalid (slot_at c.slots i).status then 1 else 0)
        ≡ free_slots c.slots
      → IsValid (give h c i b)
  unfolding give
  give-IsValid c i b v hi new hand n =
      let hl : i < length c.slots = omega (arith, hi, v.sized) in
      let g : (k : ℕ)
          → slot_at (set c.slots i (given b)) k ≡ (if i == k then given b else slot_at c.slots k) =
        λ k. get_or-set c.slots i k (given b) blank hl in
      let f : (j : ℕ)
          → h.find j (try_emplace h b i c.cache_ph_map)
            ≡ (if b == j then some i else h.find j c.cache_ph_map) =
        λ j. find-try_emplace b j i c.cache_ph_map new in
      record {
        sized = length-set c.slots i (given b) ∙ v.sized;
        hand = hand;
        counted = omega (arith, n, free_slots-set c.slots i (given b) hl);
        free_empty = λ k lk. ground (arith, g k, v.free_empty k lk);
        referenced = λ k lk e. ground (arith, g k, v.referenced k lk, e);
        map_to = λ j k e. ground (arith, f j, g k, v.map_to j k, e, hi);
        to_map = λ j k lk e. ground (arith, f j, g k, v.to_map j k lk, e);
      }
