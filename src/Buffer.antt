-- ===== src/Buffer.antt =====
-- BlockCache of src/buffer/BlockCache.cpp and include/buffer/BlockCache.hpp: a cache of disk blocks
-- with pins and a clock. hand_mtx and the atomics make each call one step; the parallel vectors of
-- the class are one list of slots. The counters are 32-bit patterns of int; a block id of -1 is
-- `none`; the infinite loops run on fuel, and `none` is out of fuel.
pub mod Clock
pub mod Invariant
pub mod Request
pub mod Lifecycle
mod Tests
use hvs_disk.Base.{
  ℕ, zero, suc, ◌+◌, ◌-◌, ◌%◌, ◌^◌, List, [], ◌∷◌, Option, none, some, Bool, true, false, ◌==◌,
  if◌then◌else◌, leb, ltb, ◌&&◌, ◌||◌, get_or, set, replicate, u32,
}
use hvs_disk.Base.HashMap.{HashMap}

-- cache_status: -1, 0 and 1.
pub data Status : Type 0 where
  invalid : Status
  allocated : Status
  read_done : Status

abbrev pub is_invalid : Status → Bool
is_invalid invalid = true
is_invalid allocated = false
is_invalid read_done = false

pub record Slot : Type 0 where
  pub cached_block_id : Option ℕ
  pub pinned_count : ℕ
  pub ref_count : ℕ
  pub status : Status

pub record Cache (h : HashMap ℕ) : Type 0 where
  pub cache_size : ℕ
  pub slots : List Slot
  pub clock_hand : ℕ
  pub num_free_blocks : ℕ
  pub cache_ph_map : h.Table

abbrev pub blank : Slot
blank = record { cached_block_id = none; pinned_count = 0; ref_count = 0; status = invalid }

abbrev pub slot_at : List Slot → ℕ → Slot
slot_at slots i = get_or slots i blank

abbrev pub holds : Option ℕ → ℕ → Bool
holds none b = false
holds (some a) b = a == b

-- The search for a free slot, from the clock hand on.
pub probe : ℕ → ℕ → ℕ → List Slot → Option ℕ
probe zero size i slots = none
probe (suc fuel) size i slots =
    let rest = probe fuel size ((i + 1) % size) slots in
    if is_invalid (slot_at slots i).status then some i else rest

-- The clock at slot i: an unpinned slot loses one reference.
pub tick : List Slot → ℕ → List Slot
tick slots i =
    let s = slot_at slots i in
    if s.pinned_count == 0
    then set slots i (record s { ref_count = u32 (s.ref_count + 2 ^ 32 - 1) })
    else slots

-- The search for a block to evict: an unpinned slot that has no reference left.
pub evict : ℕ → ℕ → ℕ → List Slot → Option (ℕ × List Slot)
unfolding tick
evict zero size i slots = none
evict (suc fuel) size i slots =
    let slots' = tick slots i in
    let next = evict fuel size ((i + 1) % size) slots' in
    if ((slot_at slots i).pinned_count == 0) && ((slot_at slots' i).ref_count == 0)
    then some (i, slots')
    else next

module _ (h : HashMap ℕ) where
  -- try_emplace_l with a function that does nothing, and erase_if.
  abbrev pub try_emplace : ℕ → ℕ → h.Table → h.Table
  try_emplace k v t = elim (h.find k t) [ none ↦ h.insert_or_assign k v t | some w ↦ t ]

  abbrev pub erase_if : Option ℕ → ℕ → h.Table → h.Table
  erase_if none v t = t
  erase_if (some k) v t = if holds (h.find k t) v then h.erase k t else t

  pub clear : ℕ → Cache h
  clear size = record {
    cache_size = size;
    slots = replicate size blank;
    clock_hand = 0;
    num_free_blocks = size;
    cache_ph_map = h.empty;
  }

  pub pin : Cache h → ℕ → Cache h
  pin c i =
      let s = slot_at c.slots i in
      record c {
        slots = set c.slots i (record s {
          pinned_count = u32 (s.pinned_count + 1);
          ref_count = u32 (s.ref_count + 1);
        });
      }

  -- The slot i is given to the block b.
  pub give : Cache h → ℕ → ℕ → Cache h
  give c i b = record c {
    slots =
        set c.slots i (record {
          cached_block_id = some b;
          pinned_count = 1;
          ref_count = 1;
          status = allocated;
        });
    clock_hand = (i + 1) % c.cache_size;
    cache_ph_map = try_emplace b i c.cache_ph_map;
  }

  abbrev pub give_free : Cache h → ℕ → Option ℕ → Option (ℕ × Cache h)
  give_free c b none = none
  give_free c b (some i) = some (i, give (record c { num_free_blocks = c.num_free_blocks - 1 }) i b)

  abbrev pub give_evicted : Cache h → ℕ → Option (ℕ × List Slot) → Option (ℕ × Cache h)
  give_evicted c b none = none
  give_evicted c b (some (i, slots)) =
      let old = (slot_at slots i).cached_block_id in
      some (i, give (record c { slots = slots; cache_ph_map = erase_if old i c.cache_ph_map }) i b)

  -- A call runs alone, so the path without the lock and the path with it pin the same slot.
  unfoldable pub request_block : ℕ → Cache h → ℕ → Option (ℕ × Cache h)
  unfolding pin give probe evict
  request_block fuel c b = elim (h.find b c.cache_ph_map) [
    | some i ↦ some (i, pin c i)
    | none ↦
        if ltb 0 c.num_free_blocks
        then give_free c b (probe fuel c.cache_size c.clock_hand c.slots)
        else give_evicted c b (evict fuel c.cache_size c.clock_hand c.slots)
  ]

  -- The first reader of an allocated slot reads the block; the flag says whether it did.
  abbrev pub read_slot : Cache h → ℕ → Status → Cache h × Bool
  read_slot c i invalid = (c, false)
  read_slot c i allocated =
      (record c { slots = set c.slots i (record (slot_at c.slots i) { status = read_done }) }, true)
  read_slot c i read_done = (c, false)

  pub get_cache_block : Cache h → ℕ → Cache h × Bool
  get_cache_block c i = read_slot c i (slot_at c.slots i).status

  -- `none` is the exit of the process on a count that is not positive as an int.
  pub release_cache_block : Cache h → ℕ → Option (Cache h)
  release_cache_block c i =
      let s = slot_at c.slots i in
      if (s.pinned_count == 0) || leb (2 ^ 31) s.pinned_count
      then none
      else some (record c {
        slots = set c.slots i (record s { pinned_count = u32 (s.pinned_count + 2 ^ 32 - 1) });
      })
