-- ===== src/Pages.antt =====
-- PageCache of include/v2/page_cache.h: sectors that are being written, with reference counts, and
-- ConcurrentQueue of include/concurrent_queue.h. A page's content is any type. Calls are one step
-- each, and the counts are of 64 bits.
pub mod Counted
pub mod Queue
mod Tests
use hvs_disk.Base.{
  ℕ, ◌+◌, ◌-◌, ◌%◌, ◌^◌, Option, none, some, Bool, true, false, ◌==◌, if◌then◌else◌,
}
use hvs_disk.Base.HashMap.{HashMap}

pub record PageCacheItem (Buf : Type 0) : Type 0 where
  pub buf : Buf
  pub ref_cnt : ℕ

module _ (Buf : Type 0) (h : HashMap (PageCacheItem Buf)) where
  abbrev pub ref_if : Bool → ℕ → ℕ
  ref_if ref n = if ref then (n + 1) % 2 ^ 64 else n

  abbrev pub get_found : ℕ → Bool → Option (PageCacheItem Buf) → h.Table → Option Buf × h.Table
  get_found block_no ref none t = (none, t)
  get_found block_no ref (some v) t =
      (some v.buf, h.insert_or_assign block_no (record v { ref_cnt = ref_if ref v.ref_cnt }) t)

  -- The value that is copied out, where there is one.
  pub get : ℕ → Bool → h.Table → Option Buf × h.Table
  get block_no ref t = get_found block_no ref (h.find block_no t) t

  abbrev pub count_or_zero : Option (PageCacheItem Buf) → ℕ
  count_or_zero none = 0
  count_or_zero (some v) = v.ref_cnt

  pub put : ℕ → Buf → Bool → h.Table → h.Table
  put block_no value ref t =
      let n = count_or_zero (h.find block_no t) in
      h.insert_or_assign block_no (record { buf = value; ref_cnt = ref_if ref n }) t

  -- A page that is not there is inserted and erased again.
  abbrev pub deref_found : ℕ → Option (PageCacheItem Buf) → h.Table → h.Table
  deref_found block_no none t = h.erase block_no t
  deref_found block_no (some v) t =
      let refs = (v.ref_cnt + 2 ^ 64 - 1) % 2 ^ 64 in
      if refs == 0
      then h.erase block_no t
      else h.insert_or_assign block_no (record v { ref_cnt = refs }) t

  pub deref : ℕ → h.Table → h.Table
  deref block_no t = deref_found block_no (h.find block_no t) t

  pub clear : h.Table
  clear = h.empty
