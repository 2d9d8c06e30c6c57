-- ===== src/Update/Writes.antt =====
-- Writes of neighbouring pages joined into one: the loop of insert_in_place in
-- src/update/direct_insert.cpp that makes continuous writes from writes of one page each.
use native.Mathlib.Nat.{mul-div_cancel_left, suc-mul}
use mathlib.Core.List.{append_assoc}
use hvs_disk.Base.{
  ℕ, zero, suc, ◌+◌, ◌-◌, ◌*◌, ◌/◌, ◌%◌, ◌^◌, ◌<◌, ◌≡◌, refl, sym, ap, subst, ◌∙◌, inl, inr, List,
  [], ◌∷◌, ◌++◌, false, arith, ◌==◌, if◌then◌else◌, All, Bool-cases,
}

pub record IoRequest : Type 0 where
  pub offset : ℕ
  pub len : ℕ
  pub buf : ℕ

same-request : (r s : IoRequest) → r.offset ≡ s.offset → r.len ≡ s.len → r.buf ≡ s.buf → r ≡ s
same-request r s o l b i = record { offset = o i; len = l i; buf = b i }

module _ (size_per_io : ℕ) where
  -- The write of `count` pages from the first on.
  abbrev pub joined : IoRequest → ℕ → IoRequest
  joined first count = record { offset = first.offset; len = size_per_io * count; buf = first.buf }

  -- The loop from an index on: the first page of the current run, its length, and the last offset.
  pub join_runs : IoRequest → ℕ → ℕ → List IoRequest → List IoRequest
  join_runs first count cur_off [] = []
  join_runs first count cur_off (w ∷ ws) =
      let new_run = join_runs w 1 w.offset ws in
      let same_run = join_runs first (suc count) w.offset ws in
      if w.offset == ((cur_off + size_per_io) % 2 ^ 64)
      then same_run
      else joined first count ∷ new_run

  abbrev pub dummy : IoRequest
  dummy = record { offset = 2 ^ 64 - 1; len = 0; buf = 0 }

  pub continuous_writes : List IoRequest → List IoRequest
  unfolding join_runs
  continuous_writes [] = []
  continuous_writes (w ∷ ws) = join_runs w 1 w.offset (ws ++ dummy ∷ [])

  -- The write of each page to change, from the next part of the update buffer.
  pub page_writes : ℕ → List ℕ → ℕ → List IoRequest
  page_writes sector_len [] buf = []
  page_writes sector_len (page ∷ pages) buf =
      record { offset = page * sector_len; len = size_per_io; buf = buf }
      ∷ page_writes sector_len pages (buf + size_per_io)

  -- The pages of a run, one by one.
  pub pages_of : ℕ → ℕ → ℕ → List IoRequest
  pages_of zero offset buf = []
  pages_of (suc n) offset buf =
      record { offset = offset; len = size_per_io; buf = buf }
      ∷ pages_of n (offset + size_per_io) (buf + size_per_io)

  pub split_all : List IoRequest → List IoRequest
  unfolding pages_of
  split_all [] = []
  split_all (r ∷ rs) = pages_of (r.len / size_per_io) r.offset r.buf ++ split_all rs

  -- Writes of one page each, from buffers that follow each other, below the offset of the dummy.
  abbrev pub ArePages : ℕ → List IoRequest → Type 0
  ArePages buf [] = Unit
  ArePages buf (w ∷ ws) =
      (w.buf ≡ buf)
      × (w.len ≡ size_per_io)
      × (w.offset + size_per_io < 2 ^ 64 - 1)
      × ArePages (buf + size_per_io) ws

  pages_of-push :
      (n offset buf : ℕ)
      → pages_of (suc n) offset buf
        ≡ pages_of n offset buf
          ++ record {
            offset = offset + n * size_per_io;
            len = size_per_io;
            buf = buf + n * size_per_io;
          }
            ∷ []
  unfolding pages_of
  pages_of-push zero offset buf =
      ap (λ (r : IoRequest). r ∷ []) (same-request _ _ (omega arith) refl (omega arith))
  pages_of-push (suc n) offset buf =
      ap (λ (rs : List IoRequest). record { offset = offset; len = size_per_io; buf = buf } ∷ rs)
        (pages_of-push n (offset + size_per_io) (buf + size_per_io)
          ∙ ap (λ (r : IoRequest). pages_of n (offset + size_per_io) (buf + size_per_io) ++ r ∷ [])
              (same-request _ _ (omega (arith, suc-mul n size_per_io)) refl
                (omega (arith, suc-mul n size_per_io))))

  join_runs-split :
      (ws : List IoRequest) (first : IoRequest) (count cur_off : ℕ)
      → 0 < size_per_io
      → cur_off + size_per_io ≡ first.offset + count * size_per_io
      → cur_off + size_per_io < 2 ^ 64 - 1
      → ArePages (first.buf + count * size_per_io) ws
      → split_all (join_runs first count cur_off (ws ++ dummy ∷ []))
        ≡ pages_of count first.offset first.buf ++ ws
  unfolding join_runs split_all
  join_runs-split [] first count cur_off pos next small a =
      let stop : ((2 ^ 64 - 1) == ((cur_off + size_per_io) % 2 ^ 64)) ≡ false =
        ground (arith, small) in
      let whole : size_per_io * count / size_per_io ≡ count = mul-div_cancel_left count pos in
      rw (stop, whole) refl
  join_runs-split (w ∷ ws) first count cur_off pos next small (eb, el, room, a) =
      elim (Bool-cases (w.offset == ((cur_off + size_per_io) % 2 ^ 64))) [
        | inl same ↦
            let here : w.offset ≡ first.offset + count * size_per_io =
              ground (arith, same, small, next) in
            let more = suc-mul count size_per_io in
            let buf : first.buf + count * size_per_io + size_per_io
                ≡ first.buf + suc count * size_per_io =
              omega (arith, more) in
            rw same (
              join_runs-split ws first (suc count) w.offset pos (omega (arith, here, more)) room
                (subst (λ (b : ℕ). ArePages b ws) buf a)
              ∙ ap (λ (rs : List IoRequest). rs ++ ws) (pages_of-push count first.offset first.buf)
              ∙ append_assoc (pages_of count first.offset first.buf) _ ws
              ∙ ap (λ (r : IoRequest). pages_of count first.offset first.buf ++ (r ∷ ws))
                  (same-request _ w (sym here) (sym el) (sym eb)))
        | inr apart ↦
            let whole : size_per_io * count / size_per_io ≡ count = mul-div_cancel_left count pos in
            let one : 1 * size_per_io ≡ size_per_io = omega arith in
            rw (apart, whole)
              (ap (λ (rs : List IoRequest). pages_of count first.offset first.buf ++ rs)
                (join_runs-split ws w 1 w.offset pos (omega (arith, one)) room
                    (subst (λ (b : ℕ). ArePages b ws) (omega (arith, eb, one)) a)
                  ∙ ap (λ (r : IoRequest). r ∷ ws) (same-request _ w refl (sym el) refl)))
      ]

  continuous_writes-split :
      (writes : List IoRequest) (buf : ℕ)
      → 0 < size_per_io
      → ArePages buf writes
      → split_all (continuous_writes writes) ≡ writes
  unfolding continuous_writes split_all pages_of
  continuous_writes-split [] buf pos a = refl
  continuous_writes-split (w ∷ ws) buf pos (eb, el, room, a) =
      let one : 1 * size_per_io ≡ size_per_io = omega arith in
      join_runs-split ws w 1 w.offset pos (omega (arith, one)) room
        (subst (λ (b : ℕ). ArePages b ws) (omega (arith, eb, one)) a)
      ∙ ap (λ (r : IoRequest). r ∷ ws) (same-request _ w refl (sym el) refl)

  page_writes-ArePages :
      (sector_len : ℕ) (pages : List ℕ) (buf : ℕ)
      → All (λ (p : ℕ). p * sector_len + size_per_io < 2 ^ 64 - 1) pages
      → ArePages buf (page_writes sector_len pages buf)
  unfolding page_writes
  page_writes-ArePages sector_len [] buf a = tt
  page_writes-ArePages sector_len (p ∷ pages) buf a =
      (refl, refl, a.0, page_writes-ArePages sector_len pages (buf + size_per_io) a.1)

  -- For pages of positive size that end below 2^64 - 1, in any order: the continuous writes, cut into
  -- pages again, are the writes of the pages one by one, in the same order, so that no page is lost,
  -- written twice, or written from another page's part of the buffer.
  pub continuous_writes-page_writes :
      (sector_len : ℕ) (pages : List ℕ) (buf : ℕ)
      → 0 < size_per_io
      → All (λ (p : ℕ). p * sector_len + size_per_io < 2 ^ 64 - 1) pages
      → split_all (continuous_writes (page_writes sector_len pages buf))
        ≡ page_writes sector_len pages buf
  continuous_writes-page_writes sector_len pages buf pos a =
      continuous_writes-split (page_writes sector_len pages buf) buf pos
        (page_writes-ArePages sector_len pages buf a)
