-- ===== src/Buffer/Tests.antt =====
-- Runs of the block cache with two slots.
use hvs_disk.Base.{ℕ, zero, suc, ◌≡◌, ◌<◌, refl, none, [], ◌∷◌, some, arith, if◌then◌else◌, ◌==◌}
use hvs_disk.Base.HashMap.{HashMap, assoc_map}
use hvs_disk.Buffer.{Cache, slot_at, clear, allocated, request_block}
use hvs_disk.Buffer.Invariant.{IsValid}
use hvs_disk.Buffer.Request.{Serves, HasRoom, request_block-Serves}
use hvs_disk.Buffer.Lifecycle.{clear-IsValid, release_all, release_all-exits}

abbrev maps : HashMap ℕ
maps = assoc_map ℕ

abbrev two : Cache maps
two = clear maps 2

two-IsValid : IsValid maps two
two-IsValid = clear-IsValid maps 2 (omega arith)

blanks : (k : ℕ) → ((slot_at two.slots k).pinned_count ≡ 0) × ((slot_at two.slots k).ref_count ≡ 0)
unfolding clear
blanks zero = (refl, refl)
blanks (suc zero) = (refl, refl)
blanks (suc (suc k)) = (refl, refl)

two-HasRoom : HasRoom maps two
two-HasRoom k = let (p, r) = blanks k in (omega (arith, p), omega (arith, r))

request_block-Serves_example :
    (i : ℕ) × (c' : Cache maps) × (request_block maps 3 two 5 ≡ some (i, c'))
    × Serves maps two 5 i c'
unfolding clear
request_block-Serves_example =
    request_block-Serves maps 3 two 5 0 two-IsValid two-HasRoom (omega arith) (blanks 0).0
      (omega arith) (omega (arith, (blanks 0).1))

-- One slot, which holds the block 5 for one user.
abbrev one : Cache maps
one = record {
  cache_size = 1;
  slots =
      record { cached_block_id = some 5; pinned_count = 1; ref_count = 1; status = allocated } ∷ [];
  clock_hand = 0;
  num_free_blocks = 0;
  cache_ph_map = (5, 0) ∷ [];
}

only_zero : (k : ℕ) → k < 1 → k ≡ 0
only_zero k h = omega (arith, h)

one-IsValid : IsValid maps one
one-IsValid = record {
  sized = refl;
  hand = omega arith;
  counted = refl;
  free_empty = λ k lk. rw (only_zero k lk) refl;
  referenced = λ k lk. rw (only_zero k lk) (λ e. omega arith);
  map_to = λ b k e. let k0 : k ≡ 0 = ground (arith, e) in rw k0 (ground (arith, e));
  to_map = λ b k lk. rw (only_zero k lk) (λ e. ground (arith, e));
}

release_all-exits_example :
    (c' : Cache maps) × (release_all maps 1 one 0 ≡ some c')
    × IsValid maps c'
    × ((k : ℕ)
        → (slot_at c'.slots k).pinned_count
          ≡ (if 0 == k then 0 else (slot_at one.slots k).pinned_count))
    × (release_all maps 2 one 0 ≡ none)
release_all-exits_example =
    release_all-exits maps 1 one 0 one-IsValid (omega arith) refl (omega arith)
