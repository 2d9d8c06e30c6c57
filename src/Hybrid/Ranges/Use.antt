-- ===== src/Hybrid/Ranges/Use.antt =====
-- What the ranges of weights mean: the weights in which an edge is pruned, and in which it is used.
use hvs_disk.Base.{
  ℕ, ◌≤◌, ◌<◌, ◌≡◌, refl, List, [], ◌∷◌, Bool, true, false, arith, max, ltb, leb, ◌&&◌, ◌||◌, All,
}
use hvs_disk.Hybrid.Ranges.{
  Interval, interval_lt, insert_interval, sort_intervals, merge_into, merge_sorted, merge_intervals,
  use_after, get_use_range,
}

-- The weight lies between the bounds, both included.
abbrev pub inside : List Interval → ℕ → Bool
inside [] x = false
inside (a ∷ cs) x = (leb a.first x && leb x a.second) || inside cs x

-- The weight lies strictly between the bounds.
abbrev pub within : List Interval → ℕ → Bool
within [] x = false
within (a ∷ cs) x = (ltb a.first x && ltb x a.second) || within cs x

-- The ranges are not empty, and each starts after the one before ends.
abbrev pub IsChain : ℕ → List Interval → Type 0
IsChain from [] = Unit
IsChain from (a ∷ cs) = (from ≤ a.first) × (a.first ≤ a.second) × IsChain a.second cs

abbrev pub Starts : ℕ → List Interval → Type 0
Starts from [] = Unit
Starts from (a ∷ cs) = (from ≤ a.first) × (a.first ≤ a.second) × Starts a.first cs

insert_interval-Starts :
    (from : ℕ) (a : Interval) (cs : List Interval)
    → from ≤ a.first
    → a.first ≤ a.second
    → Starts from cs
    → Starts from (insert_interval a cs)
unfolding insert_interval interval_lt
insert_interval-Starts from a [] h k s = (h, k, tt)
insert_interval-Starts from a (b ∷ bs) h k s = ground (arith, insert_interval-Starts b.first a bs)

abbrev pub IsProper : List Interval → Type 0
IsProper cs = All (λ (a : Interval). a.first ≤ a.second) cs

sort_intervals-Starts : (cs : List Interval) → IsProper cs → Starts 0 (sort_intervals cs)
unfolding sort_intervals
sort_intervals-Starts [] p = tt
sort_intervals-Starts (a ∷ cs) p =
    insert_interval-Starts 0 a (sort_intervals cs) (omega arith) p.0 (sort_intervals-Starts cs p.1)

merge_into-IsChain :
    (from : ℕ) (back : Interval) (cs : List Interval)
    → from ≤ back.first
    → back.first ≤ back.second
    → Starts back.first cs
    → IsChain from (merge_into back cs)
unfolding merge_into
merge_into-IsChain from back [] h k s = (h, k, tt)
merge_into-IsChain from back (a ∷ []) h k s = (h, k, tt)
merge_into-IsChain from back (a ∷ b ∷ rest) h k s = ground (
  arith,
  h,
  k,
  s,
  merge_into-IsChain from (record back { second = max back.second a.second }) (b ∷ rest),
  merge_into-IsChain back.second a (b ∷ rest),
)

-- The intervals that the loop reads: all but the last one of two or more.
abbrev pub read_intervals : List Interval → List Interval
read_intervals [] = []
read_intervals (a ∷ []) = []
read_intervals (a ∷ b ∷ rest) = a ∷ read_intervals (b ∷ rest)

inside-merge_into :
    (back : Interval) (cs : List Interval) (x : ℕ)
    → back.first ≤ back.second
    → Starts back.first cs
    → inside (merge_into back cs) x ≡ inside (back ∷ read_intervals cs) x
unfolding merge_into
inside-merge_into back [] x h s = refl
inside-merge_into back (a ∷ []) x h s = refl
inside-merge_into back (a ∷ b ∷ rest) x h s = ground (
  arith,
  h,
  s,
  inside-merge_into (record back { second = max back.second a.second }) (b ∷ rest) x,
  inside-merge_into a (b ∷ rest) x,
)

-- No weight before a chain is inside of it.
inside-before :
    (from : ℕ) (cs : List Interval) (x : ℕ) → IsChain from cs → x < from → inside cs x ≡ false
inside-before from [] x s h = refl
inside-before from (c ∷ cs) x s h = ground (arith, s, h, inside-before c.second cs x)

module _ (wide : ℕ → ℕ → Bool) where
  use_after-apart :
      (a : Interval) (cs : List Interval) (x : ℕ)
      → a.first ≤ a.second
      → IsChain a.second cs
      → within (use_after wide a cs) x ≡ true
      → (a.second < x) × (inside (a ∷ cs) x ≡ false)
  unfolding use_after
  use_after-apart a [] x h s w = ground (arith, w)
  use_after-apart a (b ∷ bs) x h s w =
      ground (arith, h, s, w, inside-before b.second bs x, use_after-apart b bs x)

  get_use_range-chain :
      (cs : List Interval) (x : ℕ)
      → IsChain 0 cs
      → within (get_use_range wide cs) x ≡ true
      → inside cs x ≡ false
  unfolding get_use_range
  get_use_range-chain [] x s w = refl
  get_use_range-chain (c ∷ cs) x s w =
      ground (arith, s, w, use_after-apart c cs x, inside-before c.second cs x)

-- What mergeIntervals reads of the sorted intervals.
abbrev pub read_sorted : List Interval → List Interval
read_sorted [] = []
read_sorted (c ∷ cs) = c ∷ read_intervals cs

merge_sorted-read :
    (cs : List Interval) (x : ℕ)
    → Starts 0 cs
    → IsChain 0 (merge_sorted cs) × (inside (merge_sorted cs) x ≡ inside (read_sorted cs) x)
merge_sorted-read [] x s = (tt, refl)
merge_sorted-read (c ∷ cs) x s =
    (merge_into-IsChain 0 c cs s.0 s.1 s.2, inside-merge_into c cs x s.1 s.2)

-- For intervals whose ends are in order, the merged intervals are in order and do not overlap, and
-- cover exactly the weights of the sorted intervals without the last one of two or more.
pub merge_intervals-read :
    (cs : List Interval) (x : ℕ)
    → IsProper cs
    → IsChain 0 (merge_intervals cs)
      × (inside (merge_intervals cs) x ≡ inside (read_sorted (sort_intervals cs)) x)
unfolding merge_intervals
merge_intervals-read cs x p = merge_sorted-read (sort_intervals cs) x (sort_intervals-Starts cs p)

-- Where the start of every prune range is at most its end, and whatever gap counts as wide: a weight
-- strictly within a range of use lies in none of the merged ranges in which the edge is pruned.
pub get_use_range-apart :
    (wide : ℕ → ℕ → Bool) (prune_range : List Interval) (x : ℕ)
    → IsProper prune_range
    → within (get_use_range wide (merge_intervals prune_range)) x ≡ true
    → inside (merge_intervals prune_range) x ≡ false
get_use_range-apart wide prune_range x p w =
    get_use_range-chain wide (merge_intervals prune_range) x
      (merge_intervals-read prune_range x p).0 w
