-- ===== src/Memory/Consolidate.antt =====
-- consolidate as a whole.
use hvs_disk.Base.{
  ℕ, zero, suc, ◌<◌, ◌≡◌, refl, sym, ap, subst, ◌∙◌, List, [], ◌∷◌, some, Bool, true, false, ◌&&◌,
  arith, ltb, ◌==◌, length, contains, leb, ◌+◌, map, All, All-weaken, ap₂, Bool-cases, inl, inr,
}
use hvs_disk.Base.HashMap.{HashMap, Iterates}
use hvs_disk.Base.HashSet.{HashSet}
use hvs_disk.Memory.{Memory, insert_all}
use hvs_disk.Memory.Compaction.{
  consolidate_deletes, compact_data, consolidate, cleared, compact_slots,
}
use hvs_disk.Memory.Moving.{move_points}
use hvs_disk.Memory.Slots.{has-insert_all, count}
use hvs_disk.Memory.Renumber.{count-below}
use hvs_disk.Memory.Compact.{moved, compact_data-moves, compact_data-stays}
use hvs_disk.Memory.Renamed.{stays, IsSettled, tagged, moved-frozen, stays-le, move_points-moved}
use hvs_disk.Memory.Valid.{IsValid}
use hvs_disk.Memory.Packed.{live, IsCompacted, left, left-count, packed, packed-IsCompacted}

count-all : (p : ℕ → Bool) (n : ℕ) → ((i : ℕ) → i < n → p i ≡ true) → count p n ≡ n
count-all p zero every = refl
count-all p (suc n) every =
    ground (arith, every n (omega arith), count-all p n (λ i lt. every i (omega (arith, lt))))

none-contains : (xs : List ℕ) (j : ℕ) → length xs ≡ 0 → contains xs j ≡ false
none-contains [] j e = refl
none-contains (x ∷ xs) j e = absurd (omega (arith, e))

some-contains : (xs : List ℕ) → (length xs == 0) ≡ false → (x : ℕ) × (contains xs x ≡ true)
some-contains [] e = absurd (ground (arith, e))
some-contains (x ∷ xs) e = (x, ground arith)

map-still : (f : ℕ → ℕ) (ns : List ℕ) → All (λ (n : ℕ). f n ≡ n) ns → map f ns ≡ ns
map-still f [] a = refl
map-still f (n ∷ ns) a = ap₂ ◌∷◌ a.0 (map-still f ns a.1)

module _ (s : HashSet) (m : HashMap ℕ) (it : Iterates m) where
  after_deletes : Memory s m → Memory s m
  after_deletes d = record d {
    empty_slots = insert_all s m (s.elements d.delete_set) d.empty_slots;
    nd = left s m it d;
    data_compacted = length (s.elements d.delete_set) == 0;
  }

  compact_slots-packed : (d : Memory s m) → compact_slots s m it (after_deletes d) ≡ packed s m it d
  unfolding compact_slots after_deletes
  compact_slots-packed d = refl

  consolidate_deletes-after :
      (d : Memory s m) (ep : ℕ) (g : ℕ → List ℕ)
      → d.eager_done ≡ false
      → consolidate s m it ep g d ≡ compact_data s m it ep g (after_deletes d)
  unfolding consolidate consolidate_deletes after_deletes
  consolidate_deletes-after d ep g off = simp (off) refl

  consolidate-packed :
      (d : Memory s m) (ep : ℕ) (g g' : ℕ → List ℕ)
      → IsValid s m d
      → s.has ep d.delete_set ≡ false
      → move_points (moved s m d) d.max_points (d.max_points + 1) 0 g ≡ some g'
      → (length (s.elements d.delete_set) == 0) ≡ false
      → consolidate s m it ep g d
        ≡ some (ep, (cleared s m it (packed s m it d) g', packed s m it d))
  unfolding after_deletes
  consolidate-packed d ep g g' v out run some_deleted =
      let (x, e) = some-contains (s.elements d.delete_set) some_deleted in
      let on = v.lazy x (sym (s.contains-elements d.delete_set x) ∙ e) in
      consolidate_deletes-after d ep g v.eager
      ∙ compact_data-moves s m it (after_deletes d) ep g g' v.dynamic on some_deleted out run
      ∙ ap (λ (c : Memory s m). some (ep, (cleared s m it (packed s m it d) g', c)))
          (compact_slots-packed d)

  consolidate-idle :
      (d : Memory s m) (ep : ℕ) (g : ℕ → List ℕ)
      → IsValid s m d
      → (length (s.elements d.delete_set) == 0) ≡ true
      → consolidate s m it ep g d ≡ some (ep, (g, after_deletes d))
  unfolding after_deletes
  consolidate-idle d ep g v idle =
      consolidate_deletes-after d ep g v.eager
      ∙ compact_data-stays s m it (after_deletes d) ep g idle

  idle-IsCompacted :
      (d : Memory s m)
      → IsValid s m d
      → (length (s.elements d.delete_set) == 0) ≡ true
      → IsCompacted s m it d (after_deletes d)
  unfolding after_deletes
  idle-IsCompacted d v idle = record {
    valid = record {
      enabled = v.enabled;
      dynamic = v.dynamic;
      compacted = idle;
      eager = v.eager;
      lazy = v.lazy;
      several = v.several;
      room = omega (arith, all, v.room);
      empties = λ l. ground (
        arith,
        has-insert_all s m (s.elements d.delete_set) l d.empty_slots,
        out l,
        v.empties l,
        all,
      );
      deleted = λ l. ground (arith, v.deleted l, all);
      live = λ l tag e. omega (arith, v.live l tag e, all);
      there = v.there;
      back = v.back;
    };
    size = left-count s m it d v;
    kept = λ tag l e.
        let lt = v.live l tag (v.there tag l e) in
        let same = count-all (live s m it d) l (λ i less. every i (omega (arith, less, lt))) in
        e ∙ ap some (sym same);
    gone = λ tag e. e;
    none_deleted = λ l. sym (s.contains-elements d.delete_set l) ∙ out l;
  }
    where
      out : (l : ℕ) → contains (s.elements d.delete_set) l ≡ false
      out l = none-contains (s.elements d.delete_set) l (ground (arith, idle))

      all : left s m it d ≡ d.nd
      all = ground (arith, idle)

      every : (i : ℕ) → i < d.nd → live s m it d i ≡ true
      every i lt = ground (arith, v.deleted i, s.contains-elements d.delete_set i, out i, lt)

  -- With no slot deleted, no point that stays moves.
  idle-still :
      (d : Memory s m)
      → IsValid s m d
      → (length (s.elements d.delete_set) == 0) ≡ true
      → (l : ℕ) → stays s m d l ≡ true
      → moved s m d l ≡ l
  idle-still d v idle l on = elim (Bool-cases (live s m it d l)) [
    | inl tag ↦
        let (lt, is) = tagged s m d v l tag in
        is ∙ count-all (live s m it d) l (λ i less. every i (omega (arith, less, lt)))
    | inr off ↦
        let q : d.max_points ≡ l = ground (arith, on, off) in
        subst (λ (x : ℕ). moved s m d x ≡ x) q (moved-frozen s m d v)
  ]
    where
      out : (l : ℕ) → contains (s.elements d.delete_set) l ≡ false
      out l = none-contains (s.elements d.delete_set) l (ground (arith, idle))

      every : (i : ℕ) → i < d.nd → live s m it d i ≡ true
      every i lt = ground (arith, v.deleted i, s.contains-elements d.delete_set i, out i, lt)

  cleared-kept :
      (c : Memory s m) (g : ℕ → List ℕ) (i : ℕ)
      → (leb c.nd i && ltb i c.max_points) ≡ false
      → cleared s m it c g i ≡ g i
  cleared-kept c g i e = rw e refl

  -- A point that stays gets a location that is not cleared at the end.
  moved-uncleared :
      (d : Memory s m) (g : ℕ → List ℕ) (l : ℕ)
      → IsValid s m d
      → stays s m d l ≡ true
      → cleared s m it (packed s m it d) g (moved s m d l) ≡ g (moved s m d l)
  moved-uncleared d g l v on = elim (Bool-cases (live s m it d l)) [
    | inl tag ↦
        let (lt, is) = tagged s m d v l tag in
        let below : leb (left s m it d) (moved s m d l) ≡ false =
          ground (arith, is, left-count s m it d v, count-below (live s m it d) l d.nd tag lt) in
        cleared-kept (packed s m it d) g (moved s m d l) (ground (arith, below))
    | inr off ↦
        let q : d.max_points ≡ l = ground (arith, on, off) in
        let past : ltb (moved s m d l) d.max_points ≡ false =
          subst (λ (x : ℕ). ltb (moved s m d x) d.max_points ≡ false) q
            (ground (arith, moved-frozen s m d v)) in
        cleared-kept (packed s m it d) g (moved s m d l) (ground (arith, past))
  ]

  -- The lists of the points that stay, at the new locations and with the new ids.
  abbrev pub AreRenamed : Memory s m → (g g' : ℕ → List ℕ) → Type 0
  AreRenamed d g g' = (l : ℕ) → stays s m d l ≡ true → g' (moved s m d l) ≡ map (moved s m d) (g l)

  -- Under the invariant, where the start node is not deleted and the repaired lists of the points that
  -- stay (those with a tag, and the frozen one) lead only to such points, consolidate does not crash.
  -- It keeps the start node, the invariant and the tags: the slots with a tag are numbered in their
  -- order from 0 on, so that nd is their number, and no slot is deleted any more. The list of each
  -- point that stays stands at its new location and leads to the new locations of its neighbours.
  pub consolidate-IsCompacted :
      (d : Memory s m) (ep : ℕ) (g : ℕ → List ℕ)
      → IsValid s m d
      → s.has ep d.delete_set ≡ false
      → IsSettled s m d g
      → (g' : ℕ → List ℕ) × (e : Memory s m) × (consolidate s m it ep g d ≡ some (ep, (g', e)))
        × IsCompacted s m it d e
        × AreRenamed d g g'
  consolidate-IsCompacted d ep g v out settled =
      elim (Bool-cases (length (s.elements d.delete_set) == 0)) [
        | inl idle ↦
            let still = idle-still d v idle in
            (
              g,
              after_deletes d,
              consolidate-idle d ep g v idle,
              idle-IsCompacted d v idle,
              λ l on.
                  ap g (still l on)
                  ∙ sym (map-still (moved s m d) (g l) (All-weaken _ _ (g l) still (settled l on))),
            )
        | inr some_deleted ↦
            let (g', run, lists) = move_points-moved s m d v g settled in
            (
              cleared s m it (packed s m it d) g',
              packed s m it d,
              consolidate-packed d ep g g' v out run some_deleted,
              packed-IsCompacted s m it d v,
              λ l on. moved-uncleared d g' l v on ∙ lists l (stays-le s m d v l on) on,
            )
      ]
