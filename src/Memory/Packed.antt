-- ===== src/Memory/Packed.antt =====
-- The slots after compact_data, when some were deleted.
use hvs_disk.Base.{
  ℕ, ◌-◌, ◌<◌, ◌≡◌, refl, ap, ◌∙◌, Option, none, some, Bool, true, false, not, ◌&&◌, arith, ltb,
  length, Bool-cases, Option-cases, inl, inr,
}
use hvs_disk.Base.HashMap.{HashMap, Iterates}
use hvs_disk.Base.HashSet.{HashSet}
use hvs_disk.Memory.{Memory, is_some, insert_slots}
use hvs_disk.Memory.Compaction.{minus}
use hvs_disk.Memory.Slots.{has-insert_slots, count}
use hvs_disk.Memory.Renumber.{has_tag, count-below, count-hits}
use hvs_disk.Memory.Compact.{
  deleted_live, moved-count, new_tags, new_locs, new_tags-find, new_tags-from, new_locs-from,
  new_locs-find,
}
use hvs_disk.Memory.Valid.{IsValid}

module _ (s : HashSet) (m : HashMap ℕ) (it : Iterates m) where
  abbrev pub live : Memory s m → ℕ → Bool
  live d = has_tag m d.location_to_tag

  -- The slots with a tag are numbered in their order from 0 on; no slot is deleted.
  pub record IsCompacted (d e : Memory s m) : Type 0 where
    pub valid : IsValid s m e
    pub size : e.nd ≡ count (live d) d.nd
    pub kept :
        (tag l : ℕ)
        → m.find tag d.tag_to_location ≡ some l
        → m.find tag e.tag_to_location ≡ some (count (live d) l)
    pub gone : (tag : ℕ) → m.find tag d.tag_to_location ≡ none → m.find tag e.tag_to_location ≡ none
    pub none_deleted : (l : ℕ) → s.has l e.delete_set ≡ false

  abbrev pub left : Memory s m → ℕ
  left d = minus d.nd (length (s.elements d.delete_set))

  pub left-count : (d : Memory s m) → IsValid s m d → left d ≡ count (live d) d.nd
  left-count d v = ground (arith, deleted_live s m d v)

  abbrev pub packed : Memory s m → Memory s m
  packed d = record d {
    nd = left d;
    tag_to_location = new_tags s m it d;
    location_to_tag = new_locs s m it d;
    delete_set = s.empty;
    empty_slots = insert_slots s m (d.max_points - left d) (left d) s.empty;
    lazy_done = false;
    eager_done = false;
    data_compacted = true;
  }

  pub packed-IsCompacted : (d : Memory s m) → IsValid s m d → IsCompacted d (packed d)
  packed-IsCompacted d v = record {
    valid = record {
      enabled = v.enabled;
      dynamic = v.dynamic;
      compacted = refl;
      eager = refl;
      lazy = λ l h. absurd (ground (arith, s.has-empty l, h));
      several = v.several;
      room = omega (arith, n, deleted_live s m d v, v.room);
      empties = λ l. ground (
        arith,
        has-insert_slots s m (d.max_points - left d) (left d) l s.empty,
        s.has-empty l,
        n,
        deleted_live s m d v,
        v.room,
      );
      deleted = λ l. no_gap l;
      live = below;
      there = λ tag l e. new_locs-find s m it d tag l v e;
      back = λ l tag e. new_locs-from s m it d l tag e;
    };
    size = n;
    kept = λ tag l e.
        new_tags-find s m it d tag l v e ∙ ap some (moved-count s m d l tag v (v.there tag l e));
    gone = λ tag e. elim (Option-cases (m.find tag (new_tags s m it d))) [
      | inl out ↦ out
      | inr (w, found) ↦
          let (l, at, from, is) = new_tags-from s m it d tag w v found in
          absurd (ground (arith, at, e))
    ];
    none_deleted = s.has-empty;
  }
    where
      n : left d ≡ count (live d) d.nd
      n = left-count d v

      below : (l tag : ℕ) → m.find l (new_locs s m it d) ≡ some tag → l < left d
      below l tag e =
          let (old, at, from, is) =
            new_tags-from s m it d tag l v (new_locs-from s m it d l tag e) in
          let lt = count-below (live d) old d.nd (ground (arith, from)) (v.live old tag from) in
          omega (arith, lt, is, n)

      hit : (l : ℕ) → l < left d → (tag : ℕ) × (m.find l (new_locs s m it d) ≡ some tag)
      hit l lt =
          let (old, less, on, is) = count-hits (live d) d.nd l (omega (arith, lt, n)) in
          let (tag, from) = value (m.find old d.location_to_tag) on in
          let at =
            new_tags-find s m it d tag old v (v.back old tag from)
            ∙ ap some (moved-count s m d old tag v from ∙ is) in
          (tag, new_locs-find s m it d tag l v at)
        where
          value : (o : Option ℕ) → is_some o ≡ true → (a : ℕ) × (o ≡ some a)
          value none e = absurd (ground (arith, e))
          value (some a) e = (a, refl)

      no_gap :
          (l : ℕ)
          → s.has l s.empty ≡ (ltb l (left d) && not (is_some (m.find l (new_locs s m it d))))
      no_gap l = elim (Bool-cases (ltb l (left d))) [
        | inl lt ↦ let (tag, e) = hit l (ground (arith, lt)) in ground (arith, s.has-empty l, lt, e)
        | inr past ↦ ground (arith, s.has-empty l, past)
      ]
