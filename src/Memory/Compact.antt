-- ===== src/Memory/Compact.antt =====
-- consolidate: deleted slots become empty, and the others are numbered without gaps.
use hvs_disk.Base.{
  ℕ, ◌+◌, ◌<◌, ◌≡◌, refl, sym, ap, subst, ◌∙◌, List, some, true, false, not, arith, length, get_or,
  contains, Bool-cases, inl, inr, All,
}
use hvs_disk.Base.HashMap.{HashMap, Iterates}
use hvs_disk.Base.HashSet.{HashSet}
use hvs_disk.Memory.{Memory}
use hvs_disk.Memory.Compaction.{
  new_locations, refill, cleared, compact_slots, with_moved, with_start, compact_data,
}
use hvs_disk.Memory.Moving.{new_start, move_points}
use hvs_disk.Memory.Slots.{count, count-same, count-not, count-contains, All-contains}
use hvs_disk.Memory.Renumber.{
  has_tag, count-injective, get_or-new_locations, refill_sound, refill_complete,
}
use hvs_disk.Memory.Valid.{IsValid}

module _ (s : HashSet) (m : HashMap ℕ) where
  -- The number of deleted slots and of slots with a tag.
  pub deleted_live :
      (d : Memory s m)
      → IsValid s m d
      → length (s.elements d.delete_set) + count (has_tag m d.location_to_tag) d.nd ≡ d.nd
  deleted_live d v =
      let xs = s.elements d.delete_set in
      let below : All (λ (x : ℕ). x < d.nd) xs =
        All-contains xs
          (λ x e. ground (arith, s.contains-elements d.delete_set x, v.deleted x, e)) in
      let sized = count-contains xs d.nd (s.elements-IsDistinct d.delete_set) below in
      let same =
        count-same (contains xs) (λ i. not (has_tag m d.location_to_tag i)) d.nd
          (λ i lt. ground (arith, s.contains-elements d.delete_set i, v.deleted i, lt)) in
      omega (arith, sized, same, count-not (has_tag m d.location_to_tag) d.nd)

  -- The new location of an old one.
  abbrev pub moved : Memory s m → ℕ → ℕ
  moved d old = get_or (new_locations m d.location_to_tag d.max_points (d.max_points + 1) 0 0) old 0

  pub moved-count :
      (d : Memory s m) (l tag : ℕ)
      → IsValid s m d
      → m.find l d.location_to_tag ≡ some tag
      → moved d l ≡ count (has_tag m d.location_to_tag) l
  moved-count d l tag v e = omega (
    arith,
    get_or-new_locations m d.location_to_tag d.max_points (d.max_points + 1) 0 0 l l 0 (omega arith)
        (omega (arith, v.live l tag e, v.room)) (ground (arith, e)),
  )

  module _ (it : Iterates m) where
    abbrev pub new_tags : Memory s m → m.Table
    new_tags d = refill m (moved d) (it.entries d.location_to_tag) m.empty

    abbrev pub new_locs : Memory s m → m.Table
    new_locs d = refill m (λ (l : ℕ). l) (it.entries (new_tags d)) m.empty

    pub new_tags-find :
        (d : Memory s m) (tag l : ℕ)
        → IsValid s m d
        → m.find tag d.tag_to_location ≡ some l
        → m.find tag (new_tags d) ≡ some (moved d l)
    new_tags-find d tag l v e =
        let (w, found) = refill_complete m (moved d) it d.location_to_tag l tag (v.there tag l e) in
        let (a, from, at) = refill_sound m (moved d) it d.location_to_tag tag w found in
        let same : a ≡ l = ground (arith, sym (v.back a tag from) ∙ e) in
        found ∙ ap some (at ∙ ap (moved d) same)

    -- Whatever stands in the new map of tags came from the old one.
    pub new_tags-from :
        (d : Memory s m) (tag w : ℕ)
        → IsValid s m d
        → m.find tag (new_tags d) ≡ some w
        → (l : ℕ) × (m.find tag d.tag_to_location ≡ some l)
          × (m.find l d.location_to_tag ≡ some tag)
          × (w ≡ count (has_tag m d.location_to_tag) l)
    new_tags-from d tag w v e =
        let (l, from, at) = refill_sound m (moved d) it d.location_to_tag tag w e in
        (l, v.back l tag from, from, at ∙ moved-count d l tag v from)

    pub new_locs-from :
        (d : Memory s m) (w tag : ℕ)
        → m.find w (new_locs d) ≡ some tag
        → m.find tag (new_tags d) ≡ some w
    new_locs-from d w tag e =
        let (a, from, at) = refill_sound m (λ l. l) it (new_tags d) w tag e in
        subst (λ (x : ℕ). m.find x (new_tags d) ≡ some w) (sym at) from

    -- Two tags with the same new location are the same.
    one-tag :
        (d : Memory s m) (t t' w : ℕ)
        → IsValid s m d
        → m.find t (new_tags d) ≡ some w
        → m.find t' (new_tags d) ≡ some w
        → t ≡ t'
    one-tag d t t' w v e e' =
        let (l, at, from, is) = new_tags-from d t w v e in
        let (l', at', from', is') = new_tags-from d t' w v e' in
        let q =
          count-injective (has_tag m d.location_to_tag) l l' (ground (arith, from))
            (ground (arith, from')) (sym is ∙ is') in
        ground (arith, sym from ∙ ap (λ (x : ℕ). m.find x d.location_to_tag) q ∙ from')

    pub new_locs-find :
        (d : Memory s m) (tag w : ℕ)
        → IsValid s m d
        → m.find tag (new_tags d) ≡ some w
        → m.find w (new_locs d) ≡ some tag
    new_locs-find d tag w v e =
        let (t, found) = refill_complete m (λ l. l) it (new_tags d) tag w e in
        found ∙ ap some (one-tag d t tag w v (new_locs-from d w t found) e)

    pub compact_data-moves :
        (c : Memory s m) (ep : ℕ) (g g' : ℕ → List ℕ)
        → c.dynamic_index ≡ true
        → c.lazy_done ≡ true
        → c.data_compacted ≡ false
        → s.has ep c.delete_set ≡ false
        → move_points (moved c) c.max_points (c.max_points + 1) 0 g ≡ some g'
        → compact_data s m it ep g c ≡ some (ep, (cleared s m it c g', compact_slots s m it c))
    unfolding compact_data
    compact_data-moves c ep g g' dynamic on old out run =
        let start : new_start (λ (l : ℕ). s.has l c.delete_set) ep (g ep) ≡ some ep = rw out refl in
        let go : compact_data s m it ep g c
            ≡ with_start s m it c g (new_start (λ (l : ℕ). s.has l c.delete_set) ep (g ep)) =
          simp (dynamic, on, old) refl in
        go ∙ ap (with_start s m it c g) start ∙ ap (with_moved s m it c ep) run

    pub compact_data-stays :
        (c : Memory s m) (ep : ℕ) (g : ℕ → List ℕ)
        → c.data_compacted ≡ true
        → compact_data s m it ep g c ≡ some (ep, (g, c))
    unfolding compact_data
    compact_data-stays c ep g e = elim (Bool-cases c.dynamic_index) [
      | inr off ↦ simp (off) refl
      | inl on ↦ elim (Bool-cases c.lazy_done) [
        | inl lazy ↦ simp (on, lazy, e) refl
        | inr other ↦ elim (Bool-cases c.eager_done) [
          | inl eager ↦ simp (on, other, eager, e) refl
          | inr no_eager ↦ simp (on, other, no_eager) refl
        ]
      ]
    ]
