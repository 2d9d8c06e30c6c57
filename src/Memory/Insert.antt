-- ===== src/Memory/Insert.antt =====
-- insert_point: the location that a tag gets.
use hvs_disk.Base.{
  ℕ, suc, ◌+◌, ◌≤◌, ◌<◌, ◌≡◌, refl, sym, ap, subst, ◌∙◌, none, some, true, false, arith, ◌==◌,
  Bool-cases, Option-cases, ◌⊎◌, inl, inr,
}
use hvs_disk.Base.HashMap.{HashMap}
use hvs_disk.Base.HashSet.{HashSet}
use hvs_disk.Memory.{Memory, reserved, drop_tag, drop_old, reserve_or_grow, set_tag, place_tag}
use hvs_disk.Memory.Valid.{IsValid, drop_tag-IsValid}
use hvs_disk.Memory.Reserve.{popped, reserve_or_grow-IsRoom}

module _ (s : HashSet) (m : HashMap ℕ) where
  -- The state with the location nd for a tag.
  abbrev took : ℕ → Memory s m → Memory s m
  took tag d = record d {
    empty_slots = s.erase d.nd d.empty_slots;
    nd = d.nd + 1;
    tag_to_location = m.insert_or_assign tag d.nd d.tag_to_location;
    location_to_tag = m.insert_or_assign d.nd tag d.location_to_tag;
  }

  unused : (d : Memory s m) (l : ℕ) → IsValid s m d → d.nd ≤ l → m.find l d.location_to_tag ≡ none
  unused d l v le = elim (Option-cases (m.find l d.location_to_tag)) [
    | inl e ↦ e
    | inr (t, e) ↦ absurd (omega (arith, v.live l t e, le))
  ]

  assigned :
      (t : m.Table) (k a j v : ℕ)
      → m.find j (m.insert_or_assign k a t) ≡ some v
      → (((k == j) ≡ true) × (a ≡ v)) ⊎ (((k == j) ≡ false) × (m.find j t ≡ some v))
  assigned t k a j v h = elim (Bool-cases (k == j)) [
    | inl e ↦ inl (e, ground (arith, m.find-insert_or_assign k j a t, h, e))
    | inr e ↦ inr (e, ground (arith, m.find-insert_or_assign k j a t, h, e))
  ]

  absent : (t : m.Table) (k j v : ℕ) → m.find k t ≡ none → m.find j t ≡ some v → (k == j) ≡ false
  absent t k j v e h = elim (Bool-cases (k == j)) [
    | inr ne ↦ ne
    | inl same ↦
        let q : k ≡ j = ground (arith, same) in
        absurd (ground (arith, sym e ∙ (ap (λ (x : ℕ). m.find x t) q ∙ h)))
  ]

  took-IsValid :
      (d : Memory s m) (tag : ℕ)
      → IsValid s m d
      → d.nd < d.max_points
      → m.find tag d.tag_to_location ≡ none
      → IsValid s m (took tag d)
  took-IsValid d tag v lt e = record {
    enabled = v.enabled;
    dynamic = v.dynamic;
    compacted = v.compacted;
    eager = v.eager;
    lazy = v.lazy;
    several = v.several;
    room = omega (arith, lt);
    empties = λ l. ground (arith, s.has-erase d.nd l d.empty_slots, v.empties l);
    deleted =
        λ l. ground (arith, v.deleted l, m.find-insert_or_assign d.nd l tag d.location_to_tag);
    live = λ l t h. elim (assigned d.location_to_tag d.nd tag l t h) [
      | inl (same, w) ↦ ground (arith, same)
      | inr (ne, h') ↦ omega (arith, v.live l t h')
    ];
    there = λ t l h. elim (assigned d.tag_to_location tag d.nd t l h) [
      | inl (same, w) ↦
          ground (arith, m.find-insert_or_assign d.nd l tag d.location_to_tag, same, w)
      | inr (ne, h') ↦ ground (
        arith,
        m.find-insert_or_assign d.nd l tag d.location_to_tag,
        v.there t l h',
        v.live l t (v.there t l h'),
      )
    ];
    back = λ l t h. elim (assigned d.location_to_tag d.nd tag l t h) [
      | inl (same, w) ↦
          ground (arith, m.find-insert_or_assign tag t d.nd d.tag_to_location, same, w)
      | inr (ne, h') ↦ ground (
        arith,
        m.find-insert_or_assign tag t d.nd d.tag_to_location,
        v.back l t h',
        absent d.tag_to_location tag t l e (v.back l t h'),
      )
    ];
  }

  -- What an insertion does: the tag has a location that was neither deleted nor another tag's, and
  -- the other tags keep theirs.
  pub record IsInserted (d : Memory s m) (tag location : ℕ) (d' : Memory s m) : Type 0 where
    pub valid : IsValid s m d'
    pub at : m.find tag d'.tag_to_location ≡ some location
    pub nd : d'.nd ≡ suc d.nd
    pub new : m.find location d.location_to_tag ≡ none
    pub not_deleted : s.has location d.delete_set ≡ false
    pub others :
        (j : ℕ) → (tag == j) ≡ false → m.find j d'.tag_to_location ≡ m.find j d.tag_to_location

  record IsDropped (d : Memory s m) (tag : ℕ) (d' : Memory s m) : Type 0 where
    valid : IsValid s m d'
    nd : d'.nd ≡ d.nd
    max_points : d'.max_points ≡ d.max_points
    gone : m.find tag d'.tag_to_location ≡ none
    others : (j : ℕ) → (tag == j) ≡ false → m.find j d'.tag_to_location ≡ m.find j d.tag_to_location

  drop_old-none :
      (d : Memory s m) (tag : ℕ) → m.find tag d.tag_to_location ≡ none → drop_old s m tag d ≡ d
  unfolding drop_old
  drop_old-none d tag e = rw (drop_old, e) refl

  drop_old-some :
      (d : Memory s m) (tag l : ℕ)
      → d.enable_tags ≡ true
      → m.find tag d.tag_to_location ≡ some l
      → drop_old s m tag d ≡ drop_tag s m tag l (record d { lazy_done = true })
  unfolding drop_old
  drop_old-some d tag l on e = rw (drop_old, e, on) refl

  drop_old-IsDropped :
      (d : Memory s m) (tag : ℕ) → IsValid s m d → IsDropped d tag (drop_old s m tag d)
  drop_old-IsDropped d tag v = elim (Option-cases (m.find tag d.tag_to_location)) [
    | inl e ↦
        let r : IsDropped d tag d = record {
          valid = v;
          nd = refl;
          max_points = refl;
          gone = e;
          others = λ j ne. refl;
        } in
        subst (IsDropped d tag) (sym (drop_old-none d tag e)) r
    | inr (l, e) ↦
        let r : IsDropped d tag (drop_tag s m tag l (record d { lazy_done = true })) = record {
          valid = drop_tag-IsValid s m d tag l v e;
          nd = refl;
          max_points = refl;
          gone = ground (arith, m.find-erase tag tag d.tag_to_location);
          others = λ j ne. ground (arith, m.find-erase tag j d.tag_to_location, ne);
        } in
        subst (IsDropped d tag) (sym (drop_old-some d tag l v.enabled e)) r
  ]

  -- Under the invariant an insertion gets a location, provided that the growth of a full index makes it
  -- larger.
  pub place_tag-IsInserted :
      (grow : ℕ → ℕ) (d : Memory s m) (tag : ℕ)
      → IsValid s m d
      → (d.nd ≡ d.max_points → d.max_points < grow d.max_points)
      → (location : ℕ) × (d' : Memory s m) × (place_tag s m grow d tag ≡ some (location, d'))
        × IsInserted d tag location d'
  unfolding place_tag
  place_tag-IsInserted grow d tag v more =
      let r = drop_old-IsDropped d tag v in
      let d1 = drop_old s m tag d in
      let (g, run, room) = reserve_or_grow-IsRoom s m grow d1 r.valid (λ e.
        subst (λ (n : ℕ). n < grow n) (sym r.max_points) (more (sym r.nd ∙ (e ∙ r.max_points)))) in
      let same = λ (j : ℕ). ap (m.find j) room.tags in
      (
        g.nd,
        took tag g,
        inserted d1 g run,
        record {
          valid = took-IsValid g tag room.valid room.free (same tag ∙ r.gone);
          at = ground (arith, m.find-insert_or_assign tag tag g.nd g.tag_to_location);
          nd = omega (arith, room.nd, r.nd);
          new = unused d g.nd v (omega (arith, room.nd, r.nd));
          not_deleted = ground (arith, v.deleted g.nd, room.nd, r.nd);
          others = λ j ne.
              ground (arith, m.find-insert_or_assign tag j g.nd g.tag_to_location, ne)
              ∙ (same j ∙ r.others j ne);
        },
      )
    where
      inserted :
          (d1 g : Memory s m)
          → reserve_or_grow s m grow d1 ≡ reserved g.nd (popped s m g)
          → set_tag s m tag (reserve_or_grow s m grow d1) ≡ some (g.nd, took tag g)
      inserted d1 g e = rw (set_tag, e) refl
