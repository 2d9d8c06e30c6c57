-- ===== src/Memory/Valid.antt =====
-- What holds between the calls, and the calls that delete and reserve.
use hvs_disk.Base.{
  ℕ, ◌-◌, ◌≤◌, ◌<◌, ◌≡◌, refl, sym, ap, ◌∙◌, some, Bool, true, false, not, ◌&&◌, arith, ltb, leb,
  ◌==◌, Bool-cases, inl, inr,
}
use hvs_disk.Base.Int.{pos}
use hvs_disk.Base.HashMap.{HashMap}
use hvs_disk.Base.HashSet.{HashSet}
use hvs_disk.Memory.{Memory, created, enable_delete, drop_tag, is_some, resize}
use hvs_disk.Memory.Slots.{has-insert_slots}

module _ (s : HashSet) (m : HashMap ℕ) where
  -- The slots from nd on are the empty ones; below nd each has a tag or is deleted, never both; the
  -- maps of tags and locations are inverse to each other.
  pub record IsValid (d : Memory s m) : Type 0 where
    pub enabled : d.enable_tags ≡ true
    pub dynamic : d.dynamic_index ≡ true
    pub compacted : d.data_compacted ≡ true
    pub eager : d.eager_done ≡ false
    pub lazy : (l : ℕ) → s.has l d.delete_set ≡ true → d.lazy_done ≡ true
    pub several : 1 < d.max_points
    pub room : d.nd ≤ d.max_points
    pub empties : (l : ℕ) → s.has l d.empty_slots ≡ (leb d.nd l && ltb l d.max_points)
    pub deleted :
        (l : ℕ) → s.has l d.delete_set ≡ (ltb l d.nd && not (is_some (m.find l d.location_to_tag)))
    pub live : (l tag : ℕ) → m.find l d.location_to_tag ≡ some tag → l < d.nd
    pub there :
        (tag l : ℕ) → m.find tag d.tag_to_location ≡ some l → m.find l d.location_to_tag ≡ some tag
    pub back :
        (l tag : ℕ) → m.find l d.location_to_tag ≡ some tag → m.find tag d.tag_to_location ≡ some l

  -- Two values at the same key.
  one_value :
      (t : m.Table) (i j a b : ℕ)
      → m.find i t ≡ some a
      → m.find j t ≡ some b
      → (i == j) ≡ true
      → a ≡ b
  one_value t i j a b ea eb same =
      let q : i ≡ j = ground (arith, same) in
      ground (arith, sym ea ∙ (ap (λ (x : ℕ). m.find x t) q ∙ eb))

  pub erased :
      (t : m.Table) (k j v : ℕ)
      → m.find j (m.erase k t) ≡ some v
      → ((k == j) ≡ false) × (m.find j t ≡ some v)
  erased t k j v h = elim (Bool-cases (k == j)) [
    | inl e ↦ absurd (ground (arith, m.find-erase k j t, h, e))
    | inr e ↦ (e, ground (arith, m.find-erase k j t, h, e))
  ]

  pub kept :
      (t : m.Table) (k j v : ℕ)
      → (k == j) ≡ false
      → m.find j t ≡ some v
      → m.find j (m.erase k t) ≡ some v
  kept t k j v ne h = ground (arith, m.find-erase k j t, h, ne)

  pub differ :
      (t : m.Table) (i j a b : ℕ)
      → m.find i t ≡ some a
      → m.find j t ≡ some b
      → (a == b) ≡ false
      → (i == j) ≡ false
  differ t i j a b ea eb ne = elim (Bool-cases (i == j)) [
    | inr e ↦ e
    | inl e ↦ absurd (ground (arith, one_value t i j a b ea eb e, ne))
  ]

  pub drop_tag-IsValid :
      (d : Memory s m) (tag l : ℕ)
      → IsValid d
      → m.find tag d.tag_to_location ≡ some l
      → IsValid (drop_tag s m tag l (record d { lazy_done = true }))
  drop_tag-IsValid d tag l v e = record {
    enabled = v.enabled;
    dynamic = v.dynamic;
    compacted = v.compacted;
    eager = v.eager;
    lazy = λ j h. refl;
    several = v.several;
    room = v.room;
    empties = v.empties;
    deleted = λ j. ground (
      arith,
      s.has-insert l j d.delete_set,
      m.find-erase l j d.location_to_tag,
      v.deleted j,
      v.live l tag (v.there tag l e),
    );
    live = λ j t h. v.live j t (erased d.location_to_tag l j t h).1;
    there = λ t j h.
        let (ne, g) = erased d.tag_to_location tag t j h in
        let at = v.there t j g in
        kept d.location_to_tag l j t (differ d.location_to_tag l j tag t (v.there tag l e) at ne)
          at;
    back = λ j t h.
        let (ne, g) = erased d.location_to_tag l j t h in
        let at = v.back j t g in
        kept d.tag_to_location tag t j (differ d.tag_to_location tag t l j e at ne) at;
  }

  -- The first state that enable_delete makes from that of the constructor.
  pub enable_delete-IsValid :
      (max_points : ℕ) (enable_tags : Bool)
      → 1 < max_points
      → (enable_delete s m (created s m max_points true enable_tags)).0 ≡ pos 0
        × IsValid (enable_delete s m (created s m max_points true enable_tags)).1
  unfolding enable_delete
  enable_delete-IsValid max_points enable_tags many =
      let max = (created s m max_points true enable_tags).max_points in
      (
        refl,
        record {
          enabled = refl;
          dynamic = refl;
          compacted = refl;
          eager = refl;
          lazy = λ l h. absurd (ground (arith, s.has-empty l, h));
          several = ground (arith, many);
          room = omega arith;
          empties = λ l. ground (arith, has-insert_slots s m max 0 l s.empty, s.has-empty l);
          deleted = λ l. ground (arith, s.has-empty l);
          live = λ l t h. absurd (ground (arith, m.find-empty l, h));
          there = λ t l h. absurd (ground (arith, m.find-empty t, h));
          back = λ l t h. absurd (ground (arith, m.find-empty l, h));
        },
      )

  pub resize-IsValid :
      (d : Memory s m) (new_max_points : ℕ)
      → IsValid d
      → d.max_points ≤ new_max_points
      → IsValid (resize s m new_max_points d)
  unfolding resize
  resize-IsValid d new_max_points v le = record {
    enabled = v.enabled;
    dynamic = v.dynamic;
    compacted = v.compacted;
    eager = v.eager;
    lazy = v.lazy;
    several = omega (arith, v.several, le);
    room = omega (arith, v.room, le);
    empties = λ l. ground (
      arith,
      has-insert_slots s m (new_max_points - d.nd) d.nd l d.empty_slots,
      v.empties l,
      v.room,
      le,
    );
    deleted = v.deleted;
    live = v.live;
    there = v.there;
    back = v.back;
  }
