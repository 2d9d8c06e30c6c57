-- ===== src/Memory/Delete.antt =====
-- lazy_delete of one tag, and of many (Many).
pub mod Many
use hvs_disk.Base.{
  ℕ, ◌≡◌, refl, sym, ap, subst, ◌∙◌, List, [], ◌∷◌, ◌++◌, Option, none, some, Bool, true, false,
  not, ◌&&◌, ◌||◌, arith, ◌==◌, Bool-cases, Option-cases, inl, inr, contains, contains-append,
  IsDistinct,
}
use hvs_disk.Base.Int.{ℤ, pos, negsuc}
use hvs_disk.Base.HashMap.{HashMap}
use hvs_disk.Base.HashSet.{HashSet}
use hvs_disk.Memory.{Memory, drop_tag, is_some, lazy_delete, lazy_delete_all, drop_tags}
use hvs_disk.Memory.Valid.{IsValid, drop_tag-IsValid}

module _ (s : HashSet) (m : HashMap ℕ) where
  -- Tags that a test selects are gone, the others keep their locations.
  pub record IsWithout (d : Memory s m) (gone : ℕ → Bool) (d' : Memory s m) : Type 0 where
    pub valid : IsValid s m d'
    pub removed : (j : ℕ) → gone j ≡ true → m.find j d'.tag_to_location ≡ none
    pub others : (j : ℕ) → gone j ≡ false → m.find j d'.tag_to_location ≡ m.find j d.tag_to_location
    pub deleted :
        (j l : ℕ)
        → gone j ≡ true
        → m.find j d.tag_to_location ≡ some l
        → s.has l d'.delete_set ≡ true
    pub nd : d'.nd ≡ d.nd
    pub still : (l : ℕ) → s.has l d.delete_set ≡ true → s.has l d'.delete_set ≡ true

  pub noted : (d : Memory s m) → IsValid s m d → IsValid s m (record d { lazy_done = true })
  noted d v = record {
    enabled = v.enabled;
    dynamic = v.dynamic;
    compacted = v.compacted;
    eager = v.eager;
    lazy = λ l h. refl;
    several = v.several;
    room = v.room;
    empties = v.empties;
    deleted = v.deleted;
    live = v.live;
    there = v.there;
    back = v.back;
  }

  lazy_delete-none :
      (d : Memory s m) (tag : ℕ)
      → d.eager_done ≡ false
      → m.find tag d.tag_to_location ≡ none
      → lazy_delete s m d tag ≡ (negsuc 0, record d { lazy_done = true })
  unfolding lazy_delete
  lazy_delete-none d tag off e = simp (off, e) refl

  lazy_delete-some :
      (d : Memory s m) (tag l : ℕ)
      → d.eager_done ≡ false
      → m.find tag d.tag_to_location ≡ some l
      → lazy_delete s m d tag ≡ (pos 0, drop_tag s m tag l (record d { lazy_done = true }))
  unfolding lazy_delete
  lazy_delete-some d tag l off e = simp (off, e) refl

  same_location :
      (d : Memory s m) (tag l j l' : ℕ)
      → m.find tag d.tag_to_location ≡ some l
      → m.find j d.tag_to_location ≡ some l'
      → (tag == j) ≡ true
      → (l == l') ≡ true
  same_location d tag l j l' e e' same =
      let q : tag ≡ j = ground (arith, same) in
      ground (arith, sym e ∙ (ap (λ (x : ℕ). m.find x d.tag_to_location) q ∙ e'))

  pub dropped :
      (d : Memory s m) (tag l : ℕ)
      → IsValid s m d
      → m.find tag d.tag_to_location ≡ some l
      → IsWithout d (λ j. tag == j) (drop_tag s m tag l (record d { lazy_done = true }))
  dropped d tag l v e = record {
    valid = drop_tag-IsValid s m d tag l v e;
    removed = λ j same. ground (arith, m.find-erase tag j d.tag_to_location, same);
    others = λ j ne. ground (arith, m.find-erase tag j d.tag_to_location, ne);
    deleted = λ j l' same e'.
        ground (arith, s.has-insert l l' d.delete_set, same_location d tag l j l' e e' same);
    nd = refl;
    still = λ l' h. ground (arith, s.has-insert l l' d.delete_set, h);
  }

  pub missing :
      (d : Memory s m) (tag j : ℕ)
      → m.find tag d.tag_to_location ≡ none
      → (tag == j) ≡ true
      → m.find j d.tag_to_location ≡ none
  missing d tag j e same =
      let q : tag ≡ j = ground (arith, same) in
      subst (λ (x : ℕ). m.find x d.tag_to_location ≡ none) q e

  pub missed :
      (d : Memory s m) (tag : ℕ)
      → IsValid s m d
      → m.find tag d.tag_to_location ≡ none
      → IsWithout d (λ j. tag == j) (record d { lazy_done = true })
  missed d tag v e = record {
    valid = noted d v;
    removed = λ j same. missing d tag j e same;
    others = λ j ne. refl;
    deleted = λ j l same e'. absurd (ground (arith, missing d tag j e same, e'));
    nd = refl;
    still = λ l h. h;
  }

  -- The code that lazy_delete returns: 0, or -1 for a tag that is not there.
  abbrev pub code_of : Option ℕ → ℤ
  code_of none = negsuc 0
  code_of (some l) = pos 0

  pub lazy_delete-IsWithout :
      (d : Memory s m) (tag : ℕ)
      → IsValid s m d
      → ((lazy_delete s m d tag).0 ≡ code_of (m.find tag d.tag_to_location))
        × IsWithout d (λ j. tag == j) (lazy_delete s m d tag).1
  lazy_delete-IsWithout d tag v = elim (Option-cases (m.find tag d.tag_to_location)) [
    | inl e ↦
        let run = lazy_delete-none d tag v.eager e in
        let kept = missed d tag v e in
        (
          ap (λ (r : ℤ × Memory s m). r.0) run ∙ sym (ap code_of e),
          subst (λ (r : ℤ × Memory s m). IsWithout d (λ j. tag == j) r.1) (sym run) kept,
        )
    | inr (l, e) ↦
        let run = lazy_delete-some d tag l v.eager e in
        (
          ap (λ (r : ℤ × Memory s m). r.0) run ∙ sym (ap code_of e),
          subst (λ (r : ℤ × Memory s m). IsWithout d (λ j. tag == j) r.1) (sym run)
              (dropped d tag l v e),
        )
  ]
