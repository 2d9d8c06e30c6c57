-- ===== src/Memory/Delete/Many.antt =====
-- lazy_delete of many tags: the loop.
use hvs_disk.Base.{
  ℕ, ◌≡◌, refl, sym, ap, subst, ◌∙◌, List, [], ◌∷◌, ◌++◌, none, some, Bool, true, false, not, ◌&&◌,
  ◌||◌, arith, ◌==◌, Bool-cases, Option-cases, inl, inr, contains, contains-append, IsDistinct,
}
use hvs_disk.Base.Int.{ℤ, pos}
use hvs_disk.Base.HashMap.{HashMap}
use hvs_disk.Base.HashSet.{HashSet}
use hvs_disk.Memory.{Memory, drop_tag, is_some, lazy_delete_all, drop_tags}
use hvs_disk.Memory.Valid.{IsValid}
use hvs_disk.Memory.Delete.{IsWithout, noted, dropped, missing, missed}

module _ (s : HashSet) (m : HashMap ℕ) where
  both :
      (d d' : Memory s m) (f g : ℕ → Bool) (e : Memory s m)
      → IsWithout s m d f d'
      → IsWithout s m d' g e
      → IsWithout s m d (λ j. f j || g j) e
  both d d' f g e a b = record {
    valid = b.valid;
    removed = λ j on. elim (Bool-cases (g j)) [
      | inl now ↦ b.removed j now
      | inr before ↦ b.others j before ∙ a.removed j (ground (arith, on, before))
    ];
    others = λ j off. b.others j (ground (arith, off)) ∙ a.others j (ground (arith, off));
    deleted = λ j l on here. elim (Bool-cases (f j)) [
      | inl before ↦ b.still l (a.deleted j l before here)
      | inr now ↦ b.deleted j l (ground (arith, on, now)) (a.others j now ∙ here)
    ];
    nd = b.nd ∙ a.nd;
    still = λ l h. b.still l (a.still l h);
  }

  -- The loop, when lazy_done is set: all the tags are gone, and the ones that had no location are
  -- added to the failed ones.
  pub record IsDone (d : Memory s m) (tags failed : List ℕ) (r : List ℕ × Memory s m) : Type 0 where
    pub without : IsWithout s m d (contains tags) r.1
    pub failures :
        (j : ℕ)
        → contains r.0 j
          ≡ (contains failed j || (contains tags j && not (is_some (m.find j d.tag_to_location))))

  first :
      (d : Memory s m) (tag l j : ℕ) (tags : List ℕ)
      → m.find tag d.tag_to_location ≡ some l
      → contains tags tag ≡ false
      → (tag == j) ≡ true
      → (contains tags j ≡ false) × (m.find j d.tag_to_location ≡ some l)
  first d tag l j tags e out same =
      let q : tag ≡ j = ground (arith, same) in
      (
        subst (λ (x : ℕ). contains tags x ≡ false) q out,
        subst (λ (x : ℕ). m.find x d.tag_to_location ≡ some l) q e,
      )

  drop_tags-none :
      (d : Memory s m) (tag : ℕ) (tags failed : List ℕ)
      → m.find tag d.tag_to_location ≡ none
      → drop_tags s m (tag ∷ tags) failed d ≡ drop_tags s m tags (failed ++ tag ∷ []) d
  unfolding drop_tags
  drop_tags-none d tag tags failed e = rw (drop_tags, e) refl

  drop_tags-some :
      (d : Memory s m) (tag l : ℕ) (tags failed : List ℕ)
      → m.find tag d.tag_to_location ≡ some l
      → drop_tags s m (tag ∷ tags) failed d ≡ drop_tags s m tags failed (drop_tag s m tag l d)
  unfolding drop_tags
  drop_tags-some d tag l tags failed e = rw (drop_tags, e) refl

  drop_tags-IsDone :
      (tags failed : List ℕ) (d : Memory s m)
      → IsValid s m d
      → IsDistinct tags
      → IsDone d tags failed (drop_tags s m tags failed (record d { lazy_done = true }))
  unfolding drop_tags
  drop_tags-IsDone [] failed d v distinct = record {
    without = record {
      valid = noted s m d v;
      removed = λ j on. absurd (ground (arith, on));
      others = λ j off. refl;
      deleted = λ j l on e. absurd (ground (arith, on));
      nd = refl;
      still = λ l h. h;
    };
    failures = λ j. ground arith;
  }
  drop_tags-IsDone (tag ∷ tags) failed d v distinct =
      elim (Option-cases (m.find tag d.tag_to_location)) [
        | inl e ↦
            let n : Memory s m = record d { lazy_done = true } in
            let rest = drop_tags-IsDone tags (failed ++ tag ∷ []) n (noted s m d v) distinct.1 in
            let r : IsDone d (tag ∷ tags) failed (drop_tags s m tags (failed ++ tag ∷ []) n) =
              record {
                without =
                    both d n (λ j. tag == j) (contains tags) _ (missed s m d tag v e) rest.without;
                failures = λ j. ground (
                  arith,
                  rest.failures j,
                  contains-append failed (tag ∷ []) j,
                  missing s m d tag j e,
                );
              } in
            subst (IsDone d (tag ∷ tags) failed) (sym (drop_tags-none n tag tags failed e)) r
        | inr (l, e) ↦
            let n : Memory s m = record d { lazy_done = true } in
            let now = dropped s m d tag l v e in
            let rest = drop_tags-IsDone tags failed (drop_tag s m tag l n) now.valid distinct.1 in
            let r : IsDone d (tag ∷ tags) failed
                (drop_tags s m tags failed (drop_tag s m tag l n)) =
              record {
                without =
                    both d (drop_tag s m tag l n) (λ j. tag == j) (contains tags) _ now
                      rest.without;
                failures = λ j. elim (Bool-cases (tag == j)) [
                  | inl same ↦
                      let (out, here) = first d tag l j tags e distinct.0 same in
                      ground (arith, rest.failures j, out, here, same)
                  | inr other ↦
                      ground (arith, rest.failures j, m.find-erase tag j d.tag_to_location, other)
                ];
              } in
            subst (IsDone d (tag ∷ tags) failed) (sym (drop_tags-some n tag l tags failed e)) r
      ]

  -- Under the invariant, lazy_delete of many distinct tags with an empty list of failed ones returns
  -- 0 and keeps the invariant; the tags are gone and their slots deleted, the other tags stay, and the
  -- failed ones are those that had no location.
  pub lazy_delete_all-IsDone :
      (d : Memory s m) (tags : List ℕ)
      → IsValid s m d
      → IsDistinct tags
      → ((lazy_delete_all s m d tags []).0 ≡ pos 0)
        × IsDone d tags [] (lazy_delete_all s m d tags []).1
  unfolding lazy_delete_all
  lazy_delete_all-IsDone d tags v distinct =
      let run : lazy_delete_all s m d tags []
          ≡ (pos 0, drop_tags s m tags [] (record d { lazy_done = true })) =
        simp (v.eager) refl in
      (
        ap (λ (r : ℤ × (List ℕ × Memory s m)). r.0) run,
        subst (λ (r : ℤ × (List ℕ × Memory s m)). IsDone d tags [] r.1) (sym run)
            (drop_tags-IsDone tags [] d v distinct),
      )
