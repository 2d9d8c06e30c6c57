-- ===== src/Memory/Runs.antt =====
-- Any sequence of insertions, deletions and consolidations.
use hvs_disk.Base.{
  ℕ, ◌+◌, length, ◌≤◌, ◌<◌, ◌≡◌, refl, sym, ap, ◌∙◌, List, [], ◌∷◌, some, Bool, true, false, not,
  ◌&&◌, ◌||◌, arith, ◌==◌, Bool-cases, Option-cases, inl, inr, contains, IsDistinct,
}
use hvs_disk.Base.HashMap.{HashMap, Iterates}
use hvs_disk.Base.HashSet.{HashSet}
use hvs_disk.Memory.{
  Memory, is_some, created, enable_delete, place_tag, insert_point, lazy_delete, lazy_delete_all,
}
use hvs_disk.Memory.Compaction.{consolidate}
use hvs_disk.Memory.Calls.{Call, insert_tag, delete_tag, delete_tags, compact, step, run}
use hvs_disk.Memory.Valid.{IsValid, enable_delete-IsValid}
use hvs_disk.Memory.Insert.{IsInserted, place_tag-IsInserted}
use hvs_disk.Memory.Delete.{IsWithout, lazy_delete-IsWithout}
use hvs_disk.Memory.Delete.Many.{lazy_delete_all-IsDone}
use hvs_disk.Memory.Slots.{count-not}
use hvs_disk.Memory.Renumber.{has_tag}
use hvs_disk.Memory.Moves.{erase_first-left}
use hvs_disk.Memory.Renamed.{IsSettled}
use hvs_disk.Memory.Packed.{IsCompacted}
use hvs_disk.Memory.Consolidate.{consolidate-IsCompacted}

-- The set of tags that the calls promise.
abbrev pub tags_after : (ℕ → Bool) → List Call → ℕ → Bool
tags_after has [] = has
tags_after has (insert_tag t ∷ cs) = tags_after (λ j. (t == j) || has j) cs
tags_after has (delete_tag t ∷ cs) = tags_after (λ j. not (t == j) && has j) cs
tags_after has (delete_tags ts ∷ cs) = tags_after (λ j. not (contains ts j) && has j) cs
tags_after has (compact ∷ cs) = tags_after has cs

-- The tags of one call are a set.
abbrev pub AreSets : List Call → Type 0
AreSets [] = Unit
AreSets (delete_tags ts ∷ cs) = IsDistinct ts × AreSets cs
AreSets (c ∷ cs) = AreSets cs

tags_after-same :
    (cs : List Call) (f g : ℕ → Bool)
    → ((j : ℕ) → f j ≡ g j)
    → (j : ℕ) → tags_after f cs j ≡ tags_after g cs j
tags_after-same [] f g same = same
tags_after-same (insert_tag t ∷ cs) f g same =
    tags_after-same cs _ _ (λ j. ap (λ (b : Bool). (t == j) || b) (same j))
tags_after-same (delete_tag t ∷ cs) f g same =
    tags_after-same cs _ _ (λ j. ap (λ (b : Bool). not (t == j) && b) (same j))
tags_after-same (delete_tags ts ∷ cs) f g same =
    tags_after-same cs _ _ (λ j. ap (λ (b : Bool). not (contains ts j) && b) (same j))
tags_after-same (compact ∷ cs) f g same = tags_after-same cs f g same

module _ (s : HashSet) (m : HashMap ℕ) (it : Iterates m) where
  abbrev pub active : Memory s m → ℕ → Bool
  active d j = is_some (m.find j d.tag_to_location)

  inserted-active :
      (d d' : Memory s m) (tag l j : ℕ)
      → IsInserted s m d tag l d'
      → active d' j ≡ ((tag == j) || active d j)
  inserted-active d d' tag l j r = elim (Bool-cases (tag == j)) [
    | inl same ↦
        let q : tag ≡ j = ground (arith, same) in
        ground (arith, same, sym (ap (λ (x : ℕ). m.find x d'.tag_to_location) q) ∙ r.at)
    | inr other ↦ ground (arith, other, r.others j other)
  ]

  without-active :
      (d d' : Memory s m) (gone : ℕ → Bool) (j : ℕ)
      → IsWithout s m d gone d'
      → active d' j ≡ (not (gone j) && active d j)
  without-active d d' gone j r = elim (Bool-cases (gone j)) [
    | inl on ↦ ground (arith, on, r.removed j on)
    | inr off ↦ ground (arith, off, r.others j off)
  ]

  compacted-active : (d e : Memory s m) (j : ℕ) → IsCompacted s m it d e → active e j ≡ active d j
  compacted-active d e j c = elim (Option-cases (m.find j d.tag_to_location)) [
    | inl f ↦ ground (arith, c.gone j f, f)
    | inr (l, f) ↦ ground (arith, c.kept j l f, f)
  ]

  compacted-nd : (d e : Memory s m) → IsCompacted s m it d e → e.nd ≤ d.nd
  compacted-nd d e c = omega (arith, c.size, count-not (has_tag m d.location_to_tag) d.nd)

  -- The frozen point is not deleted.
  frozen-stays : (d : Memory s m) → IsValid s m d → s.has d.max_points d.delete_set ≡ false
  frozen-stays d v = ground (arith, v.deleted d.max_points, v.room)

  module _ (grow : ℕ → ℕ) (search : Memory s m → ℕ → List ℕ) (graph : Memory s m → ℕ → List ℕ)
      (limit : ℕ) (more : (n : ℕ) → 1 < n → n ≤ limit → n < grow n)
      (starts : (d : Memory s m) (l : ℕ) → contains (search d l) d.max_points ≡ true)
      (settled : (d : Memory s m) → IsValid s m d → IsSettled s m d (graph d)) where
    IsRun : Memory s m → (ℕ → Bool) → List Call → Type 0
    IsRun d has cs =
        (e : Memory s m) × (run s m it grow search graph d cs ≡ some e)
        × IsValid s m e
        × ((j : ℕ) → active e j ≡ tags_after has cs j)

    IsRun-step :
        (d d' : Memory s m) (c : Call) (cs : List Call) (has : ℕ → Bool)
        → step s m it grow search graph d c ≡ some d'
        → IsRun d' (active d') cs
        → ((j : ℕ) → active d' j ≡ has j)
        → ((j : ℕ) → tags_after has cs j ≡ tags_after (active d) (c ∷ cs) j)
        → IsRun d (active d) (c ∷ cs)
    unfolding run IsRun
    IsRun-step d d' c cs has e (x, ran, v, tags) same spec =
        (x, rw (run, e) ran, v, λ j. tags j ∙ (tags_after-same cs (active d') has same j ∙ spec j))

    -- The start node is a candidate other than the new location.
    inserted-step :
        (t l : ℕ) (d d' : Memory s m)
        → place_tag s m grow d t ≡ some (l, d')
        → IsInserted s m d t l d'
        → step s m it grow search graph d (insert_tag t) ≡ some d'
    unfolding step insert_point
    inserted-step t l d d' e r =
        let v = r.valid in
        let low = v.live l t (v.there t l r.at) in
        let left =
          erase_first-left l d'.max_points (search d' l) (starts d' l)
            (ground (arith, low, v.room)) in
        rw (step, insert_point, e, left) refl

    compact-step :
        (d e : Memory s m) (g' : ℕ → List ℕ)
        → consolidate s m it d.max_points (graph d) d ≡ some (d.max_points, (g', e))
        → step s m it grow search graph d compact ≡ some e
    unfolding step
    compact-step d e g' h = rw (step, h) refl

    IsRun-IsRun :
        (cs : List Call) (d : Memory s m)
        → IsValid s m d
        → AreSets cs
        → d.nd + length cs ≤ limit
        → IsRun d (active d) cs
    unfolding run step IsRun
    IsRun-IsRun [] d v sets few = (d, refl, v, λ j. refl)
    IsRun-IsRun (insert_tag t ∷ cs) d v sets few =
        let (l, d', e, r) =
          place_tag-IsInserted s m grow d t v
            (λ e. more d.max_points v.several (omega (arith, e, few))) in
        IsRun-step d d' (insert_tag t) cs _ (inserted-step t l d d' e r)
          (IsRun-IsRun cs d' r.valid sets (omega (arith, r.nd, few)))
          (λ j. inserted-active d d' t l j r) (λ j. refl)
    IsRun-IsRun (delete_tag t ∷ cs) d v sets few =
        let r = (lazy_delete-IsWithout s m d t v).1 in
        IsRun-step d (lazy_delete s m d t).1 (delete_tag t) cs _ refl
          (IsRun-IsRun cs (lazy_delete s m d t).1 r.valid sets (omega (arith, r.nd, few)))
          (λ j. without-active d (lazy_delete s m d t).1 (λ i. t == i) j r) (λ j. refl)
    IsRun-IsRun (delete_tags ts ∷ cs) d v sets few =
        let r = (lazy_delete_all-IsDone s m d ts v sets.0).1.without in
        IsRun-step d (lazy_delete_all s m d ts []).1.1 (delete_tags ts) cs _ refl
          (IsRun-IsRun cs (lazy_delete_all s m d ts []).1.1 r.valid sets.1
            (omega (arith, r.nd, few)))
          (λ j. without-active d (lazy_delete_all s m d ts []).1.1 (contains ts) j r) (λ j. refl)
    IsRun-IsRun (compact ∷ cs) d v sets few =
        let (g', e, h, c, lists) =
          consolidate-IsCompacted s m it d d.max_points (graph d) v (frozen-stays d v)
            (settled d v) in
        IsRun-step d e compact cs _ (compact-step d e g' h)
          (IsRun-IsRun cs e c.valid sets (omega (arith, few, compacted-nd d e c)))
          (λ j. compacted-active d e j c) (λ j. refl)

  -- After enable_delete on a new dynamic index with max_points above 1, no sequence of insertions,
  -- deletions (of one tag or of a set) and consolidations crashes, under three conditions: growth makes
  -- the index larger at every size from 2 to the number of calls; the start node, which is the frozen
  -- point, is among the candidates that the search gives an insertion; and in the repaired graph of a
  -- consolidation the points that stay (those with a tag, and the frozen one) lead only to such points.
  -- The invariant holds in the end: every slot below nd has a tag or is deleted, the others are empty,
  -- and the maps of tags and locations are inverse to each other. The active tags are those that were
  -- inserted and not deleted since.
  pub run-IsValid :
      (grow : ℕ → ℕ) (search : Memory s m → ℕ → List ℕ) (graph : Memory s m → ℕ → List ℕ)
      (max_points : ℕ) (enable_tags : Bool) (cs : List Call)
      → 1 < max_points
      → ((n : ℕ) → 1 < n → n ≤ length cs → n < grow n)
      → ((d : Memory s m) (l : ℕ) → contains (search d l) d.max_points ≡ true)
      → ((d : Memory s m) → IsValid s m d → IsSettled s m d (graph d))
      → AreSets cs
      → (e : Memory s m) × (run s m it grow search graph
            (enable_delete s m (created s m max_points true enable_tags)).1
            cs
          ≡ some e)
        × IsValid s m e
        × ((j : ℕ) → active e j ≡ tags_after (λ i. false) cs j)
  unfolding IsRun enable_delete
  run-IsValid grow search graph max_points enable_tags cs many more starts settled sets =
      let d = (enable_delete s m (created s m max_points true enable_tags)).1 in
      let (x, ran, v, tags) =
        IsRun-IsRun grow search graph (length cs) more starts settled cs d
          (enable_delete-IsValid s m max_points enable_tags many).1 sets (omega arith) in
      (
        x,
        ran,
        v,
        λ j.
            tags j
            ∙ tags_after-same cs (active d) (λ i. false) (λ i. ground (arith, m.find-empty i)) j,
      )
