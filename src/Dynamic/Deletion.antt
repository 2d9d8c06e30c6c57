-- ===== src/Dynamic/Deletion.antt =====
-- The deletion epochs over any history of calls.
use hvs_disk.Base.{
  ℕ, ◌≡◌, refl, ap, ◌∙◌, List, [], ◌∷◌, ◌++◌, Bool, true, false, not, arith, if◌then◌else◌,
  contains, IsDistinct, IsDistinct-push, contains-append, Bool-cases, inl, inr,
}
use hvs_disk.Base.HashMap.{HashMap}
use hvs_disk.Dynamic.{
  Dynamic, Epoch, epoch, is_deleted, init, lazy_delete, save_del_set, Call, delete_tag, merge_epoch,
  step, run,
}

module _ (h : HashMap (Unit {0})) where
  -- The set and the list of an epoch hold the same tags, and the list holds each once.
  pub record Agrees (e : Epoch h) : Type 0 where
    pub same : (t : ℕ) → is_deleted h e t ≡ contains e.deleted_tags t
    pub distinct : IsDistinct e.deleted_tags

  -- Both epochs agree, the active one accepts deletions, and the other does not.
  pub record IsValid (d : Dynamic h) : Type 0 where
    pub first : Agrees d.epoch0
    pub second : Agrees d.epoch1
    pub accepts : (epoch h d.active_delete_set d).active_del ≡ true
    pub refuses : (epoch h (not d.active_delete_set) d).active_del ≡ false

  empty-Agrees :
      (b : Bool) → Agrees (record { deletion_set = h.empty; deleted_tags = []; active_del = b })
  empty-Agrees b = record { same = λ t. rw (h.find-empty t); distinct = tt }

  flag-Agrees : (e : Epoch h) (b : Bool) → Agrees e → Agrees (record e { active_del = b })
  flag-Agrees e b a = record { same = a.same; distinct = a.distinct }

  push-Agrees :
      (e : Epoch h) (t : ℕ)
      → Agrees e
      → is_deleted h e t ≡ false
      → Agrees (record e {
        deletion_set = h.insert_or_assign t tt e.deletion_set;
        deleted_tags = e.deleted_tags ++ t ∷ [];
      })
  push-Agrees e t a new = record {
    same = λ u.
        rw
          (h.find-insert_or_assign t u tt e.deletion_set, contains-append e.deleted_tags (t ∷ []) u)
          (ground (arith, a.same u));
    distinct = IsDistinct-push e.deleted_tags t a.distinct (ground (arith, a.same t));
  }

  epoch-Agrees : (d : Dynamic h) (b : Bool) → IsValid d → Agrees (epoch h b d)
  epoch-Agrees d false v = v.first
  epoch-Agrees d true v = v.second

  init-IsValid : IsValid (init h)
  unfolding init
  init-IsValid = record {
    first = empty-Agrees true;
    second = empty-Agrees false;
    accepts = refl;
    refuses = refl;
  }

  abbrev build : Bool → Epoch h → Epoch h → Dynamic h
  build b e0 e1 = record { active_delete_set = b; epoch0 = e0; epoch1 = e1 }

  -- What lazy_delete leaves in its epoch is valid again.
  lazy_delete-build :
      (b : Bool) (e0 e1 : Epoch h) (t : ℕ)
      → IsValid (build b e0 e1)
      → IsValid (lazy_delete h (build b e0 e1) t)
  unfolding lazy_delete
  lazy_delete-build false e0 e1 t v = elim (Bool-cases (is_deleted h e0 t)) [
    | inl old ↦ rw old v
    | inr new ↦ rw new (record {
      first = push-Agrees e0 t v.first new;
      second = v.second;
      accepts = v.accepts;
      refuses = v.refuses;
    })
  ]
  lazy_delete-build true e0 e1 t v = elim (Bool-cases (is_deleted h e1 t)) [
    | inl old ↦ rw old v
    | inr new ↦ rw new (record {
      first = v.first;
      second = push-Agrees e1 t v.second new;
      accepts = v.accepts;
      refuses = v.refuses;
    })
  ]

  save_del_set-build :
      (b : Bool) (e0 e1 : Epoch h)
      → IsValid (build b e0 e1)
      → IsValid (save_del_set h (build b e0 e1))
  unfolding save_del_set
  save_del_set-build false e0 e1 v = record {
    first = flag-Agrees e0 false v.first;
    second = empty-Agrees true;
    accepts = refl;
    refuses = refl;
  }
  save_del_set-build true e0 e1 v = record {
    first = empty-Agrees true;
    second = flag-Agrees e1 false v.second;
    accepts = refl;
    refuses = refl;
  }

  step-IsValid : (d : Dynamic h) (c : Call h) → IsValid d → IsValid (step h d c)
  unfolding step
  step-IsValid d (delete_tag t) v = lazy_delete-build d.active_delete_set d.epoch0 d.epoch1 t v
  step-IsValid d merge_epoch v = save_del_set-build d.active_delete_set d.epoch0 d.epoch1 v

  run-IsValid : (d : Dynamic h) (cs : List (Call h)) → IsValid d → IsValid (run h d cs)
  unfolding run
  run-IsValid d [] v = v
  run-IsValid d (c ∷ cs) v = run-IsValid (step h d c) cs (step-IsValid d c v)

  -- After any history of calls: in each epoch the set and the list hold the same tags, the list each
  -- tag once; the active epoch accepts deletions and the other refuses them.
  pub run-init-IsValid : (cs : List (Call h)) → IsValid (run h (init h) cs)
  run-init-IsValid cs = run-IsValid (init h) cs init-IsValid

  -- The tags deleted since the last merge, each once, in the order of their first deletion.
  abbrev pub pending : List ℕ → List (Call h) → List ℕ
  pending acc [] = acc
  pending acc (delete_tag t ∷ cs) = pending (if contains acc t then acc else acc ++ t ∷ []) cs
  pending acc (merge_epoch ∷ cs) = pending [] cs

  abbrev pub active_tags : Dynamic h → List ℕ
  active_tags d = (epoch h d.active_delete_set d).deleted_tags

  active_tags-lazy_delete :
      (b : Bool) (e0 e1 : Epoch h) (t : ℕ)
      → IsValid (build b e0 e1)
      → let tags = active_tags (build b e0 e1) in
        active_tags (lazy_delete h (build b e0 e1) t)
        ≡ (if contains tags t then tags else tags ++ t ∷ [])
  unfolding lazy_delete
  active_tags-lazy_delete false e0 e1 t v = ground (arith, v.first.same t)
  active_tags-lazy_delete true e0 e1 t v = ground (arith, v.second.same t)

  active_tags-save_del_set :
      (b : Bool) (e0 e1 : Epoch h) → active_tags (save_del_set h (build b e0 e1)) ≡ []
  unfolding save_del_set
  active_tags-save_del_set false e0 e1 = refl
  active_tags-save_del_set true e0 e1 = refl

  active_tags-run-from :
      (d : Dynamic h) (cs : List (Call h))
      → IsValid d
      → active_tags (run h d cs) ≡ pending (active_tags d) cs
  unfolding run step
  active_tags-run-from d [] v = refl
  active_tags-run-from d (delete_tag t ∷ cs) v =
      active_tags-run-from (step h d (delete_tag t)) cs (step-IsValid d (delete_tag t) v)
      ∙ ap (λ (ts : List ℕ). pending ts cs)
          (active_tags-lazy_delete d.active_delete_set d.epoch0 d.epoch1 t v)
  active_tags-run-from d (merge_epoch ∷ cs) v =
      active_tags-run-from (step h d merge_epoch) cs (step-IsValid d merge_epoch v)
      ∙ ap (λ (ts : List ℕ). pending ts cs)
          (active_tags-save_del_set d.active_delete_set d.epoch0 d.epoch1)

  -- After any history the active epoch lists the tags deleted since the last merge, each once, in the
  -- order of their first deletion.
  pub active_tags-run : (cs : List (Call h)) → active_tags (run h (init h) cs) ≡ pending [] cs
  unfolding init
  active_tags-run cs = active_tags-run-from (init h) cs init-IsValid

  save_del_set-tags :
      (b : Bool) (e0 e1 : Epoch h)
      → let d = save_del_set h (build b e0 e1) in
        (epoch h (not d.active_delete_set) d).deleted_tags ≡ active_tags (build b e0 e1)
  unfolding save_del_set
  save_del_set-tags false e0 e1 = refl
  save_del_set-tags true e0 e1 = refl

  -- The merge that follows save_del_set is handed exactly the tags that were active before, and
  -- the new active epoch starts with none.
  pub save_del_set-hands_over :
      (d : Dynamic h)
      → let d' = save_del_set h d in
        ((epoch h (not d'.active_delete_set) d').deleted_tags ≡ active_tags d)
        × (active_tags d' ≡ [])
  save_del_set-hands_over d = (
    save_del_set-tags d.active_delete_set d.epoch0 d.epoch1,
    active_tags-save_del_set d.active_delete_set d.epoch0 d.epoch1,
  )
