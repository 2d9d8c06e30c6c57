-- ===== src/Dynamic/Search.antt =====
-- What a search returns.
use hvs_disk.Base.{
  ℕ, zero, suc, ◌+◌, ◌<◌, ◌≡◌, refl, List, [], ◌∷◌, Bool, true, false, arith, ◌==◌, if◌then◌else◌,
  take, ◌||◌,
}
use hvs_disk.Base.HashMap.{HashMap}
use hvs_disk.Dynamic.{Dynamic, Epoch, NeighborTag, epoch, is_deleted, collect, search, lazy_delete}

module _ (h : HashMap (Unit {0})) where
  -- The candidates whose tags are not deleted, in their order.
  abbrev pub live : Epoch h → List NeighborTag → List NeighborTag
  live e [] = []
  live e (c ∷ cs) = if is_deleted h e c.tag then live e cs else c ∷ live e cs

  collect-take :
      (e : Epoch h) (k n pos : ℕ) (cs : List NeighborTag)
      → pos + suc n ≡ k
      → collect h e k pos cs ≡ take (suc n) (live e cs)
  unfolding collect
  collect-take e k n pos [] p = refl
  collect-take e k zero pos (c ∷ cs) p = ground (arith, collect-take e k zero pos cs p)
  collect-take e k (suc n) pos (c ∷ cs) p =
      ground (arith, collect-take e k (suc n) pos cs p, collect-take e k n (pos + 1) cs)

  -- For a positive k, a search writes the first k candidates, or all where there are fewer, whose
  -- tags are not in the active deletion set, in their order.
  pub search-live :
      (d : Dynamic h) (k : ℕ) (candidates : List NeighborTag)
      → 0 < k
      → search h d k candidates ≡ take k (live (epoch h d.active_delete_set d) candidates)
  unfolding search
  search-live d zero candidates p = absurd (omega arith)
  search-live d (suc n) candidates p =
      collect-take (epoch h d.active_delete_set d) (suc n) n 0 candidates (omega arith)

  abbrev pub returns_tag : List NeighborTag → ℕ → Bool
  returns_tag [] t = false
  returns_tag (c ∷ cs) t = (c.tag == t) || returns_tag cs t

  returns_tag-take :
      (n t : ℕ) (cs : List NeighborTag)
      → returns_tag cs t ≡ false
      → returns_tag (take n cs) t ≡ false
  returns_tag-take zero t cs p = refl
  returns_tag-take (suc n) t [] p = refl
  returns_tag-take (suc n) t (c ∷ cs) p = ground (arith, returns_tag-take n t cs)

  returns_tag-live :
      (e : Epoch h) (t : ℕ) (cs : List NeighborTag)
      → is_deleted h e t ≡ true
      → returns_tag (live e cs) t ≡ false
  returns_tag-live e t [] p = refl
  returns_tag-live e t (c ∷ cs) p = ground (arith, returns_tag-live e t cs)

  is_deleted-lazy_delete :
      (d : Dynamic h) (t : ℕ)
      → is_deleted h (epoch h (lazy_delete h d t).active_delete_set (lazy_delete h d t)) t ≡ true
  unfolding lazy_delete
  is_deleted-lazy_delete d t = ground (
    arith,
    h.find-insert_or_assign t t tt d.epoch0.deletion_set,
    h.find-insert_or_assign t t tt d.epoch1.deletion_set,
  )

  -- Right after a deletion of t no search for a positive number of results returns t, whatever the
  -- candidates.
  pub search-lazy_delete :
      (d : Dynamic h) (t k : ℕ) (candidates : List NeighborTag)
      → 0 < k
      → returns_tag (search h (lazy_delete h d t) k candidates) t ≡ false
  search-lazy_delete d t k candidates p =
      let d' = lazy_delete h d t in
      rw (search-live d' k candidates p) (
        returns_tag-take k t _ (
          returns_tag-live (epoch h d'.active_delete_set d') t candidates
            (is_deleted-lazy_delete d t)))
