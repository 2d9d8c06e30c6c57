-- ===== src/Memory/Graph/Repair.antt =====
-- What the repair leaves: lists without deleted nodes.
use hvs_disk.Base.{
  one_float, ℕ, ◌≤◌, ◌<◌, ◌≡◌, refl, ap, ◌⊎◌, inl, inr, List, [], ◌∷◌, some, Bool, true, false, not,
  ◌&&◌, ◌||◌, arith, ◌==◌, if◌then◌else◌, length, map, Bool-cases, contains, All,
}
use hvs_disk.Base.HashSet.{HashSet}
use hvs_disk.Prune.Occlude.{Neighbor, Setting, sort_pool}
use hvs_disk.Prune.Occlude.Bounds.{ids, IsFrom}
use hvs_disk.Prune.Occlude.Full.{contains-sort_pool}
use hvs_disk.Memory.Graph.{add_links, gather, keep, pool_of, repaired}
use hvs_disk.Memory.Graph.Occlude.{occlude_list-IsBounded}

module _ (s : Setting) (h : HashSet) (del empty : h.Table) (fuel : ℕ) where
  -- Whether a node is a neighbour that stays, or a link of a deleted neighbour to a node that stays.
  abbrev pub around : (ℕ → List ℕ) → List ℕ → ℕ → Bool
  around g [] j = false
  around g (n ∷ ns) j =
      let more = around g ns j in
      (if h.has n del then not (h.has j del) && contains (g n) j else n == j) || more

  abbrev any_deleted : List ℕ → Bool
  any_deleted [] = false
  any_deleted (n ∷ ns) = h.has n del || any_deleted ns

  has-add_links :
      (js : List ℕ) (c : h.Table) (j : ℕ)
      → h.has j (add_links s h del empty fuel js c)
        ≡ ((contains js j && not (h.has j del)) || h.has j c)
  unfolding add_links
  has-add_links [] c j = refl
  has-add_links (k ∷ ks) c j = elim (Bool-cases (h.has k del)) [
    | inl gone ↦ rw gone (ground (arith, has-add_links ks c j, same k j, gone))
    | inr stays ↦
        rw stays
          (ground (arith, has-add_links ks (h.insert k c) j, h.has-insert k j c, same k j, stays))
  ]
    where
      same : (a b : ℕ) → (a == b) ≡ true → h.has a del ≡ h.has b del
      same a b e = let q : a ≡ b = ground (arith, e) in ap (λ (x : ℕ). h.has x del) q

  has-gather :
      (g : ℕ → List ℕ) (ns : List ℕ) (modify : Bool) (c : h.Table) (j : ℕ)
      → h.has j (gather s h del empty fuel g ns modify c).1 ≡ (around g ns j || h.has j c)
  unfolding gather
  has-gather g [] modify c j = refl
  has-gather g (n ∷ ns) modify c j = elim (Bool-cases (h.has n del)) [
    | inl gone ↦ rw gone (
        ground (
          arith,
          has-gather g ns true (add_links s h del empty fuel (g n) c) j,
          has-add_links (g n) c j,
        ))
    | inr stays ↦
        rw stays (ground (arith, has-gather g ns modify (h.insert n c) j, h.has-insert n j c))
  ]

  gather-modify :
      (g : ℕ → List ℕ) (ns : List ℕ) (modify : Bool) (c : h.Table)
      → (gather s h del empty fuel g ns modify c).0 ≡ (any_deleted ns || modify)
  unfolding gather
  gather-modify g [] modify c = refl
  gather-modify g (n ∷ ns) modify c = elim (Bool-cases (h.has n del)) [
    | inl gone ↦
        rw gone (ground (arith, gather-modify g ns true (add_links s h del empty fuel (g n) c)))
    | inr stays ↦ rw stays (ground (arith, gather-modify g ns modify (h.insert n c)))
  ]

  none-deleted : (ns : List ℕ) → any_deleted ns ≡ false → All (λ (n : ℕ). h.has n del ≡ false) ns
  none-deleted [] e = tt
  none-deleted (n ∷ ns) e = (ground (arith, e), none-deleted ns (ground (arith, e)))

  around_self :
      (g : ℕ → List ℕ) (ns : List ℕ) (j : ℕ)
      → any_deleted ns ≡ false
      → contains ns j ≡ true
      → around g ns j ≡ true
  around_self g [] j e c = c
  around_self g (n ∷ ns) j e c = ground (arith, around_self g ns j, e, c)

  pub around-same :
      (g g' : ℕ → List ℕ) (ns : List ℕ) (j : ℕ)
      → ((n : ℕ) → h.has n del ≡ true → g' n ≡ g n)
      → around g' ns j ≡ around g ns j
  around-same g g' [] j same = refl
  around-same g g' (n ∷ ns) j same = elim (Bool-cases (h.has n del)) [
    | inl gone ↦
        ground
          (arith, around-same g g' ns j same, ap (λ (xs : List ℕ). contains xs j) (same n gone))
    | inr stays ↦ ground (arith, around-same g g' ns j same, stays)
  ]

  keep-stays :
      (i : ℕ) (ps : List Neighbor)
      → All (λ (n : ℕ). h.has n del ≡ false) (keep s h del empty fuel i ps)
  unfolding keep
  keep-stays i [] = tt
  keep-stays i (p ∷ ps) = elim (Bool-cases (not (p.id == i) && not (h.has p.id del))) [
    | inl kept ↦ rw kept (ground (arith, kept), keep-stays i ps)
    | inr dropped ↦ rw dropped (keep-stays i ps)
  ]

  length-keep : (i : ℕ) (ps : List Neighbor) → length (keep s h del empty fuel i ps) ≤ length ps
  unfolding keep
  length-keep i [] = omega arith
  length-keep i (p ∷ ps) = ground (arith, length-keep i ps)

  contains-keep : (i : ℕ) (ps : List Neighbor) → IsFrom (keep s h del empty fuel i ps) (ids ps)
  unfolding keep
  contains-keep i [] j c = c
  contains-keep i (p ∷ ps) j c = ground (arith, contains-keep i ps j, c)

  ids-pool_of :
      (i : ℕ) (c : List ℕ)
      → ids (map (λ (j : ℕ). record { id = j; distance = s.pq_dist i j }) c) ≡ c
  ids-pool_of i [] = refl
  ids-pool_of i (j ∷ js) = ap (λ (xs : List ℕ). j ∷ xs) (ids-pool_of i js)

  -- What the repair of one node leaves: no deleted neighbours; the list as it was or at most range
  -- neighbours; each of them was a neighbour or a link of a deleted neighbour.
  pub record IsRepaired (g : ℕ → List ℕ) (i : ℕ) (ns : List ℕ) : Type 0 where
    pub live : All (λ (n : ℕ). h.has n del ≡ false) ns
    pub bounded : (ns ≡ g i) ⊎ (length ns ≤ s.range)
    pub origin : (j : ℕ) → contains ns j ≡ true → around g (g i) j ≡ true

  module _ (up : (x : ℕ) → one_float ≤ x → x ≤ s.alpha → x < s.grow x)
      (enough : s.alpha < fuel) where
    pub repaired-IsRepaired :
        (g : ℕ → List ℕ) (i : ℕ)
        → (ns : List ℕ) × (repaired s h del empty fuel g i ≡ some ns) × IsRepaired g i ns
    unfolding repaired
    repaired-IsRepaired g i =
        let r = gather s h del empty fuel g (g i) false h.empty in
        elim (Bool-cases r.0) [
          | inr clean ↦
              let quiet : any_deleted (g i) ≡ false =
                ground (arith, gather-modify g (g i) false h.empty, clean) in
              (
                g i,
                rw clean refl,
                record {
                  live = none-deleted (g i) quiet;
                  bounded = inl refl;
                  origin = λ j c. around_self g (g i) j quiet c;
                },
              )
          | inl modify ↦
              let pool = sort_pool (pool_of s h del empty fuel i r.1) in
              let (result, run, (few, from)) = occlude_list-IsBounded s fuel pool up enough in
              (
                keep s h del empty fuel i result,
                rw (modify, run) refl,
                record {
                  live = keep-stays i result;
                  bounded = inr (omega (arith, few, length-keep i result));
                  origin = λ j c. ground (
                    arith,
                    from j (contains-keep i result j c),
                    contains-sort_pool (pool_of s h del empty fuel i r.1) j,
                    ap (λ (xs : List ℕ). contains xs j) (ids-pool_of i (h.elements r.1)),
                    h.contains-elements r.1 j,
                    has-gather g (g i) false h.empty j,
                    h.has-empty j,
                  );
                },
              )
        ]

    abbrev pub skipped : ℕ → Bool
    skipped i = h.has i del || h.has i empty
