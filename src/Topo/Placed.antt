-- ===== src/Topo/Placed.antt =====
-- One part keeps its ids apart: what place and remove do to it.
use mathlib.Core.Option.{some-injective}
use hvs_disk.Base.{
  ℕ, ◌+◌, ◌≤◌, ◌<◌, ◌≡◌, refl, sym, ap, ◌∙◌, ◌⊎◌, inl, inr, List, [], ◌∷◌, ◌++◌, none, some, false,
  arith, ◌==◌, if◌then◌else◌, u32, Bool-cases, All, All-weaken, All-append, contains, IsDistinct,
  IsDistinct-push,
}
use hvs_disk.Base.HashMap.{HashMap}
use hvs_disk.Layout.Slots.{
  invalid_id, PageArr, Kind, slot_or_invalid, slot_get, slot_set, slot_erase,
}
use hvs_disk.Layout.Slots.View.{
  max_loc, IsSized, IsSound, slot_get-slot_set, slot_set-IsSized, slot_get-slot_erase,
  slot_erase-IsSized,
}
use hvs_disk.Layout.Slots.Keys.{slot_erase-empty_locs}
use hvs_disk.Topo.{Part, find_loc, next_loc, place, remove}

module _ (m : HashMap ℕ) (h : HashMap PageArr) (k : Kind) (sound : IsSound k) where
  -- Every id with a tag stands at its location, below the end of the used space; the locations in the
  -- queue are distinct, below that end, and hold no id. Every location below the end that holds an id
  -- is that of an id with a tag.
  pub record IsPlaced (tags : m.Table) (p : Part m h) : Type 0 where
    pub sized : IsSized h k p.slots
    pub room : p.cur_loc ≤ max_loc
    pub placed :
        (i tag : ℕ)
        → m.find i tags ≡ some tag
        → (l : ℕ) × (m.find i p.id2loc_ ≡ some l)
          × (l < p.cur_loc)
          × (slot_get h k p.slots l ≡ i)
          × (i < invalid_id)
    pub free :
        All (λ (l : ℕ). (l < p.cur_loc) × (slot_get h k p.slots l ≡ invalid_id)) p.slots.empty_locs
    pub distinct : IsDistinct p.slots.empty_locs
    pub owned :
        (l : ℕ)
        → l < p.cur_loc
        → (slot_get h k p.slots l == invalid_id) ≡ false
        → (tag : ℕ) × (m.find (slot_get h k p.slots l) p.id2loc_ ≡ some l)
          × (m.find (slot_get h k p.slots l) tags ≡ some tag)

  -- Locations that hold different ids differ.
  apart :
      (p : Part m h) (l b x y : ℕ)
      → slot_get h k p.slots l ≡ x
      → slot_get h k p.slots b ≡ y
      → (x == y) ≡ false
      → (l == b) ≡ false
  apart p l b x y ex ey ne = elim (Bool-cases (l == b)) [
    | inr other ↦ other
    | inl same ↦
        let q : l ≡ b = ground (arith, same) in
        absurd (ground (arith, sym ex ∙ (ap (slot_get h k p.slots) q ∙ ey), ne))
  ]

  free-absent :
      (p : Part m h) (l : ℕ) (ls : List ℕ)
      → slot_get h k p.slots l < invalid_id
      → All (λ (b : ℕ). (b < p.cur_loc) × (slot_get h k p.slots b ≡ invalid_id)) ls
      → contains ls l ≡ false
  free-absent p l [] used a = refl
  free-absent p l (b ∷ ls) used ((lb, inv), a) = ground (
    arith,
    apart p b l invalid_id (slot_get h k p.slots l) inv refl (ground (arith, used)),
    free-absent p l ls used a,
  )

  got-set :
      (p : Part m h) (l id : ℕ) (queue : List ℕ) (b : ℕ)
      → IsSized h k p.slots
      → l < max_loc
      → b < max_loc
      → slot_get h k (slot_set h k (record p.slots { empty_locs = queue }) l id) b
        ≡ (if l == b then id else slot_get h k p.slots b)
  unfolding slot_get
  got-set p l id queue b w hl hb =
      slot_get-slot_set h k sound (record p.slots { empty_locs = queue }) l b id w hl hb

  free-apart :
      (p : Part m h) (l id end : ℕ) (queue ls : List ℕ)
      → IsSized h k p.slots
      → p.cur_loc ≤ max_loc
      → p.cur_loc ≤ end
      → l < max_loc
      → contains ls l ≡ false
      → All (λ (b : ℕ). (b < p.cur_loc) × (slot_get h k p.slots b ≡ invalid_id)) ls
      → All
          (λ (b : ℕ).
            (b < end)
            × (slot_get h k (slot_set h k (record p.slots { empty_locs = queue }) l id) b
                ≡ invalid_id))
          ls
  free-apart p l id end queue [] w r le lt a f = tt
  free-apart p l id end queue (b ∷ ls) w r le lt a ((lb, inv), f) = (
    (
      omega (arith, lb, le),
      got-set p l id queue b w lt (omega (arith, lb, r)) ∙ ground (arith, a, inv),
    ),
    free-apart p l id end queue ls w r le lt (ground (arith, a)) f,
  )

  -- An id with a tag is none without one.
  unlike :
      (tags : m.Table) (id j tag : ℕ)
      → m.find id tags ≡ none
      → m.find j tags ≡ some tag
      → (id == j) ≡ false
  unlike tags id j tag out has = elim (Bool-cases (id == j)) [
    | inr other ↦ other
    | inl same ↦
        let q : id ≡ j = ground (arith, same) in
        absurd (ground (arith, sym out ∙ (ap (λ (x : ℕ). m.find x tags) q ∙ has)))
  ]

  -- Writing an id to a location without one.
  put-IsPlaced :
      (tags : m.Table) (p : Part m h) (id tag l end : ℕ) (queue : List ℕ)
      → IsPlaced tags p
      → m.find id tags ≡ none
      → ((b : ℕ) → b < end → (l == b) ≡ false → b < p.cur_loc)
      → id < invalid_id
      → l < end
      → p.cur_loc ≤ end
      → end ≤ max_loc
      → ((b : ℕ) → b < p.cur_loc → slot_get h k p.slots b < invalid_id → (l == b) ≡ false)
      → All (λ (b : ℕ). (b < p.cur_loc) × (slot_get h k p.slots b ≡ invalid_id)) queue
      → contains queue l ≡ false
      → IsDistinct queue
      → IsPlaced (m.insert_or_assign id tag tags) (record {
        id2loc_ = m.insert_or_assign id l p.id2loc_;
        slots = slot_set h k (record p.slots { empty_locs = queue }) l id;
        cur_loc = end;
      })
  unfolding slot_set
  put-IsPlaced tags p id tag l end queue pl new inner small lt le room vacant f apart d =
      let hl : l < max_loc = omega (arith, lt, room) in
      let look = λ (i : ℕ). m.find-insert_or_assign id i l p.id2loc_ in
      record {
        sized = slot_set-IsSized h k sound (record p.slots { empty_locs = queue }) l id pl.sized;
        room = room;
        placed = λ i tag' e. elim (Bool-cases (id == i)) [
          | inl same ↦
              let q : id ≡ i = ground (arith, same) in
              (
                l,
                look i ∙ rw same refl,
                lt,
                got-set p l id queue l pl.sized hl hl ∙ ground (arith, q),
                omega (arith, q, small),
              )
          | inr other ↦
              let old : m.find i tags ≡ some tag' =
                sym (m.find-insert_or_assign id i tag tags ∙ rw other refl) ∙ e in
              let (b, e', lb, stands, si) = pl.placed i tag' old in
              let ne = vacant b lb (omega (arith, stands, si)) in
              (
                b,
                look i ∙ rw other e',
                omega (arith, lb, le),
                got-set p l id queue b pl.sized hl (omega (arith, lb, pl.room)) ∙ rw ne stands,
                si,
              )
        ];
        free = free-apart p l id end queue queue pl.sized pl.room le hl apart f;
        distinct = d;
        owned = λ b lb used. elim (Bool-cases (l == b)) [
          | inl same ↦
              let q : l ≡ b = ground (arith, same) in
              let here =
                got-set p l id queue b pl.sized hl (omega (arith, lb, room)) ∙ rw same refl in
              (
                tag,
                ap (λ (x : ℕ). m.find x (m.insert_or_assign id l p.id2loc_)) here
                    ∙ look id
                    ∙ ground (arith, q),
                ap (λ (x : ℕ). m.find x (m.insert_or_assign id tag tags)) here
                    ∙ m.find-insert_or_assign id id tag tags
                    ∙ ground arith,
              )
          | inr other ↦
              let there =
                got-set p l id queue b pl.sized hl (omega (arith, lb, room)) ∙ rw other refl in
              let j = slot_get h k p.slots b in
              let (tag', at, has) = pl.owned b (inner b lb other) (ground (arith, there, used)) in
              let ne = unlike tags id j tag' new has in
              (
                tag',
                ap (λ (x : ℕ). m.find x (m.insert_or_assign id l p.id2loc_)) there
                    ∙ look j
                    ∙ rw ne at,
                ap (λ (x : ℕ). m.find x (m.insert_or_assign id tag tags)) there
                    ∙ m.find-insert_or_assign id j tag tags
                    ∙ rw ne has,
              )
        ];
      }

  pub place-IsPlaced :
      (tags : m.Table) (p : Part m h) (id tag : ℕ)
      → IsPlaced tags p
      → m.find id tags ≡ none
      → id < invalid_id
      → p.cur_loc < max_loc
      → IsPlaced (m.insert_or_assign id tag tags) (place m h k id p)
  unfolding place next_loc slot_get
  place-IsPlaced tags p id tag pl new small room = elim (queue-cases p.slots.empty_locs) [
    | inl e ↦
        let same : u32 p.cur_loc ≡ p.cur_loc = omega (arith, room) in
        let f : All (λ (b : ℕ). (b < p.cur_loc) × (slot_get h k p.slots b ≡ invalid_id)) [] = tt in
        let d : IsDistinct [] = tt in
        rw (place, next_loc, e)
          (put-IsPlaced tags p id tag (u32 p.cur_loc) (p.cur_loc + 1) [] pl new
            (λ b lb ne. ground (arith, same, lb, ne)) small (omega (arith, same)) (omega arith)
            (omega (arith, room)) (λ b lb lt. ground (arith, same, lb)) f refl d)
    | inr (l, ls, e) ↦
        let f = rw e at pl.free in
        let d = rw e at pl.distinct in
        let (lt, inv) = f.0 in
        let ne : (l == invalid_id) ≡ false = ground (arith, lt, pl.room) in
        rw (place, next_loc, e, ne)
          (put-IsPlaced tags p id tag l p.cur_loc ls pl new (λ b lb ne. lb) small lt (omega arith)
            pl.room (λ b lb used. apart p l b invalid_id _ inv refl (ground (arith, used))) f.1 d.0
            d.1)
  ]
    where
      queue-cases : (q : List ℕ) → (q ≡ []) ⊎ ((l : ℕ) × (ls : List ℕ) × (q ≡ (l ∷ ls)))
      queue-cases [] = inl refl
      queue-cases (l ∷ ls) = inr (l, ls, refl)

  got-erase :
      (p : Part m h) (l b : ℕ) (queue : List ℕ)
      → IsSized h k p.slots
      → l < max_loc
      → b < max_loc
      → slot_get h k p.slots l < invalid_id
      → slot_get h k (slot_erase h k (record p.slots { empty_locs = queue }) l) b
        ≡ (if l == b then invalid_id else slot_get h k p.slots b)
  unfolding slot_get slot_or_invalid
  got-erase p l b queue w hl hb used =
      slot_get-slot_erase h k sound (record p.slots { empty_locs = queue }) l b w hl hb
        (λ e. absurd (omega (arith, rw e at used)))

  -- Ids at different locations differ.
  elsewhere :
      (p : Part m h) (id j l b : ℕ)
      → m.find id p.id2loc_ ≡ some l
      → m.find j p.id2loc_ ≡ some b
      → (l == b) ≡ false
      → (id == j) ≡ false
  elsewhere p id j l b el eb ne = elim (Bool-cases (id == j)) [
    | inr other ↦ other
    | inl same ↦
        let q : id ≡ j = ground (arith, same) in
        let both : some l ≡ some b = sym el ∙ (ap (λ (x : ℕ). m.find x p.id2loc_) q ∙ eb) in
        absurd (ground (arith, some-injective l b both, ne))
  ]

  pub remove-IsPlaced :
      (tags : m.Table) (p : Part m h) (id tag : ℕ)
      → IsPlaced tags p
      → m.find id tags ≡ some tag
      → IsPlaced (m.erase id tags) (remove m h k id p)
  unfolding remove find_loc slot_get
  remove-IsPlaced tags p id tag pl e =
      let (l, el, lt, stands, si) = pl.placed id tag e in
      let hl : l < max_loc = omega (arith, lt, pl.room) in
      let used : slot_get h k p.slots l < invalid_id = omega (arith, stands, si) in
      let queue = p.slots.empty_locs ++ l ∷ [] in
      let s' = slot_erase h k (record p.slots { empty_locs = queue }) l in
      let got : (b : ℕ)
          → b < max_loc
          → slot_get h k s' b ≡ (if l == b then invalid_id else slot_get h k p.slots b) =
        λ b hb. got-erase p l b queue pl.sized hl hb used in
      let same = slot_erase-empty_locs h k (record p.slots { empty_locs = queue }) l in
      rw (remove, find_loc, el)
        (record {
          sized = slot_erase-IsSized h k sound (record p.slots { empty_locs = queue }) l pl.sized;
          room = pl.room;
          placed = λ i tag' e'. elim (Bool-cases (id == i)) [
            | inl gone ↦
                let out : m.find i (m.erase id tags) ≡ none =
                  m.find-erase id i tags ∙ rw gone refl in
                absurd (ground (arith, sym out ∙ e'))
            | inr other ↦
                let old : m.find i tags ≡ some tag' =
                  sym (m.find-erase id i tags ∙ rw other refl) ∙ e' in
                let (b, eb, lb, standsb, sib) = pl.placed i tag' old in
                let ne = apart p l b id i stands standsb other in
                (b, eb, lb, got b (omega (arith, lb, pl.room)) ∙ rw ne standsb, sib)
          ];
          free = rw same (
              All-append _ p.slots.empty_locs (l ∷ [])
                (All-weaken _ _ p.slots.empty_locs
                  (λ b (lb, inv). (lb, got b (omega (arith, lb, pl.room)) ∙ ground (arith, inv)))
                  pl.free)
                ((lt, got l hl ∙ ground arith), tt));
          distinct = rw same (
              IsDistinct-push p.slots.empty_locs l pl.distinct
                (free-absent p l p.slots.empty_locs used pl.free));
          owned = λ b lb held. elim (Bool-cases (l == b)) [
            | inl same ↦
                let hb : b < max_loc = omega (arith, lb, pl.room) in
                absurd (ground (arith, got b hb, same, held))
            | inr other ↦
                let there : slot_get h k s' b ≡ slot_get h k p.slots b =
                  got b (omega (arith, lb, pl.room)) ∙ rw other refl in
                let j = slot_get h k p.slots b in
                let (tag', at, has) = pl.owned b lb (ground (arith, there, held)) in
                let ne = elsewhere p id j l b el at other in
                (
                  tag',
                  ap (λ (x : ℕ). m.find x p.id2loc_) there ∙ at,
                  ap (λ (x : ℕ). m.find x (m.erase id tags)) there
                      ∙ m.find-erase id j tags
                      ∙ rw ne has,
                )
          ];
        })
