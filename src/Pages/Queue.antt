-- ===== src/Pages/Queue.antt =====
-- ConcurrentQueue of include/concurrent_queue.h: a queue under one lock, whose pop of an empty queue
-- gives a default. The waits and notices of its condition variables do not touch the queue.
use hvs_disk.Base.{ℕ, zero, suc, ◌≡◌, refl, sym, ap, ◌∙◌, List, [], ◌∷◌, ◌++◌, Bool, length, ◌==◌}

pub record ConcurrentQueue (T : Type 0) : Type 0 where
  pub q : List T
  pub null_t : T

module _ (T : Type 0) where
  pub size : ConcurrentQueue T → ℕ
  size c = length c.q

  pub empty : ConcurrentQueue T → Bool
  unfolding size
  empty c = size c == 0

  pub push : T → ConcurrentQueue T → ConcurrentQueue T
  push x c = record c { q = c.q ++ x ∷ [] }

  pub insert : List T → ConcurrentQueue T → ConcurrentQueue T
  unfolding push
  insert [] c = c
  insert (x ∷ xs) c = insert xs (push x c)

  abbrev pub pop_list : List T → ConcurrentQueue T → T × ConcurrentQueue T
  pop_list [] c = (c.null_t, c)
  pop_list (x ∷ xs) c = (x, record c { q = xs })

  pub pop : ConcurrentQueue T → T × ConcurrentQueue T
  pop c = pop_list c.q c

  -- n pops, in order.
  pub pop_all : ℕ → ConcurrentQueue T → List T × ConcurrentQueue T
  unfolding pop
  pop_all zero c = ([], c)
  pop_all (suc n) c =
      let first = pop c in let rest = pop_all n first.1 in (first.0 ∷ rest.0, rest.1)

  append-nil : (xs : List T) → xs ++ [] ≡ xs
  append-nil [] = refl
  append-nil (x ∷ xs) = ap (λ (l : List T). x ∷ l) (append-nil xs)

  append-push : (xs : List T) (y : T) (zs : List T) → (xs ++ y ∷ []) ++ zs ≡ xs ++ y ∷ zs
  append-push [] y zs = refl
  append-push (x ∷ xs) y zs = ap (λ (l : List T). x ∷ l) (append-push xs y zs)

  insert-q : (xs : List T) (c : ConcurrentQueue T) → insert xs c ≡ record c { q = c.q ++ xs }
  unfolding insert push
  insert-q [] c = ap (λ (l : List T). record c { q = l }) (sym (append-nil c.q))
  insert-q (x ∷ xs) c =
      insert-q xs (push x c) ∙ ap (λ (l : List T). record c { q = l }) (append-push c.q x xs)

  pop_all-q :
      (xs ys : List T) (d : T)
      → pop_all (length xs) (record { q = xs ++ ys; null_t = d })
        ≡ (xs, record { q = ys; null_t = d })
  unfolding pop_all pop
  pop_all-q [] ys d = refl
  pop_all-q (x ∷ xs) ys d =
      ap (λ (r : List T × ConcurrentQueue T). (x ∷ r.0, r.1)) (pop_all-q xs ys d)

  -- What was in the queue and then what is inserted comes out in that order, and leaves the queue
  -- empty.
  pub pop_all-insert :
      (xs : List T) (c : ConcurrentQueue T)
      → pop_all (length (c.q ++ xs)) (insert xs c) ≡ (c.q ++ xs, record c { q = [] })
  pop_all-insert xs c = rw (insert-q xs c) (
      ap (λ (l : List T). pop_all (length (c.q ++ xs)) (record c { q = l }))
        (sym (append-nil (c.q ++ xs)))
      ∙ pop_all-q (c.q ++ xs) [] c.null_t)
