-- ===== src/Memory/Graph/Occlude.antt =====
-- occlude_list ends, with at most range neighbours, all of the pool.
use hvs_disk.Base.{
  ℕ, suc, ◌≤◌, ◌<◌, ◌≡◌, refl, List, [], ◌∷◌, ◌++◌, some, true, arith, ◌==◌, ◌||◌, length,
  replicate, contains, length-append, one_float,
}
use hvs_disk.Prune.Occlude.{Neighbor, Setting}
use hvs_disk.Prune.Occlude.Bounds.{ids, IsBounded, alphas-IsBounded}
use hvs_disk.Memory.Graph.{push_back, occlude_list}

ids-push_back :
    (p : Neighbor) (ps : List Neighbor) (i : ℕ)
    → contains (ids (ps ++ p ∷ [])) i ≡ true
    → (p.id == i) || contains (ids ps) i ≡ true
ids-push_back p [] i h = ground (arith, h)
ids-push_back p (q ∷ qs) i h = ground (arith, h, ids-push_back p qs i)

length-push_back : (p : Neighbor) (ps : List Neighbor) → length (ps ++ p ∷ []) ≤ suc (length ps)
length-push_back p ps = omega (arith, length-append ps (p ∷ []))

pub occlude_list-IsBounded :
    (s : Setting) (fuel : ℕ) (pool : List Neighbor)
    → ((x : ℕ) → one_float ≤ x → x ≤ s.alpha → x < s.grow x)
    → s.alpha < fuel
    → (result : List Neighbor) × (occlude_list s fuel pool ≡ some result) × IsBounded s pool result
unfolding occlude_list
occlude_list-IsBounded s fuel [] g m = ([], refl, (omega arith, λ i c. c))
occlude_list-IsBounded s fuel (p ∷ ps) g m =
    alphas-IsBounded s (push_back s) length-push_back ids-push_back fuel (p ∷ ps) one_float
      (record { result_set = []; occlude_factor = replicate (length (p ∷ ps)) 0 }) g (omega arith)
      (omega (arith, m)) (omega (arith, m)) (omega arith, λ i c. absurd (ground (arith, c)))
