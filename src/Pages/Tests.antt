-- ===== src/Pages/Tests.antt =====
-- Runs of the page cache and of the queue.
use hvs_disk.Base.{ℕ, ◌≡◌, refl, [], ◌∷◌, some, arith}
use hvs_disk.Base.HashMap.{HashMap, assoc_map}
use hvs_disk.Pages.{PageCacheItem}
use hvs_disk.Pages.Counted.{item, put_all, deref_all, deref_all-put_all}
use hvs_disk.Pages.Queue.{ConcurrentQueue, insert, pop_all, pop_all-insert}

abbrev pages : HashMap (PageCacheItem ℕ)
pages = assoc_map (PageCacheItem ℕ)

abbrev cached : pages.Table
cached = (8, item ℕ pages 80 1) ∷ []

deref_all-put_all_example :
    (pages.find 7 (put_all ℕ pages 7 (70 ∷ 71 ∷ []) cached) ≡ some (item ℕ pages 71 2))
    × (pages.find 7 (deref_all ℕ pages 2 7 (put_all ℕ pages 7 (70 ∷ 71 ∷ []) cached))
        ≡ pages.find 7 cached)
deref_all-put_all_example = deref_all-put_all ℕ pages (71 ∷ []) 7 70 cached (omega arith) refl 7

abbrev waiting : ConcurrentQueue ℕ
waiting = record { q = 1 ∷ 2 ∷ []; null_t = 0 }

pop_all-insert_example :
    pop_all ℕ 4 (insert ℕ (3 ∷ 4 ∷ []) waiting) ≡ (1 ∷ 2 ∷ 3 ∷ 4 ∷ [], record waiting { q = [] })
pop_all-insert_example = pop_all-insert ℕ (3 ∷ 4 ∷ []) waiting
