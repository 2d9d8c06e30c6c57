-- ===== src/Lib.antt =====
-- hvs-disk: a graph index on disk for vector search, with updates in place, and a hybrid index
-- that serves every weighting of two distances. This library models its core data structures and
-- proves what they promise.
--
-- A search walks the graph through node records in sectors of the index file. An update takes
-- free locations, writes changed records there, prunes the neighbourhoods it touches, takes locks
-- on ids and pages, and moves the records in the page layout; deletions are filtered from results
-- until a merge removes them. The hybrid index picks edges by skyline layers and stores with each
-- edge the ranges of weights in which it is used.
--
-- The files:
--
-- - Base: shared names; Base/HashMap is the interface of the concurrent hash maps that the
--   program takes from libraries (libcuckoo, parallel_hashmap, robin_map), with an association
--   list as instance; Base/HashSet is that of the sets; Base/Int is the integers of alpha bounds.
-- - Layout/Sector: include/ssd_index.h, loc_sector_no, sector_to_loc, offset_to_loc and their
--   _topo and _coord copies.
-- - Layout/Slots: include/ssd_index.h, loc2id, set_loc2id, erase_loc2id, erase_and_set_loc and
--   copies. Slots/View reads the layout as a function from locations to ids, Slots/Move is about
--   whole moves.
-- - Layout/Alloc: include/ssd_index.h, alloc_loc. Claim is about one page, Takes about what an
--   allocation takes, Fresh, Extend and Whole about its three sources and all of it.
-- - Update: include/ssd_index.h, id2loc_ and verify_id2loc; src/update/direct_insert.cpp, the
--   move of the records of an insertion without IN_PLACE_RECORD_UPDATE (Agree, Mapping,
--   Consistent, Insert) and the joining of its page writes (Writes).
-- - Topo: include/ssd_index.h, id2loc_topo, id2page_topo, verify_id2loc_topo and their _coord
--   copies; src/update/direct_to_topo_insert.cpp, the choice of locations without
--   use_topo_reorder; src/update/trigger_deletion.cpp, the last loop. Placed and Checks are about
--   one of the two parts, Runs about any order of insertions and deletions.
-- - Memory: src/index.cpp, the slots of the index in memory: enable_delete, reserve_location,
--   resize, insert_point up to its pruning, both lazy_delete, the slots of consolidate_deletes,
--   and compact_data with its two crashes; a call that crashes gives none. Compaction has the
--   definitions of consolidate, and Moving its lists and start node; Calls runs the calls in any
--   order. Slots counts sets, Valid is the invariant, Insert (with Reserve), Delete and
--   Consolidate (with Renumber, Moves, Compact, Renamed and Packed) are about the operations,
--   Runs about the calls; Graph is the repair of the graph in consolidate_deletes, Link is
--   prune_neighbors and inter_insert; the graph is a function from locations to lists.
-- - Search: include/neighbor.h, InsertIntoPool (Narrow, Pool); src/search/beam_search.cpp, the
--   beam and the loop over the neighbours of a node (Entries, Expand, Crash), and the search of
--   one query as a whole without dyn_search_l (Beam).
-- - Alpha: src/utils/aux_utils.cpp, merge_ranges_greedy (Greedy), merge_ranges_max_coverage
--   (Bitmap), merge_alpha_ranges (Merge).
-- - Hybrid/Skyline: src/hybrid_index.cpp, findSkyline, the sort and the layers of
--   prune_neighbors_no_opt. Hybrid/Ranges: intersection, mergeIntervals, get_use_range.
--   Hybrid/Picking: the picking of edges, so all of prune_neighbors_no_opt, with the arithmetic
--   of floats as an interface; its two loops over layers run on the length of the pool.
--   Hybrid/Queue: iterate_to_fixed_point, whose pool is split at k; its loop runs on the length
--   of the first pool, the bound of ids and 2, which Fixed shows to be enough (Visit is about one
--   layer, Refill about updateNeighbor). Hybrid/Link: inter_insert, for one list (Back) and for
--   the graph (Graph), which is a function from ids. Hybrid/Build: get_expanded_nodes,
--   UpdateEnterpointSet and link, by one thread; Step is about one node, Whole about all of it.
-- - Prune/Delta and Prune/Occlude: src/utils/prune_neighbors.cpp, delta_prune_neighbors_pq,
--   occlude_list_pq, prune_neighbors_pq, occlude_list, prune_neighbors.
-- - Locks/Threads: several threads that call lock_idx and unlock_idx on one table, in any order
--   of their steps.
-- - Locks: include/v2/lock_table.h, SparseLockTable; include/ssd_index.h, get_to_lock_idx,
--   lock_idx, unlock_idx, lock_vec, unlock_vec, id2page and the pages of lock_page_idx;
--   include/linux_aligned_file_reader.h, lockReqs and unlockReqs (Requests).
-- - Buffer: src/buffer/BlockCache.cpp, clear, request_block, get_cache_block,
--   release_cache_block.
-- - Pages: include/v2/page_cache.h (PageCache) and include/concurrent_queue.h (Pages/Queue).
-- - Dynamic: src/update/dynamic_index.cpp, lazy_delete, save_del_set and the filter of search.
--
-- A call that runs under a lock is one step. Loops without a structural bound run on fuel and
-- return `none` without it; each theorem on such a loop says which fuel is enough; the binary
-- search of InsertIntoPool runs on the number of entries. Floats are bit patterns of numbers that
-- are neither negative nor NaN, which have the order of the floats; their division, the distances
-- and the steps of alpha are parameters.
--
-- Not modelled: file input and output, the outer loops of the searches other than beam_search,
-- the reordering of pages by use_topo_reorder, distance kernels and product quantization, the
-- construction of the graph of src/index.cpp but for insertions and deletions, the threads of
-- link of src/hybrid_index.cpp and the centers it computes, the variant prune_neighbors there,
-- the merge on disk, the Python bindings, and the copies of other projects' libraries in the
-- repository.
pub mod Base
pub mod Layout
pub mod Alpha
pub mod Dynamic
pub mod Buffer
pub mod Hybrid
pub mod Prune
pub mod Locks
pub mod Memory
pub mod Pages
pub mod Update
pub mod Search
pub mod Topo
