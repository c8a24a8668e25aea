-- ===== src/Lib.antt =====
-- The core of Scalable Vector Search, a library for approximate nearest neighbors over the Vamana
-- graph, with the theorems that hold of it.
--
-- The parts, and the files of the repository that they model:
-- - Base: the names that all modules share, lists over the native numbers, and bits.
-- - Order: the comparison functors of the distances. A distance is a value of any type with a strict
--   weak order, which the floats other than NaN have.
-- - Neighbor: include/svs/lib/neighbor.h, with the two-flag metadata `ValidVisit` in Neighbor.Flags.
-- - Filter: `VisitedFilter` of include/svs/index/vamana/filter.h, for every number n of index bits.
--   Ids are 32 bits wide.
-- - Candidates: the steps of `insert_inner` on the sorted range of neighbors (`std::lower_bound`, the
--   backward walk for a repeat, `std::copy_backward`).
-- - SearchBuffer: `SearchBufferConfig` and `SearchBuffer` of include/svs/index/vamana/search_buffer.h,
--   one function per member; `change_maxsize` by a configuration is `change_config`. A read outside
--   the vector is `none`. `std::sort` is a parameter that is supposed to sort.
-- - GreedySearch: include/svs/index/vamana/greedy_search.h. The search fills the buffer with the entry
--   points, sorts it, and expands the best unvisited candidate until the search window is done. The
--   graph, the distances and the sorting function are parameters. The tracker is the list of its
--   calls, the last one first. The loop runs on fuel; a round expands a vertex that was not expanded
--   before, so that the number of vertices is enough.
-- - Graph: `SimpleGraphBase` of include/svs/core/graph/graph.h, a table with a row per vertex. An
--   access outside it is `none` or `fault`. Graph.Search puts the greedy search on such a graph.
-- - Threads: `UnitRange` and `balance` of include/svs/lib/threads/types.h and `div_round_up` of
--   include/svs/lib/misc.h.
-- - Translation: `IDTranslator` of include/svs/core/translation.h and `all_unique` of
--   include/svs/lib/algorithms.h. The hash map and the hash set are an interface, HashMap, whose laws
--   are IsHashMap; a map by functions shows that they can hold. Every call leaves a translator, also
--   when it throws.
-- - Prune: `heuristic_prune_neighbors` of include/svs/index/vamana/prune.h with LegacyPruneStrategy, and
--   in Prune.Rounds with the iterative and the progressive strategy. A round runs at a power of alpha,
--   and the rounds are on fuel: they end once the power has passed alpha.
-- - Consolidate: include/svs/index/vamana/consolidate.h over a Graph. A pruning strategy is an interface,
--   IsPruner, which Consolidate.Pruner fills by the strategies in rounds. The batches are on fuel; a batch
--   has a vertex at least, so that the number of vertices is enough.
-- - Index: `MutableVamanaIndex` of include/svs/index/vamana/dynamic_index.h over the graph, the translator,
--   the consolidation and the compaction; Index.Compacting has `compact`, whose loop over the graph adds
--   in the type of the indices, and Index.Adding the constructor from a graph and `add_points`, in two
--   parts: up to its call of `VamanaBuilder` of include/svs/index/vamana/vamana_build.h, which is not
--   modelled, and from there on, for whatever graph the builder leaves. Between calls the slots that are
--   valid are those translated.
-- - Compaction: `compact_data` of include/svs/core/compact.h over any two tables. A batch that is not
--   empty makes progress, so that the length of the map is enough fuel.
-- - Merge: `bounded_merge` of include/svs/lib/algorithms.h, over elements with a strict weak order. A read
--   past both inputs is `none`.
--
-- Left out: prefetching and allocation, which have no effect on results; NaN distances; the static
-- index, the searches of the mutable one and the construction of the graph; the search buffer with
-- predicates; flat and inverted search; the arithmetic of distances and quantization; files and
-- serialization.
mod Base
pub mod Order
pub mod Neighbor
pub mod Filter
pub mod Candidates
pub mod SearchBuffer
pub mod GreedySearch
pub mod Graph
pub mod Threads
pub mod Translation
pub mod Prune
pub mod Compaction
pub mod Consolidate
pub mod Index
pub mod Merge
