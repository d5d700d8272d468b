-- ===== src/Lib.antt =====
-- The verification library of cpp_lib, a C++ library of caches, containers, reloaders and helpers.
--
-- The parts and the files
--   Prelude: Boolean tests on the natural numbers, lists by index, membership of addresses.
--   Container/HashMap: `tbb::concurrent_hash_map`, an interface of operations and laws, since TBB
--     is not part of the repository. Container/ListMap is a table that has all the laws.
--   Container/ConcurrentMap, Container/DoubleBuffer: cpp_lib/container/concurrent_map.h and
--     double_buffer.h.
--   Cache/Links, Cache/Shard: `ConcurrentLRUCache` of cpp_lib/cache/concurrent_lru_cache.h. Links
--     has the doubly linked list (`delink`, `push_front`), Shard the methods (`find`, `set_entry`,
--     `remove_node`, `is_last_node_timeout`, `evict`, `insert`, `clear`, `snapshot_keys`).
--     Cache/Shard/Overlap has `remove_node` in the two halves that lock the list and the map.
--   Cache/Scalable: `ConcurrentScalableCache` of cpp_lib/cache/concurrent_scalable_cache.h, shards
--     behind a hash. Cache/Front: `LRUCache` of cpp_lib/cache/lru_cache.h, which users call.
--   Error: `Status` of cpp_lib/error/status.cc, and the constructors and tests of errors.h.
--   Coro: `ParallelFor` of cpp_lib/coro/coro.cc, Coro/Join its threads and their joins.
--   Reloader/File, Reloader/Config, Reloader/WatchDog: cpp_lib/reloader, a file that reloads
--     itself, the configured object behind a double buffer, and the dog that watches files.
--   Serialize: cpp_lib/serialize/json.h. Rapidjson is the interface to the JSON library, Parse,
--     Write and Fields have the overloads and the macros, Macros how the preprocessor counts the
--     fields of a struct, Text the entry points. Types puts the overloads together by type.
--   Util/Trim: cpp_lib/util/strings/trim.cc, on lists of bytes.
--   Util/File, Util/Url, Util/Math: cpp_lib/util/file/file.cc, http/url.cc and math/math.cc. The
--     file system is an interface of the operating system's calls, and the results of `read` and
--     `write` in `FileCopy` are lists in the order of the calls.
--   Util/Strings, Util/Time, Util/Compress: cpp_lib/util/strings/util.cc, split.h, join.h and
--     numbers.h, time/time.cc and compress/compress_helper.cc, over interfaces of absl and zlib.
--   Util/Singleton: cpp_lib/util/singleton.h. Each thread stands at a place in `GetInstance`; `step`
--     lets one of them do its next atomic access, and a schedule is a list of threads.
--   Tests: the theorems at concrete inputs.
--   A child module of these holds the proofs on what its name says.
--
-- How state and operations correspond
--   A method takes the object's record and returns it anew with its results, under the source's
--   name in snake_case; the batch overloads are `insert_all`, `get` with a value is `get_value`,
--   `set` is `lru_set`, and `LRUCache::mget` with values is `mget_values`. Overloads that differ
--   in a type alone share a definition with that type as a parameter.
--   Nodes, shared files and shared objects are addresses, natural numbers, with what stands
--   there in functions or in a store. `new` gives an address that was not used before; freed
--   addresses are not used again.
--   `time` is an argument `now`, constant during a call. A difference of times stops at 0: the
--   comparisons of the code come out the same, since a timeout is not negative. `m_size` and
--   `size` count entries in memory, and do not wrap. Where `size_t` can wrap, in `ParallelFor`,
--   `% 2 ^ 64` is written out.
--   The hash of a key, `stat`, `mmap`, the virtual `Load` and the parsers of user types are
--   arguments. `none` is an exception (`vector::at`), a null dereference or, in a loop on fuel,
--   the end of the fuel.
--   `insert` calls `evict` in place, as the code does under TEST_MODE; without it `evict` runs
--   at a later time, which the step relation of Cache/Shard/Reach has as a step of its own.
--
-- Valid and sound
--   A valid shard (Cache/Shard/Invariant) has nodes that are distinct allocated addresses,
--   linked both ways from `m_head` to `m_tail`; the map holds an entry for the key of every node
--   and no others, and `m_size` is their number. A sound cache (Cache/Scalable/Bound) has
--   `m_num_shards` valid shards, at least one, each of at most its own `m_max_size` nodes and
--   with the evict flag down, and the capacities sum up to `m_max_size`.
--   The entries of a shard (Cache/Shard/Order) are its keys with their values and times, in the
--   order of the list: the abstract cache that `insert` and `find` are measured against.
--   A routed cache (Cache/Scalable/Routed) has valid shards with the evict flag down, and each key
--   of a shard has the index of that shard.
--   A dog is followed lock scope by lock scope (Reloader/WatchDog/Reach): the files on the disk may
--   change between them, but the owner of a watched file does not call `Init` again. Files may
--   share a `FileInfo`, so these records stand in a store of their own.
--
-- Bounds and fuel
--   The walk of `snapshot_keys` has `m_size + 1` rounds, `ParallelFor` has `last - first + 1`: a
--   valid shard has `m_size` nodes, and a round of `ParallelFor` advances by an index or more.
--   `MakeDir` has as much fuel as the path has bytes and one more: the parent's path is shorter
--   (`make_dir_returns`). The walks over directories have fuel for the depth, and a theorem on them
--   states that it was enough. `Digits10` has fuel for its calls: the theorems say when it ends.
--   The loops of `GzipString` and `GunzipString` have fuel for their chunks: as many as the output
--   fills, and one more.
--   The loops of `evict` are bounded by `kMaxEvictBatch` in the source.
--
-- Not modelled
--   Interleavings inside a method other than `GetInstance`, `ParallelFor` and the halves of `Watch`
--   and of `remove_node`; the reordering of relaxed accesses; the locks of TBB and of the standard
--   library; the destructors; floating-point values beyond their test; the text that rapidjson
--   parses and prints; the string helpers that are one call of absl, and the random numbers of
--   math.cc, which are the C library's. The clock, `sscanf`, `mktime`, `readlink`, zlib and
--   `FileReadWithoutComment` are arguments.
pub mod Prelude
pub mod Container
pub mod Cache
pub mod Error
pub mod Coro
pub mod Reloader
pub mod Serialize
pub mod Util
pub mod Tests
