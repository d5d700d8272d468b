-- ===== src/Cache.antt =====
-- cpp_lib/cache: the cache shards, the sharded cache and the LRU front.
pub mod Links
pub mod Shard
pub mod Scalable
pub mod Front
