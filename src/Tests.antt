-- ===== src/Tests.antt =====
-- The theorems at concrete inputs.
mod Shards
mod Caches
mod Containers
mod Errors
mod Reloaders
mod Documents
mod Json
mod Maps
mod Files
mod Numbers
mod Singletons
mod Strings
mod Urls
mod Absl
mod Compression
