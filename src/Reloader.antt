-- ===== src/Reloader.antt =====
-- cpp_lib/reloader: files that are loaded again when they change, and the thread that watches them.
pub mod File
pub mod Config
pub mod WatchDog
