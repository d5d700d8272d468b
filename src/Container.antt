-- ===== src/Container.antt =====
-- cpp_lib/container: the maps and the double buffer.
pub mod HashMap
pub mod ConcurrentMap
pub mod DoubleBuffer
pub mod ListMap
