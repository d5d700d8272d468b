-- ===== src/Util.antt =====
-- cpp_lib/util: the helpers on strings, files, URLs and numbers, and the singleton.
pub mod Trim
pub mod File
pub mod Singleton
pub mod Math
pub mod Url
pub mod Time
pub mod Strings
pub mod Compress
