-- ===== src/Serialize.antt =====
-- cpp_lib/serialize: reading and writing JSON through rapidjson.
pub mod Rapidjson
pub mod Integers
pub mod Parse
pub mod Write
pub mod Fields
pub mod Macros
pub mod Ranges
pub mod RoundTrip
pub mod Maps
pub mod Types
pub mod Structs
pub mod Text
