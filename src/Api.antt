-- ===== src/Api.antt =====
-- The data types of nervusdb-api/src/lib.rs that the storage engine shares with its clients.
pub mod Property
pub mod Edge
pub mod Codec
pub mod Decode
pub mod Words
pub mod Payload
pub mod Storable
pub mod Depth
pub mod RoundTrip
