-- ===== src/Codec.antt =====
-- wiretest/codec.py: BACnet/IP messages as octets, in both directions.
pub mod Constants
pub mod Encode
pub mod Tag
pub mod Tagged
pub mod Scan
pub mod Bvll
pub mod Requests
pub mod Decode
pub mod Frame
pub mod Values
