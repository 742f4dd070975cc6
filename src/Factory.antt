-- ===== src/Factory.antt =====
-- src/communicate/message_factory.cpp: messages to bytes and back.
pub mod Hash
pub mod Encode
pub mod Decode
pub mod Cursor
pub mod RoundTrip
pub mod Checksum
pub mod Fuel
