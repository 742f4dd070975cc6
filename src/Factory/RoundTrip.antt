-- ===== src/Factory/RoundTrip.antt =====
-- `decodeMessage` reads back what `encodeMessage` writes.
pub mod Head
pub mod Options
pub mod Section
pub mod Whole
pub mod Wire
