-- ===== src/Parser/Frame.antt =====
-- The parser on the bytes of a whole message.
pub mod Head
pub mod Section
pub mod Data
pub mod Queue
