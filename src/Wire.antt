-- ===== src/Wire.antt =====
-- crates/blindoverlap/src/wire.rs: the messages, their validation and their signed envelope.
pub mod Common
pub mod Offer
pub mod Reply
pub mod Reveal
pub mod Abort
pub mod Message
pub mod Validation
pub mod Envelope
