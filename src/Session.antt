-- ===== src/Session.antt =====
-- crates/blindoverlap/src/session.rs: the online protocol over wire messages.
pub mod Common
pub mod Initiator
pub mod Responder
pub mod Signed
pub mod Bootstrap
pub mod Exchange
pub mod Guards
pub mod Lifecycle
