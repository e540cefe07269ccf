-- ===== src/Cli.antt =====
-- crates/blindoverlap-cli/src/main.rs: the commands, over the files that they read and write.
pub mod Common
pub mod Lines
pub mod FactFile
pub mod Online
pub mod Receipts
pub mod Tickets
pub mod Encoding
pub mod Records
pub mod Attestations
pub mod Books
