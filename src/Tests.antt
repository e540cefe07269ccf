-- ===== src/Tests.antt =====
-- The theorems on concrete inputs.
pub mod Common
pub mod Parties
pub mod Commands
pub mod Pipelines
pub mod Online
pub mod Restarts
pub mod Exports
pub mod Papers
pub mod Sessions
pub mod Lifecycles
pub mod Signatures
pub mod Tickets
pub mod Sets
pub mod Stores
pub mod Rules
pub mod Receipts
pub mod Records
