-- ===== src/Lib.antt =====
-- BlindOverlap: private set intersection over content-addressed fact identifiers, the library of
-- crates/blindoverlap and the command line of crates/blindoverlap-cli.
--
-- Two parties with sets of fact identifiers (SHA-256 hashes) mask them with secret Diffie-Hellman
-- exponents, exchange the masks, and learn the overlap of the sets or its size. Around this core
-- stand the messages that carry the masks, sessions that process them in order, freshness and replay
-- protection, identities with signatures, invites and leases that grant sessions, receipts,
-- attestations and sealed records of what was done, a book of trusted peers, policies and padding.
-- The command line reads files, calls the library, and writes files; between two online commands a
-- session stands in a file of state, from which the next command makes it again.
--
-- Parts and files (paths from the root of the repository):
--   Prelude, Order, Bytes, OrdSet, HashMap: numbers, results, byte strings, `BTreeSet`, `HashMap`.
--   Crypto: the third-party crates (sha2, hmac, x25519-dalek, ed25519-dalek, hex) as an interface.
--   FactSet: crates/blindoverlap/src/fact_id.rs, `FactSet` and `compute_set_root`.
--   Json: the canonical JSON text of the same file, which a fact's identifier hashes.
--   Protocol: crates/blindoverlap/src/protocol.rs, `PsiParty` and `PsiProtocol::intersect`.
--   Freshness: crates/blindoverlap/src/freshness.rs, deadlines and `TranscriptDigest`.
--   Replay, Replay/Persistent: crates/blindoverlap/src/replay.rs.
--   Identity: crates/blindoverlap/src/identity.rs.
--   Wire: crates/blindoverlap/src/wire.rs, a file per message and one for `WireMessage`.
--   Invite, Lease: crates/blindoverlap/src/invite.rs and lease.rs.
--   Receipt, AbortReceipt, Attestation, Seal: crates/blindoverlap/src/receipt.rs, abort.rs, attest.rs
--     and seal.rs.
--   PeerBook, Policy, Padding: peerbook.rs, policy.rs and padding.rs in the same folder.
--   Session: crates/blindoverlap/src/session.rs. Initiator and Responder are the two state machines,
--     Signed the handlers of signed messages, Bootstrap the sessions from invites and leases. Below
--     Lifecycle the calls of a session are step relations, over all that its constructors make.
--   Cli: crates/blindoverlap-cli/src/main.rs. Common and Lines are files, errors and text; FactFile is
--     `intersect` and `card`, Encoding `encode`, `canonicalize`, the identity and the wire commands,
--     Online the four commands of an online session, Receipts, Tickets, Records and Attestations the
--     papers, Books the peer book and policies.
--   Tests: the theorems on concrete inputs.
-- A file below one of these holds proofs, and is named for what they are about.
--
-- A Rust function is a function of the same name; a method that changes its object returns the
-- object after its result. Byte arrays, vectors and strings are lists of numbers, strings in UTF-8.
-- What a function reads from outside is an argument: each reading of the clock, each random draw,
-- whether a file can be read or written, and what it contains. A command is a function from the files,
-- `Text → Option Text`, to what it prints and writes, in order. The JSON library is a parameter
-- (`WireCodec`, `Serde`, `PrettyWire`, the parser and the float printer of Json), of which a theorem
-- assumes at most that a written document is read back. A theorem that needs it assumes of the
-- cryptography that Diffie-Hellman commutes (`Commutes`), that a signature verifies under the key that
-- made it (`SignsSoundly`), that hex decoding inverts encoding (`HexRoundTrips`), that the hex text of
-- 32 bytes is made of hex digits (`PrintsDigits`), or that SHA-256 gives 32 bytes (`HashesTo32`).
-- Secrecy and unforgeability are not stated.
--
-- Times are 64-bit numbers: a checked sum saturates and an unchecked one wraps, as in a release
-- build. Every loop runs over a list or a counter. Two functions run on fuel. `next_power_of_two` of
-- the standard library has 63 doublings, since the largest power of two of 64 bits is 2 ^ 63. Printing
-- a number in decimal has 20 digits, as many as the largest number of 64 bits.
--
-- Not modelled: the parsing of arguments, standard error, the reports that commands print of accepted
-- values, failing writes of commands, serde and file formats, getters, and setters of builders.
pub mod Prelude
pub mod Order
pub mod Bytes
pub mod OrdSet
pub mod Crypto
pub mod FactSet
pub mod Protocol
pub mod HashMap
pub mod Freshness
pub mod Replay
pub mod Identity
pub mod Wire
pub mod Invite
pub mod Lease
pub mod PeerBook
pub mod Policy
pub mod Padding
pub mod Receipt
pub mod AbortReceipt
pub mod Attestation
pub mod Seal
pub mod Session
pub mod Json
pub mod Cli
pub mod Tests
