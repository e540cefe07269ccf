-- ===== src/Cli/Common.antt =====
-- What the commands of crates/blindoverlap-cli/src/main.rs share: errors, files, arguments.
use blind_overlap.Prelude.{
  ℕ, ◌≡◌, Option, none, some, List, [], ◌∷◌, ◌++◌, arith, length, ◌==◌, if◌then◌else◌, Result, ok,
  err, ◌>>=◌, map_err, ok_or,
}
use blind_overlap.Bytes.{Bytes, Text, ascii, eqb, eqb_refl}
use blind_overlap.Crypto.{Crypto}
use blind_overlap.Identity
use blind_overlap.Identity.{IdentityError, PartyIdentity, PublicIdentity}
use blind_overlap.Protocol.{IntersectionMode, PsiError}
use blind_overlap.Padding.{PaddingError}
use blind_overlap.Wire.Common.{WireError}
use blind_overlap.Session.Common.{SessionError}
use blind_overlap.Receipt.{ReceiptError}
use blind_overlap.Invite.{InviteError}
use blind_overlap.Lease.{LeaseError}
use blind_overlap.AbortReceipt.{AbortError}
use blind_overlap.Seal.{SealError}
use blind_overlap.Attestation.{AttestationError}
use blind_overlap.PeerBook.{PeerBookError}

-- `Box<dyn std::error::Error>`: the library's errors, and texts that the commands make. The texts of
-- foreign errors are not kept.
pub data CliError : Type 0 where
  io json hex parse_int panic : CliError
  message unknown_mode unknown_format : Text → CliError
  identity_error : IdentityError → CliError
  psi : PsiError → CliError
  padding : PaddingError → CliError
  wire_error : WireError → CliError
  session_error : SessionError → CliError
  receipt_error : ReceiptError → CliError
  invite_error : InviteError → CliError
  lease_error : LeaseError → CliError
  abort_error : AbortError → CliError
  seal_error : SealError → CliError
  attestation_error : AttestationError → CliError
  peer_book_error : PeerBookError → CliError

-- The file system: what a path reads as, if it can be opened and holds UTF-8.
abbrev pub Files : Type 0
Files = Text → Option Text

-- What a command leaves behind on standard output and on disk; a write does not fail.
pub data Effect : Type 0 where
  print : Text → Effect
  write_file : (path content : Text) → Effect

unfoldable pub perform_one : Effect → Files → Files
perform_one (print t) files = files
perform_one (write_file path content) files = λ p. if eqb p path then some content else files p

-- The effects in order.
unfoldable pub perform : List Effect → Files → Files
unfolding perform_one
perform [] files = files
perform (e ∷ es) files = perform es (perform_one e files)

-- `match output { Some(path) => fs::write(path, text)?, None => println!("{text}") }`
unfoldable pub emit : Option Text → Text → Effect
emit none text = print (text ++ (10 ∷ []))
emit (some path) text = write_file path text

-- What is written to the file of `output`, or to standard output where there is none.
unfoldable pub write_out : Option Text → Text → Effect
write_out none text = print text
write_out (some path) text = write_file path text

unfoldable pub read_to_string : Files → Text → Result CliError Text
read_to_string files path = ok_or (files path) io

-- serde_json on a type: the pretty text of a value, which is always made, and the value of a text.
pub record Serde {ℓ} (A : Type ℓ) : Type ℓ where
  pub to_string_pretty : A → Text
  pub from_str : Text → Option A

-- What is written is read back as it was.
abbrev pub ReadsBack {ℓ} : {A : Type ℓ} → Serde A → A → Type ℓ
ReadsBack j a = j.from_str (j.to_string_pretty a) ≡ some a

-- `serde_json::from_str(&fs::read_to_string(path)?)?`
unfoldable pub read_json : {A : Type 0} → ⦃j : Serde A⦄ → Files → Text → Result CliError A
unfolding read_to_string
read_json ⦃j = j⦄ files path = do text ← read_to_string files path; ok_or (j.from_str text) json

-- `match mode { "intersection" => .., "cardinality" => .., _ => return Err(..) }`
unfoldable pub parse_mode : Text → Result CliError IntersectionMode
parse_mode mode =
    if eqb mode (ascii "intersection")
    then ok IntersectionMode.intersection
    else if eqb mode (ascii "cardinality")
    then ok IntersectionMode.cardinality
    else err (unknown_mode mode)

unfoldable pub mode_name : IntersectionMode → Text
mode_name IntersectionMode.intersection = ascii "intersection"
mode_name IntersectionMode.cardinality = ascii "cardinality"

-- `StoredIdentity` of identity.rs, the JSON of an identity file.
pub record StoredIdentity : Type 0 where
  pub version : ℕ
  pub public_key_hex : Text
  pub seed_hex : Text

-- `if let Some(text) = argument { check }`
abbrev pub check_text : Option Text → (Text → Result CliError Unit) → Result CliError Unit
check_text none check = ok tt
check_text (some s) check = check s

module _ ⦃c : Crypto⦄ where
  -- `hex::decode(s)?.try_into().map_err(|_| wrong_length)?`
  unfoldable pub decode_arg : Text → Text → Result CliError Bytes
  decode_arg wrong_length s = do
    bytes ← ok_or (c.hex_decode s) hex
    if length bytes == 32 then ok bytes else err (message wrong_length)

  -- `hex::decode(s)?`
  unfoldable pub decode_hex : Text → Result CliError Bytes
  decode_hex s = ok_or (c.hex_decode s) hex

  -- `if let Some(hex) = peer { Some(PublicIdentity::from_hex(hex)?) } else { None }`
  unfoldable pub parse_peer : Option Text → Result CliError (Option PublicIdentity)
  parse_peer none = ok none
  parse_peer (some s) = do
    peer ← map_err identity_error (Identity.public_from_hex s)
    ok (some peer)

  -- `if let Some(hex) = argument { let key = PublicIdentity::from_hex(hex)?; check }`
  unfoldable pub check_key :
      Option Text → (PublicIdentity → Result CliError Unit) → Result CliError Unit
  check_key none check = ok tt
  check_key (some s) check = do key ← map_err identity_error (Identity.public_from_hex s); check key

  module _ ⦃j : Serde StoredIdentity⦄ where
    -- `PartyIdentity::load_from_file`
    unfoldable pub load_identity : Files → Text → Result CliError PartyIdentity
    load_identity files path = do
      text ← ok_or (files path) (identity_error IdentityError.io)
      stored ← ok_or (j.from_str text) (identity_error IdentityError.json)
      map_err identity_error (Identity.from_seed_hex stored.seed_hex)

    -- `PartyIdentity::save_to_file`
    unfoldable pub save_identity : PartyIdentity → Text → Effect
    save_identity party path = write_file path (
        j.to_string_pretty (record {
          version = 1;
          public_key_hex = c.hex_encode (Identity.public party);
          seed_hex = c.hex_encode party.seed;
        }))

    -- `if let Some(path) = identity_path { Some(load_from_file(path)?) } else { None }`
    unfoldable pub load_optional : Files → Option Text → Result CliError (Option PartyIdentity)
    load_optional files none = ok none
    load_optional files (some path) = do party ← load_identity files path; ok (some party)

-- A file that a command has written is read as what it wrote.
pub read-write :
    (path content : Text) (files : Files)
    → perform (write_file path content ∷ []) files path ≡ some content
unfolding perform
read-write path content files = ground (arith, eqb_refl path)

-- The names of the modes are read as the modes.
parse_mode-mode_name : (m : IntersectionMode) → parse_mode (mode_name m) ≡ ok m
unfolding parse_mode mode_name ascii eqb
parse_mode-mode_name IntersectionMode.intersection = ground arith
parse_mode-mode_name IntersectionMode.cardinality = ground arith
