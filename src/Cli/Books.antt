-- ===== src/Cli/Books.antt =====
-- The commands on peer books and policies of crates/blindoverlap-cli/src/main.rs.
pub mod Reopened
use blind_overlap.Prelude.{
  ℕ, Bool, true, false, Option, none, some, List, [], ◌∷◌, ◌++◌, length, if◌then◌else◌, Result, ok,
  err, ◌>>=◌, map_err,
}
use blind_overlap.Bytes.{Text, ascii}
use blind_overlap.Crypto.{Crypto}
use blind_overlap.PeerBook
use blind_overlap.PeerBook.{BookCodec, TrustedPeer, TrustedPeerBook, open_book, list}
use blind_overlap.PeerBook.Hex.{add_hex, remove_hex}
use blind_overlap.Policy
use blind_overlap.Policy.{PolicyProfile, PolicyError}
use blind_overlap.Replay.Persistent.{File}
use blind_overlap.Cli.Common.{CliError, peer_book_error, Files, Effect, print, Serde, read_json}
use blind_overlap.Cli.Lines.{unlines, decimal}

module _ ⦃c : Crypto⦄ (codec : BookCodec) where
  -- `TrustedPeerBook::open` and then `add_hex`: the outcome and the file. `readable` and `writable` tell
  -- whether the file can be read and written.
  unfoldable pub cmd_peerbook_add :
      (now : ℕ)
      → (readable writable : Bool) → File
      → (pubkey_hex : Text) → (nickname : Option Text) → Result CliError Unit × File
  cmd_peerbook_add now readable writable file pubkey_hex nickname =
      elim (open_book codec readable file) [
        | err e ↦ (err (peer_book_error e), file)
        | ok book ↦
            let (added, book', file') = add_hex codec now writable pubkey_hex nickname book file in
            (map_err peer_book_error added, file')
      ]

  unfoldable pub cmd_peerbook_remove :
      (readable writable : Bool) → File → (pubkey_hex : Text) → Result CliError TrustedPeer × File
  cmd_peerbook_remove readable writable file pubkey_hex = elim (open_book codec readable file) [
    | err e ↦ (err (peer_book_error e), file)
    | ok book ↦
        let (removed, book', file') = remove_hex codec writable pubkey_hex book file in
        (map_err peer_book_error removed, file')
  ]

  -- `if let Some(nick) = &peer.nickname { println!(..) }`
  unfoldable pub nickname_lines : Option Text → List Text
  nickname_lines none = []
  nickname_lines (some nick) = (ascii "  nickname: " ++ nick) ∷ []

  unfoldable pub peer_lines : List TrustedPeer → List Text
  unfolding nickname_lines
  peer_lines [] = []
  peer_lines (peer ∷ rest) =
      ascii "---"
      ∷ (ascii "  pubkey: " ++ c.hex_encode peer.pubkey)
      ∷ (nickname_lines peer.nickname
          ++ ((ascii "  added_at: " ++ decimal peer.added_at) ∷ peer_lines rest))

  unfoldable pub cmd_peerbook_list : (readable : Bool) → File → Result CliError (List Effect)
  unfolding peer_lines
  cmd_peerbook_list readable file = do
    book ← map_err peer_book_error (open_book codec readable file)
    ok (
        print (
          unlines
            ((ascii "Trusted peers: " ++ decimal (PeerBook.len book)) ∷ peer_lines (list book)))
        ∷ [])

-- The outcome of `policy-check`: the checked profile, or an error upon which the process exits with 1.
unfoldable pub cmd_policy_check :
    ⦃j : Serde PolicyProfile⦄
    → Files
    → (policy_path : Text) → (has_trusted_peer : Bool) → (pad_to : Option ℕ) → (ttl_secs : ℕ)
    → (has_lease has_invite is_intersection_mode : Bool)
    → Result CliError (Result PolicyError PolicyProfile)
cmd_policy_check files policy_path has_trusted_peer pad_to ttl_secs has_lease has_invite
      is_intersection_mode =
    do
      policy ← read_json {A = PolicyProfile} files policy_path
      let checked = Policy.check policy (record {
        has_trusted_peer = has_trusted_peer;
        pad_to = pad_to;
        ttl_secs = ttl_secs;
        has_lease = has_lease;
        has_invite = has_invite;
        is_intersection_mode = is_intersection_mode;
      })
      ok (checked >>= λ passed. ok policy)

-- What is printed on standard output.
unfoldable pub cmd_policy_show :
    ⦃j : Serde PolicyProfile⦄
    → Files
    → (policy_path : Option Text) → (strict : Bool) → Result CliError (List Effect)
cmd_policy_show ⦃j = j⦄ files policy_path strict = do
  policy ← elim policy_path [
    | some path ↦ read_json {A = PolicyProfile} files path
    | none ↦ ok (
        if strict
        then Policy.strict (ascii "example-strict")
        else Policy.permissive (ascii "example-permissive"))
  ]
  ok (print (j.to_string_pretty policy ++ (10 ∷ [])) ∷ [])
