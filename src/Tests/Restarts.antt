-- ===== src/Tests/Restarts.antt =====
-- The online commands that make a session again, on states with the own secret of a party.
use blind_overlap.Prelude.{
  ℕ, ◌+◌, ◌≡◌, ◌≢◌, refl, ap, true, false, none, some, List, [], ◌∷◌, map, arith, ok, if◌then◌else◌,
}
use blind_overlap.Bytes.{Bytes, ascii, eqb, lex, bytes_order}
use blind_overlap.OrdSet
use blind_overlap.OrdSet.{IsAscending}
use blind_overlap.FactSet.{FactId}
use blind_overlap.Protocol.{IntersectionMode, mask, apply_mask}
use blind_overlap.Protocol.Exactness.{overlap, result_of}
use blind_overlap.Wire.Reply
use blind_overlap.Wire.Reply.{MaskedSetReply}
use blind_overlap.Wire.Reveal
use blind_overlap.Wire.Reveal.{IntersectionReveal}
use blind_overlap.Wire.Message.{WireCodec}
use blind_overlap.Cli.Common.{
  CliError, session_error, Files, Effect, write_out, Serde, StoredIdentity,
}
use blind_overlap.Cli.Lines.{unlines}
use blind_overlap.Cli.FactFile.{result_lines}
use blind_overlap.Cli.Online.{InitiatorState, ResponderState, zeros}
use blind_overlap.Cli.Online.Completing.{cmd_online_complete}
use blind_overlap.Cli.Online.Completing.Results.{Holds, cmd_online_complete-overlap}
use blind_overlap.Cli.Online.Revealing.{cmd_online_reveal}
use blind_overlap.Cli.Online.Revealing.Dummies
use blind_overlap.Cli.Online.Revealing.Dummies.{cmd_online_reveal-empty}
use blind_overlap.Tests.Commands.{
  unary_crypto, unary-Commutes, unary-HexRoundTrips, id_of, ids-TellsApart, encode, total,
}
use blind_overlap.Tests.Online.{offer_with, kinds, codec_for, no_identity, no_reveal}

abbrev ids_a : List FactId
ids_a = id_of 1 ∷ id_of 2 ∷ []

abbrev ids_b : List FactId
ids_b = id_of 2 ∷ id_of 3 ∷ []

-- A state with the initiator's own secret, and files that hold it and the reply.
abbrev kept : InitiatorState
kept = record {
  session_id = ascii "s1";
  mode = ascii "intersection";
  original_count = 2;
  fact_ids_hex = map encode ids_a;
  secret_hex = encode (id_of 10);
  masked_elements_hex = [];
  nonce_hex = none;
  ttl_secs = none;
}

abbrev kept_state : Serde InitiatorState
kept_state = record { to_string_pretty = λ s. ascii "state"; from_str = λ t. some kept }

abbrev run_files : Files
run_files p = if eqb p (ascii "reply") then some (1 ∷ []) else some (2 ∷ [])

abbrev the_reply : MaskedSetReply
the_reply =
    Reply.new (ascii "s1") (map (mask (id_of 20)) ids_b)
      (apply_mask (id_of 20) (map (mask (id_of 10)) ids_a))

abbrev reply_codec : WireCodec
reply_codec = codec_for (offer_with []) the_reply no_reveal

kept-Holds : Holds kept the_reply.session_id ids_a (id_of 10) IntersectionMode.intersection
unfolding Reply.new blind_overlap.Cli.Common.parse_mode eqb ascii
kept-Holds = record { same_session = refl; same_ids = refl; same_secret = refl; same_mode = refl }

ids_a-IsAscending : IsAscending ids_a
unfolding lex
ids_a-IsAscending = ((refl, tt), (tt, tt))

cmd_online_complete-overlap_example :
    cmd_online_complete ⦃w = reply_codec⦄ ⦃j = kept_state⦄ 103 104
      (id_of 7)
      (id_of 7)
      run_files
      (ascii "reply")
      (ascii "state")
      none
      false
      none
      none
      none
    ≡ ok (
        write_out none (
          unlines (result_lines [] (result_of (overlap ids_a ids_b) IntersectionMode.intersection)))
        ∷ [])
unfolding Reply.new eqb ascii Reply.validate
cmd_online_complete-overlap_example =
    cmd_online_complete-overlap ⦃w = reply_codec⦄ ⦃j = kept_state⦄ unary-HexRoundTrips
      unary-Commutes 103 104 (id_of 7) (id_of 7) run_files (ascii "reply") (ascii "state") (1 ∷ [])
      (2 ∷ []) none kept the_reply ids_a ids_b (id_of 10) (id_of 20) IntersectionMode.intersection
      refl refl kept-Holds ids_a-IsAscending (refl, (refl, tt)) refl (omega arith) refl refl refl
      refl refl refl (ids-TellsApart (id_of 20) (id_of 10) 1 2 2 3)

-- A state with the responder's own secret, and a reveal of its doubly masked elements.
abbrev kept_b : ResponderState
kept_b = record {
  session_id = ascii "s1";
  mode = ascii "intersection";
  original_count = 2;
  fact_ids_hex = map encode ids_b;
  secret_hex = encode (id_of 20);
  masked_elements_hex = [];
  initiator_doubly_masked_hex = encode (id_of 31) ∷ encode (id_of 32) ∷ [];
  nonce_hex = none;
  initiator_nonce_hex = none;
  ttl_secs = none;
}

abbrev kept_b_state : Serde ResponderState
kept_b_state = record { to_string_pretty = λ s. ascii "state"; from_str = λ t. some kept_b }

abbrev the_reveal : IntersectionReveal
the_reveal =
    Reveal.new (ascii "s1")
      (map (λ x. unary_crypto.diffie_hellman (id_of 10) (mask (id_of 20) x)) ids_b)

abbrev reveal_codec : WireCodec
reveal_codec = codec_for (offer_with []) the_reply the_reveal

kept_b-Holds :
    Dummies.Holds kept_b the_reveal.session_id ids_b (id_of 20) IntersectionMode.intersection
unfolding Reveal.new blind_overlap.Cli.Common.parse_mode eqb ascii
kept_b-Holds = record { same_session = refl; same_ids = refl; same_secret = refl; same_mode = refl }

ids_b-IsAscending : IsAscending ids_b
unfolding lex
ids_b-IsAscending = ((refl, tt), (tt, tt))

not_zeros :
    (x : FactId)
    → OrdSet.contains x ids_b ≡ true
    → unary_crypto.diffie_hellman (id_of 10) (mask (id_of 20) x)
      ≢ unary_crypto.diffie_hellman (id_of 20) (zeros 32)
unfolding mask zeros
not_zeros x p e = let sums : 10 + (20 + total x + 0) ≡ 20 + 0 = ap first e in omega arith
  where
    first : Bytes → ℕ
    first [] = 0
    first (z ∷ l) = z

cmd_online_reveal-empty_example :
    cmd_online_reveal ⦃w = reveal_codec⦄ ⦃j = kept_b_state⦄ 105
      (id_of 7)
      (id_of 7)
      run_files
      (ascii "reveal")
      (ascii "reveal")
      none
      none
    ≡ ok (
        write_out none (unlines (result_lines [] (result_of [] IntersectionMode.intersection)))
        ∷ [])
unfolding Reveal.new eqb ascii Reveal.validate
cmd_online_reveal-empty_example =
    cmd_online_reveal-empty ⦃w = reveal_codec⦄ ⦃j = kept_b_state⦄ unary-HexRoundTrips 105 (id_of 7)
      (id_of 7) run_files (ascii "reveal") (ascii "reveal") (2 ∷ []) (2 ∷ []) none kept_b the_reveal
      ids_b (id_of 20) (id_of 10) IntersectionMode.intersection refl refl kept_b-Holds
      ids_b-IsAscending (refl, (refl, tt)) refl (omega arith) refl refl refl refl refl not_zeros
