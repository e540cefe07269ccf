-- ===== src/Tests/Online.antt =====
-- Runs of the online commands on two files with one identifier in common.
use blind_overlap.Prelude.{
  ℕ, ◌+◌, ◌≤◌, ◌≡◌, ◌≢◌, inl, inr, refl, ap, true, Option, none, some, List, [], ◌∷◌, ◌++◌, map,
  arith, length, ok, err, if◌then◌else◌,
}
use blind_overlap.Bytes.{Bytes, ascii, eqb, lex, bytes_order}
use blind_overlap.OrdSet
use blind_overlap.OrdSet.{IsAscending}
use blind_overlap.FactSet.{FactId, from_ids}
use blind_overlap.Freshness.{new_deadline, validate}
use blind_overlap.Padding.{generate_dummy_masked_elements}
use blind_overlap.Protocol.{MaskedElement, IntersectionMode, mask, apply_mask}
use blind_overlap.Protocol.Exactness.{result_of}
use blind_overlap.Session.Common.{element_count_mismatch, config_with_ttl}
use blind_overlap.Session.Initiator
use blind_overlap.Session.Initiator.{Drawn}
use blind_overlap.Wire.Offer
use blind_overlap.Wire.Offer.{MaskedSetOffer}
use blind_overlap.Wire.Reply
use blind_overlap.Wire.Reply.{MaskedSetReply}
use blind_overlap.Wire.Reveal
use blind_overlap.Wire.Reveal.{IntersectionReveal}
use blind_overlap.Wire.Message
use blind_overlap.Wire.Message.{WireMessage, WireCodec}
use blind_overlap.Cli.Common.{
  CliError, session_error, Files, Effect, write_out, Serde, StoredIdentity,
}
use blind_overlap.Cli.Lines.{unlines}
use blind_overlap.Cli.FactFile.{result_lines}
use blind_overlap.Cli.Online.{InitiatorState, ResponderState, PrettyWire, zeros, pad_if_asked}
use blind_overlap.Cli.Online.Offering.{offer_state}
use blind_overlap.Cli.Online.Run.{Plan, online_run}
use blind_overlap.Cli.Online.Run.Outcome.{Runs}
use blind_overlap.Cli.Online.Run.Faults.{online_run-empty, online_run-padded}
use blind_overlap.Tests.Commands.{
  unary_crypto, unary-HexRoundTrips, id_of, files, set_a, set_b, loads_a, loads_b, total, total_id,
  one_of_two,
}

abbrev pub drawn_a : Drawn
drawn_a = record { secret = id_of 10; nonce = id_of 5 }

abbrev pub drawn_b : Drawn
drawn_b = record { secret = id_of 20; nonce = id_of 6 }

abbrev pub masks_a : List MaskedElement
masks_a = map (mask (id_of 10)) set_a.ids

-- The messages of a run, for the elements of the offer.
abbrev pub offer_with : List MaskedElement → MaskedSetOffer
offer_with masked = Offer.new_v2 (ascii "s1") masked (id_of 5) (new_deadline 100 30)

abbrev reply_with : List MaskedElement → MaskedSetReply
reply_with masked =
    Reply.new_v2 (ascii "s1") (map (mask (id_of 20)) set_b.ids) (apply_mask (id_of 20) masked)
      (id_of 5) (id_of 6) (new_deadline 102 30)

-- A kind of message is one byte, and no text is a signed message.
instance abbrev pub kinds : PrettyWire
kinds = record {
  pretty = λ m. elim m [
    | Message.offer o ↦ 0 ∷ []
    | Message.reply r ↦ 1 ∷ []
    | Message.reveal r ↦ 2 ∷ []
    | Message.abort a ↦ 3 ∷ []
  ];
  signed_pretty = λ s. [];
}

abbrev pub codec_for : MaskedSetOffer → MaskedSetReply → IntersectionReveal → WireCodec
codec_for offer reply reveal = record {
  to_string = λ m. [];
  from_str = λ t.
      if eqb t (0 ∷ [])
      then some (Message.offer offer)
      else if eqb t (1 ∷ [])
      then some (Message.reply reply)
      else if eqb t (2 ∷ [])
      then some (Message.reveal reveal)
      else none;
  signed_to_string = λ s. [];
  signed_from_str = λ t. none;
}

instance abbrev pub no_identity : Serde StoredIdentity
no_identity = record { to_string_pretty = λ i. []; from_str = λ t. none }

-- The state that `online-offer` saves.
abbrev saved : InitiatorState
saved =
    offer_state (ascii "s1") (ascii "intersection") 30 set_a
      (Initiator.initial 100 drawn_a (ascii "s1") set_a IntersectionMode.intersection
        (config_with_ttl 30))
      (offer_with masks_a)

instance abbrev one_state : Serde InitiatorState
one_state = record { to_string_pretty = λ s. ascii "state"; from_str = λ t. some saved }

instance abbrev pub no_state : Serde ResponderState
no_state = record { to_string_pretty = λ s. ascii "state"; from_str = λ t. none }

abbrev plan_with : Option ℕ → Plan
plan_with pad_to = record {
  session = ascii "s1";
  mode = ascii "intersection";
  ttl_secs = some 30;
  pad_to = pad_to;
  pad_secret = none;
  output = some (ascii "out.txt");
  drawn_a = drawn_a;
  drawn_b = drawn_b;
  random = id_of 8;
  offer_made = 100;
  offer_checked = 101;
  reply_made = 102;
  restarted = 103;
  reply_checked = 104;
  nonce = id_of 7;
  fresh = id_of 7;
}

abbrev pub no_reveal : IntersectionReveal
no_reveal = Reveal.new (ascii "s1") []

abbrev pub plain_codec : WireCodec
plain_codec = codec_for (offer_with masks_a) (reply_with masks_a) no_reveal

plain-Runs :
    Runs ⦃w = plain_codec⦄ (plan_with none) files set_a set_b IntersectionMode.intersection masks_a
unfolding ascii eqb blind_overlap.Cli.Common.parse_mode from_ids OrdSet.collect lex pad_if_asked
    blind_overlap.Cli.Online.Offering.ttl_or_default Offer.new_v2 validate new_deadline
plain-Runs = record {
  loads_a = loads_a;
  loads_b = loads_b;
  mode_is = refl;
  small_a = omega arith;
  small_b = omega arith;
  padded = refl;
  offer_read = (refl, refl);
  reply_read = (refl, refl);
  state_read = refl;
  timely = refl;
}

-- Two identifiers of the sets are far apart from two others.
sums_differ :
    (x y : FactId)
    → OrdSet.contains x set_a.ids ≡ true
    → OrdSet.contains y set_b.ids ≡ true
    → unary_crypto.diffie_hellman (id_of 20) (mask (id_of 10) x)
      ≢ unary_crypto.diffie_hellman (zeros 32) (mask (id_of 20) y)
unfolding lex from_ids OrdSet.collect mask zeros
sums_differ x y p q e =
    let x_small : total x ≤ 2 = elim (one_of_two x 1 2 p) [
      | inl at ↦ below x 1 2 at (omega arith)
      | inr at ↦ below x 2 2 at (omega arith)
    ] in
    let y_small : total y ≤ 3 = elim (one_of_two y 2 3 q) [
      | inl at ↦ below y 2 3 at (omega arith)
      | inr at ↦ below y 3 3 at (omega arith)
    ] in
    let sums : 20 + (10 + total x + 0) ≡ 0 + (20 + total y + 0) = ap first e in omega arith
  where
    first : Bytes → ℕ
    first [] = 0
    first (z ∷ l) = z

    below : (z : FactId) (n m : ℕ) → z ≡ id_of n → n ≤ m → total z ≤ m
    below z n m at h = omega (arith, ap total at, total_id n)

online_run-empty_example :
    online_run ⦃w = plain_codec⦄ (plan_with none) files
    ≡ ok (
        write_out
          (some (ascii "out.txt"))
          (unlines (result_lines [] (result_of [] IntersectionMode.intersection)))
        ∷ [])
online_run-empty_example =
    online_run-empty ⦃w = plain_codec⦄ unary-HexRoundTrips (plan_with none) files set_a set_b
      IntersectionMode.intersection plain-Runs sums_differ

-- With a dummy in the offer.
abbrev padded_masks : List MaskedElement
padded_masks = masks_a ++ generate_dummy_masked_elements (id_of 8) (ascii "s1") 1

abbrev padded_codec : WireCodec
padded_codec = codec_for (offer_with padded_masks) (reply_with padded_masks) no_reveal

padded-Runs :
    Runs ⦃w = padded_codec⦄
      (plan_with (some 3))
      files
      set_a
      set_b
      IntersectionMode.intersection
      padded_masks
unfolding ascii eqb blind_overlap.Cli.Common.parse_mode from_ids OrdSet.collect lex pad_if_asked
    blind_overlap.Padding.pad_masked_elements blind_overlap.Cli.Online.Offering.ttl_or_default
    Offer.new_v2 validate new_deadline
padded-Runs = record {
  loads_a = loads_a;
  loads_b = loads_b;
  mode_is = refl;
  small_a = omega arith;
  small_b = omega arith;
  padded = refl;
  offer_read = (refl, refl);
  reply_read = (refl, refl);
  state_read = refl;
  timely = refl;
}

online_run-padded_example :
    online_run ⦃w = padded_codec⦄ (plan_with (some 3)) files
    ≡ err (session_error (element_count_mismatch (length set_a.ids) 3))
unfolding from_ids OrdSet.collect lex
online_run-padded_example =
    online_run-padded ⦃w = padded_codec⦄ unary-HexRoundTrips (plan_with (some 3)) files set_a set_b
      IntersectionMode.intersection 3 padded_masks refl (omega arith) padded-Runs
