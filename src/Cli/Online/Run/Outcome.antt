-- ===== src/Cli/Online/Run/Outcome.antt =====
-- What a run of the online commands comes to: the saved state holds a secret of zeros, and not the
-- one of the offer.
use blind_overlap.Prelude.{◌≤◌, ◌≡◌, refl, ◌∙◌, none, some, List, [], ◌∷◌, map, arith, length, ok}
use blind_overlap.Bytes.{Text, ascii, eqb, eqb_refl, bytes_order}
use blind_overlap.Crypto.{Crypto, HexRoundTrips}
use blind_overlap.FactSet.{FactSet}
use blind_overlap.Freshness.{new_deadline, validate}
use blind_overlap.Protocol.{MaskedElement, IntersectionMode, max_set_size, mask}
use blind_overlap.Wire.Offer
use blind_overlap.Wire.Offer.{MaskedSetOffer}
use blind_overlap.Wire.Reply
use blind_overlap.Wire.Reply.{MaskedSetReply}
use blind_overlap.Wire.Common.{masked_set_reply_v2}
use blind_overlap.Wire.Message.{WireMessage, WireCodec}
use blind_overlap.Cli.Common.{
  Files, perform, write_file, Serde, ReadsBack, StoredIdentity, parse_mode, read_to_string,
}
use blind_overlap.Cli.FactFile.{load_fact_set, load_fact_ids}
use blind_overlap.Cli.FactFile.Intersecting.{load_fact_set-IsValid, load_fact_set-Are32}
use blind_overlap.Cli.Online.{InitiatorState, ResponderState, PrettyWire, zeros, pad_if_asked}
use blind_overlap.Cli.Online.Offering.{ttl_or_default, offer_state}
use blind_overlap.Cli.Online.Completing.Results.{Holds, outcome, cmd_online_complete-outcome}
use blind_overlap.Cli.Online.Run.{
  Plan, online_run, made_offer, made_reply, saved_state, replied_state, input_a, input_b,
  offer_json, reply_json, state_a_json, state_b_json, cmd_online_offer_writes,
  cmd_online_reply_writes,
}

module _ ⦃c : Crypto⦄ ⦃w : WireCodec⦄ ⦃p : PrettyWire⦄ ⦃i : Serde StoredIdentity⦄
    ⦃j : Serde InitiatorState⦄ ⦃r : Serde ResponderState⦄ where
  -- The message text is read as the unsigned message that it was made of.
  abbrev ReadsUnsigned : WireMessage → Type 0
  ReadsUnsigned m = (w.signed_from_str (p.pretty m) ≡ none) × (w.from_str (p.pretty m) ≡ some m)

  abbrev plan_offer : Plan → List MaskedElement → MaskedSetOffer
  plan_offer plan masked = made_offer plan.offer_made plan.drawn_a plan.session plan.ttl_secs masked

  abbrev plan_reply : Plan → List MaskedElement → FactSet → MaskedSetReply
  plan_reply plan masked b =
      made_reply plan.reply_made plan.drawn_b plan.ttl_secs plan.drawn_a.nonce
        (plan_offer plan masked) b

  abbrev plan_state : Plan → FactSet → IntersectionMode → InitiatorState
  plan_state plan a m =
      saved_state plan.offer_made plan.drawn_a plan.session plan.mode plan.ttl_secs a m

  -- The two inputs can be loaded, the texts are read as what they were made of, and the offer is
  -- checked before it expires.
  pub record Runs (plan : Plan) (files : Files) (a b : FactSet) (m : IntersectionMode)
      (masked : List MaskedElement) : Type 0 where
    pub loads_a : load_fact_set files input_a ≡ ok a
    pub loads_b : load_fact_set files input_b ≡ ok b
    pub mode_is : parse_mode plan.mode ≡ ok m
    pub small_a : length a.ids ≤ max_set_size
    pub small_b : length b.ids ≤ max_set_size
    pub padded :
        pad_if_asked plan.random plan.pad_to plan.pad_secret plan.session
          (map (mask plan.drawn_a.secret) a.ids)
        ≡ ok masked
    pub offer_read : ReadsUnsigned (WireMessage.offer (plan_offer plan masked))
    pub reply_read : ReadsUnsigned (WireMessage.reply (plan_reply plan masked b))
    pub state_read : ReadsBack j (plan_state plan a m)
    pub timely :
        validate plan.offer_checked (new_deadline plan.offer_made (ttl_or_default plan.ttl_secs))
        ≡ ok tt

  -- The files after the offer, and after the reply.
  abbrev after_offer : Text → Text → Files → Files
  after_offer offer state files =
      perform (write_file offer_json offer ∷ write_file state_a_json state ∷ []) files

  abbrev after_reply : Text → Text → Files → Files
  after_reply reply state files =
      perform (write_file reply_json reply ∷ write_file state_b_json state ∷ []) files

  load_after_offer :
      (offer state : Text) (files : Files)
      → load_fact_set (after_offer offer state files) input_b ≡ load_fact_set files input_b
  unfolding load_fact_set load_fact_ids read_to_string perform eqb ascii
  load_after_offer offer state files = refl

  offer_after_offer :
      (offer state : Text) (files : Files) → after_offer offer state files offer_json ≡ some offer
  unfolding perform eqb ascii
  offer_after_offer offer state files = refl

  read_after_reply :
      (offer state reply state_b : Text) (files : Files)
      → (after_reply reply state_b (after_offer offer state files) reply_json ≡ some reply)
        × (after_reply reply state_b (after_offer offer state files) state_a_json ≡ some state)
  unfolding perform eqb ascii
  read_after_reply offer state reply state_b files = (refl, refl)

  plan-Holds :
      (plan : Plan) (a b : FactSet) (m : IntersectionMode) (masked : List MaskedElement)
      → parse_mode plan.mode ≡ ok m
      → Holds (plan_state plan a m) (plan_reply plan masked b).session_id a.ids (zeros 32) m
  unfolding offer_state Reply.new_v2 Offer.new_v2
  plan-Holds plan a b m masked e = record {
    same_session = refl;
    same_ids = refl;
    same_secret = refl;
    same_mode = e;
  }

  plan_reply-validate :
      (plan : Plan) (masked : List MaskedElement) (b : FactSet)
      → Reply.validate (plan_reply plan masked b) ≡ ok tt
  unfolding Reply.validate Reply.new_v2
  plan_reply-validate plan masked b = ground (arith, eqb_refl masked_set_reply_v2)

  -- The result is computed with a secret of zeros.
  pub online_run-outcome :
      HexRoundTrips c
      → (plan : Plan) (files : Files) (a b : FactSet) (m : IntersectionMode)
        (masked : List MaskedElement)
      → Runs plan files a b m masked
      → online_run plan files ≡ outcome (zeros 32) a.ids m plan.output (plan_reply plan masked b)
  unfolding online_run zeros
  online_run-outcome reads plan files a b m masked runs =
      let offer = p.pretty (WireMessage.offer (plan_offer plan masked)) in
      let state = j.to_string_pretty (plan_state plan a m) in
      let reply = p.pretty (WireMessage.reply (plan_reply plan masked b)) in
      let state_b = r.to_string_pretty (
        replied_state plan.reply_made plan.drawn_b plan.mode plan.ttl_secs plan.drawn_a.nonce
          (plan_offer plan masked) b m) in
      let offered =
        cmd_online_offer_writes plan.offer_made plan.drawn_a plan.random files input_a plan.session
          plan.mode plan.ttl_secs plan.pad_to plan.pad_secret offer_json state_a_json a m masked
          runs.loads_a runs.mode_is runs.small_a runs.padded in
      let replied =
        cmd_online_reply_writes plan.offer_checked plan.reply_made plan.fresh plan.drawn_b
          plan.random (after_offer offer state files) input_b offer_json plan.mode plan.ttl_secs
          reply_json state_b_json offer b m plan.offer_made plan.drawn_a plan.session masked
          (load_after_offer offer state files ∙ runs.loads_b) runs.mode_is runs.small_b
          (offer_after_offer offer state files) runs.offer_read.0 runs.offer_read.1 runs.timely in
      let (reply_file, state_file) = read_after_reply offer state reply state_b files in
      ground (arith, offered, replied)
      ∙ cmd_online_complete-outcome reads plan.restarted plan.reply_checked plan.nonce plan.fresh
          (after_reply reply state_b (after_offer offer state files)) reply_json state_a_json reply
          state plan.output (plan_state plan a m) (plan_reply plan masked b) a.ids (zeros 32) m
          state_file runs.state_read (plan-Holds plan a b m masked runs.mode_is)
          (load_fact_set-IsValid files input_a a runs.loads_a).ascending
          (load_fact_set-Are32 files input_a a runs.loads_a) refl runs.small_a reply_file
          runs.reply_read.0 runs.reply_read.1 (plan_reply-validate plan masked b)
