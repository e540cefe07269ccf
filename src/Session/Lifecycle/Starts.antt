-- ===== src/Session/Lifecycle/Starts.antt =====
-- The constructors of the two sessions of crates/blindoverlap/src/session.rs.
use blind_overlap.Prelude.{ℕ, ◌≡◌, arith, ok}
use blind_overlap.Bytes.{Text}
use blind_overlap.Crypto.{Crypto}
use blind_overlap.FactSet.{FactSet}
use blind_overlap.Identity.{PublicIdentity, PartyIdentity}
use blind_overlap.Invite.{InviteTicket}
use blind_overlap.Lease.{SessionLease}
use blind_overlap.Protocol.{IntersectionMode}
use blind_overlap.Session.Common.{SessionConfig}
use blind_overlap.Session.Initiator
use blind_overlap.Session.Initiator.{InitiatorSession, Drawn}
use blind_overlap.Session.Responder
use blind_overlap.Session.Responder.{ResponderSession}
use blind_overlap.Session.Bootstrap.{
  initiator_from_invite, initiator_from_lease, responder_from_invite, responder_from_lease,
}

module _ ⦃c : Crypto⦄ where
  -- A session that a constructor of `InitiatorSession` made for a set: bound to a peer or not.
  pub data InitiatorStart : FactSet → InitiatorSession → Type 0 where
    by_new :
        (now : ℕ) (drawn : Drawn) (session_id : Text) (a : FactSet) (mode : IntersectionMode)
        (s : InitiatorSession)
        → Initiator.new now drawn session_id a mode ≡ ok s
        → InitiatorStart a s
    by_config :
        (now : ℕ) (drawn : Drawn) (session_id : Text) (a : FactSet) (mode : IntersectionMode)
        (config : SessionConfig) (s : InitiatorSession)
        → Initiator.with_config now drawn session_id a mode config ≡ ok s
        → InitiatorStart a s
    by_secret :
        (now : ℕ) (drawn : Drawn) (session_id : Text) (a : FactSet) (mode : IntersectionMode)
        (s : InitiatorSession)
        → Initiator.with_secret now drawn session_id a mode ≡ ok s
        → InitiatorStart a s
    by_binding :
        (now : ℕ) (drawn : Drawn) (session_id : Text) (a : FactSet) (mode : IntersectionMode)
        (party : PartyIdentity) (peer : PublicIdentity) (s : InitiatorSession)
        → Initiator.with_channel_binding now drawn session_id a mode party peer ≡ ok s
        → InitiatorStart a s
    by_invite :
        (now later : ℕ) (drawn : Drawn) (ticket : InviteTicket) (a : FactSet)
        (mode : IntersectionMode) (party : PartyIdentity) (s : InitiatorSession)
        → initiator_from_invite now later drawn ticket a mode party ≡ ok s
        → InitiatorStart a s
    by_lease :
        (now later : ℕ) (drawn : Drawn) (l : SessionLease) (a : FactSet) (mode : IntersectionMode)
        (party : PartyIdentity) (s : InitiatorSession)
        → initiator_from_lease now later drawn l a mode party ≡ ok s
        → InitiatorStart a s

  -- A session that a constructor of `ResponderSession` made for a set.
  pub data ResponderStart : FactSet → ResponderSession → Type 0 where
    answers_new :
        (drawn : Drawn) (session_id : Text) (a : FactSet) (mode : IntersectionMode)
        (s : ResponderSession)
        → Responder.new drawn session_id a mode ≡ ok s
        → ResponderStart a s
    answers_config :
        (drawn : Drawn) (session_id : Text) (a : FactSet) (mode : IntersectionMode)
        (config : SessionConfig) (s : ResponderSession)
        → Responder.with_config drawn session_id a mode config ≡ ok s
        → ResponderStart a s
    answers_secret :
        (drawn : Drawn) (session_id : Text) (a : FactSet) (mode : IntersectionMode)
        (s : ResponderSession)
        → Responder.with_secret drawn session_id a mode ≡ ok s
        → ResponderStart a s
    answers_binding :
        (drawn : Drawn) (session_id : Text) (a : FactSet) (mode : IntersectionMode)
        (party : PartyIdentity) (peer : PublicIdentity) (s : ResponderSession)
        → Responder.with_channel_binding drawn session_id a mode party peer ≡ ok s
        → ResponderStart a s
    answers_invite :
        (now now' : ℕ) (drawn : Drawn) (ticket : InviteTicket) (a : FactSet)
        (mode : IntersectionMode) (party : PartyIdentity) (s : ResponderSession)
        → responder_from_invite now now' drawn ticket a mode party ≡ ok s
        → ResponderStart a s
    answers_lease :
        (now : ℕ) (drawn : Drawn) (l : SessionLease) (a : FactSet) (mode : IntersectionMode)
        (party : PartyIdentity) (s : ResponderSession)
        → responder_from_lease now drawn l a mode party ≡ ok s
        → ResponderStart a s

  initiator_config_start :
      (now : ℕ) (drawn : Drawn) (session_id : Text) (a : FactSet) (mode : IntersectionMode)
      (config : SessionConfig) (s : InitiatorSession)
      → Initiator.with_config now drawn session_id a mode config ≡ ok s
      → (s.state ≡ Initiator.created) × (s.original_ids ≡ a.ids)
  unfolding Initiator.with_config Initiator.initial
  initiator_config_start now drawn session_id a mode config s e =
      (ground (arith, e), ground (arith, e))

  initiator_binding_start :
      (now : ℕ) (drawn : Drawn) (session_id : Text) (a : FactSet) (mode : IntersectionMode)
      (party : PartyIdentity) (peer : PublicIdentity) (s : InitiatorSession)
      → Initiator.with_channel_binding now drawn session_id a mode party peer ≡ ok s
      → (s.state ≡ Initiator.created) × (s.original_ids ≡ a.ids)
  unfolding Initiator.with_channel_binding Initiator.with_config Initiator.initial
  initiator_binding_start now drawn session_id a mode party peer s e =
      (ground (arith, e), ground (arith, e))

  -- Such a session is new, and holds the identifiers of the set.
  pub initiator_start :
      (a : FactSet) (s : InitiatorSession)
      → InitiatorStart a s
      → (s.state ≡ Initiator.created) × (s.original_ids ≡ a.ids)
  unfolding Initiator.new Initiator.with_secret initiator_from_invite initiator_from_lease
  initiator_start _ _ (by_new now drawn session_id a mode s e) =
      initiator_config_start now drawn session_id a mode _ s e
  initiator_start _ _ (by_config now drawn session_id a mode config s e) =
      initiator_config_start now drawn session_id a mode config s e
  initiator_start _ _ (by_secret now drawn session_id a mode s e) =
      initiator_config_start now drawn session_id a mode _ s e
  initiator_start _ _ (by_binding now drawn session_id a mode party peer s e) =
      initiator_binding_start now drawn session_id a mode party peer s e
  initiator_start _ _ (by_invite now later drawn ticket a mode party s e) =
      initiator_binding_start later drawn ticket.session_id a mode party ticket.issuer_pubkey s
        (ground (arith, e))
  initiator_start _ _ (by_lease now later drawn l a mode party s e) =
      initiator_binding_start later drawn l.session_id a mode party l.issuer_pubkey s
        (ground (arith, e))

  responder_config_start :
      (drawn : Drawn) (session_id : Text) (a : FactSet) (mode : IntersectionMode)
      (config : SessionConfig) (s : ResponderSession)
      → Responder.with_config drawn session_id a mode config ≡ ok s
      → (s.state ≡ Responder.created) × (s.original_ids ≡ a.ids)
  unfolding Responder.with_config Responder.initial
  responder_config_start drawn session_id a mode config s e = (ground (arith, e), ground (arith, e))

  responder_binding_start :
      (drawn : Drawn) (session_id : Text) (a : FactSet) (mode : IntersectionMode)
      (party : PartyIdentity) (peer : PublicIdentity) (s : ResponderSession)
      → Responder.with_channel_binding drawn session_id a mode party peer ≡ ok s
      → (s.state ≡ Responder.created) × (s.original_ids ≡ a.ids)
  unfolding Responder.with_channel_binding Responder.with_config Responder.initial
  responder_binding_start drawn session_id a mode party peer s e =
      (ground (arith, e), ground (arith, e))

  -- Such a session is new, and holds the identifiers of the set.
  pub responder_start :
      (a : FactSet) (s : ResponderSession)
      → ResponderStart a s
      → (s.state ≡ Responder.created) × (s.original_ids ≡ a.ids)
  unfolding Responder.new Responder.with_secret responder_from_invite responder_from_lease
  responder_start _ _ (answers_new drawn session_id a mode s e) =
      responder_config_start drawn session_id a mode _ s e
  responder_start _ _ (answers_config drawn session_id a mode config s e) =
      responder_config_start drawn session_id a mode config s e
  responder_start _ _ (answers_secret drawn session_id a mode s e) =
      responder_config_start drawn session_id a mode _ s e
  responder_start _ _ (answers_binding drawn session_id a mode party peer s e) =
      responder_binding_start drawn session_id a mode party peer s e
  responder_start _ _ (answers_invite now now' drawn ticket a mode party s e) =
      responder_binding_start drawn ticket.session_id a mode party ticket.issuer_pubkey s
        (ground (arith, e))
  responder_start _ _ (answers_lease now drawn l a mode party s e) =
      responder_binding_start drawn l.session_id a mode party l.issuer_pubkey s (ground (arith, e))
