-- ===== src/Freshness/Transcripts.antt =====
-- What a transcript digest binds, and what it leaves open.
use blind_overlap.Prelude.{
  ℕ, zero, suc, ◌^◌, ◌<◌, ◌≡◌, refl, ap, sym, ◌∙◌, Option, none, some, List, [], ◌∷◌, ◌++◌,
  append_assoc, append-nil, arith, length, length-append, All, ◌*◌, String,
}
use blind_overlap.Bytes.{Bytes, Text, ascii}
use blind_overlap.Bytes.Encoding.{
  to_le_bytes, length-to_le_bytes, to_le_bytes-injective, append-cancel,
}
use blind_overlap.FactSet.{concat}
use blind_overlap.FactSet.Commitment.{Is32, concat-injective}
use blind_overlap.Freshness.{
  Transcript, counted, nonce_part, responder_part, initiator_part, transcript_input,
}

-- `concat` of lists of 32-byte items, with something behind.
-- The byte at a position, 0 past the end.
abbrev byte_at : Bytes → ℕ → ℕ
byte_at [] i = 0
byte_at (b ∷ bs) zero = b
byte_at (b ∷ bs) (suc i) = byte_at bs i

counted-injective :
    (xs ys : List Bytes) (us vs : Bytes)
    → All Is32 xs
    → All Is32 ys
    → length xs < 2 ^ 64
    → length ys < 2 ^ 64
    → counted xs ++ us ≡ counted ys ++ vs
    → (xs ≡ ys) × (us ≡ vs)
unfolding counted concat
counted-injective xs ys us vs p q lx ly e =
    let e' =
      sym (append_assoc (to_le_bytes 8 (length xs)) (concat xs) us)
      ∙ e
      ∙ append_assoc (to_le_bytes 8 (length ys)) (concat ys) vs in
    let parts =
      append-cancel _ _ _ _
        (length-to_le_bytes 8 (length xs) ∙ sym (length-to_le_bytes 8 (length ys))) e' in
    let count = to_le_bytes-injective 8 (length xs) (length ys) lx ly parts.0 in
    let body = append-cancel (concat xs) (concat ys) us vs (same_width xs ys p q count) parts.1 in
    (concat-injective xs ys p q count body.0, body.1)
  where
    width : (zs : List Bytes) → All Is32 zs → length (concat zs) ≡ 32 * length zs
    width [] h = refl
    width (z ∷ zs) h = omega (arith, h.0, length-append z (concat zs), width zs h.1)

    same_width :
        (xs ys : List Bytes)
        → All Is32 xs
        → All Is32 ys
        → length xs ≡ length ys
        → length (concat xs) ≡ length (concat ys)
    same_width xs ys p q e = omega (arith, width xs p, width ys q)

-- Nonces and elements have 32 bytes, and an element count fits 64 bits.
abbrev pub NonceIs32 : Option Bytes → Type 0
NonceIs32 none = Unit
NonceIs32 (some n) = Is32 n

abbrev AreElements : List Bytes → Type 0
AreElements es = All Is32 es × (length es < 2 ^ 64)

abbrev MayBeElements : Option (List Bytes) → Type 0
MayBeElements none = Unit
MayBeElements (some es) = AreElements es

pub record IsSized (t : Transcript) : Type 0 where
  pub initiator_nonce : Is32 t.initiator_nonce
  pub responder_nonce : NonceIs32 t.responder_nonce
  pub offer_elements : AreElements t.offer_elements
  pub reply_responder_masked : MayBeElements t.reply_responder_masked
  pub reply_initiator_doubly_masked : MayBeElements t.reply_initiator_doubly_masked

counted_alone :
    (xs ys : List Bytes) → AreElements xs → AreElements ys → counted xs ≡ counted ys → xs ≡ ys
counted_alone xs ys p q e = (counted-injective xs ys [] [] p.0 q.0 p.1 q.1 (ap (λ l. l ++ []) e)).0

nonce_part-injective :
    (a b : Option Bytes) (us vs : Bytes)
    → NonceIs32 a
    → NonceIs32 b
    → nonce_part a ++ (ascii ":offer_elements:" ++ us)
      ≡ nonce_part b ++ (ascii ":offer_elements:" ++ vs)
    → (a ≡ b) × (us ≡ vs)
unfolding nonce_part ascii
nonce_part-injective none none us vs p q e =
    (refl, (append-cancel (ascii ":offer_elements:") (ascii ":offer_elements:") us vs refl e).1)
nonce_part-injective none (some b) us vs p q e = absurd (omega (arith, ap (λ l. byte_at l 1) e))
nonce_part-injective (some a) none us vs p q e = absurd (omega (arith, ap (λ l. byte_at l 1) e))
nonce_part-injective (some a) (some b) us vs p q e =
    let tagged =
      append-cancel (ascii ":responder_nonce:") (ascii ":responder_nonce:") (a ++ _) (b ++ _) refl
        e in
    let nonces = append-cancel a b _ _ (p ∙ sym q) tagged.1 in
    (
      ap some nonces.0,
      (append-cancel (ascii ":offer_elements:") (ascii ":offer_elements:") us vs refl nonces.1).1,
    )

initiator_part-injective :
    (a b : Option (List Bytes))
    → MayBeElements a
    → MayBeElements b
    → initiator_part a ≡ initiator_part b
    → a ≡ b
unfolding initiator_part ascii
initiator_part-injective none none p q e = refl
initiator_part-injective none (some b) p q e = cc
initiator_part-injective (some a) none p q e = cc
initiator_part-injective (some a) (some b) p q e =
    let tag = ascii ":reply_initiator_doubly_masked:" in
    let body = append-cancel tag tag (counted a) (counted b) refl e in
    ap some (counted_alone a b p q body.1)

-- A tag at the ninth byte tells the two parts of a reply apart.
tail_injective :
    (a b d f : Option (List Bytes))
    → MayBeElements a
    → MayBeElements b
    → MayBeElements d
    → MayBeElements f
    → responder_part a ++ initiator_part d ≡ responder_part b ++ initiator_part f
    → (a ≡ b) × (d ≡ f)
unfolding responder_part initiator_part ascii
tail_injective none none d f p q r s e = (refl, initiator_part-injective d f r s e)
tail_injective none (some b) none f p q r s e = absurd (omega (arith, ap (λ l. byte_at l 7) e))
tail_injective none (some b) (some d) f p q r s e = absurd (omega (arith, ap (λ l. byte_at l 7) e))
tail_injective (some a) none d none p q r s e = absurd (omega (arith, ap (λ l. byte_at l 7) e))
tail_injective (some a) none d (some f) p q r s e = absurd (omega (arith, ap (λ l. byte_at l 7) e))
tail_injective (some a) (some b) d f p q r s e =
    let tag = ascii ":reply_responder_masked:" in
    let body =
      append-cancel tag tag (counted a ++ initiator_part d) (counted b ++ initiator_part f) refl
        e in
    let elements = counted-injective a b _ _ p.0 q.0 p.1 q.1 body.1 in
    (ap some elements.0, initiator_part-injective d f r s elements.1)

-- Among session identifiers of one length the hashed bytes determine the whole transcript: the
-- identifier, both nonces, every list of elements, and which optional parts there are.
transcript_input-injective :
    (t u : Transcript)
    → length t.session_id ≡ length u.session_id
    → IsSized t
    → IsSized u
    → transcript_input t ≡ transcript_input u
    → t ≡ u
unfolding transcript_input
transcript_input-injective t u l p q e =
    let at_session = append-cancel (ascii domain) (ascii domain) _ _ refl e in
    let session = append-cancel (ascii ":session:") (ascii ":session:") _ _ refl at_session.1 in
    let ids = append-cancel t.session_id u.session_id _ _ l session.1 in
    let at_nonce = append-cancel (ascii tag) (ascii tag) _ _ refl ids.1 in
    let nonce =
      append-cancel t.initiator_nonce u.initiator_nonce _ _
        (p.initiator_nonce ∙ sym q.initiator_nonce) at_nonce.1 in
    let responder =
      nonce_part-injective t.responder_nonce u.responder_nonce _ _ p.responder_nonce
        q.responder_nonce nonce.1 in
    let offer =
      counted-injective t.offer_elements u.offer_elements _ _ p.offer_elements.0 q.offer_elements.0
        p.offer_elements.1 q.offer_elements.1 responder.1 in
    let parts =
      tail_injective t.reply_responder_masked u.reply_responder_masked
        t.reply_initiator_doubly_masked u.reply_initiator_doubly_masked p.reply_responder_masked
        q.reply_responder_masked p.reply_initiator_doubly_masked q.reply_initiator_doubly_masked
        offer.1 in
    cc (ids.0, nonce.0, responder.0, offer.0, parts.0, parts.1)
  where
    domain : String
    domain = "BlindOverlap:TranscriptDigest:v1"

    tag : String
    tag = ":initiator_nonce:"

-- The session identifier is not delimited: three masked elements of one session can spell the end
-- of a longer session identifier, a nonce and an empty offer, so that two different transcripts are
-- hashed alike.
pub digest_ambiguous :
    (session tail : Text) (n m e₁ e₂ e₃ : Bytes)
    → e₁ ++ (e₂ ++ e₃)
      ≡ tail ++ (ascii ":initiator_nonce:" ++ (m ++ (ascii ":offer_elements:" ++ to_le_bytes 8 0)))
    → transcript_input (record {
      session_id = session;
      initiator_nonce = n;
      responder_nonce = none;
      offer_elements = e₁ ∷ e₂ ∷ e₃ ∷ [];
      reply_responder_masked = none;
      reply_initiator_doubly_masked = none;
    })
      ≡ transcript_input (record {
        session_id =
            session
            ++ (ascii ":initiator_nonce:"
                ++ (n ++ (ascii ":offer_elements:" ++ (to_le_bytes 8 3 ++ tail))));
        initiator_nonce = m;
        responder_nonce = none;
        offer_elements = [];
        reply_responder_masked = none;
        reply_initiator_doubly_masked = none;
      })
unfolding transcript_input
digest_ambiguous session tail n m e₁ e₂ e₃ h = simp (append_assoc, append-nil) (rw h)
