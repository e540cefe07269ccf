-- ===== src/Tests/Sets.antt =====
-- Fact sets, padding and transcripts.
use blind_overlap.Prelude.{ℕ, ◌≡◌, refl, none, [], ◌∷◌, ◌++◌, arith}
use blind_overlap.Bytes.{Bytes, ascii, bytes_order, lex}
use blind_overlap.Bytes.Encoding.{to_le_bytes}
use blind_overlap.OrdSet
use blind_overlap.FactSet
use blind_overlap.FactSet.{FactSet, FactId, compute_set_root, set_root_input}
use blind_overlap.FactSet.Laws.{IsValid, from_ids_ext}
use blind_overlap.FactSet.Commitment.{root_commits}
use blind_overlap.Freshness.{SessionDeadline, transcript_input}
use blind_overlap.Freshness.Transcripts.{digest_ambiguous}
use blind_overlap.Padding.{PaddingConfig}
use blind_overlap.Tests.Common.{id_of, toy_crypto}

same_members :
    (a : FactId)
    → OrdSet.contains a (id_of 2 ∷ id_of 1 ∷ id_of 2 ∷ [])
      ≡ OrdSet.contains a (id_of 1 ∷ id_of 2 ∷ [])
unfolding OrdSet.contains
same_members a = ground arith

from_ids_ext_example :
    FactSet.from_ids (id_of 2 ∷ id_of 1 ∷ id_of 2 ∷ []) ≡ FactSet.from_ids (id_of 1 ∷ id_of 2 ∷ [])
from_ids_ext_example =
    from_ids_ext (id_of 2 ∷ id_of 1 ∷ id_of 2 ∷ []) (id_of 1 ∷ id_of 2 ∷ []) same_members

-- An identifier of 32 bytes.
abbrev wide : ℕ → Bytes
wide n =
    n ∷ 0 ∷ 0 ∷ 0 ∷ 0 ∷ 0 ∷ 0 ∷ 0 ∷ 0 ∷ 0 ∷ 0 ∷ 0 ∷ 0 ∷ 0 ∷ 0 ∷ 0 ∷ 0 ∷ 0 ∷ 0 ∷ 0 ∷ 0 ∷ 0 ∷ 0 ∷ 0
    ∷ 0 ∷ 0 ∷ 0 ∷ 0 ∷ 0 ∷ 0 ∷ 0 ∷ 0 ∷ []

abbrev wide_set : FactSet
wide_set = record { ids = wide 1 ∷ wide 2 ∷ []; root = compute_set_root (wide 1 ∷ wide 2 ∷ []) }

wide_set-IsValid : IsValid wide_set
unfolding lex
wide_set-IsValid = record { ascending = ((refl, tt), (tt, tt)); committed = refl }

inserted-IsValid : IsValid (FactSet.insert wide_set (wide 1))
unfolding FactSet.insert OrdSet.insert lex
inserted-IsValid = record { ascending = ((refl, tt), (tt, tt)); committed = refl }

-- Inserting a member again changes nothing that the root shows.
root_commits_example : FactSet.insert wide_set (wide 1) ≡ wide_set
unfolding FactSet.insert OrdSet.insert lex
root_commits_example =
    root_commits (FactSet.insert wide_set (wide 1)) wide_set inserted-IsValid wide_set-IsValid
      (refl, (refl, tt)) (refl, (refl, tt)) (omega arith) (omega arith) (λ h. h) refl

abbrev config : PaddingConfig
config = record { target_size = 4; padding_secret = id_of 9 }

abbrev deadline : SessionDeadline
deadline = record { issued_at = 100; expires_at = 130 }

-- Three masked elements of 32 bytes. Read together they are the rest of an identifier, a nonce and
-- an empty offer.
abbrev tail : Bytes
tail = ascii "23 bytes of identifier."

abbrev first_24 : Bytes
first_24 =
    4 ∷ 0 ∷ 0 ∷ 0 ∷ 0 ∷ 0 ∷ 0 ∷ 0 ∷ 0 ∷ 0 ∷ 0 ∷ 0 ∷ 0 ∷ 0 ∷ 0 ∷ 0 ∷ 0 ∷ 0 ∷ 0 ∷ 0 ∷ 0 ∷ 0 ∷ 0 ∷ 0
    ∷ []

abbrev last_8 : Bytes
last_8 = 1 ∷ 2 ∷ 3 ∷ 4 ∷ 5 ∷ 6 ∷ 7 ∷ 8 ∷ []

abbrev element_1 : Bytes
element_1 = tail ++ ascii ":initiato"

abbrev element_2 : Bytes
element_2 = ascii "r_nonce:" ++ first_24

abbrev element_3 : Bytes
element_3 = last_8 ++ (ascii ":offer_elements:" ++ to_le_bytes 8 0)

digest_ambiguous_example :
    transcript_input (record {
      session_id = ascii "s1";
      initiator_nonce = wide 5;
      responder_nonce = none;
      offer_elements = element_1 ∷ element_2 ∷ element_3 ∷ [];
      reply_responder_masked = none;
      reply_initiator_doubly_masked = none;
    })
    ≡ transcript_input (record {
      session_id =
          ascii "s1"
          ++ (ascii ":initiator_nonce:"
              ++ (wide 5 ++ (ascii ":offer_elements:" ++ (to_le_bytes 8 3 ++ tail))));
      initiator_nonce = first_24 ++ last_8;
      responder_nonce = none;
      offer_elements = [];
      reply_responder_masked = none;
      reply_initiator_doubly_masked = none;
    })
unfolding ascii
digest_ambiguous_example =
    digest_ambiguous (ascii "s1") tail (wide 5) (first_24 ++ last_8) element_1 element_2 element_3
      refl
