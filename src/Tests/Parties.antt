-- ===== src/Tests/Parties.antt =====
-- The intersection on two sets with one identifier in common, in one process and over messages.
use blind_overlap.Prelude.{◌≤◌, ◌≡◌, refl, true, [], ◌∷◌, ok, arith, length}
use blind_overlap.Bytes.{ascii, lex, bytes_order}
use blind_overlap.FactSet
use blind_overlap.FactSet.{FactSet, compute_set_root}
use blind_overlap.FactSet.Laws.{IsValid}
use blind_overlap.OrdSet
use blind_overlap.Freshness.{validate, new_deadline}
use blind_overlap.Protocol.{
  IntersectionMode, PsiResult, max_set_size, intersect, mask, apply_mask, compute_intersection,
  sort, matching_ids,
}
use blind_overlap.Protocol.Exactness.{overlap, result_of, intersect_exact, intersect_complete}
use blind_overlap.Session.Common.{config_with_ttl}
use blind_overlap.Session.Initiator
use blind_overlap.Session.Responder
use blind_overlap.Session.Exchange.{Moments, IsReady, IsTimely, honest_run}
use blind_overlap.Session.Exchange.Refinement.{honest_run-intersect, honest_run-overlap}
use blind_overlap.Tests.Common.{id_of, pairs-TellsApart, toy_crypto, toy-Commutes}

abbrev pub alpha : FactSet
alpha = record { ids = id_of 1 ∷ id_of 2 ∷ []; root = compute_set_root (id_of 1 ∷ id_of 2 ∷ []) }

abbrev pub beta : FactSet
beta = record { ids = id_of 2 ∷ id_of 3 ∷ []; root = compute_set_root (id_of 2 ∷ id_of 3 ∷ []) }

alpha-IsValid : IsValid alpha
unfolding lex
alpha-IsValid = record { ascending = ((refl, tt), (tt, tt)); committed = refl }

beta-IsValid : IsValid beta
unfolding lex
beta-IsValid = record { ascending = ((refl, tt), (tt, tt)); committed = refl }

-- What both parties learn.
abbrev pub both : PsiResult
both = PsiResult.intersection (id_of 2 ∷ []) (FactSet.from_ids (id_of 2 ∷ [])).root

small : length alpha.ids ≤ max_set_size
small = omega arith

intersect_exact_example :
    intersect (id_of 10) (id_of 20) alpha beta IntersectionMode.intersection
    ≡ ok (result_of (overlap alpha.ids beta.ids) IntersectionMode.intersection)
intersect_exact_example =
    intersect_exact (id_of 10) (id_of 20) alpha beta IntersectionMode.intersection toy-Commutes
      alpha-IsValid beta-IsValid small small (pairs-TellsApart (id_of 20) (id_of 10) 1 2 2 3)

computed : intersect (id_of 10) (id_of 20) alpha beta IntersectionMode.intersection ≡ ok both
unfolding intersect compute_intersection mask apply_mask sort matching_ids FactSet.from_ids
    OrdSet.contains OrdSet.collect OrdSet.insert lex
computed = refl

intersect_complete_example : OrdSet.contains (id_of 2) (id_of 2 ∷ []) ≡ true
unfolding FactSet.contains OrdSet.contains lex
intersect_complete_example =
    intersect_complete (id_of 10) (id_of 20) alpha beta (id_of 2) (id_of 2 ∷ [])
      (FactSet.from_ids (id_of 2 ∷ [])).root toy-Commutes alpha-IsValid refl refl computed

abbrev moments : Moments
moments = record {
  offer_checked = 101;
  reply_made = 102;
  reply_checked = 103;
  reveal_made = 104;
  reveal_checked = 105;
  drawn = id_of 7;
  drawn' = id_of 8;
}

abbrev initiator : Initiator.InitiatorSession
initiator =
    Initiator.initial 100 (record { secret = id_of 10; nonce = id_of 5 }) (ascii "s1") alpha
      IntersectionMode.intersection (config_with_ttl 30)

abbrev responder : Responder.ResponderSession
responder =
    Responder.initial (record { secret = id_of 20; nonce = id_of 6 }) (ascii "s1") beta
      IntersectionMode.cardinality (config_with_ttl 30)

ready : IsReady initiator responder
unfolding Initiator.initial Responder.initial
ready = record { initiator_created = refl; responder_created = refl; same_session = refl }

timely : IsTimely moments initiator responder
unfolding Initiator.initial Responder.initial validate new_deadline config_with_ttl
timely = record { offer = refl; reply = refl; reveal = refl }

honest_run-overlap_example :
    honest_run moments initiator responder
    ≡ ok (
      result_of (overlap alpha.ids beta.ids) IntersectionMode.intersection,
      result_of (overlap beta.ids alpha.ids) IntersectionMode.cardinality,
    )
unfolding Initiator.initial Responder.initial
honest_run-overlap_example =
    honest_run-overlap moments initiator responder alpha beta toy-Commutes ready (λ p q. timely)
      refl refl alpha-IsValid beta-IsValid (pairs-TellsApart (id_of 20) (id_of 10) 1 2 2 3)
      (pairs-TellsApart (id_of 10) (id_of 20) 2 3 1 2)

honest_run-intersect_example :
    (p q : PsiResult) × (honest_run moments initiator responder ≡ ok (p, q))
    × (intersect (id_of 10) (id_of 20) alpha beta IntersectionMode.intersection ≡ ok p)
    × (intersect (id_of 20) (id_of 10) beta alpha IntersectionMode.cardinality ≡ ok q)
unfolding Initiator.initial Responder.initial
honest_run-intersect_example =
    honest_run-intersect moments initiator responder alpha beta ready (λ p q. timely) refl refl
      small small
