-- ===== src/Offers/Aggregate.antt =====
-- src/catering_system/domain/offer.py: what the constructor of `Offer` checks. The day in Berlin of an
-- instant is a parameter.
use silberloeffel_catering.Common.{
  ℕ, ◌+◌, Bool, true, false, not, ◌&&◌, ◌||◌, Option, none, some, List, [], ◌∷◌, ◌++◌, ltb, leb,
  ◌==◌,
}
use silberloeffel_catering.Common.Lists.{any, find, length}
use silberloeffel_catering.Common.Sort.{sorted}
use silberloeffel_catering.Common.Results.{
  Result, ok, err, value_error, raise_if, or_raise, ◌>>=◌, ◌>>◌, text_required,
  offer_without_version, version_ids_not_unique, version_of_other_offer, version_before_offer,
  numbers_not_contiguous, snapshots_not_unique, evidence_not_unique, evidence_of_other_offer,
  evidence_of_unknown_version, rejected_and_withdrawn, rejected_unsent, sent_before_version,
  rejected_before_sent, withdrawn_too_early, acceptance_of_other_offer,
  acceptance_of_unknown_version, accepted_unsent, accepted_before_sent, accepted_closed,
  accepted_foreign_variant, accepted_superseded, accepted_expired, prepared_after_acceptance,
  conversion_without_acceptance, conversion_of_other_offer, conversion_mismatch,
  conversion_before_acceptance,
}
use silberloeffel_catering.Orders.Model.{Identifier, DateTime, Date}
use silberloeffel_catering.Offers.Model.{
  OfferVersion, SentEvidence, AcceptanceEvidence, RejectionEvidence, WithdrawalEvidence,
  ConversionLink, Offer, version_of_offer, is_sent, is_rejected, is_withdrawn, sent_later,
}

-- `[f(x) for x in xs]`
abbrev pub map_to : {A B : Type 0} → (A → B) → List A → List B
map_to f [] = []
map_to f (x ∷ xs) = f x ∷ map_to f xs

-- `len(ids) == len(set(ids))`
abbrev pub distinct : List ℕ → Bool
distinct [] = true
distinct (x ∷ xs) = not (any (λ (y : ℕ). y == x) xs) && distinct xs

-- `numbers == list(range(first, ...))`
abbrev pub counts_from : ℕ → List ℕ → Bool
counts_from first [] = true
counts_from first (n ∷ ns) = n == first && counts_from (first + 1) ns

abbrev version_id : OfferVersion → ℕ
version_id v = v.offer_version_id

-- the loop over the versions
unfoldable pub check_each : Offer → List OfferVersion → Result (Unit {0})
check_each offer [] = ok tt
check_each offer (v ∷ vs) =
    raise_if (not (v.offer_id == offer.offer_id)) version_of_other_offer
    >> raise_if (ltb v.created_at offer.created_at) version_before_offer
    >> check_each offer vs

unfoldable pub check_versions : Offer → Result (Unit {0})
unfolding check_each
check_versions offer = do
  raise_if (offer.offer_id == 0 || offer.source_inquiry_id == 0) text_required
  raise_if (length offer.versions == 0) offer_without_version
  raise_if (not (distinct (map_to version_id offer.versions))) version_ids_not_unique
  check_each offer offer.versions
  raise_if
      (not (
        counts_from 1
          (sorted leb (map_to (λ (v : OfferVersion). v.version_number) offer.versions))))
      numbers_not_contiguous
  raise_if (not (distinct (map_to (λ (v : OfferVersion). v.snapshot_id) offer.versions)))
      snapshots_not_unique

-- `evidence_items`, by the offer and the version of each
abbrev pub evidence_items : Offer → List (Identifier × Identifier)
evidence_items offer =
    map_to (λ (e : SentEvidence). (e.offer_id, e.offer_version_id)) offer.sent_evidence
    ++ map_to (λ (e : RejectionEvidence). (e.offer_id, e.offer_version_id)) offer.rejection_evidence
    ++ map_to (λ (e : WithdrawalEvidence). (e.offer_id, e.offer_version_id))
        offer.withdrawal_evidence

-- the loop over them
unfoldable pub check_owners : Offer → List (Identifier × Identifier) → Result (Unit {0})
check_owners offer [] = ok tt
check_owners offer ((owner, id) ∷ items) =
    raise_if (not (owner == offer.offer_id)) evidence_of_other_offer
    >> raise_if (not (any (λ (v : OfferVersion). v.offer_version_id == id) offer.versions))
        evidence_of_unknown_version
    >> check_owners offer items

abbrev pub sent_of : Offer → Identifier → Option SentEvidence
sent_of offer id = find (λ (e : SentEvidence). e.offer_version_id == id) offer.sent_evidence

abbrev created_of : Offer → Identifier → DateTime → Bool
created_of offer id time =
    any (λ (v : OfferVersion). v.offer_version_id == id && ltb time v.created_at) offer.versions

abbrev pub before_sent : Option SentEvidence → DateTime → Bool
before_sent none time = false
before_sent (some e) time = ltb time e.sent_at

abbrev before_boundary : Offer → WithdrawalEvidence → Bool
before_boundary offer e = elim (sent_of offer e.offer_version_id) [
  | none ↦ created_of offer e.offer_version_id e.withdrawn_at
  | some s ↦ ltb e.withdrawn_at s.sent_at
]

-- the checks of the evidence, in the order of the source
unfoldable pub check_evidence : Offer → Result (Unit {0})
unfolding check_owners is_sent is_withdrawn
check_evidence offer = do
  raise_if
      (not (distinct (map_to (λ (e : SentEvidence). e.offer_version_id) offer.sent_evidence))
        || not (
            distinct
              (map_to (λ (e : RejectionEvidence). e.offer_version_id) offer.rejection_evidence))
        || not (
            distinct
              (map_to (λ (e : WithdrawalEvidence). e.offer_version_id) offer.withdrawal_evidence)))
      evidence_not_unique
  check_owners offer (evidence_items offer)
  raise_if
      (any (λ (e : RejectionEvidence). is_withdrawn offer e.offer_version_id)
        offer.rejection_evidence)
      rejected_and_withdrawn
  raise_if
      (any (λ (e : RejectionEvidence). not (is_sent offer e.offer_version_id))
        offer.rejection_evidence)
      rejected_unsent
  raise_if
      (any (λ (e : SentEvidence). created_of offer e.offer_version_id e.sent_at)
        offer.sent_evidence)
      sent_before_version
  raise_if
      (any (λ (e : RejectionEvidence). before_sent (sent_of offer e.offer_version_id) e.rejected_at)
        offer.rejection_evidence)
      rejected_before_sent
  raise_if (any (before_boundary offer) offer.withdrawal_evidence) withdrawn_too_early

-- The acceptance of a version that the offer has; the last argument is its sent evidence.
unfoldable pub check_accepted :
    (DateTime → Date)
    → Offer
    → AcceptanceEvidence
    → OfferVersion
    → Option SentEvidence
    → Result (Unit {0})
unfolding is_sent is_rejected is_withdrawn sent_later
check_accepted local_date offer a version evidence = do
  raise_if (not (is_sent offer a.accepted_offer_version_id)) accepted_unsent
  raise_if (before_sent evidence a.accepted_at) accepted_before_sent
  raise_if
      (is_rejected offer a.accepted_offer_version_id
        || is_withdrawn offer a.accepted_offer_version_id)
      accepted_closed
  raise_if (not (any (λ (v : ℕ). v == a.accepted_variant_id) version.variants))
      accepted_foreign_variant
  raise_if (sent_later offer version) accepted_superseded
  raise_if (ltb version.valid_until (local_date a.accepted_at)) accepted_expired
  raise_if (any (λ (v : OfferVersion). ltb a.accepted_at v.created_at) offer.versions)
      prepared_after_acceptance

unfoldable pub check_decision :
    (DateTime → Date) → Offer → Option AcceptanceEvidence → Result (Unit {0})
unfolding version_of_offer check_accepted
check_decision local_date offer none = ok tt
check_decision local_date offer (some a) =
    raise_if (not (a.offer_id == offer.offer_id)) acceptance_of_other_offer
    >> (or_raise (version_of_offer offer a.accepted_offer_version_id)
          (value_error acceptance_of_unknown_version)
        >>= λ version.
            check_accepted local_date offer a version (sent_of offer a.accepted_offer_version_id))

unfoldable pub check_conversion :
    Offer → Option AcceptanceEvidence → Option ConversionLink → Result (Unit {0})
check_conversion offer acceptance none = ok tt
check_conversion offer none (some link) = err (value_error conversion_without_acceptance)
check_conversion offer (some a) (some link) =
    raise_if (not (link.offer_id == offer.offer_id)) conversion_of_other_offer
    >> raise_if
        (not (link.offer_version_id == a.accepted_offer_version_id)
          || not (link.variant_id == a.accepted_variant_id)
          || not (link.acceptance_id == a.acceptance_id))
        conversion_mismatch
    >> raise_if (ltb link.created_at a.recorded_at) conversion_before_acceptance

unfoldable pub new_offer : (DateTime → Date) → Offer → Result Offer
unfolding check_versions check_evidence check_decision check_conversion
new_offer local_date offer =
    check_versions offer
    >> check_evidence offer
    >> check_decision local_date offer offer.acceptance_evidence
    >> check_conversion offer offer.acceptance_evidence offer.conversion_link
    >> ok offer
