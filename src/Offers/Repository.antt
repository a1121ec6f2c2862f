-- ===== src/Offers/Repository.antt =====
-- src/catering_system/repositories/in_memory_offer_repository.py
use silberloeffel_catering.Common.{
  ◌+◌, Bool, not, ◌&&◌, ◌||◌, Option, some, List, [], ◌∷◌, ◌++◌, ltb, leb, is_some, ◌==◌,
}
use silberloeffel_catering.Common.Lists.{any, find, max_key}
use silberloeffel_catering.Common.Sort.{sorted}
use silberloeffel_catering.Common.Dict.{Dict, lookup, insert, values}
use silberloeffel_catering.Common.Results.{
  Result, ok, key_error, key_error_if, raise_if, or_raise, ◌>>=◌, ◌>>◌, version_of_other_offer,
  version_not_next, snapshot_exists, acceptance_exists, conversion_exists,
}
use silberloeffel_catering.Orders.Model.{Identifier, DateTime, Date}
use silberloeffel_catering.Offers.Model.{
  OfferVersion, SentEvidence, AcceptanceEvidence, RejectionEvidence, WithdrawalEvidence,
  ConversionLink, Offer,
}
use silberloeffel_catering.Offers.Aggregate.{new_offer}

abbrev pub OfferStore : Type 0
OfferStore = Dict Offer

unfoldable pub save_offer : Offer → OfferStore → Result OfferStore
save_offer offer s =
    key_error_if (is_some (lookup offer.offer_id s)) offer.offer_id
    >> ok (insert offer.offer_id offer s)

unfoldable pub get_by_source_inquiry_id : Identifier → OfferStore → Option Offer
get_by_source_inquiry_id inquiry_id s =
    find (λ (o : Offer). o.source_inquiry_id == inquiry_id) (values s)

abbrev offer_before : Offer → Offer → Bool
offer_before a b =
    ltb a.created_at b.created_at || (a.created_at == b.created_at && leb a.offer_id b.offer_id)

unfoldable pub list_all : OfferStore → List Offer
list_all s = sorted offer_before (values s)

-- The stored offer is replaced by the constructed one, which is returned.
abbrev pub replace_offer : Offer → OfferStore → Offer × OfferStore
replace_offer updated s = (updated, insert updated.offer_id updated s)

module _ (local_date : DateTime → Date) where
  unfoldable pub append_offer_version :
      Identifier → OfferVersion → OfferStore → Result (Offer × OfferStore)
  unfolding new_offer
  append_offer_version offer_id version s =
      or_raise (lookup offer_id s) (key_error offer_id) >>= λ offer.
      raise_if (not (version.offer_id == offer_id)) version_of_other_offer
      >> raise_if
          (not (
            version.version_number
            == max_key (λ (v : OfferVersion). v.version_number) offer.versions + 1))
          version_not_next
      >> raise_if (any (λ (v : OfferVersion). v.snapshot_id == version.snapshot_id) offer.versions)
          snapshot_exists
      >> (new_offer local_date (record offer { versions = offer.versions ++ version ∷ [] })
          >>= λ updated. ok (replace_offer updated s))

  unfoldable pub append_sent_evidence : SentEvidence → OfferStore → Result (Offer × OfferStore)
  unfolding new_offer
  append_sent_evidence evidence s =
      or_raise (lookup evidence.offer_id s) (key_error evidence.offer_id) >>= λ offer.
      new_offer local_date (record offer { sent_evidence = offer.sent_evidence ++ evidence ∷ [] })
      >>= λ updated. ok (replace_offer updated s)

  unfoldable pub append_acceptance_evidence :
      AcceptanceEvidence → OfferStore → Result (Offer × OfferStore)
  unfolding new_offer
  append_acceptance_evidence evidence s =
      or_raise (lookup evidence.offer_id s) (key_error evidence.offer_id) >>= λ offer.
      raise_if (is_some offer.acceptance_evidence) acceptance_exists
      >> (new_offer local_date (record offer { acceptance_evidence = some evidence }) >>= λ updated.
          ok (replace_offer updated s))

  unfoldable pub append_rejection_evidence :
      RejectionEvidence → OfferStore → Result (Offer × OfferStore)
  unfolding new_offer
  append_rejection_evidence evidence s =
      or_raise (lookup evidence.offer_id s) (key_error evidence.offer_id) >>= λ offer.
      new_offer local_date
        (record offer { rejection_evidence = offer.rejection_evidence ++ evidence ∷ [] })
      >>= λ updated. ok (replace_offer updated s)

  unfoldable pub append_withdrawal_evidence :
      WithdrawalEvidence → OfferStore → Result (Offer × OfferStore)
  unfolding new_offer
  append_withdrawal_evidence evidence s =
      or_raise (lookup evidence.offer_id s) (key_error evidence.offer_id) >>= λ offer.
      new_offer local_date
        (record offer { withdrawal_evidence = offer.withdrawal_evidence ++ evidence ∷ [] })
      >>= λ updated. ok (replace_offer updated s)

  unfoldable pub append_conversion_link : ConversionLink → OfferStore → Result (Offer × OfferStore)
  unfolding new_offer
  append_conversion_link link s =
      or_raise (lookup link.offer_id s) (key_error link.offer_id) >>= λ offer.
      raise_if (is_some offer.conversion_link) conversion_exists
      >> (new_offer local_date (record offer { conversion_link = some link }) >>= λ updated.
          ok (replace_offer updated s))
