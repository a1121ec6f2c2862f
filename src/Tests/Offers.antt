-- ===== src/Tests/Offers.antt =====
-- The theorems on acceptances and conversions, applied to an offer whose only version was sent.
use silberloeffel_catering.Common.{◌≡◌, ◌≢◌, some, refl, true, none, [], ◌∷◌}
use silberloeffel_catering.Common.Dict.{lookup, insert}
use silberloeffel_catering.Common.Sort.{sorted}
use silberloeffel_catering.Common.Results.{ok}
use silberloeffel_catering.Orders.Model.{DateTime, Date, Identifier}
use silberloeffel_catering.Offers.Model.{
  OfferVersion, AcceptanceEvidence, ConversionLink, Offer, accepted, derive_offer_state,
  has_newer_open, offer_allows_acceptance, offer_allows_conversion, converted,
}
use silberloeffel_catering.Offers.Aggregate.{new_offer}
use silberloeffel_catering.Offers.Repository.{
  OfferStore, append_acceptance_evidence, append_conversion_link,
}
use silberloeffel_catering.Offers.Recording.{with_acceptance, append_acceptance_evidence_lem}
use silberloeffel_catering.Offers.Conversion.{with_conversion, append_conversion_link_lem}

abbrev day_of : DateTime → Date
day_of time = 20

abbrev prepared_version : OfferVersion
prepared_version = record {
  offer_version_id = 11;
  offer_id = 1;
  version_number = 1;
  created_at = 100;
  valid_until = 30;
  snapshot_id = 21;
  variants = 31 ∷ 32 ∷ [];
}

abbrev sent_offer : Offer
sent_offer = record {
  offer_id = 1;
  source_inquiry_id = 5;
  created_at = 90;
  versions = prepared_version ∷ [];
  sent_evidence =
      record { offer_id = 1; offer_version_id = 11; sent_at = 110; recorded_at = 111 } ∷ [];
  acceptance_evidence = none;
  rejection_evidence = [];
  withdrawal_evidence = [];
  conversion_link = none;
}

abbrev acceptance : AcceptanceEvidence
acceptance = record {
  acceptance_id = 41;
  offer_id = 1;
  accepted_offer_version_id = 11;
  accepted_variant_id = 32;
  accepted_at = 120;
  recorded_at = 121;
}

abbrev offers : OfferStore
offers = insert 1 sent_offer []

sent_offer-allows : offer_allows_acceptance sent_offer 11 32 20 ≡ true
unfolding offer_allows_acceptance has_newer_open derive_offer_state
sent_offer-allows = refl

sent_offer-valid : new_offer day_of sent_offer ≡ ok sent_offer
unfolding new_offer sorted
sent_offer-valid = refl

append_acceptance_evidence_example :
    (t : OfferStore) × (append_acceptance_evidence day_of acceptance offers
      ≡ ok (with_acceptance sent_offer acceptance, t))
    × (lookup 1 t ≡ some (with_acceptance sent_offer acceptance))
    × ((id : Identifier) → 1 ≢ id → lookup id t ≡ lookup id offers)
    × (new_offer day_of (with_acceptance sent_offer acceptance)
        ≡ ok (with_acceptance sent_offer acceptance))
    × ((today : Date)
        → derive_offer_state (with_acceptance sent_offer acceptance) 11 today ≡ ok accepted)
unfolding lookup insert
append_acceptance_evidence_example =
    append_acceptance_evidence_lem day_of sent_offer acceptance sent_offer-allows refl refl offers
      sent_offer-valid refl refl

abbrev accepted_offer : Offer
accepted_offer = with_acceptance sent_offer acceptance

abbrev conversion : ConversionLink
conversion = record {
  offer_id = 1;
  offer_version_id = 11;
  variant_id = 32;
  acceptance_id = 41;
  order_id = 51;
  created_at = 125;
}

abbrev accepted_offers : OfferStore
accepted_offers = insert 1 accepted_offer []

accepted_offer-valid : new_offer day_of accepted_offer ≡ ok accepted_offer
unfolding new_offer sorted
accepted_offer-valid = refl

accepted_offer-allows : offer_allows_conversion accepted_offer 11 32 41 ≡ true
unfolding offer_allows_conversion
accepted_offer-allows = refl

append_conversion_link_example :
    (t : OfferStore) × (append_conversion_link day_of conversion accepted_offers
      ≡ ok (with_conversion accepted_offer conversion, t))
    × (lookup 1 t ≡ some (with_conversion accepted_offer conversion))
    × ((id : Identifier) → 1 ≢ id → lookup id t ≡ lookup id accepted_offers)
    × (new_offer day_of (with_conversion accepted_offer conversion)
        ≡ ok (with_conversion accepted_offer conversion))
    × ((today : Date)
        → derive_offer_state (with_conversion accepted_offer conversion) 11 today ≡ ok converted)
    × (offer_allows_conversion (with_conversion accepted_offer conversion) 11 32 41 ≡ true)
unfolding lookup insert
append_conversion_link_example =
    append_conversion_link_lem day_of accepted_offer acceptance conversion accepted_offer-valid refl
      refl accepted_offer-allows accepted_offers refl refl refl
