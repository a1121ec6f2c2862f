-- ===== src/Offers/Conversion.antt =====
-- Recording the conversion of an accepted offer into an order.
use silberloeffel_catering.Common.{
  ◌≡◌, ◌≢◌, refl, subst, sym, true, false, Option, none, some, arith, ltb, inl, inr, Option-cases,
}
use silberloeffel_catering.Common.Dict.{lookup, insert, lookup-insert_self, lookup-insert_ne}
use silberloeffel_catering.Common.Results.{ok}
use silberloeffel_catering.Orders.Model.{Identifier, DateTime, Date}
use silberloeffel_catering.Offers.Model.{
  OfferVersion, AcceptanceEvidence, ConversionLink, Offer, converted, version_of_offer, is_sent,
  is_rejected, is_withdrawn, sent_later, state_of, derive_offer_state, offer_allows_conversion,
}
use silberloeffel_catering.Offers.Aggregate.{
  check_accepted, check_decision, check_conversion, new_offer,
}
use silberloeffel_catering.Offers.Repository.{OfferStore, append_conversion_link}
use silberloeffel_catering.Offers.Decided.{
  check_versions-with_decision, check_evidence-with_decision, new_offer-checks,
}

-- the offer with the link
abbrev pub with_conversion : Offer → ConversionLink → Offer
with_conversion offer link = record offer { conversion_link = some link }

check_decision-with_conversion :
    (local_date : DateTime → Date) (offer : Offer) (link : ConversionLink)
    (acceptance : Option AcceptanceEvidence)
    → check_decision local_date (with_conversion offer link) acceptance
      ≡ check_decision local_date offer acceptance
unfolding check_decision check_accepted version_of_offer is_sent is_rejected is_withdrawn sent_later
check_decision-with_conversion local_date offer link none = refl
check_decision-with_conversion local_date offer link (some a) = refl

-- The version of an acceptance that passed the checks is one of the offer.
accepted-version :
    (local_date : DateTime → Date) (offer : Offer) (a : AcceptanceEvidence)
    → check_decision local_date offer (some a) ≡ ok tt
    → (version : OfferVersion) × (version_of_offer offer a.accepted_offer_version_id ≡ some version)
unfolding check_decision
accepted-version local_date offer a passed =
    elim (Option-cases (version_of_offer offer a.accepted_offer_version_id)) [
      | inl missing ↦ ground (arith, missing)
      | inr found ↦ found
    ]

module _ (local_date : DateTime → Date) (offer : Offer) (a : AcceptanceEvidence)
    (link : ConversionLink) (valid : new_offer local_date offer ≡ ok offer)
    (decided : offer.acceptance_evidence ≡ some a) (unconverted : offer.conversion_link ≡ none)
    (allowed : offer_allows_conversion offer link.offer_version_id link.variant_id
        link.acceptance_id
      ≡ true) where
  check_conversion-allowed :
      link.offer_id ≡ offer.offer_id
      → ltb link.created_at a.recorded_at ≡ false
      → check_conversion (with_conversion offer link) (some a) (some link) ≡ ok tt
  unfolding check_conversion offer_allows_conversion
  check_conversion-allowed own in_order = ground (arith, decided)

  new_offer-converted :
      link.offer_id ≡ offer.offer_id
      → ltb link.created_at a.recorded_at ≡ false
      → new_offer local_date (with_conversion offer link) ≡ ok (with_conversion offer link)
  unfolding new_offer
  new_offer-converted own in_order =
      let (versions_ok, evidence_ok, decision_ok) = new_offer-checks local_date offer offer valid in
      let same = check_decision-with_conversion local_date offer link offer.acceptance_evidence in
      rw
        (
          check_versions-with_decision offer offer.acceptance_evidence (some link),
          versions_ok,
          check_evidence-with_decision offer offer.acceptance_evidence (some link),
          evidence_ok,
          same,
          decision_ok,
          decided,
          check_conversion-allowed own in_order,
        )
        refl

  state-converted :
      (today : Date)
      → derive_offer_state (with_conversion offer link) link.offer_version_id today ≡ ok converted
  unfolding derive_offer_state state_of version_of_offer offer_allows_conversion
  state-converted today =
      let (_, _, decision_ok) = new_offer-checks local_date offer offer valid in
      let (version, found) =
        accepted-version local_date offer a
          (subst (λ x. check_decision local_date offer x ≡ ok tt) decided decision_ok) in
      ground (arith, decided, found)

  -- For a valid stored offer that is accepted, not converted, and allows the conversion that a
  -- link names, a link of this offer that does not predate the recording of the acceptance is
  -- recorded: the repository returns the offer with it, finds this offer under the identifier from
  -- then on, and leaves the other offers as they were; the constructor accepts the offer, the
  -- version is converted in it on every day, and the same conversion stays allowed as a replay.
  pub append_conversion_link_lem :
      (s : OfferStore)
      → lookup link.offer_id s ≡ some offer
      → link.offer_id ≡ offer.offer_id
      → ltb link.created_at a.recorded_at ≡ false
      → (t : OfferStore) × (append_conversion_link local_date link s
          ≡ ok (with_conversion offer link, t))
        × (lookup link.offer_id t ≡ some (with_conversion offer link))
        × ((id : Identifier) → link.offer_id ≢ id → lookup id t ≡ lookup id s)
        × (new_offer local_date (with_conversion offer link) ≡ ok (with_conversion offer link))
        × ((today : Date)
            → derive_offer_state (with_conversion offer link) link.offer_version_id today
              ≡ ok converted)
        × (offer_allows_conversion
              (with_conversion offer link)
              link.offer_version_id
              link.variant_id
              link.acceptance_id
            ≡ true)
  unfolding append_conversion_link offer_allows_conversion
  append_conversion_link_lem s stored own in_order =
      let result = with_conversion offer link in
      (
        insert offer.offer_id result s,
        rw (stored, unconverted, new_offer-converted own in_order) refl,
        subst (λ k. lookup k (insert offer.offer_id result s) ≡ some result) (sym own)
            (lookup-insert_self offer.offer_id result s),
        λ id other. lookup-insert_ne offer.offer_id id result s (subst (λ k. k ≢ id) own other),
        new_offer-converted own in_order,
        state-converted,
        ground (arith, decided),
      )
