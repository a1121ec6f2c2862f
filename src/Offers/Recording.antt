-- ===== src/Offers/Recording.antt =====
-- Recording an acceptance: the offer that was valid stays so, and the accepted version is in that state.
use silberloeffel_catering.Common.{◌≡◌, ◌≢◌, refl, subst, sym, true, false, some, arith, ltb}
use silberloeffel_catering.Common.Lists.{any}
use silberloeffel_catering.Common.Dict.{lookup, insert, lookup-insert_self, lookup-insert_ne}
use silberloeffel_catering.Common.Results.{ok}
use silberloeffel_catering.Orders.Model.{Identifier, DateTime, Date}
use silberloeffel_catering.Offers.Model.{
  OfferVersion, AcceptanceEvidence, Offer, accepted, version_of_offer, is_sent, is_rejected,
  is_withdrawn, sent_later, state_of, derive_offer_state, offer_allows_acceptance,
}
use silberloeffel_catering.Offers.Aggregate.{
  sent_of, before_sent, check_accepted, check_decision, check_conversion, new_offer,
}
use silberloeffel_catering.Offers.Repository.{OfferStore, append_acceptance_evidence}
use silberloeffel_catering.Offers.Acceptance.{allows-Allowed}
use silberloeffel_catering.Offers.Decided.{
  check_versions-with_decision, check_evidence-with_decision, new_offer-checks,
}

-- the offer with the acceptance
abbrev pub with_acceptance : Offer → AcceptanceEvidence → Offer
with_acceptance offer e = record offer { acceptance_evidence = some e }

module _ (local_date : DateTime → Date) (offer : Offer) (e : AcceptanceEvidence)
    (allowed : offer_allows_acceptance offer e.accepted_offer_version_id e.accepted_variant_id
        (local_date e.accepted_at)
      ≡ true)
    (on_time : before_sent (sent_of offer e.accepted_offer_version_id) e.accepted_at ≡ false)
    (prepared_before : any (λ (v : OfferVersion). ltb e.accepted_at v.created_at) offer.versions
      ≡ false) where
  check_decision-allowed :
      e.offer_id ≡ offer.offer_id
      → check_decision local_date (with_acceptance offer e) (some e) ≡ ok tt
  unfolding check_decision check_accepted version_of_offer is_sent is_rejected is_withdrawn
      sent_later
  check_decision-allowed own =
      let a = allows-Allowed offer _ _ _ allowed in
      let found = a.found in
      let offered = a.offered in
      let was_sent = a.was_sent in
      let open_version = a.open_version in
      let latest = a.latest in let in_time = a.in_time in ground (arith, found)

  new_offer-accepted :
      e.offer_id ≡ offer.offer_id
      → new_offer local_date offer ≡ ok offer
      → new_offer local_date (with_acceptance offer e) ≡ ok (with_acceptance offer e)
  unfolding new_offer check_conversion
  new_offer-accepted own valid =
      let unconverted = (allows-Allowed offer _ _ _ allowed).unconverted in
      let (versions_ok, evidence_ok, _) = new_offer-checks local_date offer offer valid in
      rw
        (
          check_versions-with_decision offer (some e) offer.conversion_link,
          versions_ok,
          check_evidence-with_decision offer (some e) offer.conversion_link,
          evidence_ok,
          check_decision-allowed own,
          unconverted,
        )
        refl

  state-accepted :
      (today : Date)
      → derive_offer_state (with_acceptance offer e) e.accepted_offer_version_id today ≡ ok accepted
  unfolding derive_offer_state state_of version_of_offer
  state-accepted today =
      let a = allows-Allowed offer _ _ _ allowed in
      let found = a.found in let unconverted = a.unconverted in ground (arith, found, unconverted)

  -- For a valid stored offer that allows the acceptance of a variant, evidence that predates
  -- neither the sending of the version nor any version is recorded: the repository returns the
  -- offer with it, finds this offer under the identifier from then on, and leaves the other offers
  -- as they were; the constructor accepts the offer, and the version is accepted in it on every
  -- day.
  pub append_acceptance_evidence_lem :
      (s : OfferStore)
      → new_offer local_date offer ≡ ok offer
      → lookup e.offer_id s ≡ some offer
      → e.offer_id ≡ offer.offer_id
      → (t : OfferStore) × (append_acceptance_evidence local_date e s
          ≡ ok (with_acceptance offer e, t))
        × (lookup e.offer_id t ≡ some (with_acceptance offer e))
        × ((id : Identifier) → e.offer_id ≢ id → lookup id t ≡ lookup id s)
        × (new_offer local_date (with_acceptance offer e) ≡ ok (with_acceptance offer e))
        × ((today : Date)
            → derive_offer_state (with_acceptance offer e) e.accepted_offer_version_id today
              ≡ ok accepted)
  unfolding append_acceptance_evidence
  append_acceptance_evidence_lem s valid stored own =
      let undecided = (allows-Allowed offer _ _ _ allowed).undecided in
      let result = with_acceptance offer e in
      (
        insert offer.offer_id result s,
        rw (stored, undecided, new_offer-accepted own valid) refl,
        subst (λ k. lookup k (insert offer.offer_id result s) ≡ some result) (sym own)
            (lookup-insert_self offer.offer_id result s),
        λ id other. lookup-insert_ne offer.offer_id id result s (subst (λ k. k ≢ id) own other),
        new_offer-accepted own valid,
        state-accepted,
      )
