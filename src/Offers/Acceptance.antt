-- ===== src/Offers/Acceptance.antt =====
-- An acceptance that the aggregate allows is stored, and its version is accepted.
use silberloeffel_catering.Common.{
  ℕ, ◌≡◌, true, false, ◌||◌, none, some, arith, ltb, ◌==◌, inl, inr, Option-cases,
}
use silberloeffel_catering.Common.Lists.{any}
use silberloeffel_catering.Orders.Model.{Identifier, Date}
use silberloeffel_catering.Offers.Model.{
  OfferVersion, Offer, version_of_offer, is_sent, is_rejected, is_withdrawn, sent_later, state_of,
  is_state_sent, offer_allows_acceptance,
}

-- What an allowed acceptance tells of the version.
pub record Allowed (offer : Offer) (id variant_id : Identifier) (today : Date) : Type 0 where
  pub version : OfferVersion
  pub found : version_of_offer offer id ≡ some version
  pub undecided : offer.acceptance_evidence ≡ none
  pub unconverted : offer.conversion_link ≡ none
  pub offered : any (λ (v : ℕ). v == variant_id) version.variants ≡ true
  pub was_sent : is_sent offer id ≡ true
  pub open_version : (is_rejected offer id || is_withdrawn offer id) ≡ false
  pub latest : sent_later offer version ≡ false
  pub in_time : ltb version.valid_until today ≡ false

state_of-sent :
    (offer : Offer) (version : OfferVersion) (id : Identifier) (today : Date)
    → is_state_sent (state_of offer version id today) ≡ true
    → (is_sent offer id ≡ true)
      × ((is_rejected offer id || is_withdrawn offer id) ≡ false)
      × (sent_later offer version ≡ false)
      × (ltb version.valid_until today ≡ false)
unfolding state_of
state_of-sent offer version id today h = ground arith

pub allows-Allowed :
    (offer : Offer) (id variant_id : Identifier) (today : Date)
    → offer_allows_acceptance offer id variant_id today ≡ true
    → Allowed offer id variant_id today
unfolding offer_allows_acceptance
allows-Allowed offer id variant_id today h = elim (Option-cases (version_of_offer offer id)) [
  | inl missing ↦ ground (arith, missing)
  | inr (version, found) ↦
      let state : is_state_sent (state_of offer version id today) ≡ true = ground (arith, found) in
      let (was_sent, open', latest, in_time) = state_of-sent offer version id today state in
      record {
        version = version;
        found = found;
        undecided = ground (arith, found);
        unconverted = ground (arith, found);
        offered = ground (arith, found);
        was_sent = was_sent;
        open_version = open';
        latest = latest;
        in_time = in_time;
      }
]
