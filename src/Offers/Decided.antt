-- ===== src/Offers/Decided.antt =====
-- The checks of the constructor of `Offer` that the acceptance and the conversion do not change.
use silberloeffel_catering.Common.{◌≡◌, refl, Option, List, [], ◌∷◌}
use silberloeffel_catering.Common.Results.{ok, bind_ok}
use silberloeffel_catering.Orders.Model.{Identifier, DateTime, Date}
use silberloeffel_catering.Offers.Model.{
  OfferVersion, AcceptanceEvidence, ConversionLink, Offer, is_sent, is_withdrawn,
}
use silberloeffel_catering.Offers.Aggregate.{
  evidence_items, check_each, check_owners, check_versions, check_evidence, check_decision,
  new_offer,
}

-- the offer with another decision
abbrev pub with_decision : Offer → Option AcceptanceEvidence → Option ConversionLink → Offer
with_decision offer a link = record offer { acceptance_evidence = a; conversion_link = link }

check_each-with_decision :
    (offer : Offer) (a : Option AcceptanceEvidence) (link : Option ConversionLink)
    (vs : List OfferVersion)
    → check_each (with_decision offer a link) vs ≡ check_each offer vs
unfolding check_each
check_each-with_decision offer a link [] = refl
check_each-with_decision offer a link (v ∷ vs) = rw (check_each-with_decision offer a link vs) refl

check_owners-with_decision :
    (offer : Offer) (a : Option AcceptanceEvidence) (link : Option ConversionLink)
    (items : List (Identifier × Identifier))
    → check_owners (with_decision offer a link) items ≡ check_owners offer items
unfolding check_owners
check_owners-with_decision offer a link [] = refl
check_owners-with_decision offer a link ((owner, id) ∷ items) =
    rw (check_owners-with_decision offer a link items) refl

pub check_versions-with_decision :
    (offer : Offer) (a : Option AcceptanceEvidence) (link : Option ConversionLink)
    → check_versions (with_decision offer a link) ≡ check_versions offer
unfolding check_versions
check_versions-with_decision offer a link =
    rw (check_each-with_decision offer a link offer.versions) refl

pub check_evidence-with_decision :
    (offer : Offer) (a : Option AcceptanceEvidence) (link : Option ConversionLink)
    → check_evidence (with_decision offer a link) ≡ check_evidence offer
unfolding check_evidence is_sent is_withdrawn
check_evidence-with_decision offer a link =
    rw (check_owners-with_decision offer a link (evidence_items offer)) refl

-- What the constructor returned has passed the checks.
pub new_offer-checks :
    (local_date : DateTime → Date) (offer o : Offer)
    → new_offer local_date offer ≡ ok o
    → (check_versions offer ≡ ok tt)
      × (check_evidence offer ≡ ok tt)
      × (check_decision local_date offer offer.acceptance_evidence ≡ ok tt)
unfolding new_offer
new_offer-checks local_date offer o h =
    let (_, h1, _) = bind_ok _ _ o h in
    let (_, h2, _) = bind_ok _ _ _ h1 in
    let (_, h3, decided) = bind_ok _ _ _ h2 in
    let (_, versions_ok, evidence_ok) = bind_ok _ _ _ h3 in (versions_ok, evidence_ok, decided)
