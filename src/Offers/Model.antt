-- ===== src/Offers/Model.antt =====
-- src/catering_system/domain/offer.py: the facts of an offer and the state of a version. The records
-- have the fields that the aggregate reads; a variant is its identifier.
use silberloeffel_catering.Common.{
  ℕ, Bool, true, false, not, ◌&&◌, ◌||◌, Option, none, some, List, ltb, is_some, ◌==◌,
  if◌then◌else◌,
}
use silberloeffel_catering.Common.Lists.{any, find, max_by}
use silberloeffel_catering.Common.Results.{
  Result, ok, err, value_error, or_raise, ◌>>=◌, unknown_offer_version, assertion_error,
}
use silberloeffel_catering.Orders.Model.{Identifier, DateTime, Date}

pub record OfferVersion : Type 0 where
  pub offer_version_id : Identifier
  pub offer_id : Identifier
  pub version_number : ℕ
  pub created_at : DateTime
  pub valid_until : Date
  pub snapshot_id : Identifier
  pub variants : List Identifier

pub record SentEvidence : Type 0 where
  pub offer_id : Identifier
  pub offer_version_id : Identifier
  pub sent_at : DateTime
  pub recorded_at : DateTime

pub record AcceptanceEvidence : Type 0 where
  pub acceptance_id : Identifier
  pub offer_id : Identifier
  pub accepted_offer_version_id : Identifier
  pub accepted_variant_id : Identifier
  pub accepted_at : DateTime
  pub recorded_at : DateTime

pub record RejectionEvidence : Type 0 where
  pub offer_id : Identifier
  pub offer_version_id : Identifier
  pub rejected_at : DateTime

pub record WithdrawalEvidence : Type 0 where
  pub offer_id : Identifier
  pub offer_version_id : Identifier
  pub withdrawn_at : DateTime

pub record ConversionLink : Type 0 where
  pub offer_id : Identifier
  pub offer_version_id : Identifier
  pub variant_id : Identifier
  pub acceptance_id : Identifier
  pub order_id : Identifier
  pub created_at : DateTime

pub record Offer : Type 0 where
  pub offer_id : Identifier
  pub source_inquiry_id : Identifier
  pub created_at : DateTime
  pub versions : List OfferVersion
  pub sent_evidence : List SentEvidence
  pub acceptance_evidence : Option AcceptanceEvidence
  pub rejection_evidence : List RejectionEvidence
  pub withdrawal_evidence : List WithdrawalEvidence
  pub conversion_link : Option ConversionLink

pub data OfferState : Type 0 where
  prepared sent accepted rejected withdrawn superseded expired converted : OfferState

-- `_version`
unfoldable pub version_of_offer : Offer → Identifier → Option OfferVersion
version_of_offer offer version_id =
    find (λ (v : OfferVersion). v.offer_version_id == version_id) offer.versions

-- membership in the sets of `_evidence_version_ids`
unfoldable pub is_sent : Offer → Identifier → Bool
is_sent offer id = any (λ (e : SentEvidence). e.offer_version_id == id) offer.sent_evidence

unfoldable pub is_rejected : Offer → Identifier → Bool
is_rejected offer id =
    any (λ (e : RejectionEvidence). e.offer_version_id == id) offer.rejection_evidence

unfoldable pub is_withdrawn : Offer → Identifier → Bool
is_withdrawn offer id =
    any (λ (e : WithdrawalEvidence). e.offer_version_id == id) offer.withdrawal_evidence

-- a later version that was sent
unfoldable pub sent_later : Offer → OfferVersion → Bool
unfolding is_sent
sent_later offer version =
    any
      (λ (other : OfferVersion).
        ltb version.version_number other.version_number && is_sent offer other.offer_version_id)
      offer.versions

abbrev pub links : Option ConversionLink → Identifier → Bool
links none id = false
links (some link) id = link.offer_version_id == id

abbrev pub is_acceptance_of : Option AcceptanceEvidence → Identifier → Bool
is_acceptance_of none id = false
is_acceptance_of (some acceptance) id = acceptance.accepted_offer_version_id == id

-- the state of a version that the offer has
unfoldable pub state_of : Offer → OfferVersion → Identifier → Date → OfferState
unfolding is_sent is_rejected is_withdrawn sent_later
state_of offer version id today =
    if links offer.conversion_link id
    then converted
    else if is_acceptance_of offer.acceptance_evidence id
    then accepted
    else if is_rejected offer id
    then rejected
    else if is_withdrawn offer id
    then withdrawn
    else if is_sent offer id
    then (if sent_later offer version
        then superseded
        else if ltb version.valid_until today
        then expired
        else sent)
    else prepared

unfoldable pub derive_offer_state : Offer → Identifier → Date → Result OfferState
unfolding version_of_offer state_of
derive_offer_state offer id today = elim (version_of_offer offer id) [
  | none ↦ err (value_error unknown_offer_version)
  | some version ↦ ok (state_of offer version id today)
]

-- `in ("Prepared", "Sent")`
abbrev pub is_open : Result OfferState → Bool
is_open (ok prepared) = true
is_open (ok sent) = true
is_open _ = false

abbrev pub is_decided : Offer → Bool
is_decided offer = is_some offer.acceptance_evidence || is_some offer.conversion_link

-- The state of a version of the offer itself never raises.
unfoldable pub has_newer_open : Offer → OfferVersion → Date → Bool
unfolding derive_offer_state
has_newer_open offer version today =
    any
      (λ (other : OfferVersion).
        ltb version.version_number other.version_number
        && is_open (derive_offer_state offer other.offer_version_id today))
      offer.versions

unfoldable pub offer_has_newer_open_version : Offer → Identifier → Date → Result Bool
unfolding version_of_offer has_newer_open
offer_has_newer_open_version offer id today =
    or_raise (version_of_offer offer id) (value_error unknown_offer_version) >>= λ version.
    ok (has_newer_open offer version today)

abbrev pub is_state_sent : OfferState → Bool
is_state_sent sent = true
is_state_sent _ = false

unfoldable pub offer_allows_acceptance : Offer → Identifier → Identifier → Date → Bool
unfolding version_of_offer state_of has_newer_open
offer_allows_acceptance offer id variant_id today =
    if is_decided offer then false else elim (version_of_offer offer id) [
      | none ↦ false
      | some version ↦
          any (λ (v : ℕ). v == variant_id) version.variants
          && is_state_sent (state_of offer version id today)
          && not (has_newer_open offer version today)
    ]

unfoldable pub offer_allows_sent_recording : Offer → Identifier → Date → Bool
unfolding version_of_offer state_of is_sent
offer_allows_sent_recording offer id today =
    if is_decided offer then false else elim (version_of_offer offer id) [
      | none ↦ false
      | some version ↦
          not (is_sent offer id)
          && elim (state_of offer version id today) [ prepared ↦ true | _ ↦ false ]
    ]

unfoldable pub offer_allows_rejection : Offer → Identifier → Date → Bool
unfolding version_of_offer state_of is_rejected
offer_allows_rejection offer id today =
    if is_decided offer then false else elim (version_of_offer offer id) [
      | none ↦ false
      | some version ↦ not (is_rejected offer id) && is_state_sent (state_of offer version id today)
    ]

unfoldable pub offer_allows_withdrawal : Offer → Identifier → Date → Bool
unfolding version_of_offer state_of is_withdrawn
offer_allows_withdrawal offer id today =
    if is_decided offer then false else elim (version_of_offer offer id) [
      | none ↦ false
      | some version ↦ not (is_withdrawn offer id) && is_open (ok (state_of offer version id today))
    ]

abbrev matches : AcceptanceEvidence → Identifier → Identifier → Identifier → Bool
matches acceptance id variant_id acceptance_id =
    acceptance.accepted_offer_version_id == id
    && acceptance.accepted_variant_id == variant_id
    && acceptance.acceptance_id == acceptance_id

abbrev replays : Option ConversionLink → Identifier → Identifier → Identifier → Bool
replays none id variant_id acceptance_id = true
replays (some link) id variant_id acceptance_id =
    link.offer_version_id == id
    && link.variant_id == variant_id
    && link.acceptance_id == acceptance_id

unfoldable pub offer_allows_conversion : Offer → Identifier → Identifier → Identifier → Bool
offer_allows_conversion offer id variant_id acceptance_id = elim offer.acceptance_evidence [
  | none ↦ false
  | some acceptance ↦
      matches acceptance id variant_id acceptance_id
      && replays offer.conversion_link id variant_id acceptance_id
]

unfoldable pub offer_blocks_direct_inquiry_conversion : Offer → Date → Bool
unfolding derive_offer_state
offer_blocks_direct_inquiry_conversion offer today =
    is_decided offer
    || any (λ (v : OfferVersion). is_open (derive_offer_state offer v.offer_version_id today))
        offer.versions

-- `max` raises when there is no version; the constructor of `Offer` leaves at least one.
abbrev number_of : OfferVersion → ℕ
number_of v = v.version_number

unfoldable pub offer_allows_prepare_next_version : Offer → Date → Result Bool
unfolding derive_offer_state
offer_allows_prepare_next_version offer today =
    if is_decided offer
    then ok false
    else or_raise (max_by number_of offer.versions) assertion_error >>= λ latest.
        derive_offer_state offer latest.offer_version_id today >>= λ state. ok (elim state [
          | sent ↦ true
          | expired ↦ true
          | rejected ↦ true
          | withdrawn ↦ true
          | _ ↦ false
        ])
