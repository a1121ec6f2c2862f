-- ===== src/Orders/Service.antt =====
-- src/catering_system/services/order_service.py: creating an order from an accepted offer, its
-- versions and its candidate. The clock and fresh identifiers are arguments; log lines are left out.
use silberloeffel_catering.Common.{
  ℕ, ◌+◌, Bool, not, ◌&&◌, ◌||◌, Option, none, some, List, [], ◌∷◌, leb, ltb, is_none, ◌==◌,
  if◌then◌else◌,
}
use silberloeffel_catering.Common.Lists.{any, filter, find, first, last, max_by, max_key}
use silberloeffel_catering.Common.Sort.{sorted}
use silberloeffel_catering.Common.Text.{Text}
use silberloeffel_catering.Common.Results
use silberloeffel_catering.Common.Results.{
  Result, ok, err, value_error, raise_if, or_raise, no_order, order_cancelled,
  accepted_offer_required, missing_initial_version, acceptance_required, acceptance_other_offer,
  acceptance_other_version, acceptance_other_variant,
}
use silberloeffel_catering.Common.Exec.{Exec, pure, lift, gets, ◌>>=◌, ◌>>◌}
use silberloeffel_catering.Orders.Model.{
  Identifier, DateTime, Date, Order, OrderVersion, OperationalContextData, OperationalContext,
  new_order_version, validate_planning_mode,
}
use silberloeffel_catering.Orders.Repository
use silberloeffel_catering.Orders.Repository.{
  OrderStore, list_orders, get_order, get_order_version, save_order_with_initial_version,
  append_order_version, update_order,
}
use silberloeffel_catering.Orders.Context.{
  Inquiry, OfferVersion, AcceptanceEvidence, initial_operational_context,
  operational_context_for_new_version,
}
use silberloeffel_catering.OperationalCore.{live_order, version_of}
use silberloeffel_catering.World.{World, on_orders}

unfoldable pub orders_for_inquiry : Identifier → OrderStore → List Order
unfolding list_orders
orders_for_inquiry inquiry_id s =
    filter (λ (o : Order). o.source_inquiry_id == inquiry_id) (list_orders s)

-- the key `(created_at, order_id)`
abbrev created_before : Order → Order → Bool
created_before a b =
    ltb a.created_at b.created_at || (a.created_at == b.created_at && leb a.order_id b.order_id)

abbrev active_or_all : List Order → List Order → List Order
active_or_all [] existing = existing
active_or_all (o ∷ active) existing = o ∷ active

-- `_existing_conversion_result`, on a list that is not empty
unfoldable pub existing_conversion_result : List Order → OrderStore → Result (Order × OrderVersion)
existing_conversion_result existing s =
    let active = filter (λ (o : Order). is_none o.cancelled_at) existing in
    Results.◌>>=◌
      (or_raise (first (sorted created_before (active_or_all active existing)))
        (value_error accepted_offer_required))
      λ order.
        elim (find (λ (v : OrderVersion). v.version_number == 1)
          (Repository.list_order_versions s order.order_id)) [
            | none ↦ err (value_error missing_initial_version)
            | some version ↦ ok (order, version)
          ]

unfoldable pub convert_inquiry_to_order : Inquiry → OrderStore → Result (Order × OrderVersion)
unfolding orders_for_inquiry existing_conversion_result
convert_inquiry_to_order inquiry s = elim (orders_for_inquiry inquiry.inquiry_id s) [
  | [] ↦ err (value_error accepted_offer_required)
  | o ∷ existing ↦ existing_conversion_result (o ∷ existing) s
]

-- the guards on the evidence
unfoldable pub check_acceptance_evidence :
    OfferVersion → Option AcceptanceEvidence → Result (Unit {0})
check_acceptance_evidence offer_version none = err (value_error acceptance_required)
check_acceptance_evidence offer_version (some evidence) =
    Results.◌>>◌
      (raise_if (not (evidence.offer_id == offer_version.offer_id)) acceptance_other_offer)
      (Results.◌>>◌
        (raise_if (not (evidence.accepted_offer_version_id == offer_version.offer_version_id))
          acceptance_other_version)
        (raise_if (not (any (λ (v : ℕ). v == evidence.accepted_variant_id) offer_version.variants))
          acceptance_other_variant))

abbrev pub initial_order : Identifier → Identifier → DateTime → Order
initial_order order_id source_inquiry_id now = record {
  order_id = order_id;
  source_inquiry_id = source_inquiry_id;
  created_at = now;
  updated_at = now;
  candidate_order_version_id = none;
  effective_order_version_id = none;
  cancelled_at = none;
}

abbrev pub initial_version : Identifier → Identifier → OfferVersion → DateTime → OrderVersion
initial_version order_version_id order_id offer now = record {
  order_version_id = order_version_id;
  order_id = order_id;
  version_number = 1;
  created_at = now;
  event_date = offer.event_date;
  time_window_text = offer.time_window_text;
  location_text = offer.location_text;
  guest_count_estimate = offer.guest_count;
  planning_mode = offer.planning_mode;
  kitchen_print_confirmed_at = none;
  parent_order_version_id = none;
  created_by = none;
  change_reason = none;
  changed_fields = [];
  delivery_date_local = offer.delivery_date_local;
  delivery_window_start_local = offer.delivery_window_start_local;
  delivery_window_end_local = offer.delivery_window_end_local;
  event_start_local = offer.event_start_local;
  delivery_time_local = offer.delivery_time_local;
}

abbrev initial_context :
    Order → OrderVersion → Option Inquiry → DateTime → Option OperationalContext
initial_context order version none now = none
initial_context order version (some inquiry) now =
    some (initial_operational_context order version inquiry now)

unfoldable pub create_order_from_offer_version :
    (source_inquiry_id : Identifier) (offer_version : OfferVersion) (inquiry : Option Inquiry)
    (acceptance_evidence : Option AcceptanceEvidence) (order_id order_version_id : Identifier)
    (now : DateTime)
    → Exec World (Order × OrderVersion)
unfolding check_acceptance_evidence
create_order_from_offer_version source_inquiry_id offer_version inquiry evidence order_id
      order_version_id now =
    do
      lift (check_acceptance_evidence offer_version evidence)
      let order = initial_order order_id source_inquiry_id now
      version ←
          lift (new_order_version (initial_version order_version_id order_id offer_version now))
      on_orders (
          save_order_with_initial_version order version (initial_context order version inquiry now))
      pure (order, version)

-- `latest_version.field if latest_version is not None else None`
abbrev of_latest : {A : Type 0} → (OrderVersion → Option A) → Option OrderVersion → Option A
of_latest field none = none
of_latest field (some v) = field v

abbrev pub number : OrderVersion → ℕ
number v = v.version_number

unfoldable pub create_relevant_order_change_version :
    (order : Order) (event_date : Date) (time_window_text location_text : Text)
    (guest_count_estimate : Option ℕ) (planning_mode : Text)
    (operational_context : Option OperationalContextData) (order_version_id : Identifier)
    (now : DateTime)
    → Exec World OrderVersion
unfolding live_order
create_relevant_order_change_version order event_date time_window_text location_text
      guest_count_estimate planning_mode operational_context order_version_id now =
    do
      s ← gets (λ w. w.orders)
      current ← lift (live_order order.order_id s)
      let existing = Repository.list_order_versions s order.order_id
      let latest_version = max_by number existing
      pm ← lift (validate_planning_mode planning_mode)
      version ← lift (
          new_order_version (record {
            order_version_id = order_version_id;
            order_id = order.order_id;
            version_number = max_key number existing + 1;
            created_at = now;
            event_date = event_date;
            time_window_text = time_window_text;
            location_text = location_text;
            guest_count_estimate = guest_count_estimate;
            planning_mode = pm;
            kitchen_print_confirmed_at = none;
            parent_order_version_id = none;
            created_by = none;
            change_reason = none;
            changed_fields = [];
            delivery_date_local = of_latest (λ v. v.delivery_date_local) latest_version;
            delivery_window_start_local =
                of_latest (λ v. v.delivery_window_start_local) latest_version;
            delivery_window_end_local = of_latest (λ v. v.delivery_window_end_local) latest_version;
            event_start_local = of_latest (λ v. v.event_start_local) latest_version;
            delivery_time_local = of_latest (λ v. v.delivery_time_local) latest_version;
          }))
      let context = operational_context_for_new_version s current version operational_context now
      on_orders (append_order_version (record current { updated_at = now }) version context)
      pure version

unfoldable pub list_order_versions : Identifier → OrderStore → List OrderVersion
list_order_versions order_id s = Repository.list_order_versions s order_id

unfoldable pub get_latest_order_version : Identifier → OrderStore → Option OrderVersion
get_latest_order_version order_id s = last (Repository.list_order_versions s order_id)

unfoldable pub set_candidate_order_version : Identifier → Identifier → DateTime → Exec World Order
unfolding live_order version_of
set_candidate_order_version order_id order_version_id now = do
  s ← gets (λ w. w.orders)
  current ← lift (live_order order_id s)
  _ ← lift (version_of order_id order_version_id s)
  let updated = record current {
    candidate_order_version_id = some order_version_id;
    updated_at = now;
  }
  on_orders (update_order updated)
  pure updated

-- `if not cid: return None`, and otherwise the version of that identifier
abbrev resolve : OrderStore → Option Identifier → Option OrderVersion
resolve s none = none
resolve s (some cid) = if cid == 0 then none else get_order_version s cid

unfoldable pub get_candidate_order_version : Identifier → OrderStore → Option OrderVersion
unfolding get_order get_order_version
get_candidate_order_version order_id s = elim (get_order s order_id) [
  | none ↦ none
  | some order ↦ resolve s order.candidate_order_version_id
]
