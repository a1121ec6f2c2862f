-- ===== src/Orders/Context.antt =====
-- src/catering_system/services/order_service.py: the operational context of a new version, and the
-- facts of an offer and of an inquiry that it reads.
use silberloeffel_catering.Common.{ℕ, Option, none, some, List}
use silberloeffel_catering.Common.Text.{Text, strip_or_none}
use silberloeffel_catering.Orders.Model.{
  Identifier, DateTime, Date, TimeOfDay, PlanningMode, FulfillmentMode, unknown, delivery, pickup,
  Order, OrderVersion, CustomerAddress, OperationalContextData, OperationalContext,
  initial_inquiry_snapshot, inherited_parent, explicit_change, copy_operational_context_for_version,
}
use silberloeffel_catering.Orders.Repository.{OrderStore, get_operational_context}

pub data DeliveryAddressMode : Type 0 where
  unknown_address same_as_invoice separate : DeliveryAddressMode

-- `InquiryCustomerSnapshot`, as far as an order reads it
pub record CustomerSnapshot : Type 0 where
  pub company_name : Option Text
  pub contact_name : Option Text
  pub phone : Option Text
  pub invoice_address : Option CustomerAddress
  pub delivery_address : Option CustomerAddress
  pub delivery_address_mode : DeliveryAddressMode

-- `Inquiry`, as far as an order reads it
pub record Inquiry : Type 0 where
  pub inquiry_id : Identifier
  pub customer_snapshot : Option CustomerSnapshot
  pub fulfillment_mode : FulfillmentMode

-- `OfferVersion`, as far as an order reads it; a variant by its identifier
pub record OfferVersion : Type 0 where
  pub offer_version_id : Identifier
  pub offer_id : Identifier
  pub event_date : Date
  pub time_window_text : Text
  pub location_text : Text
  pub guest_count : Option ℕ
  pub planning_mode : PlanningMode
  pub variants : List Identifier
  pub delivery_date_local : Option Date
  pub delivery_window_start_local : Option TimeOfDay
  pub delivery_window_end_local : Option TimeOfDay
  pub event_start_local : Option TimeOfDay
  pub delivery_time_local : Option TimeOfDay

-- `AcceptanceEvidence`, as far as an order reads it
pub record AcceptanceEvidence : Type 0 where
  pub offer_id : Identifier
  pub accepted_offer_version_id : Identifier
  pub accepted_variant_id : Identifier

abbrev address_by_mode : DeliveryAddressMode → CustomerSnapshot → Option CustomerAddress
address_by_mode unknown_address s = none
address_by_mode same_as_invoice s = s.invoice_address
address_by_mode separate s = s.delivery_address

abbrev initial_address : FulfillmentMode → CustomerSnapshot → Option CustomerAddress
initial_address pickup s = none
initial_address unknown s = address_by_mode s.delivery_address_mode s
initial_address delivery s = address_by_mode s.delivery_address_mode s

abbrev snapshot_text : (CustomerSnapshot → Option Text) → Option CustomerSnapshot → Option Text
snapshot_text field none = none
snapshot_text field (some s) = strip_or_none (field s)

-- `_initial_operational_context`
unfoldable pub initial_operational_context :
    Order → OrderVersion → Inquiry → DateTime → OperationalContext
initial_operational_context order version inquiry created_at = record {
  order_version_id = version.order_version_id;
  order_id = order.order_id;
  recipient_company = snapshot_text (λ s. s.company_name) inquiry.customer_snapshot;
  recipient_name = snapshot_text (λ s. s.contact_name) inquiry.customer_snapshot;
  recipient_phone = snapshot_text (λ s. s.phone) inquiry.customer_snapshot;
  delivery_address = elim inquiry.customer_snapshot [
    | none ↦ none
    | some s ↦ initial_address inquiry.fulfillment_mode s
  ];
  created_at = created_at;
  source = initial_inquiry_snapshot;
  fulfillment_mode = inquiry.fulfillment_mode;
}

-- `_explicit_operational_context`
unfoldable pub explicit_operational_context :
    Order → OrderVersion → OperationalContextData → DateTime → FulfillmentMode → OperationalContext
explicit_operational_context order version data' created_at fulfillment_mode = record {
  order_version_id = version.order_version_id;
  order_id = order.order_id;
  recipient_company = data'.recipient_company;
  recipient_name = data'.recipient_name;
  recipient_phone = data'.recipient_phone;
  delivery_address = data'.delivery_address;
  created_at = created_at;
  source = explicit_change;
  fulfillment_mode = fulfillment_mode;
}

abbrev parent_context : OrderStore → Option Identifier → Option OperationalContext
parent_context s none = none
parent_context s (some parent_id) = get_operational_context s parent_id

abbrev parent_mode : Option OperationalContext → FulfillmentMode
parent_mode none = unknown
parent_mode (some c) = c.fulfillment_mode

abbrev inherited : OrderVersion → DateTime → Option OperationalContext → Option OperationalContext
inherited version created_at none = none
inherited version created_at (some c) = some (
    copy_operational_context_for_version c version.order_version_id version.order_id created_at
      inherited_parent)

-- `_operational_context_for_new_version`
unfoldable pub operational_context_for_new_version :
    OrderStore
    → Order
    → OrderVersion
    → Option OperationalContextData
    → DateTime
    → Option OperationalContext
unfolding explicit_operational_context copy_operational_context_for_version get_operational_context
operational_context_for_new_version s order version none created_at =
    inherited version created_at (parent_context s version.parent_order_version_id)
operational_context_for_new_version s order version (some d) created_at = some (
    explicit_operational_context order version d created_at
      (parent_mode (parent_context s version.parent_order_version_id)))
