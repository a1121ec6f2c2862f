-- ===== src/Orders/Model.antt =====
-- src/catering_system/domain/order.py, domain/order_operational_context.py and
-- domain/logistics_timing.py: the order aggregate and its immutable snapshots.
use native.Mathlib.Decide.{ℕ_discrete}
use silberloeffel_catering.Common.{
  ℕ, ◌≡◌, refl, Bool, true, false, not, ◌&&◌, ◌||◌, Option, some, List, leb, ltb, opt_eq, bool_ne,
  is_some, is_none, dec_bool, dec_bool-true, dec_bool_self, if◌then◌else◌,
}
use silberloeffel_catering.Common.Lists.{any}
use silberloeffel_catering.Common.Text.{Text, codes, text_eq}
use silberloeffel_catering.Common.Results.{
  Result, ok, err, value_error, raise_if, ◌>>◌, window_requires_all, window_requires_both,
  window_reversed, invalid_planning_mode,
}

-- An identifier (a UUID string) is only compared, ordered and tested for emptiness; 0 is the empty
-- string.
abbrev pub Identifier : Type 0
Identifier = ℕ

-- A UTC instant, in microseconds.
abbrev pub DateTime : Type 0
DateTime = ℕ

-- A calendar day, by its ordinal.
abbrev pub Date : Type 0
Date = ℕ

-- A local wall-clock time without a time zone.
abbrev pub TimeOfDay : Type 0
TimeOfDay = ℕ

pub data PlanningMode : Type 0 where
  caterer_suggestion self_select : PlanningMode

pub data FulfillmentMode : Type 0 where
  unknown delivery pickup : FulfillmentMode

-- The fields that `changed_fields` can name.
pub data ChangedField : Type 0 where
  event_date time_window_text location_text guest_count_estimate planning_mode : ChangedField
  delivery_address : ChangedField

-- `validate_planning_mode` of domain/inquiry.py
unfoldable pub validate_planning_mode : Text → Result PlanningMode
unfolding text_eq
validate_planning_mode value =
    if text_eq value (codes "caterer_suggestion")
    then ok caterer_suggestion
    else if text_eq value (codes "self_select")
    then ok self_select
    else err (value_error invalid_planning_mode)

pub record Order : Type 0 where
  pub order_id : Identifier
  pub source_inquiry_id : Identifier
  pub created_at : DateTime
  pub updated_at : DateTime
  pub candidate_order_version_id : Option Identifier
  pub effective_order_version_id : Option Identifier
  pub cancelled_at : Option DateTime

pub record OrderVersion : Type 0 where
  pub order_version_id : Identifier
  pub order_id : Identifier
  pub version_number : ℕ
  pub created_at : DateTime
  pub event_date : Date
  pub time_window_text : Text
  pub location_text : Text
  pub guest_count_estimate : Option ℕ
  pub planning_mode : PlanningMode
  pub kitchen_print_confirmed_at : Option DateTime
  pub parent_order_version_id : Option Identifier
  pub created_by : Option Text
  pub change_reason : Option Text
  pub changed_fields : List ChangedField
  pub delivery_date_local : Option Date
  pub delivery_window_start_local : Option TimeOfDay
  pub delivery_window_end_local : Option TimeOfDay
  pub event_start_local : Option TimeOfDay
  pub delivery_time_local : Option TimeOfDay

-- `starts_at >= ends_at`, once both are there
abbrev reversed : Option TimeOfDay → Option TimeOfDay → Bool
reversed (some a) (some b) = leb b a
reversed _ _ = false

-- The times of day carry no time zone here, so the tests on `tzinfo` pass.
unfoldable pub validate_optional_local_window :
    Option TimeOfDay → Option TimeOfDay → Result (Unit {0})
validate_optional_local_window starts_at ends_at = do
  raise_if (bool_ne (is_none starts_at) (is_none ends_at)) window_requires_both
  raise_if (reversed starts_at ends_at) window_reversed

unfoldable pub validate_optional_service_window :
    Option Date → Option TimeOfDay → Option TimeOfDay → Result (Unit {0})
unfolding validate_optional_local_window
validate_optional_service_window service_date starts_at ends_at = do
  let any_present = is_some service_date || is_some starts_at || is_some ends_at
  let all_present = is_some service_date && is_some starts_at && is_some ends_at
  raise_if (any_present && not all_present) window_requires_all
  validate_optional_local_window starts_at ends_at

-- `OrderVersion(...)`: the value, if `__post_init__` accepts it
unfoldable pub new_order_version : OrderVersion → Result OrderVersion
unfolding validate_optional_service_window
new_order_version v = do
  validate_optional_service_window v.delivery_date_local v.delivery_window_start_local
      v.delivery_window_end_local
  ok v

unfoldable pub is_order_version_superseded : Order → OrderVersion → List OrderVersion → Bool
is_order_version_superseded order version versions =
    if is_none version.parent_order_version_id
    then false
    else if opt_eq (some version.order_version_id) order.candidate_order_version_id
        || opt_eq (some version.order_version_id) order.effective_order_version_id
    then false
    else any
        (λ later.
          opt_eq later.parent_order_version_id version.parent_order_version_id
          && ltb version.version_number later.version_number)
        versions

pub record CustomerAddress : Type 0 where
  pub street : Option Text
  pub postal_code : Option Text
  pub city : Option Text
  pub country : Option Text

pub data ContextSource : Type 0 where
  initial_inquiry_snapshot inherited_parent explicit_change : ContextSource
  confirmation_snapshot_backfill : ContextSource

pub record OperationalContextData : Type 0 where
  pub recipient_company : Option Text
  pub recipient_name : Option Text
  pub recipient_phone : Option Text
  pub delivery_address : Option CustomerAddress

-- `OrderVersionOperationalContextSnapshot`
pub record OperationalContext : Type 0 where
  pub order_version_id : Identifier
  pub order_id : Identifier
  pub recipient_company : Option Text
  pub recipient_name : Option Text
  pub recipient_phone : Option Text
  pub delivery_address : Option CustomerAddress
  pub created_at : DateTime
  pub source : ContextSource
  pub fulfillment_mode : FulfillmentMode

unfoldable pub copy_operational_context_for_version :
    OperationalContext → Identifier → Identifier → DateTime → ContextSource → OperationalContext
copy_operational_context_for_version snapshot order_version_id order_id created_at source =
    record snapshot {
      order_version_id = order_version_id;
      order_id = order_id;
      created_at = created_at;
      source = source;
    }

unfoldable pub OrderVersion-discrete : Discrete OrderVersion
OrderVersion-discrete = hlevel ℕ_discrete

-- `a == b` of the dataclass: field by field
unfoldable pub same_version : OrderVersion → OrderVersion → Bool
unfolding OrderVersion-discrete
same_version a b = dec_bool (OrderVersion-discrete a b)

pub same_version_sound : (a b : OrderVersion) → same_version a b ≡ true → a ≡ b
unfolding same_version
same_version_sound a b h = dec_bool-true (OrderVersion-discrete a b) h

pub same_version_refl : (a : OrderVersion) → same_version a a ≡ true
unfolding same_version
same_version_refl a = dec_bool_self (OrderVersion-discrete a a) refl
