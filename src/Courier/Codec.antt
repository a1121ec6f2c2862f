-- ===== src/Courier/Codec.antt =====
-- src/catering_system/domain/courier_cash_handoff.py: `CourierCashCommand.from_json` and `to_json`.
-- The canonical form of a UUID and the ISO form of an instant are parameters.
pub mod RoundTrip
use silberloeffel_catering.Common.{
  ℕ, Bool, true, false, not, ◌&&◌, ◌||◌, Option, none, some, List, [], ◌∷◌, ltb, is_some, is_none,
  ◌==◌, if◌then◌else◌,
}
use silberloeffel_catering.Common.Lists.{length, any}
use silberloeffel_catering.Common.Text.{Text, codes, text_eq, strip}
use silberloeffel_catering.Common.Results.{
  Result, ok, err, value_error, type_error, raise_if, or_raise, ◌>>=◌, ◌>>◌, not_a_uuid, not_a_text,
  not_a_time, invalid_field_set, unsupported_contract_version, invalid_event_type, role_not_allowed,
  structured_reason_required, other_requires_note, note_only_for_other, not_received_as_correction,
  correction_with_fields, cash_correction_reason_required, fields_must_be_null,
}
use silberloeffel_catering.Orders.Model.{Identifier, DateTime}
use silberloeffel_catering.Courier.Model.{
  EventType, driver_received, bar_not_received, driver_handed_to_chef, chef_received, chef_direct,
  correction, ActorRole, driver, chef, office, NotReceivedReason, customer_not_found,
  customer_could_not_pay, amount_not_acceptable, other_reason, role_allowed, CourierCashCommand,
}

-- A decoded JSON value: `other` is a number or a Boolean, and `container` a list or an object, which
-- no set can be asked for.
pub data Json : Type 0 where
  null other container : Json
  string : Text → Json

pub record Forms : Type 0 where
  pub parse_uuid : Text → Option Identifier
  pub uuid_text : Identifier → Text
  pub parse_time : Text → Option DateTime
  pub time_text : DateTime → Text

abbrev pub contract_version : Text
contract_version = codes "courier-cash-handoff-v1"

-- The values of a decoded command.
pub record Fields : Type 0 where
  pub version : Json
  pub idempotency_key : Json
  pub event_type : Json
  pub order_id : Json
  pub assignment_id : Json
  pub order_version_id : Json
  pub cash_execution_context_id : Json
  pub actor_id : Json
  pub actor_role : Json
  pub occurred_at : Json
  pub not_received_reason : Json
  pub remark : Json
  pub correction_reason : Json
  pub correction_of_idempotency_key : Json

abbrev pub Object : Type 0
Object = List (Text × Json)

-- `COMMAND_KEYS`
abbrev pub command_keys : List Text
command_keys =
    codes "contract_version"
    ∷ codes "idempotency_key"
    ∷ codes "event_type"
    ∷ codes "order_id"
    ∷ codes "assignment_id"
    ∷ codes "order_version_id"
    ∷ codes "cash_execution_context_id"
    ∷ codes "actor_id"
    ∷ codes "actor_role"
    ∷ codes "occurred_at"
    ∷ codes "not_received_reason"
    ∷ codes "note"
    ∷ codes "correction_reason"
    ∷ codes "correction_of_idempotency_key"
    ∷ []

unfoldable pub has_key : Text → Object → Bool
unfolding text_eq
has_key key [] = false
has_key key ((k, _) ∷ rest) = text_eq k key || has_key key rest

unfoldable pub all_keys : List Text → Object → Bool
unfolding has_key
all_keys [] object = true
all_keys (key ∷ keys) object = has_key key object && all_keys keys object

unfoldable pub no_other_keys : Object → Bool
unfolding text_eq
no_other_keys [] = true
no_other_keys ((k, _) ∷ rest) = any (text_eq k) command_keys && no_other_keys rest

-- `value[key]`, for a key that is there
unfoldable pub get : Text → Object → Json
unfolding text_eq
get key [] = null
get key ((k, v) ∷ rest) = let later = get key rest in if text_eq k key then v else later

unfoldable pub fields_of : Object → Fields
unfolding get
fields_of o = record {
  version = get (codes "contract_version") o;
  idempotency_key = get (codes "idempotency_key") o;
  event_type = get (codes "event_type") o;
  order_id = get (codes "order_id") o;
  assignment_id = get (codes "assignment_id") o;
  order_version_id = get (codes "order_version_id") o;
  cash_execution_context_id = get (codes "cash_execution_context_id") o;
  actor_id = get (codes "actor_id") o;
  actor_role = get (codes "actor_role") o;
  occurred_at = get (codes "occurred_at") o;
  not_received_reason = get (codes "not_received_reason") o;
  remark = get (codes "note") o;
  correction_reason = get (codes "correction_reason") o;
  correction_of_idempotency_key = get (codes "correction_of_idempotency_key") o;
}

abbrev pub event_text : EventType → Text
event_text driver_received = codes "BAR_RECEIVED_AND_QUITTUNG_HANDED_TO_CUSTOMER"
event_text bar_not_received = codes "BAR_NOT_RECEIVED"
event_text driver_handed_to_chef = codes "BAR_HANDED_TO_CHEF"
event_text chef_received = codes "BAR_RECEIVED_FROM_DRIVER_BY_CHEF"
event_text chef_direct = codes "BAR_RECEIVED_DIRECT_BY_CHEF_AND_QUITTUNG_HANDED_TO_CUSTOMER"
event_text correction = codes "BAR_HANDOFF_CORRECTION"

abbrev pub role_json : ActorRole → Text
role_json driver = codes "DRIVER"
role_json chef = codes "CHEF"
role_json office = codes "OFFICE"

abbrev pub reason_text : NotReceivedReason → Text
reason_text customer_not_found = codes "CUSTOMER_NOT_FOUND"
reason_text customer_could_not_pay = codes "CUSTOMER_COULD_NOT_PAY"
reason_text amount_not_acceptable = codes "AMOUNT_NOT_ACCEPTABLE"
reason_text other_reason = codes "OTHER"

-- The member of a set that a text is.
unfoldable pub named : {A : Type 0} → (A → Text) → List A → Text → Option A
unfolding text_eq
named text [] t = none
named text (a ∷ as') t = let rest = named text as' t in if text_eq t (text a) then some a else rest

abbrev pub events : List EventType
events =
    driver_received ∷ bar_not_received ∷ driver_handed_to_chef ∷ chef_received ∷ chef_direct
    ∷ correction ∷ []

abbrev pub roles : List ActorRole
roles = driver ∷ chef ∷ office ∷ []

abbrev pub reasons : List NotReceivedReason
reasons = customer_not_found ∷ customer_could_not_pay ∷ amount_not_acceptable ∷ other_reason ∷ []

-- `value in SET`
abbrev pub member : {A : Type 0} → (A → Text) → List A → Json → Result (Option A)
member text set null = ok none
member text set other = ok none
member text set container = err type_error
member text set (string t) = ok (named text set t)

-- `_text`
unfoldable pub text_field : Json → ℕ → Result Text
unfolding text_eq strip
text_field (string t) maximum =
    raise_if (length t == 0 || not (text_eq t (strip t)) || ltb maximum (length t)) not_a_text
    >> ok t
text_field _ maximum = err (value_error not_a_text)

-- `_optional_text`
unfoldable pub optional_text : Json → ℕ → Result (Option Text)
unfolding text_field
optional_text null maximum = ok none
optional_text value maximum = text_field value maximum >>= λ t. ok (some t)

abbrev pub is_null : Json → Bool
is_null null = true
is_null _ = false

abbrev pub is_version : Json → Bool
is_version (string t) = text_eq t contract_version
is_version _ = false

abbrev pub is_other : NotReceivedReason → Bool
is_other other_reason = true
is_other _ = false

module _ (forms : Forms) where
  -- `_uuid`
  unfoldable pub uuid_field : Json → Result Identifier
  uuid_field (string t) = or_raise (forms.parse_uuid t) (value_error not_a_uuid)
  uuid_field _ = err (value_error not_a_uuid)

  -- `_date_time`
  unfoldable pub time_field : Json → Result DateTime
  time_field (string t) = or_raise (forms.parse_time t) (value_error not_a_time)
  time_field _ = err (value_error not_a_time)

  -- the branches on the event type
  unfoldable pub read_details :
      EventType
      → Json
      → Option Text
      → Option Text
      → Json
      → Result (Option NotReceivedReason × Option Identifier)
  unfolding named uuid_field
  read_details bar_not_received reason remark correction_reason correction_of =
      member reason_text reasons reason >>= λ found.
      or_raise found (value_error structured_reason_required) >>= λ r.
      raise_if (is_other r && is_none remark) other_requires_note
      >> raise_if (not (is_other r) && is_some remark) note_only_for_other
      >> raise_if (is_some correction_reason || not (is_null correction_of))
          not_received_as_correction
      >> ok (some r, none)
  read_details correction reason remark correction_reason correction_of =
      raise_if (not (is_null reason) || is_some remark) correction_with_fields
      >> raise_if (is_none correction_reason) cash_correction_reason_required
      >> (uuid_field correction_of >>= λ key. ok (none, some key))
  read_details _ reason remark correction_reason correction_of =
      raise_if
        (not (is_null reason)
          || is_some remark
          || is_some correction_reason
          || not (is_null correction_of))
        fields_must_be_null
      >> ok (none, none)

  -- the identifiers, the actor and the time of the returned command
  unfoldable pub read_rest :
      Fields
      → EventType
      → ActorRole
      → Option Text
      → Option Text
      → Option NotReceivedReason × Option Identifier
      → Result CourierCashCommand
  unfolding uuid_field text_field time_field
  read_rest f event role remark correction_reason details = do
    idempotency_key ← uuid_field f.idempotency_key
    order_id ← uuid_field f.order_id
    assignment_id ← uuid_field f.assignment_id
    order_version_id ← uuid_field f.order_version_id
    context_id ← uuid_field f.cash_execution_context_id
    actor_id ← text_field f.actor_id 200
    occurred_at ← time_field f.occurred_at
    ok (record {
      idempotency_key = idempotency_key;
      event_type = event;
      order_id = order_id;
      assignment_id = assignment_id;
      order_version_id = order_version_id;
      cash_execution_context_id = context_id;
      actor_id = actor_id;
      actor_role = role;
      occurred_at = occurred_at;
      not_received_reason = details.0;
      remark = remark;
      correction_reason = correction_reason;
      correction_of_idempotency_key = details.1;
    })

  unfoldable pub read_fields : Fields → Result CourierCashCommand
  unfolding text_eq named role_allowed optional_text read_details read_rest
  read_fields f = do
    raise_if (not (is_version f.version)) unsupported_contract_version
    found ← member event_text events f.event_type
    event ← or_raise found (value_error invalid_event_type)
    actor ← member role_json roles f.actor_role
    role ← or_raise actor (value_error role_not_allowed)
    raise_if (not (role_allowed event role)) role_not_allowed
    remark ← optional_text f.remark 500
    correction_reason ← optional_text f.correction_reason 500
    details ←
        read_details event f.not_received_reason remark correction_reason
          f.correction_of_idempotency_key
    read_rest f event role remark correction_reason details

  unfoldable pub from_json : Object → Result CourierCashCommand
  unfolding all_keys no_other_keys fields_of read_fields
  from_json object =
      raise_if (not (no_other_keys object && all_keys command_keys object)) invalid_field_set
      >> read_fields (fields_of object)

  abbrev pub optional_json : {A : Type 0} → (A → Text) → Option A → Json
  optional_json text none = null
  optional_json text (some a) = string (text a)

  unfoldable pub to_json : CourierCashCommand → Object
  to_json c =
      (codes "contract_version", string contract_version)
      ∷ (codes "idempotency_key", string (forms.uuid_text c.idempotency_key))
      ∷ (codes "event_type", string (event_text c.event_type))
      ∷ (codes "order_id", string (forms.uuid_text c.order_id))
      ∷ (codes "assignment_id", string (forms.uuid_text c.assignment_id))
      ∷ (codes "order_version_id", string (forms.uuid_text c.order_version_id))
      ∷ (codes "cash_execution_context_id", string (forms.uuid_text c.cash_execution_context_id))
      ∷ (codes "actor_id", string c.actor_id)
      ∷ (codes "actor_role", string (role_json c.actor_role))
      ∷ (codes "occurred_at", string (forms.time_text c.occurred_at))
      ∷ (codes "not_received_reason", optional_json reason_text c.not_received_reason)
      ∷ (codes "note", optional_json (λ t. t) c.remark)
      ∷ (codes "correction_reason", optional_json (λ t. t) c.correction_reason)
      ∷ (
        codes "correction_of_idempotency_key",
        optional_json forms.uuid_text c.correction_of_idempotency_key,
      )
      ∷ []
