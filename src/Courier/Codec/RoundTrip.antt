-- ===== src/Courier/Codec/RoundTrip.antt =====
-- A command that is written and read again.
use silberloeffel_catering.Common.{
  ℕ, ◌≡◌, ◌≤◌, ◌<◌, sym, refl, ap, ◌∙◌, true, ◌&&◌, Option, none, some, arith, is_some,
}
use silberloeffel_catering.Common.Lists.{length}
use silberloeffel_catering.Common.Text.{Text, text_eq, text_eq_iff, strip}
use silberloeffel_catering.Common.Results.{ok}
use silberloeffel_catering.Orders.Model.{Identifier, DateTime}
use silberloeffel_catering.Courier.Model.{
  EventType, driver_received, bar_not_received, driver_handed_to_chef, chef_received, chef_direct,
  correction, ActorRole, driver, chef, office, NotReceivedReason, customer_not_found,
  customer_could_not_pay, amount_not_acceptable, other_reason, role_allowed, CourierCashCommand,
}
use silberloeffel_catering.Courier.Codec.{
  string, Forms, Fields, command_keys, has_key, all_keys, no_other_keys, get, fields_of, event_text,
  role_json, reason_text, named, events, roles, reasons, text_field, optional_text, uuid_field,
  time_field, read_details, is_other, read_rest, read_fields, from_json, optional_json, to_json,
  contract_version,
}

module _ (forms : Forms) where
  -- The values that `to_json` writes.
  abbrev written : CourierCashCommand → Fields
  written c = record {
    version = string contract_version;
    idempotency_key = string (forms.uuid_text c.idempotency_key);
    event_type = string (event_text c.event_type);
    order_id = string (forms.uuid_text c.order_id);
    assignment_id = string (forms.uuid_text c.assignment_id);
    order_version_id = string (forms.uuid_text c.order_version_id);
    cash_execution_context_id = string (forms.uuid_text c.cash_execution_context_id);
    actor_id = string c.actor_id;
    actor_role = string (role_json c.actor_role);
    occurred_at = string (forms.time_text c.occurred_at);
    not_received_reason = optional_json forms reason_text c.not_received_reason;
    remark = optional_json forms (λ t. t) c.remark;
    correction_reason = optional_json forms (λ t. t) c.correction_reason;
    correction_of_idempotency_key =
        optional_json forms forms.uuid_text c.correction_of_idempotency_key;
  }

  fields_of-to_json : (c : CourierCashCommand) → fields_of (to_json forms c) ≡ written c
  unfolding fields_of get to_json text_eq
  fields_of-to_json c = refl

  keys-to_json :
      (c : CourierCashCommand)
      → (no_other_keys (to_json forms c) && all_keys command_keys (to_json forms c)) ≡ true
  unfolding no_other_keys all_keys has_key to_json text_eq
  keys-to_json c = refl

named-event : (e : EventType) → named event_text events (event_text e) ≡ some e
unfolding named text_eq
named-event driver_received = refl
named-event bar_not_received = refl
named-event driver_handed_to_chef = refl
named-event chef_received = refl
named-event chef_direct = refl
named-event correction = refl

named-role : (r : ActorRole) → named role_json roles (role_json r) ≡ some r
unfolding named text_eq
named-role driver = refl
named-role chef = refl
named-role office = refl

named-reason : (r : NotReceivedReason) → named reason_text reasons (reason_text r) ≡ some r
unfolding named text_eq
named-reason customer_not_found = refl
named-reason customer_could_not_pay = refl
named-reason amount_not_acceptable = refl
named-reason other_reason = refl

-- A trimmed text that is neither empty nor too long.
pub record IsTrimmed (t : Text) (maximum : ℕ) : Type 0 where
  pub trimmed : strip t ≡ t
  pub filled : 0 < length t
  pub short : length t ≤ maximum

text_field-IsTrimmed :
    (t : Text) (maximum : ℕ) → IsTrimmed t maximum → text_field (string t) maximum ≡ ok t
unfolding text_field
text_field-IsTrimmed t maximum i =
    ground (arith, (text_eq_iff t (strip t)).1 (sym i.trimmed), i.filled, i.short)

abbrev pub OptionalTrimmed : Option Text → ℕ → Type 0
OptionalTrimmed none maximum = Unit
OptionalTrimmed (some t) maximum = IsTrimmed t maximum

module _ (forms : Forms) where
  optional_text-Trimmed :
      (t : Option Text) (maximum : ℕ)
      → OptionalTrimmed t maximum
      → optional_text (optional_json forms (λ x. x) t) maximum ≡ ok t
  unfolding optional_text
  optional_text-Trimmed none maximum i = refl
  optional_text-Trimmed (some t) maximum i = ground (arith, text_field-IsTrimmed t maximum i)

-- The fields that go with an event: a structured reason with a remark when it is the other one, a
-- correction with its reason and the key that it corrects, and none of them for the other events.
abbrev pub Details :
    EventType → Option NotReceivedReason → Option Text → Option Text → Option Identifier → Type 0
Details bar_not_received (some r) remark reason key =
    (is_other r ≡ is_some remark) × (reason ≡ none) × (key ≡ none)
Details bar_not_received none remark reason key = ⊥
Details correction cause remark (some reason) (some key) = (cause ≡ none) × (remark ≡ none)
Details correction cause remark _ _ = ⊥
Details _ cause remark reason key =
    (cause ≡ none) × (remark ≡ none) × (reason ≡ none) × (key ≡ none)

pub record IsCommand (c : CourierCashCommand) : Type 0 where
  pub role : role_allowed c.event_type c.actor_role ≡ true
  pub actor : IsTrimmed c.actor_id 200
  pub remark : OptionalTrimmed c.remark 500
  pub reason : OptionalTrimmed c.correction_reason 500
  pub details :
      Details c.event_type c.not_received_reason c.remark c.correction_reason
        c.correction_of_idempotency_key

module _ (forms : Forms)
    (uuid_form : (i : Identifier) → forms.parse_uuid (forms.uuid_text i) ≡ some i)
    (time_form : (t : DateTime) → forms.parse_time (forms.time_text t) ≡ some t) where
  uuid_field-text : (i : Identifier) → uuid_field forms (string (forms.uuid_text i)) ≡ ok i
  unfolding uuid_field
  uuid_field-text i = ground (arith, uuid_form i)

  time_field-text : (t : DateTime) → time_field forms (string (forms.time_text t)) ≡ ok t
  unfolding time_field
  time_field-text t = ground (arith, time_form t)

  read_details-written :
      (e : EventType) (cause : Option NotReceivedReason) (remark reason : Option Text)
      (key : Option Identifier)
      → Details e cause remark reason key
      → read_details forms e
          (optional_json forms reason_text cause)
          remark
          reason
          (optional_json forms forms.uuid_text key)
        ≡ ok (cause, key)
  unfolding read_details
  read_details-written bar_not_received (some r) remark reason key d =
      ground (arith, named-reason r, d)
  read_details-written bar_not_received none remark reason key d = absurd d
  read_details-written correction cause remark (some reason) (some key) d =
      ground (arith, uuid_field-text key, d)
  read_details-written correction cause remark (some reason) none d = absurd d
  read_details-written correction cause remark none key d = absurd d
  read_details-written driver_received cause remark reason key d = ground (arith, d)
  read_details-written driver_handed_to_chef cause remark reason key d = ground (arith, d)
  read_details-written chef_received cause remark reason key d = ground (arith, d)
  read_details-written chef_direct cause remark reason key d = ground (arith, d)

  read_rest-written :
      (c : CourierCashCommand)
      → IsTrimmed c.actor_id 200
      → read_rest forms
          (written forms c)
          c.event_type
          c.actor_role
          c.remark
          c.correction_reason
          (c.not_received_reason, c.correction_of_idempotency_key)
        ≡ ok c
  unfolding read_rest
  read_rest-written c i =
      rw
        (
          uuid_field-text c.idempotency_key,
          uuid_field-text c.order_id,
          uuid_field-text c.assignment_id,
          uuid_field-text c.order_version_id,
          uuid_field-text c.cash_execution_context_id,
          text_field-IsTrimmed c.actor_id 200 i,
          time_field-text c.occurred_at,
        )
        refl

  read_fields-written :
      (c : CourierCashCommand) → IsCommand c → read_fields forms (written forms c) ≡ ok c
  unfolding read_fields
  read_fields-written c i =
      rw
        (
          named-event c.event_type,
          named-role c.actor_role,
          i.role,
          optional_text-Trimmed forms c.remark 500 i.remark,
          optional_text-Trimmed forms c.correction_reason 500 i.reason,
          read_details-written c.event_type c.not_received_reason c.remark c.correction_reason
              c.correction_of_idempotency_key i.details,
        )
        (read_rest-written c i.actor)

  -- When the texts of identifiers and instants are read back as what was written, a cash command
  -- with an allowed role, trimmed texts and the fields that go with its event is read from its own
  -- JSON object as itself.
  pub from_json-to_json :
      (c : CourierCashCommand) → IsCommand c → from_json forms (to_json forms c) ≡ ok c
  unfolding from_json
  from_json-to_json c i =
      rw (keys-to_json forms c)
        (ap (read_fields forms) (fields_of-to_json forms c) ∙ read_fields-written c i)
