-- ===== src/Courier/Model.antt =====
-- src/catering_system/domain/courier_cash_handoff.py: the commands and events of a cash handoff.
use silberloeffel_catering.Common.{Bool, true, false, Option}
use silberloeffel_catering.Common.Text.{Text}
use silberloeffel_catering.Orders.Model.{Identifier, DateTime}

pub data CashState : Type 0 where
  ready_for_handoff driver_custody awaiting_chef final_paid not_received manual_review : CashState

pub data EventType : Type 0 where
  driver_received bar_not_received driver_handed_to_chef chef_received chef_direct correction :
      EventType

pub data ActorRole : Type 0 where
  driver chef office : ActorRole

pub data NotReceivedReason : Type 0 where
  customer_not_found customer_could_not_pay amount_not_acceptable other_reason : NotReceivedReason

pub data QuittungStatus : Type 0 where
  printed_current not_ready : QuittungStatus

-- `_EVENT_ROLES`
unfoldable pub role_allowed : EventType → ActorRole → Bool
role_allowed driver_received driver = true
role_allowed bar_not_received driver = true
role_allowed bar_not_received chef = true
role_allowed driver_handed_to_chef driver = true
role_allowed chef_received chef = true
role_allowed chef_direct chef = true
role_allowed correction chef = true
role_allowed correction office = true
role_allowed _ _ = false

-- The contract version is the constant of this contract.
pub record CourierCashProjection : Type 0 where
  pub order_version_id : Identifier
  pub cash_execution_context_id : Identifier
  pub quittung_status : QuittungStatus

pub record CourierCashCommand : Type 0 where
  pub idempotency_key : Identifier
  pub event_type : EventType
  pub order_id : Identifier
  pub assignment_id : Identifier
  pub order_version_id : Identifier
  pub cash_execution_context_id : Identifier
  pub actor_id : Text
  pub actor_role : ActorRole
  pub occurred_at : DateTime
  pub not_received_reason : Option NotReceivedReason
  pub remark : Option Text
  pub correction_reason : Option Text
  pub correction_of_idempotency_key : Option Identifier

pub record CourierCashResult : Type 0 where
  pub contract_version : Text
  pub event_id : Identifier
  pub idempotency_key : Identifier
  pub order_id : Identifier
  pub cash_state : CashState
  pub recorded_at : DateTime

-- The sequence of an event is its place in the journal.
pub record CourierCashStoredEvent : Type 0 where
  pub event_id : Identifier
  pub idempotency_key : Identifier
  pub request_fingerprint : Text
  pub request_json : Text
  pub response_json : Text
  pub order_id : Identifier
  pub assignment_id : Identifier
  pub order_version_id : Identifier
  pub cash_execution_context_id : Identifier
  pub event_type : EventType
  pub actor_id : Text
  pub actor_role : ActorRole
  pub occurred_at : DateTime
  pub recorded_at : DateTime
  pub from_state : CashState
  pub to_state : CashState
  pub not_received_reason : Option NotReceivedReason
  pub remark : Option Text
  pub correction_reason : Option Text
  pub correction_of_idempotency_key : Option Identifier

-- the tests on constants
abbrev pub is_correction : EventType → Bool
is_correction correction = true
is_correction _ = false

abbrev pub is_chef_direct : EventType → Bool
is_chef_direct chef_direct = true
is_chef_direct _ = false

abbrev pub is_final_paid : CashState → Bool
is_final_paid final_paid = true
is_final_paid _ = false

abbrev pub is_ready : CashState → Bool
is_ready ready_for_handoff = true
is_ready _ = false

abbrev pub is_manual_review : CashState → Bool
is_manual_review manual_review = true
is_manual_review _ = false

abbrev pub is_printed_current : QuittungStatus → Bool
is_printed_current printed_current = true
is_printed_current not_ready = false
