-- ===== src/Courier/Service.antt =====
-- src/catering_system/services/courier_cash_service.py: the state machine of the cash handoff. The
-- hash of a request and the hash of a context are parameters, and so is the day in Berlin.
pub mod Replay
pub mod Once
pub mod Paid
use silberloeffel_catering.Common.{
  ℕ, Bool, true, false, not, ◌&&◌, ◌||◌, Option, none, some, List, [], ◌∷◌, ◌++◌, is_some, opt_eq,
  ◌==◌, if◌then◌else◌,
}
use silberloeffel_catering.Common.Text.{Text, codes, text_eq}
use silberloeffel_catering.Common.Results
use silberloeffel_catering.Common.Results.{
  Result, ok, err, Error, value_error, key_error, command_error, assertion_error, or_raise, Message,
  idempotency_conflict, invalid_transition, stale_order_revision, stale_cash_context,
}
use silberloeffel_catering.Common.Exec.{Exec, lift, gets, ◌>>=◌, ◌>>◌}
use silberloeffel_catering.Orders.Model.{Identifier, DateTime, Date, FulfillmentMode, pickup, Order}
use silberloeffel_catering.Orders.Repository.{OrderStore, get_order}
use silberloeffel_catering.Orders.Context.{Inquiry}
use silberloeffel_catering.Payments.Model.{is_cash, OrderPaymentReminder}
use silberloeffel_catering.Payments.Derive.{PaymentReminderView}
use silberloeffel_catering.Payments.Repository.{PaymentStore, get_reminder}
use silberloeffel_catering.Payments.Save.{Days, save_payment}
use silberloeffel_catering.Payments.Commands.{correct_payment_completion}
use silberloeffel_catering.Courier.Model.{
  CashState, ready_for_handoff, driver_custody, awaiting_chef, final_paid, not_received,
  manual_review, EventType, driver_received, bar_not_received, driver_handed_to_chef, chef_received,
  chef_direct, correction, ActorRole, driver, chef, office, QuittungStatus, CourierCashProjection,
  CourierCashCommand, CourierCashResult, CourierCashStoredEvent, is_correction, is_chef_direct,
  is_final_paid, is_ready, is_manual_review, is_printed_current,
}
use silberloeffel_catering.Courier.Journal.{
  Journal, get_by_idempotency_key, get_latest_for_context, get_latest_for_order, append_event,
}
use silberloeffel_catering.Courier.Codec.{contract_version, to_json}
use silberloeffel_catering.Courier.Answer.{Library, result_json, stored_result}
use silberloeffel_catering.Courier.Context.{ContextMaterial, projection}

-- `_TRANSITIONS`
unfoldable pub transition : CashState → EventType → Option CashState
transition ready_for_handoff driver_received = some driver_custody
transition ready_for_handoff bar_not_received = some not_received
transition driver_custody driver_handed_to_chef = some awaiting_chef
transition awaiting_chef chef_received = some final_paid
transition ready_for_handoff chef_direct = some final_paid
transition _ _ = none

-- `_CORRECTABLE_STATES`
abbrev pub correctable : CashState → Bool
correctable ready_for_handoff = false
correctable manual_review = false
correctable _ = true

-- `if test: raise CourierCashCommandError(code, 409)`
abbrev pub refuse_if : Bool → Message → Result (Unit {0})
refuse_if true code = err (command_error code)
refuse_if false code = ok tt

-- `_actor`
abbrev pub role_text : ActorRole → Text
role_text driver = codes "courier:driver:"
role_text chef = codes "courier:chef:"
role_text office = codes "courier:office:"

abbrev pub actor_reference : CourierCashCommand → Text
actor_reference command = role_text command.actor_role ++ command.actor_id

-- What the service writes to.
pub record CashStores : Type 0 where
  pub payments : PaymentStore
  pub journal : Journal

-- The code that the service depends on outside of the repository.
pub record Outside : Type 0 where
  pub fingerprint : Text → Text
  pub library : Library
  pub uuid5 : ContextMaterial → Identifier
  pub local_date : DateTime → Date
  pub inquiry : Identifier → Option Inquiry

-- The readings of the clocks in one command, and its fresh identifier: its own clock, and the clock
-- and the days of the payment service.
pub record Readings : Type 0 where
  pub now : DateTime
  pub payment_now : DateTime
  pub days : Days
  pub event_id : Identifier

abbrev is_pickup : Option Inquiry → Bool
is_pickup none = false
is_pickup (some inquiry) = elim inquiry.fulfillment_mode [ pickup ↦ true | _ ↦ false ]

module _ (outside : Outside) (orders : OrderStore) (command : CourierCashCommand) where
  -- `request_json`
  abbrev pub request_text : Text
  request_text = outside.library.dumps (to_json outside.library.forms command)

  -- the guards on the order
  unfoldable pub check_order : Result (Unit {0})
  unfolding get_order
  check_order = elim (get_order orders command.order_id) [
    | none ↦ err (command_error invalid_transition)
    | some order ↦ Results.◌>>◌ (refuse_if (is_some order.cancelled_at) invalid_transition) (
        Results.◌>>◌
          (refuse_if (not (opt_eq order.effective_order_version_id (some command.order_version_id)))
            stale_order_revision)
          (refuse_if
            (is_chef_direct command.event_type
              && not (is_pickup (outside.inquiry order.source_inquiry_id)))
            invalid_transition))
  ]

  unfoldable pub current_projection : CashStores → Result CourierCashProjection
  unfolding projection
  current_projection s =
      Results.◌>>=◌
        (or_raise (projection outside.uuid5 command.order_id orders s.payments s.journal)
          (command_error stale_cash_context))
        λ p.
          Results.◌>>◌
            (refuse_if (not (p.cash_execution_context_id == command.cash_execution_context_id))
              stale_cash_context)
            (ok p)

  abbrev after_other_context : Option CourierCashStoredEvent → CashState
  after_other_context none = ready_for_handoff
  after_other_context (some e) =
      if is_manual_review e.to_state then manual_review else ready_for_handoff

  unfoldable pub from_state_of : Journal → CashState
  unfolding get_latest_for_context get_latest_for_order
  from_state_of j =
      elim (get_latest_for_context command.order_id command.cash_execution_context_id j) [
        | some latest ↦ latest.to_state
        | none ↦ after_other_context (get_latest_for_order command.order_id j)
      ]

  -- the event that a correction names; `from_json` has seen that it names one
  unfoldable pub corrected_event : Journal → Result CourierCashStoredEvent
  unfolding get_by_idempotency_key
  corrected_event j =
      Results.◌>>=◌ (or_raise command.correction_of_idempotency_key assertion_error) λ key.
        Results.◌>>=◌ (or_raise (get_by_idempotency_key key j) (command_error invalid_transition))
          λ e.
            Results.◌>>◌ (refuse_if (not (e.order_id == command.order_id)) invalid_transition)
              (ok e)

  unfoldable pub to_state_of : CourierCashProjection → CashState → Journal → Result CashState
  unfolding corrected_event transition
  to_state_of p from_state j =
      if is_correction command.event_type
      then Results.◌>>◌ (refuse_if (not (correctable from_state)) invalid_transition)
          (Results.◌>>=◌ (corrected_event j) λ _. ok manual_review)
      else Results.◌>>=◌
          (or_raise (transition from_state command.event_type) (command_error invalid_transition))
          λ next.
            Results.◌>>◌
              (refuse_if (is_ready from_state && not (is_printed_current p.quittung_status))
                invalid_transition)
              (ok next)

  -- `except (KeyError, ValueError)`
  abbrev pub translated : Error → Error
  translated (value_error _) = command_error invalid_transition
  translated (key_error _) = command_error invalid_transition
  translated other = other

  -- the guards of `_record_final_payment`
  unfoldable pub payable : Option OrderPaymentReminder → Result OrderPaymentReminder
  payable none = err (command_error stale_cash_context)
  payable (some payment) =
      Results.◌>>◌ (refuse_if (not (is_cash payment.payment_method)) stale_cash_context) (
        Results.◌>>◌
          (refuse_if (is_some payment.paid_on || payment.cash_received) invalid_transition)
          (ok payment))

  -- a call of the payment service
  abbrev pub on_payments :
      (Error → Error) → Exec PaymentStore PaymentReminderView → Exec CashStores (Unit {0})
  on_payments translate call s = elim ((call s.payments).0) [
    | ok _ ↦ (ok tt, record s { payments = (call s.payments).1 })
    | err e ↦ (err (translate e), record s { payments = (call s.payments).1 })
  ]

  unfoldable pub record_final_payment : Readings → Exec CashStores (Unit {0})
  unfolding payable get_reminder save_payment
  record_final_payment t = do
    payment ← λ s. (payable (get_reminder s.payments command.order_id), s)
    on_payments translated (
        save_payment outside.local_date orders
          (record payment { paid_on = some (outside.local_date t.now); cash_received = true })
          (actor_reference command) false false t.payment_now t.days)

  -- the guard of a correction of a final payment
  unfoldable pub still_paid : Option OrderPaymentReminder → Result (Unit {0})
  still_paid none = err (command_error invalid_transition)
  still_paid (some payment) =
      refuse_if (not (is_some payment.paid_on || payment.cash_received)) invalid_transition

  unfoldable pub revoke_payment : Readings → CourierCashStoredEvent → Exec CashStores (Unit {0})
  unfolding still_paid get_reminder correct_payment_completion
  revoke_payment t corrected =
      if is_final_paid corrected.to_state
      then (do
        λ s. (still_paid (get_reminder s.payments command.order_id), s)
        reason ← lift (or_raise command.correction_reason assertion_error)
        on_payments (λ e. e)
            (correct_payment_completion outside.local_date orders t.payment_now t.days
              command.order_id (outside.library.forms.uuid_text command.idempotency_key) reason
              (actor_reference command)))
      else (λ s. (ok tt, s))

  -- what the transition does to the payment
  unfoldable pub settle : Readings → CashState → Exec CashStores (Unit {0})
  unfolding record_final_payment corrected_event revoke_payment
  settle t to_state =
      if is_final_paid to_state
      then record_final_payment t
      else if is_correction command.event_type
      then (do corrected ← λ s. (corrected_event s.journal, s); revoke_payment t corrected)
      else (λ s. (ok tt, s))

  abbrev pub result_of : Readings → CashState → CourierCashResult
  result_of t to_state = record {
    contract_version = contract_version;
    event_id = t.event_id;
    idempotency_key = command.idempotency_key;
    order_id = command.order_id;
    cash_state = to_state;
    recorded_at = t.now;
  }

  abbrev pub event_of : Readings → CashState → CashState → CourierCashStoredEvent
  event_of t from_state to_state = record {
    event_id = t.event_id;
    idempotency_key = command.idempotency_key;
    request_fingerprint = outside.fingerprint request_text;
    request_json = request_text;
    response_json = outside.library.dumps (result_json outside.library (result_of t to_state));
    order_id = command.order_id;
    assignment_id = command.assignment_id;
    order_version_id = command.order_version_id;
    cash_execution_context_id = command.cash_execution_context_id;
    event_type = command.event_type;
    actor_id = command.actor_id;
    actor_role = command.actor_role;
    occurred_at = command.occurred_at;
    recorded_at = t.now;
    from_state = from_state;
    to_state = to_state;
    not_received_reason = command.not_received_reason;
    remark = command.remark;
    correction_reason = command.correction_reason;
    correction_of_idempotency_key = command.correction_of_idempotency_key;
  }

  abbrev pub append_to_journal : CourierCashStoredEvent → Exec CashStores (Unit {0})
  append_to_journal event s = elim (append_event event orders s.journal) [
    | ok j ↦ (ok tt, record s { journal = j })
    | err e ↦ (err e, s)
  ]

  -- the states before and after, with all guards on them
  unfoldable pub next_states : CashStores → Result (CashState × CashState)
  unfolding check_order current_projection from_state_of to_state_of
  next_states s = Results.◌>>◌ check_order (
      Results.◌>>=◌ (current_projection s) λ p.
        Results.◌>>=◌ (to_state_of p (from_state_of s.journal) s.journal)
          λ to_state. ok (from_state_of s.journal, to_state))

  -- a command whose key is new
  unfoldable pub process_new : Readings → Exec CashStores CourierCashResult
  unfolding next_states settle
  process_new t = do
    states ← λ s. (next_states s, s)
    settle t states.1
    append_to_journal (event_of t states.0 states.1)
    λ s. (ok (result_of t states.1), s)

  -- a command whose key is recorded
  unfoldable pub replayed : CourierCashStoredEvent → Result CourierCashResult
  unfolding text_eq stored_result
  replayed event =
      Results.◌>>◌
        (refuse_if (not (text_eq event.request_fingerprint (outside.fingerprint request_text)))
          idempotency_conflict)
        (stored_result outside.library event)

  unfoldable pub process : Readings → Exec CashStores CourierCashResult
  unfolding get_by_idempotency_key replayed process_new
  process t = do
    replay ← gets (λ s. get_by_idempotency_key command.idempotency_key s.journal)
    elim replay [ some event ↦ lift (replayed event) | none ↦ process_new t ]
