-- ===== src/OperationalCore.antt =====
-- src/catering_system/services/operational_core_service.py: the kitchen-print gate, the effective
-- switch, cancellation, pause and the release gate. The clock and the identifier factory are
-- arguments; log lines are left out.
pub mod Gate
pub mod Switch
pub mod Cancelled
pub mod PauseControl
use silberloeffel_catering.Common.{
  ℕ, Bool, true, false, not, ◌&&◌, ◌||◌, Option, none, some, List, [], ◌∷◌, opt_eq, is_some,
  is_none, ◌==◌, if◌then◌else◌,
}
use silberloeffel_catering.Common.Text.{Text}
use silberloeffel_catering.Common.Results.{
  Result, ok, err, value_error, assertion_error, raise_if, or_raise, no_order,
  order_cancelled as cancelled_message, version_not_of_order, switch_not_candidate,
  switch_not_confirmed, already_paused, not_paused, stale_pause_state,
}
use silberloeffel_catering.Common.Results
use silberloeffel_catering.Common.Exec.{Exec, pure, lift, gets, ◌>>=◌, ◌>>◌}
use silberloeffel_catering.Orders.Model.{Identifier, DateTime, Order, OrderVersion}
use silberloeffel_catering.Orders.Repository.{
  OrderStore, get_order, get_order_version, update_order, update_order_version,
}
use silberloeffel_catering.Pause.{
  PauseEvent, PauseProjection, inactive, active, paused, resumed, new_pause_event, append_event,
  validate_pause_reason_code, validate_resume_reason_code, list_events, get_active_pause,
  derive_operational_pause_projection,
}
use silberloeffel_catering.World.{
  World, on_orders, emit, kitchen_print_confirmed, order_version_made_effective,
  order_ready_to_send, order_ready_to_send_blocked, order_cancelled_event, order_operational_paused,
  order_operational_resumed, operational_pause, Reason,
}
use silberloeffel_catering.ReadyToSend.{Evaluation, evaluate_ready_to_send_from_facts}

-- `order is None` and `order.cancelled_at is not None`, with which most commands begin
unfoldable pub live_order : Identifier → OrderStore → Result Order
unfolding get_order
live_order order_id s =
    Results.◌>>=◌ (or_raise (get_order s order_id) (value_error no_order))
      λ order. if is_some order.cancelled_at then err (value_error cancelled_message) else ok order

-- a version that is missing or of another order
unfoldable pub version_of : Identifier → Identifier → OrderStore → Result OrderVersion
unfolding get_order_version
version_of order_id order_version_id s = elim (get_order_version s order_version_id) [
  | none ↦ err (value_error version_not_of_order)
  | some v ↦ if v.order_id == order_id then ok v else err (value_error version_not_of_order)
]

-- `_owned_version`
unfoldable pub owned_version : Identifier → Identifier → OrderStore → Result OrderVersion
unfolding live_order version_of
owned_version order_id order_version_id s =
    Results.◌>>=◌ (live_order order_id s) λ _. version_of order_id order_version_id s

unfoldable pub confirm_kitchen_print : Identifier → Identifier → DateTime → Exec World OrderVersion
unfolding owned_version
confirm_kitchen_print order_id order_version_id now = do
  s ← gets (λ w. w.orders)
  ver ← lift (owned_version order_id order_version_id s)
  if is_some ver.kitchen_print_confirmed_at then pure ver else do
    let confirmed = record ver { kitchen_print_confirmed_at = some now }
    on_orders (update_order_version confirmed)
    emit (kitchen_print_confirmed order_id order_version_id)
    pure confirmed

unfoldable pub make_order_version_effective : Identifier → Identifier → DateTime → Exec World Order
unfolding owned_version get_order
make_order_version_effective order_id order_version_id now = do
  s ← gets (λ w. w.orders)
  ver ← lift (owned_version order_id order_version_id s)
  current ← lift (or_raise (get_order s order_id) assertion_error)
  let is_selected =
      opt_eq current.effective_order_version_id (some order_version_id)
      && is_none current.candidate_order_version_id
  if is_selected then pure current else do
    let is_initial_selection =
        is_none current.effective_order_version_id && is_none current.candidate_order_version_id
    lift (
        raise_if
          (not is_initial_selection
            && not (opt_eq current.candidate_order_version_id (some order_version_id)))
          switch_not_candidate)
    lift (raise_if (is_none ver.kitchen_print_confirmed_at) switch_not_confirmed)
    let updated = record current {
      effective_order_version_id = some order_version_id;
      candidate_order_version_id = none;
      updated_at = now;
    }
    on_orders (update_order updated)
    emit (order_version_made_effective order_id order_version_id)
    pure updated

-- The clock is read twice: for the fact and for `updated_at`.
unfoldable pub cancel_order : Identifier → DateTime → DateTime → Exec World Order
unfolding get_order
cancel_order order_id now now' = do
  s ← gets (λ w. w.orders)
  current ← lift (or_raise (get_order s order_id) (value_error no_order))
  if is_some current.cancelled_at then pure current else do
    let cancelled = record current { cancelled_at = some now; updated_at = now' }
    on_orders (update_order cancelled)
    emit (order_cancelled_event order_id)
    pure cancelled

unfoldable pub get_operational_pause_projection : Identifier → World → Result PauseProjection
unfolding list_events derive_operational_pause_projection
get_operational_pause_projection order_id w =
    derive_operational_pause_projection (list_events order_id w.pauses)

-- `projection["active"]`, `.get("current_pause_event_id")` and `.get("latest_pause_event_id")`
abbrev pub is_active : PauseProjection → Bool
is_active (inactive _) = false
is_active (active _ _ _ _ _ _) = true

abbrev pub current_id : PauseProjection → Option Identifier
current_id (inactive _) = none
current_id (active c _ _ _ _ _) = some c

abbrev pub latest_id : PauseProjection → Option Identifier
latest_id (inactive l) = l
latest_id (active _ l _ _ _ _) = some l

-- `append_event` of the pause repository
abbrev record_pause : PauseEvent → Exec World (Unit {0})
record_pause event w = elim (append_event event w.pauses) [
  | ok pauses ↦ (ok tt, record w { pauses = pauses })
  | err e ↦ (err e, w)
]

unfoldable pub pause_order :
    (order_id : Identifier) (reason_code : Text) (note : Option Text) (actor_reference : Text)
    (command_id : Identifier) (expected_latest_pause_event_id : Option Identifier)
    (fresh_id : Identifier) (now : DateTime)
    → Exec World PauseEvent
unfolding live_order
pause_order order_id reason_code note actor_reference command_id expected_latest fresh_id now = do
  w ← gets (λ w. w)
  lift (live_order order_id w.orders)
  lift (validate_pause_reason_code reason_code)
  projection ← lift (get_operational_pause_projection order_id w)
  lift (raise_if (is_active projection) already_paused)
  lift (raise_if (not (opt_eq (latest_id projection) expected_latest)) stale_pause_state)
  event ← lift (
      new_pause_event (record {
        pause_event_id = fresh_id;
        order_id = order_id;
        action = paused;
        reason_code = reason_code;
        note = note;
        actor_reference = actor_reference;
        occurred_at = now;
        command_id = command_id;
        resumes_pause_event_id = none;
      }))
  record_pause event
  emit (order_operational_paused order_id event.pause_event_id)
  pure event

unfoldable pub resume_order :
    (order_id : Identifier) (reason_code : Text) (note : Option Text) (actor_reference : Text)
    (command_id expected_current_pause_event_id expected_latest_pause_event_id : Identifier)
    (fresh_id : Identifier) (now : DateTime)
    → Exec World PauseEvent
unfolding live_order
resume_order order_id reason_code note actor_reference command_id expected_current expected_latest
      fresh_id now =
    do
      w ← gets (λ w. w)
      lift (live_order order_id w.orders)
      lift (validate_resume_reason_code reason_code)
      projection ← lift (get_operational_pause_projection order_id w)
      lift (raise_if (not (is_active projection)) not_paused)
      lift (
          raise_if (not (opt_eq (current_id projection) (some expected_current))) stale_pause_state)
      lift (raise_if (not (opt_eq (latest_id projection) (some expected_latest))) stale_pause_state)
      active_pause ← lift (or_raise (get_active_pause order_id w.pauses) assertion_error)
      event ← lift (
          new_pause_event (record {
            pause_event_id = fresh_id;
            order_id = order_id;
            action = resumed;
            reason_code = reason_code;
            note = note;
            actor_reference = actor_reference;
            occurred_at = now;
            command_id = command_id;
            resumes_pause_event_id = some active_pause.pause_event_id;
          }))
      record_pause event
      emit (order_operational_resumed order_id event.pause_event_id active_pause.pause_event_id)
      pure event

-- the version that `evaluate_ready_to_send` resolves
abbrev pub effective_row : World → Option Order → Option OrderVersion
effective_row w none = none
effective_row w (some order) = elim order.effective_order_version_id [
  | none ↦ none
  | some v ↦ get_order_version w.orders v
]

-- `if READY_REASON_OPERATIONAL_PAUSE not in reasons: reasons.insert(0, ...)`
abbrev pub has_pause_reason : List Reason → Bool
has_pause_reason [] = false
has_pause_reason (operational_pause ∷ _) = true
has_pause_reason (_ ∷ reasons) = has_pause_reason reasons

abbrev pub with_pause_reason : List Reason → List Reason
with_pause_reason reasons =
    if has_pause_reason reasons then reasons else operational_pause ∷ reasons

abbrev pub gate : Identifier → Option Order → Evaluation → Option PauseEvent → Evaluation
gate order_id none ev pause = record { order_id = order_id; ready = false; reasons = ev.reasons }
gate order_id (some order) ev none = ev
gate order_id (some order) ev (some pause) = record {
  order_id = ev.order_id;
  ready = false;
  reasons = with_pause_reason ev.reasons;
}

unfoldable pub evaluate_ready_to_send : Identifier → World → Evaluation
unfolding get_order get_order_version evaluate_ready_to_send_from_facts
evaluate_ready_to_send order_id w =
    let order = get_order w.orders order_id in
    let ev = evaluate_ready_to_send_from_facts order (effective_row w order) in
    gate order_id order ev (get_active_pause order_id w.pauses)

unfoldable pub request_ready_to_send : Identifier → Exec World Evaluation
request_ready_to_send order_id = do
  w ← gets (λ w. w)
  let ev = evaluate_ready_to_send order_id w
  emit (
      if ev.ready
      then order_ready_to_send order_id
      else order_ready_to_send_blocked order_id ev.reasons)
  pure ev
