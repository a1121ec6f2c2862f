-- ===== src/ReadyToSend.antt =====
-- src/catering_system/domain/ready_to_send.py: the release gate, from the facts of an order.
use silberloeffel_catering.Common.{
  Bool, true, false, not, Option, none, some, List, [], ◌∷◌, is_some, is_none, ◌==◌, if◌then◌else◌,
}
use silberloeffel_catering.Orders.Model.{Identifier, Order, OrderVersion}
use silberloeffel_catering.World.{
  Reason, ready_to_send_order_not_found, order_cancelled, no_effective_version,
  effective_version_not_resolvable, kitchen_print_not_confirmed, pending_order_version_change,
}

-- `ReadyToSendEvaluation`
pub record Evaluation : Type 0 where
  pub order_id : Identifier
  pub ready : Bool
  pub reasons : List Reason

abbrev pub blocked_by : Identifier → Reason → Evaluation
blocked_by order_id reason = record { order_id = order_id; ready = false; reasons = reason ∷ [] }

abbrev not_owned_by : Identifier → Option OrderVersion → Bool
not_owned_by order_id none = true
not_owned_by order_id (some v) = not (v.order_id == order_id)

abbrev not_confirmed : Option OrderVersion → Bool
not_confirmed none = true
not_confirmed (some v) = is_none v.kitchen_print_confirmed_at

unfoldable pub evaluate_ready_to_send_from_facts : Option Order → Option OrderVersion → Evaluation
evaluate_ready_to_send_from_facts none effective_version =
    blocked_by 0 ready_to_send_order_not_found
evaluate_ready_to_send_from_facts (some order) effective_version =
    if is_some order.cancelled_at
    then blocked_by order.order_id order_cancelled
    else if is_some order.candidate_order_version_id
    then blocked_by order.order_id pending_order_version_change
    else if is_none order.effective_order_version_id
    then blocked_by order.order_id no_effective_version
    else if not_owned_by order.order_id effective_version
    then blocked_by order.order_id effective_version_not_resolvable
    else if not_confirmed effective_version
    then blocked_by order.order_id kitchen_print_not_confirmed
    else record { order_id = order.order_id; ready = true; reasons = [] }
