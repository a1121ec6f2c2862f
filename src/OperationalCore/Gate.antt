-- ===== src/OperationalCore/Gate.antt =====
-- The release gate READY_TO_SEND: exactly when it opens, and that asking changes no order.
use silberloeffel_catering.Common.{◌≡◌, ◌↔◌, true, none, some, [], arith, inl, inr, Option-cases}
use silberloeffel_catering.Orders.Model.{Identifier, DateTime, Order, OrderVersion}
use silberloeffel_catering.Orders.Repository.{get_order, get_order_version}
use silberloeffel_catering.Pause.{get_active_pause}
use silberloeffel_catering.World.{World}
use silberloeffel_catering.OperationalCore.{evaluate_ready_to_send}

-- What must be true before an order leaves the house.
pub record IsReleased (order_id : Identifier) (w : World) : Type 0 where
  pub order : Order
  pub version_id : Identifier
  pub version : OrderVersion
  pub confirmed_at : DateTime
  pub stored : get_order w.orders order_id ≡ some order
  pub live : order.cancelled_at ≡ none
  pub settled : order.candidate_order_version_id ≡ none
  pub effective : order.effective_order_version_id ≡ some version_id
  pub resolved : get_order_version w.orders version_id ≡ some version
  pub owned : version.order_id ≡ order.order_id
  pub confirmed : version.kitchen_print_confirmed_at ≡ some confirmed_at
  pub unpaused : get_active_pause order_id w.pauses ≡ none

-- The release gate says ready exactly when it lists no reason against it.
pub ready-iff-no_reasons :
    (order_id : Identifier) (w : World)
    → let ev = evaluate_ready_to_send order_id w in (ev.ready ≡ true) ↔ (ev.reasons ≡ [])
unfolding evaluate_ready_to_send
ready-iff-no_reasons order_id w = ground arith

open_gate :
    (order_id : Identifier) (w : World)
    → IsReleased order_id w
    → (evaluate_ready_to_send order_id w).ready ≡ true
unfolding evaluate_ready_to_send
open_gate order_id w r = ground arith

pass_gate :
    (order_id : Identifier) (w : World)
    → (evaluate_ready_to_send order_id w).ready ≡ true
    → IsReleased order_id w
unfolding evaluate_ready_to_send
pass_gate order_id w h = elim (Option-cases (get_order w.orders order_id)) [
  | inl missing ↦ ground arith
  | inr (o, eo) ↦ elim (Option-cases o.effective_order_version_id) [
    | inl unset ↦ ground arith
    | inr (c, ec) ↦ elim (Option-cases (get_order_version w.orders c)) [
      | inl unresolved ↦ ground arith
      | inr (v, ev) ↦ elim (Option-cases v.kitchen_print_confirmed_at) [
        | inl unconfirmed ↦ ground arith
        | inr (t, et) ↦ record {
          order = o;
          version_id = c;
          version = v;
          confirmed_at = t;
          stored = eo;
          live = ground arith;
          settled = ground arith;
          effective = ec;
          resolved = ev;
          owned = ground arith;
          confirmed = et;
          unpaused = ground arith;
        }
      ]
    ]
  ]
]

-- The release gate says ready exactly when the order is stored, not cancelled, without a pending
-- candidate, with an effective version of its own whose kitchen print is confirmed, and not
-- paused.
pub ready-iff-IsReleased :
    (order_id : Identifier) (w : World)
    → ((evaluate_ready_to_send order_id w).ready ≡ true) ↔ IsReleased order_id w
ready-iff-IsReleased order_id w = (pass_gate order_id w, open_gate order_id w)
