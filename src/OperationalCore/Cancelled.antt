-- ===== src/OperationalCore/Cancelled.antt =====
-- What a cancellation ends.
use silberloeffel_catering.Common.{
  ◌≡◌, false, Option, none, some, [], arith, inl, inr, Option-cases, Bool-cases,
}
use silberloeffel_catering.Common.Dict.{lookup-insert}
use silberloeffel_catering.Common.Text.{Text}
use silberloeffel_catering.Common.Results.{ok, err, Result-cases, value_error, order_cancelled}
use silberloeffel_catering.Orders.Model.{Identifier, DateTime, Order}
use silberloeffel_catering.Orders.Repository.{get_order, update_order}
use silberloeffel_catering.Orders.Repository.Consistency.{update_order-ok}
use silberloeffel_catering.Orders.Repository.Soundness.{IsSound}
use silberloeffel_catering.World.{World}
use silberloeffel_catering.OperationalCore.{
  confirm_kitchen_print, make_order_version_effective, cancel_order, pause_order, resume_order,
  evaluate_ready_to_send,
}
use silberloeffel_catering.OperationalCore.Gate.{ready-iff-IsReleased}
use silberloeffel_catering.OperationalCore.Switch.{cancelled_refuses}

-- A returned cancellation has stored the returned order, which is cancelled.
cancel_order-stored :
    (order_id : Identifier) (now now' : DateTime) (w w' : World) (o : Order)
    → IsSound w.orders
    → cancel_order order_id now now' w ≡ (ok o, w')
    → (get_order w'.orders order_id ≡ some o) × ((t : DateTime) × (o.cancelled_at ≡ some t))
unfolding cancel_order get_order
cancel_order-stored order_id now now' w w' o i h =
    elim (Option-cases (get_order w.orders order_id)) [
      | inl missing ↦ ground (arith, missing)
      | inr (p, ep) ↦ elim (Option-cases p.cancelled_at) [
        | inr (t, done) ↦ (ground (arith, ep, done), (t, ground (arith, ep, done)))
        | inl open' ↦
            let closed = record p { cancelled_at = some now; updated_at = now' } in
            elim (Result-cases (update_order closed w.orders)) [
              | inr (e, ee) ↦ ground (arith, ep, open', ee)
              | inl (s', es) ↦
                  let r = update_order-ok _ w.orders s' es in
                  let key : p.order_id ≡ order_id = i.consistent.order_key order_id p ep in
                  (
                    ground (
                      arith,
                      ep,
                      open',
                      es,
                      r.3,
                      lookup-insert p.order_id order_id closed w.orders.orders,
                    ),
                    (now, ground (arith, ep, open', es)),
                  )
            ]
      ]
    ]

-- A cancelled order is not released.
cancelled-not_ready :
    (order_id : Identifier) (t : DateTime) (w : World) (o : Order)
    → get_order w.orders order_id ≡ some o
    → o.cancelled_at ≡ some t
    → (evaluate_ready_to_send order_id w).ready ≡ false
cancelled-not_ready order_id t w o stored done =
    elim (Bool-cases (evaluate_ready_to_send order_id w).ready) [
      | inr closed ↦ closed
      | inl ready ↦
          let released = (ready-iff-IsReleased order_id w).0 ready in
          ground (arith, released.stored, released.live, stored, done)
    ]

-- On sound orders, once a cancellation has returned, the release gate says that the order is not
-- ready, and every kitchen confirmation, effective switch, pause and resume of the order is
-- refused and changes nothing, whatever its other arguments and the clock.
pub cancel_order_final :
    (order_id : Identifier) (now now' : DateTime) (w w' : World) (o : Order)
    → IsSound w.orders
    → cancel_order order_id now now' w ≡ (ok o, w')
    → ((evaluate_ready_to_send order_id w').ready ≡ false)
      × ((order_version_id : Identifier) (later : DateTime)
          → (confirm_kitchen_print order_id order_version_id later w'
              ≡ (err (value_error order_cancelled), w'))
            × (make_order_version_effective order_id order_version_id later w'
                ≡ (err (value_error order_cancelled), w')))
      × ((reason actor : Text) (note : Option Text) (command current previous fresh : Identifier)
            (latest : Option Identifier) (later : DateTime)
          → (pause_order order_id reason note actor command latest fresh later w'
              ≡ (err (value_error order_cancelled), w'))
            × (resume_order order_id reason note actor command current previous fresh later w'
                ≡ (err (value_error order_cancelled), w')))
cancel_order_final order_id now now' w w' o i h =
    let (stored, (t, done)) = cancel_order-stored order_id now now' w w' o i h in
    (
      cancelled-not_ready order_id t w' o stored done,
      λ v later.
          let r = cancelled_refuses order_id v later t w' o [] [] none 0 0 0 0 none stored done in
          (r.0, r.1),
      λ reason actor note command current previous fresh latest later.
          let r =
            cancelled_refuses order_id 0 later t w' o reason actor note command current previous
              fresh latest stored done in
          (r.2, r.3),
    )
