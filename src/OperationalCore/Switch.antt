-- ===== src/OperationalCore/Switch.antt =====
-- The kitchen-print gate and the effective switch.
use silberloeffel_catering.Common.{
  ◌≡◌, true, Option, none, some, arith, is_some, inl, inr, Option-cases, opt_eq→eq,
}
use silberloeffel_catering.Common.Dict.{lookup-insert}
use silberloeffel_catering.Orders.Repository.Consistency.{update_order-ok}
use silberloeffel_catering.Common.Results.{ok, err, Result-cases, value_error, order_cancelled}
use silberloeffel_catering.Common.Text.{Text}
use silberloeffel_catering.Orders.Model.{Identifier, DateTime, Order, OrderVersion}
use silberloeffel_catering.Orders.Repository.{
  OrderStore, get_order, get_order_version, update_order, update_order_version,
}
use silberloeffel_catering.Orders.Repository.Soundness.{
  IsSound, update_order-IsSound, update_order_version-IsSound,
}
use silberloeffel_catering.World.{World}
use silberloeffel_catering.OperationalCore.{
  confirm_kitchen_print, make_order_version_effective, cancel_order, pause_order, resume_order,
}

-- The order that an effective switch stores.
abbrev selected : Identifier → DateTime → Order → Order
selected order_version_id now o = record o {
  effective_order_version_id = some order_version_id;
  candidate_order_version_id = none;
  updated_at = now;
}

-- What every call of the repository with the arguments of the command keeps, the command keeps.
module _ (P : OrderStore → Type 0) (order_id order_version_id : Identifier) (now : DateTime)
    (w : World) (start : P w.orders) where
  confirm_kitchen_print-keeps :
      ((v : OrderVersion) (s' : OrderStore)
        → get_order_version w.orders order_version_id ≡ some v
        → update_order_version (record v { kitchen_print_confirmed_at = some now }) w.orders ≡ ok s'
        → P s')
      → P (confirm_kitchen_print order_id order_version_id now w).1.orders
  unfolding confirm_kitchen_print
  confirm_kitchen_print-keeps keep = grind (arith, keep)

  make_order_version_effective-keeps :
      ((o : Order) (v : OrderVersion) (s' : OrderStore)
        → get_order w.orders order_id ≡ some o
        → get_order_version w.orders order_version_id ≡ some v
        → is_some v.kitchen_print_confirmed_at ≡ true
        → update_order (selected order_version_id now o) w.orders ≡ ok s'
        → P s')
      → P (make_order_version_effective order_id order_version_id now w).1.orders
  unfolding make_order_version_effective
  make_order_version_effective-keeps keep = elim (Option-cases (get_order w.orders order_id)) [
    | inl missing ↦ ground arith
    | inr (o, eo) ↦ elim (Option-cases (get_order_version w.orders order_version_id)) [
      | inl missing ↦ ground arith
      | inr (v, ev) ↦
          elim (Result-cases (update_order (selected order_version_id now o) w.orders)) [
            | inl (s', es) ↦ ground (arith, keep o v s' eo ev)
            | inr (e, ee) ↦ ground arith
          ]
    ]
  ]

  cancel_order-keeps :
      (now' : DateTime)
      → ((o : Order) (s' : OrderStore)
          → get_order w.orders order_id ≡ some o
          → update_order (record o { cancelled_at = some now; updated_at = now' }) w.orders ≡ ok s'
          → P s')
      → P (cancel_order order_id now now' w).1.orders
  unfolding cancel_order
  cancel_order-keeps now' keep = elim (Option-cases (get_order w.orders order_id)) [
    | inl missing ↦ ground arith
    | inr (o, eo) ↦
        elim (Result-cases
          (update_order (record o { cancelled_at = some now; updated_at = now' }) w.orders)) [
            | inl (s', es) ↦ ground (arith, keep o s' eo)
            | inr (e, ee) ↦ ground arith
          ]
  ]

-- The kitchen confirmation keeps the orders sound on every branch.
pub confirm_kitchen_print-IsSound :
    (order_id order_version_id : Identifier) (now : DateTime) (w : World)
    → IsSound w.orders
    → IsSound (confirm_kitchen_print order_id order_version_id now w).1.orders
confirm_kitchen_print-IsSound order_id order_version_id now w i =
    confirm_kitchen_print-keeps IsSound order_id order_version_id now w i
      (λ v s' e h. update_order_version-IsSound _ w.orders s' i h)

-- The effective switch keeps the orders sound on every branch.
pub make_order_version_effective-IsSound :
    (order_id order_version_id : Identifier) (now : DateTime) (w : World)
    → IsSound w.orders
    → IsSound (make_order_version_effective order_id order_version_id now w).1.orders
unfolding get_order_version
make_order_version_effective-IsSound order_id order_version_id now w i =
    make_order_version_effective-keeps IsSound order_id order_version_id now w i
      (λ o v s' eo ev confirmed h. update_order-IsSound _ w.orders s' i (λ c u e f. ground arith) h)

-- The cancellation keeps the orders sound on every branch.
pub cancel_order-IsSound :
    (order_id : Identifier) (now now' : DateTime) (w : World)
    → IsSound w.orders
    → IsSound (cancel_order order_id now now' w).1.orders
unfolding get_order
cancel_order-IsSound order_id now now' w i =
    cancel_order-keeps IsSound order_id 0 now w i now' (λ o s' eo h.
      update_order-IsSound _ w.orders s' i (λ c u e f. i.effective_confirmed order_id c o u eo e f)
        h)

-- On sound orders, a returned effective switch stores the returned order, which is not cancelled,
-- has the named version as effective and no candidate, and that version is stored, belongs to the
-- order and has a confirmed kitchen print.
pub make_order_version_effective_lem :
    (order_id order_version_id : Identifier) (now : DateTime) (w w' : World) (o : Order)
    → IsSound w.orders
    → make_order_version_effective order_id order_version_id now w ≡ (ok o, w')
    → (get_order w'.orders order_id ≡ some o)
      × (o.effective_order_version_id ≡ some order_version_id)
      × (o.candidate_order_version_id ≡ none)
      × (o.cancelled_at ≡ none)
      × (v : OrderVersion) × (get_order_version w'.orders order_version_id ≡ some v)
      × (v.order_id ≡ order_id)
      × (is_some v.kitchen_print_confirmed_at ≡ true)
unfolding make_order_version_effective get_order_version
make_order_version_effective_lem order_id order_version_id now w w' o i h =
    elim (Option-cases (get_order w.orders order_id)) [
      | inl missing ↦ ground arith
      | inr (p, ep) ↦ elim (Option-cases (get_order_version w.orders order_version_id)) [
        | inl missing ↦ ground arith
        | inr (v, ev) ↦
            elim (Result-cases (update_order (selected order_version_id now p) w.orders)) [
              | inl (s', es) ↦
                  let r = update_order-ok _ w.orders s' es in
                  let key : p.order_id ≡ order_id = i.consistent.order_key order_id p ep in
                  (
                    ground (
                      arith,
                      r.3,
                      lookup-insert p.order_id order_id (selected order_version_id now p)
                          w.orders.orders,
                    ),
                    ground arith,
                    ground arith,
                    ground arith,
                    v,
                    ground (arith, r.3),
                    ground arith,
                    ground (arith, i.effective_confirmed order_id order_version_id p v),
                  )
              | inr (e, ee) ↦ (
                ground arith,
                ground (arith, opt_eq→eq p.effective_order_version_id (some order_version_id)),
                ground arith,
                ground arith,
                v,
                ground arith,
                ground arith,
                ground (arith, i.effective_confirmed order_id order_version_id p v),
              )
            ]
      ]
    ]

-- A cancelled order refuses the commands.
pub cancelled_refuses :
    (order_id order_version_id : Identifier) (now cancelled_at : DateTime) (w : World) (o : Order)
    (reason actor : Text) (note : Option Text) (command current previous fresh : Identifier)
    (latest : Option Identifier)
    → get_order w.orders order_id ≡ some o
    → o.cancelled_at ≡ some cancelled_at
    → (confirm_kitchen_print order_id order_version_id now w
        ≡ (err (value_error order_cancelled), w))
      × (make_order_version_effective order_id order_version_id now w
          ≡ (err (value_error order_cancelled), w))
      × (pause_order order_id reason note actor command latest fresh now w
          ≡ (err (value_error order_cancelled), w))
      × (resume_order order_id reason note actor command current previous fresh now w
          ≡ (err (value_error order_cancelled), w))
unfolding confirm_kitchen_print make_order_version_effective pause_order resume_order
cancelled_refuses order_id order_version_id now cancelled_at w o reason actor memo command current
      previous fresh latest e c =
    (ground arith, ground arith, ground arith, ground arith)

-- On sound orders, cancelling a cancelled order again returns the same order and changes nothing.
pub cancel_order_again :
    (order_id : Identifier) (now now' later later' : DateTime) (w w' : World) (o : Order)
    → IsSound w.orders
    → cancel_order order_id now now' w ≡ (ok o, w')
    → cancel_order order_id later later' w' ≡ (ok o, w')
unfolding cancel_order
cancel_order_again order_id now now' later later' w w' o i h =
    elim (Option-cases (get_order w.orders order_id)) [
      | inl missing ↦ ground arith
      | inr (p, ep) ↦
          elim (Result-cases
            (update_order (record p { cancelled_at = some now; updated_at = now' }) w.orders)) [
              | inl (s', es) ↦
                  let r = update_order-ok _ w.orders s' es in
                  let key : p.order_id ≡ order_id = i.consistent.order_key order_id p ep in
                  ground (
                    arith,
                    r.3,
                    lookup-insert p.order_id order_id
                        (record p { cancelled_at = some now; updated_at = now' }) w.orders.orders,
                  )
              | inr (e, ee) ↦ ground arith
            ]
    ]
