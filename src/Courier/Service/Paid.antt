-- ===== src/Courier/Service/Paid.antt =====
-- A final receipt is booked as a payment.
use silberloeffel_catering.Common.{
  ◌≡◌, sym, ap, subst, ◌∙◌, true, false, none, some, arith, inl, inr, Option-cases,
}
use silberloeffel_catering.Common.Results.{ok, Result-cases}
use silberloeffel_catering.Orders.Repository.{OrderStore}
use silberloeffel_catering.Payments.Model.{is_cash, OrderPaymentReminder}
use silberloeffel_catering.Payments.Repository.{PaymentStore, get_reminder}
use silberloeffel_catering.Payments.Save.{save_payment}
use silberloeffel_catering.Payments.Save.Stored.{IsKept}
use silberloeffel_catering.Payments.Recorded.{save_payment-Stored}
use silberloeffel_catering.Courier.Model.{final_paid, CourierCashCommand, CourierCashResult}
use silberloeffel_catering.Courier.Journal.{get_by_idempotency_key}
use silberloeffel_catering.Courier.Service.{
  Outside, Readings, CashStores, payable, on_payments, translated, actor_reference,
  record_final_payment, settle, process,
}
use silberloeffel_catering.Courier.Service.Replay.{Recorded, process_new-Recorded}

module _ (outside : Outside) (orders : OrderStore) (command : CourierCashCommand) (t : Readings)
    (s : CashStores) (kept : IsKept s.payments) where
  -- The reminder of an order that was paid in cash on a day.
  abbrev PaidIn : PaymentStore → Type 0
  PaidIn payments =
      (b : OrderPaymentReminder) × (get_reminder payments command.order_id ≡ some b)
      × (is_cash b.payment_method ≡ true)
      × (b.cash_received ≡ true)
      × (b.paid_on ≡ some (outside.local_date t.now))

  payable-cash :
      (p : OrderPaymentReminder)
      → payable outside orders command (get_reminder s.payments command.order_id) ≡ ok p
      → (get_reminder s.payments command.order_id ≡ some p)
        × (is_cash p.payment_method ≡ true)
        × (p.cash_received ≡ false)
        × (p.paid_on ≡ none)
  unfolding payable
  payable-cash p h = elim (Option-cases (get_reminder s.payments command.order_id)) [
    | inl missing ↦ ground (arith, missing)
    | inr (q, found) ↦
        (ground (arith, found), ground (arith, found), ground (arith, found), ground (arith, found))
  ]

  paid_by_save :
      (p : OrderPaymentReminder) (settled : CashStores)
      → get_reminder s.payments command.order_id ≡ some p
      → is_cash p.payment_method ≡ true
      → on_payments outside orders command
          (translated outside orders command)
          (save_payment outside.local_date orders
            (record p { paid_on = some (outside.local_date t.now); cash_received = true })
            (actor_reference command)
            false
            false
            t.payment_now
            t.days)
          s
        ≡ (ok tt, settled)
      → PaidIn settled.payments
  unfolding get_reminder
  paid_by_save p settled found cash h =
      let paid = record p { paid_on = some (outside.local_date t.now); cash_received = true } in
      let saved =
        save_payment outside.local_date orders paid (actor_reference command) false false
          t.payment_now t.days s.payments in
      elim (Result-cases (saved.0)) [
        | inr (e, g) ↦ ground (arith, g)
        | inl (view, g) ↦
            let (b, stored, f) =
              save_payment-Stored outside.local_date orders paid (actor_reference command) false
                false t.payment_now t.days s.payments saved.1 view (ap (λ x. (x, saved.1)) g) in
            let own = kept.own_order command.order_id p found in
            let same : saved.1 ≡ settled.payments = ground (arith, g) in
            (b, ground (arith, stored, own, same), ground (arith, f.method, cash), f.cash, f.paid)
      ]

  record_final_payment-PaidIn :
      (settled : CashStores)
      → record_final_payment outside orders command t s ≡ (ok tt, settled)
      → PaidIn settled.payments
  unfolding record_final_payment
  record_final_payment-PaidIn settled h =
      elim (Result-cases
        (payable outside orders command (get_reminder s.payments command.order_id))) [
          | inr (e, g) ↦ ground (arith, g)
          | inl (p, g) ↦
              let (found, cash, _, _) = payable-cash p g in
              paid_by_save p settled found cash (ground (arith, g))
        ]

  settle-PaidIn :
      (settled : CashStores)
      → settle outside orders command t final_paid s ≡ (ok tt, settled)
      → PaidIn settled.payments
  unfolding settle
  settle-PaidIn settled h = record_final_payment-PaidIn settled h

  process-new :
      (u : CashStores) (r : CourierCashResult)
      → get_by_idempotency_key command.idempotency_key s.journal ≡ none
      → process outside orders command t s ≡ (ok r, u)
      → Recorded outside orders command t s u r
  unfolding process
  process-new u r new h = process_new-Recorded outside orders command t s u r (ground (arith, new))

  -- On kept reminders, a returned cash command with a new key whose result is the final state
  -- leaves the reminder of the order stored as a cash payment that is received on the day of the
  -- command.
  pub process-PaidIn :
      (u : CashStores) (r : CourierCashResult)
      → get_by_idempotency_key command.idempotency_key s.journal ≡ none
      → process outside orders command t s ≡ (ok r, u)
      → r.cash_state ≡ final_paid
      → (b : OrderPaymentReminder) × (get_reminder u.payments command.order_id ≡ some b)
        × (is_cash b.payment_method ≡ true)
        × (b.cash_received ≡ true)
        × (b.paid_on ≡ some (outside.local_date t.now))
  process-PaidIn u r new h paid =
      let c = process-new u r new h in
      let final : c.to_state ≡ final_paid = ap (λ x. x.cash_state) (sym c.result) ∙ paid in
      subst PaidIn (sym c.payments) (
        settle-PaidIn c.settled
          (subst (λ x. settle outside orders command t x s ≡ (ok tt, c.settled)) final c.settles))
