-- ===== src/Payments/Facts.antt =====
-- What the validation of src/catering_system/domain/order_payment_reminder.py promises of a reminder.
use silberloeffel_catering.Common.{◌≡◌, true, false, arith, is_some, inl, inr, Bool-cases}
use silberloeffel_catering.Common.Results.{ok}
use silberloeffel_catering.Payments.Model.{
  is_cash, is_rechnung, OrderPaymentReminder, validate_cash, validate_invoice, validate_recorded,
  validate_payment_reminder,
}

-- The facts of a reminder hang together: what is recorded about an invoice, a payment or a warning
-- has happened, and in the order of the dunning procedure.
pub record Facts (r : OrderPaymentReminder) : Type 0 where
  pub creation_recorded : is_some r.invoice_created_at ≡ true → r.invoice_created ≡ true
  pub sending_recorded : is_some r.invoice_sent_recorded_at ≡ true → is_some r.sent_on ≡ true
  pub payment_recorded : is_some r.paid_recorded_at ≡ true → is_some r.paid_on ≡ true
  pub print_recorded : is_some r.quittung_printed_at ≡ true → r.quittung_printed ≡ true
  pub reminder_after_invoice : is_some r.payment_reminder_sent_at ≡ true → is_some r.sent_on ≡ true
  pub mahnung_after_reminder :
      is_some r.mahnung_sent_at ≡ true → is_some r.payment_reminder_sent_at ≡ true
  pub mahnung_by_invoice : is_some r.mahnung_sent_at ≡ true → is_rechnung r.payment_method ≡ true
  pub sent_after_creation : is_some r.sent_on ≡ true → r.invoice_created ≡ true
  pub created_with_number : r.invoice_created ≡ true → is_some r.invoice_number ≡ true
  pub cash_without_invoice : is_cash r.payment_method ≡ true → r.invoice_created ≡ false
  pub cash_when_paid : is_cash r.payment_method ≡ true → r.cash_received ≡ is_some r.paid_on
  pub invoice_without_cash : is_cash r.payment_method ≡ false → r.cash_received ≡ false
  pub invoice_without_quittung : is_cash r.payment_method ≡ false → r.quittung_printed ≡ false

validate-ok :
    (r : OrderPaymentReminder) → validate_payment_reminder r ≡ ok tt → validate_recorded r ≡ ok tt
unfolding validate_payment_reminder
validate-ok r h = ground arith

-- The guards on the recorded facts, read as implications.
record Recorded (r : OrderPaymentReminder) : Type 0 where
  creation : is_some r.invoice_created_at ≡ true → r.invoice_created ≡ true
  sending : is_some r.invoice_sent_recorded_at ≡ true → is_some r.sent_on ≡ true
  payment : is_some r.paid_recorded_at ≡ true → is_some r.paid_on ≡ true
  cash : is_cash r.payment_method ≡ true → validate_cash r ≡ ok tt
  invoice : is_cash r.payment_method ≡ false → validate_invoice r ≡ ok tt

validate-Recorded : (r : OrderPaymentReminder) → validate_recorded r ≡ ok tt → Recorded r
unfolding validate_recorded
validate-Recorded r h = record {
  creation = λ e. ground arith;
  sending = λ e. ground arith;
  payment = λ e. ground arith;
  cash = λ e. ground arith;
  invoice = λ e. ground arith;
}

cash-Facts :
    (r : OrderPaymentReminder)
    → is_cash r.payment_method ≡ true
    → validate_payment_reminder r ≡ ok tt
    → Facts r
unfolding validate_cash
cash-Facts r c h =
    let g = validate-Recorded r (validate-ok r h) in
    let valid = g.cash c in
    record {
      creation_recorded = g.creation;
      sending_recorded = g.sending;
      payment_recorded = g.payment;
      print_recorded = λ e. ground arith;
      reminder_after_invoice = λ e. ground arith;
      mahnung_after_reminder = λ e. ground arith;
      mahnung_by_invoice = λ e. ground arith;
      sent_after_creation = λ e. ground arith;
      created_with_number = λ e. ground arith;
      cash_without_invoice = λ e. ground arith;
      cash_when_paid = λ e. ground arith;
      invoice_without_cash = λ e. ground arith;
      invoice_without_quittung = λ e. ground arith;
    }

invoice-Facts :
    (r : OrderPaymentReminder)
    → is_cash r.payment_method ≡ false
    → validate_payment_reminder r ≡ ok tt
    → Facts r
unfolding validate_invoice
invoice-Facts r c h =
    let g = validate-Recorded r (validate-ok r h) in
    let valid = g.invoice c in
    record {
      creation_recorded = g.creation;
      sending_recorded = g.sending;
      payment_recorded = g.payment;
      print_recorded = λ e. ground arith;
      reminder_after_invoice = λ e. ground arith;
      mahnung_after_reminder = λ e. ground arith;
      mahnung_by_invoice = λ e. ground arith;
      sent_after_creation = λ e. ground arith;
      created_with_number = λ e. ground arith;
      cash_without_invoice = λ e. ground arith;
      cash_when_paid = λ e. ground arith;
      invoice_without_cash = λ e. ground arith;
      invoice_without_quittung = λ e. ground arith;
    }

-- A reminder that passes the validation has facts that hang together.
pub validate_payment_reminder-Facts :
    (r : OrderPaymentReminder) → validate_payment_reminder r ≡ ok tt → Facts r
validate_payment_reminder-Facts r h = elim (Bool-cases (is_cash r.payment_method)) [
  | inl c ↦ cash-Facts r c h
  | inr c ↦ invoice-Facts r c h
]
