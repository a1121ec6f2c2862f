-- ===== src/Payments/Derive.antt =====
-- src/catering_system/domain/order_payment_reminder.py: the view of a reminder, with its state and
-- the next step of the office. The German labels are constructors here.
use silberloeffel_catering.Common.{
  ℕ, ◌-◌, not, ◌&&◌, ◌||◌, Option, none, some, List, [], leb, ltb, is_some, is_none, ◌==◌,
  if◌then◌else◌,
}
use silberloeffel_catering.Common.Text.{Text}
use silberloeffel_catering.Common.Results.{Result, ok, ◌>>=◌, ◌>>◌}
use silberloeffel_catering.Orders.Model.{Identifier, DateTime, Date}
use silberloeffel_catering.Payments.Dates.{plus_days, minus_days}
use silberloeffel_catering.Payments.Model.{
  PaymentMethod, is_cash, is_rechnung, is_vorkasse, OrderPaymentReminder,
  PaymentCompletionCorrection, validate_payment_reminder,
}

-- `payment_state_label`
pub data PaymentState : Type 0 where
  unpaid paid at_once due_today : PaymentState
  overdue_since due_in : (days : ℕ) → PaymentState
  paid_and_cancelled lapsed_and_cancelled : PaymentState

-- `next_step`
pub data NextStep : Type 0 where
  choose_method prepare_quittung clarify_cash await_cash : NextStep
  create_and_send_invoice create_invoice complete_invoice : NextStep
  urgent_decision send_reminder check_payment send_mahnung manual_decision : NextStep
  check_refund check_after_change renew_quittung correct_invoice : NextStep

pub data InvoiceState : Type 0 where
  created not_created : InvoiceState

pub record PaymentMethodChange : Type 0 where
  pub change_id : Identifier
  pub order_id : Identifier
  pub from_method : PaymentMethod
  pub to_method : PaymentMethod
  pub reason : Text
  pub actor_reference : Text
  pub changed_at : DateTime
  pub retired_task_title : Option NextStep
  pub previous_reminder : OrderPaymentReminder

-- The label of the method is determined by `payment_method`. The audit fields are those of the
-- reminder, which the view holds whole.
pub record PaymentReminderView : Type 0 where
  pub order_id : Identifier
  pub payment_method : Option PaymentMethod
  pub reminder : Option OrderPaymentReminder
  pub due_on : Option Date
  pub invoice_state_label : Option InvoiceState
  pub payment_state_label : PaymentState
  pub next_step : Option NextStep
  pub next_step_due_on : Option Date
  pub method_changes : List PaymentMethodChange
  pub payment_corrections : List PaymentCompletionCorrection

-- `_view`
unfoldable pub view_of :
    OrderPaymentReminder
    → Option Date
    → Option InvoiceState
    → PaymentState
    → Option NextStep
    → Option Date
    → PaymentReminderView
view_of r due_on invoice_state payment_state next_step next_due = record {
  order_id = r.order_id;
  payment_method = some r.payment_method;
  reminder = some r;
  due_on = due_on;
  invoice_state_label = invoice_state;
  payment_state_label = payment_state;
  next_step = next_step;
  next_step_due_on = next_due;
  method_changes = [];
  payment_corrections = [];
}

abbrev pub empty_view : PaymentReminderView
empty_view = record {
  order_id = 0;
  payment_method = none;
  reminder = none;
  due_on = none;
  invoice_state_label = none;
  payment_state_label = unpaid;
  next_step = some choose_method;
  next_step_due_on = none;
  method_changes = [];
  payment_corrections = [];
}

-- the branch of a cash payment
unfoldable pub derive_cash : OrderPaymentReminder → Date → Date → PaymentReminderView
unfolding view_of
derive_cash r event_date today =
    if not r.quittung_printed
    then view_of r none none unpaid (some prepare_quittung) none
    else if r.cash_received
    then view_of r none none paid none none
    else if ltb event_date today
    then view_of r none none unpaid (some clarify_cash) (some event_date)
    else view_of r none none unpaid (some await_cash) (some event_date)

-- `canonical_due`
unfoldable pub canonical_due : OrderPaymentReminder → Date → Result (Option Date)
canonical_due r event_date =
    if is_vorkasse r.payment_method
    then (minus_days event_date 7 >>= λ d. ok (some d))
    else elim r.sent_on [ none ↦ ok none | some sent ↦ plus_days sent 14 >>= λ d. ok (some d) ]

-- the state of a sent and unpaid invoice
unfoldable pub due_state : PaymentMethod → Date → Date → Date → PaymentState
due_state method due event_date today =
    if ltb due today
    then if is_vorkasse method && leb today event_date then at_once else overdue_since (today - due)
    else if due == today
    then due_today
    else if is_rechnung method && (due - today == 7 || due - today == 3)
    then due_in (due - today)
    else unpaid

-- the next step of a sent and unpaid prepayment
unfoldable pub vorkasse_step : OrderPaymentReminder → Date → Date → Date → Result (NextStep × Date)
vorkasse_step r due event_date today = minus_days event_date 6 >>= λ reminder_due.
    minus_days event_date 3 >>= λ urgent_due. ok (
      if leb urgent_due today
      then (urgent_decision, urgent_due)
      else if leb reminder_due today && is_none r.payment_reminder_sent_at
      then (send_reminder, reminder_due)
      else if leb reminder_due today
      then (check_payment, urgent_due)
      else (check_payment, due))

-- the next step of a sent and unpaid invoice; `local_date` is the day in Berlin
unfoldable pub rechnung_step :
    (DateTime → Date) → OrderPaymentReminder → Date → Date → Result (NextStep × Date)
rechnung_step local_date r due today = plus_days due 1 >>= λ reminder_due.
    elim r.payment_reminder_sent_at [
      | none ↦ ok (
        if leb reminder_due today then send_reminder else check_payment,
        if ltb due today then reminder_due else due,
      )
      | some reminded ↦ elim r.mahnung_sent_at [
        | none ↦ plus_days (local_date reminded) 7 >>= λ mahnung_due.
            ok (if leb mahnung_due today then send_mahnung else check_payment, mahnung_due)
        | some warned ↦ plus_days (local_date warned) 7 >>= λ manual_due.
            ok (if leb manual_due today then manual_decision else check_payment, manual_due)
      ]
    ]

-- the last part, for a sent and unpaid invoice
unfoldable pub derive_due :
    (DateTime → Date) → OrderPaymentReminder → Date → Date → Date → Result PaymentReminderView
unfolding due_state vorkasse_step rechnung_step view_of
derive_due local_date r due event_date today =
    (if is_vorkasse r.payment_method
      then vorkasse_step r due event_date today
      else rechnung_step local_date r due today)
    >>= λ step. ok (
        view_of r (some due) (some created) (due_state r.payment_method due event_date today)
          (some step.0) (some step.1))

-- the branch of a payment by invoice
unfoldable pub derive_invoice :
    (DateTime → Date) → OrderPaymentReminder → Date → Date → Result PaymentReminderView
unfolding canonical_due derive_due view_of
derive_invoice local_date r event_date today = canonical_due r event_date >>= λ due.
    if not r.invoice_created
    then ok (
        view_of r due (some not_created) unpaid
          (some (if is_vorkasse r.payment_method then create_and_send_invoice else create_invoice))
          none)
    else if is_some r.paid_on
    then ok (view_of r due (some created) paid none none)
    else if is_none r.sent_on
    then ok (view_of r due (some created) unpaid (some complete_invoice) none)
    else elim due [
      | none ↦ ok (view_of r none (some created) unpaid (some complete_invoice) none)
      | some d ↦ derive_due local_date r d event_date today
    ]

unfoldable pub derive_payment_reminder :
    (DateTime → Date) → Option OrderPaymentReminder → Date → Date → Result PaymentReminderView
unfolding validate_payment_reminder derive_cash derive_invoice
derive_payment_reminder local_date none event_date today = ok empty_view
derive_payment_reminder local_date (some r) event_date today =
    validate_payment_reminder r
    >> (if is_cash r.payment_method
        then ok (derive_cash r event_date today)
        else derive_invoice local_date r event_date today)
