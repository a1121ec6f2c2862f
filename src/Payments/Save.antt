-- ===== src/Payments/Save.antt =====
-- src/catering_system/services/payment_reminder_service.py: saving a reminder. The clock and the
-- readings of the day are arguments, and every time is an instant, so that it has an offset.
pub mod Evidence
pub mod Stored
use silberloeffel_catering.Common.{
  ℕ, Bool, true, false, not, ◌&&◌, ◌||◌, Option, none, some, ltb, opt_eq, is_some, is_none, ◌==◌,
  if◌then◌else◌,
}
use silberloeffel_catering.Common.Lists.{length}
use silberloeffel_catering.Common.Text.{Text, text_eq, strip}
use silberloeffel_catering.Common.Results
use silberloeffel_catering.Common.Results.{
  Result, ok, err, value_error, key_error, assertion_error, raise_if, or_raise, actor_invalid,
  invoice_cleared, number_changed, sent_changed, payment_changed, cash_cleared, quittung_cleared,
  cancelled_reminder, method_change_explicit, reminder_refused, reminder_not_due, mahnung_refused,
  mahnung_not_due,
}
use silberloeffel_catering.Common.Exec.{Exec, lift, gets, ◌>>=◌, ◌>>◌}
use silberloeffel_catering.Orders.Model.{Identifier, DateTime, Date, Order}
use silberloeffel_catering.Orders.Repository.{OrderStore, get_order}
use silberloeffel_catering.Payments.Dates.{plus_days, minus_days}
use silberloeffel_catering.Payments.Model.{
  is_cash, is_rechnung, is_vorkasse, same_method, OrderPaymentReminder, validate_payment_reminder,
  same_reminder,
}
use silberloeffel_catering.Payments.Derive.{PaymentReminderView}
use silberloeffel_catering.Payments.Repository.{PaymentStore, get_reminder, save_reminder}
use silberloeffel_catering.Payments.View.{event_date_of, view_payment}

-- The readings of the day in one command: its own, and the two of the view that it returns.
pub record Days : Type 0 where
  pub today : Date
  pub view_today : Date
  pub view_later : Date

-- `_actor`
unfoldable pub actor_of : Text → Result Text
unfolding strip
actor_of value =
    Results.◌>>◌
      (raise_if (length (strip value) == 0 || ltb 200 (length (strip value))) actor_invalid)
      (ok (strip value))

-- `current is not None and incoming != current`
abbrev pub rewrites : Option ℕ → Option ℕ → Bool
rewrites none incoming = false
rewrites (some c) incoming = not (opt_eq incoming (some c))

unfoldable pub rewrites_text : Option Text → Option Text → Bool
unfolding text_eq
rewrites_text none incoming = false
rewrites_text (some c) none = true
rewrites_text (some c) (some i) = not (text_eq i c)

-- `_reject_silent_fact_rewrite`
unfoldable pub reject_silent_fact_rewrite :
    OrderPaymentReminder → OrderPaymentReminder → Result (Unit {0})
unfolding rewrites_text
reject_silent_fact_rewrite current incoming =
    Results.◌>>◌
      (raise_if (current.invoice_created && not incoming.invoice_created) invoice_cleared)
      (Results.◌>>◌
        (raise_if (rewrites_text current.invoice_number incoming.invoice_number) number_changed)
        (Results.◌>>◌ (raise_if (rewrites current.sent_on incoming.sent_on) sent_changed) (
          Results.◌>>◌ (raise_if (rewrites current.paid_on incoming.paid_on) payment_changed) (
            Results.◌>>◌
              (raise_if (current.cash_received && not incoming.cash_received) cash_cleared)
              (raise_if (current.quittung_printed && not incoming.quittung_printed)
                quittung_cleared)))))

-- the replacement that keeps a caller from forging a deadline or evidence
abbrev pub without_evidence : OrderPaymentReminder → OrderPaymentReminder
without_evidence r = record r {
  due_on = none;
  invoice_created_at = none;
  invoice_created_by = none;
  invoice_sent_recorded_at = none;
  invoice_sent_recorded_by = none;
  payment_reminder_sent_at = none;
  payment_reminder_sent_by = none;
  mahnung_sent_at = none;
  mahnung_sent_by = none;
  quittung_printed_at = none;
  quittung_printed_by = none;
  paid_recorded_at = none;
  paid_recorded_by = none;
}

-- the replacement by the stored evidence
abbrev pub with_evidence_of : OrderPaymentReminder → OrderPaymentReminder → OrderPaymentReminder
with_evidence_of current r = record r {
  invoice_created_at = current.invoice_created_at;
  invoice_created_by = current.invoice_created_by;
  invoice_sent_recorded_at = current.invoice_sent_recorded_at;
  invoice_sent_recorded_by = current.invoice_sent_recorded_by;
  payment_reminder_sent_at = current.payment_reminder_sent_at;
  payment_reminder_sent_by = current.payment_reminder_sent_by;
  mahnung_sent_at = current.mahnung_sent_at;
  mahnung_sent_by = current.mahnung_sent_by;
  quittung_printed_at = current.quittung_printed_at;
  quittung_printed_by = current.quittung_printed_by;
  paid_recorded_at = current.paid_recorded_at;
  paid_recorded_by = current.paid_recorded_by;
}

unfoldable pub incoming_facts :
    Option OrderPaymentReminder → OrderPaymentReminder → Result OrderPaymentReminder
unfolding reject_silent_fact_rewrite
incoming_facts none r = ok (without_evidence r)
incoming_facts (some current) r =
    Results.◌>>◌
      (raise_if (not (same_method current.payment_method r.payment_method)) method_change_explicit)
      (Results.◌>>◌ (reject_silent_fact_rewrite current (without_evidence r))
        (ok (with_evidence_of current (without_evidence r))))

-- `current.field if current is not None else False`, or `None`
abbrev pub was : (OrderPaymentReminder → Bool) → Option OrderPaymentReminder → Bool
was fact none = false
was fact (some current) = fact current

-- The stamps of the facts that the call records first.
module _ (current : Option OrderPaymentReminder) (now : DateTime) (actor : Text) where
  abbrev pub stamp_created : OrderPaymentReminder → OrderPaymentReminder
  stamp_created r =
      if r.invoice_created && not (was (λ c. c.invoice_created) current)
      then record r { invoice_created_at = some now; invoice_created_by = some actor }
      else r

  abbrev pub stamp_sent : OrderPaymentReminder → OrderPaymentReminder
  stamp_sent r =
      if is_some r.sent_on && not (was (λ c. is_some c.sent_on) current)
      then record r { invoice_sent_recorded_at = some now; invoice_sent_recorded_by = some actor }
      else r

  abbrev pub stamp_paid : OrderPaymentReminder → OrderPaymentReminder
  stamp_paid r =
      if is_some r.paid_on && not (was (λ c. is_some c.paid_on) current)
      then record r { paid_recorded_at = some now; paid_recorded_by = some actor }
      else r

  abbrev pub stamp_quittung : OrderPaymentReminder → OrderPaymentReminder
  stamp_quittung r =
      if r.quittung_printed && not (was (λ c. c.quittung_printed) current)
      then record r { quittung_printed_at = some now; quittung_printed_by = some actor }
      else r

  unfoldable pub stamped : OrderPaymentReminder → OrderPaymentReminder
  stamped r = stamp_quittung (stamp_paid (stamp_sent (stamp_created r)))

-- The guard has seen that the invoice was sent, so the second case of `sent_on` never raises.
unfoldable pub reminder_due : OrderPaymentReminder → Date → Result Date
unfolding plus_days minus_days
reminder_due r event_date =
    if is_vorkasse r.payment_method
    then minus_days event_date 6
    else elim r.sent_on [ none ↦ err assertion_error | some sent ↦ plus_days sent 15 ]

-- `if mark_payment_reminder_sent and ...`
unfoldable pub mark_payment_reminder :
    (mark : Bool) (now : DateTime) (actor : Text) (event_date today : Date)
    → OrderPaymentReminder
    → Result OrderPaymentReminder
unfolding reminder_due
mark_payment_reminder mark now actor event_date today r =
    if mark && is_none r.payment_reminder_sent_at
    then Results.◌>>◌
        (raise_if
          (is_cash r.payment_method
            || not r.invoice_created
            || is_none r.sent_on
            || is_some r.paid_on)
          reminder_refused)
        (Results.◌>>=◌ (reminder_due r event_date) λ due.
          Results.◌>>◌ (raise_if (ltb today due) reminder_not_due) (
            ok (record r {
              payment_reminder_sent_at = some now;
              payment_reminder_sent_by = some actor;
            })))
    else ok r

-- The guard has seen the payment reminder here too.
unfoldable pub mahnung_due : (DateTime → Date) → OrderPaymentReminder → Result Date
unfolding plus_days
mahnung_due local_date r = elim r.payment_reminder_sent_at [
  | none ↦ err assertion_error
  | some sent ↦ plus_days (local_date sent) 7
]

-- `if mark_mahnung_sent and ...`
unfoldable pub mark_mahnung :
    (local_date : DateTime → Date) (mark : Bool) (now : DateTime) (actor : Text) (today : Date)
    → OrderPaymentReminder
    → Result OrderPaymentReminder
unfolding mahnung_due
mark_mahnung local_date mark now actor today r =
    if mark && is_none r.mahnung_sent_at
    then Results.◌>>◌
        (raise_if
          (not (is_rechnung r.payment_method)
            || is_some r.paid_on
            || is_none r.payment_reminder_sent_at)
          mahnung_refused)
        (Results.◌>>=◌ (mahnung_due local_date r) λ due.
          Results.◌>>◌ (raise_if (ltb today due) mahnung_not_due)
            (ok (record r { mahnung_sent_at = some now; mahnung_sent_by = some actor })))
    else ok r

module _ (local_date : DateTime → Date) (orders : OrderStore) (r : OrderPaymentReminder)
    (actor_reference : Text) (mark_payment_reminder_sent mark_mahnung_sent : Bool) (now : DateTime)
    (days : Days) where
  -- the two marks, and the validation of the result
  unfoldable pub marked : Text → Date → OrderPaymentReminder → Result OrderPaymentReminder
  unfolding mark_payment_reminder mark_mahnung validate_payment_reminder
  marked actor event_date next =
      Results.◌>>=◌
        (mark_payment_reminder mark_payment_reminder_sent now actor event_date days.today next)
        λ reminded.
          Results.◌>>=◌ (mark_mahnung local_date mark_mahnung_sent now actor days.today reminded)
            λ warned. Results.◌>>◌ (validate_payment_reminder warned) (ok warned)

  -- the reminder that `save` compares with the stored one
  unfoldable pub prepared : Option OrderPaymentReminder → Result OrderPaymentReminder
  unfolding incoming_facts actor_of stamped event_date_of marked
  prepared current = Results.◌>>=◌ (incoming_facts current r) λ incoming.
      Results.◌>>=◌ (actor_of actor_reference) λ actor.
        Results.◌>>=◌ (event_date_of r.order_id orders)
          λ event_date. marked actor event_date (stamped current now actor incoming)

  -- the guards on the order
  unfoldable pub open_order : Result (Unit {0})
  unfolding get_order
  open_order =
      Results.◌>>=◌ (or_raise (get_order orders r.order_id) (key_error r.order_id))
        λ order. raise_if (is_some order.cancelled_at) cancelled_reminder

  -- the write, left out when nothing but the update time would change
  unfoldable pub written :
      Option OrderPaymentReminder → OrderPaymentReminder → PaymentStore → PaymentStore
  unfolding same_reminder
  written none next s = save_reminder (record next { updated_at = some now }) s
  written (some current) next s =
      if same_reminder (record next { updated_at = current.updated_at }) current
      then s
      else save_reminder (record next { updated_at = some now }) s

  unfoldable pub save_payment : Exec PaymentStore PaymentReminderView
  unfolding open_order prepared written get_reminder view_payment
  save_payment = do
    lift open_order
    current ← gets (λ s. get_reminder s r.order_id)
    next ← lift (prepared current)
    _ ← λ s. (ok tt, written current next s)
    λ s. (view_payment local_date r.order_id days.view_today days.view_later orders s, s)
