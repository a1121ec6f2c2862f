-- ===== src/Payments/View.antt =====
-- src/catering_system/services/payment_reminder_service.py: the view of an order's payment.
use silberloeffel_catering.Common.{
  ℕ, Bool, false, not, ◌&&◌, ◌||◌, Option, none, some, List, [], ◌∷◌, leb, ltb, is_some, or_else,
  ◌==◌, if◌then◌else◌,
}
use silberloeffel_catering.Common.Lists.{find, max_by}
use silberloeffel_catering.Common.Results.{
  Result, ok, err, value_error, key_error, or_raise, ◌>>=◌, no_event_date, no_fulfilment_date,
}
use silberloeffel_catering.Orders.Model.{Identifier, DateTime, Date, OrderVersion}
use silberloeffel_catering.Orders.Repository.{OrderStore, get_order, list_order_versions}
use silberloeffel_catering.Payments.Dates.{next_working_day}
use silberloeffel_catering.Payments.Model.{is_cash, is_rechnung, OrderPaymentReminder}
use silberloeffel_catering.Payments.Derive.{
  PaymentReminderView, paid_and_cancelled, lapsed_and_cancelled, create_invoice, check_refund,
  check_after_change, renew_quittung, correct_invoice, derive_payment_reminder,
}
use silberloeffel_catering.Payments.Repository.{
  PaymentStore, get_reminder, list_method_changes, list_payment_corrections,
}

abbrev version_number : OrderVersion → ℕ
version_number v = v.version_number

-- `next((item for item in versions if item.order_version_id == preferred), None)`
abbrev version_in : List OrderVersion → Option Identifier → Option OrderVersion
version_in versions none = none
version_in versions (some preferred) =
    find (λ (v : OrderVersion). v.order_version_id == preferred) versions

-- `_event_date`
unfoldable pub event_date_of : Identifier → OrderStore → Result Date
unfolding get_order list_order_versions
event_date_of order_id s = or_raise (get_order s order_id) (key_error order_id) >>= λ order.
    let versions = list_order_versions s order_id in
    elim (or_else (version_in versions order.candidate_order_version_id)
      (max_by version_number versions)) [
        | none ↦ err (value_error no_event_date)
        | some version ↦ ok version.event_date
      ]

-- `version.delivery_date_local or version.event_date`
abbrev delivery_or_event : OrderVersion → Date
delivery_or_event version = elim version.delivery_date_local [
  | none ↦ version.event_date
  | some d ↦ d
]

-- `_fulfilment_date`
unfoldable pub fulfilment_date : Identifier → OrderStore → Result Date
unfolding get_order list_order_versions
fulfilment_date order_id s = or_raise (get_order s order_id) (key_error order_id) >>= λ order.
    let versions = list_order_versions s order_id in
    elim (or_else (version_in versions order.effective_order_version_id) (
      or_else (version_in versions order.candidate_order_version_id)
        (max_by version_number versions))) [
          | none ↦ err (value_error no_fulfilment_date)
          | some version ↦ ok (delivery_or_event version)
        ]

-- `max(version.created_at for version in versions if it has a parent)`
abbrev later_of : Option DateTime → DateTime → DateTime
later_of none t = t
later_of (some u) t = if ltb u t then t else u

unfoldable pub latest_revision : List OrderVersion → Option DateTime
latest_revision [] = none
latest_revision (v ∷ vs) =
    let rest = latest_revision vs in
    if is_some v.parent_order_version_id then some (later_of rest v.created_at) else rest

abbrev is_paid : Option OrderPaymentReminder → Bool
is_paid none = false
is_paid (some r) = is_some r.paid_on || r.cash_received

-- `revised_at > recorded_at`, if it was recorded
abbrev pub revised_after : DateTime → Option DateTime → Bool
revised_after revised none = false
revised_after revised (some recorded) = ltb recorded revised

-- the last part of `view`, for an order with a revised version
unfoldable pub view_revised :
    (DateTime → Date) → OrderPaymentReminder → DateTime → PaymentReminderView → PaymentReminderView
view_revised local_date r revised view =
    if revised_after revised r.paid_recorded_at
    then record view {
      next_step = some check_after_change;
      next_step_due_on = some (local_date revised);
    }
    else if is_cash r.payment_method
    then if revised_after revised r.quittung_printed_at
      then record view {
        next_step = some renew_quittung;
        next_step_due_on = some (local_date revised);
      }
      else view
    else if revised_after revised (or_else r.invoice_created_at r.invoice_sent_recorded_at)
    then record view {
      next_step = some correct_invoice;
      next_step_due_on = some (local_date revised);
    }
    else view

-- the view of an invoice that is not created yet
unfoldable pub view_uninvoiced :
    Identifier → Date → OrderStore → PaymentReminderView → Result PaymentReminderView
unfolding fulfilment_date next_working_day
view_uninvoiced order_id today s view = fulfilment_date order_id s >>= λ fulfilled.
    if leb today fulfilled
    then ok (record view { next_step = none; next_step_due_on = none })
    else next_working_day fulfilled >>= λ due.
        ok (record view { next_step = some create_invoice; next_step_due_on = some due })

-- what follows the derived view, for an order that is not cancelled
unfoldable pub view_active :
    (DateTime → Date)
    → Identifier
    → Option OrderPaymentReminder
    → Date
    → OrderStore
    → PaymentReminderView
    → Result PaymentReminderView
unfolding view_uninvoiced list_order_versions view_revised latest_revision
view_active local_date order_id none today s view = ok view
view_active local_date order_id (some r) today s view =
    if is_rechnung r.payment_method && not r.invoice_created
    then view_uninvoiced order_id today s view
    else elim (latest_revision (list_order_versions s order_id)) [
      | none ↦ ok view
      | some revised ↦ ok (view_revised local_date r revised view)
    ]

-- what follows it for a cancelled order
abbrev view_cancelled :
    (DateTime → Date)
    → DateTime
    → Option OrderPaymentReminder
    → PaymentReminderView
    → PaymentReminderView
view_cancelled local_date cancelled_at reminder view =
    if is_paid reminder
    then record view {
      payment_state_label = paid_and_cancelled;
      next_step = some check_refund;
      next_step_due_on = some (local_date cancelled_at);
    }
    else record view {
      payment_state_label = lapsed_and_cancelled;
      next_step = none;
      next_step_due_on = none;
    }

-- `view`, with the two readings of the day
unfoldable pub view_payment :
    (DateTime → Date)
    → Identifier
    → Date
    → Date
    → OrderStore
    → PaymentStore
    → Result PaymentReminderView
unfolding get_order get_reminder event_date_of derive_payment_reminder view_active
    list_method_changes list_payment_corrections
view_payment local_date order_id today later_today orders s =
    or_raise (get_order orders order_id) (key_error order_id) >>= λ order.
    event_date_of order_id orders >>= λ event_date.
    derive_payment_reminder local_date (get_reminder s order_id) event_date today >>= λ derived.
    let view = record derived {
      order_id = order_id;
      method_changes = list_method_changes s order_id;
      payment_corrections = list_payment_corrections s order_id;
    } in
    elim order.cancelled_at [
      | some cancelled ↦ ok (view_cancelled local_date cancelled (get_reminder s order_id) view)
      | none ↦ view_active local_date order_id (get_reminder s order_id) later_today orders view
    ]
