-- ===== src/Tests/Corrections.antt =====
-- The theorems on the view of a payment and on its correction, applied to the invoice of
-- Tests/Payments.antt.
use native.Mathlib.Decide.{ℕ_discrete}
use silberloeffel_catering.Common.{◌≡◌, refl, true, false, none, false, some, [], ◌∷◌}
use silberloeffel_catering.Common.Dict.{lookup, insert, values}
use silberloeffel_catering.Common.Sort.{sorted}
use silberloeffel_catering.Common.Text.{codes, strip, text_eq}
use silberloeffel_catering.Common.Results.{ok}
use silberloeffel_catering.Orders.Repository.{get_order, list_order_versions}
use silberloeffel_catering.Payments.Dates.{plus_days}
use silberloeffel_catering.Payments.Model.{
  OrderPaymentReminder, blank_or_long, validate_audit_pair, validate_audits, validate_invoice,
  validate_recorded, validate_payment_reminder, same_reminder,
}
use silberloeffel_catering.Payments.Facts.{validate_payment_reminder-Facts}
use silberloeffel_catering.Payments.Derive.{
  PaymentReminderView, created as created_invoice, paid, overdue_since, send_reminder, send_mahnung,
  view_of, canonical_due, due_state, rechnung_step, derive_due, derive_invoice,
  derive_payment_reminder,
}
use silberloeffel_catering.Payments.Repository.{
  PaymentStore, empty_payments, get_reminder, save_reminder, list_method_changes, all_rows,
  list_payment_corrections, save_payment_correction,
}
use silberloeffel_catering.Payments.View.{view_payment, event_date_of, view_active, latest_revision}
use silberloeffel_catering.Payments.Save.{
  actor_of, reject_silent_fact_rewrite, rewrites_text, incoming_facts, stamped,
  mark_payment_reminder, mark_mahnung, marked, prepared, open_order, written, save_payment,
}
use silberloeffel_catering.Payments.Save.Stored.{IsKept}
use silberloeffel_catering.Payments.Laws.{save_reminder-IsKept}
use silberloeffel_catering.Payments.Recorded.{SameFacts, save_payment-Stored}
use silberloeffel_catering.Payments.Advice.{shown_step-allowed}
use silberloeffel_catering.Payments.Commands.{
  CorrectionRequest, clean_text, correction_request, recorded_correction, corrected_reminder,
  with_payment_open, new_correction, correct_new, correct_payment_completion,
}
use silberloeffel_catering.Payments.Commands.Kept.{execute_all, execute_all-IsKept}
use silberloeffel_catering.Payments.Commands.Correction.{
  IsFresh, Corrected, correct_payment_completion_lem,
}
use silberloeffel_catering.Tests.Payments.{utc_date, orders, reminded, on_day}

abbrev shown : PaymentReminderView
shown =
    view_of reminded (some 738024) (some created_invoice) (overdue_since 14) (some send_mahnung)
      (some 738037)

derived : derive_payment_reminder utc_date (some reminded) 738000 738038 ≡ ok shown
unfolding derive_payment_reminder validate_payment_reminder validate_audits validate_audit_pair
    blank_or_long strip validate_recorded validate_invoice derive_invoice canonical_due derive_due
    due_state rechnung_step plus_days view_of
derived = refl

shown_step-allowed_example :
    (shown.next_step ≡ some send_reminder
      → mark_payment_reminder true 1630800000000000 (codes "office") 738000 738038 reminded
        ≡ ok (record reminded {
          payment_reminder_sent_at = some 1630800000000000;
          payment_reminder_sent_by = some (codes "office");
        }))
    × (shown.next_step ≡ some send_mahnung
        → mark_mahnung utc_date true 1630800000000000 (codes "office") 738038 reminded
          ≡ ok (record reminded {
            mahnung_sent_at = some 1630800000000000;
            mahnung_sent_by = some (codes "office");
          }))
shown_step-allowed_example =
    shown_step-allowed utc_date reminded 738000 738038 shown 1630800000000000 (codes "office")
      derived

-- The same invoice, paid.
abbrev paid_reminder : OrderPaymentReminder
paid_reminder = record reminded {
  paid_on = some 738035;
  paid_recorded_at = some 1630600000000000;
  paid_recorded_by = some (codes "office");
}

paid-ok : validate_payment_reminder paid_reminder ≡ ok tt
unfolding validate_payment_reminder validate_audits validate_audit_pair blank_or_long strip
    validate_recorded validate_invoice
paid-ok = refl

abbrev paid_store : PaymentStore
paid_store = save_reminder paid_reminder empty_payments

paid-IsKept : IsKept paid_store
unfolding execute_all
paid-IsKept =
    save_reminder-IsKept paid_reminder empty_payments
      (validate_payment_reminder-Facts paid_reminder paid-ok) (execute_all-IsKept utc_date [])

abbrev request : CorrectionRequest
request = record { clean_id = codes "c-1"; clean_reason = codes "typo"; actor = codes "office" }

requested : correction_request (codes " c-1") (codes "typo ") (codes "office") ≡ ok request
unfolding correction_request clean_text actor_of strip
requested = refl

abbrev corrected : PaymentStore
corrected = record {
  rows = (1, with_payment_open 1630900000000000 paid_reminder) ∷ [];
  method_changes = [];
  payment_corrections = (1, new_correction request 1 1630900000000000 paid_reminder ∷ []) ∷ [];
}

abbrev corrected_view : PaymentReminderView
corrected_view =
    record (view_of (with_payment_open 1630900000000000 paid_reminder) (some 738024)
      (some created_invoice) (overdue_since 15) (some send_mahnung) (some 738037)) {
        payment_corrections = new_correction request 1 1630900000000000 paid_reminder ∷ [];
      }

corrects :
    correct_payment_completion utc_date orders 1630900000000000
      (on_day 738039)
      1
      (codes " c-1")
      (codes "typo ")
      (codes "office")
      paid_store
    ≡ (ok corrected_view, corrected)
unfolding correct_payment_completion get_order correction_request clean_text actor_of strip
    recorded_correction list_payment_corrections text_eq correct_new corrected_reminder get_reminder
    validate_payment_reminder validate_audits validate_audit_pair blank_or_long validate_recorded
    validate_invoice save_payment_correction all_rows values lookup insert view_payment
    event_date_of list_order_versions sorted derive_payment_reminder derive_invoice canonical_due
    derive_due due_state rechnung_step plus_days view_of view_active latest_revision
corrects = refl

none-IsFresh : IsFresh request paid_store
unfolding all_rows values
none-IsFresh = refl

correct_payment_completion_lem_example :
    Corrected request 1 1630900000000000 paid_store corrected
    × (correct_payment_completion utc_date orders 1631000000000000
          (on_day 738040)
          1
          (codes " c-1")
          (codes "typo ")
          (codes "office")
          corrected
        ≡ (view_payment utc_date 1 738040 738040 orders corrected, corrected))
correct_payment_completion_lem_example =
    correct_payment_completion_lem utc_date orders 1630900000000000 (on_day 738039) 1 (codes " c-1")
      (codes "typo ") (codes "office") request paid_store corrected corrected_view 1631000000000000
      (on_day 738040) paid-IsKept requested none-IsFresh corrects

-- The invoice when its payment is saved.
abbrev saved_reminder : OrderPaymentReminder
saved_reminder = record reminded {
  paid_on = some 738035;
  updated_at = some 1630600000000000;
  paid_recorded_at = some 1630600000000000;
  paid_recorded_by = some (codes "office");
}

abbrev unpaid_store : PaymentStore
unpaid_store = save_reminder reminded empty_payments

abbrev saved : PaymentStore
saved = save_reminder saved_reminder empty_payments

saves :
    save_payment utc_date orders
      (record reminded { paid_on = some 738035 })
      (codes "office")
      false
      false
      1630600000000000
      (on_day 738038)
      unpaid_store
    ≡ (ok (view_of saved_reminder (some 738024) (some created_invoice) paid none none), saved)
unfolding save_payment open_order get_order get_reminder prepared incoming_facts
    reject_silent_fact_rewrite rewrites_text text_eq actor_of strip stamped event_date_of
    list_order_versions sorted marked mark_payment_reminder mark_mahnung plus_days
    validate_payment_reminder validate_audits validate_audit_pair blank_or_long validate_recorded
    validate_invoice written same_reminder ℕ_discrete lookup insert values view_payment
    list_method_changes list_payment_corrections derive_payment_reminder derive_invoice
    canonical_due view_of view_active latest_revision
saves = refl

save_payment-Stored_example :
    (b : OrderPaymentReminder) × (get_reminder saved 1 ≡ some b)
    × SameFacts (record reminded { paid_on = some 738035 }) b
save_payment-Stored_example =
    save_payment-Stored utc_date orders (record reminded { paid_on = some 738035 }) (codes "office")
      false false 1630600000000000 (on_day 738038) unpaid_store saved
      (view_of saved_reminder (some 738024) (some created_invoice) paid none none) saves
