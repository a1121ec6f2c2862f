-- ===== src/Tests/Payments.antt =====
-- The theorems on payment reminders, applied to an invoice of the order of Tests/Life.antt.
use native.Mathlib.Decide.{ℕ_discrete}
use silberloeffel_catering.Common.{
  ◌≡◌, refl, ◌⊎◌, ◌+◌, ◌/◌, ◌<◌, ◌≤◌, true, false, some, List, [], ◌∷◌, is_some, arith,
}
use silberloeffel_catering.Common.Dict.{lookup, insert, values}
use silberloeffel_catering.Common.Sort.{sorted}
use silberloeffel_catering.Common.Text.{codes, strip, text_eq}
use silberloeffel_catering.Common.Results.{ok}
use silberloeffel_catering.Orders.Model.{DateTime, Date}
use silberloeffel_catering.Orders.Repository.{OrderStore, get_order, list_order_versions}
use silberloeffel_catering.Payments.Dates.{
  plus_days, weekday, next_working_day, next_working_day_lem,
}
use silberloeffel_catering.Payments.Model.{
  rechnung, OrderPaymentReminder, fresh_reminder, blank_or_long, validate_audit_pair,
  validate_audits, validate_invoice, validate_recorded, validate_payment_reminder, same_reminder,
}
use silberloeffel_catering.Payments.Facts.{validate_payment_reminder-Facts}
use silberloeffel_catering.Payments.Repository.{
  PaymentStore, empty_payments, get_reminder, save_reminder,
}
use silberloeffel_catering.Payments.View.{event_date_of}
use silberloeffel_catering.Payments.Save.{
  Days, actor_of, reject_silent_fact_rewrite, rewrites_text, incoming_facts, stamped,
  mark_payment_reminder, mark_mahnung, mahnung_due, marked, prepared, open_order, written,
  save_payment,
}
use silberloeffel_catering.Payments.Save.Evidence.{Keeps}
use silberloeffel_catering.Payments.Save.Stored.{IsKept, IsDue}
use silberloeffel_catering.Payments.Laws.{
  save_reminder-IsKept, save_payment-Keeps, save_payment-IsDue,
}
use silberloeffel_catering.Payments.Commands.Kept.{
  Occasion, save_command, correct_command, execute_all, execute_all-IsKept,
}
use silberloeffel_catering.Tests.Life.{created}

next_working_day_lem_example :
    (next : Date) × (next_working_day 738001 ≡ ok next)
    × (738001 < next)
    × (next ≤ 738001 + 3)
    × (weekday next < 5)
    × (next ≤ 738005)
next_working_day_lem_example =
    next_working_day_lem 738001 738005 (omega arith) (omega arith) (ground arith)

-- The day of an instant in UTC, in the place of the time zone.
abbrev pub utc_date : DateTime → Date
utc_date t = t / 86400000000 + 719163

abbrev pub orders : OrderStore
orders = created.orders

-- An invoice that was sent on the day 738010 and reminded of on the day 738030.
abbrev pub reminded : OrderPaymentReminder
reminded = record (fresh_reminder 1 rechnung) {
  invoice_created = true;
  invoice_number = some (codes "R-7");
  sent_on = some 738010;
  invoice_created_at = some 1628380800000000;
  invoice_created_by = some (codes "office");
  payment_reminder_sent_at = some 1630108800000000;
  payment_reminder_sent_by = some (codes "office");
}

reminded-ok : validate_payment_reminder reminded ≡ ok tt
unfolding validate_payment_reminder validate_audits validate_audit_pair blank_or_long strip
    validate_recorded validate_invoice
reminded-ok = refl

abbrev store : PaymentStore
store = save_reminder reminded empty_payments

abbrev pub on_day : Date → Days
on_day d = record { today = d; view_today = d; view_later = d }

abbrev occasions : List Occasion
occasions =
    record {
      command = save_command (fresh_reminder 1 rechnung) (codes "office") false false;
      orders = orders;
      now = 1630800000000000;
      days = on_day 738038;
    }
    ∷ record {
      command = correct_command 1 (codes "c-1") (codes "typo") (codes "office");
      orders = orders;
      now = 1630900000000000;
      days = on_day 738039;
    }
    ∷ []

execute_all-IsKept_example : IsKept (execute_all utc_date occasions empty_payments)
execute_all-IsKept_example = execute_all-IsKept utc_date occasions

store-IsKept : IsKept store
unfolding execute_all
store-IsKept =
    save_reminder-IsKept reminded empty_payments
      (validate_payment_reminder-Facts reminded reminded-ok) (execute_all-IsKept utc_date [])

-- the store after the Mahnung of the day 738038
abbrev warned : PaymentStore
warned =
    (save_payment utc_date orders reminded (codes " office ") false true 1630800000000000
      (on_day 738038) store).1

abbrev warned_reminder : OrderPaymentReminder
warned_reminder = record reminded {
  updated_at = some 1630800000000000;
  mahnung_sent_at = some 1630800000000000;
  mahnung_sent_by = some (codes "office");
}

stored_reminder : lookup 1 store.rows ≡ some reminded
unfolding lookup insert
stored_reminder = refl

stored_mahnung : lookup 1 warned.rows ≡ some warned_reminder
unfolding save_payment open_order get_order get_reminder prepared incoming_facts
    reject_silent_fact_rewrite rewrites_text text_eq actor_of strip stamped event_date_of
    list_order_versions sorted marked mark_payment_reminder mark_mahnung mahnung_due plus_days
    validate_payment_reminder validate_audits validate_audit_pair blank_or_long validate_recorded
    validate_invoice written same_reminder ℕ_discrete lookup insert values
stored_mahnung = refl

save_payment-Keeps_example :
    (b : OrderPaymentReminder) × (lookup 1 warned.rows ≡ some b) × Keeps reminded b
save_payment-Keeps_example =
    save_payment-Keeps utc_date orders reminded (codes " office ") false true 1630800000000000
      (on_day 738038) store store-IsKept 1 reminded stored_reminder

save_payment-IsDue_example :
    ((a : OrderPaymentReminder) × (lookup 1 store.rows ≡ some a)
      × (is_some a.mahnung_sent_at ≡ true))
    ⊎ IsDue utc_date 738038 warned_reminder
save_payment-IsDue_example =
    save_payment-IsDue utc_date orders reminded (codes " office ") false true 1630800000000000
      (on_day 738038) store store-IsKept 1 warned_reminder stored_mahnung refl
