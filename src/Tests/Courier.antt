-- ===== src/Tests/Courier.antt =====
-- The theorems on the cash handoff, applied to a direct receipt of the chef for the order of
-- Tests/Life.antt.
use native.Mathlib.Decide.{ℕ_discrete}
use silberloeffel_catering.Common.{◌≡◌, refl, ◌+◌, ◌≤◌, arith, true, none, some, List, [], ◌∷◌}
use silberloeffel_catering.Common.Dict.{lookup, insert, values}
use silberloeffel_catering.Common.Sort.{sorted}
use silberloeffel_catering.Common.Text.{codes, strip, text_eq}
use silberloeffel_catering.Common.Results.{ok}
use silberloeffel_catering.Orders.Model.{pickup}
use silberloeffel_catering.Orders.Repository.{
  OrderStore, get_order, get_order_version, list_order_versions,
}
use silberloeffel_catering.Payments.Model.{
  is_cash, bar_vor_ort, OrderPaymentReminder, fresh_reminder, blank_or_long, validate_audit_pair,
  validate_audits, validate_cash, validate_recorded, validate_payment_reminder, same_reminder,
}
use silberloeffel_catering.Payments.Facts.{validate_payment_reminder-Facts}
use silberloeffel_catering.Payments.Derive.{derive_payment_reminder, derive_cash, view_of}
use silberloeffel_catering.Payments.Repository.{
  PaymentStore, empty_payments, get_reminder, save_reminder, list_method_changes,
  list_payment_corrections,
}
use silberloeffel_catering.Payments.View.{
  event_date_of, view_payment, view_active, view_revised, latest_revision,
}
use silberloeffel_catering.Payments.Save.{
  actor_of, reject_silent_fact_rewrite, rewrites_text, incoming_facts, stamped,
  mark_payment_reminder, mark_mahnung, marked, prepared, open_order, written, save_payment,
}
use silberloeffel_catering.Payments.Save.Stored.{IsKept}
use silberloeffel_catering.Payments.Laws.{save_reminder-IsKept}
use silberloeffel_catering.Payments.Commands.Kept.{execute_all, execute_all-IsKept}
use silberloeffel_catering.Courier.Model.{
  role_allowed, CourierCashCommand, CourierCashResult, chef_direct, chef, final_paid,
  ready_for_handoff,
}
use silberloeffel_catering.Courier.Journal.{
  get_by_idempotency_key, get_latest_for_context, get_latest_for_order, get_latest_correction_id,
  append_event,
}
use silberloeffel_catering.Courier.Context.{projection}
use silberloeffel_catering.Courier.Service.{
  Outside, Readings, CashStores, transition, check_order, current_projection, from_state_of,
  to_state_of, next_states, payable, record_final_payment, settle, event_of, process_new, process,
}
use silberloeffel_catering.Courier.Service.Replay.{process_again}
use silberloeffel_catering.Courier.Service.Once.{
  CashOccasion, final_events, process_all, process_all_once,
}
use silberloeffel_catering.Courier.Service.Paid.{process-PaidIn}
use silberloeffel_catering.Courier.Codec.{from_json, to_json, contract_version}
use silberloeffel_catering.Courier.Codec.RoundTrip.{IsCommand, from_json-to_json}
use silberloeffel_catering.Tests.Life.{acknowledged}
use silberloeffel_catering.Tests.CashLibrary.{forms, library, answers}
use silberloeffel_catering.Tests.Payments.{utc_date, on_day}

abbrev orders : OrderStore
orders = acknowledged.orders

abbrev outside : Outside
outside = record {
  fingerprint = λ t. t;
  library = library;
  uuid5 = λ m. m.version_id + 900;
  local_date = utc_date;
  inquiry =
      λ i. some (record { inquiry_id = i; customer_snapshot = none; fulfillment_mode = pickup });
}

-- The receipt of the cash payment is printed.
abbrev printed : OrderPaymentReminder
printed = record (fresh_reminder 1 bar_vor_ort) {
  quittung_printed = true;
  quittung_printed_at = some 500;
  quittung_printed_by = some (codes "office");
}

printed-ok : validate_payment_reminder printed ≡ ok tt
unfolding validate_payment_reminder validate_audits validate_audit_pair blank_or_long strip
    validate_recorded validate_cash
printed-ok = refl

abbrev payments : PaymentStore
payments = save_reminder printed empty_payments

payments-IsKept : IsKept payments
unfolding execute_all
payments-IsKept =
    save_reminder-IsKept printed empty_payments (validate_payment_reminder-Facts printed printed-ok)
      (execute_all-IsKept utc_date [])

abbrev receipt : CourierCashCommand
receipt = record {
  idempotency_key = 77;
  event_type = chef_direct;
  order_id = 1;
  assignment_id = 5;
  order_version_id = 10;
  cash_execution_context_id = 910;
  actor_id = codes "c-1";
  actor_role = chef;
  occurred_at = 1630800000000000;
  not_received_reason = none;
  remark = none;
  correction_reason = none;
  correction_of_idempotency_key = none;
}

abbrev readings : Readings
readings = record {
  now = 1630800000000000;
  payment_now = 1630800000000001;
  days = on_day 738038;
  event_id = 88;
}

abbrev before : CashStores
before = record { payments = payments; journal = [] }

abbrev paid_reminder : OrderPaymentReminder
paid_reminder = record printed {
  paid_on = some 738038;
  cash_received = true;
  updated_at = some 1630800000000001;
  paid_recorded_at = some 1630800000000001;
  paid_recorded_by = some (codes "courier:chef:c-1");
}

abbrev received : CourierCashResult
received = record {
  contract_version = contract_version;
  event_id = 88;
  idempotency_key = 77;
  order_id = 1;
  cash_state = final_paid;
  recorded_at = 1630800000000000;
}

abbrev after : CashStores
after = record {
  payments = record {
    rows = (1, paid_reminder) ∷ [];
    method_changes = [];
    payment_corrections = [];
  };
  journal = event_of outside orders receipt readings ready_for_handoff final_paid ∷ [];
}

receives : process outside orders receipt readings before ≡ (ok received, after)
unfolding process get_by_idempotency_key process_new next_states check_order get_order
    current_projection projection get_reminder get_order_version list_method_changes
    list_payment_corrections get_latest_correction_id from_state_of get_latest_for_context
    get_latest_for_order to_state_of transition settle record_final_payment payable save_payment
    open_order prepared incoming_facts reject_silent_fact_rewrite rewrites_text text_eq actor_of
    strip stamped event_date_of list_order_versions sorted marked mark_payment_reminder mark_mahnung
    validate_payment_reminder validate_audits validate_audit_pair blank_or_long validate_recorded
    validate_cash written same_reminder ℕ_discrete lookup insert values view_payment
    derive_payment_reminder derive_cash view_of view_active view_revised latest_revision
    append_event
receives = refl

process_again_example :
    process outside orders receipt (record readings { now = 1630900000000000; event_id = 89 }) after
    ≡ (ok received, after)
process_again_example =
    process_again outside orders receipt (λ i. refl) (λ t. refl) answers readings
      (record readings { now = 1630900000000000; event_id = 89 }) before after received receives

new_key : get_by_idempotency_key 77 before.journal ≡ none
unfolding get_by_idempotency_key
new_key = refl

process-PaidIn_example :
    (b : OrderPaymentReminder) × (get_reminder after.payments 1 ≡ some b)
    × (is_cash b.payment_method ≡ true)
    × (b.cash_received ≡ true)
    × (b.paid_on ≡ some 738038)
process-PaidIn_example =
    process-PaidIn outside orders receipt readings before payments-IsKept after received new_key
      receives refl

abbrev occasions : List CashOccasion
occasions =
    record { orders = orders; command = receipt; readings = readings }
    ∷ record {
      orders = orders;
      command = record receipt { idempotency_key = 78 };
      readings = record readings { event_id = 89 };
    }
    ∷ []

process_all_once_example : final_events 1 910 (process_all outside occasions before).journal ≤ 1
process_all_once_example = process_all_once outside occasions payments 1 910

receipt-IsCommand : IsCommand receipt
unfolding role_allowed strip
receipt-IsCommand = record {
  role = refl;
  actor = record { trimmed = refl; filled = omega arith; short = omega arith };
  remark = tt;
  reason = tt;
  details = (refl, refl, refl, refl);
}

from_json-to_json_example : from_json forms (to_json forms receipt) ≡ ok receipt
from_json-to_json_example =
    from_json-to_json forms (λ i. refl) (λ t. refl) receipt receipt-IsCommand
