-- ===== src/Payments/Advice.antt =====
-- The next step that the view of src/catering_system/domain/order_payment_reminder.py shows, against
-- the guards of src/catering_system/services/payment_reminder_service.py.
use silberloeffel_catering.Common.{
  ◌≡◌, ◌≢◌, ◌≤◌, refl, ap, Bool, true, false, Option, none, some, arith, if◌then◌else◌, inl, inr,
  Option-cases, Bool-cases,
}
use silberloeffel_catering.Common.Text.{Text}
use silberloeffel_catering.Common.Results.{Result, ok, bind_ok, Result-cases}
use silberloeffel_catering.Orders.Model.{DateTime, Date}
use silberloeffel_catering.Payments.Dates.{plus_days, minus_days}
use silberloeffel_catering.Payments.Model.{
  is_cash, is_vorkasse, is_rechnung, OrderPaymentReminder, validate_payment_reminder, PaymentMethod,
  vorkasse, rechnung, bar_vor_ort,
}
use silberloeffel_catering.Payments.Derive.{
  NextStep, send_reminder, send_mahnung, PaymentReminderView, view_of, derive_cash, canonical_due,
  vorkasse_step, rechnung_step, derive_due, derive_invoice, derive_payment_reminder,
}
use silberloeffel_catering.Payments.Save.{
  mark_payment_reminder, mark_mahnung, reminder_due, mahnung_due,
}

-- The steps that only a sent and unpaid invoice asks for.
abbrev pub is_dunning : Option NextStep → Bool
is_dunning (some send_reminder) = true
is_dunning (some send_mahnung) = true
is_dunning _ = false

-- The state of a reminder whose view shows such a step.
record Sent (local_date : DateTime → Date) (r : OrderPaymentReminder) (event_date today : Date)
    (v : PaymentReminderView) : Type 0 where
  sent : Date
  due : Date
  invoiced : r.invoice_created ≡ true
  on_day : r.sent_on ≡ some sent
  open_payment : r.paid_on ≡ none
  no_cash : is_cash r.payment_method ≡ false
  term : canonical_due r event_date ≡ ok (some due)
  derived : derive_due local_date r due event_date today ≡ ok v

derive_cash-other :
    (r : OrderPaymentReminder) (event_date today : Date)
    → is_dunning (derive_cash r event_date today).next_step ≡ false
unfolding derive_cash view_of
derive_cash-other r event_date today = ground arith

module _ (local_date : DateTime → Date) (r : OrderPaymentReminder) (event_date today : Date)
    (v : PaymentReminderView) (shown : is_dunning v.next_step ≡ true) where
  derive_invoice-Sent :
      (is_cash r.payment_method ≡ false)
      → derive_invoice local_date r event_date today ≡ ok v
      → Sent local_date r event_date today v
  unfolding derive_invoice view_of
  derive_invoice-Sent cash h = elim (Result-cases (canonical_due r event_date)) [
    | inr (e, g) ↦ ground arith
    | inl (none, g) ↦ ground arith
    | inl (some due, g) ↦ elim (Option-cases r.sent_on) [
      | inl unsent ↦ ground arith
      | inr (sent, f) ↦ record {
        sent = sent;
        due = due;
        invoiced = ground arith;
        on_day = f;
        open_payment = ground arith;
        no_cash = cash;
        term = g;
        derived = ground arith;
      }
    ]
  ]

  abbrev cash_branch : Result PaymentReminderView
  cash_branch =
      if is_cash r.payment_method
      then ok (derive_cash r event_date today)
      else derive_invoice local_date r event_date today

  by_invoice :
      is_cash r.payment_method ≡ false
      → cash_branch ≡ ok v
      → derive_invoice local_date r event_date today ≡ ok v
  by_invoice cash h = ground (arith, cash)

  no_cash-shown : is_cash r.payment_method ≡ true → cash_branch ≡ ok v → ⊥
  no_cash-shown cash h = ground (arith, cash, derive_cash-other r event_date today)

  derive-Sent :
      derive_payment_reminder local_date (some r) event_date today ≡ ok v
      → Sent local_date r event_date today v
  unfolding derive_payment_reminder
  derive-Sent h =
      let (u, valid, rest) =
        bind_ok (validate_payment_reminder r)
          (λ _.
            if is_cash r.payment_method
            then ok (derive_cash r event_date today)
            else derive_invoice local_date r event_date today)
          v h in
      elim (Bool-cases (is_cash r.payment_method)) [
        | inl cash ↦ absurd (no_cash-shown cash rest)
        | inr invoice ↦ derive_invoice-Sent invoice (by_invoice invoice rest)
      ]

derive_due-step :
    (local_date : DateTime → Date) (r : OrderPaymentReminder) (due event_date today : Date)
    (v : PaymentReminderView) (step : NextStep)
    → v.next_step ≡ some step
    → derive_due local_date r due event_date today ≡ ok v
    → (day : Date) × ((if is_vorkasse r.payment_method
          then vorkasse_step r due event_date today
          else rechnung_step local_date r due today)
        ≡ ok (step, day))
unfolding derive_due view_of
derive_due-step local_date r due event_date today v step shown h =
    elim (Result-cases (
      if is_vorkasse r.payment_method
      then vorkasse_step r due event_date today
      else rechnung_step local_date r due today)) [
        | inr (e, g) ↦ ground arith
        | inl ((s, day), g) ↦ (day, ground arith)
      ]

vorkasse_step-other :
    (r : OrderPaymentReminder) (due event_date today day : Date)
    → vorkasse_step r due event_date today ≢ ok (send_mahnung, day)
unfolding vorkasse_step
vorkasse_step-other r due event_date today day h = ground arith

-- What the two steps of the dunning procedure tell of the reminder.
rechnung_step-mahnung :
    (local_date : DateTime → Date) (r : OrderPaymentReminder) (due today day : Date)
    → rechnung_step local_date r due today ≡ ok (send_mahnung, day)
    → (reminded : DateTime) × (r.payment_reminder_sent_at ≡ some reminded)
      × (r.mahnung_sent_at ≡ none)
      × (plus_days (local_date reminded) 7 ≡ ok day)
      × (day ≤ today)
unfolding rechnung_step
rechnung_step-mahnung local_date r due today day h =
    elim (Option-cases r.payment_reminder_sent_at) [
      | inl unsent ↦ ground arith
      | inr (reminded, f) ↦ elim (Option-cases r.mahnung_sent_at) [
        | inr (warned, g) ↦ ground arith
        | inl unwarned ↦ elim (Result-cases (plus_days (local_date reminded) 7)) [
          | inr (e, k) ↦ ground arith
          | inl (d, k) ↦ (reminded, f, unwarned, ground arith, ground arith)
        ]
      ]
    ]

rechnung_step-reminder :
    (local_date : DateTime → Date) (r : OrderPaymentReminder) (due today day : Date)
    → rechnung_step local_date r due today ≡ ok (send_reminder, day)
    → (r.payment_reminder_sent_at ≡ none)
      × (first : Date) × (plus_days due 1 ≡ ok first)
      × (first ≤ today)
unfolding rechnung_step
rechnung_step-reminder local_date r due today day h = elim (Result-cases (plus_days due 1)) [
  | inr (e, k) ↦ ground arith
  | inl (d, k) ↦ elim (Option-cases r.payment_reminder_sent_at) [
    | inl unsent ↦ (unsent, d, k, ground arith)
    | inr (reminded, f) ↦ ground arith
  ]
]

vorkasse_step-reminder :
    (r : OrderPaymentReminder) (due event_date today day : Date)
    → vorkasse_step r due event_date today ≡ ok (send_reminder, day)
    → (r.payment_reminder_sent_at ≡ none) × (minus_days event_date 6 ≡ ok day) × (day ≤ today)
unfolding vorkasse_step
vorkasse_step-reminder r due event_date today day h =
    elim (Result-cases (minus_days event_date 6)) [
      | inr (e, k) ↦ ground arith
      | inl (d, k) ↦ elim (Result-cases (minus_days event_date 3)) [
        | inr (e, f) ↦ ground arith
        | inl (u, f) ↦ (ground arith, ground arith, ground arith)
      ]
    ]

method-IsRechnung :
    (m : PaymentMethod) → is_cash m ≡ false → is_vorkasse m ≡ false → is_rechnung m ≡ true
method-IsRechnung vorkasse c v = ground arith
method-IsRechnung rechnung c v = refl
method-IsRechnung bar_vor_ort c v = ground arith

-- A Mahnung that the view asks for is one that the service records.
mahnung-allowed :
    (local_date : DateTime → Date) (r : OrderPaymentReminder) (event_date today : Date)
    (v : PaymentReminderView) (now : DateTime) (actor : Text)
    → v.next_step ≡ some send_mahnung
    → Sent local_date r event_date today v
    → mark_mahnung local_date true now actor today r
      ≡ ok (record r { mahnung_sent_at = some now; mahnung_sent_by = some actor })
unfolding mark_mahnung mahnung_due
mahnung-allowed local_date r event_date today v now actor shown s =
    let (day, step) =
      derive_due-step local_date r s.due event_date today v send_mahnung shown s.derived in
    elim (Bool-cases (is_vorkasse r.payment_method)) [
      | inl pre ↦ ground (arith, vorkasse_step-other r s.due event_date today day)
      | inr other ↦
          let (reminded, f, unwarned, term, reached) =
            rechnung_step-mahnung local_date r s.due today day (ground arith) in
          let method = method-IsRechnung r.payment_method s.no_cash other in
          ground (arith, f, unwarned, term, reached, method, s.open_payment)
    ]

reminder_due-invoice :
    (r : OrderPaymentReminder) (event_date sent due first : Date)
    → is_vorkasse r.payment_method ≡ false
    → r.sent_on ≡ some sent
    → canonical_due r event_date ≡ ok (some due)
    → plus_days due 1 ≡ ok first
    → reminder_due r event_date ≡ ok first
unfolding reminder_due canonical_due plus_days
reminder_due-invoice r event_date sent due first other f g h = ground arith

reminder_due-prepaid :
    (r : OrderPaymentReminder) (event_date day : Date)
    → is_vorkasse r.payment_method ≡ true
    → minus_days event_date 6 ≡ ok day
    → reminder_due r event_date ≡ ok day
unfolding reminder_due
reminder_due-prepaid r event_date day pre term = ground arith

reminder-marked :
    (r : OrderPaymentReminder) (event_date today due sent : Date) (now : DateTime) (actor : Text)
    → r.payment_reminder_sent_at ≡ none
    → reminder_due r event_date ≡ ok due
    → due ≤ today
    → is_cash r.payment_method ≡ false
    → r.invoice_created ≡ true
    → r.sent_on ≡ some sent
    → r.paid_on ≡ none
    → mark_payment_reminder true now actor event_date today r
      ≡ ok (record r { payment_reminder_sent_at = some now; payment_reminder_sent_by = some actor })
unfolding mark_payment_reminder
reminder-marked r event_date today due sent now actor unsent term reached cash invoiced on_day
      unpaid =
    ground arith

-- And so is a payment reminder.
reminder-allowed :
    (local_date : DateTime → Date) (r : OrderPaymentReminder) (event_date today : Date)
    (v : PaymentReminderView) (now : DateTime) (actor : Text)
    → v.next_step ≡ some send_reminder
    → Sent local_date r event_date today v
    → mark_payment_reminder true now actor event_date today r
      ≡ ok (record r { payment_reminder_sent_at = some now; payment_reminder_sent_by = some actor })
reminder-allowed local_date r event_date today v now actor shown s =
    let (day, step) =
      derive_due-step local_date r s.due event_date today v send_reminder shown s.derived in
    elim (Bool-cases (is_vorkasse r.payment_method)) [
      | inl pre ↦
          let (unsent, term, reached) =
            vorkasse_step-reminder r s.due event_date today day (ground arith) in
          marks day unsent (prepaid day pre term) reached
      | inr other ↦
          let (unsent, first, term, reached) =
            rechnung_step-reminder local_date r s.due today day (ground arith) in
          marks first unsent
            (reminder_due-invoice r event_date s.sent s.due first other s.on_day s.term term)
            reached
    ]
  where
    marks :
        (due : Date)
        → r.payment_reminder_sent_at ≡ none
        → reminder_due r event_date ≡ ok due
        → due ≤ today
        → mark_payment_reminder true now actor event_date today r
          ≡ ok (record r {
            payment_reminder_sent_at = some now;
            payment_reminder_sent_by = some actor;
          })
    marks due unsent term reached =
        reminder-marked r event_date today due s.sent now actor unsent term reached s.no_cash
          s.invoiced s.on_day s.open_payment

    prepaid :
        (day : Date)
        → is_vorkasse r.payment_method ≡ true
        → minus_days event_date 6 ≡ ok day
        → reminder_due r event_date ≡ ok day
    prepaid day pre term = reminder_due-prepaid r event_date day pre term

-- When the view of a reminder shows the step to send a payment reminder or a Mahnung, the mark of
-- that step, set on the same day, is accepted and recorded with the time and the actor.
pub shown_step-allowed :
    (local_date : DateTime → Date) (r : OrderPaymentReminder) (event_date today : Date)
    (v : PaymentReminderView) (now : DateTime) (actor : Text)
    → derive_payment_reminder local_date (some r) event_date today ≡ ok v
    → (v.next_step ≡ some send_reminder
        → mark_payment_reminder true now actor event_date today r
          ≡ ok (record r {
            payment_reminder_sent_at = some now;
            payment_reminder_sent_by = some actor;
          }))
      × (v.next_step ≡ some send_mahnung
          → mark_mahnung local_date true now actor today r
            ≡ ok (record r { mahnung_sent_at = some now; mahnung_sent_by = some actor }))
shown_step-allowed local_date r event_date today v now actor h = (
  λ e.
      reminder-allowed local_date r event_date today v now actor e
        (derive-Sent local_date r event_date today v (ap is_dunning e) h),
  λ e.
      mahnung-allowed local_date r event_date today v now actor e
        (derive-Sent local_date r event_date today v (ap is_dunning e) h),
)
