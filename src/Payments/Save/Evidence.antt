-- ===== src/Payments/Save/Evidence.antt =====
-- Saving a reminder never loses what an earlier call recorded.
use silberloeffel_catering.Common.{
  ◌≡◌, ◌⊎◌, refl, subst, Bool, true, false, Option, none, some, arith, is_none, ◌&&◌, Bool-cases,
  inl, inr,
}
use silberloeffel_catering.Common.Text.{Text, text_eq_iff}
use silberloeffel_catering.Common.Results.{ok}
use silberloeffel_catering.Orders.Model.{DateTime, Date}
use silberloeffel_catering.Payments.Model.{
  PaymentMethod, vorkasse, rechnung, bar_vor_ort, same_method, OrderPaymentReminder,
}
use silberloeffel_catering.Payments.Facts.{Facts}
use silberloeffel_catering.Payments.Save.{
  rewrites, rewrites_text, reject_silent_fact_rewrite, incoming_facts, with_evidence_of,
  without_evidence, stamp_created, stamp_sent, stamp_paid, stamp_quittung, stamped,
  mark_payment_reminder, mark_mahnung,
}

-- A later state of a reminder with all that the earlier one had recorded.
pub record Keeps (a b : OrderPaymentReminder) : Type 0 where
  pub method : b.payment_method ≡ a.payment_method
  pub created : a.invoice_created ≡ true → b.invoice_created ≡ true
  pub number : (n : Text) → a.invoice_number ≡ some n → b.invoice_number ≡ some n
  pub sent : (d : Date) → a.sent_on ≡ some d → b.sent_on ≡ some d
  pub paid : (d : Date) → a.paid_on ≡ some d → b.paid_on ≡ some d
  pub cash : a.cash_received ≡ true → b.cash_received ≡ true
  pub quittung : a.quittung_printed ≡ true → b.quittung_printed ≡ true
  pub created_at : (t : DateTime) → a.invoice_created_at ≡ some t → b.invoice_created_at ≡ some t
  pub sent_at :
      (t : DateTime) → a.invoice_sent_recorded_at ≡ some t → b.invoice_sent_recorded_at ≡ some t
  pub reminded_at :
      (t : DateTime) → a.payment_reminder_sent_at ≡ some t → b.payment_reminder_sent_at ≡ some t
  pub warned_at : (t : DateTime) → a.mahnung_sent_at ≡ some t → b.mahnung_sent_at ≡ some t
  pub printed_at : (t : DateTime) → a.quittung_printed_at ≡ some t → b.quittung_printed_at ≡ some t
  pub paid_at : (t : DateTime) → a.paid_recorded_at ≡ some t → b.paid_recorded_at ≡ some t

same_method-eq : (a b : PaymentMethod) → same_method a b ≡ true → b ≡ a
same_method-eq vorkasse vorkasse h = refl
same_method-eq vorkasse rechnung h = ground arith
same_method-eq vorkasse bar_vor_ort h = ground arith
same_method-eq rechnung vorkasse h = ground arith
same_method-eq rechnung rechnung h = refl
same_method-eq rechnung bar_vor_ort h = ground arith
same_method-eq bar_vor_ort vorkasse h = ground arith
same_method-eq bar_vor_ort rechnung h = ground arith
same_method-eq bar_vor_ort bar_vor_ort h = refl

rewrites_text-kept :
    (c i : Option Text) → rewrites_text c i ≡ false → (n : Text) → c ≡ some n → i ≡ some n
unfolding rewrites_text
rewrites_text-kept none i h n e = ground arith
rewrites_text-kept (some a) none h n e = ground arith
rewrites_text-kept (some a) (some b) h n e = ground (arith, (text_eq_iff b a).0)

-- A mark is set when it was not set, and is left alone when it was.
module _ (now : DateTime) (actor : Text) (mark : Bool) (today : Date)
    (i j : OrderPaymentReminder) where
  pub mark_payment_reminder-ok :
      (event_date : Date)
      → mark_payment_reminder mark now actor event_date today i ≡ ok j
      → (i ≡ j)
        ⊎ ((i.payment_reminder_sent_at ≡ none)
            × (record i {
              payment_reminder_sent_at = some now;
              payment_reminder_sent_by = some actor;
            }
                ≡ j))
  unfolding mark_payment_reminder
  mark_payment_reminder-ok event_date h =
      elim (Bool-cases (mark && is_none i.payment_reminder_sent_at)) [
        | inr unmarked ↦ inl (ground arith)
        | inl marks ↦ inr (ground arith, ground arith)
      ]

  pub mark_mahnung-ok :
      (local_date : DateTime → Date)
      → mark_mahnung local_date mark now actor today i ≡ ok j
      → (i ≡ j)
        ⊎ ((i.mahnung_sent_at ≡ none)
            × (record i { mahnung_sent_at = some now; mahnung_sent_by = some actor } ≡ j))
  unfolding mark_mahnung
  mark_mahnung-ok local_date h = elim (Bool-cases (mark && is_none i.mahnung_sent_at)) [
    | inr unmarked ↦ inl (ground arith)
    | inl marks ↦ inr (ground arith, ground arith)
  ]

-- What the refusal of silent rewrites leaves.
record Unchanged (c i : OrderPaymentReminder) : Type 0 where
  created : c.invoice_created ≡ true → i.invoice_created ≡ true
  number : rewrites_text c.invoice_number i.invoice_number ≡ false
  sent : rewrites c.sent_on i.sent_on ≡ false
  paid : rewrites c.paid_on i.paid_on ≡ false
  cash : c.cash_received ≡ true → i.cash_received ≡ true
  quittung : c.quittung_printed ≡ true → i.quittung_printed ≡ true

reject-Unchanged :
    (c i : OrderPaymentReminder) → reject_silent_fact_rewrite c i ≡ ok tt → Unchanged c i
unfolding reject_silent_fact_rewrite
reject-Unchanged c i h = record {
  created = λ e. ground arith;
  number = ground arith;
  sent = ground arith;
  paid = ground arith;
  cash = λ e. ground arith;
  quittung = λ e. ground arith;
}

rewrites-kept : (c i : Option Date) → rewrites c i ≡ false → (d : Date) → c ≡ some d → i ≡ some d
rewrites-kept none i h d e = ground arith
rewrites-kept (some a) none h d e = ground arith
rewrites-kept (some a) (some b) h d e = ground arith

incoming_facts-ok :
    (c r i : OrderPaymentReminder)
    → incoming_facts (some c) r ≡ ok i
    → (same_method c.payment_method r.payment_method ≡ true)
      × (reject_silent_fact_rewrite c (without_evidence r) ≡ ok tt)
      × (with_evidence_of c (without_evidence r) ≡ i)
unfolding incoming_facts
incoming_facts-ok c r i h = ground arith

module _ (c : OrderPaymentReminder) where
  pub incoming_facts-Keeps :
      (r i : OrderPaymentReminder) → incoming_facts (some c) r ≡ ok i → Keeps c i
  incoming_facts-Keeps r i h =
      let (same, kept, made) = incoming_facts-ok c r i h in
      let u = reject-Unchanged c (without_evidence r) kept in
      subst (Keeps c) made (record {
        method = same_method-eq c.payment_method r.payment_method same;
        created = u.created;
        number = rewrites_text-kept c.invoice_number r.invoice_number u.number;
        sent = rewrites-kept c.sent_on r.sent_on u.sent;
        paid = rewrites-kept c.paid_on r.paid_on u.paid;
        cash = u.cash;
        quittung = u.quittung;
        created_at = λ t e. e;
        sent_at = λ t e. e;
        reminded_at = λ t e. e;
        warned_at = λ t e. e;
        printed_at = λ t e. e;
        paid_at = λ t e. e;
      })

  -- A stamp is put on a fact that is recorded for the first time, and on no other.
  module _ (f : Facts c) (now : DateTime) (actor : Text) (i : OrderPaymentReminder)
      (k : Keeps c i) where
    stamp_created-Keeps : Keeps c (stamp_created (some c) now actor i)
    stamp_created-Keeps = ground (arith, f.creation_recorded, k)

    stamp_sent-Keeps : Keeps c (stamp_sent (some c) now actor i)
    stamp_sent-Keeps = ground (arith, f.sending_recorded, k)

    stamp_paid-Keeps : Keeps c (stamp_paid (some c) now actor i)
    stamp_paid-Keeps = ground (arith, f.payment_recorded, k)

    stamp_quittung-Keeps : Keeps c (stamp_quittung (some c) now actor i)
    stamp_quittung-Keeps = ground (arith, f.print_recorded, k)

  pub stamped-Keeps :
      (now : DateTime) (actor : Text) (i : OrderPaymentReminder)
      → Facts c
      → Keeps c i
      → Keeps c (stamped (some c) now actor i)
  unfolding stamped
  stamped-Keeps now actor i f k = stamp_quittung-Keeps f now actor _ (
      stamp_paid-Keeps f now actor _
        (stamp_sent-Keeps f now actor _ (stamp_created-Keeps f now actor i k)))

  module _ (now : DateTime) (actor : Text) (mark : Bool) (today : Date) (i j : OrderPaymentReminder)
      (k : Keeps c i) where
    pub mark_payment_reminder-Keeps :
        (event_date : Date)
        → mark_payment_reminder mark now actor event_date today i ≡ ok j
        → Keeps c j
    mark_payment_reminder-Keeps event_date h =
        elim (mark_payment_reminder-ok now actor mark today i j event_date h) [
          | inl same ↦ subst (Keeps c) same k
          | inr (unset, made) ↦ subst (Keeps c) made (ground (arith, unset, k))
        ]

    pub mark_mahnung-Keeps :
        (local_date : DateTime → Date)
        → mark_mahnung local_date mark now actor today i ≡ ok j
        → Keeps c j
    mark_mahnung-Keeps local_date h = elim (mark_mahnung-ok now actor mark today i j local_date h) [
      | inl same ↦ subst (Keeps c) same k
      | inr (unset, made) ↦ subst (Keeps c) made (ground (arith, unset, k))
    ]
