-- ===== src/Payments/Save/Stored.antt =====
-- What is stored after a reminder was saved.
use silberloeffel_catering.Common.{
  ◌≡◌, refl, ap, subst, ◌⊎◌, Bool, true, ◌≤◌, Option, none, some, arith, is_some, inl, inr,
  Option-cases, Bool-cases, ◌∙◌,
}
use silberloeffel_catering.Common.Text.{Text}
use silberloeffel_catering.Common.Dict.{lookup}
use silberloeffel_catering.Common.Results.{Result, ok, ◌>>=◌, ◌>>◌, bind_ok, check_ok, Result-cases}
use silberloeffel_catering.Orders.Model.{Identifier, DateTime, Date}
use silberloeffel_catering.Orders.Repository.{OrderStore}
use silberloeffel_catering.Payments.Dates.{plus_days}
use silberloeffel_catering.Payments.Model.{
  is_rechnung, OrderPaymentReminder, validate_payment_reminder, same_reminder,
}
use silberloeffel_catering.Payments.Facts.{Facts}
use silberloeffel_catering.Payments.Repository.{PaymentStore, get_reminder, save_reminder}
use silberloeffel_catering.Payments.View.{event_date_of}
use silberloeffel_catering.Payments.Save.{
  Days, actor_of, incoming_facts, stamped, mark_payment_reminder, mark_mahnung, mahnung_due, marked,
  prepared, written, open_order, save_payment,
}
use silberloeffel_catering.Payments.Save.Evidence.{
  Keeps, incoming_facts-Keeps, stamped-Keeps, mark_payment_reminder-ok, mark_mahnung-ok,
  mark_payment_reminder-Keeps, mark_mahnung-Keeps,
}

-- Every reminder is filed under its order, and its facts hang together.
pub record IsKept (s : PaymentStore) : Type 0 where
  pub own_order :
      (k : Identifier) (r : OrderPaymentReminder) → lookup k s.rows ≡ some r → r.order_id ≡ k
  pub facts : (k : Identifier) (r : OrderPaymentReminder) → lookup k s.rows ≡ some r → Facts r

-- The update time is no fact.
pub update-Facts :
    (r : OrderPaymentReminder) (t : Option DateTime) → Facts r → Facts (record r { updated_at = t })
update-Facts r t f = record {
  creation_recorded = f.creation_recorded;
  sending_recorded = f.sending_recorded;
  payment_recorded = f.payment_recorded;
  print_recorded = f.print_recorded;
  reminder_after_invoice = f.reminder_after_invoice;
  mahnung_after_reminder = f.mahnung_after_reminder;
  mahnung_by_invoice = f.mahnung_by_invoice;
  sent_after_creation = f.sent_after_creation;
  created_with_number = f.created_with_number;
  cash_without_invoice = f.cash_without_invoice;
  cash_when_paid = f.cash_when_paid;
  invoice_without_cash = f.invoice_without_cash;
  invoice_without_quittung = f.invoice_without_quittung;
}

incoming_facts-order :
    (c : Option OrderPaymentReminder) (r i : OrderPaymentReminder)
    → incoming_facts c r ≡ ok i
    → i.order_id ≡ r.order_id
unfolding incoming_facts
incoming_facts-order none r i h = ground arith
incoming_facts-order (some c) r i h = ground arith

stamped-order :
    (c : Option OrderPaymentReminder) (now : DateTime) (actor : Text) (i : OrderPaymentReminder)
    → (stamped c now actor i).order_id ≡ i.order_id
unfolding stamped
stamped-order c now actor i = ground arith

incoming_facts-warned :
    (c : Option OrderPaymentReminder) (r i : OrderPaymentReminder)
    → incoming_facts c r ≡ ok i
    → is_some i.mahnung_sent_at ≡ true
    → (a : OrderPaymentReminder) × (c ≡ some a) × (is_some a.mahnung_sent_at ≡ true)
unfolding incoming_facts
incoming_facts-warned none r i h e = ground arith
incoming_facts-warned (some c) r i h e = (c, refl, ground arith)

stamped-warned :
    (c : Option OrderPaymentReminder) (now : DateTime) (actor : Text) (i : OrderPaymentReminder)
    → (stamped c now actor i).mahnung_sent_at ≡ i.mahnung_sent_at
unfolding stamped
stamped-warned c now actor i = ground arith

-- A Mahnung that is recorded now was due.
pub record IsDue (local_date : DateTime → Date) (today : Date) (b : OrderPaymentReminder)
    : Type 0 where
  pub sent : DateTime
  pub due : Date
  pub reminded : b.payment_reminder_sent_at ≡ some sent
  pub week_later : plus_days (local_date sent) 7 ≡ ok due
  pub reached : due ≤ today
  pub unpaid : b.paid_on ≡ none
  pub by_invoice : is_rechnung b.payment_method ≡ true

pub update-IsDue :
    (local_date : DateTime → Date) (today : Date) (j : OrderPaymentReminder) (now : DateTime)
    → IsDue local_date today j
    → IsDue local_date today (record j { updated_at = some now })
update-IsDue local_date today j now d = record {
  sent = d.sent;
  due = d.due;
  reminded = d.reminded;
  week_later = d.week_later;
  reached = d.reached;
  unpaid = d.unpaid;
  by_invoice = d.by_invoice;
}

mark_mahnung-IsDue :
    (local_date : DateTime → Date) (mark : Bool) (now : DateTime) (actor : Text) (today : Date)
    (i j : OrderPaymentReminder)
    → mark_mahnung local_date mark now actor today i ≡ ok j
    → is_some j.mahnung_sent_at ≡ true
    → (is_some i.mahnung_sent_at ≡ true) ⊎ IsDue local_date today j
unfolding mark_mahnung mahnung_due
mark_mahnung-IsDue local_date mark now actor today i j h e =
    elim (mark_mahnung-ok now actor mark today i j local_date h) [
      | inl same ↦ inl (ground arith)
      | inr (unset, made) ↦ elim (Option-cases i.payment_reminder_sent_at) [
        | inl unsent ↦ ground arith
        | inr (sent, reminded) ↦ elim (Result-cases (plus_days (local_date sent) 7)) [
          | inr (x, g) ↦ ground arith
          | inl (due, g) ↦ inr (record {
            sent = sent;
            due = due;
            reminded = ground arith;
            week_later = g;
            reached = ground arith;
            unpaid = ground arith;
            by_invoice = ground arith;
          })
        ]
      ]
    ]

module _ (local_date : DateTime → Date) (orders : OrderStore) (r : OrderPaymentReminder)
    (actor_reference : Text) (mark_payment_reminder_sent mark_mahnung_sent : Bool) (now : DateTime)
    (days : Days) where
  -- The steps of a preparation that returned.
  pub record Prepared (c : Option OrderPaymentReminder) (j : OrderPaymentReminder) : Type 0 where
    pub incoming : OrderPaymentReminder
    pub actor : Text
    pub event_date : Date
    pub reminded : OrderPaymentReminder
    pub takes : incoming_facts c r ≡ ok incoming
    pub reminds :
        mark_payment_reminder mark_payment_reminder_sent now actor event_date days.today
          (stamped c now actor incoming)
        ≡ ok reminded
    pub warns : mark_mahnung local_date mark_mahnung_sent now actor days.today reminded ≡ ok j
    pub valid : validate_payment_reminder j ≡ ok tt

  abbrev mark : Text → Date → OrderPaymentReminder → Result OrderPaymentReminder
  mark =
      marked local_date orders r actor_reference mark_payment_reminder_sent mark_mahnung_sent now
        days

  marked-ok :
      (actor : Text) (event_date : Date) (next j : OrderPaymentReminder)
      → marked local_date orders r actor_reference mark_payment_reminder_sent mark_mahnung_sent now
          days actor event_date next
        ≡ ok j
      → (reminded : OrderPaymentReminder) × (mark_payment_reminder mark_payment_reminder_sent now
            actor event_date days.today next
          ≡ ok reminded)
        × (mark_mahnung local_date mark_mahnung_sent now actor days.today reminded ≡ ok j)
        × (validate_payment_reminder j ≡ ok tt)
  unfolding marked
  marked-ok actor event_date next j h =
      let (reminded, reminds, rest) =
        bind_ok
          (mark_payment_reminder mark_payment_reminder_sent now actor event_date days.today next)
          (λ m. mark_mahnung local_date mark_mahnung_sent now actor days.today m >>= λ w.
            validate_payment_reminder w >> ok w)
          j h in
      let (warned, warns, checked) =
        bind_ok (mark_mahnung local_date mark_mahnung_sent now actor days.today reminded)
          (λ w. validate_payment_reminder w >> ok w) j rest in
      let (valid, same) = check_ok (validate_payment_reminder warned) warned j checked in
      (
        reminded,
        reminds,
        warns ∙ ap ok same,
        subst (λ (x : OrderPaymentReminder). validate_payment_reminder x ≡ ok tt) same valid,
      )

  pub prepared-Prepared :
      (c : Option OrderPaymentReminder) (j : OrderPaymentReminder)
      → prepared local_date orders r actor_reference mark_payment_reminder_sent mark_mahnung_sent
          now days c
        ≡ ok j
      → Prepared c j
  unfolding prepared
  prepared-Prepared c j h =
      let (incoming, takes, rest) =
        bind_ok (incoming_facts c r)
          (λ i. actor_of actor_reference >>= λ actor.
            event_date_of r.order_id orders >>= λ date. mark actor date (stamped c now actor i))
          j h in
      let (actor, named, rest2) =
        bind_ok (actor_of actor_reference)
          (λ actor. event_date_of r.order_id orders >>= λ date.
            mark actor date (stamped c now actor incoming))
          j rest in
      let (date, dated, rest3) =
        bind_ok (event_date_of r.order_id orders)
          (λ date. mark actor date (stamped c now actor incoming)) j rest2 in
      let (reminded, reminds, warns, valid) =
        marked-ok actor date (stamped c now actor incoming) j rest3 in
      record {
        incoming = incoming;
        actor = actor;
        event_date = date;
        reminded = reminded;
        takes = takes;
        reminds = reminds;
        warns = warns;
        valid = valid;
      }

  pub Prepared-order :
      (c : Option OrderPaymentReminder) (j : OrderPaymentReminder)
      → Prepared c j
      → j.order_id ≡ r.order_id
  Prepared-order c j p = ground (
    arith,
    incoming_facts-order c r p.incoming p.takes,
    stamped-order c now p.actor p.incoming,
    mark_payment_reminder-ok now p.actor mark_payment_reminder_sent days.today _ p.reminded
        p.event_date p.reminds,
    mark_mahnung-ok now p.actor mark_mahnung_sent days.today p.reminded j local_date p.warns,
  )

  pub Prepared-Keeps : (c j : OrderPaymentReminder) → Facts c → Prepared (some c) j → Keeps c j
  Prepared-Keeps c j f p =
      mark_mahnung-Keeps c now p.actor mark_mahnung_sent days.today p.reminded j
        (mark_payment_reminder-Keeps c now p.actor mark_payment_reminder_sent days.today _
          p.reminded
          (stamped-Keeps c now p.actor p.incoming f (incoming_facts-Keeps c r p.incoming p.takes))
          p.event_date p.reminds)
        local_date p.warns

  -- A Mahnung of the prepared reminder was recorded before, or is due.
  pub Prepared-IsDue :
      (c : Option OrderPaymentReminder) (j : OrderPaymentReminder)
      → Prepared c j
      → is_some j.mahnung_sent_at ≡ true
      → ((a : OrderPaymentReminder) × (c ≡ some a) × (is_some a.mahnung_sent_at ≡ true))
        ⊎ IsDue local_date days.today j
  Prepared-IsDue c j p e =
      elim (mark_mahnung-IsDue local_date mark_mahnung_sent now p.actor days.today p.reminded j
        p.warns e) [
          | inr due ↦ inr due
          | inl before ↦ inl (
              ground (
                arith,
                incoming_facts-warned c r p.incoming p.takes,
                stamped-warned c now p.actor p.incoming,
                mark_payment_reminder-ok now p.actor mark_payment_reminder_sent days.today _
                    p.reminded p.event_date p.reminds,
                before,
              ))
        ]

  written-keeps :
      (P : PaymentStore → Type 0) (s : PaymentStore) (c : Option OrderPaymentReminder)
      (j : OrderPaymentReminder)
      → P s
      → P (save_reminder (record j { updated_at = some now }) s)
      → P (
          written local_date orders r actor_reference mark_payment_reminder_sent mark_mahnung_sent
            now days c j s)
  unfolding written
  written-keeps P s none j start new = new
  written-keeps P s (some c) j start new =
      elim (Bool-cases (same_reminder (record j { updated_at = c.updated_at }) c)) [
        | inl same ↦ rw same start
        | inr other ↦ rw other new
      ]

  -- A save changes the store by one write at most.
  pub save_payment-keeps :
      (P : PaymentStore → Type 0) (s : PaymentStore)
      → P s
      → ((j : OrderPaymentReminder)
          → prepared local_date orders r actor_reference mark_payment_reminder_sent
              mark_mahnung_sent now days
              (get_reminder s r.order_id)
            ≡ ok j
          → P (save_reminder (record j { updated_at = some now }) s))
      → P
          (save_payment local_date orders r actor_reference mark_payment_reminder_sent
            mark_mahnung_sent now days s).1
  unfolding save_payment
  save_payment-keeps P s start keep =
      elim (Result-cases (
        open_order local_date orders r actor_reference mark_payment_reminder_sent mark_mahnung_sent
          now days)) [
            | inr (e, g) ↦ rw g start
            | inl (u, g) ↦
                elim (Result-cases (
                  prepared local_date orders r actor_reference mark_payment_reminder_sent
                    mark_mahnung_sent now days (get_reminder s r.order_id))) [
                      | inr (e, f) ↦ rw (g, f) start
                      | inl (j, f) ↦
                          rw (g, f)
                            (written-keeps P s (get_reminder s r.order_id) j start (keep j f))
                    ]
          ]
