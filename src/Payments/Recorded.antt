-- ===== src/Payments/Recorded.antt =====
-- A save that returned has stored the facts that it was given.
use silberloeffel_catering.Common.{
  ◌≡◌, refl, subst, Bool, Option, none, some, arith, inl, inr, Bool-cases,
}
use silberloeffel_catering.Common.Text.{Text}
use silberloeffel_catering.Common.Dict.{lookup-insert_self}
use silberloeffel_catering.Common.Results.{ok, Result-cases}
use silberloeffel_catering.Orders.Model.{DateTime, Date}
use silberloeffel_catering.Orders.Repository.{OrderStore}
use silberloeffel_catering.Payments.Model.{OrderPaymentReminder, same_reminder, same_reminder_sound}
use silberloeffel_catering.Payments.Derive.{PaymentReminderView}
use silberloeffel_catering.Payments.Repository.{PaymentStore, get_reminder, save_reminder}
use silberloeffel_catering.Payments.Save.{
  Days, incoming_facts, stamped, prepared, written, open_order, save_payment,
}
use silberloeffel_catering.Payments.Save.Evidence.{mark_payment_reminder-ok, mark_mahnung-ok}
use silberloeffel_catering.Payments.Save.Stored.{Prepared, prepared-Prepared, Prepared-order}

-- The facts that a caller decides.
pub record SameFacts (a b : OrderPaymentReminder) : Type 0 where
  pub method : b.payment_method ≡ a.payment_method
  pub created : b.invoice_created ≡ a.invoice_created
  pub number : b.invoice_number ≡ a.invoice_number
  pub sent : b.sent_on ≡ a.sent_on
  pub paid : b.paid_on ≡ a.paid_on
  pub cash : b.cash_received ≡ a.cash_received
  pub quittung : b.quittung_printed ≡ a.quittung_printed

incoming-SameFacts :
    (c : Option OrderPaymentReminder) (r i : OrderPaymentReminder)
    → incoming_facts c r ≡ ok i
    → SameFacts r i
unfolding incoming_facts
incoming-SameFacts none r i h = ground arith
incoming-SameFacts (some c) r i h = ground arith

stamped-SameFacts :
    (c : Option OrderPaymentReminder) (now : DateTime) (actor : Text) (r i : OrderPaymentReminder)
    → SameFacts r i
    → SameFacts r (stamped c now actor i)
unfolding stamped
stamped-SameFacts c now actor r i f = ground arith

updated-SameFacts :
    (r b : OrderPaymentReminder) (t : Option DateTime)
    → SameFacts r b
    → SameFacts r (record b { updated_at = t })
updated-SameFacts r b t f = ground (arith, f)

reminded-SameFacts :
    (r b : OrderPaymentReminder) (t : Option DateTime) (a : Option Text)
    → SameFacts r b
    → SameFacts r (record b { payment_reminder_sent_at = t; payment_reminder_sent_by = a })
reminded-SameFacts r b t a f = ground (arith, f)

warned-SameFacts :
    (r b : OrderPaymentReminder) (t : Option DateTime) (a : Option Text)
    → SameFacts r b
    → SameFacts r (record b { mahnung_sent_at = t; mahnung_sent_by = a })
warned-SameFacts r b t a f = ground (arith, f)

module _ (local_date : DateTime → Date) (orders : OrderStore) (r : OrderPaymentReminder)
    (actor_reference : Text) (mark_payment_reminder_sent mark_mahnung_sent : Bool) (now : DateTime)
    (days : Days) where
  Prepared-SameFacts :
      (c : Option OrderPaymentReminder) (j : OrderPaymentReminder)
      → Prepared local_date orders r actor_reference mark_payment_reminder_sent mark_mahnung_sent
          now days c j
      → SameFacts r j
  Prepared-SameFacts c j p =
      let start =
        stamped-SameFacts c now p.actor r p.incoming (incoming-SameFacts c r p.incoming p.takes) in
      warn
        (elim (mark_payment_reminder-ok now p.actor mark_payment_reminder_sent days.today _
          p.reminded p.event_date p.reminds) [
            | inl same ↦ subst (SameFacts r) same start
            | inr (unset, made) ↦ subst (SameFacts r) made (reminded-SameFacts r _ _ _ start)
          ])
    where
      warn : SameFacts r p.reminded → SameFacts r j
      warn f =
          elim (mark_mahnung-ok now p.actor mark_mahnung_sent days.today p.reminded j local_date
            p.warns) [
              | inl same ↦ subst (SameFacts r) same f
              | inr (unset, made) ↦ subst (SameFacts r) made (warned-SameFacts r _ _ _ f)
            ]

  abbrev Stored : PaymentStore → Type 0
  Stored t = (b : OrderPaymentReminder) × (get_reminder t r.order_id ≡ some b) × SameFacts r b

  abbrev after : Option OrderPaymentReminder → OrderPaymentReminder → PaymentStore → PaymentStore
  after =
      written local_date orders r actor_reference mark_payment_reminder_sent mark_mahnung_sent now
        days

  saved-Stored :
      (s : PaymentStore) (j : OrderPaymentReminder) (c : Option OrderPaymentReminder)
      → Prepared local_date orders r actor_reference mark_payment_reminder_sent mark_mahnung_sent
          now days c j
      → Stored (save_reminder (record j { updated_at = some now }) s)
  unfolding get_reminder
  saved-Stored s j c p =
      let own =
        Prepared-order local_date orders r actor_reference mark_payment_reminder_sent
          mark_mahnung_sent now days c j p in
      let filed = lookup-insert_self j.order_id (record j { updated_at = some now }) s.rows in
      (
        record j { updated_at = some now },
        ground (arith, own, filed),
        updated-SameFacts r j (some now) (Prepared-SameFacts c j p),
      )

  written-Stored :
      (s : PaymentStore) (j : OrderPaymentReminder) (c : Option OrderPaymentReminder)
      → Prepared local_date orders r actor_reference mark_payment_reminder_sent mark_mahnung_sent
          now days c j
      → get_reminder s r.order_id ≡ c
      → Stored (after c j s)
  unfolding written
  written-Stored s j none p found = saved-Stored s j none p
  written-Stored s j (some c) p found =
      elim (Bool-cases (same_reminder (record j { updated_at = c.updated_at }) c)) [
        | inr other ↦ rw other (saved-Stored s j (some c) p)
        | inl same ↦ rw same (
          c,
          found,
          subst (SameFacts r) (same_reminder_sound (record j { updated_at = c.updated_at }) c same)
              (updated-SameFacts r j c.updated_at (Prepared-SameFacts (some c) j p)),
        )
      ]

  -- A returned save leaves the reminder of the order stored with the method, invoice, number, sent
  -- date, payment, cash receipt and printed receipt that the caller gave.
  pub save_payment-Stored :
      (s t : PaymentStore) (view : PaymentReminderView)
      → save_payment local_date orders r actor_reference mark_payment_reminder_sent
          mark_mahnung_sent now days s
        ≡ (ok view, t)
      → (b : OrderPaymentReminder) × (get_reminder t r.order_id ≡ some b) × SameFacts r b
  unfolding save_payment
  save_payment-Stored s t view h =
      elim (Result-cases (
        open_order local_date orders r actor_reference mark_payment_reminder_sent mark_mahnung_sent
          now days)) [
            | inr (e, g) ↦ ground (arith, g)
            | inl (u, g) ↦
                elim (Result-cases (
                  prepared local_date orders r actor_reference mark_payment_reminder_sent
                    mark_mahnung_sent now days (get_reminder s r.order_id))) [
                      | inr (e, f) ↦ ground (arith, g, f)
                      | inl (j, f) ↦
                          let same : after (get_reminder s r.order_id) j s ≡ t =
                            ground (arith, g, f) in
                          subst Stored same (
                            written-Stored s j (get_reminder s r.order_id)
                              (prepared-Prepared local_date orders r actor_reference
                                mark_payment_reminder_sent mark_mahnung_sent now days
                                (get_reminder s r.order_id) j f)
                              refl)
                    ]
          ]
