-- ===== src/Payments/Laws.antt =====
-- What saving a reminder does to the stored reminders of all orders.
use silberloeffel_catering.Common.{
  ◌≡◌, sym, ap, subst, ◌⊎◌, Bool, true, Option, some, arith, is_some, inl, inr, Bool-cases, ==→eq,
  ◌==◌, ◌∙◌,
}
use silberloeffel_catering.Common.Text.{Text}
use silberloeffel_catering.Common.Dict.{lookup, lookup-insert}
use silberloeffel_catering.Common.Results.{ok}
use silberloeffel_catering.Orders.Model.{Identifier, DateTime, Date}
use silberloeffel_catering.Orders.Repository.{OrderStore}
use silberloeffel_catering.Payments.Model.{OrderPaymentReminder}
use silberloeffel_catering.Payments.Facts.{Facts, validate_payment_reminder-Facts}
use silberloeffel_catering.Payments.Repository.{PaymentStore, get_reminder, save_reminder}
use silberloeffel_catering.Payments.Save.{Days, prepared, save_payment}
use silberloeffel_catering.Payments.Save.Evidence.{Keeps}
use silberloeffel_catering.Payments.Save.Stored.{
  IsKept, IsDue, update-IsDue, update-Facts, Prepared, prepared-Prepared, Prepared-order,
  Prepared-Keeps, Prepared-IsDue, save_payment-keeps,
}

-- Filing facts that hang together under their order keeps the store.
pub save_reminder-IsKept :
    (r : OrderPaymentReminder) (s : PaymentStore) → Facts r → IsKept s → IsKept (save_reminder r s)
save_reminder-IsKept r s f i = record {
  own_order = λ k a h.
      ground (arith, lookup-insert r.order_id k r s.rows, i.own_order k a, ==→eq r.order_id k);
  facts = λ k a h. elim (Bool-cases (r.order_id == k)) [
    | inl same ↦ subst Facts (ground (arith, lookup-insert r.order_id k r s.rows)) f
    | inr other ↦ i.facts k a (ground (arith, lookup-insert r.order_id k r s.rows))
  ];
}

-- the same facts, whatever the update time
update-Keeps :
    (a b : OrderPaymentReminder) (t : Option DateTime)
    → Keeps a b
    → Keeps a (record b { updated_at = t })
update-Keeps a b t k = ground (arith, k)

self-Keeps : (a : OrderPaymentReminder) → Keeps a a
self-Keeps a = ground arith

module _ (local_date : DateTime → Date) (orders : OrderStore) (r : OrderPaymentReminder)
    (actor_reference : Text) (mark_payment_reminder_sent mark_mahnung_sent : Bool) (now : DateTime)
    (days : Days) (s : PaymentStore) (i : IsKept s) where
  abbrev after : PaymentStore
  after =
      (save_payment local_date orders r actor_reference mark_payment_reminder_sent mark_mahnung_sent
        now days s).1

  abbrev Steps : Option OrderPaymentReminder → OrderPaymentReminder → Type 0
  Steps =
      Prepared local_date orders r actor_reference mark_payment_reminder_sent mark_mahnung_sent now
        days

  steps :
      (j : OrderPaymentReminder)
      → prepared local_date orders r actor_reference mark_payment_reminder_sent mark_mahnung_sent
          now days
          (get_reminder s r.order_id)
        ≡ ok j
      → Steps (get_reminder s r.order_id) j
  steps j =
      prepared-Prepared local_date orders r actor_reference mark_payment_reminder_sent
        mark_mahnung_sent now days (get_reminder s r.order_id) j

  -- Saving a reminder keeps each stored reminder under its own order and its facts consistent.
  pub save_payment-IsKept : IsKept after
  save_payment-IsKept =
      save_payment-keeps local_date orders r actor_reference mark_payment_reminder_sent
        mark_mahnung_sent now days IsKept s i
        (λ j h.
          let p = steps j h in
          save_reminder-IsKept _ s
            (update-Facts j (some now) (validate_payment_reminder-Facts j p.valid)) i)

  -- On kept reminders, saving a reminder, whether it returns or raises, leaves every stored
  -- reminder stored under its order with all that was recorded: the method, an invoice, its number
  -- and sent date, a payment, a cash receipt, a printed receipt, and the time of each recording.
  pub save_payment-Keeps :
      (k : Identifier) (a : OrderPaymentReminder)
      → lookup k s.rows ≡ some a
      → (b : OrderPaymentReminder) × (lookup k after.rows ≡ some b) × Keeps a b
  unfolding get_reminder
  save_payment-Keeps k a h =
      save_payment-keeps local_date orders r actor_reference mark_payment_reminder_sent
        mark_mahnung_sent now days
        (λ t. (b : OrderPaymentReminder) × (lookup k t.rows ≡ some b) × Keeps a b) s
        (a, h, self-Keeps a)
        (λ j g.
          let p = steps j g in
          let own =
            Prepared-order local_date orders r actor_reference mark_payment_reminder_sent
              mark_mahnung_sent now days (get_reminder s r.order_id) j p in
          elim (Bool-cases (j.order_id == k)) [
            | inr other ↦ (
              a,
              ground
                  (arith, lookup-insert j.order_id k (record j { updated_at = some now }) s.rows),
              self-Keeps a,
            )
            | inl same ↦
                let key = ==→eq j.order_id k same in
                let current = ap (λ x. lookup x s.rows) (sym own ∙ key) ∙ h in
                (
                  record j { updated_at = some now },
                  ground (
                    arith,
                    lookup-insert j.order_id k (record j { updated_at = some now }) s.rows,
                  ),
                  update-Keeps a j (some now) (
                      Prepared-Keeps local_date orders r actor_reference mark_payment_reminder_sent
                        mark_mahnung_sent now days a j (i.facts k a h)
                        (subst (λ c. Steps c j) current p)),
                )
          ])

  -- On kept reminders, a Mahnung that is stored after a save was stored before it, or the payment
  -- reminder is recorded, the seventh day after it is reached, the invoice is unpaid and the
  -- method is the invoice.
  pub save_payment-IsDue :
      (k : Identifier) (b : OrderPaymentReminder)
      → lookup k after.rows ≡ some b
      → is_some b.mahnung_sent_at ≡ true
      → ((a : OrderPaymentReminder) × (lookup k s.rows ≡ some a)
          × (is_some a.mahnung_sent_at ≡ true))
        ⊎ IsDue local_date days.today b
  unfolding get_reminder
  save_payment-IsDue =
      save_payment-keeps local_date orders r actor_reference mark_payment_reminder_sent
        mark_mahnung_sent now days
        (λ t.
          (k : Identifier) (b : OrderPaymentReminder)
          → lookup k t.rows ≡ some b
          → is_some b.mahnung_sent_at ≡ true
          → ((a : OrderPaymentReminder) × (lookup k s.rows ≡ some a)
              × (is_some a.mahnung_sent_at ≡ true))
            ⊎ IsDue local_date days.today b)
        s (λ k b h e. inl (b, h, e))
        (λ j g k b h e.
          let p = steps j g in
          let own =
            Prepared-order local_date orders r actor_reference mark_payment_reminder_sent
              mark_mahnung_sent now days (get_reminder s r.order_id) j p in
          let filed = lookup-insert j.order_id k (record j { updated_at = some now }) s.rows in
          elim (Bool-cases (j.order_id == k)) [
            | inr other ↦ inl (b, ground arith, e)
            | inl same ↦
                let key = ==→eq j.order_id k same in
                let stored : record j { updated_at = some now } ≡ b = ground arith in
                new-IsDue k j b (sym own ∙ key) stored e p
          ])
    where
      new-IsDue :
          (k : Identifier) (j b : OrderPaymentReminder)
          → r.order_id ≡ k
          → record j { updated_at = some now } ≡ b
          → is_some b.mahnung_sent_at ≡ true
          → Steps (get_reminder s r.order_id) j
          → ((a : OrderPaymentReminder) × (lookup k s.rows ≡ some a)
              × (is_some a.mahnung_sent_at ≡ true))
            ⊎ IsDue local_date days.today b
      new-IsDue k j b key stored e p =
          elim (Prepared-IsDue local_date orders r actor_reference mark_payment_reminder_sent
            mark_mahnung_sent now days (get_reminder s r.order_id) j p
            (subst (λ (x : OrderPaymentReminder). is_some x.mahnung_sent_at ≡ true) (sym stored)
              e)) [
                | inl (a, found, warned) ↦
                    inl (a, ap (λ x. lookup x s.rows) (sym key) ∙ found, warned)
                | inr d ↦ inr (
                    subst (IsDue local_date days.today) stored
                      (update-IsDue local_date days.today j now d))
              ]
