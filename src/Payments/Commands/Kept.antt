-- ===== src/Payments/Commands/Kept.antt =====
-- The stored reminders stay kept under the other commands of
-- src/catering_system/services/payment_reminder_service.py, and under any sequence of commands.
use silberloeffel_catering.Common.{
  ◌≡◌, refl, subst, Bool, some, List, [], ◌∷◌, arith, inl, inr, Option-cases,
}
use silberloeffel_catering.Common.Text.{Text}
use silberloeffel_catering.Common.Dict.{lookup}
use silberloeffel_catering.Common.Results.{ok, ◌>>◌, bind_ok, check_ok, Result-cases}
use silberloeffel_catering.Orders.Model.{Identifier, DateTime, Date}
use silberloeffel_catering.Orders.Repository.{OrderStore, get_order}
use silberloeffel_catering.Payments.Model.{
  PaymentMethod, OrderPaymentReminder, fresh_reminder, PaymentCompletionCorrection,
  validate_payment_reminder,
}
use silberloeffel_catering.Payments.Derive.{PaymentMethodChange}
use silberloeffel_catering.Payments.Facts.{validate_payment_reminder-Facts}
use silberloeffel_catering.Payments.Repository.{
  PaymentStore, empty_payments, get_reminder, save_reminder, save_method_change,
  save_payment_correction,
}
use silberloeffel_catering.Payments.Save.{Days, save_payment}
use silberloeffel_catering.Payments.Save.Stored.{IsKept, update-Facts}
use silberloeffel_catering.Payments.Laws.{save_reminder-IsKept, save_payment-IsKept}
use silberloeffel_catering.Payments.Commands.{
  with_payment_open, require_paid, CorrectionRequest, correction_request, recorded_correction,
  corrected_reminder, new_correction, correct_payment_completion, correct_new, correct_again,
  change_payment_method, seed_from_conversion,
}

-- The rows alone decide.
rows-IsKept : (s t : PaymentStore) → s.rows ≡ t.rows → IsKept s → IsKept t
rows-IsKept s t e i = record {
  own_order = λ k r h. i.own_order k r (ground arith);
  facts = λ k r h. i.facts k r (ground arith);
}

save_payment_correction-rows :
    (r : OrderPaymentReminder) (c : PaymentCompletionCorrection) (s t : PaymentStore)
    → save_payment_correction r c s ≡ ok t
    → (save_reminder r s).rows ≡ t.rows
unfolding save_payment_correction
save_payment_correction-rows r c s t h = ground arith

corrected_reminder-valid :
    (now : DateTime) (order_id : Identifier) (s : PaymentStore) (r : OrderPaymentReminder)
    → corrected_reminder now order_id s ≡ ok r
    → validate_payment_reminder (with_payment_open now r) ≡ ok tt
unfolding corrected_reminder
corrected_reminder-valid now order_id s r h =
    let (current, paid, checked) =
      bind_ok (require_paid (get_reminder s order_id))
        (λ c. validate_payment_reminder (with_payment_open now c) >> ok c) r h in
    let (valid, same) =
      check_ok (validate_payment_reminder (with_payment_open now current)) current r checked in
    subst
      (λ (c : OrderPaymentReminder). validate_payment_reminder (with_payment_open now c) ≡ ok tt)
      same valid

module _ (local_date : DateTime → Date) (orders : OrderStore) (now : DateTime) (days : Days)
    (order_id : Identifier) (P : PaymentStore → Type 0) (s : PaymentStore) (start : P s) where
  correct_new-keeps :
      (request : CorrectionRequest)
      → ((r : OrderPaymentReminder) (c : PaymentCompletionCorrection) (t : PaymentStore)
          → validate_payment_reminder r ≡ ok tt
          → save_payment_correction r c s ≡ ok t
          → P t)
      → P (correct_new local_date orders now days order_id request s).1
  unfolding correct_new
  correct_new-keeps request keep = elim (Result-cases (corrected_reminder now order_id s)) [
    | inr (e, g) ↦ ground (arith, g, start)
    | inl (current, g) ↦
        let correction = new_correction request order_id now current in
        elim (Result-cases (save_payment_correction (with_payment_open now current) correction s)) [
          | inr (e, h) ↦ ground (arith, g, h, start)
          | inl (t, h) ↦
              let filed =
                keep (with_payment_open now current) correction t
                  (corrected_reminder-valid now order_id s current g) h in
              ground (arith, g, h, filed)
        ]
  ]

  correct_again-keeps :
      (request : CorrectionRequest) (existing : PaymentCompletionCorrection)
      → P (correct_again local_date orders now days order_id request existing s).1
  unfolding correct_again
  correct_again-keeps request existing = grind (arith, start)

  correct_payment_completion-keeps :
      (correction_id reason actor : Text)
      → ((r : OrderPaymentReminder) (c : PaymentCompletionCorrection) (t : PaymentStore)
          → validate_payment_reminder r ≡ ok tt
          → save_payment_correction r c s ≡ ok t
          → P t)
      → P
          (correct_payment_completion local_date orders now days order_id correction_id reason actor
            s).1
  unfolding correct_payment_completion
  correct_payment_completion-keeps correction_id reason actor keep =
      elim (Option-cases (get_order orders order_id)) [
        | inl none_such ↦ rw none_such start
        | inr (order, g) ↦ elim (Result-cases (correction_request correction_id reason actor)) [
          | inr (e, f) ↦ rw (g, f) start
          | inl (request, f) ↦ elim (Option-cases (recorded_correction request order_id s)) [
            | inl new ↦ let done = correct_new-keeps request keep in ground (arith, g, f, new, done)
            | inr (existing, h) ↦
                let done = correct_again-keeps request existing in ground (arith, g, f, h, done)
          ]
        ]
      ]

  change_payment_method-keeps :
      (change_id : Identifier) (previous : Days) (method reason actor : Text)
      → ((m : PaymentMethod) (c : PaymentMethodChange)
          → validate_payment_reminder (record (fresh_reminder order_id m) { updated_at = some now })
            ≡ ok tt
          → P (
              save_method_change
                (record (fresh_reminder order_id m) { updated_at = some now })
                c
                s))
      → P
          (change_payment_method local_date orders now days order_id change_id previous method
            reason actor s).1
  unfolding change_payment_method
  change_payment_method-keeps change_id previous method reason actor keep = grind (arith, keep)

  seed_from_conversion-keeps :
      (method : Text)
      → ((m : PaymentMethod)
          → validate_payment_reminder (fresh_reminder order_id m) ≡ ok tt
          → P (save_reminder (record (fresh_reminder order_id m) { updated_at = some now }) s))
      → P (seed_from_conversion now order_id method s).1
  unfolding seed_from_conversion
  seed_from_conversion-keeps method keep = grind (arith, keep)

pub data PaymentCommand : Type 0 where
  save_command :
      (reminder : OrderPaymentReminder) (actor_reference : Text)
      (mark_payment_reminder_sent mark_mahnung_sent : Bool)
      → PaymentCommand
  correct_command :
      (order_id : Identifier) (correction_id reason actor_reference : Text) → PaymentCommand
  change_command :
      (order_id change_id : Identifier) (previous : Days)
      (new_payment_method reason actor_reference : Text)
      → PaymentCommand
  seed_command : (order_id : Identifier) (payment_method : Text) → PaymentCommand

-- A command with the orders and the readings of the clock that it meets.
pub record Occasion : Type 0 where
  pub command : PaymentCommand
  pub orders : OrderStore
  pub now : DateTime
  pub days : Days

-- the store after a command, whether it returned or raised
unfoldable pub execute :
    (DateTime → Date) → OrderStore → DateTime → Days → PaymentCommand → PaymentStore → PaymentStore
unfolding save_payment correct_payment_completion change_payment_method seed_from_conversion
execute local_date orders now days (save_command r actor m n) s =
    (save_payment local_date orders r actor m n now days s).1
execute local_date orders now days (correct_command order_id id reason actor) s =
    (correct_payment_completion local_date orders now days order_id id reason actor s).1
execute local_date orders now days (change_command order_id id previous method reason actor) s =
    (change_payment_method local_date orders now days order_id id previous method reason actor s).1
execute local_date orders now days (seed_command order_id method) s =
    (seed_from_conversion now order_id method s).1

unfoldable pub execute_all : (DateTime → Date) → List Occasion → PaymentStore → PaymentStore
unfolding execute
execute_all local_date [] s = s
execute_all local_date (o ∷ os) s =
    execute_all local_date os (execute local_date o.orders o.now o.days o.command s)

module _ (local_date : DateTime → Date) where
  execute-IsKept :
      (orders : OrderStore) (now : DateTime) (days : Days) (c : PaymentCommand) (s : PaymentStore)
      → IsKept s
      → IsKept (execute local_date orders now days c s)
  unfolding execute save_method_change
  execute-IsKept orders now days (save_command r actor m n) s i =
      save_payment-IsKept local_date orders r actor m n now days s i
  execute-IsKept orders now days (correct_command order_id id reason actor) s i =
      correct_payment_completion-keeps local_date orders now days order_id IsKept s i id reason
        actor
        (λ r c t valid h.
          rows-IsKept (save_reminder r s) t (save_payment_correction-rows r c s t h)
            (save_reminder-IsKept r s (validate_payment_reminder-Facts r valid) i))
  execute-IsKept orders now days (change_command order_id id previous method reason actor) s i =
      change_payment_method-keeps local_date orders now days order_id IsKept s i id previous method
        reason actor
        (λ m c valid.
          rows-IsKept
            (save_reminder (record (fresh_reminder order_id m) { updated_at = some now }) s) _ refl
            (save_reminder-IsKept _ s (validate_payment_reminder-Facts _ valid) i))
  execute-IsKept orders now days (seed_command order_id method) s i =
      seed_from_conversion-keeps local_date orders now days order_id IsKept s i method (λ m valid.
        save_reminder-IsKept _ s
          (update-Facts (fresh_reminder order_id m) (some now)
            (validate_payment_reminder-Facts _ valid))
          i)

  steps-IsKept :
      (os : List Occasion) (s : PaymentStore) → IsKept s → IsKept (execute_all local_date os s)
  unfolding execute_all
  steps-IsKept [] s i = i
  steps-IsKept (o ∷ os) s i = steps-IsKept os _ (execute-IsKept o.orders o.now o.days o.command s i)

  -- Starting from the empty store, any list of payment commands, raising or not, leaves each
  -- reminder filed under its own order with facts that hang together: a recorded time has its
  -- fact, an invoice has a number, a Mahnung follows a payment reminder for a sent invoice, and a
  -- cash payment is received exactly when it is paid.
  pub execute_all-IsKept : (os : List Occasion) → IsKept (execute_all local_date os empty_payments)
  unfolding lookup
  execute_all-IsKept os =
      steps-IsKept os empty_payments
        (record { own_order = λ k r h. ground arith; facts = λ k r h. ground arith })
