-- ===== src/Payments/Commands.antt =====
-- src/catering_system/services/payment_reminder_service.py: correcting a recorded payment, changing
-- the payment method, and the method that a conversion chooses.
pub mod Kept
pub mod Correction
use silberloeffel_catering.Common.{
  ℕ, Bool, true, false, not, ◌&&◌, ◌||◌, Option, none, some, List, [], ◌∷◌, ltb, is_some, ◌==◌,
  if◌then◌else◌,
}
use silberloeffel_catering.Common.Lists.{length, find}
use silberloeffel_catering.Common.Text.{Text, text_eq, strip}
use silberloeffel_catering.Common.Results
use silberloeffel_catering.Common.Results.{
  Result, ok, err, value_error, key_error, raise_if, or_raise, Message, correction_id_required,
  correction_reason_invalid, correction_conflict, nothing_paid, cancelled_method_change,
  method_missing, method_same, change_reason_invalid, method_after_payment, seed_conflict,
}
use silberloeffel_catering.Common.Exec.{Exec, lift, gets, ◌>>=◌, ◌>>◌}
use silberloeffel_catering.Orders.Model.{Identifier, DateTime, Date, Order}
use silberloeffel_catering.Orders.Repository.{OrderStore, get_order}
use silberloeffel_catering.Payments.Model.{
  PaymentMethod, validate_payment_method, same_method, OrderPaymentReminder, fresh_reminder,
  PaymentCompletionCorrection, validate_payment_reminder,
}
use silberloeffel_catering.Payments.Derive.{PaymentReminderView, PaymentMethodChange}
use silberloeffel_catering.Payments.Repository.{
  PaymentStore, get_reminder, save_reminder, save_method_change, list_payment_corrections,
  save_payment_correction,
}
use silberloeffel_catering.Payments.View.{view_payment}
use silberloeffel_catering.Payments.Save.{Days, actor_of}

-- A stripped text that is not empty and not too long.
unfoldable pub clean_text : ℕ → Message → Text → Result Text
unfolding strip
clean_text limit message value =
    Results.◌>>◌ (raise_if (length (strip value) == 0 || ltb limit (length (strip value))) message)
      (ok (strip value))

-- a call of a method of the payment repository
abbrev pub on_payments : (PaymentStore → Result PaymentStore) → Exec PaymentStore (Unit {0})
on_payments call s = elim (call s) [ ok s' ↦ (ok tt, s') | err e ↦ (err e, s) ]

-- the guard on a stored reminder
abbrev pub require_paid : Option OrderPaymentReminder → Result OrderPaymentReminder
require_paid none = err (value_error nothing_paid)
require_paid (some current) =
    if is_some current.paid_on || current.cash_received
    then ok current
    else err (value_error nothing_paid)

abbrev pub with_payment_open : DateTime → OrderPaymentReminder → OrderPaymentReminder
with_payment_open now current = record current {
  paid_on = none;
  cash_received = false;
  paid_recorded_at = none;
  paid_recorded_by = none;
  updated_at = some now;
}

-- The parts of a correction that the caller names.
pub record CorrectionRequest : Type 0 where
  pub clean_id : Text
  pub clean_reason : Text
  pub actor : Text

unfoldable pub correction_request : Text → Text → Text → Result CorrectionRequest
unfolding clean_text actor_of
correction_request correction_id reason actor_reference =
    Results.◌>>=◌ (clean_text 200 correction_id_required correction_id) λ clean_id.
      Results.◌>>=◌ (clean_text 500 correction_reason_invalid reason) λ clean_reason.
        Results.◌>>=◌ (actor_of actor_reference)
          λ actor. ok (record { clean_id = clean_id; clean_reason = clean_reason; actor = actor })

-- the loop over the corrections of the order
unfoldable pub recorded_correction :
    CorrectionRequest → Identifier → PaymentStore → Option PaymentCompletionCorrection
unfolding list_payment_corrections text_eq
recorded_correction request order_id s =
    find (λ (e : PaymentCompletionCorrection). text_eq e.correction_id request.clean_id)
      (list_payment_corrections s order_id)

-- the stored reminder, with the check on what will replace it
unfoldable pub corrected_reminder :
    DateTime → Identifier → PaymentStore → Result OrderPaymentReminder
unfolding get_reminder validate_payment_reminder
corrected_reminder now order_id s =
    Results.◌>>=◌ (require_paid (get_reminder s order_id)) λ current.
      Results.◌>>◌ (validate_payment_reminder (with_payment_open now current)) (ok current)

abbrev pub new_correction :
    CorrectionRequest → Identifier → DateTime → OrderPaymentReminder → PaymentCompletionCorrection
new_correction request order_id now current = record {
  correction_id = request.clean_id;
  order_id = order_id;
  reason = request.clean_reason;
  actor_reference = request.actor;
  corrected_at = now;
  previous_reminder = current;
}

module _ (local_date : DateTime → Date) (orders : OrderStore) (now : DateTime) (days : Days)
    (order_id : Identifier) where
  -- `return self.view(order_id)`
  abbrev pub return_view : Exec PaymentStore PaymentReminderView
  return_view s = (view_payment local_date order_id days.view_today days.view_later orders s, s)

  -- what follows when no correction has the identifier
  unfoldable pub correct_new : CorrectionRequest → Exec PaymentStore PaymentReminderView
  unfolding corrected_reminder save_payment_correction
  correct_new request = do
    current ← λ s. (corrected_reminder now order_id s, s)
    on_payments (
        save_payment_correction (with_payment_open now current)
          (new_correction request order_id now current))
    return_view

  -- the same correction again
  unfoldable pub correct_again :
      CorrectionRequest → PaymentCompletionCorrection → Exec PaymentStore PaymentReminderView
  unfolding text_eq
  correct_again request existing = do
    lift (
        raise_if
          (not (text_eq existing.reason request.clean_reason)
            || not (text_eq existing.actor_reference request.actor))
          correction_conflict)
    return_view

  unfoldable pub correct_payment_completion :
      (correction_id reason actor_reference : Text) → Exec PaymentStore PaymentReminderView
  unfolding get_order correction_request recorded_correction correct_new correct_again
  correct_payment_completion correction_id reason actor_reference = do
    _ ← lift (or_raise (get_order orders order_id) (key_error order_id))
    request ← lift (correction_request correction_id reason actor_reference)
    recorded ← gets (λ s. recorded_correction request order_id s)
    elim recorded [ some existing ↦ correct_again request existing | none ↦ correct_new request ]

  -- the checks of a change of the method
  unfoldable pub method_change_allowed :
      Text → Text → Text → OrderPaymentReminder → Result (PaymentMethod × (Text × Text))
  unfolding validate_payment_method clean_text actor_of
  method_change_allowed new_payment_method reason actor_reference current =
      Results.◌>>=◌ (validate_payment_method new_payment_method) λ new_method.
        Results.◌>>◌ (raise_if (same_method new_method current.payment_method) method_same) (
          Results.◌>>=◌ (clean_text 500 change_reason_invalid reason) λ clean_reason.
            Results.◌>>=◌ (actor_of actor_reference) λ actor.
              Results.◌>>◌
                (raise_if
                  (is_some current.paid_on
                    || current.cash_received
                    || is_some current.paid_recorded_at)
                  method_after_payment)
                (ok (new_method, (clean_reason, actor))))

  -- `previous` is the reading of the days for the view before the change.
  unfoldable pub change_payment_method :
      (change_id : Identifier) (previous : Days) (new_payment_method reason actor_reference : Text)
      → Exec PaymentStore PaymentReminderView
  unfolding get_order get_reminder method_change_allowed view_payment validate_payment_reminder
      save_method_change
  change_payment_method change_id previous new_payment_method reason actor_reference = do
    order ← lift (or_raise (get_order orders order_id) (key_error order_id))
    lift (raise_if (is_some order.cancelled_at) cancelled_method_change)
    current ← λ s. (or_raise (get_reminder s order_id) (value_error method_missing), s)
    allowed ← lift (method_change_allowed new_payment_method reason actor_reference current)
    previous_view ←
        λ s. (view_payment local_date order_id previous.view_today previous.view_later orders s, s)
    let replacement = record (fresh_reminder order_id allowed.0) { updated_at = some now }
    lift (validate_payment_reminder replacement)
    on_payments (λ s. ok (
        save_method_change replacement
          (record {
            change_id = change_id;
            order_id = order_id;
            from_method = current.payment_method;
            to_method = allowed.0;
            reason = allowed.1.0;
            actor_reference = allowed.1.1;
            changed_at = now;
            retired_task_title = previous_view.next_step;
            previous_reminder = current;
          })
          s))
    return_view

-- `seed_from_conversion`
unfoldable pub seed_from_conversion :
    (now : DateTime) (order_id : Identifier) (payment_method : Text) → Exec PaymentStore (Unit {0})
unfolding validate_payment_method get_reminder validate_payment_reminder
seed_from_conversion now order_id payment_method = do
  method ← lift (validate_payment_method payment_method)
  current ← gets (λ s. get_reminder s order_id)
  elim current [
    | some c ↦ lift (raise_if (not (same_method c.payment_method method)) seed_conflict)
    | none ↦ do
      lift (validate_payment_reminder (fresh_reminder order_id method))
      on_payments (λ s.
          ok (save_reminder (record (fresh_reminder order_id method) { updated_at = some now }) s))
  ]
