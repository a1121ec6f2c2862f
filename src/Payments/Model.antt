-- ===== src/Payments/Model.antt =====
-- src/catering_system/domain/order_payment_reminder.py: the facts of a payment reminder, and their
-- validation.
use native.Mathlib.Decide.{ℕ_discrete}
use silberloeffel_catering.Common.{
  ℕ, ◌≡◌, Bool, true, false, not, ◌&&◌, ◌||◌, Option, none, some, ltb, bool_ne, is_some, is_none,
  dec_bool, dec_bool-true, ◌==◌, if◌then◌else◌,
}
use silberloeffel_catering.Common.Lists.{length}
use silberloeffel_catering.Common.Text.{Text, codes, text_eq, strip}
use silberloeffel_catering.Common.Results.{
  Result, ok, err, value_error, raise_if, ◌>>◌, invalid_payment_method, order_id_required,
  invoice_number_invalid, audit_apart, audit_actor, creation_audit_without_invoice,
  sent_audit_without_date, payment_audit_without_date, cash_with_invoice_facts, cash_receipt_apart,
  quittung_audit_without_print, invoice_with_quittung, invoice_with_cash,
  invoice_facts_without_invoice, number_required, reminder_without_invoice, mahnung_not_rechnung,
  mahnung_without_reminder,
}
use silberloeffel_catering.Orders.Model.{Identifier, DateTime, Date}

pub data PaymentMethod : Type 0 where
  vorkasse rechnung bar_vor_ort : PaymentMethod

unfoldable pub validate_payment_method : Text → Result PaymentMethod
unfolding text_eq
validate_payment_method value =
    if text_eq value (codes "VORKASSE")
    then ok vorkasse
    else if text_eq value (codes "RECHNUNG")
    then ok rechnung
    else if text_eq value (codes "BAR_VOR_ORT")
    then ok bar_vor_ort
    else err (value_error invalid_payment_method)

abbrev pub is_cash : PaymentMethod → Bool
is_cash bar_vor_ort = true
is_cash vorkasse = false
is_cash rechnung = false

abbrev pub is_rechnung : PaymentMethod → Bool
is_rechnung rechnung = true
is_rechnung vorkasse = false
is_rechnung bar_vor_ort = false

abbrev pub is_vorkasse : PaymentMethod → Bool
is_vorkasse vorkasse = true
is_vorkasse rechnung = false
is_vorkasse bar_vor_ort = false

abbrev pub same_method : PaymentMethod → PaymentMethod → Bool
same_method vorkasse m = is_vorkasse m
same_method rechnung m = is_rechnung m
same_method bar_vor_ort m = is_cash m

pub record OrderPaymentReminder : Type 0 where
  pub order_id : Identifier
  pub payment_method : PaymentMethod
  pub invoice_created : Bool
  pub invoice_number : Option Text
  pub sent_on : Option Date
  pub due_on : Option Date
  pub paid_on : Option Date
  pub cash_received : Bool
  pub quittung_printed : Bool
  pub updated_at : Option DateTime
  pub invoice_created_at : Option DateTime
  pub invoice_created_by : Option Text
  pub invoice_sent_recorded_at : Option DateTime
  pub invoice_sent_recorded_by : Option Text
  pub payment_reminder_sent_at : Option DateTime
  pub payment_reminder_sent_by : Option Text
  pub mahnung_sent_at : Option DateTime
  pub mahnung_sent_by : Option Text
  pub quittung_printed_at : Option DateTime
  pub quittung_printed_by : Option Text
  pub paid_recorded_at : Option DateTime
  pub paid_recorded_by : Option Text

-- `OrderPaymentReminder(order_id=..., payment_method=...)`
abbrev pub fresh_reminder : Identifier → PaymentMethod → OrderPaymentReminder
fresh_reminder order_id payment_method = record {
  order_id = order_id;
  payment_method = payment_method;
  invoice_created = false;
  invoice_number = none;
  sent_on = none;
  due_on = none;
  paid_on = none;
  cash_received = false;
  quittung_printed = false;
  updated_at = none;
  invoice_created_at = none;
  invoice_created_by = none;
  invoice_sent_recorded_at = none;
  invoice_sent_recorded_by = none;
  payment_reminder_sent_at = none;
  payment_reminder_sent_by = none;
  mahnung_sent_at = none;
  mahnung_sent_by = none;
  quittung_printed_at = none;
  quittung_printed_by = none;
  paid_recorded_at = none;
  paid_recorded_by = none;
}

pub record PaymentCompletionCorrection : Type 0 where
  pub correction_id : Text
  pub order_id : Identifier
  pub reason : Text
  pub actor_reference : Text
  pub corrected_at : DateTime
  pub previous_reminder : OrderPaymentReminder

-- `not text.strip() or len(text) > limit`
unfoldable pub blank_or_long : Text → ℕ → Bool
unfolding strip
blank_or_long text limit = length (strip text) == 0 || ltb limit (length text)

abbrev pub bad_text : Option Text → ℕ → Bool
bad_text none limit = false
bad_text (some text) limit = blank_or_long text limit

unfoldable pub validate_audit_pair : Option DateTime → Option Text → Result (Unit {0})
validate_audit_pair timestamp actor = do
  raise_if (bool_ne (is_none timestamp) (is_none actor)) audit_apart
  raise_if (bad_text actor 200) audit_actor

-- the loop over the pairs
unfoldable pub validate_audits : OrderPaymentReminder → Result (Unit {0})
validate_audits r = do
  validate_audit_pair r.invoice_created_at r.invoice_created_by
  validate_audit_pair r.invoice_sent_recorded_at r.invoice_sent_recorded_by
  validate_audit_pair r.payment_reminder_sent_at r.payment_reminder_sent_by
  validate_audit_pair r.mahnung_sent_at r.mahnung_sent_by
  validate_audit_pair r.quittung_printed_at r.quittung_printed_by
  validate_audit_pair r.paid_recorded_at r.paid_recorded_by

-- the facts that a cash payment cannot carry
abbrev pub carries_invoice : OrderPaymentReminder → Bool
carries_invoice r =
    r.invoice_created
    || is_some r.invoice_number
    || is_some r.sent_on
    || is_some r.due_on
    || is_some r.invoice_created_at
    || is_some r.invoice_sent_recorded_at
    || is_some r.payment_reminder_sent_at
    || is_some r.mahnung_sent_at

-- the branch of a cash payment
unfoldable pub validate_cash : OrderPaymentReminder → Result (Unit {0})
validate_cash r = do
  raise_if (carries_invoice r) cash_with_invoice_facts
  raise_if (bool_ne r.cash_received (is_some r.paid_on)) cash_receipt_apart
  raise_if (is_some r.quittung_printed_at && not r.quittung_printed) quittung_audit_without_print

abbrev pub invoice_facts : OrderPaymentReminder → Bool
invoice_facts r =
    is_some r.invoice_number
    || is_some r.sent_on
    || is_some r.due_on
    || is_some r.paid_on
    || is_some r.invoice_created_at
    || is_some r.invoice_sent_recorded_at
    || is_some r.payment_reminder_sent_at
    || is_some r.mahnung_sent_at

-- the branch of a payment by invoice
unfoldable pub validate_invoice : OrderPaymentReminder → Result (Unit {0})
validate_invoice r = do
  raise_if (r.quittung_printed || is_some r.quittung_printed_at) invoice_with_quittung
  raise_if r.cash_received invoice_with_cash
  raise_if (not r.invoice_created && invoice_facts r) invoice_facts_without_invoice
  raise_if (r.invoice_created && is_none r.invoice_number) number_required
  raise_if (is_some r.payment_reminder_sent_at && is_none r.sent_on) reminder_without_invoice
  raise_if (is_some r.mahnung_sent_at && not (is_rechnung r.payment_method)) mahnung_not_rechnung
  raise_if (is_some r.mahnung_sent_at && is_none r.payment_reminder_sent_at)
      mahnung_without_reminder

-- the checks that follow those of the pairs
unfoldable pub validate_recorded : OrderPaymentReminder → Result (Unit {0})
unfolding validate_cash validate_invoice
validate_recorded r = do
  raise_if (is_some r.invoice_created_at && not r.invoice_created) creation_audit_without_invoice
  raise_if (is_some r.invoice_sent_recorded_at && is_none r.sent_on) sent_audit_without_date
  raise_if (is_some r.paid_recorded_at && is_none r.paid_on) payment_audit_without_date
  if is_cash r.payment_method then validate_cash r else validate_invoice r

-- The payment method is one of the three here, so its own validation passes.
unfoldable pub validate_payment_reminder : OrderPaymentReminder → Result (Unit {0})
unfolding validate_audits validate_recorded
validate_payment_reminder r = do
  raise_if (r.order_id == 0) order_id_required
  raise_if (bad_text r.invoice_number 200) invoice_number_invalid
  validate_audits r
  validate_recorded r

-- `bool(text)` of an optional text
abbrev truthy : Option Text → Bool
truthy none = false
truthy (some text) = not (length text == 0)

unfoldable pub has_downstream_payment_facts : OrderPaymentReminder → Bool
has_downstream_payment_facts r =
    r.invoice_created
    || truthy r.invoice_number
    || is_some r.sent_on
    || is_some r.due_on
    || is_some r.paid_on
    || r.cash_received
    || r.quittung_printed
    || is_some r.invoice_created_at
    || is_some r.invoice_sent_recorded_at
    || is_some r.payment_reminder_sent_at
    || is_some r.mahnung_sent_at
    || is_some r.quittung_printed_at
    || is_some r.paid_recorded_at

unfoldable pub Reminder-discrete : Discrete OrderPaymentReminder
Reminder-discrete = hlevel ℕ_discrete

-- `a == b` of the dataclass
unfoldable pub same_reminder : OrderPaymentReminder → OrderPaymentReminder → Bool
unfolding Reminder-discrete
same_reminder a b = dec_bool (Reminder-discrete a b)

pub same_reminder_sound : (a b : OrderPaymentReminder) → same_reminder a b ≡ true → a ≡ b
unfolding same_reminder
same_reminder_sound a b h = dec_bool-true (Reminder-discrete a b) h

unfoldable pub Correction-discrete : Discrete PaymentCompletionCorrection
Correction-discrete = hlevel ℕ_discrete

unfoldable pub same_correction : PaymentCompletionCorrection → PaymentCompletionCorrection → Bool
unfolding Correction-discrete
same_correction a b = dec_bool (Correction-discrete a b)
