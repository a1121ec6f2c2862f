-- ===== src/Common/Results.antt =====
-- Exceptions as values, and methods that change an object and may raise. What was written before a
-- raise stays written, so the state comes back beside the exception too.
use Prim.Native.Nat.{ℕ}
use mathlib.Core.Path.{◌≡◌, refl}
use mathlib.Core.Logic.{◌⊎◌, inl, inr}
use mathlib.Core.Bool.{Bool, true, false}
use mathlib.Core.Option.{Option, none, some}
use native.Mathlib.Omega.{arith}

-- The messages of the `ValueError`s, without the values that they quote.
pub data Message : Type 0 where
  -- orders
  initial_version_must_be_v1 inquiry_already_linked version_not_of_order : Message
  version_number_exists snapshot_immutable confirmation_immutable reference_not_owned : Message
  context_owner_invalid window_requires_all window_requires_both window_reversed : Message
  invalid_planning_mode no_order order_cancelled no_source_version : Message
  effective_not_resolvable operational_context_missing accepted_offer_required : Message
  missing_initial_version acceptance_required acceptance_other_offer : Message
  acceptance_other_version acceptance_other_variant : Message
  -- operational core
  switch_not_candidate switch_not_confirmed : Message
  invalid_pause_reason invalid_resume_reason already_paused not_paused stale_pause_state : Message
  pause_field_required pause_field_too_long paused_must_not_resume resumed_must_reference : Message
  pause_command_exists : Message
  -- kitchen print
  empty_identifier not_uuid4 attempt_not_positive accept_deadline_not_after : Message
  acceptance_facts_apart accepted_before_request ack_deadline_not_after : Message
  rejection_facts_apart unsupported_rejection_code rejected_before_request : Message
  rejected_before_accepted ack_without_acceptance ack_before_accepted ack_conflicts : Message
  superseded_before_request supersession_conflicts : Message
  job_field_immutable job_fact_not_revocable stale_previous_job reprint_wrong_reference : Message
  confirmation_requires_ack confirmed_version_foreign confirmation_timestamps : Message
  confirmation_not_revocable activated_foreign activated_wrong_version : Message
  ownership_invalid first_attempt_not_1 chain_invalid attempt_exists live_job_exists : Message
  id_exists_with_other_facts attempts_exist no_print_job cannot_accept acceptance_late : Message
  other_rejection_fact cannot_reject not_accepted cannot_acknowledge acknowledgment_late : Message
  not_latest_attempt timeout_not_positive : Message
  -- payment reminders
  invalid_payment_method order_id_required invoice_number_invalid audit_apart audit_actor : Message
  creation_audit_without_invoice sent_audit_without_date payment_audit_without_date : Message
  cash_with_invoice_facts cash_receipt_apart quittung_audit_without_print : Message
  invoice_with_quittung invoice_with_cash invoice_facts_without_invoice : Message
  number_required reminder_without_invoice mahnung_not_rechnung mahnung_without_reminder : Message
  no_event_date no_fulfilment_date actor_invalid invoice_cleared number_changed : Message
  sent_changed payment_changed cash_cleared quittung_cleared cancelled_reminder : Message
  method_change_explicit reminder_refused reminder_not_due mahnung_refused mahnung_not_due : Message
  correction_id_required correction_reason_invalid correction_conflict nothing_paid : Message
  cancelled_method_change method_missing method_same change_reason_invalid method_after_payment
        seed_conflict :
      Message
  -- courier cash
  idempotency_conflict invalid_transition stale_order_revision stale_cash_context : Message
  not_a_uuid not_a_text not_a_time invalid_json invalid_field_set unsupported_contract_version :
      Message
  invalid_event_type role_not_allowed structured_reason_required other_requires_note : Message
  note_only_for_other not_received_as_correction correction_with_fields : Message
  cash_correction_reason_required fields_must_be_null : Message
  -- manual tasks
  invalid_subject_type invalid_priority title_empty title_too_long description_too_long : Message
  not_a_uuid4 subject_id_must_be_null subject_id_required employee_id_empty : Message
  completed_before_created completion_rewritten no_such_employee no_such_subject : Message
  no_subject_task_list : Message
  -- offers
  unknown_offer_version text_required offer_without_version version_ids_not_unique : Message
  version_of_other_offer version_before_offer numbers_not_contiguous snapshots_not_unique : Message
  evidence_not_unique evidence_of_other_offer evidence_of_unknown_version : Message
  rejected_and_withdrawn rejected_unsent sent_before_version rejected_before_sent : Message
  withdrawn_too_early acceptance_of_other_offer acceptance_of_unknown_version : Message
  accepted_unsent accepted_before_sent accepted_closed accepted_foreign_variant : Message
  accepted_superseded accepted_expired prepared_after_acceptance : Message
  conversion_without_acceptance conversion_of_other_offer conversion_mismatch : Message
  conversion_before_acceptance version_not_next snapshot_exists acceptance_exists : Message
  conversion_exists : Message

pub data Error : Type 0 where
  value_error command_error : Message → Error
  key_error : ℕ → Error
  assertion_error overflow_error integrity_error type_error : Error

infixl 5 ◌>>=◌ ◌>>◌
-- What a call that may raise comes back with.
pub data Result {ℓ} (Value : Type ℓ) : Type ℓ where
  err : Error → Result Value
  ok : Value → Result Value

-- The exception of the first call, or the second call on its value.
abbrev pub ◌>>=◌ {ℓ κ} : {V : Type ℓ} {W : Type κ} → Result V → (V → Result W) → Result W
(err raised) >>= next = err raised
(ok value) >>= next = next value

abbrev pub ◌>>◌ {ℓ} : {W : Type ℓ} → Result (Unit {0}) → Result W → Result W
check >> next = check >>= λ _. next

-- `if test: raise ValueError(message)`
abbrev pub raise_if : Bool → Message → Result (Unit {0})
raise_if true m = err (value_error m)
raise_if false m = ok tt

-- `if test: raise KeyError(key)`
abbrev pub key_error_if : Bool → ℕ → Result (Unit {0})
key_error_if true k = err (key_error k)
key_error_if false k = ok tt

-- a value that was looked up, or the exception if it is `None`
abbrev pub or_raise {ℓ} : {A : Type ℓ} → Option A → Error → Result A
or_raise none e = err e
or_raise (some a) e = ok a

-- Whether a call returned.
abbrev pub is_ok {ℓ} : {A : Type ℓ} → Result A → Bool
is_ok (ok _) = true
is_ok (err _) = false

-- To split on a call and keep the equation.
pub Result-cases {ℓ} :
    {A : Type ℓ} (r : Result A) → ((a : A) × (r ≡ ok a)) ⊎ ((e : Error) × (r ≡ err e))
Result-cases (ok a) = inl (a, refl)
Result-cases (err e) = inr (e, refl)

-- A sequence that returned ran its first call to a value, and its second on it.
pub bind_ok {ℓ κ} :
    {V : Type ℓ} {W : Type κ} (r : Result V) (next : V → Result W) (w : W)
    → (r >>= next) ≡ ok w
    → (v : V) × (r ≡ ok v) × (next v ≡ ok w)
bind_ok (ok v) next w h = (v, refl, h)
bind_ok (err e) next w h = ground arith

pub check_ok {ℓ} :
    {W : Type ℓ} (check : Result (Unit {0})) (v w : W)
    → (check >> ok v) ≡ ok w
    → (check ≡ ok tt) × (v ≡ w)
check_ok (ok tt) v w h = (refl, ground arith)
check_ok (err e) v w h = ground arith
