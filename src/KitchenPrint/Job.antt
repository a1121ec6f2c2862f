-- ===== src/KitchenPrint/Job.antt =====
-- src/catering_system/domain/kitchen_print_job.py: one print attempt, the validation of its facts,
-- the legal transitions and the derived state.
pub mod Lifecycle
use native.Mathlib.Decide.{ℕ_discrete}
use silberloeffel_catering.Common.{
  ℕ, ◌≡◌, refl, Bool, true, false, not, ◌&&◌, ◌||◌, Option, none, some, List, [], ◌∷◌, leb, ltb,
  opt_eq, bool_ne, is_some, is_none, ◌==◌, if◌then◌else◌, dec_bool, dec_bool-true, dec_bool_self,
}
use silberloeffel_catering.Common.Lists.{any}
use silberloeffel_catering.Common.Text.{Text, codes, text_eq}
use silberloeffel_catering.Common.Results.{
  Result, ok, assertion_error, err, raise_if, ◌>>=◌, ◌>>◌, empty_identifier, not_uuid4,
  attempt_not_positive, accept_deadline_not_after, acceptance_facts_apart, accepted_before_request,
  ack_deadline_not_after, rejection_facts_apart, unsupported_rejection_code,
  rejected_before_request, rejected_before_accepted, ack_without_acceptance, ack_before_accepted,
  ack_conflicts, superseded_before_request, supersession_conflicts, job_field_immutable,
  job_fact_not_revocable, timeout_not_positive,
}
use silberloeffel_catering.Orders.Model.{Identifier, DateTime}

unfoldable pub kitchen_print_rejection_codes : List Text
kitchen_print_rejection_codes =
    codes "render_failed"
    ∷ codes "spool_rejected"
    ∷ codes "printer_unavailable"
    ∷ codes "invalid_printer_configuration"
    ∷ codes "order_cancelled"
    ∷ []

-- `code in KITCHEN_PRINT_REJECTION_CODES`
unfoldable pub is_rejection_code : Text → Bool
unfolding kitchen_print_rejection_codes text_eq
is_rejection_code code = any (text_eq code) kitchen_print_rejection_codes

pub data JobState : Type 0 where
  cancelled confirmed rejected superseded : JobState
  ack_overdue awaiting_ack acceptance_overdue awaiting_acceptance : JobState

-- Durations in microseconds.
pub record KitchenPrintPolicy : Type 0 where
  pub acceptance_timeout : ℕ
  pub acknowledgment_timeout : ℕ

-- `KitchenPrintPolicy(...)`
unfoldable pub new_policy : KitchenPrintPolicy → Result KitchenPrintPolicy
new_policy p = do
  raise_if (leb p.acceptance_timeout 0) timeout_not_positive
  raise_if (leb p.acknowledgment_timeout 0) timeout_not_positive
  ok p

pub record KitchenPrintJob : Type 0 where
  pub print_job_id : Identifier
  pub order_id : Identifier
  pub order_version_id : Identifier
  pub attempt_number : ℕ
  pub requested_at : DateTime
  pub accept_deadline_at : DateTime
  pub accepted_at : Option DateTime
  pub ack_deadline_at : Option DateTime
  pub rejected_at : Option DateTime
  pub rejection_code : Option Text
  pub acknowledged_at : Option DateTime
  pub superseded_at : Option DateTime
  pub supersedes_print_job_id : Option Identifier

-- `a < b` where both are there; the code compares only then
abbrev pub earlier : Option DateTime → Option DateTime → Bool
earlier (some a) (some b) = ltb a b
earlier _ _ = false

-- `a <= b` where both are there
abbrev pub no_later : Option DateTime → Option DateTime → Bool
no_later (some a) (some b) = leb a b
no_later _ _ = false

abbrev pub unsupported : Option Text → Bool
unsupported none = false
unsupported (some code) = not (is_rejection_code code)

abbrev pub malformed : (Identifier → Bool) → Option Identifier → Bool
malformed is_uuid4 none = false
malformed is_uuid4 (some i) = not (is_uuid4 i)

-- the tests of `__post_init__` on the acceptance
unfoldable pub check_acceptance : KitchenPrintJob → Result (Unit {0})
check_acceptance j = do
  raise_if (bool_ne (is_none j.accepted_at) (is_none j.ack_deadline_at)) acceptance_facts_apart
  raise_if (earlier j.accepted_at (some j.requested_at)) accepted_before_request
  raise_if (no_later j.ack_deadline_at j.accepted_at) ack_deadline_not_after

-- on the rejection
unfoldable pub check_rejection : KitchenPrintJob → Result (Unit {0})
check_rejection j = do
  raise_if (bool_ne (is_none j.rejected_at) (is_none j.rejection_code)) rejection_facts_apart
  raise_if (unsupported j.rejection_code) unsupported_rejection_code
  raise_if (earlier j.rejected_at (some j.requested_at)) rejected_before_request
  raise_if (earlier j.rejected_at j.accepted_at) rejected_before_accepted

-- on the acknowledgement
unfoldable pub check_acknowledgement : KitchenPrintJob → Result (Unit {0})
check_acknowledgement j = do
  raise_if (is_some j.acknowledged_at && is_none j.accepted_at) ack_without_acceptance
  raise_if (earlier j.acknowledged_at j.accepted_at) ack_before_accepted
  raise_if (is_some j.acknowledged_at && (is_some j.rejected_at || is_some j.superseded_at))
      ack_conflicts

-- and on the supersession
unfoldable pub check_supersession : KitchenPrintJob → Result (Unit {0})
check_supersession j = do
  raise_if (earlier j.superseded_at (some j.requested_at)) superseded_before_request
  raise_if (is_some j.superseded_at && (is_some j.rejected_at || is_some j.acknowledged_at))
      supersession_conflicts

-- `KitchenPrintJob(...)` and `replace(job, ...)`: the value, if `__post_init__` accepts it. Whether a
-- text is a canonical UUID4 is for the library to say; every instant here is UTC.
unfoldable pub new_job : (Identifier → Bool) → KitchenPrintJob → Result KitchenPrintJob
unfolding check_acceptance check_rejection check_acknowledgement check_supersession
new_job is_uuid4 j = do
  raise_if (j.print_job_id == 0 || j.order_id == 0 || j.order_version_id == 0) empty_identifier
  raise_if (not (is_uuid4 j.print_job_id)) not_uuid4
  raise_if (malformed is_uuid4 j.supersedes_print_job_id) not_uuid4
  raise_if (ltb j.attempt_number 1) attempt_not_positive
  raise_if (leb j.accept_deadline_at j.requested_at) accept_deadline_not_after
  check_acceptance j
  check_rejection j
  check_acknowledgement j
  check_supersession j
  ok j

-- `a == b` between optional texts
abbrev pub opt_text_eq : Option Text → Option Text → Bool
opt_text_eq none none = true
opt_text_eq (some a) (some b) = text_eq a b
opt_text_eq _ _ = false

-- `old_value is not None and new_value != old_value`
abbrev pub revokes : Option DateTime → Option DateTime → Bool
revokes old new = is_some old && not (opt_eq new old)

unfoldable pub validate_kitchen_print_job_transition :
    KitchenPrintJob → KitchenPrintJob → Result (Unit {0})
validate_kitchen_print_job_transition previous updated = do
  raise_if
      (not (previous.print_job_id == updated.print_job_id)
        || not (previous.order_id == updated.order_id)
        || not (previous.order_version_id == updated.order_version_id)
        || not (previous.attempt_number == updated.attempt_number)
        || not (previous.requested_at == updated.requested_at)
        || not (previous.accept_deadline_at == updated.accept_deadline_at)
        || not (opt_eq previous.supersedes_print_job_id updated.supersedes_print_job_id))
      job_field_immutable
  raise_if
      (revokes previous.accepted_at updated.accepted_at
        || revokes previous.ack_deadline_at updated.ack_deadline_at
        || revokes previous.rejected_at updated.rejected_at
        || (is_some previous.rejection_code
            && not (opt_text_eq updated.rejection_code previous.rejection_code))
        || revokes previous.acknowledged_at updated.acknowledged_at
        || revokes previous.superseded_at updated.superseded_at)
      job_fact_not_revocable

-- the last branches, once acceptance is known
abbrev pub acceptance_state : DateTime → KitchenPrintJob → JobState
acceptance_state now job =
    if leb job.accept_deadline_at now then acceptance_overdue else awaiting_acceptance

abbrev pub ack_state : DateTime → Option DateTime → Result JobState
ack_state now none = err assertion_error
ack_state now (some deadline) = ok (if leb deadline now then ack_overdue else awaiting_ack)

unfoldable pub derive_kitchen_print_job_state : KitchenPrintJob → DateTime → Bool → Result JobState
derive_kitchen_print_job_state job now order_cancelled =
    if order_cancelled && is_none job.acknowledged_at
    then ok cancelled
    else if is_some job.acknowledged_at
    then ok confirmed
    else if is_some job.rejected_at
    then ok rejected
    else if is_some job.superseded_at
    then ok superseded
    else if is_some job.accepted_at
    then ack_state now job.ack_deadline_at
    else ok (acceptance_state now job)

unfoldable pub KitchenPrintJob-discrete : Discrete KitchenPrintJob
KitchenPrintJob-discrete = hlevel ℕ_discrete

-- `a == b` of the dataclass
unfoldable pub same_job : KitchenPrintJob → KitchenPrintJob → Bool
unfolding KitchenPrintJob-discrete
same_job a b = dec_bool (KitchenPrintJob-discrete a b)

pub same_job_sound : (a b : KitchenPrintJob) → same_job a b ≡ true → a ≡ b
unfolding same_job
same_job_sound a b h = dec_bool-true (KitchenPrintJob-discrete a b) h

pub same_job_refl : (a : KitchenPrintJob) → same_job a a ≡ true
unfolding same_job
same_job_refl a = dec_bool_self (KitchenPrintJob-discrete a a) refl
