-- ===== src/KitchenPrint/Job/Lifecycle.antt =====
-- What the validation guarantees of a print attempt, and how its derived state may change.
use silberloeffel_catering.Common.{
  ◌≤◌, ◌<◌, ◌≡◌, ◌≢◌, ◌⊎◌, Bool, true, false, Option, none, some, arith, is_some, opt_eq→eq, sym,
  not, ◌&&◌,
}
use silberloeffel_catering.Common.Text.{Text, codes, text_eq_iff}
use silberloeffel_catering.Common.Results.{ok, is_ok}
use silberloeffel_catering.Orders.Model.{Identifier, DateTime}
use silberloeffel_catering.KitchenPrint.Job.{
  KitchenPrintJob, JobState, confirmed, rejected, superseded, new_job,
  derive_kitchen_print_job_state, validate_kitchen_print_job_transition, opt_text_eq, revokes,
  is_rejection_code,
}

-- What `__post_init__` guarantees, as a statement about the facts.
pub record IsValid (j : KitchenPrintJob) : Type 0 where
  pub attempt : 1 ≤ j.attempt_number
  pub deadline : j.requested_at < j.accept_deadline_at
  pub acceptance_pair : is_some j.accepted_at ≡ is_some j.ack_deadline_at
  pub acceptance_times :
      (a d : DateTime)
      → j.accepted_at ≡ some a
      → j.ack_deadline_at ≡ some d
      → (j.requested_at ≤ a) × (a < d)
  pub rejection_pair : is_some j.rejected_at ≡ is_some j.rejection_code
  pub rejection_times :
      (r : DateTime)
      → j.rejected_at ≡ some r
      → (j.requested_at ≤ r) × ((a : DateTime) → j.accepted_at ≡ some a → a ≤ r)
  pub acknowledgement :
      (k : DateTime)
      → j.acknowledged_at ≡ some k
      → (a : DateTime) × (j.accepted_at ≡ some a) × (a ≤ k)
  pub one_ending :
      (is_some j.acknowledged_at ≡ true → (j.rejected_at ≡ none) × (j.superseded_at ≡ none))
      × (is_some j.superseded_at ≡ true → (j.rejected_at ≡ none) × (j.acknowledged_at ≡ none))

abbrev pub IsRejectionCode : Text → Type 0
IsRejectionCode c =
    (c ≡ codes "render_failed")
    ⊎ (c ≡ codes "spool_rejected")
    ⊎ (c ≡ codes "printer_unavailable")
    ⊎ (c ≡ codes "invalid_printer_configuration")
    ⊎ (c ≡ codes "order_cancelled")

is_rejection_code-IsRejectionCode : (c : Text) → is_rejection_code c ≡ true → IsRejectionCode c
unfolding is_rejection_code
is_rejection_code-IsRejectionCode c h = ground (
  arith,
  text_eq_iff c (codes "render_failed"),
  text_eq_iff c (codes "spool_rejected"),
  text_eq_iff c (codes "printer_unavailable"),
  text_eq_iff c (codes "invalid_printer_configuration"),
  text_eq_iff c (codes "order_cancelled"),
)

-- A constructed attempt is the given one.
pub new_job-IsValid :
    (is_uuid4 : Identifier → Bool) (j k : KitchenPrintJob)
    → new_job is_uuid4 j ≡ ok k
    → (k ≡ j) × IsValid j
unfolding new_job
new_job-IsValid is_uuid4 j k h = (
  ground arith,
  record {
    attempt = ground arith;
    deadline = ground arith;
    acceptance_pair = ground arith;
    acceptance_times = λ a d p q. ground arith;
    rejection_pair = ground arith;
    rejection_times = λ r p. (ground arith, λ a q. ground arith);
    acknowledgement = λ k p. ground arith;
    one_ending = ground arith;
  },
)

-- All that `__post_init__` asks of an attempt.
pub record IsAttempt (is_uuid4 : Identifier → Bool) (j : KitchenPrintJob) : Type 0 where
  pub named : (j.print_job_id ≢ 0) × (j.order_id ≢ 0) × (j.order_version_id ≢ 0)
  pub canonical : is_uuid4 j.print_job_id ≡ true
  pub canonical_predecessor :
      (p : Identifier) → j.supersedes_print_job_id ≡ some p → is_uuid4 p ≡ true
  pub supported : (c : Text) → j.rejection_code ≡ some c → IsRejectionCode c
  pub valid : IsValid j
  pub supersession : (t : DateTime) → j.superseded_at ≡ some t → j.requested_at ≤ t

-- A constructed attempt is the given one. It has non-empty identifiers, its own and that of its
-- predecessor are canonical, its rejection code is one of the five, and its facts are valid: the
-- attempt number is positive, deadlines lie after their start, paired facts stand together,
-- acceptance, rejection and supersession do not predate the request, rejection and acknowledgement
-- do not predate the acceptance, and at most one ending is recorded.
pub new_job-IsAttempt :
    (is_uuid4 : Identifier → Bool) (j k : KitchenPrintJob)
    → new_job is_uuid4 j ≡ ok k
    → (k ≡ j) × IsAttempt is_uuid4 j
unfolding new_job
new_job-IsAttempt is_uuid4 j k h =
    let (same, valid) = new_job-IsValid is_uuid4 j k h in
    (
      same,
      record {
        named = ground arith;
        canonical = ground arith;
        canonical_predecessor = λ p e. ground arith;
        supported = λ c e. is_rejection_code-IsRejectionCode c (ground arith);
        valid = valid;
        supersession = λ t e. ground arith;
      },
    )

-- The later attempt is the earlier one with facts added.
pub record Extends (p u : KitchenPrintJob) : Type 0 where
  pub same_id : u.print_job_id ≡ p.print_job_id
  pub same_order : u.order_id ≡ p.order_id
  pub same_version : u.order_version_id ≡ p.order_version_id
  pub same_attempt : u.attempt_number ≡ p.attempt_number
  pub same_request : u.requested_at ≡ p.requested_at
  pub same_deadline : u.accept_deadline_at ≡ p.accept_deadline_at
  pub same_predecessor : u.supersedes_print_job_id ≡ p.supersedes_print_job_id
  pub keeps_acceptance : (t : DateTime) → p.accepted_at ≡ some t → u.accepted_at ≡ some t
  pub keeps_ack_deadline : (t : DateTime) → p.ack_deadline_at ≡ some t → u.ack_deadline_at ≡ some t
  pub keeps_rejection : (t : DateTime) → p.rejected_at ≡ some t → u.rejected_at ≡ some t
  pub keeps_code : (c : Text) → p.rejection_code ≡ some c → u.rejection_code ≡ some c
  pub keeps_acknowledgement :
      (t : DateTime) → p.acknowledged_at ≡ some t → u.acknowledged_at ≡ some t
  pub keeps_supersession : (t : DateTime) → p.superseded_at ≡ some t → u.superseded_at ≡ some t

kept_code :
    (old new : Option Text) (c : Text)
    → (is_some old && not (opt_text_eq new old)) ≡ false
    → old ≡ some c
    → new ≡ some c
kept_code none new c g e = ground arith
kept_code (some a) none c g e = ground arith
kept_code (some a) (some b) c g e = ground (arith, text_eq_iff b a)

kept_fact :
    (old new : Option DateTime) (t : DateTime)
    → revokes old new ≡ false
    → old ≡ some t
    → new ≡ some t
kept_fact none new t g e = ground arith
kept_fact (some a) none t g e = ground arith
kept_fact (some a) (some b) t g e = ground arith

-- An accepted transition keeps the identity of an attempt and every recorded fact.
pub validate_transition-Extends :
    (p u : KitchenPrintJob) → validate_kitchen_print_job_transition p u ≡ ok tt → Extends p u
unfolding validate_kitchen_print_job_transition
validate_transition-Extends p u h = record {
  same_id = ground arith;
  same_order = ground arith;
  same_version = ground arith;
  same_attempt = ground arith;
  same_request = ground arith;
  same_deadline = ground arith;
  same_predecessor =
      sym (opt_eq→eq p.supersedes_print_job_id u.supersedes_print_job_id (ground arith));
  keeps_acceptance = λ t e. kept_fact p.accepted_at u.accepted_at t (ground arith) e;
  keeps_ack_deadline = λ t e. kept_fact p.ack_deadline_at u.ack_deadline_at t (ground arith) e;
  keeps_rejection = λ t e. kept_fact p.rejected_at u.rejected_at t (ground arith) e;
  keeps_code = λ c e. kept_code p.rejection_code u.rejection_code c (ground arith) e;
  keeps_acknowledgement = λ t e. kept_fact p.acknowledged_at u.acknowledged_at t (ground arith) e;
  keeps_supersession = λ t e. kept_fact p.superseded_at u.superseded_at t (ground arith) e;
}

-- The derived state of a valid attempt is always a state: the assertion on the acknowledgement
-- deadline cannot fail.
pub derive_total :
    (j : KitchenPrintJob) (now : DateTime) (order_cancelled : Bool)
    → IsValid j
    → is_ok (derive_kitchen_print_job_state j now order_cancelled) ≡ true
unfolding derive_kitchen_print_job_state
derive_total j now order_cancelled v = ground (arith, v.acceptance_pair)

pub data IsFinal : JobState → Type 0 where
  confirmed_final : IsFinal confirmed
  rejected_final : IsFinal rejected
  superseded_final : IsFinal superseded

still_there :
    (old new : Option DateTime)
    → ((t : DateTime) → old ≡ some t → new ≡ some t)
    → is_some old ≡ true
    → is_some new ≡ true
still_there none new keeps h = ground arith
still_there (some t) new keeps h = ground (arith, keeps t)

-- An accepted transition of an attempt to a valid one keeps the states confirmed, rejected and
-- superseded of an order that is not cancelled, whatever the clock says.
pub final_state_kept :
    (p u : KitchenPrintJob) (now later : DateTime) {st : JobState}
    → IsFinal st
    → IsValid u
    → validate_kitchen_print_job_transition p u ≡ ok tt
    → derive_kitchen_print_job_state p now false ≡ ok st
    → derive_kitchen_print_job_state u later false ≡ ok st
unfolding derive_kitchen_print_job_state
final_state_kept p u now later confirmed_final v h e =
    let x = validate_transition-Extends p u h in
    ground (arith, still_there p.acknowledged_at u.acknowledged_at x.keeps_acknowledgement)
final_state_kept p u now later rejected_final v h e =
    let x = validate_transition-Extends p u h in
    ground (arith, still_there p.rejected_at u.rejected_at x.keeps_rejection, v.one_ending)
final_state_kept p u now later superseded_final v h e =
    let x = validate_transition-Extends p u h in
    ground (arith, still_there p.superseded_at u.superseded_at x.keeps_supersession, v.one_ending)
