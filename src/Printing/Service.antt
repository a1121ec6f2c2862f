-- ===== src/Printing/Service.antt =====
-- src/catering_system/services/kitchen_print_service.py: the use cases of a print attempt. The clock
-- and the identifier factory are arguments of each call.
pub mod Keeps
pub mod Sound
pub mod Retry
use silberloeffel_catering.Common.{
  ℕ, ◌+◌, Bool, true, false, not, ◌&&◌, ◌||◌, Option, none, some, List, [], ◌∷◌, leb, ltb, opt_eq,
  is_some, is_none, ◌==◌, if◌then◌else◌,
}
use silberloeffel_catering.Common.Lists.{last}
use silberloeffel_catering.Common.Text.{Text, codes}
use silberloeffel_catering.Common.Results
use silberloeffel_catering.Common.Results.{
  Result, ok, err, value_error, assertion_error, raise_if, or_raise, no_order, order_cancelled,
  version_not_of_order, id_exists_with_other_facts, attempts_exist, no_print_job, cannot_accept,
  acceptance_late, unsupported_rejection_code, other_rejection_fact, cannot_reject, not_accepted,
  cannot_acknowledge, acknowledgment_late, not_latest_attempt,
}
use silberloeffel_catering.Common.Exec.{Exec, pure, raise, lift, gets, ◌>>=◌, ◌>>◌}
use silberloeffel_catering.Orders.Model.{Identifier, DateTime, Order, OrderVersion}
use silberloeffel_catering.Orders.Repository.{get_order, get_order_version}
use silberloeffel_catering.KitchenPrint.Job.{
  KitchenPrintJob, KitchenPrintPolicy, new_job, is_rejection_code, opt_text_eq,
}
use silberloeffel_catering.World.{
  World, emit, emit_if, kitchen_print_confirmed, order_version_made_effective,
}
use silberloeffel_catering.Printing.Repository.{
  get_job, list_for_version, save, update, save_reprint, acknowledge_and_confirm, is_live,
  claim_next_eligible as claim_from_store,
}

-- `self._policy`, and the library's test for a canonical UUID4.
pub record KitchenPrintService : Type 0 where
  pub policy : KitchenPrintPolicy
  pub is_uuid4 : Identifier → Bool

-- `print_job_id or self._id_factory()`
abbrev or_id : Option Identifier → Identifier → Identifier
or_id none fresh = fresh
or_id (some i) fresh = if i == 0 then fresh else i

-- `_active_owned_version`
unfoldable pub active_owned_version :
    Identifier → Identifier → Bool → World → Result (Order × OrderVersion)
unfolding get_order get_order_version
active_owned_version order_id order_version_id allow_cancelled w =
    elim (get_order w.orders order_id) [
      | none ↦ err (value_error no_order)
      | some order ↦
          if not allow_cancelled && is_some order.cancelled_at
          then err (value_error order_cancelled)
          else elim (get_order_version w.orders order_version_id) [
            | none ↦ err (value_error version_not_of_order)
            | some version ↦
                if version.order_id == order_id
                then ok (order, version)
                else err (value_error version_not_of_order)
          ]
    ]

-- `_active_job_context`
unfoldable pub active_job_context :
    Identifier → Bool → World → Result (KitchenPrintJob × (Order × OrderVersion))
unfolding get_job active_owned_version
active_job_context print_job_id allow_cancelled w = elim (get_job print_job_id w) [
  | none ↦ err (value_error no_print_job)
  | some job ↦
      Results.◌>>=◌ (active_owned_version job.order_id job.order_version_id allow_cancelled w)
        λ context. ok (job, context)
]

unfoldable pub is_acceptance_overdue : KitchenPrintJob → DateTime → Bool
is_acceptance_overdue job now =
    is_none job.accepted_at
    && is_none job.acknowledged_at
    && is_none job.rejected_at
    && is_none job.superseded_at
    && leb job.accept_deadline_at now

abbrev past : Option DateTime → DateTime → Bool
past none now = false
past (some deadline) now = leb deadline now

unfoldable pub is_ack_overdue : KitchenPrintJob → DateTime → Bool
is_ack_overdue job now =
    is_some job.accepted_at
    && is_some job.ack_deadline_at
    && is_none job.acknowledged_at
    && is_none job.rejected_at
    && is_none job.superseded_at
    && past job.ack_deadline_at now

-- a first attempt, as `request_print` constructs it
abbrev pub first_attempt :
    KitchenPrintService → Identifier → Identifier → Identifier → DateTime → KitchenPrintJob
first_attempt self print_job_id order_id order_version_id now = record {
  print_job_id = print_job_id;
  order_id = order_id;
  order_version_id = order_version_id;
  attempt_number = 1;
  requested_at = now;
  accept_deadline_at = now + self.policy.acceptance_timeout;
  accepted_at = none;
  ack_deadline_at = none;
  rejected_at = none;
  rejection_code = none;
  acknowledged_at = none;
  superseded_at = none;
  supersedes_print_job_id = none;
}

-- the attempt that the caller's identifier names already
abbrev existing_job : Option Identifier → World → Option KitchenPrintJob
existing_job none w = none
existing_job (some i) w = get_job i w

abbrev no_attempts : List KitchenPrintJob → Bool
no_attempts [] = true
no_attempts (_ ∷ _) = false

-- `request_print`, once no attempt has the identifier
unfoldable pub request_new :
    KitchenPrintService
    → Identifier
    → Identifier
    → Option Identifier
    → Identifier
    → DateTime
    → Exec World KitchenPrintJob
unfolding active_owned_version
request_new self order_id order_version_id print_job_id fresh now = do
  w ← gets (λ w. w)
  lift (active_owned_version order_id order_version_id false w)
  lift (raise_if (not (no_attempts (list_for_version order_version_id w))) attempts_exist)
  job ← lift (
      new_job self.is_uuid4
        (first_attempt self (or_id print_job_id fresh) order_id order_version_id now))
  save job
  pure job

unfoldable pub request_print :
    KitchenPrintService
    → Identifier
    → Identifier
    → Option Identifier
    → Identifier
    → DateTime
    → Exec World KitchenPrintJob
unfolding request_new
request_print self order_id order_version_id print_job_id fresh now w =
    elim (existing_job print_job_id w) [
      | none ↦ request_new self order_id order_version_id print_job_id fresh now w
      | some existing ↦
          if existing.order_id == order_id
            && existing.order_version_id == order_version_id
            && existing.attempt_number == 1
            && is_none existing.supersedes_print_job_id
          then (ok existing, w)
          else (err (value_error id_exists_with_other_facts), w)
    ]

unfoldable pub accept_print_job :
    KitchenPrintService → Identifier → DateTime → Exec World KitchenPrintJob
accept_print_job self print_job_id now = do
  (job, _) ← lift (active_job_context print_job_id false (← gets (λ w. w)))
  if is_some job.accepted_at then pure job else do
    lift (raise_if (is_some job.rejected_at) cannot_accept)
    lift (raise_if (is_some job.superseded_at) cannot_accept)
    lift (raise_if (leb job.accept_deadline_at now) acceptance_late)
    accepted ← lift (
        new_job self.is_uuid4 (record job {
          accepted_at = some now;
          ack_deadline_at = some (now + self.policy.acknowledgment_timeout);
        }))
    update accepted
    pure accepted

unfoldable pub reject_print_job :
    KitchenPrintService → Identifier → Text → DateTime → Exec World KitchenPrintJob
reject_print_job self print_job_id rejection_code now = do
  (job, _) ← lift (active_job_context print_job_id true (← gets (λ w. w)))
  lift (raise_if (not (is_rejection_code rejection_code)) unsupported_rejection_code)
  if is_some job.rejected_at
      then if opt_text_eq job.rejection_code (some rejection_code)
        then pure job
        else raise (value_error other_rejection_fact)
      else do
        lift (raise_if (is_some job.acknowledged_at) cannot_reject)
        lift (raise_if (is_some job.superseded_at) cannot_reject)
        rejected ← lift (
            new_job self.is_uuid4
              (record job { rejected_at = some now; rejection_code = some rejection_code }))
        update rejected
        pure rejected

-- `_activation_after_successful_print`
unfoldable pub activation_after_successful_print : Order → OrderVersion → DateTime → Option Order
activation_after_successful_print order version now =
    if is_some order.cancelled_at
    then none
    else if opt_eq order.candidate_order_version_id (some version.order_version_id)
    then some (record order {
      effective_order_version_id = some version.order_version_id;
      candidate_order_version_id = none;
      updated_at = now;
    })
    else if is_none order.effective_order_version_id
        && is_none order.candidate_order_version_id
        && version.version_number == 1
        && is_none version.parent_order_version_id
    then some (record order {
      effective_order_version_id = some version.order_version_id;
      updated_at = now;
    })
    else none

unfoldable pub acknowledge_print_job :
    KitchenPrintService → Identifier → DateTime → Exec World (KitchenPrintJob × OrderVersion)
acknowledge_print_job self print_job_id now = do
  w ← gets (λ w. w)
  (job, (order, version)) ← lift (active_job_context print_job_id false w)
  if is_some job.acknowledged_at
      then (do
        stored_version ←
            lift (or_raise (get_order_version w.orders job.order_version_id) assertion_error)
        pure (job, stored_version))
      else do
        lift (raise_if (is_none job.accepted_at) not_accepted)
        lift (raise_if (is_some job.rejected_at) cannot_acknowledge)
        lift (raise_if (is_some job.superseded_at) cannot_acknowledge)
        ack_deadline_at ← lift (or_raise job.ack_deadline_at assertion_error)
        lift (raise_if (leb ack_deadline_at now) acknowledgment_late)
        acknowledged ← lift (new_job self.is_uuid4 (record job { acknowledged_at = some now }))
        let confirmation_was_new = is_none version.kitchen_print_confirmed_at
        let confirmed_version =
            if confirmation_was_new
            then record version { kitchen_print_confirmed_at = some now }
            else version
        let activated_order = activation_after_successful_print order version now
        activation_applied ←
            acknowledge_and_confirm acknowledged confirmed_version order activated_order
        emit_if confirmation_was_new
            (emit (kitchen_print_confirmed job.order_id job.order_version_id))
        emit_if activation_applied
            (emit (order_version_made_effective job.order_id job.order_version_id))
        pure (acknowledged, confirmed_version)

unfoldable pub claim_next_eligible :
    KitchenPrintService → DateTime → DateTime → Exec World (Option KitchenPrintJob)
claim_next_eligible self now later = do
  claimed ← claim_from_store self.is_uuid4 now self.policy
  elim claimed [
    | none ↦ pure none
    | some job ↦ do
      (order, _) ←
          lift (active_owned_version job.order_id job.order_version_id true (← gets (λ w. w)))
      if is_some order.cancelled_at
          then (do
            reject_print_job self job.print_job_id (codes "order_cancelled") later
            pure none)
          else pure (some job)
  ]

-- `updated_previous`: a live attempt is superseded, another is left alone
unfoldable pub superseding :
    KitchenPrintService → KitchenPrintJob → DateTime → Result (Option KitchenPrintJob)
superseding self previous now =
    if is_live previous
    then Results.◌>>=◌ (new_job self.is_uuid4 (record previous { superseded_at = some now }))
        (λ u. ok (some u))
    else ok none

-- `reprint`, once no attempt has the new identifier
unfoldable pub reprint_new :
    KitchenPrintService
    → Identifier
    → Option Identifier
    → Identifier
    → DateTime
    → Exec World KitchenPrintJob
reprint_new self previous_print_job_id new_print_job_id fresh now = do
  w ← gets (λ w. w)
  (previous, _) ← lift (active_job_context previous_print_job_id false w)
  let latest = last (list_for_version previous.order_version_id w)
  lift (
      raise_if
        (not (elim latest [ none ↦ false | some l ↦ l.print_job_id == previous.print_job_id ]))
        not_latest_attempt)
  updated_previous ← lift (superseding self previous now)
  job ← lift (
      new_job self.is_uuid4 (record {
        print_job_id = or_id new_print_job_id fresh;
        order_id = previous.order_id;
        order_version_id = previous.order_version_id;
        attempt_number = previous.attempt_number + 1;
        requested_at = now;
        accept_deadline_at = now + self.policy.acceptance_timeout;
        accepted_at = none;
        ack_deadline_at = none;
        rejected_at = none;
        rejection_code = none;
        acknowledged_at = none;
        superseded_at = none;
        supersedes_print_job_id = some previous.print_job_id;
      }))
  save_reprint previous updated_previous job
  pure job

-- whether an attempt is the retry of the same reprint
abbrev same_reprint : KitchenPrintJob → Identifier → Option KitchenPrintJob → Bool
same_reprint existing previous_print_job_id none = false
same_reprint existing previous_print_job_id (some previous) =
    existing.order_id == previous.order_id
    && existing.order_version_id == previous.order_version_id
    && existing.attempt_number == previous.attempt_number + 1
    && opt_eq existing.supersedes_print_job_id (some previous_print_job_id)

unfoldable pub reprint :
    KitchenPrintService
    → Identifier
    → Option Identifier
    → Identifier
    → DateTime
    → Exec World KitchenPrintJob
unfolding reprint_new
reprint self previous_print_job_id new_print_job_id fresh now w =
    elim (existing_job new_print_job_id w) [
      | none ↦ reprint_new self previous_print_job_id new_print_job_id fresh now w
      | some existing ↦
          if same_reprint existing previous_print_job_id (get_job previous_print_job_id w)
          then (ok existing, w)
          else (err (value_error id_exists_with_other_facts), w)
    ]
