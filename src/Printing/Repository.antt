-- ===== src/Printing/Repository.antt =====
-- src/catering_system/repositories/in_memory_kitchen_print_job_repository.py. The repository holds
-- the attempts and a reference to the order repository, so its methods work on the shared state.
pub mod Attempts
pub mod Methods
pub mod Confirmation
pub mod Acknowledged
pub mod Queue
use silberloeffel_catering.Common.{
  ℕ, ◌+◌, Bool, true, false, not, ◌&&◌, ◌||◌, Option, none, some, List, [], ◌∷◌, leb, ltb, opt_eq,
  is_some, is_none, ◌==◌, if◌then◌else◌,
}
use silberloeffel_catering.Common.Lists.{any, filter, first}
use silberloeffel_catering.Common.Sort.{sorted}
use silberloeffel_catering.Common.Dict.{Dict, lookup, insert, values}
use silberloeffel_catering.Common.Results
use silberloeffel_catering.Common.Results.{
  Result, ok, err, value_error, key_error, assertion_error, raise_if, key_error_if, or_raise,
  stale_previous_job, reprint_wrong_reference, confirmation_requires_ack, confirmed_version_foreign,
  confirmation_timestamps, confirmation_not_revocable, activated_foreign, activated_wrong_version,
  ownership_invalid, first_attempt_not_1, chain_invalid, attempt_exists, live_job_exists,
}
use silberloeffel_catering.Common.Exec.{Exec, pure, lift, gets, ◌>>=◌, ◌>>◌}
use silberloeffel_catering.Orders.Model.{Identifier, DateTime, Order, OrderVersion, same_version}
use silberloeffel_catering.Orders.Repository.{
  get_order, get_order_version, update_order, update_order_version,
}
use silberloeffel_catering.KitchenPrint.Job.{
  KitchenPrintJob, KitchenPrintPolicy, new_job, same_job, validate_kitchen_print_job_transition,
}
use silberloeffel_catering.World.{World, on_orders}

-- `_is_live`
abbrev pub is_live : KitchenPrintJob → Bool
is_live job = is_none job.acknowledged_at && is_none job.rejected_at && is_none job.superseded_at

unfoldable pub get_job : Identifier → World → Option KitchenPrintJob
get_job print_job_id w = lookup print_job_id w.jobs

abbrev pub attempt_before : KitchenPrintJob → KitchenPrintJob → Bool
attempt_before a b = leb a.attempt_number b.attempt_number

unfoldable pub list_for_version : Identifier → World → List KitchenPrintJob
list_for_version order_version_id w =
    sorted attempt_before
      (filter (λ (job : KitchenPrintJob). job.order_version_id == order_version_id) (values w.jobs))

unfoldable pub list_for_order : Identifier → World → List KitchenPrintJob
list_for_order order_id w =
    sorted
      (λ (a b : KitchenPrintJob).
        ltb a.order_version_id b.order_version_id
        || (a.order_version_id == b.order_version_id && leb a.attempt_number b.attempt_number))
      (filter (λ (job : KitchenPrintJob). job.order_id == order_id) (values w.jobs))

-- the chain of attempts that a new one continues
abbrev chain_broken : KitchenPrintJob → Option KitchenPrintJob → Bool
chain_broken job none = true
chain_broken job (some previous) =
    not (previous.order_version_id == job.order_version_id)
    || not (job.attempt_number == previous.attempt_number + 1)

unfoldable pub check_chain : KitchenPrintJob → Dict KitchenPrintJob → Result (Unit {0})
check_chain job jobs = elim job.supersedes_print_job_id [
  | none ↦ raise_if (not (job.attempt_number == 1)) first_attempt_not_1
  | some p ↦ raise_if (chain_broken job (lookup p jobs)) chain_invalid
]

-- the loop over the stored attempts
unfoldable pub check_rivals :
    KitchenPrintJob → Option Identifier → List KitchenPrintJob → Result (Unit {0})
check_rivals job replacing [] = ok tt
check_rivals job replacing (existing ∷ rest) =
    let continue = check_rivals job replacing rest in
    if not (existing.order_version_id == job.order_version_id)
    then continue
    else if existing.attempt_number == job.attempt_number
    then err (value_error attempt_exists)
    else if is_live existing && not (opt_eq (some existing.print_job_id) replacing)
    then err (value_error live_job_exists)
    else continue

-- the owner of an attempt is stored, and so is its version, as one of that order's
abbrev pub owned : Option Order → Option OrderVersion → Bool
owned (some order) (some version) = version.order_id == order.order_id
owned _ _ = false

unfoldable pub validate_new_job : KitchenPrintJob → Option Identifier → World → Result (Unit {0})
unfolding check_chain check_rivals
validate_new_job job replacing w =
    Results.◌>>◌ (key_error_if (is_some (lookup job.print_job_id w.jobs)) job.print_job_id) (
      Results.◌>>◌
        (raise_if
          (not (
            owned (get_order w.orders job.order_id)
              (get_order_version w.orders job.order_version_id)))
          ownership_invalid)
        (Results.◌>>◌ (check_chain job w.jobs) (check_rivals job replacing (values w.jobs))))

abbrev pub store_job : KitchenPrintJob → Exec World (Unit {0})
store_job job w = (ok tt, record w { jobs = insert job.print_job_id job w.jobs })

unfoldable pub save : KitchenPrintJob → Exec World (Unit {0})
save job = do lift (validate_new_job job none (← gets (λ w. w))); store_job job

unfoldable pub update : KitchenPrintJob → Exec World (Unit {0})
update job = do
  w ← gets (λ w. w)
  previous ← lift (or_raise (get_job job.print_job_id w) (key_error job.print_job_id))
  lift (validate_kitchen_print_job_transition previous job)
  store_job job

abbrev pub same_stored : Option KitchenPrintJob → KitchenPrintJob → Bool
same_stored none previous = false
same_stored (some stored) previous = same_job stored previous

-- `updated_previous` against `previous`, if there is one
abbrev pub check_update : KitchenPrintJob → Option KitchenPrintJob → Result (Unit {0})
check_update previous none = ok tt
check_update previous (some updated) = validate_kitchen_print_job_transition previous updated

abbrev pub replacing : KitchenPrintJob → Option KitchenPrintJob → Option Identifier
replacing previous none = none
replacing previous (some _) = some previous.print_job_id

abbrev pub with_update :
    KitchenPrintJob → Option KitchenPrintJob → Dict KitchenPrintJob → Dict KitchenPrintJob
with_update previous none jobs = jobs
with_update previous (some updated) jobs = insert previous.print_job_id updated jobs

unfoldable pub save_reprint :
    KitchenPrintJob → Option KitchenPrintJob → KitchenPrintJob → Exec World (Unit {0})
unfolding get_job
save_reprint previous updated_previous new_job = do
  w ← gets (λ w. w)
  lift (raise_if (not (same_stored (get_job previous.print_job_id w) previous)) stale_previous_job)
  lift (check_update previous updated_previous)
  lift (validate_new_job new_job (replacing previous updated_previous) w)
  lift (
      raise_if (not (opt_eq new_job.supersedes_print_job_id (some previous.print_job_id)))
        reprint_wrong_reference)
  let next_jobs = with_update previous updated_previous w.jobs
  λ w. (ok tt, record w { jobs = insert new_job.print_job_id new_job next_jobs })

-- the confirmed version against the stored one
unfoldable pub check_confirmation :
    KitchenPrintJob → OrderVersion → OrderVersion → Result (Unit {0})
check_confirmation job previous_version confirmed_version =
    if is_none previous_version.kitchen_print_confirmed_at
    then raise_if
        (not (
          same_version confirmed_version
            (record previous_version { kitchen_print_confirmed_at = job.acknowledged_at })))
        confirmation_timestamps
    else raise_if (not (same_version confirmed_version previous_version)) confirmation_not_revocable

unfoldable pub check_activated : KitchenPrintJob → Option Order → Result (Unit {0})
check_activated job none = ok tt
check_activated job (some activated) =
    Results.◌>>◌ (raise_if (not (activated.order_id == job.order_id)) activated_foreign) (
      raise_if (not (opt_eq activated.effective_order_version_id (some job.order_version_id)))
        activated_wrong_version)

-- `self._orders.update_order(activated_order)`, if the activation applies
abbrev activate : Bool → Option Order → Exec World (Unit {0})
activate false _ = pure tt
activate true none = lift (err assertion_error)
activate true (some activated) = on_orders (update_order activated)

-- whether the order still has the pointers that the caller has read
unfoldable pub activation_applies : Order → Order → Option Order → Bool
activation_applies current expected activated =
    is_some activated
    && opt_eq current.candidate_order_version_id expected.candidate_order_version_id
    && opt_eq current.effective_order_version_id expected.effective_order_version_id

-- the last check and the writes. They follow one another: what an earlier one wrote stays written if
-- a later one raises.
unfoldable pub write_confirmation :
    KitchenPrintJob → OrderVersion → Order → Order → Option Order → Exec World Bool
unfolding check_activated activation_applies
write_confirmation job confirmed_version current_order expected_order activated_order = do
  lift (check_activated job activated_order)
  let activation_applied = activation_applies current_order expected_order activated_order
  activate activation_applied activated_order
  on_orders (update_order_version confirmed_version)
  store_job job
  pure activation_applied

unfoldable pub acknowledge_and_confirm :
    KitchenPrintJob → OrderVersion → Order → Option Order → Exec World Bool
unfolding get_job check_confirmation
acknowledge_and_confirm job confirmed_version expected_order activated_order = do
  w ← gets (λ w. w)
  previous_job ← lift (or_raise (get_job job.print_job_id w) (key_error job.print_job_id))
  lift (validate_kitchen_print_job_transition previous_job job)
  lift (raise_if (is_none job.acknowledged_at) confirmation_requires_ack)
  lift (
      raise_if
        (not (confirmed_version.order_id == job.order_id)
          || not (confirmed_version.order_version_id == job.order_version_id))
        confirmed_version_foreign)
  previous_version ←
      lift (
        or_raise (get_order_version w.orders job.order_version_id) (key_error job.order_version_id))
  lift (check_confirmation job previous_version confirmed_version)
  current_order ← lift (or_raise (get_order w.orders job.order_id) (key_error job.order_id))
  write_confirmation job confirmed_version current_order expected_order activated_order

-- open, and inside the acceptance window
abbrev pub is_eligible : DateTime → KitchenPrintJob → Bool
is_eligible now job =
    is_none job.accepted_at
    && is_none job.rejected_at
    && is_none job.superseded_at
    && is_none job.acknowledged_at
    && ltb now job.accept_deadline_at

-- the order of the claim's sort keys
abbrev pub claim_before : KitchenPrintJob → KitchenPrintJob → Bool
claim_before a b =
    ltb a.accept_deadline_at b.accept_deadline_at
    || (a.accept_deadline_at == b.accept_deadline_at
        && (ltb a.requested_at b.requested_at
            || (a.requested_at == b.requested_at && leb a.print_job_id b.print_job_id)))

-- the rest of the claim, once the attempt is chosen
unfoldable pub claim_target :
    (Identifier → Bool)
    → DateTime
    → KitchenPrintPolicy
    → Option KitchenPrintJob
    → Exec World (Option KitchenPrintJob)
claim_target is_uuid4 now policy none = pure none
claim_target is_uuid4 now policy (some target) = do
  accepted ← lift (
      new_job is_uuid4 (record target {
        accepted_at = some now;
        ack_deadline_at = some (now + policy.acknowledgment_timeout);
      }))
  lift (validate_kitchen_print_job_transition target accepted)
  λ w. (ok tt, record w { jobs = insert target.print_job_id accepted w.jobs })
  pure (some accepted)

-- The whole method runs under the claim lock, as one step.
unfoldable pub claim_next_eligible :
    (Identifier → Bool) → DateTime → KitchenPrintPolicy → Exec World (Option KitchenPrintJob)
unfolding claim_target
claim_next_eligible is_uuid4 now policy = do
  w ← gets (λ w. w)
  claim_target is_uuid4 now policy
      (first (sorted claim_before (filter (is_eligible now) (values w.jobs))))
