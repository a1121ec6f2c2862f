-- ===== src/Tests/Printing.antt =====
-- The theorems on print attempts, applied to the attempt of Tests/Life.antt.
use silberloeffel_catering.Common.{◌≡◌, refl, subst, true, false, some, [], arith}
use silberloeffel_catering.Common.Dict.{lookup}
use silberloeffel_catering.Common.Results.{
  Result, ok, err, value_error, is_ok, confirmation_requires_ack,
}
use silberloeffel_catering.Orders.Model.{OrderVersion, Identifier}
use silberloeffel_catering.KitchenPrint.Job.{
  KitchenPrintJob, new_job, validate_kitchen_print_job_transition, derive_kitchen_print_job_state,
  confirmed,
}
use silberloeffel_catering.KitchenPrint.Job.Lifecycle.{
  IsValid, Extends, validate_transition-Extends, new_job-IsValid, new_job-IsAttempt, IsAttempt,
  derive_total, final_state_kept, confirmed_final,
}
use silberloeffel_catering.World.{World}
use silberloeffel_catering.Printing.Repository.{acknowledge_and_confirm, get_job}
use silberloeffel_catering.Printing.Repository.{
  claim_next_eligible as claim_from_store, claim_target,
}
use silberloeffel_catering.Common.{none, ◌∷◌, ◌≤◌, ◌≢◌, ◌↔◌, ◌+◌}
use silberloeffel_catering.Tests.Life.{job}
use silberloeffel_catering.Common.Lists.{In}
use silberloeffel_catering.Common.Dict.{values, insert}
use silberloeffel_catering.Common.Sort.{sorted}
use silberloeffel_catering.Printing.Service.Retry.{accept_print_job_again}
use silberloeffel_catering.Printing.Repository.Queue.{
  claim_next_eligible_lem, claim_next_eligible-none_iff, IsEligible,
}
use silberloeffel_catering.Printing.Repository.Attempts.{IsTracked}
use silberloeffel_catering.Printing.Repository.Acknowledged.{acknowledge_and_confirm-atomic}
use silberloeffel_catering.Printing.Service.{accept_print_job}
use silberloeffel_catering.Printing.Service.Sound.{
  IsOrderly, request_print-IsOrderly, accept_print_job-IsOrderly, acknowledge_print_job-IsOrderly,
}
use silberloeffel_catering.Tests.Life.{
  created, service, requested, requests, accepted_job, accepted, accepts, acknowledged_job,
  confirmed_version, acknowledged, acknowledges, active_order, order,
}
use silberloeffel_catering.Tests.Orders.{created-IsSound}

empty-IsTracked : IsTracked []
unfolding lookup
empty-IsTracked = record {
  unique = tt;
  job_key = λ k j e. ground arith;
  job_valid = λ k j e. ground arith;
  attempts_differ = λ k l i j e f same number. ground arith;
  one_live = λ k l i j e f same a b. ground arith;
}

created-IsOrderly : IsOrderly created.orders created.jobs
created-IsOrderly = record { sound = created-IsSound; tracked = empty-IsTracked }

requested-IsOrderly : IsOrderly requested.orders requested.jobs
requested-IsOrderly =
    subst (λ (r : Result KitchenPrintJob × World). IsOrderly r.1.orders r.1.jobs) requests
      (request_print-IsOrderly service 200 created created-IsOrderly 1 10 (some 50) 51)

accepted-IsOrderly : IsOrderly accepted.orders accepted.jobs
accepted-IsOrderly =
    subst (λ (r : Result KitchenPrintJob × World). IsOrderly r.1.orders r.1.jobs) accepts
      (accept_print_job-IsOrderly service 205 requested requested-IsOrderly 50)

pub acknowledged-IsOrderly : IsOrderly acknowledged.orders acknowledged.jobs
acknowledged-IsOrderly =
    subst (λ (r : Result (KitchenPrintJob × OrderVersion) × World). IsOrderly r.1.orders r.1.jobs)
      acknowledges (acknowledge_print_job-IsOrderly service 207 accepted accepted-IsOrderly 50)

-- An attempt without an acknowledgement confirms nothing.
unacknowledged :
    acknowledge_and_confirm accepted_job confirmed_version order (some active_order) accepted
    ≡ (err (value_error confirmation_requires_ack), accepted)
unfolding acknowledge_and_confirm get_job lookup validate_kitchen_print_job_transition
unacknowledged = refl

acknowledge_and_confirm-atomic_example : accepted ≡ accepted
acknowledge_and_confirm-atomic_example =
    acknowledge_and_confirm-atomic accepted_job confirmed_version order (some active_order)
      (value_error confirmation_requires_ack) accepted accepted unacknowledged

made : new_job service.is_uuid4 acknowledged_job ≡ ok acknowledged_job
unfolding new_job
made = refl

acknowledged_job-IsValid : IsValid acknowledged_job
acknowledged_job-IsValid =
    (new_job-IsValid service.is_uuid4 acknowledged_job acknowledged_job made).1

new_job-IsAttempt_example :
    (acknowledged_job ≡ acknowledged_job) × IsAttempt service.is_uuid4 acknowledged_job
new_job-IsAttempt_example =
    new_job-IsAttempt service.is_uuid4 acknowledged_job acknowledged_job made

transition : validate_kitchen_print_job_transition accepted_job acknowledged_job ≡ ok tt
unfolding validate_kitchen_print_job_transition
transition = refl

validate_transition-Extends_example : Extends accepted_job acknowledged_job
validate_transition-Extends_example =
    validate_transition-Extends accepted_job acknowledged_job transition

derive_total_example : is_ok (derive_kitchen_print_job_state acknowledged_job 208 false) ≡ true
derive_total_example = derive_total acknowledged_job 208 false acknowledged_job-IsValid

settled : validate_kitchen_print_job_transition acknowledged_job acknowledged_job ≡ ok tt
unfolding validate_kitchen_print_job_transition
settled = refl

confirmed_state : derive_kitchen_print_job_state acknowledged_job 208 false ≡ ok confirmed
unfolding derive_kitchen_print_job_state
confirmed_state = refl

final_state_kept_example : derive_kitchen_print_job_state acknowledged_job 999 false ≡ ok confirmed
final_state_kept_example =
    final_state_kept acknowledged_job acknowledged_job 208 999 confirmed_final
      acknowledged_job-IsValid settled confirmed_state

abbrev claimed_job : KitchenPrintJob
claimed_job = record job { accepted_at = some 204; ack_deadline_at = some 214 }

abbrev claimed : World
claimed = record requested { jobs = (50, claimed_job) ∷ [] }

claims :
    claim_from_store service.is_uuid4 204 service.policy requested
    ≡ (ok (some claimed_job), claimed)
unfolding claim_from_store claim_target values sorted lookup insert new_job
    validate_kitchen_print_job_transition
claims = refl

claim_next_eligible_lem_example :
    (j : KitchenPrintJob) × In j (values requested.jobs)
    × IsEligible 204 j
    × ((b : KitchenPrintJob)
        → In b (values requested.jobs)
        → IsEligible 204 b
        → (j.accept_deadline_at ≤ b.accept_deadline_at)
          × (j.accept_deadline_at ≡ b.accept_deadline_at → j.requested_at ≤ b.requested_at))
    × (claimed_job ≡ record j {
      accepted_at = some 204;
      ack_deadline_at = some (204 + service.policy.acknowledgment_timeout);
    })
    × (lookup j.print_job_id claimed.jobs ≡ some claimed_job)
    × ((id : Identifier) → j.print_job_id ≢ id → lookup id claimed.jobs ≡ lookup id requested.jobs)
claim_next_eligible_lem_example =
    claim_next_eligible_lem service.is_uuid4 204 service.policy claimed_job requested claimed claims

claim_next_eligible-none_iff_example :
    (claim_from_store service.is_uuid4 211 service.policy requested ≡ (ok none, requested))
    ↔ ((b : KitchenPrintJob) → In b (values requested.jobs) → ¬ IsEligible 211 b)
claim_next_eligible-none_iff_example =
    claim_next_eligible-none_iff service.is_uuid4 211 service.policy requested

requested-IsTracked : IsTracked requested.jobs
requested-IsTracked = requested-IsOrderly.tracked

accept_print_job_again_example :
    accept_print_job service 50 209 accepted ≡ (ok accepted_job, accepted)
accept_print_job_again_example =
    accept_print_job_again service 50 205 209 requested accepted accepted_job requested-IsTracked
      accepts
