-- ===== src/Printing/Repository/Methods.antt =====
-- The repository's methods keep the invariant of the print attempts.
use silberloeffel_catering.Common.{
  ℕ, ◌+◌, ◌≡◌, ◌≢◌, refl, Bool, true, false, Option, none, some, arith, inl, inr, Option-cases,
  Bool-cases, ◌==◌, ◌⊎◌, ap, sym, subst,
}
use silberloeffel_catering.Common.Lists.{In, In-filter, first, first-In, filter}
use silberloeffel_catering.Common.Sort.{sorted, sorted-In}
use silberloeffel_catering.Common.Dict.{
  Dict, lookup, insert, values, lookup-insert, lookup-In, In-lookup,
}
use silberloeffel_catering.Common.Results.{ok, Result-cases}
use silberloeffel_catering.Orders.Model.{Identifier, DateTime, Order, OrderVersion}
use silberloeffel_catering.KitchenPrint.Job.{
  KitchenPrintJob, KitchenPrintPolicy, new_job, same_job_sound,
  validate_kitchen_print_job_transition,
}
use silberloeffel_catering.KitchenPrint.Job.Lifecycle.{
  IsValid, Extends, validate_transition-Extends, new_job-IsValid,
}
use silberloeffel_catering.World.{World}
use silberloeffel_catering.Printing.Repository.{
  is_live, check_rivals, validate_new_job, get_job, save, update, save_reprint,
  acknowledge_and_confirm, write_confirmation, claim_next_eligible, claim_target, claim_before,
  is_eligible, same_stored, check_update, replacing, with_update,
}
use silberloeffel_catering.Printing.Repository.Attempts.{
  IsTracked, insert-IsTracked_extended, insert-IsTracked_new, check_rivals-ok,
}

-- What `_validate_new_job` has checked.
validate_new_job-ok :
    (job : KitchenPrintJob) (r : Option Identifier) (w : World)
    → validate_new_job job r w ≡ ok tt
    → (lookup job.print_job_id w.jobs ≡ none) × (check_rivals job r (values w.jobs) ≡ ok tt)
unfolding validate_new_job
validate_new_job-ok job r w h = ground arith

no_live_rival :
    (job e : KitchenPrintJob) (k : ℕ) (w : World)
    → validate_new_job job none w ≡ ok tt
    → lookup k w.jobs ≡ some e
    → e.order_version_id ≡ job.order_version_id
    → (e.attempt_number ≢ job.attempt_number) × (is_live e ≡ false)
no_live_rival job e k w h stored same =
    let r =
      check_rivals-ok job e none (values w.jobs) (validate_new_job-ok job none w h).1
        (lookup-In k e w.jobs stored) same in
    (r.0, elim (Bool-cases (is_live e)) [ inl live ↦ ground (arith, r.1 live) | inr dead ↦ dead ])

pub save-IsTracked :
    (job : KitchenPrintJob) (w : World)
    → IsTracked w.jobs
    → IsValid job
    → IsTracked (save job w).1.jobs
unfolding save
save-IsTracked job w t v = elim (Result-cases (validate_new_job job none w)) [
  | inl (_, h) ↦
      rw (h, save)
        (insert-IsTracked_new job w.jobs t (validate_new_job-ok job none w h).0 v
          (λ k e stored same. no_live_rival job e k w h stored same))
  | inr (x, h) ↦ rw (h, save) t
]

pub update-IsTracked :
    (job : KitchenPrintJob) (w : World)
    → IsTracked w.jobs
    → IsValid job
    → IsTracked (update job w).1.jobs
unfolding update get_job
update-IsTracked job w t v = elim (Option-cases (lookup job.print_job_id w.jobs)) [
  | inl missing ↦ rw (missing, update) t
  | inr (p, stored) ↦ elim (Result-cases (validate_kitchen_print_job_transition p job)) [
    | inl (_, h) ↦
        rw (stored, h, update)
          (insert-IsTracked_extended p job w.jobs t stored (validate_transition-Extends p job h) v)
    | inr (x, h) ↦ rw (stored, h, update) t
  ]
]

-- A reprint that raised changed nothing; one that returned filed the new attempt after its checks.
save_reprint-cases :
    (previous job : KitchenPrintJob) (updated : Option KitchenPrintJob) (w : World)
    → ((save_reprint previous updated job w).1.jobs ≡ w.jobs)
      ⊎ ((same_stored (lookup previous.print_job_id w.jobs) previous ≡ true)
          × (check_update previous updated ≡ ok tt)
          × (validate_new_job job (replacing previous updated) w ≡ ok tt)
          × ((save_reprint previous updated job w).1.jobs
              ≡ insert job.print_job_id job (with_update previous updated w.jobs)))
unfolding save_reprint
save_reprint-cases previous job updated w = ground arith

stored_previous :
    (previous : KitchenPrintJob) (o : Option KitchenPrintJob)
    → same_stored o previous ≡ true
    → o ≡ some previous
stored_previous previous none h = ground arith
stored_previous previous (some s) h = ap some (same_job_sound s previous h)

-- A reprint of an ended attempt.
reprint_ended :
    (previous job : KitchenPrintJob) (w : World)
    → IsTracked w.jobs
    → IsValid job
    → validate_new_job job none w ≡ ok tt
    → IsTracked (insert job.print_job_id job w.jobs)
reprint_ended previous job w t v h =
    insert-IsTracked_new job w.jobs t (validate_new_job-ok job none w h).0 v
      (λ k e stored same. no_live_rival job e k w h stored same)

-- A reprint of a live attempt, which is ended by the same call.
reprint_live :
    (previous u job : KitchenPrintJob) (w : World)
    → IsTracked w.jobs
    → IsValid job
    → IsValid u
    → is_live u ≡ false
    → lookup previous.print_job_id w.jobs ≡ some previous
    → Extends previous u
    → validate_new_job job (some previous.print_job_id) w ≡ ok tt
    → IsTracked (insert job.print_job_id job (insert previous.print_job_id u w.jobs))
reprint_live previous u job w t v vu ended stored x h =
    let checked = validate_new_job-ok job (some previous.print_job_id) w h in
    let rivals = λ (k : ℕ) (e : KitchenPrintJob) (f : lookup k w.jobs ≡ some e).
      check_rivals-ok job e (some previous.print_job_id) (values w.jobs) checked.1
        (lookup-In k e w.jobs f) in
    let at = λ (k : ℕ). lookup-insert previous.print_job_id k u w.jobs in
    let extended : IsTracked (insert previous.print_job_id u w.jobs) =
      subst (λ (i : ℕ). IsTracked (insert i u w.jobs)) x.same_id
        (insert-IsTracked_extended previous u w.jobs t (rw x.same_id stored) x vu) in
    insert-IsTracked_new job (insert previous.print_job_id u w.jobs) extended
      (ground (arith, at job.print_job_id, checked.0)) v
      (λ k e f same. elim (Bool-cases (previous.print_job_id == k)) [
        | inl hit ↦ ground (
          arith,
          at k,
          rivals previous.print_job_id previous stored,
          x.same_version,
          x.same_attempt,
        )
        | inr miss ↦ ground (arith, at k, rivals k e, t.job_key k e)
      ])

-- What a reprint needs of the attempt that it replaces: it has ended, or the call ends it by a valid
-- attempt.
pub record Ends (previous : KitchenPrintJob) (updated : Option KitchenPrintJob) : Type 0 where
  pub left_alone : updated ≡ none → is_live previous ≡ false
  pub ended : (u : KitchenPrintJob) → updated ≡ some u → (is_live u ≡ false) × IsValid u

pub save_reprint-IsTracked :
    (previous job : KitchenPrintJob) (updated : Option KitchenPrintJob) (w : World)
    → IsTracked w.jobs
    → IsValid job
    → Ends previous updated
    → IsTracked (save_reprint previous updated job w).1.jobs
save_reprint-IsTracked previous job none w t v ends =
    elim (save_reprint-cases previous job none w) [
      | inl same ↦ rw same t
      | inr (stale, checked, new, jobs) ↦ rw jobs (reprint_ended previous job w t v new)
    ]
save_reprint-IsTracked previous job (some u) w t v ends =
    elim (save_reprint-cases previous job (some u) w) [
      | inl same ↦ rw same t
      | inr (stale, checked, new, jobs) ↦
          let (ended, valid) = ends.ended u refl in
          rw jobs (
            reprint_live previous u job w t v valid ended
              (stored_previous previous (lookup previous.print_job_id w.jobs) stale)
              (validate_transition-Extends previous u checked) new)
    ]

-- The acknowledgement files the acknowledged attempt, or leaves the attempts alone.
acknowledge_and_confirm-jobs :
    (Q : Dict KitchenPrintJob → Type 0) (job : KitchenPrintJob) (version : OrderVersion)
    (expected : Order) (activated : Option Order) (w : World)
    → Q w.jobs
    → ((p : KitchenPrintJob)
        → lookup job.print_job_id w.jobs ≡ some p
        → validate_kitchen_print_job_transition p job ≡ ok tt
        → Q (insert job.print_job_id job w.jobs))
    → Q (acknowledge_and_confirm job version expected activated w).1.jobs
unfolding acknowledge_and_confirm write_confirmation
acknowledge_and_confirm-jobs Q job version expected activated w start keep =
    elim (Option-cases (lookup job.print_job_id w.jobs)) [
      | inl missing ↦ ground arith
      | inr (p, stored) ↦ elim (Result-cases (validate_kitchen_print_job_transition p job)) [
        | inr (x, h) ↦ ground arith
        | inl (_, h) ↦ let filed = keep p stored h in ground arith
      ]
    ]

pub acknowledge_and_confirm-IsTracked :
    (job : KitchenPrintJob) (version : OrderVersion) (expected : Order) (activated : Option Order)
    (w : World)
    → IsTracked w.jobs
    → IsValid job
    → IsTracked (acknowledge_and_confirm job version expected activated w).1.jobs
acknowledge_and_confirm-IsTracked job version expected activated w t v =
    acknowledge_and_confirm-jobs IsTracked job version expected activated w t (λ p stored h.
      insert-IsTracked_extended p job w.jobs t stored (validate_transition-Extends p job h) v)

-- The chosen attempt is a stored one inside its window.
pub eligible_is_stored :
    (now : DateTime) (j : KitchenPrintJob) (w : World)
    → first (sorted claim_before (filter (is_eligible now) (values w.jobs))) ≡ some j
    → In j (values w.jobs) × (is_eligible now j ≡ true)
eligible_is_stored now j w h = In-filter (is_eligible now) j (values w.jobs) (
    sorted-In claim_before j (filter (is_eligible now) (values w.jobs))
      (first-In j (sorted claim_before (filter (is_eligible now) (values w.jobs))) h))

-- The chosen attempt is filed under its own identifier.
eligible_stored :
    (now : DateTime) (j : KitchenPrintJob) (w : World)
    → IsTracked w.jobs
    → first (sorted claim_before (filter (is_eligible now) (values w.jobs))) ≡ some j
    → lookup j.print_job_id w.jobs ≡ some j
eligible_stored now j w t h =
    let (k, found) = In-lookup j w.jobs t.unique (eligible_is_stored now j w h).0 in
    subst (λ (i : ℕ). lookup i w.jobs ≡ some j) (sym (t.job_key k j found)) found

-- The claim files its target as accepted, or leaves the attempts alone.
claim_target-jobs :
    (Q : Dict KitchenPrintJob → Type 0) (is_uuid4 : Identifier → Bool) (now : DateTime)
    (policy : KitchenPrintPolicy) (target : Option KitchenPrintJob) (w : World)
    → Q w.jobs
    → ((j k : KitchenPrintJob)
        → target ≡ some j
        → new_job is_uuid4 k ≡ ok k
        → validate_kitchen_print_job_transition j k ≡ ok tt
        → Q (insert j.print_job_id k w.jobs))
    → Q (claim_target is_uuid4 now policy target w).1.jobs
unfolding claim_target
claim_target-jobs Q is_uuid4 now policy none w start keep = start
claim_target-jobs Q is_uuid4 now policy (some j) w start keep =
    let a = record j {
      accepted_at = some now;
      ack_deadline_at = some (now + policy.acknowledgment_timeout);
    } in
    elim (Result-cases (new_job is_uuid4 a)) [
      | inr (x, h) ↦ ground arith
      | inl (k, h) ↦
          let same : k ≡ a = (new_job-IsValid is_uuid4 a k h).0 in
          elim (Result-cases (validate_kitchen_print_job_transition j k)) [
            | inr (x, g) ↦ ground arith
            | inl (_, g) ↦
                let filed = keep j k refl (subst (λ b. new_job is_uuid4 b ≡ ok k) (sym same) h) g in
                ground arith
          ]
    ]

pub claim_next_eligible-IsTracked :
    (is_uuid4 : Identifier → Bool) (now : DateTime) (policy : KitchenPrintPolicy) (w : World)
    → IsTracked w.jobs
    → IsTracked (claim_next_eligible is_uuid4 now policy w).1.jobs
unfolding claim_next_eligible
claim_next_eligible-IsTracked is_uuid4 now policy w t =
    claim_target-jobs IsTracked is_uuid4 now policy
      (first (sorted claim_before (filter (is_eligible now) (values w.jobs)))) w t
      (λ j k target made transition.
        let x = validate_transition-Extends j k transition in
        subst (λ (i : ℕ). IsTracked (insert i k w.jobs)) x.same_id
          (insert-IsTracked_extended j k w.jobs t (rw x.same_id (eligible_stored now j w t target))
            x (new_job-IsValid is_uuid4 k k made).1))
