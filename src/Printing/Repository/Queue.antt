-- ===== src/Printing/Repository/Queue.antt =====
-- Which attempt the claim takes.
use silberloeffel_catering.Common.{
  ◌≤◌, ◌<◌, ◌≡◌, ◌≢◌, ◌↔◌, ◌+◌, refl, subst, Bool, true, false, Option, none, some, List, [], ◌∷◌,
  arith, inl, inr, Option-cases,
}
use silberloeffel_catering.Common.Lists.{In, filter, filter-In, first}
use silberloeffel_catering.Common.Sort.{sorted, In-sorted, first-sorted}
use silberloeffel_catering.Common.Dict.{
  lookup, insert, values, lookup-insert_self, lookup-insert_ne,
}
use silberloeffel_catering.Common.Results.{ok}
use silberloeffel_catering.Orders.Model.{Identifier, DateTime}
use silberloeffel_catering.KitchenPrint.Job.{KitchenPrintJob, KitchenPrintPolicy, new_job}
use silberloeffel_catering.World.{World}
use silberloeffel_catering.Printing.Repository.{
  claim_next_eligible, claim_target, claim_before, is_eligible,
}
use silberloeffel_catering.Printing.Repository.Methods.{eligible_is_stored}

claim_before_total : (a b : KitchenPrintJob) → claim_before a b ≡ false → claim_before b a ≡ true
claim_before_total a b h = ground arith

claim_before_trans :
    (a b c : KitchenPrintJob)
    → claim_before a b ≡ true
    → claim_before b c ≡ true
    → claim_before a c ≡ true
claim_before_trans a b c h k = ground arith

-- What the claim asks of an attempt: nothing has happened to it, and its acceptance window is open.
pub record IsEligible (now : DateTime) (j : KitchenPrintJob) : Type 0 where
  pub unaccepted : j.accepted_at ≡ none
  pub unrejected : j.rejected_at ≡ none
  pub unsuperseded : j.superseded_at ≡ none
  pub unacknowledged : j.acknowledged_at ≡ none
  pub open_window : now < j.accept_deadline_at

is_eligible-IsEligible :
    (now : DateTime) (j : KitchenPrintJob) → is_eligible now j ≡ true → IsEligible now j
is_eligible-IsEligible now j h = record {
  unaccepted = ground arith;
  unrejected = ground arith;
  unsuperseded = ground arith;
  unacknowledged = ground arith;
  open_window = ground arith;
}

IsEligible-is_eligible :
    (now : DateTime) (j : KitchenPrintJob) → IsEligible now j → is_eligible now j ≡ true
IsEligible-is_eligible now j e =
    ground (arith, e.unaccepted, e.unrejected, e.unsuperseded, e.unacknowledged, e.open_window)

-- the attempt with its acceptance
abbrev taken : DateTime → KitchenPrintPolicy → KitchenPrintJob → KitchenPrintJob
taken now policy j = record j {
  accepted_at = some now;
  ack_deadline_at = some (now + policy.acknowledgment_timeout);
}

-- What a claim that returned an attempt made of its target.
claim_target-ok :
    (is_uuid4 : Identifier → Bool) (now : DateTime) (policy : KitchenPrintPolicy)
    (j k : KitchenPrintJob) (w w' : World)
    → claim_target is_uuid4 now policy (some j) w ≡ (ok (some k), w')
    → (k ≡ taken now policy j) × (w'.jobs ≡ insert j.print_job_id k w.jobs)
unfolding claim_target new_job
claim_target-ok is_uuid4 now policy j k w w' h = (ground arith, ground arith)

-- The target of the claim is no later than any eligible attempt.
target_is_earliest :
    (now : DateTime) (j b : KitchenPrintJob) (w : World)
    → first (sorted claim_before (filter (is_eligible now) (values w.jobs))) ≡ some j
    → In b (values w.jobs)
    → is_eligible now b ≡ true
    → (j.accept_deadline_at ≤ b.accept_deadline_at)
      × (j.accept_deadline_at ≡ b.accept_deadline_at → j.requested_at ≤ b.requested_at)
target_is_earliest now j b w h m e =
    elim (first-sorted claim_before claim_before_total claim_before_trans j b
      (filter (is_eligible now) (values w.jobs)) h
      (filter-In (is_eligible now) b (values w.jobs) m e)) [
        | inl same ↦ (ground arith, λ d. ground arith)
        | inr before ↦ (ground arith, λ d. ground arith)
      ]

-- A claim that returns an attempt takes a stored one to which nothing has happened and whose
-- acceptance window is open, of all such one with the earliest deadline, and of those with this
-- deadline one that was requested first. It returns this attempt with its acceptance and the
-- deadline of its acknowledgement, files it under its identifier, and leaves all others as they
-- were.
pub claim_next_eligible_lem :
    (is_uuid4 : Identifier → Bool) (now : DateTime) (policy : KitchenPrintPolicy)
    (k : KitchenPrintJob) (w w' : World)
    → claim_next_eligible is_uuid4 now policy w ≡ (ok (some k), w')
    → (j : KitchenPrintJob) × In j (values w.jobs)
      × IsEligible now j
      × ((b : KitchenPrintJob)
          → In b (values w.jobs)
          → IsEligible now b
          → (j.accept_deadline_at ≤ b.accept_deadline_at)
            × (j.accept_deadline_at ≡ b.accept_deadline_at → j.requested_at ≤ b.requested_at))
      × (k ≡ record j {
        accepted_at = some now;
        ack_deadline_at = some (now + policy.acknowledgment_timeout);
      })
      × (lookup j.print_job_id w'.jobs ≡ some k)
      × ((id : Identifier) → j.print_job_id ≢ id → lookup id w'.jobs ≡ lookup id w.jobs)
unfolding claim_next_eligible claim_target
claim_next_eligible_lem is_uuid4 now policy k w w' h =
    elim (Option-cases (first (sorted claim_before (filter (is_eligible now) (values w.jobs))))) [
      | inl empty ↦ ground arith
      | inr (j, target) ↦
          let (same, stored) = claim_target-ok is_uuid4 now policy j k w w' (
            subst
              (λ (t : Option KitchenPrintJob).
                claim_target is_uuid4 now policy t w ≡ (ok (some k), w'))
              target h) in
          let (mine, eligible) = eligible_is_stored now j w target in
          (
            j,
            mine,
            is_eligible-IsEligible now j eligible,
            λ b m e. target_is_earliest now j b w target m (IsEligible-is_eligible now b e),
            same,
            rw stored (lookup-insert_self j.print_job_id k w.jobs),
            λ id other. rw stored (lookup-insert_ne j.print_job_id id k w.jobs other),
          )
    ]

-- An attempt in the list shows in its sorted filtrate.
not_empty : (b : KitchenPrintJob) (l : List KitchenPrintJob) → first l ≡ none → ¬ In b l
not_empty b [] h m = m
not_empty b (x ∷ xs) h m = ground arith

-- A claim returns no attempt and changes nothing exactly when there is no stored attempt to which
-- nothing has happened and whose acceptance window is open.
pub claim_next_eligible-none_iff :
    (is_uuid4 : Identifier → Bool) (now : DateTime) (policy : KitchenPrintPolicy) (w : World)
    → (claim_next_eligible is_uuid4 now policy w ≡ (ok none, w))
      ↔ ((b : KitchenPrintJob) → In b (values w.jobs) → ¬ IsEligible now b)
unfolding claim_next_eligible claim_target
claim_next_eligible-none_iff is_uuid4 now policy w =
    elim (Option-cases (first (sorted claim_before (filter (is_eligible now) (values w.jobs))))) [
      | inl empty ↦ (
        λ _ b m e. not_empty b _ empty (
            In-sorted claim_before b (filter (is_eligible now) (values w.jobs))
              (filter-In (is_eligible now) b (values w.jobs) m (IsEligible-is_eligible now b e))),
        λ _. rw empty refl,
      )
      | inr (j, target) ↦
          let (mine, eligible) = eligible_is_stored now j w target in
          (
            λ h. ground (arith, target),
            λ none_open. absurd (none_open j mine (is_eligible-IsEligible now j eligible)),
          )
    ]
