-- ===== src/Printing/Service/Sound.antt =====
-- Every command of the print service keeps the attempts tracked and the orders sound.
use silberloeffel_catering.Common.{◌≡◌, sym, subst, Option, some, arith, inl, inr}
use silberloeffel_catering.Common.Text.{Text, codes}
use silberloeffel_catering.Common.Dict.{Dict}
use silberloeffel_catering.Common.Results.{ok, Result-cases}
use silberloeffel_catering.Orders.Model.{Identifier, DateTime}
use silberloeffel_catering.Orders.Repository.{OrderStore}
use silberloeffel_catering.Orders.Repository.Soundness.{IsSound}
use silberloeffel_catering.KitchenPrint.Job.{KitchenPrintJob, new_job}
use silberloeffel_catering.KitchenPrint.Job.Lifecycle.{IsValid, new_job-IsValid}
use silberloeffel_catering.World.{World}
use silberloeffel_catering.Printing.Repository.{
  save, update, save_reprint, claim_next_eligible as claim_from_store,
}
use silberloeffel_catering.Printing.Repository.Attempts.{IsTracked}
use silberloeffel_catering.Printing.Repository.Methods.{
  Ends, save-IsTracked, update-IsTracked, save_reprint-IsTracked, acknowledge_and_confirm-IsTracked,
  claim_next_eligible-IsTracked,
}
use silberloeffel_catering.Printing.Repository.Acknowledged.{acknowledge_and_confirm-IsSound}
use silberloeffel_catering.Printing.Service.{
  KitchenPrintService, request_print, accept_print_job, reject_print_job, acknowledge_print_job,
  claim_next_eligible, reprint, superseding,
}
use silberloeffel_catering.Printing.Service.Keeps.{
  request_print-keeps, accept_print_job-keeps, reject_print_job-keeps, acknowledge_print_job-keeps,
  claim_next_eligible-keeps, reprint-keeps,
}

-- The stores under the invariants of both repositories.
pub record IsOrderly (orders : OrderStore) (jobs : Dict KitchenPrintJob) : Type 0 where
  pub sound : IsSound orders
  pub tracked : IsTracked jobs

-- The methods that only file attempts leave the orders alone.
save-orders : (job : KitchenPrintJob) (w : World) → (save job w).1.orders ≡ w.orders
unfolding save
save-orders job w = ground arith

update-orders : (job : KitchenPrintJob) (w : World) → (update job w).1.orders ≡ w.orders
unfolding update
update-orders job w = ground arith

save_reprint-orders :
    (previous : KitchenPrintJob) (updated : Option KitchenPrintJob) (job : KitchenPrintJob)
    (w : World)
    → (save_reprint previous updated job w).1.orders ≡ w.orders
unfolding save_reprint
save_reprint-orders previous updated job w = ground arith

claim-orders :
    (self : KitchenPrintService) (now : DateTime) (w : World)
    → (claim_from_store self.is_uuid4 now self.policy w).1.orders ≡ w.orders
unfolding claim_from_store
claim-orders self now w = ground arith

valid :
    (self : KitchenPrintService) (j k : KitchenPrintJob)
    → new_job self.is_uuid4 j ≡ ok k
    → IsValid k
valid self j k h =
    let made = new_job-IsValid self.is_uuid4 j k h in subst IsValid (sym made.0) made.1

-- A live attempt is ended by the reprint, and an ended one is left alone.
superseding-Ends :
    (self : KitchenPrintService) (previous : KitchenPrintJob) (now : DateTime)
    (updated : Option KitchenPrintJob)
    → superseding self previous now ≡ ok updated
    → Ends previous updated
unfolding superseding
superseding-Ends self previous now updated h = record {
  left_alone = λ e. ground arith;
  ended = λ u e.
      let candidate = record previous { superseded_at = some now } in
      elim (Result-cases (new_job self.is_uuid4 candidate)) [
        | inr (x, g) ↦ ground arith
        | inl (k, g) ↦
            let made = new_job-IsValid self.is_uuid4 candidate k g in
            let same : u ≡ k = ground arith in
            (ground (arith, made.0, same), subst IsValid (sym same) (valid self candidate k g))
      ];
}

module _ (self : KitchenPrintService) (now : DateTime) (w : World)
    (i : IsOrderly w.orders w.jobs) where
  -- A print request keeps the orders sound and the attempts tracked.
  pub request_print-IsOrderly :
      (order_id order_version_id : Identifier) (given : Option Identifier) (fresh : Identifier)
      → let w' = (request_print self order_id order_version_id given fresh now w).1 in
        IsOrderly w'.orders w'.jobs
  request_print-IsOrderly order_id order_version_id given fresh =
      request_print-keeps IsOrderly self order_id now w i order_version_id given fresh (λ j k made.
        record {
          sound = rw (save-orders k w) i.sound;
          tracked = save-IsTracked k w i.tracked (valid self j k made);
        })

  -- Accepting an attempt keeps the orders sound and the attempts tracked.
  pub accept_print_job-IsOrderly :
      (id : Identifier) → let w' = (accept_print_job self id now w).1 in IsOrderly w'.orders w'.jobs
  accept_print_job-IsOrderly id = accept_print_job-keeps IsOrderly self id now w i (λ j k made.
      record {
        sound = rw (update-orders k w) i.sound;
        tracked = update-IsTracked k w i.tracked (valid self j k made);
      })

  -- Rejecting an attempt keeps the orders sound and the attempts tracked.
  pub reject_print_job-IsOrderly :
      (id : Identifier) (code : Text)
      → let w' = (reject_print_job self id code now w).1 in IsOrderly w'.orders w'.jobs
  reject_print_job-IsOrderly id code =
      reject_print_job-keeps IsOrderly self id now w i code (λ j k made. record {
        sound = rw (update-orders k w) i.sound;
        tracked = update-IsTracked k w i.tracked (valid self j k made);
      })

  -- Acknowledging a print attempt keeps the orders sound (an effective version is a stored version
  -- of its order with a confirmed kitchen print) and the attempts tracked, on every branch, raises
  -- included.
  pub acknowledge_print_job-IsOrderly :
      (id : Identifier)
      → let w' = (acknowledge_print_job self id now w).1 in IsOrderly w'.orders w'.jobs
  acknowledge_print_job-IsOrderly id =
      acknowledge_print_job-keeps IsOrderly self id now w i (λ j k v o a made. record {
        sound = acknowledge_and_confirm-IsSound k v o a w i.sound;
        tracked = acknowledge_and_confirm-IsTracked k v o a w i.tracked (valid self j k made);
      })

  -- A reprint keeps the orders sound and the attempts tracked: numbers of one version differ and
  -- at most one attempt is live, although the old attempt is ended and the new one filed by the
  -- same call.
  pub reprint-IsOrderly :
      (id : Identifier) (given : Option Identifier) (fresh : Identifier)
      → let w' = (reprint self id given fresh now w).1 in IsOrderly w'.orders w'.jobs
  reprint-IsOrderly id given fresh =
      reprint-keeps IsOrderly self id now w i given fresh (λ previous j k updated superseded made.
        record {
          sound = rw (save_reprint-orders previous updated k w) i.sound;
          tracked =
              save_reprint-IsTracked previous k updated w i.tracked (valid self j k made)
                (superseding-Ends self previous now updated superseded);
        })

-- The claim of the next attempt, with the rejection that follows for a cancelled order, keeps the
-- orders sound and the attempts tracked.
pub claim_next_eligible-IsOrderly :
    (self : KitchenPrintService) (now later : DateTime) (w : World)
    → IsOrderly w.orders w.jobs
    → let w' = (claim_next_eligible self now later w).1 in IsOrderly w'.orders w'.jobs
claim_next_eligible-IsOrderly self now later w i =
    claim_next_eligible-keeps IsOrderly self 0 now w i later
      (record {
        sound = rw (claim-orders self now w) i.sound;
        tracked = claim_next_eligible-IsTracked self.is_uuid4 now self.policy w i.tracked;
      })
      (λ j w' o. reject_print_job-IsOrderly self later w' o j (codes "order_cancelled"))
