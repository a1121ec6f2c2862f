-- ===== src/Printing/Service/Keeps.antt =====
-- Invariants of the service's commands from those of the repository's methods: a command reads, and
-- changes orders and attempts by a method of the repository alone.
use silberloeffel_catering.Common.{◌≡◌, false, Option, some, arith, inl, inr, Option-cases}
use silberloeffel_catering.Common.Text.{Text, codes}
use silberloeffel_catering.Common.Dict.{Dict}
use silberloeffel_catering.Common.Results.{ok, Result-cases}
use silberloeffel_catering.Orders.Model.{Identifier, DateTime, Order, OrderVersion}
use silberloeffel_catering.Orders.Repository.{OrderStore}
use silberloeffel_catering.KitchenPrint.Job.{KitchenPrintJob, new_job}
use silberloeffel_catering.World.{World}
use silberloeffel_catering.Printing.Repository.{
  save, update, save_reprint, acknowledge_and_confirm, claim_next_eligible as claim_from_store,
}
use silberloeffel_catering.Printing.Service.{
  KitchenPrintService, request_print, accept_print_job, reject_print_job, acknowledge_print_job,
  claim_next_eligible, reprint, active_job_context, activation_after_successful_print, superseding,
}

abbrev pub Holds : (OrderStore → Dict KitchenPrintJob → Type 0) → World → Type 0
Holds Q w = Q w.orders w.jobs

module _ (Q : OrderStore → Dict KitchenPrintJob → Type 0) (self : KitchenPrintService)
    (id : Identifier) (now : DateTime) (w : World) (start : Holds Q w) where
  pub accept_print_job-keeps :
      ((j k : KitchenPrintJob) → new_job self.is_uuid4 j ≡ ok k → Holds Q (update k w).1)
      → Holds Q (accept_print_job self id now w).1
  unfolding accept_print_job
  accept_print_job-keeps keep = grind (arith, keep)

  pub reject_print_job-keeps :
      (code : Text)
      → ((j k : KitchenPrintJob) → new_job self.is_uuid4 j ≡ ok k → Holds Q (update k w).1)
      → Holds Q (reject_print_job self id code now w).1
  unfolding reject_print_job
  reject_print_job-keeps code keep = grind (arith, keep)

  pub acknowledge_print_job-keeps :
      ((j k : KitchenPrintJob) (v : OrderVersion) (o : Order) (a : Option Order)
        → new_job self.is_uuid4 j ≡ ok k
        → Holds Q (acknowledge_and_confirm k v o a w).1)
      → Holds Q (acknowledge_print_job self id now w).1
  unfolding acknowledge_print_job
  acknowledge_print_job-keeps keep = elim (Result-cases (active_job_context id false w)) [
    | inr (e, h) ↦ ground arith
    | inl ((job, (order, version)), h) ↦
        elim (Result-cases (new_job self.is_uuid4 (record job { acknowledged_at = some now }))) [
          | inr (e, g) ↦ ground arith
          | inl (k, g) ↦ elim (Option-cases version.kitchen_print_confirmed_at) [
            | inl unset ↦
                let filed =
                  keep _ k (record version { kitchen_print_confirmed_at = some now }) order
                    (activation_after_successful_print order version now) g in
                ground (arith, filed)
            | inr (t, set) ↦
                let filed =
                  keep _ k version order (activation_after_successful_print order version now) g in
                ground (arith, filed)
          ]
        ]
  ]

  pub request_print-keeps :
      (order_version_id : Identifier) (given : Option Identifier) (fresh : Identifier)
      → ((j k : KitchenPrintJob) → new_job self.is_uuid4 j ≡ ok k → Holds Q (save k w).1)
      → Holds Q (request_print self id order_version_id given fresh now w).1
  unfolding request_print
  request_print-keeps order_version_id given fresh keep = grind (arith, keep)

  pub claim_next_eligible-keeps :
      (later : DateTime)
      → Holds Q (claim_from_store self.is_uuid4 now self.policy w).1
      → ((i : Identifier) (w' : World)
          → Holds Q w'
          → Holds Q (reject_print_job self i (codes "order_cancelled") later w').1)
      → Holds Q (claim_next_eligible self now later w).1
  unfolding claim_next_eligible
  claim_next_eligible-keeps later claimed rejected = grind (arith, claimed, rejected)

  pub reprint-keeps :
      (given : Option Identifier) (fresh : Identifier)
      → ((previous j k : KitchenPrintJob) (updated : Option KitchenPrintJob)
          → superseding self previous now ≡ ok updated
          → new_job self.is_uuid4 j ≡ ok k
          → Holds Q (save_reprint previous updated k w).1)
      → Holds Q (reprint self id given fresh now w).1
  unfolding reprint
  reprint-keeps given fresh keep = grind (arith, keep)
