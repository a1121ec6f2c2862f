-- ===== src/System/Orderly.antt =====
-- Whatever commands run, the stored orders stay sound and the print attempts tracked.
use silberloeffel_catering.Common.{◌≡◌, subst, sym, List, [], ◌∷◌, arith}
use silberloeffel_catering.Common.Dict.{Dict, lookup}
use silberloeffel_catering.Orders.Model.{DateTime}
use silberloeffel_catering.Orders.Repository.{OrderStore}
use silberloeffel_catering.Orders.Repository.Soundness.{IsSound}
use silberloeffel_catering.Orders.Repository.History.{start, Reach-IsConsistent}
use silberloeffel_catering.Orders.Commands.{
  create_order_from_offer_version-IsSound, create_relevant_order_change_version-IsSound,
  set_candidate_order_version-IsSound,
}
use silberloeffel_catering.Orders.Candidate.{
  propose_order_version_change-IsSound, propose_delivery_address_change-IsSound,
}
use silberloeffel_catering.OperationalCore.Switch.{
  confirm_kitchen_print-IsSound, make_order_version_effective-IsSound, cancel_order-IsSound,
}
use silberloeffel_catering.KitchenPrint.Job.{KitchenPrintJob}
use silberloeffel_catering.World.{World, empty_world}
use silberloeffel_catering.Printing.Repository.Attempts.{IsTracked}
use silberloeffel_catering.Printing.Service.{KitchenPrintService}
use silberloeffel_catering.Printing.Service.Sound.{
  IsOrderly, request_print-IsOrderly, accept_print_job-IsOrderly, reject_print_job-IsOrderly,
  acknowledge_print_job-IsOrderly, claim_next_eligible-IsOrderly, reprint-IsOrderly,
}
use silberloeffel_catering.System.{
  Command, create_order, change_version, set_candidate, propose_change, propose_address,
  confirm_print, make_effective, cancel, pause, resume, release, request, accept, acknowledge,
  reject, claim, print_again, perform, perform_all,
}
use silberloeffel_catering.System.Jobs.{
  create_order-jobs, change_version-jobs, set_candidate-jobs, propose_change-jobs,
  propose_address-jobs, confirm-jobs, switch-jobs, cancel-jobs, pause-stores, resume-stores,
  release-stores,
}

-- A command on orders that keeps them sound and leaves the attempts alone.
orders-IsOrderly :
    {s s' : OrderStore} {jobs jobs' : Dict KitchenPrintJob}
    → IsOrderly s jobs
    → IsSound s'
    → jobs' ≡ jobs
    → IsOrderly s' jobs'
orders-IsOrderly i sound same = record {
  sound = sound;
  tracked = subst IsTracked (sym same) i.tracked;
}

same-IsOrderly :
    {s s' : OrderStore} {jobs jobs' : Dict KitchenPrintJob}
    → IsOrderly s jobs
    → (s' ≡ s) × (jobs' ≡ jobs)
    → IsOrderly s' jobs'
same-IsOrderly i same = record {
  sound = subst IsSound (sym same.0) i.sound;
  tracked = subst IsTracked (sym same.1) i.tracked;
}

empty-IsOrderly : IsOrderly empty_world.orders empty_world.jobs
unfolding lookup
empty-IsOrderly = record {
  sound = record {
    consistent = Reach-IsConsistent start;
    effective_confirmed = λ k c o v e f g. ground arith;
  };
  tracked = record {
    unique = tt;
    job_key = λ k j h. ground arith;
    job_valid = λ k j h. ground arith;
    attempts_differ = λ k l i j e f g h. ground arith;
    one_live = λ k l i j e f g h x. ground arith;
  };
}

module _ (self : KitchenPrintService) where
  perform-IsOrderly :
      (now : DateTime) (c : Command) (w : World)
      → IsOrderly w.orders w.jobs
      → let w' = perform self now c w in IsOrderly w'.orders w'.jobs
  unfolding perform
  perform-IsOrderly now (create_order inquiry_id offer inquiry evidence order_id version_id) w i =
      orders-IsOrderly i
        (create_order_from_offer_version-IsSound inquiry_id offer inquiry evidence order_id
          version_id now w i.sound)
        (create_order-jobs inquiry_id offer inquiry evidence order_id version_id now w)
  perform-IsOrderly now (change_version order date window location guests mode context version_id) w
        i =
      orders-IsOrderly i
        (create_relevant_order_change_version-IsSound order date window location guests mode context
          version_id now w i.sound)
        (change_version-jobs order date window location guests mode context version_id now w)
  perform-IsOrderly now (set_candidate order_id version_id) w i =
      orders-IsOrderly i (set_candidate_order_version-IsSound order_id version_id now w i.sound)
        (set_candidate-jobs order_id version_id now w)
  perform-IsOrderly now
        (propose_change order_id date window location guests mode actor reason context version_id) w
        i =
      orders-IsOrderly i
        (propose_order_version_change-IsSound order_id date window location guests mode actor reason
          context version_id now w i.sound)
        (propose_change-jobs order_id date window location guests mode actor reason context
          version_id now w)
  perform-IsOrderly now (propose_address order_id parent address actor reason version_id) w i =
      orders-IsOrderly i
        (propose_delivery_address_change-IsSound order_id parent address actor reason version_id now
          w i.sound)
        (propose_address-jobs order_id parent address actor reason version_id now w)
  perform-IsOrderly now (confirm_print order_id version_id) w i =
      orders-IsOrderly i (confirm_kitchen_print-IsSound order_id version_id now w i.sound)
        (confirm-jobs order_id version_id now w)
  perform-IsOrderly now (make_effective order_id version_id) w i =
      orders-IsOrderly i (make_order_version_effective-IsSound order_id version_id now w i.sound)
        (switch-jobs order_id version_id now w)
  perform-IsOrderly now (cancel order_id later) w i =
      orders-IsOrderly i (cancel_order-IsSound order_id now later w i.sound)
        (cancel-jobs order_id now later w)
  perform-IsOrderly now (pause order_id reason remark actor command latest fresh) w i =
      same-IsOrderly i (pause-stores order_id reason remark actor command latest fresh now w)
  perform-IsOrderly now (resume order_id reason remark actor command current latest fresh) w i =
      same-IsOrderly i
        (resume-stores order_id reason remark actor command current latest fresh now w)
  perform-IsOrderly now (release order_id) w i = same-IsOrderly i (release-stores order_id w)
  perform-IsOrderly now (request order_id version_id given fresh) w i =
      request_print-IsOrderly self now w i order_id version_id given fresh
  perform-IsOrderly now (accept id) w i = accept_print_job-IsOrderly self now w i id
  perform-IsOrderly now (acknowledge id) w i = acknowledge_print_job-IsOrderly self now w i id
  perform-IsOrderly now (reject id code) w i = reject_print_job-IsOrderly self now w i id code
  perform-IsOrderly now (claim later) w i = claim_next_eligible-IsOrderly self now later w i
  perform-IsOrderly now (print_again id given fresh) w i =
      reprint-IsOrderly self now w i id given fresh

  pub steps-IsOrderly :
      (commands : List (DateTime × Command)) (w : World)
      → IsOrderly w.orders w.jobs
      → let w' = perform_all self commands w in IsOrderly w'.orders w'.jobs
  unfolding perform_all
  steps-IsOrderly [] w i = i
  steps-IsOrderly ((now, c) ∷ rest) w i = steps-IsOrderly rest _ (perform-IsOrderly now c w i)

  -- Starting from the empty state, any list of commands of the order service, the operational core
  -- and the print service, at any times and raising or not, leaves the stores orderly: references
  -- of an order name stored versions of it, an effective version has a confirmed kitchen print,
  -- attempts are filed under their own identifier with valid facts, numbers of one version differ,
  -- and at most one attempt of a version is live.
  pub perform_all-IsOrderly :
      (commands : List (DateTime × Command))
      → let w = perform_all self commands empty_world in IsOrderly w.orders w.jobs
  perform_all-IsOrderly commands = steps-IsOrderly commands empty_world empty-IsOrderly
