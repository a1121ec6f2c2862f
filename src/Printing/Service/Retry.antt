-- ===== src/Printing/Service/Retry.antt =====
-- A print agent that lost the answer asks again.
use silberloeffel_catering.Common.{
  ◌≡◌, true, false, none, some, arith, is_some, inl, inr, Option-cases,
}
use silberloeffel_catering.Common.Dict.{lookup, insert, lookup-insert}
use silberloeffel_catering.Common.Results.{ok, Result-cases}
use silberloeffel_catering.Orders.Model.{Identifier, DateTime, Order, OrderVersion}
use silberloeffel_catering.Orders.Repository.{get_order, get_order_version}
use silberloeffel_catering.KitchenPrint.Job.{KitchenPrintJob, new_job}
use silberloeffel_catering.World.{World}
use silberloeffel_catering.Printing.Repository.{get_job, update}
use silberloeffel_catering.Printing.Repository.Attempts.{IsTracked}
use silberloeffel_catering.Printing.Service.{
  KitchenPrintService, accept_print_job, active_job_context, active_owned_version,
}

-- A context that a command resolved is in the stores.
context-ok :
    (id : Identifier) (w : World) (j : KitchenPrintJob) (o : Order) (v : OrderVersion)
    → active_job_context id false w ≡ ok (j, (o, v))
    → (lookup id w.jobs ≡ some j)
      × (get_order w.orders j.order_id ≡ some o)
      × (o.cancelled_at ≡ none)
      × (get_order_version w.orders j.order_version_id ≡ some v)
      × (v.order_id ≡ j.order_id)
unfolding active_job_context active_owned_version get_job
context-ok id w j o v h = ground arith

-- A context of an attempt whose order is active is resolved.
context-found :
    (id : Identifier) (w : World) (j : KitchenPrintJob) (o : Order) (v : OrderVersion)
    → lookup id w.jobs ≡ some j
    → get_order w.orders j.order_id ≡ some o
    → o.cancelled_at ≡ none
    → get_order_version w.orders j.order_version_id ≡ some v
    → v.order_id ≡ j.order_id
    → active_job_context id false w ≡ ok (j, (o, v))
unfolding active_job_context active_owned_version get_job
context-found id w j o v a b c d e = ground arith

-- An attempt that is accepted already is returned as it is, if its order is still active.
accepted_again :
    (self : KitchenPrintService) (id : Identifier) (now : DateTime) (w : World)
    (j : KitchenPrintJob) (context : Order × OrderVersion)
    → active_job_context id false w ≡ ok (j, context)
    → is_some j.accepted_at ≡ true
    → accept_print_job self id now w ≡ (ok j, w)
unfolding accept_print_job
accepted_again self id now w j context found e = ground arith

-- The first acceptance of an attempt files it.
accepts_first :
    (self : KitchenPrintService) (id : Identifier) (now : DateTime) (w w' : World)
    (j k : KitchenPrintJob) (context : Order × OrderVersion)
    → active_job_context id false w ≡ ok (j, context)
    → j.accepted_at ≡ none
    → accept_print_job self id now w ≡ (ok k, w')
    → (is_some k.accepted_at ≡ true)
      × (k.print_job_id ≡ j.print_job_id)
      × (k.order_id ≡ j.order_id)
      × (k.order_version_id ≡ j.order_version_id)
      × (w'.jobs ≡ insert k.print_job_id k w.jobs)
      × (w'.orders ≡ w.orders)
unfolding accept_print_job new_job update
accepts_first self id now w w' j k context found fresh h = ground arith

-- With tracked attempts, an acceptance that returned and is asked for again, at any later or
-- earlier time, returns the same attempt and changes nothing.
pub accept_print_job_again :
    (self : KitchenPrintService) (id : Identifier) (now later : DateTime) (w w' : World)
    (k : KitchenPrintJob)
    → IsTracked w.jobs
    → accept_print_job self id now w ≡ (ok k, w')
    → accept_print_job self id later w' ≡ (ok k, w')
unfolding accept_print_job
accept_print_job_again self id now later w w' k t h =
    elim (Result-cases (active_job_context id false w)) [
      | inr (e, x) ↦ ground arith
      | inl ((j, (o, v)), x) ↦ elim (Option-cases j.accepted_at) [
        | inr (a, set) ↦ ground arith
        | inl fresh ↦
            let c = context-ok id w j o v x in
            let r = accepts_first self id now w w' j k (o, v) x fresh h in
            let key = t.job_key id j c.0 in
            let stored : lookup id w'.jobs ≡ some k =
              rw (r.4) (ground (arith, lookup-insert k.print_job_id id k w.jobs, r.1, key)) in
            accepted_again self id later w' k (o, v)
              (context-found id w' k o v stored (rw (r.5, r.2) c.1) c.2 (rw (r.5, r.3) c.3)
                (rw r.2 c.4))
              r.0
      ]
    ]
