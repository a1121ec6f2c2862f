-- ===== src/Printing/Repository/Acknowledged.antt =====
-- An acknowledgement writes to the orders, to the versions and to the attempts: all of it or nothing,
-- and the orders stay sound.
use silberloeffel_catering.Common.{◌≡◌, Bool, true, Option, some, arith, is_some}
use silberloeffel_catering.Common.Dict.{lookup-insert}
use silberloeffel_catering.Common.Results.{Result, ok, err, Error}
use silberloeffel_catering.Orders.Model.{Order, OrderVersion}
use silberloeffel_catering.Orders.Repository.{OrderStore, update_order, update_order_version}
use silberloeffel_catering.Orders.Repository.Consistency.{
  update_order-ok, update_order_version-ok, update_order-IsConsistent,
  update_order_version-IsConsistent,
}
use silberloeffel_catering.Orders.Repository.Soundness.{IsSound, update_order_version-IsSound}
use silberloeffel_catering.KitchenPrint.Job.{KitchenPrintJob}
use silberloeffel_catering.World.{World}
use silberloeffel_catering.Printing.Repository.{acknowledge_and_confirm}
use silberloeffel_catering.Printing.Repository.Confirmation.{acknowledge_and_confirm-cases}

-- Selecting a version and confirming it, in this order, keeps the orders sound, although the store
-- between the two writes may not be.
select_and_confirm-IsSound :
    (a : Order) (c : OrderVersion) (s t u : OrderStore)
    → IsSound s
    → a.effective_order_version_id ≡ some c.order_version_id
    → is_some c.kitchen_print_confirmed_at ≡ true
    → update_order a s ≡ ok t
    → update_order_version c t ≡ ok u
    → IsSound u
select_and_confirm-IsSound a c s t u i points confirmed h g = record {
  consistent =
      update_order_version-IsConsistent c t u (update_order-IsConsistent a s t i.consistent h) g;
  effective_confirmed = λ k e o v f same found.
      let p = update_order-ok a s t h in
      let q = update_order_version-ok c t u g in
      ground (
        arith,
        p.3,
        q.4,
        lookup-insert a.order_id k a s.orders,
        lookup-insert c.order_version_id e c t.versions,
        i.effective_confirmed k e o v,
      );
}

-- An acknowledgement that raises has written nothing, although it writes to orders, versions and
-- attempts one after the other.
pub acknowledge_and_confirm-atomic :
    (job : KitchenPrintJob) (version : OrderVersion) (expected : Order) (activated : Option Order)
    (e : Error) (w w' : World)
    → acknowledge_and_confirm job version expected activated w ≡ (err e, w')
    → w' ≡ w
acknowledge_and_confirm-atomic job version expected activated e w w' =
    acknowledge_and_confirm-cases (λ (r : Result Bool × World). r ≡ (err e, w') → w' ≡ w) job
      version expected activated w (λ x h. ground arith) (λ s h c g. ground arith)
      (λ a t s set points h g c k. ground arith)

pub acknowledge_and_confirm-IsSound :
    (job : KitchenPrintJob) (version : OrderVersion) (expected : Order) (activated : Option Order)
    (w : World)
    → IsSound w.orders
    → IsSound (acknowledge_and_confirm job version expected activated w).1.orders
acknowledge_and_confirm-IsSound job version expected activated w i =
    acknowledge_and_confirm-cases (λ (r : Result Bool × World). IsSound r.1.orders) job version
      expected activated w (λ e. i)
      (λ s h confirmed. update_order_version-IsSound version w.orders s i h)
      (λ a t s set points h g confirmed.
        select_and_confirm-IsSound a version w.orders t s i points confirmed h g)
