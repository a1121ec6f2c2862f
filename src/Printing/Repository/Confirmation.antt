-- ===== src/Printing/Repository/Confirmation.antt =====
-- The acknowledgement that also confirms the version and may activate it: all of its writes, or none.
use silberloeffel_catering.Common.{
  ◌≡◌, refl, sym, subst, Bool, true, false, Option, none, some, arith, is_some, is_none, inl, inr,
  opt_eq→eq, ==→eq, Option-cases, Bool-cases,
}
use silberloeffel_catering.Common.Dict.{lookup, insert}
use silberloeffel_catering.Common.Results.{Result, ok, err, Error, Result-cases}
use silberloeffel_catering.Orders.Model.{Order, OrderVersion, same_version_sound, same_version_refl}
use silberloeffel_catering.Orders.Repository.{
  OrderStore, get_order, get_order_version, update_order, update_order_version,
}
use silberloeffel_catering.Orders.Repository.Consistency.{update_order-ok}
use silberloeffel_catering.KitchenPrint.Job.{KitchenPrintJob}
use silberloeffel_catering.World.{World}
use silberloeffel_catering.Printing.Repository.{
  check_confirmation, acknowledge_and_confirm, write_confirmation, activation_applies,
  check_activated,
}

-- The confirmed version passes the checks of the order repository.
confirmation_passes :
    (job : KitchenPrintJob) (p c : OrderVersion) (s : OrderStore)
    → lookup c.order_version_id s.versions ≡ some p
    → check_confirmation job p c ≡ ok tt
    → is_none job.acknowledged_at ≡ false
    → (update_order_version c s
        ≡ ok (record s { versions = insert c.order_version_id c s.versions }))
      × (is_some c.kitchen_print_confirmed_at ≡ true)
unfolding check_confirmation update_order_version
confirmation_passes job p c s stored checked acknowledged =
    let new = record p { kitchen_print_confirmed_at = job.acknowledged_at } in
    elim (Option-cases p.kitchen_print_confirmed_at) [
      | inl unset ↦
          let same : c ≡ new = same_version_sound c new (ground arith) in
          ground (arith, same, same_version_refl c)
      | inr (t, set) ↦
          let same : c ≡ p = same_version_sound c p (ground arith) in
          ground (arith, same, same_version_refl c)
    ]

-- An update of an order leaves the versions alone.
update_order-versions :
    (a : Order) (s s' : OrderStore) → update_order a s ≡ ok s' → s'.versions ≡ s.versions
update_order-versions a s s' h = ground (arith, (update_order-ok a s s' h).3)

check_activated-ok :
    (job : KitchenPrintJob) (a : Order)
    → check_activated job (some a) ≡ ok tt
    → a.effective_order_version_id ≡ some job.order_version_id
unfolding check_activated
check_activated-ok job a h =
    ground (arith, opt_eq→eq a.effective_order_version_id (some job.order_version_id))

-- The writes under a stale activation.
stale_writes :
    (job : KitchenPrintJob) (c : OrderVersion) (o expected : Order) (activated : Option Order)
    (w : World) (s : OrderStore)
    → check_activated job activated ≡ ok tt
    → activation_applies o expected activated ≡ false
    → update_order_version c w.orders ≡ ok s
    → write_confirmation job c o expected activated w
      ≡ (ok false, record w { orders = s; jobs = insert job.print_job_id job w.jobs })
unfolding write_confirmation
stale_writes job c o expected activated w s right stale h = ground arith

-- The writes under an activation that applies.
selecting_writes :
    (job : KitchenPrintJob) (c : OrderVersion) (o expected a : Order) (w : World)
    (selected s : OrderStore)
    → check_activated job (some a) ≡ ok tt
    → activation_applies o expected (some a) ≡ true
    → update_order a w.orders ≡ ok selected
    → update_order_version c selected ≡ ok s
    → write_confirmation job c o expected (some a) w
      ≡ (ok true, record w { orders = s; jobs = insert job.print_job_id job w.jobs })
unfolding write_confirmation
selecting_writes job c o expected a w selected s right applies h g = ground arith

-- The writes that are refused before the first of them.
refused_writes :
    (job : KitchenPrintJob) (c : OrderVersion) (o expected : Order) (activated : Option Order)
    (w : World) (e : Error)
    → check_activated job activated ≡ err e
    → write_confirmation job c o expected activated w ≡ (err e, w)
unfolding write_confirmation
refused_writes job c o expected activated w e h = ground arith

refused_selection :
    (job : KitchenPrintJob) (c : OrderVersion) (o expected a : Order) (w : World) (e : Error)
    → check_activated job (some a) ≡ ok tt
    → activation_applies o expected (some a) ≡ true
    → update_order a w.orders ≡ err e
    → write_confirmation job c o expected (some a) w ≡ (err e, w)
unfolding write_confirmation
refused_selection job c o expected a w e right applies h = ground arith

never_applies : (o expected : Order) → activation_applies o expected none ≡ false
unfolding activation_applies
never_applies o expected = refl

-- The two ways in which an acknowledgement returns, and the one in which it raises.
module _ (Q : Result Bool × World → Type 0) (job : KitchenPrintJob) (c : OrderVersion)
    (expected : Order) (activated : Option Order) (w : World) (raised : (e : Error) → Q (err e, w))
    (confirms : (s : OrderStore)
      → update_order_version c w.orders ≡ ok s
      → is_some c.kitchen_print_confirmed_at ≡ true
      → Q (ok false, record w { orders = s; jobs = insert job.print_job_id job w.jobs }))
    (selects : (a : Order) (selected s : OrderStore)
      → activated ≡ some a
      → a.effective_order_version_id ≡ some c.order_version_id
      → update_order a w.orders ≡ ok selected
      → update_order_version c selected ≡ ok s
      → is_some c.kitchen_print_confirmed_at ≡ true
      → Q (ok true, record w { orders = s; jobs = insert job.print_job_id job w.jobs })) where
  write_confirmation-cases :
      (p : OrderVersion) (o : Order)
      → lookup c.order_version_id w.orders.versions ≡ some p
      → check_confirmation job p c ≡ ok tt
      → is_none job.acknowledged_at ≡ false
      → c.order_version_id ≡ job.order_version_id
      → Q (write_confirmation job c o expected activated w)
  unfolding write_confirmation
  write_confirmation-cases p o stored checked acknowledged same =
      let passes = confirmation_passes job p c w.orders stored checked acknowledged in
      let left = confirms _ passes.0 passes.1 in
      elim (Result-cases (check_activated job activated)) [
        | inr (e, h) ↦ subst Q (sym (refused_writes job c o expected activated w e h)) (raised e)
        | inl (_, right) ↦ elim (Bool-cases (activation_applies o expected activated)) [
          | inr stale ↦
              subst Q (sym (stale_writes job c o expected activated w _ right stale passes.0)) left
          | inl applies ↦ elim (Option-cases activated) [
            | inl unset ↦ cc (never_applies o expected)
            | inr (a, set) ↦
                let right_a =
                  subst (λ (x : Option Order). check_activated job x ≡ ok tt) set right in
                let applies_a =
                  subst (λ (x : Option Order). activation_applies o expected x ≡ true) set
                    applies in
                let points = check_activated-ok job a right_a in
                elim (Result-cases (update_order a w.orders)) [
                  | inr (e, h) ↦ rw set (
                      subst Q (sym (refused_selection job c o expected a w e right_a applies_a h))
                        (raised e))
                  | inl (s, h) ↦
                      let later =
                        confirmation_passes job p c s
                          (rw (update_order-versions a w.orders s h) stored) checked acknowledged in
                      let written =
                        selecting_writes job c o expected a w s _ right_a applies_a h later.0 in
                      rw set (
                        subst Q (sym written)
                          (selects a s _ set (rw same points) h later.0 later.1))
                ]
          ]
        ]
      ]

  pub acknowledge_and_confirm-cases : Q (acknowledge_and_confirm job c expected activated w)
  unfolding acknowledge_and_confirm get_order_version get_order
  acknowledge_and_confirm-cases =
      let tail = write_confirmation-cases in
      grind (arith, raised, tail, ==→eq c.order_version_id job.order_version_id)
