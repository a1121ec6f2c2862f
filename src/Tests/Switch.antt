-- ===== src/Tests/Switch.antt =====
-- The theorems on the candidate, the effective switch, the gate and the cancellation.
use silberloeffel_catering.Common.{
  ℕ, suc, ◌≤◌, ◌≡◌, Option, false, ◌≢◌, refl, subst, true, none, some, [], ◌∷◌, ◌++◌, arith,
  is_some, ◌↔◌,
}
use silberloeffel_catering.Common.Dict.{lookup, insert}
use silberloeffel_catering.Common.Text.{Text, codes}
use silberloeffel_catering.Common.Results.{Result, ok, err, value_error, order_cancelled}
use silberloeffel_catering.Orders.Model.{Order, OrderVersion, Identifier, DateTime}
use silberloeffel_catering.Orders.Repository.{
  get_order, get_order_version, update_order, validate_order_references, reference_owned,
}
use silberloeffel_catering.Orders.Repository.Soundness.{IsSound}
use silberloeffel_catering.Orders.Service.{get_candidate_order_version}
use silberloeffel_catering.Orders.Proposal.{with_candidate}
use silberloeffel_catering.Orders.Candidate.{
  propose_order_version_change-IsSound, propose_order_version_change_lem,
}
use silberloeffel_catering.OperationalCore.{
  confirm_kitchen_print, make_order_version_effective, cancel_order, evaluate_ready_to_send,
  owned_version, pause_order, resume_order,
}
use silberloeffel_catering.OperationalCore.Switch.{
  confirm_kitchen_print-IsSound, make_order_version_effective-IsSound,
  make_order_version_effective_lem, cancel_order_again,
}
use silberloeffel_catering.OperationalCore.Cancelled.{cancel_order_final}
use silberloeffel_catering.OperationalCore.Gate.{
  IsReleased, ready-iff-IsReleased, ready-iff-no_reasons,
}
use silberloeffel_catering.World.{World, order_version_made_effective, order_cancelled_event}
use silberloeffel_catering.Tests.Life.{
  acknowledged, confirmed_version, proposed, proposed_version, proposed_order, proposes,
  ready_to_switch, confirms,
}
use silberloeffel_catering.Tests.Printing.{acknowledged-IsOrderly}

acknowledged-IsSound : IsSound acknowledged.orders
acknowledged-IsSound = acknowledged-IsOrderly.sound

stored_10 : lookup 10 acknowledged.orders.versions ≡ some confirmed_version
unfolding lookup
stored_10 = refl

owner_10 : confirmed_version.order_id ≡ 1
owner_10 = refl

abbrev fresh_id : ℕ
fresh_id = 11

fresh_11 : fresh_id ≢ 0
fresh_11 h = ground arith

propose_order_version_change_lem_example :
    (get_candidate_order_version 1 proposed.orders ≡ some proposed_version)
    × (suc confirmed_version.version_number ≤ proposed_version.version_number)
    × (o : Order) × (get_order acknowledged.orders 1 ≡ some o)
    × (get_order proposed.orders 1 ≡ some (with_candidate o 11 300))
propose_order_version_change_lem_example =
    propose_order_version_change_lem 1 738000 (codes "abends") (codes "Wien") (some 95)
      (codes "caterer_suggestion") (codes "office") (codes "mehr Gäste") none 11 300 acknowledged
      proposed proposed_version confirmed_version 10 acknowledged-IsSound.consistent stored_10
      owner_10 fresh_11 proposes

proposed-IsSound : IsSound proposed.orders
proposed-IsSound =
    subst (λ (r : Result OrderVersion × World). IsSound r.1.orders) proposes
      (propose_order_version_change-IsSound 1 738000 (codes "abends") (codes "Wien") (some 95)
        (codes "caterer_suggestion") (codes "office") (codes "mehr Gäste") none 11 300 acknowledged
        acknowledged-IsSound)

ready_to_switch-IsSound : IsSound ready_to_switch.orders
ready_to_switch-IsSound =
    subst (λ (r : Result OrderVersion × World). IsSound r.1.orders) confirms
      (confirm_kitchen_print-IsSound 1 11 310 proposed proposed-IsSound)

abbrev switched_order : Order
switched_order = record proposed_order {
  effective_order_version_id = some 11;
  candidate_order_version_id = none;
  updated_at = 320;
}

abbrev switched : World
switched = record ready_to_switch {
  orders = record ready_to_switch.orders { orders = (1, switched_order) ∷ [] };
  events = ready_to_switch.events ++ order_version_made_effective 1 11 ∷ [];
}

switches : make_order_version_effective 1 11 320 ready_to_switch ≡ (ok switched_order, switched)
unfolding make_order_version_effective owned_version get_order get_order_version lookup insert
    update_order validate_order_references reference_owned
switches = refl

make_order_version_effective_lem_example :
    (get_order switched.orders 1 ≡ some switched_order)
    × (switched_order.effective_order_version_id ≡ some 11)
    × (switched_order.candidate_order_version_id ≡ none)
    × (switched_order.cancelled_at ≡ none)
    × (v : OrderVersion) × (get_order_version switched.orders 11 ≡ some v)
    × (v.order_id ≡ 1)
    × (is_some v.kitchen_print_confirmed_at ≡ true)
make_order_version_effective_lem_example =
    make_order_version_effective_lem 1 11 320 ready_to_switch switched switched_order
      ready_to_switch-IsSound switches

switched-IsSound : IsSound switched.orders
switched-IsSound =
    subst (λ (r : Result Order × World). IsSound r.1.orders) switches
      (make_order_version_effective-IsSound 1 11 320 ready_to_switch ready_to_switch-IsSound)

abbrev cancelled_order : Order
cancelled_order = record switched_order { cancelled_at = some 330; updated_at = 331 }

abbrev cancelled_world : World
cancelled_world = record switched {
  orders = record switched.orders { orders = (1, cancelled_order) ∷ [] };
  events = switched.events ++ order_cancelled_event 1 ∷ [];
}

cancels : cancel_order 1 330 331 switched ≡ (ok cancelled_order, cancelled_world)
unfolding cancel_order get_order lookup insert update_order validate_order_references
    reference_owned
cancels = refl

cancel_order_again_example :
    cancel_order 1 400 401 cancelled_world ≡ (ok cancelled_order, cancelled_world)
cancel_order_again_example =
    cancel_order_again 1 330 331 400 401 switched cancelled_world cancelled_order switched-IsSound
      cancels

cancel_order_final_example :
    ((evaluate_ready_to_send 1 cancelled_world).ready ≡ false)
    × ((order_version_id : Identifier) (later : DateTime)
        → (confirm_kitchen_print 1 order_version_id later cancelled_world
            ≡ (err (value_error order_cancelled), cancelled_world))
          × (make_order_version_effective 1 order_version_id later cancelled_world
              ≡ (err (value_error order_cancelled), cancelled_world)))
    × ((reason actor : Text) (note : Option Text) (command current previous fresh : Identifier)
          (latest : Option Identifier) (later : DateTime)
        → (pause_order 1 reason note actor command latest fresh later cancelled_world
            ≡ (err (value_error order_cancelled), cancelled_world))
          × (resume_order 1 reason note actor command current previous fresh later cancelled_world
              ≡ (err (value_error order_cancelled), cancelled_world)))
cancel_order_final_example =
    cancel_order_final 1 330 331 switched cancelled_world cancelled_order switched-IsSound cancels

ready-iff-IsReleased_example :
    ((evaluate_ready_to_send 1 acknowledged).ready ≡ true) ↔ IsReleased 1 acknowledged
ready-iff-IsReleased_example = ready-iff-IsReleased 1 acknowledged

ready-iff-no_reasons_example :
    ((evaluate_ready_to_send 1 proposed).ready ≡ true)
    ↔ ((evaluate_ready_to_send 1 proposed).reasons ≡ [])
ready-iff-no_reasons_example = ready-iff-no_reasons 1 proposed
