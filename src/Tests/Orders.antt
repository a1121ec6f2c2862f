-- ===== src/Tests/Orders.antt =====
-- The theorems on orders, applied to the order of Tests/Life.antt.
use native.Mathlib.Decide.{ℕ_discrete}
use silberloeffel_catering.Common.{◌≡◌, refl, subst, none, some, [], ◌∷◌, arith}
use silberloeffel_catering.Common.Dict.{lookup, insert, values}
use silberloeffel_catering.Common.Results.{Result}
use silberloeffel_catering.Orders.Model.{Order, OrderVersion, same_version}
use silberloeffel_catering.Orders.Repository.{
  OrderStore, empty_store, save_order_with_initial_version, update_order_version,
}
use silberloeffel_catering.Orders.Repository.Consistency.{IsConsistent}
use silberloeffel_catering.Orders.Repository.History.{
  Step, Steps, Reach, start, call, saved, done, more, confirmed, Kept, Reach-IsConsistent,
  Steps-Kept,
}
use silberloeffel_catering.Orders.Repository.Soundness.{IsSound}
use silberloeffel_catering.Orders.Service.{create_order_from_offer_version}
use silberloeffel_catering.Orders.Commands.{create_order_from_offer_version-IsSound}
use silberloeffel_catering.World.{World, empty_world}
use silberloeffel_catering.Tests.Life.{
  offer, evidence, order, version, created, creates, confirmed_version,
}

created-Step : Step empty_store created.orders
unfolding create_order_from_offer_version save_order_with_initial_version lookup insert values
created-Step = saved order version none refl

created-Reach : Reach created.orders
created-Reach = call start created-Step

Reach-IsConsistent_example : IsConsistent created.orders
Reach-IsConsistent_example = Reach-IsConsistent {s = created.orders} created-Reach

empty-IsSound : IsSound empty_store
unfolding lookup
empty-IsSound = record {
  consistent = Reach-IsConsistent start;
  effective_confirmed = λ k c o v e f g. ground arith;
}

pub created-IsSound : IsSound created.orders
created-IsSound =
    subst (λ (r : Result (Order × OrderVersion) × World). IsSound r.1.orders) creates
      (create_order_from_offer_version-IsSound 2 offer none (some evidence) 1 10 100 empty_world
        empty-IsSound)

abbrev confirmed_store : OrderStore
confirmed_store = record created.orders { versions = (10, confirmed_version) ∷ [] }

confirmed-Step : Step created.orders confirmed_store
unfolding update_order_version lookup insert same_version ℕ_discrete
confirmed-Step = confirmed confirmed_version refl

stored_version : lookup 10 created.orders.versions ≡ some version
unfolding lookup
stored_version = refl

confirmed-Steps : Steps created.orders confirmed_store
confirmed-Steps = more done confirmed-Step

Steps-Kept_example : Kept 10 version confirmed_store
Steps-Kept_example =
    Steps-Kept {s = created.orders} {s' = confirmed_store} 10 version confirmed-Steps stored_version
