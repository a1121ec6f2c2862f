-- ===== src/Orders/Candidate.antt =====
-- The commands that propose a candidate: what they file, and that the orders stay sound.
use silberloeffel_catering.Common.{
  ℕ, suc, ◌+◌, ◌≤◌, ◌≡◌, ◌≢◌, subst, Option, none, some, arith, inl, inr, ◌⊎◌,
}
use silberloeffel_catering.Common.Lists.{In, max_key, le-max_key, filter-In}
use silberloeffel_catering.Common.Sort.{In-sorted}
use silberloeffel_catering.Common.Dict.{
  lookup, values, lookup-In, lookup-insert, lookup-insert_self,
}
use silberloeffel_catering.Common.Results.{Error, Result, ok, err, Result-cases}
use silberloeffel_catering.Common.Text.{Text}
use silberloeffel_catering.Orders.Model.{
  Identifier, DateTime, Date, Order, OrderVersion, OperationalContextData, OperationalContext,
  CustomerAddress, new_order_version,
}
use silberloeffel_catering.Orders.Repository.{
  OrderStore, get_order, get_order_version, append_order_version, list_order_versions,
}
use silberloeffel_catering.Orders.Repository.Consistency.{IsConsistent, append_order_version-ok}
use silberloeffel_catering.Orders.Repository.Soundness.{IsSound, append_order_version-IsSound}
use silberloeffel_catering.Orders.Context.{operational_context_for_new_version}
use silberloeffel_catering.Orders.Service.{number, get_candidate_order_version}
use silberloeffel_catering.Orders.Proposal.{
  propose_order_version_change, propose_delivery_address_change, with_candidate, announce,
  file_candidate, changed_version, address_version, address_parent, address_context,
}
use silberloeffel_catering.OperationalCore.{live_order}
use silberloeffel_catering.World.{World}

live_order-ok :
    (order_id : Identifier) (s : OrderStore) (o : Order)
    → live_order order_id s ≡ ok o
    → (get_order s order_id ≡ some o) × (o.cancelled_at ≡ none)
unfolding live_order
live_order-ok order_id s o h = ground arith

-- The events of a new candidate change no store, and are always emitted.
announce-stores :
    (order_id : Identifier) (o : Order) (v : OrderVersion) (actor reason : Text) (now : DateTime)
    (w : World)
    → ((announce order_id o v actor reason now w).0 ≡ ok tt)
      × ((announce order_id o v actor reason now w).1.orders ≡ w.orders)
unfolding announce
announce-stores order_id o v actor reason now w = ground arith

-- What the constructor returns is what it was given.
new_order_version-ok : (v u : OrderVersion) → new_order_version v ≡ ok u → u ≡ v
unfolding new_order_version
new_order_version-ok v u h = ground arith

-- A command that proposed a candidate appended the next version of a live order.
pub record Proposed (order_id order_version_id : Identifier) (now : DateTime) (w : World)
    (r : Result OrderVersion × World) : Type 0 where
  pub order : Order
  pub version : OrderVersion
  pub context : Option OperationalContext
  pub stored : get_order w.orders order_id ≡ some order
  pub live : order.cancelled_at ≡ none
  pub identifier : version.order_version_id ≡ order_version_id
  pub next : version.version_number ≡ max_key number (list_order_versions w.orders order_id) + 1
  pub appends :
      append_order_version
        (with_candidate order version.order_version_id now)
        version
        context
        w.orders
      ≡ ok r.1.orders
  pub returns : r.0 ≡ ok version

file_candidate-Proposed :
    (order_id order_version_id : Identifier) (actor reason : Text) (now : DateTime) (w : World)
    (o : Order) (v : OrderVersion) (c : Option OperationalContext)
    → live_order order_id w.orders ≡ ok o
    → v.order_version_id ≡ order_version_id
    → v.version_number ≡ max_key number (list_order_versions w.orders order_id) + 1
    → let r = file_candidate order_id o v c actor reason now w in
      ((e : Error) × (r ≡ (err e, w))) ⊎ Proposed order_id order_version_id now w r
unfolding file_candidate
file_candidate-Proposed order_id order_version_id actor reason now w o v c found fresh next =
    let order = live_order-ok order_id w.orders o found in
    elim (Result-cases
      (append_order_version (with_candidate o v.order_version_id now) v c w.orders)) [
        | inr (e, h) ↦ inl (e, ground arith)
        | inl (s, h) ↦
            let announced =
              announce-stores order_id o v actor reason now (record w { orders = s }) in
            inr (record {
              order = o;
              version = v;
              context = c;
              stored = order.0;
              live = order.1;
              identifier = fresh;
              next = next;
              appends = ground (arith, announced.0, announced.1);
              returns = ground (arith, announced.0, announced.1);
            })
      ]

changed_version-ok :
    (order_id : Identifier) (date : Date) (window location : Text) (guests : Option ℕ)
    (mode actor reason : Text) (order_version_id : Identifier) (now : DateTime) (o : Order)
    (s : OrderStore) (v : OrderVersion)
    → changed_version order_id date window location guests mode actor reason order_version_id now o
        s
      ≡ ok v
    → (v.order_version_id ≡ order_version_id)
      × (v.version_number ≡ max_key number (list_order_versions s order_id) + 1)
unfolding changed_version new_order_version
changed_version-ok order_id date window location guests mode actor reason order_version_id now o s v
      h =
    ground arith

address_version-ok :
    (order_id : Identifier) (actor reason : Text) (order_version_id : Identifier) (now : DateTime)
    (parent : OrderVersion) (s : OrderStore) (v : OrderVersion)
    → address_version order_id actor reason order_version_id now parent s ≡ ok v
    → (v.order_version_id ≡ order_version_id)
      × (v.version_number ≡ max_key number (list_order_versions s order_id) + 1)
unfolding address_version new_order_version
address_version-ok order_id actor reason order_version_id now parent s v h = ground arith

-- Proposing a change of an order raises and changes nothing, or files the next version.
pub propose_order_version_change-Proposed :
    (order_id : Identifier) (date : Date) (window location : Text) (guests : Option ℕ)
    (mode actor reason : Text) (context : Option OperationalContextData)
    (order_version_id : Identifier) (now : DateTime) (w : World)
    → let r =
        propose_order_version_change order_id date window location guests mode actor reason context
          order_version_id now w in
      ((e : Error) × (r ≡ (err e, w))) ⊎ Proposed order_id order_version_id now w r
unfolding propose_order_version_change
propose_order_version_change-Proposed order_id date window location guests mode actor reason context
      order_version_id now w =
    elim (Result-cases (live_order order_id w.orders)) [
      | inr (e, h) ↦ inl (e, ground arith)
      | inl (o, h) ↦
          elim (Result-cases (
            changed_version order_id date window location guests mode actor reason order_version_id
              now o w.orders)) [
                | inr (e, g) ↦ inl (e, ground arith)
                | inl (v, g) ↦
                    let checked =
                      changed_version-ok order_id date window location guests mode actor reason
                        order_version_id now o w.orders v g in
                    rw (h, g)
                      (file_candidate-Proposed order_id order_version_id actor reason now w o v
                        (operational_context_for_new_version w.orders o v context now) h checked.0
                        checked.1)
              ]
    ]

-- Proposing a new delivery address raises and changes nothing, or files the next version.
pub propose_delivery_address_change-Proposed :
    (order_id parent : Identifier) (address : Option CustomerAddress) (actor reason : Text)
    (order_version_id : Identifier) (now : DateTime) (w : World)
    → let r =
        propose_delivery_address_change order_id parent address actor reason order_version_id now
          w in
      ((e : Error) × (r ≡ (err e, w))) ⊎ Proposed order_id order_version_id now w r
unfolding propose_delivery_address_change
propose_delivery_address_change-Proposed order_id parent address actor reason order_version_id now
      w =
    elim (Result-cases (live_order order_id w.orders)) [
      | inr (e, h) ↦ inl (e, ground arith)
      | inl (o, h) ↦ elim (Result-cases (address_parent order_id parent w.orders)) [
        | inr (e, f) ↦ inl (e, ground arith)
        | inl ((p, c), f) ↦
            elim (Result-cases
              (address_version order_id actor reason order_version_id now p w.orders)) [
                | inr (e, g) ↦ inl (e, ground arith)
                | inl (v, g) ↦
                    let checked =
                      address_version-ok order_id actor reason order_version_id now p w.orders v
                        g in
                    rw (h, f, g)
                      (file_candidate-Proposed order_id order_version_id actor reason now w o v
                        (some (address_context o v c address now)) h checked.0 checked.1)
              ]
      ]
    ]

-- A proposal keeps the effective version, and so the soundness.
Proposed-IsSound :
    (order_id order_version_id : Identifier) (now : DateTime) (w : World)
    (r : Result OrderVersion × World)
    → IsSound w.orders
    → ((e : Error) × (r ≡ (err e, w))) ⊎ Proposed order_id order_version_id now w r
    → IsSound r.1.orders
unfolding get_order
Proposed-IsSound order_id order_version_id now w r i (inl (e, h)) = rw h i
Proposed-IsSound order_id order_version_id now w r i (inr p) =
    append_order_version-IsSound _ p.version p.context w.orders r.1.orders i
      (λ o e. ground (arith, p.stored, i.consistent.order_key order_id p.order)) p.appends

-- Proposing a change keeps the orders sound on every branch.
pub propose_order_version_change-IsSound :
    (order_id : Identifier) (date : Date) (window location : Text) (guests : Option ℕ)
    (mode actor reason : Text) (context : Option OperationalContextData)
    (order_version_id : Identifier) (now : DateTime) (w : World)
    → IsSound w.orders
    → IsSound
        (propose_order_version_change order_id date window location guests mode actor reason context
          order_version_id now w).1.orders
propose_order_version_change-IsSound order_id date window location guests mode actor reason context
      order_version_id now w i =
    Proposed-IsSound order_id order_version_id now w _ i (
      propose_order_version_change-Proposed order_id date window location guests mode actor reason
        context order_version_id now w)

-- Proposing a new delivery address keeps the orders sound on every branch.
pub propose_delivery_address_change-IsSound :
    (order_id parent : Identifier) (address : Option CustomerAddress) (actor reason : Text)
    (order_version_id : Identifier) (now : DateTime) (w : World)
    → IsSound w.orders
    → IsSound
        (propose_delivery_address_change order_id parent address actor reason order_version_id now
          w).1.orders
propose_delivery_address_change-IsSound order_id parent address actor reason order_version_id now w
      i =
    Proposed-IsSound order_id order_version_id now w _ i (
      propose_delivery_address_change-Proposed order_id parent address actor reason order_version_id
        now w)

-- The stored versions of an order are those that the repository lists.
listed :
    (order_id k : Identifier) (u : OrderVersion) (s : OrderStore)
    → lookup k s.versions ≡ some u
    → u.order_id ≡ order_id
    → In u (list_order_versions s order_id)
unfolding list_order_versions
listed order_id k u s h same =
    In-sorted _ u _ (filter-In _ u (values s.versions) (lookup-In k u s.versions h) (ground arith))

-- The filed version is the candidate of the order, is numbered above every older version of it, and
-- leaves the effective version as it was.
Proposed_lem :
    (order_id order_version_id k : Identifier) (u v : OrderVersion) (now : DateTime) (w w' : World)
    (r : Result OrderVersion × World)
    → IsConsistent w.orders
    → lookup k w.orders.versions ≡ some u
    → u.order_id ≡ order_id
    → order_version_id ≢ 0
    → r ≡ (ok v, w')
    → ((e : Error) × (r ≡ (err e, w))) ⊎ Proposed order_id order_version_id now w r
    → (get_candidate_order_version order_id w'.orders ≡ some v)
      × (suc u.version_number ≤ v.version_number)
      × (o : Order) × (get_order w.orders order_id ≡ some o)
      × (get_order w'.orders order_id ≡ some (with_candidate o order_version_id now))
unfolding get_order get_order_version get_candidate_order_version
Proposed_lem order_id order_version_id k u v now w w' r i h same given q (inl (e, x)) = ground arith
Proposed_lem order_id order_version_id k u v now w w' r i h same given q (inr p) =
    let appends : append_order_version (with_candidate p.order p.version.order_version_id now)
          p.version p.context w.orders
        ≡ ok w'.orders =
      subst
        (λ (x : Result OrderVersion × World).
          append_order_version (with_candidate p.order p.version.order_version_id now) p.version
            p.context w.orders
          ≡ ok x.1.orders)
        q p.appends in
    let a = append_order_version-ok _ p.version p.context w.orders w'.orders appends in
    let same_version : p.version ≡ v = ground (arith, p.returns) in
    let key = i.order_key order_id p.order p.stored in
    let older =
      le-max_key number u (list_order_versions w.orders order_id)
        (listed order_id k u w.orders h same) in
    let at =
      lookup-insert p.order.order_id order_id
        (with_candidate p.order p.version.order_version_id now) w.orders.orders in
    let found = lookup-insert_self p.version.order_version_id p.version w.orders.versions in
    (
      ground (arith, at, found, a.7, a.8, p.identifier),
      ground (arith, p.next),
      p.order,
      p.stored,
      ground (arith, at, a.7, p.identifier),
    )

-- On a consistent store, a returned proposal with a non-empty fresh identifier makes the new
-- version the candidate that the service resolves, numbers it above any given older version of the
-- order, and changes nothing else of the order than the candidate and the update time.
pub propose_order_version_change_lem :
    (order_id : Identifier) (date : Date) (window location : Text) (guests : Option ℕ)
    (mode actor reason : Text) (context : Option OperationalContextData)
    (order_version_id : Identifier) (now : DateTime) (w w' : World) (v u : OrderVersion) (k : ℕ)
    → IsConsistent w.orders
    → lookup k w.orders.versions ≡ some u
    → u.order_id ≡ order_id
    → order_version_id ≢ 0
    → propose_order_version_change order_id date window location guests mode actor reason context
        order_version_id now w
      ≡ (ok v, w')
    → (get_candidate_order_version order_id w'.orders ≡ some v)
      × (suc u.version_number ≤ v.version_number)
      × (o : Order) × (get_order w.orders order_id ≡ some o)
      × (get_order w'.orders order_id ≡ some (with_candidate o order_version_id now))
propose_order_version_change_lem order_id date window location guests mode actor reason context
      order_version_id now w w' v u k i h same given q =
    Proposed_lem order_id order_version_id k u v now w w' _ i h same given q (
      propose_order_version_change-Proposed order_id date window location guests mode actor reason
        context order_version_id now w)

pub propose_delivery_address_change_lem :
    (order_id parent : Identifier) (address : Option CustomerAddress) (actor reason : Text)
    (order_version_id : Identifier) (now : DateTime) (w w' : World) (v u : OrderVersion) (k : ℕ)
    → IsConsistent w.orders
    → lookup k w.orders.versions ≡ some u
    → u.order_id ≡ order_id
    → order_version_id ≢ 0
    → propose_delivery_address_change order_id parent address actor reason order_version_id now w
      ≡ (ok v, w')
    → (get_candidate_order_version order_id w'.orders ≡ some v)
      × (suc u.version_number ≤ v.version_number)
      × (o : Order) × (get_order w.orders order_id ≡ some o)
      × (get_order w'.orders order_id ≡ some (with_candidate o order_version_id now))
propose_delivery_address_change_lem order_id parent address actor reason order_version_id now w w' v
      u k i h same given q =
    Proposed_lem order_id order_version_id k u v now w w' _ i h same given q (
      propose_delivery_address_change-Proposed order_id parent address actor reason order_version_id
        now w)
