-- ===== src/Orders/Repository/Soundness.antt =====
-- The invariant that the services keep on top of consistency: an effective version is one whose
-- kitchen print is confirmed.
use silberloeffel_catering.Common.{
  ℕ, ◌≡◌, ◌≢◌, true, Option, none, some, arith, is_some, Option-cases, inl, inr, opt_eq→eq,
}
use silberloeffel_catering.Common.Dict.{lookup, lookup-insert}
use silberloeffel_catering.Common.Results.{ok}
use silberloeffel_catering.Orders.Model.{Order, OrderVersion, OperationalContext}
use silberloeffel_catering.Orders.Repository.{
  OrderStore, reference_owned, save_order_with_initial_version, update_order, append_order_version,
  update_order_version,
}
use silberloeffel_catering.Orders.Repository.Consistency.{
  IsConsistent, save_order_with_initial_version-ok, append_order_version-ok, update_order-ok,
  update_order_version-ok, save_order_with_initial_version-IsConsistent, update_order-IsConsistent,
  append_order_version-IsConsistent, update_order_version-IsConsistent,
}

abbrev pub EffectiveConfirmed : OrderStore → Type 0
EffectiveConfirmed s =
    (k c : ℕ) (o : Order) (v : OrderVersion)
    → lookup k s.orders ≡ some o
    → o.effective_order_version_id ≡ some c
    → lookup c s.versions ≡ some v
    → is_some v.kitchen_print_confirmed_at ≡ true

pub record IsSound (s : OrderStore) : Type 0 where
  pub consistent : IsConsistent s
  pub effective_confirmed : EffectiveConfirmed s

-- An update keeps it if the order's effective version is confirmed.
pub update_order-IsSound :
    (order : Order) (s s' : OrderStore)
    → IsSound s
    → ((c : ℕ) (v : OrderVersion)
        → order.effective_order_version_id ≡ some c
        → lookup c s.versions ≡ some v
        → is_some v.kitchen_print_confirmed_at ≡ true)
    → update_order order s ≡ ok s'
    → IsSound s'
update_order-IsSound order s s' i confirmed h = record {
  consistent = update_order-IsConsistent order s s' i.consistent h;
  effective_confirmed = λ k c o v e f g.
      let r = update_order-ok order s s' h in
      ground (
        arith,
        r.3,
        lookup-insert order.order_id k order s.orders,
        i.effective_confirmed k c o v,
        confirmed c v,
      );
}

-- An order of the store and its effective version do not meet a version that is not stored yet.
effective_is_stored :
    (k c fresh : ℕ) (o : Order) (s : OrderStore)
    → IsConsistent s
    → lookup k s.orders ≡ some o
    → o.effective_order_version_id ≡ some c
    → lookup fresh s.versions ≡ none
    → fresh ≢ c
unfolding reference_owned
effective_is_stored k c fresh o s i e f g same = ground (arith, i.effective_owned k o)

-- A new version keeps it if the order keeps its effective version.
pub append_order_version-IsSound :
    (order : Order) (version : OrderVersion) (context : Option OperationalContext)
    (s s' : OrderStore)
    → IsSound s
    → ((o : Order)
        → lookup order.order_id s.orders ≡ some o
        → order.effective_order_version_id ≡ o.effective_order_version_id)
    → append_order_version order version context s ≡ ok s'
    → IsSound s'
append_order_version-IsSound order version context s s' i same h = record {
  consistent = append_order_version-IsConsistent order version context s s' i.consistent h;
  effective_confirmed = λ k c o v e f g.
      let r = append_order_version-ok order version context s s' h in
      elim (Option-cases (lookup order.order_id s.orders)) [
        | inl missing ↦ absurd (r.2 missing)
        | inr (p, stored) ↦ ground (
          arith,
          r.7,
          r.8,
          lookup-insert order.order_id k order s.orders,
          lookup-insert version.order_version_id c version s.versions,
          same p,
          i.effective_confirmed k c o v,
          i.effective_confirmed order.order_id c p v,
          effective_is_stored k c version.order_version_id o s i.consistent,
          effective_is_stored order.order_id c version.order_version_id p s i.consistent,
        )
      ];
}

pub update_order_version-IsSound :
    (version : OrderVersion) (s s' : OrderStore)
    → IsSound s
    → update_order_version version s ≡ ok s'
    → IsSound s'
update_order_version-IsSound version s s' i h = record {
  consistent = update_order_version-IsConsistent version s s' i.consistent h;
  effective_confirmed = λ k c o v e f g.
      let r = update_order_version-ok version s s' h in
      ground (
        arith,
        r.4,
        r.1,
        r.3,
        lookup-insert version.order_version_id c version s.versions,
        i.effective_confirmed k c o v,
        i.effective_confirmed k c o r.0,
        opt_eq→eq version.kitchen_print_confirmed_at (r.0).kitchen_print_confirmed_at,
      );
}

pub save_order_with_initial_version-IsSound :
    (order : Order) (version : OrderVersion) (context : Option OperationalContext)
    (s s' : OrderStore)
    → IsSound s
    → order.effective_order_version_id ≡ none
    → save_order_with_initial_version order version context s ≡ ok s'
    → IsSound s'
save_order_with_initial_version-IsSound order version context s s' i unset h = record {
  consistent =
      save_order_with_initial_version-IsConsistent order version context s s' i.consistent h;
  effective_confirmed = λ k c o v e f g.
      let r = save_order_with_initial_version-ok order version context s s' h in
      ground (
        arith,
        r.6,
        r.7,
        r.3,
        lookup-insert order.order_id k order s.orders,
        lookup-insert version.order_version_id c version s.versions,
        i.effective_confirmed k c o v,
        effective_is_stored k c version.order_version_id o s i.consistent,
      );
}
