-- ===== src/Orders/Repository/Consistency.antt =====
-- The invariant of the order store, and that every method of the repository keeps it.
use silberloeffel_catering.Common.{
  ℕ, ◌≤◌, ◌≡◌, ◌≢◌, refl, sym, ap, true, false, not, ◌&&◌, Option, none, some, arith, inl, inr,
  subst, Option-cases, opt_eq, is_some, ◌==◌, if◌then◌else◌,
}
use silberloeffel_catering.Common.Lists.{any}
use silberloeffel_catering.Common.Dict.{
  Dict, lookup, insert, values, keep, lookup-insert, lookup-keep, any-lookup,
}
use silberloeffel_catering.Common.Results.{ok}
use silberloeffel_catering.Orders.Model.{
  Order, OrderVersion, OperationalContext, same_version, same_version_sound,
}
use silberloeffel_catering.Orders.Repository.{
  OrderStore, reference_owned, save_order_with_initial_version, update_order, append_order_version,
  update_order_version, purge_order, kept_by_purge,
}

pub record IsConsistent (s : OrderStore) : Type 0 where
  -- Every dict files a row under its own identifier.
  pub order_key : (k : ℕ) (o : Order) → lookup k s.orders ≡ some o → o.order_id ≡ k
  pub version_key :
      (k : ℕ) (v : OrderVersion) → lookup k s.versions ≡ some v → v.order_version_id ≡ k
  -- A version belongs to a stored order, and has a number from 1 on.
  pub version_order :
      (k : ℕ) (v : OrderVersion) → lookup k s.versions ≡ some v → lookup v.order_id s.orders ≢ none
  pub version_positive :
      (k : ℕ) (v : OrderVersion) → lookup k s.versions ≡ some v → 1 ≤ v.version_number
  -- No two versions of an order have one number.
  pub version_numbered :
      (j k : ℕ) (v w : OrderVersion)
      → lookup j s.versions ≡ some v
      → lookup k s.versions ≡ some w
      → v.order_id ≡ w.order_id
      → v.version_number ≡ w.version_number
      → j ≡ k
  -- The candidate and the effective version of an order are its own stored versions.
  pub candidate_owned :
      (k : ℕ) (o : Order)
      → lookup k s.orders ≡ some o
      → reference_owned k o.candidate_order_version_id s.versions ≡ true
  pub effective_owned :
      (k : ℕ) (o : Order)
      → lookup k s.orders ≡ some o
      → reference_owned k o.effective_order_version_id s.versions ≡ true

-- What the methods did when they returned.
pub update_order-ok :
    (order : Order) (s s' : OrderStore)
    → update_order order s ≡ ok s'
    → (lookup order.order_id s.orders ≢ none)
      × (reference_owned order.order_id order.candidate_order_version_id s.versions ≡ true)
      × (reference_owned order.order_id order.effective_order_version_id s.versions ≡ true)
      × (s' ≡ record s { orders = insert order.order_id order s.orders })
unfolding update_order
update_order-ok order s s' h = ground arith

pub update_order-IsConsistent :
    (order : Order) (s s' : OrderStore)
    → IsConsistent s
    → update_order order s ≡ ok s'
    → IsConsistent s'
update_order-IsConsistent order s s' c h =
    let r = update_order-ok order s s' h in
    subst IsConsistent (sym r.3) (record {
      order_key =
          λ k o e. ground (arith, lookup-insert order.order_id k order s.orders, c.order_key k o);
      version_key = c.version_key;
      version_order = λ k v e.
          ground
            (arith, lookup-insert order.order_id v.order_id order s.orders, c.version_order k v);
      version_positive = c.version_positive;
      version_numbered = c.version_numbered;
      candidate_owned = λ k o e.
          ground (arith, lookup-insert order.order_id k order s.orders, c.candidate_owned k o, r.1);
      effective_owned = λ k o e.
          ground (arith, lookup-insert order.order_id k order s.orders, c.effective_owned k o, r.2);
    })

-- A reference stays owned when a version is filed under a new identifier, or in place of a version
-- of the same order.
pub reference_owned-insert :
    (k id : ℕ) (r : Option ℕ) (v : OrderVersion) (versions : Dict OrderVersion)
    → ((e : OrderVersion) → lookup id versions ≡ some e → e.order_id ≡ v.order_id)
    → reference_owned k r versions ≡ true
    → reference_owned k r (insert id v versions) ≡ true
unfolding reference_owned
reference_owned-insert k id none v versions same h = refl
reference_owned-insert k id (some c) v versions same h = elim (Option-cases (lookup c versions)) [
  | inl e ↦ ground arith
  | inr (w, e) ↦ ground (arith, lookup-insert id c v versions, same w)
]

pub save_order_with_initial_version-ok :
    (order : Order) (version : OrderVersion) (context : Option OperationalContext)
    (s s' : OrderStore)
    → save_order_with_initial_version order version context s ≡ ok s'
    → (version.order_id ≡ order.order_id)
      × (version.version_number ≡ 1)
      × (lookup order.order_id s.orders ≡ none)
      × (lookup version.order_version_id s.versions ≡ none)
      × (reference_owned order.order_id order.candidate_order_version_id s'.versions ≡ true)
      × (reference_owned order.order_id order.effective_order_version_id s'.versions ≡ true)
      × (s'.orders ≡ insert order.order_id order s.orders)
      × (s'.versions ≡ insert version.order_version_id version s.versions)
unfolding save_order_with_initial_version
save_order_with_initial_version-ok order version context s s' h = ground arith

pub append_order_version-ok :
    (order : Order) (version : OrderVersion) (context : Option OperationalContext)
    (s s' : OrderStore)
    → append_order_version order version context s ≡ ok s'
    → (version.order_id ≡ order.order_id)
      × (1 ≤ version.version_number)
      × (lookup order.order_id s.orders ≢ none)
      × (lookup version.order_version_id s.versions ≡ none)
      × (any
            (λ (row : OrderVersion).
              row.order_id == order.order_id && row.version_number == version.version_number)
            (values s.versions)
          ≡ false)
      × (reference_owned order.order_id order.candidate_order_version_id s'.versions ≡ true)
      × (reference_owned order.order_id order.effective_order_version_id s'.versions ≡ true)
      × (s'.orders ≡ insert order.order_id order s.orders)
      × (s'.versions ≡ insert version.order_version_id version s.versions)
unfolding append_order_version
append_order_version-ok order version context s s' h = ground arith

pub update_order_version-ok :
    (version : OrderVersion) (s s' : OrderStore)
    → update_order_version version s ≡ ok s'
    → (e : OrderVersion) × (lookup version.order_version_id s.versions ≡ some e)
      × (same_version
            (record e { kitchen_print_confirmed_at = version.kitchen_print_confirmed_at })
            version
          ≡ true)
      × ((is_some e.kitchen_print_confirmed_at
            && not (opt_eq version.kitchen_print_confirmed_at e.kitchen_print_confirmed_at))
          ≡ false)
      × (s' ≡ record s { versions = insert version.order_version_id version s.versions })
unfolding update_order_version
update_order_version-ok version s s' h = ground arith

-- Both saving methods file one order and one new version of it.
module _ (order : Order) (version : OrderVersion) (s s' : OrderStore) (c : IsConsistent s)
    (owner : version.order_id ≡ order.order_id) (positive : 1 ≤ version.version_number)
    (fresh : lookup version.order_version_id s.versions ≡ none)
    (unnumbered : (k : ℕ) (v : OrderVersion)
      → lookup k s.versions ≡ some v
      → v.order_id ≡ order.order_id
      → v.version_number ≢ version.version_number)
    (candidate : reference_owned order.order_id order.candidate_order_version_id s'.versions ≡ true)
    (effective : reference_owned order.order_id order.effective_order_version_id s'.versions ≡ true)
    (orders : s'.orders ≡ insert order.order_id order s.orders)
    (versions : s'.versions ≡ insert version.order_version_id version s.versions) where
  order_at :
      (k : ℕ) → lookup k s'.orders ≡ (if order.order_id == k then some order else lookup k s.orders)
  order_at k = rw orders (lookup-insert order.order_id k order s.orders)

  version_at :
      (k : ℕ)
      → lookup k s'.versions
        ≡ (if version.order_version_id == k then some version else lookup k s.versions)
  version_at k = rw versions (lookup-insert version.order_version_id k version s.versions)

  still_owned :
      (k : ℕ) (r : Option ℕ)
      → reference_owned k r s.versions ≡ true
      → reference_owned k r s'.versions ≡ true
  still_owned k r h = rw versions (
      reference_owned-insert k version.order_version_id r version s.versions (λ e f. ground arith)
        h)

  pub filed-IsConsistent : IsConsistent s'
  filed-IsConsistent = record {
    order_key = λ k o e. ground (arith, order_at k, c.order_key k o);
    version_key = λ k v e. ground (arith, version_at k, c.version_key k v);
    version_order = λ k v e. ground (arith, version_at k, order_at v.order_id, c.version_order k v);
    version_positive = λ k v e. ground (arith, version_at k, c.version_positive k v);
    version_numbered = λ j k v w e f same number. ground (
      arith,
      version_at j,
      version_at k,
      c.version_numbered j k v w,
      unnumbered j v,
      unnumbered k w,
    );
    candidate_owned = λ k o e.
        ground
          (arith, order_at k, c.candidate_owned k o, still_owned k o.candidate_order_version_id);
    effective_owned = λ k o e.
        ground
          (arith, order_at k, c.effective_owned k o, still_owned k o.effective_order_version_id);
  }

pub save_order_with_initial_version-IsConsistent :
    (order : Order) (version : OrderVersion) (context : Option OperationalContext)
    (s s' : OrderStore)
    → IsConsistent s
    → save_order_with_initial_version order version context s ≡ ok s'
    → IsConsistent s'
save_order_with_initial_version-IsConsistent order version context s s' c h =
    let r = save_order_with_initial_version-ok order version context s s' h in
    filed-IsConsistent order version s s' c r.0 (omega (arith, r.1)) r.3
      (λ k v e owned number. ground (arith, c.version_order k v, r.2)) r.4 r.5 r.6 r.7

pub append_order_version-IsConsistent :
    (order : Order) (version : OrderVersion) (context : Option OperationalContext)
    (s s' : OrderStore)
    → IsConsistent s
    → append_order_version order version context s ≡ ok s'
    → IsConsistent s'
append_order_version-IsConsistent order version context s s' c h =
    let r = append_order_version-ok order version context s s' h in
    filed-IsConsistent order version s s' c r.0 r.1 r.3
      (λ k v e owned number. ground (
        arith,
        any-lookup
            (λ (row : OrderVersion).
              row.order_id == order.order_id && row.version_number == version.version_number)
            k v s.versions r.4 e,
      ))
      r.5 r.6 r.7 r.8

-- A version in place of a stored one of the same order and number.
module _ (version e : OrderVersion) (s s' : OrderStore) (c : IsConsistent s)
    (stored : lookup version.order_version_id s.versions ≡ some e)
    (owner : e.order_id ≡ version.order_id) (number : e.version_number ≡ version.version_number)
    (orders : s'.orders ≡ s.orders)
    (versions : s'.versions ≡ insert version.order_version_id version s.versions) where
  replaced_at :
      (k : ℕ)
      → lookup k s'.versions
        ≡ (if version.order_version_id == k then some version else lookup k s.versions)
  replaced_at k = rw versions (lookup-insert version.order_version_id k version s.versions)

  owned_after :
      (k : ℕ) (r : Option ℕ)
      → reference_owned k r s.versions ≡ true
      → reference_owned k r s'.versions ≡ true
  owned_after k r h = rw versions (
      reference_owned-insert k version.order_version_id r version s.versions (λ w f. ground arith)
        h)

  replaced-IsConsistent : IsConsistent s'
  replaced-IsConsistent = record {
    order_key = λ k o f. c.order_key k o (rw orders at f);
    version_key = λ k v f. ground (arith, replaced_at k, c.version_key k v);
    version_order = λ k v f.
        rw orders (ground (arith, replaced_at k, c.version_order k v, c.version_order k e));
    version_positive =
        λ k v f. ground (arith, replaced_at k, c.version_positive k v, c.version_positive k e);
    version_numbered = λ j k v w f g same numbers. ground (
      arith,
      replaced_at j,
      replaced_at k,
      c.version_numbered j k v w,
      c.version_numbered j k e w,
      c.version_numbered j k v e,
    );
    candidate_owned = λ k o f.
        owned_after k o.candidate_order_version_id (c.candidate_owned k o (rw orders at f));
    effective_owned = λ k o f.
        owned_after k o.effective_order_version_id (c.effective_owned k o (rw orders at f));
  }

pub update_order_version-IsConsistent :
    (version : OrderVersion) (s s' : OrderStore)
    → IsConsistent s
    → update_order_version version s ≡ ok s'
    → IsConsistent s'
update_order_version-IsConsistent version s s' c h =
    let r = update_order_version-ok version s s' h in
    let same = same_version_sound _ _ r.2 in
    replaced-IsConsistent version r.0 s s' c r.1 (ap (λ (v : OrderVersion). v.order_id) same)
      (ap (λ (v : OrderVersion). v.version_number) same) (ap (λ (t : OrderStore). t.orders) r.4)
      (ap (λ (t : OrderStore). t.versions) r.4)

-- The versions that a purge keeps are those of the other orders.
kept_at :
    (order_id k : ℕ) (versions : Dict OrderVersion)
    → lookup k (keep (kept_by_purge order_id versions) versions)
      ≡ (if kept_by_purge order_id versions k then lookup k versions else none)
kept_at order_id k versions = lookup-keep (kept_by_purge order_id versions) k versions

kept_version :
    (order_id k : ℕ) (v : OrderVersion) (versions : Dict OrderVersion)
    → lookup k (keep (kept_by_purge order_id versions) versions) ≡ some v
    → (lookup k versions ≡ some v) × (v.order_id ≢ order_id)
unfolding kept_by_purge
kept_version order_id k v versions h = ground (arith, kept_at order_id k versions)

reference_owned-kept :
    (order_id k : ℕ) (r : Option ℕ) (versions : Dict OrderVersion)
    → k ≢ order_id
    → reference_owned k r versions ≡ true
    → reference_owned k r (keep (kept_by_purge order_id versions) versions) ≡ true
unfolding reference_owned kept_by_purge
reference_owned-kept order_id k none versions ne h = refl
reference_owned-kept order_id k (some c) versions ne h = elim (Option-cases (lookup c versions)) [
  | inl e ↦ ground arith
  | inr (w, e) ↦ ground (arith, kept_at order_id c versions)
]

kept_order :
    (order_id k : ℕ) (o : Order) (orders : Dict Order)
    → lookup k (keep (λ key. not (key == order_id)) orders) ≡ some o
    → (lookup k orders ≡ some o) × (k ≢ order_id)
kept_order order_id k o orders h =
    ground (arith, lookup-keep (λ key. not (key == order_id)) k orders)

purge_order-ok :
    (order_id : ℕ) (s s' : OrderStore)
    → purge_order order_id s ≡ ok s'
    → (s'.orders ≡ keep (λ key. not (key == order_id)) s.orders)
      × (s'.versions ≡ keep (kept_by_purge order_id s.versions) s.versions)
unfolding purge_order
purge_order-ok order_id s s' h = ground arith

pub purge_order-IsConsistent :
    (order_id : ℕ) (s s' : OrderStore)
    → IsConsistent s
    → purge_order order_id s ≡ ok s'
    → IsConsistent s'
purge_order-IsConsistent order_id s s' c h =
    let r = purge_order-ok order_id s s' h in
    let order = λ (k : ℕ) (o : Order) (e : lookup k s'.orders ≡ some o).
      kept_order order_id k o s.orders (rw r.0 at e) in
    let version = λ (k : ℕ) (v : OrderVersion) (e : lookup k s'.versions ≡ some v).
      kept_version order_id k v s.versions (rw r.1 at e) in
    record {
      order_key = λ k o e. c.order_key k o (order k o e).0;
      version_key = λ k v e. c.version_key k v (version k v e).0;
      version_order = λ k v e. rw r.0 (
          ground (
            arith,
            lookup-keep (λ key. not (key == order_id)) v.order_id s.orders,
            version k v e,
            c.version_order k v,
          ));
      version_positive = λ k v e. c.version_positive k v (version k v e).0;
      version_numbered =
          λ j k v w e f. c.version_numbered j k v w (version j v e).0 (version k w f).0;
      candidate_owned = λ k o e. rw r.1 (
          reference_owned-kept order_id k o.candidate_order_version_id s.versions (order k o e).1
            (c.candidate_owned k o (order k o e).0));
      effective_owned = λ k o e. rw r.1 (
          reference_owned-kept order_id k o.effective_order_version_id s.versions (order k o e).1
            (c.effective_owned k o (order k o e).0));
    }
