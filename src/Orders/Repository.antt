-- ===== src/Orders/Repository.antt =====
-- src/catering_system/repositories/in_memory_order_repository.py. Each method validates, and then
-- replaces the dicts together: a raise leaves the store as it was, so a method is a function to the
-- next store or an exception.
pub mod Consistency
pub mod History
pub mod Soundness
use silberloeffel_catering.Common.{
  ℕ, Bool, true, false, not, ◌&&◌, ◌||◌, Option, none, some, List, [], ◌∷◌, leb, ltb, opt_eq,
  is_some, is_none, ◌==◌, if◌then◌else◌,
}
use silberloeffel_catering.Common.Lists.{any, filter}
use silberloeffel_catering.Common.Sort.{sorted}
use silberloeffel_catering.Common.Dict.{Dict, lookup, insert, values, keep}
use silberloeffel_catering.Common.Results.{
  Result, ok, err, value_error, key_error, raise_if, key_error_if, or_raise, ◌>>=◌, ◌>>◌,
  initial_version_must_be_v1, inquiry_already_linked, version_not_of_order, version_number_exists,
  snapshot_immutable, confirmation_immutable, reference_not_owned, context_owner_invalid,
}
use silberloeffel_catering.Orders.Model.{
  Identifier, Order, OrderVersion, OperationalContext, same_version,
}

pub record OrderStore : Type 0 where
  pub orders : Dict Order
  pub versions : Dict OrderVersion
  pub operational_contexts : Dict OperationalContext

abbrev pub empty_store : OrderStore
empty_store = record { orders = []; versions = []; operational_contexts = [] }

unfoldable pub get_order : OrderStore → Identifier → Option Order
get_order s order_id = lookup order_id s.orders

unfoldable pub get_order_version : OrderStore → Identifier → Option OrderVersion
get_order_version s order_version_id = lookup order_version_id s.versions

unfoldable pub get_operational_context : OrderStore → Identifier → Option OperationalContext
get_operational_context s order_version_id = lookup order_version_id s.operational_contexts

unfoldable pub list_orders : OrderStore → List Order
list_orders s = sorted (λ (a b : Order). leb a.order_id b.order_id) (values s.orders)

unfoldable pub list_order_versions : OrderStore → Identifier → List OrderVersion
list_order_versions s order_id =
    sorted (λ (a b : OrderVersion). leb a.version_number b.version_number)
      (filter (λ (v : OrderVersion). v.order_id == order_id) (values s.versions))

-- one turn of the loop of `_validate_order_references`
unfoldable pub reference_owned : Identifier → Option Identifier → Dict OrderVersion → Bool
reference_owned order_id none versions = true
reference_owned order_id (some reference) versions = elim (lookup reference versions) [
  | none ↦ false
  | some v ↦ v.order_id == order_id
]

unfoldable pub validate_order_references : Order → Dict OrderVersion → Result (Unit {0})
unfolding reference_owned
validate_order_references order versions = do
  raise_if (not (reference_owned order.order_id order.candidate_order_version_id versions))
      reference_not_owned
  raise_if (not (reference_owned order.order_id order.effective_order_version_id versions))
      reference_not_owned

unfoldable pub validate_operational_context : OrderVersion → OperationalContext → Result (Unit {0})
validate_operational_context version context =
    raise_if
      (not (context.order_version_id == version.order_version_id)
        || not (context.order_id == version.order_id))
      context_owner_invalid

-- the `if operational_context is not None` block of both saving methods
unfoldable pub add_operational_context :
    OrderVersion
    → Option OperationalContext
    → Dict OperationalContext
    → Result (Dict OperationalContext)
unfolding validate_operational_context
add_operational_context version none contexts = ok contexts
add_operational_context version (some context) contexts = do
  validate_operational_context version context
  key_error_if (is_some (lookup context.order_version_id contexts)) context.order_version_id
  ok (insert context.order_version_id context contexts)

unfoldable pub save_order_with_initial_version :
    Order → OrderVersion → Option OperationalContext → OrderStore → Result OrderStore
unfolding validate_order_references add_operational_context
save_order_with_initial_version order version operational_context s = do
  raise_if (not (version.order_id == order.order_id) || not (version.version_number == 1))
      initial_version_must_be_v1
  key_error_if (is_some (lookup order.order_id s.orders)) order.order_id
  key_error_if (is_some (lookup version.order_version_id s.versions)) version.order_version_id
  raise_if
      (any (λ (existing : Order). existing.source_inquiry_id == order.source_inquiry_id)
        (values s.orders))
      inquiry_already_linked
  let next_versions = insert version.order_version_id version s.versions
  validate_order_references order next_versions
  next_contexts ← add_operational_context version operational_context s.operational_contexts
  ok (record {
    orders = insert order.order_id order s.orders;
    versions = next_versions;
    operational_contexts = next_contexts;
  })

unfoldable pub update_order : Order → OrderStore → Result OrderStore
unfolding validate_order_references
update_order order s = do
  key_error_if (is_none (lookup order.order_id s.orders)) order.order_id
  validate_order_references order s.versions
  ok (record s { orders = insert order.order_id order s.orders })

unfoldable pub append_order_version :
    Order → OrderVersion → Option OperationalContext → OrderStore → Result OrderStore
unfolding validate_order_references add_operational_context
append_order_version order version operational_context s = do
  raise_if (not (version.order_id == order.order_id) || ltb version.version_number 1)
      version_not_of_order
  key_error_if (is_none (lookup order.order_id s.orders)) order.order_id
  key_error_if (is_some (lookup version.order_version_id s.versions)) version.order_version_id
  raise_if
      (any
        (λ (row : OrderVersion).
          row.order_id == order.order_id && row.version_number == version.version_number)
        (values s.versions))
      version_number_exists
  let next_versions = insert version.order_version_id version s.versions
  validate_order_references order next_versions
  next_contexts ← add_operational_context version operational_context s.operational_contexts
  ok (record {
    orders = insert order.order_id order s.orders;
    versions = next_versions;
    operational_contexts = next_contexts;
  })

unfoldable pub update_order_version : OrderVersion → OrderStore → Result OrderStore
update_order_version version s = do
  existing ←
      or_raise (lookup version.order_version_id s.versions) (key_error version.order_version_id)
  let expected = record existing { kitchen_print_confirmed_at = version.kitchen_print_confirmed_at }
  raise_if (not (same_version expected version)) snapshot_immutable
  raise_if
      (is_some existing.kitchen_print_confirmed_at
        && not (opt_eq version.kitchen_print_confirmed_at existing.kitchen_print_confirmed_at))
      confirmation_immutable
  ok (record s { versions = insert version.order_version_id version s.versions })

-- `key not in version_ids`: the version of that key belongs to another order
unfoldable pub kept_by_purge : Identifier → Dict OrderVersion → Identifier → Bool
kept_by_purge order_id versions key = elim (lookup key versions) [
  | none ↦ true
  | some v ↦ not (v.order_id == order_id)
]

unfoldable pub purge_order : Identifier → OrderStore → Result OrderStore
unfolding kept_by_purge
purge_order order_id s = do
  key_error_if (is_none (lookup order_id s.orders)) order_id
  ok (record {
    orders = keep (λ key. not (key == order_id)) s.orders;
    versions = keep (kept_by_purge order_id s.versions) s.versions;
    operational_contexts = keep (kept_by_purge order_id s.versions) s.operational_contexts;
  })
