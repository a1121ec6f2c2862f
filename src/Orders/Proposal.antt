-- ===== src/Orders/Proposal.antt =====
-- src/catering_system/services/order_service.py: the two commands that append a version and make it
-- the candidate.
use silberloeffel_catering.Common.{
  ℕ, ◌+◌, Bool, true, false, not, ◌&&◌, Option, none, some, List, [], ◌∷◌, ◌++◌, opt_eq, is_some,
  ◌==◌, if◌then◌else◌,
}
use silberloeffel_catering.Common.Lists.{max_by, max_key}
use silberloeffel_catering.Common.Text.{Text, text_eq}
use silberloeffel_catering.Common.Results
use silberloeffel_catering.Common.Results.{
  Result, ok, err, value_error, or_raise, no_source_version, effective_not_resolvable,
  operational_context_missing,
}
use silberloeffel_catering.Common.Exec.{Exec, pure, lift, gets, ◌>>=◌, ◌>>◌}
use silberloeffel_catering.Orders.Model.{
  Identifier, DateTime, Date, PlanningMode, caterer_suggestion, self_select, ChangedField,
  event_date, time_window_text, location_text, guest_count_estimate, planning_mode,
  delivery_address, Order, OrderVersion, OperationalContextData, OperationalContext,
  CustomerAddress, new_order_version, validate_planning_mode,
}
use silberloeffel_catering.Orders.Repository.{
  OrderStore, get_order_version, get_operational_context, list_order_versions, append_order_version,
}
use silberloeffel_catering.Orders.Context.{
  operational_context_for_new_version, explicit_operational_context,
}
use silberloeffel_catering.Orders.Service.{number}
use silberloeffel_catering.OperationalCore.{live_order, version_of}
use silberloeffel_catering.World.{
  World, on_orders, emit, emit_if, order_version_candidate_superseded,
  order_version_change_proposed,
}

abbrev same_mode : PlanningMode → PlanningMode → Bool
same_mode caterer_suggestion caterer_suggestion = true
same_mode self_select self_select = true
same_mode _ _ = false

-- the name of a field, if its value differs
abbrev differing : Bool → ChangedField → List ChangedField
differing true field = []
differing false field = field ∷ []

-- the fields in which the new values differ from the source version
unfoldable pub changed_fields_of :
    OrderVersion → Date → Text → Text → Option ℕ → PlanningMode → List ChangedField
changed_fields_of source date window location guests mode =
    differing (source.event_date == date) event_date
    ++ differing (text_eq source.time_window_text window) time_window_text
    ++ differing (text_eq source.location_text location) location_text
    ++ differing (opt_eq source.guest_count_estimate guests) guest_count_estimate
    ++ differing (same_mode source.planning_mode mode) planning_mode

-- the effective version, or the latest one of an order that never had any
unfoldable pub source_version : Identifier → Order → OrderVersion → OrderStore → Result OrderVersion
unfolding get_order_version
source_version order_id current latest s = elim current.effective_order_version_id [
  | none ↦ ok latest
  | some e ↦ elim (get_order_version s e) [
    | none ↦ err (value_error effective_not_resolvable)
    | some v ↦ if v.order_id == order_id then ok v else err (value_error effective_not_resolvable)
  ]
]

-- whether the previous candidate is superseded by the new one
abbrev supersedes : Order → Bool
supersedes current =
    is_some current.candidate_order_version_id
    && not (opt_eq current.candidate_order_version_id current.effective_order_version_id)

abbrev candidate_or_empty : Option Identifier → Identifier
candidate_or_empty none = 0
candidate_or_empty (some i) = i

-- the events of a new candidate
unfoldable pub announce :
    Identifier → Order → OrderVersion → Text → Text → DateTime → Exec World (Unit {0})
announce order_id current version actor_reference change_reason now = do
  emit_if (supersedes current) (
      emit (
        order_version_candidate_superseded order_id
          (candidate_or_empty current.candidate_order_version_id) version.order_version_id now))
  emit (
      order_version_change_proposed order_id current.effective_order_version_id
        version.order_version_id actor_reference change_reason version.changed_fields now)

-- the order with the new candidate
abbrev pub with_candidate : Order → Identifier → DateTime → Order
with_candidate current order_version_id now = record current {
  candidate_order_version_id = some order_version_id;
  updated_at = now;
}

-- the end of both commands: the append, the events and the return
unfoldable pub file_candidate :
    Identifier
    → Order
    → OrderVersion
    → Option OperationalContext
    → Text
    → Text
    → DateTime
    → Exec World OrderVersion
file_candidate order_id current version context actor_reference change_reason now = do
  on_orders
      (append_order_version (with_candidate current version.order_version_id now) version context)
  announce order_id current version actor_reference change_reason now
  pure version

-- the next version, derived from its source
unfoldable pub changed_version :
    (order_id : Identifier) (date : Date) (window location : Text) (guests : Option ℕ) (mode : Text)
    (actor_reference change_reason : Text) (order_version_id : Identifier) (now : DateTime)
    → Order
    → OrderStore
    → Result OrderVersion
unfolding source_version validate_planning_mode
changed_version order_id date window location guests mode actor_reference change_reason
      order_version_id now current s =
    let versions = list_order_versions s order_id in
    Results.◌>>=◌ (or_raise (max_by number versions) (value_error no_source_version)) λ latest.
      Results.◌>>=◌ (source_version order_id current latest s) λ source.
        Results.◌>>=◌ (validate_planning_mode mode) λ validated_planning_mode.
          new_order_version (record {
            order_version_id = order_version_id;
            order_id = order_id;
            version_number = max_key number versions + 1;
            created_at = now;
            event_date = date;
            time_window_text = window;
            location_text = location;
            guest_count_estimate = guests;
            planning_mode = validated_planning_mode;
            kitchen_print_confirmed_at = none;
            parent_order_version_id = some source.order_version_id;
            created_by = some actor_reference;
            change_reason = some change_reason;
            changed_fields =
                changed_fields_of source date window location guests validated_planning_mode;
            delivery_date_local = source.delivery_date_local;
            delivery_window_start_local = source.delivery_window_start_local;
            delivery_window_end_local = source.delivery_window_end_local;
            event_start_local = none;
            delivery_time_local = none;
          })

unfoldable pub propose_order_version_change :
    (order_id : Identifier) (date : Date) (window location : Text) (guests : Option ℕ) (mode : Text)
    (actor_reference change_reason : Text) (operational_context : Option OperationalContextData)
    (order_version_id : Identifier) (now : DateTime)
    → Exec World OrderVersion
unfolding live_order changed_version
propose_order_version_change order_id date window location guests mode actor_reference change_reason
      operational_context order_version_id now =
    do
      s ← gets (λ w. w.orders)
      current ← lift (live_order order_id s)
      version ← lift (
          changed_version order_id date window location guests mode actor_reference change_reason
            order_version_id now current s)
      let context = operational_context_for_new_version s current version operational_context now
      file_candidate order_id current version context actor_reference change_reason now

-- the parent version and its context
unfoldable pub address_parent :
    Identifier → Identifier → OrderStore → Result (OrderVersion × OperationalContext)
unfolding version_of get_operational_context
address_parent order_id parent_order_version_id s =
    Results.◌>>=◌ (version_of order_id parent_order_version_id s) λ parent.
      Results.◌>>=◌
        (or_raise (get_operational_context s parent_order_version_id)
          (value_error operational_context_missing))
        λ parent_context. ok (parent, parent_context)

-- the next version, derived from the parent
unfoldable pub address_version :
    (order_id : Identifier) (actor_reference change_reason : Text) (order_version_id : Identifier)
    (now : DateTime)
    → OrderVersion
    → OrderStore
    → Result OrderVersion
address_version order_id actor_reference change_reason order_version_id now parent s =
    let versions = list_order_versions s order_id in
    Results.◌>>=◌ (or_raise (max_by number versions) (value_error no_source_version)) λ _.
      new_order_version (record {
        order_version_id = order_version_id;
        order_id = order_id;
        version_number = max_key number versions + 1;
        created_at = now;
        event_date = parent.event_date;
        time_window_text = parent.time_window_text;
        location_text = parent.location_text;
        guest_count_estimate = parent.guest_count_estimate;
        planning_mode = parent.planning_mode;
        kitchen_print_confirmed_at = none;
        parent_order_version_id = some parent.order_version_id;
        created_by = some actor_reference;
        change_reason = some change_reason;
        changed_fields = delivery_address ∷ [];
        delivery_date_local = none;
        delivery_window_start_local = none;
        delivery_window_end_local = none;
        event_start_local = none;
        delivery_time_local = none;
      })

-- the parent's recipient with the new address
abbrev pub address_context :
    Order
    → OrderVersion
    → OperationalContext
    → Option CustomerAddress
    → DateTime
    → OperationalContext
address_context current version parent_context address now =
    let operational_context : OperationalContextData = record {
      recipient_company = parent_context.recipient_company;
      recipient_name = parent_context.recipient_name;
      recipient_phone = parent_context.recipient_phone;
      delivery_address = address;
    } in
    explicit_operational_context current version operational_context now
      parent_context.fulfillment_mode

unfoldable pub propose_delivery_address_change :
    (order_id parent_order_version_id : Identifier) (address : Option CustomerAddress)
    (actor_reference change_reason : Text) (order_version_id : Identifier) (now : DateTime)
    → Exec World OrderVersion
unfolding live_order address_parent address_version
propose_delivery_address_change order_id parent_order_version_id address actor_reference
      change_reason order_version_id now =
    do
      s ← gets (λ w. w.orders)
      current ← lift (live_order order_id s)
      (parent, parent_context) ← lift (address_parent order_id parent_order_version_id s)
      version ←
          lift
            (address_version order_id actor_reference change_reason order_version_id now parent s)
      let context = some (address_context current version parent_context address now)
      file_candidate order_id current version context actor_reference change_reason now
