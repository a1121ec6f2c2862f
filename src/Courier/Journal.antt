-- ===== src/Courier/Journal.antt =====
-- src/catering_system/repositories/sqlite_courier_cash_repository.py: the append-only journal. A
-- query by descending sequence takes the last event that matches.
use silberloeffel_catering.Common.{
  ◌&&◌, ◌||◌, Option, none, some, List, [], ◌∷◌, ◌++◌, is_none, ◌==◌, if◌then◌else◌,
}
use silberloeffel_catering.Common.Lists.{any, filter, find, last}
use silberloeffel_catering.Common.Results.{Result, ok, err, integrity_error}
use silberloeffel_catering.Orders.Model.{Identifier}
use silberloeffel_catering.Orders.Repository.{OrderStore, get_order}
use silberloeffel_catering.Courier.Model.{CourierCashStoredEvent, is_correction}

abbrev pub Journal : Type 0
Journal = List CourierCashStoredEvent

unfoldable pub get_by_idempotency_key : Identifier → Journal → Option CourierCashStoredEvent
get_by_idempotency_key key = find (λ (e : CourierCashStoredEvent). e.idempotency_key == key)

unfoldable pub get_latest_for_context :
    Identifier → Identifier → Journal → Option CourierCashStoredEvent
get_latest_for_context order_id context_id j = last (
    filter
      (λ (e : CourierCashStoredEvent).
        e.order_id == order_id && e.cash_execution_context_id == context_id)
      j)

unfoldable pub get_latest_for_order : Identifier → Journal → Option CourierCashStoredEvent
get_latest_for_order order_id j =
    last (filter (λ (e : CourierCashStoredEvent). e.order_id == order_id) j)

abbrev event_id_of : Option CourierCashStoredEvent → Option Identifier
event_id_of none = none
event_id_of (some e) = some e.event_id

unfoldable pub get_latest_correction_id : Identifier → Journal → Option Identifier
get_latest_correction_id order_id j = event_id_of (
    last (
      filter (λ (e : CourierCashStoredEvent). e.order_id == order_id && is_correction e.event_type)
        j))

-- The unique columns and the trigger on the owner raise.
unfoldable pub append_event : CourierCashStoredEvent → OrderStore → Journal → Result Journal
unfolding get_order
append_event event orders j =
    if any
        (λ (e : CourierCashStoredEvent).
          e.event_id == event.event_id || e.idempotency_key == event.idempotency_key)
        j
      || is_none (get_order orders event.order_id)
    then err integrity_error
    else ok (j ++ event ∷ [])
