-- ===== src/Courier/Answer/ReadBack.antt =====
-- The result of a stored event is read back as it was written.
use silberloeffel_catering.Common.{◌≡◌, refl, some}
use silberloeffel_catering.Common.Text.{Text, codes, text_eq}
use silberloeffel_catering.Common.Results.{ok}
use silberloeffel_catering.Orders.Model.{Identifier, DateTime}
use silberloeffel_catering.Courier.Model.{
  CashState, ready_for_handoff, driver_custody, awaiting_chef, final_paid, not_received,
  manual_review, CourierCashResult, CourierCashStoredEvent,
}
use silberloeffel_catering.Courier.Codec.{string, Object, named, time_field}
use silberloeffel_catering.Courier.Answer.{
  Library, state_text, cash_states, item, result_json, value_at, read_result, stored_result,
}

named-state : (s : CashState) → named state_text cash_states (state_text s) ≡ some s
unfolding named text_eq
named-state ready_for_handoff = refl
named-state driver_custody = refl
named-state awaiting_chef = refl
named-state final_paid = refl
named-state not_received = refl
named-state manual_review = refl

module _ (library : Library)
    (identifiers : (i : Identifier) → library.identifier (library.forms.uuid_text i) ≡ i)
    (times : (t : DateTime) → library.forms.parse_time (library.forms.time_text t) ≡ some t) where
  items-result_json :
      (r : CourierCashResult)
      → (item (codes "contract_version") (result_json library r) ≡ some (string r.contract_version))
        × (item (codes "event_id") (result_json library r)
            ≡ some (string (library.forms.uuid_text r.event_id)))
        × (item (codes "idempotency_key") (result_json library r)
            ≡ some (string (library.forms.uuid_text r.idempotency_key)))
        × (item (codes "order_id") (result_json library r)
            ≡ some (string (library.forms.uuid_text r.order_id)))
        × (item (codes "cash_state") (result_json library r)
            ≡ some (string (state_text r.cash_state)))
        × (item (codes "recorded_at") (result_json library r)
            ≡ some (string (library.forms.time_text r.recorded_at)))
  unfolding item result_json text_eq
  items-result_json r = (refl, refl, refl, refl, refl, refl)

  read_result-result_json :
      (r : CourierCashResult) (o : Object)
      → ((key : Text) → item key o ≡ item key (result_json library r))
      → read_result library o ≡ ok r
  unfolding read_result value_at time_field
  read_result-result_json r o same =
      let (version, event, key, order, state, time) = items-result_json r in
      rw
        (
          same (codes "contract_version"),
          version,
          same (codes "event_id"),
          event,
          same (codes "idempotency_key"),
          key,
          same (codes "order_id"),
          order,
          same (codes "cash_state"),
          state,
          named-state r.cash_state,
          same (codes "recorded_at"),
          time,
          times r.recorded_at,
          identifiers r.event_id,
          identifiers r.idempotency_key,
          identifiers r.order_id,
        )
        refl

  pub stored_result-written :
      (event : CourierCashStoredEvent) (r : CourierCashResult) (o : Object)
      → event.response_json ≡ library.dumps (result_json library r)
      → library.loads (library.dumps (result_json library r)) ≡ some o
      → ((key : Text) → item key o ≡ item key (result_json library r))
      → stored_result library event ≡ ok r
  unfolding stored_result
  stored_result-written event r o written parsed same =
      rw (written, parsed) (read_result-result_json r o same)
