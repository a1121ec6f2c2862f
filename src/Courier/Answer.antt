-- ===== src/Courier/Answer.antt =====
-- src/catering_system/domain/courier_cash_handoff.py: `CourierCashResult.to_json` and
-- `CourierCashStoredEvent.result`. Writing and parsing JSON texts and the forms of identifiers and
-- instants are parameters.
pub mod ReadBack
use silberloeffel_catering.Common.{Option, none, some, List, [], ◌∷◌, if◌then◌else◌}
use silberloeffel_catering.Common.Text.{Text, codes, text_eq}
use silberloeffel_catering.Common.Results.{
  Result, ok, err, value_error, key_error, assertion_error, or_raise, ◌>>=◌, invalid_json,
}
use silberloeffel_catering.Orders.Model.{Identifier}
use silberloeffel_catering.Courier.Model.{
  CashState, ready_for_handoff, driver_custody, awaiting_chef, final_paid, not_received,
  manual_review, CourierCashResult, CourierCashStoredEvent,
}
use silberloeffel_catering.Courier.Codec.{Json, string, Forms, Object, named, time_field}

-- The library under the service: `identifier` is the identifier that a text is, `dumps` and `loads`
-- are those of `json`, and `str_other` is `str` on a value that is no text.
pub record Library : Type 0 where
  pub forms : Forms
  pub identifier : Text → Identifier
  pub dumps : Object → Text
  pub loads : Text → Option Object
  pub str_other : Json → Text

-- the values of the constants
abbrev pub state_text : CashState → Text
state_text ready_for_handoff = codes "READY_FOR_CUSTOMER_HANDOFF"
state_text driver_custody = codes "DRIVER_CUSTODY"
state_text awaiting_chef = codes "AWAITING_CHEF_CONFIRMATION"
state_text final_paid = codes "FINAL_PAID"
state_text not_received = codes "NOT_RECEIVED"
state_text manual_review = codes "MANUAL_REVIEW_REQUIRED"

abbrev pub cash_states : List CashState
cash_states =
    ready_for_handoff ∷ driver_custody ∷ awaiting_chef ∷ final_paid ∷ not_received ∷ manual_review
    ∷ []

-- `value[key]`
unfoldable pub item : Text → Object → Option Json
unfolding text_eq
item key [] = none
item key ((k, v) ∷ rest) = let later = item key rest in if text_eq k key then some v else later

module _ (library : Library) where
  unfoldable pub result_json : CourierCashResult → Object
  result_json r =
      (codes "contract_version", string r.contract_version)
      ∷ (codes "event_id", string (library.forms.uuid_text r.event_id))
      ∷ (codes "idempotency_key", string (library.forms.uuid_text r.idempotency_key))
      ∷ (codes "order_id", string (library.forms.uuid_text r.order_id))
      ∷ (codes "cash_state", string (state_text r.cash_state))
      ∷ (codes "recorded_at", string (library.forms.time_text r.recorded_at))
      ∷ []

  -- `str`
  abbrev pub str_of : Json → Text
  str_of (string t) = t
  str_of v = library.str_other v

  -- `value[key]` for a key in quotes; the key of the exception is left out.
  unfoldable pub value_at : Text → Object → Result Json
  unfolding item
  value_at key o = or_raise (item key o) (key_error 0)

  -- A text that is none of the six states has no counterpart here.
  unfoldable pub read_result : Object → Result CourierCashResult
  unfolding value_at named time_field
  read_result o = do
    contract_version ← value_at (codes "contract_version") o
    event_id ← value_at (codes "event_id") o
    idempotency_key ← value_at (codes "idempotency_key") o
    order_id ← value_at (codes "order_id") o
    state ← value_at (codes "cash_state") o
    cash_state ← or_raise (named state_text cash_states (str_of state)) assertion_error
    time ← value_at (codes "recorded_at") o
    recorded_at ← time_field library.forms time
    ok (record {
      contract_version = str_of contract_version;
      event_id = library.identifier (str_of event_id);
      idempotency_key = library.identifier (str_of idempotency_key);
      order_id = library.identifier (str_of order_id);
      cash_state = cash_state;
      recorded_at = recorded_at;
    })

  unfoldable pub stored_result : CourierCashStoredEvent → Result CourierCashResult
  unfolding read_result
  stored_result event =
      or_raise (library.loads event.response_json) (value_error invalid_json) >>= read_result
