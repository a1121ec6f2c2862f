-- ===== src/Tests/CashLibrary.antt =====
-- A concrete JSON library, in which identifiers and instants are one character, for the theorems on
-- the cash handoff.
use silberloeffel_catering.Common.{
  ◌≡◌, refl, ℕ, arith, inl, inr, Bool-cases, subst, Option, none, some, [], ◌∷◌, ◌==◌,
  if◌then◌else◌,
}
use silberloeffel_catering.Common.Text.{Text, codes, text_eq, text_eq_iff}
use silberloeffel_catering.Courier.Model.{
  CourierCashResult, CashState, ready_for_handoff, driver_custody, awaiting_chef, final_paid,
  not_received, manual_review,
}
use silberloeffel_catering.Courier.Codec.{Forms, Json, string, Object, named}
use silberloeffel_catering.Courier.Answer.{Library, state_text, cash_states, item, result_json}

-- Identifiers and instants as one character.
abbrev single : Text → Option ℕ
single (c ∷ []) = some c
single _ = none

abbrev pub forms : Forms
forms = record {
  parse_uuid = single;
  uuid_text = λ i. i ∷ [];
  parse_time = single;
  time_text = λ t. t ∷ [];
}

abbrev char_of : Option Json → ℕ
char_of (some (string (c ∷ cs))) = c
char_of _ = 0

abbrev text_of : Option Json → Text
text_of (some (string t)) = t
text_of _ = []

abbrev number_of : CashState → ℕ
number_of ready_for_handoff = 0
number_of driver_custody = 1
number_of awaiting_chef = 2
number_of final_paid = 3
number_of not_received = 4
number_of manual_review = 5

abbrev number_or : Option CashState → ℕ
number_or none = 9
number_or (some s) = number_of s

-- JSON texts of results: one character for each of the other fields, then the contract version.
unfoldable pub dumps : Object → Text
unfolding item named
dumps o =
    char_of (item (codes "event_id") o)
    ∷ char_of (item (codes "idempotency_key") o)
    ∷ char_of (item (codes "order_id") o)
    ∷ number_or (named state_text cash_states (text_of (item (codes "cash_state") o)))
    ∷ char_of (item (codes "recorded_at") o)
    ∷ text_of (item (codes "contract_version") o)

abbrev state_of : ℕ → CashState
state_of n =
    if n == 0
    then ready_for_handoff
    else if n == 1
    then driver_custody
    else if n == 2
    then awaiting_chef
    else if n == 3
    then final_paid
    else if n == 4
    then not_received
    else manual_review

-- The keys come back sorted.
abbrev pub loads : Text → Option Object
loads (event_id ∷ key ∷ order_id ∷ state ∷ time ∷ version) = some (
    (codes "cash_state", string (state_text (state_of state)))
    ∷ (codes "contract_version", string version)
    ∷ (codes "event_id", string (event_id ∷ []))
    ∷ (codes "idempotency_key", string (key ∷ []))
    ∷ (codes "order_id", string (order_id ∷ []))
    ∷ (codes "recorded_at", string (time ∷ []))
    ∷ [])
loads _ = none

abbrev first_char : Text → ℕ
first_char [] = 0
first_char (c ∷ cs) = c

abbrev pub library : Library
library = record {
  forms = forms;
  identifier = first_char;
  dumps = dumps;
  loads = loads;
  str_other = λ v. [];
}

at_state :
    (version event_id key order_id state time : Text)
    → item (codes "cash_state") (
        (codes "cash_state", string state)
        ∷ (codes "contract_version", string version)
        ∷ (codes "event_id", string event_id)
        ∷ (codes "idempotency_key", string key)
        ∷ (codes "order_id", string order_id)
        ∷ (codes "recorded_at", string time)
        ∷ [])
      ≡ item (codes "cash_state") (
          (codes "contract_version", string version)
          ∷ (codes "event_id", string event_id)
          ∷ (codes "idempotency_key", string key)
          ∷ (codes "order_id", string order_id)
          ∷ (codes "cash_state", string state)
          ∷ (codes "recorded_at", string time)
          ∷ [])
unfolding item text_eq
at_state version event_id key order_id state time = refl

-- The members of a dict do not depend on the order of its keys.
items_sorted :
    (version event_id key order_id state time : Text) (k : Text)
    → item k (
        (codes "cash_state", string state)
        ∷ (codes "contract_version", string version)
        ∷ (codes "event_id", string event_id)
        ∷ (codes "idempotency_key", string key)
        ∷ (codes "order_id", string order_id)
        ∷ (codes "recorded_at", string time)
        ∷ [])
      ≡ item k (
          (codes "contract_version", string version)
          ∷ (codes "event_id", string event_id)
          ∷ (codes "idempotency_key", string key)
          ∷ (codes "order_id", string order_id)
          ∷ (codes "cash_state", string state)
          ∷ (codes "recorded_at", string time)
          ∷ [])
unfolding item
items_sorted version event_id key order_id state time k =
    elim (Bool-cases (text_eq (codes "cash_state") k)) [
      | inr other ↦ ground (arith, other)
      | inl same ↦
          subst
            (λ x.
              item x (
                (codes "cash_state", string state)
                ∷ (codes "contract_version", string version)
                ∷ (codes "event_id", string event_id)
                ∷ (codes "idempotency_key", string key)
                ∷ (codes "order_id", string order_id)
                ∷ (codes "recorded_at", string time)
                ∷ [])
              ≡ item x (
                  (codes "contract_version", string version)
                  ∷ (codes "event_id", string event_id)
                  ∷ (codes "idempotency_key", string key)
                  ∷ (codes "order_id", string order_id)
                  ∷ (codes "cash_state", string state)
                  ∷ (codes "recorded_at", string time)
                  ∷ []))
            ((text_eq_iff (codes "cash_state") k).0 same)
            (at_state version event_id key order_id state time)
    ]

state_of-number :
    (s : CashState) → state_of (number_or (named state_text cash_states (state_text s))) ≡ s
unfolding named text_eq
state_of-number ready_for_handoff = refl
state_of-number driver_custody = refl
state_of-number awaiting_chef = refl
state_of-number final_paid = refl
state_of-number not_received = refl
state_of-number manual_review = refl

pub answers :
    (r : CourierCashResult)
    → (o : Object) × (loads (dumps (result_json library r)) ≡ some o)
      × ((key : Text) → item key o ≡ item key (result_json library r))
unfolding dumps item text_eq result_json
answers r = (
  (codes "cash_state", string (state_text r.cash_state))
      ∷ (codes "contract_version", string r.contract_version)
      ∷ (codes "event_id", string (r.event_id ∷ []))
      ∷ (codes "idempotency_key", string (r.idempotency_key ∷ []))
      ∷ (codes "order_id", string (r.order_id ∷ []))
      ∷ (codes "recorded_at", string (r.recorded_at ∷ []))
      ∷ [],
  rw (state_of-number r.cash_state) refl,
  items_sorted r.contract_version (r.event_id ∷ []) (r.idempotency_key ∷ []) (r.order_id ∷ [])
      (state_text r.cash_state) (r.recorded_at ∷ []),
)
