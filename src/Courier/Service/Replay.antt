-- ===== src/Courier/Service/Replay.antt =====
-- A command that was processed and is sent again is answered from the journal.
use silberloeffel_catering.Common.{
  ◌≡◌, refl, ap, none, some, [], ◌∷◌, ◌++◌, arith, inl, inr, Option-cases, ◌==◌,
}
use silberloeffel_catering.Common.Lists.{find-append}
use silberloeffel_catering.Common.Text.{text_eq_iff}
use silberloeffel_catering.Common.Results.{Result, ok, Result-cases}
use silberloeffel_catering.Orders.Repository.{OrderStore}
use silberloeffel_catering.Courier.Model.{
  CashState, CourierCashCommand, CourierCashResult, CourierCashStoredEvent,
}
use silberloeffel_catering.Common.Text.{Text}
use silberloeffel_catering.Orders.Model.{Identifier, DateTime}
use silberloeffel_catering.Courier.Codec.{Object}
use silberloeffel_catering.Courier.Answer.{item, result_json}
use silberloeffel_catering.Courier.Answer.ReadBack.{stored_result-written}
use silberloeffel_catering.Courier.Journal.{Journal, get_by_idempotency_key, append_event}
use silberloeffel_catering.Courier.Service.{
  Outside, request_text, Readings, CashStores, result_of, event_of, next_states, settle,
  record_final_payment, revoke_payment, process_new, replayed, process,
}

pub append_event-ok :
    (e : CourierCashStoredEvent) (orders : OrderStore) (j u : Journal)
    → append_event e orders j ≡ ok u
    → u ≡ j ++ e ∷ []
unfolding append_event
append_event-ok e orders j u h = ground arith

module _ (outside : Outside) (orders : OrderStore) (command : CourierCashCommand) where
  -- Settling a payment writes no event.
  pub settle-journal :
      (t : Readings) (to_state : CashState) (s : CashStores)
      → (settle outside orders command t to_state s).1.journal ≡ s.journal
  unfolding settle record_final_payment revoke_payment
  settle-journal t to_state s = grind arith

  -- What a returned command with a new key has recorded.
  pub record Recorded (t : Readings) (s u : CashStores) (r : CourierCashResult) : Type 0 where
    pub from_state : CashState
    pub to_state : CashState
    pub guarded : next_states outside orders command s ≡ ok (from_state, to_state)
    pub settled : CashStores
    pub settles : settle outside orders command t to_state s ≡ (ok tt, settled)
    pub appended :
        u.journal ≡ s.journal ++ event_of outside orders command t from_state to_state ∷ []
    pub payments : u.payments ≡ settled.payments
    pub result : r ≡ result_of outside orders command t to_state

  pub process_new-Recorded :
      (t : Readings) (s u : CashStores) (r : CourierCashResult)
      → process_new outside orders command t s ≡ (ok r, u)
      → Recorded t s u r
  unfolding process_new
  process_new-Recorded t s u r h = elim (Result-cases (next_states outside orders command s)) [
    | inr (e, g) ↦ ground (arith, g)
    | inl ((from_state, to_state), g) ↦
        let settled = settle outside orders command t to_state s in
        let event = event_of outside orders command t from_state to_state in
        elim (Result-cases settled.0) [
          | inr (e, f) ↦ ground (arith, g, f)
          | inl (done, f) ↦ elim (Result-cases (append_event event orders settled.1.journal)) [
            | inr (e, k) ↦ ground (arith, g, f, k)
            | inl (j, k) ↦ record {
              from_state = from_state;
              to_state = to_state;
              guarded = g;
              settled = settled.1;
              settles = ap (λ (x : Result (Unit {0})). (x, settled.1)) f;
              appended = ground (
                arith,
                g,
                f,
                k,
                append_event-ok event orders settled.1.journal j k,
                settle-journal t to_state s,
              );
              payments = ground (arith, g, f, k);
              result = ground (arith, g, f, k);
            }
          ]
        ]
  ]

  -- The journal of a returned command with a new key answers for it.
  Recorded-found :
      (t : Readings) (s u : CashStores) (r : CourierCashResult)
      → (c : Recorded t s u r) → get_by_idempotency_key command.idempotency_key s.journal ≡ none
      → get_by_idempotency_key command.idempotency_key u.journal
        ≡ some (event_of outside orders command t c.from_state c.to_state)
  unfolding get_by_idempotency_key
  Recorded-found t s u r c new = ground (
    arith,
    c.appended,
    find-append (λ (e : CourierCashStoredEvent). e.idempotency_key == command.idempotency_key)
        s.journal (event_of outside orders command t c.from_state c.to_state ∷ []) new,
  )

  module _
      (identifiers : (i : Identifier)
        → outside.library.identifier (outside.library.forms.uuid_text i) ≡ i)
      (times : (t : DateTime)
        → outside.library.forms.parse_time (outside.library.forms.time_text t) ≡ some t)
      (answers : (r : CourierCashResult)
        → (o : Object) × (outside.library.loads
              (outside.library.dumps (result_json outside.library r))
            ≡ some o)
          × ((key : Text) → item key o ≡ item key (result_json outside.library r))) where
    replayed_own :
        (t : Readings) (from_state to_state : CashState)
        → replayed outside orders command (event_of outside orders command t from_state to_state)
          ≡ ok (result_of outside orders command t to_state)
    unfolding replayed
    replayed_own t from_state to_state =
        let r = result_of outside orders command t to_state in
        let event = event_of outside orders command t from_state to_state in
        let (o, parsed, same) = answers r in
        let mark = outside.fingerprint (request_text outside orders command) in
        rw ((text_eq_iff mark mark).1 refl)
          (stored_result-written outside.library identifiers times event r o refl parsed same)

    -- Assume that the texts of identifiers and instants are read back as what was written, and
    -- that a parsed JSON object has under every key what was written under it. Then a cash command
    -- that returned and is sent again, at any time, returns the same result, read from the stored
    -- response, and writes neither an event nor a payment.
    pub process_again :
        (t later : Readings) (s u : CashStores) (r : CourierCashResult)
        → process outside orders command t s ≡ (ok r, u)
        → process outside orders command later u ≡ (ok r, u)
    unfolding process
    process_again t later s u r h =
        elim (Option-cases (get_by_idempotency_key command.idempotency_key s.journal)) [
          | inr (e, found) ↦ ground (arith, found)
          | inl new ↦
              let c = process_new-Recorded t s u r (ground (arith, new)) in
              ground (
                arith,
                Recorded-found t s u r c new,
                replayed_own t c.from_state c.to_state,
                c.result,
              )
        ]
