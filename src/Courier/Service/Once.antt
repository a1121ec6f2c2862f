-- ===== src/Courier/Service/Once.antt =====
-- The journals that the service writes: every event is a step of the state machine, and the cash of
-- one context is booked at most once.
use silberloeffel_catering.Common.{
  ℕ, ◌+◌, ◌≡◌, ◌≤◌, ◌⊎◌, refl, sym, ap, subst, ◌∙◌, Bool, true, false, ◌&&◌, Option, none, some,
  List, [], ◌∷◌, ◌++◌, arith, inl, inr, Option-cases, Bool-cases, ◌==◌,
}
use silberloeffel_catering.Common.Lists.{
  length, filter, last, last-append, length-append, filter-append_in, filter-append_out,
}
use silberloeffel_catering.Common.Results.{ok, Result-cases}
use silberloeffel_catering.Orders.Model.{Identifier}
use silberloeffel_catering.Orders.Repository.{OrderStore}
use silberloeffel_catering.Payments.Repository.{PaymentStore}
use silberloeffel_catering.Courier.Model.{
  CashState, ready_for_handoff, driver_custody, awaiting_chef, final_paid, not_received,
  manual_review, EventType, CourierCashCommand, CourierCashStoredEvent, is_correction,
  is_final_paid, CourierCashProjection,
}
use silberloeffel_catering.Courier.Journal.{
  Journal, append_event, get_by_idempotency_key, get_latest_for_context,
}
use silberloeffel_catering.Courier.Service.{
  Outside, Readings, CashStores, transition, correctable, check_order, current_projection, event_of,
  from_state_of, to_state_of, next_states, settle, process_new, process,
}
use silberloeffel_catering.Courier.Service.Replay.{settle-journal, append_event-ok}

-- A step of the state machine: one of the table, or a correction.
pub data Moves : EventType → CashState → CashState → Type 0 where
  by_table : {e : EventType} {from to : CashState} → transition from e ≡ some to → Moves e from to
  by_correction :
      {e : EventType} {from : CashState}
      → is_correction e ≡ true
      → correctable from ≡ true
      → Moves e from manual_review

-- The journals that commands write.
pub data Run : Journal → Type 0 where
  empty : Run []
  recorded :
      {j : Journal}
      → Run j
      → (outside : Outside) (orders : OrderStore) (command : CourierCashCommand) (t : Readings)
        (to_state : CashState)
      → Moves command.event_type (from_state_of outside orders command j) to_state
      → Run (
          j
          ++ event_of outside orders command t (from_state_of outside orders command j) to_state
            ∷ [])

module _ (outside : Outside) (orders : OrderStore) (command : CourierCashCommand) where
  to_state_of-Moves :
      (p : CourierCashProjection) (from to : CashState) (j : Journal)
      → to_state_of outside orders command p from j ≡ ok to
      → Moves command.event_type from to
  unfolding to_state_of
  to_state_of-Moves p from to j h = elim (Bool-cases (is_correction command.event_type)) [
    | inl c ↦ elim (Bool-cases (correctable from)) [
      | inr bad ↦ ground (arith, c, bad)
      | inl good ↦
          subst (Moves command.event_type from) (ground (arith, c, good)) (by_correction c good)
    ]
    | inr other ↦ elim (Option-cases (transition from command.event_type)) [
      | inl stuck ↦ ground (arith, other, stuck)
      | inr (next, step) ↦
          subst (Moves command.event_type from) (ground (arith, other, step)) (by_table step)
    ]
  ]

  next_states-Moves :
      (s : CashStores) (from to : CashState)
      → next_states outside orders command s ≡ ok (from, to)
      → (from_state_of outside orders command s.journal ≡ from) × Moves command.event_type from to
  unfolding next_states
  next_states-Moves s from to h = elim (Result-cases (check_order outside orders command)) [
    | inr (e, g) ↦ ground (arith, g)
    | inl (u, g) ↦ elim (Result-cases (current_projection outside orders command s)) [
      | inr (e, f) ↦ ground (arith, g, f)
      | inl (p, f) ↦
          elim (Result-cases (
            to_state_of outside orders command p (from_state_of outside orders command s.journal)
              s.journal)) [
                | inr (e, k) ↦ ground (arith, g, f, k)
                | inl (next, k) ↦
                    let same : from_state_of outside orders command s.journal ≡ from =
                      ground (arith, g, f, k) in
                    let reached : next ≡ to = ground (arith, g, f, k) in
                    (
                      same,
                      subst (λ x. Moves command.event_type x to) same
                          (subst (Moves command.event_type _) reached (
                            to_state_of-Moves p (from_state_of outside orders command s.journal)
                              next s.journal k)),
                    )
              ]
    ]
  ]

  -- Every branch of a command leaves a journal that commands write.
  process_new-Run :
      (t : Readings) (s : CashStores)
      → Run s.journal
      → Run (process_new outside orders command t s).1.journal
  unfolding process_new
  process_new-Run t s run = elim (Result-cases (next_states outside orders command s)) [
    | inr (e, g) ↦ subst Run (ground (arith, g)) run
    | inl ((from, to), g) ↦
        let (same, move) = next_states-Moves s from to g in
        let kept = settle-journal outside orders command t to s in
        elim (Result-cases ((settle outside orders command t to s).0)) [
          | inr (e, f) ↦ subst Run (ground (arith, g, f, kept)) run
          | inl (done, f) ↦
              elim (Result-cases (
                append_event (event_of outside orders command t from to) orders
                  (settle outside orders command t to s).1.journal)) [
                    | inr (e, k) ↦ subst Run (ground (arith, g, f, k, kept)) run
                    | inl (j, k) ↦
                        subst Run
                          (ground (
                            arith,
                            g,
                            f,
                            k,
                            kept,
                            same,
                            append_event-ok (event_of outside orders command t from to) orders
                                (settle outside orders command t to s).1.journal j k,
                          ))
                          (recorded run outside orders command t to
                            (subst (λ x. Moves command.event_type x to) (sym same) move))
                  ]
        ]
  ]

  pub process-Run :
      (t : Readings) (s : CashStores)
      → Run s.journal
      → Run (process outside orders command t s).1.journal
  unfolding process
  process-Run t s run =
      elim (Option-cases (get_by_idempotency_key command.idempotency_key s.journal)) [
        | inr (e, found) ↦ subst Run (ground (arith, found)) run
        | inl new ↦ subst Run (ground (arith, new)) (process_new-Run t s run)
      ]

-- the booked events of a context
abbrev pub final_events : Identifier → Identifier → Journal → ℕ
final_events order_id context_id j = length (
    filter
      (λ (e : CourierCashStoredEvent).
        (e.order_id == order_id && e.cash_execution_context_id == context_id)
        && is_final_paid e.to_state)
      j)

abbrev closed : CashState → Bool
closed final_paid = true
closed manual_review = true
closed _ = false

closed-stuck : (from : CashState) (e : EventType) → closed from ≡ true → transition from e ≡ none
unfolding transition
closed-stuck final_paid e h = refl
closed-stuck manual_review e h = refl
closed-stuck ready_for_handoff e h = ground arith
closed-stuck driver_custody e h = ground arith
closed-stuck awaiting_chef e h = ground arith
closed-stuck not_received e h = ground arith

-- Only a correction leaves a closed state, and it is closed again.
Moves-closed :
    (e : EventType) (from to : CashState)
    → Moves e from to
    → closed from ≡ true
    → (closed to ≡ true) × (is_final_paid to ≡ false)
Moves-closed e from to (by_table h) c = ground (arith, closed-stuck from e c)
Moves-closed e from manual_review (by_correction h g) c = (refl, refl)

-- Nothing is booked yet, or once, and then the context is closed.
abbrev Booked : ℕ → Option CourierCashStoredEvent → Type 0
Booked n none = n ≡ 0
Booked n (some e) = (n ≡ 0) ⊎ ((n ≡ 1) × (closed e.to_state ≡ true))

Booked-cases :
    (n : ℕ) (latest : Option CourierCashStoredEvent)
    → Booked n latest
    → (n ≡ 0)
      ⊎ ((n ≡ 1) × ((l : CourierCashStoredEvent) × (latest ≡ some l) × (closed l.to_state ≡ true)))
Booked-cases n none b = inl b
Booked-cases n (some l) (inl b) = inl b
Booked-cases n (some l) (inr (one, c)) = inr (one, (l, refl, c))

final-closed : (s : CashState) → is_final_paid s ≡ true → closed s ≡ true
final-closed final_paid h = refl
final-closed ready_for_handoff h = ground arith
final-closed driver_custody h = ground arith
final-closed awaiting_chef h = ground arith
final-closed not_received h = ground arith
final-closed manual_review h = refl

-- the state before a command in its own context
from_state_latest :
    (outside : Outside) (orders : OrderStore) (command : CourierCashCommand) (j : Journal)
    (l : CourierCashStoredEvent)
    → get_latest_for_context command.order_id command.cash_execution_context_id j ≡ some l
    → from_state_of outside orders command j ≡ l.to_state
unfolding from_state_of
from_state_latest outside orders command j l h = ground (arith, h)

module _ (order_id context_id : Identifier) where
  abbrev of_context : CourierCashStoredEvent → Bool
  of_context e = e.order_id == order_id && e.cash_execution_context_id == context_id

  latest-append_in :
      (k : Journal) (e : CourierCashStoredEvent)
      → of_context e ≡ true
      → get_latest_for_context order_id context_id (k ++ e ∷ []) ≡ some e
  unfolding get_latest_for_context
  latest-append_in k e m =
      ap last (filter-append_in of_context k e m) ∙ last-append (filter of_context k) e

  latest-append_out :
      (k : Journal) (e : CourierCashStoredEvent)
      → of_context e ≡ false
      → get_latest_for_context order_id context_id (k ++ e ∷ [])
        ≡ get_latest_for_context order_id context_id k
  unfolding get_latest_for_context
  latest-append_out k e m = ap last (filter-append_out of_context k e m)

  abbrev booked_here : CourierCashStoredEvent → Bool
  booked_here e = of_context e && is_final_paid e.to_state

  final-append_in :
      (k : Journal) (e : CourierCashStoredEvent)
      → booked_here e ≡ true
      → final_events order_id context_id (k ++ e ∷ []) ≡ final_events order_id context_id k + 1
  final-append_in k e m =
      ap length (filter-append_in booked_here k e m) ∙ length-append (filter booked_here k) e

  final-append_out :
      (k : Journal) (e : CourierCashStoredEvent)
      → booked_here e ≡ false
      → final_events order_id context_id (k ++ e ∷ []) ≡ final_events order_id context_id k
  final-append_out k e m = ap length (filter-append_out booked_here k e m)

  Booked-step :
      (k : Journal) (e : CourierCashStoredEvent)
      → Booked (final_events order_id context_id k) (get_latest_for_context order_id context_id k)
      → (of_context e ≡ true
          → (l : CourierCashStoredEvent) → get_latest_for_context order_id context_id k ≡ some l
          → closed l.to_state ≡ true
          → (closed e.to_state ≡ true) × (is_final_paid e.to_state ≡ false))
      → Booked
          (final_events order_id context_id (k ++ e ∷ []))
          (get_latest_for_context order_id context_id (k ++ e ∷ []))
  Booked-step k e b moved = elim (Bool-cases (of_context e)) [
    | inr other ↦
        subst (Booked (final_events order_id context_id (k ++ e ∷ [])))
          (sym (latest-append_out k e other))
          (subst (λ n. Booked n (get_latest_for_context order_id context_id k))
            (sym (final-append_out k e (ground (arith, other)))) b)
    | inl own ↦
        subst (Booked (final_events order_id context_id (k ++ e ∷ [])))
          (sym (latest-append_in k e own)) (counted own)
  ]
    where
      counted :
          of_context e ≡ true → Booked (final_events order_id context_id (k ++ e ∷ [])) (some e)
      counted own =
          elim (Booked-cases (final_events order_id context_id k)
            (get_latest_for_context order_id context_id k) b) [
              | inl zero ↦ elim (Bool-cases (is_final_paid e.to_state)) [
                | inl paid ↦ inr (
                  final-append_in k e (ground (arith, own, paid)) ∙ ap (λ n. n + 1) zero,
                  final-closed e.to_state paid,
                )
                | inr open' ↦ inl (final-append_out k e (ground (arith, own, open')) ∙ zero)
              ]
              | inr (one, (l, h, c)) ↦
                  let (closes, open') = moved own l h c in
                  inr (final-append_out k e (ground (arith, own, open')) ∙ one, closes)
            ]

  Run-Booked :
      (j : Journal)
      → Run j
      → Booked (final_events order_id context_id j) (get_latest_for_context order_id context_id j)
  unfolding get_latest_for_context
  Run-Booked j empty = refl
  Run-Booked j (recorded {j = k} run outside orders command t to move) =
      let e = event_of outside orders command t (from_state_of outside orders command k) to in
      Booked-step k e (Run-Booked k run) (λ own l h c.
        Moves-closed command.event_type l.to_state to
          (subst (λ x. Moves command.event_type x to)
            (from_state_latest outside orders command k l (ground (arith, own, h))) move)
          c)

-- A command with what it meets.
pub record CashOccasion : Type 0 where
  pub orders : OrderStore
  pub command : CourierCashCommand
  pub readings : Readings

unfoldable pub process_all : Outside → List CashOccasion → CashStores → CashStores
unfolding process
process_all outside [] s = s
process_all outside (o ∷ os) s =
    process_all outside os (process outside o.orders o.command o.readings s).1

process_all-Run :
    (outside : Outside) (os : List CashOccasion) (s : CashStores)
    → Run s.journal
    → Run (process_all outside os s).journal
unfolding process_all
process_all-Run outside [] s run = run
process_all-Run outside (o ∷ os) s run =
    process_all-Run outside os _ (process-Run outside o.orders o.command o.readings s run)

-- Starting from an empty journal, any list of cash commands, raising or not, books the cash of one
-- context of an order at most once.
pub process_all_once :
    (outside : Outside) (occasions : List CashOccasion) (payments : PaymentStore)
    (order_id context_id : Identifier)
    → let s = process_all outside occasions (record { payments = payments; journal = [] }) in
      final_events order_id context_id s.journal ≤ 1
process_all_once outside occasions payments order_id context_id =
    let j =
      (process_all outside occasions (record { payments = payments; journal = [] })).journal in
    elim (Booked-cases (final_events order_id context_id j)
      (get_latest_for_context order_id context_id j)
      (Run-Booked order_id context_id j
        (process_all-Run outside occasions (record { payments = payments; journal = [] }) empty))) [
          | inl zero ↦ ground (arith, zero)
          | inr (one, rest) ↦ ground (arith, one)
        ]
