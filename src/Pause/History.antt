-- ===== src/Pause/History.antt =====
-- The pause state of an order as its event history grows.
use silberloeffel_catering.Common.{
  ◌≡◌, ◌≤◌, ◌<◌, ◌⊎◌, ◌≢◌, refl, sym, ◌∙◌, ap, true, false, Option, none, some, opt_eq→eq, List, [],
  ◌∷◌, ◌++◌, arith, ◌==◌,
}
use silberloeffel_catering.Common.Lists.{filter, In, In-filter, filter-append_in, filter-append_out}
use silberloeffel_catering.Common.Sort.{sorted, sorted-append, sorted-sorted}
use silberloeffel_catering.Orders.Model.{Identifier}
use silberloeffel_catering.Pause.{
  PauseEvent, paused, resumed, event_before, pause_step, active_after, list_events,
  get_active_pause,
}

event_before_total : (a b : PauseEvent) → event_before a b ≡ false → event_before b a ≡ true
event_before_total a b h = ground arith

event_before_trans :
    (a b c : PauseEvent)
    → event_before a b ≡ true
    → event_before b c ≡ true
    → event_before a c ≡ true
event_before_trans a b c h k = ground arith

active_after-append :
    (a : Option PauseEvent) (xs : List PauseEvent) (e : PauseEvent)
    → active_after a (xs ++ e ∷ []) ≡ pause_step (active_after a xs) e
unfolding active_after
active_after-append a [] e = refl
active_after-append a (x ∷ xs) e = active_after-append (pause_step a x) xs e

active_events :
    (order_id : Identifier) (events : List PauseEvent)
    → get_active_pause order_id events ≡ active_after none (list_events order_id events)
unfolding get_active_pause list_events
active_events order_id events = ap (active_after none) (
    sorted-sorted event_before event_before_total event_before_trans
      (filter (λ (row : PauseEvent). row.order_id == order_id) events))

-- The events of an order, once one more event is recorded that no earlier one follows.
list_events-append :
    (order_id : Identifier) (e : PauseEvent) (events : List PauseEvent)
    → ((x : PauseEvent) → In x events → x.order_id ≡ order_id → event_before x e ≡ true)
    → e.order_id ≡ order_id
    → list_events order_id (events ++ e ∷ []) ≡ list_events order_id events ++ e ∷ []
unfolding list_events
list_events-append order_id e events last_one own =
    rw (filter-append_in (λ (row : PauseEvent). row.order_id == order_id) events e (ground arith)) (
      sorted-append event_before _ e (λ x m.
        let (old, mine) = In-filter (λ (row : PauseEvent). row.order_id == order_id) x events m in
        last_one x old (ground arith)))

-- An event that no earlier event of its order follows moves the active pause, computed from the
-- whole log, by one step of the pause machine.
pub get_active_pause-append :
    (order_id : Identifier) (e : PauseEvent) (events : List PauseEvent)
    → ((x : PauseEvent) → In x events → x.order_id ≡ order_id → event_before x e ≡ true)
    → e.order_id ≡ order_id
    → get_active_pause order_id (events ++ e ∷ []) ≡ pause_step (get_active_pause order_id events) e
unfolding get_active_pause
get_active_pause-append order_id e events last_one own =
    active_events order_id (events ++ e ∷ [])
    ∙ ap (active_after none) (list_events-append order_id e events last_one own)
    ∙ active_after-append none (list_events order_id events) e
    ∙ ap (λ a. pause_step a e) (sym (active_events order_id events))

step_paused : (a : Option PauseEvent) (e : PauseEvent) → e.action ≡ paused → pause_step a e ≡ some e
unfolding pause_step
step_paused a e p = ground (arith, p)

step_resumed :
    (a e : PauseEvent)
    → e.action ≡ resumed
    → e.resumes_pause_event_id ≡ some a.pause_event_id
    → pause_step (some a) e ≡ none
unfolding pause_step
step_resumed a e r same = ground (arith, r, same)

step_other :
    (a e : PauseEvent)
    → e.action ≡ resumed
    → e.resumes_pause_event_id ≢ some a.pause_event_id
    → pause_step (some a) e ≡ some a
unfolding pause_step
step_other a e r other =
    ground (arith, r, other, opt_eq→eq e.resumes_pause_event_id (some a.pause_event_id))

step_none : (e : PauseEvent) → e.action ≡ resumed → pause_step none e ≡ none
unfolding pause_step
step_none e r = ground (arith, r)

-- When every event of an order is earlier than a new event of it, or as early with an identifier
-- that is no greater, the new event decides the active pause that is computed from the whole log:
-- a pause is the active pause itself, a resume ends the active pause that it names and leaves one
-- that it does not name, and a resume without an active pause leaves none.
pub get_active_pause_lem :
    (order_id : Identifier) (e : PauseEvent) (events : List PauseEvent)
    → ((x : PauseEvent)
        → In x events
        → x.order_id ≡ order_id
        → (x.occurred_at < e.occurred_at)
          ⊎ ((x.occurred_at ≡ e.occurred_at) × (x.pause_event_id ≤ e.pause_event_id)))
    → e.order_id ≡ order_id
    → (e.action ≡ paused → get_active_pause order_id (events ++ e ∷ []) ≡ some e)
      × (e.action ≡ resumed
          → ((a : PauseEvent)
              → get_active_pause order_id events ≡ some a
              → (e.resumes_pause_event_id ≡ some a.pause_event_id
                  → get_active_pause order_id (events ++ e ∷ []) ≡ none)
                × (e.resumes_pause_event_id ≢ some a.pause_event_id
                    → get_active_pause order_id (events ++ e ∷ []) ≡ some a))
            × (get_active_pause order_id events ≡ none
                → get_active_pause order_id (events ++ e ∷ []) ≡ none))
unfolding pause_step
get_active_pause_lem order_id e events last_one own =
    let moved =
      get_active_pause-append order_id e events (λ x m o. ground (arith, last_one x m o)) own in
    (
      λ p. moved ∙ step_paused _ e p,
      λ r. (
        λ a active. (
          λ same. moved ∙ ap (λ x. pause_step x e) active ∙ step_resumed a e r same,
          λ other. moved ∙ ap (λ x. pause_step x e) active ∙ step_other a e r other,
        ),
        λ none_active. moved ∙ ap (λ x. pause_step x e) none_active ∙ step_none e r,
      ),
    )

-- An event of one order does not touch the pause of another.
pub get_active_pause-append_other :
    (order_id : Identifier) (e : PauseEvent) (events : List PauseEvent)
    → e.order_id ≢ order_id
    → get_active_pause order_id (events ++ e ∷ []) ≡ get_active_pause order_id events
unfolding get_active_pause list_events
get_active_pause-append_other order_id e events other =
    rw (filter-append_out (λ (row : PauseEvent). row.order_id == order_id) events e (ground arith))

pub list_events-sorted :
    (order_id : Identifier) (events : List PauseEvent)
    → sorted event_before (list_events order_id events) ≡ list_events order_id events
unfolding list_events
list_events-sorted order_id events =
    sorted-sorted event_before event_before_total event_before_trans
      (filter (λ (row : PauseEvent). row.order_id == order_id) events)
