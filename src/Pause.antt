-- ===== src/Pause.antt =====
-- src/catering_system/domain/order_operational_pause.py and
-- repositories/in_memory_order_operational_pause_repository.py: the append-only pause events of an
-- order, and the active pause that is derived from them.
pub mod History
use silberloeffel_catering.Common.{
  ℕ, Bool, true, false, not, ◌&&◌, ◌||◌, Option, none, some, List, [], ◌∷◌, ◌++◌, leb, ltb, opt_eq,
  is_some, is_none, ◌==◌, if◌then◌else◌,
}
use silberloeffel_catering.Common.Lists.{any, filter, last, length}
use silberloeffel_catering.Common.Sort.{sorted}
use silberloeffel_catering.Common.Text.{Text, codes, text_eq}
use silberloeffel_catering.Common.Results.{
  Result, ok, err, value_error, assertion_error, raise_if, key_error_if, ◌>>=◌, ◌>>◌,
  invalid_pause_reason, invalid_resume_reason, pause_field_required, pause_field_too_long,
  paused_must_not_resume, resumed_must_reference, pause_command_exists,
}
use silberloeffel_catering.Orders.Model.{Identifier, DateTime}

pub data PauseAction : Type 0 where
  paused resumed : PauseAction

abbrev pub is_paused : PauseAction → Bool
is_paused paused = true
is_paused resumed = false

unfoldable pub operational_pause_reason_codes : List Text
operational_pause_reason_codes =
    codes "manual_hold"
    ∷ codes "customer_request"
    ∷ codes "payment_dispute"
    ∷ codes "operational_review"
    ∷ codes "other"
    ∷ []

unfoldable pub operational_resume_reason_codes : List Text
operational_resume_reason_codes =
    codes "operator_cleared"
    ∷ codes "customer_confirmed"
    ∷ codes "issue_resolved"
    ∷ codes "other"
    ∷ []

abbrev pub max_pause_note_len : ℕ
max_pause_note_len = 2000

abbrev pub max_pause_reason_code_len : ℕ
max_pause_reason_code_len = 100

abbrev pub max_pause_actor_len : ℕ
max_pause_actor_len = 200

-- `OrderOperationalPauseEvent`
pub record PauseEvent : Type 0 where
  pub pause_event_id : Identifier
  pub order_id : Identifier
  pub action : PauseAction
  pub reason_code : Text
  pub note : Option Text
  pub actor_reference : Text
  pub occurred_at : DateTime
  pub command_id : Identifier
  pub resumes_pause_event_id : Option Identifier

abbrev note_too_long : Option Text → Bool
note_too_long none = false
note_too_long (some n) = ltb max_pause_note_len (length n)

-- `OrderOperationalPauseEvent(...)`: the value, if `__post_init__` accepts it
unfoldable pub new_pause_event : PauseEvent → Result PauseEvent
new_pause_event e = do
  raise_if (e.pause_event_id == 0) pause_field_required
  raise_if (e.order_id == 0) pause_field_required
  raise_if (length e.reason_code == 0) pause_field_required
  raise_if (ltb max_pause_reason_code_len (length e.reason_code)) pause_field_too_long
  raise_if (length e.actor_reference == 0) pause_field_required
  raise_if (ltb max_pause_actor_len (length e.actor_reference)) pause_field_too_long
  raise_if (note_too_long e.note) pause_field_too_long
  raise_if (e.command_id == 0) pause_field_required
  raise_if (is_paused e.action && is_some e.resumes_pause_event_id) paused_must_not_resume
  raise_if (not (is_paused e.action) && is_none e.resumes_pause_event_id) resumed_must_reference
  ok e

unfoldable pub validate_pause_reason_code : Text → Result (Unit {0})
unfolding operational_pause_reason_codes text_eq
validate_pause_reason_code reason_code =
    raise_if (not (any (text_eq reason_code) operational_pause_reason_codes)) invalid_pause_reason

unfoldable pub validate_resume_reason_code : Text → Result (Unit {0})
unfolding operational_resume_reason_codes text_eq
validate_resume_reason_code reason_code =
    raise_if (not (any (text_eq reason_code) operational_resume_reason_codes)) invalid_resume_reason

-- the order of the sort keys `(occurred_at, pause_event_id)`
abbrev pub event_before : PauseEvent → PauseEvent → Bool
event_before a b =
    ltb a.occurred_at b.occurred_at
    || (a.occurred_at == b.occurred_at && leb a.pause_event_id b.pause_event_id)

-- one turn of the loop of `derive_active_pause`
unfoldable pub pause_step : Option PauseEvent → PauseEvent → Option PauseEvent
pause_step active event = if is_paused event.action then some event else elim active [
  | none ↦ none
  | some a ↦ if opt_eq event.resumes_pause_event_id (some a.pause_event_id) then none else some a
]

unfoldable pub active_after : Option PauseEvent → List PauseEvent → Option PauseEvent
unfolding pause_step
active_after active [] = active
active_after active (event ∷ rest) = active_after (pause_step active event) rest

unfoldable pub derive_active_pause : List PauseEvent → Option PauseEvent
unfolding active_after
derive_active_pause events = active_after none (sorted event_before events)

-- the two shapes of the projection's dict
pub data PauseProjection : Type 0 where
  inactive : Option Identifier → PauseProjection
  active :
      (current_pause_event_id latest_pause_event_id : Identifier) (reason_code : Text)
      (note : Option Text) (paused_at : DateTime) (actor_reference : Text)
      → PauseProjection

abbrev pub id_of : Option PauseEvent → Option Identifier
id_of none = none
id_of (some e) = some e.pause_event_id

unfoldable pub derive_operational_pause_projection : List PauseEvent → Result PauseProjection
unfolding derive_active_pause
derive_operational_pause_projection events =
    let ordered = sorted event_before events in
    let latest = last ordered in
    elim (derive_active_pause ordered) [
      | none ↦ ok (inactive (id_of latest))
      | some a ↦ elim latest [
        | none ↦ err assertion_error
        | some l ↦ ok (
            active a.pause_event_id l.pause_event_id a.reason_code a.note a.occurred_at
              a.actor_reference)
      ]
    ]

-- `InMemoryOrderOperationalPauseRepository.append_event`
unfoldable pub append_event : PauseEvent → List PauseEvent → Result (List PauseEvent)
append_event event events = do
  raise_if (any (λ (row : PauseEvent). row.command_id == event.command_id) events)
      pause_command_exists
  key_error_if (any (λ (row : PauseEvent). row.pause_event_id == event.pause_event_id) events)
      event.pause_event_id
  ok (events ++ event ∷ [])

unfoldable pub list_events : Identifier → List PauseEvent → List PauseEvent
list_events order_id events =
    sorted event_before (filter (λ (row : PauseEvent). row.order_id == order_id) events)

unfoldable pub get_active_pause : Identifier → List PauseEvent → Option PauseEvent
unfolding list_events derive_active_pause
get_active_pause order_id events = derive_active_pause (list_events order_id events)
