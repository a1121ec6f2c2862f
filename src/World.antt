-- ===== src/World.antt =====
-- The stored state that the services share (the repositories of one database) and the domain events
-- of src/catering_system/domain/operational_core_events.py, in the order in which a sink sees them.
use silberloeffel_catering.Common.{Bool, true, false, Option, List, [], ◌∷◌, ◌++◌}
use silberloeffel_catering.Common.Dict.{Dict}
use silberloeffel_catering.Common.Text.{Text}
use silberloeffel_catering.Common.Results.{Result, ok, err}
use silberloeffel_catering.Common.Exec.{Exec}
use silberloeffel_catering.Orders.Model.{Identifier, DateTime, ChangedField}
use silberloeffel_catering.Orders.Repository.{OrderStore, empty_store}
use silberloeffel_catering.Pause.{PauseEvent}
use silberloeffel_catering.KitchenPrint.Job.{KitchenPrintJob}

pub data Reason : Type 0 where
  ready_to_send_order_not_found order_cancelled no_effective_version : Reason
  effective_version_not_resolvable kitchen_print_not_confirmed : Reason
  pending_order_version_change operational_pause : Reason

pub data CoreEvent : Type 0 where
  kitchen_print_confirmed : (order_id order_version_id : Identifier) → CoreEvent
  order_version_made_effective : (order_id order_version_id : Identifier) → CoreEvent
  order_version_change_proposed :
      (order_id : Identifier) (old_effective_order_version_id : Option Identifier)
      (new_candidate_order_version_id : Identifier) (actor_reference change_reason : Text)
      (changed_fields : List ChangedField) (occurred_at : DateTime)
      → CoreEvent
  order_version_candidate_superseded :
      (order_id superseded_order_version_id new_candidate_order_version_id : Identifier)
      (occurred_at : DateTime)
      → CoreEvent
  order_ready_to_send : (order_id : Identifier) → CoreEvent
  order_ready_to_send_blocked : (order_id : Identifier) (reasons : List Reason) → CoreEvent
  order_cancelled_event : (order_id : Identifier) → CoreEvent
  order_operational_paused : (order_id pause_event_id : Identifier) → CoreEvent
  order_operational_resumed :
      (order_id pause_event_id resumed_pause_event_id : Identifier) → CoreEvent

pub record World : Type 0 where
  pub orders : OrderStore
  pub pauses : List PauseEvent
  pub jobs : Dict KitchenPrintJob
  pub events : List CoreEvent

abbrev pub empty_world : World
empty_world = record { orders = empty_store; pauses = []; jobs = []; events = [] }

-- a call of a method of the order repository
abbrev pub on_orders : (OrderStore → Result OrderStore) → Exec World (Unit {0})
on_orders call w = elim (call w.orders) [
  | ok s ↦ (ok tt, record w { orders = s })
  | err e ↦ (err e, w)
]

-- `_emit`
abbrev pub emit : CoreEvent → Exec World (Unit {0})
emit event w = (ok tt, record w { events = w.events ++ event ∷ [] })

-- an event that is emitted only under a condition
abbrev pub emit_if : Bool → Exec World (Unit {0}) → Exec World (Unit {0})
emit_if true event = event
emit_if false event = λ w. (ok tt, w)
