-- ===== src/Tests/Pausing.antt =====
-- The theorems on pauses, applied to the order of Tests/Life.antt.
use silberloeffel_catering.Common.{
  ◌<◌, ◌≡◌, ◌≢◌, ◌≤◌, ◌<◌, ◌⊎◌, refl, none, some, [], ◌∷◌, ◌++◌, arith, if◌then◌else◌, ◌==◌,
}
use silberloeffel_catering.Common.Lists.{In}
use silberloeffel_catering.Common.Sort.{sorted, insert_sorted}
use silberloeffel_catering.Common.Dict.{lookup}
use silberloeffel_catering.Common.Text.{codes, text_eq}
use silberloeffel_catering.Common.Results.{ok}
use silberloeffel_catering.Orders.Repository.{get_order}
use silberloeffel_catering.Pause.{
  PauseEvent, paused, resumed, get_active_pause, id_of, new_pause_event, append_event,
  validate_pause_reason_code, validate_resume_reason_code, operational_pause_reason_codes,
  operational_resume_reason_codes, list_events, derive_active_pause, active_after,
  derive_operational_pause_projection,
}
use silberloeffel_catering.Pause.History.{get_active_pause_lem}
use silberloeffel_catering.OperationalCore.{
  pause_order, resume_order, get_operational_pause_projection, live_order,
}
use silberloeffel_catering.OperationalCore.PauseControl.{
  Projects, projection_lem, pause_order_lem, resume_order_lem,
}
use silberloeffel_catering.World.{World, order_operational_paused, order_operational_resumed}
use silberloeffel_catering.Tests.Life.{acknowledged}

abbrev pause : PauseEvent
pause = record {
  pause_event_id = 60;
  order_id = 1;
  action = paused;
  reason_code = codes "other";
  note = none;
  actor_reference = codes "office";
  occurred_at = 250;
  command_id = 61;
  resumes_pause_event_id = none;
}

abbrev paused_world : World
paused_world = record acknowledged {
  pauses = pause ∷ [];
  events = acknowledged.events ++ order_operational_paused 1 60 ∷ [];
}

pauses :
    pause_order 1 (codes "other") none (codes "office") 61 none 60 250 acknowledged
    ≡ (ok pause, paused_world)
unfolding pause_order live_order get_order lookup validate_pause_reason_code
    operational_pause_reason_codes text_eq get_operational_pause_projection list_events sorted
    derive_operational_pause_projection derive_active_pause active_after new_pause_event
    append_event
pauses = refl

ahead : (x : PauseEvent) → In x acknowledged.pauses → x.order_id ≡ 1 → x.occurred_at < 250
ahead x m o = absurd m

pause_order_lem_example :
    (get_active_pause 1 acknowledged.pauses ≡ none)
    × (get_active_pause 1 paused_world.pauses
        ≡ (if 1 == 1 then some pause else get_active_pause 1 acknowledged.pauses))
    × (paused_world.orders ≡ acknowledged.orders)
pause_order_lem_example =
    pause_order_lem 1 1 (codes "other") (codes "office") none 61 60 none 250 acknowledged
      paused_world pause ahead pauses

abbrev resume : PauseEvent
resume = record {
  pause_event_id = 62;
  order_id = 1;
  action = resumed;
  reason_code = codes "other";
  note = none;
  actor_reference = codes "office";
  occurred_at = 260;
  command_id = 63;
  resumes_pause_event_id = some 60;
}

abbrev resumed_world : World
resumed_world = record paused_world {
  pauses = pause ∷ resume ∷ [];
  events = paused_world.events ++ order_operational_resumed 1 62 60 ∷ [];
}

resumes :
    resume_order 1 (codes "other") none (codes "office") 63 60 60 62 260 paused_world
    ≡ (ok resume, resumed_world)
unfolding resume_order live_order get_order lookup validate_resume_reason_code
    operational_resume_reason_codes text_eq get_operational_pause_projection list_events sorted
    insert_sorted derive_operational_pause_projection derive_active_pause active_after
    get_active_pause new_pause_event append_event
resumes = refl

ahead_of_pause : (x : PauseEvent) → In x paused_world.pauses → x.order_id ≡ 1 → x.occurred_at < 260
ahead_of_pause x m o = ground arith

resume_order_lem_example :
    (id_of (get_active_pause 1 paused_world.pauses) ≡ some 60)
    × (get_active_pause 2 resumed_world.pauses
        ≡ (if 2 == 1 then none else get_active_pause 2 paused_world.pauses))
    × (resumed_world.orders ≡ paused_world.orders)
resume_order_lem_example =
    resume_order_lem 1 2 (codes "other") (codes "office") none 63 62 60 60 260 paused_world
      resumed_world resume ahead_of_pause resumes

projection_lem_example :
    Projects
      (get_active_pause 1 paused_world.pauses)
      (get_operational_pause_projection 1 paused_world)
projection_lem_example = projection_lem 1 paused_world

earlier_events :
    (x : PauseEvent)
    → In x paused_world.pauses
    → x.order_id ≡ 1
    → (x.occurred_at < resume.occurred_at)
      ⊎ ((x.occurred_at ≡ resume.occurred_at) × (x.pause_event_id ≤ resume.pause_event_id))
earlier_events x m o = ground arith

owner_1 : resume.order_id ≡ 1
owner_1 = refl

get_active_pause_lem_example :
    let after = get_active_pause 1 (paused_world.pauses ++ resume ∷ []) in
    (resume.action ≡ paused → after ≡ some resume)
    × (resume.action ≡ resumed
        → ((a : PauseEvent)
            → get_active_pause 1 paused_world.pauses ≡ some a
            → (resume.resumes_pause_event_id ≡ some a.pause_event_id → after ≡ none)
              × (resume.resumes_pause_event_id ≢ some a.pause_event_id → after ≡ some a))
          × (get_active_pause 1 paused_world.pauses ≡ none → after ≡ none))
get_active_pause_lem_example =
    get_active_pause_lem 1 resume paused_world.pauses earlier_events owner_1
