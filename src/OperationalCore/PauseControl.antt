-- ===== src/OperationalCore/PauseControl.antt =====
-- The pause commands against the derived pause state.
use silberloeffel_catering.Common.{
  ◌≡◌, ◌<◌, refl, Option, none, some, List, [], ◌∷◌, ◌++◌, arith, is_some, inl, inr, Option-cases,
  Bool-cases, if◌then◌else◌, ◌==◌, ==→eq, opt_eq→eq,
}
use silberloeffel_catering.Common.Lists.{In, last, last-ne-none}
use silberloeffel_catering.Common.Sort.{sorted}
use silberloeffel_catering.Common.Text.{Text}
use silberloeffel_catering.Common.Results.{Result, ok, err, Result-cases}
use silberloeffel_catering.Orders.Model.{Identifier, DateTime}
use silberloeffel_catering.Pause.{
  PauseEvent, PauseProjection, paused, resumed, event_before, id_of, pause_step, new_pause_event,
  append_event, list_events, get_active_pause, derive_active_pause,
  derive_operational_pause_projection,
}
use silberloeffel_catering.Pause.History.{
  get_active_pause-append, get_active_pause-append_other, list_events-sorted,
}
use silberloeffel_catering.World.{World}
use silberloeffel_catering.OperationalCore.{
  pause_order, resume_order, get_operational_pause_projection, is_active, current_id,
}

abbrev pub Projects : Option PauseEvent → Result PauseProjection → Type 0
Projects a (ok p) = (is_active p ≡ is_some a) × (current_id p ≡ id_of a)
Projects a (err e) = ⊥

no_events : (xs : List PauseEvent) → last xs ≡ none → derive_active_pause xs ≡ none
unfolding derive_active_pause sorted
no_events [] h = refl
no_events (x ∷ xs) h = absurd (last-ne-none x xs h)

derive_projection :
    (ordered : List PauseEvent)
    → sorted event_before ordered ≡ ordered
    → Projects (derive_active_pause ordered) (derive_operational_pause_projection ordered)
unfolding derive_operational_pause_projection
derive_projection ordered h = rw h (elim (Option-cases (derive_active_pause ordered)) [
  | inl e ↦ ground arith
  | inr (a, e) ↦ elim (Option-cases (last ordered)) [
    | inl f ↦ ground (arith, no_events ordered f)
    | inr (l, f) ↦ ground arith
  ]
])

-- The pause projection that the commands test never fails its assertion, and agrees with the
-- active pause of the event log.
pub projection_lem :
    (order_id : Identifier) (w : World)
    → Projects (get_active_pause order_id w.pauses) (get_operational_pause_projection order_id w)
unfolding get_operational_pause_projection get_active_pause
projection_lem order_id w =
    derive_projection (list_events order_id w.pauses) (list_events-sorted order_id w.pauses)

module _ (order_id : Identifier) (reason actor : Text) (note : Option Text)
    (command fresh : Identifier) (now : DateTime) (w w' : World) (e : PauseEvent) where
  pause_order-ok :
      (latest : Option Identifier)
      → pause_order order_id reason note actor command latest fresh now w ≡ (ok e, w')
      → (get_active_pause order_id w.pauses ≡ none)
        × (e.action ≡ paused)
        × (e.order_id ≡ order_id)
        × (e.occurred_at ≡ now)
        × (w'.pauses ≡ w.pauses ++ e ∷ [])
        × (w'.orders ≡ w.orders)
  unfolding pause_order new_pause_event append_event
  pause_order-ok latest h = elim (Result-cases (get_operational_pause_projection order_id w)) [
    | inl (p, ep) ↦
        let projects = rw ep at (projection_lem order_id w) in
        (
          ground (arith, projects),
          ground arith,
          ground arith,
          ground arith,
          ground arith,
          ground arith,
        )
    | inr (x, ex) ↦ absurd (rw ex at (projection_lem order_id w))
  ]

  resume_order-ok :
      (current latest : Identifier)
      → resume_order order_id reason note actor command current latest fresh now w ≡ (ok e, w')
      → (a : PauseEvent) × (get_active_pause order_id w.pauses ≡ some a)
        × (a.pause_event_id ≡ current)
        × (e.action ≡ resumed)
        × (e.resumes_pause_event_id ≡ some a.pause_event_id)
        × (e.order_id ≡ order_id)
        × (e.occurred_at ≡ now)
        × (w'.pauses ≡ w.pauses ++ e ∷ [])
        × (w'.orders ≡ w.orders)
  unfolding resume_order new_pause_event append_event
  resume_order-ok current latest h = elim (Option-cases (get_active_pause order_id w.pauses)) [
    | inl none_active ↦ ground arith
    | inr (a, ea) ↦ elim (Result-cases (get_operational_pause_projection order_id w)) [
      | inl (p, ep) ↦
          let projects = rw ep at (projection_lem order_id w) in
          (
            a,
            ea,
            ground (arith, projects, opt_eq→eq (current_id p) (some current)),
            ground arith,
            ground arith,
            ground arith,
            ground arith,
            ground arith,
            ground arith,
          )
      | inr (x, ex) ↦ absurd (rw ex at (projection_lem order_id w))
    ]
  ]

-- The clock has moved on since the order's events were recorded.
abbrev ClockAhead : Identifier → DateTime → World → Type 0
ClockAhead order_id now w =
    (x : PauseEvent) → In x w.pauses → x.order_id ≡ order_id → x.occurred_at < now

recorded_last :
    (order_id : Identifier) (e : PauseEvent) (w w' : World)
    → ClockAhead order_id e.occurred_at w
    → e.order_id ≡ order_id
    → w'.pauses ≡ w.pauses ++ e ∷ []
    → get_active_pause order_id w'.pauses ≡ pause_step (get_active_pause order_id w.pauses) e
recorded_last order_id e w w' clock own pauses =
    rw pauses (get_active_pause-append order_id e w.pauses (λ x m o. ground (arith, clock x m)) own)

-- The pause of any order after a recorded event.
pause_after :
    (order_id other : Identifier) (e : PauseEvent) (w w' : World)
    → ClockAhead order_id e.occurred_at w
    → e.order_id ≡ order_id
    → w'.pauses ≡ w.pauses ++ e ∷ []
    → get_active_pause other w'.pauses ≡ (
        if other == order_id
        then pause_step (get_active_pause order_id w.pauses) e
        else get_active_pause other w.pauses)
pause_after order_id other e w w' clock own pauses = elim (Bool-cases (other == order_id)) [
  | inl same ↦
      rw same (rw (==→eq other order_id same) (recorded_last order_id e w w' clock own pauses))
  | inr differs ↦
      rw differs (rw pauses (get_active_pause-append_other other e w.pauses (λ same. ground arith)))
]

-- With a clock ahead of the events of the order, a returned pause found the order unpaused, leaves
-- it paused by the returned event, and changes neither the pause of another order nor any order
-- row.
pub pause_order_lem :
    (order_id other : Identifier) (reason actor : Text) (note : Option Text)
    (command fresh : Identifier) (latest : Option Identifier) (now : DateTime) (w w' : World)
    (e : PauseEvent)
    → ClockAhead order_id now w
    → pause_order order_id reason note actor command latest fresh now w ≡ (ok e, w')
    → (get_active_pause order_id w.pauses ≡ none)
      × (get_active_pause other w'.pauses
          ≡ (if other == order_id then some e else get_active_pause other w.pauses))
      × (w'.orders ≡ w.orders)
unfolding pause_step
pause_order_lem order_id other reason actor note command fresh latest now w w' e clock h =
    let r = pause_order-ok order_id reason actor note command fresh now w w' e latest h in
    (r.0, ground (arith, r.1, r.0, pause_after order_id other e w w' (rw r.3 clock) r.2 r.4), r.5)

-- With a clock ahead of the events of the order, a returned resume found the order paused by the
-- event that the caller named, leaves it unpaused, and changes neither the pause of another order
-- nor any order row.
pub resume_order_lem :
    (order_id other : Identifier) (reason actor : Text) (note : Option Text)
    (command fresh : Identifier) (current latest : Identifier) (now : DateTime) (w w' : World)
    (e : PauseEvent)
    → ClockAhead order_id now w
    → resume_order order_id reason note actor command current latest fresh now w ≡ (ok e, w')
    → (id_of (get_active_pause order_id w.pauses) ≡ some current)
      × (get_active_pause other w'.pauses
          ≡ (if other == order_id then none else get_active_pause other w.pauses))
      × (w'.orders ≡ w.orders)
unfolding pause_step
resume_order_lem order_id other reason actor note command fresh current latest now w w' e clock h =
    let (a, ea, named, act, resumes, own, at, pauses, orders) =
      resume_order-ok order_id reason actor note command fresh now w w' e current latest h in
    (
      ground arith,
      ground (arith, pause_after order_id other e w w' (rw at clock) own pauses),
      orders,
    )
