-- ===== src/ManualTasks/Laws.antt =====
-- The stored tasks under any commands of src/catering_system/services/manual_task_service.py.
use silberloeffel_catering.Common.{
  ◌≡◌, ◌↔◌, sym, subst, none, some, List, [], ◌∷◌, arith, is_none, inl, inr, Option-cases,
}
use silberloeffel_catering.Common.Lists.{In, filter, In-filter, filter-In}
use silberloeffel_catering.Common.Sort.{sorted, sorted-IsSorted, sorted-In, In-sorted}
use silberloeffel_catering.Common.Dict.{lookup, values, lookup-insert_self, lookup-In, In-lookup}
use silberloeffel_catering.Common.Results.{ok, Result-cases}
use silberloeffel_catering.Orders.Model.{Identifier, DateTime}
use silberloeffel_catering.ManualTasks.Model.{ManualTask, validate_manual_task}
use silberloeffel_catering.ManualTasks.Service.{
  Tasks, Directory, TaskRequest, task_before, list_open, complete_stored, create_task,
  complete_task,
}
use silberloeffel_catering.ManualTasks.Order.{
  task_before_total, task_before_trans, InOrder, IsSorted-InOrder,
}
use silberloeffel_catering.ManualTasks.Validated.{validate-Validated, Validated-same}
use silberloeffel_catering.ManualTasks.Kept.{
  IsFiled, KeepsCompleted, Kept, unchanged, complete_task-Kept, create_task-Kept,
}

pub data TaskCommand : Type 0 where
  create : (request : TaskRequest) (fresh_id : Identifier) (now : DateTime) → TaskCommand
  complete : (task_id : Identifier) (timestamp : DateTime) → TaskCommand

unfoldable pub run : Directory → List TaskCommand → Tasks → Tasks
unfolding create_task complete_task
run directory [] tasks = tasks
run directory (create request fresh_id now ∷ rest) tasks =
    run directory rest (create_task directory request fresh_id now tasks).1
run directory (complete task_id timestamp ∷ rest) tasks =
    run directory rest (complete_task directory task_id timestamp tasks).1

run-Kept :
    (directory : Directory) (commands : List TaskCommand) (before tasks : Tasks)
    → Kept before tasks
    → Kept before (run directory commands tasks)
unfolding run
run-Kept directory [] before tasks k = k
run-Kept directory (create request fresh_id now ∷ rest) before tasks k =
    let step = create_task-Kept directory tasks k.filed request fresh_id now in
    run-Kept directory rest before _ (record {
      filed = step.filed;
      completed = λ j t c h e. step.completed j t c (k.completed j t c h e) e;
    })
run-Kept directory (complete task_id timestamp ∷ rest) before tasks k =
    let step = complete_task-Kept directory tasks k.filed task_id timestamp in
    run-Kept directory rest before _ (record {
      filed = step.filed;
      completed = λ j t c h e. step.completed j t c (k.completed j t c h e) e;
    })

-- After any list of creations and completions from the empty store, raising or not, every task is
-- filed once, under its own identifier, with a title of 1 to 200 characters, a description of at
-- most 4000, a creator, a subject exactly when its type has one, and a completion no earlier than
-- its creation; and whatever commands follow, a completed task stays as it is.
pub run-IsFiled :
    (directory : Directory) (commands more : List TaskCommand)
    → let tasks = run directory commands [] in
      IsFiled tasks × KeepsCompleted tasks (run directory more tasks)
unfolding lookup
run-IsFiled directory commands more =
    let start : IsFiled [] = record {
      unique = tt;
      own_key = λ k t h. ground arith;
      valid = λ k t h. ground arith;
    } in
    let first = run-Kept directory commands [] [] (unchanged directory [] start) in
    let tasks = run directory commands [] in
    (
      first.filed,
      (run-Kept directory more tasks tasks (unchanged directory tasks first.filed)).completed,
    )

-- In the list of open tasks of a filed store no task is more urgent than one before it, where high
-- is more urgent than normal and normal than low; of the same priority, none is due earlier than
-- one before it, no due time counting as the end of the calendar; then come the times of creation
-- and the identifiers. The list holds exactly the stored tasks that are not completed.
pub list_open_lem :
    (tasks : Tasks)
    → IsFiled tasks
    → InOrder (list_open tasks)
      × ((t : ManualTask)
          → In t (list_open tasks) ↔ ((lookup t.task_id tasks ≡ some t) × (t.completed_at ≡ none)))
unfolding list_open
list_open_lem tasks i =
    let open' = filter (λ (t : ManualTask). is_none t.completed_at) (values tasks) in
    (
      IsSorted-InOrder (sorted task_before open')
          (sorted-IsSorted task_before task_before_total task_before_trans open'),
      λ t. (
        λ m.
            let (stored, unset) =
              In-filter (λ (t : ManualTask). is_none t.completed_at) t (values tasks)
                (sorted-In task_before t open' m) in
            let (k, found) = In-lookup t tasks i.unique stored in
            (
              subst (λ x. lookup x tasks ≡ some t) (sym (i.own_key k t found)) found,
              ground (arith, unset),
            ),
        λ h. In-sorted task_before t open' (
            filter-In (λ (t : ManualTask). is_none t.completed_at) t (values tasks)
              (lookup-In t.task_id t tasks h.0) (ground (arith, h.1))),
      ),
    )

-- A completion that returned and is asked for again, at any time, returns the same task and
-- changes nothing.
pub complete_task_again :
    (directory : Directory) (task_id : Identifier) (timestamp later : DateTime) (tasks u : Tasks)
    (t : ManualTask)
    → complete_task directory task_id timestamp tasks ≡ (ok t, u)
    → complete_task directory task_id later u ≡ (ok t, u)
unfolding complete_task complete_stored
complete_task_again directory task_id timestamp later tasks u t h =
    elim (Option-cases (lookup task_id tasks)) [
      | inl missing ↦ ground (arith, missing)
      | inr (current, found) ↦ elim (Option-cases current.completed_at) [
        | inr (c, done) ↦ ground (arith, found, done)
        | inl open' ↦
            let closed = record current { completed_at = some timestamp } in
            elim (Result-cases (validate_manual_task directory.is_uuid4 closed)) [
              | inr (e, g) ↦ ground (arith, found, open', g)
              | inl (v, g) ↦
                  let time =
                    (Validated-same directory.is_uuid4 closed v
                      (validate-Validated directory.is_uuid4 closed v g)).1 in
                  ground (arith, found, open', g, time, lookup-insert_self task_id v tasks)
            ]
      ]
    ]
