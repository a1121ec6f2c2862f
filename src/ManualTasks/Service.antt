-- ===== src/ManualTasks/Service.antt =====
-- src/catering_system/repositories/in_memory_manual_task_repository.py and
-- src/catering_system/services/manual_task_service.py. Whether an employee or a subject exists is
-- asked of the callables that the service is built with.
use silberloeffel_catering.Common.{
  ℕ, Bool, true, false, not, ◌&&◌, ◌||◌, Option, none, some, List, ltb, leb, is_some, is_none,
  opt_eq, ◌==◌, if◌then◌else◌,
}
use silberloeffel_catering.Common.Lists.{filter}
use silberloeffel_catering.Common.Sort.{sorted}
use silberloeffel_catering.Common.Dict.{Dict, lookup, insert, values}
use silberloeffel_catering.Common.Text.{Text}
use silberloeffel_catering.Common.Results
use silberloeffel_catering.Common.Results.{
  Result, ok, err, value_error, key_error, raise_if, or_raise, completion_rewritten,
  no_such_employee, no_such_subject, no_subject_task_list,
}
use silberloeffel_catering.Common.Exec.{Exec, pure, lift, ◌>>=◌, ◌>>◌}
use silberloeffel_catering.Orders.Model.{Identifier, DateTime}
use silberloeffel_catering.ManualTasks.Model.{
  SubjectType, none_subject, order_subject, inquiry_subject, offer_subject, contact_subject,
  Priority, high, normal, low, ManualTask, validate_manual_task_subject_type,
  validate_manual_task_priority, normalize_manual_task_title, normalize_manual_task_description,
  validate_manual_task,
}

abbrev pub Tasks : Type 0
Tasks = Dict ManualTask

-- `_PRIORITY_RANK`
abbrev pub priority_rank : Priority → ℕ
priority_rank high = 0
priority_rank normal = 1
priority_rank low = 2

-- `datetime.max`
abbrev pub latest_time : DateTime
latest_time = 253402300799999999

abbrev pub due_or_latest : ManualTask → DateTime
due_or_latest task = elim task.due_at [ none ↦ latest_time | some t ↦ t ]

-- the order of `_sort_key`
unfoldable pub task_before : ManualTask → ManualTask → Bool
task_before a b =
    ltb (priority_rank a.priority) (priority_rank b.priority)
    || (priority_rank a.priority == priority_rank b.priority
        && (ltb (due_or_latest a) (due_or_latest b)
            || (due_or_latest a == due_or_latest b
                && (ltb a.created_at b.created_at
                    || (a.created_at == b.created_at && leb a.task_id b.task_id)))))

unfoldable pub list_open : Tasks → List ManualTask
unfolding task_before
list_open tasks =
    sorted task_before (filter (λ (t : ManualTask). is_none t.completed_at) (values tasks))

abbrev pub same_subject : SubjectType → SubjectType → Bool
same_subject none_subject none_subject = true
same_subject order_subject order_subject = true
same_subject inquiry_subject inquiry_subject = true
same_subject offer_subject offer_subject = true
same_subject contact_subject contact_subject = true
same_subject _ _ = false

unfoldable pub list_for_subject : SubjectType → Identifier → Tasks → List ManualTask
unfolding task_before
list_for_subject subject_type subject_id tasks = sorted task_before (
    filter
      (λ (t : ManualTask).
        same_subject t.subject_type subject_type && opt_eq t.subject_id (some subject_id))
      (values tasks))

abbrev pub rewrites_completion : Option ManualTask → ManualTask → Bool
rewrites_completion none task = false
rewrites_completion (some current) task =
    is_some current.completed_at && not (opt_eq task.completed_at current.completed_at)

-- What the service is built with.
pub record Directory : Type 0 where
  pub is_uuid4 : Identifier → Bool
  pub employee_exists : Text → Bool
  pub subject_exists : SubjectType → Identifier → Bool

-- The arguments of `create_task`.
pub record TaskRequest : Type 0 where
  pub title : Text
  pub description : Option Text
  pub due_at : Option DateTime
  pub created_by_employee_id : Text
  pub assigned_to_employee_id : Option Text
  pub subject_type : Text
  pub subject_id : Option Identifier
  pub priority : Text

module _ (directory : Directory) where
  -- `save` of the repository
  unfoldable pub save_task : ManualTask → Exec Tasks (Unit {0})
  unfolding validate_manual_task
  save_task task tasks = elim (validate_manual_task directory.is_uuid4 task) [
    | err e ↦ (err e, tasks)
    | ok validated ↦
        if rewrites_completion (lookup validated.task_id tasks) validated
        then (err (value_error completion_rewritten), tasks)
        else (ok tt, insert validated.task_id validated tasks)
  ]

  -- `complete` of the repository, on a stored task
  unfoldable pub complete_stored : Identifier → DateTime → ManualTask → Exec Tasks ManualTask
  unfolding validate_manual_task
  complete_stored task_id completed_at current tasks =
      if is_some current.completed_at
      then (ok current, tasks)
      else elim (validate_manual_task directory.is_uuid4
          (record current { completed_at = some completed_at })) [
            | err e ↦ (err e, tasks)
            | ok completed ↦ (ok completed, insert task_id completed tasks)
          ]

  -- the new task of `create_task`
  unfoldable pub new_task : TaskRequest → Identifier → DateTime → Result ManualTask
  unfolding normalize_manual_task_title normalize_manual_task_description
      validate_manual_task_subject_type validate_manual_task_priority validate_manual_task
  new_task request fresh_id now = Results.◌>>=◌ (normalize_manual_task_title request.title) λ title.
      Results.◌>>=◌ (normalize_manual_task_description request.description) λ description.
        Results.◌>>=◌ (validate_manual_task_subject_type request.subject_type) λ subject_type.
          Results.◌>>=◌ (validate_manual_task_priority request.priority) λ priority.
            validate_manual_task directory.is_uuid4 (record {
              task_id = fresh_id;
              title = title;
              description = description;
              due_at = request.due_at;
              created_at = now;
              completed_at = none;
              created_by_employee_id = request.created_by_employee_id;
              assigned_to_employee_id = request.assigned_to_employee_id;
              subject_type = subject_type;
              subject_id = request.subject_id;
              priority = priority;
            })

  abbrev no_assignee : Option Text → Bool
  no_assignee none = false
  no_assignee (some id) = not (directory.employee_exists id)

  abbrev no_subject : SubjectType → Option Identifier → Bool
  no_subject none_subject id = false
  no_subject type none = false
  no_subject type (some id) = not (directory.subject_exists type id)

  unfoldable pub check_references : ManualTask → Result (Unit {0})
  check_references task =
      Results.◌>>◌
        (raise_if (not (directory.employee_exists task.created_by_employee_id)) no_such_employee)
        (Results.◌>>◌ (raise_if (no_assignee task.assigned_to_employee_id) no_such_employee)
          (raise_if (no_subject task.subject_type task.subject_id) no_such_subject))

  unfoldable pub create_task : TaskRequest → Identifier → DateTime → Exec Tasks ManualTask
  unfolding new_task check_references save_task
  create_task request fresh_id now = do
    task ← lift (new_task request fresh_id now)
    lift (check_references task)
    save_task task
    pure task

  unfoldable pub list_tasks_for_subject : Text → Identifier → Tasks → Result (List ManualTask)
  unfolding validate_manual_task_subject_type list_for_subject
  list_tasks_for_subject subject_type subject_id tasks =
      Results.◌>>=◌ (validate_manual_task_subject_type subject_type) λ typed.
        Results.◌>>◌ (raise_if (same_subject typed none_subject) no_subject_task_list)
          (ok (list_for_subject typed subject_id tasks))

  -- `completed_at or self._now()` is the argument here.
  unfoldable pub complete_task : Identifier → DateTime → Exec Tasks ManualTask
  unfolding complete_stored validate_manual_task
  complete_task task_id timestamp tasks = elim (lookup task_id tasks) [
    | none ↦ (err (key_error task_id), tasks)
    | some current ↦
        if is_some current.completed_at
        then (ok current, tasks)
        else elim (validate_manual_task directory.is_uuid4
            (record current { completed_at = some timestamp })) [
              | err e ↦ (err e, tasks)
              | ok _ ↦ complete_stored task_id timestamp current tasks
            ]
  ]
