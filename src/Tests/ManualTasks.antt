-- ===== src/Tests/ManualTasks.antt =====
-- The theorems on manual tasks, applied to two tasks of which one is completed.
use silberloeffel_catering.Common.{◌≡◌, ◌↔◌, refl, true, none, some, List, [], ◌∷◌}
use silberloeffel_catering.Common.Lists.{In}
use silberloeffel_catering.Common.Dict.{lookup, insert}
use silberloeffel_catering.Common.Text.{codes, strip}
use silberloeffel_catering.Common.Results.{ok}
use silberloeffel_catering.ManualTasks.Model.{
  ManualTask, none_subject, high, normalize_manual_task_title, normalize_manual_task_description,
  require_non_empty_string, optional_non_empty, validate_subject_id, validate_manual_task,
}
use silberloeffel_catering.ManualTasks.Service.{
  Tasks, Directory, TaskRequest, list_open, complete_stored, complete_task,
}
use silberloeffel_catering.ManualTasks.Kept.{IsFiled, KeepsCompleted}
use silberloeffel_catering.ManualTasks.Order.{InOrder}
use silberloeffel_catering.ManualTasks.Laws.{
  TaskCommand, create, complete, run, run-IsFiled, list_open_lem, complete_task_again,
}

abbrev directory : Directory
directory = record {
  is_uuid4 = λ _. true;
  employee_exists = λ _. true;
  subject_exists = λ _ _. true;
}

abbrev call_back : TaskRequest
call_back = record {
  title = codes " call back ";
  description = none;
  due_at = some 900;
  created_by_employee_id = codes "e-1";
  assigned_to_employee_id = none;
  subject_type = codes "NONE";
  subject_id = none;
  priority = codes "HIGH";
}

abbrev commands : List TaskCommand
commands = create call_back 1 100 ∷ create call_back 2 101 ∷ []

run-IsFiled_example :
    IsFiled (run directory commands [])
    × KeepsCompleted
        (run directory commands [])
        (run directory (complete 1 200 ∷ create call_back 1 300 ∷ []) (run directory commands []))
run-IsFiled_example = run-IsFiled directory commands (complete 1 200 ∷ create call_back 1 300 ∷ [])

list_open_lem_example :
    InOrder (list_open (run directory commands []))
    × ((t : ManualTask)
        → In t (list_open (run directory commands []))
          ↔ ((lookup t.task_id (run directory commands []) ≡ some t) × (t.completed_at ≡ none)))
list_open_lem_example =
    list_open_lem (run directory commands []) (run-IsFiled directory commands []).0

abbrev open_task : ManualTask
open_task = record {
  task_id = 1;
  title = codes "call back";
  description = [];
  due_at = some 900;
  created_at = 100;
  completed_at = none;
  created_by_employee_id = codes "e-1";
  assigned_to_employee_id = none;
  subject_type = none_subject;
  subject_id = none;
  priority = high;
}

abbrev done_task : ManualTask
done_task = record open_task { completed_at = some 200 }

abbrev one_open : Tasks
one_open = (1, open_task) ∷ []

completes : complete_task directory 1 200 one_open ≡ (ok done_task, (1, done_task) ∷ [])
unfolding complete_task complete_stored validate_manual_task normalize_manual_task_title
    normalize_manual_task_description require_non_empty_string optional_non_empty
    validate_subject_id strip lookup insert
completes = refl

complete_task_again_example :
    complete_task directory 1 300 ((1, done_task) ∷ []) ≡ (ok done_task, (1, done_task) ∷ [])
complete_task_again_example =
    complete_task_again directory 1 200 300 one_open ((1, done_task) ∷ []) done_task completes
