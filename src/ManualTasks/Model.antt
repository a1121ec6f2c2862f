-- ===== src/ManualTasks/Model.antt =====
-- src/catering_system/domain/manual_task.py. The test for a canonical UUID4 is a parameter.
use silberloeffel_catering.Common.{
  Bool, false, not, Option, none, some, [], ltb, is_some, ◌==◌, if◌then◌else◌,
}
use silberloeffel_catering.Common.Lists.{length}
use silberloeffel_catering.Common.Text.{Text, codes, text_eq, strip}
use silberloeffel_catering.Common.Results.{
  Result, ok, err, value_error, raise_if, ◌>>=◌, ◌>>◌, invalid_subject_type, invalid_priority,
  title_empty, title_too_long, description_too_long, not_a_uuid4, subject_id_must_be_null,
  subject_id_required, employee_id_empty, completed_before_created,
}
use silberloeffel_catering.Orders.Model.{Identifier, DateTime}

pub data SubjectType : Type 0 where
  none_subject order_subject inquiry_subject offer_subject contact_subject : SubjectType

pub data Priority : Type 0 where
  high normal low : Priority

pub record ManualTask : Type 0 where
  pub task_id : Identifier
  pub title : Text
  pub description : Text
  pub due_at : Option DateTime
  pub created_at : DateTime
  pub completed_at : Option DateTime
  pub created_by_employee_id : Text
  pub assigned_to_employee_id : Option Text
  pub subject_type : SubjectType
  pub subject_id : Option Identifier
  pub priority : Priority

unfoldable pub validate_manual_task_subject_type : Text → Result SubjectType
unfolding text_eq
validate_manual_task_subject_type value =
    if text_eq value (codes "NONE")
    then ok none_subject
    else if text_eq value (codes "ORDER")
    then ok order_subject
    else if text_eq value (codes "INQUIRY")
    then ok inquiry_subject
    else if text_eq value (codes "OFFER")
    then ok offer_subject
    else if text_eq value (codes "CONTACT")
    then ok contact_subject
    else err (value_error invalid_subject_type)

unfoldable pub validate_manual_task_priority : Text → Result Priority
unfolding text_eq
validate_manual_task_priority value =
    if text_eq value (codes "HIGH")
    then ok high
    else if text_eq value (codes "NORMAL")
    then ok normal
    else if text_eq value (codes "LOW")
    then ok low
    else err (value_error invalid_priority)

unfoldable pub normalize_manual_task_title : Text → Result Text
unfolding strip
normalize_manual_task_title value =
    raise_if (length (strip value) == 0) title_empty
    >> raise_if (ltb 200 (length (strip value))) title_too_long
    >> ok (strip value)

unfoldable pub normalize_manual_task_description : Option Text → Result Text
unfolding strip
normalize_manual_task_description none = ok []
normalize_manual_task_description (some value) =
    raise_if (ltb 4000 (length (strip value))) description_too_long >> ok (strip value)

-- `_require_non_empty_string`
unfoldable pub require_non_empty_string : Text → Result Text
unfolding strip
require_non_empty_string value =
    raise_if (length (strip value) == 0) employee_id_empty >> ok (strip value)

unfoldable pub optional_non_empty : Option Text → Result (Option Text)
unfolding require_non_empty_string
optional_non_empty none = ok none
optional_non_empty (some value) = require_non_empty_string value >>= λ t. ok (some t)

abbrev pub before_creation : ManualTask → Bool
before_creation task = elim task.completed_at [ none ↦ false | some t ↦ ltb t task.created_at ]

module _ (is_uuid4 : Identifier → Bool) where
  -- `_require_uuid4`
  abbrev pub require_uuid4 : Identifier → Result (Unit {0})
  require_uuid4 value = raise_if (not (is_uuid4 value)) not_a_uuid4

  -- `_validate_subject_id`
  unfoldable pub validate_subject_id : SubjectType → Option Identifier → Result (Option Identifier)
  validate_subject_id none_subject subject_id =
      raise_if (is_some subject_id) subject_id_must_be_null >> ok none
  validate_subject_id _ none = err (value_error subject_id_required)
  validate_subject_id _ (some id) = require_uuid4 id >> ok (some id)

  -- The subject type and the priority are members of their sets here.
  unfoldable pub validate_manual_task : ManualTask → Result ManualTask
  unfolding normalize_manual_task_title normalize_manual_task_description require_non_empty_string
      optional_non_empty validate_subject_id
  validate_manual_task task = do
    require_uuid4 task.task_id
    title ← normalize_manual_task_title task.title
    description ← normalize_manual_task_description (some task.description)
    created_by ← require_non_empty_string task.created_by_employee_id
    assigned_to ← optional_non_empty task.assigned_to_employee_id
    subject_id ← validate_subject_id task.subject_type task.subject_id
    raise_if (before_creation task) completed_before_created
    ok (record task {
      title = title;
      description = description;
      created_by_employee_id = created_by;
      assigned_to_employee_id = assigned_to;
      subject_id = subject_id;
    })
