-- ===== src/ManualTasks/Validated.antt =====
-- What the validation of src/catering_system/domain/manual_task.py promises.
use silberloeffel_catering.Common.{
  ◌≡◌, ◌≤◌, ◌<◌, ◌↔◌, refl, sym, ap, subst, Bool, false, Option, none, some, arith, inl, inr,
  Bool-cases,
}
use silberloeffel_catering.Common.Lists.{length}
use silberloeffel_catering.Common.Text.{Text}
use silberloeffel_catering.Common.Results.{ok, Result-cases}
use silberloeffel_catering.Orders.Model.{Identifier, DateTime}
use silberloeffel_catering.ManualTasks.Model.{
  SubjectType, none_subject, order_subject, inquiry_subject, offer_subject, contact_subject,
  ManualTask, normalize_manual_task_title, normalize_manual_task_description,
  require_non_empty_string, optional_non_empty, validate_subject_id, before_creation,
  validate_manual_task,
}

-- What the validation promises of a task.
pub record IsTask (t : ManualTask) : Type 0 where
  pub titled : 0 < length t.title
  pub short_title : length t.title ≤ 200
  pub short_description : length t.description ≤ 4000
  pub created_by : 0 < length t.created_by_employee_id
  pub own_subject : (t.subject_type ≡ none_subject) ↔ (t.subject_id ≡ none)
  pub after_creation : (c : DateTime) → t.completed_at ≡ some c → t.created_at ≤ c

title-ok : (v t : Text) → normalize_manual_task_title v ≡ ok t → (0 < length t) × (length t ≤ 200)
unfolding normalize_manual_task_title
title-ok v t h = (ground arith, ground arith)

description-ok :
    (v : Option Text) (t : Text) → normalize_manual_task_description v ≡ ok t → length t ≤ 4000
unfolding normalize_manual_task_description
description-ok none t h = ground arith
description-ok (some v) t h = ground arith

employee-ok : (v t : Text) → require_non_empty_string v ≡ ok t → 0 < length t
unfolding require_non_empty_string
employee-ok v t h = ground arith

subject-ok :
    (is_uuid4 : Identifier → Bool) (s : SubjectType) (i j : Option Identifier)
    → validate_subject_id is_uuid4 s i ≡ ok j
    → (s ≡ none_subject) ↔ (j ≡ none)
unfolding validate_subject_id
subject-ok is_uuid4 none_subject i j h = (λ e. ground arith, λ e. refl)
subject-ok is_uuid4 order_subject none j h = ground arith
subject-ok is_uuid4 order_subject (some i) j h = (λ e. ground arith, λ e. ground arith)
subject-ok is_uuid4 inquiry_subject none j h = ground arith
subject-ok is_uuid4 inquiry_subject (some i) j h = (λ e. ground arith, λ e. ground arith)
subject-ok is_uuid4 offer_subject none j h = ground arith
subject-ok is_uuid4 offer_subject (some i) j h = (λ e. ground arith, λ e. ground arith)
subject-ok is_uuid4 contact_subject none j h = ground arith
subject-ok is_uuid4 contact_subject (some i) j h = (λ e. ground arith, λ e. ground arith)

module _ (is_uuid4 : Identifier → Bool) (task v : ManualTask) where
  -- The parts of a validation that returned.
  pub record Validated : Type 0 where
    title : Text
    description : Text
    created_by : Text
    assigned_to : Option Text
    subject_id : Option Identifier
    reads_title : normalize_manual_task_title task.title ≡ ok title
    reads_description : normalize_manual_task_description (some task.description) ≡ ok description
    reads_creator : require_non_empty_string task.created_by_employee_id ≡ ok created_by
    reads_subject : validate_subject_id is_uuid4 task.subject_type task.subject_id ≡ ok subject_id
    in_order : before_creation task ≡ false
    same :
        record task {
          title = title;
          description = description;
          created_by_employee_id = created_by;
          assigned_to_employee_id = assigned_to;
          subject_id = subject_id;
        }
        ≡ v

  pub validate-Validated : validate_manual_task is_uuid4 task ≡ ok v → Validated
  unfolding validate_manual_task
  validate-Validated h = elim (Bool-cases (is_uuid4 task.task_id)) [
    | inr bad ↦ ground (arith, bad)
    | inl good ↦ elim (Result-cases (normalize_manual_task_title task.title)) [
      | inr (e, g) ↦ ground (arith, good, g)
      | inl (title, g1) ↦
          elim (Result-cases (normalize_manual_task_description (some task.description))) [
            | inr (e, g) ↦ ground (arith, good, g1, g)
            | inl (description, g2) ↦
                elim (Result-cases (require_non_empty_string task.created_by_employee_id)) [
                  | inr (e, g) ↦ ground (arith, good, g1, g2, g)
                  | inl (creator, g3) ↦
                      elim (Result-cases (optional_non_empty task.assigned_to_employee_id)) [
                        | inr (e, g) ↦ ground (arith, good, g1, g2, g3, g)
                        | inl (assignee, g4) ↦
                            elim (Result-cases
                              (validate_subject_id is_uuid4 task.subject_type task.subject_id)) [
                                | inr (e, g) ↦ ground (arith, good, g1, g2, g3, g4, g)
                                | inl (subject, g5) ↦ record {
                                  title = title;
                                  description = description;
                                  created_by = creator;
                                  assigned_to = assignee;
                                  subject_id = subject;
                                  reads_title = g1;
                                  reads_description = g2;
                                  reads_creator = g3;
                                  reads_subject = g5;
                                  in_order = ground (arith, good, g1, g2, g3, g4, g5);
                                  same = ground (arith, good, g1, g2, g3, g4, g5);
                                }
                              ]
                      ]
                ]
          ]
    ]
  ]

  pub Validated-IsTask : Validated → IsTask v
  Validated-IsTask p = subst IsTask p.same (record {
    titled = (title-ok task.title p.title p.reads_title).0;
    short_title = (title-ok task.title p.title p.reads_title).1;
    short_description = description-ok (some task.description) p.description p.reads_description;
    created_by = employee-ok task.created_by_employee_id p.created_by p.reads_creator;
    own_subject =
        subject-ok is_uuid4 task.subject_type task.subject_id p.subject_id p.reads_subject;
    after_creation = λ c e. ground (arith, p.in_order);
  })

  -- The validation keeps the identifier and the times.
  pub Validated-same : Validated → (v.task_id ≡ task.task_id) × (v.completed_at ≡ task.completed_at)
  Validated-same p = (ap (λ t. t.task_id) (sym p.same), ap (λ t. t.completed_at) (sym p.same))
