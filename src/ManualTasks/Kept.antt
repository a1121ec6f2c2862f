-- ===== src/ManualTasks/Kept.antt =====
-- What each command of src/catering_system/services/manual_task_service.py leaves.
use silberloeffel_catering.Common.{
  ◌≡◌, refl, sym, ◌∙◌, subst, none, some, arith, inl, inr, Option-cases, Bool-cases, ==→eq, ◌==◌,
}
use silberloeffel_catering.Common.Dict.{lookup, insert, lookup-insert, Unique, insert-Unique}
use silberloeffel_catering.Common.Results.{ok, Result-cases}
use silberloeffel_catering.Orders.Model.{Identifier, DateTime}
use silberloeffel_catering.ManualTasks.Model.{
  ManualTask, normalize_manual_task_title, normalize_manual_task_description,
  validate_manual_task_subject_type, validate_manual_task_priority, validate_manual_task,
}
use silberloeffel_catering.ManualTasks.Service.{
  Tasks, Directory, TaskRequest, rewrites_completion, save_task, complete_stored, new_task,
  check_references, create_task, complete_task,
}
use silberloeffel_catering.ManualTasks.Validated.{
  IsTask, validate-Validated, Validated-IsTask, Validated-same,
}

-- Every task is filed under its own identifier, once, and holds what the validation promises.
pub record IsFiled (tasks : Tasks) : Type 0 where
  pub unique : Unique tasks
  pub own_key : (k : Identifier) (t : ManualTask) → lookup k tasks ≡ some t → t.task_id ≡ k
  pub valid : (k : Identifier) (t : ManualTask) → lookup k tasks ≡ some t → IsTask t

insert-IsFiled :
    (k : Identifier) (v : ManualTask) (tasks : Tasks)
    → IsFiled tasks
    → v.task_id ≡ k
    → IsTask v
    → IsFiled (insert k v tasks)
insert-IsFiled k v tasks i own valid = record {
  unique = insert-Unique k v tasks i.unique;
  own_key = λ j t h. ground (arith, lookup-insert k j v tasks, i.own_key j t, ==→eq k j);
  valid = λ j t h. elim (Bool-cases (k == j)) [
    | inl same ↦ subst IsTask (ground (arith, lookup-insert k j v tasks)) valid
    | inr other ↦ i.valid j t (ground (arith, lookup-insert k j v tasks))
  ];
}

-- A completed task stays as it is.
abbrev pub KeepsCompleted : Tasks → Tasks → Type 0
KeepsCompleted before after =
    (k : Identifier) (t : ManualTask) (c : DateTime)
    → lookup k before ≡ some t
    → t.completed_at ≡ some c
    → lookup k after ≡ some t

-- What a command leaves.
pub record Kept (before after : Tasks) : Type 0 where
  pub filed : IsFiled after
  pub completed : KeepsCompleted before after

module _ (directory : Directory) (tasks : Tasks) (i : IsFiled tasks) where
  pub unchanged : Kept tasks tasks
  unchanged = record { filed = i; completed = λ k t c h e. h }

  inserted :
      (k : Identifier) (v : ManualTask)
      → v.task_id ≡ k
      → IsTask v
      → ((t : ManualTask) (c : DateTime) → lookup k tasks ≡ some t → t.completed_at ≡ some c → ⊥)
      → Kept tasks (insert k v tasks)
  inserted k v own valid free = record {
    filed = insert-IsFiled k v tasks i own valid;
    completed = λ j t c h e. elim (Bool-cases (k == j)) [
      | inl same ↦
          absurd (free t c (subst (λ x. lookup x tasks ≡ some t) (sym (==→eq k j same)) h) e)
      | inr other ↦ ground (arith, lookup-insert k j v tasks)
    ];
  }

  pub complete_task-Kept :
      (task_id : Identifier) (timestamp : DateTime)
      → Kept tasks (complete_task directory task_id timestamp tasks).1
  unfolding complete_task complete_stored
  complete_task-Kept task_id timestamp = elim (Option-cases (lookup task_id tasks)) [
    | inl missing ↦ rw (complete_task, missing) unchanged
    | inr (t, found) ↦ elim (Option-cases t.completed_at) [
      | inr (c, done) ↦ rw (complete_task, found, done) unchanged
      | inl open' ↦
          elim (Result-cases (
            validate_manual_task directory.is_uuid4 (record t { completed_at = some timestamp }))) [
              | inr (e, g) ↦ rw (complete_task, found, open', g) unchanged
              | inl (v, g) ↦
                  let p =
                    validate-Validated directory.is_uuid4
                      (record t { completed_at = some timestamp }) v g in
                  rw (complete_task, found, open', g, complete_stored, open', g)
                    (inserted task_id v
                      ((Validated-same directory.is_uuid4
                          (record t { completed_at = some timestamp }) v p).0
                        ∙ i.own_key task_id t found)
                      (Validated-IsTask directory.is_uuid4
                        (record t { completed_at = some timestamp }) v p)
                      (λ u c h e. ground (arith, found, open', h, e)))
            ]
    ]
  ]

  -- A task that is not completed.
  save_task-Kept :
      (task : ManualTask) → task.completed_at ≡ none → Kept tasks (save_task directory task tasks).1
  unfolding save_task
  save_task-Kept task open' = elim (Result-cases (validate_manual_task directory.is_uuid4 task)) [
    | inr (e, g) ↦ subst (Kept tasks) (ground (arith, g)) unchanged
    | inl (v, g) ↦
        let p = validate-Validated directory.is_uuid4 task v g in
        let (own, time) = Validated-same directory.is_uuid4 task v p in
        elim (Bool-cases (rewrites_completion (lookup v.task_id tasks) v)) [
          | inl refused ↦ subst (Kept tasks) (ground (arith, g, refused)) unchanged
          | inr allowed ↦
              let filed =
                inserted v.task_id v refl (Validated-IsTask directory.is_uuid4 task v p)
                  (λ t c h e. ground (arith, allowed, h, e, time, open')) in
              subst (Kept tasks) (ground (arith, g, allowed)) filed
        ]
  ]

  new_task-open :
      (request : TaskRequest) (fresh_id : Identifier) (now : DateTime) (t : ManualTask)
      → new_task directory request fresh_id now ≡ ok t
      → t.completed_at ≡ none
  unfolding new_task
  new_task-open request fresh_id now t h =
      elim (Result-cases (normalize_manual_task_title request.title)) [
        | inr (e, g) ↦ ground (arith, g)
        | inl (title, g1) ↦
            elim (Result-cases (normalize_manual_task_description request.description)) [
              | inr (e, g) ↦ ground (arith, g1, g)
              | inl (description, g2) ↦
                  elim (Result-cases (validate_manual_task_subject_type request.subject_type)) [
                    | inr (e, g) ↦ ground (arith, g1, g2, g)
                    | inl (subject_type, g3) ↦
                        elim (Result-cases (validate_manual_task_priority request.priority)) [
                          | inr (e, g) ↦ ground (arith, g1, g2, g3, g)
                          | inl (priority, g4) ↦
                              let draft : ManualTask = record {
                                task_id = fresh_id;
                                title = title;
                                description = description;
                                due_at = request.due_at;
                                created_at = now;
                                completed_at = none;
                                created_by_employee_id = request.created_by_employee_id;
                                assigned_to_employee_id = request.assigned_to_employee_id;
                                subject_type = subject_type;
                                subject_id = request.subject_id;
                                priority = priority;
                              } in
                              (Validated-same directory.is_uuid4 draft t (
                                validate-Validated directory.is_uuid4 draft t
                                  (ground (arith, g1, g2, g3, g4)))).1
                        ]
                  ]
            ]
      ]

  pub create_task-Kept :
      (request : TaskRequest) (fresh_id : Identifier) (now : DateTime)
      → Kept tasks (create_task directory request fresh_id now tasks).1
  unfolding create_task
  create_task-Kept request fresh_id now =
      elim (Result-cases (new_task directory request fresh_id now)) [
        | inr (e, g) ↦ subst (Kept tasks) (ground (arith, g)) unchanged
        | inl (t, g) ↦ elim (Result-cases (check_references directory t)) [
          | inr (e, f) ↦ subst (Kept tasks) (ground (arith, g, f)) unchanged
          | inl (u, f) ↦
              subst (Kept tasks) (ground (arith, g, f))
                (save_task-Kept t (new_task-open request fresh_id now t g))
        ]
      ]
