-- ===== src/Printing/Repository/Attempts.antt =====
-- The invariant of the print attempts.
use silberloeffel_catering.Common.{
  ℕ, ◌≡◌, ◌≢◌, true, false, Option, none, some, List, [], ◌∷◌, arith, inl, inr, Option-cases,
  Bool-cases, opt_eq, ◌==◌, subst,
}
use silberloeffel_catering.Common.Lists.{In}
use silberloeffel_catering.Common.Dict.{Dict, lookup, insert, lookup-insert, Unique, insert-Unique}
use silberloeffel_catering.Common.Results.{ok}
use silberloeffel_catering.Orders.Model.{Identifier}
use silberloeffel_catering.KitchenPrint.Job.{KitchenPrintJob}
use silberloeffel_catering.KitchenPrint.Job.Lifecycle.{IsValid, Extends}
use silberloeffel_catering.Printing.Repository.{is_live, check_rivals}

pub record IsTracked (jobs : Dict KitchenPrintJob) : Type 0 where
  -- No identifier is filed twice.
  pub unique : Unique jobs
  -- An attempt is filed under its own identifier, and its facts are valid.
  pub job_key : (k : ℕ) (j : KitchenPrintJob) → lookup k jobs ≡ some j → j.print_job_id ≡ k
  pub job_valid : (k : ℕ) (j : KitchenPrintJob) → lookup k jobs ≡ some j → IsValid j
  -- Attempts for one version have different numbers, and at most one of them is live.
  pub attempts_differ :
      (k l : ℕ) (i j : KitchenPrintJob)
      → lookup k jobs ≡ some i
      → lookup l jobs ≡ some j
      → i.order_version_id ≡ j.order_version_id
      → i.attempt_number ≡ j.attempt_number
      → k ≡ l
  pub one_live :
      (k l : ℕ) (i j : KitchenPrintJob)
      → lookup k jobs ≡ some i
      → lookup l jobs ≡ some j
      → i.order_version_id ≡ j.order_version_id
      → is_live i ≡ true
      → is_live j ≡ true
      → k ≡ l

-- A live attempt that only gained facts was live before.
live_before : (p u : KitchenPrintJob) → Extends p u → is_live u ≡ true → is_live p ≡ true
live_before p u x h = elim (Option-cases p.acknowledged_at) [
  | inr (t, e) ↦ ground (arith, x.keeps_acknowledgement t)
  | inl a ↦ elim (Option-cases p.rejected_at) [
    | inr (t, e) ↦ ground (arith, x.keeps_rejection t)
    | inl b ↦ elim (Option-cases p.superseded_at) [
      | inr (t, e) ↦ ground (arith, x.keeps_supersession t)
      | inl c ↦ ground arith
    ]
  ]
]

-- Adding facts to a stored attempt keeps the invariant.
pub insert-IsTracked_extended :
    (p u : KitchenPrintJob) (jobs : Dict KitchenPrintJob)
    → IsTracked jobs
    → lookup u.print_job_id jobs ≡ some p
    → Extends p u
    → IsValid u
    → IsTracked (insert u.print_job_id u jobs)
insert-IsTracked_extended p u jobs t stored x v = record {
  unique = insert-Unique u.print_job_id u jobs t.unique;
  job_key = λ k j e. ground (arith, lookup-insert u.print_job_id k u jobs, t.job_key k j);
  job_valid = λ k j e. elim (Bool-cases (u.print_job_id == k)) [
    | inl hit ↦ subst IsValid (ground (arith, lookup-insert u.print_job_id k u jobs)) v
    | inr miss ↦ t.job_valid k j (ground (arith, lookup-insert u.print_job_id k u jobs))
  ];
  attempts_differ = λ k l i j e f same number. ground (
    arith,
    lookup-insert u.print_job_id k u jobs,
    lookup-insert u.print_job_id l u jobs,
    x.same_version,
    x.same_attempt,
    t.attempts_differ k l i j,
    t.attempts_differ k l p j,
    t.attempts_differ k l i p,
  );
  one_live = λ k l i j e f same a b. ground (
    arith,
    lookup-insert u.print_job_id k u jobs,
    lookup-insert u.print_job_id l u jobs,
    x.same_version,
    live_before p u x,
    t.one_live k l i j,
    t.one_live k l p j,
    t.one_live k l i p,
  );
}

-- What the loop over the rivals has checked.
pub check_rivals-ok :
    (job e : KitchenPrintJob) (r : Option Identifier) (l : List KitchenPrintJob)
    → check_rivals job r l ≡ ok tt
    → In e l
    → e.order_version_id ≡ job.order_version_id
    → (e.attempt_number ≢ job.attempt_number)
      × (is_live e ≡ true → opt_eq (some e.print_job_id) r ≡ true)
unfolding check_rivals
check_rivals-ok job e r [] h m s = absurd m
check_rivals-ok job e r (x ∷ l) h m s = ground (arith, check_rivals-ok job e r l)

-- Filing a new attempt keeps the invariant, if no stored attempt for its version has its number or
-- is still live.
pub insert-IsTracked_new :
    (job : KitchenPrintJob) (jobs : Dict KitchenPrintJob)
    → IsTracked jobs
    → lookup job.print_job_id jobs ≡ none
    → IsValid job
    → ((k : ℕ) (e : KitchenPrintJob)
        → lookup k jobs ≡ some e
        → e.order_version_id ≡ job.order_version_id
        → (e.attempt_number ≢ job.attempt_number) × (is_live e ≡ false))
    → IsTracked (insert job.print_job_id job jobs)
insert-IsTracked_new job jobs t fresh v rivals = record {
  unique = insert-Unique job.print_job_id job jobs t.unique;
  job_key = λ k j e. ground (arith, lookup-insert job.print_job_id k job jobs, t.job_key k j);
  job_valid = λ k j e. elim (Bool-cases (job.print_job_id == k)) [
    | inl hit ↦ subst IsValid (ground (arith, lookup-insert job.print_job_id k job jobs)) v
    | inr miss ↦ t.job_valid k j (ground (arith, lookup-insert job.print_job_id k job jobs))
  ];
  attempts_differ = λ k l i j e f same number. ground (
    arith,
    lookup-insert job.print_job_id k job jobs,
    lookup-insert job.print_job_id l job jobs,
    t.attempts_differ k l i j,
    rivals k i,
    rivals l j,
  );
  one_live = λ k l i j e f same a b. ground (
    arith,
    lookup-insert job.print_job_id k job jobs,
    lookup-insert job.print_job_id l job jobs,
    t.one_live k l i j,
    rivals k i,
    rivals l j,
  );
}
