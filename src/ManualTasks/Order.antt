-- ===== src/ManualTasks/Order.antt =====
-- The order in which src/catering_system/repositories/in_memory_manual_task_repository.py lists tasks.
use silberloeffel_catering.Common.{
  ℕ, ◌≤◌, ◌≡◌, ap, sym, subst, ◌∙◌, Option, none, some, List, [], ◌∷◌, Bool, true, false, ◌&&◌,
  ◌||◌, arith, ◌==◌, ltb, leb,
}
use silberloeffel_catering.Common.Lists.{In}
use silberloeffel_catering.Common.Sort.{IsSorted}
use silberloeffel_catering.Orders.Model.{DateTime}
use silberloeffel_catering.ManualTasks.Model.{ManualTask, Priority, high, normal, low}
use silberloeffel_catering.ManualTasks.Service.{priority_rank, due_or_latest, task_before}

-- The lexicographic order of four numbers.
abbrev lex : ℕ → ℕ → ℕ → ℕ → ℕ → ℕ → ℕ → ℕ → Bool
lex a b c d a' b' c' d' =
    ltb a a' || (a == a' && (ltb b b' || (b == b' && (ltb c c' || (c == c' && leb d d')))))

lex_total :
    (a b c d a' b' c' d' : ℕ) → lex a b c d a' b' c' d' ≡ false → lex a' b' c' d' a b c d ≡ true
lex_total a b c d a' b' c' d' h = ground arith

lex_trans :
    (a b c d a' b' c' d' x y z w : ℕ)
    → lex a b c d a' b' c' d' ≡ true
    → lex a' b' c' d' x y z w ≡ true
    → lex a b c d x y z w ≡ true
lex_trans a b c d a' b' c' d' x y z w h g = ground arith

pub task_before_total : (a b : ManualTask) → task_before a b ≡ false → task_before b a ≡ true
unfolding task_before
task_before_total a b h =
    lex_total (priority_rank a.priority) (due_or_latest a) a.created_at a.task_id
      (priority_rank b.priority) (due_or_latest b) b.created_at b.task_id h

pub task_before_trans :
    (a b c : ManualTask) → task_before a b ≡ true → task_before b c ≡ true → task_before a c ≡ true
unfolding task_before
task_before_trans a b c h g =
    lex_trans (priority_rank a.priority) (due_or_latest a) a.created_at a.task_id
      (priority_rank b.priority) (due_or_latest b) b.created_at b.task_id (priority_rank c.priority)
      (due_or_latest c) c.created_at c.task_id h g

-- The order of the list, as the office reads it.
abbrev pub NoLessUrgent : Priority → Priority → Type 0
NoLessUrgent high q = Unit {0}
NoLessUrgent normal high = ⊥
NoLessUrgent normal q = Unit {0}
NoLessUrgent low low = Unit {0}
NoLessUrgent low q = ⊥

-- A task without a due time counts as due at the end of the calendar, the last microsecond of the
-- year 9999.
abbrev pub NoLaterDue : Option DateTime → Option DateTime → Type 0
NoLaterDue (some a) (some b) = a ≤ b
NoLaterDue (some a) none = a ≤ 253402300799999999
NoLaterDue none (some b) = 253402300799999999 ≤ b
NoLaterDue none none = Unit {0}

pub record Precedes (a b : ManualTask) : Type 0 where
  pub urgency : NoLessUrgent a.priority b.priority
  pub due : a.priority ≡ b.priority → NoLaterDue a.due_at b.due_at
  pub created : a.priority ≡ b.priority → a.due_at ≡ b.due_at → a.created_at ≤ b.created_at
  pub numbered :
      a.priority ≡ b.priority
      → a.due_at ≡ b.due_at
      → a.created_at ≡ b.created_at
      → a.task_id ≤ b.task_id

rank-NoLessUrgent : (p q : Priority) → priority_rank p ≤ priority_rank q → NoLessUrgent p q
rank-NoLessUrgent high q h = tt
rank-NoLessUrgent normal high h = absurd (omega arith)
rank-NoLessUrgent normal normal h = tt
rank-NoLessUrgent normal low h = tt
rank-NoLessUrgent low high h = absurd (omega arith)
rank-NoLessUrgent low normal h = absurd (omega arith)
rank-NoLessUrgent low low h = tt

abbrev or_end : Option DateTime → DateTime
or_end none = 253402300799999999
or_end (some t) = t

or_end-NoLaterDue : (a b : Option DateTime) → or_end a ≤ or_end b → NoLaterDue a b
or_end-NoLaterDue (some a) (some b) h = h
or_end-NoLaterDue (some a) none h = h
or_end-NoLaterDue none (some b) h = h
or_end-NoLaterDue none none h = tt

due_or_latest-or_end : (t : ManualTask) → due_or_latest t ≡ or_end t.due_at
due_or_latest-or_end t = ground arith

lex-first : (a b c d a' b' c' d' : ℕ) → lex a b c d a' b' c' d' ≡ true → a ≤ a'
lex-first a b c d a' b' c' d' h = ground arith

lex-second : (a b c d a' b' c' d' : ℕ) → lex a b c d a' b' c' d' ≡ true → a ≡ a' → b ≤ b'
lex-second a b c d a' b' c' d' h e = ground arith

lex-third : (a b c d a' b' c' d' : ℕ) → lex a b c d a' b' c' d' ≡ true → a ≡ a' → b ≡ b' → c ≤ c'
lex-third a b c d a' b' c' d' h e f = ground arith

lex-fourth :
    (a b c d a' b' c' d' : ℕ) → lex a b c d a' b' c' d' ≡ true → a ≡ a' → b ≡ b' → c ≡ c' → d ≤ d'
lex-fourth a b c d a' b' c' d' h e f g = ground arith

same_due : (a b : ManualTask) → a.due_at ≡ b.due_at → due_or_latest a ≡ due_or_latest b
same_due a b e = due_or_latest-or_end a ∙ ap or_end e ∙ sym (due_or_latest-or_end b)

task_before-Precedes : (a b : ManualTask) → task_before a b ≡ true → Precedes a b
unfolding task_before
task_before-Precedes a b h =
    let p = priority_rank a.priority in
    let q = priority_rank b.priority in
    let d = due_or_latest a in
    let e = due_or_latest b in
    let s = a.created_at in
    let t = b.created_at in
    let i = a.task_id in
    let j = b.task_id in
    record {
      urgency = rank-NoLessUrgent a.priority b.priority (lex-first p d s i q e t j h);
      due = λ same. or_end-NoLaterDue a.due_at b.due_at (
          subst (λ y. or_end a.due_at ≤ y) (due_or_latest-or_end b)
            (subst (λ x. x ≤ e) (due_or_latest-or_end a)
              (lex-second p d s i q e t j h (ap priority_rank same))));
      created = λ same due. lex-third p d s i q e t j h (ap priority_rank same) (same_due a b due);
      numbered = λ same due made.
          lex-fourth p d s i q e t j h (ap priority_rank same) (same_due a b due) made;
    }

-- Each task precedes all that follow it.
abbrev pub InOrder : List ManualTask → Type 0
InOrder [] = Unit {0}
InOrder (t ∷ ts) = ((u : ManualTask) → In u ts → Precedes t u) × InOrder ts

pub IsSorted-InOrder : (ts : List ManualTask) → IsSorted task_before ts → InOrder ts
IsSorted-InOrder [] s = tt
IsSorted-InOrder (t ∷ ts) s = ((λ u m. task_before-Precedes t u (s.0 u m)), IsSorted-InOrder ts s.1)
