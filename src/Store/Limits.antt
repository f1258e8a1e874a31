-- ===== src/Store/Limits.antt =====
-- The limits on attempts (agent_company_os/adapters/in_memory.py), and the lists that the store counts.
use nebula_os.Prelude.{
  ℕ, ◌+◌, ◌≤◌, String, ◌≡◌, refl, ap, sym, Bool, true, false, ◌&&◌, ◌||◌, Option, none, some, List,
  [], ◌∷◌, lookup, values, arith, if◌then◌else◌, ◌∙◌, any, keep, count_if,
}
use nebula_os.Domain.TaskAttempt
use nebula_os.Domain.TaskAttempt.{TaskAttempt}
use nebula_os.Domain.Execution.{Execution}
use nebula_os.Store.Tables.{
  insert_by_ordinal, sort_by_ordinal, of_task, of_execution, is_open, attempts_for_task,
}
use nebula_os.Store.Ops.{Store}

-- How many attempts an execution may have; one that is not there may have none.
abbrev pub capacity : Option Execution → ℕ
capacity none = 0
capacity (some x) = x.bounds.max_task_attempts

abbrev pub open_for : String → TaskAttempt → Bool
open_for task_id a = of_task task_id a && is_open a

-- The limits: on the attempts of each execution, and on the open attempts of each task.
pub record IsLimited (s : Store) : Type 0 where
  pub bounded :
      (id : String)
      → count_if (of_execution id) (values s.tables.attempts)
        ≤ capacity (lookup id s.tables.executions)
  pub single : (id : String) → count_if (open_for id) (values s.tables.attempts) ≤ 1

-- Sorting keeps what a search finds.
any-insert_by_ordinal :
    (p : TaskAttempt → Bool) (a : TaskAttempt) (as' : List TaskAttempt)
    → any p (insert_by_ordinal a as') ≡ (p a || any p as')
unfolding insert_by_ordinal
any-insert_by_ordinal p a [] = refl
any-insert_by_ordinal p a (b ∷ bs) = ground (arith, any-insert_by_ordinal p a bs)

any-sort_by_ordinal :
    (p : TaskAttempt → Bool) (as' : List TaskAttempt) → any p (sort_by_ordinal as') ≡ any p as'
unfolding sort_by_ordinal
any-sort_by_ordinal p [] = refl
any-sort_by_ordinal p (a ∷ as') =
    any-insert_by_ordinal p a (sort_by_ordinal as') ∙ ap (λ b. p a || b) (any-sort_by_ordinal p as')

count_if_none :
    (p q : TaskAttempt → Bool) (as' : List TaskAttempt)
    → any q (keep p as') ≡ false
    → count_if (λ a. p a && q a) as' ≡ 0
count_if_none p q [] h = refl
count_if_none p q (a ∷ as') h = ground (arith, count_if_none p q as')

-- A task whose listed attempts are all closed has no open attempt.
pub none_open :
    (s : Store) (id : String)
    → any is_open (attempts_for_task s.tables id) ≡ false
    → count_if (open_for id) (values s.tables.attempts) ≡ 0
none_open s id h =
    count_if_none (of_task id) is_open (values s.tables.attempts)
      (sym (any-sort_by_ordinal is_open (keep (of_task id) (values s.tables.attempts))) ∙ h)

-- An attempt that makes a legal step was open.
pub legal-is_open :
    (a b : TaskAttempt) → TaskAttempt.allowed a.status b.status ≡ true → is_open a ≡ true
legal-is_open a b h = ground arith

-- The count after an exchange of one item for another.
pub exchanged :
    (m n : ℕ) (old new : Bool)
    → old ≡ true
    → m + (if old then 1 else 0) ≡ n + (if new then 1 else 0)
    → n ≤ 1
    → m ≤ 1
exchanged m n old new h e l = ground arith

pub exchanged_closed :
    (m n : ℕ) (old new : Bool)
    → new ≡ false
    → m + (if old then 1 else 0) ≡ n + (if new then 1 else 0)
    → n ≤ 1
    → m ≤ 1
exchanged_closed m n old new h e l = ground arith
