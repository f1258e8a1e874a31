-- ===== src/Store/Steps.antt =====
-- One accepted write of the store, for an entity of any class, and the stores that writes reach
-- (agent_company_os/adapters/in_memory.py).
use nebula_os.Prelude.{
  ℕ, ◌+◌, ◌≡◌, refl, sym, ap, subst, ◌∙◌, ◌≢◌, true, Option, none, some, lookup, insert, arith,
  eq_iff, Dict,
}
use nebula_os.Domain.Errors.{ok}
use nebula_os.Domain.Validation.{Version}
use nebula_os.Domain.Transitions.{StateTransition}
use nebula_os.Domain.Events.{Event}
use nebula_os.Domain.Workspace.{Workspace}
use nebula_os.Domain.Goal.{Goal}
use nebula_os.Domain.Task.{Task}
use nebula_os.Domain.TaskAttempt.{TaskAttempt}
use nebula_os.Domain.Execution.{Execution}
use nebula_os.Store.Tables.{Tables}
use nebula_os.Store.Kinds.{Kind, workspace_kind, goal_kind, task_kind, attempt_kind, execution_kind}
use nebula_os.Store.Ops.{Store, empty_store, add, save, append_event, append_transition}
use nebula_os.Store.Writes.{Describes, Added, add-Added, Saved, save-Saved}

none≢some {ℓ} : {A : Type ℓ} {a : A} → none ≢ some a
none≢some h = cc

some-eq {ℓ} : {A : Type ℓ} {a b : A} → some a ≡ some b → a ≡ b
some-eq h = cc

-- The classes of entities.
pub data Sort : Type 0 where
  of_workspace of_goal of_task of_attempt of_execution : Sort

abbrev pub Entity : Sort → Type 0
Entity of_workspace = Workspace
Entity of_goal = Goal
Entity of_task = Task
Entity of_attempt = TaskAttempt
Entity of_execution = Execution

abbrev pub kind : (a : Sort) → Kind (Entity a)
kind of_workspace = workspace_kind
kind of_goal = goal_kind
kind of_task = task_kind
kind of_attempt = attempt_kind
kind of_execution = execution_kind

abbrev pub table : (a : Sort) → Store → Dict (Entity a)
table a s = (kind a).table s.tables

-- A write that the store accepted.
pub data Write (s s' : Store) : Type 0 where
  added : (a : Sort) (e : Entity a) (event : Event) → add (kind a) e event s ≡ ok s' → Write s s'
  saved :
      (a : Sort) (e : Entity a) (expected : Version) (t : StateTransition) (event : Event)
      → save (kind a) e expected t event s ≡ ok s'
      → Write s s'

-- The stores that a sequence of accepted writes leads to from the empty store.
pub data Reachable : Store → Type 0 where
  start : Reachable empty_store
  step : {s s' : Store} → Reachable s → Write s s' → Reachable s'

pub table-with_table_self :
    (a : Sort) (t : Tables) (d : Dict (Entity a)) → (kind a).table ((kind a).with_table t d) ≡ d
table-with_table_self of_workspace t d = refl
table-with_table_self _ t d = refl

pub table-with_table_ne :
    (a b : Sort) (t : Tables) (d : Dict (Entity a))
    → a ≢ b
    → (kind b).table ((kind a).with_table t d) ≡ (kind b).table t
table-with_table_ne of_workspace of_workspace t d h = absurd (h refl)
table-with_table_ne of_goal of_goal t d h = absurd (h refl)
table-with_table_ne of_task of_task t d h = absurd (h refl)
table-with_table_ne of_attempt of_attempt t d h = absurd (h refl)
table-with_table_ne of_execution of_execution t d h = absurd (h refl)
table-with_table_ne _ _ t d h = refl

pub Sort-discrete : Discrete Sort
Sort-discrete = hlevel

pub subject_type-ne : (a b : Sort) → a ≢ b → (kind a).subject_type ≢ (kind b).subject_type
subject_type-ne of_workspace of_workspace h = absurd (h refl)
subject_type-ne of_goal of_goal h = absurd (h refl)
subject_type-ne of_task of_task h = absurd (h refl)
subject_type-ne of_attempt of_attempt h = absurd (h refl)
subject_type-ne of_execution of_execution h = absurd (h refl)
subject_type-ne a b h = ground (arith, eq_iff (kind a).subject_type (kind b).subject_type)

-- The version of an entity, or zero where there is none.
abbrev pub version_of : (a : Sort) → Option (Entity a) → ℕ
version_of a none = 0
version_of a (some e) = (kind a).version e

-- What every accepted write does to the table of its class and to the events.
pub record Changed (a : Sort) (e : Entity a) (event : Event) (s s' : Store) : Type 0 where
  pub own_table : table a s' ≡ insert ((kind a).id e) e (table a s)
  pub other_tables : (b : Sort) → a ≢ b → table b s' ≡ table b s
  pub version : (kind a).version e ≡ version_of a (lookup ((kind a).id e) (table a s)) + 1
  pub describes : Describes (kind a) e event
  -- An entity that was there has made a legal step, and kept its definition.
  pub replaced :
      (current : Entity a)
      → lookup ((kind a).id e) (table a s) ≡ some current
      → ((kind a).legal current e ≡ true) × ((kind a).same_definition current e ≡ true)
  -- The parents of a new entity have been checked.
  pub created : lookup ((kind a).id e) (table a s) ≡ none → (kind a).references s.tables e ≡ ok tt
  pub events : s'.log.events ≡ (append_event event s.log).events

pub Added-Changed :
    (a : Sort) (e : Entity a) (event : Event) (s s' : Store)
    → Added (kind a) e event s s'
    → Changed a e event s s'
unfolding append_event
Added-Changed a e event s s' w = record {
  own_table = ap (kind a).table w.tables ∙ table-with_table_self a s.tables _;
  other_tables = λ b h. ap (kind b).table w.tables ∙ table-with_table_ne a b s.tables _ h;
  version = w.version ∙ sym (ap (λ o. version_of a o + 1) w.fresh);
  describes = w.describes;
  replaced = λ current there. absurd (none≢some (sym w.fresh ∙ there));
  created = λ absent. w.references;
  events = ap (λ l. l.events) w.log;
}

pub Saved-Changed :
    (a : Sort) (e : Entity a) (expected : Version) (t : StateTransition) (event : Event)
    (s s' : Store)
    → Saved (kind a) e expected t event s s'
    → Changed a e event s s'
unfolding append_event append_transition
Saved-Changed a e expected t event s s' w = record {
  own_table = ap (kind a).table w.tables ∙ table-with_table_self a s.tables _;
  other_tables = λ b h. ap (kind b).table w.tables ∙ table-with_table_ne a b s.tables _ h;
  version =
      w.permitted.version
      ∙ ap (λ n. n + 1) (sym w.permitted.held)
      ∙ sym (ap (λ o. version_of a o + 1) w.stored);
  describes = w.permitted.describes;
  replaced = λ current there.
      let same = some-eq (sym w.stored ∙ there) in
      subst (λ (c : Entity a). ((kind a).legal c e ≡ true) × ((kind a).same_definition c e ≡ true))
        same (w.permitted.legal, w.permitted.immutable);
  created = λ absent. absurd (none≢some (sym absent ∙ w.stored));
  events = ap (λ l. l.events) w.log;
}

-- A write changed one entity.
pub Write-Changed :
    (s s' : Store)
    → Write s s'
    → (a : Sort) × (e : Entity a) × (event : Event) × Changed a e event s s'
Write-Changed s s' (added a e event h) =
    (a, e, event, Added-Changed a e event s s' (add-Added (kind a) e event s s' h))
Write-Changed s s' (saved a e expected t event h) = (
  a,
  e,
  event,
  Saved-Changed a e expected t event s s' (save-Saved (kind a) e expected t event s s' h),
)
