-- ===== src/Governance/Log.antt =====
-- The events of governed actions (agent_company_os/application/governance.py, `event`, and
-- adapters/runtime_store.py, `append_event`).
use Prim.Native.Char.{Char}
use nebula_os.Prelude.{
  ℕ, zero, suc, ◌/◌, ◌%◌, String, true, false, ◌||◌, [], ◌∷◌, ◌++◌, ltb, ◌==◌, str_eq, any,
  if◌then◌else◌,
}
use nebula_os.Domain.Errors.{Result, ok, invariant_violation, raise_if, ◌>>=◌, ◌>>◌}
use nebula_os.Domain.Validation.{DateTime}
use nebula_os.Domain.Transitions.{SubjectType, subject_value}
use nebula_os.Domain.Events.{Event, EventType, check_event}
use nebula_os.Governance.Tools.{risk_value}
use nebula_os.Governance.Action.{GovernedAction}
use nebula_os.Governance.Records.{AgentRun, RuntimeStore, get_run}

unfoldable pub append_event : Event → RuntimeStore → Result RuntimeStore
append_event e s = do
  run ← get_run s e.workspace_id e.subject_id
  raise_if
      ((if e.entity_version == run.version then false else true)
        || (if str_eq (subject_value e.subject_type) "agent_run" then false else true)
        || any (λ old. str_eq old.id e.id) s.log)
      (invariant_violation "runtime_event_binding")
  ok (record s { log = s.log ++ e ∷ [] })

digit : ℕ → Char
digit d =
    if d == 0
    then "0"
    else if d == 1
    then "1"
    else if d == 2
    then "2"
    else if d == 3
    then "3"
    else if d == 4
    then "4"
    else if d == 5
    then "5"
    else if d == 6
    then "6"
    else if d == 7
    then "7"
    else if d == 8
    then "8"
    else "9"

digits_before : (fuel n : ℕ) → String → String
unfolding digit
digits_before zero n later = later
digits_before (suc fuel) n later =
    let longer = digits_before fuel (n / 10) (String.◌∷◌ (digit (n % 10)) later) in
    if ltb n 10 then String.◌∷◌ (digit n) later else longer

-- `str(n)`: a number has fewer digits than the fuel.
unfoldable pub decimal : ℕ → String
unfolding digits_before
decimal n = digits_before (suc n) n ""

-- What the generator of identifiers and the clock gave for an event.
pub record Stamp : Type 0 where
  pub event_id : String
  pub at : DateTime

-- The event of a change of an action, with the reason that its callers leave out.
abbrev pub event_of : GovernedAction → EventType → Stamp → AgentRun → Event
event_of g kind stamp run = record {
  id = stamp.event_id;
  workspace_id = g.intent.workspace_id;
  event_type = kind;
  subject_type = SubjectType.agent_run;
  subject_id = run.id;
  entity_version = run.version;
  occurred_at = stamp.at;
  metadata =
      ("intent_id", g.intent.id)
      ∷ ("action_id", g.intent.action_id)
      ∷ ("fingerprint", g.intent.fingerprint)
      ∷ ("policy_version", decimal g.intent.policy.version)
      ∷ ("risk", risk_value g.intent.tool.definition.risk)
      ∷ ("reason", "none")
      ∷ [];
  schema_version = 1;
}

-- `GovernanceService.event`
unfoldable pub event : GovernedAction → EventType → Stamp → RuntimeStore → Result RuntimeStore
event g kind stamp s = do
  run ← get_run s g.intent.workspace_id g.intent.run_id
  e ← check_event (event_of g kind stamp run)
  append_event e s
