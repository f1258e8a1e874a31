-- ===== src/Service/Progress.antt =====
-- Commands on goals that nothing stands against are carried out
-- (agent_company_os/application/service.py).
use nebula_os.Prelude.{
  String, true, false, ◌≡◌, ap, ◌∙◌, inl, inr, ◌+◌, some, lookup, mem_text, arith,
}
use nebula_os.Domain.Errors.{Result, ok, err, Result-cases}
use nebula_os.Domain.Validation.{DateTime, opaque_id, require_utc, require_monotonic_time}
use nebula_os.Domain.Transitions.{TransitionResult}
use nebula_os.Domain.Events.{Event}
use nebula_os.Domain.Goal
use nebula_os.Domain.Goal.{Goal}
use nebula_os.Domain.Lifecycle.Goals.{
  GoalOp, activate, satisfy, close_unsatisfied, cancel, apply, target_of, goal_accepts,
}
use nebula_os.Store.Kinds.{goal_kind}
use nebula_os.Store.Tables.{get_goal}
use nebula_os.Store.Ops.{Store, save}
use nebula_os.Service.Session.{
  Ports, Session, Command, settle, transaction, write, read_clock, draw, ◌>>=◌,
}
use nebula_os.Service.Common.{change, save_result, audit_event, expect_version}
use nebula_os.Service.Guards.{goal_of}
use nebula_os.Service.Changes.{activate_goal, satisfy_goal, close_goal_unsatisfied, cancel_goal}
use nebula_os.Service.Accepted.{
  apply-Transitioned, event-pass, event_for, event_of, goal_command, guard_of, moved, reason_of,
  save-pass, step_of,
}

module _ (p : Ports) (op : GoalOp) (g : Goal) (s : Session) where
  -- Nothing stands against the command: the goal is stored, checked and named; the step is legal and the
  -- guard lets it pass; the two readings of the clock are in UTC and the first is not before the last
  -- change; and the two identifiers that are drawn are new.
  pub record IsUnopposed : Type 0 where
    pub stored : lookup g.id s.store.tables.goals ≡ some g
    pub checked : Goal.check g ≡ ok g
    pub named : opaque_id g.id ≡ ok g.id
    pub legal : Goal.allowed g.status (target_of op) ≡ true
    pub permitted : guard_of op s.store g ≡ ok tt
    pub timely : require_monotonic_time g.updated_at (p.now s.readings) ≡ ok tt
    pub recorded_at : require_utc (p.now (s.readings + 1)) ≡ ok tt
    pub fresh : mem_text (p.event_id (s.drawn + 1)) s.store.log.event_ids ≡ false
    pub fresh' : mem_text (p.state_transition_id s.drawn) s.store.log.transition_ids ≡ false

  abbrev done_at : DateTime
  done_at = p.now s.readings

  abbrev drawn_id : String
  drawn_id = p.state_transition_id s.drawn

  abbrev result : TransitionResult Goal
  result = record {
    entity = moved op g done_at;
    transition = step_of op g drawn_id done_at (reason_of op);
  }

  apply-pass : IsUnopposed → apply op g drawn_id done_at ≡ ok result
  apply-pass h = elim (Result-cases (apply op g drawn_id done_at)) [
    | inr (error, e) ↦
        let accepted =
          (goal_accepts op g drawn_id done_at h.checked h.named).1 (h.legal, h.timely) in
        absurd (ground arith)
    | inl (r, e) ↦
        let shape = apply-Transitioned op g drawn_id done_at r e in
        let entity = shape.entity in
        let transition = shape.transition in e ∙ ap ok (same_result r entity transition)
  ]
    where
      same_result :
          (r : TransitionResult Goal)
          → r.entity ≡ moved op g done_at
          → r.transition ≡ step_of op g drawn_id done_at (reason_of op)
          → r ≡ result
      same_result r e f = λ i. record { entity = e i; transition = f i }

  found-pass : IsUnopposed → get_goal s.store.tables g.id ≡ ok g
  found-pass h = let stored = h.stored in ground arith

  abbrev logged : Event
  logged = event_for op g drawn_id done_at (p.event_id (s.drawn + 1)) (p.now (s.readings + 1))

  change-pass :
      IsUnopposed
      → (change p goal_kind goal_of (guard_of op) (apply op) (λ g. event_of op) g.id g.version s).0
        ≡ ok (moved op g done_at)
  unfolding change expect_version ◌>>=◌ read_clock draw save_result audit_event write
  change-pass h =
      let found = found-pass h in
      let permitted = h.permitted in
      let applied = apply-pass h in
      let checked =
        event-pass op g drawn_id (p.event_id (s.drawn + 1)) done_at (p.now (s.readings + 1)) h.named
          h.recorded_at in
      let saved =
        save-pass op g drawn_id done_at (reason_of op) (p.event_id (s.drawn + 1))
          (p.now (s.readings + 1)) s.store h.stored h.legal h.fresh h.fresh' in
      elim (Result-cases (
        save goal_kind (moved op g done_at) g.version (step_of op g drawn_id done_at (reason_of op))
          logged s.store)) [
            | inr (error, refused) ↦ absurd (ground arith)
            | inl (after, accepted) ↦ ground arith
          ]

transaction-passes :
    {A : Type 0} (m : Command A) (s : Session) (a : A) → (m s).0 ≡ ok a → (transaction m s).0 ≡ ok a
unfolding transaction
transaction-passes m s a h = settled s.store (m s) h
  where
    settled :
        {A : Type 0} {a : A} (before : Store) (o : Result A × Session)
        → o.0 ≡ ok a
        → (settle before o).0 ≡ ok a
    settled before (ok b, t) h = h
    settled before (err e, t) h = absurd (cc)

-- A command on a goal that nothing stands against returns the goal with the status that the command
-- moves to, the next version and the time of the change.
pub goal_command-progress :
    (p : Ports) (op : GoalOp) (g : Goal) (s : Session)
    → IsUnopposed p op g s
    → (goal_command p op g.id g.version s).0 ≡ ok (moved op g (p.now s.readings))
unfolding activate_goal satisfy_goal close_goal_unsatisfied cancel_goal apply
goal_command-progress p activate g s h = transaction-passes _ s _ (change-pass p activate g s h)
goal_command-progress p satisfy g s h = transaction-passes _ s _ (change-pass p satisfy g s h)
goal_command-progress p close_unsatisfied g s h =
    transaction-passes _ s _ (change-pass p close_unsatisfied g s h)
goal_command-progress p cancel g s h = transaction-passes _ s _ (change-pass p cancel g s h)
