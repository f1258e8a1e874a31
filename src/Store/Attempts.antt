-- ===== src/Store/Attempts.antt =====
-- The limits on attempts that the in-memory store keeps (agent_company_os/adapters/in_memory.py): no
-- execution has more attempts than its bounds allow, and no task has two open attempts.
use nebula_os.Prelude.{
  ◌≤◌, ◌<◌, String, ◌≡◌, ap, subst, inl, inr, Bool-cases, Option-cases, ◌≢◌, true, none, some,
  lookup, lookup-insert, insert, values, arith, eq_iff, str_eq, ◌∙◌, count_if, length-keep,
  count_if-insert_new, count_if-insert_old,
}
use nebula_os.Domain.TaskAttempt.{TaskAttempt}
use nebula_os.Domain.Execution.{Execution}
use nebula_os.Domain.Events.{Event}
use nebula_os.Store.Tables.{of_execution, is_open}
use nebula_os.Store.Ops.{Store}
use nebula_os.Store.Steps.{
  Sort, of_task as task_sort, of_attempt, of_execution as execution_sort, Entity, Reachable, start,
  step, Changed, Write-Changed,
}
use nebula_os.Store.References.Checked.{attempt_references-Parents}
use nebula_os.Store.References.Kept.{IsConnected, Reachable-IsConnected}
use nebula_os.Store.Limits.{
  IsLimited, capacity, exchanged, exchanged_closed, legal-is_open, none_open, open_for,
}

module _ (e : TaskAttempt) (event : Event) (s s' : Store) (c : Changed of_attempt e event s s')
    (k : IsConnected s) (h : IsLimited s) where
  -- A new attempt found room in its execution.
  room_before :
      lookup e.id s.tables.attempts ≡ none
      → count_if (of_execution e.execution_id) (values s.tables.attempts)
        < capacity (lookup e.execution_id s.tables.executions)
  room_before absent =
      let p = attempt_references-Parents s e (c.created absent) in
      let named = k.keyed execution_sort e.execution_id p.execution p.stored_execution in
      rw p.stored_execution (
        subst
          (λ i.
            count_if (of_execution i) (values s.tables.attempts)
            < p.execution.bounds.max_task_attempts)
          named
          (rw (← length-keep (of_execution p.execution.id) (values s.tables.attempts))
            p.admissible.room))

  -- A new attempt found no open attempt of its task.
  none_open_before :
      lookup e.id s.tables.attempts ≡ none
      → count_if (open_for e.task_id) (values s.tables.attempts) ≡ 0
  none_open_before absent =
      let p = attempt_references-Parents s e (c.created absent) in
      let named = k.keyed task_sort e.task_id p.task p.stored_task in
      subst (λ i. count_if (open_for i) (values s.tables.attempts) ≡ 0) named
        (none_open s p.task.id p.admissible.none_open)

  attempt_bounded :
      (id : String)
      → count_if (of_execution id) (values s'.tables.attempts)
        ≤ capacity (lookup id s'.tables.executions)
  attempt_bounded id =
      rw (c.own_table, c.other_tables execution_sort (λ p. cc))
        (elim (Option-cases (lookup e.id s.tables.attempts)) [
          | inl absent ↦
              rw (count_if-insert_new (of_execution id) e.id e s.tables.attempts absent)
                (elim (Bool-cases (str_eq e.execution_id id)) [
                  | inl same ↦ rw same (
                      omega (
                        arith,
                        subst
                            (λ i.
                              count_if (of_execution i) (values s.tables.attempts)
                              < capacity (lookup i s.tables.executions))
                            ((eq_iff _ _).0 same) (room_before absent),
                      ))
                  | inr other ↦ rw other (omega (arith, h.bounded id))
                ])
          | inr (current, stored) ↦ ground (
            arith,
            count_if-insert_old (of_execution id) e.id e current s.tables.attempts stored,
            c.replaced current stored,
            eq_iff current.execution_id e.execution_id,
            h.bounded id,
          )
        ])

  replaced_single :
      (id : String) (current : TaskAttempt)
      → lookup e.id s.tables.attempts ≡ some current
      → str_eq current.task_id id ≡ str_eq e.task_id id
      → is_open current ≡ true
      → count_if (open_for id) (values (insert e.id e s.tables.attempts)) ≤ 1
  replaced_single id current stored same was_open =
      let exchange = count_if-insert_old (open_for id) e.id e current s.tables.attempts stored in
      elim (Bool-cases (str_eq e.task_id id)) [
        | inl y ↦ exchanged _ _ _ (open_for id e) (rw (same ∙ y) was_open) exchange (h.single id)
        | inr n ↦ exchanged_closed _ _ (open_for id current) _ (rw n) exchange (h.single id)
      ]

  attempt_single : (id : String) → count_if (open_for id) (values s'.tables.attempts) ≤ 1
  attempt_single id = rw c.own_table (elim (Option-cases (lookup e.id s.tables.attempts)) [
    | inl absent ↦
        rw (count_if-insert_new (open_for id) e.id e s.tables.attempts absent)
          (elim (Bool-cases (str_eq e.task_id id)) [
            | inl same ↦ rw same (
                ground (
                  arith,
                  subst (λ i. count_if (open_for i) (values s.tables.attempts) ≡ 0)
                      ((eq_iff _ _).0 same) (none_open_before absent),
                ))
            | inr other ↦ rw other (omega (arith, h.single id))
          ])
    | inr (current, stored) ↦
        let r = c.replaced current stored in
        replaced_single id current stored
          (ap (λ t. str_eq t id) ((eq_iff current.task_id e.task_id).0 (ground arith)))
          (legal-is_open current e r.0)
  ])

  attempt-IsLimited : IsLimited s'
  attempt-IsLimited = record { bounded = attempt_bounded; single = attempt_single }

-- A change of an execution never lowers what it may have.
execution-IsLimited :
    (e : Execution) (event : Event) (s s' : Store)
    → Changed execution_sort e event s s'
    → IsLimited s
    → IsLimited s'
execution-IsLimited e event s s' c h = record {
  bounded = λ id. rw (c.own_table, c.other_tables of_attempt (λ p. cc)) (widened id);
  single = λ id. rw (c.other_tables of_attempt (λ p. cc)) (h.single id);
}
  where
    widened :
        (id : String)
        → count_if (of_execution id) (values s.tables.attempts)
          ≤ capacity (lookup id (insert e.id e s.tables.executions))
    widened id = rw lookup-insert (elim (Bool-cases (str_eq e.id id)) [
      | inl same ↦ rw same (elim (Option-cases (lookup e.id s.tables.executions)) [
        | inl absent ↦ ground (arith, h.bounded id, eq_iff e.id id)
        | inr (current, stored) ↦
            ground (arith, h.bounded id, eq_iff e.id id, c.replaced current stored)
      ])
      | inr other ↦ rw other (h.bounded id)
    ])

-- A change of another class touches neither table.
other-IsLimited :
    (a : Sort) (e : Entity a) (event : Event) (s s' : Store)
    → a ≢ of_attempt
    → a ≢ execution_sort
    → Changed a e event s s'
    → IsLimited s
    → IsLimited s'
other-IsLimited a e event s s' n m c h = record {
  bounded = λ id. rw (c.other_tables of_attempt n, c.other_tables execution_sort m) (h.bounded id);
  single = λ id. rw (c.other_tables of_attempt n) (h.single id);
}

Changed-IsLimited :
    (a : Sort) (e : Entity a) (event : Event) (s s' : Store)
    → Changed a e event s s'
    → IsConnected s
    → IsLimited s
    → IsLimited s'
Changed-IsLimited of_attempt e event s s' c k h = attempt-IsLimited e event s s' c k h
Changed-IsLimited execution_sort e event s s' c k h = execution-IsLimited e event s s' c h
Changed-IsLimited a e event s s' c k h = other-IsLimited a e event s s' (λ p. cc) (λ p. cc) c h

-- In every store that accepted writes lead to, no execution has more attempts than its bounds
-- allow, and no task has two attempts that are not terminal.
pub Reachable-IsLimited : (s : Store) → Reachable s → IsLimited s
unfolding values
Reachable-IsLimited s start = record { bounded = λ id. omega arith; single = λ id. omega arith }
Reachable-IsLimited s (step {s = r} reached w) =
    let (b, e, event, c) = Write-Changed r s w in
    Changed-IsLimited b e event r s c (Reachable-IsConnected r reached)
      (Reachable-IsLimited r reached)
