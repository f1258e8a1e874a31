-- ===== src/Planning/Budgets.antt =====
-- What every course of `OrchestrationRun.evolve` (agent_company_os/domain/orchestration.py) keeps.
use nebula_os.Prelude.{
  ℕ, ◌+◌, ℤ, pos, negsuc, ◌+ℤ◌, exceeds_limit, IsAtMost, length, String, true, false, ◌≡◌, refl,
  sym, subst, ap, ◌∙◌, ◌⊎◌, inl, inr, Bool-cases, Option, some, List, [], ◌∷◌, str_eq, eq_iff,
  arith, if◌then◌else◌,
}
use nebula_os.Domain.Errors.{ok, err, Result-cases}
use nebula_os.Planning.Run.{
  OrchestrationStatus, planning, running, waiting, completed, failed, cancelled, OrchestrationRun,
  status_value, is_terminal, has_ended, check_run, allowed, Evolution, given_or, evolved, evolve,
}

-- What a run that has been checked is like.
pub record IsSoundRun (r : OrchestrationRun) : Type 0 where
  pub replans : IsAtMost r.replan_count r.policy.max_replans
  pub agent_runs : IsAtMost r.agent_run_count r.policy.max_agent_runs
  pub ended : has_ended r.ended_at ≡ is_terminal r.status

exceeds_limit-IsAtMost : (n : ℤ) (limit : ℕ) → exceeds_limit n limit ≡ false → IsAtMost n limit
exceeds_limit-IsAtMost (pos n) limit h = ground arith
exceeds_limit-IsAtMost (negsuc n) limit h = tt

pub check_run-IsSoundRun : (r u : OrchestrationRun) → check_run r ≡ ok u → (u ≡ r) × IsSoundRun r
unfolding check_run
check_run-IsSoundRun r u h = (
  ground arith,
  record {
    replans = exceeds_limit-IsAtMost r.replan_count r.policy.max_replans (ground arith);
    agent_runs = exceeds_limit-IsAtMost r.agent_run_count r.policy.max_agent_runs (ground arith);
    ended = ground arith;
  },
)

-- The step from one status to another is in the table, or there is none.
abbrev pub MayBecome : (source target : OrchestrationStatus) → Type 0
MayBecome source target = (target ≡ source) ⊎ (allowed source target ≡ true)

-- The status that a text names, as `OrchestrationStatus(text)`.
status_named : String → Option OrchestrationStatus
status_named s =
    if str_eq s "planning"
    then some planning
    else if str_eq s "running"
    then some running
    else if str_eq s "waiting"
    then some waiting
    else if str_eq s "completed"
    then some completed
    else if str_eq s "failed"
    then some failed
    else some cancelled

status_named-status_value : (a : OrchestrationStatus) → status_named (status_value a) ≡ some a
unfolding status_named
status_named-status_value planning = refl
status_named-status_value running = refl
status_named-status_value waiting = refl
status_named-status_value completed = refl
status_named-status_value failed = refl
status_named-status_value cancelled = refl

same_status : (a b : OrchestrationStatus) → str_eq (status_value a) (status_value b) ≡ true → a ≡ b
same_status a b h =
    let e = ap status_named ((eq_iff (status_value a) (status_value b)).0 h) in
    cc (e, status_named-status_value a, status_named-status_value b)

-- What an accepted call has done.
pub record Evolved (r : OrchestrationRun) (e : Evolution) (u : OrchestrationRun) : Type 0 where
  pub result : u ≡ evolved r e
  pub step : MayBecome r.status (given_or e.status r.status)
  pub sound : IsSoundRun u

pub evolve-Evolved :
    (r : OrchestrationRun) (e : Evolution) (u : OrchestrationRun)
    → evolve r e ≡ ok u
    → Evolved r e u
unfolding evolve
evolve-Evolved r e u h = elim (Result-cases (check_run (evolved r e))) [
  | inr (error, refused) ↦ absurd (ground arith)
  | inl (v, checked) ↦
      let (same, sound) = check_run-IsSoundRun (evolved r e) v checked in
      let u_is : u ≡ evolved r e = ground arith in
      record {
        result = u_is;
        step =
            elim (Bool-cases
              (str_eq (status_value (given_or e.status r.status)) (status_value r.status))) [
                | inl equal ↦ inl (same_status (given_or e.status r.status) r.status equal)
                | inr other ↦ inr (ground arith)
              ];
        sound = subst IsSoundRun (sym u_is) sound;
      }
]

-- The run after the calls, in which a refused call changes nothing, and the accepted calls.
unfoldable pub course : List Evolution → OrchestrationRun → OrchestrationRun × List Evolution
course [] r = (r, [])
course (e ∷ es) r = elim (evolve r e) [
  | err error ↦ course es r
  | ok u ↦ let (v, accepted) = course es u in (v, e ∷ accepted)
]

-- A number to which the amounts of the calls are added, one after another.
unfoldable pub added : (amount : Evolution → ℤ) → List Evolution → ℤ → ℤ
added amount [] n = n
added amount (e ∷ es) n = added amount es (n +ℤ amount e)

-- The budget, the numbers and the end of a run.
pub record Advanced (r : OrchestrationRun) (u : OrchestrationRun) (accepted : List Evolution)
    : Type 0 where
  pub sound : IsSoundRun u
  pub policy : u.policy ≡ r.policy
  pub goal : u.goal_id ≡ r.goal_id
  pub version : u.version ≡ r.version + length accepted
  pub replans : u.replan_count ≡ added (λ e. e.replan_delta) accepted r.replan_count
  pub agent_runs : u.agent_run_count ≡ added (λ e. e.agent_run_delta) accepted r.agent_run_count
  pub failures :
      u.failed_attempt_count ≡ added (λ e. e.failed_delta) accepted r.failed_attempt_count
  pub terminal : is_terminal r.status ≡ true → u.status ≡ r.status

stays : (a b : OrchestrationStatus) → MayBecome a b → is_terminal a ≡ true → b ≡ a
stays a b (inl same) ended = same
stays a b (inr step) ended = absurd (ground arith)

-- An accepted call, and what comes of the run that it returns.
evolve-Advanced :
    (r : OrchestrationRun) (e : Evolution) (u v : OrchestrationRun) (accepted : List Evolution)
    → evolve r e ≡ ok u
    → Advanced u v accepted
    → Advanced r v (e ∷ accepted)
unfolding added
evolve-Advanced r e u v accepted h a =
    let d = evolve-Evolved r e u h in
    let b = subst (λ x. Advanced x v accepted) d.result a in
    record {
      sound = b.sound;
      policy = b.policy;
      goal = b.goal;
      version = omega (arith, b.version);
      replans = b.replans;
      agent_runs = b.agent_runs;
      failures = b.failures;
      terminal = λ ended.
          let same = stays r.status (given_or e.status r.status) d.step ended in
          b.terminal (subst (λ x. is_terminal x ≡ true) (sym same) ended) ∙ same;
    }

-- Whatever is asked of a run that is within its budgets and has an end exactly if its status is
-- terminal, with refused calls changing nothing, it stays so; its goal and policy stay the same, its
-- version grows by the number of accepted calls, its three counters are what they were with the
-- deltas of the accepted calls added, which may be negative, and a terminal status stays.
pub course-Advanced :
    (es : List Evolution) (r : OrchestrationRun)
    → IsSoundRun r
    → Advanced r (course es r).0 (course es r).1
unfolding course added
course-Advanced [] r sound = record {
  sound = sound;
  policy = refl;
  goal = refl;
  version = omega arith;
  replans = refl;
  agent_runs = refl;
  failures = refl;
  terminal = λ h. refl;
}
course-Advanced (e ∷ es) r sound = elim (Result-cases (evolve r e)) [
  | inr (error, refused) ↦
      let same : course (e ∷ es) r ≡ course es r = ground arith in
      subst (λ c. Advanced r c.0 c.1) (sym same) (course-Advanced es r sound)
  | inl (u, accepted) ↦
      let rest = course-Advanced es u (evolve-Evolved r e u accepted).sound in
      let same : course (e ∷ es) r ≡ ((course es u).0, e ∷ (course es u).1) = ground arith in
      subst (λ c. Advanced r c.0 c.1) (sym same)
        (evolve-Advanced r e u (course es u).0 (course es u).1 accepted rest)
]
