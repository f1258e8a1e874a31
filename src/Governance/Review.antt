-- ===== src/Governance/Review.antt =====
-- `GovernanceService` (agent_company_os/application/governance.py): decisions, cancellation, expiry,
-- claiming and consumption. The readings of the clock are arguments, in the order of the calls;
-- each has a zone, as the adapters of the clock give it.
use nebula_os.Prelude.{
  String, Bool, true, false, ◌&&◌, ◌||◌, Option, none, some, List, [], ◌∷◌, ◌++◌, leb, str_eq,
  is_nil, last?, if◌then◌else◌,
}
use nebula_os.Domain.Errors.{Result, ok, err, invariant_violation, raise_if, ◌>>=◌, ◌>>◌}
use nebula_os.Domain.Validation.{DateTime, Version, next}
use nebula_os.Domain.Events.{EventType}
use nebula_os.Governance.Policy.{
  effect_value, ReviewerPrincipal, is_reviewer, ApprovalPolicy, same_policy,
}
use nebula_os.Governance.Action.{
  DecisionKind, is_approved, is_expired, is_revoked, ApprovalDecision, check_decision,
  GovernedAction, check_action, is_none, is_required,
}
use nebula_os.Governance.Records.{
  RuntimeStore, approval_policy, governed_action, governed_actions, save_governed_action,
}
use nebula_os.Governance.Log.{event, Stamp}

-- `record.decisions[-1].kind is DecisionKind.APPROVED`, where there is one
abbrev pub last_approved : List ApprovalDecision → Bool
last_approved ds = elim (last? ds) [ none ↦ false | some d ↦ is_approved d.kind ]

-- `GovernanceService.allowed`
unfoldable pub allowed : GovernedAction → (now : DateTime) → Bool
allowed g now =
    if g.cancelled || (if is_none g.invocation_id then false else true) || g.consumed
    then false
    else if leb g.intent.expires_at.instant now.instant
    then false
    else if str_eq (effect_value g.intent.effect) "allowed_without_approval"
    then true
    else is_required g.intent.effect && last_approved g.decisions

-- `policy is None or reviewer not in policy.reviewers or …`
unfoldable pub unauthorized :
    (workspace : String) → GovernedAction → ReviewerPrincipal → ApprovalPolicy → Bool
unauthorized workspace g reviewer policy =
    (if is_reviewer reviewer policy.reviewers then false else true)
    || (if is_reviewer reviewer g.intent.policy.reviewers then false else true)
    || (if str_eq reviewer.workspace_id workspace then false else true)

unfoldable pub unavailable :
    GovernedAction → (digest : String) → ApprovalPolicy → DecisionKind → (now : DateTime) → Bool
unavailable g digest policy kind now =
    is_none g.request
    || (if str_eq digest g.intent.fingerprint then false else true)
    || (if same_policy g.intent.policy policy then false else true)
    || g.cancelled
    || (if is_none g.invocation_id then false else true)
    || leb g.intent.expires_at.instant now.instant
    || is_expired kind
    || (is_revoked kind && (if last_approved g.decisions then false else true))
    || ((if is_revoked kind then false else true) && (if is_nil g.decisions then false else true))

-- The event of each decision; `expired` has been refused.
abbrev pub decision_event : DecisionKind → EventType
decision_event DecisionKind.approved = EventType.approval_granted
decision_event DecisionKind.rejected = EventType.approval_rejected
decision_event DecisionKind.revoked = EventType.approval_revoked
decision_event DecisionKind.expired = EventType.approval_expired

-- `replace` builds a new record, which is checked; it is saved, and the event appended.
unfoldable pub record_change :
    (updated : GovernedAction)
    → (expected : Version) → EventType
    → Stamp
    → RuntimeStore
    → Result (RuntimeStore × GovernedAction)
record_change updated expected kind stamp s = do
  updated' ← check_action updated
  s' ← save_governed_action updated' (some expected) s
  s'' ← event updated' kind stamp s'
  ok (s'', updated')

abbrev pub required_policy : Option ApprovalPolicy → Result ApprovalPolicy
required_policy none = err (invariant_violation "reviewer_not_authorized")
required_policy (some p) = ok p

unfoldable pub decide :
    (workspace intent_id digest : String)
    → ReviewerPrincipal
    → DecisionKind
    → (reason : String) → (now decided : DateTime) → Stamp
    → RuntimeStore
    → Result (RuntimeStore × GovernedAction)
unfolding record_change
decide workspace intent_id digest reviewer kind reason now decided stamp s = do
  g ← governed_action s workspace intent_id
  current ← approval_policy s workspace
  policy ← required_policy current
  raise_if (unauthorized workspace g reviewer policy)
      (invariant_violation "reviewer_not_authorized")
  raise_if (unavailable g digest policy kind now)
      (invariant_violation "approval_decision_not_available")
  decision ← check_decision (record {
    intent_id = intent_id;
    fingerprint = digest;
    policy_version = policy.version;
    kind = kind;
    reviewer = some reviewer;
    at = decided;
    reason = reason;
  })
  record_change (record g { decisions = g.decisions ++ decision ∷ []; version = next g.version })
      g.version (decision_event kind) stamp s

unfoldable pub cancel :
    (workspace intent_id : String) → Stamp → RuntimeStore → Result (RuntimeStore × GovernedAction)
unfolding record_change
cancel workspace intent_id stamp s = do
  g ← governed_action s workspace intent_id
  raise_if (g.cancelled || (if is_none g.invocation_id then false else true))
      (invariant_violation "intent_already_cancelled_or_claimed")
  record_change (record g { cancelled = true; version = next g.version }) g.version
      EventType.action_intent_cancelled stamp s

-- Whether there is anything to expire.
unfoldable pub expires : GovernedAction → (now : DateTime) → Bool
expires g now =
    (if is_none g.request then false else true)
    && (if g.cancelled then false else true)
    && is_none g.invocation_id
    && leb g.intent.expires_at.instant now.instant
    && (is_nil g.decisions || last_approved g.decisions)

unfoldable pub expire_now :
    (intent_id : String) (decided : DateTime)
    → Stamp
    → GovernedAction
    → RuntimeStore
    → Result (RuntimeStore × GovernedAction)
unfolding record_change
expire_now intent_id decided stamp g s = do
  decision ← check_decision (record {
    intent_id = intent_id;
    fingerprint = g.intent.fingerprint;
    policy_version = g.intent.policy.version;
    kind = DecisionKind.expired;
    reviewer = none;
    at = decided;
    reason = "";
  })
  record_change (record g { decisions = g.decisions ++ decision ∷ []; version = next g.version })
      g.version EventType.approval_expired stamp s

unfoldable pub expire :
    (workspace intent_id : String) (now decided : DateTime)
    → Stamp
    → RuntimeStore
    → Result (RuntimeStore × GovernedAction)
unfolding expire_now
expire workspace intent_id now decided stamp s = do
  g ← governed_action s workspace intent_id
  if expires g now then expire_now intent_id decided stamp g s else ok (s, g)

-- `claim` and `consumed` open no transaction: what was saved stays if the event is refused.
abbrev pub saved_then :
    RuntimeStore
    → Result RuntimeStore
    → (RuntimeStore → Result RuntimeStore)
    → Result (Unit {0}) × RuntimeStore
saved_then s (err e) next_step = (err e, s)
saved_then s (ok s') next_step = elim (next_step s') [ err e ↦ (err e, s') | ok s'' ↦ (ok tt, s'') ]

unfoldable pub save_and_log :
    (updated : GovernedAction)
    → (expected : Version) → EventType
    → Stamp
    → RuntimeStore
    → Result (Unit {0}) × RuntimeStore
save_and_log updated expected kind stamp s =
    saved_then s
      (check_action updated >>= λ updated'. save_governed_action updated' (some expected) s)
      (event updated kind stamp)

unfoldable pub claim :
    GovernedAction
    → (invocation_id : String) → (now : DateTime) → Stamp
    → RuntimeStore
    → Result (Unit {0}) × RuntimeStore
unfolding save_and_log
claim g invocation_id now stamp s =
    if allowed g now
    then save_and_log (record g { invocation_id = some invocation_id; version = next g.version })
        g.version EventType.action_execution_authorized stamp s
    else (err (invariant_violation "approval_not_executable"), s)

abbrev pub invoked_by : String → Option String → Bool
invoked_by invocation_id none = false
invoked_by invocation_id (some i) = str_eq i invocation_id

-- `next((g for g in actions if g.invocation_id == invocation.id), None)`
unfoldable pub find_invoked : String → List GovernedAction → Option GovernedAction
find_invoked invocation_id [] = none
find_invoked invocation_id (g ∷ gs) =
    if invoked_by invocation_id g.invocation_id then some g else find_invoked invocation_id gs

unfoldable pub consume_found :
    Stamp → RuntimeStore → Result (Option GovernedAction) → Result (Unit {0}) × RuntimeStore
unfolding save_and_log
consume_found stamp s (err e) = (err e, s)
consume_found stamp s (ok none) = (ok tt, s)
consume_found stamp s (ok (some g)) =
    if (if is_none g.request then false else true) && (if g.consumed then false else true)
    then save_and_log (record g { consumed = true; version = next g.version }) g.version
        EventType.approval_consumed stamp s
    else (ok tt, s)

-- `GovernanceService.consumed`
unfoldable pub consumed :
    (workspace invocation_id : String) → Stamp → RuntimeStore → Result (Unit {0}) × RuntimeStore
unfolding consume_found
consumed workspace invocation_id stamp s =
    consume_found stamp s
      (governed_actions s workspace >>= λ gs. ok (find_invoked invocation_id gs))
