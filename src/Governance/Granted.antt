-- ===== src/Governance/Granted.antt =====
-- Each method of `GovernanceService` (agent_company_os/application/governance.py) writes only actions
-- that are built by their constructors and, where they are claimed, granted.
use nebula_os.Prelude.{
  String, true, false, ◌≡◌, sym, subst, ◌⊎◌, inl, inr, Option-cases, some, [], ◌∷◌, ◌++◌, All,
  All-append, All-lookup, lookup, values, arith,
}
use nebula_os.Domain.Errors.{ok, Result-cases}
use nebula_os.Domain.Validation.{DateTime, next}
use nebula_os.Domain.Events.{EventType}
use nebula_os.Governance.Policy.{ReviewerPrincipal, ApprovalPolicy}
use nebula_os.Governance.Action.{
  DecisionKind, ApprovalDecision, check_decision, GovernedAction, is_none,
}
use nebula_os.Governance.Records.{RuntimeStore, approval_policy, governed_action}
use nebula_os.Governance.Log.{Stamp}
use nebula_os.Governance.Review.{
  record_change, unavailable, required_policy, decision_event, decide,
}
use nebula_os.Governance.Written.{IsGranted, IsSafe, Wrote, record_change-Wrote}

-- Nothing was written, or an action that is safe.
abbrev pub Changed : RuntimeStore → RuntimeStore → Type 0
Changed s s' = (s'.governed ≡ s.governed) ⊎ ((g : GovernedAction) × IsSafe g × Wrote g s s')

abbrev pub AllSafe : RuntimeStore → Type 0
AllSafe s = All IsSafe (values s.governed)

pub governed_action-IsSafe :
    (s : RuntimeStore) (workspace_id intent_id : String) (g : GovernedAction)
    → AllSafe s
    → governed_action s workspace_id intent_id ≡ ok g
    → IsSafe g
unfolding governed_action
governed_action-IsSafe s workspace_id intent_id g safe h =
    elim (Option-cases (lookup intent_id s.governed)) [
      | inl missing ↦ absurd (ground arith)
      | inr (o, found) ↦
          subst IsSafe (ground arith) (All-lookup IsSafe intent_id o s.governed safe found)
    ]

check_decision_same : (d e : ApprovalDecision) → check_decision d ≡ ok e → e ≡ d
unfolding check_decision
check_decision_same d e h = ground arith

-- Nobody has claimed an action that has no invocation.
pub unclaimed-IsGranted : (g : GovernedAction) → is_none g.invocation_id ≡ true → IsGranted g
unclaimed-IsGranted g h i e = absurd (ground arith)

-- Another decision on an action that nobody has claimed.
pub decided-Changed :
    (g u : GovernedAction) (d e : ApprovalDecision) (kind : EventType) (stamp : Stamp)
    (s s' : RuntimeStore)
    → IsSafe g
    → is_none g.invocation_id ≡ true
    → check_decision d ≡ ok e
    → record_change
        (record g { decisions = g.decisions ++ e ∷ []; version = next g.version })
        g.version
        kind
        stamp
        s
      ≡ ok (s', u)
    → Changed s s'
decided-Changed g u d e kind stamp s s' safe free checked h =
    let updated : GovernedAction = record g {
      decisions = g.decisions ++ e ∷ [];
      version = next g.version;
    } in
    let (accepted, wrote) = record_change-Wrote updated u g.version kind stamp s s' h in
    let same = check_decision_same d e checked in
    inr (
      updated,
      record {
        built = record {
          checked = accepted;
          decisions_checked =
              All-append (λ c. check_decision c ≡ ok c) g.decisions (e ∷ [])
                safe.built.decisions_checked
                (subst (λ c. check_decision c ≡ ok e) (sym same) checked, tt);
        };
        granted = unclaimed-IsGranted updated free;
      },
      wrote,
    )

module _ (s s' : RuntimeStore) (u : GovernedAction) (safe : AllSafe s) where
  pub decide-Changed :
      (workspace intent_id digest : String) (reviewer : ReviewerPrincipal) (kind : DecisionKind)
      (reason : String) (now decided : DateTime) (stamp : Stamp)
      → decide workspace intent_id digest reviewer kind reason now decided stamp s ≡ ok (s', u)
      → Changed s s'
  unfolding decide
  decide-Changed workspace intent_id digest reviewer kind reason now decided stamp h =
      elim (Result-cases (governed_action s workspace intent_id)) [
        | inr (error, e) ↦ absurd (ground arith)
        | inl (g, found) ↦ elim (Result-cases (approval_policy s workspace)) [
          | inr (error, e) ↦ absurd (ground arith)
          | inl (current, e) ↦ elim (Result-cases (required_policy current)) [
            | inr (error, e') ↦ absurd (ground arith)
            | inl (policy, e') ↦
                let d : ApprovalDecision = record {
                  intent_id = intent_id;
                  fingerprint = digest;
                  policy_version = policy.version;
                  kind = kind;
                  reviewer = some reviewer;
                  at = decided;
                  reason = reason;
                } in
                elim (Result-cases (check_decision d)) [
                  | inr (error, refused) ↦ absurd (ground arith)
                  | inl (d', checked) ↦
                      decided-Changed g u d d' (decision_event kind) stamp s s'
                        (governed_action-IsSafe s workspace intent_id g safe found)
                        (available-unclaimed g digest policy kind now (ground arith)) checked
                        (ground arith)
                ]
          ]
        ]
      ]
    where
      available-unclaimed :
          (g : GovernedAction) (digest : String) (policy : ApprovalPolicy) (kind : DecisionKind)
          (now : DateTime)
          → unavailable g digest policy kind now ≡ false
          → is_none g.invocation_id ≡ true
      available-unclaimed g digest policy kind now h = unfold unavailable in ground arith
