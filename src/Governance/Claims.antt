-- ===== src/Governance/Claims.antt =====
-- The other methods of `GovernanceService` (agent_company_os/application/governance.py): cancellation,
-- expiry, claiming, and the first save of an action.
use nebula_os.Prelude.{
  String, true, ◌≡◌, refl, ◌⊎◌, inl, inr, Bool-cases, none, some, str_eq, arith,
}
use nebula_os.Domain.Errors.{ok, Result-cases}
use nebula_os.Domain.Validation.{DateTime, next}
use nebula_os.Domain.Events.{EventType}
use nebula_os.Governance.Policy.{ApprovalEffect, deny, required, allow, effect_value}
use nebula_os.Governance.Action.{
  DecisionKind, ApprovalDecision, check_decision, GovernedAction, check_action, is_none,
}
use nebula_os.Governance.Records.{RuntimeStore, governed_action, save_governed_action}
use nebula_os.Governance.Log.{Stamp}
use nebula_os.Governance.Review.{
  last_approved, allowed, cancel, expire, expire_now, expires, claim, save_and_log,
}
use nebula_os.Governance.Decided.{IsBuilt, last_approved-IsApproved}
use nebula_os.Governance.Written.{
  IsSafe, Tried, save-Wrote, save-initial, record_change-Wrote, save_and_log-Tried,
}
use nebula_os.Governance.Granted.{
  Changed, AllSafe, governed_action-IsSafe, unclaimed-IsGranted, decided-Changed,
}

module _ (s s' : RuntimeStore) (u : GovernedAction) (safe : AllSafe s) where
  pub cancel-Changed :
      (workspace intent_id : String) (stamp : Stamp)
      → cancel workspace intent_id stamp s ≡ ok (s', u)
      → Changed s s'
  unfolding cancel
  cancel-Changed workspace intent_id stamp h =
      elim (Result-cases (governed_action s workspace intent_id)) [
        | inr (error, e) ↦ absurd (ground arith)
        | inl (g, found) ↦
            let old = governed_action-IsSafe s workspace intent_id g safe found in
            let updated : GovernedAction = record g {
              cancelled = true;
              version = next g.version;
            } in
            let (accepted, wrote) =
              record_change-Wrote updated u g.version EventType.action_intent_cancelled stamp s s'
                (ground arith) in
            inr (
              updated,
              record {
                built = record {
                  checked = accepted;
                  decisions_checked = old.built.decisions_checked;
                };
                granted = unclaimed-IsGranted updated (ground arith);
              },
              wrote,
            )
      ]

  pub expire-Changed :
      (workspace intent_id : String) (now decided : DateTime) (stamp : Stamp)
      → expire workspace intent_id now decided stamp s ≡ ok (s', u)
      → Changed s s'
  unfolding expire expire_now
  expire-Changed workspace intent_id now decided stamp h =
      elim (Result-cases (governed_action s workspace intent_id)) [
        | inr (error, e) ↦ absurd (ground arith)
        | inl (g, found) ↦ elim (Bool-cases (expires g now)) [
          | inr not_yet ↦ inl (ground arith)
          | inl due ↦
              let d : ApprovalDecision = record {
                intent_id = intent_id;
                fingerprint = g.intent.fingerprint;
                policy_version = g.intent.policy.version;
                kind = DecisionKind.expired;
                reviewer = none;
                at = decided;
                reason = "";
              } in
              elim (Result-cases (check_decision d)) [
                | inr (error, refused) ↦ absurd (ground arith)
                | inl (d', checked) ↦
                    decided-Changed g u d d' EventType.approval_expired stamp s s'
                      (governed_action-IsSafe s workspace intent_id g safe found)
                      (expires-unclaimed g now due) checked (ground arith)
              ]
        ]
      ]
    where
      expires-unclaimed :
          (g : GovernedAction) (now : DateTime)
          → expires g now ≡ true
          → is_none g.invocation_id ≡ true
      expires-unclaimed g now h = unfold expires in ground arith

-- A change that was tried is one of a safe action, if what was to be written is safe.
pub Tried-Changed :
    (g : GovernedAction) (s s' : RuntimeStore)
    → Tried g s s'
    → (check_action g ≡ ok g → IsSafe g)
    → Changed s s'
Tried-Changed g s s' (inl nothing) k = inl nothing
Tried-Changed g s s' (inr (accepted, wrote)) k = inr (g, k accepted, wrote)

allow-effect :
    (e : ApprovalEffect) → str_eq (effect_value e) "allowed_without_approval" ≡ true → e ≡ allow
allow-effect deny h = absurd (cc)
allow-effect required h = absurd (cc)
allow-effect allow h = refl

-- An action may be claimed only if the policy allows it or its last decision approves it.
allowed-cases :
    (g : GovernedAction) (now : DateTime)
    → allowed g now ≡ true
    → (g.intent.effect ≡ allow) ⊎ (last_approved g.decisions ≡ true)
unfolding allowed
allowed-cases g now h =
    elim (Bool-cases (str_eq (effect_value g.intent.effect) "allowed_without_approval")) [
      | inl free ↦ inl (allow-effect g.intent.effect free)
      | inr other ↦ inr (ground arith)
    ]

pub claim-Changed :
    (g : GovernedAction) (invocation_id : String) (now : DateTime) (stamp : Stamp)
    (s : RuntimeStore)
    → IsBuilt g
    → Changed s (claim g invocation_id now stamp s).1
unfolding claim
claim-Changed g invocation_id now stamp s built = elim (Bool-cases (allowed g now)) [
  | inr refused ↦ rw refused (inl refl)
  | inl may ↦
      let updated : GovernedAction = record g {
        invocation_id = some invocation_id;
        version = next g.version;
      } in
      rw may (
        Tried-Changed updated s
          (save_and_log updated g.version EventType.action_execution_authorized stamp s).1
          (save_and_log-Tried updated g.version EventType.action_execution_authorized stamp s)
          (λ accepted.
            let rebuilt : IsBuilt updated = record {
              checked = accepted;
              decisions_checked = built.decisions_checked;
            } in
            record {
              built = rebuilt;
              granted = λ i claimed. elim (allowed-cases g now may) [
                | inl free ↦ inl free
                | inr approved ↦ inr (last_approved-IsApproved updated rebuilt approved)
              ];
            }))
]

-- The first save of an action.
pub save-Changed :
    (g : GovernedAction) (s s' : RuntimeStore)
    → IsBuilt g
    → save_governed_action g none s ≡ ok s'
    → Changed s s'
save-Changed g s s' built h = inr (
  g,
  record { built = built; granted = unclaimed-IsGranted g (ground (arith, save-initial g s s' h)) },
  save-Wrote g none s s' h,
)
