-- ===== src/Governance/Decided.antt =====
-- What the checks of `GovernedAction` (agent_company_os/domain/governance.py) make of its decisions.
use nebula_os.Prelude.{
  ◌<◌, ◌≤◌, true, false, ◌≡◌, refl, inl, inr, Option-cases, some, List, [], ◌∷◌, All, ap, length,
  eq_iff, arith,
}
use nebula_os.Domain.Errors.{ok}
use nebula_os.Governance.Policy.{ReviewerPrincipal, is_reviewer}
use nebula_os.Governance.Action.{
  is_approved, ApprovalDecision, check_decision, GovernedAction, check_action, misshapen,
  unbound_decision, unbound_decisions, out_of_turn,
}
use nebula_os.Governance.Review.{last_approved}

-- A value that the constructors have let through.
pub record IsBuilt (g : GovernedAction) : Type 0 where
  pub checked : check_action g ≡ ok g
  pub decisions_checked : All (λ d. check_decision d ≡ ok d) g.decisions

-- The only decision on the action approves it: for this intent and fingerprint, under its policy,
-- by one of the policy's reviewers, and before the intent expires.
pub record IsApproved (g : GovernedAction) (d : ApprovalDecision) : Type 0 where
  pub only : g.decisions ≡ d ∷ []
  pub approves : is_approved d.kind ≡ true
  pub for_intent : d.intent_id ≡ g.intent.id
  pub for_fingerprint : d.fingerprint ≡ g.intent.fingerprint
  pub under_policy : d.policy_version ≡ g.intent.policy.version
  pub in_time : d.at.instant < g.intent.expires_at.instant
  pub by_reviewer :
      (r : ReviewerPrincipal) × (d.reviewer ≡ some r)
      × (is_reviewer r g.intent.policy.reviewers ≡ true)

bound-IsApproved :
    (g : GovernedAction) (d : ApprovalDecision)
    → g.decisions ≡ d ∷ []
    → is_approved d.kind ≡ true
    → check_decision d ≡ ok d
    → unbound_decision g d ≡ false
    → IsApproved g d
unfolding unbound_decision check_decision
bound-IsApproved g d only approves built bound = record {
  only = only;
  approves = approves;
  for_intent = ground (arith, eq_iff d.intent_id g.intent.id);
  for_fingerprint = ground (arith, eq_iff d.fingerprint g.intent.fingerprint);
  under_policy = ground arith;
  in_time = ground arith;
  by_reviewer = elim (Option-cases d.reviewer) [
    | inl nobody ↦ absurd (ground arith)
    | inr (r, somebody) ↦ (r, somebody, ground arith)
  ];
}

-- What the checks have found.
pub check_action-passed :
    (g u : GovernedAction)
    → check_action g ≡ ok u
    → (u ≡ g) × (misshapen g ≡ false) × (unbound_decisions g g.decisions ≡ false)
unfolding check_action
check_action-passed g u h = (ground arith, ground arith, ground arith)

at_most_two : (g : GovernedAction) → misshapen g ≡ false → length g.decisions ≤ 2
unfolding misshapen
at_most_two g h = ground arith

-- A second decision does not approve.
second_approved : (d f : ApprovalDecision) → is_approved f.kind ≡ true → out_of_turn d f ≡ false → ⊥
second_approved d f h turn = ground arith

-- Where the last decision approves, it is the only one.
alone-IsApproved :
    (g : GovernedAction) (ds : List ApprovalDecision)
    → g.decisions ≡ ds
    → misshapen g ≡ false
    → unbound_decisions g ds ≡ false
    → All (λ d. check_decision d ≡ ok d) ds
    → last_approved ds ≡ true
    → (d : ApprovalDecision) × IsApproved g d
unfolding unbound_decisions misshapen
alone-IsApproved g [] e shape bound built h = absurd (cc)
alone-IsApproved g (d ∷ []) e shape bound built h =
    (d, bound-IsApproved g d e h built.0 (ground arith))
alone-IsApproved g (d ∷ f ∷ []) e shape bound built h =
    absurd (second_approved d f h (ground arith))
alone-IsApproved g (d ∷ f ∷ k ∷ ds) e shape bound built h =
    absurd (omega (arith, at_most_two g shape, ap length e))

pub last_approved-IsApproved :
    (g : GovernedAction)
    → IsBuilt g
    → last_approved g.decisions ≡ true
    → (d : ApprovalDecision) × IsApproved g d
last_approved-IsApproved g built h =
    let (same, shape, bound) = check_action-passed g g built.checked in
    alone-IsApproved g g.decisions refl shape bound built.decisions_checked h
