-- ===== src/Governance/Authority.antt =====
-- Every course of changes of the governed actions (agent_company_os/application/governance.py,
-- adapters/runtime_store.py), refused calls included: no action is claimed without its approval.
use nebula_os.Prelude.{
  String, ◌≡◌, sym, subst, ◌⊎◌, inl, inr, none, some, [], All, All-insert, All-lookup, lookup,
  values,
}
use nebula_os.Domain.Errors.{ok}
use nebula_os.Domain.Validation.{DateTime}
use nebula_os.Governance.Policy.{allow, ReviewerPrincipal}
use nebula_os.Governance.Action.{DecisionKind, ApprovalDecision, GovernedAction}
use nebula_os.Governance.Records.{RuntimeStore, save_governed_action}
use nebula_os.Governance.Log.{Stamp}
use nebula_os.Governance.Review.{decide, cancel, expire, claim, consumed}
use nebula_os.Governance.Decided.{IsBuilt, IsApproved}
use nebula_os.Governance.Written.{IsSafe}
use nebula_os.Governance.Granted.{Changed, AllSafe, decide-Changed}
use nebula_os.Governance.Claims.{cancel-Changed, expire-Changed, claim-Changed, save-Changed}
use nebula_os.Governance.Consumption.{consumed-Changed}

-- A step of the runtime store, as far as the governed actions are concerned.
pub data Step (s : RuntimeStore) : RuntimeStore → Type 0 where
  -- The rest of the runtime leaves them alone.
  elsewhere : {s' : RuntimeStore} → s'.governed ≡ s.governed → Step s s'
  prepared :
      {s' : RuntimeStore} (g : GovernedAction)
      → IsBuilt g
      → save_governed_action g none s ≡ ok s'
      → Step s s'
  decided :
      {s' : RuntimeStore} (workspace intent_id digest : String) (reviewer : ReviewerPrincipal)
      (kind : DecisionKind) (reason : String) (now at : DateTime) (stamp : Stamp)
      (g : GovernedAction)
      → decide workspace intent_id digest reviewer kind reason now at stamp s ≡ ok (s', g)
      → Step s s'
  cancelled :
      {s' : RuntimeStore} (workspace intent_id : String) (stamp : Stamp) (g : GovernedAction)
      → cancel workspace intent_id stamp s ≡ ok (s', g)
      → Step s s'
  expired :
      {s' : RuntimeStore} (workspace intent_id : String) (now at : DateTime) (stamp : Stamp)
      (g : GovernedAction)
      → expire workspace intent_id now at stamp s ≡ ok (s', g)
      → Step s s'
  -- The caller hands over an action that need not be the stored one.
  claimed :
      {s' : RuntimeStore} (g : GovernedAction) (invocation_id : String) (now : DateTime)
      (stamp : Stamp)
      → IsBuilt g
      → (claim g invocation_id now stamp s).1 ≡ s'
      → Step s s'
  consumed_by :
      {s' : RuntimeStore} (workspace invocation_id : String) (stamp : Stamp)
      → (consumed workspace invocation_id stamp s).1 ≡ s'
      → Step s s'

pub data Steps (s : RuntimeStore) : RuntimeStore → Type 0 where
  here : Steps s s
  then_step : {t u : RuntimeStore} → Steps s t → Step t u → Steps s u

pub Step-Changed : {s s' : RuntimeStore} → AllSafe s → Step s s' → Changed s s'
Step-Changed safe (elsewhere e) = inl e
Step-Changed {s} {s'} safe (prepared g built h) = save-Changed g s s' built h
Step-Changed {s} {s'} safe (decided w i digest r k reason now at stamp g h) =
    decide-Changed s s' g safe w i digest r k reason now at stamp h
Step-Changed {s} {s'} safe (cancelled w i stamp g h) = cancel-Changed s s' g safe w i stamp h
Step-Changed {s} {s'} safe (expired w i now at stamp g h) =
    expire-Changed s s' g safe w i now at stamp h
Step-Changed {s} safe (claimed g i now stamp built e) =
    subst (Changed s) e (claim-Changed g i now stamp s built)
Step-Changed {s} safe (consumed_by w i stamp e) =
    subst (Changed s) e (consumed-Changed w i stamp s safe)

Changed-AllSafe : {s s' : RuntimeStore} → AllSafe s → Changed s s' → AllSafe s'
Changed-AllSafe safe (inl same) = subst (λ d. All IsSafe (values d)) (sym same) safe
Changed-AllSafe {s} safe (inr (g, fine, wrote)) =
    subst (λ d. All IsSafe (values d)) (sym wrote.written)
      (All-insert IsSafe g.intent.id g s.governed safe fine)

pub Steps-AllSafe : {s s' : RuntimeStore} → AllSafe s → Steps s s' → AllSafe s'
Steps-AllSafe safe here = safe
Steps-AllSafe safe (then_step steps step) =
    let before = Steps-AllSafe safe steps in Changed-AllSafe before (Step-Changed before step)

pub none-AllSafe : (s : RuntimeStore) → s.governed ≡ [] → AllSafe s
unfolding values
none-AllSafe s empty = subst (λ d. All IsSafe (values d)) (sym empty) tt

-- Whatever is done to a store that had no governed actions, each claimed action is recorded as
-- allowed without an approval or carries exactly one decision, a timely approval of it by a reviewer
-- of its policy.
pub claimed-IsGranted :
    (s s' : RuntimeStore)
    → s.governed ≡ []
    → Steps s s'
    → (k : String) (g : GovernedAction) → lookup k s'.governed ≡ some g
    → (i : String) → g.invocation_id ≡ some i
    → (g.intent.effect ≡ allow) ⊎ ((d : ApprovalDecision) × IsApproved g d)
claimed-IsGranted s s' empty steps k g found =
    let safe = Steps-AllSafe (none-AllSafe s empty) steps in
    (All-lookup IsSafe k g s'.governed safe found).granted
