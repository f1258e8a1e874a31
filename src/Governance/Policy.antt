-- ===== src/Governance/Policy.antt =====
-- Approval policies (agent_company_os/domain/governance.py): their bounds, and what they say of an
-- action. `isinstance` tests on values that the types fix are left out.
use nebula_os.Prelude.{
  ℕ, String, Bool, true, false, ◌&&◌, ◌||◌, List, [], ◌∷◌, ltb, leb, ◌==◌, str_eq, same_bool, any,
  length, mem_text, texts_eq, if◌then◌else◌,
}
use nebula_os.Domain.Errors.{Result, ok, invariant_violation, raise_if, ◌>>◌}
use nebula_os.Domain.Validation.{Version, strip, is_empty}
use nebula_os.Planning.Plan.{text_length}
use nebula_os.Governance.Tools.{
  ToolGrant, ToolVersion, grant, same_grant, executor_value, risk_value,
}

pub data ApprovalEffect : Type 0 where
  deny required allow : ApprovalEffect

abbrev pub effect_value : ApprovalEffect → String
effect_value deny = "deny"
effect_value required = "approval_required"
effect_value allow = "allowed_without_approval"

pub record ReviewerPrincipal : Type 0 where
  pub id : String
  pub workspace_id : String

abbrev pub same_reviewer : ReviewerPrincipal → ReviewerPrincipal → Bool
same_reviewer a b = str_eq a.id b.id && str_eq a.workspace_id b.workspace_id

-- `reviewer in reviewers`
abbrev pub is_reviewer : ReviewerPrincipal → List ReviewerPrincipal → Bool
is_reviewer r rs = any (same_reviewer r) rs

abbrev pub distinct_reviewers : List ReviewerPrincipal → Bool
distinct_reviewers [] = true
distinct_reviewers (r ∷ rs) = (if is_reviewer r rs then false else true) && distinct_reviewers rs

-- `ReviewerPrincipal.__post_init__`
unfoldable pub check_reviewer : ReviewerPrincipal → Result ReviewerPrincipal
check_reviewer r = do
  raise_if (ltb 128 (text_length r.id)) (invariant_violation "reviewer_principal_schema")
  ok r

pub record ApprovalPolicy : Type 0 where
  pub workspace_id : String
  pub version : Version
  pub tools : List ToolGrant
  pub destinations : List String
  pub reviewers : List ReviewerPrincipal
  pub bounded_execute : Bool
  pub enabled : Bool
  pub expiry_seconds : ℕ

-- `ApprovalPolicy.__post_init__`
unfoldable pub check_policy : ApprovalPolicy → Result ApprovalPolicy
check_policy p = do
  raise_if
      ((if leb 1 p.expiry_seconds && leb p.expiry_seconds 300 then false else true)
        || ltb 3 (length p.tools)
        || ltb 10 (length p.destinations)
        || ltb 10 (length p.reviewers)
        || any (λ r. if str_eq r.workspace_id p.workspace_id then false else true) p.reviewers
        || any (λ d. is_empty (strip d) || ltb 128 (text_length d)) p.destinations
        || (if distinct_reviewers p.reviewers then false else true))
      (invariant_violation "approval_policy_bounds")
  ok p

-- `ApprovalPolicy.evaluate`
unfoldable pub evaluate :
    ApprovalPolicy → (autonomy : ℕ) → ToolVersion → (destination : String) → ApprovalEffect
evaluate p autonomy tool destination =
    if ((if p.enabled then false else true)
      || (if str_eq tool.definition.workspace_id p.workspace_id then false else true)
      || (if any (same_grant (grant tool)) p.tools then false else true)
      || (if mem_text destination p.destinations then false else true)
      || (if str_eq (executor_value tool.executor_kind) "send_fixture_message" then false else true)
      || (if str_eq (risk_value tool.definition.risk) "external_write" then false else true)
      || (if autonomy == 2 || autonomy == 3 then false else true))
    then deny
    else if autonomy == 3 && p.bounded_execute
    then allow
    else required

abbrev pub same_grants : List ToolGrant → List ToolGrant → Bool
same_grants [] [] = true
same_grants [] (b ∷ bs) = false
same_grants (a ∷ as') [] = false
same_grants (a ∷ as') (b ∷ bs) = same_grant a b && same_grants as' bs

abbrev pub same_reviewers : List ReviewerPrincipal → List ReviewerPrincipal → Bool
same_reviewers [] [] = true
same_reviewers [] (b ∷ bs) = false
same_reviewers (a ∷ as') [] = false
same_reviewers (a ∷ as') (b ∷ bs) = same_reviewer a b && same_reviewers as' bs

-- `a == b`
unfoldable pub same_policy : ApprovalPolicy → ApprovalPolicy → Bool
same_policy a b =
    str_eq a.workspace_id b.workspace_id
    && a.version == b.version
    && same_grants a.tools b.tools
    && texts_eq a.destinations b.destinations
    && same_reviewers a.reviewers b.reviewers
    && same_bool a.bounded_execute b.bounded_execute
    && same_bool a.enabled b.enabled
    && a.expiry_seconds == b.expiry_seconds
