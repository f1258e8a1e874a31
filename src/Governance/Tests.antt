-- ===== src/Governance/Tests.antt =====
-- A message that needs an approval: prepared, approved and claimed
-- (agent_company_os/application/governance.py).
use nebula_os.Prelude.{◌≡◌, ◌⊎◌, refl, none, some, lookup, insert, values}
use nebula_os.Domain.Errors.{ok}
use nebula_os.Domain.Validation.{require_utc, clean_required_text, strip}
use nebula_os.Domain.Events.{check_event}
use nebula_os.Governance.Tools.{same_tool}
use nebula_os.Governance.Policy.{allow, same_policy}
use nebula_os.Governance.Action.{
  ApprovalDecision, DecisionKind, GovernedAction, check_action, check_decision,
}
use nebula_os.Governance.Same.{
  same_intent, same_lineage, same_content, same_request?, same_decision,
}
use nebula_os.Governance.Records.{
  save_governed_action, check_lineage, check_record, get_run, get_action, not_initial,
  rewrites_history, governed_action, governed_actions, approval_policy,
}
use nebula_os.Governance.Log.{append_event, event, decimal}
use nebula_os.Governance.Review.{
  decide, claim, allowed, unauthorized, unavailable, record_change, save_and_log,
}
use nebula_os.Governance.Decided.{IsBuilt, IsApproved}
use nebula_os.Governance.Authority.{Step, Steps, claimed-IsGranted}
use nebula_os.Governance.History.{Follows, Steps-Follows}
use nebula_os.Governance.Example.{
  at, reviewer, message, approved_message, claimed_message, runtime, stamp, prepared_store,
  approved_store, claimed_store,
}

approved_message-IsBuilt : IsBuilt approved_message
unfolding check_action check_decision require_utc
approved_message-IsBuilt = record { checked = refl; decisions_checked = (refl, tt) }

claimed_message-IsBuilt : IsBuilt claimed_message
unfolding check_action check_decision require_utc
claimed_message-IsBuilt = record { checked = refl; decisions_checked = (refl, tt) }

message-IsBuilt : IsBuilt message
unfolding check_action
message-IsBuilt = record { checked = refl; decisions_checked = tt }

message_saved : save_governed_action message none runtime ≡ ok prepared_store
unfolding save_governed_action check_lineage check_record get_run get_action governed_actions
    not_initial lookup insert values
message_saved = refl

message_decided :
    decide "w" "intent" "abc" reviewer DecisionKind.approved ""
      (at 1)
      (at 2)
      (stamp "d")
      prepared_store
    ≡ ok (approved_store, approved_message)
unfolding decide record_change save_governed_action check_lineage check_record get_run get_action
    governed_actions not_initial lookup insert values governed_action approval_policy unauthorized
    unavailable check_decision require_utc check_action event append_event check_event
    clean_required_text decimal rewrites_history same_intent same_lineage same_content same_request?
    same_decision same_tool same_policy strip
message_decided = refl

message_claimed :
    (claim approved_message "call" (at 4) (stamp "e") approved_store).1 ≡ claimed_store
unfolding claim allowed save_and_log save_governed_action check_lineage check_record get_run
    get_action lookup insert values require_utc check_action event append_event check_event
    clean_required_text decimal rewrites_history same_intent same_lineage same_content same_request?
    same_decision same_tool same_policy strip
message_claimed = refl

to_approval : Steps runtime approved_store
to_approval =
    Steps.then_step
      (Steps.then_step Steps.here (Step.prepared message message-IsBuilt message_saved))
      (Step.decided "w" "intent" "abc" reviewer DecisionKind.approved "" (at 1) (at 2) (stamp "d")
        approved_message message_decided)

to_claim : Steps runtime claimed_store
to_claim = Steps.then_step to_approval (
    Step.claimed approved_message "call" (at 4) (stamp "e") approved_message-IsBuilt
      message_claimed)

-- Another claim of the same action is refused, and leaves the store as it is.
second_claim : (claim claimed_message "again" (at 5) (stamp "f") claimed_store).1 ≡ claimed_store
unfolding claim allowed
second_claim = refl

claimed-IsGranted_example :
    (claimed_message.intent.effect ≡ allow)
    ⊎ ((d : ApprovalDecision) × IsApproved claimed_message d)
unfolding lookup
claimed-IsGranted_example =
    claimed-IsGranted runtime claimed_store refl to_claim "intent" claimed_message refl "call" refl

Steps-Follows_example :
    (g' : GovernedAction) × (lookup "intent" claimed_store.governed ≡ some g')
    × Follows approved_message g'
unfolding lookup
Steps-Follows_example =
    Steps-Follows runtime approved_store claimed_store refl to_approval "intent" approved_message
      refl
      (Steps.then_step Steps.here (
        Step.claimed approved_message "call" (at 4) (stamp "e") approved_message-IsBuilt
          message_claimed))
