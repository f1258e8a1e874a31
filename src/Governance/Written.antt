-- ===== src/Governance/Written.antt =====
-- What a change of an action (agent_company_os/application/governance.py) has checked and written.
use nebula_os.Prelude.{
  String, false, ◌≡◌, subst, ◌∙◌, ◌⊎◌, inl, inr, Option, none, some, lookup, insert, arith,
}
use nebula_os.Domain.Errors.{ok, Result-cases}
use nebula_os.Domain.Validation.{Version}
use nebula_os.Domain.Events.{Event, EventType, check_event}
use nebula_os.Governance.Policy.{allow}
use nebula_os.Governance.Action.{ApprovalDecision, GovernedAction, check_action}
use nebula_os.Governance.Records.{
  RuntimeStore, check_record, not_initial, rewrites_history, save_governed_action, get_run,
}
use nebula_os.Governance.Log.{event, event_of, append_event, Stamp}
use nebula_os.Governance.Review.{record_change, save_and_log}
use nebula_os.Governance.Decided.{IsBuilt, IsApproved, check_action-passed}

-- A claimed action is allowed by the policy as it is, or approved.
abbrev pub IsGranted : GovernedAction → Type 0
IsGranted g =
    (i : String)
    → g.invocation_id ≡ some i
    → (g.intent.effect ≡ allow) ⊎ ((d : ApprovalDecision) × IsApproved g d)

pub record IsSafe (g : GovernedAction) : Type 0 where
  pub built : IsBuilt g
  pub granted : IsGranted g

-- One of the actions was written, and nothing of its history was changed by that.
pub record Wrote (g : GovernedAction) (s s' : RuntimeStore) : Type 0 where
  pub written : s'.governed ≡ insert g.intent.id g s.governed
  pub kept :
      (old : GovernedAction)
      → lookup g.intent.id s.governed ≡ some old
      → rewrites_history old g ≡ false

append_event-governed :
    (e : Event) (s s' : RuntimeStore) → append_event e s ≡ ok s' → s'.governed ≡ s.governed
unfolding append_event
append_event-governed e s s' h = ground arith

event-governed :
    (g : GovernedAction) (kind : EventType) (stamp : Stamp) (s s' : RuntimeStore)
    → event g kind stamp s ≡ ok s'
    → s'.governed ≡ s.governed
unfolding event
event-governed g kind stamp s s' h =
    elim (Result-cases (get_run s g.intent.workspace_id g.intent.run_id)) [
      | inr (error, missing) ↦ absurd (ground arith)
      | inl (run, found) ↦ elim (Result-cases (check_event (event_of g kind stamp run))) [
        | inr (error, refused) ↦ absurd (ground arith)
        | inl (e, made) ↦ append_event-governed e s s' (ground arith)
      ]
    ]

pub save-Wrote :
    (g : GovernedAction) (expected : Option Version) (s s' : RuntimeStore)
    → save_governed_action g expected s ≡ ok s'
    → Wrote g s s'
unfolding save_governed_action check_record
save-Wrote g expected s s' h = record { written = ground arith; kept = λ old found. ground arith }

-- A first save is of an action that nobody has claimed.
pub save-initial :
    (g : GovernedAction) (s s' : RuntimeStore)
    → save_governed_action g none s ≡ ok s'
    → g.invocation_id ≡ none
unfolding save_governed_action check_record not_initial
save-initial g s s' h = ground arith

-- A change that is logged after it was saved.
logged-Wrote :
    (g : GovernedAction) (expected : Option Version) (kind : EventType) (stamp : Stamp)
    (s t s' : RuntimeStore)
    → save_governed_action g expected s ≡ ok t
    → event g kind stamp t ≡ ok s'
    → Wrote g s s'
logged-Wrote g expected kind stamp s t s' saved logged =
    let w = save-Wrote g expected s t saved in
    record { written = event-governed g kind stamp t s' logged ∙ w.written; kept = w.kept }

-- The change of a stored action: it was checked, and it is what was written.
pub record_change-Wrote :
    (g u : GovernedAction) (expected : Version) (kind : EventType) (stamp : Stamp)
    (s s' : RuntimeStore)
    → record_change g expected kind stamp s ≡ ok (s', u)
    → (check_action g ≡ ok g) × Wrote g s s'
unfolding record_change
record_change-Wrote g u expected kind stamp s s' h = elim (Result-cases (check_action g)) [
  | inr (error, refused) ↦ absurd (ground arith)
  | inl (g', checked) ↦
      let same = (check_action-passed g g' checked).0 in
      let checked' = subst (λ x. check_action g ≡ ok x) same checked in
      elim (Result-cases (save_governed_action g (some expected) s)) [
        | inr (error, refused) ↦ absurd (ground arith)
        | inl (t, saved) ↦ elim (Result-cases (event g kind stamp t)) [
          | inr (error, refused) ↦ absurd (ground arith)
          | inl (t', logged) ↦ (
            checked',
            subst (Wrote g s) (ground arith)
                (logged-Wrote g (some expected) kind stamp s t t' saved logged),
          )
        ]
      ]
]

-- Either nothing was written, or a checked action.
abbrev pub Tried : GovernedAction → RuntimeStore → RuntimeStore → Type 0
Tried g s s' = (s'.governed ≡ s.governed) ⊎ ((check_action g ≡ ok g) × Wrote g s s')

-- Where the event is refused, what was saved stays.
pub save_and_log-Tried :
    (g : GovernedAction) (expected : Version) (kind : EventType) (stamp : Stamp) (s : RuntimeStore)
    → Tried g s (save_and_log g expected kind stamp s).1
unfolding save_and_log
save_and_log-Tried g expected kind stamp s = elim (Result-cases (check_action g)) [
  | inr (error, refused) ↦ inl (ground arith)
  | inl (g', checked) ↦
      let same = (check_action-passed g g' checked).0 in
      let checked' = subst (λ x. check_action g ≡ ok x) same checked in
      elim (Result-cases (save_governed_action g (some expected) s)) [
        | inr (error, refused) ↦ inl (ground arith)
        | inl (t, saved) ↦ elim (Result-cases (event g kind stamp t)) [
          | inr (error, refused) ↦
              inr (
                checked',
                subst (Wrote g s) (ground arith) (save-Wrote g (some expected) s t saved),
              )
          | inl (t', logged) ↦ inr (
            checked',
            subst (Wrote g s) (ground arith)
                (logged-Wrote g (some expected) kind stamp s t t' saved logged),
          )
        ]
      ]
]
