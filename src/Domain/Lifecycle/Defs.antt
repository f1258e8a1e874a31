-- ===== src/Domain/Lifecycle/Defs.antt =====
-- Histories of an entity of agent_company_os/domain: requests in any order, the refused ones dropped.
use nebula_os.Prelude.{◌+◌, String, ◌≡◌, ◌≤◌, Bool, false, List, [], ◌∷◌}
use nebula_os.Domain.Errors.{Result, ok, err}
use nebula_os.Domain.Validation.{DateTime, Version}
use nebula_os.Domain.Transitions.{StateTransition, TransitionResult}

pub record Lifecycle (E Op : Type 0) : Type 0 where
  pub id : E → String
  pub version : E → Version
  pub status_value : E → String
  pub updated_at : E → DateTime
  pub is_terminal : E → Bool
  pub apply : Op → E → String → DateTime → Result (TransitionResult E)

pub record Request (Op : Type 0) : Type 0 where
  pub op : Op
  pub transition_id : String
  pub at : DateTime

module _ {E Op : Type 0} (l : Lifecycle E Op) where
  -- What an accepted operation does to an entity, and what it records.
  pub record Moved (e : E) (at : DateTime) (r : TransitionResult E) : Type 0 where
    pub was_open : l.is_terminal e ≡ false
    pub next_version : l.version r.entity ≡ l.version e + 1
    pub stamped : l.updated_at r.entity ≡ at
    pub later : (l.updated_at e).instant ≤ at.instant
    pub same_id : l.id r.entity ≡ l.id e
    pub subject : r.transition.subject_id ≡ l.id e
    pub previous : r.transition.previous_status ≡ l.status_value e
    pub new : r.transition.new_status ≡ l.status_value r.entity
    pub from_version : r.transition.from_version ≡ l.version e
    pub to_version : r.transition.to_version ≡ l.version r.entity

  -- The entity after the requests, and the transitions that they recorded, oldest first.
  unfoldable pub history : List (Request Op) → E → E × List StateTransition
  history [] e = (e, [])
  history (q ∷ qs) e = elim (l.apply q.op e q.transition_id q.at) [
    | ok r ↦ ((history qs r.entity).0, r.transition ∷ (history qs r.entity).1)
    | err x ↦ history qs e
  ]

-- The transitions lead from one status and version to another, one version at a time and without
-- a gap, and all concern one entity.
abbrev pub IsChain :
    (id from_status : String)
    → Version
    → List StateTransition
    → (to_status : String) → Version
    → Type 0
IsChain id s v [] s' v' = (s ≡ s') × (v ≡ v')
IsChain id s v (t ∷ ts) s' v' =
    (t.subject_id ≡ id)
    × (t.previous_status ≡ s)
    × (t.from_version ≡ v)
    × (t.to_version ≡ v + 1)
    × IsChain id t.new_status t.to_version ts s' v'
