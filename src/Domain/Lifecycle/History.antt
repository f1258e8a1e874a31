-- ===== src/Domain/Lifecycle/History.antt =====
-- Laws of the histories of an entity, from the law of one operation.
use mathlib.Core.Path.{subst₃}
use nebula_os.Prelude.{
  ℕ, ◌+◌, ◌≤◌, String, ◌≡◌, refl, sym, ap, ◌∙◌, true, inl, inr, List, [], ◌∷◌, length, arith,
}
use nebula_os.Domain.Errors.{ok, Result-cases}
use nebula_os.Domain.Validation.{DateTime}
use nebula_os.Domain.Transitions.{StateTransition, TransitionResult}
use nebula_os.Domain.Lifecycle.Defs.{Lifecycle, Request, Moved, history, IsChain}

IsChain-cast :
    {i j s t : String} {v w : ℕ} (ts : List StateTransition) (s' : String) (v' : ℕ)
    → i ≡ j
    → s ≡ t
    → v ≡ w
    → IsChain i s v ts s' v'
    → IsChain j t w ts s' v'
IsChain-cast ts s' v' p q r c = subst₃ (λ i s v. IsChain i s v ts s' v') p q r c

module _ {E Op : Type 0} (l : Lifecycle E Op)
    (moved : (op : Op) (e : E) (id : String) (at : DateTime) (r : TransitionResult E)
      → l.apply op e id at ≡ ok r
      → Moved l e at r) where
  -- The record of a history is a chain without a gap, and ends at the entity.
  pub history-IsChain :
      (qs : List (Request Op)) (e : E)
      → IsChain
          (l.id e)
          (l.status_value e)
          (l.version e)
          (history l qs e).1
          (l.status_value (history l qs e).0)
          (l.version (history l qs e).0)
  unfolding history
  history-IsChain [] e = (refl, refl)
  history-IsChain (q ∷ qs) e = elim (Result-cases (l.apply q.op e q.transition_id q.at)) [
    | inl (r, h) ↦
        let m = moved q.op e q.transition_id q.at r h in
        rw (h, history)
          (
            m.subject,
            m.previous,
            m.from_version,
            m.to_version ∙ m.next_version,
            IsChain-cast (history l qs r.entity).1 _ _ m.same_id (sym m.new) (sym m.to_version)
                (history-IsChain qs r.entity),
          )
    | inr (x, h) ↦ rw (h, history) (history-IsChain qs e)
  ]

  -- The version counts the accepted operations.
  pub version-history :
      (qs : List (Request Op)) (e : E)
      → l.version (history l qs e).0 ≡ l.version e + length (history l qs e).1
  unfolding history
  version-history [] e = omega arith
  version-history (q ∷ qs) e = elim (Result-cases (l.apply q.op e q.transition_id q.at)) [
    | inl (r, h) ↦
        let m = moved q.op e q.transition_id q.at r h in
        rw (h, history) (omega (arith, version-history qs r.entity, m.next_version))
    | inr (x, h) ↦ rw (h, history) (version-history qs e)
  ]

  -- The time of the last change never falls.
  pub updated_at-le-history :
      (qs : List (Request Op)) (e : E)
      → (l.updated_at e).instant ≤ (l.updated_at (history l qs e).0).instant
  unfolding history
  updated_at-le-history [] e = omega arith
  updated_at-le-history (q ∷ qs) e = elim (Result-cases (l.apply q.op e q.transition_id q.at)) [
    | inl (r, h) ↦
        let m = moved q.op e q.transition_id q.at r h in
        rw (h, history)
          (omega (arith, updated_at-le-history qs r.entity, m.later, ap (λ d. d.instant) m.stamped))
    | inr (x, h) ↦ rw (h, history) (updated_at-le-history qs e)
  ]

  -- An entity whose status is terminal refuses every request.
  pub history-terminal :
      (qs : List (Request Op)) (e : E) → l.is_terminal e ≡ true → history l qs e ≡ (e, [])
  unfolding history
  history-terminal [] e t = refl
  history-terminal (q ∷ qs) e t = elim (Result-cases (l.apply q.op e q.transition_id q.at)) [
    | inl (r, h) ↦ absurd (cc (moved q.op e q.transition_id q.at r h).was_open)
    | inr (x, h) ↦ rw (h, history) (history-terminal qs e t)
  ]
