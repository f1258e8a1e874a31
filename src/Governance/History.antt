-- ===== src/Governance/History.antt =====
-- What stays of a governed action through every course of changes (agent_company_os/adapters/
-- runtime_store.py, `save_governed_action`).
use nebula_os.Prelude.{
  ◌≤◌, String, true, false, ◌≡◌, refl, sym, subst, ap, ◌∙◌, inl, inr, Bool-cases, Option-cases,
  some, List, [], ◌∷◌, length, lookup, lookup-insert, str_eq, eq_iff, arith,
}
use nebula_os.Governance.Action.{ActionIntent, ApprovalDecision, GovernedAction}
use nebula_os.Governance.Same.{same_intent, same_lineage, same_content}
use nebula_os.Governance.Records.{RuntimeStore, rewrites_history, changed_id, begins_with}
use nebula_os.Governance.Granted.{Changed, AllSafe}
use nebula_os.Governance.Authority.{
  Steps, here, then_step, Step-Changed, Steps-AllSafe, none-AllSafe,
}

-- What was to be done is the same: for the same run, with the same arguments and destination.
pub record IsSameDeed (a b : ActionIntent) : Type 0 where
  pub run : b.run_id ≡ a.run_id
  pub action : b.action_id ≡ a.action_id
  pub arguments : b.arguments_json ≡ a.arguments_json
  pub destination : b.destination ≡ a.destination
  pub fingerprint : b.fingerprint ≡ a.fingerprint

-- The later state of an action.
pub record Follows (g g' : GovernedAction) : Type 0 where
  pub deed : IsSameDeed g.intent g'.intent
  pub version : g.version ≤ g'.version
  pub decisions : length g.decisions ≤ length g'.decisions
  pub cancelled : g.cancelled ≡ true → g'.cancelled ≡ true
  pub consumed : g.consumed ≡ true → g'.consumed ≡ true
  pub invocation : (i : String) → g.invocation_id ≡ some i → g'.invocation_id ≡ some i

Follows-refl : (g : GovernedAction) → Follows g g
Follows-refl g = record {
  deed = record {
    run = refl;
    action = refl;
    arguments = refl;
    destination = refl;
    fingerprint = refl;
  };
  version = omega arith;
  decisions = omega arith;
  cancelled = λ h. h;
  consumed = λ h. h;
  invocation = λ i h. h;
}

Follows-trans : {f g h : GovernedAction} → Follows f g → Follows g h → Follows f h
Follows-trans a b = record {
  deed = record {
    run = b.deed.run ∙ a.deed.run;
    action = b.deed.action ∙ a.deed.action;
    arguments = b.deed.arguments ∙ a.deed.arguments;
    destination = b.deed.destination ∙ a.deed.destination;
    fingerprint = b.deed.fingerprint ∙ a.deed.fingerprint;
  };
  version = omega (arith, a.version, b.version);
  decisions = omega (arith, a.decisions, b.decisions);
  cancelled = λ h. b.cancelled (a.cancelled h);
  consumed = λ h. b.consumed (a.consumed h);
  invocation = λ i h. b.invocation i (a.invocation i h);
}

same_lineage-ids :
    (a b : ActionIntent)
    → same_lineage b a ≡ true
    → (b.run_id ≡ a.run_id) × (b.action_id ≡ a.action_id)
unfolding same_lineage
same_lineage-ids a b h =
    (ground (arith, eq_iff b.run_id a.run_id), ground (arith, eq_iff b.action_id a.action_id))

same_content-texts :
    (a b : ActionIntent)
    → same_content b a ≡ true
    → (b.arguments_json ≡ a.arguments_json)
      × (b.destination ≡ a.destination)
      × (b.fingerprint ≡ a.fingerprint)
unfolding same_content
same_content-texts a b h = (
  ground (arith, eq_iff b.arguments_json a.arguments_json),
  ground (arith, eq_iff b.destination a.destination),
  ground (arith, eq_iff b.fingerprint a.fingerprint),
)

same_intent-IsSameDeed : (a b : ActionIntent) → same_intent b a ≡ true → IsSameDeed a b
unfolding same_intent
same_intent-IsSameDeed a b h =
    let ids = same_lineage-ids a b (ground arith) in
    let texts = same_content-texts a b (ground arith) in
    record {
      run = ids.0;
      action = ids.1;
      arguments = texts.0;
      destination = texts.1;
      fingerprint = texts.2;
    }

begins_with-length :
    (os ds : List ApprovalDecision) → begins_with os ds ≡ true → length os ≤ length ds
begins_with-length [] ds h = omega arith
begins_with-length (o ∷ os) [] h = absurd (cc)
begins_with-length (o ∷ os) (d ∷ ds) h = ground (arith, begins_with-length os ds)

kept_invocation :
    (old g : GovernedAction) (i : String)
    → changed_id old.invocation_id g.invocation_id ≡ false
    → old.invocation_id ≡ some i
    → g.invocation_id ≡ some i
kept_invocation old g i kept e = elim (Option-cases g.invocation_id) [
  | inl free ↦ absurd (ground arith)
  | inr (j, held) ↦ ground (arith, eq_iff j i)
]

-- What the store accepts as a change follows what was there.
kept-Follows : (old g : GovernedAction) → rewrites_history old g ≡ false → Follows old g
unfolding rewrites_history
kept-Follows old g h = record {
  deed = same_intent-IsSameDeed old.intent g.intent (ground arith);
  version = ground arith;
  decisions = begins_with-length old.decisions g.decisions (ground arith);
  cancelled = λ e. ground arith;
  consumed = λ e. ground arith;
  invocation = λ i e. kept_invocation old g i (ground arith) e;
}

-- Under `k` a later state of `g` is stored.
abbrev pub HasLater : (k : String) → GovernedAction → RuntimeStore → Type 0
HasLater k g s = (g' : GovernedAction) × (lookup k s.governed ≡ some g') × Follows g g'

Changed-HasLater :
    (k : String) (g : GovernedAction) {s s' : RuntimeStore}
    → Changed s s'
    → HasLater k g s
    → HasLater k g s'
Changed-HasLater k g (inl same) (g', found, later) = (g', ap (lookup k) same ∙ found, later)
Changed-HasLater k g {s} {s'} (inr (u, fine, wrote)) (g', found, later) =
    elim (Bool-cases (str_eq u.intent.id k)) [
      | inl own ↦
          let same = (eq_iff u.intent.id k).0 own in
          (
            u,
            ap (lookup k) wrote.written ∙ ground (arith, lookup-insert u.intent.id k u s.governed),
            Follows-trans later (
                kept-Follows g' u
                  (wrote.kept g' (subst (λ j. lookup j s.governed ≡ some g') (sym same) found))),
          )
      | inr other ↦ (
        g',
        ap (lookup k) wrote.written ∙ ground (arith, lookup-insert u.intent.id k u s.governed),
        later,
      )
    ]

Steps-HasLater :
    (k : String) (g : GovernedAction) {s s' : RuntimeStore}
    → AllSafe s
    → Steps s s'
    → HasLater k g s
    → HasLater k g s'
Steps-HasLater k g safe here h = h
Steps-HasLater k g safe (then_step steps step) h =
    Changed-HasLater k g (Step-Changed (Steps-AllSafe safe steps) step)
      (Steps-HasLater k g safe steps h)

-- In a store that started without governed actions, an action stays stored for the same deed, and
-- what was decided, cancelled, claimed or consumed stays so.
pub Steps-Follows :
    (s t u : RuntimeStore)
    → s.governed ≡ []
    → Steps s t
    → (k : String) (g : GovernedAction) → lookup k t.governed ≡ some g
    → Steps t u
    → (g' : GovernedAction) × (lookup k u.governed ≡ some g') × Follows g g'
Steps-Follows s t u empty before k g found after =
    Steps-HasLater k g (Steps-AllSafe (none-AllSafe s empty) before) after
      (g, found, Follows-refl g)
