-- ===== src/Governance/Consumption.antt =====
-- `consumed` (agent_company_os/application/governance.py) changes neither the claim nor the decisions.
use nebula_os.Prelude.{
  String, true, false, ◌≡◌, refl, subst, inl, inr, Bool-cases, Option, none, some, List, [], ◌∷◌,
  All, All-keep, values, arith, ◌&&◌, if◌then◌else◌,
}
use nebula_os.Domain.Errors.{Result, ok, err, Result-cases, ◌>>=◌}
use nebula_os.Domain.Validation.{next}
use nebula_os.Domain.Events.{EventType}
use nebula_os.Governance.Action.{GovernedAction, check_action, is_none}
use nebula_os.Governance.Records.{RuntimeStore, governed_actions, of_workspace}
use nebula_os.Governance.Log.{Stamp}
use nebula_os.Governance.Review.{find_invoked, invoked_by, consume_found, consumed, save_and_log}
use nebula_os.Governance.Written.{IsSafe, save_and_log-Tried}
use nebula_os.Governance.Granted.{Changed, AllSafe}
use nebula_os.Governance.Claims.{Tried-Changed}

find_invoked-IsSafe :
    (i : String) (gs : List GovernedAction) (g : GovernedAction)
    → All IsSafe gs
    → find_invoked i gs ≡ some g
    → IsSafe g
unfolding find_invoked
find_invoked-IsSafe i [] g safe h = absurd (cc)
find_invoked-IsSafe i (o ∷ gs) g safe h = elim (Bool-cases (invoked_by i o.invocation_id)) [
  | inl own ↦ subst IsSafe (ground arith) safe.0
  | inr other ↦ find_invoked-IsSafe i gs g safe.1 (ground arith)
]

consumed-IsSafe :
    (g : GovernedAction)
    → IsSafe g
    → check_action (record g { consumed = true; version = next g.version })
      ≡ ok (record g { consumed = true; version = next g.version })
    → IsSafe (record g { consumed = true; version = next g.version })
consumed-IsSafe g old accepted = record {
  built = record { checked = accepted; decisions_checked = old.built.decisions_checked };
  granted = λ i claimed. elim (old.granted i claimed) [
    | inl free ↦ inl free
    | inr (d, a) ↦ inr (
      d,
      record {
        only = a.only;
        approves = a.approves;
        for_intent = a.for_intent;
        for_fingerprint = a.for_fingerprint;
        under_policy = a.under_policy;
        in_time = a.in_time;
        by_reviewer = a.by_reviewer;
      },
    )
  ];
}

governed_actions-IsSafe :
    (s : RuntimeStore) (workspace : String) (gs : List GovernedAction)
    → AllSafe s
    → governed_actions s workspace ≡ ok gs
    → All IsSafe gs
unfolding governed_actions
governed_actions-IsSafe s workspace gs safe h =
    subst (All IsSafe) (ground arith)
      (All-keep IsSafe (of_workspace workspace) (values s.governed) safe)

-- Consumption changes neither the claim nor the decisions.
consume_found-Changed :
    (stamp : Stamp) (s : RuntimeStore) (r : Result (Option GovernedAction))
    → ((g : GovernedAction) → r ≡ ok (some g) → IsSafe g)
    → Changed s (consume_found stamp s r).1
unfolding consume_found
consume_found-Changed stamp s (err e) safe = inl refl
consume_found-Changed stamp s (ok none) safe = inl refl
consume_found-Changed stamp s (ok (some g)) safe =
    let updated : GovernedAction = record g { consumed = true; version = next g.version } in
    elim (Bool-cases
      ((if is_none g.request then false else true) && (if g.consumed then false else true))) [
        | inr idle ↦ rw idle (inl refl)
        | inl due ↦ rw due (
            Tried-Changed updated s
              (save_and_log updated g.version EventType.approval_consumed stamp s).1
              (save_and_log-Tried updated g.version EventType.approval_consumed stamp s)
              (consumed-IsSafe g (safe g refl)))
      ]

pub consumed-Changed :
    (workspace invocation_id : String) (stamp : Stamp) (s : RuntimeStore)
    → AllSafe s
    → Changed s (consumed workspace invocation_id stamp s).1
unfolding consumed governed_actions
consumed-Changed workspace invocation_id stamp s safe =
    consume_found-Changed stamp s
      (governed_actions s workspace >>= λ gs. ok (find_invoked invocation_id gs))
      (λ g found. elim (Result-cases (governed_actions s workspace)) [
        | inr (error, e) ↦ absurd (ground arith)
        | inl (gs, e) ↦
            find_invoked-IsSafe invocation_id gs g (governed_actions-IsSafe s workspace gs safe e)
              (ground arith)
      ])
