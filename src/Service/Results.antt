-- ===== src/Service/Results.antt =====
-- What a command of `DomainService` (agent_company_os/application/service.py) has checked and done when
-- it returns.
use nebula_os.Prelude.{String, ◌≢◌, ◌+◌, ◌≡◌, inl, inr, arith}
use nebula_os.Domain.Errors.{Result, ok, err, version_conflict, Result-cases}
use nebula_os.Domain.Validation.{DateTime, Version}
use nebula_os.Domain.Transitions.{TransitionResult}
use nebula_os.Domain.Events.{EventType}
use nebula_os.Store.Kinds.{Kind}
use nebula_os.Store.Ops.{Store, save}
use nebula_os.Service.Session.{
  Ports, Session, Command, settle, transaction, write, read_clock, draw, query, ◌>>=◌,
}
use nebula_os.Service.Common.{change, save_result, audit_event, expect_version}

-- A transaction returns what its block returns.
pub transaction-returned :
    {A : Type 0} (m : Command A) (s : Session) (a : A) → (transaction m s).0 ≡ ok a → (m s).0 ≡ ok a
unfolding transaction
transaction-returned m s a h = settled s.store (m s) h
  where
    settled :
        {A : Type 0} {a : A} (before : Store) (o : Result A × Session)
        → (settle before o).0 ≡ ok a
        → o.0 ≡ ok a
    settled before (ok b, t) h = h
    settled before (err e, t) h = h

-- A look-up that is followed by a return has found something.
pub query-returned :
    {A B : Type 0} (f : Store → Result A) (rest : A → Command B) (s : Session) (b : B)
    → ((query f >>= rest) s).0 ≡ ok b
    → (a : A) × (f s.store ≡ ok a) × ((rest a s).0 ≡ ok b)
unfolding ◌>>=◌
query-returned f rest s b h = elim (Result-cases (f s.store)) [
  | inr (error, missing) ↦ absurd (ground arith)
  | inl (a, found) ↦ (a, found, ground arith)
]

module _ (p : Ports) {E : Type 0} (k : Kind E) where
  save_result-returned :
      (r : TransitionResult E) (expected : Version) (event_type : EventType) (s : Session) (e : E)
      → (save_result p k r expected event_type s).0 ≡ ok e
      → e ≡ r.entity
  unfolding save_result ◌>>=◌
  save_result-returned r expected event_type s e h =
      let t = r.transition in
      let logged =
        audit_event p t.workspace_id event_type t.subject_type t.subject_id t.to_version s in
      elim (Result-cases logged.0) [
        | inr (error, refused) ↦ absurd (ground arith)
        | inl (event, made) ↦
            elim (Result-cases (write (save k r.entity expected t event) logged.1).0) [
              | inr (error, refused) ↦ absurd (ground arith)
              | inl (u, saved) ↦ ground arith
            ]
      ]

  module _ (get : Store → String → Result E) (guard : Store → E → Result (Unit {0}))
      (operation : E → String → DateTime → Result (TransitionResult E)) (event_type : E → EventType)
      (id : String) (expected : Version) (s : Session) where
    -- The entity was found, with the expected version; the guard of the command let it pass; and the
    -- operation of the domain, with the identifier drawn and the time read, gave what is returned.
    pub record Performed (e' : E) : Type 0 where
      pub entity : E
      pub result : TransitionResult E
      pub found : get s.store id ≡ ok entity
      pub version : k.version entity ≡ expected
      pub permitted : guard s.store entity ≡ ok tt
      pub done : operation entity (p.state_transition_id s.drawn) (p.now s.readings) ≡ ok result
      pub returned : e' ≡ result.entity

    pub change-Performed :
        (e' : E)
        → (change p k get guard operation event_type id expected s).0 ≡ ok e'
        → Performed e'
    unfolding change expect_version ◌>>=◌ read_clock draw
    change-Performed e' h = elim (Result-cases (get s.store id)) [
      | inr (error, missing) ↦ absurd (ground arith)
      | inl (entity, found) ↦ elim (Result-cases (guard s.store entity)) [
        | inr (error, refused) ↦ absurd (ground arith)
        | inl (u, permitted) ↦
            elim (Result-cases
              (operation entity (p.state_transition_id s.drawn) (p.now s.readings))) [
                | inr (error, refused) ↦ absurd (ground arith)
                | inl (result, done) ↦ record {
                  entity = entity;
                  result = result;
                  found = found;
                  version = ground arith;
                  permitted = permitted;
                  done = done;
                  returned =
                      save_result-returned result expected (event_type entity)
                        (record s { drawn = s.drawn + 1; readings = s.readings + 1 }) e'
                        (ground arith);
                }
              ]
      ]
    ]

-- Every command that moves an entity on refuses a caller who has seen another version than the
-- stored one: it raises a conflict that names both, and the session is as it was.
pub change-conflict :
    (p : Ports) {E : Type 0} (k : Kind E) (get : Store → String → Result E)
    (guard : Store → E → Result (Unit {0}))
    (operation : E → String → DateTime → Result (TransitionResult E)) (event_type : E → EventType)
    (id : String) (expected : Version) (s : Session) (entity : E)
    → get s.store id ≡ ok entity
    → k.version entity ≢ expected
    → transaction (change p k get guard operation event_type id expected) s
      ≡ (err (version_conflict k.entity_type (k.id entity) expected (k.version entity)), s)
unfolding change expect_version transaction ◌>>=◌
change-conflict p k get guard operation event_type id expected s entity found differs = ground arith
