-- ===== src/Service/Session.antt =====
-- What `DomainService` of agent_company_os/application/service.py runs on: a store, a clock and a
-- generator of identifiers (agent_company_os/ports), and methods that change the store and may raise.
use nebula_os.Prelude.{ℕ, ◌+◌, String}
use nebula_os.Domain.Errors.{Result, ok, err}
use nebula_os.Domain.Validation.{DateTime}
use nebula_os.Store.Ops.{Store}

-- `Clock.now` at its n-th call, and each method of `IdGenerator` at the n-th identifier drawn.
pub record Ports : Type 0 where
  pub now : ℕ → DateTime
  pub workspace_id : ℕ → String
  pub goal_id : ℕ → String
  pub task_id : ℕ → String
  pub task_attempt_id : ℕ → String
  pub execution_id : ℕ → String
  pub event_id : ℕ → String
  pub state_transition_id : ℕ → String

-- A rollback restores the store. The clock and the generator go on.
pub record Session : Type 0 where
  pub store : Store
  pub readings : ℕ
  pub drawn : ℕ

abbrev pub Command {ℓ} : Type ℓ → Type ℓ
Command A = Session → Result A × Session

module _ {ℓ} {A : Type ℓ} where
  abbrev pub pure : A → Command A
  pure a s = (ok a, s)

  abbrev pub lift : Result A → Command A
  lift r s = (r, s)

  abbrev pub query : (Store → Result A) → Command A
  query f s = (f s.store, s)

  -- What `transaction` makes of the outcome of its block, given the store at its start.
  abbrev pub settle : Store → Result A × Session → Result A × Session
  settle before (ok a, s) = (ok a, s)
  settle before (err e, s) = (err e, record s { store = before })

  -- `with self.store.transaction(): ...`
  unfoldable pub transaction : Command A → Command A
  transaction m s = settle s.store (m s)

abbrev pub written : Session → Result Store → Result (Unit {0}) × Session
written s (ok t) = (ok tt, record s { store = t })
written s (err e) = (err e, s)

-- A write of the store that is refused changes nothing.
unfoldable pub write : (Store → Result Store) → Command (Unit {0})
write f s = written s (f s.store)

-- `self.clock.now()`
unfoldable pub read_clock : Ports → Command DateTime
read_clock p s = (ok (p.now s.readings), record s { readings = s.readings + 1 })

-- `self.ids.…_id()`
unfoldable pub draw : (ℕ → String) → Command String
draw source s = (ok (source s.drawn), record s { drawn = s.drawn + 1 })

module _ {ℓ κ} {A : Type ℓ} {B : Type κ} where
  abbrev pub and_then : Result A → (A → Command B) → Command B
  and_then (ok a) f s = f a s
  and_then (err e) f s = (err e, s)

  infixl 5 ◌>>=◌
  unfoldable pub ◌>>=◌ : Command A → (A → Command B) → Command B
  ◌>>=◌ m f s = and_then (m s).0 f (m s).1

module _ {ℓ} {B : Type ℓ} where
  infixl 5 ◌>>◌
  abbrev pub ◌>>◌ : Command (Unit {0}) → Command B → Command B
  m >> n = m >>= λ _. n
