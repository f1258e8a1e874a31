-- ===== src/Service/Effects.antt =====
-- What the steps of a command of `DomainService` (agent_company_os/application/service.py) do to the
-- store: reads leave it alone, and a command ends with its one write.
use nebula_os.Prelude.{ℕ, String, ◌≡◌, refl, subst, ◌∙◌, true, false}
use nebula_os.Domain.Errors.{Result, ok, err, is_ok}
use nebula_os.Domain.Validation.{Version}
use nebula_os.Domain.Transitions.{StateTransition}
use nebula_os.Domain.Events.{Event}
use nebula_os.Store.Ops.{Store, add, save}
use nebula_os.Store.Steps.{Sort, Entity, kind, Write, added, saved}
use nebula_os.Service.Session.{
  Ports, Session, Command, pure, lift, query, transaction, write, read_clock, draw, and_then,
  settle, written, ◌>>=◌, ◌>>◌,
}

-- The step leaves the store alone.
pub record Reads {A : Type 0} (m : Command A) : Type 0 where
  pub at : (s : Session) → (m s).1.store ≡ s.store

-- Where the steps return, the store has made one write.
pub record Writes {A : Type 0} (m : Command A) : Type 0 where
  pub at : (s : Session) → is_ok (m s).0 ≡ true → Write s.store (m s).1.store

-- The command is all or nothing: it returns and has made one write, or raises and has made none.
pub record Commits {A : Type 0} (m : Command A) : Type 0 where
  pub returns : (s : Session) → is_ok (m s).0 ≡ true → Write s.store (m s).1.store
  pub raises : (s : Session) → is_ok (m s).0 ≡ false → (m s).1.store ≡ s.store

module _ {A : Type 0} where
  pub Reads-lift : (r : Result A) → Reads (lift r)
  Reads-lift r = record { at = λ s. refl }

  pub Reads-query : (f : Store → Result A) → Reads (query f)
  Reads-query f = record { at = λ s. refl }

pub Reads-read_clock : (p : Ports) → Reads (read_clock p)
unfolding read_clock
Reads-read_clock p = record { at = λ s. refl }

pub Reads-draw : (source : ℕ → String) → Reads (draw source)
unfolding draw
Reads-draw source = record { at = λ s. refl }

module _ {A B : Type 0} where
  and_then-Reads :
      (r : Result A) (f : A → Command B) (s : Session)
      → ((a : A) → Reads (f a))
      → (and_then r f s).1.store ≡ s.store
  and_then-Reads (ok a) f s h = (h a).at s
  and_then-Reads (err e) f s h = refl

  pub Reads-bind :
      (m : Command A) (f : A → Command B) → Reads m → ((a : A) → Reads (f a)) → Reads (m >>= f)
  unfolding ◌>>=◌
  Reads-bind m f h k = record { at = λ s. and_then-Reads (m s).0 f (m s).1 k ∙ h.at s }

  and_then-Writes :
      (r : Result A) (f : A → Command B) (s : Session)
      → ((a : A) → Writes (f a))
      → is_ok (and_then r f s).0 ≡ true
      → Write s.store (and_then r f s).1.store
  and_then-Writes (ok a) f s h o = (h a).at s o
  and_then-Writes (err e) f s h o = absurd (cc)

  pub Writes-bind :
      (m : Command A) (f : A → Command B) → Reads m → ((a : A) → Writes (f a)) → Writes (m >>= f)
  unfolding ◌>>=◌
  Writes-bind m f h k = record {
    at = λ s o.
        subst (λ t. Write t (and_then (m s).0 f (m s).1).1.store) (h.at s)
          (and_then-Writes (m s).0 f (m s).1 k o);
  }

written-Writes :
    {A : Type 0} (a : A) (s : Session) (r : Result Store)
    → ((t : Store) → r ≡ ok t → Write s.store t)
    → is_ok (and_then (written s r).0 (λ _. pure a) (written s r).1).0 ≡ true
    → Write s.store (and_then (written s r).0 (λ _. pure a) (written s r).1).1.store
written-Writes a s (ok t) w o = w t refl
written-Writes a s (err e) w o = absurd (cc)

-- The end of every command: a write whose acceptance is a step of the store.
Writes-write :
    {A : Type 0} (f : Store → Result Store) (a : A)
    → ((s s' : Store) → f s ≡ ok s' → Write s s')
    → Writes (write f >> pure a)
unfolding write ◌>>=◌
Writes-write f a accepted = record {
  at = λ s o. written-Writes a s (f s.store) (accepted s.store) o;
}

pub Writes-add :
    (a : Sort) (e : Entity a) (event : Event) → Writes (write (add (kind a) e event) >> pure e)
Writes-add a e event = Writes-write _ e (λ s s' h. added a e event h)

pub Writes-save :
    (a : Sort) (e : Entity a) (expected : Version) (t : StateTransition) (event : Event)
    → Writes (write (save (kind a) e expected t event) >> pure e)
Writes-save a e expected t event = Writes-write _ e (λ s s' h. saved a e expected t event h)

settle-Commits :
    {A : Type 0} (before : Store) (o : Result A × Session)
    → (is_ok o.0 ≡ true → Write before o.1.store)
    → (is_ok (settle before o).0 ≡ true → Write before (settle before o).1.store)
      × (is_ok (settle before o).0 ≡ false → (settle before o).1.store ≡ before)
settle-Commits before (ok a, s) w = (w, λ h. absurd (cc))
settle-Commits before (err e, s) w = (λ h. absurd (cc), λ h. refl)

-- A transaction makes the whole of its one write, or nothing.
pub Commits-transaction : {A : Type 0} (m : Command A) → Writes m → Commits (transaction m)
unfolding transaction
Commits-transaction m w = record {
  returns = λ s. (settle-Commits s.store (m s) (w.at s)).0;
  raises = λ s. (settle-Commits s.store (m s) (w.at s)).1;
}

pub ruleset effect_rules = (
  Reads-lift, Reads-query, Reads-read_clock, Reads-draw, Reads-bind, Writes-bind, Writes-add,
  Writes-save, Commits-transaction,
)
