-- ===== src/Service/Abstract.antt =====
-- The service as a map from classes and identifiers to entities, with neither the order of its tables
-- nor its audit records (agent_company_os/application/service.py and adapters/in_memory.py).
use nebula_os.Prelude.{
  ◌+◌, String, true, false, ◌≡◌, ◌≢◌, ◌⊎◌, inl, inr, sym, ap, subst, ◌∙◌, Option, none, some, List,
  [], ◌∷◌, lookup, insert, lookup-insert, eq_iff, arith, Bool-cases, Option-cases,
}
use nebula_os.Store.Ops.{Store}
use nebula_os.Store.Steps.{Sort, Entity, kind, table, Write, Write-Changed, version_of}
use nebula_os.Service.Session.{Ports, Session}
use nebula_os.Service.Runs.{Call, call, run, call-IsAtomic}

-- What the queries by identifier find.
abbrev pub view : Store → (a : Sort) → String → Option (Entity a)
view s a id = lookup id (table a s)

-- The entity is there afterwards, and all else is as it was.
pub record Put (a : Sort) (e : Entity a) (w w' : (b : Sort) → String → Option (Entity b))
    : Type 0 where
  pub here : w' a ((kind a).id e) ≡ some e
  pub same_class : (id : String) → (kind a).id e ≢ id → w' a id ≡ w a id
  pub other_classes : (b : Sort) → a ≢ b → (id : String) → w' b id ≡ w b id

-- A new entity comes with version 1. One that is there makes a legal step to the next version, and
-- keeps its definition.
pub data Step (w w' : (b : Sort) → String → Option (Entity b)) : Type 0 where
  create :
      (a : Sort) (e : Entity a)
      → w a ((kind a).id e) ≡ none
      → (kind a).version e ≡ 1
      → Put a e w w'
      → Step w w'
  move :
      (a : Sort) (e old : Entity a)
      → w a ((kind a).id e) ≡ some old
      → (kind a).version e ≡ (kind a).version old + 1
      → (kind a).legal old e ≡ true
      → (kind a).same_definition old e ≡ true
      → Put a e w w'
      → Step w w'

-- Any number of steps.
pub data Course (u : (b : Sort) → String → Option (Entity b))
    : ((b : Sort) → String → Option (Entity b)) → Type 0 where
  stay : Course u u
  then_step : {v w : (b : Sort) → String → Option (Entity b)} → Course u v → Step v w → Course u w

Changed-Put :
    (a : Sort) (e : Entity a) (s s' : Store) (id : String)
    → table a s' ≡ insert ((kind a).id e) e (table a s)
    → (view s' a ((kind a).id e) ≡ some e) × ((kind a).id e ≢ id → view s' a id ≡ view s a id)
Changed-Put a e s s' id own =
    let k = (kind a).id e in
    (
      ap (lookup k) own ∙ lookup-insert k k e (table a s) ∙ ground (arith, eq_iff k k),
      λ other. ap (lookup id) own ∙ lookup-insert k id e (table a s) ∙ ground (arith, eq_iff k id),
    )

-- A write of the store is a step of the map.
Write-Step : (s s' : Store) → Write s s' → Step (view s) (view s')
Write-Step s s' w =
    let (a, e, event, change) = Write-Changed s s' w in
    let k = (kind a).id e in
    let put : Put a e (view s) (view s') = record {
      here = (Changed-Put a e s s' k change.own_table).0;
      same_class = λ id other. (Changed-Put a e s s' id change.own_table).1 other;
      other_classes = λ b other id. ap (lookup id) (change.other_tables b other);
    } in
    elim (Option-cases (lookup k (table a s))) [
      | inl absent ↦ create a e absent (change.version ∙ ap (λ o. version_of a o + 1) absent) put
      | inr (old, there) ↦
          let (legal, kept) = change.replaced old there in
          move a e old there (change.version ∙ ap (λ o. version_of a o + 1) there) legal kept put
    ]

Course-append :
    {u v w : (b : Sort) → String → Option (Entity b)} → Course u v → Course v w → Course u w
Course-append c stay = c
Course-append c (then_step d step) = then_step (Course-append c d) step

-- Whatever commands are called, in any order and with refused ones among them, the entities that the
-- queries find have gone through a course of steps of the map: each step adds one entity with version
-- 1, or moves one that is there legally to its next version with its definition kept, and leaves all
-- others as they were.
pub run-Course :
    (p : Ports) (cs : List Call) (s : Session) → Course (view s.store) (view (run p cs s).store)
unfolding run
run-Course p [] s = stay
run-Course p (c ∷ cs) s =
    Course-append (one (Bool-cases (call p c s).0)) (run-Course p cs (call p c s).1)
  where
    one :
        ((call p c s).0 ≡ true) ⊎ ((call p c s).0 ≡ false)
        → Course (view s.store) (view (call p c s).1.store)
    one (inl returned) =
        then_step stay
          (Write-Step s.store (call p c s).1.store ((call-IsAtomic p c).returns s returned))
    one (inr raised) =
        subst (λ t. Course (view s.store) (view t)) (sym ((call-IsAtomic p c).raises s raised)) stay
