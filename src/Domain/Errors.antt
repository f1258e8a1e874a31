-- ===== src/Domain/Errors.antt =====
-- agent_company_os/domain/errors.py: the domain errors, as values.
-- Messages and the display-only entries of `details` (field names, time stamps) are left out.
use nebula_os.Prelude.{ℕ, String, ◌≡◌, refl, ◌⊎◌, inl, inr, Bool, true, false}

pub data DomainError : Type 0 where
  invalid_state_transition : (entity_type entity_id current target : String) → DomainError
  workspace_mismatch : (relationship expected actual : String) → DomainError
  entity_not_found : (entity_type entity_id : String) → DomainError
  version_conflict : (entity_type entity_id : String) (expected actual : ℕ) → DomainError
  invariant_violation : (rule : String) → DomainError

-- What a Python function does that may raise a `DomainError`.
pub data Result {μ} (T : Type μ) : Type μ where
  ok : T → Result T
  err : (raised : DomainError) → Result T

-- `if condition: raise error`
abbrev pub raise_if : Bool → DomainError → Result (Unit {0})
raise_if true error = err error
raise_if false error = ok tt

-- One statement after another: an error skips the rest.
infixl 5 ◌>>◌ ◌>>=◌
abbrev pub ◌>>=◌ {μ ν} : {T : Type μ} {U : Type ν} → Result T → (T → Result U) → Result U
err error >>= rest = err error
ok value >>= rest = rest value

abbrev pub ◌>>◌ {μ} : {U : Type μ} → Result (Unit {0}) → Result U → Result U
statement >> rest = statement >>= λ (done : Unit {0}). rest

-- The function returned.
abbrev pub is_ok {μ} : {T : Type μ} → Result T → Bool
is_ok (err error) = false
is_ok (ok value) = true

pub Result-cases {μ} :
    {T : Type μ} (r : Result T)
    → ((value : T) × (r ≡ ok value)) ⊎ ((error : DomainError) × (r ≡ err error))
Result-cases (ok value) = inl (value, refl)
Result-cases (err error) = inr (error, refl)
