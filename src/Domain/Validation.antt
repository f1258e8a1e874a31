-- ===== src/Domain/Validation.antt =====
-- agent_company_os/domain/validation.py and the identifier and version checks of domain/ids.py.
-- `datetime` is an instant and the offset of its zone, both in microseconds: `Clock` readings
-- are compared as instants, which is what Python does for two values that both have a zone.
-- Identifiers are their texts, since the subclass of `OpaqueId` only carries a static type.
pub mod Cleaning
use Prim.Native.Char.{code}
use nebula_os.Prelude.{
  ℕ, ◌+◌, String, Bool, true, false, ◌&&◌, ◌||◌, Option, none, some, List, [], ◌∷◌, ltb, leb, ◌==◌,
  any, is_nil, if◌then◌else◌, str_eq,
}
use nebula_os.Domain.Errors.{Result, ok, err, invariant_violation, raise_if, ◌>>=◌, ◌>>◌}

-- `str.isspace`, the characters that `str.strip` removes.
abbrev pub is_space : ℕ → Bool
is_space c =
    (leb 9 c && leb c 13)
    || (leb 28 c && leb c 32)
    || c == 0x85
    || c == 0xa0
    || c == 0x1680
    || (leb 0x2000 c && leb c 0x200a)
    || c == 0x2028
    || c == 0x2029
    || c == 0x202f
    || c == 0x205f
    || c == 0x3000

-- `not text`
abbrev pub is_empty : String → Bool
is_empty String.[] = true
is_empty (String.◌∷◌ c s) = false

unfoldable pub strip_start : String → String
strip_start String.[] = String.[]
strip_start (String.◌∷◌ c s) =
    let rest = strip_start s in if is_space (code c) then rest else String.◌∷◌ c s

unfoldable pub strip_end : String → String
strip_end String.[] = String.[]
strip_end (String.◌∷◌ c s) =
    let rest = strip_end s in
    if is_empty rest && is_space (code c) then String.[] else String.◌∷◌ c rest

-- `value.strip()`
unfoldable pub strip : String → String
unfolding strip_start strip_end
strip s = strip_end (strip_start s)

unfoldable pub clean_required_text : String → Result String
clean_required_text value =
    let cleaned = strip value in
    if is_empty cleaned then err (invariant_violation "required_text") else ok cleaned

unfoldable pub strip_all : List String → List String
strip_all [] = []
strip_all (t ∷ ts) = strip t ∷ strip_all ts

unfoldable pub clean_optional_texts : List String → Result (List String)
unfolding strip_all
clean_optional_texts ts =
    let cleaned = strip_all ts in
    if any is_empty cleaned then err (invariant_violation "non_empty_text_items") else ok cleaned

unfoldable pub clean_required_texts : List String → Result (List String)
unfolding clean_optional_texts
clean_required_texts ts = do
  cleaned ← clean_optional_texts ts
  if is_nil cleaned then err (invariant_violation "required_text_items") else ok cleaned

pub data Zone : Type 0 where
  naive : Zone
  ahead behind : (offset : ℕ) → Zone

pub record DateTime : Type 0 where
  pub instant : ℕ
  pub zone : Zone

abbrev pub is_utc : DateTime → Bool
is_utc d = elim d.zone [ naive ↦ false | ahead m ↦ m == 0 | behind m ↦ m == 0 ]

abbrev pub is_naive : DateTime → Bool
is_naive d = elim d.zone [ naive ↦ true | ahead m ↦ false | behind m ↦ false ]

-- `a == b` for two `datetime`s: a value with a zone and one without are never equal.
abbrev pub same_time : DateTime → DateTime → Bool
same_time a b =
    a.instant == b.instant
    && (if is_naive a then is_naive b else if is_naive b then false else true)

unfoldable pub require_utc : DateTime → Result (Unit {0})
require_utc value =
    raise_if (if is_utc value then false else true) (invariant_violation "utc_aware_datetime")

-- `current < previous` is read only after `current` has been found to be in UTC; `previous` is then
-- the `updated_at` of an entity, which is in UTC too.
unfoldable pub require_monotonic_time : DateTime → DateTime → Result (Unit {0})
unfolding require_utc
require_monotonic_time previous current = do
  require_utc current
  raise_if (ltb current.instant previous.instant) (invariant_violation "monotonic_time")

-- `if value is not None: require_utc(value)`
abbrev pub check_time? : Option DateTime → Result (Unit {0})
check_time? none = ok tt
check_time? (some t) = require_utc t

-- `if value is not None: clean_required_text(value)`
abbrev pub check_text? : Option String → Result (Unit {0})
check_text? none = ok tt
check_text? (some s) = clean_required_text s >>= λ _. ok tt

-- The constructor of `OpaqueId`.
unfoldable pub opaque_id : String → Result String
opaque_id value =
    if is_empty value || (if str_eq (strip value) value then false else true)
    then err (invariant_violation "identifier_non_empty")
    else ok value

abbrev pub Version : Type 0
Version = ℕ

-- The constructor of `Version`.
unfoldable pub version : ℕ → Result Version
version value =
    if ltb value 1 then err (invariant_violation "version_positive_integer") else ok value

abbrev pub initial : Version
initial = 1

abbrev pub next : Version → Version
next v = v + 1
