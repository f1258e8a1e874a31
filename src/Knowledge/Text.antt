-- ===== src/Knowledge/Text.antt =====
-- Texts by positions, and `bounded_text` of agent_company_os/domain/knowledge.py.
use Prim.Native.Char.{code}
use nebula_os.Prelude.{
  ℕ, zero, suc, String, Bool, true, false, ◌&&◌, ◌||◌, List, [], ◌∷◌, ltb, leb, ◌==◌, if◌then◌else◌,
}
use nebula_os.Domain.Errors.{Result, invariant_violation, raise_if, ◌>>◌}
use nebula_os.Domain.Validation.{is_empty, strip}
use nebula_os.Planning.Plan.{text_length}

-- `s[:n]`
unfoldable pub take_text : ℕ → String → String
take_text zero s = String.[]
take_text (suc n) String.[] = String.[]
take_text (suc n) (String.◌∷◌ c s) = String.◌∷◌ c (take_text n s)

-- `s[n:]`
unfoldable pub drop_text : ℕ → String → String
drop_text zero s = s
drop_text (suc n) String.[] = String.[]
drop_text (suc n) (String.◌∷◌ c s) = drop_text n s

-- `s + t`
unfoldable pub join_text : String → String → String
join_text String.[] t = t
join_text (String.◌∷◌ c s) t = String.◌∷◌ c (join_text s t)

-- `"".join(texts)`
unfoldable pub join_all : List String → String
unfolding join_text
join_all [] = String.[]
join_all (s ∷ texts) = join_text s (join_all texts)

-- `any(p(c) for c in s)`
abbrev pub any_char : (ℕ → Bool) → String → Bool
any_char p String.[] = false
any_char p (String.◌∷◌ c s) = p (code c) || any_char p s

-- `ord(c) < 32 and c not in "\n\t" or 127 <= ord(c) < 160`
abbrev pub is_control : ℕ → Bool
is_control c = (ltb c 32 && (if c == 10 || c == 9 then false else true)) || (leb 127 c && ltb c 160)

-- What UTF-8 cannot encode.
abbrev pub is_surrogate : ℕ → Bool
is_surrogate c = leb 0xd800 c && leb c 0xdfff

unfoldable pub bounded_text : String → (maximum : ℕ) → Result (Unit {0})
bounded_text value maximum = do
  raise_if (is_empty (strip value) || ltb maximum (text_length value))
      (invariant_violation "knowledge_text_bound")
  raise_if (any_char is_control value) (invariant_violation "knowledge_control_character")
  raise_if (any_char is_surrogate value) (invariant_violation "knowledge_utf8")
