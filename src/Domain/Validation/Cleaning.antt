-- ===== src/Domain/Validation/Cleaning.antt =====
-- `str.strip` and the cleaning of required texts (agent_company_os/domain/validation.py): cleaning
-- what is clean changes nothing.
use nebula_os.Prelude.{String, eq_iff, ◌≡◌, refl, ap, ◌∙◌, List, [], ◌∷◌, arith}
use nebula_os.Domain.Errors.{ok}
use nebula_os.Domain.Validation.{
  strip_start, strip_end, strip, strip_all, clean_required_text, clean_optional_texts,
  clean_required_texts, opaque_id,
}

strip_end_idem : (s : String) → strip_end (strip_end s) ≡ strip_end s
unfolding strip_end
strip_end_idem String.[] = refl
strip_end_idem (String.◌∷◌ c s) = ground (arith, strip_end_idem s)

-- What stripping the end of a text without leading space leaves has none either.
strip_start-strip_end :
    (s : String) → strip_start (strip_end (strip_start s)) ≡ strip_end (strip_start s)
unfolding strip_end strip_start
strip_start-strip_end String.[] = refl
strip_start-strip_end (String.◌∷◌ c s) = ground (arith, strip_start-strip_end s)

-- Stripping twice is stripping once.
pub strip_idem : (s : String) → strip (strip s) ≡ strip s
unfolding strip
strip_idem s = ap strip_end (strip_start-strip_end s) ∙ strip_end_idem (strip_start s)

-- A text that cleaning returned is accepted again, as it is.
pub clean_required_text_idem :
    (s : String) {t : String} → clean_required_text s ≡ ok t → clean_required_text t ≡ ok t
unfolding clean_required_text
clean_required_text_idem s h = ground (arith, strip_idem s)

strip_all_idem : (ts : List String) → strip_all (strip_all ts) ≡ strip_all ts
unfolding strip_all
strip_all_idem [] = refl
strip_all_idem (t ∷ ts) = cc (strip_idem t, strip_all_idem ts)

pub clean_optional_texts_idem :
    (ts : List String) {us : List String}
    → clean_optional_texts ts ≡ ok us
    → clean_optional_texts us ≡ ok us
unfolding clean_optional_texts
clean_optional_texts_idem ts h = ground (arith, strip_all_idem ts)

pub clean_required_texts_idem :
    (ts : List String) {us : List String}
    → clean_required_texts ts ≡ ok us
    → clean_required_texts us ≡ ok us
unfolding clean_required_texts
clean_required_texts_idem ts h = ground (arith, strip_all_idem ts)

-- An accepted identifier is a text that cleaning returns as it is.
pub opaque_id-clean : (s : String) → opaque_id s ≡ ok s → clean_required_text s ≡ ok s
unfolding opaque_id clean_required_text
opaque_id-clean s h = ground (arith, eq_iff (strip s) s)
