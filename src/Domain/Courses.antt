-- ===== src/Domain/Courses.antt =====
-- Calls that change a value one after another, where a refused call changes nothing, as the callers
-- of agent_company_os/domain do who keep what they had when a method raises.
use nebula_os.Prelude.{◌≡◌, List, [], ◌∷◌, inl, inr, arith}
use nebula_os.Domain.Errors.{Result, ok, err, Result-cases}

module _ {S C : Type 0} (call : C → S → Result S) where
  unfoldable pub course : List C → S → S
  course [] s = s
  course (c ∷ cs) s = elim (call c s) [ ok t ↦ course cs t | err error ↦ course cs s ]

  -- A relation that each call keeps, from a value that is sound to one that is, holds for the whole.
  module _ (Sound : S → Type 0) (R : S → S → Type 0) (stays : (s : S) → Sound s → R s s)
      (trans : (s t u : S) → R s t → R t u → R s u) (sound : (s t : S) → R s t → Sound t)
      (keeps : (c : C) (s t : S) → Sound s → call c s ≡ ok t → R s t) where
    pub course_keeps : (cs : List C) (s : S) → Sound s → R s (course cs s)
    unfolding course
    course_keeps [] s h = stays s h
    course_keeps (c ∷ cs) s h = elim (Result-cases (call c s)) [
      | inl (t, done) ↦
          let first = keeps c s t h done in
          let same : course (c ∷ cs) s ≡ course cs t = ground arith in
          rw same (trans s t (course cs t) first (course_keeps cs t (sound s t first)))
      | inr (error, refused) ↦
          let same : course (c ∷ cs) s ≡ course cs s = ground arith in rw same (course_keeps cs s h)
    ]
