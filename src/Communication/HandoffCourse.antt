-- ===== src/Communication/HandoffCourse.antt =====
-- What every course of changes keeps of a handoff
-- (agent_company_os/domain/communication.py).
use nebula_os.Prelude.{
  ℕ, suc, ◌+◌, ◌≤◌, String, true, false, ◌≡◌, refl, sym, subst, ap, ◌∙◌, Option, some, List, arith,
}
use nebula_os.Domain.Errors.{Result, ok}
use nebula_os.Domain.Courses.{course, course_keeps}
use nebula_os.Domain.Validation.{DateTime, Version}
use nebula_os.Communication.Handoffs
use nebula_os.Communication.Handoffs.{
  HandoffRequest, HandoffStatus, check_handoff, accept, accepted_by, finish, finished,
}

-- A call of `accept` or of `finish`.
pub data HandoffCall : Type 0 where
  accept_by : (definition_id : String) → Version → (delegation_id : String) → HandoffCall
  finish_as : HandoffStatus → DateTime → (reason result : Option String) → HandoffCall

unfoldable pub handoff_call : HandoffCall → HandoffRequest → Result HandoffRequest
handoff_call (accept_by definition_id version delegation_id) h =
    accept h definition_id version delegation_id
handoff_call (finish_as status at reason result) h = finish h status at reason result

abbrev pub handoff_steps : HandoffStatus → ℕ
handoff_steps HandoffStatus.requested = 2
handoff_steps HandoffStatus.accepted = 1
handoff_steps status = 0

pub record HandoffKept (h u : HandoffRequest) : Type 0 where
  pub sound : check_handoff u ≡ ok u
  pub content : u ≡ record h {
    status = u.status;
    version = u.version;
    recipient_definition_id = u.recipient_definition_id;
    recipient_definition_version = u.recipient_definition_version;
    resulting_delegation_id = u.resulting_delegation_id;
    result_reference = u.result_reference;
    ended_at = u.ended_at;
    status_reason = u.status_reason;
  }
  pub later : h.version ≤ u.version
  pub budget : u.version + handoff_steps u.status ≤ h.version + handoff_steps h.status
  pub delegation :
      (d : String) → h.resulting_delegation_id ≡ some d → u.resulting_delegation_id ≡ some d
  pub final : Handoffs.is_terminal h.status ≡ true → u ≡ h

HandoffKept-refl : (h : HandoffRequest) → check_handoff h ≡ ok h → HandoffKept h h
HandoffKept-refl h e = record {
  sound = e;
  content = refl;
  later = omega arith;
  budget = omega arith;
  delegation = λ d there. there;
  final = λ ended. refl;
}

HandoffKept-trans : (h i u : HandoffRequest) → HandoffKept h i → HandoffKept i u → HandoffKept h u
HandoffKept-trans h i u a b = record {
  sound = b.sound;
  content =
      b.content
      ∙ ap
          (λ (x : HandoffRequest). record x {
            status = u.status;
            version = u.version;
            recipient_definition_id = u.recipient_definition_id;
            recipient_definition_version = u.recipient_definition_version;
            resulting_delegation_id = u.resulting_delegation_id;
            result_reference = u.result_reference;
            ended_at = u.ended_at;
            status_reason = u.status_reason;
          })
          a.content;
  later = omega (arith, a.later, b.later);
  budget = omega (arith, a.budget, b.budget);
  delegation = λ d there. b.delegation d (a.delegation d there);
  final = λ ended.
      let same = a.final ended in
      b.final
        (subst (λ (x : HandoffRequest). Handoffs.is_terminal x.status ≡ true) (sym same) ended)
      ∙ same;
}

check_handoff-same : (h u : HandoffRequest) → check_handoff h ≡ ok u → u ≡ h
unfolding check_handoff
check_handoff-same h u e = ground arith

-- A handoff that is requested has no delegation.
requested-undelegated :
    (h : HandoffRequest) (d : String)
    → check_handoff h ≡ ok h
    → h.resulting_delegation_id ≡ some d
    → Handoffs.is_requested h.status ≡ false
unfolding check_handoff Handoffs.check_status
requested-undelegated h d e there = ground arith

accept-HandoffKept :
    (h u : HandoffRequest) (definition_id : String) (version : Version) (delegation_id : String)
    → check_handoff h ≡ ok h
    → accept h definition_id version delegation_id ≡ ok u
    → HandoffKept h u
unfolding accept
accept-HandoffKept h u definition_id version delegation_id e done =
    let step : Handoffs.is_requested h.status ≡ true = ground arith in
    let after = accepted_by h definition_id version delegation_id in
    let checked : check_handoff after ≡ ok u = ground arith in
    let same = check_handoff-same after u checked in
    subst (HandoffKept h) (sym same) (record {
      sound = checked ∙ ap ok same;
      content = refl;
      later = omega arith;
      budget = omega (arith, handoff_steps-requested h.status step);
      delegation =
          λ d there. let never = requested-undelegated h d e there in absurd (ground arith);
      final = λ ended. absurd (ground arith);
    })
  where
    handoff_steps-requested :
        (a : HandoffStatus) → Handoffs.is_requested a ≡ true → handoff_steps a ≡ 2
    handoff_steps-requested a h = ground arith

handoff_steps-allowed :
    (a b : HandoffStatus) → Handoffs.allowed a b ≡ true → suc (handoff_steps b) ≤ handoff_steps a
handoff_steps-allowed HandoffStatus.requested b h = ground arith
handoff_steps-allowed a b h = ground arith

finish-HandoffKept :
    (h u : HandoffRequest) (status : HandoffStatus) (at : DateTime) (reason result : Option String)
    → check_handoff h ≡ ok h
    → finish h status at reason result ≡ ok u
    → HandoffKept h u
unfolding finish
finish-HandoffKept h u status at reason result e done =
    let step : Handoffs.allowed h.status status ≡ true = ground arith in
    let after = finished h status at reason result in
    let checked : check_handoff after ≡ ok u = ground arith in
    let same = check_handoff-same after u checked in
    subst (HandoffKept h) (sym same) (record {
      sound = checked ∙ ap ok same;
      content = refl;
      later = omega arith;
      budget = omega (arith, handoff_steps-allowed h.status status step);
      delegation = λ d there. there;
      final = λ ended. absurd (ground arith);
    })

handoff_call-HandoffKept :
    (c : HandoffCall) (h u : HandoffRequest)
    → check_handoff h ≡ ok h
    → handoff_call c h ≡ ok u
    → HandoffKept h u
unfolding handoff_call
handoff_call-HandoffKept (accept_by definition_id version delegation_id) h u e done =
    accept-HandoffKept h u definition_id version delegation_id e done
handoff_call-HandoffKept (finish_as status at reason result) h u e done =
    finish-HandoffKept h u status at reason result e done

-- Whatever is asked of a checked handoff, in any order and with refused calls among them: it passes its
-- check still, so that it is completed only with a delegation and a result; what was asked for stays;
-- its version never falls, and rises twice at most; a delegation stays; and once its status is terminal,
-- nothing changes any more.
pub course-HandoffKept :
    (cs : List HandoffCall) (h : HandoffRequest)
    → check_handoff h ≡ ok h
    → HandoffKept h (course handoff_call cs h)
course-HandoffKept =
    course_keeps handoff_call (λ h. check_handoff h ≡ ok h) HandoffKept HandoffKept-refl
      HandoffKept-trans (λ h u k. k.sound) handoff_call-HandoffKept
