-- ===== src/Communication/MessageCourse.antt =====
-- What every course of changes keeps of a message
-- (agent_company_os/domain/communication.py).
use nebula_os.Prelude.{
  ℕ, suc, ◌+◌, ◌≤◌, String, true, false, ◌≡◌, refl, sym, subst, ap, ◌∙◌, Option, some, List, arith,
}
use nebula_os.Domain.Errors.{Result, ok}
use nebula_os.Domain.Courses.{course, course_keeps}
use nebula_os.Domain.Validation.{DateTime}
use nebula_os.Communication.Messages
use nebula_os.Communication.Messages.{
  AgentMessage, MessageStatus, check_message, check_status, evolve, evolved,
}

-- A call of `evolve`.
pub record Evolution : Type 0 where
  pub status : MessageStatus
  pub at : DateTime
  pub reason : Option String

abbrev pub evolve_by : Evolution → AgentMessage → Result AgentMessage
evolve_by e m = evolve m e.status e.at e.reason

-- How many steps a status may be from the end.
abbrev pub steps_left : MessageStatus → ℕ
steps_left MessageStatus.created = 2
steps_left MessageStatus.delivered = 1
steps_left status = 0

pub record Kept (m u : AgentMessage) : Type 0 where
  pub sound : check_message u ≡ ok u
  pub content : u ≡ record m {
    status = u.status;
    version = u.version;
    delivered_at = u.delivered_at;
    ended_at = u.ended_at;
    status_reason = u.status_reason;
  }
  pub later : m.version ≤ u.version
  pub budget : u.version + steps_left u.status ≤ m.version + steps_left m.status
  pub delivery : (t : DateTime) → m.delivered_at ≡ some t → u.delivered_at ≡ some t
  pub final : Messages.is_terminal m.status ≡ true → u ≡ m

Kept-refl : (m : AgentMessage) → check_message m ≡ ok m → Kept m m
Kept-refl m h = record {
  sound = h;
  content = refl;
  later = omega arith;
  budget = omega arith;
  delivery = λ t e. e;
  final = λ e. refl;
}

Kept-trans : (l m u : AgentMessage) → Kept l m → Kept m u → Kept l u
Kept-trans l m u a b = record {
  sound = b.sound;
  content =
      b.content
      ∙ ap
          (λ (x : AgentMessage). record x {
            status = u.status;
            version = u.version;
            delivered_at = u.delivered_at;
            ended_at = u.ended_at;
            status_reason = u.status_reason;
          })
          a.content;
  later = omega (arith, a.later, b.later);
  budget = omega (arith, a.budget, b.budget);
  delivery = λ t e. b.delivery t (a.delivery t e);
  final = λ e.
      let same = a.final e in
      b.final (subst (λ (x : AgentMessage). Messages.is_terminal x.status ≡ true) (sym same) e)
      ∙ same;
}

check_message-same : (m u : AgentMessage) → check_message m ≡ ok u → u ≡ m
unfolding check_message
check_message-same m u h = ground arith

-- A message that was never delivered has no time of delivery.
created-undelivered :
    (m : AgentMessage) (t : DateTime)
    → check_message m ≡ ok m
    → m.delivered_at ≡ some t
    → Messages.allowed m.status MessageStatus.delivered ≡ false
unfolding check_message check_status
created-undelivered m t h e = ground arith

steps_left-allowed :
    (a b : MessageStatus) → Messages.allowed a b ≡ true → suc (steps_left b) ≤ steps_left a
steps_left-allowed MessageStatus.created MessageStatus.delivered h = omega arith
steps_left-allowed a b h = ground arith

evolve-Kept :
    (m u : AgentMessage) (status : MessageStatus) (at : DateTime) (reason : Option String)
    → check_message m ≡ ok m
    → evolve m status at reason ≡ ok u
    → Kept m u
unfolding evolve
evolve-Kept m u status at reason h e =
    let step : Messages.allowed m.status status ≡ true = ground arith in
    let checked : check_message (evolved m status at reason) ≡ ok u = ground arith in
    let same = check_message-same (evolved m status at reason) u checked in
    subst (Kept m) (sym same) (record {
      sound = checked ∙ ap ok same;
      content = refl;
      later = omega arith;
      budget = omega (arith, steps_left-allowed m.status status step);
      delivery = λ t there. delivery_kept m status at t there step h;
      final = λ ended. absurd (ground arith);
    })
  where
    delivery_kept :
        (m : AgentMessage) (status : MessageStatus) (at t : DateTime)
        → m.delivered_at ≡ some t
        → Messages.allowed m.status status ≡ true
        → check_message m ≡ ok m
        → Messages.delivery_time status at m.delivered_at ≡ some t
    delivery_kept m MessageStatus.delivered at t there step h =
        let never = created-undelivered m t h there in absurd (ground arith)
    delivery_kept m _ at t there step h = there

-- Whatever is asked of a checked message, in any order and with refused calls among them: it passes its
-- check still; only its status, version, times and reason change; its version never falls, and rises
-- twice at most; a time of delivery stays; and once its status is terminal, nothing changes any more.
pub course-Kept :
    (es : List Evolution) (m : AgentMessage)
    → check_message m ≡ ok m
    → Kept m (course evolve_by es m)
course-Kept =
    course_keeps evolve_by (λ m. check_message m ≡ ok m) Kept Kept-refl Kept-trans
      (λ m u k. k.sound) (λ e m u h done. evolve-Kept m u e.status e.at e.reason h done)
