-- ===== src/CronJobs/Exclusive.antt =====
-- What `SkipIfStillRunning` promises, one running instance at a time, as an automaton of three
-- states, and what becomes of the promise after a panic.
use ciscollector_v.Common.{
  ◌+◌, ◌-◌, ◌≡◌, refl, inl, inr, none, some, List, [], ◌∷◌, In, In-cons, ◌==◌, ◌&&◌, ◌<◌, ==_iff,
  ltb, ltb→lt, arith, Bool-cases, if◌then◌else◌,
}
use ciscollector_v.Common.Options.{OnSome}
use ciscollector_v.CronJobs.Skip.{
  SkipState, skip_if_still_running, begin_job, skip_job, return_job, give_back, panic_job, Event,
  step_event, Runs,
}

-- The job as its schedule sees it.
pub data Job : Type 0 where
  idle : Job
  busy : Job
  lost : Job

-- What the events may do. A job that is busy is not begun again; one that is lost never is.
pub data Step : Job → Event → Job → Type 0 where
  begin : Step Job.idle Event.began Job.busy
  skip_busy : Step Job.busy Event.skipped Job.busy
  skip_lost : Step Job.lost Event.skipped Job.lost
  return : Step Job.busy Event.returned Job.busy
  finish : Step Job.busy Event.gave_back Job.idle
  crash : Step Job.busy Event.crashed Job.lost

-- The automaton allows the events, the last one first.
pub data Allows : Job → List Event → Type 0 where
  fresh : Allows Job.idle []
  then_step :
      {j j' : Job} {e : Event} {es : List Event} → Allows j es → Step j e j' → Allows j' (e ∷ es)

-- The job that a state of the wrapper stands for.
unfoldable pub job_of : SkipState → Job
job_of s =
    if ltb 0 s.tokens
    then Job.idle
    else if ltb 0 (s.working + s.returning)
    then Job.busy
    else Job.lost

-- One token, in the channel, with an invocation, or lost.
abbrev pub IsOne : SkipState → Type 0
IsOne s = s.tokens + s.working + s.returning + s.panicked ≡ 1

idle_lem : (s : SkipState) → 0 < s.tokens → job_of s ≡ Job.idle
unfolding job_of
idle_lem s h = ground arith

busy_lem : (s : SkipState) → s.tokens ≡ 0 → 0 < s.working + s.returning → job_of s ≡ Job.busy
unfolding job_of
busy_lem s h k = ground arith

lost_lem : (s : SkipState) → s.tokens ≡ 0 → s.working + s.returning ≡ 0 → job_of s ≡ Job.lost
unfolding job_of
lost_lem s h k = ground arith

-- Where a step leads.
abbrev pub Follows : SkipState → Event → SkipState → Type 0
Follows s e s' = IsOne s' × Step (job_of s) e (job_of s')

begin_job-Follows : (s : SkipState) → IsOne s → OnSome (Follows s Event.began) (begin_job s)
unfolding begin_job
begin_job-Follows s h = elim (Bool-cases (ltb 0 s.tokens)) [
  | inr t ↦ rw t tt
  | inl t ↦
      let positive = ltb→lt 0 s.tokens t in
      let after : SkipState = record s { tokens = s.tokens - 1; working = s.working + 1 } in
      rw (t, idle_lem s positive, busy_lem after (omega arith) (omega arith))
        (omega arith, Step.begin)
]

skip_job-Follows : (s : SkipState) → IsOne s → OnSome (Follows s Event.skipped) (skip_job s)
unfolding skip_job
skip_job-Follows s h = elim (Bool-cases (s.tokens == 0)) [
  | inr t ↦ rw t tt
  | inl t ↦
      let none_left : s.tokens ≡ 0 = (==_iff s.tokens 0).0 t in
      rw t (
        h,
        elim (Bool-cases (ltb 0 (s.working + s.returning))) [
          | inl w ↦ rw (busy_lem s none_left (ltb→lt 0 (s.working + s.returning) w)) Step.skip_busy
          | inr w ↦ rw (lost_lem s none_left (ground arith)) Step.skip_lost
        ],
      )
]

return_job-Follows : (s : SkipState) → IsOne s → OnSome (Follows s Event.returned) (return_job s)
unfolding return_job
return_job-Follows s h = elim (Bool-cases (ltb 0 s.working)) [
  | inr t ↦ rw t tt
  | inl t ↦
      let positive = ltb→lt 0 s.working t in
      let after : SkipState = record s { working = s.working - 1; returning = s.returning + 1 } in
      rw (t, busy_lem s (omega arith) (omega arith), busy_lem after (omega arith) (omega arith))
        (omega arith, Step.return)
]

give_back-Follows : (s : SkipState) → IsOne s → OnSome (Follows s Event.gave_back) (give_back s)
unfolding give_back
give_back-Follows s h = elim (Bool-cases (ltb 0 s.returning && ltb s.tokens 1)) [
  | inr t ↦ rw t tt
  | inl t ↦
      let positive : 0 < s.returning = ground arith in
      let after : SkipState = record s { returning = s.returning - 1; tokens = s.tokens + 1 } in
      rw (t, busy_lem s (omega arith) (omega arith), idle_lem after (omega arith))
        (omega arith, Step.finish)
]

panic_job-Follows : (s : SkipState) → IsOne s → OnSome (Follows s Event.crashed) (panic_job s)
unfolding panic_job
panic_job-Follows s h = elim (Bool-cases (ltb 0 s.working)) [
  | inr t ↦ rw t tt
  | inl t ↦
      let positive = ltb→lt 0 s.working t in
      let after : SkipState = record s { working = s.working - 1; panicked = s.panicked + 1 } in
      rw (t, busy_lem s (omega arith) (omega arith), lost_lem after (omega arith) (omega arith))
        (omega arith, Step.crash)
]

step-Follows : (e : Event) (s : SkipState) → IsOne s → OnSome (Follows s e) (step_event e s)
unfolding step_event
step-Follows Event.began s h = begin_job-Follows s h
step-Follows Event.skipped s h = skip_job-Follows s h
step-Follows Event.returned s h = return_job-Follows s h
step-Follows Event.gave_back s h = give_back-Follows s h
step-Follows Event.crashed s h = panic_job-Follows s h

Runs-IsOne : {s : SkipState} {es : List Event} → Runs s es → IsOne s × Allows (job_of s) es
unfolding skip_if_still_running
Runs-IsOne Runs.started =
    (omega arith, rw (idle_lem skip_if_still_running (omega arith)) Allows.fresh)
Runs-IsOne (Runs.stepped {s} {s'} e r same) =
    let (one, allowed) = Runs-IsOne r in
    let follows : Follows s e s' = rw same at (step-Follows e s one) in
    (follows.0, Allows.then_step allowed follows.1)

-- The wrapper refines the automaton: whatever events lead to a state of the wrapper, the automaton
-- allows them, and ends in the job that the state stands for. So a job is begun only when no
-- invocation of it is under way and none has panicked before.
pub Runs-Allows : (s : SkipState) (es : List Event) → Runs s es → Allows (job_of s) es
Runs-Allows s es r = (Runs-IsOne r).1

crash-lost : {j j' : Job} {e : Event} → Step j e j' → Event.crashed ≡ e → j' ≡ Job.lost
crash-lost Step.begin q = cc
crash-lost Step.skip_busy q = cc
crash-lost Step.skip_lost q = cc
crash-lost Step.return q = cc
crash-lost Step.finish q = cc
crash-lost Step.crash q = refl

stays_lost : {j j' : Job} {e : Event} → Step j e j' → j ≡ Job.lost → j' ≡ Job.lost
stays_lost Step.begin q = cc
stays_lost Step.skip_busy q = cc
stays_lost Step.skip_lost q = refl
stays_lost Step.return q = cc
stays_lost Step.finish q = cc
stays_lost Step.crash q = cc

Allows-lost : {j : Job} {es : List Event} → Allows j es → In Event.crashed es → j ≡ Job.lost
Allows-lost Allows.fresh i = elim i [ ]
Allows-lost (Allows.then_step a step) i = elim (In-cons i) [
  | inl e ↦ crash-lost step e
  | inr later ↦ stays_lost step (Allows-lost a later)
]

lost_state : (s : SkipState) → job_of s ≡ Job.lost → (s.tokens ≡ 0) × (s.working ≡ 0)
unfolding job_of
lost_state s h = ground arith

-- After a panic of the job, whatever else happens, no invocation can begin: all of them are skipped.
pub Runs-crashed :
    (s : SkipState) (es : List Event)
    → Runs s es
    → In Event.crashed es
    → (begin_job s ≡ none) × (skip_job s ≡ some s) × (s.working ≡ 0)
unfolding begin_job skip_job
Runs-crashed s es r i =
    let (empty, still) = lost_state s (Allows-lost (Runs-Allows s es r) i) in
    (ground arith, ground arith, still)
