-- ===== src/CronJobs/Skip.antt =====
-- `SkipIfStillRunning` inside `Recover`, as `New` chains them: the states of one wrapped job. A step
-- is one event of one invocation; `none` means that the event cannot happen.
use ciscollector_v.Common.{
  ℕ, ◌+◌, ◌-◌, ◌≡◌, ◌&&◌, Option, none, some, List, [], ◌∷◌, ◌==◌, ltb, if◌then◌else◌,
}

-- The channel of the wrapper, and its invocations by where they stand.
pub record SkipState : Type 0 where
  -- the tokens in the channel, whose buffer has one place
  pub tokens : ℕ
  -- invocations inside `job.Run`
  pub working : ℕ
  -- invocations that are about to put the token back
  pub returning : ℕ
  -- invocations that `Recover` ended
  pub panicked : ℕ

abbrev pub channel_buffer : ℕ
channel_buffer = 1

-- the channel with its token
unfoldable pub skip_if_still_running : SkipState
skip_if_still_running = record { tokens = 1; working = 0; returning = 0; panicked = 0 }

-- `case v := <-ch`, up to the call of the job
unfoldable pub begin_job : SkipState → Option SkipState
begin_job s =
    if ltb 0 s.tokens
    then some (record s { tokens = s.tokens - 1; working = s.working + 1 })
    else none

-- the `default` branch
unfoldable pub skip_job : SkipState → Option SkipState
skip_job s = if s.tokens == 0 then some s else none

-- `job.Run` returns
unfoldable pub return_job : SkipState → Option SkipState
return_job s =
    if ltb 0 s.working
    then some (record s { working = s.working - 1; returning = s.returning + 1 })
    else none

-- `ch <- v`, which waits while the buffer is full
unfoldable pub give_back : SkipState → Option SkipState
give_back s =
    if ltb 0 s.returning && ltb s.tokens channel_buffer
    then some (record s { returning = s.returning - 1; tokens = s.tokens + 1 })
    else none

-- `job.Run` panics: the statement after it is not reached, and `Recover` ends the invocation
unfoldable pub panic_job : SkipState → Option SkipState
panic_job s =
    if ltb 0 s.working
    then some (record s { working = s.working - 1; panicked = s.panicked + 1 })
    else none

pub data Event : Type 0 where
  began : Event
  skipped : Event
  returned : Event
  gave_back : Event
  crashed : Event

unfoldable pub step_event : Event → SkipState → Option SkipState
unfolding begin_job skip_job return_job give_back panic_job
step_event Event.began s = begin_job s
step_event Event.skipped s = skip_job s
step_event Event.returned s = return_job s
step_event Event.gave_back s = give_back s
step_event Event.crashed s = panic_job s

-- The events that lead from the start to a state, the last one first.
pub data Runs : SkipState → List Event → Type 0 where
  started : Runs skip_if_still_running []
  stepped :
      {s s' : SkipState} {es : List Event} (e : Event)
      → Runs s es
      → step_event e s ≡ some s'
      → Runs s' (e ∷ es)
