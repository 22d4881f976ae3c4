-- ===== src/CronJobs/Tests.antt =====
-- A job that panics under each wrapper.
use ciscollector_v.Common.{◌≡◌, ◌≤◌, ◌<◌, refl, none, some, List, [], ◌∷◌, here, there}
use ciscollector_v.CronJobs.Skip.{
  SkipState, skip_if_still_running, begin_job, skip_job, Event, step_event, Runs,
}
use ciscollector_v.CronJobs.Exclusive.{job_of, Allows, Runs-Allows, Runs-crashed}
use ciscollector_v.CronJobs.Delay.{
  DelayState, delay_if_still_running, arrive, acquire, IsReachable, IsReachable-exclusive,
}

abbrev crashed_state : SkipState
crashed_state = record { tokens = 0; working = 0; returning = 0; panicked = 1 }

abbrev crash_events : List Event
crash_events = Event.skipped ∷ Event.crashed ∷ Event.skipped ∷ Event.began ∷ []

crash-Runs : Runs crashed_state crash_events
unfolding skip_if_still_running step_event
crash-Runs =
    Runs.stepped Event.skipped
      (Runs.stepped Event.crashed
        (Runs.stepped Event.skipped (Runs.stepped Event.began Runs.started refl) refl) refl)
      refl

Runs-Allows_example : Allows (job_of crashed_state) crash_events
Runs-Allows_example = Runs-Allows crashed_state crash_events crash-Runs

Runs-crashed_example :
    (begin_job crashed_state ≡ none)
    × (skip_job crashed_state ≡ some crashed_state)
    × (crashed_state.working ≡ 0)
Runs-crashed_example = Runs-crashed crashed_state crash_events crash-Runs (there (here refl))

abbrev waiting_state : DelayState
waiting_state = record (delay_if_still_running) { waiting = 1 }

waiting-IsReachable : IsReachable waiting_state
unfolding arrive delay_if_still_running
waiting-IsReachable = IsReachable.arrived IsReachable.started

IsReachable-exclusive_example :
    (waiting_state.working ≤ 1)
    × (waiting_state.working ≡ 0
        → 0 < waiting_state.waiting
        → (s' : DelayState) × (acquire waiting_state ≡ some s') × (s'.working ≡ 1))
IsReachable-exclusive_example = IsReachable-exclusive waiting_state waiting-IsReachable
