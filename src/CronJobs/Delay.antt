-- ===== src/CronJobs/Delay.antt =====
-- `DelayIfStillRunning`: the states of a job behind a mutex.
use ciscollector_v.Common.{
  ℕ, ◌+◌, ◌-◌, ◌≤◌, ◌<◌, ◌≡◌, refl, inl, inr, Bool, true, false, not, ◌&&◌, Option, none, some, ltb,
  arith, Bool-cases, if◌then◌else◌,
}
use ciscollector_v.Common.Options.{OnSome}

pub record DelayState : Type 0 where
  pub locked : Bool
  -- invocations that wait in `mu.Lock`
  pub waiting : ℕ
  -- invocations inside `job.Run`
  pub working : ℕ

unfoldable pub delay_if_still_running : DelayState
delay_if_still_running = record { locked = false; waiting = 0; working = 0 }

-- an invocation of the schedule comes to `mu.Lock`
unfoldable pub arrive : DelayState → DelayState
arrive s = record s { waiting = s.waiting + 1 }

-- `mu.Lock` returns, and the job begins
unfoldable pub acquire : DelayState → Option DelayState
acquire s =
    if not s.locked && ltb 0 s.waiting
    then some (record { locked = true; waiting = s.waiting - 1; working = s.working + 1 })
    else none

-- `job.Run` returns or panics, and the deferred `mu.Unlock` runs
unfoldable pub leave : DelayState → Option DelayState
leave s =
    if ltb 0 s.working then some (record s { locked = false; working = s.working - 1 }) else none

pub data IsReachable : DelayState → Type 0 where
  started : IsReachable delay_if_still_running
  arrived : {s : DelayState} → IsReachable s → IsReachable (arrive s)
  acquired : {s s' : DelayState} → IsReachable s → acquire s ≡ some s' → IsReachable s'
  left : {s s' : DelayState} → IsReachable s → leave s ≡ some s' → IsReachable s'

-- The lock is held by the one invocation that works.
abbrev IsHeld : DelayState → Type 0
IsHeld s = s.working ≡ (if s.locked then 1 else 0)

acquire-IsHeld : (s : DelayState) → IsHeld s → OnSome IsHeld (acquire s)
unfolding acquire
acquire-IsHeld s h = elim (Bool-cases (not s.locked && ltb 0 s.waiting)) [
  | inl t ↦ rw t (ground arith)
  | inr t ↦ rw t tt
]

leave-IsHeld : (s : DelayState) → IsHeld s → OnSome IsHeld (leave s)
unfolding leave
leave-IsHeld s h = elim (Bool-cases (ltb 0 s.working)) [
  | inl t ↦ rw t (ground arith)
  | inr t ↦ rw t tt
]

IsReachable-IsHeld : {s : DelayState} → IsReachable s → IsHeld s
unfolding delay_if_still_running arrive
IsReachable-IsHeld IsReachable.started = refl
IsReachable-IsHeld (IsReachable.arrived r) = IsReachable-IsHeld r
IsReachable-IsHeld (IsReachable.acquired {s} {s'} r e) =
    rw e at (acquire-IsHeld s (IsReachable-IsHeld r))
IsReachable-IsHeld (IsReachable.left {s} {s'} r e) = rw e at (leave-IsHeld s (IsReachable-IsHeld r))

-- In every reachable state at most one invocation works, and if none does while one waits, then the
-- lock can be acquired, also after a panic of the job.
pub IsReachable-exclusive :
    (s : DelayState)
    → IsReachable s
    → (s.working ≤ 1)
      × (s.working ≡ 0
          → 0 < s.waiting
          → (s' : DelayState) × (acquire s ≡ some s') × (s'.working ≡ 1))
unfolding acquire
IsReachable-exclusive s r = (
  ground (arith, IsReachable-IsHeld r),
  λ idle waits.
      let h = IsReachable-IsHeld r in
      let can : (not s.locked && ltb 0 s.waiting) ≡ true = ground arith in
      (
        record { locked = true; waiting = s.waiting - 1; working = s.working + 1 },
        rw can refl,
        omega arith,
      ),
)
