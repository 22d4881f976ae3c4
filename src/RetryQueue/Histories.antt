-- ===== src/RetryQueue/Histories.antt =====
-- retry.go: the queue after any sequence of calls of `Enqueue`, `SetAuthBlocked` and `Flush`.
use ciscollector_v.Common.{ℕ, ◌≡◌, Bool, Option, some, List, [], ◌∷◌, Text}
use ciscollector_v.Common.Options.{◌>>=◌}
use ciscollector_v.RetryQueue.Defs.{RetryQueue, Env, set_auth_blocked, enqueue}
use ciscollector_v.RetryQueue.Bounds.{IsBounded}
use ciscollector_v.RetryQueue.Flush.{flush_during, enqueue_all}

-- A call on the queue; posts may be enqueued while a flush works.
pub data Call (B : Type 0) : Type 0 where
  post : ℕ → Text → B → Call B
  block : Bool → Call B
  flush_and : Env B → List (ℕ × Text × B) → Call B

module _ {B : Type 0} where
  -- `none` is a panic
  unfoldable pub step : Call B → RetryQueue B → Option (RetryQueue B)
  unfolding enqueue set_auth_blocked flush_during enqueue_all
  step (post now path body) q = some (enqueue now path body q)
  step (block blocked) q = some (set_auth_blocked blocked q)
  step (flush_and env posts) q = do p ← flush_during env (enqueue_all posts) q; some p.0

  unfoldable pub run_calls : List (Call B) → RetryQueue B → Option (RetryQueue B)
  unfolding step
  run_calls [] q = some q
  run_calls (c ∷ cs) q = do q' ← step c q; run_calls cs q'

  abbrev StepsTo : Option (RetryQueue B) → Type 0
  StepsTo o = (q : RetryQueue B) × (o ≡ some q) × IsBounded q
