-- ===== src/RetryQueue/Defs.antt =====
-- retry.go and errors.go: the queue, its operations and the classification of errors.
use ciscollector_v.Common.{
  ℕ, ◌+◌, ◌-◌, Bool, true, false, not, ◌||◌, Option, none, some, List, [], ◌∷◌, ◌++◌, Text, length,
  get_elem?, is_nil, leb, ltb, ◌==◌, if◌then◌else◌,
}

-- `APIError`
pub record ApiError : Type 0 where
  pub path : Text
  pub status_code : ℕ
  pub message : Text

-- A non-nil `error`: an `*APIError`, or another one.
pub data PostError : Type 0 where
  api : ApiError → PostError
  other : PostError

-- `IsAuthError`; `none` is nil
unfoldable pub is_auth_error : Option PostError → Bool
is_auth_error none = false
is_auth_error (some (api ae)) = ae.status_code == 401
is_auth_error (some other) = false

-- `IsRetryable`
unfoldable pub is_retryable : Option PostError → Bool
is_retryable none = false
is_retryable (some (api ae)) = leb 500 ae.status_code || ae.status_code == 429
is_retryable (some other) = true

abbrev pub max_retries : ℕ
max_retries = 5

abbrev pub max_queue_len : ℕ
max_queue_len = 50

abbrev pub retry_backoff : List ℕ
retry_backoff = 2 ∷ 5 ∷ 10 ∷ 30 ∷ 60 ∷ []

-- `retryBackoff[0]`
abbrev pub first_backoff : ℕ
first_backoff = 2

-- `retryBackoff[idx]` behind the clamp of `idx`; `none` is an index out of range
unfoldable pub backoff : ℕ → Option ℕ
backoff attempts =
    get_elem? retry_backoff
      (if leb (length retry_backoff) attempts then length retry_backoff - 1 else attempts)

pub record QueuedPost (B : Type 0) : Type 0 where
  pub path : Text
  pub body : B
  pub attempts : ℕ
  pub next_try : ℕ

pub record RetryQueue (B : Type 0) : Type 0 where
  pub items : List (QueuedPost B)
  pub auth_blocked : Bool

pub record Env (B : Type 0) : Type 0 where
  pub cancelled : ℕ → Bool
  pub now : ℕ → ℕ
  pub post : ℕ → Text → B → Option PostError
  pub later : ℕ → ℕ

-- What the loop of a flush leaves: the items to write back, the calls of `postFn` that were made,
-- and whether one of them was refused as unauthorized; `none` is a panic.
pub record Round (B : Type 0) : Type 0 where
  pub remaining : List (QueuedPost B)
  pub posted : List (QueuedPost B)
  pub auth_failed : Bool

abbrev pub tail_or_nil {ℓ} : {A : Type ℓ} → List A → List A
tail_or_nil [] = []
tail_or_nil (x ∷ xs) = xs

module _ {B : Type 0} where
  unfoldable pub new_retry_queue : RetryQueue B
  new_retry_queue = record { items = []; auth_blocked = false }

  unfoldable pub set_auth_blocked : Bool → RetryQueue B → RetryQueue B
  set_auth_blocked blocked q = record q { auth_blocked = blocked }

  -- a full queue drops its oldest item
  unfoldable pub make_room : List (QueuedPost B) → List (QueuedPost B)
  make_room items = if leb max_queue_len (length items) then tail_or_nil items else items

  -- `Enqueue`, at the time `now`
  unfoldable pub enqueue : ℕ → Text → B → RetryQueue B → RetryQueue B
  unfolding make_room
  enqueue now path body q = if q.auth_blocked then q else record q {
    items =
        make_room q.items
        ++ record { path = path; body = body; attempts = 0; next_try = now + first_backoff } ∷ [];
  }

  abbrev pub keep_item : QueuedPost B → Option (Round B) → Option (Round B)
  keep_item item none = none
  keep_item item (some r) = some (record r { remaining = item ∷ r.remaining })

  abbrev pub posted_item : QueuedPost B → Option (Round B) → Option (Round B)
  posted_item item none = none
  posted_item item (some r) = some (record r { posted = item ∷ r.posted })

  -- `remaining = append(remaining, item)` with the new number of attempts and the new time
  unfoldable pub defer_item : ℕ → QueuedPost B → Option (Round B) → Option (Round B)
  defer_item later item rest = elim (backoff (item.attempts + 1)) [
    | none ↦ none
    | some wait ↦
        keep_item (record item { attempts = item.attempts + 1; next_try = later + wait }) rest
  ]

  -- the branches behind the call of `postFn`
  unfoldable pub after_post :
      ℕ → QueuedPost B → Option (Round B) → Option PostError → Option (Round B)
  unfolding is_auth_error is_retryable defer_item
  after_post later item rest none = posted_item item rest
  after_post later item rest (some err) =
      if is_auth_error (some err)
      then some (record { remaining = []; posted = item ∷ []; auth_failed = true })
      else if leb max_retries (item.attempts + 1) || not (is_retryable (some err))
      then posted_item item rest
      else posted_item item (defer_item later item rest)

  -- the loop of `Flush` over the pending items, the first of which has index `i`
  unfoldable pub flush_loop : Env B → ℕ → List (QueuedPost B) → Option (Round B)
  unfolding after_post
  flush_loop env i [] = some (record { remaining = []; posted = []; auth_failed = false })
  flush_loop env i (item ∷ items) =
      let rest = flush_loop env (i + 1) items in
      if env.cancelled i
      then keep_item item rest
      else if ltb (env.now i) item.next_try
      then keep_item item rest
      else after_post (env.later i) item rest (env.post i item.path item.body)

  -- the last locked section of `Flush`
  unfoldable pub write_back : List (QueuedPost B) → RetryQueue B → RetryQueue B
  write_back remaining q = record q { items = remaining }

  -- what `Flush` does with the queue, and the number that it returns, once the loop is over
  unfoldable pub finish_flush : ℕ → Round B → RetryQueue B → RetryQueue B × ℕ
  unfolding set_auth_blocked write_back
  finish_flush pending r q =
      if r.auth_failed
      then (set_auth_blocked true q, pending)
      else (write_back r.remaining q, length r.remaining)

  -- `Flush`, when nothing else runs between its locked sections
  unfoldable pub flush : Env B → RetryQueue B → Option (RetryQueue B × ℕ)
  unfolding flush_loop finish_flush
  flush env q =
      if q.auth_blocked || is_nil q.items
      then some (q, length q.items)
      else elim (flush_loop env 0 q.items) [
        | none ↦ none
        | some r ↦ some (finish_flush (length q.items) r q)
      ]
