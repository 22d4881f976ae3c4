-- ===== src/RetryQueue/Flush.antt =====
-- `Flush` of retry.go: what it does to the queue, item by item, alone and with posts enqueued meanwhile.
use ciscollector_v.Common.{
  ℕ, ◌+◌, ◌≤◌, ◌≡◌, refl, sym, ◌∙◌, Bool, true, false, not, ◌||◌, Option, none, some, List, [], ◌∷◌,
  ◌++◌, Text, length, All, All-append, arith, inl, inr, Bool-cases, leb, ltb, is_nil, if◌then◌else◌,
}
use ciscollector_v.RetryQueue.Bounds.{backoff_in_range, HasRetries}
use ciscollector_v.RetryQueue.Defs.{
  PostError, is_auth_error, is_retryable, max_retries, QueuedPost, RetryQueue, Env, Round,
  set_auth_blocked, enqueue, keep_item, posted_item, after_post, flush_loop, write_back,
  finish_flush, flush,
}

-- What becomes of one item of a flush.
pub data Fate : Type 0 where
  waits delivered unauthorized given_up deferred : Fate

abbrev pub answer_fate : ℕ → Option PostError → Fate
answer_fate attempts none = delivered
answer_fate attempts (some err) =
    if is_auth_error (some err)
    then unauthorized
    else if leb max_retries (attempts + 1) || not (is_retryable (some err))
    then given_up
    else deferred

abbrev pub is_unauthorized : Fate → Bool
is_unauthorized unauthorized = true
is_unauthorized _ = false

module _ {B : Type 0} where
  unfoldable pub fate : Env B → ℕ → QueuedPost B → Fate
  fate env i item =
      if env.cancelled i || ltb (env.now i) item.next_try
      then waits
      else answer_fate item.attempts (env.post i item.path item.body)

  -- The item with one more attempt, due after the pause for that number of attempts.
  unfoldable pub put_off : Env B → ℕ → QueuedPost B → QueuedPost B
  put_off env i item = record item {
    attempts = item.attempts + 1;
    next_try = env.later i + (backoff_in_range (item.attempts + 1)).0;
  }

  abbrev pub left_over : Env B → ℕ → QueuedPost B → Fate → List (QueuedPost B)
  left_over env i item waits = item ∷ []
  left_over env i item deferred = put_off env i item ∷ []
  left_over env i item _ = []

  -- The items that are still to be posted, in order.
  unfoldable pub left_overs : Env B → ℕ → List (QueuedPost B) → List (QueuedPost B)
  left_overs env i [] = []
  left_overs env i (item ∷ items) =
      left_over env i item (fate env i item) ++ left_overs env (i + 1) items

  -- Some item that is due is answered by 401.
  unfoldable pub any_unauthorized : Env B → ℕ → List (QueuedPost B) → Bool
  any_unauthorized env i [] = false
  any_unauthorized env i (item ∷ items) =
      is_unauthorized (fate env i item) || any_unauthorized env (i + 1) items

  -- the round that follows from the fate of the first item
  abbrev advance : Env B → ℕ → QueuedPost B → Fate → Option (Round B) → Option (Round B)
  advance env i item waits rest = keep_item item rest
  advance env i item delivered rest = posted_item item rest
  advance env i item unauthorized rest =
      some (record { remaining = []; posted = item ∷ []; auth_failed = true })
  advance env i item given_up rest = posted_item item rest
  advance env i item deferred rest = posted_item item (keep_item (put_off env i item) rest)

  after_post-advance :
      (env : Env B) (i : ℕ) (item : QueuedPost B) (rest : Option (Round B)) (o : Option PostError)
      → after_post (env.later i) item rest o ≡ advance env i item (answer_fate item.attempts o) rest
  unfolding after_post put_off
  after_post-advance env i item rest none = refl
  after_post-advance env i item rest (some err) =
      ground (arith, (backoff_in_range (item.attempts + 1)).1)

  flush_loop-advance :
      (env : Env B) (i : ℕ) (item : QueuedPost B) (items : List (QueuedPost B))
      → flush_loop env i (item ∷ items)
        ≡ advance env i item (fate env i item) (flush_loop env (i + 1) items)
  unfolding flush_loop fate
  flush_loop-advance env i item items =
      let answer = env.post i item.path item.body in
      let done = after_post-advance env i item (flush_loop env (i + 1) items) answer in
      elim (Bool-cases (env.cancelled i)) [
        | inl c ↦ rw c
        | inr c ↦ elim (Bool-cases (ltb (env.now i) item.next_try)) [
          | inl d ↦ rw (c, d)
          | inr d ↦ rw (c, d) done
        ]
      ]

  -- a loop that has run to its end, or was refused
  abbrev LoopDone : Env B → ℕ → List (QueuedPost B) → Option (Round B) → Type 0
  LoopDone env i items o =
      (r : Round B) × (o ≡ some r)
      × (r.auth_failed ≡ any_unauthorized env i items)
      × (any_unauthorized env i items ≡ false → r.remaining ≡ left_overs env i items)

  flush_loop-LoopDone :
      (env : Env B) (i : ℕ) (items : List (QueuedPost B))
      → LoopDone env i items (flush_loop env i items)
  unfolding flush_loop any_unauthorized left_overs
  flush_loop-LoopDone env i [] = (_, refl, refl, λ _. refl)
  flush_loop-LoopDone env i (item ∷ items) =
      rw (flush_loop-advance env i item items)
        (step (fate env i item) (flush_loop-LoopDone env (i + 1) items))
    where
      step :
          (f : Fate)
          → LoopDone env (i + 1) items (flush_loop env (i + 1) items)
          → (r : Round B) × (advance env i item f (flush_loop env (i + 1) items) ≡ some r)
            × (r.auth_failed ≡ (is_unauthorized f || any_unauthorized env (i + 1) items))
            × ((is_unauthorized f || any_unauthorized env (i + 1) items) ≡ false
                → r.remaining ≡ left_over env i item f ++ left_overs env (i + 1) items)
      step waits (r, e, failed, left) =
          (record r { remaining = item ∷ r.remaining }, rw e, failed, λ h. rw (left h))
      step delivered (r, e, failed, left) =
          (record r { posted = item ∷ r.posted }, rw e, failed, left)
      step unauthorized rest = (_, refl, refl, λ h. cc)
      step given_up (r, e, failed, left) =
          (record r { posted = item ∷ r.posted }, rw e, failed, left)
      step deferred (r, e, failed, left) = (
        record r { remaining = put_off env i item ∷ r.remaining; posted = item ∷ r.posted },
        rw e,
        failed,
        λ h. rw (left h),
      )

  -- `Flush` with `other` done to the queue between its two locked sections; if the first one returns,
  -- `other` comes after it.
  unfoldable pub flush_during :
      Env B → (RetryQueue B → RetryQueue B) → RetryQueue B → Option (RetryQueue B × ℕ)
  unfolding flush_loop finish_flush
  flush_during env other q =
      if q.auth_blocked || is_nil q.items
      then some (other q, length q.items)
      else elim (flush_loop env 0 q.items) [
        | none ↦ none
        | some r ↦ some (finish_flush (length q.items) r (other q))
      ]

  pub flush_during-result :
      (env : Env B) (other : RetryQueue B → RetryQueue B) (q : RetryQueue B)
      → (q.auth_blocked || is_nil q.items) ≡ false
      → flush_during env other q ≡ (
          if any_unauthorized env 0 q.items
          then some (set_auth_blocked true (other q), length q.items)
          else some
              (write_back (left_overs env 0 q.items) (other q), length (left_overs env 0 q.items)))
  unfolding flush_during
  flush_during-result env other q h =
      let (r, e, failed, left) = flush_loop-LoopDone env 0 q.items in
      elim (Bool-cases (any_unauthorized env 0 q.items)) [
        | inl u ↦ rw (h, e, flush_during) (rw (failed, u) refl)
        | inr u ↦ rw (h, e, flush_during) (rw (failed, u, left u) refl)
      ]

  empty_items : (q : RetryQueue B) → is_nil q.items ≡ true → q.items ≡ []
  empty_items q h = ground arith

  -- Undisturbed, it is `flush`.
  pub flush-flush_during :
      (env : Env B) (q : RetryQueue B) → flush env q ≡ flush_during env (λ p. p) q
  unfolding flush flush_during
  flush-flush_during env q = refl

  -- A flush of a queue that is not blocked never panics. If some due item is answered by 401, the
  -- queue is blocked with all its items, and the result is their number. Otherwise
  -- each item has gone by its own fate: one that waits stays as it was, one whose attempt failed
  -- with a transient error, with fewer than five attempts, is put off, and no other stays.
  pub flush-left_overs :
      (env : Env B) (q : RetryQueue B)
      → q.auth_blocked ≡ false
      → flush env q ≡ (
          if any_unauthorized env 0 q.items
          then some (record q { auth_blocked = true }, length q.items)
          else some
              (record q { items = left_overs env 0 q.items }, length (left_overs env 0 q.items)))
  unfolding flush flush_during any_unauthorized left_overs
  flush-left_overs env q h = elim (Bool-cases (is_nil q.items)) [
    | inl e ↦ ground (arith, empty_items q e)
    | inr e ↦ flush-flush_during env q ∙ flush_during-result env (λ p. p) q (ground (arith, h, e))
  ]

  -- The posts enqueued while a flush works, oldest first, each with its time.
  unfoldable pub enqueue_all : List (ℕ × Text × B) → RetryQueue B → RetryQueue B
  enqueue_all [] q = q
  enqueue_all ((now, path, body) ∷ posts) q = enqueue_all posts (enqueue now path body q)

  write_back-enqueue :
      (remaining : List (QueuedPost B)) (now : ℕ) (path : Text) (body : B) (q : RetryQueue B)
      → write_back remaining (enqueue now path body q) ≡ write_back remaining q
  unfolding write_back enqueue
  write_back-enqueue remaining now path body q = ground arith

  write_back-enqueue_all :
      (remaining : List (QueuedPost B)) (posts : List (ℕ × Text × B)) (q : RetryQueue B)
      → write_back remaining (enqueue_all posts q) ≡ write_back remaining q
  unfolding enqueue_all
  write_back-enqueue_all remaining [] q = refl
  write_back-enqueue_all remaining ((now, path, body) ∷ posts) q =
      write_back-enqueue_all remaining posts (enqueue now path body q)
      ∙ write_back-enqueue remaining now path body q

  -- If the queue is not blocked and not empty when a flush begins, and no due item is answered by
  -- 401, then the posts that are enqueued while the flush works are lost: the queue ends as if they
  -- had never been enqueued.
  pub flush_during-enqueue_all :
      (env : Env B) (posts : List (ℕ × Text × B)) (q : RetryQueue B)
      → (q.auth_blocked || is_nil q.items) ≡ false
      → any_unauthorized env 0 q.items ≡ false
      → flush_during env (enqueue_all posts) q ≡ flush_during env (λ p. p) q
  flush_during-enqueue_all env posts q free h =
      flush_during-result env (enqueue_all posts) q free
      ∙ rw (h, write_back-enqueue_all) (sym (rw h at (flush_during-result env (λ p. p) q free)))

  left_over-HasRetries :
      (env : Env B) (i : ℕ) (item : QueuedPost B)
      → HasRetries item
      → All HasRetries (left_over env i item (fate env i item))
  unfolding fate put_off
  left_over-HasRetries env i item h = ground arith

  pub left_overs-HasRetries :
      (env : Env B) (i : ℕ) (items : List (QueuedPost B))
      → All HasRetries items
      → All HasRetries (left_overs env i items)
  unfolding left_overs
  left_overs-HasRetries env i [] h = tt
  left_overs-HasRetries env i (item ∷ items) h =
      All-append HasRetries _ _ (left_over-HasRetries env i item h.0)
        (left_overs-HasRetries env (i + 1) items h.1)

  pub length-left_overs :
      (env : Env B) (i : ℕ) (items : List (QueuedPost B))
      → length (left_overs env i items) ≤ length items
  unfolding left_overs
  length-left_overs env i [] = omega arith
  length-left_overs env i (item ∷ items) = ground (arith, length-left_overs env (i + 1) items)
