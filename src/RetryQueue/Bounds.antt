-- ===== src/RetryQueue/Bounds.antt =====
-- retry.go: the bounds of the queue (50 items, fewer than five attempts each), and `Enqueue`.
use ciscollector_v.Common.{
  ℕ, zero, suc, ◌+◌, ◌≤◌, ◌<◌, ◌≡◌, refl, some, List, [], ◌∷◌, Text, length, length-append, All,
  All-append, arith, inl, inr, Bool-cases, leb,
}
use ciscollector_v.RetryQueue.Defs.{
  max_queue_len, max_retries, backoff, QueuedPost, RetryQueue, tail_or_nil, make_room,
  new_retry_queue, enqueue,
}

pub backoff_in_range : (n : ℕ) → (wait : ℕ) × (backoff n ≡ some wait)
unfolding backoff
backoff_in_range zero = (2, refl)
backoff_in_range (suc zero) = (5, refl)
backoff_in_range (suc (suc zero)) = (10, refl)
backoff_in_range (suc (suc (suc zero))) = (30, refl)
backoff_in_range (suc (suc (suc (suc zero)))) = (60, refl)
backoff_in_range (suc (suc (suc (suc (suc n))))) = (60, ground arith)

module _ {B : Type 0} where
  abbrev pub HasRetries : QueuedPost B → Type 0
  HasRetries item = item.attempts < max_retries

  pub record IsBounded (q : RetryQueue B) : Type 0 where
    pub size : length q.items ≤ max_queue_len
    pub retries : All HasRetries q.items

  pub new_retry_queue-IsBounded : IsBounded new_retry_queue
  unfolding new_retry_queue
  new_retry_queue-IsBounded = record { size = omega arith; retries = tt }

  All-tail : (xs : List (QueuedPost B)) → All HasRetries xs → All HasRetries (tail_or_nil xs)
  All-tail [] h = tt
  All-tail (x ∷ xs) h = h.1

  make_room-HasRetries :
      (xs : List (QueuedPost B)) → All HasRetries xs → All HasRetries (make_room xs)
  unfolding make_room
  make_room-HasRetries xs h = elim (Bool-cases (leb max_queue_len (length xs))) [
    | inl e ↦ rw e (All-tail xs h)
    | inr e ↦ rw e h
  ]

  length-tail : (xs : List (QueuedPost B)) → 0 < length xs → length (tail_or_nil xs) + 1 ≡ length xs
  length-tail [] h = absurd (omega arith)
  length-tail (x ∷ xs) h = omega arith

  pub length-make_room :
      (xs : List (QueuedPost B))
      → length xs ≤ max_queue_len
      → length (make_room xs) + 1 ≤ max_queue_len
  unfolding make_room
  length-make_room xs h = ground (arith, length-tail xs)

  -- Enqueueing keeps the bounds: a full queue makes room first.
  pub enqueue-IsBounded :
      (now : ℕ) (path : Text) (body : B) {q : RetryQueue B}
      → IsBounded q
      → IsBounded (enqueue now path body q)
  unfolding enqueue
  enqueue-IsBounded now path body {q} h = elim (Bool-cases q.auth_blocked) [
    | inl e ↦ rw e (record { size = h.size; retries = h.retries })
    | inr e ↦ rw e (record {
      size = rw length-append (omega (arith, length-make_room q.items h.size));
      retries =
          All-append HasRetries (make_room q.items) _ (make_room-HasRetries q.items h.retries)
            (omega arith, tt);
    })
  ]
