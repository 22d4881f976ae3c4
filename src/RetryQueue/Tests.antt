-- ===== src/RetryQueue/Tests.antt =====
-- A queue with two due items and one that waits, and a server that goes down after one post.
use ciscollector_v.Common.{
  ℕ, ◌≡◌, refl, true, false, none, some, List, [], ◌∷◌, lit, length, ◌==◌, if◌then◌else◌,
}
use ciscollector_v.RetryQueue.Defs.{
  PostError, api, QueuedPost, RetryQueue, Env, flush, backoff, is_auth_error, is_retryable,
}
use ciscollector_v.RetryQueue.Histories.{Call, post, block, flush_and}
use ciscollector_v.RetryQueue.Flush.{
  any_unauthorized, left_overs, fate, flush_during, enqueue_all, flush-left_overs,
  flush_during-enqueue_all,
}

abbrev server_error : PostError
server_error = api (record { path = lit "/report"; status_code = 503; message = [] })

-- the first post goes through, the others meet a server that is down
abbrev flaky : Env ℕ
flaky = record {
  cancelled = λ i. false;
  now = λ i. 100;
  post = λ i path body. if i == 0 then none else some server_error;
  later = λ i. 101;
}

abbrev post_at : ℕ → QueuedPost ℕ
post_at next_try = record { path = lit "/report"; body = 7; attempts = 1; next_try = next_try }

abbrev three_items : RetryQueue ℕ
three_items = record { items = post_at 90 ∷ post_at 95 ∷ post_at 200 ∷ []; auth_blocked = false }

flush-left_overs_example : flush flaky three_items ≡ (
    if any_unauthorized flaky 0 three_items.items
    then some (record three_items { auth_blocked = true }, length three_items.items)
    else some (
      record three_items { items = left_overs flaky 0 three_items.items },
      length (left_overs flaky 0 three_items.items),
    ))
flush-left_overs_example = flush-left_overs flaky three_items refl

abbrev three_calls : List (Call ℕ)
three_calls =
    post 90 (lit "/report") 7 ∷ flush_and flaky ((100, lit "/heartbeat", 8) ∷ []) ∷ block true ∷ []

flush_during-enqueue_all_example :
    flush_during flaky (enqueue_all ((100, lit "/heartbeat", 8) ∷ [])) three_items
    ≡ flush_during flaky (λ p. p) three_items
unfolding any_unauthorized fate backoff is_auth_error is_retryable
flush_during-enqueue_all_example =
    flush_during-enqueue_all flaky ((100, lit "/heartbeat", 8) ∷ []) three_items refl refl
