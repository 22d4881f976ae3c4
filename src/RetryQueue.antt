-- ===== src/RetryQueue.antt =====
-- pkg/mainserverclient/retry.go and errors.go: the queue of failed API posts.
-- A flush copies the items under the lock, works without it, and writes back under it, so its
-- two locked sections are operations of their own. Times are in seconds. What the outside does
-- in a flush is an `Env`, indexed by the item's place among the pending ones: whether the context
-- is cancelled, the two readings of the clock, and the answer of `postFn`.
pub mod Defs
pub mod Bounds
pub mod Flush
pub mod Histories
mod Tests
