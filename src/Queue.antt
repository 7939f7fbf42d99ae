-- ===== src/Queue.antt =====
-- packages/wazeko/src/queue: the rate limiter and the message queue.
pub mod RateLimiter
pub mod Job
pub mod MessageQueue
pub mod Machine
pub mod Examples
