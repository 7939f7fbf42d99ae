-- ===== src/Events.antt =====
-- packages/wazeko/src/events.ts: `AsyncEventQueue`. An event is of a type `A`, and a promise that
-- `next` hands out is its number, in the order of the calls. `disconnected` is the event that
-- `close` hands to the waiters.
pub mod Order
pub mod Fifo
pub mod Examples
use wazeko.Prelude.{
  ℕ, zero, suc, ◌+◌, Bool, true, false, Option, none, some, List, [], ◌∷◌, ◌++◌, if◌then◌else◌,
}

-- What a promise was settled with; `none` is `null`.
pub record Delivery {ℓ} (A : Type ℓ) : Type ℓ where
  pub promise : ℕ
  pub item : Option A

pub record AsyncEventQueue {ℓ} (A : Type ℓ) : Type ℓ where
  pub queue : List A
  pub waiters : List ℕ
  pub closed : Bool
  -- The number of the next promise, and the deliveries so far, the first one first.
  pub asked : ℕ
  pub deliveries : List (Delivery A)

module _ {ℓ} {A : Type ℓ} where
  unfoldable pub create : AsyncEventQueue A
  create = record { queue = []; waiters = []; closed = false; asked = 0; deliveries = [] }

  abbrev pub deliver : ℕ → Option A → AsyncEventQueue A → AsyncEventQueue A
  deliver promise item q = record q {
    deliveries = q.deliveries ++ record { promise = promise; item = item } ∷ [];
  }

  abbrev pub push_open : A → List ℕ → AsyncEventQueue A → AsyncEventQueue A
  push_open item [] q = record q { queue = q.queue ++ item ∷ [] }
  push_open item (waiter ∷ rest) q = deliver waiter (some item) (record q { waiters = rest })

  unfoldable pub push : A → AsyncEventQueue A → AsyncEventQueue A
  push item q = if q.closed then q else push_open item q.waiters q

  -- The call of `next` with the number `q.asked`.
  abbrev pub next_of : List A → AsyncEventQueue A → AsyncEventQueue A
  next_of [] q =
      if q.closed then deliver q.asked none q else record q { waiters = q.waiters ++ q.asked ∷ [] }
  next_of (item ∷ rest) q = deliver q.asked (some item) (record q { queue = rest })

  unfoldable pub next : AsyncEventQueue A → AsyncEventQueue A
  next q = record (next_of q.queue q) { asked = q.asked + 1 }

  unfoldable pub release : A → List ℕ → AsyncEventQueue A → AsyncEventQueue A
  release disconnected [] q = record q { waiters = [] }
  release disconnected (waiter ∷ rest) q =
      release disconnected rest (deliver waiter (some disconnected) q)

  unfoldable pub close : A → AsyncEventQueue A → AsyncEventQueue A
  unfolding release
  close disconnected q = release disconnected q.waiters (record q { closed = true })

  -- A round of the asynchronous iterator: the promise whose event it yields, or none where it ends.
  -- It ends too where the promise is settled with `null`.
  unfoldable pub iterate : AsyncEventQueue A → Option ℕ × AsyncEventQueue A
  unfolding next
  iterate q = if q.closed then (none, q) else (some q.asked, next q)
