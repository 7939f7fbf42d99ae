-- ===== src/Observability/Monitoring/Server.antt =====
-- packages/wazeko/src/observability/monitoring-server.ts: how the server is started and stopped.
use wazeko.Prelude.{
  leb, not, ◌&&◌, ◌≤◌, ◌⊎◌, inl, inr, ◌<◌, ◌≡◌, refl, arith, ℕ, ◌+◌, Bool, false, ◌||◌, Option,
  none, some, List, [], ◌∷◌, ◌==◌, if◌then◌else◌, true, Bool-cases,
}
use wazeko.Text.{codes}
use wazeko.Core.Errors.{Thrown, plain_error}
use wazeko.Observability.Monitoring.{MonitoringServer}

-- The servers of node that listen, each with its port, and the number of the next server.
pub record Sockets : Type 0 where
  pub listening : List (ℕ × ℕ)
  pub next : ℕ

abbrev pub in_use : ℕ → List (ℕ × ℕ) → Bool
in_use port [] = false
in_use port ((id, taken) ∷ servers) = (taken == port) || in_use port servers

abbrev pub listens : ℕ → List (ℕ × ℕ) → Bool
listens id [] = false
listens id ((other, port) ∷ servers) = (other == id) || listens id servers

abbrev pub closed : ℕ → List (ℕ × ℕ) → List (ℕ × ℕ)
closed id [] = []
closed id ((other, port) ∷ servers) =
    if other == id then closed id servers else (other, port) ∷ closed id servers

-- How a call ends: its promise is resolved or rejected, or a server that cannot listen emits an
-- error that no one listens to, which ends the process.
pub data Ending : Type 0 where
  resolved : Ending
  rejected : Thrown → Ending
  crashed : Ending

abbrev pub not_running : Thrown
not_running = plain_error (codes "Server is not running.")

abbrev pub close : Option ℕ → Sockets → Ending × Sockets
close none s = (resolved, s)
close (some id) s =
    if listens id s.listening
    then (resolved, record s { listening = closed id s.listening })
    else (rejected not_running, s)

-- `listen` on a port that is out of range throws, within the promise.
abbrev pub bad_port : Thrown
bad_port = plain_error (codes "options.port should be >= 0 and < 65536.")

-- Where the port is 0, the system has the server listen at one that is free, `free_port`.
abbrev pub listen : (List (ℕ × ℕ) → ℕ) → ℕ → Sockets → Ending × Sockets
listen free_port port s =
    let taken_id = record s { next = s.next + 1 } in
    let at = if port == 0 then free_port s.listening else port in
    if leb 65536 port
    then (rejected bad_port, taken_id)
    else if not (port == 0) && in_use port s.listening
    then (crashed, taken_id)
    else (resolved, record { listening = (s.next, at) ∷ s.listening; next = s.next + 1 })

module _ {W : Type 0} where
  -- The server is kept before it listens. Its port is free where no server listens at it.
  unfoldable pub start :
      (List (ℕ × ℕ) → ℕ) → MonitoringServer W → Sockets → Ending × MonitoringServer W × Sockets
  start free_port m s =
      let (ending, after) = listen free_port m.port s in
      (ending, record m { server = some s.next }, after)

  -- The connections that a server still has end in time.
  unfoldable pub stop : MonitoringServer W → Sockets → Ending × MonitoringServer W × Sockets
  stop m s = let (ending, after) = close m.server s in (ending, m, after)

abbrev pub IsFresh : ℕ → List (ℕ × ℕ) → Type 0
IsFresh next [] = Unit
IsFresh next ((id, port) ∷ servers) = (id < next) × IsFresh next servers

closed-fresh : (id : ℕ) (servers : List (ℕ × ℕ)) → IsFresh id servers → closed id servers ≡ servers
closed-fresh id [] h = refl
closed-fresh id ((other, port) ∷ servers) (h, hs) = ground (arith, closed-fresh id servers hs)

listens-fresh : (id : ℕ) (servers : List (ℕ × ℕ)) → IsFresh id servers → listens id servers ≡ false
listens-fresh id [] h = refl
listens-fresh id ((other, port) ∷ servers) (h, hs) = ground (arith, listens-fresh id servers hs)

module _ {W : Type 0} (free_port : List (ℕ × ℕ) → ℕ) where
  -- A start, a stop after it and one more stop, and one more start in place of the stop.
  pub record Lives (m : MonitoringServer W) (s : Sockets) : Type 0 where
    pub started : (start free_port m s).0 ≡ resolved
    pub restarted :
        (start free_port (start free_port m s).1 (start free_port m s).2).0
        ≡ (if m.port == 0 then resolved else crashed)
    pub stopped : (stop (start free_port m s).1 (start free_port m s).2).0 ≡ resolved
    pub left : (stop (start free_port m s).1 (start free_port m s).2).2.listening ≡ s.listening
    pub stopped_again :
        (stop
          (stop (start free_port m s).1 (start free_port m s).2).1
          (stop (start free_port m s).1 (start free_port m s).2).2).0
        ≡ rejected not_running

  opened : ℕ → MonitoringServer W → Sockets → Ending × MonitoringServer W × Sockets
  opened port m s = (
    resolved,
    record m { server = some s.next },
    record { listening = (s.next, port) ∷ s.listening; next = s.next + 1 },
  )

  opened-Lives :
      (port : ℕ) (m : MonitoringServer W) (s : Sockets)
      → IsFresh s.next s.listening
      → start free_port m s ≡ opened port m s
      → (start free_port (record m { server = some s.next }) (opened port m s).2).0
        ≡ (if m.port == 0 then resolved else crashed)
      → Lives m s
  unfolding opened stop
  opened-Lives port m s h e again =
      let same : (s.next == s.next) ≡ true = ground arith in
      let gone = closed-fresh s.next s.listening h in
      let off = listens-fresh s.next s.listening h in
      record {
        started = rw e refl;
        restarted = rw e again;
        stopped = rw (e, same) refl;
        left = rw (e, same) gone;
        stopped_again = rw (e, same, gone, off) refl;
      }

  -- Where a start of a monitor succeeds, which it does at a port below 65536 at which no server
  -- listens and at the port 0, a stop closes what was opened and nothing else, and one more stop is
  -- rejected, as the server is still kept. One more start while it runs ends the process, but at the
  -- port 0, where the system has another port for it.
  pub start-Lives :
      (m : MonitoringServer W) (s : Sockets)
      → IsFresh s.next s.listening
      → m.port < 65536
      → (m.port ≡ 0) ⊎ (in_use m.port s.listening ≡ false)
      → Lives m s
  unfolding opened start
  start-Lives m s h small e =
      let in_range : leb 65536 m.port ≡ false = ground arith in
      let port : (m.port == m.port) ≡ true = ground arith in
      elim (Bool-cases (m.port == 0)) [
        | inl any ↦
            opened-Lives (free_port s.listening) m s h (rw (in_range, any) refl)
              (rw (in_range, any) refl)
        | inr given ↦
            let free : in_use m.port s.listening ≡ false = elim e [
              | inl none_given ↦ absurd (let n = none_given in ground arith)
              | inr free ↦ free
            ] in
            opened-Lives m.port m s h (rw (in_range, given, free) refl)
              (rw (in_range, given, port) refl)
      ]

  -- At a port of 65536 or more a start is rejected, no server listens after it, and a stop is
  -- rejected too, as the server is kept.
  pub start-rejected :
      (m : MonitoringServer W) (s : Sockets)
      → IsFresh s.next s.listening
      → 65536 ≤ m.port
      → ((start free_port m s).0 ≡ rejected bad_port)
        × ((start free_port m s).2.listening ≡ s.listening)
        × ((stop (start free_port m s).1 (start free_port m s).2).0 ≡ rejected not_running)
  unfolding start stop
  start-rejected m s h big =
      let out : leb 65536 m.port ≡ true = ground arith in
      let off = listens-fresh s.next s.listening h in rw (out, off) (refl, refl, refl)
