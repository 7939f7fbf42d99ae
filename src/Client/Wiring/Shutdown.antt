-- ===== src/Client/Wiring/Shutdown.antt =====
-- packages/wazeko/src/client.ts: the end of a client whose monitor runs.
use wazeko.Prelude.{ℕ, ◌<◌, ◌⊎◌, List, ◌≡◌, false}
use wazeko.Text.{Text}
use wazeko.Observability.Logger.{Values}
use wazeko.Observability.Monitoring.Server.{
  resolved, rejected, not_running, start, in_use, IsFresh, start-Lives,
}
use wazeko.Client.Wiring.{Parts, disconnect}

module _ {v : Values} {W S : Type 0} (free_port : List (ℕ × ℕ) → ℕ) where
  -- The client with its monitor started.
  abbrev pub monitored : Parts v W S → Parts v W S
  monitored a = record a {
    monitor = (start free_port a.monitor a.sockets).1;
    sockets = (start free_port a.monitor a.sockets).2;
  }

  -- Where the port of its monitor is 0, or below 65536 with no server that listens at it, a client
  -- whose monitor was started
  -- disconnects, with the server closed; one more disconnect is rejected.
  pub disconnect-again :
      (reason : Text) (a : Parts v W S)
      → IsFresh a.sockets.next a.sockets.listening
      → a.monitor.port < 65536
      → (a.monitor.port ≡ 0) ⊎ (in_use a.monitor.port a.sockets.listening ≡ false)
      → ((disconnect reason (monitored a)).0 ≡ resolved)
        × ((disconnect reason (monitored a)).1.sockets.listening ≡ a.sockets.listening)
        × ((disconnect reason (disconnect reason (monitored a)).1).0 ≡ rejected not_running)
  unfolding disconnect
  disconnect-again reason a h small e =
      let lives = start-Lives free_port a.monitor a.sockets h small e in
      (lives.stopped, lives.left, lives.stopped_again)
