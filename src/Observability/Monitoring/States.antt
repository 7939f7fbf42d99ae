-- ===== src/Observability/Monitoring/States.antt =====
-- packages/wazeko/src/observability/monitoring-server.ts: the state of a client that is shown.
use wazeko.Prelude.{◌≡◌, refl, some, List}
use wazeko.Text.{codes, text_eq}
use wazeko.Types.Events.{disconnected}
use wazeko.Client.{Wazeko}
use wazeko.Client.Announced.{Request, serve_all, announced, IsAnnounced, serve_all-IsAnnounced}
use wazeko.Observability.Reports.{at, state_name, string}
use wazeko.Observability.Monitoring.{Process, MonitoringServer, health}

module _ {W : Type 0} (p : Process) (m : MonitoringServer W) where
  -- After any requests of a program to a client whose state was the one told last, its monitor shows
  -- under /health the state that the listeners of the client were told last.
  pub health-announced :
      (qs : List Request) (c : Wazeko)
      → IsAnnounced c
      → m.client ≡ some (serve_all qs c)
      → at (codes "state") (at (codes "connection") (health p m))
        ≡ string (state_name (announced disconnected (serve_all qs c).emitted))
  unfolding health text_eq
  health-announced qs c h e = rw (e, serve_all-IsAnnounced qs c h) refl
