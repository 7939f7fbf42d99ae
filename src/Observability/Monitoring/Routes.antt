-- ===== src/Observability/Monitoring/Routes.antt =====
-- packages/wazeko/src/observability/monitoring-server.ts: which paths are answered.
use wazeko.Prelude.{
  ◌≡◌, refl, Bool, false, ◌||◌, Option, List, [], ◌∷◌, if◌then◌else◌, arith, ◌++◌, true,
}
use wazeko.Text.{text_eq_sound, Text, codes, text_eq}
use wazeko.Core.Errors.{Thrown, threw}
use wazeko.Queue.RateLimiter.{or_else}
use wazeko.Observability.Monitoring.{
  Process, MonitoringServer, render_health, render_metrics, render_qr_page, render_qr_json, respond,
  handle_request,
}

abbrev pub known_paths : List Text
known_paths =
    codes "/health"
    ∷ codes "/status"
    ∷ codes "/metrics"
    ∷ codes "/qr"
    ∷ codes "/login"
    ∷ codes "/api/qr"
    ∷ []

abbrev pub is_among : Text → List Text → Bool
is_among path [] = false
is_among path (known ∷ more) = text_eq path known || is_among path more

exclusive : (path a b : Text) → text_eq a b ≡ false → text_eq path a ≡ true → text_eq path b ≡ false
exclusive path a b n e = rw (text_eq_sound path a e) n

module _ {W : Type 0} (p : Process) (m : MonitoringServer W) where
  -- The six paths that are served are answered with the status 200 and every other path with 404,
  -- /qr and /login as a page and every other path as JSON.
  pub respond-status :
      (path : Text)
      → ((respond p m path).status ≡ (if is_among path known_paths then 200 else 404))
        × ((respond p m path).content_type ≡ (
            if text_eq path (codes "/qr") || text_eq path (codes "/login")
            then codes "text/html; charset=utf-8"
            else codes "application/json"))
  unfolding text_eq respond render_health render_metrics render_qr_page render_qr_json
  respond-status path =
      let not_qr = λ (a : Text). exclusive path a (codes "/qr") in
      let not_login = λ (a : Text). exclusive path a (codes "/login") in
      (
        ground arith,
        ground (
          arith,
          not_qr (codes "/health") refl,
          not_qr (codes "/status") refl,
          not_qr (codes "/metrics") refl,
          not_login (codes "/health") refl,
          not_login (codes "/status") refl,
          not_login (codes "/metrics") refl,
        ),
      )

  -- A request without an error in its URL is answered by its path, `/` where it has none, and one
  -- whose URL is refused throws.
  pub handle_request-refused :
      (url host : Option Text) (e : Thrown)
      → p.pathname (or_else url (codes "/")) (codes "http://" ++ or_else host (codes "localhost"))
        ≡ threw e
      → handle_request p m url host ≡ threw e
  unfolding handle_request
  handle_request-refused url host e h = rw h refl
