-- ===== src/Plugins/Middleware/Cooldown.antt =====
-- packages/wazeko/src/plugins/middleware.ts: the cooldown guard and the execution logger. Time stands
-- still between two awaits.
use wazeko.Prelude.{ℕ, ◌+◌, ◌-◌, ◌*◌, Option, none, some, ◌++◌, ltb, if◌then◌else◌}
use wazeko.Text.{Text, codes}
use wazeko.Map.{Map, text_key}
use wazeko.Map as Maps
use wazeko.Queue.RateLimiter.{or_else}
use wazeko.Plugins.Middleware.{
  Settled, fulfilled, rejected, ends, acts, calls_next, CommandDefinition, CommandContext,
  MiddlewareFn, pass, refuse,
}

-- What a guard reads of the world and changes in it: the clock, in milliseconds, and its own map.
pub record Clock (W : Type 0) : Type 0 where
  pub now : W → ℕ
  pub user_cooldowns : W → Map Text ℕ
  pub set_user_cooldowns : Map Text ℕ → W → W

abbrev pub cooldown_of : Option CommandDefinition → ℕ
cooldown_of none = 0
cooldown_of (some cmd) = or_else cmd.cooldown_seconds 0

abbrev pub name_of : Option CommandDefinition → Text
name_of none = codes "undefined"
name_of (some cmd) = cmd.name

abbrev pub cooldown_key : CommandContext → Text
cooldown_key ctx = ctx.sender_jid.user ++ (codes ":" ++ name_of ctx.command)

abbrev pub error_of : Settled → Option Text
error_of fulfilled = none
error_of (rejected e) = some e

module _ {W : Type 0} where
  -- `to_fixed` writes milliseconds as seconds with one digit behind the point.
  unfoldable pub create_cooldown_guard : Clock W → (ℕ → Text) → (Text → W → W) → MiddlewareFn W
  unfolding Maps.get Maps.set
  create_cooldown_guard clock to_fixed reply ctx =
      let cooldown = 1000 * cooldown_of ctx.command in
      if ltb 0 cooldown
      then acts (λ w. w)
          (λ w.
            let last_time = or_else (Maps.get (cooldown_key ctx) (clock.user_cooldowns w)) 0 in
            if ltb (clock.now w) (last_time + cooldown)
            then refuse reply (
                codes "⏳ Mohon tunggu "
                ++ (to_fixed (last_time + cooldown - clock.now w)
                    ++ codes " detik sebelum menggunakan perintah ini lagi."))
            else acts
                (λ w.
                  clock.set_user_cooldowns
                    (Maps.set (cooldown_key ctx) (clock.now w) (clock.user_cooldowns w)) w)
                (λ w. pass))
      else pass

  -- `on_log` is what the listener does to the world, with the duration in milliseconds.
  unfoldable pub create_execution_logger :
      (W → ℕ) → (CommandContext → ℕ → Option Text → W → W) → MiddlewareFn W
  create_execution_logger now on_log ctx =
      acts (λ w. w)
        (λ start.
          calls_next (λ r. acts (λ w. on_log ctx (now w - now start) (error_of r) w) (λ w. ends r)))
