-- ===== src/Observability/Logger.antt =====
-- packages/wazeko/src/observability/logger.ts. A value of the program, which a field of an entry or
-- an error may be, is of an abstract type. A program changes a world, in which the destination of
-- the logger writes, and its clock is read.
pub mod Level
pub mod Entry
pub mod Timing
mod Examples
use wazeko.Prelude.{ℕ, Bool, Option, none, some, List, [], ◌∷◌, ◌++◌, leb, if◌then◌else◌}
use wazeko.Text.{Text, codes}
use wazeko.Map.{Map, Key, text_key, set}
use wazeko.Queue.RateLimiter.{or_else}
use wazeko.Core.Errors.{Void}

pub data LogLevel : Type 0 where
  debug_level info_level warn_level error_level : LogLevel

abbrev pub level_name : LogLevel → Text
level_name debug_level = codes "debug"
level_name info_level = codes "info"
level_name warn_level = codes "warn"
level_name error_level = codes "error"

-- `LOG_LEVEL_WEIGHTS`.
unfoldable pub weight : LogLevel → ℕ
weight debug_level = 10
weight info_level = 20
weight warn_level = 30
weight error_level = 40

-- What an `Error` is seen to hold.
pub record ErrorFields (V : Type 0) : Type 0 where
  pub name : V
  pub message : V
  pub stack : V
  pub code : V

-- `instanceof Error`, the truth of a value, `String` and the literals of the language.
pub record Values : Type 1 where
  pub Value : Type 0
  pub undefined : Value
  pub text : Text → Value
  pub object : Map Text Value → Value
  pub is_truthy : Value → Bool
  pub as_error : Value → Option (ErrorFields Value)
  pub to_text : Value → Text

-- The assignment of each field of an object in turn, as the spread of an object does it.
unfoldable pub spread {ℓ κ} : {K : Type ℓ} {V : Type κ} ⦃key : Key K⦄ → Map K V → Map K V → Map K V
unfolding set
spread fields [] = fields
spread fields ((k, v) ∷ more) = spread (set k v fields) more

module _ (v : Values) where
  abbrev pub error_entry : Option (ErrorFields v.Value) → v.Value → Map Text v.Value
  error_entry (some e) err =
      (codes "name", e.name)
      ∷ (codes "message", e.message)
      ∷ (codes "stack", e.stack)
      ∷ (codes "code", e.code)
      ∷ []
  error_entry none err = (codes "raw", v.text (v.to_text err)) ∷ []

  unfoldable pub format_error : v.Value → v.Value
  format_error err =
      if v.is_truthy err then v.object (error_entry (v.as_error err) err) else v.undefined

  abbrev pub fixed_fields : Text → LogLevel → Text → Text → Map Text v.Value
  fixed_fields timestamp level service message =
      (codes "timestamp", v.text timestamp)
      ∷ (codes "level", v.text (level_name level))
      ∷ (codes "service", v.text service)
      ∷ (codes "msg", v.text message)
      ∷ []

  abbrev pub error_field : v.Value → Map Text v.Value
  error_field err = if v.is_truthy err then (codes "err", format_error err) ∷ [] else []

  -- The object that `log` writes.
  unfoldable pub entry :
      Text → LogLevel → Text → Text → Map Text v.Value → v.Value → Map Text v.Value
  unfolding spread
  entry timestamp level service message meta err =
      spread (spread (fixed_fields timestamp level service message) meta) (error_field err)

-- What a call returns or throws.
pub data Completion (V A : Type 0) : Type 0 where
  returned : A → Completion V A
  raised : V → Completion V A

-- The clock, `performance`, and `JSON.stringify`, which throws at a cycle. `elapsed` is the number of
-- milliseconds since a time, to two places.
pub record Runtime (v : Values) (W : Type 0) : Type 1 where
  pub Time : Type 0
  pub iso_now : W → Text
  pub performance_now : W → Time
  pub elapsed : Time → W → v.Value
  pub stringify : Map Text v.Value → Completion v.Value Text

module _ (v : Values) (W : Type 0) where
  abbrev pub Action : Type 0 → Type 0
  Action A = W → Completion v.Value A × W

  pub record LoggerOptions : Type 0 where
    pub level : Option LogLevel
    pub service : Option Text
    pub destination : Option (Text → Action Void)

  pub record StructuredLogger : Type 0 where
    pub level : LogLevel
    pub service : Text
    pub destination : Text → Action Void

  -- `stdout` writes a text to the standard output of the process.
  unfoldable pub new_logger : (Text → Action Void) → LoggerOptions → StructuredLogger
  new_logger stdout options = record {
    level = or_else options.level info_level;
    service = or_else options.service (codes "wazeko");
    destination = or_else options.destination (λ str. stdout (str ++ codes "\n"));
  }

module _ {v : Values} {W : Type 0} where
  unfoldable pub should_log : StructuredLogger v W → LogLevel → Bool
  unfolding weight
  should_log l level = leb (weight l.level) (weight level)

  abbrev pub write :
      StructuredLogger v W → Completion v.Value Text → W → Completion v.Value Void × W
  write l (returned str) w = l.destination str w
  write l (raised e) w = (raised e, w)

module _ {v : Values} {W : Type 0} (r : Runtime v W) (l : StructuredLogger v W) where
  unfoldable pub log :
      LogLevel → Text → Map Text v.Value → v.Value → W → Completion v.Value Void × W
  unfolding should_log entry
  log level message meta err w =
      if should_log l level
      then write l (r.stringify (entry v (r.iso_now w) level l.service message meta err)) w
      else (returned tt, w)

  unfoldable pub debug : Text → Map Text v.Value → W → Completion v.Value Void × W
  unfolding log
  debug message meta = log debug_level message meta v.undefined

  unfoldable pub info : Text → Map Text v.Value → W → Completion v.Value Void × W
  unfolding log
  info message meta = log info_level message meta v.undefined

  unfoldable pub warn : Text → Map Text v.Value → v.Value → W → Completion v.Value Void × W
  unfolding log
  warn message meta err = log warn_level message meta err

  unfoldable pub error : Text → v.Value → Map Text v.Value → W → Completion v.Value Void × W
  unfolding log
  error message err meta = log error_level message meta err

  -- `{ ...meta, durationMs }`.
  unfoldable pub with_duration : Map Text v.Value → r.Time → W → Map Text v.Value
  unfolding spread
  with_duration meta start w =
      spread (spread [] meta) ((codes "durationMs", r.elapsed start w) ∷ [])

  module _ {A : Type 0} where
    abbrev pub raising : v.Value → Completion v.Value Void × W → Completion v.Value A × W
    raising err (returned _, w) = (raised err, w)
    raising err (raised other, w) = (raised other, w)

    -- The `catch` of `time`: what was logged is thrown on, unless the log itself throws.
    unfoldable pub on_failure :
        Text → Map Text v.Value → r.Time → v.Value → W → Completion v.Value A × W
    unfolding error with_duration
    on_failure name meta start err w =
        raising err (error (name ++ codes " failed") err (with_duration meta start w) w)

    abbrev pub completed :
        Text
        → Map Text v.Value
        → r.Time
        → A
        → Completion v.Value Void × W
        → Completion v.Value A × W
    completed name meta start result (returned _, w) = (returned result, w)
    completed name meta start result (raised err, w) = on_failure name meta start err w

    abbrev pub settled :
        Text → Map Text v.Value → r.Time → Completion v.Value A × W → Completion v.Value A × W
    settled name meta start (returned result, w) =
        completed name meta start result
          (info (name ++ codes " completed") (with_duration meta start w) w)
    settled name meta start (raised err, w) = on_failure name meta start err w

    unfoldable pub time : Text → Action v W A → Map Text v.Value → Action v W A
    unfolding on_failure info
    time name fn meta w = settled name meta (r.performance_now w) (fn w)
