-- ===== src/Observability/Logger/Level.antt =====
-- packages/wazeko/src/observability/logger.ts: what the level of a logger holds back.
use wazeko.Prelude.{
  ◌≤◌, ◌≡◌, refl, true, false, inl, inr, List, [], ◌∷◌, arith, leb, if◌then◌else◌, Bool-cases,
  if_true, if_false,
}
use wazeko.Text.{Text}
use wazeko.Map.{Map}
use wazeko.Core.Errors.{Void}
use wazeko.Observability.Logger.{
  LogLevel, debug_level, info_level, warn_level, error_level, weight, Values, Runtime, Completion,
  returned, raised, StructuredLogger, should_log, log, debug, info, warn, error,
}

-- A call of one of the four methods.
pub data Call (V : Type 0) : Type 0 where
  to_debug to_info : Text → Map Text V → Call V
  to_warn to_error : Text → Map Text V → V → Call V

abbrev pub call_level : {V : Type 0} → Call V → LogLevel
call_level (to_debug _ _) = debug_level
call_level (to_info _ _) = info_level
call_level (to_warn _ _ _) = warn_level
call_level (to_error _ _ _) = error_level

module _ {V : Type 0} where
  -- The calls at a level or above it.
  unfoldable pub at_least : LogLevel → List (Call V) → List (Call V)
  unfolding weight
  at_least level [] = []
  at_least level (c ∷ calls) =
      if leb (weight level) (weight (call_level c))
      then c ∷ at_least level calls
      else at_least level calls

module _ {v : Values} {W : Type 0} (r : Runtime v W) where
  unfoldable pub perform : StructuredLogger v W → Call v.Value → W → Completion v.Value Void × W
  unfolding debug info warn error
  perform l (to_debug message meta) = debug r l message meta
  perform l (to_info message meta) = info r l message meta
  perform l (to_warn message meta err) = warn r l message meta err
  perform l (to_error message meta err) = error r l message err meta

  abbrev and_then :
      Completion v.Value Void × W → (W → Completion v.Value Void × W) → Completion v.Value Void × W
  and_then (returned _, w) next = next w
  and_then (raised e, w) next = (raised e, w)

  and_then-ext :
      (x : Completion v.Value Void × W) (f g : W → Completion v.Value Void × W)
      → ((w : W) → f w ≡ g w)
      → and_then x f ≡ and_then x g
  and_then-ext (returned _, w) f g h = h w
  and_then-ext (raised e, w) f g h = refl

  -- One call after the other, up to the first that throws.
  unfoldable pub perform_all :
      StructuredLogger v W → List (Call v.Value) → W → Completion v.Value Void × W
  unfolding perform
  perform_all l [] w = (returned tt, w)
  perform_all l (c ∷ calls) w = and_then (perform l c w) (perform_all l calls)

  module _ (l : StructuredLogger v W) where
    abbrev pub at_level : LogLevel → StructuredLogger v W
    at_level level = record l { level = level }

    perform-held_back :
        (level : LogLevel) (c : Call v.Value) (w : W)
        → leb (weight level) (weight (call_level c)) ≡ false
        → perform (at_level level) c w ≡ (returned tt, w)
    unfolding perform debug info warn error log should_log
    perform-held_back level (to_debug m f) w e = if_false _ _ _ e
    perform-held_back level (to_info m f) w e = if_false _ _ _ e
    perform-held_back level (to_warn m f x) w e = if_false _ _ _ e
    perform-held_back level (to_error m f x) w e = if_false _ _ _ e

    perform-let_through :
        (lo hi : LogLevel) (c : Call v.Value) (w : W)
        → leb (weight hi) (weight (call_level c)) ≡ true
        → leb (weight lo) (weight (call_level c)) ≡ true
        → perform (at_level hi) c w ≡ perform (at_level lo) c w
    unfolding perform debug info warn error log should_log
    perform-let_through lo hi (to_debug m f) w e k = rw (if_true _ _ _ e, if_true _ _ _ k) refl
    perform-let_through lo hi (to_info m f) w e k = rw (if_true _ _ _ e, if_true _ _ _ k) refl
    perform-let_through lo hi (to_warn m f x) w e k = rw (if_true _ _ _ e, if_true _ _ _ k) refl
    perform-let_through lo hi (to_error m f x) w e k = rw (if_true _ _ _ e, if_true _ _ _ k) refl

    -- A logger with its level raised does what the logger does when the calls below the new level
    -- are left out, whatever the calls and the destination are.
    pub perform_all-raised :
        (lo hi : LogLevel) (calls : List (Call v.Value)) (w : W)
        → weight lo ≤ weight hi
        → perform_all (at_level hi) calls w ≡ perform_all (at_level lo) (at_least hi calls) w
    unfolding perform_all at_least
    perform_all-raised lo hi [] w h = refl
    perform_all-raised lo hi (c ∷ calls) w h =
        let ih = perform_all-raised lo hi calls in
        elim (Bool-cases (leb (weight hi) (weight (call_level c)))) [
          | inl e ↦
              rw (e, perform-let_through lo hi c w e (ground arith))
                (and_then-ext (perform (at_level lo) c w) _ _ (λ u. ih u h))
          | inr e ↦ rw (e, perform-held_back hi c w e) (ih w h)
        ]
