-- ===== src/Observability/Logger/Examples.antt =====
-- Values that are texts, a world that is the lines written, and calls of a logger.
use wazeko.Prelude.{
  ℕ, ◌≡◌, refl, Bool, true, false, none, some, List, [], ◌∷◌, ◌++◌, arith, length, if◌then◌else◌,
}
use wazeko.Text.{Text, codes, text_eq}
use wazeko.Map.{Map, text_key, get, set}
use wazeko.Observability.Logger.{
  debug_level, info_level, warn_level, weight, Values, Runtime, returned, StructuredLogger, Action,
  entry, new_logger,
}
use wazeko.Observability.Logger.Level.{
  Call, to_debug, to_info, to_error, at_level, at_least, perform_all, perform_all-raised,
}

abbrev lines_of : Map Text Text → Text
lines_of [] = []
lines_of ((k, x) ∷ m) = k ++ codes "=" ++ x ++ codes ";" ++ lines_of m

abbrev is_empty : Text → Bool
is_empty [] = true
is_empty (c ∷ t) = false

abbrev texts : Values
texts = record {
  Value = Text;
  undefined = [];
  text = λ t. t;
  object = lines_of;
  is_truthy = λ t. if is_empty t then false else true;
  as_error = λ t. none;
  to_text = λ t. t;
}

abbrev runtime : Runtime texts (List Text)
runtime = record {
  Time = ℕ;
  iso_now = λ w. codes "2025";
  performance_now = length;
  elapsed = λ start w. codes "1.5";
  stringify = λ m. returned (lines_of m);
}

abbrev appends : Text → Action texts (List Text) (Unit {0})
appends line w = (returned tt, w ++ line ∷ [])

abbrev bot_logger : StructuredLogger texts (List Text)
bot_logger = record { level = info_level; service = codes "bot"; destination = appends }

new_logger_example :
    (new_logger texts
      (List Text)
      appends
      (record { level = none; service = some (codes "bot"); destination = none })).level
    ≡ info_level
unfolding new_logger
new_logger_example = refl

abbrev some_calls : List (Call Text)
some_calls =
    to_debug (codes "d") [] ∷ to_info (codes "i") [] ∷ to_error (codes "e") [] (codes "gone") ∷ []

perform_all-raised_example :
    perform_all runtime (at_level runtime bot_logger warn_level) some_calls []
    ≡ perform_all runtime
        (at_level runtime bot_logger debug_level)
        (at_least warn_level some_calls)
        []
perform_all-raised_example =
    perform_all-raised runtime bot_logger debug_level warn_level some_calls []
      (unfold weight in omega arith)

abbrev forged : Map Text Text
forged = (codes "level", codes "error") ∷ []

forged_level :
    get (codes "level") (entry texts (codes "2025") info_level (codes "bot") (codes "m") forged [])
    ≡ some (codes "error")
unfolding entry get set text_eq
forged_level = refl
