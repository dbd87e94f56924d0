-- ===== src/Log/Level.antt =====
-- log/slog.go and log/logger.go: SlogLevel, and what Setup makes the default logger of. A writer is a value of `W`.
use windowframe.Prelude.{String, String_comparable, ◌==◌, List, [], ◌∷◌, if◌then◌else◌}

pub data SlogLevel : Type 0 where
  level_debug level_info level_warn level_error : SlogLevel

unfoldable slog_level : String → SlogLevel
slog_level level =
    if level == "error"
    then level_error
    else if level == "warn"
    then level_warn
    else if level == "debug"
    then level_debug
    else level_info

module _ {W : Type 0} (os_stdout : W) where
  abbrev first_or_stdout : List W → W
  first_or_stdout [] = os_stdout
  first_or_stdout (w ∷ outputs) = w

  -- Setup: the writer and the level of the default logger
  unfoldable setup : SlogLevel → List W → W × SlogLevel
  setup level outputs = (first_or_stdout outputs, level)
