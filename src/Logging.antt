-- ===== src/Logging.antt =====
-- internal/platform/logging/logging.go: the level of the log, from its name. `strings.ToLower` after
-- `strings.TrimSpace` is an argument.
use chuchu.Prelude.{String, ◌==◌, ◌||◌, if◌then◌else◌}

-- `slog.Level`
pub data Level : Type 0 where
  level_debug level_info level_warn level_error : Level

unfoldable pub parse_level : (String → String) → String → Level
parse_level lower_trimmed level =
    let name = lower_trimmed level in
    if name == "debug"
    then level_debug
    else if name == "warn" || name == "warning"
    then level_warn
    else if name == "error"
    then level_error
    else level_info
