-- ===== src/Logging/Logger.antt =====
-- The logger of project/oracle/pkg/logging/logger.go. A LogLevel is its bits, from DEBUG as 0; the time and
-- encoding/json are parameters.
use lab.Base.{ℕ, String, List, [], ◌∷◌, ◌++◌, Option, none, some, if◌then◌else◌, nat_beq, ltb, suc}
use lab.Pbft.Types.{Bytes}

abbrev pub debug_level : ℕ
debug_level = 0

abbrev pub info_level : ℕ
info_level = 1

abbrev pub warn_level : ℕ
warn_level = 2

abbrev pub error_level : ℕ
error_level = 3

-- String of a level
unfoldable pub level_name : ℕ → String
level_name level =
    if nat_beq level debug_level
    then "DEBUG"
    else if nat_beq level info_level
    then "INFO"
    else if nat_beq level warn_level
    then "WARN"
    else if nat_beq level error_level
    then "ERROR"
    else "UNKNOWN"

-- LogEntry; D is the type of the data.
pub record LogEntry (D : Type 0) : Type 0 where
  pub timestamp : ℕ
  pub level : String
  pub message : String
  pub module_name : String
  pub payload : Option D

-- Logger, with what has been written to its output and to the standard error.
pub record Logger : Type 0 where
  pub level : ℕ
  pub output : Bytes
  pub complaints : ℕ
  pub module_name : String

-- NewLogger
unfoldable pub new_logger : ℕ → String → Logger
new_logger level name = record { level = level; output = []; complaints = 0; module_name = name }

module _ {D : Type 0} (marshal : LogEntry D → Option Bytes) where
  -- log
  unfoldable pub log : ℕ → ℕ → String → Option D → Logger → Logger
  unfolding level_name
  log now level msg payload l =
      let entry : LogEntry D = record {
        timestamp = now;
        level = level_name level;
        message = msg;
        module_name = l.module_name;
        payload = payload;
      } in
      if ltb level l.level then l else elim (marshal entry) [
        | none ↦ record l { complaints = suc l.complaints }
        | some bytes ↦ record l { output = l.output ++ (bytes ++ 10 ∷ []) }
      ]

  -- The first of the data of a call.
  unfoldable pub first_datum : List D → Option D
  first_datum [] = none
  first_datum (d ∷ ds) = some d

  -- Debug, Info, Warn and Error
  unfoldable pub log_debug : ℕ → String → List D → Logger → Logger
  unfolding log first_datum
  log_debug now msg ds l = log now debug_level msg (first_datum ds) l

  unfoldable pub log_info : ℕ → String → List D → Logger → Logger
  unfolding log first_datum
  log_info now msg ds l = log now info_level msg (first_datum ds) l

  unfoldable pub log_warn : ℕ → String → List D → Logger → Logger
  unfolding log first_datum
  log_warn now msg ds l = log now warn_level msg (first_datum ds) l

  unfoldable pub log_error : ℕ → String → List D → Logger → Logger
  unfolding log first_datum
  log_error now msg ds l = log now error_level msg (first_datum ds) l
