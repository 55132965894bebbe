-- ===== src/Logging/Filtering.antt =====
-- What the logger of project/oracle/pkg/logging/logger.go writes.
use mathlib.Core.List.{append-nil, append_assoc}
use lab.Base.{
  ℕ, ◌≡◌, String, List, [], ◌∷◌, ◌++◌, Option, none, some, if◌then◌else◌, ltb, Bool-cases, inl, inr,
  Option-cases, refl, sym,
}
use lab.Pbft.Types.{Bytes}
use lab.Logging.Logger.{LogEntry, Logger, log, level_name}

-- A call of log.
pub record LogCall (D : Type 0) : Type 0 where
  pub time : ℕ
  pub level : ℕ
  pub message : String
  pub payload : Option D

module _ {D : Type 0} (marshal : LogEntry D → Option Bytes) where
  abbrev pub log_all : List (LogCall D) → Logger → Logger
  log_all [] l = l
  log_all (c ∷ cs) l = log_all cs (log marshal c.time c.level c.message c.payload l)

  -- The line of a call, if its entry can be marshalled.
  abbrev pub line_of : String → LogCall D → Bytes
  line_of name c =
      elim (marshal (record {
        timestamp = c.time;
        level = level_name c.level;
        message = c.message;
        module_name = name;
        payload = c.payload;
      })) [ none ↦ [] | some bytes ↦ bytes ++ 10 ∷ [] ]

  -- The lines of the calls from a level on.
  abbrev pub lines_from : ℕ → String → List (LogCall D) → Bytes
  lines_from level name [] = []
  lines_from level name (c ∷ cs) =
      (if ltb c.level level then [] else line_of name c) ++ lines_from level name cs

  log_lem :
      (c : LogCall D) (l : Logger)
      → ((log marshal c.time c.level c.message c.payload l).output
          ≡ l.output ++ (if ltb c.level l.level then [] else line_of l.module_name c))
        × ((log marshal c.time c.level c.message c.payload l).level ≡ l.level)
        × ((log marshal c.time c.level c.message c.payload l).module_name ≡ l.module_name)
  unfolding log
  log_lem c l = elim (Bool-cases (ltb c.level l.level)) [
    | inl q ↦ rw (q, log) (sym (append-nil l.output), refl, refl)
    | inr q ↦
        elim (Option-cases (
          marshal (record {
            timestamp = c.time;
            level = level_name c.level;
            message = c.message;
            module_name = l.module_name;
            payload = c.payload;
          }))) [
            | inl r ↦ rw (q, log, line_of, r) (sym (append-nil l.output), refl, refl)
            | inr (bytes, r) ↦ rw (q, log, line_of, r) (refl, refl, refl)
          ]
  ]

  -- After any calls, the output of a logger is what it was, and behind it, in the order of the calls, the
  -- lines of those at or above the logger's level.
  pub log_all_lem :
      (cs : List (LogCall D)) (l : Logger)
      → (log_all cs l).output ≡ l.output ++ lines_from l.level l.module_name cs
  log_all_lem [] l = sym (append-nil l.output)
  log_all_lem (c ∷ cs) l =
      let (output, level, name) = log_lem c l in
      let rest = log_all_lem cs (log marshal c.time c.level c.message c.payload l) in
      rw (rest, output, level, name) (append_assoc l.output _ _)
