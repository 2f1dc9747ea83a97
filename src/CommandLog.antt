-- ===== src/CommandLog.antt =====
-- src/command_log.rs: the ring of the commands that were run, and what an entry keeps of an output.
-- Running a process is a parameter, with the text of both streams (String::from_utf8_lossy).
pub mod Laws
mod Tests
use gwm_cli.Base.{
  ℕ, zero, suc, ◌+◌, ◌-◌, ◌*◌, Bool, true, false, List, [], ◌∷◌, ◌++◌, Option, none, some,
  if◌then◌else◌, ltb, leb, ◌==◌, length, is_empty, drop, trim, Text, codes,
}

abbrev pub max_entries : ℕ
max_entries = 256

abbrev pub max_output_bytes : ℕ
max_output_bytes = 8 * 1024

-- An exit code is an `i32`; a process that a signal ended has none. `negative` is the code
-- -(n + 1).
pub data ExitCode : Type 0 where
  code negative : ℕ → ExitCode

pub data CommandStatus : Type 0 where
  exited : Option ExitCode → CommandStatus
  spawn : CommandStatus

unfoldable pub is_success_status : CommandStatus → Bool
is_success_status (exited (some (code c))) = c == 0
is_success_status (exited (some (negative c))) = false
is_success_status (exited none) = false
is_success_status spawn = false

-- `duration` is in nanoseconds.
pub record CommandLogEntry : Type 0 where
  pub command : Text
  pub duration : ℕ
  pub status : CommandStatus
  pub output : Text

unfoldable pub is_success : CommandLogEntry → Bool
is_success e = is_success_status e.status

pub record CommandLog : Type 0 where
  pub entries : List CommandLogEntry

unfoldable pub new_log : CommandLog
new_log = record { entries = [] }

abbrev pub pop_front : List CommandLogEntry → List CommandLogEntry
pop_front [] = []
pop_front (e ∷ es) = es

unfoldable pub push : CommandLogEntry → CommandLog → CommandLog
push entry log = record {
  entries =
      (if length log.entries == max_entries then pop_front log.entries else log.entries)
      ++ entry ∷ [];
}

unfoldable pub clear_log : CommandLog → CommandLog
clear_log log = record { entries = [] }

-- The global log behind its lock, which a panic of a holder poisons.
pub record Global : Type 0 where
  pub poisoned : Bool
  pub log : CommandLog

unfoldable pub record_command : CommandLogEntry → Global → Global
record_command entry g = if g.poisoned then g else record g { log = push entry g.log }

unfoldable pub snapshot : Global → List CommandLogEntry
snapshot g = if g.poisoned then [] else g.log.entries

unfoldable pub reset_log : Global → Global
reset_log g = if g.poisoned then g else record g { log = clear_log g.log }

-- The bytes of a character in UTF-8.
unfoldable pub utf8_len : ℕ → ℕ
utf8_len c = if ltb c 0x80 then 1 else if ltb c 0x800 then 2 else if ltb c 0x10000 then 3 else 4

unfoldable pub byte_len : Text → ℕ
byte_len [] = 0
byte_len (c ∷ s) = utf8_len c + byte_len s

-- The text from the first character boundary that has at least `cut` bytes before it.
unfoldable pub from_boundary : ℕ → Text → Text
from_boundary cut [] = []
from_boundary cut (c ∷ s) =
    let rest = from_boundary (cut - utf8_len c) s in if cut == 0 then c ∷ s else rest

unfoldable pub combine : Text → Text → Text
combine stdout stderr =
    if is_empty stdout
    then stderr
    else if is_empty stderr
    then stdout
    else stdout ++ (codes "\n" ++ stderr)

unfoldable pub tail_bounded : Text → Text
tail_bounded combined =
    if leb (byte_len combined) max_output_bytes
    then combined
    else from_boundary (byte_len combined - max_output_bytes) combined

unfoldable pub bound_output : Text → Text → Text
bound_output stdout stderr = tail_bounded (combine (trim stdout) (trim stderr))

abbrev pub withheld_response : Text
withheld_response = codes "<response withheld: it echoes the submitted body>"

-- What running a command comes to: its exit with both streams, or the error of starting it or of
-- writing its input.
pub data Run : Type 0 where
  finished : (exit : Option ExitCode) (stdout stderr : Text) → Run
  io_error : Text → Run

unfoldable pub entry_of : Text → ℕ → Bool → Run → CommandLogEntry
entry_of command duration redact_output (finished exit stdout stderr) = record {
  command = command;
  duration = duration;
  status = exited exit;
  output =
      if redact_output then bound_output withheld_response stderr else bound_output stdout stderr;
}
entry_of command duration redact_output (io_error e) = record {
  command = command;
  duration = duration;
  status = spawn;
  output = [];
}

-- `run` is the result of the process: the caller gets it as it is.
unfoldable pub run_logged_inner : Text → ℕ → Bool → Run → Global → Global × Run
run_logged_inner command duration redact_output run g =
    (record_command (entry_of command duration redact_output run) g, run)

unfoldable pub run_logged : Text → ℕ → Run → Global → Global × Run
run_logged command duration run g = (record_command (entry_of command duration false run) g, run)

unfoldable pub run_logged_redacted : Text → ℕ → Run → Global → Global × Run
run_logged_redacted command duration run g = run_logged_inner command duration true run g

unfoldable pub run_logged_with_stdin : Text → ℕ → Bool → Run → Global → Global × Run
run_logged_with_stdin command duration redact_output run g =
    run_logged_inner command duration redact_output run g
