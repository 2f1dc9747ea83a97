-- ===== src/CommandLog/Tests.antt =====
-- Runs of the command log.
use gwm_cli.Base.{ℕ, ◌≡◌, refl, false, List, [], ◌∷◌, some, codes, is_whitespace}
use gwm_cli.CommandLog.{
  CommandLogEntry, exited, code, new_log, snapshot, utf8_len, byte_len, from_boundary, combine,
  tail_bounded, bound_output,
}
use gwm_cli.CommandLog.Laws.{
  LogOp, logging, resetting, run_ops, since_reset, last_entries, snapshot-run_ops,
}

abbrev entry : ℕ → CommandLogEntry
entry t = record {
  command = codes "git fetch";
  duration = t;
  status = exited (some (code 0));
  output = [];
}

abbrev script : List LogOp
script = logging (entry 1) ∷ resetting ∷ logging (entry 2) ∷ logging (entry 3) ∷ []

snapshot-run_ops_example :
    snapshot (run_ops script (record { poisoned = false; log = new_log }))
    ≡ last_entries (since_reset [] script)
snapshot-run_ops_example = snapshot-run_ops script

kept_since_reset : since_reset [] script ≡ entry 2 ∷ entry 3 ∷ []
unfolding since_reset
kept_since_reset = refl

-- A cut inside a character moves behind it.
cut_in_character : from_boundary 1 (codes "é!") ≡ codes "!"
unfolding from_boundary utf8_len
cut_in_character = refl

joined_streams : bound_output (codes " done\n") (codes "warning\n") ≡ codes "done\nwarning"
unfolding bound_output tail_bounded combine byte_len utf8_len is_whitespace
joined_streams = refl
