-- ===== src/CommandLog/Laws.antt =====
-- The ring of the commands, and the bounded output of an entry.
use gwm_cli.Base.{
  ℕ, zero, suc, ◌+◌, ◌-◌, ◌≤◌, min, ◌≡◌, refl, ap, ◌∙◌, true, false, List, [], ◌∷◌, ◌++◌, arith,
  ltb, ◌==◌, length, length-append, drop, length-drop, trim, join, filled, codes, Text, Bool-cases,
  inl, inr,
}
use gwm_cli.CommandLog.{
  max_entries, max_output_bytes, CommandLogEntry, Global, new_log, pop_front, push, clear_log,
  record_command, snapshot, reset_log, byte_len,
}

pub data LogOp : Type 0 where
  logging : CommandLogEntry → LogOp
  resetting : LogOp

unfoldable pub run_ops : List LogOp → Global → Global
run_ops [] g = g
run_ops (logging e ∷ ops) g = run_ops ops (record_command e g)
run_ops (resetting ∷ ops) g = run_ops ops (reset_log g)

-- The entries logged since the last reset, the earliest first.
unfoldable pub since_reset : List CommandLogEntry → List LogOp → List CommandLogEntry
since_reset seen [] = seen
since_reset seen (logging e ∷ ops) = since_reset (seen ++ e ∷ []) ops
since_reset seen (resetting ∷ ops) = since_reset [] ops

abbrev pub last_entries : List CommandLogEntry → List CommandLogEntry
last_entries es = drop (length es - max_entries) es

abbrev pub holding : List CommandLogEntry → Global
holding es = record { poisoned = false; log = record { entries = last_entries es } }

drop-snoc {ℓ} :
    {A : Type ℓ} (n : ℕ) (xs : List A) (x : A)
    → n ≤ length xs
    → drop n (xs ++ x ∷ []) ≡ drop n xs ++ x ∷ []
drop-snoc zero xs x h = refl
drop-snoc (suc n) [] x h = elim h [ ]
drop-snoc (suc n) (y ∷ xs) x h = drop-snoc n xs x (omega arith)

pop_front-drop : (n : ℕ) (es : List CommandLogEntry) → pop_front (drop n es) ≡ drop (suc n) es
pop_front-drop zero [] = refl
pop_front-drop zero (e ∷ es) = refl
pop_front-drop (suc n) [] = refl
pop_front-drop (suc n) (e ∷ es) = pop_front-drop n es

push-last :
    (e : CommandLogEntry) (es : List CommandLogEntry)
    → push e (record { entries = last_entries es })
      ≡ record { entries = last_entries (es ++ e ∷ []) }
unfolding push
push-last e es = elim (Bool-cases (ltb (length es) max_entries)) [
  | inl small ↦
      let n = length-append {0} es (e ∷ []) in
      let before : length es - max_entries ≡ 0 = ground (arith, small) in
      let behind : length (es ++ e ∷ []) - max_entries ≡ 0 = ground (arith, small, n) in
      let room : (length es == max_entries) ≡ false = ground (arith, small) in
      rw (before, behind, room) refl
  | inr large ↦
      let n = length-append {0} es (e ∷ []) in
      let more : length (es ++ e ∷ []) - max_entries ≡ suc (length es - max_entries) =
        ground (arith, large, n) in
      let full : (length (last_entries es) == max_entries) ≡ true =
        ground (arith, large, length-drop {0} (length es - max_entries) es) in
      rw
        (
          full,
          more,
          pop_front-drop (length es - max_entries) es,
          drop-snoc {0} (suc (length es - max_entries)) es e (ground (arith, large)),
        )
        refl
]

run_ops-holding :
    (ops : List LogOp) (es : List CommandLogEntry)
    → run_ops ops (holding es) ≡ holding (since_reset es ops)
unfolding run_ops since_reset record_command reset_log clear_log
run_ops-holding [] es = refl
run_ops-holding (logging e ∷ ops) es =
    ap (λ l. run_ops ops (record { poisoned = false; log = l })) (push-last e es)
    ∙ run_ops-holding ops (es ++ e ∷ [])
run_ops-holding (resetting ∷ ops) es = run_ops-holding ops []

-- Whatever is logged and reset from a new log on, with a lock that nothing poisons, a snapshot has
-- the entries logged since the last reset, and of more than 256 the last 256, the earliest first.
pub snapshot-run_ops :
    (ops : List LogOp)
    → snapshot (run_ops ops (record { poisoned = false; log = new_log }))
      ≡ last_entries (since_reset [] ops)
unfolding new_log
snapshot-run_ops ops = ap snapshot (run_ops-holding ops []) ∙ unfold snapshot in refl

-- What is left behind the cut, up to a character that the cut falls into.
record Tail (cut : ℕ) (s t : Text) : Type 0 where
  before : Text
  whole : s ≡ before ++ t
  fits : byte_len t + cut ≤ byte_len s
  long : byte_len s ≤ byte_len t + cut + 3

-- A tail of a text within the bound, as long as whole characters allow.
pub record Bounded (combined output : Text) : Type 0 where
  pub before : Text
  pub whole : combined ≡ before ++ output
  pub fits : byte_len output ≤ max_output_bytes
  pub long : min (byte_len combined) (max_output_bytes - 3) ≤ byte_len output

-- The streams that are not empty, each trimmed, with a line break between them.
abbrev pub both_streams : Text → Text → Text
both_streams stdout stderr = join (codes "\n") (filled (trim stdout ∷ trim stderr ∷ []))
