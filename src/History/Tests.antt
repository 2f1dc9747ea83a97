-- ===== src/History/Tests.antt =====
-- Runs of the journal.
use gwm_cli.Base.{ℕ, ◌≡◌, ◌≤◌, refl, arith, [], ◌∷◌, none, some, false, length, codes, text_eq}
use gwm_cli.History.{
  FilePath, path_eq, max_entries, OpEntry, remove, Journal, enumerate_from, filter, select,
  is_newest, by_entry, chosen, append, entries_for_repo, last_for_repo, popped, pop_last_for_repo,
}
use gwm_cli.History.Laws.Evicting.{Appended, append-Appended}
use gwm_cli.History.Laws.Taking.{TakesLastOrNone, pop_last_for_repo-TakesLast}
use gwm_cli.History.Laws.Recovering.{pop-append}

abbrev here : FilePath
here = codes "home" ∷ codes "gwm" ∷ []

abbrev elsewhere : FilePath
elsewhere = codes "home" ∷ codes "site" ∷ []

abbrev removal : ℕ → FilePath → OpEntry
removal t root = record {
  ts = t;
  kind = remove;
  worktree = codes "feat-7-log";
  branch = some (codes "feat/#7-log");
  branch_oid = none;
  path = root;
  deleted_branch = false;
  repo_root = root;
  undone = false;
}

abbrev entries : Journal
entries = removal 3 here ∷ removal 5 elsewhere ∷ removal 4 here ∷ []

takes_youngest :
    pop_last_for_repo here entries
    ≡ popped (removal 4 here) (removal 3 here ∷ removal 5 elsewhere ∷ [])
unfolding pop_last_for_repo chosen select filter enumerate_from is_newest path_eq text_eq by_entry
takes_youngest = refl

last_here : last_for_repo here entries ≡ some (removal 4 here)
unfolding last_for_repo entries_for_repo select filter is_newest path_eq text_eq
last_here = refl

append-Appended_example :
    (j : Journal) × (append (removal 6 here) entries ≡ some j)
    × (length j ≤ max_entries)
    × Appended (removal 6 here) entries j
append-Appended_example = append-Appended (removal 6 here) entries (omega arith)

pop_last_for_repo-TakesLast_example : TakesLastOrNone here entries (pop_last_for_repo here entries)
pop_last_for_repo-TakesLast_example = pop_last_for_repo-TakesLast here entries

pop-append_example :
    (j : Journal) × (append (removal 6 here) entries ≡ some j)
    × (pop_last_for_repo here j ≡ popped (removal 6 here) entries)
unfolding path_eq text_eq
pop-append_example = pop-append (removal 6 here) entries (omega arith) refl
