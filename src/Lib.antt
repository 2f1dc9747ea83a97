-- ===== src/Lib.antt =====
-- gwm: a model of the core logic of the worktree manager (src/ of the repository), with the
-- theorems that make it correct.
--
-- Parts, and the files that model them:
--
--   Base           the names that all modules share: Boolean tests, native lists, options as the
--                  result of code that may panic, and the standard library's operations on texts
--   NoteEditor     src/tui/state/note_editor.rs, the modal editor of a note, and the handler of
--                  its keys in src/tui/app.rs: Marker (ListLine::parse), State (NoteEditor, open,
--                  text), Edit, Words, Normal (the operations), Session (handle_note_key and its
--                  helpers, open_note_editor, reload_note_after_editor)
--   Tasks          src/tui/state/async_task.rs, the generations of the background tasks
--   CommitGraph    src/tui/commit_graph.rs: Pipes (build_pipe_sets, get_next_pipes), Render
--                  (apply_pipe, render_pipe_set)
--   Confirm        src/tui/state/confirm.rs, the countdown of the confirmation modal
--   CleanOverlay   src/tui/state/clean_overlay.rs, which holds a Confirm modal
--   Filter         src/tui/state/filter.rs, the fuzzy filter and its cache
--   Keymap         src/tui/keymap.rs, what the keys do: Actions, Strokes (KeyStroke), Parsing
--                  (parse_chord, fmt), Defaults, Bindings (validate, apply_override), Dispatch
--                  (lookup, and dispatch_key and modal_toggle_stroke of src/tui/app.rs), Loading
--                  (resolved_keymap of src/config.rs)
--   Trust          src/trust.rs: Ledger (TrustLedger, resolve_mode, hex_lower), Gate
--                  (evaluate, record_config, config_is_trusted)
--   Hooks          src/lifecycle.rs: Phases (HookPhase, HookSkips), Expanding (expand, gwm_env),
--                  Running (run_step, run_phase_quiet), with the configuration of Trust
--   WorkingTree    src/tui/wt_tree.rs: Status (parse_status_z, badges, icons), Builder
--                  (DirBuilder and the tree of rows)
--   Notes          src/notes.rs: relative_path, branch_from_relative, component_is_portable, with
--                  is_windows_reserved_segment of src/naming.rs
--   History        src/history.rs, the journal of removals (Journal, append, pop_last_for_repo)
--   Removal        src/removal.rs: Lifecycle (remove_with_lifecycle), and Worktrees
--                  (remove_inner and verify_path of src/worktree.rs, record of src/history.rs),
--                  with the phases of Hooks and the journal of History
--   CommandLog     src/command_log.rs, the ring of the commands that were run
--   Naming         src/naming.rs: Specs (kebab, BranchSpec), Freeform (WorktreeName::freeform),
--                  Boundaries (boundary_can_shift), Display (sanitise_for_terminal and its kin),
--                  Patterns (editable_segments, BranchSpec::branch_name and
--                  worktree_path, expand_placeholders of src/config.rs), Names (WorktreeName)
--   Aliases        src/aliases.rs: validate_aliases, lookup, expand_argv, expand_argv_os
--
-- The laws of a part stand below its Laws module, runs at concrete inputs in its Tests module.
--
-- How code is modelled: a struct is a record, an enum a data type, a method that mutates its
-- receiver a function to the new value. An Option result with `none` is a panic where the comment
-- of the file says so (an index out of bounds, a range out of order). A text is the list of its
-- Unicode scalar values, so a byte offset is the number of characters before it; where a bound is
-- in bytes (CommandLog, Naming/Freeform), lengths are those of UTF-8. A usize is a natural number; a u64 counter that the code lets wrap is taken modulo 2 ^ 64.
--
-- Loops are structural recursions over the list that they walk. One takes fuel: the search for a
-- free column in CommitGraph/Pipes, whose fuel is the number of spots; CommitGraph/Laws/Spots
-- shows that it is enough.
--
-- Parameters, for code outside the repository: the alphanumeric table of Unicode, the resolution
-- of a key in the modal keymap, the score of the crate nucleo_matcher, the outcome of a file
-- operation, the parser of a repository's configuration, the SHA-256 digest, the quoting of
-- the crate shell_words, the home directory and the crate shellexpand, the run of a command and a step's condition. The outcome of a file
-- operation is an input of the key that causes it.
--
-- Not modelled: drawing and colours (ratatui), processes, libgit2, JSON and TOML (serde), the
-- command line (clap), and the parts of the repository that have no file above.
pub mod Base
pub mod NoteEditor
pub mod Tasks
pub mod CommitGraph
pub mod Confirm
pub mod CleanOverlay
pub mod Filter
pub mod WorkingTree
pub mod Keymap
pub mod Trust
pub mod Hooks
pub mod Notes
pub mod History
pub mod Removal
pub mod CommandLog
pub mod Naming
pub mod Aliases
