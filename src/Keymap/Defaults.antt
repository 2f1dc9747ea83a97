-- ===== src/Keymap/Defaults.antt =====
-- src/tui/keymap.rs: the bindings that the program ships with. `none` is the panic of a literal
-- that does not parse.
use gwm_cli.Base.{List, [], ◌∷◌, Option, none, some, Text, codes}
use gwm_cli.Keymap.Actions.{
  agent_sessions, bootstrap, bottom, browse_links, ci_checks, clean_overlay, collapse_group,
  command_logs, command_palette, commits, config_panel, create, create_from_issue,
  cycle_sidebar_layout, delete_confirm, down, edit_note, edit_worktree, exec_overlay,
  exit_to_worktree, expand_group, fetch_github, filter, focus_status, focus_swap, focus_worktrees,
  help, lazy_git_fullscreen, lazy_git_pty, link_prompt, macro1, macro2, merge_pr, mux_pane,
  open_docs, pull, push, quit, refresh, review_fullscreen, review_pty, rich_view, sync,
  terminal_fullscreen, terminal_pty, toggle_delete_branch, toggle_mouse, toggle_select,
  toggle_sidebar, toggle_sidebar_mode, toggle_sidebar_position, top, up, working_tree,
  wt_scroll_down, wt_scroll_up, yank_branch_name, yank_path, yank_worktree_name, Action,
}
use gwm_cli.Keymap.Bindings.{Chord, built_in, Binding, Keymap}
use gwm_cli.Keymap.Parsing.{parsed, parse_chord}

unfoldable pub parse_literals : List Text → Option (List Chord)
parse_literals [] = some []
parse_literals (t ∷ ts) = elim (parse_chord t) [
  | parsed c ↦ elim (parse_literals ts) [ none ↦ none | some cs ↦ some (c ∷ cs) ]
  | _ ↦ none
]

unfoldable pub def : Action → List Text → Option Binding
def a literals = elim (parse_literals literals) [
  | none ↦ none
  | some cs ↦ some (record { action = a; chords = cs; source = built_in })
]

abbrev pub default_table : List (Action × List Text)
default_table =
    (down, codes "j" ∷ codes "Down" ∷ [])
    ∷ (up, codes "k" ∷ codes "Up" ∷ [])
    ∷ (top, codes "g g" ∷ [])
    ∷ (bottom, codes "G" ∷ codes "End" ∷ [])
    ∷ (wt_scroll_down, codes "J" ∷ [])
    ∷ (wt_scroll_up, codes "K" ∷ [])
    ∷ (toggle_sidebar, codes "V" ∷ [])
    ∷ (toggle_sidebar_mode, codes "S" ∷ [])
    ∷ (cycle_sidebar_layout, codes "z" ∷ [])
    ∷ (toggle_sidebar_position, codes "v" ∷ [])
    ∷ (focus_swap, codes "Tab" ∷ [])
    ∷ (toggle_mouse, codes "M" ∷ [])
    ∷ (focus_worktrees, codes "1" ∷ [])
    ∷ (focus_status, codes "2" ∷ [])
    ∷ (command_logs, codes "3" ∷ [])
    ∷ (config_panel, codes "4" ∷ [])
    ∷ (working_tree, codes "W" ∷ [])
    ∷ (commits, codes "c" ∷ [])
    ∷ (ci_checks, codes "C" ∷ [])
    ∷ (rich_view, codes "I" ∷ [])
    ∷ (exec_overlay, codes "x" ∷ [])
    ∷ (agent_sessions, codes "a" ∷ [])
    ∷ (clean_overlay, codes "X" ∷ [])
    ∷ (filter, codes "/" ∷ [])
    ∷ (toggle_select, codes "Space" ∷ [])
    ∷ (collapse_group, codes "Left" ∷ [])
    ∷ (expand_group, codes "Right" ∷ [])
    ∷ (refresh, codes "f" ∷ [])
    ∷ (sync, codes "s" ∷ [])
    ∷ (create, codes "n" ∷ [])
    ∷ (create_from_issue, codes "Ctrl+n" ∷ [])
    ∷ (delete_confirm, codes "d" ∷ [])
    ∷ (bootstrap, codes "b" ∷ [])
    ∷ (toggle_delete_branch, codes "D" ∷ [])
    ∷ (pull, codes "p" ∷ [])
    ∷ (push, codes "P" ∷ [])
    ∷ (edit_worktree, codes "e" ∷ [])
    ∷ (edit_note, codes "N" ∷ [])
    ∷ (exit_to_worktree, codes "E" ∷ [])
    ∷ (lazy_git_pty, codes "l" ∷ [])
    ∷ (lazy_git_fullscreen, codes "L" ∷ [])
    ∷ (review_fullscreen, codes "R" ∷ [])
    ∷ (review_pty, codes "r" ∷ [])
    ∷ (merge_pr, codes "m" ∷ [])
    ∷ (yank_path, codes "Y" ∷ [])
    ∷ (yank_branch_name, codes "y" ∷ [])
    ∷ (yank_worktree_name, codes "w" ∷ [])
    ∷ (terminal_pty, codes "o" ∷ [])
    ∷ (terminal_fullscreen, codes "O" ∷ [])
    ∷ (browse_links, codes "B" ∷ [])
    ∷ (open_docs, codes "." ∷ [])
    ∷ (link_prompt, codes "i" ∷ [])
    ∷ (fetch_github, codes "F" ∷ [])
    ∷ (mux_pane, codes "t" ∷ [])
    ∷ (macro1, codes "h" ∷ [])
    ∷ (macro2, codes "H" ∷ [])
    ∷ (help, codes "?" ∷ [])
    ∷ (quit, codes "q" ∷ [])
    ∷ (command_palette, codes ":" ∷ [])
    ∷ []

unfoldable pub def_all : List (Action × List Text) → Option (List Binding)
def_all [] = some []
def_all ((a, literals) ∷ es) = elim (def a literals) [
  | none ↦ none
  | some b ↦ elim (def_all es) [ none ↦ none | some bs ↦ some (b ∷ bs) ]
]

unfoldable pub defaults : Option Keymap
defaults = elim (def_all default_table) [ none ↦ none | some bs ↦ some (record { entries = bs }) ]
