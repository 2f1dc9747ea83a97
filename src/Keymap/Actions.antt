-- ===== src/Keymap/Actions.antt =====
-- src/tui/keymap.rs: the actions that a key can be bound to, and their slugs.
use native.Mathlib.Decide.{ℕ_discrete}
use gwm_cli.Base.{
  Bool, true, false, List, [], ◌∷◌, Option, none, some, Text, codes, text_eq, if◌then◌else◌,
  is_discrete_eq,
}

pub data Action : Type 0 where
  down up top bottom wt_scroll_down wt_scroll_up toggle_sidebar toggle_sidebar_mode : Action
  cycle_sidebar_layout toggle_sidebar_position focus_swap toggle_mouse focus_worktrees : Action
  focus_status filter toggle_select collapse_group expand_group refresh sync create : Action
  create_from_issue delete_confirm bootstrap toggle_delete_branch pull push edit_worktree : Action
  edit_note exit_to_worktree lazy_git_pty lazy_git_fullscreen review_fullscreen review_pty : Action
  merge_pr yank_path yank_branch_name yank_worktree_name terminal_pty terminal_fullscreen : Action
  browse_links open_docs link_prompt fetch_github mux_pane macro1 macro2 command_logs : Action
  config_panel working_tree commits ci_checks rich_view exec_overlay clean_overlay : Action
  agent_sessions help quit command_palette : Action

unfoldable pub Action-discrete : Discrete Action
Action-discrete = hlevel ℕ_discrete

unfoldable pub action_eq : Action → Action → Bool
unfolding is_discrete_eq
action_eq = is_discrete_eq Action-discrete

unfoldable pub slug : Action → Text
slug down = codes "down"
slug up = codes "up"
slug top = codes "top"
slug bottom = codes "bottom"
slug wt_scroll_down = codes "wt_scroll_down"
slug wt_scroll_up = codes "wt_scroll_up"
slug toggle_sidebar = codes "toggle_sidebar"
slug toggle_sidebar_mode = codes "toggle_sidebar_mode"
slug cycle_sidebar_layout = codes "cycle_sidebar_layout"
slug toggle_sidebar_position = codes "toggle_sidebar_position"
slug focus_swap = codes "focus_swap"
slug toggle_mouse = codes "toggle_mouse"
slug focus_worktrees = codes "focus_worktrees"
slug focus_status = codes "focus_status"
slug filter = codes "filter"
slug toggle_select = codes "toggle_select"
slug collapse_group = codes "collapse_group"
slug expand_group = codes "expand_group"
slug refresh = codes "refresh"
slug sync = codes "sync"
slug create = codes "create"
slug create_from_issue = codes "create_from_issue"
slug delete_confirm = codes "delete"
slug bootstrap = codes "bootstrap"
slug toggle_delete_branch = codes "delete_branch"
slug pull = codes "pull"
slug push = codes "push"
slug edit_worktree = codes "edit_worktree"
slug edit_note = codes "edit_note"
slug exit_to_worktree = codes "exit_to_worktree"
slug lazy_git_pty = codes "lazygit_pty"
slug lazy_git_fullscreen = codes "lazygit_fullscreen"
slug review_fullscreen = codes "review_fullscreen"
slug review_pty = codes "review_pty"
slug merge_pr = codes "merge_pr"
slug yank_path = codes "yank_path"
slug yank_branch_name = codes "yank_branch_name"
slug yank_worktree_name = codes "yank_worktree_name"
slug terminal_pty = codes "terminal_pty"
slug terminal_fullscreen = codes "terminal_fullscreen"
slug browse_links = codes "browse_links"
slug open_docs = codes "open_docs"
slug link_prompt = codes "link"
slug fetch_github = codes "fetch_github"
slug mux_pane = codes "mux_pane"
slug macro1 = codes "macro_one"
slug macro2 = codes "macro_two"
slug command_logs = codes "command_logs"
slug config_panel = codes "config_panel"
slug working_tree = codes "working_tree"
slug commits = codes "commits"
slug ci_checks = codes "ci_checks"
slug rich_view = codes "rich_view"
slug exec_overlay = codes "exec_overlay"
slug clean_overlay = codes "clean_overlay"
slug agent_sessions = codes "agent_sessions"
slug help = codes "help"
slug quit = codes "quit"
slug command_palette = codes "command_palette"

-- `Action::all`, in the order of the declaration.
abbrev pub all_actions : List Action
all_actions =
    down ∷ up ∷ top ∷ bottom ∷ wt_scroll_down ∷ wt_scroll_up ∷ toggle_sidebar ∷ toggle_sidebar_mode
    ∷ cycle_sidebar_layout ∷ toggle_sidebar_position ∷ focus_swap ∷ toggle_mouse ∷ focus_worktrees
    ∷ focus_status ∷ filter ∷ toggle_select ∷ collapse_group ∷ expand_group ∷ refresh ∷ sync
    ∷ create ∷ create_from_issue ∷ delete_confirm ∷ bootstrap ∷ toggle_delete_branch ∷ pull ∷ push
    ∷ edit_worktree ∷ edit_note ∷ exit_to_worktree ∷ lazy_git_pty ∷ lazy_git_fullscreen
    ∷ review_fullscreen ∷ review_pty ∷ merge_pr ∷ yank_path ∷ yank_branch_name ∷ yank_worktree_name
    ∷ terminal_pty ∷ terminal_fullscreen ∷ browse_links ∷ open_docs ∷ link_prompt ∷ fetch_github
    ∷ mux_pane ∷ macro1 ∷ macro2 ∷ command_logs ∷ config_panel ∷ working_tree ∷ commits ∷ ci_checks
    ∷ rich_view ∷ exec_overlay ∷ clean_overlay ∷ agent_sessions ∷ help ∷ quit ∷ command_palette ∷ []

-- The first action of a list that has the slug.
unfoldable pub find_slug : Text → List Action → Option Action
find_slug s [] = none
find_slug s (a ∷ more) = let rest = find_slug s more in if text_eq (slug a) s then some a else rest

unfoldable pub from_slug : Text → Option Action
from_slug s = find_slug s all_actions

-- The slugs before the renaming, with the action each stands for now.
abbrev pub compat_aliases : List (Text × Action)
compat_aliases =
    (codes "git_tui", lazy_git_fullscreen)
    ∷ (codes "git_tui_overlay", lazy_git_pty)
    ∷ (codes "review", review_fullscreen)
    ∷ (codes "review_overlay", review_pty)
    ∷ (codes "yank", yank_path)
    ∷ (codes "open", terminal_fullscreen)
    ∷ (codes "open_terminal_overlay", terminal_pty)
    ∷ (codes "open_menu", browse_links)
    ∷ []

unfoldable pub find_alias : Text → List (Text × Action) → Option Action
find_alias s [] = none
find_alias s ((t, a) ∷ more) = let rest = find_alias s more in if text_eq t s then some a else rest

unfoldable pub from_slug_compat : Text → Option Action
from_slug_compat s = elim (from_slug s) [ some a ↦ some a | none ↦ find_alias s compat_aliases ]

unfoldable pub is_repo_mutating : Action → Bool
is_repo_mutating create = true
is_repo_mutating create_from_issue = true
is_repo_mutating delete_confirm = true
is_repo_mutating bootstrap = true
is_repo_mutating sync = true
is_repo_mutating pull = true
is_repo_mutating push = true
is_repo_mutating edit_worktree = true
is_repo_mutating edit_note = true
is_repo_mutating link_prompt = true
is_repo_mutating fetch_github = true
is_repo_mutating exec_overlay = true
is_repo_mutating clean_overlay = true
is_repo_mutating _ = false

abbrev aliases_of : Action → List (Text × Action) → List Text
aliases_of a [] = []
aliases_of a ((t, b) ∷ more) =
    let rest = aliases_of a more in if action_eq b a then t ∷ rest else rest

unfoldable pub compat_alias_slugs : Action → List Text
unfolding action_eq is_discrete_eq Action-discrete
compat_alias_slugs a = aliases_of a compat_aliases
