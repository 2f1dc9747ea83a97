-- ===== src/Tasks.antt =====
-- src/tui/state/async_task.rs: the generation protocol of the background tasks.
-- `generation` is the map with its default 0; `running` is the set, as a list in the iteration
-- order of the hash set, which the program leaves open. A `u64` counter wraps (release builds).
pub mod Laws
pub mod Labels
mod Tests
use native.Mathlib.Decide.{ℕ_discrete}
use gwm_cli.Base.{
  ℕ, ◌+◌, ◌%◌, ◌^◌, ◌==◌, Bool, true, false, not, ◌||◌, List, [], ◌∷◌, Option, none, some,
  if◌then◌else◌, any, is_empty, Text, codes,
}

pub data TaskKind : Type 0 where
  create_worktree refresh_worktrees : TaskKind
  github_issue github_pr github_pr_threads : ℕ → TaskKind
  sync bootstrap delete_worktree merge_pr pull push edit_worktree : TaskKind
  refresh_workspace sidebar working_tree commits commit_stats agent_sessions agent_pane : TaskKind

unfoldable pub TaskKind-discrete : Discrete TaskKind
TaskKind-discrete = hlevel ℕ_discrete

unfoldable pub kind_eq : TaskKind → TaskKind → Bool
kind_eq a b = elim (TaskKind-discrete a b) [ yes _ ↦ true | no _ ↦ false ]

unfoldable pub loading_label : TaskKind → Text
loading_label create_worktree = codes "creating worktree…"
loading_label refresh_worktrees = codes "refreshing worktrees…"
loading_label (github_issue _) = codes "fetching GitHub status…"
loading_label (github_pr _) = codes "fetching GitHub status…"
loading_label (github_pr_threads _) = codes "fetching inline comments…"
loading_label sync = codes "syncing…"
loading_label bootstrap = codes "bootstrapping…"
loading_label delete_worktree = codes "deleting worktree…"
loading_label merge_pr = codes "merging…"
loading_label pull = codes "pulling…"
loading_label push = codes "pushing…"
loading_label edit_worktree = codes "renaming worktree…"
loading_label refresh_workspace = codes "refreshing worktrees…"
loading_label sidebar = codes "loading preview…"
loading_label working_tree = codes "reading the working tree…"
loading_label commits = codes "reading the log…"
loading_label commit_stats = codes "reading the diffs…"
loading_label agent_sessions = codes "detecting agent sessions…"
loading_label agent_pane = codes "opening agent pane…"

unfoldable pub is_github : TaskKind → Bool
is_github (github_issue _) = true
is_github (github_pr _) = true
is_github (github_pr_threads _) = true
is_github _ = false

unfoldable pub is_mutating : TaskKind → Bool
is_mutating create_worktree = true
is_mutating sync = true
is_mutating bootstrap = true
is_mutating delete_worktree = true
is_mutating merge_pr = true
is_mutating pull = true
is_mutating push = true
is_mutating edit_worktree = true
is_mutating _ = false

pub record TaskRunner : Type 0 where
  pub generation : TaskKind → ℕ
  pub running : List TaskKind

abbrev pub new_runner : TaskRunner
new_runner = record { generation = λ _. 0; running = [] }

unfoldable pub contains : TaskKind → List TaskKind → Bool
contains k [] = false
contains k (x ∷ xs) = kind_eq k x || contains k xs

unfoldable pub remove : TaskKind → List TaskKind → List TaskKind
remove k [] = []
remove k (x ∷ xs) = if kind_eq k x then remove k xs else x ∷ remove k xs

abbrev pub u64_mod : ℕ
u64_mod = 2 ^ 64

-- `*self.generation.entry(kind).or_insert(0) += 1`
unfoldable pub bump : TaskKind → (TaskKind → ℕ) → TaskKind → ℕ
bump k g j = if kind_eq k j then (g j + 1) % u64_mod else g j

unfoldable pub request : TaskKind → TaskRunner → TaskRunner × Option ℕ
request k r = if contains k r.running then (r, none) else (
  record { generation = bump k r.generation; running = k ∷ r.running },
  some (bump k r.generation k),
)

unfoldable pub invalidate : TaskKind → TaskRunner → TaskRunner
invalidate k r = record { generation = bump k r.generation; running = remove k r.running }

abbrev pub hits_of : (TaskKind → Bool) → List TaskKind → List TaskKind
hits_of p [] = []
hits_of p (k ∷ ks) = if p k then k ∷ hits_of p ks else hits_of p ks

unfoldable pub invalidate_all : List TaskKind → TaskRunner → TaskRunner
invalidate_all [] r = r
invalidate_all (k ∷ ks) r = invalidate_all ks (invalidate k r)

unfoldable pub invalidate_matching : (TaskKind → Bool) → TaskRunner → TaskRunner
invalidate_matching p r = invalidate_all (hits_of p r.running) r

-- `HashSet::remove` says whether the kind was there.
unfoldable pub complete : TaskKind → ℕ → TaskRunner → TaskRunner × Bool
complete k generation r =
    if generation == r.generation k
    then (record r { running = remove k r.running }, contains k r.running)
    else (r, false)

unfoldable pub is_loading : TaskKind → TaskRunner → Bool
is_loading k r = contains k r.running

unfoldable pub is_any_loading : TaskRunner → Bool
is_any_loading r = not (is_empty r.running)

unfoldable pub has_mutating_task_in_flight : TaskRunner → Bool
has_mutating_task_in_flight r = any is_mutating r.running

unfoldable pub mutating_loading_label : TaskRunner → Option Text
mutating_loading_label r =
    if contains create_worktree r.running
    then some (loading_label create_worktree)
    else if contains sync r.running
    then some (loading_label sync)
    else if contains bootstrap r.running
    then some (loading_label bootstrap)
    else if contains merge_pr r.running
    then some (loading_label merge_pr)
    else if contains delete_worktree r.running
    then some (loading_label delete_worktree)
    else if contains pull r.running
    then some (loading_label pull)
    else if contains push r.running
    then some (loading_label push)
    else if contains edit_worktree r.running
    then some (loading_label edit_worktree)
    else none
