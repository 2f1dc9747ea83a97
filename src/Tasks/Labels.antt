-- ===== src/Tasks/Labels.antt =====
-- The label of the tasks that change something.
use gwm_cli.Base.{
  ◌≡◌, ◌≢◌, refl, inl, inr, Bool, true, false, List, [], ◌∷◌, Option, none, some, arith, any, Text,
  Bool-cases,
}
use gwm_cli.Tasks.{
  TaskKind, kind_eq, is_mutating, TaskRunner, contains, has_mutating_task_in_flight,
  mutating_loading_label, create_worktree, sync, bootstrap, delete_worktree, merge_pr, pull, push,
  edit_worktree,
}
use gwm_cli.Tasks.Laws.{kind_eq-eq, kind_eq_iff}

abbrev pub label_some : Option Text → Bool
label_some none = false
label_some (some _) = true

-- No task of the eight kinds that the label's chain tests is running.
record LacksAll (ks : List TaskKind) : Type 0 where
  no_create : contains create_worktree ks ≡ false
  no_sync : contains sync ks ≡ false
  no_bootstrap : contains bootstrap ks ≡ false
  no_merge : contains merge_pr ks ≡ false
  no_delete : contains delete_worktree ks ≡ false
  no_pull : contains pull ks ≡ false
  no_push : contains push ks ≡ false
  no_edit : contains edit_worktree ks ≡ false

LacksAll-tail : (k : TaskKind) (ks : List TaskKind) → LacksAll (k ∷ ks) → LacksAll ks
unfolding contains
LacksAll-tail k ks h = ground arith

lacks_kind : (c k : TaskKind) (ks : List TaskKind) → contains c (k ∷ ks) ≡ false → c ≢ k
unfolding contains
lacks_kind c k ks h e = ground (arith, kind_eq_iff c k)

is_mutating-LacksAll :
    (k : TaskKind) (ks : List TaskKind) → LacksAll (k ∷ ks) → is_mutating k ≡ false
unfolding is_mutating
is_mutating-LacksAll create_worktree ks h =
    absurd (lacks_kind create_worktree create_worktree ks h.no_create refl)
is_mutating-LacksAll sync ks h = absurd (lacks_kind sync sync ks h.no_sync refl)
is_mutating-LacksAll bootstrap ks h = absurd (lacks_kind bootstrap bootstrap ks h.no_bootstrap refl)
is_mutating-LacksAll merge_pr ks h = absurd (lacks_kind merge_pr merge_pr ks h.no_merge refl)
is_mutating-LacksAll delete_worktree ks h =
    absurd (lacks_kind delete_worktree delete_worktree ks h.no_delete refl)
is_mutating-LacksAll pull ks h = absurd (lacks_kind pull pull ks h.no_pull refl)
is_mutating-LacksAll push ks h = absurd (lacks_kind push push ks h.no_push refl)
is_mutating-LacksAll edit_worktree ks h =
    absurd (lacks_kind edit_worktree edit_worktree ks h.no_edit refl)
is_mutating-LacksAll _ ks h = refl

any-LacksAll : (ks : List TaskKind) → LacksAll ks → any is_mutating ks ≡ false
any-LacksAll [] h = refl
any-LacksAll (k ∷ ks) h = rw (is_mutating-LacksAll k ks h) (any-LacksAll ks (LacksAll-tail k ks h))

any-of_contains :
    (c : TaskKind) (ks : List TaskKind)
    → is_mutating c ≡ true
    → contains c ks ≡ true
    → any is_mutating ks ≡ true
unfolding contains
any-of_contains c [] m h = cc
any-of_contains c (k ∷ ks) m h = elim (Bool-cases (kind_eq c k)) [
  | inl e ↦ rw (← kind_eq-eq c k e, m)
  | inr n ↦ ground (arith, any-of_contains c ks m)
]

no_label :
    (ks : List TaskKind)
    → contains create_worktree ks ≡ false
    → contains sync ks ≡ false
    → contains bootstrap ks ≡ false
    → contains merge_pr ks ≡ false
    → contains delete_worktree ks ≡ false
    → contains pull ks ≡ false
    → contains push ks ≡ false
    → contains edit_worktree ks ≡ false
    → any is_mutating ks ≡ false
no_label ks a b c d e f g h = any-LacksAll ks (record {
  no_create = a;
  no_sync = b;
  no_bootstrap = c;
  no_merge = d;
  no_delete = e;
  no_pull = f;
  no_push = g;
  no_edit = h;
})

-- A label is shown exactly while a task that changes something is in flight: the chain of tests
-- names every mutating kind.
pub mutating_loading_label_iff :
    (r : TaskRunner) → label_some (mutating_loading_label r) ≡ has_mutating_task_in_flight r
unfolding mutating_loading_label has_mutating_task_in_flight is_mutating
mutating_loading_label_iff r = ground (
  arith,
  any-of_contains create_worktree r.running refl,
  any-of_contains sync r.running refl,
  any-of_contains bootstrap r.running refl,
  any-of_contains merge_pr r.running refl,
  any-of_contains delete_worktree r.running refl,
  any-of_contains pull r.running refl,
  any-of_contains push r.running refl,
  any-of_contains edit_worktree r.running refl,
  no_label r.running,
)
