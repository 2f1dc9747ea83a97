-- ===== src/Tasks/Tests.antt =====
-- The protocol at small schedules.
use gwm_cli.Base.{◌≡◌, refl, true, false, List, [], ◌∷◌, some, arith, codes}
use gwm_cli.Tasks.{
  TaskKind-discrete, kind_eq, TaskRunner, contains, remove, bump, request, invalidate, complete,
  is_loading, mutating_loading_label, sync, pull, github_pr, loading_label,
}
use gwm_cli.Tasks.Laws.{
  Op, request_op, invalidate_op, complete_op, run, complete_superseded, complete_once,
}

abbrev idle : TaskRunner
idle = record { generation = λ _. 0; running = [] }

abbrev syncing : TaskRunner
syncing = (request sync idle).0

sync_claimed : request sync idle ≡ (syncing, some 1)
unfolding request contains bump kind_eq TaskKind-discrete
sync_claimed = refl

abbrev superseding : List Op
superseding = request_op pull ∷ invalidate_op sync ∷ request_op sync ∷ []

complete_superseded_example :
    complete sync 1 (run superseding syncing) ≡ (run superseding syncing, false)
unfolding request contains bump kind_eq TaskKind-discrete invalidate remove
complete_superseded_example =
    complete_superseded sync idle superseding sync_claimed (omega arith) (omega arith)

abbrev elsewhere : List Op
elsewhere =
    complete_op sync 0 ∷ request_op (github_pr 7) ∷ complete_op pull 3 ∷ invalidate_op pull ∷ []

complete_once_example :
    ((complete sync 1 (run elsewhere syncing)).1 ≡ true)
    × (is_loading sync (complete sync 1 (run elsewhere syncing)).0 ≡ false)
    × ((complete sync 1 (complete sync 1 (run elsewhere syncing)).0).1 ≡ false)
unfolding request contains bump kind_eq TaskKind-discrete invalidate remove
complete_once_example = complete_once sync idle elsewhere sync_claimed (refl, (refl, tt)) refl

label_of_sync : mutating_loading_label syncing ≡ some (codes "syncing…")
unfolding mutating_loading_label loading_label request contains bump kind_eq TaskKind-discrete
label_of_sync = refl
