-- ===== src/Filter/Tests.antt =====
-- A list of three worktrees, scored by the first letter.
use gwm_cli.Base.{
  ℕ, ◌≡◌, refl, true, false, Option, none, some, List, [], ◌∷◌, ◌==◌, Text, codes, if◌then◌else◌,
  length,
}
use gwm_cli.Filter.{
  WorktreeInfo, visible_indices, fuzzy_match_indices, new_filter, filtered_indices,
  snapshot_indices, scored_from, push_score, rank, rank_insert, ranks_before,
}
use gwm_cli.Filter.Laws.Cache.{Op, push_op, read_op, refresh_op, pop_op, run, lookups_fresh}
use gwm_cli.Filter.Laws.Matches.{times, times-visible_indices}

abbrev first_letter : Text → Text → Option ℕ
first_letter (q ∷ _) (c ∷ name) = if q == c then some (length name) else none
first_letter _ _ = none

abbrev worktrees : List WorktreeInfo
worktrees =
    record { name = codes "main"; is_main = true }
    ∷ record { name = codes "fix"; is_main = false }
    ∷ record { name = codes "feat"; is_main = false }
    ∷ []

abbrev compute : Text → List WorktreeInfo → List ℕ
compute q ws = visible_indices first_letter q ws (λ _. false)

abbrev ops : List (Op compute)
ops = read_op ∷ push_op b'f' ∷ read_op ∷ refresh_op [] ∷ push_op b'e' ∷ pop_op ∷ read_op ∷ []

lookups_fresh_example :
    let now = run compute ops (record { filter = new_filter; worktrees = worktrees }) in
    ((filtered_indices compute now.filter now.worktrees).1 ≡ compute now.filter.query now.worktrees)
    × (snapshot_indices compute now.filter now.worktrees ≡ compute now.filter.query now.worktrees)
lookups_fresh_example = lookups_fresh compute worktrees ops

times-visible_indices_example :
    times 2 (visible_indices first_letter (codes "f") worktrees (λ _. true)) ≡ 1
times-visible_indices_example =
    times-visible_indices first_letter (codes "f") worktrees (λ _. true) 2

best_first : visible_indices first_letter (codes "f") worktrees (λ _. true) ≡ 2 ∷ 1 ∷ []
unfolding visible_indices fuzzy_match_indices scored_from push_score rank rank_insert ranks_before
best_first = refl
