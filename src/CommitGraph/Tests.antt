-- ===== src/CommitGraph/Tests.antt =====
-- A merge of two branches: 5 merges 4 and 3, both children of the root 1.
use gwm_cli.Base.{ℕ, ◌+◌, ◌*◌, ◌≡◌, ◌<◌, refl, true, false, List, [], ◌∷◌, ◌==◌, map}
use gwm_cli.CommitGraph.Pipes.{
  Pipe, starts, terminates, continues, CommitRow, live, column_of, get_next_pipes, next_free, has,
  next_free_for_new, seed, build_pipe_sets, rows_from, sort_pipes, sort_insert, precedes, kind_rank,
  reverse_onto, passes, phase1, phase1_pipe, phase2, phase3, phase3_pipe, carry, moved_pipe,
  traverse, span_onto, free_from, walk_left, parent_pipe, open_parent, extra_parents, first_parent,
  continuing_spots, commit_column, max_to_pos,
}
use gwm_cli.CommitGraph.Render.{render_pipe_set, max_right}
use gwm_cli.CommitGraph.Laws.Spots.{next_free_first, next_free_for_new_fresh}
use gwm_cli.CommitGraph.Laws.Counts.{
  count, links, ending, passing, displaced, parents_of, get_next_pipes-links,
}
use gwm_cli.CommitGraph.Laws.Nodes.{styled_node, glyph_at, render-get_next_pipes}

abbrev merge_commit : CommitRow
merge_commit = record { hash = 5; parents = 4 ∷ 3 ∷ [] }

abbrev history : List CommitRow
history =
    merge_commit
    ∷ record { hash = 4; parents = 1 ∷ [] }
    ∷ record { hash = 3; parents = 1 ∷ [] }
    ∷ record { hash = 1; parents = [] }
    ∷ []

abbrev above_merge : List Pipe
above_merge = seed merge_commit ∷ []

next_free_first_example :
    (has (next_free (0 ∷ 2 ∷ 1 ∷ [])) (0 ∷ 2 ∷ 1 ∷ []) ≡ false)
    × ((j : ℕ) → j < next_free (0 ∷ 2 ∷ 1 ∷ []) → has j (0 ∷ 2 ∷ 1 ∷ []) ≡ true)
next_free_first_example = next_free_first (0 ∷ 2 ∷ 1 ∷ [])

next_free_for_new_fresh_example :
    (has (next_free_for_new (0 ∷ []) (1 ∷ [])) (0 ∷ []) ≡ false)
    × (has (next_free_for_new (0 ∷ []) (1 ∷ [])) (1 ∷ []) ≡ false)
next_free_for_new_fresh_example = next_free_for_new_fresh (0 ∷ []) (1 ∷ [])

get_next_pipes-links_example :
    (count (links starts (λ _ _. true)) (get_next_pipes above_merge merge_commit)
      ≡ count (λ _. true) (parents_of merge_commit))
    × (count (links terminates (λ _ _. true)) (get_next_pipes above_merge merge_commit)
        ≡ count (ending above_merge merge_commit (λ _ _. true)) (live above_merge))
    × (count (links continues (λ _ _. true)) (get_next_pipes above_merge merge_commit)
          + count (displaced above_merge merge_commit (λ _ _. true)) (live above_merge)
        ≡ count (passing above_merge merge_commit (λ _ _. true)) (live above_merge))
get_next_pipes-links_example = get_next_pipes-links above_merge merge_commit (λ _ _. true)

render-get_next_pipes_example :
    ((i : ℕ)
      → styled_node (render_pipe_set (get_next_pipes above_merge merge_commit)) (2 * i)
        ≡ (i == column_of above_merge merge_commit))
    × (glyph_at
          (render_pipe_set (get_next_pipes above_merge merge_commit))
          (2 * column_of above_merge merge_commit)
        ≡ 9678)
render-get_next_pipes_example = render-get_next_pipes above_merge merge_commit

widths : map (λ ps. max_right 0 ps) (build_pipe_sets history) ≡ 1 ∷ 1 ∷ 1 ∷ 1 ∷ []
unfolding build_pipe_sets rows_from seed get_next_pipes column_of commit_column max_to_pos live
    passes phase1 phase1_pipe phase2 phase3 phase3_pipe carry moved_pipe traverse span_onto
    free_from walk_left parent_pipe open_parent extra_parents first_parent continuing_spots
    next_free next_free_for_new sort_pipes sort_insert precedes kind_rank reverse_onto max_right
widths = refl
