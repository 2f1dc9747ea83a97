-- ===== src/CommitGraph/Laws/Columns.antt =====
-- The column of a row's commit, as the renderer reads it off the pipes.
use gwm_cli.Base.{
  ℕ, ◌≤◌, ◌<◌, ◌≡◌, refl, ◌∙◌, max, Bool, true, not, List, [], ◌∷◌, ◌==◌, length, arith, ==_iff,
  Bool-cases, inl, inr,
}
use gwm_cli.CommitGraph.Pipes.{
  PipeKind, starts, Pipe, right, is_starts, CommitRow, live, column_of, get_next_pipes,
  extra_parents, phase1, phase1_pipe, phase2, phase3, phase3_pipe, carry, moved_pipe, open_parent,
  parent_pipe, passes, first_pass, Pass, reverse_onto, next_free_for_new, continuing_spots,
}
use gwm_cli.CommitGraph.Render.{commit_pos, column_by, start_count, max_right}
use gwm_cli.CommitGraph.Laws.Counts.{
  count, count-sort_pipes, count-reverse_onto, links, parents_of, get_next_pipes-links,
}

-- A pipe that starts or ends elsewhere than in column `pos`.
abbrev strays : ℕ → Pipe → Bool
strays pos p = not (column_by p p.kind pos == pos)

module _ (c : CommitRow) (pos : ℕ) where
  abbrev stray_count : Pass → ℕ
  stray_count t = count (strays pos) t.new_pipes

  stray-phase1 :
      (ps : List Pipe) (t : Pass) → stray_count t ≡ 0 → stray_count (phase1 c pos ps t) ≡ 0
  unfolding phase1 phase1_pipe carry moved_pipe column_by
  stray-phase1 [] t h = h
  stray-phase1 (p ∷ ps) t h =
      stray-phase1 ps (phase1_pipe c pos t p) (ground (arith, ==_iff pos pos))

  stray-phase2 :
      (cont ps : List ℕ) (t : Pass) → stray_count t ≡ 0 → stray_count (phase2 c pos cont ps t) ≡ 0
  unfolding phase2 open_parent parent_pipe column_by
  stray-phase2 cont [] t h = h
  stray-phase2 cont (p ∷ ps) t h =
      stray-phase2 cont ps (open_parent c pos t p (next_free_for_new t.spots.taken cont))
        (ground (arith, ==_iff pos pos))

  stray-phase3 :
      (ps : List Pipe) (t : Pass) → stray_count t ≡ 0 → stray_count (phase3 c pos ps t) ≡ 0
  unfolding phase3 phase3_pipe carry moved_pipe column_by
  stray-phase3 [] t h = h
  stray-phase3 (p ∷ ps) t h =
      stray-phase3 ps (phase3_pipe c pos t p) (ground (arith, ==_iff pos pos))

  stray-passes : (ps : List Pipe) → stray_count (passes c pos ps) ≡ 0
  unfolding passes parent_pipe column_by
  stray-passes ps =
      stray-phase3 ps
        (phase2 c pos (continuing_spots c ps) (extra_parents c.parents)
          (phase1 c pos ps (first_pass c pos)))
        (stray-phase2 (continuing_spots c ps) (extra_parents c.parents)
          (phase1 c pos ps (first_pass c pos))
          (stray-phase1 ps (first_pass c pos) (ground (arith, ==_iff pos pos))))

commit_pos-settled :
    (pos : ℕ) (ps : List Pipe) → count (strays pos) ps ≡ 0 → commit_pos pos ps ≡ pos
unfolding commit_pos
commit_pos-settled pos [] h = refl
commit_pos-settled pos (p ∷ ps) h =
    rw ((==_iff (column_by p p.kind pos) pos).0 (ground arith))
      (commit_pos-settled pos ps (ground arith))

column_by-starts :
    (p : Pipe) (k : PipeKind) (a b : ℕ) → is_starts k ≡ true → column_by p k a ≡ column_by p k b
unfolding column_by
column_by-starts p k a b h = ground arith

commit_pos-of_strays :
    (pos first : ℕ) (ps : List Pipe)
    → count (strays pos) ps ≡ 0
    → 0 < start_count ps
    → commit_pos first ps ≡ pos
unfolding commit_pos start_count
commit_pos-of_strays pos first [] h s = ground arith
commit_pos-of_strays pos first (p ∷ ps) h s = elim (Bool-cases (is_starts p.kind)) [
  | inl e ↦ rw (column_by-starts p p.kind first pos e) (commit_pos-settled pos (p ∷ ps) h)
  | inr n ↦ commit_pos-of_strays pos (column_by p p.kind first) ps (ground arith) (ground arith)
]

start_count-count : (ps : List Pipe) → start_count ps ≡ count (links starts (λ _ _. true)) ps
unfolding start_count
start_count-count [] = refl
start_count-count (p ∷ ps) = ground (arith, start_count-count ps)

count-true {ℓ} : {A : Type ℓ} (xs : List A) → count (λ _. true) xs ≡ length xs
count-true [] = refl
count-true (x ∷ xs) = ground (arith, count-true xs)

module _ (prev : List Pipe) (c : CommitRow) where
  -- A row has one starting pipe for each parent of its commit, and one for a root.
  pub start_count-get_next_pipes : start_count (get_next_pipes prev c) ≡ length (parents_of c)
  start_count-get_next_pipes =
      start_count-count (get_next_pipes prev c)
      ∙ (get_next_pipes-links prev c (λ _ _. true)).0
      ∙ count-true (parents_of c)

  stray-row : count (strays (column_of prev c)) (get_next_pipes prev c) ≡ 0
  unfolding get_next_pipes
  stray-row =
      let t = passes c (column_of prev c) (live prev) in
      omega (
        arith,
        count-sort_pipes (strays (column_of prev c)) (reverse_onto t.new_pipes []),
        count-reverse_onto (strays (column_of prev c)) t.new_pipes [],
        stray-passes c (column_of prev c) (live prev),
      )

  -- The renderer finds the commit in the column it was given.
  pub commit_pos-get_next_pipes : commit_pos 0 (get_next_pipes prev c) ≡ column_of prev c
  commit_pos-get_next_pipes =
      commit_pos-of_strays (column_of prev c) 0 (get_next_pipes prev c) stray-row
        (omega (arith, start_count-get_next_pipes))

max_right-le : (m : ℕ) (ps : List Pipe) → m ≤ max_right m ps
unfolding max_right
max_right-le m [] = omega arith
max_right-le m (p ∷ ps) = omega (arith, max_right-le (max m (right p)) ps)

pub commit_pos-le-max_right :
    (pos m : ℕ) (ps : List Pipe) → pos ≤ m → commit_pos pos ps ≤ max_right m ps
unfolding commit_pos max_right column_by
commit_pos-le-max_right pos m [] h = h
commit_pos-le-max_right pos m (p ∷ ps) h =
    commit_pos-le-max_right (column_by p p.kind pos) (max m (right p)) ps (ground arith)
