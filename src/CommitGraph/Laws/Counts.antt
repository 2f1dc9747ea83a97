-- ===== src/CommitGraph/Laws/Counts.antt =====
-- What becomes of the pipes of a row: how many of each kind there are, whatever they link.
use gwm_cli.Base.{
  ℕ, suc, ◌+◌, ◌≡◌, refl, Bool, true, false, not, ◌&&◌, List, [], ◌∷◌, ◌==◌, ltb, arith,
  if◌then◌else◌,
}
use gwm_cli.CommitGraph.Pipes.{
  PipeKind, terminates, starts, continues, Pipe, CommitRow, live, ends_on, column_of,
  get_next_pipes, first_parent, extra_parents, phase1, phase1_pipe, phase2, phase3, phase3_pipe,
  carry, moved_pipe, open_parent, parent_pipe, passes, first_pass, Pass, sort_insert, sort_pipes,
  reverse_onto, next_free_for_new, continuing_spots,
}

abbrev pub count {ℓ} : {A : Type ℓ} → (A → Bool) → List A → ℕ
count f [] = 0
count f (p ∷ ps) = if f p then suc (count f ps) else count f ps

abbrev pub kind_is : PipeKind → PipeKind → Bool
kind_is terminates terminates = true
kind_is starts starts = true
kind_is continues continues = true
kind_is _ _ = false

-- The pipes of a kind whose two commits pass the test `f`.
abbrev pub links : PipeKind → (ℕ → ℕ → Bool) → Pipe → Bool
links k f p = kind_is k p.kind && f p.from_hash p.to_hash

count-sort_insert :
    (f : Pipe → Bool) (p : Pipe) (qs : List Pipe) → count f (sort_insert p qs) ≡ count f (p ∷ qs)
unfolding sort_insert
count-sort_insert f p [] = refl
count-sort_insert f p (q ∷ qs) = ground (arith, count-sort_insert f p qs)

pub count-sort_pipes : (f : Pipe → Bool) (ps : List Pipe) → count f (sort_pipes ps) ≡ count f ps
unfolding sort_pipes
count-sort_pipes f [] = refl
count-sort_pipes f (p ∷ ps) =
    ground (arith, count-sort_insert f p (sort_pipes ps), count-sort_pipes f ps)

pub count-reverse_onto :
    (f : Pipe → Bool) (ps acc : List Pipe)
    → count f (reverse_onto ps acc) ≡ count f ps + count f acc
unfolding reverse_onto
count-reverse_onto f [] acc = omega arith
count-reverse_onto f (p ∷ ps) acc = ground (arith, count-reverse_onto f ps (p ∷ acc))

-- The parents that a commit's new pipes lead to: the zero id stands for the parent of a root.
abbrev pub parents_of : CommitRow → List ℕ
parents_of c = first_parent c.parents ∷ extra_parents c.parents

module _ (c : CommitRow) (pos : ℕ) (k : PipeKind) (f : ℕ → ℕ → Bool) where
  abbrev adds1 : Pipe → Bool
  adds1 p =
      (if ends_on c p then kind_is k terminates else ltb p.to_pos pos && kind_is k continues)
      && f p.from_hash p.to_hash

  abbrev adds3 : Pipe → Bool
  adds3 p =
      (not (ends_on c p) && ltb pos p.to_pos && kind_is k continues) && f p.from_hash p.to_hash

  abbrev adds2 : ℕ → Bool
  adds2 parent = kind_is k starts && f c.hash parent

  abbrev total : Pass → ℕ
  total t = count (links k f) t.new_pipes

  count-phase1_pipe :
      (t : Pass) (p : Pipe)
      → total (phase1_pipe c pos t p) ≡ (if adds1 p then suc (total t) else total t)
  unfolding phase1_pipe carry moved_pipe
  count-phase1_pipe t p = ground arith

  count-phase1 : (ps : List Pipe) (t : Pass) → total (phase1 c pos ps t) ≡ total t + count adds1 ps
  unfolding phase1
  count-phase1 [] t = omega arith
  count-phase1 (p ∷ ps) t =
      ground (arith, count-phase1 ps (phase1_pipe c pos t p), count-phase1_pipe t p)

  count-open_parent :
      (t : Pass) (parent avail : ℕ)
      → total (open_parent c pos t parent avail) ≡ (if adds2 parent then suc (total t) else total t)
  unfolding open_parent parent_pipe
  count-open_parent t parent avail = ground arith

  count-phase2 :
      (cont ps : List ℕ) (t : Pass) → total (phase2 c pos cont ps t) ≡ total t + count adds2 ps
  unfolding phase2
  count-phase2 cont [] t = omega arith
  count-phase2 cont (p ∷ ps) t =
      let avail = next_free_for_new t.spots.taken cont in
      ground
        (arith, count-phase2 cont ps (open_parent c pos t p avail), count-open_parent t p avail)

  count-phase3_pipe :
      (t : Pass) (p : Pipe)
      → total (phase3_pipe c pos t p) ≡ (if adds3 p then suc (total t) else total t)
  unfolding phase3_pipe carry moved_pipe
  count-phase3_pipe t p = ground arith

  count-phase3 : (ps : List Pipe) (t : Pass) → total (phase3 c pos ps t) ≡ total t + count adds3 ps
  unfolding phase3
  count-phase3 [] t = omega arith
  count-phase3 (p ∷ ps) t =
      ground (arith, count-phase3 ps (phase3_pipe c pos t p), count-phase3_pipe t p)

  count-passes :
      (ps : List Pipe)
      → total (passes c pos ps) ≡ count adds2 (parents_of c) + count adds1 ps + count adds3 ps
  unfolding passes parent_pipe
  count-passes ps =
      let t1 = phase1 c pos ps (first_pass c pos) in
      let cont = continuing_spots c ps in
      ground (
        arith,
        count-phase1 ps (first_pass c pos),
        count-phase2 cont (extra_parents c.parents) t1,
        count-phase3 ps (phase2 c pos cont (extra_parents c.parents) t1),
      )

count-false {ℓ} : {A : Type ℓ} (xs : List A) → count (λ _. false) xs ≡ 0
count-false [] = refl
count-false (x ∷ xs) = count-false xs

module _ (prev : List Pipe) (c : CommitRow) (f : ℕ → ℕ → Bool) where
  abbrev pub ending : Pipe → Bool
  ending p = ends_on c p && f p.from_hash p.to_hash

  abbrev pub passing : Pipe → Bool
  passing p = not (ends_on c p) && f p.from_hash p.to_hash

  -- A pipe to another commit, in the very column that the commit gets.
  abbrev pub displaced : Pipe → Bool
  displaced p = (p.to_pos == column_of prev c) && passing p

  abbrev row_count : PipeKind → ℕ
  row_count k = count (links k f) (get_next_pipes prev c)

  row_count_sum :
      (k : PipeKind)
      → row_count k
        ≡ count (adds2 c (column_of prev c) k f) (parents_of c)
          + count (adds1 c (column_of prev c) k f) (live prev)
          + count (adds3 c (column_of prev c) k f) (live prev)
  unfolding get_next_pipes
  row_count_sum k =
      let t = passes c (column_of prev c) (live prev) in
      omega (
        arith,
        count-sort_pipes (links k f) (reverse_onto t.new_pipes []),
        count-reverse_onto (links k f) t.new_pipes [],
        count-passes c (column_of prev c) k f (live prev),
      )

  sum_starts :
      (ps : List Pipe)
      → (count (adds1 c (column_of prev c) starts f) ps ≡ 0)
        × (count (adds3 c (column_of prev c) starts f) ps ≡ 0)
  sum_starts [] = (refl, refl)
  sum_starts (p ∷ ps) = ground (arith, sum_starts ps)

  sum_terminates :
      (ps : List Pipe)
      → count (adds1 c (column_of prev c) terminates f) ps
          + count (adds3 c (column_of prev c) terminates f) ps
        ≡ count ending ps
  sum_terminates [] = omega arith
  sum_terminates (p ∷ ps) = ground (arith, sum_terminates ps)

  sum_continues :
      (ps : List Pipe)
      → count (adds1 c (column_of prev c) continues f) ps
          + count (adds3 c (column_of prev c) continues f) ps
          + count displaced ps
        ≡ count passing ps
  sum_continues [] = omega arith
  sum_continues (p ∷ ps) = ground (arith, sum_continues ps)

  -- Whatever the test `f` of the two commits a pipe links: the row of a commit has one starting
  -- pipe for each of its parents (one for a root), one terminating pipe for each live pipe that
  -- points at it, and one continuing pipe for each live pipe that points at another commit, save
  -- those that stand in the commit's own column.
  pub get_next_pipes-links :
      (count (links starts f) (get_next_pipes prev c) ≡ count (f c.hash) (parents_of c))
      × (count (links terminates f) (get_next_pipes prev c) ≡ count ending (live prev))
      × (count (links continues f) (get_next_pipes prev c) + count displaced (live prev)
          ≡ count passing (live prev))
  get_next_pipes-links = (
    omega (arith, row_count_sum starts, sum_starts (live prev)),
    omega (arith, row_count_sum terminates, sum_terminates (live prev), count-false (parents_of c)),
    omega (arith, row_count_sum continues, sum_continues (live prev), count-false (parents_of c)),
  )
