-- ===== src/CommitGraph/Pipes.antt =====
-- src/tui/commit_graph.rs: `build_pipe_sets` and `get_next_pipes`.
-- A column is a natural number (the `i16` of the source: a graph of 2 ^ 15 columns would
-- overflow it), an object id a number with the zero id as 0, a set of columns a list.
use gwm_cli.Base.{
  ℕ, zero, suc, ◌-◌, min, max, Bool, true, false, not, ◌&&◌, ◌||◌, List, [], ◌∷◌, ◌++◌, ◌==◌, leb,
  ltb, if◌then◌else◌, length,
}

pub data PipeKind : Type 0 where
  terminates starts continues : PipeKind

-- The declaration order, by which the derived `Ord` compares.
unfoldable pub kind_rank : PipeKind → ℕ
kind_rank terminates = 0
kind_rank starts = 1
kind_rank continues = 2

abbrev pub is_terminates : PipeKind → Bool
is_terminates terminates = true
is_terminates _ = false

abbrev pub is_starts : PipeKind → Bool
is_starts starts = true
is_starts _ = false

pub record Pipe : Type 0 where
  pub from_pos : ℕ
  pub to_pos : ℕ
  pub from_hash : ℕ
  pub to_hash : ℕ
  pub kind : PipeKind

abbrev pub left : Pipe → ℕ
left p = min p.from_pos p.to_pos

abbrev pub right : Pipe → ℕ
right p = max p.from_pos p.to_pos

-- The fields of a `CommitRow` that the graph reads.
pub record CommitRow : Type 0 where
  pub hash : ℕ
  pub parents : List ℕ

abbrev pub start_hash : ℕ
start_hash = 0

unfoldable pub max_to_pos : List Pipe → ℕ
max_to_pos [] = 0
max_to_pos (p ∷ ps) = max p.to_pos (max_to_pos ps)

-- Pipes that ended on the last row do not go on.
unfoldable pub live : List Pipe → List Pipe
live [] = []
live (p ∷ ps) = if is_terminates p.kind then live ps else p ∷ live ps

abbrev pub ends_on : CommitRow → Pipe → Bool
ends_on c p = p.to_hash == c.hash

-- The column of the first pipe that points at the commit, or a new one.
unfoldable pub commit_column : CommitRow → ℕ → List Pipe → ℕ
commit_column c fresh [] = fresh
commit_column c fresh (p ∷ ps) = if ends_on c p then p.to_pos else commit_column c fresh ps

unfoldable pub first_parent : List ℕ → ℕ
first_parent [] = start_hash
first_parent (p ∷ _) = p

abbrev pub has : ℕ → List ℕ → Bool
has i [] = false
has i (x ∷ xs) = i == x || has i xs

unfoldable pub continuing_spots : CommitRow → List Pipe → List ℕ
continuing_spots c [] = []
continuing_spots c (p ∷ ps) =
    if ends_on c p then continuing_spots c ps else p.to_pos ∷ continuing_spots c ps

-- `while spots.contains(&i) { i += 1 }`, on fuel; one round for each spot is enough.
unfoldable pub free_from : ℕ → ℕ → List ℕ → ℕ
free_from zero i spots = i
free_from (suc fuel) i spots =
    let next = free_from fuel (suc i) spots in if has i spots then next else i

unfoldable pub next_free : List ℕ → ℕ
next_free spots = free_from (length spots) 0 spots

unfoldable pub next_free_for_new : List ℕ → List ℕ → ℕ
next_free_for_new taken continuing = next_free (taken ++ continuing)

-- The columns `l ..= r`, put before `spots`.
unfoldable pub span_onto : ℕ → ℕ → List ℕ → List ℕ
span_onto l zero spots = spots
span_onto l (suc n) spots = l ∷ span_onto (suc l) n spots

pub record Spots : Type 0 where
  pub taken : List ℕ
  pub traversed : List ℕ

unfoldable pub traverse : Spots → ℕ → ℕ → Spots
traverse s from to = record {
  taken = to ∷ s.taken;
  traversed = span_onto (min from to) (suc (max from to) - min from to) s.traversed;
}

-- The pipes of the row so far, the last one first, with the spot sets.
pub record Pass : Type 0 where
  pub new_pipes : List Pipe
  pub spots : Spots

unfoldable pub moved_pipe : Pipe → ℕ → PipeKind → Pipe
moved_pipe p to k = record {
  from_pos = p.to_pos;
  to_pos = to;
  from_hash = p.from_hash;
  to_hash = p.to_hash;
  kind = k;
}

-- `new_pipes.push(..)` and `traverse(..)`.
unfoldable pub carry : Pass → Pipe → ℕ → PipeKind → Pass
carry t p to k = record {
  new_pipes = moved_pipe p to k ∷ t.new_pipes;
  spots = traverse t.spots p.to_pos to;
}

unfoldable pub phase1_pipe : CommitRow → ℕ → Pass → Pipe → Pass
phase1_pipe c pos t p =
    if ends_on c p
    then carry t p pos terminates
    else if ltb p.to_pos pos
    then carry t p (next_free t.spots.traversed) continues
    else t

unfoldable pub phase1 : CommitRow → ℕ → List Pipe → Pass → Pass
phase1 c pos [] t = t
phase1 c pos (p ∷ ps) t = phase1 c pos ps (phase1_pipe c pos t p)

unfoldable pub parent_pipe : CommitRow → ℕ → ℕ → ℕ → Pipe
parent_pipe c pos to parent = record {
  from_pos = pos;
  to_pos = to;
  from_hash = c.hash;
  to_hash = parent;
  kind = starts;
}

unfoldable pub open_parent : CommitRow → ℕ → Pass → ℕ → ℕ → Pass
open_parent c pos t parent avail = record {
  new_pipes = parent_pipe c pos avail parent ∷ t.new_pipes;
  spots = record { taken = avail ∷ t.spots.taken; traversed = t.spots.traversed };
}

unfoldable pub phase2 : CommitRow → ℕ → List ℕ → List ℕ → Pass → Pass
phase2 c pos continuing [] t = t
phase2 c pos continuing (parent ∷ ps) t =
    phase2 c pos continuing ps
      (open_parent c pos t parent (next_free_for_new t.spots.taken continuing))

unfoldable pub extra_parents : List ℕ → List ℕ
extra_parents [] = []
extra_parents (_ ∷ ps) = ps

-- The walk left from a column, `steps` columns at most, up to the first one that is in use.
unfoldable pub walk_left : Spots → ℕ → ℕ → ℕ
walk_left s zero last = last
walk_left s (suc steps) last =
    let next = walk_left s steps (last - 1) in
    if has (last - 1) s.taken || has (last - 1) s.traversed then last else next

unfoldable pub phase3_pipe : CommitRow → ℕ → Pass → Pipe → Pass
phase3_pipe c pos t p =
    if not (ends_on c p) && ltb pos p.to_pos
    then carry t p (walk_left t.spots (p.to_pos - pos) p.to_pos) continues
    else t

unfoldable pub phase3 : CommitRow → ℕ → List Pipe → Pass → Pass
phase3 c pos [] t = t
phase3 c pos (p ∷ ps) t = phase3 c pos ps (phase3_pipe c pos t p)

-- The order of the row: by column, then by kind.
unfoldable pub precedes : Pipe → Pipe → Bool
precedes a b =
    if a.to_pos == b.to_pos
    then leb (kind_rank a.kind) (kind_rank b.kind)
    else ltb a.to_pos b.to_pos

-- The stable sort: equal pipes keep their order.
unfoldable pub sort_insert : Pipe → List Pipe → List Pipe
sort_insert p [] = p ∷ []
sort_insert p (q ∷ qs) =
    let rest = sort_insert p qs in if precedes p q then p ∷ q ∷ qs else q ∷ rest

unfoldable pub sort_pipes : List Pipe → List Pipe
sort_pipes [] = []
sort_pipes (p ∷ ps) = sort_insert p (sort_pipes ps)

unfoldable pub reverse_onto : List Pipe → List Pipe → List Pipe
reverse_onto [] acc = acc
reverse_onto (p ∷ ps) acc = reverse_onto ps (p ∷ acc)

abbrev pub first_pass : CommitRow → ℕ → Pass
first_pass c pos = record {
  new_pipes = parent_pipe c pos pos (first_parent c.parents) ∷ [];
  spots = record { taken = []; traversed = [] };
}

-- The three phases, from the pipes that go on, and the commit's column.
unfoldable pub passes : CommitRow → ℕ → List Pipe → Pass
passes c pos current = phase3 c pos current (
    phase2 c pos (continuing_spots c current) (extra_parents c.parents)
      (phase1 c pos current (first_pass c pos)))

unfoldable pub column_of : List Pipe → CommitRow → ℕ
column_of prev c = commit_column c (suc (max_to_pos prev)) (live prev)

unfoldable pub get_next_pipes : List Pipe → CommitRow → List Pipe
get_next_pipes prev c =
    sort_pipes (reverse_onto (passes c (column_of prev c) (live prev)).new_pipes [])

unfoldable pub rows_from : List Pipe → List CommitRow → List (List Pipe)
rows_from pipes [] = []
rows_from pipes (c ∷ cs) = get_next_pipes pipes c ∷ rows_from (get_next_pipes pipes c) cs

unfoldable pub seed : CommitRow → Pipe
seed c = record {
  from_pos = 0;
  to_pos = 0;
  from_hash = start_hash;
  to_hash = c.hash;
  kind = starts;
}

unfoldable pub build_pipe_sets : List CommitRow → List (List Pipe)
build_pipe_sets [] = []
build_pipe_sets (c ∷ cs) = rows_from (seed c ∷ []) (c ∷ cs)
