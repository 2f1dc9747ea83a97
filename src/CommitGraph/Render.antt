-- ===== src/CommitGraph/Render.antt =====
-- src/tui/commit_graph.rs: `box_drawing_chars`, `apply_pipe` and `render_pipe_set`.
-- A span is its one character with the flag that tells a node's style from a connector's; the
-- theme's colours are left out.
use gwm_cli.Base.{
  ℕ, zero, suc, ◌-◌, max, Bool, true, false, not, ◌&&◌, List, [], ◌∷◌, ◌==◌, ltb, if◌then◌else◌,
  map,
}
use gwm_cli.CommitGraph.Pipes.{
  PipeKind, terminates, starts, continues, Pipe, left, right, is_starts, is_terminates, CommitRow,
  build_pipe_sets,
}

pub data CellType : Type 0 where
  connection commit merge : CellType

pub record Cell : Type 0 where
  pub up : Bool
  pub down : Bool
  pub left : Bool
  pub right : Bool
  pub cell_type : CellType

unfoldable pub new_connection : Cell
new_connection = record {
  up = false;
  down = false;
  left = false;
  right = false;
  cell_type = connection;
}

unfoldable pub set_up : Cell → Cell
set_up c = record c { up = true }

unfoldable pub set_down : Cell → Cell
set_down c = record c { down = true }

unfoldable pub set_left : Cell → Cell
set_left c = record c { left = true }

unfoldable pub set_right : Cell → Cell
set_right c = record c { right = true }

unfoldable pub set_type : CellType → Cell → Cell
set_type t c = record c { cell_type = t }

-- The glyph and the filler on its right.
unfoldable pub box_drawing_chars : Bool → Bool → Bool → Bool → ℕ × ℕ
box_drawing_chars true true true true = (9474, 9472)
box_drawing_chars true true true false = (9474, 32)
box_drawing_chars true true false true = (9474, 9472)
box_drawing_chars true true false false = (9474, 32)
box_drawing_chars true false true true = (9524, 9472)
box_drawing_chars true false true false = (9583, 32)
box_drawing_chars true false false true = (9584, 9472)
box_drawing_chars true false false false = (9589, 32)
box_drawing_chars false true true true = (9516, 9472)
box_drawing_chars false true true false = (9582, 32)
box_drawing_chars false true false true = (9581, 9472)
box_drawing_chars false true false false = (9591, 32)
box_drawing_chars false false true true = (9472, 9472)
box_drawing_chars false false true false = (9472, 32)
box_drawing_chars false false false true = (9590, 9472)
box_drawing_chars false false false false = (32, 32)

-- `if let Some(c) = cells.get_mut(i) { .. }`.
unfoldable pub update : (Cell → Cell) → List Cell → ℕ → List Cell
update f [] i = []
update f (c ∷ cs) zero = f c ∷ cs
update f (c ∷ cs) (suc i) = c ∷ update f cs i

-- The horizontal strokes of `count` cells from `i`.
unfoldable pub stroke : List Cell → ℕ → ℕ → List Cell
stroke cells i zero = cells
stroke cells i (suc count) = stroke (update (λ c. set_right (set_left c)) cells i) (suc i) count

unfoldable pub across : List Cell → ℕ → ℕ → List Cell
across cells l r =
    if l == r
    then cells
    else update set_left (update set_right (stroke cells (suc l) (r - suc l)) l) r

unfoldable pub ends_of : List Cell → Pipe → PipeKind → List Cell
ends_of cells p starts = update set_down cells p.to_pos
ends_of cells p continues = update set_up (update set_down cells p.to_pos) p.from_pos
ends_of cells p terminates = update set_up cells p.from_pos

unfoldable pub apply_pipe : List Cell → Pipe → List Cell
apply_pipe cells p = ends_of (across cells (left p) (right p)) p p.kind

unfoldable pub apply_all : List Pipe → List Cell → List Cell
apply_all [] cells = cells
apply_all (p ∷ ps) cells = apply_all ps (apply_pipe cells p)

unfoldable pub filter : (Pipe → Bool) → List Pipe → List Pipe
filter f [] = []
filter f (p ∷ ps) = if f p then p ∷ filter f ps else filter f ps

unfoldable pub max_right : ℕ → List Pipe → ℕ
max_right m [] = m
max_right m (p ∷ ps) = max_right (max m (right p)) ps

unfoldable pub column_by : Pipe → PipeKind → ℕ → ℕ
column_by p starts pos = p.from_pos
column_by p terminates pos = p.to_pos
column_by p continues pos = pos

-- The last pipe that starts or ends on the commit has its column.
unfoldable pub commit_pos : ℕ → List Pipe → ℕ
commit_pos pos [] = pos
commit_pos pos (p ∷ ps) = commit_pos (column_by p p.kind pos) ps

unfoldable pub start_count : List Pipe → ℕ
start_count [] = 0
start_count (p ∷ ps) = if is_starts p.kind then suc (start_count ps) else start_count ps

-- The second pass leaves out the pipe that ends where it came from, on the commit.
unfoldable pub layered : ℕ → Pipe → Bool
layered pos p =
    not (is_starts p.kind) && not (is_terminates p.kind && (p.from_pos == pos) && (p.to_pos == pos))

unfoldable pub blank_cells : ℕ → List Cell
blank_cells zero = []
blank_cells (suc n) = new_connection ∷ blank_cells n

-- The cells of a row, its commit marked.
unfoldable pub row_cells : List Pipe → List Cell
row_cells ps =
    let pos = commit_pos 0 ps in
    update (set_type (if ltb 1 (start_count ps) then merge else commit))
      (apply_all (filter (layered pos) ps)
        (apply_all (filter (λ p. is_starts p.kind) ps) (blank_cells (suc (max_right 0 ps)))))
      pos

abbrev pub Span : Type 0
Span = ℕ × Bool

abbrev pub is_node : CellType → Bool
is_node connection = false
is_node _ = true

abbrev pub glyph_of : CellType → ℕ → ℕ
glyph_of connection glyph = glyph
glyph_of commit glyph = 9675
glyph_of merge glyph = 9678

unfoldable pub cell_spans : Cell → List Span → List Span
cell_spans c rest =
    let chars = box_drawing_chars c.up c.down c.left c.right in
    (glyph_of c.cell_type chars.0, is_node c.cell_type) ∷ (chars.1, false) ∷ rest

unfoldable pub spans_of : List Cell → List Span
spans_of [] = []
spans_of (c ∷ cs) = cell_spans c (spans_of cs)

unfoldable pub render_pipe_set : List Pipe → List Span
render_pipe_set ps = spans_of (row_cells ps)

unfoldable pub render_commits : List CommitRow → List (List Span)
render_commits cs = map render_pipe_set (build_pipe_sets cs)
