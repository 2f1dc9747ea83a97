-- ===== src/CommitGraph/Laws/Nodes.antt =====
-- The cells of a row: as many as the row is wide, and one node among them.
use gwm_cli.Base.{
  ℕ, zero, suc, ◌*◌, ◌-◌, ◌<◌, ◌≡◌, ◌≢◌, refl, sym, ap, ◌∙◌, Bool, true, false, List, [], ◌∷◌, ◌==◌,
  leb, ltb, length, arith, if◌then◌else◌, ==_refl,
}
use gwm_cli.CommitGraph.Pipes.{
  PipeKind, terminates, starts, continues, Pipe, left, right, is_starts, CommitRow, column_of,
  get_next_pipes, extra_parents,
}
use gwm_cli.CommitGraph.Render.{
  Cell, CellType, connection, commit, merge, new_connection, set_up, set_down, set_left, set_right,
  set_type, update, stroke, across, ends_of, apply_pipe, apply_all, filter, layered, blank_cells,
  row_cells, Span, is_node, glyph_of, cell_spans, spans_of, render_pipe_set, commit_pos,
  start_count, max_right, box_drawing_chars,
}
use gwm_cli.CommitGraph.Laws.Columns.{
  commit_pos-le-max_right, commit_pos-get_next_pipes, start_count-get_next_pipes,
}

abbrev type_at : List Cell → ℕ → CellType
type_at [] i = connection
type_at (c ∷ cs) zero = c.cell_type
type_at (c ∷ cs) (suc i) = type_at cs i

-- Two rows of cells with the same width and the same types.
record Alike (xs ys : List Cell) : Type 0 where
  width : length xs ≡ length ys
  types : (i : ℕ) → type_at xs i ≡ type_at ys i

Alike-refl : (xs : List Cell) → Alike xs xs
Alike-refl xs = record { width = refl; types = λ _. refl }

Alike-trans : {xs ys zs : List Cell} → Alike xs ys → Alike ys zs → Alike xs zs
Alike-trans a b = record { width = a.width ∙ b.width; types = λ i. a.types i ∙ b.types i }

length-update : (f : Cell → Cell) (cs : List Cell) (i : ℕ) → length (update f cs i) ≡ length cs
unfolding update
length-update f [] i = refl
length-update f (c ∷ cs) zero = refl
length-update f (c ∷ cs) (suc i) = ap suc (length-update f cs i)

module _ (f : Cell → Cell) (keeps : (c : Cell) → (f c).cell_type ≡ c.cell_type) where
  type_at-update : (cs : List Cell) (i j : ℕ) → type_at (update f cs i) j ≡ type_at cs j
  unfolding update
  type_at-update [] i j = refl
  type_at-update (c ∷ cs) zero zero = keeps c
  type_at-update (c ∷ cs) zero (suc j) = refl
  type_at-update (c ∷ cs) (suc i) zero = refl
  type_at-update (c ∷ cs) (suc i) (suc j) = type_at-update cs i j

  update-Alike : (cs : List Cell) (i : ℕ) → Alike (update f cs i) cs
  update-Alike cs i = record { width = length-update f cs i; types = type_at-update cs i }

down-Alike : (cs : List Cell) (i : ℕ) → Alike (update set_down cs i) cs
unfolding set_down
down-Alike cs i = update-Alike set_down (λ _. refl) cs i

up-Alike : (cs : List Cell) (i : ℕ) → Alike (update set_up cs i) cs
unfolding set_up
up-Alike cs i = update-Alike set_up (λ _. refl) cs i

stroke-Alike : (cs : List Cell) (i n : ℕ) → Alike (stroke cs i n) cs
unfolding stroke set_left set_right
stroke-Alike cs i zero = Alike-refl cs
stroke-Alike cs i (suc n) =
    Alike-trans (stroke-Alike (update (λ c. set_right (set_left c)) cs i) (suc i) n)
      (update-Alike (λ c. set_right (set_left c)) (λ _. refl) cs i)

across_both :
    (cs : List Cell) (l r : ℕ) (b : Bool)
    → Alike
        (if b then cs else update set_left (update set_right (stroke cs (suc l) (r - suc l)) l) r)
        cs
unfolding set_left set_right
across_both cs l r true = Alike-refl cs
across_both cs l r false =
    let s = stroke cs (suc l) (r - suc l) in
    Alike-trans (update-Alike set_left (λ _. refl) (update set_right s l) r)
      (Alike-trans (update-Alike set_right (λ _. refl) s l) (stroke-Alike cs (suc l) (r - suc l)))

across-Alike : (cs : List Cell) (l r : ℕ) → Alike (across cs l r) cs
unfolding across
across-Alike cs l r = across_both cs l r (l == r)

ends_of-Alike : (cs : List Cell) (p : Pipe) (k : PipeKind) → Alike (ends_of cs p k) cs
unfolding ends_of
ends_of-Alike cs p starts = down-Alike cs p.to_pos
ends_of-Alike cs p terminates = up-Alike cs p.from_pos
ends_of-Alike cs p continues =
    Alike-trans (up-Alike (update set_down cs p.to_pos) p.from_pos) (down-Alike cs p.to_pos)

apply_all-Alike : (ps : List Pipe) (cs : List Cell) → Alike (apply_all ps cs) cs
unfolding apply_all apply_pipe
apply_all-Alike [] cs = Alike-refl cs
apply_all-Alike (p ∷ ps) cs = Alike-trans (apply_all-Alike ps (apply_pipe cs p)) (
    Alike-trans (ends_of-Alike (across cs (left p) (right p)) p p.kind)
      (across-Alike cs (left p) (right p)))

length-blank_cells : (n : ℕ) → length (blank_cells n) ≡ n
unfolding blank_cells
length-blank_cells zero = refl
length-blank_cells (suc n) = ap suc (length-blank_cells n)

type_at-blank_cells : (n i : ℕ) → type_at (blank_cells n) i ≡ connection
unfolding blank_cells new_connection
type_at-blank_cells zero i = refl
type_at-blank_cells (suc n) zero = refl
type_at-blank_cells (suc n) (suc i) = type_at-blank_cells n i

type_at-set_type :
    (t : CellType) (cs : List Cell) (i j : ℕ)
    → i < length cs
    → type_at (update (set_type t) cs i) j ≡ (if j == i then t else type_at cs j)
unfolding update set_type
type_at-set_type t [] i j h = elim h [ ]
type_at-set_type t (c ∷ cs) zero zero h = ground arith
type_at-set_type t (c ∷ cs) zero (suc j) h = ground arith
type_at-set_type t (c ∷ cs) (suc i) zero h = ground arith
type_at-set_type t (c ∷ cs) (suc i) (suc j) h =
    ground (arith, type_at-set_type t cs i j (omega arith))

abbrev painted : List Pipe → List Cell
painted ps =
    apply_all (filter (layered (commit_pos 0 ps)) ps)
      (apply_all (filter (λ p. is_starts p.kind) ps) (blank_cells (suc (max_right 0 ps))))

painted-Alike : (ps : List Pipe) → Alike (painted ps) (blank_cells (suc (max_right 0 ps)))
painted-Alike ps =
    let blank = blank_cells (suc (max_right 0 ps)) in
    let below = apply_all (filter (λ p. is_starts p.kind) ps) blank in
    Alike-trans (apply_all-Alike (filter (layered (commit_pos 0 ps)) ps) below)
      (apply_all-Alike (filter (λ p. is_starts p.kind) ps) blank)

abbrev node_type : List Pipe → CellType
node_type ps = if ltb 1 (start_count ps) then merge else commit

length-row_cells : (ps : List Pipe) → length (row_cells ps) ≡ suc (max_right 0 ps)
unfolding row_cells
length-row_cells ps =
    length-update (set_type (node_type ps)) (painted ps) (commit_pos 0 ps)
    ∙ (painted-Alike ps).width
    ∙ length-blank_cells (suc (max_right 0 ps))

type_at-row_cells :
    (ps : List Pipe) (i : ℕ)
    → type_at (row_cells ps) i ≡ (if i == commit_pos 0 ps then node_type ps else connection)
unfolding row_cells
type_at-row_cells ps i =
    let w = (painted-Alike ps).width ∙ length-blank_cells (suc (max_right 0 ps)) in
    let s =
      type_at-set_type (node_type ps) (painted ps) (commit_pos 0 ps) i
        (omega (arith, w, commit_pos-le-max_right 0 0 ps (omega arith))) in
    let t = (painted-Alike ps).types i ∙ type_at-blank_cells (suc (max_right 0 ps)) i in
    s ∙ rw t refl

-- The style of a span: whether it is a node's.
abbrev pub styled_node : List Span → ℕ → Bool
styled_node [] i = false
styled_node (s ∷ ss) zero = s.1
styled_node (s ∷ ss) (suc i) = styled_node ss i

-- The character of a span; a blank past the end.
abbrev pub glyph_at : List Span → ℕ → ℕ
glyph_at [] i = 32
glyph_at (s ∷ ss) zero = s.0
glyph_at (s ∷ ss) (suc i) = glyph_at ss i

length-spans_of : (cs : List Cell) → length (spans_of cs) ≡ 2 * length cs
unfolding spans_of cell_spans
length-spans_of [] = refl
length-spans_of (c ∷ cs) = omega (arith, length-spans_of cs)

styled-spans_of :
    (cs : List Cell) (i : ℕ)
    → (styled_node (spans_of cs) (2 * i) ≡ is_node (type_at cs i))
      × (styled_node (spans_of cs) (suc (2 * i)) ≡ false)
unfolding spans_of cell_spans
styled-spans_of [] i = (refl, refl)
styled-spans_of (c ∷ cs) zero = (refl, refl)
styled-spans_of (c ∷ cs) (suc i) =
    let e : 2 * suc i ≡ suc (suc (2 * i)) = omega arith in rw e (styled-spans_of cs i)

glyph_of_node : (t : CellType) (glyph : ℕ) → t ≢ connection → glyph_of t glyph ≡ glyph_of t 32
glyph_of_node connection glyph h = absurd (h refl)
glyph_of_node commit glyph h = refl
glyph_of_node merge glyph h = refl

glyph-spans_of :
    (cs : List Cell) (i : ℕ)
    → type_at cs i ≢ connection
    → glyph_at (spans_of cs) (2 * i) ≡ glyph_of (type_at cs i) 32
unfolding spans_of cell_spans
glyph-spans_of [] i h = absurd (h refl)
glyph-spans_of (c ∷ cs) zero h =
    glyph_of_node c.cell_type (box_drawing_chars c.up c.down c.left c.right).0 h
glyph-spans_of (c ∷ cs) (suc i) h =
    let e : 2 * suc i ≡ suc (suc (2 * i)) = omega arith in rw e (glyph-spans_of cs i h)

is_node-chosen : (b : Bool) (ps : List Pipe) → is_node (if b then node_type ps else connection) ≡ b
is_node-chosen b ps = ground arith

-- A row is drawn as two spans for each of its columns, whatever its pipes are. One glyph is
-- styled as a node, in the column of the commit, and no filler is.
pub render_pipe_set_row :
    (ps : List Pipe)
    → (length (render_pipe_set ps) ≡ 2 * suc (max_right 0 ps))
      × ((i : ℕ)
          → (styled_node (render_pipe_set ps) (2 * i) ≡ (i == commit_pos 0 ps))
            × (styled_node (render_pipe_set ps) (suc (2 * i)) ≡ false))
unfolding render_pipe_set
render_pipe_set_row ps = (
  length-spans_of (row_cells ps) ∙ ap (λ n. 2 * n) (length-row_cells ps),
  λ i. (
    (styled-spans_of (row_cells ps) i).0
        ∙ ap is_node (type_at-row_cells ps i)
        ∙ is_node-chosen (i == commit_pos 0 ps) ps,
    (styled-spans_of (row_cells ps) i).1,
  ),
)

type_at-commit_pos : (ps : List Pipe) → type_at (row_cells ps) (commit_pos 0 ps) ≡ node_type ps
type_at-commit_pos ps = type_at-row_cells ps (commit_pos 0 ps) ∙ rw (==_refl (commit_pos 0 ps)) refl

node_type-ne-connection : (ps : List Pipe) → node_type ps ≢ connection
node_type-ne-connection ps = ground arith

glyph-render_pipe_set :
    (ps : List Pipe)
    → glyph_at (render_pipe_set ps) (2 * commit_pos 0 ps)
      ≡ (if ltb 1 (start_count ps) then 9678 else 9675)
unfolding render_pipe_set
glyph-render_pipe_set ps =
    let t = type_at-commit_pos ps in
    glyph-spans_of (row_cells ps) (commit_pos 0 ps) (λ e. node_type-ne-connection ps (sym t ∙ e))
    ∙ ap (λ k. glyph_of k 32) t
    ∙ ground arith

parents_merge : (ps : List ℕ) → ltb 1 (suc (length (extra_parents ps))) ≡ leb 2 (length ps)
unfolding extra_parents
parents_merge [] = refl
parents_merge (p ∷ ps) = ground arith

-- The row of a commit has its one node in the column that the pass chose for it: ◎ for a commit
-- with two parents or more, ○ for any other.
pub render-get_next_pipes :
    (prev : List Pipe) (c : CommitRow)
    → ((i : ℕ)
        → styled_node (render_pipe_set (get_next_pipes prev c)) (2 * i) ≡ (i == column_of prev c))
      × (glyph_at (render_pipe_set (get_next_pipes prev c)) (2 * column_of prev c)
          ≡ (if leb 2 (length c.parents) then 9678 else 9675))
render-get_next_pipes prev c =
    let row = get_next_pipes prev c in
    let e = commit_pos-get_next_pipes prev c in
    (
      λ i. ((render_pipe_set_row row).1 i).0 ∙ ap (λ k. i == k) e,
      ap (λ k. glyph_at (render_pipe_set row) (2 * k)) (sym e)
          ∙ glyph-render_pipe_set row
          ∙ ap (λ k. if ltb 1 k then 9678 else 9675) (start_count-get_next_pipes prev c)
          ∙ ap (λ b. if b then 9678 else 9675) (parents_merge c.parents),
    )
