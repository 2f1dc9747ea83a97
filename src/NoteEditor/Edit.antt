-- ===== src/NoteEditor/Edit.antt =====
-- src/tui/state/note_editor.rs: the operations that change the text, and the plain motions.
use gwm_cli.Base.{
  ℕ, ◌+◌, ◌-◌, min, max, Bool, true, false, [], ◌++◌, Option, none, some, ◌==◌, leb, ltb,
  if◌then◌else◌, Text, ◌>>=◌, is_whitespace, count_while, length, get_elem?, take, drop, insert_at,
  remove_at, all, codes,
}
use gwm_cli.NoteEditor.Marker.{ListPrefix, unchecked, ListLine, continued, parse}
use gwm_cli.NoteEditor.State.{NoteEditor, byte_at, line_len, current, with_current, replace_range}

unfoldable pub insert_char : ℕ → NoteEditor → Option NoteEditor
insert_char c e = do
  line ← current e
  line' ← insert_at line (byte_at line e.cursor_col) c
  e' ← with_current e line'
  some (record e' { cursor_col = e.cursor_col + 1; dirty = true })

unfoldable pub continuation_prefix : NoteEditor → ℕ → Option Text
continuation_prefix e index = do
  line ← get_elem? e.lines index
  some (elim (parse line) [ some l ↦ take l.indent line ++ continued l.kind | none ↦ [] ])

-- The marker of a list line that holds nothing else is cleared, which leaves the list.
unfoldable pub is_bare_marker : Text → Bool
is_bare_marker line = elim (parse line) [
  | some l ↦ all is_whitespace (drop (byte_at line l.width) line)
  | none ↦ false
]

unfoldable pub split_line : NoteEditor → Option NoteEditor
split_line e = do
  prefix ← continuation_prefix e e.cursor_line
  line ← current e
  let at = byte_at line e.cursor_col
  e' ← with_current e (take at line)
  lines ← insert_at e'.lines (e.cursor_line + 1) (prefix ++ drop at line)
  some (record e' {
    lines = lines;
    cursor_line = e.cursor_line + 1;
    cursor_col = length prefix;
    dirty = true;
  })

unfoldable pub clear_line : NoteEditor → Option NoteEditor
clear_line e = do e' ← with_current e []; some (record e' { cursor_col = 0; dirty = true })

unfoldable pub newline : NoteEditor → Option NoteEditor
newline e = do line ← current e; if is_bare_marker line then clear_line e else split_line e

unfoldable pub indent_of : NoteEditor → ℕ → Option ℕ
indent_of e index = do line ← get_elem? e.lines index; some (count_while is_whitespace line)

-- The column after the marker's columns `indent .. old` became `indent .. new`.
unfoldable pub moved_col : ℕ → ℕ → ℕ → ℕ
moved_col col old new = if new == old then col else if leb old col then col - old + new else new

unfoldable pub rewrite_marker : ℕ → ℕ → Text → NoteEditor → Option NoteEditor
rewrite_marker indent old marker e = do
  line ← current e
  line' ← replace_range line (byte_at line indent) (byte_at line old) marker
  e' ← with_current e line'
  some
      (record e' { cursor_col = moved_col e.cursor_col old (indent + length marker); dirty = true })

-- The marker of a list line is rewritten by `marked`; any other line gets the marker `fresh`.
unfoldable pub toggle_from :
    (ListPrefix → Text) → Text → Option ListLine → NoteEditor → Option NoteEditor
toggle_from marked fresh (some l) e = rewrite_marker l.indent l.width (marked l.kind) e
toggle_from marked fresh none e = do
  indent ← indent_of e e.cursor_line
  rewrite_marker indent indent fresh e

unfoldable pub toggle_bullet : NoteEditor → Option NoteEditor
toggle_bullet e = do line ← current e; toggle_from (λ _. []) (codes "- ") (parse line) e

unfoldable pub next_box : ListPrefix → Text
next_box unchecked = codes "- [x] "
next_box _ = codes "- [ ] "

unfoldable pub toggle_checkbox : NoteEditor → Option NoteEditor
toggle_checkbox e = do line ← current e; toggle_from next_box (codes "- [ ] ") (parse line) e

-- The current line goes to the end of the one above.
unfoldable pub join_above : NoteEditor → Option NoteEditor
join_above e = do
  (tail, lines) ← remove_at e.lines e.cursor_line
  let e' = record e { lines = lines; cursor_line = e.cursor_line - 1 }
  line ← current e'
  e'' ← with_current e' (line ++ tail)
  some (record e'' { cursor_col = line_len e' e'.cursor_line; dirty = true })

unfoldable pub remove_before : NoteEditor → Option NoteEditor
remove_before e = do
  line ← current e
  (_, line') ← remove_at line (byte_at line (e.cursor_col - 1))
  e' ← with_current e line'
  some (record e' { cursor_col = e.cursor_col - 1; dirty = true })

unfoldable pub backspace : NoteEditor → Option NoteEditor
backspace e =
    if ltb 0 e.cursor_col
    then remove_before e
    else if ltb 0 e.cursor_line
    then join_above e
    else some e

unfoldable pub join_below : NoteEditor → Option NoteEditor
join_below e = do
  (tail, lines) ← remove_at e.lines (e.cursor_line + 1)
  let e' = record e { lines = lines }
  line ← current e'
  e'' ← with_current e' (line ++ tail)
  some (record e'' { dirty = true })

unfoldable pub remove_under : NoteEditor → Option NoteEditor
remove_under e = do
  line ← current e
  (_, line') ← remove_at line (byte_at line e.cursor_col)
  e' ← with_current e line'
  some (record e' { dirty = true })

unfoldable pub delete_under : NoteEditor → Option NoteEditor
delete_under e = if ltb e.cursor_col (line_len e e.cursor_line) then remove_under e else some e

unfoldable pub delete : NoteEditor → Option NoteEditor
delete e =
    if ltb e.cursor_col (line_len e e.cursor_line)
    then delete_under e
    else if ltb (e.cursor_line + 1) (length e.lines)
    then join_below e
    else some e

unfoldable pub left : NoteEditor → NoteEditor
left e =
    if ltb 0 e.cursor_col
    then record e { cursor_col = e.cursor_col - 1 }
    else if ltb 0 e.cursor_line
    then record e { cursor_line = e.cursor_line - 1; cursor_col = line_len e (e.cursor_line - 1) }
    else e

unfoldable pub right : NoteEditor → NoteEditor
right e =
    if ltb e.cursor_col (line_len e e.cursor_line)
    then record e { cursor_col = e.cursor_col + 1 }
    else if ltb (e.cursor_line + 1) (length e.lines)
    then record e { cursor_line = e.cursor_line + 1; cursor_col = 0 }
    else e

-- `self.cursor_line = line`, with the column pulled into that line.
unfoldable pub to_line : ℕ → NoteEditor → NoteEditor
to_line line e = record e { cursor_line = line; cursor_col = min e.cursor_col (line_len e line) }

unfoldable pub up : NoteEditor → NoteEditor
up e = if ltb 0 e.cursor_line then to_line (e.cursor_line - 1) e else e

unfoldable pub down : NoteEditor → NoteEditor
down e = if ltb (e.cursor_line + 1) (length e.lines) then to_line (e.cursor_line + 1) e else e

unfoldable pub home : NoteEditor → NoteEditor
home e = record e { cursor_col = 0 }

unfoldable pub end_of_line : NoteEditor → NoteEditor
end_of_line e = record e { cursor_col = line_len e e.cursor_line }

unfoldable pub page_up : ℕ → NoteEditor → NoteEditor
page_up height e = to_line (e.cursor_line - max height 1) e

unfoldable pub page_down : ℕ → NoteEditor → NoteEditor
page_down height e = to_line (min (e.cursor_line + max height 1) (length e.lines - 1)) e
