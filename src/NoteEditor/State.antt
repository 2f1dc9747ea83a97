-- ===== src/NoteEditor/State.antt =====
-- src/tui/state/note_editor.rs: `NoteEditor`, `open`, `text` and the reads of one line.
-- A line is the list of its characters, and a column counts characters, as `cursor_col` does;
-- `byte_at` is then the position that it looks up. `none` is a panic.
use gwm_cli.Base.{
  ℕ, ◌-◌, min, Bool, false, List, [], ◌∷◌, ◌++◌, Option, none, some, leb, if◌then◌else◌, Text,
  ◌>>=◌, is_whitespace, length, get_elem?, take, drop, put_at, all, split, join, trim_end_matches,
}

pub data NoteMode : Type 0 where
  insert normal : NoteMode

pub record NoteEditor : Type 0 where
  pub branch : Text
  pub path : Text
  pub lines : List Text
  pub cursor_line : ℕ
  pub cursor_col : ℕ
  pub scroll : ℕ
  pub viewport : ℕ
  pub dirty : Bool
  pub mode : NoteMode
  pub pending : Option ℕ

-- The cursor opens at the end of the text.
unfoldable pub open_note : Text → Text → Text → Option NoteEditor
unfolding split
open_note branch path text = do
  let lines = split b'\n' text
  let cursor_line = length lines - 1
  line ← get_elem? lines cursor_line
  some (record {
    branch = branch;
    path = path;
    lines = lines;
    cursor_line = cursor_line;
    cursor_col = length line;
    scroll = 0;
    viewport = 10;
    dirty = false;
    mode = insert;
    pending = none;
  })

abbrev pub byte_at : Text → ℕ → ℕ
byte_at line col = min col (length line)

unfoldable pub line_len : NoteEditor → ℕ → ℕ
line_len e index = elim (get_elem? e.lines index) [ none ↦ 0 | some l ↦ length l ]

-- A blank note is no note; any other ends in one newline.
unfoldable pub text_of : List Text → Text
unfolding join is_whitespace
text_of lines =
    let joined = join (b'\n' ∷ []) lines in
    if all is_whitespace joined then [] else trim_end_matches b'\n' joined ++ b'\n' ∷ []

abbrev pub text : NoteEditor → Text
text e = text_of e.lines

-- `&self.lines[self.cursor_line]`
abbrev pub current : NoteEditor → Option Text
current e = get_elem? e.lines e.cursor_line

-- The current line, written back.
abbrev pub with_current : NoteEditor → Text → Option NoteEditor
with_current e line = do
  lines ← put_at e.lines e.cursor_line line
  some (record e { lines = lines })

-- `String::replace_range`: a panic on a range out of order or out of bounds.
unfoldable pub replace_range : Text → ℕ → ℕ → Text → Option Text
replace_range line from to marker =
    if leb from to
    then if leb to (length line) then some (take from line ++ (marker ++ drop to line)) else none
    else none
