-- ===== src/NoteEditor/Normal.antt =====
-- src/tui/state/note_editor.rs: normal mode.
use gwm_cli.Base.{
  ◌||◌, Text, List, ℕ, ◌+◌, ◌-◌, min, max, Bool, true, false, ◌&&◌, [], ◌∷◌, Option, none, some,
  ◌==◌, ltb, if◌then◌else◌, ◌>>=◌, length, is_empty, insert_at, remove_at,
}
use gwm_cli.NoteEditor.State.{NoteEditor, NoteMode, insert, normal, line_len}
use gwm_cli.NoteEditor.Edit.{continuation_prefix, indent_of, delete_under, up, down, end_of_line}
use gwm_cli.NoteEditor.Words.{word_forward, word_backward, word_end}

-- Normal mode's cursor stands on a character, so one column short of the line's end.
unfoldable pub clamp_normal : NoteEditor → NoteEditor
clamp_normal e = record e { cursor_col = min e.cursor_col (line_len e e.cursor_line - 1) }

unfoldable pub enter_normal : NoteEditor → NoteEditor
enter_normal e = clamp_normal (record e { mode = normal; pending = none })

unfoldable pub remove_line : NoteEditor → Option NoteEditor
remove_line e = do
  (_, lines) ← remove_at e.lines e.cursor_line
  some (record e {
    lines = lines;
    cursor_line = min e.cursor_line (length lines - 1);
    dirty = true;
    cursor_col = 0;
  })

unfoldable pub empty_only_line : NoteEditor → List Text → Option NoteEditor
empty_only_line e [] = none
empty_only_line e (l ∷ _) = some (
    if is_empty l
    then record e { cursor_col = 0 }
    else record e { lines = [] ∷ []; dirty = true; cursor_col = 0 })

-- A note has at least one line: the last one is emptied and kept.
unfoldable pub delete_line : NoteEditor → Option NoteEditor
delete_line e = if length e.lines == 1 then empty_only_line e e.lines else remove_line e

unfoldable pub open_line : ℕ → NoteEditor → Option NoteEditor
open_line index e = do
  prefix ← continuation_prefix e e.cursor_line
  lines ← insert_at e.lines index prefix
  some (record e {
    lines = lines;
    cursor_line = index;
    cursor_col = length prefix;
    mode = insert;
    dirty = true;
  })

-- The second key of `gg` and `dd`; any other pair does nothing.
unfoldable pub chord : ℕ → ℕ → NoteEditor → Option NoteEditor
chord first c e =
    if first == b'g' && c == b'g'
    then some (clamp_normal (record e { cursor_line = 0 }))
    else if first == b'd' && c == b'd'
    then delete_line e
    else some e

unfoldable pub to_indent : NoteEditor → Option NoteEditor
to_indent e = do col ← indent_of e e.cursor_line; some (record e { cursor_col = col })

unfoldable pub last_line : NoteEditor → Option NoteEditor
last_line e =
    if is_empty e.lines then none else some (record e { cursor_line = length e.lines - 1 })

-- The keys of `normal_key`'s `match c`; the flag of a word motion is `big`.
pub data Key : Type 0 where
  col_left col_right line_down line_up first_col first_text end_col bottom : Key
  next_word prev_word word_last : Bool → Key
  await : ℕ → Key
  erase to_insert insert_at_text append append_at_end open_below open_above other : Key

unfoldable pub key_of : ℕ → Key
key_of c =
    if c == b'h'
    then col_left
    else if c == b'l'
    then col_right
    else if c == b'j'
    then line_down
    else if c == b'k'
    then line_up
    else if c == b'0'
    then first_col
    else if c == b'^'
    then first_text
    else if c == b'$'
    then end_col
    else if c == b'w'
    then next_word false
    else if c == b'W'
    then next_word true
    else if c == b'b'
    then prev_word false
    else if c == b'B'
    then prev_word true
    else if c == b'e'
    then word_last false
    else if c == b'E'
    then word_last true
    else if c == b'G'
    then bottom
    else if c == b'g' || c == b'd'
    then await c
    else if c == b'x'
    then erase
    else if c == b'i'
    then to_insert
    else if c == b'I'
    then insert_at_text
    else if c == b'a'
    then append
    else if c == b'A'
    then append_at_end
    else if c == b'o'
    then open_below
    else if c == b'O'
    then open_above
    else other

module _ (is_alphanumeric : ℕ → Bool) where
  -- The arms of that `match`.
  unfoldable pub press : Key → NoteEditor → Option NoteEditor
  press col_left e = some (record e { cursor_col = e.cursor_col - 1 })
  press col_right e =
      some (record e { cursor_col = min (e.cursor_col + 1) (line_len e e.cursor_line - 1) })
  press line_down e = some (down e)
  press line_up e = some (up e)
  press first_col e = some (record e { cursor_col = 0 })
  press first_text e = to_indent e
  press end_col e = some (end_of_line e)
  press (next_word big) e = word_forward is_alphanumeric big e
  press (prev_word big) e = word_backward is_alphanumeric big e
  press (word_last big) e = word_end is_alphanumeric big e
  press bottom e = last_line e
  press (await c) e = some (record e { pending = some c })
  press erase e = delete_under e
  press to_insert e = some (record e { mode = insert })
  press insert_at_text e = do e' ← to_indent e; some (record e' { mode = insert })
  press append e =
      some
        (record e { cursor_col = min (e.cursor_col + 1) (line_len e e.cursor_line); mode = insert })
  press append_at_end e = some (record (end_of_line e) { mode = insert })
  press open_below e = open_line (e.cursor_line + 1) e
  press open_above e = open_line e.cursor_line e
  press other e = some e

-- Re-clamped after every key, unless the key left normal mode.
abbrev pub settle : NoteMode → NoteEditor → NoteEditor
settle normal e = clamp_normal e
settle insert e = e

module _ (is_alphanumeric : ℕ → Bool) where
  unfoldable pub key_after : Option ℕ → ℕ → NoteEditor → Option NoteEditor
  key_after (some first) c e = chord first c (record e { pending = none })
  key_after none c e = do e' ← press is_alphanumeric (key_of c) e; some (settle e'.mode e')

  abbrev pub normal_key : ℕ → NoteEditor → Option NoteEditor
  normal_key c e = key_after e.pending c e

unfoldable pub clamp_scroll : ℕ → NoteEditor → NoteEditor
clamp_scroll height e =
    let h = max height 1 in
    if ltb e.cursor_line e.scroll
    then record e { viewport = h; scroll = e.cursor_line }
    else if ltb e.cursor_line (e.scroll + h)
    then record e { viewport = h }
    else record e { viewport = h; scroll = e.cursor_line + 1 - h }
