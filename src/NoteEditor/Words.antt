-- ===== src/NoteEditor/Words.antt =====
-- src/tui/state/note_editor.rs: `class_of` and the word motions.
-- `chars[col ..]` and `lines[line + 1 ..]` are carried as lists, so that each loop is a structural
-- recursion: `col >= chars.len()` is the case of no character left.
use gwm_cli.Base.{
  ℕ, zero, suc, ◌+◌, ◌-◌, Bool, true, false, ◌||◌, List, [], ◌∷◌, Option, some, ◌==◌, if◌then◌else◌,
  Text, ◌>>=◌, is_whitespace, length, get_elem?, drop, is_empty,
}
use gwm_cli.NoteEditor.State.{NoteEditor, current}

pub data CharClass : Type 0 where
  blank word punct : CharClass

abbrev pub same_class : CharClass → CharClass → Bool
same_class blank blank = true
same_class word word = true
same_class punct punct = true
same_class _ _ = false

abbrev pub Place : Type 0
Place = ℕ × ℕ

abbrev pub at_place : NoteEditor → Place → NoteEditor
at_place e p = record e { cursor_line = p.0; cursor_col = p.1 }

-- `char::is_alphanumeric` is a table of the standard library that is not modelled.
module _ (is_alphanumeric : ℕ → Bool) where
  unfoldable pub class_of : ℕ → Bool → CharClass
  unfolding is_whitespace
  class_of c big =
      if is_whitespace c
      then blank
      else if big || is_alphanumeric c || c == b'_'
      then word
      else punct

  module _ (big : Bool) where
    -- How far a run of one class goes on.
    unfoldable pub run_length : CharClass → Text → ℕ
    unfolding class_of
    run_length from [] = 0
    run_length from (c ∷ cs) =
        if same_class (class_of c big) from then suc (run_length from cs) else 0

    -- The first loop of `word_forward`: the rest of the word under the cursor.
    unfoldable pub leave_word : Text → ℕ
    unfolding run_length
    leave_word [] = 0
    leave_word (c ∷ cs) =
        let from = class_of c big in if same_class from blank then 0 else run_length from (c ∷ cs)

    -- Its second loop: over blanks and line ends to the next word. An empty line is a stop.
    unfoldable pub seek_forward : ℕ → ℕ → Text → ℕ → List Text → Place
    unfolding class_of
    seek_forward line col (c ∷ cs) len below =
        let rest = seek_forward line (suc col) cs len below in
        if same_class (class_of c big) blank then rest else (line, col)
    seek_forward line col [] len [] = (line, len - 1)
    seek_forward line col [] len ([] ∷ below) = (suc line, 0)
    seek_forward line col [] len ((c ∷ cs) ∷ below) =
        let rest = seek_forward (suc line) 1 cs (length (c ∷ cs)) below in
        if same_class (class_of c big) blank then rest else (suc line, 0)

    unfoldable pub word_forward : NoteEditor → Option NoteEditor
    unfolding leave_word seek_forward
    word_forward e = do
      chars ← current e
      let col = e.cursor_col + leave_word (drop e.cursor_col chars)
      let below = drop (suc e.cursor_line) e.lines
      some (at_place e (seek_forward e.cursor_line col (drop col chars) (length chars) below))

    -- The last loop of `word_backward`: to the start of the run that ends before `col`.
    unfoldable pub run_start : CharClass → Text → ℕ → Option ℕ
    unfolding class_of
    run_start from chars zero = some zero
    run_start from chars (suc col) = do
      c ← get_elem? chars col
      let further = run_start from chars col
      if same_class (class_of c big) from then further else some (suc col)

    -- Its first loop: back over blanks and line ends to a word.
    unfoldable pub seek_backward : List Text → ℕ → ℕ → Text → Option Place
    unfolding class_of run_start
    seek_backward lines zero zero chars = some (zero, zero)
    seek_backward lines (suc line) zero chars = do
      above ← get_elem? lines line
      let further = seek_backward lines line (length above) above
      if is_empty above then some (line, zero) else further
    seek_backward lines line (suc col) chars = do
      c ← get_elem? chars col
      let further = seek_backward lines line col chars
      let stop = run_start (class_of c big) chars col >>= λ start. some (line, start)
      if same_class (class_of c big) blank then further else stop

    unfoldable pub word_backward : NoteEditor → Option NoteEditor
    unfolding seek_backward
    word_backward e = do
      chars ← current e
      p ← seek_backward e.lines e.cursor_line e.cursor_col chars
      some (at_place e p)

    -- `word_end`, from the character after the cursor on; the run goes on to its last character.
    unfoldable pub seek_end : ℕ → ℕ → Text → ℕ → List Text → Place
    unfolding class_of run_length
    seek_end line col (c ∷ cs) len below =
        let rest = seek_end line (suc col) cs len below in
        if same_class (class_of c big) blank
        then rest
        else (line, col + run_length (class_of c big) cs)
    seek_end line col [] len [] = (line, len - 1)
    seek_end line col [] len ([] ∷ below) = seek_end (suc line) 1 [] 0 below
    seek_end line col [] len ((c ∷ cs) ∷ below) =
        let rest = seek_end (suc line) 1 cs (length (c ∷ cs)) below in
        if same_class (class_of c big) blank
        then rest
        else (suc line, run_length (class_of c big) cs)

    unfoldable pub word_end : NoteEditor → Option NoteEditor
    unfolding seek_end
    word_end e = do
      chars ← current e
      let below = drop (suc e.cursor_line) e.lines
      let col = suc e.cursor_col
      some (at_place e (seek_end e.cursor_line col (drop col chars) (length chars) below))
