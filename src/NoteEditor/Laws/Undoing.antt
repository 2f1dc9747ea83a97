-- ===== src/NoteEditor/Laws/Undoing.antt =====
-- Edits that a second key undoes.
use gwm_cli.Base.{
  ℕ, ◌+◌, ◌-◌, ◌≡◌, true, some, arith, ◌>>=◌, get_elem?, set, insert_nth, put_at-set,
  insert_at-insert_nth, remove_at-erase_nth, get_elem?-insert_nth, length-insert_nth, length-set,
  get_elem?-set_self, erase_nth-insert_nth, set-set, set_self, ltb,
}
use gwm_cli.NoteEditor.State.{NoteEditor, byte_at}
use gwm_cli.NoteEditor.Edit.{insert_char, backspace, remove_before}
use gwm_cli.NoteEditor.Laws.Valid.{IsValid, IsPlace-lt}

-- The editor after the character is in.
abbrev inserted : ℕ → (e : NoteEditor) → IsValid e → NoteEditor
inserted c e p = record e {
  lines = set e.lines e.cursor_line (insert_nth (byte_at p.held e.cursor_col) c p.held);
  cursor_col = e.cursor_col + 1;
  dirty = true;
}

insert_char-inserted :
    (c : ℕ) (e : NoteEditor) (p : IsValid e) → insert_char c e ≡ some (inserted c e p)
unfolding insert_char
insert_char-inserted c e p = rw (
  p.there,
  insert_at-insert_nth p.held (byte_at p.held e.cursor_col) c (omega arith),
  put_at-set e.lines e.cursor_line (insert_nth (byte_at p.held e.cursor_col) c p.held)
      (IsPlace-lt p),
)

remove_inserted :
    (c : ℕ) (e : NoteEditor) (p : IsValid e)
    → remove_before (inserted c e p) ≡ some (record e { dirty = true })
unfolding remove_before
remove_inserted c e p =
    let at = byte_at p.held e.cursor_col in
    let l = insert_nth at c p.held in
    let lines = set e.lines e.cursor_line l in
    let there : get_elem? lines e.cursor_line ≡ some l =
      get_elem?-set_self e.lines e.cursor_line l (IsPlace-lt p) in
    let col : e.cursor_col + 1 - 1 ≡ e.cursor_col = omega arith in
    let pos : byte_at l e.cursor_col ≡ at =
      omega (arith, p.inside, length-insert_nth at c p.held) in
    rw (
      there,
      col,
      pos,
      remove_at-erase_nth l at (get_elem?-insert_nth at c p.held (omega arith)),
      erase_nth-insert_nth at c p.held (omega arith),
      put_at-set lines e.cursor_line p.held
          (omega (arith, IsPlace-lt p, length-set e.lines e.cursor_line l)),
      set-set e.cursor_line l p.held e.lines,
      set_self e.cursor_line e.lines p.there,
    )

-- Backspace takes back the character just typed: the note and the cursor are as they were, and
-- only the `dirty` mark stays.
pub insert_char-backspace :
    (c : ℕ) (e : NoteEditor)
    → IsValid e
    → (insert_char c e >>= backspace) ≡ some (record e { dirty = true })
unfolding backspace
insert_char-backspace c e p =
    let behind : ltb 0 (e.cursor_col + 1) ≡ true = ground arith in
    rw (insert_char-inserted c e p, behind) (remove_inserted c e p)
