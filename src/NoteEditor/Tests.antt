-- ===== src/NoteEditor/Tests.antt =====
-- Runs of the note editor on small notes, and the laws at concrete editors.
use gwm_cli.Base.{
  ℕ, ◌≡◌, refl, inl, ◌⊎◌, Bool, true, false, ◌||◌, Option, none, some, arith, Text, List, [], ◌∷◌,
  ◌>>=◌, Returns, codes, within,
}
use gwm_cli.NoteEditor.State.{NoteEditor, insert, normal, line_len}
use gwm_cli.NoteEditor.Marker.{parse, continued}
use gwm_cli.NoteEditor.Edit.{is_bare_marker, split_line, continuation_prefix, newline}
use gwm_cli.NoteEditor.Session.{
  KeyCode, char, other_key, enter_key, KeyEvent, NoteAction, note_close, handled, NoteApp, list,
  target, handle_note_key, close_note, open_note_editor,
}
use gwm_cli.NoteEditor.Laws.Valid.{IsValid}
use gwm_cli.NoteEditor.Laws.Keys.{OnChar}
use gwm_cli.NoteEditor.Laws.Session.{Sound, run, run-open-Sound}
use gwm_cli.NoteEditor.Laws.Saving.{SavedIn, stored, handle_note_key-SavedIn, close_note-stored}

abbrev is_alnum : ℕ → Bool
is_alnum c = within b'a' b'z' c || within b'A' b'Z' c || within b'0' b'9' c

-- Any key that is no text closes.
abbrev close_on_other : KeyEvent → Option NoteAction
close_on_other k = elim k.code [ other_key ↦ some note_close | _ ↦ none ]

abbrev key : KeyCode → KeyEvent
key c = record { code = c; shift = false; ctrl_or_alt = false }

abbrev first_lines : List Text
first_lines = codes "to do" ∷ codes "- [ ] ship" ∷ []

abbrev editor : NoteEditor
editor = record {
  branch = codes "feat";
  path = codes "feat.md";
  lines = first_lines;
  cursor_line = 1;
  cursor_col = 3;
  scroll = 0;
  viewport = 10;
  dirty = false;
  mode = normal;
  pending = none;
}

abbrev closed_app : NoteApp
closed_app = record {
  note_editor = none;
  file = some (codes "to do");
  note_vim = true;
  editor_command = codes "vi";
  view = list;
  status = [];
  has_note = some true;
}

abbrev open_app : NoteApp
open_app = record closed_app { note_editor = some editor }

editor-IsValid : IsValid editor
editor-IsValid = record { held = codes "- [ ] ship"; there = refl; inside = omega arith }

editor-OnChar : OnChar editor
unfolding line_len
editor-OnChar = λ _. omega arith

abbrev keys : List (Option (Option Text × KeyEvent))
keys =
    some (none, key (char b'd'))
    ∷ some (none, key (char b'd'))
    ∷ some (none, key (char b'i'))
    ∷ some (none, key enter_key)
    ∷ some (some (codes "full"), key other_key)
    ∷ none
    ∷ some (none, key other_key)
    ∷ []

run-open-Sound_example :
    Returns
      (open_note_editor (target (codes "feat") (codes "feat.md")) closed_app
        >>= run is_alnum close_on_other keys)
      Sound
run-open-Sound_example =
    run-open-Sound is_alnum close_on_other (target (codes "feat") (codes "feat.md")) keys closed_app
      refl

handle_note_key-SavedIn_example :
    Returns
      (handle_note_key is_alnum close_on_other none (key (char b'x')) open_app)
      (λ r. SavedIn first_lines r.0)
handle_note_key-SavedIn_example =
    handle_note_key-SavedIn first_lines is_alnum close_on_other none (key (char b'x')) open_app
      (editor-IsValid, editor-OnChar) (λ _. inl refl)

close_note-stored_example :
    (a' : NoteApp) × (close_note none open_app normal (record editor { dirty = true })
      ≡ some (a', handled))
    × (a'.note_editor ≡ none)
    × (a'.view ≡ list)
    × ((a'.file ≡ stored first_lines) ⊎ ((first_lines ≡ []) × (a'.file ≡ open_app.file)))
close_note-stored_example =
    close_note-stored [] open_app normal (record editor { dirty = true }) (λ e. cc) (inl refl)

-- Enter at the end of a list line opens a new item with an empty box.
newline_continues :
    newline (record editor { cursor_col = 10; mode = insert })
    ≡ some (record editor {
      lines = codes "to do" ∷ codes "- [ ] ship" ∷ codes "- [ ] " ∷ [];
      cursor_line = 2;
      cursor_col = 6;
      dirty = true;
      mode = insert;
    })
unfolding newline is_bare_marker split_line continuation_prefix parse continued
newline_continues = refl
