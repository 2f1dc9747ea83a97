-- ===== src/NoteEditor/Session.antt =====
-- src/tui/app.rs: the note editor inside the TUI, `handle_note_key` with `edit_note_buffer`,
-- `flush_note`, `note_target`, `open_note_editor`, `sync_selected_note_marker` and
-- `reload_note_after_editor`; src/github.rs: `pinnable_branch`.
-- The resolution of a modal binding and the alphanumeric test are parameters. The outcome of a
-- file operation comes with the key: `none` for `Ok`, the error's text otherwise; a failed write
-- or removal leaves the file as it was. The row of the note stays selected while it is open.
use gwm_cli.Base.{
  ℕ, ◌-◌, Bool, true, false, Option, none, some, Text, ◌>>=◌, within, if◌then◌else◌, is_empty, [],
  ◌++◌, codes, text_eq, all, is_whitespace,
}
use gwm_cli.NoteEditor.State.{NoteEditor, NoteMode, insert, normal, open_note, text}
use gwm_cli.NoteEditor.Edit.{
  insert_char, newline, backspace, delete, toggle_bullet, toggle_checkbox, left, right, up, down,
  home, end_of_line, page_up, page_down,
}
use gwm_cli.NoteEditor.Normal.{enter_normal, normal_key, settle}

-- `KeyCode`, as far as the note editor tells keys apart.
pub data KeyCode : Type 0 where
  char : ℕ → KeyCode
  enter_key backspace_key delete_key left_key right_key up_key down_key : KeyCode
  home_key end_key page_up_key page_down_key other_key : KeyCode

pub record KeyEvent : Type 0 where
  pub code : KeyCode
  pub shift : Bool
  pub ctrl_or_alt : Bool

pub data NoteAction : Type 0 where
  note_close note_open_editor note_toggle_bullet note_toggle_checkbox : NoteAction

pub data NoteKey : Type 0 where
  handled : NoteKey
  launch_editor : Text → Text → NoteKey

pub data View : Type 0 where
  list note : View

-- `file` is the note on disk, `editor_command` the answer of `resolve_editor_command`, and
-- `has_note` the marker of the selected row, `none` if no row with a branch is selected.
pub record NoteApp : Type 0 where
  pub note_editor : Option NoteEditor
  pub file : Option Text
  pub note_vim : Bool
  pub editor_command : Text
  pub view : View
  pub status : Text
  pub has_note : Option Bool

unfoldable pub to_ascii_uppercase : ℕ → ℕ
to_ascii_uppercase c = if within b'a' b'z' c then c - 32 else c

-- `KeyStroke::from_event`: a shifted letter is its capital.
unfoldable pub stroke_code : KeyEvent → KeyCode
stroke_code k = elim k.code [
  | char c ↦ char (if k.shift then to_ascii_uppercase c else c)
  | code ↦ code
]

unfoldable pub verb_of : KeyCode → Option ℕ
verb_of (char c) = some c
verb_of backspace_key = some b'h'
verb_of enter_key = some b'j'
verb_of delete_key = some b'x'
verb_of _ = none

unfoldable pub verb : KeyEvent → Option ℕ
verb k = if k.ctrl_or_alt then none else verb_of (stroke_code k)

unfoldable pub is_text_key : KeyCode → Bool
is_text_key (char _) = true
is_text_key backspace_key = true
is_text_key enter_key = true
is_text_key delete_key = true
is_text_key _ = false

-- `KeyContext::Note.reserved_typing_stroke`
unfoldable pub reserved_typing_stroke : KeyEvent → Bool
reserved_typing_stroke k = if k.ctrl_or_alt then false else is_text_key (stroke_code k)

unfoldable pub type_key : KeyCode → NoteEditor → Option NoteEditor
type_key (char c) e = insert_char c e
type_key enter_key e = newline e
type_key backspace_key e = backspace e
type_key delete_key e = delete e
type_key _ e = some e

unfoldable pub move_key : KeyCode → ℕ → NoteEditor → NoteEditor
move_key left_key height e = left e
move_key right_key height e = right e
move_key up_key height e = up e
move_key down_key height e = down e
move_key home_key height e = home e
move_key end_key height e = end_of_line e
move_key page_up_key height e = page_up height e
move_key page_down_key height e = page_down height e
move_key _ height e = e

-- Whoever moves the caret restores normal mode's invariant.
unfoldable pub edit_note_buffer : (NoteEditor → Option NoteEditor) → NoteEditor → Option NoteEditor
edit_note_buffer f e = do e' ← f e; some (settle e'.mode e')

abbrev pub holding : NoteApp → NoteEditor → NoteApp
holding a e = record a { note_editor = some e }

unfoldable pub written : Option Text → NoteEditor → NoteApp → NoteEditor × NoteApp
written none e a =
    let clean = record e { dirty = false } in
    (clean, record (holding a clean) { file = if is_empty (text e) then none else some (text e) })
written (some why) e a =
    (e, record (holding a e) { status = codes "could not write the note: " ++ why })

-- The editor that is left after `flush_note`, and the file. A blank note is removed.
unfoldable pub flush_note : Option Text → NoteEditor → NoteApp → NoteEditor × NoteApp
unfolding written
flush_note io e a = let done = written io e a in if e.dirty then done else (e, holding a e)

-- `notes::read`: a blank note reads as none.
unfoldable pub read_note : Option Text → Option Text
unfolding is_whitespace
read_note none = none
read_note (some t) = if all is_whitespace t then none else some t

abbrev pub is_present : Option Text → Bool
is_present none = false
is_present (some _) = true

unfoldable pub sync_selected_note_marker : NoteApp → NoteApp
sync_selected_note_marker a = record a {
  has_note = elim a.has_note [ none ↦ none | some _ ↦ some (is_present (read_note a.file)) ];
}

-- The end of a close: the view and the marker.
unfoldable pub leave_note : NoteApp → NoteApp
unfolding sync_selected_note_marker
leave_note a = sync_selected_note_marker (record a { note_editor = none; view = list })

abbrev pub Reply : Type 0
Reply = Option (NoteApp × NoteKey)

abbrev pub keep : NoteApp → Option NoteEditor → Reply
keep a m = do e ← m; some (holding a e, handled)

unfoldable pub close_note : Option Text → NoteApp → NoteMode → NoteEditor → Reply
unfolding leave_note
close_note io a insert e =
    if a.note_vim
    then some (holding a (enter_normal e), handled)
    else some (leave_note (flush_note io e a).1, handled)
close_note io a normal e = some (leave_note (flush_note io e a).1, handled)

unfoldable pub resolved : Option Text → NoteApp → NoteEditor → KeyEvent → Option NoteAction → Reply
resolved io a e k (some note_close) = close_note io a e.mode e
resolved io a e k (some note_open_editor) =
    some ((flush_note io e a).1, launch_editor a.editor_command (flush_note io e a).0.path)
resolved io a e k (some note_toggle_bullet) = keep a (edit_note_buffer toggle_bullet e)
resolved io a e k (some note_toggle_checkbox) = keep a (edit_note_buffer toggle_checkbox e)
resolved io a e k none = keep a (edit_note_buffer (λ e'. some (move_key k.code e.viewport e')) e)

-- With no editor open only the close verb does anything.
unfoldable pub resolved_closed : NoteApp → Option NoteAction → NoteApp
unfolding leave_note
resolved_closed a (some note_close) = leave_note a
resolved_closed a _ = a

module _ (is_alphanumeric : ℕ → Bool) (resolve : KeyEvent → Option NoteAction) where
  unfoldable pub typed_or_resolved : Option Text → KeyEvent → NoteApp → NoteEditor → Reply
  typed_or_resolved io k a e =
      if reserved_typing_stroke k then keep a (type_key k.code e) else resolved io a e k (resolve k)

  -- Normal mode routes before typing; a key that is no verb drops a half-typed sequence.
  unfoldable pub route : Option Text → KeyEvent → NoteApp → NoteMode → Option ℕ → NoteEditor → Reply
  route io k a insert v e = typed_or_resolved io k a e
  route io k a normal (some c) e = keep a (normal_key is_alphanumeric c e)
  route io k a normal none e = typed_or_resolved io k a (record e { pending = none })

  unfoldable pub handle_open : Option Text → KeyEvent → NoteApp → Option NoteEditor → Reply
  handle_open io k a none =
      some (if reserved_typing_stroke k then a else resolved_closed a (resolve k), handled)
  handle_open io k a (some e) = route io k a e.mode (verb k) e

  abbrev pub handle_note_key : Option Text → KeyEvent → NoteApp → Reply
  handle_note_key io k a = handle_open io k a a.note_editor

-- A detached HEAD has no branch, or the name `HEAD`.
unfoldable pub pinnable_branch : Option Text → Option Text
pinnable_branch none = none
pinnable_branch (some b) = if text_eq b (codes "HEAD") then none else some b

-- What `notes::prepare` answers.
pub data Prepared : Type 0 where
  ready : Text → Prepared
  not_portable : Prepared
  failed : Text → Prepared

-- The branch and the path of the note, or the message on the status bar.
pub data NoteTarget : Type 0 where
  target : Text → Text → NoteTarget
  refused : Text → NoteTarget

unfoldable pub target_of : Text → Prepared → NoteTarget
target_of branch (ready path) = target branch path
target_of branch not_portable = refused (
    codes "`" ++ (branch ++ codes "` cannot back a note file: the name is not a portable filename"))
target_of branch (failed why) = refused why

unfoldable pub branch_target : (Text → Prepared) → Option Text → NoteTarget
branch_target prepare none = refused (codes "detached HEAD: a note is keyed on the branch")
branch_target prepare (some branch) = target_of branch (prepare branch)

-- The argument is the branch of the selected row, if a row is selected.
unfoldable pub note_target : (Text → Prepared) → Option (Option Text) → NoteTarget
note_target prepare none = refused (codes "nothing selected")
note_target prepare (some branch) = branch_target prepare (pinnable_branch branch)

abbrev pub text_or_empty : Option Text → Text
text_or_empty none = []
text_or_empty (some t) = t

-- `note_vim` opens in normal mode.
unfoldable pub open_note_editor : NoteTarget → NoteApp → Option NoteApp
open_note_editor (refused why) a = some (record a { status = why })
open_note_editor (target branch path) a = do
  e ← open_note branch path (text_or_empty (read_note a.file))
  some (record (holding a (if a.note_vim then enter_normal e else e)) { view = note })

abbrev pub in_mode : NoteMode → NoteEditor → NoteEditor
in_mode normal e = enter_normal e
in_mode insert e = e

abbrev pub note_text : NoteApp → Text
note_text a = text_or_empty a.file

-- Back from `$EDITOR`: the buffer is rebuilt from the file, and the mode is carried over.
unfoldable pub reload : NoteApp → Option NoteEditor → Option NoteApp
reload a none = some a
reload a (some e) = do
  fresh ← open_note e.branch e.path (note_text a)
  some (holding a (in_mode e.mode fresh))

abbrev pub reload_note_after_editor : NoteApp → Option NoteApp
reload_note_after_editor a = reload a a.note_editor
