-- ===== src/NoteEditor/Laws/Session.antt =====
-- Key by key: the open editor stays sound, whatever the keymap resolves and the disk answers.
use gwm_cli.Base.{
  ℕ, ◌≡◌, refl, inl, inr, Bool, false, Option, none, some, arith, Text, List, [], ◌∷◌, Bool-cases,
  ◌>>=◌, Returns, Returns-bind, Returns-some, if_both,
}
use gwm_cli.NoteEditor.State.{NoteEditor, NoteMode, insert, normal, open_note, line_len}
use gwm_cli.NoteEditor.Edit.{toggle_bullet, toggle_checkbox}
use gwm_cli.NoteEditor.Normal.{enter_normal, settle}
use gwm_cli.NoteEditor.Session.{
  NoteTarget, target, refused, read_note, text_or_empty, resolved_closed, KeyCode, char, enter_key,
  backspace_key, delete_key, left_key, right_key, up_key, down_key, home_key, end_key, page_up_key,
  page_down_key, KeyEvent, NoteAction, note_close, note_open_editor, note_toggle_bullet,
  note_toggle_checkbox, NoteKey, NoteApp, stroke_code, verb_of, verb, is_text_key,
  reserved_typing_stroke, type_key, move_key, edit_note_buffer, flush_note, keep, close_note,
  resolved, typed_or_resolved, route, handle_open, handle_note_key, open_note_editor, reload,
  note_text, in_mode, reload_note_after_editor,
}
use gwm_cli.NoteEditor.Laws.Valid.{IsValid, IsPlace-lt, open_note-IsValid}
use gwm_cli.NoteEditor.Laws.Editing.{
  insert_char-IsValid, newline-IsValid, backspace-IsValid, delete-IsValid, toggle_bullet-IsValid,
  toggle_checkbox-IsValid,
}
use gwm_cli.NoteEditor.Laws.Moving.{
  left-IsValid, right-IsValid, up-IsValid, down-IsValid, home-IsValid, end_of_line-IsValid,
  page_up-IsValid, page_down-IsValid,
}
use gwm_cli.NoteEditor.Laws.Frame.{
  Framed, insert_char-Framed, newline-Framed, backspace-Framed, delete-Framed,
}
use gwm_cli.NoteEditor.Laws.Keys.{OnChar, Landed, clamped, normal_key-Lands, enter_normal-IsValid}

-- An open editor has its cursor on a place of the note, and on a character in normal mode.
abbrev pub SoundEditor : Option NoteEditor → Type 0
SoundEditor none = Unit
SoundEditor (some e) = IsValid e × OnChar e

abbrev pub Sound : NoteApp → Type 0
Sound a = SoundEditor a.note_editor

abbrev SoundReply : NoteApp × NoteKey → Type 0
SoundReply r = Sound r.0

keep-Sound :
    (a : NoteApp) (m : Option NoteEditor) → Returns m Landed → Returns (keep a m) SoundReply
keep-Sound a m h = Returns-bind Landed SoundReply m _ h (λ e k. k)

type_key-IsValid : (c : KeyCode) (e : NoteEditor) → IsValid e → Returns (type_key c e) IsValid
unfolding type_key
type_key-IsValid (char c) e p = insert_char-IsValid c e p
type_key-IsValid enter_key e p = newline-IsValid e p
type_key-IsValid backspace_key e p = backspace-IsValid e p
type_key-IsValid delete_key e p = delete-IsValid e p
type_key-IsValid _ e p = p

pub type_key-Framed :
    (c : KeyCode) (e : NoteEditor) {e' : NoteEditor} → type_key c e ≡ some e' → Framed e e'
unfolding type_key
type_key-Framed (char c) e h = insert_char-Framed c e h
type_key-Framed enter_key e h = newline-Framed e h
type_key-Framed backspace_key e h = backspace-Framed e h
type_key-Framed delete_key e h = delete-Framed e h
type_key-Framed _ e h = ground arith

-- A key typed in insert mode: the mode stays, so the caret may stand behind the line.
type_key-Landed :
    (c : KeyCode) (e : NoteEditor) → e.mode ≡ insert → IsValid e → Returns (type_key c e) Landed
type_key-Landed c e m p =
    let (e', h, q) = Returns-some IsValid (type_key c e) (type_key-IsValid c e p) in
    let frame = type_key-Framed c e h in rw h (q, λ n. ground arith)

move_key-IsValid :
    (c : KeyCode) (height : ℕ) (e : NoteEditor) → IsValid e → IsValid (move_key c height e)
unfolding move_key
move_key-IsValid left_key height e p = left-IsValid e p
move_key-IsValid right_key height e p = right-IsValid e p
move_key-IsValid up_key height e p = up-IsValid e p
move_key-IsValid down_key height e p = down-IsValid e p
move_key-IsValid home_key height e p = home-IsValid e p
move_key-IsValid end_key height e p = end_of_line-IsValid e p
move_key-IsValid page_up_key height e p = page_up-IsValid height e p
move_key-IsValid page_down_key height e p = page_down-IsValid height e p
move_key-IsValid _ height e p = p

settled : (m : NoteMode) (e : NoteEditor) → e.mode ≡ m → IsValid e → Landed (settle m e)
settled normal e h p = clamped e (IsPlace-lt p)
settled insert e h p = (p, λ n. ground arith)

edit_note_buffer-Landed :
    (f : NoteEditor → Option NoteEditor) (e : NoteEditor)
    → Returns (f e) IsValid
    → Returns (edit_note_buffer f e) Landed
unfolding edit_note_buffer
edit_note_buffer-Landed f e h =
    Returns-bind IsValid Landed (f e) _ h (λ e' p. settled e'.mode e' refl p)

flush_note-Sound :
    (io : Option Text) (e : NoteEditor) (a : NoteApp) → Landed e → Sound (flush_note io e a).1
unfolding flush_note line_len
flush_note-Sound none e a h = elim (Bool-cases e.dirty) [ inl b ↦ rw b h | inr b ↦ rw b h ]
flush_note-Sound (some why) e a h = elim (Bool-cases e.dirty) [ inl b ↦ rw b h | inr b ↦ rw b h ]

close_note-Sound :
    (io : Option Text) (a : NoteApp) (m : NoteMode) (e : NoteEditor)
    → Landed e
    → Returns (close_note io a m e) SoundReply
unfolding close_note
close_note-Sound io a insert e h = elim (Bool-cases a.note_vim) [
  | inl b ↦ rw b (enter_normal-IsValid e h.0)
  | inr b ↦ rw b tt
]
close_note-Sound io a normal e h = tt

resolved-Sound :
    (io : Option Text) (a : NoteApp) (e : NoteEditor) (k : KeyEvent) (r : Option NoteAction)
    → Landed e
    → Returns (resolved io a e k r) SoundReply
unfolding resolved
resolved-Sound io a e k (some note_close) h = close_note-Sound io a e.mode e h
resolved-Sound io a e k (some note_open_editor) h = flush_note-Sound io e a h
resolved-Sound io a e k (some note_toggle_bullet) h =
    keep-Sound a _ (edit_note_buffer-Landed toggle_bullet e (toggle_bullet-IsValid e h.0))
resolved-Sound io a e k (some note_toggle_checkbox) h =
    keep-Sound a _ (edit_note_buffer-Landed toggle_checkbox e (toggle_checkbox-IsValid e h.0))
resolved-Sound io a e k none h =
    keep-Sound a _ (edit_note_buffer-Landed _ e (move_key-IsValid k.code e.viewport e h.0))

-- A key that types is a verb, so in normal mode it never reaches the typing route.
verb_of-is_text_key : (c : KeyCode) → verb_of c ≡ none → is_text_key c ≡ false
unfolding verb_of is_text_key
verb_of-is_text_key (char c) h = cc
verb_of-is_text_key backspace_key h = cc
verb_of-is_text_key enter_key h = cc
verb_of-is_text_key delete_key h = cc
verb_of-is_text_key _ h = refl

reserved_of_verb : (k : KeyEvent) → verb k ≡ none → reserved_typing_stroke k ≡ false
unfolding verb reserved_typing_stroke
reserved_of_verb k h = ground (arith, verb_of-is_text_key (stroke_code k))

in_mode-Landed : (m : NoteMode) (e : NoteEditor) → Landed e → Landed (in_mode m e)
in_mode-Landed normal e h = enter_normal-IsValid e h.0
in_mode-Landed insert e h = h

resolved_closed-Sound :
    (a : NoteApp) (r : Option NoteAction) → Sound a → Sound (resolved_closed a r)
unfolding resolved_closed
resolved_closed-Sound a (some note_close) s = tt
resolved_closed-Sound a _ s = s

module _ (f : ℕ → Bool) (resolve : KeyEvent → Option NoteAction) where
  route-Sound :
      (io : Option Text) (k : KeyEvent) (a : NoteApp) (m : NoteMode) (v : Option ℕ) (e : NoteEditor)
      → verb k ≡ v
      → e.mode ≡ m
      → Landed e
      → Returns (route f resolve io k a m v e) SoundReply
  unfolding route typed_or_resolved line_len
  route-Sound io k a insert v e q n h = elim (Bool-cases (reserved_typing_stroke k)) [
    | inl t ↦ rw t (keep-Sound a _ (type_key-Landed k.code e n h.0))
    | inr t ↦ rw t (resolved-Sound io a e k (resolve k) h)
  ]
  route-Sound io k a normal (some c) e q n h = keep-Sound a _ (normal_key-Lands f c e n h.0 h.1)
  route-Sound io k a normal none e q n h =
      rw (reserved_of_verb k q) (resolved-Sound io a (record e { pending = none }) k (resolve k) h)

  handle_open-Sound :
      (io : Option Text) (k : KeyEvent) (a : NoteApp) (o : Option NoteEditor)
      → SoundEditor o
      → Sound a
      → Returns (handle_open f resolve io k a o) SoundReply
  unfolding handle_open
  handle_open-Sound io k a none h s =
      if_both Sound (reserved_typing_stroke k) a (resolved_closed a (resolve k)) s
        (resolved_closed-Sound a (resolve k) s)
  handle_open-Sound io k a (some e) h s = route-Sound io k a e.mode (verb k) e refl refl h

  -- One key: the handler returns, and the editor that it leaves open is sound.
  pub handle_note_key-Sound :
      (io : Option Text) (k : KeyEvent) (a : NoteApp)
      → Sound a
      → Returns (handle_note_key f resolve io k a) (λ r. Sound r.0)
  handle_note_key-Sound io k a h = handle_open-Sound io k a a.note_editor h h

  -- A session: keys, each with the outcome of a file operation, and returns from `$EDITOR`.
  abbrev pub run : List (Option (Option Text × KeyEvent)) → NoteApp → Option NoteApp
  run [] a = some a
  run ((some (io, k)) ∷ keys) a = do (a', _) ← handle_note_key f resolve io k a; run keys a'
  run (none ∷ keys) a = do a' ← reload_note_after_editor a; run keys a'

  opened-Landed : (e : NoteEditor) → e.mode ≡ insert → IsValid e → Landed e
  opened-Landed e m p = (p, λ n. ground arith)

  open_note-insert : (b p t : Text) {e : NoteEditor} → open_note b p t ≡ some e → e.mode ≡ insert
  unfolding open_note
  open_note-insert b p t h = ground arith

  open_note-Landed : (b p t : Text) → Returns (open_note b p t) Landed
  open_note-Landed b p t =
      let (e, h, q) = Returns-some IsValid (open_note b p t) (open_note-IsValid b p t) in
      rw h (opened-Landed e (open_note-insert b p t h) q)

  reload-Sound : (a : NoteApp) (o : Option NoteEditor) → Sound a → Returns (reload a o) Sound
  unfolding reload
  reload-Sound a none s = s
  reload-Sound a (some e) s =
      Returns-bind Landed Sound (open_note e.branch e.path (note_text a)) _
        (open_note-Landed e.branch e.path _) (λ fresh h. in_mode-Landed e.mode fresh h)

  run-Sound :
      (keys : List (Option (Option Text × KeyEvent))) (a : NoteApp)
      → Sound a
      → Returns (run keys a) Sound
  run-Sound [] a h = h
  run-Sound ((some (io, k)) ∷ keys) a h =
      Returns-bind (λ r. Sound r.0) Sound (handle_note_key f resolve io k a) _
        (handle_note_key-Sound io k a h) (λ r q. run-Sound keys r.0 q)
  run-Sound (none ∷ keys) a h =
      Returns-bind Sound Sound (reload_note_after_editor a) _ (reload-Sound a a.note_editor h)
        (λ a' q. run-Sound keys a' q)

  open_note_editor-Sound :
      (t : NoteTarget) (a : NoteApp) → Sound a → Returns (open_note_editor t a) Sound
  unfolding open_note_editor
  open_note_editor-Sound (refused why) a s = s
  open_note_editor-Sound (target branch path) a s =
      Returns-bind Landed Sound (open_note branch path (text_or_empty (read_note a.file))) _
        (open_note-Landed branch path _)
        (λ e h. if_both Landed a.note_vim (enter_normal e) e (enter_normal-IsValid e h.0) h)

  -- With no editor open, opening the note of any target and then any keys under any keymap:
  -- nothing panics, and an editor still open has its cursor on a place of the note, on a character
  -- of it in normal mode.
  pub run-open-Sound :
      (t : NoteTarget) (keys : List (Option (Option Text × KeyEvent))) (a : NoteApp)
      → a.note_editor ≡ none
      → Returns (open_note_editor t a >>= run keys) Sound
  run-open-Sound t keys a h =
      Returns-bind Sound Sound (open_note_editor t a) _ (open_note_editor-Sound t a (rw h tt))
        (λ a' q. run-Sound keys a' q)
