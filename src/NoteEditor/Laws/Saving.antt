-- ===== src/NoteEditor/Laws/Saving.antt =====
-- The `dirty` mark of the note editor, and what a flush and a close leave on disk.
use gwm_cli.Base.{
  if_both, ℕ, ◌≡◌, refl, ◌⊎◌, inl, inr, Bool, false, Option, none, some, arith, Text, List,
  Bool-cases, Option-cases, IfSome, Returns, Returns-IfSome, if◌then◌else◌, is_empty,
}
use mathlib.Core.Path.{subst}
use mathlib.Core.Option.{some-injective}
use gwm_cli.NoteEditor.State.{NoteEditor, NoteMode, insert, normal, text_of}
use gwm_cli.NoteEditor.Edit.{left, right, to_line, up, down, home, end_of_line, page_up, page_down}
use gwm_cli.NoteEditor.Normal.{clamp_normal, enter_normal}
use gwm_cli.NoteEditor.Session.{
  written, holding, resolved_closed, leave_note, list, KeyCode, KeyEvent, handled, NoteAction,
  note_close, note_open_editor, note_toggle_bullet, note_toggle_checkbox, NoteKey, NoteApp, verb,
  reserved_typing_stroke, move_key, edit_note_buffer, flush_note, keep, close_note, resolved,
  typed_or_resolved, route, handle_open, handle_note_key, left_key,
}
use gwm_cli.NoteEditor.Laws.Frame.{
  Marked, normal_key-Marked, settle-Marked, toggle_bullet-Framed, toggle_checkbox-Framed,
}
use gwm_cli.NoteEditor.Laws.Session.{Sound, type_key-Framed, handle_note_key-Sound}

-- What a flush of these lines leaves on disk.
abbrev pub stored : List Text → Option Text
stored lines = if is_empty (text_of lines) then none else some (text_of lines)

module _ (base : List Text) where
  -- A clean editor holds what was opened, or what is on disk.
  abbrev pub Saved : Option Text → NoteEditor → Type 0
  Saved file e = e.dirty ≡ false → (e.lines ≡ base) ⊎ (file ≡ stored e.lines)

  abbrev pub SavedEditor : Option Text → Option NoteEditor → Type 0
  SavedEditor file none = Unit
  SavedEditor file (some e) = Saved file e

  abbrev pub SavedIn : NoteApp → Type 0
  SavedIn a = SavedEditor a.file a.note_editor

  abbrev SavedReply : NoteApp × NoteKey → Type 0
  SavedReply r = SavedIn r.0

  Saved-Marked :
      (file : Option Text) (e e' : NoteEditor) → Saved file e → Marked e e' → Saved file e'
  Saved-Marked file e e' s (inl d) h = ground arith
  Saved-Marked file e e' s (inr (l, d)) h = rw l (s (ground arith))

  keep-SavedIn :
      (a : NoteApp) (e : NoteEditor) (m : Option NoteEditor)
      → Saved a.file e
      → ((e' : NoteEditor) → m ≡ some e' → Marked e e')
      → IfSome SavedReply (keep a m)
  keep-SavedIn a e none s k = tt
  keep-SavedIn a e (some e') s k = Saved-Marked a.file e e' s (k e' refl)

  written-SavedIn :
      (io : Option Text) (e : NoteEditor) (a : NoteApp)
      → Saved a.file e
      → SavedIn (written io e a).1
  unfolding written
  written-SavedIn none e a s = λ _. inr refl
  written-SavedIn (some why) e a s = s

  flush_note-SavedIn :
      (io : Option Text) (e : NoteEditor) (a : NoteApp)
      → Saved a.file e
      → SavedIn (flush_note io e a).1
  unfolding flush_note
  flush_note-SavedIn io e a s =
      if_both (λ (r : NoteEditor × NoteApp). SavedIn r.1) e.dirty (written io e a) (e, holding a e)
        (written-SavedIn io e a s) s

  close_note-SavedIn :
      (io : Option Text) (a : NoteApp) (m : NoteMode) (e : NoteEditor)
      → Saved a.file e
      → IfSome SavedReply (close_note io a m e)
  unfolding close_note enter_normal clamp_normal
  close_note-SavedIn io a insert e s = elim (Bool-cases a.note_vim) [
    | inl b ↦ rw b s
    | inr b ↦ rw b tt
  ]
  close_note-SavedIn io a normal e s = tt

  move_key-Marked : (c : KeyCode) (height : ℕ) (e : NoteEditor) → Marked e (move_key c height e)
  unfolding move_key left right to_line up down home end_of_line page_up page_down
  move_key-Marked left_key height e = ground arith
  move_key-Marked _ height e = ground arith

  edit_note_buffer-Marked :
      (f : NoteEditor → Option NoteEditor) (e : NoteEditor)
      → ((e' : NoteEditor) → f e ≡ some e' → Marked e e')
      → (e' : NoteEditor) → edit_note_buffer f e ≡ some e'
      → Marked e e'
  unfolding edit_note_buffer
  edit_note_buffer-Marked f e k e' h = elim (Option-cases (f e)) [
    | inl n ↦ absurd (ground arith)
    | inr (m, n) ↦ ground (arith, k m n, settle-Marked m.mode m)
  ]

  resolved-SavedIn :
      (io : Option Text) (a : NoteApp) (e : NoteEditor) (k : KeyEvent) (r : Option NoteAction)
      → Saved a.file e
      → IfSome SavedReply (resolved io a e k r)
  unfolding resolved
  resolved-SavedIn io a e k (some note_close) s = close_note-SavedIn io a e.mode e s
  resolved-SavedIn io a e k (some note_open_editor) s = flush_note-SavedIn io e a s
  resolved-SavedIn io a e k (some note_toggle_bullet) s =
      keep-SavedIn a e _ s (edit_note_buffer-Marked _ e (λ e' h. (toggle_bullet-Framed e h).1))
  resolved-SavedIn io a e k (some note_toggle_checkbox) s =
      keep-SavedIn a e _ s (edit_note_buffer-Marked _ e (λ e' h. (toggle_checkbox-Framed e h).1))
  resolved-SavedIn io a e k none s = keep-SavedIn a e _ s (
      edit_note_buffer-Marked _ e
        (λ e' h. subst (Marked e) (some-injective _ _ h) (move_key-Marked k.code e.viewport e)))

  resolved_closed-SavedIn :
      (a : NoteApp) (r : Option NoteAction) → SavedIn a → SavedIn (resolved_closed a r)
  unfolding resolved_closed
  resolved_closed-SavedIn a (some note_close) s = tt
  resolved_closed-SavedIn a _ s = s

  module _ (f : ℕ → Bool) (resolve : KeyEvent → Option NoteAction) where
    typed-SavedIn :
        (io : Option Text) (k : KeyEvent) (a : NoteApp) (e : NoteEditor)
        → Saved a.file e
        → IfSome SavedReply (typed_or_resolved f resolve io k a e)
    unfolding typed_or_resolved
    typed-SavedIn io k a e s = elim (Bool-cases (reserved_typing_stroke k)) [
      | inl t ↦ rw t (keep-SavedIn a e _ s (λ e' h. (type_key-Framed k.code e h).1))
      | inr t ↦ rw t (resolved-SavedIn io a e k (resolve k) s)
    ]

    route-SavedIn :
        (io : Option Text) (k : KeyEvent) (a : NoteApp) (m : NoteMode) (v : Option ℕ)
        (e : NoteEditor)
        → Saved a.file e
        → IfSome SavedReply (route f resolve io k a m v e)
    unfolding route
    route-SavedIn io k a insert v e s = typed-SavedIn io k a e s
    route-SavedIn io k a normal (some c) e s =
        keep-SavedIn a e _ s (λ e' h. normal_key-Marked f c e h)
    route-SavedIn io k a normal none e s = typed-SavedIn io k a (record e { pending = none }) s

    handle_open-SavedIn :
        (io : Option Text) (k : KeyEvent) (a : NoteApp) (o : Option NoteEditor)
        → SavedIn a
        → SavedEditor a.file o
        → IfSome SavedReply (handle_open f resolve io k a o)
    unfolding handle_open
    handle_open-SavedIn io k a none s h =
        if_both SavedIn (reserved_typing_stroke k) a (resolved_closed a (resolve k)) s
          (resolved_closed-SavedIn a (resolve k) s)
    handle_open-SavedIn io k a (some e) s h = route-SavedIn io k a e.mode (verb k) e h

    -- A key keeps this: an editor that is not marked dirty holds the lines `base` that it was
    -- opened with, or those that a flush left on disk. The handler returns, from a sound editor.
    pub handle_note_key-SavedIn :
        (io : Option Text) (k : KeyEvent) (a : NoteApp)
        → Sound a
        → SavedIn a
        → Returns (handle_note_key f resolve io k a) (λ r. SavedIn r.0)
    handle_note_key-SavedIn io k a h s =
        Returns-IfSome (λ r. Sound r.0) SavedReply (handle_note_key f resolve io k a)
          (handle_note_key-Sound f resolve io k a h) (handle_open-SavedIn io k a a.note_editor s s)

  flush_note-stored :
      (e : NoteEditor) (a : NoteApp)
      → Saved a.file e
      → ((flush_note none e a).1.file ≡ stored e.lines)
        ⊎ ((e.lines ≡ base) × ((flush_note none e a).1.file ≡ a.file))
  unfolding flush_note
  flush_note-stored e a s = elim (Bool-cases e.dirty) [
    | inl d ↦ rw d (inl refl)
    | inr d ↦ rw d (elim (s d) [ inl b ↦ inr (b, refl) | inr w ↦ inl w ])
  ]

  -- A close that is not the first Esc of `note_vim`, with the file operation done: the editor is
  -- gone, the list is shown, and the disk holds the text of the lines, or nothing was edited since
  -- the note was opened and the file is as it was.
  pub close_note-stored :
      (a : NoteApp) (m : NoteMode) (e : NoteEditor)
      → Saved a.file e
      → (m ≡ normal) ⊎ (a.note_vim ≡ false)
      → (a' : NoteApp) × (close_note none a m e ≡ some (a', handled))
        × (a'.note_editor ≡ none)
        × (a'.view ≡ list)
        × ((a'.file ≡ stored e.lines) ⊎ ((e.lines ≡ base) × (a'.file ≡ a.file)))
  unfolding close_note
  close_note-stored a normal e s c =
      (leave_note (flush_note none e a).1, refl, refl, refl, flush_note-stored e a s)
  close_note-stored a insert e s c =
      (leave_note (flush_note none e a).1, ground arith, refl, refl, flush_note-stored e a s)
