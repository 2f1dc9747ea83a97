-- ===== src/NoteEditor/Laws/Frame.antt =====
-- What an edit leaves alone: the mode, and the `dirty` flag unless the text may have changed.
use gwm_cli.Base.{
  ℕ, ◌≡◌, refl, ◌⊎◌, inl, inr, Bool, true, Option, none, some, arith, Text, List, [], ◌∷◌, ◌+◌,
  get_elem?, Option-cases,
}
use gwm_cli.NoteEditor.Marker.{ListPrefix, ListLine, parse}
use gwm_cli.NoteEditor.State.{NoteEditor, NoteMode, insert, normal}
use gwm_cli.NoteEditor.Words.{word_forward, word_backward, word_end}
use gwm_cli.NoteEditor.Normal.{
  clamp_normal, remove_line, empty_only_line, delete_line, open_line, chord, to_indent, last_line,
  Key, press, key_of, settle, key_after, normal_key, next_word, prev_word, word_last, erase,
  open_below, open_above,
}
use gwm_cli.NoteEditor.Edit.{
  up, down, end_of_line, to_line, insert_char, split_line, clear_line, newline, indent_of,
  rewrite_marker, toggle_from, toggle_bullet, toggle_checkbox, join_above, remove_before, backspace,
  join_below, remove_under, delete_under, delete,
}

-- The lines are the old ones, or the note is marked to be written.
abbrev pub Marked : NoteEditor → NoteEditor → Type 0
Marked e e' = (e'.dirty ≡ true) ⊎ ((e'.lines ≡ e.lines) × (e'.dirty ≡ e.dirty))

abbrev pub Framed : NoteEditor → NoteEditor → Type 0
Framed e e' = (e'.mode ≡ e.mode) × Marked e e'

pub insert_char-Framed :
    (c : ℕ) (e : NoteEditor) {e' : NoteEditor} → insert_char c e ≡ some e' → Framed e e'
unfolding insert_char
insert_char-Framed c e h = (ground arith, inl (ground arith))

split_line-Framed : (e : NoteEditor) {e' : NoteEditor} → split_line e ≡ some e' → Framed e e'
unfolding split_line
split_line-Framed e h = (ground arith, inl (ground arith))

clear_line-Framed : (e : NoteEditor) {e' : NoteEditor} → clear_line e ≡ some e' → Framed e e'
unfolding clear_line
clear_line-Framed e h = (ground arith, inl (ground arith))

pub newline-Framed : (e : NoteEditor) {e' : NoteEditor} → newline e ≡ some e' → Framed e e'
unfolding newline
newline-Framed e {e'} h =
    ground (arith, clear_line-Framed e {e' = e'}, split_line-Framed e {e' = e'})

rewrite_marker-Framed :
    (i w : ℕ) (m : Text) (e : NoteEditor) {e' : NoteEditor}
    → rewrite_marker i w m e ≡ some e'
    → Framed e e'
unfolding rewrite_marker
rewrite_marker-Framed i w m e h = (ground arith, inl (ground arith))

toggle_from-Framed :
    (marked : ListPrefix → Text) (fresh : Text) (l : Option ListLine) (e : NoteEditor)
    {e' : NoteEditor}
    → toggle_from marked fresh l e ≡ some e'
    → Framed e e'
unfolding toggle_from
toggle_from-Framed marked fresh (some l) e h = rewrite_marker-Framed l.indent l.width _ e h
toggle_from-Framed marked fresh none e h = elim (Option-cases (indent_of e e.cursor_line)) [
  | inl n ↦ absurd (ground arith)
  | inr (i, n) ↦ rewrite_marker-Framed i i fresh e (rw n at h)
]

pub toggle_bullet-Framed :
    (e : NoteEditor) {e' : NoteEditor} → toggle_bullet e ≡ some e' → Framed e e'
unfolding toggle_bullet
toggle_bullet-Framed e h = elim (Option-cases (get_elem? e.lines e.cursor_line)) [
  | inl n ↦ absurd (ground arith)
  | inr (line, n) ↦ toggle_from-Framed _ _ (parse line) e (rw n at h)
]

pub toggle_checkbox-Framed :
    (e : NoteEditor) {e' : NoteEditor} → toggle_checkbox e ≡ some e' → Framed e e'
unfolding toggle_checkbox
toggle_checkbox-Framed e h = elim (Option-cases (get_elem? e.lines e.cursor_line)) [
  | inl n ↦ absurd (ground arith)
  | inr (line, n) ↦ toggle_from-Framed _ _ (parse line) e (rw n at h)
]

pub backspace-Framed : (e : NoteEditor) {e' : NoteEditor} → backspace e ≡ some e' → Framed e e'
unfolding backspace remove_before join_above
backspace-Framed e h = ground arith

pub delete_under-Framed :
    (e : NoteEditor) {e' : NoteEditor} → delete_under e ≡ some e' → Framed e e'
unfolding delete_under remove_under
delete_under-Framed e h = ground arith

pub delete-Framed : (e : NoteEditor) {e' : NoteEditor} → delete e ≡ some e' → Framed e e'
unfolding delete join_below
delete-Framed e {e'} h = ground (arith, delete_under-Framed e {e' = e'})

remove_line-Framed : (e : NoteEditor) {e' : NoteEditor} → remove_line e ≡ some e' → Framed e e'
unfolding remove_line
remove_line-Framed e h = (ground arith, inl (ground arith))

empty_only_line-Framed :
    (e : NoteEditor) (ls : List Text) {e' : NoteEditor}
    → empty_only_line e ls ≡ some e'
    → Framed e e'
unfolding empty_only_line
empty_only_line-Framed e [] h = ground arith
empty_only_line-Framed e (l ∷ ls) h = ground arith

delete_line-Framed : (e : NoteEditor) {e' : NoteEditor} → delete_line e ≡ some e' → Framed e e'
unfolding delete_line
delete_line-Framed e {e'} h =
    ground (arith, remove_line-Framed e {e' = e'}, empty_only_line-Framed e e.lines {e' = e'})

open_line-Marked :
    (i : ℕ) (e : NoteEditor) {e' : NoteEditor} → open_line i e ≡ some e' → e'.dirty ≡ true
unfolding open_line
open_line-Marked i e h = ground arith

clamp_normal-Framed : (e : NoteEditor) → Framed e (clamp_normal e)
unfolding clamp_normal
clamp_normal-Framed e = (refl, inr (refl, refl))

pub settle-Marked : (m : NoteMode) (e : NoteEditor) → Framed e (settle m e)
unfolding clamp_normal
settle-Marked normal e = (refl, inr (refl, refl))
settle-Marked insert e = (refl, inr (refl, refl))

chord-Marked :
    (first c : ℕ) (e : NoteEditor) {e' : NoteEditor} → chord first c e ≡ some e' → Marked e e'
unfolding chord clamp_normal
chord-Marked first c e {e'} h = ground (arith, delete_line-Framed e {e' = e'})

module _ (f : ℕ → Bool) where
  press-Marked : (k : Key) (e : NoteEditor) {e' : NoteEditor} → press f k e ≡ some e' → Marked e e'
  unfolding press up down end_of_line to_line to_indent last_line
  press-Marked (next_word big) e h = unfold word_forward in ground arith
  press-Marked (prev_word big) e h = unfold word_backward in ground arith
  press-Marked (word_last big) e h = unfold word_end in ground arith
  press-Marked erase e h = (delete_under-Framed e h).1
  press-Marked open_below e h = inl (open_line-Marked (e.cursor_line + 1) e h)
  press-Marked open_above e h = inl (open_line-Marked e.cursor_line e h)
  press-Marked _ e h = ground arith

  key_after-Marked :
      (pending : Option ℕ) (c : ℕ) (e : NoteEditor) {e' : NoteEditor}
      → key_after f pending c e ≡ some e'
      → Marked e e'
  unfolding key_after
  key_after-Marked (some first) c e h = chord-Marked first c (record e { pending = none }) h
  key_after-Marked none c e {e'} h = elim (Option-cases (press f (key_of c) e)) [
    | inl n ↦ absurd (ground arith)
    | inr (m, n) ↦ ground (arith, press-Marked (key_of c) e n, settle-Marked m.mode m)
  ]

  pub normal_key-Marked :
      (c : ℕ) (e : NoteEditor) {e' : NoteEditor} → normal_key f c e ≡ some e' → Marked e e'
  normal_key-Marked c e h = key_after-Marked e.pending c e h
