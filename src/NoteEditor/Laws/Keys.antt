-- ===== src/NoteEditor/Laws/Keys.antt =====
-- Normal mode: every key returns, keeps the cursor on a place of the note, and leaves it on a
-- character unless the key entered insert mode.
use gwm_cli.Base.{
  ℕ, ◌+◌, ◌-◌, ◌≤◌, ◌<◌, min, ◌≡◌, refl, inl, inr, Bool, true, false, ◌&&◌, List, [], ◌∷◌, Option,
  none, some, arith, Text, Bool-cases, length, get_elem?, is_whitespace, get_elem?-some,
  insert_at-insert_nth, get_elem?-insert_nth, remove_at-erase_nth, erase_nth, length-erase_nth,
  Returns, Returns-bind, Returns-imp, if_both, ◌==◌, if◌then◌else◌, is_empty,
}
use gwm_cli.NoteEditor.State.{NoteEditor, NoteMode, insert, normal, line_len}
use gwm_cli.NoteEditor.Normal.{
  clamp_normal, enter_normal, remove_line, empty_only_line, delete_line, open_line, chord,
  to_indent, last_line, Key, press, key_of, settle, key_after, col_left, col_right, line_down,
  line_up, first_col, first_text, end_col, bottom, next_word, prev_word, word_last, await, erase,
  to_insert, insert_at_text, append, append_at_end, open_below, open_above, other, normal_key,
}
use gwm_cli.NoteEditor.Laws.Markers.{count_while-le}
use gwm_cli.NoteEditor.Laws.Valid.{IsValid, IsPlace-lt, IsPlace-line_len}
use gwm_cli.NoteEditor.Laws.Editing.{continuation_prefix-some, indent_of-some, delete_under-IsValid}
use gwm_cli.NoteEditor.Laws.Moving.{
  IsPlace-col, up-IsValid, down-IsValid, end_of_line-IsValid, word_forward-IsValid,
  word_backward-IsValid, word_end-IsValid,
}

-- In normal mode the cursor stands on a character, or at column 0 of an empty line.
abbrev pub OnChar : NoteEditor → Type 0
OnChar e = e.mode ≡ normal → e.cursor_col ≤ line_len e e.cursor_line - 1

-- Neither a valid cursor: its line is one of the note's.
abbrev pub OnLine : NoteEditor → Type 0
OnLine e = e.cursor_line < length e.lines

pub clamp_normal-IsValid : (e : NoteEditor) → OnLine e → IsValid (clamp_normal e)
unfolding clamp_normal
clamp_normal-IsValid e h = IsPlace-line_len e e.cursor_line _ h (omega arith)

clamp_normal-OnChar : (e : NoteEditor) → OnChar (clamp_normal e)
unfolding clamp_normal line_len
clamp_normal-OnChar e m = omega arith

pub enter_normal-IsValid :
    (e : NoteEditor) → IsValid e → IsValid (enter_normal e) × OnChar (enter_normal e)
unfolding enter_normal
enter_normal-IsValid e p =
    let e' = record e { mode = normal; pending = none } in
    (clamp_normal-IsValid e' (IsPlace-lt p), clamp_normal-OnChar e')

first_only : (i : ℕ) → i ≡ 0 → get_elem? {A = Text} ([] ∷ []) i ≡ some []
first_only i h = rw h

remove_line-IsValid :
    (e : NoteEditor)
    → IsValid e
    → (length e.lines == 1) ≡ false
    → Returns (remove_line e) (λ e'. IsValid e' × OnChar e')
unfolding remove_line
remove_line-IsValid e p h =
    let rest = erase_nth e.cursor_line e.lines in
    let fewer = length-erase_nth e.cursor_line e.lines (IsPlace-lt p) in
    let line = min e.cursor_line (length rest - 1) in
    let (l, q) = get_elem?-some rest line (ground (arith, fewer, IsPlace-lt p)) in
    rw (remove_at-erase_nth e.lines e.cursor_line p.there)
      (record { held = l; there = q; inside = omega arith }, λ m. omega arith)

abbrev Lands : Option NoteEditor → Type 0
Lands m = Returns m (λ e'. IsValid e' × OnChar e')

abbrev pub Landed : NoteEditor → Type 0
Landed e = IsValid e × OnChar e

empty_only_line-IsValid :
    (e : NoteEditor)
    → IsValid e
    → (length e.lines == 1) ≡ true
    → (ls : List Text) → 0 < length ls
    → Lands (empty_only_line e ls)
unfolding empty_only_line
empty_only_line-IsValid e p h [] k = elim k [ ]
empty_only_line-IsValid e p h (l ∷ ls) k =
    if_both Landed (is_empty l) (record e { cursor_col = 0 })
      (record e { lines = [] ∷ []; dirty = true; cursor_col = 0 })
      (IsPlace-col e 0 p (omega arith), λ m. omega arith)
      (
        record {
          held = [];
          there = first_only e.cursor_line (ground (arith, IsPlace-lt p));
          inside = omega arith;
        },
        λ m. omega arith,
      )

delete_line-IsValid :
    (e : NoteEditor) → IsValid e → Returns (delete_line e) (λ e'. IsValid e' × OnChar e')
unfolding delete_line
delete_line-IsValid e p = elim (Bool-cases (length e.lines == 1)) [
  | inl h ↦ rw h (empty_only_line-IsValid e p h e.lines (omega (arith, IsPlace-lt p)))
  | inr h ↦ rw h (remove_line-IsValid e p h)
]

open_line-IsValid :
    (index : ℕ) (e : NoteEditor)
    → IsValid e
    → index ≤ length e.lines
    → Returns (open_line index e) IsValid
unfolding open_line
open_line-IsValid index e p h =
    let (prefix, q) = continuation_prefix-some e e.cursor_line (IsPlace-lt p) in
    rw (q, insert_at-insert_nth e.lines index prefix h)
      (record {
        held = prefix;
        there = get_elem?-insert_nth index prefix e.lines h;
        inside = omega arith;
      })

to_indent-IsValid : (e : NoteEditor) → IsValid e → Returns (to_indent e) IsValid
unfolding to_indent
to_indent-IsValid e p =
    rw (indent_of-some e p) (IsPlace-col e _ p (count_while-le is_whitespace p.held))

chord-IsValid :
    (first c : ℕ) (e : NoteEditor)
    → IsValid e
    → OnChar e
    → Returns (chord first c e) (λ e'. IsValid e' × OnChar e')
unfolding chord
chord-IsValid first c e p o =
    if_both Lands (first == b'g' && c == b'g') (some (clamp_normal top))
      (if first == b'd' && c == b'd' then delete_line e else some e)
      (clamp_normal-IsValid top (omega (arith, IsPlace-lt p)), clamp_normal-OnChar top)
      (if_both Lands (first == b'd' && c == b'd') (delete_line e) (some e) (delete_line-IsValid e p)
        (p, o))
  where
    top : NoteEditor
    top = record e { cursor_line = 0 }

pub clamped : (e : NoteEditor) → OnLine e → Landed (clamp_normal e)
clamped e h = (clamp_normal-IsValid e h, clamp_normal-OnChar e)

module _ (f : ℕ → Bool) where
  -- A key leads to a line of the note, with a column in it if the key enters insert mode.
  abbrev Reached : NoteEditor → Type 0
  Reached e = OnLine e × (e.mode ≡ insert → IsValid e)

  valid_Reached : (m : Option NoteEditor) → Returns m IsValid → Returns m Reached
  valid_Reached m h = Returns-imp IsValid Reached m h (λ e p. (IsPlace-lt p, λ _. p))

  last_line-Reached : (e : NoteEditor) → IsValid e → e.mode ≡ normal → Returns (last_line e) Reached
  unfolding last_line
  last_line-Reached e p m = elim (Bool-cases (is_empty e.lines)) [
    | inl h ↦ absurd (ground (arith, IsPlace-lt p))
    | inr h ↦ rw h (omega (arith, IsPlace-lt p), λ k. ground arith)
  ]

  press-Reached :
      (k : Key) (e : NoteEditor) → IsValid e → e.mode ≡ normal → Returns (press f k e) Reached
  unfolding press
  press-Reached col_left e p m = (IsPlace-lt p, λ k. ground arith)
  press-Reached col_right e p m = (IsPlace-lt p, λ k. ground arith)
  press-Reached line_down e p m = (IsPlace-lt (down-IsValid e p), λ _. down-IsValid e p)
  press-Reached line_up e p m = (IsPlace-lt (up-IsValid e p), λ _. up-IsValid e p)
  press-Reached first_col e p m = (IsPlace-lt p, λ k. ground arith)
  press-Reached first_text e p m = valid_Reached _ (to_indent-IsValid e p)
  press-Reached end_col e p m = (IsPlace-lt (end_of_line-IsValid e p), λ _. end_of_line-IsValid e p)
  press-Reached (next_word big) e p m = valid_Reached _ (word_forward-IsValid f big e p)
  press-Reached (prev_word big) e p m = valid_Reached _ (word_backward-IsValid f big e p)
  press-Reached (word_last big) e p m = valid_Reached _ (word_end-IsValid f big e p)
  press-Reached bottom e p m = last_line-Reached e p m
  press-Reached (await c) e p m = (IsPlace-lt p, λ _. p)
  press-Reached erase e p m = valid_Reached _ (delete_under-IsValid e p)
  press-Reached to_insert e p m = (IsPlace-lt p, λ _. p)
  press-Reached insert_at_text e p m =
      Returns-bind IsValid Reached (to_indent e) _ (to_indent-IsValid e p)
        (λ e' q. (IsPlace-lt q, λ _. q))
  press-Reached append e p m =
      let q = IsPlace-line_len e e.cursor_line _ (IsPlace-lt p) (omega arith) in
      (IsPlace-lt p, λ _. q)
  press-Reached append_at_end e p m =
      (IsPlace-lt (end_of_line-IsValid e p), λ _. end_of_line-IsValid e p)
  press-Reached open_below e p m =
      valid_Reached _ (open_line-IsValid (e.cursor_line + 1) e p (omega (arith, IsPlace-lt p)))
  press-Reached open_above e p m =
      valid_Reached _ (open_line-IsValid e.cursor_line e p (omega (arith, IsPlace-lt p)))
  press-Reached other e p m = (IsPlace-lt p, λ _. p)

  settle-Landed : (m : NoteMode) (e : NoteEditor) → e.mode ≡ m → Reached e → Landed (settle m e)
  settle-Landed normal e h p = clamped e p.0
  settle-Landed insert e h p = (p.1 h, λ k. ground arith)

  key_after-Lands :
      (pending : Option ℕ) (c : ℕ) (e : NoteEditor)
      → e.mode ≡ normal
      → IsValid e
      → OnChar e
      → Lands (key_after f pending c e)
  unfolding key_after line_len
  key_after-Lands (some first) c e m p o = chord-IsValid first c (record e { pending = none }) p o
  key_after-Lands none c e m p o =
      Returns-bind Reached Landed (press f (key_of c) e) _ (press-Reached (key_of c) e p m)
        (λ e' q. settle-Landed e'.mode e' refl q)

  -- Any key of normal mode returns. The cursor is then on a place of the note, and on a character
  -- of it if the editor is still in normal mode.
  pub normal_key-Lands :
      (c : ℕ) (e : NoteEditor)
      → e.mode ≡ normal
      → IsValid e
      → OnChar e
      → Returns (normal_key f c e) (λ e'. IsValid e' × OnChar e')
  normal_key-Lands c e m p o = key_after-Lands e.pending c e m p o
