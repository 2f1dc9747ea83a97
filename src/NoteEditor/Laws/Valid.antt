-- ===== src/NoteEditor/Laws/Valid.antt =====
-- The cursor stays on a line of the note and within it: no operation panics or loses it.
use gwm_cli.Base.{
  ℕ, ◌-◌, ◌≤◌, ◌<◌, ◌≡◌, ◌≢◌, refl, List, [], ◌∷◌, some, arith, Text, length, get_elem?, set,
  get_elem?-set_self, get_elem?-some, lt_of_get_elem?, Returns, split, split-ne-nil,
}
use gwm_cli.NoteEditor.State.{NoteEditor, open_note, byte_at, line_len}

-- Column `col` of line `line` is a place of the cursor.
pub record IsPlace (lines : List Text) (line col : ℕ) : Type 0 where
  pub held : Text
  pub there : get_elem? lines line ≡ some held
  pub inside : col ≤ length held

abbrev pub IsValid : NoteEditor → Type 0
IsValid e = IsPlace e.lines e.cursor_line e.cursor_col

pub IsPlace-lt : {lines : List Text} {line col : ℕ} → IsPlace lines line col → line < length lines
IsPlace-lt {lines} {line} p = lt_of_get_elem? lines line p.there

pub line_len-some :
    (e : NoteEditor) (i : ℕ) {l : Text} → get_elem? e.lines i ≡ some l → line_len e i ≡ length l
unfolding line_len
line_len-some e i h = rw (h, line_len)

-- Any line of the note, with a column up to its length.
pub IsPlace-line_len :
    (e : NoteEditor) (i col : ℕ) → i < length e.lines → col ≤ line_len e i → IsPlace e.lines i col
IsPlace-line_len e i col h k =
    let (l, p) = get_elem?-some e.lines i h in
    record { held = l; there = p; inside = omega (arith, line_len-some e i p) }

-- The current line is replaced by `v`.
pub IsPlace-set :
    {lines : List Text} {line col : ℕ} (v : Text) (col' : ℕ)
    → IsPlace lines line col
    → col' ≤ length v
    → IsPlace (set lines line v) line col'
IsPlace-set {lines} {line} v col' p h = record {
  held = v;
  there = get_elem?-set_self lines line v (IsPlace-lt p);
  inside = h;
}

pub byte_at-inside : (l : Text) (col : ℕ) → col ≤ length l → byte_at l col ≡ col
byte_at-inside l col h = omega arith

last_place :
    (lines : List Text) → lines ≢ [] → (l : Text) × (get_elem? lines (length lines - 1) ≡ some l)
last_place [] h = absurd (h refl)
last_place (x ∷ xs) h = get_elem?-some (x ∷ xs) (length (x ∷ xs) - 1) (omega arith)

pub open_note-IsValid : (branch path text : Text) → Returns (open_note branch path text) IsValid
unfolding open_note
open_note-IsValid branch path text =
    let (l, e) = last_place (split b'\n' text) (split-ne-nil b'\n' text) in
    rw e (record { held = l; there = e; inside = omega arith })
