-- ===== src/NoteEditor/Laws/Editing.antt =====
-- Each edit returns, and leaves the cursor on a place of the note.
use gwm_cli.Base.{
  ℕ, ◌+◌, ◌-◌, ◌≤◌, ◌<◌, ◌≡◌, ◌∙◌, inl, inr, [], ◌++◌, none, some, arith, Text, ltb, Bool-cases,
  Option-cases, length, get_elem?, set, take, drop, erase_nth, put_at-set, insert_at-insert_nth,
  remove_at-erase_nth, length-insert_nth, length-erase_nth, length-set, get_elem?-insert_nth,
  get_elem?-erase_nth_lt, get_elem?-some, length-append, length-take, length-drop, Returns,
  is_whitespace, count_while, ltb→lt,
}
use gwm_cli.NoteEditor.Marker.{ListPrefix, continued, parse}
use gwm_cli.NoteEditor.State.{NoteEditor, byte_at, line_len, replace_range}
use gwm_cli.NoteEditor.Laws.Markers.{count_while-le, parse_bounds}
use gwm_cli.NoteEditor.Laws.Valid.{IsPlace, IsValid, IsPlace-lt, IsPlace-set, line_len-some}
use gwm_cli.NoteEditor.Edit.{
  insert_char, continuation_prefix, is_bare_marker, split_line, clear_line, newline, indent_of,
  moved_col, rewrite_marker, toggle_from, toggle_bullet, toggle_checkbox, join_above, remove_before,
  backspace, join_below, remove_under, delete_under, delete,
}

pub insert_char-IsValid : (c : ℕ) (e : NoteEditor) → IsValid e → Returns (insert_char c e) IsValid
unfolding insert_char
insert_char-IsValid c e p =
    rw
      (
        p.there,
        insert_at-insert_nth p.held (byte_at p.held e.cursor_col) c (omega arith),
        put_at-set e.lines e.cursor_line _ (IsPlace-lt p),
      )
      (IsPlace-set _ _ p
        (omega (arith, p.inside, length-insert_nth (byte_at p.held e.cursor_col) c p.held)))

pub continuation_prefix-some :
    (e : NoteEditor) (i : ℕ)
    → i < length e.lines
    → (prefix : Text) × (continuation_prefix e i ≡ some prefix)
unfolding continuation_prefix
continuation_prefix-some e i h =
    let (l, q) = get_elem?-some e.lines i h in
    (elim (parse l) [ some m ↦ take m.indent l ++ continued m.kind | none ↦ [] ], rw q)

split_line-IsValid : (e : NoteEditor) → IsValid e → Returns (split_line e) IsValid
unfolding split_line
split_line-IsValid e p =
    let (prefix, q) = continuation_prefix-some e e.cursor_line (IsPlace-lt p) in
    let at = byte_at p.held e.cursor_col in
    let lines = set e.lines e.cursor_line (take at p.held) in
    let fits : e.cursor_line + 1 ≤ length lines =
      omega (arith, IsPlace-lt p, length-set e.lines e.cursor_line (take at p.held)) in
    rw
      (
        q,
        p.there,
        put_at-set e.lines e.cursor_line (take at p.held) (IsPlace-lt p),
        insert_at-insert_nth lines (e.cursor_line + 1) (prefix ++ drop at p.held) fits,
      )
      (record {
        held = prefix ++ drop at p.held;
        there = get_elem?-insert_nth (e.cursor_line + 1) _ lines fits;
        inside = omega (arith, length-append prefix (drop at p.held));
      })

clear_line-IsValid : (e : NoteEditor) → IsValid e → Returns (clear_line e) IsValid
unfolding clear_line
clear_line-IsValid e p =
    rw (put_at-set e.lines e.cursor_line [] (IsPlace-lt p)) (IsPlace-set [] 0 p (omega arith))

pub newline-IsValid : (e : NoteEditor) → IsValid e → Returns (newline e) IsValid
unfolding newline
newline-IsValid e p = elim (Bool-cases (is_bare_marker p.held)) [
  | inl b ↦ rw (p.there, b) (clear_line-IsValid e p)
  | inr b ↦ rw (p.there, b) (split_line-IsValid e p)
]

replace_range-some :
    (line : Text) (from to : ℕ) (marker : Text)
    → from ≤ to
    → to ≤ length line
    → replace_range line from to marker ≡ some (take from line ++ (marker ++ drop to line))
unfolding replace_range
replace_range-some line from to marker h k = ground arith

length-replaced :
    (line : Text) (from to : ℕ) (marker : Text)
    → from ≤ to
    → to ≤ length line
    → length (take from line ++ (marker ++ drop to line)) + to ≡ from + length marker + length line
length-replaced line from to marker h k = omega (
  arith,
  length-append (take from line) (marker ++ drop to line),
  length-append marker (drop to line),
  length-take from line (omega arith),
  length-drop to line,
)

rewrite_marker-IsValid :
    (indent old : ℕ) (marker : Text) (e : NoteEditor) (p : IsValid e)
    → indent ≤ old
    → old ≤ length p.held
    → Returns (rewrite_marker indent old marker e) IsValid
unfolding rewrite_marker moved_col
rewrite_marker-IsValid indent old marker e p h k =
    let n = take (byte_at p.held indent) p.held ++ (marker ++ drop (byte_at p.held old) p.held) in
    rw
      (
        p.there,
        replace_range-some p.held (byte_at p.held indent) (byte_at p.held old) marker (omega arith)
            (omega arith),
        put_at-set e.lines e.cursor_line n (IsPlace-lt p),
      )
      (IsPlace-set n (moved_col e.cursor_col old (indent + length marker)) p (
        ground (
          arith,
          p.inside,
          length-replaced p.held (byte_at p.held indent) (byte_at p.held old) marker,
        )))

pub indent_of-some :
    (e : NoteEditor) (p : IsValid e)
    → indent_of e e.cursor_line ≡ some (count_while is_whitespace p.held)
unfolding indent_of
indent_of-some e p = rw (p.there)

toggle_from-IsValid :
    (marked : ListPrefix → Text) (fresh : Text) (e : NoteEditor) (p : IsValid e)
    → Returns (toggle_from marked fresh (parse p.held) e) IsValid
unfolding toggle_from
toggle_from-IsValid marked fresh e p = elim (Option-cases (parse p.held)) [
  | inl h ↦
      rw (h, indent_of-some e p)
        (rewrite_marker-IsValid _ _ _ e p (omega arith) (count_while-le is_whitespace p.held))
  | inr (l, h) ↦
      rw h (rewrite_marker-IsValid _ _ _ e p (parse_bounds p.held h).0 (parse_bounds p.held h).1)
]

pub toggle_bullet-IsValid : (e : NoteEditor) → IsValid e → Returns (toggle_bullet e) IsValid
unfolding toggle_bullet
toggle_bullet-IsValid e p = rw (p.there) (toggle_from-IsValid _ _ e p)

pub toggle_checkbox-IsValid : (e : NoteEditor) → IsValid e → Returns (toggle_checkbox e) IsValid
unfolding toggle_checkbox
toggle_checkbox-IsValid e p = rw (p.there) (toggle_from-IsValid _ _ e p)

remove_before-IsValid :
    (e : NoteEditor) → IsValid e → 0 < e.cursor_col → Returns (remove_before e) IsValid
unfolding remove_before
remove_before-IsValid e p h =
    let at = byte_at p.held (e.cursor_col - 1) in
    let (c, q) = get_elem?-some p.held at (omega (arith, p.inside)) in
    rw
      (
        p.there,
        remove_at-erase_nth p.held at q,
        put_at-set e.lines e.cursor_line (erase_nth at p.held) (IsPlace-lt p),
      )
      (IsPlace-set (erase_nth at p.held) (e.cursor_col - 1) p
        (omega (arith, p.inside, length-erase_nth at p.held)))

join_above-IsValid :
    (e : NoteEditor) → IsValid e → 0 < e.cursor_line → Returns (join_above e) IsValid
unfolding join_above
join_above-IsValid e p h =
    let rest = erase_nth e.cursor_line e.lines in
    let (l, q) = get_elem?-some e.lines (e.cursor_line - 1) (omega (arith, IsPlace-lt p)) in
    let q' : get_elem? rest (e.cursor_line - 1) ≡ some l =
      get_elem?-erase_nth_lt e.cursor_line (e.cursor_line - 1) e.lines (omega arith) ∙ q in
    let r : IsPlace rest (e.cursor_line - 1) 0 = record {
      held = l;
      there = q';
      inside = omega arith;
    } in
    rw
      (
        remove_at-erase_nth e.lines e.cursor_line p.there,
        q',
        put_at-set rest (e.cursor_line - 1) (l ++ p.held) (IsPlace-lt r),
        line_len-some (record e { lines = rest; cursor_line = e.cursor_line - 1 })
            (e.cursor_line - 1) q',
      )
      (IsPlace-set (l ++ p.held) (length l) r (omega (arith, length-append l p.held)))

pub backspace-IsValid : (e : NoteEditor) → IsValid e → Returns (backspace e) IsValid
unfolding backspace
backspace-IsValid e p = elim (Bool-cases (ltb 0 e.cursor_col)) [
  | inl c ↦ rw c (remove_before-IsValid e p (ltb→lt _ _ c))
  | inr c ↦ elim (Bool-cases (ltb 0 e.cursor_line)) [
    | inl l ↦ rw (c, l) (join_above-IsValid e p (ltb→lt _ _ l))
    | inr l ↦ rw (c, l) p
  ]
]

remove_under-IsValid :
    (e : NoteEditor) (p : IsValid e)
    → e.cursor_col < length p.held
    → Returns (remove_under e) IsValid
unfolding remove_under
remove_under-IsValid e p h =
    let at = byte_at p.held e.cursor_col in
    let (c, q) = get_elem?-some p.held at (omega arith) in
    rw
      (
        p.there,
        remove_at-erase_nth p.held at q,
        put_at-set e.lines e.cursor_line (erase_nth at p.held) (IsPlace-lt p),
      )
      (IsPlace-set (erase_nth at p.held) e.cursor_col p (omega (arith, length-erase_nth at p.held)))

pub delete_under-IsValid : (e : NoteEditor) → IsValid e → Returns (delete_under e) IsValid
unfolding delete_under
delete_under-IsValid e p = elim (Bool-cases (ltb e.cursor_col (line_len e e.cursor_line))) [
  | inl c ↦ rw c (
      remove_under-IsValid e p (omega (arith, ltb→lt _ _ c, line_len-some e e.cursor_line p.there)))
  | inr c ↦ rw c p
]

join_below-IsValid :
    (e : NoteEditor)
    → IsValid e
    → e.cursor_line + 1 < length e.lines
    → Returns (join_below e) IsValid
unfolding join_below
join_below-IsValid e p h =
    let (tail, q) = get_elem?-some e.lines (e.cursor_line + 1) h in
    let rest = erase_nth (e.cursor_line + 1) e.lines in
    let r : IsPlace rest e.cursor_line e.cursor_col = record {
      held = p.held;
      there =
          get_elem?-erase_nth_lt (e.cursor_line + 1) e.cursor_line e.lines (omega arith) ∙ p.there;
      inside = p.inside;
    } in
    rw
      (
        remove_at-erase_nth e.lines (e.cursor_line + 1) q,
        r.there,
        put_at-set rest e.cursor_line (p.held ++ tail) (IsPlace-lt r),
      )
      (IsPlace-set (p.held ++ tail) e.cursor_col r
        (omega (arith, p.inside, length-append p.held tail)))

pub delete-IsValid : (e : NoteEditor) → IsValid e → Returns (delete e) IsValid
unfolding delete
delete-IsValid e p = elim (Bool-cases (ltb e.cursor_col (line_len e e.cursor_line))) [
  | inl c ↦ rw c (delete_under-IsValid e p)
  | inr c ↦ elim (Bool-cases (ltb (e.cursor_line + 1) (length e.lines))) [
    | inl l ↦ rw (c, l) (join_below-IsValid e p (ltb→lt _ _ l))
    | inr l ↦ rw (c, l) p
  ]
]
