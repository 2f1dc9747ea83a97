-- ===== src/NoteEditor/Laws/Tasks.antt =====
-- The checkbox of a task line, toggled.
use native.Mathlib.Nat.{zero-add, suc-add}
use gwm_cli.Base.{
  ℕ, ◌+◌, ◌≡◌, refl, ap, true, false, some, arith, Text, [], ◌∷◌, ◌++◌, ◌>>=◌, length, get_elem?,
  set, take, drop, put_at-set, get_elem?-set_self, lt_of_get_elem?, ◌<◌, set-set, set_self, all,
  is_whitespace, count_while, drop_while, codes, leb, length-append, ◌==◌,
}
use gwm_cli.NoteEditor.Marker.{
  unchecked, checked, parse, parse_body, parse_marker, parse_box, box_kind, close_box,
}
use gwm_cli.NoteEditor.State.{NoteEditor, byte_at, replace_range}
use gwm_cli.NoteEditor.Edit.{toggle_checkbox, toggle_from, rewrite_marker, moved_col, next_box}

take-length : (xs ys : Text) → take (length xs) (xs ++ ys) ≡ xs
take-length [] ys = refl
take-length (x ∷ xs) ys = ap (◌∷◌ x) (take-length xs ys)

drop-length-add : (xs ys : Text) (n : ℕ) → drop (length xs + n) (xs ++ ys) ≡ drop n ys
drop-length-add [] ys n = rw zero-add
drop-length-add (x ∷ xs) ys n = rw suc-add (drop-length-add xs ys n)

module _ (ws : Text) (blank : all is_whitespace ws ≡ true) where
  count_while-indent :
      (ws : Text) (c : ℕ) (r : Text)
      → all is_whitespace ws ≡ true
      → is_whitespace c ≡ false
      → (count_while is_whitespace (ws ++ c ∷ r) ≡ length ws)
        × (drop_while is_whitespace (ws ++ c ∷ r) ≡ c ∷ r)
  count_while-indent [] c r h k = (rw k, rw k)
  count_while-indent (x ∷ ws) c r h k = ground (arith, count_while-indent ws c r)

  -- A task line, done or to do, whose indentation is `ws`.
  abbrev task : Text → Text → Text
  task box rest = ws ++ (box ++ rest)

  parse-task_unchecked :
      (rest : Text)
      → parse (task (codes "- [ ] ") rest)
        ≡ some (record { indent = length ws; kind = unchecked; width = length ws + 6 })
  unfolding parse parse_body is_whitespace parse_marker parse_box box_kind close_box
  parse-task_unchecked rest =
      let (n, d) =
        count_while-indent ws b'-' (b' ' ∷ b'[' ∷ b' ' ∷ b']' ∷ b' ' ∷ rest) blank refl in
      rw (n, d)

  parse-task-checked :
      (rest : Text)
      → parse (task (codes "- [x] ") rest)
        ≡ some (record { indent = length ws; kind = checked; width = length ws + 6 })
  unfolding parse parse_body is_whitespace parse_marker parse_box box_kind close_box
  parse-task-checked rest =
      let (n, d) =
        count_while-indent ws b'-' (b' ' ∷ b'[' ∷ b'x' ∷ b']' ∷ b' ' ∷ rest) blank refl in
      rw (n, d)

  -- The marker `old` of six characters in front of `rest` becomes `new`, of six too.
  replace_range-task :
      (old new rest : Text)
      → length old ≡ 6
      → replace_range
          (task old rest)
          (byte_at (task old rest) (length ws))
          (byte_at (task old rest) (length ws + 6))
          new
        ≡ some (ws ++ (new ++ drop 6 (old ++ rest)))
  unfolding replace_range
  replace_range-task old new rest h =
      let total = length-append ws (old ++ rest) in
      let part = length-append old rest in
      let from : byte_at (task old rest) (length ws) ≡ length ws = omega (arith, total) in
      let to : byte_at (task old rest) (length ws + 6) ≡ length ws + 6 =
        omega (arith, total, part) in
      let fits : leb (length ws + 6) (length (task old rest)) ≡ true =
        ground (arith, total, part) in
      let order : leb (length ws) (length ws + 6) ≡ true = ground arith in
      rw (from, to, order, fits, take-length ws (old ++ rest), drop-length-add ws (old ++ rest) 6)

  module _ (rest : Text) (e : NoteEditor) where
    abbrev with_task : Text → NoteEditor
    with_task box = record e { lines = set e.lines e.cursor_line (task box rest); dirty = true }

    rewrite_marker-task :
        (old new : Text)
        → length old ≡ 6
        → length new ≡ 6
        → drop 6 (old ++ rest) ≡ rest
        → get_elem? e.lines e.cursor_line ≡ some (task old rest)
        → e.cursor_line < length e.lines
        → rewrite_marker (length ws) (length ws + 6) new e ≡ some (with_task new)
    unfolding rewrite_marker moved_col
    rewrite_marker-task old new h k d t l =
        let same : ((length ws + length new) == (length ws + 6)) ≡ true = ground arith in
        rw (
          t,
          replace_range-task old new rest h,
          d,
          put_at-set e.lines e.cursor_line (task new rest) l,
          same,
        )

    -- A task to do becomes a done one: the box alone changes, and the cursor stays.
    pub toggle_checkbox_done :
        get_elem? e.lines e.cursor_line ≡ some (task (codes "- [ ] ") rest)
        → toggle_checkbox e ≡ some (with_task (codes "- [x] "))
    unfolding toggle_checkbox toggle_from next_box
    toggle_checkbox_done t =
        rw (t, parse-task_unchecked rest)
          (rewrite_marker-task (codes "- [ ] ") (codes "- [x] ") refl refl refl t
            (lt_of_get_elem? e.lines e.cursor_line t))

    toggle_checkbox_undone :
        get_elem? e.lines e.cursor_line ≡ some (task (codes "- [x] ") rest)
        → toggle_checkbox e ≡ some (with_task (codes "- [ ] "))
    unfolding toggle_checkbox toggle_from next_box
    toggle_checkbox_undone t =
        rw (t, parse-task-checked rest)
          (rewrite_marker-task (codes "- [x] ") (codes "- [ ] ") refl refl refl t
            (lt_of_get_elem? e.lines e.cursor_line t))

  -- Toggling a task twice gives back the note and the cursor; the first toggle marks it done,
  -- with the box as the only change.
  pub toggle_checkbox_twice :
      (rest : Text) (e : NoteEditor)
      → get_elem? e.lines e.cursor_line ≡ some (task (codes "- [ ] ") rest)
      → (toggle_checkbox e ≡ some (with_task rest e (codes "- [x] ")))
        × ((toggle_checkbox e >>= toggle_checkbox) ≡ some (record e { dirty = true }))
  toggle_checkbox_twice rest e t =
      let l = lt_of_get_elem? e.lines e.cursor_line t in
      let there = get_elem?-set_self e.lines e.cursor_line (task (codes "- [x] ") rest) l in
      (
        toggle_checkbox_done rest e t,
        rw (
          toggle_checkbox_done rest e t,
          toggle_checkbox_undone rest (with_task rest e (codes "- [x] ")) there,
          set-set e.cursor_line (task (codes "- [x] ") rest) (task (codes "- [ ] ") rest) e.lines,
          set_self e.cursor_line e.lines t,
        ),
      )
