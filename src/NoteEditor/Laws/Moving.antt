-- ===== src/NoteEditor/Laws/Moving.antt =====
-- Each motion leaves the cursor on a place of the note.
use gwm_cli.Base.{
  ℕ, zero, suc, ◌+◌, ◌-◌, ◌≤◌, ◌<◌, ◌≡◌, refl, ap, inl, inr, Bool, List, [], ◌∷◌, some, arith, Text,
  ltb, Bool-cases, length, get_elem?, drop, get_elem?-some, lt_of_get_elem?, length-drop,
  get_elem?-of_drop, Returns, Returns-imp, Returns-bind, is_empty, ◌>>=◌, ltb→lt,
}
use gwm_cli.NoteEditor.State.{NoteEditor, line_len}
use gwm_cli.NoteEditor.Edit.{left, right, to_line, up, down, home, end_of_line, page_up, page_down}
use gwm_cli.NoteEditor.Words.{
  CharClass, blank, same_class, class_of, run_length, leave_word, seek_forward, word_forward,
  run_start, seek_backward, word_backward, seek_end, word_end, Place,
}
use gwm_cli.NoteEditor.Laws.Valid.{IsPlace, IsValid, IsPlace-lt, IsPlace-line_len}

pub left-IsValid : (e : NoteEditor) → IsValid e → IsValid (left e)
unfolding left
left-IsValid e p = elim (Bool-cases (ltb 0 e.cursor_col)) [
  | inl c ↦ rw c (record { held = p.held; there = p.there; inside = omega (arith, p.inside) })
  | inr c ↦ elim (Bool-cases (ltb 0 e.cursor_line)) [
    | inl l ↦
        rw (c, l)
          (IsPlace-line_len e (e.cursor_line - 1) _ (omega (arith, IsPlace-lt p)) (omega arith))
    | inr l ↦ rw (c, l) p
  ]
]

pub right-IsValid : (e : NoteEditor) → IsValid e → IsValid (right e)
unfolding right
right-IsValid e p = elim (Bool-cases (ltb e.cursor_col (line_len e e.cursor_line))) [
  | inl c ↦ rw c (IsPlace-line_len e e.cursor_line _ (IsPlace-lt p) (omega (arith, ltb→lt _ _ c)))
  | inr c ↦ elim (Bool-cases (ltb (e.cursor_line + 1) (length e.lines))) [
    | inl l ↦ rw (c, l) (IsPlace-line_len e (e.cursor_line + 1) 0 (ltb→lt _ _ l) (omega arith))
    | inr l ↦ rw (c, l) p
  ]
]

pub to_line-IsValid : (line : ℕ) (e : NoteEditor) → line < length e.lines → IsValid (to_line line e)
unfolding to_line
to_line-IsValid line e h = IsPlace-line_len e line _ h (omega arith)

pub up-IsValid : (e : NoteEditor) → IsValid e → IsValid (up e)
unfolding up
up-IsValid e p = elim (Bool-cases (ltb 0 e.cursor_line)) [
  | inl l ↦ rw l (to_line-IsValid (e.cursor_line - 1) e (omega (arith, IsPlace-lt p)))
  | inr l ↦ rw l p
]

pub down-IsValid : (e : NoteEditor) → IsValid e → IsValid (down e)
unfolding down
down-IsValid e p = elim (Bool-cases (ltb (e.cursor_line + 1) (length e.lines))) [
  | inl l ↦ rw l (to_line-IsValid (e.cursor_line + 1) e (ltb→lt _ _ l))
  | inr l ↦ rw l p
]

pub IsPlace-col :
    (e : NoteEditor) (col : ℕ) (p : IsValid e)
    → col ≤ length p.held
    → IsPlace e.lines e.cursor_line col
IsPlace-col e col p h = record { held = p.held; there = p.there; inside = h }

pub home-IsValid : (e : NoteEditor) → IsValid e → IsValid (home e)
unfolding home
home-IsValid e p = IsPlace-col e 0 p (omega arith)

pub end_of_line-IsValid : (e : NoteEditor) → IsValid e → IsValid (end_of_line e)
unfolding end_of_line
end_of_line-IsValid e p = IsPlace-line_len e e.cursor_line _ (IsPlace-lt p) (omega arith)

pub page_up-IsValid : (height : ℕ) (e : NoteEditor) → IsValid e → IsValid (page_up height e)
unfolding page_up
page_up-IsValid height e p = to_line-IsValid _ e (omega (arith, IsPlace-lt p))

pub page_down-IsValid : (height : ℕ) (e : NoteEditor) → IsValid e → IsValid (page_down height e)
unfolding page_down
page_down-IsValid height e p = to_line-IsValid _ e (omega (arith, IsPlace-lt p))

module _ (f : ℕ → Bool) (big : Bool) where
  run_length-le : (from : CharClass) (s : Text) → run_length f big from s ≤ length s
  unfolding run_length
  run_length-le from [] = omega arith
  run_length-le from (c ∷ cs) = ground (arith, run_length-le from cs)

  leave_word-le : (s : Text) → leave_word f big s ≤ length s
  unfolding leave_word
  leave_word-le [] = omega arith
  leave_word-le (c ∷ cs) = ground (arith, run_length-le (class_of f c big) (c ∷ cs))

  module _ (lines : List Text) where
    abbrev In : Place → Type 0
    In p = IsPlace lines p.0 p.1

    seek_forward-In :
        (below : List Text) (left : Text) (line col : ℕ) (chars : Text)
        → get_elem? lines line ≡ some chars
        → drop col chars ≡ left
        → col ≤ length chars
        → drop (suc line) lines ≡ below
        → In (seek_forward f big line col left (length chars) below)
    unfolding seek_forward
    seek_forward-In below (c ∷ cs) line col chars t l h b =
        let q = get_elem?-of_drop col chars l in
        let inside : suc col ≤ length chars = lt_of_get_elem? chars col q.0 in
        elim (Bool-cases (same_class (class_of f c big) blank)) [
          | inl s ↦ rw s (seek_forward-In below cs line (suc col) chars t q.1 inside b)
          | inr s ↦ rw s (record { held = chars; there = t; inside = h })
        ]
    seek_forward-In [] [] line col chars t l h b = record {
      held = chars;
      there = t;
      inside = omega arith;
    }
    seek_forward-In ([] ∷ below) [] line col chars t l h b = record {
      held = [];
      there = (get_elem?-of_drop (suc line) lines b).0;
      inside = omega arith;
    }
    seek_forward-In ((c ∷ cs) ∷ below) [] line col chars t l h b =
        let q = get_elem?-of_drop (suc line) lines b in
        elim (Bool-cases (same_class (class_of f c big) blank)) [
          | inl s ↦ rw s (seek_forward-In below cs (suc line) 1 (c ∷ cs) q.0 refl (omega arith) q.1)
          | inr s ↦ rw s (record { held = c ∷ cs; there = q.0; inside = omega arith })
        ]

    seek_end-In :
        (below : List Text) (left : Text) (line col : ℕ) (chars : Text)
        → get_elem? lines line ≡ some chars
        → drop col chars ≡ left
        → drop (suc line) lines ≡ below
        → In (seek_end f big line col left (length chars) below)
    unfolding seek_end
    seek_end-In below (c ∷ cs) line col chars t l b =
        let q = get_elem?-of_drop col chars l in
        elim (Bool-cases (same_class (class_of f c big) blank)) [
          | inl s ↦ rw s (seek_end-In below cs line (suc col) chars t q.1 b)
          | inr s ↦ rw s (record {
            held = chars;
            there = t;
            inside = omega (
              arith,
              run_length-le (class_of f c big) cs,
              lt_of_get_elem? chars col q.0,
              ap length q.1,
              length-drop (suc col) chars,
            );
          })
        ]
    seek_end-In [] [] line col chars t l b = record {
      held = chars;
      there = t;
      inside = omega arith;
    }
    seek_end-In ([] ∷ below) [] line col chars t l b =
        let q = get_elem?-of_drop (suc line) lines b in
        seek_end-In below [] (suc line) 1 [] q.0 refl q.1
    seek_end-In ((c ∷ cs) ∷ below) [] line col chars t l b =
        let q = get_elem?-of_drop (suc line) lines b in
        elim (Bool-cases (same_class (class_of f c big) blank)) [
          | inl s ↦ rw s (seek_end-In below cs (suc line) 1 (c ∷ cs) q.0 refl q.1)
          | inr s ↦ rw s (record {
            held = c ∷ cs;
            there = q.0;
            inside = omega (arith, run_length-le (class_of f c big) cs);
          })
        ]

    run_start_bounds :
        (from : CharClass) (chars : Text) (col : ℕ)
        → col ≤ length chars
        → Returns (run_start f big from chars col) (λ s. s ≤ col)
    unfolding run_start
    run_start_bounds from chars zero h = omega arith
    run_start_bounds from chars (suc col) h =
        let (c, q) = get_elem?-some chars col h in
        elim (Bool-cases (same_class (class_of f c big) from)) [
          | inl s ↦
              rw (q, s)
                (Returns-imp (λ x. x ≤ col) (λ x. x ≤ suc col) _
                  (run_start_bounds from chars col (omega arith)) (λ a k. omega arith))
          | inr s ↦ rw (q, s) (omega arith)
        ]

    start-In :
        (line col : ℕ) (from : CharClass) (chars : Text)
        → get_elem? lines line ≡ some chars
        → col ≤ length chars
        → Returns (run_start f big from chars col >>= λ start. some (line, start)) In
    start-In line col from chars t h =
        Returns-bind (λ s. s ≤ col) In (run_start f big from chars col) _
          (run_start_bounds from chars col h)
          (λ start k. record { held = chars; there = t; inside = omega arith })

    stop_or_on :
        (line col : ℕ) (chars : Text)
        → get_elem? lines line ≡ some chars
        → suc col ≤ length chars
        → Returns (seek_backward f big lines line col chars) In
        → Returns (seek_backward f big lines line (suc col) chars) In
    unfolding seek_backward
    stop_or_on zero col chars t h r =
        let (c, q) = get_elem?-some chars col h in
        elim (Bool-cases (same_class (class_of f c big) blank)) [
          | inl s ↦ rw (q, s) r
          | inr s ↦ rw (q, s) (start-In zero col (class_of f c big) chars t (omega arith))
        ]
    stop_or_on (suc line) col chars t h r =
        let (c, q) = get_elem?-some chars col h in
        elim (Bool-cases (same_class (class_of f c big) blank)) [
          | inl s ↦ rw (q, s) r
          | inr s ↦ rw (q, s) (start-In (suc line) col (class_of f c big) chars t (omega arith))
        ]

    seek_backward-In :
        (line col : ℕ) (chars : Text)
        → get_elem? lines line ≡ some chars
        → col ≤ length chars
        → Returns (seek_backward f big lines line col chars) In
    unfolding seek_backward
    seek_backward-In zero zero chars t h = record { held = chars; there = t; inside = h }
    seek_backward-In (suc line) zero chars t h =
        let (above, q) =
          get_elem?-some lines line (omega (arith, lt_of_get_elem? lines (suc line) t)) in
        elim (Bool-cases (is_empty above)) [
          | inl s ↦ rw (q, s) (record { held = above; there = q; inside = omega arith })
          | inr s ↦ rw (q, s) (seek_backward-In line (length above) above q (omega arith))
        ]
    seek_backward-In zero (suc col) chars t h =
        stop_or_on zero col chars t h (seek_backward-In zero col chars t (omega arith))
    seek_backward-In (suc line) (suc col) chars t h =
        stop_or_on (suc line) col chars t h (seek_backward-In (suc line) col chars t (omega arith))

  pub word_forward-IsValid : (e : NoteEditor) → IsValid e → Returns (word_forward f big e) IsValid
  unfolding word_forward
  word_forward-IsValid e p = rw (p.there) (
      seek_forward-In e.lines _ _ e.cursor_line _ p.held p.there refl
        (omega (
          arith,
          p.inside,
          leave_word-le (drop e.cursor_col p.held),
          length-drop e.cursor_col p.held,
        ))
        refl)

  pub word_backward-IsValid : (e : NoteEditor) → IsValid e → Returns (word_backward f big e) IsValid
  unfolding word_backward
  word_backward-IsValid e p = rw (p.there) (
      Returns-bind (In e.lines) IsValid
        (seek_backward f big e.lines e.cursor_line e.cursor_col p.held) _
        (seek_backward-In e.lines e.cursor_line e.cursor_col p.held p.there p.inside)
        (λ place k. k))

  pub word_end-IsValid : (e : NoteEditor) → IsValid e → Returns (word_end f big e) IsValid
  unfolding word_end
  word_end-IsValid e p =
      rw (p.there)
        (seek_end-In e.lines _ _ e.cursor_line (suc e.cursor_col) p.held p.there refl refl)
