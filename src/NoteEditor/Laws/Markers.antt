-- ===== src/NoteEditor/Laws/Markers.antt =====
-- Where a list line's marker stands.
use gwm_cli.Base.{
  ℕ, suc, ◌+◌, ◌≤◌, ◌≡◌, refl, [], ◌∷◌, some, Bool, arith, Text, length, count_while, drop_while,
  is_whitespace, Option-cases, inl, inr,
}
use gwm_cli.NoteEditor.Marker.{
  ListPrefix, ListLine, box_kind, close_box, parse_marker, parse_body, parse,
}

count_while-add-drop_while :
    (p : ℕ → Bool) (s : Text) → count_while p s + length (drop_while p s) ≡ length s
count_while-add-drop_while p [] = refl
count_while-add-drop_while p (c ∷ s) = ground (arith, count_while-add-drop_while p s)

pub count_while-le : (p : ℕ → Bool) (s : Text) → count_while p s ≤ length s
count_while-le p s = ground (arith, count_while-add-drop_while p s)

close_box_bounds :
    (k : ListPrefix) (s : Text) {r : ListPrefix × ℕ} → close_box k s ≡ some r → r.1 ≤ length s + 4
unfolding close_box
close_box_bounds k [] h = ground arith
close_box_bounds k (c ∷ []) h = ground arith
close_box_bounds k (c ∷ d ∷ s) h = ground arith

parse_marker_bounds :
    (s : Text) {r : ListPrefix × ℕ} → parse_marker s ≡ some r → r.1 ≤ suc (length s)
unfolding parse_marker
parse_marker_bounds [] h = ground arith
parse_marker_bounds (c ∷ []) h = ground arith
parse_marker_bounds (c ∷ d ∷ []) h = ground arith
parse_marker_bounds (c ∷ d ∷ b ∷ s) h = elim (Option-cases (box_kind b)) [
  | inl e ↦ ground arith
  | inr (k, e) ↦ ground (arith, close_box_bounds k s)
]

parse_body_bounds :
    (n : ℕ) (s : Text) {l : ListLine}
    → parse_body n s ≡ some l
    → (n ≡ l.indent) × (l.indent ≤ l.width) × (l.width ≤ n + length s)
unfolding parse_body
parse_body_bounds n [] h = ground arith
parse_body_bounds n (c ∷ s) h = elim (Option-cases (parse_marker s)) [
  | inl e ↦ ground arith
  | inr (r, e) ↦ ground (arith, parse_marker_bounds s e)
]

-- The marker lies inside the line, behind its indentation.
pub parse_bounds :
    (line : Text) {l : ListLine}
    → parse line ≡ some l
    → (l.indent ≤ l.width) × (l.width ≤ length line)
unfolding parse
parse_bounds line h =
    let b = parse_body_bounds _ (drop_while is_whitespace line) h in
    (b.1, omega (arith, b.2, count_while-add-drop_while is_whitespace line))
