-- ===== src/NoteEditor/Marker.antt =====
-- src/tui/state/note_editor.rs: `ListPrefix`, `ListLine` and its parser.
use gwm_cli.Base.{
  ℕ, ◌+◌, [], ◌∷◌, Option, none, some, ◌==◌, if◌then◌else◌, Text, ◌>>=◌, count_while, drop_while,
  is_whitespace, codes,
}

pub data ListPrefix : Type 0 where
  bullet unchecked checked : ListPrefix

pub record ListLine : Type 0 where
  pub indent : ℕ
  pub kind : ListPrefix
  pub width : ℕ

-- What a line that follows a list line starts with: a done task continues as one to do.
unfoldable pub continued : ListPrefix → Text
continued bullet = codes "- "
continued unchecked = codes "- [ ] "
continued checked = codes "- [ ] "

-- The character between the brackets.
unfoldable pub box_kind : ℕ → Option ListPrefix
box_kind c =
    if c == b' '
    then some unchecked
    else if c == b'x'
    then some checked
    else if c == b'X'
    then some checked
    else none

-- The closing bracket, and the blank behind it if anything is.
unfoldable pub close_box : ListPrefix → Text → Option (ListPrefix × ℕ)
close_box kind [] = none
close_box kind (c ∷ []) = if c == b']' then some (kind, 5) else none
close_box kind (c ∷ d ∷ _) = if c == b']' then if d == b' ' then some (kind, 6) else none else none

unfoldable pub parse_box : Text → Option (ListPrefix × ℕ)
unfolding box_kind close_box
parse_box [] = none
parse_box (c ∷ after) = do kind ← box_kind c; close_box kind after

-- What stands behind the dash. `" ["` commits to a box: a bad one is no marker at all.
unfoldable pub parse_marker : Text → Option (ListPrefix × ℕ)
unfolding parse_box
parse_marker [] = some (bullet, 1)
parse_marker (c ∷ []) = if c == b' ' then some (bullet, 2) else none
parse_marker (c ∷ d ∷ after) =
    if c == b' ' then if d == b'[' then parse_box after else some (bullet, 2) else none

unfoldable pub parse_body : ℕ → Text → Option ListLine
unfolding parse_marker
parse_body indent [] = none
parse_body indent (c ∷ rest) =
    if c == b'-'
    then elim (parse_marker rest) [
      | none ↦ none
      | some (kind, marker) ↦
          some (record { indent = indent; kind = kind; width = indent + marker })
    ]
    else none

unfoldable pub parse : Text → Option ListLine
unfolding parse_body is_whitespace
parse line = parse_body (count_while is_whitespace line) (drop_while is_whitespace line)
