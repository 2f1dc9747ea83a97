-- ===== src/WorkingTree/Status.antt =====
-- src/tui/wt_tree.rs: the status pairs, the file icons, and the parser of `git status -z`.
use gwm_cli.Base.{
  ℕ, ◌+◌, Bool, true, false, ◌||◌, ◌&&◌, List, [], ◌∷◌, Option, none, some, ◌==◌, if◌then◌else◌,
  map, any, Text, codes, text_eq, within, split,
}
use gwm_cli.Naming.Display.{sanitise_for_terminal}

pub data WtCategory : Type 0 where
  created modified deleted : WtCategory

unfoldable pub working_tree_category : ℕ → ℕ → WtCategory
working_tree_category x y =
    if (x == b'?' && y == b'?') || x == b'A' || y == b'A'
    then created
    else if x == b'D' || y == b'D'
    then deleted
    else modified

unfoldable pub status_badge : ℕ → ℕ → ℕ
status_badge x y =
    if x == b'?' && y == b'?'
    then b'?'
    else if x == b'A' || y == b'A'
    then b'A'
    else if x == b'D' || y == b'D'
    then b'D'
    else b'M'

-- The text behind the last dot, if there is a dot.
unfoldable pub after_last_dot : Text → Option Text
after_last_dot [] = none
after_last_dot (c ∷ s) = elim (after_last_dot s) [
  | some ext ↦ some ext
  | none ↦ if c == b'.' then some s else none
]

-- `Path::extension` of one segment: a name that is `..`, or whose only dot is its first
-- character, has none.
unfoldable pub extension : Text → Option Text
extension [] = none
extension (c ∷ s) = if text_eq (c ∷ s) (codes "..") then none else after_last_dot s

unfoldable pub ascii_lower : ℕ → ℕ
ascii_lower c = if within b'A' b'Z' c then c + 32 else c

abbrev one_of : Text → List Text → Bool
one_of ext names = any (text_eq ext) names

unfoldable pub icon_of : Text → ℕ
icon_of ext =
    if one_of ext (codes "rs" ∷ [])
    then 0xe7a8
    else if one_of ext (codes "md" ∷ codes "markdown" ∷ [])
    then 0xf48a
    else if one_of ext (codes "toml" ∷ [])
    then 0xe615
    else if one_of ext (codes "json" ∷ [])
    then 0xe60b
    else if one_of ext (codes "js" ∷ codes "cjs" ∷ codes "mjs" ∷ [])
    then 0xe74e
    else if one_of ext (codes "ts" ∷ codes "tsx" ∷ [])
    then 0xe628
    else if one_of ext (codes "lock" ∷ [])
    then 0xf023
    else if one_of ext (codes "yml" ∷ codes "yaml" ∷ [])
    then 0xe6a8
    else if one_of ext (codes "sh" ∷ codes "bash" ∷ codes "zsh" ∷ [])
    then 0xf489
    else if one_of ext (codes "txt" ∷ [])
    then 0xf15c
    else 0xf15b

unfoldable pub or_empty : Option Text → Text
or_empty none = []
or_empty (some t) = t

unfoldable pub file_icon : Text → ℕ
file_icon name = icon_of (map ascii_lower (or_empty (extension name)))

-- The characters of Unicode's Bidi_Control property.
unfoldable pub sanitize_name : Text → Text
sanitize_name name = sanitise_for_terminal name

pub record StatusRecord : Type 0 where
  pub x : ℕ
  pub y : ℕ
  pub path : Text

-- One token: the pair, one separator, and a path that is not empty.
unfoldable pub record_of : Text → Option StatusRecord
record_of (x ∷ y ∷ _ ∷ c ∷ path) = some (record { x = x; y = y; path = c ∷ path })
record_of _ = none

-- A rename or a copy has its source in the next token.
unfoldable pub has_source : Option StatusRecord → Bool
has_source none = false
has_source (some r) = r.x == b'R' || r.x == b'C' || r.y == b'R' || r.y == b'C'

unfoldable pub push_record : Option StatusRecord → List StatusRecord → List StatusRecord
push_record none rest = rest
push_record (some r) rest = r ∷ rest

-- The flag tells that the next token is a source, to be skipped.
unfoldable pub parse_tokens : Bool → List Text → List StatusRecord
parse_tokens skip [] = []
parse_tokens true (t ∷ ts) = parse_tokens false ts
parse_tokens false (t ∷ ts) =
    let rest = parse_tokens (has_source (record_of t)) ts in push_record (record_of t) rest

unfoldable pub parse_status_z : Text → List StatusRecord
parse_status_z raw = parse_tokens false (split 0 raw)
