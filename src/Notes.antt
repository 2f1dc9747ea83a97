-- ===== src/Notes.antt =====
-- src/notes.rs: the file of a branch's note, as the components of its path below the notes
-- directory, and the branch of a file. The reserved names are those of src/naming.rs.
pub mod Laws
mod Tests
use gwm_cli.Base.{
  ℕ, ◌+◌, ◌-◌, Bool, true, false, not, ◌&&◌, ◌||◌, List, [], ◌∷◌, ◌++◌, Option, none, some,
  if◌then◌else◌, ◌==◌, leb, any, all, is_empty, length, take, drop, Text, text_eq, codes, split,
  join, within, is_control,
}

abbrev pub lower : ℕ → ℕ
lower c = if within b'A' b'Z' c then c + 32 else c

abbrev pub to_ascii_lowercase : Text → Text
to_ascii_lowercase [] = []
to_ascii_lowercase (c ∷ s) = lower c ∷ to_ascii_lowercase s

abbrev pub note_ext : Text
note_ext = codes ".md"

unfoldable pub ends_with : Text → Text → Bool
ends_with s suffix =
    leb (length suffix) (length s) && text_eq (drop (length s - length suffix) s) suffix

unfoldable pub strip_suffix : Text → Text → Option Text
strip_suffix s suffix =
    if ends_with s suffix then some (take (length s - length suffix) s) else none

abbrev pub reserved_stems : List Text
reserved_stems =
    codes "CON"
    ∷ codes "PRN"
    ∷ codes "AUX"
    ∷ codes "NUL"
    ∷ codes "COM1"
    ∷ codes "COM2"
    ∷ codes "COM3"
    ∷ codes "COM4"
    ∷ codes "COM5"
    ∷ codes "COM6"
    ∷ codes "COM7"
    ∷ codes "COM8"
    ∷ codes "COM9"
    ∷ codes "COM¹"
    ∷ codes "COM²"
    ∷ codes "COM³"
    ∷ codes "LPT1"
    ∷ codes "LPT2"
    ∷ codes "LPT3"
    ∷ codes "LPT4"
    ∷ codes "LPT5"
    ∷ codes "LPT6"
    ∷ codes "LPT7"
    ∷ codes "LPT8"
    ∷ codes "LPT9"
    ∷ codes "LPT¹"
    ∷ codes "LPT²"
    ∷ codes "LPT³"
    ∷ []

-- The text before the first dot.
unfoldable pub stem_of : Text → Text
stem_of segment = elim (split b'.' segment) [ [] ↦ segment | stem ∷ _ ↦ stem ]

unfoldable pub is_windows_reserved_segment : Text → Bool
is_windows_reserved_segment segment =
    any (λ r. text_eq (to_ascii_lowercase (stem_of segment)) (to_ascii_lowercase r)) reserved_stems

unfoldable pub is_forbidden : ℕ → Bool
is_forbidden c = is_control c || any (λ d. c == d) (codes "/\\:<>\"|?*")

unfoldable pub component_is_portable : Text → Bool
component_is_portable c =
    not (is_empty c || text_eq c (codes ".") || text_eq c (codes ".."))
    && not (ends_with c (codes ".") || ends_with c (codes " "))
    && not (any is_forbidden c)
    && not (is_windows_reserved_segment c)

-- `split_last` of a list with a last element: the parents, and the last one with the extension.
unfoldable pub parents_of : List Text → List Text
parents_of [] = []
parents_of (t ∷ []) = []
parents_of (t ∷ u ∷ ts) = t ∷ parents_of (u ∷ ts)

unfoldable pub with_ext : List Text → List Text
with_ext [] = []
with_ext (t ∷ []) = (t ++ note_ext) ∷ []
with_ext (t ∷ u ∷ ts) = t ∷ with_ext (u ∷ ts)

unfoldable pub is_note_named : Text → Bool
is_note_named t = ends_with (to_ascii_lowercase t) note_ext

unfoldable pub relative_path : Text → Option (List Text)
relative_path branch =
    let components = split b'/' branch in
    if is_empty components || not (all component_is_portable components)
    then none
    else if any is_note_named (parents_of components)
    then none
    else some (with_ext components)

-- A component of a path: a name that is Unicode, or anything else.
pub data Component : Type 0 where
  normal : Text → Component
  special : Component

unfoldable pub names_of : List Component → Option (List Text)
names_of [] = some []
names_of (special ∷ cs) = none
names_of (normal t ∷ cs) = elim (names_of cs) [ none ↦ none | some ts ↦ some (t ∷ ts) ]

-- The last name without its extension, which must leave something.
unfoldable pub without_ext : List Text → Option (List Text)
without_ext [] = none
without_ext (t ∷ []) = elim (strip_suffix t note_ext) [
  | none ↦ none
  | some stem ↦ (if is_empty stem then none else some (stem ∷ []))
]
without_ext (t ∷ u ∷ ts) = elim (without_ext (u ∷ ts)) [ none ↦ none | some rest ↦ some (t ∷ rest) ]

unfoldable pub branch_from_relative : List Component → Option Text
branch_from_relative cs = elim (names_of cs) [
  | none ↦ none
  | some ts ↦ elim (without_ext ts) [ none ↦ none | some parts ↦ some (join (codes "/") parts) ]
]
