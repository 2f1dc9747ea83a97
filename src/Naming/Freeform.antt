-- ===== src/Naming/Freeform.antt =====
-- src/naming.rs: a name that the user chose freely. libgit2's Branch::name_is_valid is a parameter.
use gwm_cli.Base.{
  ℕ, ◌+◌, Bool, false, not, ◌||◌, List, [], ◌∷◌, Option, none, some, if◌then◌else◌, ltb, ◌==◌, any,
  map, is_empty, split, Text, text_eq, codes,
}
use gwm_cli.CommandLog.{byte_len}
use gwm_cli.Notes.{ends_with, is_windows_reserved_segment}

abbrev pub max_dir_component_bytes : ℕ
max_dir_component_bytes = 255

abbrev pub git_ref_lock_suffix_bytes : ℕ
git_ref_lock_suffix_bytes = 5

-- Why a name is refused; a reason that quotes a part of the name has it.
pub data Reason : Type 0 where
  empty_name dot_part nul_byte leading_dash braces too_long last_too_long not_git : Reason
  windows_char : ℕ → Reason
  trailing_dot reserved_device : Text → Reason

abbrev pub windows_forbidden_chars : Text
windows_forbidden_chars = codes "<>\"|"

unfoldable pub starts_with_dash : Text → Bool
starts_with_dash [] = false
starts_with_dash (c ∷ s) = c == b'-'

unfoldable pub is_dot_part : Text → Bool
is_dot_part part = text_eq part (codes ".") || text_eq part (codes "..")

-- The part behind the last separator.
unfoldable pub last_part : List Text → Text
last_part [] = []
last_part (p ∷ []) = p
last_part (p ∷ q ∷ ps) = last_part (q ∷ ps)

unfoldable pub forbidden_char : Text → Option ℕ
forbidden_char [] = none
forbidden_char (c ∷ s) =
    if any (λ d. c == d) windows_forbidden_chars then some c else forbidden_char s

unfoldable pub segment_reason : Text → Option Reason
segment_reason segment =
    if ends_with segment (codes ".")
    then some (trailing_dot segment)
    else if is_windows_reserved_segment segment
    then some (reserved_device segment)
    else none

unfoldable pub segments_reason : List Text → Option Reason
segments_reason [] = none
segments_reason (s ∷ ss) =
    let rest = segments_reason ss in elim (segment_reason s) [ none ↦ rest | some r ↦ some r ]

abbrev pub windows_reason : Text → Option ℕ → Option Reason
windows_reason name none = segments_reason (split b'/' name)
windows_reason name (some c) = some (windows_char c)

-- `none` where the name is accepted.
unfoldable pub freeform : (Text → Bool) → Text → Option Reason
freeform name_is_valid name =
    if is_empty name
    then some empty_name
    else if any is_dot_part (split b'/' name)
    then some dot_part
    else if any (λ c. c == 0) name
    then some nul_byte
    else if starts_with_dash name
    then some leading_dash
    else if any (λ c. c == b'{') name || any (λ c. c == b'}') name
    then some braces
    else if ltb max_dir_component_bytes (byte_len name)
    then some too_long
    else if ltb max_dir_component_bytes
        (byte_len (last_part (split b'/' name)) + git_ref_lock_suffix_bytes)
    then some last_too_long
    else if not (name_is_valid name)
    then some not_git
    else windows_reason name (forbidden_char name)

-- The directory of a free-form name: `replace('/', "-")`.
unfoldable pub freeform_dirname : Text → Text
freeform_dirname name = map (λ c. if c == b'/' then b'-' else c) name
