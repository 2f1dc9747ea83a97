-- ===== src/Keymap/Loading.antt =====
-- src/config.rs: the keymap of a `[tui.keys]` table, from the defaults and one override for each
-- entry. An error is the data of its message; the table is the list of its entries, in order.
use gwm_cli.Base.{List, [], ◌∷◌, Option, none, some, Text, text_eq, codes, if◌then◌else◌}
use gwm_cli.Keymap.Actions.{Action, from_slug_compat}
use gwm_cli.Keymap.Bindings.{Chord, Keymap, KeymapError, apply_override}
use gwm_cli.Keymap.Parsing.{ParseError, parsed, error, panicked, parse_chord}
use gwm_cli.Keymap.Defaults.{defaults}

-- A value of the table: an array, of strings and of items of other types, or another type.
pub data TomlItem : Type 0 where
  string other_item : Text → TomlItem

pub data TomlValue : Type 0 where
  array : List TomlItem → TomlValue
  other_value : Text → TomlValue

pub data LoadError : Type 0 where
  not_a_string not_an_array : Text → Text → LoadError
  unknown_action : Text → LoadError
  bad_chord : Text → ParseError → LoadError
  refused : Text → KeymapError → LoadError

-- What a step of the loading gives: a value, an error, or a panic.
pub data Attempt (A : Type 0) : Type 0 where
  done : A → Attempt A
  failed : LoadError → Attempt A
  crashed : Attempt A

abbrev pub and_then : {A B : Type 0} → Attempt A → (A → Attempt B) → Attempt B
and_then (done a) g = g a
and_then (failed e) g = failed e
and_then crashed g = crashed

unfoldable pub as_chord_list : Text → List TomlItem → Attempt (List Text)
as_chord_list slug [] = done []
as_chord_list slug (other_item type ∷ items) = failed (not_a_string slug type)
as_chord_list slug (string s ∷ items) = and_then (as_chord_list slug items) (λ ss. done (s ∷ ss))

unfoldable pub chord_strings : Text → TomlValue → Attempt (List Text)
chord_strings slug (array items) = as_chord_list slug items
chord_strings slug (other_value type) = failed (not_an_array slug type)

unfoldable pub known_action : Text → Attempt Action
known_action slug = elim (from_slug_compat slug) [
  | some a ↦ done a
  | none ↦ failed (unknown_action slug)
]

unfoldable pub parse_chords : Text → List Text → Attempt (List Chord)
parse_chords slug [] = done []
parse_chords slug (s ∷ ss) = elim (parse_chord s) [
  | parsed c ↦ and_then (parse_chords slug ss) (λ cs. done (c ∷ cs))
  | error e ↦ failed (bad_chord slug e)
  | panicked ↦ crashed
]

unfoldable pub checked : Text → Keymap × Option KeymapError → Attempt Keymap
checked slug (m, none) = done m
checked slug (m, some e) = failed (refused slug e)

unfoldable pub apply_entry : Text → TomlValue → Keymap → Attempt Keymap
apply_entry slug value m = and_then (chord_strings slug value) (λ ss.
    and_then (known_action slug)
      (λ a. and_then (parse_chords slug ss) (λ cs. checked slug (apply_override m a cs))))

-- The sub-table of the modal keys is for another resolution.
unfoldable pub apply_entries : List (Text × TomlValue) → Keymap → Attempt Keymap
apply_entries [] m = done m
apply_entries ((slug, value) ∷ es) m =
    if text_eq slug (codes "modal")
    then apply_entries es m
    else and_then (apply_entry slug value m) (λ m'. apply_entries es m')

unfoldable pub resolved_keymap : List (Text × TomlValue) → Attempt Keymap
resolved_keymap raw = elim defaults [ none ↦ crashed | some m ↦ apply_entries raw m ]
