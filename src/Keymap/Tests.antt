-- ===== src/Keymap/Tests.antt =====
-- The keymap at small configurations.
use native.Mathlib.Decide.{ℕ_discrete}
use gwm_cli.Base.{
  ◌≡◌, refl, true, false, not, ◌&&◌, List, [], ◌∷◌, none, codes, Text, if◌then◌else◌,
  is_discrete_eq, is_whitespace,
}
use gwm_cli.Keymap.Actions.{top, down, up, Action-discrete, action_eq}
use gwm_cli.Keymap.Strokes.{
  KeyCode, char, f, no_modifiers, KeyStroke, KeyStroke-discrete, new_stroke, normalize, sanitize,
}
use gwm_cli.Keymap.Bindings.{
  Chord, Keymap, built_in, stroke_eq, chord_eq, starts_with, chord_in, has_empty, first_empty,
  all_chords, clash, clash_with, first_clash, validate, unclaimed, candidate_entry, candidate,
  apply_override,
}
use gwm_cli.Keymap.Parsing.{parsed, parse_chord, format_chord}
use gwm_cli.Keymap.Loading.{TomlValue, array, string, resolved_keymap}
use gwm_cli.Keymap.Dispatch.{KeyEvent, from_event, KeyApp}
use gwm_cli.Keymap.Laws.Unambiguous.{is_bound, Valid}
use gwm_cli.Keymap.Laws.Resolving.{press_all, last_fires, Fired, press_all-bound}
use gwm_cli.Keymap.Laws.Replacing.{Loaded}
use gwm_cli.Keymap.Laws.Overriding.{apply_override-bound}
use gwm_cli.Keymap.Laws.Spelling.{has_spelling}
use gwm_cli.Keymap.Laws.Chords.{parse_chord-format_chord}
use gwm_cli.Keymap.Laws.Loading.{count-all_once, With, resolved_keymap-Loaded}

abbrev key : KeyCode → KeyStroke
key k = record { code = k; modifiers = no_modifiers }

abbrev typed : KeyCode → KeyEvent
typed k = record { code = k; modifiers = no_modifiers }

abbrev small : Keymap
small = record {
  entries =
      record {
        action = top;
        chords = (key (char b'g') ∷ key (char b'g') ∷ []) ∷ [];
        source = built_in;
      }
      ∷ record { action = down; chords = (key (char b'j') ∷ []) ∷ []; source = built_in }
      ∷ [];
}

small-Valid : Valid small
unfolding validate first_empty has_empty first_clash clash_with clash all_chords chord_eq
    starts_with stroke_eq action_eq Action-discrete is_discrete_eq KeyStroke-discrete ℕ_discrete
small-Valid = refl

small-Loaded : Loaded small
unfolding action_eq Action-discrete is_discrete_eq
small-Loaded = record { valid = small-Valid; once = λ a. count-all_once a small.entries refl }

abbrev app : KeyApp
app = record { keymap = small; pending_chord = []; pending_g = false }

press_all-bound_example :
    Fired small
      (last_fires top (typed (char b'g') ∷ typed (char b'g') ∷ []))
      (press_all (typed (char b'g') ∷ typed (char b'g') ∷ []) app)
unfolding from_event new_stroke normalize sanitize action_eq Action-discrete is_discrete_eq chord_in
    chord_eq stroke_eq KeyStroke-discrete ℕ_discrete
press_all-bound_example =
    press_all-bound top (typed (char b'g') ∷ typed (char b'g') ∷ []) app small-Valid refl refl

abbrev claimed : List Chord
claimed = (key (char b'j') ∷ []) ∷ []

override_accepted : (apply_override small up claimed).1 ≡ none
unfolding apply_override candidate candidate_entry unclaimed chord_in validate first_empty has_empty
    first_clash clash_with clash all_chords chord_eq starts_with stroke_eq action_eq Action-discrete
    is_discrete_eq KeyStroke-discrete ℕ_discrete
override_accepted = refl

apply_override-bound_example :
    is_bound (key (char b'j') ∷ []) down (apply_override small up claimed).0.entries ≡ (
      if action_eq up down
      then chord_in (key (char b'j') ∷ []) claimed
      else is_bound (key (char b'j') ∷ []) down small.entries
        && not (chord_in (key (char b'j') ∷ []) claimed))
apply_override-bound_example =
    apply_override-bound small up claimed small-Loaded override_accepted (key (char b'j') ∷ []) down

abbrev ctrl_x_f12 : Chord
ctrl_x_f12 =
    record { code = char b'x'; modifiers = record no_modifiers { control = true } }
    ∷ key (f 12)
    ∷ []

parse_chord-format_chord_example : parse_chord (format_chord ctrl_x_f12) ≡ parsed ctrl_x_f12
unfolding has_spelling is_whitespace
parse_chord-format_chord_example = parse_chord-format_chord ctrl_x_f12 (λ e. cc) refl

abbrev table : List (Text × TomlValue)
table =
    (codes "down", array (string (codes "Ctrl+n") ∷ []))
    ∷ (codes "git_tui_overlay", array (string (codes "l l") ∷ []))
    ∷ []

resolved_keymap-Loaded_example : With Loaded (resolved_keymap table)
resolved_keymap-Loaded_example = resolved_keymap-Loaded table
