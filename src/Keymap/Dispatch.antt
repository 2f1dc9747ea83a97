-- ===== src/Keymap/Dispatch.antt =====
-- src/tui/keymap.rs (lookup) and src/tui/app.rs (dispatch_key, modal_toggle_stroke): a stroke is
-- resolved behind the strokes already pending. `KeyApp` is the part of `App` that this reads.
use gwm_cli.Base.{
  Bool, false, ◌&&◌, ◌||◌, List, [], ◌∷◌, ◌++◌, Option, none, some, any, is_empty, length, ltb,
  if◌then◌else◌,
}
use gwm_cli.Keymap.Actions.{Action}
use gwm_cli.Keymap.Strokes.{KeyCode, char, KeyModifiers, no_modifiers, KeyStroke, new_stroke}
use gwm_cli.Keymap.Bindings.{Chord, Binding, Keymap, stroke_eq, chord_eq, starts_with, chords_for}

pub data ChordResolution : Type 0 where
  matched : Action → ChordResolution
  pending_prefix no_match : ChordResolution

abbrev pub is_longer : Chord → Chord → Bool
is_longer keys c = ltb (length keys) (length c) && starts_with c keys

-- The inner loop: `none` when a chord is the buffer, or the flag `pending` behind the loop.
unfoldable pub scan_chords : Chord → List Chord → Bool → Option Bool
scan_chords keys [] pending = some pending
scan_chords keys (c ∷ cs) pending =
    if chord_eq c keys then none else scan_chords keys cs (pending || is_longer keys c)

unfoldable pub scan_entries : Chord → List Binding → Bool → ChordResolution
scan_entries keys [] pending = if pending then pending_prefix else no_match
scan_entries keys (b ∷ bs) pending = elim (scan_chords keys b.chords pending) [
  | none ↦ matched b.action
  | some p ↦ scan_entries keys bs p
]

unfoldable pub lookup : Keymap → Chord → ChordResolution
lookup m keys = scan_entries keys m.entries false

pub record KeyEvent : Type 0 where
  pub code : KeyCode
  pub modifiers : KeyModifiers

unfoldable pub from_event : KeyEvent → KeyStroke
from_event ev = new_stroke ev.code ev.modifiers

pub record KeyApp : Type 0 where
  pub keymap : Keymap
  pub pending_chord : Chord
  pub pending_g : Bool

abbrev is_g : Chord → Bool
is_g (k ∷ []) = stroke_eq k (new_stroke (char b'g') no_modifiers)
is_g _ = false

unfoldable pub sync_legacy_pending_flag : KeyApp → KeyApp
unfolding stroke_eq new_stroke
sync_legacy_pending_flag a = record a { pending_g = is_g a.pending_chord }

-- The stroke alone, behind a buffer that it does not continue.
unfoldable pub retry : KeyStroke → KeyApp → KeyApp × Option Action
retry stroke a = elim (lookup a.keymap (stroke ∷ [])) [
  | matched action ↦ (record a { pending_chord = [] }, some action)
  | pending_prefix ↦ (record a { pending_chord = stroke ∷ [] }, none)
  | no_match ↦ (record a { pending_chord = [] }, none)
]

unfoldable pub resolve_stroke : KeyStroke → KeyApp → KeyApp × Option Action
resolve_stroke stroke a = elim (lookup a.keymap (a.pending_chord ++ (stroke ∷ []))) [
  | matched action ↦ (record a { pending_chord = [] }, some action)
  | pending_prefix ↦ (record a { pending_chord = a.pending_chord ++ (stroke ∷ []) }, none)
  | no_match ↦ (if is_empty a.pending_chord then (a, none) else retry stroke a)
]

unfoldable pub dispatch_key : KeyEvent → KeyApp → KeyApp × Option Action
dispatch_key ev a =
    let done = resolve_stroke (from_event ev) a in (sync_legacy_pending_flag done.0, done.1)

pub data ToggleStroke : Type 0 where
  fired pending unclaimed : ToggleStroke

unfoldable pub resolve_toggle_buffer : Action → Chord → KeyApp → KeyApp × ToggleStroke
resolve_toggle_buffer action buffer a =
    let chords = chords_for a.keymap action in
    if any (λ c. chord_eq c buffer) chords
    then (a, fired)
    else if any (is_longer buffer) chords
    then (record a { pending_chord = buffer }, pending)
    else (a, unclaimed)

abbrev retry_toggle : Action → KeyStroke → KeyApp × ToggleStroke → KeyApp × ToggleStroke
retry_toggle action stroke (a, unclaimed) =
    if is_empty a.pending_chord
    then (a, unclaimed)
    else resolve_toggle_buffer action (stroke ∷ []) (record a { pending_chord = [] })
retry_toggle action stroke (a, t) = (a, t)

abbrev settled : KeyApp × ToggleStroke → KeyApp × ToggleStroke
settled (a, pending) = (a, pending)
settled (a, t) = (record a { pending_chord = [] }, t)

unfoldable pub modal_toggle_stroke : Action → KeyEvent → KeyApp → KeyApp × ToggleStroke
modal_toggle_stroke action ev a =
    let stroke = from_event ev in
    let first = resolve_toggle_buffer action (a.pending_chord ++ (stroke ∷ [])) a in
    let done = settled (retry_toggle action stroke first) in
    (sync_legacy_pending_flag done.0, done.1)
