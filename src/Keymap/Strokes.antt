-- ===== src/Keymap/Strokes.antt =====
-- src/tui/keymap.rs: keystrokes in the one form that all terminals' reports of a key share.
use native.Mathlib.Decide.{ℕ_discrete}
use mathlib.Core.List.{List-discrete}
use gwm_cli.Base.{ℕ, ◌-◌, Bool, false, Text, if◌then◌else◌, is_ascii_lowercase}

-- crossterm's `KeyCode`; a key that the keymap has no name for is known by its debug text.
pub data KeyCode : Type 0 where
  backspace enter left right up down home end page_up page_down : KeyCode
  tab back_tab delete insert esc : KeyCode
  f char : ℕ → KeyCode
  other : Text → KeyCode

unfoldable pub KeyCode-discrete : Discrete KeyCode
KeyCode-discrete = hlevel (ℕ_discrete, List-discrete ℕ_discrete)

-- crossterm's modifier bits.
pub record KeyModifiers : Type 0 where
  pub control : Bool
  pub alt : Bool
  pub shift : Bool
  pub super : Bool
  pub hyper : Bool
  pub meta : Bool

abbrev pub no_modifiers : KeyModifiers
no_modifiers = record {
  control = false;
  alt = false;
  shift = false;
  super = false;
  hyper = false;
  meta = false;
}

pub record KeyStroke : Type 0 where
  pub code : KeyCode
  pub modifiers : KeyModifiers

unfoldable pub KeyStroke-discrete : Discrete KeyStroke
KeyStroke-discrete = hlevel (ℕ_discrete, List-discrete ℕ_discrete)

unfoldable pub sanitize : KeyModifiers → KeyModifiers
sanitize m = record m { super = false; hyper = false; meta = false }

abbrev pub to_ascii_uppercase : ℕ → ℕ
to_ascii_uppercase c = if is_ascii_lowercase c then c - 32 else c

-- A shifted letter is its capital and a shifted back-tab a back-tab, without the modifier.
unfoldable pub normalize : KeyCode → KeyModifiers → KeyStroke
normalize (char c) m =
    if m.shift
    then record { code = char (to_ascii_uppercase c); modifiers = record m { shift = false } }
    else record { code = char c; modifiers = m }
normalize back_tab m =
    if m.shift
    then record { code = back_tab; modifiers = record m { shift = false } }
    else record { code = back_tab; modifiers = m }
normalize code m = record { code = code; modifiers = m }

-- `KeyStroke::new`, and `from_event` of a key event's code and modifiers.
unfoldable pub new_stroke : KeyCode → KeyModifiers → KeyStroke
new_stroke code m = normalize code (sanitize m)
