-- ===== src/Keymap/Parsing.antt =====
-- src/tui/keymap.rs: a chord as the user writes it in the configuration, and as it is shown.
-- An error is the data of its message; `panicked` is the `expect` of the code.
use gwm_cli.Base.{
  ◌==◌, leb, Bool, true, ◌&&◌, List, [], ◌∷◌, ◌++◌, Option, none, some, map, any, all, is_empty,
  if◌then◌else◌, Text, text_eq, codes, is_whitespace, split, join, split_whitespace, parse_u8,
  u8_digits,
}
use gwm_cli.Keymap.Strokes.{
  KeyCode, backspace, enter, left, right, up, down, home, end, page_up, page_down, tab, back_tab,
  delete, insert, esc, f, char, other, KeyModifiers, no_modifiers, KeyStroke, new_stroke,
}
use gwm_cli.Keymap.Bindings.{Chord}

pub data ParseError : Type 0 where
  empty_key_string : Text → ParseError
  empty_token : ParseError
  dangling_plus : Text → ParseError
  unknown_modifier duplicate_modifier : Text → Text → ParseError
  invalid_function_key function_key_range : Text → ParseError
  unknown_key : Text → Text → ParseError

pub data Parsed (A : Type 0) : Type 0 where
  parsed : A → Parsed A
  error : ParseError → Parsed A
  panicked : Parsed A

abbrev pub then_parse : {A B : Type 0} → Parsed A → (A → Parsed B) → Parsed B
then_parse (parsed a) g = g a
then_parse (error e) g = error e
then_parse panicked g = panicked

abbrev pub named_keys : List (Text × KeyCode)
named_keys =
    (codes "Tab", tab)
    ∷ (codes "Enter", enter)
    ∷ (codes "Esc", esc)
    ∷ (codes "Up", up)
    ∷ (codes "Down", down)
    ∷ (codes "Left", left)
    ∷ (codes "Right", right)
    ∷ (codes "Backspace", backspace)
    ∷ (codes "BackTab", back_tab)
    ∷ (codes "Home", home)
    ∷ (codes "End", end)
    ∷ (codes "PageUp", page_up)
    ∷ (codes "PageDown", page_down)
    ∷ (codes "Insert", insert)
    ∷ (codes "Delete", delete)
    ∷ (codes "Space", char b' ')
    ∷ []

unfoldable pub find_key : Text → List (Text × KeyCode) → Option KeyCode
find_key s [] = none
find_key s ((name, code) ∷ ks) =
    let rest = find_key s ks in if text_eq s name then some code else rest

unfoldable pub parse_function_key : Text → Text → Parsed KeyCode
parse_function_key s digits = elim (parse_u8 digits) [
  | none ↦ error (invalid_function_key s)
  | some n ↦ (if leb 1 n && leb n 12 then parsed (f n) else error (function_key_range s))
]

-- A key with no name: a function key, or one character.
unfoldable pub parse_unnamed : Text → Text → Parsed KeyCode
parse_unnamed [] token = error (unknown_key [] token)
parse_unnamed (c ∷ []) token = parsed (char c)
parse_unnamed (c ∷ d ∷ s) token =
    if c == b'F'
    then parse_function_key (c ∷ d ∷ s) (d ∷ s)
    else error (unknown_key (c ∷ d ∷ s) token)

unfoldable pub parse_keycode : Text → Text → Parsed KeyCode
parse_keycode s token = elim (find_key s named_keys) [
  | some code ↦ parsed code
  | none ↦ parse_unnamed s token
]

-- The modifiers with one more, unless it was there.
unfoldable pub set_once : Bool → Text → Text → KeyModifiers → Parsed KeyModifiers
set_once is_set token name m = if is_set then error (duplicate_modifier name token) else parsed m

unfoldable pub with_modifier : Text → Text → KeyModifiers → Parsed KeyModifiers
with_modifier token name m =
    if text_eq name (codes "Ctrl")
    then set_once m.control token name (record m { control = true })
    else if text_eq name (codes "Alt")
    then set_once m.alt token name (record m { alt = true })
    else if text_eq name (codes "Shift")
    then set_once m.shift token name (record m { shift = true })
    else error (unknown_modifier name token)

unfoldable pub parse_modifiers : Text → List Text → KeyModifiers → Parsed KeyModifiers
parse_modifiers token [] m = parsed m
parse_modifiers token (name ∷ names) m =
    then_parse (with_modifier token name m) (λ m'. parse_modifiers token names m')

abbrev pub split_last : List Text → Option (Text × List Text)
split_last [] = none
split_last (t ∷ ts) = elim (split_last ts) [
  | none ↦ some (t, [])
  | some (l, rest) ↦ some (l, t ∷ rest)
]

unfoldable pub parse_parts : Text → Option (Text × List Text) → Parsed KeyStroke
parse_parts token none = panicked
parse_parts token (some (key, mods)) =
    then_parse (parse_modifiers token mods no_modifiers)
      (λ m. then_parse (parse_keycode key token) (λ code. parsed (new_stroke code m)))

unfoldable pub parse_single : Text → Parsed KeyStroke
parse_single token =
    if is_empty token
    then error empty_token
    else if any is_empty (split b'+' token)
    then error (dangling_plus token)
    else parse_parts token (split_last (split b'+' token))

-- `collect`: the first error, or all the strokes.
unfoldable pub parse_all : List Text → Parsed Chord
parse_all [] = parsed []
parse_all (t ∷ ts) =
    let rest = parse_all ts in
    then_parse (parse_single t) (λ k. then_parse rest (λ ks. parsed (k ∷ ks)))

unfoldable pub parse_chord : Text → Parsed Chord
parse_chord s =
    if all is_whitespace s then error (empty_key_string s) else parse_all (split_whitespace s)

unfoldable pub show_code : KeyCode → Text
show_code (char c) = if c == b' ' then codes "Space" else c ∷ []
show_code tab = codes "Tab"
show_code enter = codes "Enter"
show_code esc = codes "Esc"
show_code up = codes "Up"
show_code down = codes "Down"
show_code left = codes "Left"
show_code right = codes "Right"
show_code backspace = codes "Backspace"
show_code back_tab = codes "BackTab"
show_code home = codes "Home"
show_code end = codes "End"
show_code page_up = codes "PageUp"
show_code page_down = codes "PageDown"
show_code insert = codes "Insert"
show_code delete = codes "Delete"
show_code (f n) = b'F' ∷ u8_digits n
show_code (other name) = name

-- The modifiers in one order, each with a `+`.
unfoldable pub show_stroke : KeyStroke → Text
show_stroke k =
    (if k.modifiers.control then codes "Ctrl+" else [])
    ++ ((if k.modifiers.alt then codes "Alt+" else [])
        ++ ((if k.modifiers.shift then codes "Shift+" else []) ++ show_code k.code))

unfoldable pub format_chord : Chord → Text
format_chord c = join (codes " ") (map show_stroke c)
