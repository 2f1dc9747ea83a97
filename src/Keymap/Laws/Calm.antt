-- ===== src/Keymap/Laws/Calm.antt =====
-- Reading a chord never panics.
use gwm_cli.Base.{
  ◌≢◌, refl, inl, inr, Bool, true, false, ◌&&◌, List, [], ◌∷◌, Option, none, some, ◌==◌,
  if◌then◌else◌, any, is_empty, Text, text_eq, codes, Option-cases, split, split_whitespace,
  is_whitespace, split-ne-nil, all, leb, parse_u8,
}
use gwm_cli.Keymap.Parsing.{
  Parsed, parsed, error, panicked, then_parse, find_key, named_keys, parse_function_key,
  parse_unnamed, parse_keycode, set_once, duplicate_modifier, unknown_modifier, with_modifier,
  parse_modifiers, split_last, parse_parts, parse_single, parse_all, parse_chord,
  invalid_function_key, function_key_range, unknown_key, empty_token, dangling_plus,
  empty_key_string,
}
use gwm_cli.Keymap.Strokes.{KeyCode, KeyModifiers, no_modifiers, f, new_stroke}

abbrev pub Calm : {A : Type 0} → Parsed A → Type 0
Calm (parsed a) = Unit
Calm (error e) = Unit
Calm panicked = ⊥

then_parse-Calm :
    {A B : Type 0} (p : Parsed A) (g : A → Parsed B)
    → Calm p
    → ((a : A) → Calm (g a))
    → Calm (then_parse p g)
then_parse-Calm (parsed a) g c h = h a
then_parse-Calm (error e) g c h = tt
then_parse-Calm panicked g c h = elim c [ ]

if-Calm : {A : Type 0} (b : Bool) (x y : Parsed A) → Calm x → Calm y → Calm (if b then x else y)
if-Calm true x y c d = c
if-Calm false x y c d = d

function_key-Calm : (s digits : Text) → Calm (parse_function_key s digits)
unfolding parse_function_key
function_key-Calm s digits =
    elim (parse_u8 digits)
      as (λ o. Calm (elim o as (λ _. Parsed KeyCode) [
        | none ↦ error (invalid_function_key s)
        | some n ↦ (if leb 1 n && leb n 12 then parsed (f n) else error (function_key_range s))
      ])) [
        | none ↦ tt
        | some n ↦ if-Calm (leb 1 n && leb n 12) (parsed (f n)) (error (function_key_range s)) tt tt
      ]

unnamed-Calm : (s token : Text) → Calm (parse_unnamed s token)
unfolding parse_unnamed
unnamed-Calm [] token = tt
unnamed-Calm (c ∷ []) token = tt
unnamed-Calm (c ∷ d ∷ s) token =
    if-Calm (c == b'F') (parse_function_key (c ∷ d ∷ s) (d ∷ s))
      (error (unknown_key (c ∷ d ∷ s) token)) (function_key-Calm (c ∷ d ∷ s) (d ∷ s)) tt

keycode-Calm : (s token : Text) → Calm (parse_keycode s token)
unfolding parse_keycode
keycode-Calm s token =
    elim (find_key s named_keys)
      as (λ o. Calm (elim o as (λ _. Parsed KeyCode) [
        | none ↦ parse_unnamed s token
        | some code ↦ parsed code
      ])) [ none ↦ unnamed-Calm s token | some code ↦ tt ]

set_once-Calm : (b : Bool) (token name : Text) (m : KeyModifiers) → Calm (set_once b token name m)
unfolding set_once
set_once-Calm b token name m = if-Calm b (error (duplicate_modifier name token)) (parsed m) tt tt

modifier-Calm : (token name : Text) (m : KeyModifiers) → Calm (with_modifier token name m)
unfolding with_modifier
modifier-Calm token name m =
    let control = set_once m.control token name (record m { control = true }) in
    let alt = set_once m.alt token name (record m { alt = true }) in
    let shift = set_once m.shift token name (record m { shift = true }) in
    let unknown = error (unknown_modifier name token) in
    let or_shift = if text_eq name (codes "Shift") then shift else unknown in
    let or_alt = if text_eq name (codes "Alt") then alt else or_shift in
    let shift_calm =
      if-Calm (text_eq name (codes "Shift")) shift unknown
        (set_once-Calm m.shift token name (record m { shift = true })) tt in
    let alt_calm =
      if-Calm (text_eq name (codes "Alt")) alt or_shift
        (set_once-Calm m.alt token name (record m { alt = true })) shift_calm in
    if-Calm (text_eq name (codes "Ctrl")) control or_alt
      (set_once-Calm m.control token name (record m { control = true })) alt_calm

modifiers-Calm :
    (token : Text) (names : List Text) (m : KeyModifiers) → Calm (parse_modifiers token names m)
unfolding parse_modifiers
modifiers-Calm token [] m = tt
modifiers-Calm token (name ∷ names) m =
    then_parse-Calm (with_modifier token name m) (λ m'. parse_modifiers token names m')
      (modifier-Calm token name m) (λ m'. modifiers-Calm token names m')

split_last-cons : (t : Text) (ts : List Text) → split_last (t ∷ ts) ≢ none
split_last-cons t ts = elim (Option-cases (split_last ts)) [
  | inl e ↦ rw e (λ h. cc)
  | inr (p, e) ↦ rw e (λ h. cc)
]

parts-Calm : (token : Text) (o : Option (Text × List Text)) → o ≢ none → Calm (parse_parts token o)
unfolding parse_parts
parts-Calm token none n = absurd (n refl)
parts-Calm token (some (key, mods)) n =
    then_parse-Calm (parse_modifiers token mods no_modifiers)
      (λ m. then_parse (parse_keycode key token) (λ code. parsed (new_stroke code m)))
      (modifiers-Calm token mods no_modifiers)
      (λ m.
        then_parse-Calm (parse_keycode key token) (λ code. parsed (new_stroke code m))
          (keycode-Calm key token) (λ code. tt))

split_last-non_empty : (ts : List Text) → ts ≢ [] → split_last ts ≢ none
split_last-non_empty [] n = absurd (n refl)
split_last-non_empty (t ∷ ts) n = split_last-cons t ts

parse_single-Calm : (token : Text) → Calm (parse_single token)
unfolding parse_single
parse_single-Calm token =
    let parts = split b'+' token in
    let o = split_last parts in
    let rest = parts-Calm token o (split_last-non_empty parts (split-ne-nil b'+' token)) in
    if-Calm (is_empty token) (error empty_token)
      (if any is_empty parts then error (dangling_plus token) else parse_parts token o) tt
      (if-Calm (any is_empty parts) (error (dangling_plus token)) (parse_parts token o) tt rest)

parse_all-Calm : (ts : List Text) → Calm (parse_all ts)
unfolding parse_all
parse_all-Calm [] = tt
parse_all-Calm (t ∷ ts) =
    then_parse-Calm (parse_single t) (λ k. then_parse (parse_all ts) (λ ks. parsed (k ∷ ks)))
      (parse_single-Calm t)
      (λ k. then_parse-Calm (parse_all ts) (λ ks. parsed (k ∷ ks)) (parse_all-Calm ts) (λ ks. tt))

-- Reading any text as a chord ends with a chord or an error, not with a panic.
pub parse_chord-Calm : (s : Text) → Calm (parse_chord s)
unfolding parse_chord
parse_chord-Calm s =
    if-Calm (all is_whitespace s) (error (empty_key_string s)) (parse_all (split_whitespace s)) tt
      (parse_all-Calm (split_whitespace s))
