-- ===== src/Keymap/Laws/Loading.antt =====
-- The keymap of any configuration: the loading does not panic, and what it gives is validated.
use gwm_cli.Base.{
  ◌≤◌, ◌≡◌, refl, ap, inl, inr, Bool, true, false, ◌&&◌, List, [], ◌∷◌, Option, none, some, arith,
  ◌==◌, if◌then◌else◌, Text, text_eq, codes, Bool-cases, split, split_by, filled, split_whitespace,
  is_whitespace, Returns, map, is_discrete_eq,
}
use gwm_cli.Keymap.Actions.{Action, action_eq, Action-discrete, from_slug_compat}
use gwm_cli.Keymap.Bindings.{
  Chord, Binding, Keymap, KeymapError, apply_override, validate, first_empty, has_empty,
  first_clash, clash_with, clash, all_chords, chord_eq, starts_with, stroke_eq,
}
use gwm_cli.Keymap.Parsing.{
  Parsed, parsed, error, panicked, find_key, parse_unnamed, parse_keycode, set_once, with_modifier,
  parse_modifiers, parse_parts, parse_single, parse_all, parse_chord,
}
use gwm_cli.Keymap.Defaults.{parse_literals, def, def_all, defaults}
use gwm_cli.Keymap.Strokes.{KeyStroke-discrete, new_stroke, normalize, sanitize}
use gwm_cli.Keymap.Loading.{
  TomlItem, string, other_item, TomlValue, array, other_value, Attempt, done, failed, crashed,
  bad_chord, unknown_action, and_then, as_chord_list, chord_strings, known_action, parse_chords,
  checked, apply_entry, apply_entries, resolved_keymap,
}
use gwm_cli.Keymap.Laws.Unambiguous.{action_eq_iff, layer}
use gwm_cli.Keymap.Laws.Replacing.{count_action, Loaded}
use gwm_cli.Keymap.Laws.Overriding.{apply_override-Loaded}
use gwm_cli.Keymap.Laws.Calm.{Calm, parse_chord-Calm}
use native.Mathlib.Decide.{ℕ_discrete}

abbrev pub With : {A : Type 0} → (A → Type 0) → Attempt A → Type 0
With P (done a) = P a
With P (failed e) = Unit
With P crashed = ⊥

-- No action has two bindings in the list.
abbrev pub all_once : List Binding → Bool
all_once [] = true
all_once (b ∷ bs) = count_action b.action bs == 0 && all_once bs

pub count-all_once : (a : Action) (bs : List Binding) → all_once bs ≡ true → count_action a bs ≤ 1
count-all_once a [] h = ground arith
count-all_once a (b ∷ bs) h = elim (Bool-cases (action_eq b.action a)) [
  | inl t ↦ ground (arith, ap (λ x. count_action x bs) ((action_eq_iff b.action a).0 t))
  | inr n ↦ ground (arith, count-all_once a bs (ground arith))
]

abbrev accepts : Option KeymapError → Bool
accepts none = true
accepts (some e) = false

abbrev keymap_passes : Option Keymap → Bool
keymap_passes none = false
keymap_passes (some m) = accepts (validate (map layer m.entries)) && all_once m.entries

keymap_passes-Loaded : (o : Option Keymap) → keymap_passes o ≡ true → Returns o Loaded
keymap_passes-Loaded none h = ground (arith, h)
keymap_passes-Loaded (some m) h =
    let v : validate (map layer m.entries) ≡ none = ground (arith, h) in
    record { valid = v; once = λ a. count-all_once a m.entries (ground arith) }

defaults_pass : keymap_passes defaults ≡ true
unfolding defaults def_all def parse_literals parse_chord parse_all parse_single parse_parts
    parse_modifiers set_once with_modifier parse_keycode parse_unnamed find_key text_eq split
    split_whitespace split_by filled is_whitespace new_stroke normalize sanitize validate
    first_empty has_empty first_clash clash_with clash all_chords chord_eq starts_with stroke_eq
    action_eq Action-discrete is_discrete_eq KeyStroke-discrete ℕ_discrete
defaults_pass = refl

defaults-Loaded : Returns defaults Loaded
defaults-Loaded = keymap_passes-Loaded defaults defaults_pass

and_then-With :
    {A B : Type 0} (P : A → Type 0) (Q : B → Type 0) (t : Attempt A) (g : A → Attempt B)
    → With P t
    → ((a : A) → P a → With Q (g a))
    → With Q (and_then t g)
and_then-With P Q (done a) g p h = h a p
and_then-With P Q (failed e) g p h = tt
and_then-With P Q crashed g p h = elim p [ ]

if-With :
    {A : Type 0} (P : A → Type 0) (b : Bool) (x y : Attempt A)
    → With P x
    → With P y
    → With P (if b then x else y)
if-With P true x y c d = c
if-With P false x y c d = d

-- No panic.
abbrev Ends : {A : Type 0} → Attempt A → Type 0
Ends t = With (λ _. Unit) t

as_chord_list-Ends : (slug : Text) (items : List TomlItem) → Ends (as_chord_list slug items)
unfolding as_chord_list
as_chord_list-Ends slug [] = tt
as_chord_list-Ends slug (other_item type ∷ items) = tt
as_chord_list-Ends slug (string s ∷ items) =
    and_then-With (λ _. Unit) (λ _. Unit) (as_chord_list slug items) (λ ss. done (s ∷ ss))
      (as_chord_list-Ends slug items) (λ ss u. tt)

chord_strings-Ends : (slug : Text) (value : TomlValue) → Ends (chord_strings slug value)
unfolding chord_strings
chord_strings-Ends slug (array items) = as_chord_list-Ends slug items
chord_strings-Ends slug (other_value type) = tt

known_action-Ends : (slug : Text) → Ends (known_action slug)
unfolding known_action
known_action-Ends slug =
    elim (from_slug_compat slug)
      as (λ o. Ends (elim o as (λ _. Attempt Action) [
        | some a ↦ done a
        | none ↦ failed (unknown_action slug)
      ])) [ some a ↦ tt | none ↦ tt ]

parse_chords-Ends : (slug : Text) (ss : List Text) → Ends (parse_chords slug ss)
unfolding parse_chords
parse_chords-Ends slug [] = tt
parse_chords-Ends slug (s ∷ ss) =
    read (parse_chord s) (parse_chord-Calm s) (parse_chords-Ends slug ss)
  where
    read :
        (p : Parsed Chord)
        → Calm p
        → Ends (parse_chords slug ss)
        → Ends (elim p as (λ _. Attempt (List Chord)) [
          | parsed c ↦ and_then (parse_chords slug ss) (λ cs. done (c ∷ cs))
          | error e ↦ failed (bad_chord slug e)
          | panicked ↦ crashed
        ])
    read (parsed c) h r =
        and_then-With (λ _. Unit) (λ _. Unit) (parse_chords slug ss) (λ cs. done (c ∷ cs)) r
          (λ cs u. tt)
    read (error e) h r = tt
    read panicked h r = elim h [ ]

checked-Loaded :
    (slug : Text) (r : Keymap × Option KeymapError) → Loaded r.0 → With Loaded (checked slug r)
unfolding checked
checked-Loaded slug (m, none) l = l
checked-Loaded slug (m, some e) l = tt

apply_entry-Loaded :
    (slug : Text) (value : TomlValue) (m : Keymap)
    → Loaded m
    → With Loaded (apply_entry slug value m)
unfolding apply_entry
apply_entry-Loaded slug value m l =
    and_then-With (λ _. Unit) Loaded (chord_strings slug value)
      (λ ss.
        and_then (known_action slug)
          (λ a. and_then (parse_chords slug ss) (λ cs. checked slug (apply_override m a cs))))
      (chord_strings-Ends slug value)
      (λ ss u.
        and_then-With (λ _. Unit) Loaded (known_action slug)
          (λ a. and_then (parse_chords slug ss) (λ cs. checked slug (apply_override m a cs)))
          (known_action-Ends slug)
          (λ a u'.
            and_then-With (λ _. Unit) Loaded (parse_chords slug ss)
              (λ cs. checked slug (apply_override m a cs)) (parse_chords-Ends slug ss)
              (λ cs u''.
                checked-Loaded slug (apply_override m a cs) (apply_override-Loaded m a cs l).0)))

apply_entries-Loaded :
    (es : List (Text × TomlValue)) (m : Keymap) → Loaded m → With Loaded (apply_entries es m)
unfolding apply_entries
apply_entries-Loaded [] m l = l
apply_entries-Loaded ((slug, value) ∷ es) m l =
    if-With Loaded (text_eq slug (codes "modal")) (apply_entries es m)
      (and_then (apply_entry slug value m) (λ m'. apply_entries es m'))
      (apply_entries-Loaded es m l)
      (and_then-With Loaded Loaded (apply_entry slug value m) (λ m'. apply_entries es m')
        (apply_entry-Loaded slug value m l) (λ m' l'. apply_entries-Loaded es m' l'))

-- Any table of keys is loaded without a panic, and ends with an error or with a keymap that
-- passes its validation and has one binding for an action at most.
pub resolved_keymap-Loaded : (raw : List (Text × TomlValue)) → With Loaded (resolved_keymap raw)
unfolding resolved_keymap
resolved_keymap-Loaded raw = start defaults defaults-Loaded
  where
    start :
        (o : Option Keymap)
        → Returns o Loaded
        → With Loaded
            (elim o as (λ _. Attempt Keymap) [ none ↦ crashed | some m ↦ apply_entries raw m ])
    start none l = elim l [ ]
    start (some m) l = apply_entries-Loaded raw m l
