-- ===== src/Keymap/Laws/Printing.antt =====
-- How a token with modifiers is split and read.
use gwm_cli.Base.{
  ◌≡◌, refl, ap, ◌∙◌, Bool, true, false, List, [], ◌∷◌, ◌++◌, some, arith, if◌then◌else◌, any,
  is_empty, Text, text_eq, codes, split,
}
use gwm_cli.Keymap.Strokes.{KeyCode, KeyModifiers, no_modifiers, new_stroke}
use gwm_cli.Keymap.Parsing.{
  parsed, parse_keycode, set_once, with_modifier, parse_modifiers, split_last, parse_parts,
  parse_single,
}
use gwm_cli.Keymap.Laws.Spelling.{plain}

split-plain : (t : Text) → plain t ≡ true → split b'+' t ≡ t ∷ []
unfolding split
split-plain [] h = refl
split-plain (c ∷ t) h = ground (arith, split-plain t (ground arith))

abbrev pub opt : {A : Type 0} → Bool → List A → List A
opt b t = if b then t else []

module _ (c a s : Bool) where
  abbrev pub modifier_names : List Text
  modifier_names =
      opt c (codes "Ctrl" ∷ []) ++ (opt a (codes "Alt" ∷ []) ++ opt s (codes "Shift" ∷ []))

  abbrev pub shown : Text → Text
  shown key = opt c (codes "Ctrl+") ++ (opt a (codes "Alt+") ++ (opt s (codes "Shift+") ++ key))

  abbrev pub three : KeyModifiers
  three = record { control = c; alt = a; shift = s; super = false; hyper = false; meta = false }

split-control :
    (b : Bool) (t : Text)
    → split b'+' (opt b (codes "Ctrl+") ++ t) ≡ opt b (codes "Ctrl" ∷ []) ++ split b'+' t
unfolding split
split-control true t = refl
split-control false t = refl

split-alt :
    (b : Bool) (t : Text)
    → split b'+' (opt b (codes "Alt+") ++ t) ≡ opt b (codes "Alt" ∷ []) ++ split b'+' t
unfolding split
split-alt true t = refl
split-alt false t = refl

split-shift :
    (b : Bool) (t : Text)
    → split b'+' (opt b (codes "Shift+") ++ t) ≡ opt b (codes "Shift" ∷ []) ++ split b'+' t
unfolding split
split-shift true t = refl
split-shift false t = refl

pub append_assoc : {A : Type 0} (xs ys zs : List A) → xs ++ (ys ++ zs) ≡ (xs ++ ys) ++ zs
append_assoc [] ys zs = refl
append_assoc (x ∷ xs) ys zs = ap (◌∷◌ x) (append_assoc xs ys zs)

pub split-shown :
    (c a s : Bool) (key : Text)
    → plain key ≡ true
    → split b'+' (shown c a s key) ≡ modifier_names c a s ++ (key ∷ [])
split-shown c a s key h =
    let ctrl = opt c (codes "Ctrl" ∷ []) in
    let alt = opt a (codes "Alt" ∷ []) in
    let shift = opt s (codes "Shift" ∷ []) in
    rw
      (
        split-control c (opt a (codes "Alt+") ++ (opt s (codes "Shift+") ++ key)),
        split-alt a (opt s (codes "Shift+") ++ key),
        split-shift s key,
        split-plain key h,
      )
      (ap (λ r. ctrl ++ r) (append_assoc alt shift (key ∷ []))
        ∙ append_assoc ctrl (alt ++ shift) (key ∷ []))

pub parse-modifier_names :
    (c a s : Bool) (token : Text)
    → parse_modifiers token (modifier_names c a s) no_modifiers ≡ parsed (three c a s)
unfolding parse_modifiers with_modifier set_once text_eq
parse-modifier_names true true true token = refl
parse-modifier_names true true false token = refl
parse-modifier_names true false true token = refl
parse-modifier_names true false false token = refl
parse-modifier_names false true true token = refl
parse-modifier_names false true false token = refl
parse-modifier_names false false true token = refl
parse-modifier_names false false false token = refl

split_last-append : (ts : List Text) (t : Text) → split_last (ts ++ (t ∷ [])) ≡ some (t, ts)
split_last-append [] t = refl
split_last-append (x ∷ ts) t = rw (split_last-append ts t) refl

pub none_empty :
    (c a s : Bool) (key : Text)
    → is_empty key ≡ false
    → any is_empty (modifier_names c a s ++ (key ∷ [])) ≡ false
none_empty true true true key h = ground arith
none_empty true true false key h = ground arith
none_empty true false true key h = ground arith
none_empty true false false key h = ground arith
none_empty false true true key h = ground arith
none_empty false true false key h = ground arith
none_empty false false true key h = ground arith
none_empty false false false key h = ground arith

pub shown-non_empty :
    (c a s : Bool) (key : Text) → is_empty key ≡ false → is_empty (shown c a s key) ≡ false
shown-non_empty true a s key h = refl
shown-non_empty false true s key h = refl
shown-non_empty false false true key h = refl
shown-non_empty false false false key h = h

-- A token is read by its parts.
pub parse_single-parts :
    (token key : Text) (ts : List Text)
    → is_empty token ≡ false
    → split b'+' token ≡ ts ++ (key ∷ [])
    → any is_empty (ts ++ (key ∷ [])) ≡ false
    → parse_single token ≡ parse_parts token (some (key, ts))
unfolding parse_single
parse_single-parts token key ts n e h = rw (parse_single, n, e, h, split_last-append ts key) refl

pub parse_parts-keys :
    (token key : Text) (ts : List Text) (m : KeyModifiers) (k : KeyCode)
    → parse_modifiers token ts no_modifiers ≡ parsed m
    → parse_keycode key token ≡ parsed k
    → parse_parts token (some (key, ts)) ≡ parsed (new_stroke k m)
unfolding parse_parts
parse_parts-keys token key ts m k e h = rw (parse_parts, e, h) refl
