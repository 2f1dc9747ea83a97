-- ===== src/Keymap/Laws/Chords.antt =====
-- A chord that is shown and read again is the chord.
use gwm_cli.Base.{
  ◌≡◌, ◌≢◌, refl, ap, ◌∙◌, Bool, true, false, not, ◌&&◌, List, [], ◌∷◌, ◌++◌, arith, map, all,
  is_empty, Text, codes, is_whitespace, split_by, filled, split_whitespace, join,
}
use gwm_cli.Keymap.Strokes.{KeyCode, char, back_tab, KeyStroke, new_stroke, normalize, sanitize}
use gwm_cli.Keymap.Bindings.{Chord}
use gwm_cli.Keymap.Parsing.{
  parsed, parse_single, parse_all, parse_chord, show_code, show_stroke, format_chord,
}
use gwm_cli.Keymap.Laws.Spelling.{has_spelling, plain, spelled, show_code-spelled, parse-show_code}
use gwm_cli.Keymap.Laws.Printing.{
  modifier_names, shown, three, split-shown, parse-modifier_names, none_empty, shown-non_empty,
  parse_single-parts, parse_parts-keys,
}

-- A character and a back-tab carry their shift themselves.
abbrev folds_shift : KeyCode → Bool
folds_shift (char c) = true
folds_shift back_tab = true
folds_shift k = false

-- A stroke in the form that `KeyStroke::new` builds, of a key that has a spelling.
abbrev pub is_spelled : KeyStroke → Bool
is_spelled k =
    has_spelling k.code
    && not k.modifiers.super
    && not k.modifiers.hyper
    && not k.modifiers.meta
    && not (folds_shift k.code && k.modifiers.shift)

new_stroke_self :
    (k : KeyCode) (c a s : Bool)
    → not (folds_shift k && s) ≡ true
    → new_stroke k (three c a s) ≡ record { code = k; modifiers = three c a s }
unfolding new_stroke normalize sanitize
new_stroke_self (char x) c a true h = absurd (ground (arith, h))
new_stroke_self (char x) c a false h = refl
new_stroke_self back_tab c a true h = absurd (ground (arith, h))
new_stroke_self back_tab c a false h = refl
new_stroke_self k c a s h = refl

abbrev solid : Text → Bool
solid [] = true
solid (c ∷ t) = not (is_whitespace c) && solid t

-- A text of one character at least, none of them whitespace.
abbrev is_word : Text → Bool
is_word t = not (is_empty t) && solid t

solid-plain : (t : Text) → plain t ≡ true → solid t ≡ true
solid-plain [] h = refl
solid-plain (c ∷ t) h = ground (arith, solid-plain t (ground arith))

is_word-spelled : (t : Text) → spelled t ≡ true → is_word t ≡ true
is_word-spelled t h = ground (arith, h, solid-plain t (ground arith))

solid-shown : (c a s : Bool) (key : Text) → solid key ≡ true → solid (shown c a s key) ≡ true
unfolding is_whitespace
solid-shown true true true key h = h
solid-shown true true false key h = h
solid-shown true false true key h = h
solid-shown true false false key h = h
solid-shown false true true key h = h
solid-shown false true false key h = h
solid-shown false false true key h = h
solid-shown false false false key h = h

is_word-shown : (c a s : Bool) (key : Text) → is_word key ≡ true → is_word (shown c a s key) ≡ true
is_word-shown c a s key h =
    let n = shown-non_empty c a s key (ground (arith, h)) in
    let w = solid-shown c a s key (ground (arith, h)) in rw (n, w) refl

show_stroke-shown :
    (k : KeyStroke)
    → show_stroke k ≡ shown k.modifiers.control k.modifiers.alt k.modifiers.shift (show_code k.code)
unfolding show_stroke
show_stroke-shown k = refl

parse_single-shown :
    (k : KeyCode) (c a s : Bool)
    → has_spelling k ≡ true
    → not (folds_shift k && s) ≡ true
    → parse_single (shown c a s (show_code k))
      ≡ parsed (record { code = k; modifiers = three c a s })
parse_single-shown k c a s h n =
    let key = show_code k in
    let token = shown c a s key in
    let sp = show_code-spelled k h in
    let filled_key : is_empty key ≡ false = ground (arith, sp) in
    parse_single-parts token key (modifier_names c a s) (shown-non_empty c a s key filled_key)
      (split-shown c a s key (ground (arith, sp))) (none_empty c a s key filled_key)
    ∙ parse_parts-keys token key (modifier_names c a s) (three c a s) k
        (parse-modifier_names c a s token) (parse-show_code k token h)
    ∙ ap parsed (new_stroke_self k c a s n)

stroke_fields :
    (k : KeyStroke)
    → is_spelled k ≡ true
    → record {
      code = k.code;
      modifiers = three k.modifiers.control k.modifiers.alt k.modifiers.shift;
    }
      ≡ k
stroke_fields k h =
    let e : k.modifiers.super ≡ false = ground (arith, h) in
    let e' : k.modifiers.hyper ≡ false = ground (arith, h) in
    let e'' : k.modifiers.meta ≡ false = ground (arith, h) in rw (e, e', e'') refl

parse_single-show_stroke :
    (k : KeyStroke) → is_spelled k ≡ true → parse_single (show_stroke k) ≡ parsed k
parse_single-show_stroke k h =
    ap parse_single (show_stroke-shown k)
    ∙ parse_single-shown k.code k.modifiers.control k.modifiers.alt k.modifiers.shift
        (ground (arith, h)) (ground (arith, h))
    ∙ ap parsed (stroke_fields k h)

is_word-show_stroke : (k : KeyStroke) → is_spelled k ≡ true → is_word (show_stroke k) ≡ true
is_word-show_stroke k h =
    ap is_word (show_stroke-shown k)
    ∙ is_word-shown k.modifiers.control k.modifiers.alt k.modifiers.shift (show_code k.code)
        (is_word-spelled (show_code k.code) (show_code-spelled k.code (ground (arith, h))))

split_by-solid : (t : Text) → solid t ≡ true → split_by is_whitespace t ≡ t ∷ []
unfolding split_by
split_by-solid [] h = refl
split_by-solid (c ∷ t) h = ground (arith, split_by-solid t (ground arith))

split_by-word :
    (t s : Text)
    → solid t ≡ true
    → split_by is_whitespace (t ++ (b' ' ∷ s)) ≡ t ∷ split_by is_whitespace s
unfolding split_by
split_by-word [] s h = unfold is_whitespace in refl
split_by-word (c ∷ t) s h = ground (arith, split_by-word t s (ground arith))

filled-cons : (t : Text) (ts : List Text) → is_empty t ≡ false → filled (t ∷ ts) ≡ t ∷ filled ts
unfolding filled
filled-cons [] ts h = absurd (ground (arith, h))
filled-cons (c ∷ t) ts h = refl

split_whitespace-join :
    (ts : List Text) → all is_word ts ≡ true → split_whitespace (join (codes " ") ts) ≡ ts
unfolding split_whitespace join
split_whitespace-join [] h = unfold split_by filled in refl
split_whitespace-join (t ∷ []) h =
    rw (split_by-solid t (ground arith)) (filled-cons t [] (ground arith) ∙ unfold filled in refl)
split_whitespace-join (t ∷ u ∷ ts) h =
    rw (split_by-word t (join (codes " ") (u ∷ ts)) (ground arith)) (
      filled-cons t (split_by is_whitespace (join (codes " ") (u ∷ ts))) (ground arith)
      ∙ ap (◌∷◌ t) (split_whitespace-join (u ∷ ts) (ground arith)))

parse_all-show_stroke :
    (ks : Chord) → all is_spelled ks ≡ true → parse_all (map show_stroke ks) ≡ parsed ks
unfolding parse_all
parse_all-show_stroke [] h = refl
parse_all-show_stroke (k ∷ ks) h =
    rw (parse_single-show_stroke k (ground arith), parse_all-show_stroke ks (ground arith)) refl

all_words : (ks : Chord) → all is_spelled ks ≡ true → all is_word (map show_stroke ks) ≡ true
all_words [] h = refl
all_words (k ∷ ks) h =
    ground (arith, is_word-show_stroke k (ground arith), all_words ks (ground arith))

not_blank : (t s : Text) → is_word t ≡ true → all is_whitespace (t ++ s) ≡ false
not_blank [] s h = absurd (ground (arith, h))
not_blank (c ∷ t) s h = ground arith

join-not_blank :
    (t : Text) (ts : List Text)
    → is_word t ≡ true
    → all is_whitespace (join (codes " ") (t ∷ ts)) ≡ false
unfolding join
join-not_blank [] [] h = absurd (ground (arith, h))
join-not_blank (c ∷ t) [] h = ground arith
join-not_blank t (u ∷ ts) h = not_blank t (codes " " ++ join (codes " ") (u ∷ ts)) h

-- A chord of one stroke at least, all in the form that keystrokes have and of keys with a
-- spelling, is read back from what is shown of it.
pub parse_chord-format_chord :
    (c : Chord) → c ≢ [] → all is_spelled c ≡ true → parse_chord (format_chord c) ≡ parsed c
unfolding parse_chord format_chord
parse_chord-format_chord [] n h = absurd (n refl)
parse_chord-format_chord (k ∷ ks) n h =
    rw
      (
        join-not_blank (show_stroke k) (map show_stroke ks) (is_word-show_stroke k (ground arith)),
        split_whitespace-join (map show_stroke (k ∷ ks)) (all_words (k ∷ ks) h),
      )
      (parse_all-show_stroke (k ∷ ks) h)
