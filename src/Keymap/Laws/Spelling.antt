-- ===== src/Keymap/Laws/Spelling.antt =====
-- A key that is shown and read again is the key.
use gwm_cli.Base.{
  ℕ, zero, suc, ◌<◌, ==_iff, ◌≡◌, refl, ◌∙◌, inl, inr, Bool, true, false, not, ◌&&◌, ◌||◌, List, [],
  ◌∷◌, none, some, arith, ◌==◌, leb, ltb, all, is_empty, Text, text_eq, Bool-cases, is_whitespace,
  u8_digits, parse_u8,
}
use gwm_cli.Keymap.Strokes.{KeyCode, f, char, other}
use gwm_cli.Keymap.Parsing.{
  parsed, named_keys, find_key, parse_function_key, parse_unnamed, parse_keycode, show_code,
}

-- The keys that have a spelling: F1 to F12, and any character but `+` and whitespace other than
-- the space.
unfoldable pub has_spelling : KeyCode → Bool
has_spelling (f n) = leb 1 n && leb n 12
has_spelling (char c) = c == 32 || not (is_whitespace c) && not (c == b'+')
has_spelling (other name) = false
has_spelling code = true

abbrev pub plain : Text → Bool
plain [] = true
plain (c ∷ t) = not (is_whitespace c) && not (c == b'+') && plain t

-- A text of one character at least, with no whitespace and no `+`.
abbrev pub spelled : Text → Bool
spelled t = not (is_empty t) && plain t

-- A test that holds below a bound.
abbrev holds_below : (ℕ → Bool) → ℕ → Bool
holds_below p zero = true
holds_below p (suc k) = p k && holds_below p k

below : (p : ℕ → Bool) (k n : ℕ) → n < k → holds_below p k ≡ true → p n ≡ true
below p zero n l h = elim l [ ]
below p (suc k) n l h = elim (Bool-cases (n == k)) [
  | inl t ↦ rw ((==_iff n k).0 t) (ground arith)
  | inr f' ↦ below p k n (ground arith) (ground arith)
]

abbrev reads_back : ℕ → Bool
reads_back n = elim (parse_u8 (u8_digits n)) [ none ↦ false | some m ↦ m == n ]

u8_reads_back : holds_below reads_back 256 ≡ true
unfolding parse_u8 u8_digits
u8_reads_back = refl

parse_u8-u8_digits : (n : ℕ) → n < 256 → parse_u8 (u8_digits n) ≡ some n
parse_u8-u8_digits n l = ground (arith, below reads_back 256 n l u8_reads_back)

u8_plain : holds_below (λ n. plain (u8_digits n)) 256 ≡ true
unfolding u8_digits is_whitespace
u8_plain = refl

has_room : (n : ℕ) → has_spelling (f n) ≡ true → n < 256
unfolding has_spelling
has_room n h = ground arith

show_char : (c : ℕ) → c == 32 ≡ false → show_code (char c) ≡ c ∷ []
unfolding show_code
show_char c n = rw (show_code, n) refl

spelled_char : (c : ℕ) → c == 32 ≡ false → has_spelling (char c) ≡ true → spelled (c ∷ []) ≡ true
unfolding has_spelling
spelled_char c n h = ground arith

pub show_code-spelled : (k : KeyCode) → has_spelling k ≡ true → spelled (show_code k) ≡ true
unfolding has_spelling show_code is_whitespace
show_code-spelled (f n) h = below (λ n'. plain (u8_digits n')) 256 n (has_room n h) u8_plain
show_code-spelled (char c) h = elim (Bool-cases (c == 32)) [
  | inl t ↦ rw ((==_iff c 32).0 t) refl
  | inr n ↦ rw (show_char c n) (spelled_char c n h)
]
show_code-spelled (other name) h = absurd (ground (arith, h))
show_code-spelled k h = refl

-- No name of the table is the text, if all the names have a property that the text rules out.
find_key-none :
    (s : Text) (q : Text → Bool) (ks : List (Text × KeyCode))
    → ((name : Text) → q name ≡ true → text_eq s name ≡ false)
    → all (λ k. q k.0) ks ≡ true
    → find_key s ks ≡ none
unfolding find_key
find_key-none s q [] n h = refl
find_key-none s q ((name, code) ∷ ks) n h =
    ground (arith, n name (ground arith), find_key-none s q ks n (ground arith))

abbrev has_two : Text → Bool
has_two (c ∷ d ∷ t) = true
has_two _ = false

one_character : (c : ℕ) (name : Text) → has_two name ≡ true → text_eq (c ∷ []) name ≡ false
unfolding text_eq
one_character c [] h = refl
one_character c (d ∷ []) h = absurd (ground (arith, h))
one_character c (d ∷ e ∷ t) h = ground arith

find_key-char : (c : ℕ) → find_key (c ∷ []) named_keys ≡ none
find_key-char c = find_key-none (c ∷ []) has_two named_keys (one_character c) refl

abbrev not_function : Text → Bool
not_function (c ∷ t) = not (c == b'F')
not_function [] = true

not_named : (s name : Text) → not_function name ≡ true → text_eq (b'F' ∷ s) name ≡ false
unfolding text_eq
not_named s [] h = refl
not_named s (c ∷ t) h = ground arith

find_key-f : (s : Text) → find_key (b'F' ∷ s) named_keys ≡ none
find_key-f s = find_key-none (b'F' ∷ s) not_function named_keys (not_named s) refl

keycode_unnamed :
    (s token : Text) → find_key s named_keys ≡ none → parse_keycode s token ≡ parse_unnamed s token
unfolding parse_keycode
keycode_unnamed s token e = rw (parse_keycode, e) refl

u8_digits-cons : (n : ℕ) → (c : ℕ) × (t : Text) × (u8_digits n ≡ c ∷ t)
unfolding u8_digits
u8_digits-cons n = elim (Bool-cases (ltb n 10)) [
  | inl t ↦ rw (u8_digits, t) (_, _, refl)
  | inr h ↦ elim (Bool-cases (ltb n 100)) [
    | inl t ↦ rw (u8_digits, h, t) (_, _, refl)
    | inr g ↦ rw (u8_digits, h, g) (_, _, refl)
  ]
]

parse_function_key-f :
    (n : ℕ) (s : Text)
    → has_spelling (f n) ≡ true
    → parse_function_key s (u8_digits n) ≡ parsed (f n)
unfolding parse_function_key has_spelling
parse_function_key-f n s h = rw (parse_function_key, parse_u8-u8_digits n (has_room n h), h) refl

parse_unnamed-f :
    (s t : Text) (c : ℕ)
    → s ≡ c ∷ t
    → (token : Text) → parse_unnamed (b'F' ∷ s) token ≡ parse_function_key (b'F' ∷ s) s
unfolding parse_unnamed
parse_unnamed-f s t c e token = rw e refl

pub parse-show_code :
    (k : KeyCode) (token : Text)
    → has_spelling k ≡ true
    → parse_keycode (show_code k) token ≡ parsed k
parse-show_code (f n) token h =
    let d = u8_digits-cons n in
    unfold show_code in
    keycode_unnamed (b'F' ∷ u8_digits n) token (find_key-f (u8_digits n))
    ∙ parse_unnamed-f (u8_digits n) d.1 d.0 d.2 token
    ∙ parse_function_key-f n (b'F' ∷ u8_digits n) h
parse-show_code (char c) token h = elim (Bool-cases (c == 32)) [
  | inl t ↦ rw ((==_iff c 32).0 t) (unfold show_code parse_keycode find_key text_eq in refl)
  | inr n ↦
      rw (show_char c n)
        (keycode_unnamed (c ∷ []) token (find_key-char c) ∙ unfold parse_unnamed in refl)
]
parse-show_code (other name) token h = absurd (unfold has_spelling in ground (arith, h))
parse-show_code k token h = unfold show_code parse_keycode find_key text_eq in refl
