-- ===== src/Base/Texts.antt =====
-- The operations of the standard library's `str` that the modules share, over scalar values.
use Prim.Native.Nat.{ℕ, suc, ◌+◌, ◌-◌, ◌*◌, ◌/◌, ◌%◌}
use mathlib.Core.Option.{Option, none, some}
use Prim.Native.Char.{code}
use Prim.Native.String.{String}
use mathlib.Core.Path.{◌≡◌, refl, ap, ◌∙◌}
use mathlib.Core.Logic.{◌≢◌, inl, inr}
use mathlib.Core.Bool.{Bool, ◌&&◌, ◌||◌}
use mathlib.Core.List.{List, [], ◌∷◌, ◌++◌}
use native.Mathlib.Omega.{arith}
use gwm_cli.Base.Tests.{Text, ltb, leb, ◌==◌, if◌then◌else◌, Bool-cases}

-- The scalar values of a literal.
abbrev pub codes : String → Text
codes String.[] = []
codes (String.◌∷◌ c s) = code c ∷ codes s

abbrev pub within : ℕ → ℕ → ℕ → Bool
within lo hi c = leb lo c && leb c hi

-- `char::is_whitespace`: the code points of Unicode's White_Space property.
unfoldable pub is_whitespace : ℕ → Bool
is_whitespace c =
    within 9 13 c
    || c == 32
    || c == 0x85
    || c == 0xa0
    || c == 0x1680
    || within 0x2000 0x200a c
    || c == 0x2028
    || c == 0x2029
    || c == 0x202f
    || c == 0x205f
    || c == 0x3000

abbrev pub is_ascii_lowercase : ℕ → Bool
is_ascii_lowercase c = within b'a' b'z' c

abbrev pub is_ascii_digit : ℕ → Bool
is_ascii_digit c = within b'0' b'9' c

-- `char::is_control`: Unicode's category Cc.
abbrev pub is_control : ℕ → Bool
is_control c = ltb c 32 || within 127 159 c

-- How many characters at the front satisfy `p`, and what stands behind them.
abbrev pub count_while : (ℕ → Bool) → Text → ℕ
count_while p [] = 0
count_while p (c ∷ s) = if p c then suc (count_while p s) else 0

abbrev pub drop_while : (ℕ → Bool) → Text → Text
drop_while p [] = []
drop_while p (c ∷ s) = if p c then drop_while p s else c ∷ s

-- `trim_end_matches(c)`: a character goes when only `c`s stand behind it.
abbrev pub trim_end_matches : ℕ → Text → Text
trim_end_matches c [] = []
trim_end_matches c (x ∷ s) = elim (trim_end_matches c s) [
  | [] ↦ (if x == c then [] else x ∷ [])
  | y ∷ r ↦ x ∷ y ∷ r
]

abbrev push_head : ℕ → List Text → List Text
push_head c [] = (c ∷ []) ∷ []
push_head c (h ∷ t) = (c ∷ h) ∷ t

-- `split(sep)` at one character: always at least one part.
unfoldable pub split : ℕ → Text → List Text
split sep [] = [] ∷ []
split sep (c ∷ s) = let r = split sep s in if c == sep then [] ∷ r else push_head c r

unfoldable pub join : Text → List Text → Text
join sep [] = []
join sep (p ∷ []) = p
join sep (p ∷ q ∷ ps) = p ++ (sep ++ join sep (q ∷ ps))

pub split-ne-nil : (sep : ℕ) (s : Text) → split sep s ≢ []
unfolding split
split-ne-nil sep [] = cc
split-ne-nil sep (c ∷ s) = ground (arith, split-ne-nil sep s)

join-push_head :
    (sep c : ℕ) (ps : List Text)
    → ps ≢ []
    → join (sep ∷ []) (push_head c ps) ≡ c ∷ join (sep ∷ []) ps
unfolding join
join-push_head sep c [] h = absurd (h refl)
join-push_head sep c (p ∷ []) h = refl
join-push_head sep c (p ∷ q ∷ ps) h = refl

join-cons-nil :
    (sep : ℕ) (ps : List Text) → ps ≢ [] → join (sep ∷ []) ([] ∷ ps) ≡ sep ∷ join (sep ∷ []) ps
unfolding join
join-cons-nil sep [] h = absurd (h refl)
join-cons-nil sep (q ∷ ps) h = refl

pub join-split : (sep : ℕ) (s : Text) → join (sep ∷ []) (split sep s) ≡ s
unfolding split
join-split sep [] = unfold join in refl
join-split sep (c ∷ s) = elim (Bool-cases (c == sep)) [
  | inl e ↦
      rw e (join-cons-nil sep (split sep s) (split-ne-nil sep s) ∙ ground (arith, join-split sep s))
  | inr n ↦
      rw n (join-push_head sep c (split sep s) (split-ne-nil sep s) ∙ ap (◌∷◌ c) (join-split sep s))
]

-- `split` at the characters that satisfy `p`.
unfoldable pub split_by : (ℕ → Bool) → Text → List Text
split_by p [] = [] ∷ []
split_by p (c ∷ s) = let r = split_by p s in if p c then [] ∷ r else push_head c r

unfoldable pub filled : List Text → List Text
filled [] = []
filled ([] ∷ ts) = filled ts
filled ((c ∷ t) ∷ ts) = (c ∷ t) ∷ filled ts

-- `split_whitespace`: the parts between whitespace that are not empty.
unfoldable pub split_whitespace : Text → List Text
split_whitespace s = filled (split_by is_whitespace s)

-- `str::parse::<u8>` of digits read so far as `acc`.
abbrev pub parse_u8_from : ℕ → Text → Option ℕ
parse_u8_from acc [] = some acc
parse_u8_from acc (c ∷ s) =
    let next = acc * 10 + (c - b'0') in
    let rest = parse_u8_from next s in if is_ascii_digit c && leb next 255 then rest else none

-- `str::parse::<u8>`: one digit at least, behind a `+` or not.
unfoldable pub parse_u8 : Text → Option ℕ
parse_u8 [] = none
parse_u8 (c ∷ []) = if is_ascii_digit c then some (c - b'0') else none
parse_u8 (c ∷ d ∷ s) = if c == b'+' then parse_u8_from 0 (d ∷ s) else parse_u8_from 0 (c ∷ d ∷ s)

-- A `u8` in decimal digits.
unfoldable pub u8_digits : ℕ → Text
u8_digits n =
    if ltb n 10
    then (b'0' + n) ∷ []
    else if ltb n 100
    then (b'0' + n / 10) ∷ (b'0' + n % 10) ∷ []
    else (b'0' + n / 100) ∷ (b'0' + n / 10 % 10) ∷ (b'0' + n % 10) ∷ []

-- The two halves of `trim`.
abbrev pub trim_start : Text → Text
trim_start [] = []
trim_start (c ∷ s) = if is_whitespace c then trim_start s else c ∷ s

-- A trailing space goes when only spaces stand behind it.
abbrev pub trim_end : Text → Text
trim_end [] = []
trim_end (c ∷ s) = elim (trim_end s) [
  | [] ↦ (if is_whitespace c then [] else c ∷ [])
  | d ∷ r ↦ c ∷ d ∷ r
]

abbrev pub trim : Text → Text
trim s = trim_end (trim_start s)

abbrev strip_cr : Text → Text
strip_cr [] = []
strip_cr (c ∷ []) = if c == 13 then [] else c ∷ []
strip_cr (c ∷ d ∷ s) = c ∷ strip_cr (d ∷ s)

abbrev lines_of : List Text → List Text
lines_of [] = []
lines_of ([] ∷ []) = []
lines_of ((c ∷ p) ∷ []) = (c ∷ p) ∷ []
lines_of (p ∷ q ∷ ps) = strip_cr p ∷ lines_of (q ∷ ps)

-- `str::lines`: no last empty line, and `\r\n` ends a line as `\n` does.
unfoldable pub text_lines : Text → List Text
text_lines s = lines_of (split 10 s)
