-- ===== src/Naming/Laws/Margins.antt =====
-- A diagnostic keeps to its margin.
use gwm_cli.Base.{
  ℕ, ◌≡◌, ◌≢◌, refl, ap, ◌∙◌, Bool, true, not, List, [], ◌∷◌, ◌++◌, arith, if◌then◌else◌, ◌==◌, all,
  map, split, split-ne-nil, Text, codes,
}
use mathlib.Core.List.{append-nil}
use gwm_cli.Naming.Display.{
  with_margin, is_display_reordering, hidden_in_block, normalise_crlf, sanitise_block_for_terminal,
  indented, sanitise_diagnostic_for_terminal,
}

-- The lines behind the first have a margin of two spaces.
abbrev pub margins : List Text → List Text
margins [] = []
margins (line ∷ lines) = line ∷ map (λ l. codes "  " ++ l) lines

abbrev is_safe : ℕ → Bool
is_safe c = not (hidden_in_block c)

abbrev shown : ℕ → ℕ
shown c = if hidden_in_block c then b'?' else c

shown-is_safe : (c : ℕ) → is_safe (shown c) ≡ true
unfolding hidden_in_block is_display_reordering
shown-is_safe c = ground arith

abbrev lacks : Text → Bool
lacks p = all (λ c. not (c == 10)) p

-- A part without the separator stays in front.
split-append : (p s : Text) → lacks p ≡ true → split 10 (p ++ 10 ∷ s) ≡ p ∷ split 10 s
unfolding split
split-append [] s h = refl
split-append (c ∷ p) s h = ground (arith, h, split-append p s)

split_whole : (p : Text) → lacks p ≡ true → split 10 p ≡ p ∷ []
unfolding split
split_whole [] h = refl
split_whole (c ∷ p) h = ground (arith, h, split_whole p)

parts_lack : (s : Text) → all lacks (split 10 s) ≡ true
unfolding split
parts_lack [] = refl
parts_lack (c ∷ s) = ground (arith, parts_lack s)

split-indented :
    (line : Text) (lines : List Text)
    → lacks line ≡ true
    → all lacks lines ≡ true
    → split 10 (line ++ indented lines) ≡ line ∷ map (λ l. codes "  " ++ l) lines
unfolding indented
split-indented line [] h k = rw (append-nil line) (split_whole line h)
split-indented line (l ∷ ls) h k =
    split-append line (codes "  " ++ (l ++ indented ls)) h
    ∙ ap (◌∷◌ line) (split-indented (codes "  " ++ l) ls (ground (arith, k)) (ground (arith, k)))

split-with_margin :
    (lines : List Text)
    → lines ≢ []
    → all lacks lines ≡ true
    → split 10 (with_margin lines) ≡ margins lines
split-with_margin [] n h = absurd (n refl)
split-with_margin (line ∷ lines) n h =
    split-indented line lines (ground (arith, h)) (ground (arith, h))

all-append_both :
    (q : ℕ → Bool) (a b : Text) → all q a ≡ true → all q b ≡ true → all q (a ++ b) ≡ true
all-append_both q [] b h k = k
all-append_both q (c ∷ a) b h k = ground (arith, h, all-append_both q a b)

parts_safe : (s : Text) → all is_safe s ≡ true → all (all is_safe) (split 10 s) ≡ true
unfolding split
parts_safe [] h = refl
parts_safe (c ∷ s) h = ground (arith, h, parts_safe s)

indented_safe :
    (lines : List Text) → all (all is_safe) lines ≡ true → all is_safe (indented lines) ≡ true
unfolding indented hidden_in_block is_display_reordering
indented_safe [] h = refl
indented_safe (l ∷ ls) h =
    all-append_both is_safe l (indented ls) (ground (arith, h))
      (indented_safe ls (ground (arith, h)))

with_margin_safe :
    (lines : List Text) → all (all is_safe) lines ≡ true → all is_safe (with_margin lines) ≡ true
with_margin_safe [] h = refl
with_margin_safe (l ∷ ls) h =
    all-append_both is_safe l (indented ls) (ground (arith, h))
      (indented_safe ls (ground (arith, h)))

shown_safe : (s : Text) → all is_safe (map (λ c. if hidden_in_block c then b'?' else c) s) ≡ true
shown_safe [] = refl
shown_safe (c ∷ s) = ground (arith, shown-is_safe c, shown_safe s)

-- A diagnostic shows the lines of the block it is made of, all but the first behind two spaces, and
-- no control character but tabs and line ends, and none that reorders the display.
pub sanitise_diagnostic_for_terminal-margins :
    (s : Text)
    → (split 10 (sanitise_diagnostic_for_terminal s)
        ≡ margins (split 10 (sanitise_block_for_terminal s)))
      × (all (λ c. not (hidden_in_block c)) (sanitise_diagnostic_for_terminal s) ≡ true)
unfolding sanitise_diagnostic_for_terminal
sanitise_diagnostic_for_terminal-margins s =
    let block = sanitise_block_for_terminal s in
    (
      split-with_margin (split 10 block) (split-ne-nil 10 block) (parts_lack block),
      with_margin_safe (split 10 block)
          (parts_safe block (unfold sanitise_block_for_terminal in shown_safe (normalise_crlf s))),
    )
