-- ===== src/Naming/Display.antt =====
-- src/naming.rs: texts of a repository made harmless for a terminal.
use gwm_cli.Base.{
  ℕ, Bool, true, false, not, ◌&&◌, ◌||◌, List, [], ◌∷◌, ◌++◌, if◌then◌else◌, ◌==◌, map, within,
  is_control, split, Text, codes,
}

-- Unicode's Bidi_Control.
unfoldable pub is_display_reordering : ℕ → Bool
is_display_reordering c =
    c == 0x61c || c == 0x200e || c == 0x200f || within 0x202a 0x202e c || within 0x2066 0x2069 c

unfoldable pub hidden_in_row : ℕ → Bool
hidden_in_row c = is_control c || is_display_reordering c

unfoldable pub sanitise_for_terminal : Text → Text
sanitise_for_terminal s = map (λ c. if hidden_in_row c then b'?' else c) s

-- `replace("\r\n", "\n")`.
unfoldable pub normalise_crlf : Text → Text
normalise_crlf [] = []
normalise_crlf (c ∷ []) = c ∷ []
normalise_crlf (c ∷ d ∷ s) = elim (c == 13 && d == 10) [
  | true ↦ 10 ∷ normalise_crlf s
  | false ↦ c ∷ normalise_crlf (d ∷ s)
]

unfoldable pub hidden_in_block : ℕ → Bool
hidden_in_block c = (is_control c && not (c == 10) && not (c == 9)) || is_display_reordering c

unfoldable pub sanitise_block_for_terminal : Text → Text
sanitise_block_for_terminal s = map (λ c. if hidden_in_block c then b'?' else c) (normalise_crlf s)

-- Every line behind the first, on a row of its own with a margin.
unfoldable pub indented : List Text → Text
indented [] = []
indented (line ∷ lines) = codes "\n  " ++ (line ++ indented lines)

abbrev pub with_margin : List Text → Text
with_margin [] = []
with_margin (line ∷ lines) = line ++ indented lines

unfoldable pub sanitise_diagnostic_for_terminal : Text → Text
sanitise_diagnostic_for_terminal s = with_margin (split 10 (sanitise_block_for_terminal s))
