-- ===== src/Naming/Boundaries.antt =====
-- src/naming.rs: whether the boundary between two consecutive captures of a branch pattern can
-- move. A segment is named by a constructor, not by its text.
use gwm_cli.Base.{
  ℕ, zero, suc, ◌-◌, Bool, true, ◌&&◌, ◌||◌, List, [], ◌∷◌, ◌==◌, if◌then◌else◌, any, all, take,
  drop, length, is_empty, is_ascii_lowercase, is_ascii_digit, Text, text_eq, codes,
}

pub data Segment : Type 0 where
  type_segment issue_segment desc_segment : Segment

unfoldable pub segment_accepts : Segment → ℕ → Bool
segment_accepts type_segment c = is_ascii_lowercase c
segment_accepts issue_segment c = is_ascii_digit c
segment_accepts desc_segment c = is_ascii_lowercase c || is_ascii_digit c || c == b'-'

unfoldable pub segment_starts : Segment → ℕ → Bool
unfolding segment_accepts
segment_starts desc_segment c = is_ascii_lowercase c || is_ascii_digit c
segment_starts type_segment c = segment_accepts type_segment c
segment_starts issue_segment c = segment_accepts issue_segment c

unfoldable pub segment_can_start_with : Segment → Text → Bool
segment_can_start_with segment [] = true
segment_can_start_with segment (first ∷ rest) =
    segment_starts segment first && all (segment_accepts segment) rest

abbrev pub witnesses : List ℕ
witnesses = codes "a0-"

abbrev pub range_from : ℕ → ℕ → List ℕ
range_from i zero = []
range_from i (suc n) = i ∷ range_from (suc i) n

-- The split moves by `d` characters to the right.
unfoldable pub shifts_by : Segment → Text → Segment → ℕ → Bool
shifts_by left sep right d =
    all (segment_accepts left) (take d sep)
    && text_eq (take (length sep - d) sep) (drop d sep)
    && segment_can_start_with right (drop (length sep - d) sep)

unfoldable pub boundary_can_shift : Segment → Text → Segment → Bool
boundary_can_shift left sep right =
    if is_empty sep
    then any (λ c. segment_accepts left c && segment_starts right c) witnesses
    else any (shifts_by left sep right) (range_from 1 (length sep))
