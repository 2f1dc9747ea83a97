-- ===== src/Filter.antt =====
-- src/tui/state/filter.rs: the fuzzy filter of the worktree list and its memoised indices.
-- A worktree is what the filter reads of a `WorktreeInfo`. The score of a name against a query
-- comes from the crate nucleo_matcher: a parameter.
pub mod Laws
mod Tests
use gwm_cli.Base.{
  ℕ, zero, suc, ◌+◌, Bool, true, false, not, ◌||◌, ◌&&◌, List, [], ◌∷◌, ◌++◌, Option, none, some,
  ◌==◌, ltb, if◌then◌else◌, length, get_elem?, is_empty, map, Text,
}

pub record WorktreeInfo : Type 0 where
  pub name : Text
  pub is_main : Bool

-- `(0..n)`, from `i`.
unfoldable pub range : ℕ → ℕ → List ℕ
range i zero = []
range i (suc n) = i ∷ range (suc i) n

-- The order of the ranking: by score, the best first, then by index.
unfoldable pub ranks_before : ℕ × ℕ → ℕ × ℕ → Bool
ranks_before a b = if a.0 == b.0 then not (ltb b.1 a.1) else ltb b.0 a.0

unfoldable pub rank_insert : ℕ × ℕ → List (ℕ × ℕ) → List (ℕ × ℕ)
rank_insert a [] = a ∷ []
rank_insert a (b ∷ bs) =
    let rest = rank_insert a bs in if ranks_before a b then a ∷ b ∷ bs else b ∷ rest

unfoldable pub rank : List (ℕ × ℕ) → List (ℕ × ℕ)
rank [] = []
rank (a ∷ xs) = rank_insert a (rank xs)

unfoldable pub keep_if : (ℕ → Bool) → List ℕ → List ℕ
keep_if p [] = []
keep_if p (i ∷ is) = let rest = keep_if p is in if p i then i ∷ rest else rest

unfoldable pub main_row : Option WorktreeInfo → Bool
main_row none = false
main_row (some w) = w.is_main

module _ (score : Text → Text → Option ℕ) where
  unfoldable pub push_score : Option ℕ → ℕ → List (ℕ × ℕ) → List (ℕ × ℕ)
  push_score none i rest = rest
  push_score (some s) i rest = (s, i) ∷ rest

  unfoldable pub scored_from : Text → ℕ → List WorktreeInfo → List (ℕ × ℕ)
  scored_from query i [] = []
  scored_from query i (w ∷ ws) = push_score (score query w.name) i (scored_from query (suc i) ws)

  unfoldable pub fuzzy_match_indices : Text → List WorktreeInfo → List ℕ
  fuzzy_match_indices query ws =
      if is_empty query then range 0 (length ws) else map (λ s. s.1) (rank (scored_from query 0 ws))

  unfoldable pub visible_indices : Text → List WorktreeInfo → (ℕ → Bool) → List ℕ
  visible_indices query ws repo_collapsed =
      if not (is_empty query)
      then fuzzy_match_indices query ws
      else keep_if (λ i. main_row (get_elem? ws i) || not (repo_collapsed i))
          (fuzzy_match_indices query ws)

pub record FilterState : Type 0 where
  pub active : Bool
  pub query : Text
  pub cached_indices : Option (List ℕ)
  pub cache_worktrees_len : ℕ

unfoldable pub new_filter : FilterState
new_filter = record { active = false; query = []; cached_indices = none; cache_worktrees_len = 0 }

unfoldable pub push_char : FilterState → ℕ → FilterState
push_char s c = record s { query = s.query ++ (c ∷ []); cached_indices = none }

-- `String::pop`: the text without its last character.
unfoldable pub without_last : Text → Text
without_last [] = []
without_last (c ∷ []) = []
without_last (c ∷ d ∷ cs) = c ∷ without_last (d ∷ cs)

unfoldable pub pop_char : FilterState → FilterState
pop_char s =
    if is_empty s.query then s else record s { query = without_last s.query; cached_indices = none }

unfoldable pub set_query : FilterState → Text → FilterState
set_query s q = record s { query = q; cached_indices = none }

unfoldable pub clear : FilterState → FilterState
clear s = record s { query = []; active = false; cached_indices = none }

unfoldable pub open_bar : FilterState → FilterState
open_bar s = record s { active = true }

unfoldable pub close_keep : FilterState → FilterState
close_keep s = record s { active = false }

unfoldable pub close_cancel : FilterState → FilterState
close_cancel s = clear s

unfoldable pub invalidate : FilterState → FilterState
invalidate s = record s { cached_indices = none }

module _ {W : Type 0} (compute : Text → List W → List ℕ) where
  unfoldable pub filtered_from : FilterState → List W → Option (List ℕ) → FilterState × List ℕ
  filtered_from s ws none =
      let fresh = compute s.query ws in
      (record s { cached_indices = some fresh; cache_worktrees_len = length ws }, fresh)
  filtered_from s ws (some cached) = (s, cached)

  -- The cache, unless it was filled for a list of another length.
  unfoldable pub hot_cache : FilterState → List W → Option (List ℕ)
  hot_cache s ws = if s.cache_worktrees_len == length ws then s.cached_indices else none

  unfoldable pub filtered_indices : FilterState → List W → FilterState × List ℕ
  filtered_indices s ws = filtered_from s ws (hot_cache s ws)

  unfoldable pub snapshot_from : FilterState → List W → Option (List ℕ) → List ℕ
  snapshot_from s ws none = compute s.query ws
  snapshot_from s ws (some cached) = cached

  unfoldable pub snapshot_indices : FilterState → List W → List ℕ
  snapshot_indices s ws = snapshot_from s ws (hot_cache s ws)
