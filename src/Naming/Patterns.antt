-- ===== src/Naming/Patterns.antt =====
-- src/naming.rs and src/config.rs: the patterns of branches and worktrees, which segments they ask
-- for and what they expand to. The home directory, the crate shellexpand and the operations of
-- paths are parameters; a path is the text that stands for it.
use gwm_cli.Base.{
  ℕ, suc, Bool, true, false, ◌&&◌, List, [], ◌∷◌, ◌++◌, Option, none, some, if◌then◌else◌, ◌==◌,
  leb, ◌>>=◌, Text, text_eq, codes,
}
use gwm_cli.Naming.Boundaries.{Segment, type_segment, issue_segment, desc_segment}
use gwm_cli.Naming.Specs.{BranchSpec, contains_segment, segments}

pub record WorktreeConfig : Type 0 where
  pub base : Text
  pub path_pattern : Text
  pub branch_pattern : Text

unfoldable pub default_config : WorktreeConfig
default_config = record {
  base = codes "{home}/cc-worktree/{repo}";
  path_pattern = codes "{type}-{issue}-{desc}";
  branch_pattern = codes "{type}/#{issue}-{desc}";
}

-- `format!("{{{}}}", segment)`.
unfoldable pub placeholder : Segment → Text
placeholder type_segment = codes "{type}"
placeholder issue_segment = codes "{issue}"
placeholder desc_segment = codes "{desc}"

-- `str::starts_with` and `str::find`.
unfoldable pub begins : Text → Text → Bool
begins s [] = true
begins [] (d ∷ t) = false
begins (c ∷ s) (d ∷ t) = c == d && begins s t

abbrev pub one_further : Option ℕ → Option ℕ
one_further none = none
one_further (some i) = some (suc i)

unfoldable pub find_text : Text → Text → Option ℕ
find_text [] t = if begins [] t then some 0 else none
find_text (c ∷ s) t =
    let rest = one_further (find_text s t) in if begins (c ∷ s) t then some 0 else rest

abbrev pub with_hit : Segment → Option ℕ → List (ℕ × Segment) → List (ℕ × Segment)
with_hit s none hits = hits
with_hit s (some at) hits = (at, s) ∷ hits

abbrev pub found : Option ℕ → Bool
found none = false
found (some at) = true

-- The segments that a pattern writes, with their first place.
unfoldable pub segment_hits : Text → List Segment → List (ℕ × Segment)
segment_hits pattern [] = []
segment_hits pattern (s ∷ ss) =
    with_hit s (find_text pattern (placeholder s)) (segment_hits pattern ss)

-- `sort_by_key`, which is stable.
unfoldable pub insert_hit : ℕ × Segment → List (ℕ × Segment) → List (ℕ × Segment)
insert_hit h [] = h ∷ []
insert_hit h (k ∷ hits) =
    let rest = insert_hit h hits in if leb h.0 k.0 then h ∷ k ∷ hits else k ∷ rest

unfoldable pub sort_hits : List (ℕ × Segment) → List (ℕ × Segment)
sort_hits [] = []
sort_hits (h ∷ hits) = insert_hit h (sort_hits hits)

unfoldable pub push_new : List Segment → Segment → List Segment
push_new out s = if contains_segment s out then out else out ++ (s ∷ [])

unfoldable pub push_hits : List Segment → List (ℕ × Segment) → List Segment
push_hits out [] = out
push_hits out (h ∷ hits) = push_hits (push_new out h.1) hits

unfoldable pub editable_from : List Segment → List Text → List Segment
editable_from out [] = out
editable_from out (p ∷ ps) = editable_from (push_hits out (sort_hits (segment_hits p segments))) ps

unfoldable pub editable_segments : List Text → List Segment
editable_segments patterns = editable_from [] patterns

-- What a token stands for.
module _ (parent : Text → Option Text) (home repo : Text) where
  unfoldable pub value_for :
      Option Text → Option Text → Option Text → Option Text → Text → Option Text
  value_for type_ issue desc repo_path token =
      if text_eq token (codes "{home}")
      then some home
      else if text_eq token (codes "{repo}")
      then some repo
      else if text_eq token (codes "{type}")
      then type_
      else if text_eq token (codes "{issue}")
      then issue
      else if text_eq token (codes "{desc}")
      then desc
      else if text_eq token (codes "{repo_path}")
      then repo_path
      else if text_eq token (codes "{repo_parent}")
      then repo_path >>= parent
      else none

abbrev pub value_or_token : Text → Option Text → Text
value_or_token token none = token
value_or_token token (some value) = value

module _ (value : Text → Option Text) where
  -- One pass over the template: `some t` behind an open brace, with the text from the last one on.
  -- A brace that is never closed stays, with all behind it.
  unfoldable pub expand_tokens : Option Text → Text → Text
  expand_tokens none [] = []
  expand_tokens (some t) [] = t
  expand_tokens none (c ∷ s) = elim (c == b'{') [
    | true ↦ expand_tokens (some (c ∷ [])) s
    | false ↦ c ∷ expand_tokens none s
  ]
  expand_tokens (some t) (c ∷ s) = elim (c == b'}') [
    | true ↦ value_or_token (t ++ (c ∷ [])) (value (t ++ (c ∷ []))) ++ expand_tokens none s
    | false ↦ elim (c == b'{') [
      | true ↦ t ++ expand_tokens (some (c ∷ [])) s
      | false ↦ expand_tokens (some (t ++ (c ∷ []))) s
    ]
  ]

module _ (parent : Text → Option Text) (tilde : Text → Text) (home_dir : Option Text) where
  -- `none` is the error of a home directory that is not known.
  unfoldable pub expand_placeholders :
      Text → Text → Option Text → Option Text → Option Text → Option Text → Option Text
  expand_placeholders template repo type_ issue desc repo_path = do
    home ← home_dir
    some (
        tilde (expand_tokens (value_for parent home repo type_ issue desc repo_path) none template))

  unfoldable pub branch_name : BranchSpec → WorktreeConfig → Text → Option Text
  branch_name spec cfg repo =
      expand_placeholders cfg.branch_pattern repo (some spec.type_) (some spec.issue)
        (some spec.desc) none

  unfoldable pub worktree_dirname : BranchSpec → WorktreeConfig → Text → Option Text
  worktree_dirname spec cfg repo =
      expand_placeholders cfg.path_pattern repo (some spec.type_) (some spec.issue) (some spec.desc)
        none

  unfoldable pub worktree_path :
      (Text → Text → Text) → BranchSpec → WorktreeConfig → Text → Text → Option Text
  worktree_path join_path spec cfg repo repo_path = do
    base ←
        expand_placeholders cfg.base repo (some spec.type_) (some spec.issue) (some spec.desc)
          (some repo_path)
    dir ← worktree_dirname spec cfg repo
    some (join_path base dir)
