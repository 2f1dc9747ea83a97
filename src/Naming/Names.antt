-- ===== src/Naming/Names.antt =====
-- src/naming.rs: a worktree's name of either kind, with its branch, its directory and its path.
use gwm_cli.Base.{List, [], ◌∷◌, Option, none, some, if◌then◌else◌, ◌>>=◌, Text}
use gwm_cli.Naming.Boundaries.{Segment}
use gwm_cli.Naming.Specs.{BranchSpec, segments}
use gwm_cli.Naming.Freeform.{freeform_dirname}
use gwm_cli.Naming.Patterns.{
  WorktreeConfig, placeholder, found, find_text, expand_placeholders, branch_name, worktree_dirname,
  worktree_path,
}

pub data WorktreeName : Type 0 where
  structured : BranchSpec → WorktreeName
  chosen : Text → WorktreeName

-- Where a worktree goes, or the error: no home directory, or a base that a chosen name has no value
-- for, with the first such segment.
pub data Place : Type 0 where
  placed : Text → Place
  home_unknown : Place
  base_asks : (base : Text) → Segment → Place

-- The first of the segments that the base has the placeholder of.
unfoldable pub first_asked : Text → List Segment → Option Segment
first_asked base [] = none
first_asked base (s ∷ ss) =
    let rest = first_asked base ss in
    if found (find_text base (placeholder s)) then some s else rest

abbrev pub place_of : Option Text → Place
place_of none = home_unknown
place_of (some p) = placed p

module _ (parent : Text → Option Text) (tilde : Text → Text) (home_dir : Option Text) where
  unfoldable pub name_branch : WorktreeName → WorktreeConfig → Text → Option Text
  name_branch (structured spec) cfg repo = branch_name parent tilde home_dir spec cfg repo
  name_branch (chosen name) cfg repo = some name

  unfoldable pub name_dirname : WorktreeName → WorktreeConfig → Text → Option Text
  name_dirname (structured spec) cfg repo = worktree_dirname parent tilde home_dir spec cfg repo
  name_dirname (chosen name) cfg repo = some (freeform_dirname name)

  module _ (join_path : Text → Text → Text) (cfg : WorktreeConfig) (repo repo_path : Text) where
    -- The path below the base, which is expanded without the segments.
    unfoldable pub chosen_path : Text → Option Text
    chosen_path name = do
      base ← expand_placeholders parent tilde home_dir cfg.base repo none none none (some repo_path)
      dir ← name_dirname (chosen name) cfg repo
      some (join_path base dir)

    unfoldable pub place_chosen : Text → Option Segment → Place
    place_chosen name none = place_of (chosen_path name)
    place_chosen name (some s) = base_asks cfg.base s

    unfoldable pub name_path : WorktreeName → Place
    name_path (structured spec) =
        place_of (worktree_path parent tilde home_dir join_path spec cfg repo repo_path)
    name_path (chosen name) = place_chosen name (first_asked cfg.base segments)
