-- ===== src/Naming/PatternTests.antt =====
-- Runs of the patterns.
use gwm_cli.Base.{◌≡◌, refl, true, [], ◌∷◌, ◌++◌, Option, none, some, Text, text_eq, codes}
use gwm_cli.Naming.Boundaries.{type_segment, issue_segment, desc_segment}
use gwm_cli.Naming.Freeform.{freeform_dirname}
use gwm_cli.Naming.Names.{
  structured, chosen, placed, base_asks, first_asked, place_chosen, name_path,
}
use gwm_cli.Naming.Laws.Beside.{name_path-beside}
use gwm_cli.Naming.Specs.{segments, BranchSpec, contains_segment}
use gwm_cli.Naming.Patterns.{
  WorktreeConfig, default_config, worktree_dirname, placeholder, begins, find_text, segment_hits,
  insert_hit, sort_hits, push_new, push_hits, editable_from, editable_segments, value_for,
  expand_tokens, expand_placeholders, branch_name, worktree_path,
}
use gwm_cli.Naming.Laws.Expansions.{
  AgreeOnFields, patterns_of, value_of, branch_name-fields, expand_tokens-asked,
}

abbrev spec : BranchSpec
spec = record { type_ = codes "feat"; issue = codes "42"; desc = codes "add-a-log" }

abbrev numberless : BranchSpec
numberless = record { type_ = codes "feat"; issue = []; desc = codes "add-a-log" }

abbrev short : WorktreeConfig
short = record {
  base = codes "{repo_parent}/wt";
  path_pattern = codes "{desc}";
  branch_pattern = codes "{type}/{{desc}";
}

abbrev no_parent : Text → Option Text
no_parent p = none

abbrev same_text : Text → Text
same_text t = t

abbrev join_slash : Text → Text → Text
join_slash a b = a ++ (codes "/" ++ b)

-- The order is that of the pattern, and no segment comes twice.
desc_first :
    editable_segments (codes "{desc}-{type}-{desc}" ∷ codes "{issue}" ∷ [])
    ≡ desc_segment ∷ type_segment ∷ issue_segment ∷ []
unfolding editable_segments editable_from segment_hits push_hits push_new sort_hits insert_hit
    find_text begins placeholder contains_segment
desc_first = refl

-- The token starts at the last brace, and a value is not read again.
last_brace :
    branch_name no_parent same_text (some (codes "/home/me")) spec short (codes "r")
    ≡ some (codes "feat/{add-a-log")
unfolding branch_name expand_placeholders expand_tokens value_for text_eq
last_brace = refl

by_default :
    branch_name no_parent same_text (some (codes "/home/me")) spec default_config (codes "r")
    ≡ some (codes "feat/#42-add-a-log")
unfolding branch_name default_config expand_placeholders expand_tokens value_for text_eq
by_default = refl

in_home :
    worktree_path no_parent same_text
      (some (codes "/home/me"))
      join_slash
      spec
      default_config
      (codes "{type}")
      (codes "/src/r")
    ≡ some (codes "/home/me/cc-worktree/{type}/feat-42-add-a-log")
unfolding worktree_path worktree_dirname default_config expand_placeholders expand_tokens value_for
    text_eq
in_home = refl

homeless : branch_name no_parent same_text none spec short (codes "r") ≡ none
unfolding branch_name expand_placeholders
homeless = refl

same_but_issue : AgreeOnFields spec numberless (patterns_of short)
unfolding editable_segments editable_from segment_hits push_hits push_new sort_hits insert_hit
    find_text begins placeholder contains_segment
same_but_issue type_segment h = refl
same_but_issue issue_segment h = cc
same_but_issue desc_segment h = refl

branch_name-fields_example :
    (branch_name no_parent same_text (some (codes "/home/me")) spec short (codes "r")
      ≡ branch_name no_parent same_text (some (codes "/home/me")) numberless short (codes "r"))
    × (worktree_path no_parent same_text
          (some (codes "/home/me"))
          join_slash
          spec
          short
          (codes "r")
          (codes "/src/r")
        ≡ worktree_path no_parent same_text
            (some (codes "/home/me"))
            join_slash
            numberless
            short
            (codes "r")
            (codes "/src/r"))
branch_name-fields_example =
    branch_name-fields no_parent same_text (some (codes "/home/me")) spec numberless short
      same_but_issue join_slash (codes "r") (codes "/src/r")

desc_asked : contains_segment desc_segment (editable_segments (codes "{type}/{{desc}" ∷ [])) ≡ true
unfolding editable_segments editable_from segment_hits push_hits push_new sort_hits insert_hit
    find_text begins placeholder contains_segment
desc_asked = refl

expand_tokens-asked_example :
    (pre : Text) × (post : Text) × (expand_tokens
        (value_for no_parent
          (codes "/home/me")
          (codes "r")
          (some (codes "feat"))
          (some (codes "42"))
          (some (codes "add-a-log"))
          none)
        none
        (codes "{type}/{{desc}")
      ≡ pre ++ (value_of spec desc_segment ++ post))
expand_tokens-asked_example =
    expand_tokens-asked no_parent (codes "/home/me") (codes "r") none spec desc_segment
      (codes "{type}/{{desc}") desc_asked

-- A base that asks for a segment is refused for a chosen name.
base_refused :
    name_path no_parent same_text
      (some (codes "/home/me"))
      join_slash
      (record { base = codes "/wt/{desc}/{type}"; path_pattern = []; branch_pattern = [] })
      (codes "r")
      (codes "/src/r")
      (chosen (codes "spike"))
    ≡ base_asks (codes "/wt/{desc}/{type}") type_segment
unfolding name_path place_chosen first_asked find_text begins placeholder
base_refused = refl

default_base_free : first_asked (codes "{home}/cc-worktree/{repo}") segments ≡ none
unfolding first_asked find_text begins placeholder
default_base_free = refl

abbrev homely : WorktreeConfig
homely = record {
  base = codes "{home}/cc-worktree/{repo}";
  path_pattern = codes "{type}-{issue}-{desc}";
  branch_pattern = codes "{type}/#{issue}-{desc}";
}

structured_placed :
    name_path no_parent same_text
      (some (codes "/home/me"))
      join_slash
      homely
      (codes "r")
      (codes "/src/r")
      (structured spec)
    ≡ placed (codes "/home/me/cc-worktree/r/feat-42-add-a-log")
unfolding name_path worktree_path worktree_dirname expand_placeholders expand_tokens value_for
    text_eq
structured_placed = refl

name_path-beside_example :
    (base : Text) × (dir : Text) × (worktree_dirname no_parent same_text
        (some (codes "/home/me"))
        spec
        homely
        (codes "r")
      ≡ some dir)
    × (codes "/home/me/cc-worktree/r/feat-42-add-a-log" ≡ join_slash base dir)
    × (name_path no_parent same_text
          (some (codes "/home/me"))
          join_slash
          homely
          (codes "r")
          (codes "/src/r")
          (chosen (codes "spike/redis"))
        ≡ placed (join_slash base (freeform_dirname (codes "spike/redis"))))
name_path-beside_example =
    name_path-beside no_parent same_text join_slash homely (codes "r") (codes "/src/r")
      (some (codes "/home/me")) spec (codes "spike/redis")
      (codes "/home/me/cc-worktree/r/feat-42-add-a-log") default_base_free structured_placed
