-- ===== src/Naming/Specs.antt =====
-- src/naming.rs: a structured name, from what the user typed. Lowercasing a text (str::to_lowercase)
-- and the class \d of the crate regex are parameters.
use Prim.Native.String.{String}
use gwm_cli.Base.{
  ℕ, Bool, true, false, not, ◌&&◌, ◌||◌, List, [], ◌∷◌, ◌++◌, Option, none, some, if◌then◌else◌,
  ◌==◌, any, all, map, within, is_empty, drop_while, trim_end_matches, join, Text, text_eq, codes,
}
use gwm_cli.Naming.Boundaries.{
  Segment, type_segment, issue_segment, desc_segment, segment_accepts, segment_starts,
}

pub record BranchType : Type 0 where
  pub name : Text
  pub description : Text

pub record BranchSpec : Type 0 where
  pub type_ : Text
  pub issue : Text
  pub desc : Text

pub data NameError : Type 0 where
  invalid_branch_type : (got allowed : Text) → NameError
  invalid_issue : Text → NameError
  invalid_description : Text → NameError

abbrev builtin : String → String → BranchType
builtin name description = record { name = codes name; description = codes description }

unfoldable pub default_branch_types : List BranchType
default_branch_types =
    builtin "feat" "New feature implementation"
    ∷ builtin "fix" "Bug fix"
    ∷ builtin "hotfix" "Critical production bug fix"
    ∷ builtin "docs" "Documentation changes"
    ∷ builtin "test" "Test additions or modifications"
    ∷ builtin "refactor" "Code restructuring"
    ∷ builtin "chore" "Maintenance tasks"
    ∷ builtin "perf" "Performance improvements"
    ∷ builtin "ci" "CI/CD configuration"
    ∷ builtin "build" "Build system changes"
    ∷ []

unfoldable pub is_ascii_alphanumeric : ℕ → Bool
is_ascii_alphanumeric c = within b'a' b'z' c || within b'A' b'Z' c || within b'0' b'9' c

-- One round of the loop of `kebab`: the text so far, and whether its last character is a dash that
-- stands for a run.
unfoldable pub kebab_step : Text → Bool → ℕ → Text × Bool
kebab_step out prev_dash c =
    if is_ascii_alphanumeric c
    then (out ++ c ∷ [], false)
    else if not prev_dash && not (is_empty out)
    then (out ++ b'-' ∷ [], true)
    else (out, prev_dash)

unfoldable pub kebab_from : Text → Bool → Text → Text
kebab_from out prev_dash [] = out
kebab_from out prev_dash (c ∷ s) =
    kebab_from (kebab_step out prev_dash c).0 (kebab_step out prev_dash c).1 s

unfoldable pub trim_dashes : Text → Text
trim_dashes s = trim_end_matches b'-' (drop_while (λ c. c == b'-') s)

-- DESC_RE.
unfoldable pub is_description : Text → Bool
is_description [] = false
is_description (c ∷ s) = segment_starts desc_segment c && all (segment_accepts desc_segment) s

unfoldable pub contains_segment : Segment → List Segment → Bool
contains_segment s [] = false
contains_segment type_segment (type_segment ∷ r) = true
contains_segment issue_segment (issue_segment ∷ r) = true
contains_segment desc_segment (desc_segment ∷ r) = true
contains_segment s (t ∷ r) = contains_segment s r

abbrev pub segments : List Segment
segments = type_segment ∷ issue_segment ∷ desc_segment ∷ []

unfoldable pub is_allowed : Text → List BranchType → Bool
is_allowed t allowed = any (λ b. text_eq b.name t) allowed

unfoldable pub kebab : (Text → Text) → Text → Text
kebab to_lowercase input = trim_dashes (kebab_from [] false (to_lowercase input))

-- ISSUE_RE.
unfoldable pub is_issue : (ℕ → Bool) → Text → Bool
is_issue is_digit [] = false
is_issue is_digit (c ∷ s) = all is_digit (c ∷ s)

pub data NewSpec : Type 0 where
  made : BranchSpec → NewSpec
  refused : NameError → NewSpec

abbrev pub unless_refused : BranchSpec → Option NameError → NewSpec
unless_refused spec none = made spec
unless_refused spec (some e) = refused e

module _ (to_lowercase : Text → Text) (is_digit : ℕ → Bool) where
  unfoldable pub validate_with_required :
      BranchSpec → List BranchType → List Segment → Option NameError
  validate_with_required spec allowed required =
      if contains_segment type_segment required && not (is_allowed spec.type_ allowed)
      then some (invalid_branch_type spec.type_ (join (codes ", ") (map (λ t. t.name) allowed)))
      else if contains_segment issue_segment required && not (is_issue is_digit spec.issue)
      then some (invalid_issue spec.issue)
      else if contains_segment desc_segment required && not (is_description spec.desc)
      then some (invalid_description spec.desc)
      else none

  unfoldable pub validate_against : BranchSpec → List BranchType → Option NameError
  validate_against spec allowed = validate_with_required spec allowed segments

  unfoldable pub new_with_required : Text → Text → Text → List BranchType → List Segment → NewSpec
  new_with_required type_ issue desc allowed required =
      let spec : BranchSpec = record {
        type_ = type_;
        issue = issue;
        desc = kebab to_lowercase desc;
      } in
      unless_refused spec (validate_with_required spec allowed required)

  unfoldable pub new_with_types : Text → Text → Text → List BranchType → NewSpec
  new_with_types type_ issue desc allowed =
      let spec : BranchSpec = record {
        type_ = type_;
        issue = issue;
        desc = kebab to_lowercase desc;
      } in
      unless_refused spec (validate_against spec allowed)

  unfoldable pub new_spec : Text → Text → Text → NewSpec
  new_spec type_ issue desc = new_with_types type_ issue desc default_branch_types
