-- ===== src/Naming/Tests.antt =====
-- Runs of the naming rules. Lowercasing in these runs knows ASCII only.
use gwm_cli.Base.{
  ◌≡◌, refl, Bool, true, false, not, [], ◌∷◌, none, arith, if◌then◌else◌, map, any, all, join,
  split, is_ascii_digit, Text, text_eq, codes,
}
use gwm_cli.CommandLog.{utf8_len, byte_len}
use gwm_cli.Notes.{to_ascii_lowercase, ends_with, is_windows_reserved_segment, stem_of}
use gwm_cli.Naming.Boundaries.{
  type_segment, issue_segment, desc_segment, segment_accepts, segment_starts,
  segment_can_start_with, shifts_by, boundary_can_shift,
}
use gwm_cli.Naming.Display.{
  hidden_in_block, sanitise_block_for_terminal, sanitise_diagnostic_for_terminal,
}
use gwm_cli.Naming.Specs.{
  BranchType, default_branch_types, made, refused, invalid_branch_type, invalid_issue,
  invalid_description, is_ascii_alphanumeric, is_allowed, is_issue, kebab, kebab_from, kebab_step,
  trim_dashes, new_with_types,
}
use gwm_cli.Naming.Freeform.{
  forbidden_char, segments_reason, segment_reason, last_part, is_dot_part, starts_with_dash,
  freeform,
}
use gwm_cli.Naming.Laws.Splits.{IsValue, boundary_can_shift_unique}
use gwm_cli.Naming.Laws.Slugs.{is_capital, new_with_types-cases}
use gwm_cli.Naming.Laws.Directories.{git_refuses, Usable, freeform-Usable}
use gwm_cli.Naming.Laws.Margins.{margins, sanitise_diagnostic_for_terminal-margins}

no_capital : (t : Text) → all (λ c. not (is_capital c)) (to_ascii_lowercase t) ≡ true
no_capital [] = refl
no_capital (c ∷ t) = ground (arith, no_capital t)

kebab_title : kebab to_ascii_lowercase (codes "Fix: the Log (again)!") ≡ codes "fix-the-log-again"
unfolding kebab kebab_from kebab_step trim_dashes is_ascii_alphanumeric
kebab_title = refl

new_with_types-cases_example :
    new_with_types to_ascii_lowercase is_ascii_digit
      (codes "feat")
      (codes "42")
      (codes "Add a Log")
      default_branch_types
    ≡ (if not (is_allowed (codes "feat") default_branch_types)
        then refused (
            invalid_branch_type
              (codes "feat")
              (join (codes ", ") (map (λ (t : BranchType). t.name) default_branch_types)))
        else if not (is_issue is_ascii_digit (codes "42"))
        then refused (invalid_issue (codes "42"))
        else if not (any is_ascii_alphanumeric (to_ascii_lowercase (codes "Add a Log")))
        then refused (invalid_description [])
        else made (record {
          type_ = codes "feat";
          issue = codes "42";
          desc = kebab to_ascii_lowercase (codes "Add a Log");
        }))
new_with_types-cases_example =
    new_with_types-cases to_ascii_lowercase no_capital is_ascii_digit (codes "feat") (codes "42")
      (codes "Add a Log") default_branch_types

slash_fixed : boundary_can_shift type_segment (codes "/#") issue_segment ≡ false
unfolding boundary_can_shift shifts_by segment_accepts segment_starts segment_can_start_with text_eq
slash_fixed = refl

feat-IsValue : IsValue type_segment (codes "feat")
unfolding segment_can_start_with segment_starts segment_accepts
feat-IsValue = (cc, refl)

issue-IsValue : IsValue issue_segment (codes "42")
unfolding segment_can_start_with segment_starts segment_accepts
issue-IsValue = (cc, refl)

boundary_can_shift_unique_example : (codes "feat" ≡ codes "feat") × (codes "42" ≡ codes "42")
boundary_can_shift_unique_example =
    boundary_can_shift_unique type_segment issue_segment (codes "/#") (codes "feat") (codes "42")
      (codes "feat") (codes "42") (cc) slash_fixed feat-IsValue feat-IsValue issue-IsValue
      issue-IsValue refl

-- With `-` between them a description and a type are told apart, a description and an issue too.
dash_fixed : boundary_can_shift desc_segment (codes "-") issue_segment ≡ false
unfolding boundary_can_shift shifts_by segment_accepts segment_starts segment_can_start_with text_eq
dash_fixed = refl

adjacent_shifts : boundary_can_shift issue_segment [] desc_segment ≡ true
unfolding boundary_can_shift segment_accepts segment_starts
adjacent_shifts = refl

-- A git that refuses by characters only.
abbrev by_characters : Text → Bool
by_characters t = all (λ c. not (git_refuses c)) t

spike_accepted : freeform by_characters (codes "spike/Redis.v2") ≡ none
unfolding freeform split is_dot_part text_eq starts_with_dash byte_len utf8_len last_part
    forbidden_char segments_reason segment_reason ends_with is_windows_reserved_segment stem_of
spike_accepted = refl

freeform-Usable_example : Usable by_characters (codes "spike/Redis.v2")
freeform-Usable_example =
    freeform-Usable by_characters (λ n h. h) (codes "spike/Redis.v2") spike_accepted

sanitise_diagnostic_for_terminal-margins_example :
    (split 10 (sanitise_diagnostic_for_terminal (codes "unknown key\nerror: forged"))
      ≡ margins (split 10 (sanitise_block_for_terminal (codes "unknown key\nerror: forged"))))
    × (all
          (λ c. not (hidden_in_block c))
          (sanitise_diagnostic_for_terminal (codes "unknown key\nerror: forged"))
        ≡ true)
sanitise_diagnostic_for_terminal-margins_example =
    sanitise_diagnostic_for_terminal-margins (codes "unknown key\nerror: forged")
