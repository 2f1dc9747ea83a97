-- ===== src/Aliases/Tests.antt =====
-- Runs of the aliases. The tokeniser of these runs cuts at spaces.
use gwm_cli.Base.{
  ◌≡◌, refl, true, ◌||◌, List, [], ◌∷◌, Option, none, some, if◌then◌else◌, split, Text, text_eq,
  codes, is_whitespace,
}
use gwm_cli.Naming.Display.{is_display_reordering}
use gwm_cli.Naming.Freeform.{starts_with_dash}
use gwm_cli.Aliases.{
  Aliases, ResolvedAliases, built_in_aliases, built_in_subcommands, has_name, get, find_built_in,
  lookup, begins_with, contains_text, find_metachar, is_bad_char, find_bad, check_alias,
  validate_aliases, find_word, expand_argv,
}
use gwm_cli.Aliases.Laws.Validating.{lookup-known}

abbrev shell_split : Text → Option (List Text)
shell_split s = some (split b' ' s)

abbrev user : Aliases
user = (codes "wip", codes "create feat 0 wip") ∷ []

abbrev resolved : ResolvedAliases
resolved = record { built_in = built_in_aliases; repo = []; user = user }

abbrev argv : List Text
argv = codes "gwm" ∷ codes "-q" ∷ codes "wip" ∷ codes "--no-bootstrap" ∷ []

abbrev clap_names : List Text
clap_names = codes "list" ∷ codes "path" ∷ codes "cd" ∷ []

expands :
    expand_argv shell_split resolved argv
    ≡ some (
        codes "gwm"
        ∷ codes "-q"
        ∷ codes "create"
        ∷ codes "feat"
        ∷ codes "0"
        ∷ codes "wip"
        ∷ codes "--no-bootstrap"
        ∷ [])
unfolding expand_argv find_word starts_with_dash lookup has_name built_in_subcommands text_eq
    find_built_in get split
expands = refl

user_valid : validate_aliases clap_names user ≡ none
unfolding validate_aliases check_alias has_name built_in_subcommands text_eq find_metachar
    contains_text begins_with find_bad is_bad_char is_display_reordering is_whitespace
user_valid = refl

repo_valid : validate_aliases clap_names [] ≡ none
unfolding validate_aliases
repo_valid = refl

cd_known : (has_name clap_names (codes "cd") || has_name built_in_subcommands (codes "cd")) ≡ true
unfolding has_name text_eq
cd_known = refl

lookup-known_example : lookup resolved (codes "cd") ≡ (
    if has_name built_in_subcommands (codes "cd")
    then none
    else find_built_in built_in_aliases (codes "cd"))
lookup-known_example = lookup-known clap_names resolved (codes "cd") repo_valid user_valid cd_known

wip_found : get user (codes "wip") ≡ some (codes "create feat 0 wip")
unfolding get text_eq
wip_found = refl
