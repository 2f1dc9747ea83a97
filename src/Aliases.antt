-- ===== src/Aliases.antt =====
-- src/aliases.rs: the aliases of the command line, their validation and their expansion. The
-- tokeniser shell_words::split and the names that clap knows are parameters; a map is the list of
-- its entries in order.
pub mod Laws
mod Tests
use gwm_cli.Base.{
  ℕ, zero, suc, ◌+◌, Bool, true, false, not, ◌&&◌, ◌||◌, List, [], ◌∷◌, ◌++◌, Option, none, some,
  if◌then◌else◌, ltb, ◌==◌, any, map, take, drop, length, get_elem?, is_empty, is_control, trim,
  Text, text_eq, codes,
}
use gwm_cli.Naming.Display.{is_display_reordering}
use gwm_cli.Naming.Freeform.{starts_with_dash}

pub record AliasEntry : Type 0 where
  pub name : Text
  pub expansion : Text

abbrev pub built_in_aliases : List AliasEntry
built_in_aliases =
    record { name = codes "cd"; expansion = codes "path" }
    ∷ record { name = codes "s"; expansion = codes "switch" }
    ∷ []

abbrev pub Aliases : Type 0
Aliases = List (Text × Text)

pub record ResolvedAliases : Type 0 where
  pub built_in : List AliasEntry
  pub repo : Aliases
  pub user : Aliases

unfoldable pub built_in_subcommands : List Text
built_in_subcommands =
    codes "init"
    ∷ codes "list"
    ∷ codes "create"
    ∷ codes "remove"
    ∷ codes "path"
    ∷ codes "bootstrap"
    ∷ codes "prune"
    ∷ codes "doctor"
    ∷ codes "types"
    ∷ codes "completions"
    ∷ codes "shell-init"
    ∷ codes "switch"
    ∷ codes "tmux"
    ∷ codes "zellij"
    ∷ codes "herdr"
    ∷ codes "link"
    ∷ codes "unlink"
    ∷ codes "open"
    ∷ codes "status"
    ∷ codes "labels"
    ∷ codes "milestones"
    ∷ codes "trust"
    ∷ codes "aliases"
    ∷ codes "help"
    ∷ []

unfoldable pub has_name : List Text → Text → Bool
has_name names name = any (λ n. text_eq n name) names

unfoldable pub get : Aliases → Text → Option Text
get [] name = none
get ((k, v) ∷ m) name = if text_eq k name then some v else get m name

unfoldable pub find_built_in : List AliasEntry → Text → Option Text
find_built_in [] name = none
find_built_in (e ∷ es) name =
    if text_eq e.name name then some e.expansion else find_built_in es name

abbrev pub or_else : Option Text → Option Text → Option Text
or_else none b = b
or_else (some a) b = some a

unfoldable pub lookup : ResolvedAliases → Text → Option Text
lookup r name =
    if has_name built_in_subcommands name
    then none
    else or_else (find_built_in r.built_in name) (or_else (get r.repo name) (get r.user name))

-- `str::contains` of a text.
unfoldable pub begins_with : Text → Text → Bool
begins_with s [] = true
begins_with [] (d ∷ pat) = false
begins_with (c ∷ s) (d ∷ pat) = c == d && begins_with s pat

unfoldable pub contains_text : Text → Text → Bool
contains_text pat [] = begins_with [] pat
contains_text pat (c ∷ s) = begins_with (c ∷ s) pat || contains_text pat s

abbrev pub shell_metachars : List Text
shell_metachars = codes "&&" ∷ codes "||" ∷ codes "|" ∷ codes ";" ∷ codes "`" ∷ []

pub data AliasError : Type 0 where
  shadows empty_value : Text → AliasError
  shell_metachar : (name value pat : Text) → AliasError
  terminal_escape : (name value : Text) → ℕ → AliasError

unfoldable pub find_metachar : Text → List Text → Option Text
find_metachar s [] = none
find_metachar s (pat ∷ pats) = if contains_text pat s then some pat else find_metachar s pats

unfoldable pub is_bad_char : ℕ → Bool
is_bad_char c = is_control c || is_display_reordering c

unfoldable pub find_bad : Text → Option ℕ
find_bad [] = none
find_bad (c ∷ s) = if is_bad_char c then some c else find_bad s

abbrev pub check_chars : Text → Text → Option ℕ → Option AliasError
check_chars name value none = none
check_chars name value (some c) = some (terminal_escape name value c)

abbrev pub check_metachar : Text → Text → Option Text → Option AliasError
check_metachar name value none = check_chars name value (find_bad value)
check_metachar name value (some pat) = some (shell_metachar name value pat)

-- `clap_names` are the names and aliases of the subcommands.
unfoldable pub check_alias : List Text → Text → Text → Option AliasError
check_alias clap_names name value =
    if has_name clap_names name || has_name built_in_subcommands name
    then some (shadows name)
    else if is_empty (trim value)
    then some (empty_value name)
    else check_metachar name value (find_metachar (trim value) shell_metachars)

unfoldable pub validate_aliases : List Text → Aliases → Option AliasError
validate_aliases clap_names [] = none
validate_aliases clap_names ((name, value) ∷ m) =
    let rest = validate_aliases clap_names m in
    elim (check_alias clap_names name value) [ none ↦ rest | some e ↦ some e ]

-- The first token that is no flag, counted from `i`.
unfoldable pub find_word : ℕ → List Text → Option ℕ
find_word i [] = none
find_word i (tok ∷ toks) = if starts_with_dash tok then find_word (suc i) toks else some i

-- An argument of the operating system: Unicode, or other bytes.
pub data OsString : Type 0 where
  unicode : Text → OsString
  bytes : List ℕ → OsString

-- UTF-8 writes no other character with the byte of `-` in front.
unfoldable pub first_byte_is_dash : OsString → Bool
first_byte_is_dash (unicode t) = starts_with_dash t
first_byte_is_dash (bytes []) = false
first_byte_is_dash (bytes (b ∷ bs)) = b == b'-'

unfoldable pub to_str : OsString → Option Text
to_str (unicode t) = some t
to_str (bytes bs) = none

unfoldable pub find_word_os : ℕ → List OsString → Option ℕ
find_word_os i [] = none
find_word_os i (tok ∷ toks) = if first_byte_is_dash tok then find_word_os (suc i) toks else some i

module _ (shell_split : Text → Option (List Text)) (aliases : ResolvedAliases) where
  abbrev pub splice {ℓ} : {A : Type ℓ} → List A → ℕ → List A → List A
  splice argv i tokens = take i argv ++ (tokens ++ drop (i + 1) argv)

  abbrev pub substituted {ℓ} :
      {A : Type ℓ} → (List Text → List A) → List A → ℕ → Option (List Text) → List A
  substituted from argv i none = argv
  substituted from argv i (some tokens) = splice argv i (from tokens)

  abbrev pub tokens_of : Option Text → Option (List Text)
  tokens_of none = none
  tokens_of (some expansion) = shell_split expansion

  -- The first `none` is a panic: no token at the index.
  abbrev pub at_word : List Text → ℕ → Option Text → Option (List Text)
  at_word argv i none = none
  at_word argv i (some name) = some (substituted (λ t. t) argv i (tokens_of (lookup aliases name)))

  abbrev pub at_index : List Text → Option ℕ → Option (List Text)
  at_index argv none = some argv
  at_index argv (some i) = at_word argv i (get_elem? argv i)

  unfoldable pub expand_argv : List Text → Option (List Text)
  expand_argv argv =
      if ltb (length argv) 2 then some argv else at_index argv (find_word 1 (drop 1 argv))

  abbrev pub at_name : List OsString → ℕ → Option Text → List OsString
  at_name argv i none = argv
  at_name argv i (some name) = substituted (map unicode) argv i (tokens_of (lookup aliases name))

  abbrev pub at_word_os : List OsString → ℕ → Option OsString → Option (List OsString)
  at_word_os argv i none = none
  at_word_os argv i (some tok) = some (at_name argv i (to_str tok))

  abbrev pub at_index_os : List OsString → Option ℕ → Option (List OsString)
  at_index_os argv none = some argv
  at_index_os argv (some i) = at_word_os argv i (get_elem? argv i)

  unfoldable pub expand_argv_os : List OsString → Option (List OsString)
  expand_argv_os argv =
      if ltb (length argv) 2 then some argv else at_index_os argv (find_word_os 1 (drop 1 argv))
