-- ===== src/Aliases/Laws/Validating.antt =====
-- What a validated alias cannot do.
use gwm_cli.Base.{
  ℕ, ◌≡◌, refl, ap, true, false, ◌||◌, List, [], ◌∷◌, Option, none, some, arith, if◌then◌else◌, any,
  is_empty, trim, Text, text_eq, text_eq_iff, Bool-cases, Option-cases, inl, inr,
}
use mathlib.Core.Path.{subst}
use gwm_cli.Aliases.{
  Aliases, ResolvedAliases, built_in_subcommands, has_name, get, find_built_in, or_else, lookup,
  contains_text, shell_metachars, find_metachar, is_bad_char, find_bad, check_chars, check_metachar,
  check_alias, validate_aliases,
}

-- What a validated entry is: no name that clap knows, and an expansion that is not blank, has no
-- shell operator, no control character and none that reorders the display.
pub record Harmless (clap_names : List Text) (name value : Text) : Type 0 where
  pub unknown : (has_name clap_names name || has_name built_in_subcommands name) ≡ false
  pub filled : is_empty (trim value) ≡ false
  pub no_shell : any (λ pat. contains_text pat (trim value)) shell_metachars ≡ false
  pub no_escape : any is_bad_char value ≡ false

some_inj : {a b : Text} → some a ≡ some b → a ≡ b
some_inj h = cc

or_else-none : (o : Option Text) → or_else o none ≡ o
or_else-none none = refl
or_else-none (some a) = refl

find_metachar-none :
    (s : Text) (pats : List Text)
    → find_metachar s pats ≡ none
    → any (λ pat. contains_text pat s) pats ≡ false
unfolding find_metachar
find_metachar-none s [] h = refl
find_metachar-none s (pat ∷ pats) h = ground (arith, h, find_metachar-none s pats)

find_bad-none : (s : Text) → find_bad s ≡ none → any is_bad_char s ≡ false
unfolding find_bad
find_bad-none [] h = refl
find_bad-none (c ∷ s) h = ground (arith, h, find_bad-none s)

check_chars-none : (name value : Text) (c : Option ℕ) → check_chars name value c ≡ none → c ≡ none
check_chars-none name value none h = refl
check_chars-none name value (some c) h = cc

check_metachar-none :
    (name value : Text) (p : Option Text)
    → check_metachar name value p ≡ none
    → (p ≡ none) × (find_bad value ≡ none)
check_metachar-none name value none h = (refl, check_chars-none name value (find_bad value) h)
check_metachar-none name value (some pat) h = cc

check_alias-Harmless :
    (clap_names : List Text) (name value : Text)
    → check_alias clap_names name value ≡ none
    → Harmless clap_names name value
unfolding check_alias
check_alias-Harmless clap_names name value h =
    let known = has_name clap_names name || has_name built_in_subcommands name in
    elim (Bool-cases known) [
      | inl e ↦ cc (rw e at h)
      | inr e ↦ elim (Bool-cases (is_empty (trim value))) [
        | inl b ↦ cc (rw (e, b) at h)
        | inr b ↦
            let (p, q) =
              check_metachar-none name value (find_metachar (trim value) shell_metachars)
                (rw (e, b) at h) in
            record {
              unknown = e;
              filled = b;
              no_shell = find_metachar-none (trim value) shell_metachars p;
              no_escape = find_bad-none value q;
            }
      ]
    ]

validate_aliases-cons :
    (clap_names : List Text) (name value : Text) (m : Aliases)
    → validate_aliases clap_names ((name, value) ∷ m) ≡ none
    → Harmless clap_names name value × (validate_aliases clap_names m ≡ none)
unfolding validate_aliases
validate_aliases-cons clap_names name value m h =
    elim (Option-cases (check_alias clap_names name value)) [
      | inl e ↦ (check_alias-Harmless clap_names name value e, rw (validate_aliases, e) at h)
      | inr (x, e) ↦ cc (rw (validate_aliases, e) at h)
    ]

-- An entry that is found in a validated map is harmless.
pub get-Harmless :
    (clap_names : List Text) (m : Aliases) (name : Text) {value : Text}
    → validate_aliases clap_names m ≡ none
    → get m name ≡ some value
    → Harmless clap_names name value
unfolding get
get-Harmless clap_names [] name h k = cc
get-Harmless clap_names ((key, v) ∷ m) name {value} h k =
    let (harmless, rest) = validate_aliases-cons clap_names key v m h in
    elim (Bool-cases (text_eq key name)) [
      | inl e ↦
          let same : key ≡ name = (text_eq_iff key name).0 e in
          let found : v ≡ value = some_inj (rw e at k) in
          subst (λ n. Harmless clap_names n value) same
            (subst (Harmless clap_names key) found harmless)
      | inr e ↦ get-Harmless clap_names m name rest (rw e at k)
    ]

get-known :
    (clap_names : List Text) (m : Aliases) (name : Text)
    → validate_aliases clap_names m ≡ none
    → (has_name clap_names name || has_name built_in_subcommands name) ≡ true
    → get m name ≡ none
get-known clap_names m name h k = elim (Option-cases (get m name)) [
  | inl e ↦ e
  | inr (v, e) ↦ cc ((get-Harmless clap_names m name h e).unknown)
]

-- With both maps validated, a name that clap knows is expanded only if it is a built-in alias that
-- is in no list of subcommands, and then to what the built-in alias stands for: neither the
-- repository nor the user gives such a name a meaning.
pub lookup-known :
    (clap_names : List Text) (r : ResolvedAliases) (name : Text)
    → validate_aliases clap_names r.repo ≡ none
    → validate_aliases clap_names r.user ≡ none
    → (has_name clap_names name || has_name built_in_subcommands name) ≡ true
    → lookup r name
      ≡ (if has_name built_in_subcommands name then none else find_built_in r.built_in name)
unfolding lookup
lookup-known clap_names r name h k known =
    rw (get-known clap_names r.repo name h known, get-known clap_names r.user name k known)
      (ap (λ o. if has_name built_in_subcommands name then none else o)
        (or_else-none (find_built_in r.built_in name)))
