-- ===== src/Naming/Laws/Directories.antt =====
-- src/naming.rs: what an accepted free-form name is as a directory.
use gwm_cli.Base.{
  ℕ, ◌+◌, ◌≤◌, ◌≡◌, ◌≢◌, refl, Bool, true, false, not, ◌&&◌, ◌||◌, List, [], ◌∷◌, none, arith,
  if◌then◌else◌, ltb, ◌==◌, any, all, map, split, Text, text_eq, codes,
}
use gwm_cli.CommandLog.{utf8_len, byte_len}
use gwm_cli.Notes.{ends_with, is_windows_reserved_segment}
use gwm_cli.Naming.Freeform.{
  max_dir_component_bytes, git_ref_lock_suffix_bytes, starts_with_dash, is_dot_part, last_part,
  forbidden_char, segment_reason, segments_reason, freeform, freeform_dirname,
}

abbrev flat : ℕ → ℕ
flat c = if c == b'/' then b'-' else c

-- The parts that a Windows checkout can host.
abbrev pub is_hostable : Text → Bool
is_hostable part = not (ends_with part (codes ".")) && not (is_windows_reserved_segment part)

-- The characters that git has in no reference name: control characters, the space and `~^:?*[\`.
abbrev pub git_refuses : ℕ → Bool
git_refuses c = ltb c 33 || c == 127 || any (λ d. c == d) (codes "~^:?*[\\")

-- The characters that Windows has in no file name: control characters and `<>:"/\|?*`.
abbrev pub windows_refuses : ℕ → Bool
windows_refuses c = ltb c 32 || any (λ d. c == d) (codes "<>:\"/\\|?*")

-- What an accepted name is.
pub record Usable (name_is_valid : Text → Bool) (name : Text) : Type 0 where
  pub git_name : name_is_valid name ≡ true
  pub filled : freeform_dirname name ≢ []
  pub one_component : any (λ c. c == b'/') (freeform_dirname name) ≡ false
  pub no_dots : is_dot_part (freeform_dirname name) ≡ false
  pub fits : byte_len (freeform_dirname name) ≤ max_dir_component_bytes
  pub ref_fits :
      byte_len (last_part (split b'/' name)) + git_ref_lock_suffix_bytes ≤ max_dir_component_bytes
  pub no_flag : starts_with_dash name ≡ false
  pub no_braces : any (λ c. c == b'{' || c == b'}') (freeform_dirname name) ≡ false
  pub no_windows_char : all (λ c. not (windows_refuses c)) (freeform_dirname name) ≡ true
  pub parts : all is_hostable (split b'/' name) ≡ true

byte_len-flat : (s : Text) → byte_len (map flat s) ≡ byte_len s
unfolding byte_len utf8_len
byte_len-flat [] = refl
byte_len-flat (c ∷ s) = ground (arith, byte_len-flat s)

no_slash : (s : Text) → any (λ c. c == b'/') (map flat s) ≡ false
no_slash [] = refl
no_slash (c ∷ s) = ground (arith, no_slash s)

no_brace :
    (s : Text)
    → any (λ c. c == b'{') s ≡ false
    → any (λ c. c == b'}') s ≡ false
    → any (λ c. c == b'{' || c == b'}') (map flat s) ≡ false
no_brace [] h k = refl
no_brace (c ∷ s) h k = ground (arith, h, k, no_brace s)

-- What git lets through and the residual list does not refuse, Windows has; a slash is flattened.
no_forbidden :
    (s : Text)
    → all (λ c. not (git_refuses c)) s ≡ true
    → forbidden_char s ≡ none
    → all (λ c. not (windows_refuses c)) (map flat s) ≡ true
unfolding forbidden_char
no_forbidden [] g h = refl
no_forbidden (c ∷ s) g h = ground (arith, g, h, no_forbidden s)

-- Only a name of dots flattens to dots.
dots_of_flat : (s : Text) → is_dot_part (map flat s) ≡ true → any is_dot_part (split b'/' s) ≡ true
unfolding is_dot_part text_eq
dots_of_flat [] h = cc
dots_of_flat (c ∷ []) h = unfold split in ground (arith, h)
dots_of_flat (c ∷ d ∷ []) h = unfold split in ground (arith, h)
dots_of_flat (c ∷ d ∷ e ∷ s) h = ground (arith, h)

segments_hostable : (ss : List Text) → segments_reason ss ≡ none → all is_hostable ss ≡ true
unfolding segments_reason segment_reason
segments_hostable [] h = refl
segments_hostable (s ∷ ss) h = ground (arith, h, segments_hostable ss)

-- With a git that has none of its refused characters in a branch name: an accepted name is a branch
-- name for git; its directory is one component, not empty, not `.` or `..`, of at most 255 bytes,
-- with no brace and no character that Windows forbids; its last part leaves room for git's lock file;
-- it does not begin with a dash, and no part of it ends in a dot or is a device of Windows.
pub freeform-Usable :
    (name_is_valid : Text → Bool)
    → ((n : Text) → name_is_valid n ≡ true → all (λ c. not (git_refuses c)) n ≡ true)
    → (name : Text) → freeform name_is_valid name ≡ none
    → Usable name_is_valid name
unfolding freeform freeform_dirname
freeform-Usable name_is_valid g [] h = cc
freeform-Usable name_is_valid g (c ∷ s) h = record {
  git_name = ground (arith, h);
  filled = (cc);
  one_component = no_slash (c ∷ s);
  no_dots = ground (arith, h, dots_of_flat (c ∷ s));
  fits = ground (arith, h, byte_len-flat (c ∷ s));
  ref_fits = ground (arith, h);
  no_flag = ground (arith, h);
  no_braces = ground (arith, h, no_brace (c ∷ s));
  no_windows_char = no_forbidden (c ∷ s) (g (c ∷ s) (ground (arith, h))) (ground (arith, h));
  parts = ground (arith, h, segments_hostable (split b'/' (c ∷ s)));
}
