-- ===== src/Naming/Laws/Beside.antt =====
-- A worktree with a chosen name stands in the directory in which those with a structured name stand.
use gwm_cli.Base.{
  ◌≡◌, refl, sym, ap, ◌∙◌, false, ◌≢◌, [], ◌++◌, Option, none, some, arith, Text, text_eq,
  text_eq_iff, codes,
}
use gwm_cli.Naming.Boundaries.{Segment, type_segment, issue_segment, desc_segment}
use gwm_cli.Naming.Specs.{BranchSpec, segments}
use gwm_cli.Naming.Freeform.{freeform_dirname}
use gwm_cli.Naming.Patterns.{
  WorktreeConfig, placeholder, value_for, expand_tokens, expand_placeholders, worktree_dirname,
  worktree_path,
}
use gwm_cli.Naming.Names.{
  structured, chosen, Place, placed, home_unknown, base_asks, first_asked, name_dirname,
  chosen_path, place_chosen, name_path,
}
use gwm_cli.Naming.Laws.Fields.{writes, writes-placeholder}
use gwm_cli.Naming.Laws.Expansions.{Within, at, if_same, same_expansion}

not_written : (base : Text) (s : Segment) → first_asked base segments ≡ none → writes s base ≡ false
unfolding first_asked
not_written base type_segment h = ground (arith, h)
not_written base issue_segment h = ground (arith, h)
not_written base desc_segment h = ground (arith, h)

module _ (parent : Text → Option Text) (home repo : Text) (dir : Option Text) where
  abbrev filled : BranchSpec → Text → Option Text
  filled spec = value_for parent home repo (some spec.type_) (some spec.issue) (some spec.desc) dir

  abbrev bare : Text → Option Text
  bare = value_for parent home repo none none none dir

  token_unasked :
      (spec : BranchSpec) (token : Text)
      → ((s : Segment) → token ≢ placeholder s)
      → bare token ≡ filled spec token
  unfolding value_for placeholder
  token_unasked spec token h =
      if_same (text_eq token (codes "{home}")) (λ _. refl)
        (if_same (text_eq token (codes "{repo}")) (λ _. refl)
          (if_same (text_eq token (codes "{type}"))
            (λ e. absurd (h type_segment ((text_eq_iff token (codes "{type}")).0 e)))
            (if_same (text_eq token (codes "{issue}"))
              (λ e. absurd (h issue_segment ((text_eq_iff token (codes "{issue}")).0 e)))
              (if_same (text_eq token (codes "{desc}"))
                (λ e. absurd (h desc_segment ((text_eq_iff token (codes "{desc}")).0 e))) refl))))

  base_unasked :
      (spec : BranchSpec) (base : Text)
      → first_asked base segments ≡ none
      → expand_tokens bare none base ≡ expand_tokens (filled spec) none base
  base_unasked spec base h = same_expansion bare (filled spec) base tokens [] none base refl
    where
      tokens : (token : Text) → Within token base → bare token ≡ filled spec token
      tokens token (at pre post e) = token_unasked spec token (λ s k. cc (
        not_written base s h,
        ap (writes s) (e ∙ ap (λ x. pre ++ (x ++ post)) k) ∙ writes-placeholder s pre post,
      ))

abbrev path_of : Place → Text
path_of (placed p) = p
path_of home_unknown = []
path_of (base_asks base s) = []

module _ (parent : Text → Option Text) (tilde : Text → Text) (join_path : Text → Text → Text)
    (cfg : WorktreeConfig) (repo repo_path : Text) where
  chosen_placed :
      (home name : Text)
      → first_asked cfg.base segments ≡ none
      → name_path parent tilde (some home) join_path cfg repo repo_path (chosen name)
        ≡ placed (
            join_path
              (tilde (expand_tokens (bare parent home repo (some repo_path)) none cfg.base))
              (freeform_dirname name))
  unfolding name_path chosen_path place_chosen name_dirname expand_placeholders
  chosen_placed home name h =
      ap (place_chosen parent tilde (some home) join_path cfg repo repo_path name) h

  -- If the base asks for no segment and a structured name has a place, then that is its directory
  -- joined to a base to which the directory of any chosen name is joined as well.
  pub name_path-beside :
      (home_dir : Option Text) (spec : BranchSpec) (name p : Text)
      → first_asked cfg.base segments ≡ none
      → name_path parent tilde home_dir join_path cfg repo repo_path (structured spec) ≡ placed p
      → (base : Text) × (dir : Text) × (worktree_dirname parent tilde home_dir spec cfg repo
          ≡ some dir)
        × (p ≡ join_path base dir)
        × (name_path parent tilde home_dir join_path cfg repo repo_path (chosen name)
            ≡ placed (join_path base (freeform_dirname name)))
  unfolding name_path worktree_path worktree_dirname expand_placeholders
  name_path-beside none spec name p h k = cc
  name_path-beside (some home) spec name p h k =
      let dir = tilde (expand_tokens (filled parent home repo none spec) none cfg.path_pattern) in
      (
        tilde (expand_tokens (bare parent home repo (some repo_path)) none cfg.base),
        dir,
        refl,
        sym (ap path_of k)
            ∙ ap (λ b. join_path (tilde b) dir)
                (sym (base_unasked parent home repo (some repo_path) spec cfg.base h)),
        chosen_placed home name h,
      )
