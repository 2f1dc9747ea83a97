-- ===== src/Hooks/Expanding.antt =====
-- src/lifecycle.rs: the placeholders of a hook, replaced in one pass. The quoting of the crate
-- shell_words is a parameter.
use gwm_cli.Base.{
  Bool, true, false, not, ◌&&◌, List, [], ◌∷◌, ◌++◌, Option, none, some, if◌then◌else◌, ◌==◌,
  is_empty, Text, text_eq, codes,
}

pub record HookContext : Type 0 where
  pub main_repo : Text
  pub cwd : Text
  pub path : Text
  pub branch : Text
  pub branch_type : Text
  pub issue : Text
  pub desc : Text
  pub user : Text
  pub owner : Text
  pub repo : Text

unfoldable pub with_cwd : HookContext → Text → HookContext
with_cwd ctx cwd = record ctx { cwd = cwd }

unfoldable pub placeholder_value : Text → HookContext → Option Text
placeholder_value token ctx =
    if text_eq token (codes "{branch}")
    then some ctx.branch
    else if text_eq token (codes "{path}")
    then some ctx.path
    else if text_eq token (codes "{type}")
    then some ctx.branch_type
    else if text_eq token (codes "{issue}")
    then some ctx.issue
    else if text_eq token (codes "{desc}")
    then some ctx.desc
    else if text_eq token (codes "{user}")
    then some ctx.user
    else if text_eq token (codes "{owner}")
    then some ctx.owner
    else if text_eq token (codes "{repo}")
    then some ctx.repo
    else none

module _ (quote : Text → Text) (ctx : HookContext) (escape : Bool) where
  -- An empty value is not quoted; an unknown token stands for itself.
  unfoldable pub substitute : Text → Option Text → Text
  substitute token none = token
  substitute token (some value) = if escape && not (is_empty value) then quote value else value

  -- The text from here on; `some t` behind an open brace, with the token read so far. A brace that
  -- is never closed stays, with all behind it.
  unfoldable pub expand_from : Option Text → Text → Text
  expand_from none [] = []
  expand_from (some t) [] = t
  expand_from none (c ∷ s) = elim (c == b'{') [
    | true ↦ expand_from (some (c ∷ [])) s
    | false ↦ c ∷ expand_from none s
  ]
  expand_from (some t) (c ∷ s) = elim (c == b'}') [
    | true ↦
        substitute (t ++ (c ∷ [])) (placeholder_value (t ++ (c ∷ [])) ctx) ++ expand_from none s
    | false ↦ expand_from (some (t ++ (c ∷ []))) s
  ]

  unfoldable pub expand : Text → Text
  expand template = expand_from none template

unfoldable pub expand_placeholders : (Text → Text) → HookContext → Text → Text
expand_placeholders quote ctx template = expand quote ctx false template

unfoldable pub expand_shell : (Text → Text) → HookContext → Text → Text
expand_shell quote ctx template = expand quote ctx true template

unfoldable pub gwm_env : HookContext → List (Text × Text)
gwm_env ctx =
    (codes "GWM_BRANCH", ctx.branch)
    ∷ (codes "GWM_PATH", ctx.path)
    ∷ (codes "GWM_TYPE", ctx.branch_type)
    ∷ (codes "GWM_ISSUE", ctx.issue)
    ∷ (codes "GWM_DESC", ctx.desc)
    ∷ (codes "GWM_USER", ctx.user)
    ∷ (codes "GWM_OWNER", ctx.owner)
    ∷ (codes "GWM_REPO", ctx.repo)
    ∷ []
