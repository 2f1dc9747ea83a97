-- ===== src/Naming/Laws/Expansions.antt =====
-- What a pattern expands to hangs on the segments it asks for, and on no others.
use gwm_cli.Base.{
  ℕ, ◌≡◌, refl, sym, ap, ◌∙◌, inl, inr, Bool, true, false, List, [], ◌∷◌, ◌++◌, Option, none, some,
  if◌then◌else◌, ◌==◌, any, arith, ◌>>=◌, Text, Bool-cases, text_eq, text_eq_iff, codes,
}
use mathlib.Core.List.{append_assoc}
use gwm_cli.Naming.Boundaries.{Segment, type_segment, issue_segment, desc_segment}
use gwm_cli.Naming.Specs.{BranchSpec, contains_segment}
use gwm_cli.Naming.Patterns.{
  WorktreeConfig, placeholder, editable_segments, value_for, value_or_token, expand_tokens,
  expand_placeholders, branch_name, worktree_dirname, worktree_path,
}
use gwm_cli.Naming.Laws.Fields.{
  writes, writes-placeholder, placeholder-split, contains-editable_segments,
}

abbrev pub value_of : BranchSpec → Segment → Text
value_of spec type_segment = spec.type_
value_of spec issue_segment = spec.issue
value_of spec desc_segment = spec.desc

-- The text has the token in it.
pub data Within (token whole : Text) : Type 0 where
  at : (pre post : Text) → whole ≡ pre ++ (token ++ post) → Within token whole

module _ (f : Text → Option Text) where
  abbrev meaning : Text → Text
  meaning t = value_or_token t (f t)

  plain :
      (c : ℕ) (s : Text)
      → c == b'{' ≡ false
      → expand_tokens f none (c ∷ s) ≡ c ∷ expand_tokens f none s
  unfolding expand_tokens
  plain c s n = rw (expand_tokens, n) refl

  opens :
      (c : ℕ) (s : Text)
      → c == b'{' ≡ true
      → expand_tokens f none (c ∷ s) ≡ expand_tokens f (some (c ∷ [])) s
  unfolding expand_tokens
  opens c s n = rw (expand_tokens, n) refl

  closes :
      (t : Text) (c : ℕ) (s : Text)
      → c == b'}' ≡ true
      → expand_tokens f (some t) (c ∷ s) ≡ meaning (t ++ (c ∷ [])) ++ expand_tokens f none s
  unfolding expand_tokens
  closes t c s n = rw (expand_tokens, n) refl

  opens_again :
      (t : Text) (c : ℕ) (s : Text)
      → c == b'}' ≡ false
      → c == b'{' ≡ true
      → expand_tokens f (some t) (c ∷ s) ≡ t ++ expand_tokens f (some (c ∷ [])) s
  unfolding expand_tokens
  opens_again t c s n k = rw (expand_tokens, n, k) refl

  goes_on :
      (t : Text) (c : ℕ) (s : Text)
      → c == b'}' ≡ false
      → c == b'{' ≡ false
      → expand_tokens f (some t) (c ∷ s) ≡ expand_tokens f (some (t ++ (c ∷ []))) s
  unfolding expand_tokens
  goes_on t c s n k = rw (expand_tokens, n, k) refl

-- The part of an open token that was read.
abbrev held : Option Text → Text
held none = []
held (some t) = t

module _ (f g : Text → Option Text) (whole : Text)
    (h : (token : Text) → Within token whole → f token ≡ g token) where
  -- Two meanings that agree on the tokens of the text expand it alike.
  pub same_expansion :
      (done : Text) (o : Option Text) (s : Text)
      → whole ≡ done ++ (held o ++ s)
      → expand_tokens f o s ≡ expand_tokens g o s
  same_expansion done none [] e = unfold expand_tokens in refl
  same_expansion done (some t) [] e = unfold expand_tokens in refl
  same_expansion done none (c ∷ s) e = elim (Bool-cases (c == b'{')) [
    | inl k ↦ opens f c s k ∙ same_expansion done (some (c ∷ [])) s e ∙ sym (opens g c s k)
    | inr n ↦
        plain f c s n
        ∙ ap (◌∷◌ c)
            (same_expansion (done ++ (c ∷ [])) none s (e ∙ sym (append_assoc done (c ∷ []) s)))
        ∙ sym (plain g c s n)
  ]
  same_expansion done (some t) (c ∷ s) e =
      let read : t ++ (c ∷ s) ≡ (t ++ (c ∷ [])) ++ s = sym (append_assoc t (c ∷ []) s) in
      let e' : whole ≡ done ++ ((t ++ (c ∷ [])) ++ s) = e ∙ ap (λ x. done ++ x) read in
      elim (Bool-cases (c == b'}')) [
        | inl k ↦
            closes f t c s k
            ∙ ap (λ x. value_or_token (t ++ (c ∷ [])) x ++ expand_tokens f none s)
                (h (t ++ (c ∷ [])) (at done s e'))
            ∙ ap (λ x. value_or_token (t ++ (c ∷ [])) (g (t ++ (c ∷ []))) ++ x)
                (same_expansion (done ++ (t ++ (c ∷ []))) none s
                  (e' ∙ sym (append_assoc done (t ++ (c ∷ [])) s)))
            ∙ sym (closes g t c s k)
        | inr n ↦ elim (Bool-cases (c == b'{')) [
          | inl k ↦
              opens_again f t c s n k
              ∙ ap (λ x. t ++ x)
                  (same_expansion (done ++ t) (some (c ∷ [])) s
                    (e ∙ sym (append_assoc done t (c ∷ s))))
              ∙ sym (opens_again g t c s n k)
          | inr m ↦
              goes_on f t c s n m
              ∙ same_expansion done (some (t ++ (c ∷ []))) s e'
              ∙ sym (goes_on g t c s n m)
        ]
      ]

-- The two specifications have the same in a segment.
abbrev pub AgreeOn : BranchSpec → BranchSpec → Segment → Type 0
AgreeOn a b s = value_of a s ≡ value_of b s

-- They have the same in each segment that the patterns ask for.
abbrev pub AgreeOnFields : BranchSpec → BranchSpec → List Text → Type 0
AgreeOnFields a b ps =
    (s : Segment) → contains_segment s (editable_segments ps) ≡ true → AgreeOn a b s

module _ {x y u v : Option Text} where
  pub if_same :
      (t : Bool) → (t ≡ true → x ≡ u) → y ≡ v → (if t then x else y) ≡ (if t then u else v)
  if_same true h k = h refl
  if_same false h k = k

module _ (parent : Text → Option Text) (home repo : Text) (dir : Option Text) where
  abbrev meaning_in : BranchSpec → Text → Option Text
  meaning_in c = value_for parent home repo (some c.type_) (some c.issue) (some c.desc) dir

  token_agrees :
      (a b : BranchSpec) (token : Text)
      → ((s : Segment) → token ≡ placeholder s → AgreeOn a b s)
      → meaning_in a token ≡ meaning_in b token
  unfolding value_for placeholder
  token_agrees a b token h =
      if_same (text_eq token (codes "{home}")) (λ _. refl)
        (if_same (text_eq token (codes "{repo}")) (λ _. refl)
          (if_same (text_eq token (codes "{type}"))
            (λ e. ap some (h type_segment ((text_eq_iff token (codes "{type}")).0 e)))
            (if_same (text_eq token (codes "{issue}"))
              (λ e. ap some (h issue_segment ((text_eq_iff token (codes "{issue}")).0 e)))
              (if_same (text_eq token (codes "{desc}"))
                (λ e. ap some (h desc_segment ((text_eq_iff token (codes "{desc}")).0 e))) refl))))

  -- A pattern expands alike for two specifications that agree on what it writes.
  pattern_agrees :
      (a b : BranchSpec) (pattern : Text)
      → ((s : Segment) → writes s pattern ≡ true → AgreeOn a b s)
      → expand_tokens (meaning_in a) none pattern ≡ expand_tokens (meaning_in b) none pattern
  pattern_agrees a b pattern h =
      same_expansion (meaning_in a) (meaning_in b) pattern tokens [] none pattern refl
    where
      tokens : (token : Text) → Within token pattern → meaning_in a token ≡ meaning_in b token
      tokens token (at pre post e) = token_agrees a b token (λ s k.
          h s (ap (writes s) (e ∙ ap (λ x. pre ++ (x ++ post)) k) ∙ writes-placeholder s pre post))

bind_same {ℓ} :
    {A : Type ℓ} (o : Option A) {f g : A → Option Text}
    → ((x : A) → f x ≡ g x)
    → (o >>= f) ≡ (o >>= g)
bind_same none h = refl
bind_same (some x) h = h x

any-first : (q : Text → Bool) (p : Text) (ps : List Text) → q p ≡ true → any q (p ∷ ps) ≡ true
any-first q p ps h = ground (arith, h)

any-later : (q : Text → Bool) (p : Text) (ps : List Text) → any q ps ≡ true → any q (p ∷ ps) ≡ true
any-later q p ps h = ground (arith, h)

-- The patterns in the order in which the form reads them.
abbrev pub patterns_of : WorktreeConfig → List Text
patterns_of cfg = cfg.branch_pattern ∷ cfg.path_pattern ∷ cfg.base ∷ []

module _ (parent : Text → Option Text) (tilde : Text → Text) (home_dir : Option Text)
    (a b : BranchSpec) (cfg : WorktreeConfig) (h : AgreeOnFields a b (patterns_of cfg)) where
  written_agrees : (s : Segment) → any (writes s) (patterns_of cfg) ≡ true → AgreeOn a b s
  written_agrees s k = h s (contains-editable_segments s (patterns_of cfg) ∙ k)

  expansion_agrees :
      (pattern repo : Text) (dir : Option Text)
      → ((s : Segment) → writes s pattern ≡ true → any (writes s) (patterns_of cfg) ≡ true)
      → expand_placeholders parent tilde home_dir pattern repo
          (some a.type_)
          (some a.issue)
          (some a.desc)
          dir
        ≡ expand_placeholders parent tilde home_dir pattern repo
            (some b.type_)
            (some b.issue)
            (some b.desc)
            dir
  unfolding expand_placeholders
  expansion_agrees pattern repo dir k = bind_same home_dir (λ home.
      ap (λ x. some (tilde x))
        (pattern_agrees parent home repo dir a b pattern (λ s e. written_agrees s (k s e))))

  -- Two specifications that agree on each segment that the three patterns ask for get the same
  -- branch and the same directory.
  pub branch_name-fields :
      (join_path : Text → Text → Text) (repo repo_path : Text)
      → (branch_name parent tilde home_dir a cfg repo
          ≡ branch_name parent tilde home_dir b cfg repo)
        × (worktree_path parent tilde home_dir join_path a cfg repo repo_path
            ≡ worktree_path parent tilde home_dir join_path b cfg repo repo_path)
  unfolding branch_name worktree_path worktree_dirname
  branch_name-fields join_path repo repo_path =
      let branch =
        expansion_agrees cfg.branch_pattern repo none
          (λ s e. any-first (writes s) cfg.branch_pattern (cfg.path_pattern ∷ cfg.base ∷ []) e) in
      let dirname = expansion_agrees cfg.path_pattern repo none (λ s e.
        any-later (writes s) cfg.branch_pattern (cfg.path_pattern ∷ cfg.base ∷ [])
          (any-first (writes s) cfg.path_pattern (cfg.base ∷ []) e)) in
      let base = expansion_agrees cfg.base repo (some repo_path) (λ s e.
        any-later (writes s) cfg.branch_pattern (cfg.path_pattern ∷ cfg.base ∷ []) (
          any-later (writes s) cfg.path_pattern (cfg.base ∷ [])
            (any-first (writes s) cfg.base [] e))) in
      (branch, rw (base, dirname) refl)

-- An open token is reached with something written before it.
reached :
    (f : Text → Option Text) (o : Option Text) (pre s : Text)
    → (out : Text) × (expand_tokens f o (pre ++ (b'{' ∷ s))
        ≡ out ++ expand_tokens f (some (b'{' ∷ [])) s)
reached f none [] s = ([], opens f b'{' s refl)
reached f (some t) [] s = (t, opens_again f t b'{' s refl refl)
reached f none (c ∷ pre) s = elim (Bool-cases (c == b'{')) [
  | inl k ↦
      let (out, e) = reached f (some (c ∷ [])) pre s in (out, opens f c (pre ++ (b'{' ∷ s)) k ∙ e)
  | inr n ↦
      let (out, e) = reached f none pre s in
      (c ∷ out, plain f c (pre ++ (b'{' ∷ s)) n ∙ ap (◌∷◌ c) e)
]
reached f (some t) (c ∷ pre) s = elim (Bool-cases (c == b'}')) [
  | inl k ↦
      let (out, e) = reached f none pre s in
      let front = meaning f (t ++ (c ∷ [])) in
      (
        front ++ out,
        closes f t c (pre ++ (b'{' ∷ s)) k
            ∙ ap (λ x. front ++ x) e
            ∙ sym (append_assoc front out (expand_tokens f (some (b'{' ∷ [])) s)),
      )
  | inr n ↦ elim (Bool-cases (c == b'{')) [
    | inl k ↦
        let (out, e) = reached f (some (c ∷ [])) pre s in
        (
          t ++ out,
          opens_again f t c (pre ++ (b'{' ∷ s)) n k
              ∙ ap (λ x. t ++ x) e
              ∙ sym (append_assoc t out (expand_tokens f (some (b'{' ∷ [])) s)),
        )
    | inr m ↦
        let (out, e) = reached f (some (t ++ (c ∷ []))) pre s in
        (out, goes_on f t c (pre ++ (b'{' ∷ s)) n m ∙ e)
  ]
]

module _ (parent : Text → Option Text) (home repo : Text) (dir : Option Text) (a : BranchSpec) where
  abbrev value : Text → Option Text
  value = value_for parent home repo (some a.type_) (some a.issue) (some a.desc) dir

  -- The value of a placeholder, then the rest.
  placeholder_read :
      (s : Segment) (pre post : Text)
      → (out : Text) × (expand_tokens value none (pre ++ (placeholder s ++ post))
          ≡ out ++ (value_of a s ++ expand_tokens value none post))
  unfolding placeholder
  placeholder_read type_segment pre post =
      let (out, e) = reached value none pre (codes "type}" ++ post) in
      (out, e ∙ ap (λ x. out ++ x) (unfold expand_tokens value_for text_eq in refl))
  placeholder_read issue_segment pre post =
      let (out, e) = reached value none pre (codes "issue}" ++ post) in
      (out, e ∙ ap (λ x. out ++ x) (unfold expand_tokens value_for text_eq in refl))
  placeholder_read desc_segment pre post =
      let (out, e) = reached value none pre (codes "desc}" ++ post) in
      (out, e ∙ ap (λ x. out ++ x) (unfold expand_tokens value_for text_eq in refl))

  -- What a segment holds stands in the expansion of a pattern that asks for it.
  pub expand_tokens-asked :
      (s : Segment) (pattern : Text)
      → contains_segment s (editable_segments (pattern ∷ [])) ≡ true
      → (pre : Text) × (post : Text) × (expand_tokens value none pattern
          ≡ pre ++ (value_of a s ++ post))
  expand_tokens-asked s pattern h =
      let written : writes s pattern ≡ true =
        ground (arith, contains-editable_segments s (pattern ∷ []), h) in
      let (pre, post, e) = placeholder-split s pattern written in
      let (out, k) = placeholder_read s pre post in
      (out, expand_tokens value none post, ap (expand_tokens value none) e ∙ k)
