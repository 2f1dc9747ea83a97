-- ===== src/Naming/Laws/Slugs.antt =====
-- The description that `kebab` makes of what the user typed, and the specification made of it.
use gwm_cli.Base.{
  ℕ, ◌≡◌, refl, ap, ◌∙◌, Bool, true, false, not, ◌&&◌, ◌||◌, List, [], ◌∷◌, ◌++◌, arith,
  if◌then◌else◌, ◌==◌, any, all, map, within, is_empty, drop_while, trim_end_matches, join, Text,
  codes, Bool-cases, inl, inr,
}
use gwm_cli.Naming.Boundaries.{desc_segment, segment_accepts, segment_starts}
use gwm_cli.Naming.Specs.{
  BranchType, invalid_branch_type, invalid_issue, invalid_description, is_ascii_alphanumeric,
  kebab_step, kebab_from, trim_dashes, is_description, contains_segment, is_allowed, kebab,
  is_issue, validate_with_required, validate_against, made, refused, new_with_types,
}

abbrev pub is_capital : ℕ → Bool
is_capital c = within b'A' b'Z' c

-- Nothing yet, or a description.
abbrev is_slug : Text → Bool
is_slug out = is_empty out || is_description out

all-snoc :
    (q : ℕ → Bool) (s : Text) (c : ℕ) → all q s ≡ true → q c ≡ true → all q (s ++ c ∷ []) ≡ true
all-snoc q [] c h k = ground (arith, k)
all-snoc q (d ∷ s) c h k = ground (arith, all-snoc q s c)

is_description-snoc :
    (s : Text) (c : ℕ)
    → is_description s ≡ true
    → segment_accepts desc_segment c ≡ true
    → is_description (s ++ c ∷ []) ≡ true
unfolding is_description
is_description-snoc [] c h k = cc
is_description-snoc (d ∷ s) c h k = ground (arith, all-snoc (segment_accepts desc_segment) s c)

is_slug-letter :
    (out : Text) (c : ℕ)
    → is_slug out ≡ true
    → is_capital c ≡ false
    → is_ascii_alphanumeric c ≡ true
    → is_slug (out ++ c ∷ []) ≡ true
unfolding is_ascii_alphanumeric
is_slug-letter [] c h k a = unfold is_description segment_starts in ground (arith, k, a)
is_slug-letter (d ∷ out) c h k a =
    let letter : segment_accepts desc_segment c ≡ true =
      unfold segment_accepts in ground (arith, k, a) in
    is_description-snoc (d ∷ out) c h letter

is_slug-dash :
    (out : Text) → is_slug out ≡ true → is_empty out ≡ false → is_slug (out ++ b'-' ∷ []) ≡ true
is_slug-dash [] h n = cc
is_slug-dash (d ∷ out) h n = is_description-snoc (d ∷ out) b'-' h (unfold segment_accepts in refl)

is_slug-kebab_step :
    (out : Text) (prev : Bool) (c : ℕ)
    → is_slug out ≡ true
    → is_capital c ≡ false
    → is_slug (kebab_step out prev c).0 ≡ true
unfolding kebab_step
is_slug-kebab_step out prev c h k = elim (Bool-cases (is_ascii_alphanumeric c)) [
  | inl a ↦ rw a (is_slug-letter out c h k a)
  | inr a ↦ elim (Bool-cases (not prev && not (is_empty out))) [
    | inl b ↦ rw (a, b) (is_slug-dash out h (ground (arith, b)))
    | inr b ↦ rw (a, b) h
  ]
]

is_slug-kebab_from :
    (s out : Text) (prev : Bool)
    → is_slug out ≡ true
    → all (λ c. not (is_capital c)) s ≡ true
    → is_slug (kebab_from out prev s) ≡ true
unfolding kebab_from
is_slug-kebab_from [] out prev h k = h
is_slug-kebab_from (c ∷ s) out prev h k =
    is_slug-kebab_from s (kebab_step out prev c).0 (kebab_step out prev c).1
      (is_slug-kebab_step out prev c h (ground (arith, k))) (ground (arith, k))

is_empty-snoc : (out : Text) (c : ℕ) → is_empty (out ++ c ∷ []) ≡ false
is_empty-snoc [] c = refl
is_empty-snoc (d ∷ out) c = refl

-- A letter or a digit leaves a text, and no step takes it away.
kebab_step_filled :
    (out : Text) (prev : Bool) (c : ℕ)
    → is_empty (kebab_step out prev c).0 ≡ (is_empty out && not (is_ascii_alphanumeric c))
unfolding kebab_step
kebab_step_filled out prev c = ground (arith, is_empty-snoc out c, is_empty-snoc out b'-')

kebab_from_filled :
    (s out : Text) (prev : Bool)
    → is_empty (kebab_from out prev s) ≡ (is_empty out && not (any is_ascii_alphanumeric s))
unfolding kebab_from
kebab_from_filled [] out prev = ground arith
kebab_from_filled (c ∷ s) out prev =
    kebab_from_filled s (kebab_step out prev c).0 (kebab_step out prev c).1
    ∙ ground (arith, kebab_step_filled out prev c)

all-trim_end_matches :
    (q : ℕ → Bool) (d : ℕ) (s : Text) → all q s ≡ true → all q (trim_end_matches d s) ≡ true
all-trim_end_matches q d [] h = refl
all-trim_end_matches q d (c ∷ s) h = ground (arith, h, all-trim_end_matches q d s)

trim_end_matches_twice :
    (d : ℕ) (s : Text) → trim_end_matches d (trim_end_matches d s) ≡ trim_end_matches d s
trim_end_matches_twice d [] = refl
trim_end_matches_twice d (c ∷ s) = ground (arith, trim_end_matches_twice d s)

not_dash : (c : ℕ) → segment_starts desc_segment c ≡ true → (c == b'-') ≡ false
unfolding segment_starts
not_dash c h = ground (arith, h)

trim_end_matches-cons :
    (c : ℕ) (s : Text)
    → (c == b'-') ≡ false
    → trim_end_matches b'-' (c ∷ s) ≡ c ∷ trim_end_matches b'-' s
trim_end_matches-cons c s h = ground (arith, h)

trim_dashes-is_description :
    (s : Text) → is_description s ≡ true → is_description (trim_dashes s) ≡ true
unfolding is_description trim_dashes
trim_dashes-is_description [] h = cc
trim_dashes-is_description (c ∷ s) h =
    let n = not_dash c (ground (arith, h)) in
    rw (n, trim_end_matches-cons c s n)
      (ground (arith, h, all-trim_end_matches (segment_accepts desc_segment) b'-' s))

filled_slug : (s : Text) → is_slug s ≡ true → is_empty s ≡ false → is_description s ≡ true
filled_slug [] h k = cc
filled_slug (c ∷ s) h k = h

trim_dashes-empty : (s : Text) → is_empty s ≡ true → trim_dashes s ≡ []
unfolding trim_dashes
trim_dashes-empty [] h = refl
trim_dashes-empty (c ∷ s) h = cc

nil_of_is_empty : (s : Text) → is_empty s ≡ true → s ≡ []
nil_of_is_empty [] h = refl
nil_of_is_empty (c ∷ s) h = cc

no_description : is_description [] ≡ false
unfolding is_description
no_description = refl

module _ (to_lowercase : Text → Text)
    (no_capital : (t : Text) → all (λ c. not (is_capital c)) (to_lowercase t) ≡ true) where
  kebab_from-lowercase : (t : Text) → is_slug (kebab_from [] false (to_lowercase t)) ≡ true
  kebab_from-lowercase t = is_slug-kebab_from (to_lowercase t) [] false refl (no_capital t)

  -- A text with an ASCII letter or digit once it is in lower case becomes a description; any other
  -- becomes the empty text. No dash stands at the end.
  pub kebab-is_description :
      (t : Text)
      → (if any is_ascii_alphanumeric (to_lowercase t)
            then is_description (kebab to_lowercase t)
            else is_empty (kebab to_lowercase t))
          ≡ true
        × (trim_end_matches b'-' (kebab to_lowercase t) ≡ kebab to_lowercase t)
  unfolding kebab
  kebab-is_description t =
      let s = kebab_from [] false (to_lowercase t) in
      let filled = kebab_from_filled (to_lowercase t) [] false in
      (
        elim (Bool-cases (any is_ascii_alphanumeric (to_lowercase t))) [
          | inl e ↦ rw e (
              trim_dashes-is_description s (filled_slug s (kebab_from-lowercase t) (filled ∙ rw e)))
          | inr e ↦ rw e (ap is_empty (trim_dashes-empty s (filled ∙ rw e)))
        ],
        unfold trim_dashes in trim_end_matches_twice b'-' (drop_while (λ c. c == b'-') s),
      )

  -- A specification is made exactly of an allowed type, an issue of digits and a text with an ASCII
  -- letter or digit once it is in lower case; otherwise the first of these that fails is told, the
  -- description as the empty text.
  pub new_with_types-cases :
      (is_digit : ℕ → Bool) (type_ issue desc : Text) (allowed : List BranchType)
      → new_with_types to_lowercase is_digit type_ issue desc allowed ≡ (
          if not (is_allowed type_ allowed)
          then refused (invalid_branch_type type_ (join (codes ", ") (map (λ t. t.name) allowed)))
          else if not (is_issue is_digit issue)
          then refused (invalid_issue issue)
          else if not (any is_ascii_alphanumeric (to_lowercase desc))
          then refused (invalid_description [])
          else made (record { type_ = type_; issue = issue; desc = kebab to_lowercase desc }))
  unfolding new_with_types validate_against validate_with_required contains_segment
  new_with_types-cases is_digit type_ issue desc allowed =
      let made_of = (kebab-is_description desc).0 in
      elim (Bool-cases (any is_ascii_alphanumeric (to_lowercase desc))) [
        | inl e ↦
            let valid : is_description (kebab to_lowercase desc) ≡ true =
              ground (arith, e, made_of) in
            rw e (ground (arith, valid))
        | inr e ↦
            let none_left : kebab to_lowercase desc ≡ [] =
              nil_of_is_empty (kebab to_lowercase desc) (ground (arith, e, made_of)) in
            rw (e, none_left) (ground (arith, no_description))
      ]
