-- ===== src/Naming/Laws/Fields.antt =====
-- Which segments the patterns ask for.
use gwm_cli.Base.{
  ℕ, ◌≡◌, refl, sym, ap, ◌∙◌, inl, inr, Bool, true, false, ◌&&◌, ◌||◌, List, [], ◌∷◌, ◌++◌, Option,
  none, some, if◌then◌else◌, ==_refl, leb, any, arith, Text, Bool-cases,
}
use mathlib.Core.Path.{subst}
use gwm_cli.Naming.Boundaries.{Segment, type_segment, issue_segment, desc_segment}
use gwm_cli.Naming.Specs.{contains_segment, segments}
use gwm_cli.Naming.Patterns.{
  placeholder, begins, one_further, found, find_text, with_hit, segment_hits, insert_hit, sort_hits,
  push_new, push_hits, editable_from, editable_segments,
}

abbrev same : Segment → Segment → Bool
same s t = contains_segment s (t ∷ [])

-- The pattern has the placeholder of the segment in it.
abbrev pub writes : Segment → Text → Bool
writes s pattern = found (find_text pattern (placeholder s))

abbrev has_hit : Segment → List (ℕ × Segment) → Bool
has_hit s hits = any (λ (h : ℕ × Segment). same s h.1) hits

or_swap : (a b c : Bool) → (a || (b || c)) ≡ (b || (a || c))
or_swap a b c = ground arith

has_hit-insert :
    (s : Segment) (h : ℕ × Segment) (hits : List (ℕ × Segment))
    → has_hit s (insert_hit h hits) ≡ (same s h.1 || has_hit s hits)
unfolding insert_hit
has_hit-insert s h [] = refl
has_hit-insert s h (k ∷ hits) = elim (Bool-cases (leb h.0 k.0)) [
  | inl e ↦ rw e refl
  | inr e ↦ rw e (
      ap (λ x. same s k.1 || x) (has_hit-insert s h hits)
      ∙ or_swap (same s k.1) (same s h.1) (has_hit s hits))
]

has_hit-sort :
    (s : Segment) (hits : List (ℕ × Segment)) → has_hit s (sort_hits hits) ≡ has_hit s hits
unfolding sort_hits
has_hit-sort s [] = refl
has_hit-sort s (h ∷ hits) =
    has_hit-insert s h (sort_hits hits) ∙ ap (λ x. same s h.1 || x) (has_hit-sort s hits)

has_hit-with_hit :
    (s t : Segment) (o : Option ℕ) (hits : List (ℕ × Segment))
    → has_hit s (with_hit t o hits) ≡ (same s t && found o || has_hit s hits)
has_hit-with_hit s t none hits = ground arith
has_hit-with_hit s t (some at) hits = ground arith

module _ (a b c : Option ℕ) where
  abbrev hits : List (ℕ × Segment)
  hits = with_hit type_segment a (with_hit issue_segment b (with_hit desc_segment c []))

  has_hit-each :
      (s : Segment)
      → has_hit s hits ≡ (
          same s type_segment && found a
          || (same s issue_segment && found b || (same s desc_segment && found c || false)))
  has_hit-each s = ground (
    arith,
    has_hit-with_hit s type_segment a (with_hit issue_segment b (with_hit desc_segment c [])),
    has_hit-with_hit s issue_segment b (with_hit desc_segment c []),
    has_hit-with_hit s desc_segment c [],
  )

only_same :
    (f : Segment → Bool) (s : Segment)
    → (same s type_segment && f type_segment
        || (same s issue_segment && f issue_segment
            || (same s desc_segment && f desc_segment || false)))
      ≡ f s
unfolding contains_segment
only_same f type_segment = ground arith
only_same f issue_segment = ground arith
only_same f desc_segment = ground arith

has_hit-segment_hits : (s : Segment) (p : Text) → has_hit s (segment_hits p segments) ≡ writes s p
unfolding segment_hits
has_hit-segment_hits s p =
    has_hit-each (find_text p (placeholder type_segment)) (find_text p (placeholder issue_segment))
      (find_text p (placeholder desc_segment)) s
    ∙ only_same (λ t. found (find_text p (placeholder t))) s

contains-cons :
    (s u : Segment) (out : List Segment)
    → contains_segment s (u ∷ out) ≡ (same s u || contains_segment s out)
unfolding contains_segment
contains-cons type_segment type_segment out = refl
contains-cons type_segment issue_segment out = refl
contains-cons type_segment desc_segment out = refl
contains-cons issue_segment type_segment out = refl
contains-cons issue_segment issue_segment out = refl
contains-cons issue_segment desc_segment out = refl
contains-cons desc_segment type_segment out = refl
contains-cons desc_segment issue_segment out = refl
contains-cons desc_segment desc_segment out = refl

contains-nil : (s : Segment) → contains_segment s [] ≡ false
unfolding contains_segment
contains-nil s = refl

contains-append :
    (s t : Segment) (out : List Segment)
    → contains_segment s (out ++ (t ∷ [])) ≡ (contains_segment s out || same s t)
contains-append s t [] = unfold contains_segment in refl
contains-append s t (u ∷ out) =
    ground
      (arith, contains-cons s u out, contains-cons s u (out ++ (t ∷ [])), contains-append s t out)

same_segment : (s t : Segment) → same s t ≡ true → s ≡ t
unfolding contains_segment
same_segment type_segment type_segment h = refl
same_segment issue_segment issue_segment h = refl
same_segment desc_segment desc_segment h = refl
same_segment type_segment issue_segment h = cc
same_segment type_segment desc_segment h = cc
same_segment issue_segment type_segment h = cc
same_segment issue_segment desc_segment h = cc
same_segment desc_segment type_segment h = cc
same_segment desc_segment issue_segment h = cc

contains-push_new :
    (s t : Segment) (out : List Segment)
    → contains_segment s (push_new out t) ≡ (contains_segment s out || same s t)
unfolding push_new
contains-push_new s t out = elim (Bool-cases (contains_segment t out)) [
  | inl e ↦ rw e (elim (Bool-cases (same s t)) [
    | inl k ↦
        let at : contains_segment s out ≡ true =
          ap (λ x. contains_segment x out) (same_segment s t k) ∙ e in
        rw at refl
    | inr k ↦ rw k (ground arith)
  ])
  | inr e ↦ rw e (contains-append s t out)
]

contains-push_hits :
    (s : Segment) (out : List Segment) (hits : List (ℕ × Segment))
    → contains_segment s (push_hits out hits) ≡ (contains_segment s out || has_hit s hits)
unfolding push_hits
contains-push_hits s out [] = ground arith
contains-push_hits s out (h ∷ hits) =
    ground (arith, contains-push_hits s (push_new out h.1) hits, contains-push_new s h.1 out)

contains-editable_from :
    (s : Segment) (out : List Segment) (ps : List Text)
    → contains_segment s (editable_from out ps) ≡ (contains_segment s out || any (writes s) ps)
unfolding editable_from
contains-editable_from s out [] = ground arith
contains-editable_from s out (p ∷ ps) = ground (
  arith,
  contains-editable_from s (push_hits out (sort_hits (segment_hits p segments))) ps,
  contains-push_hits s out (sort_hits (segment_hits p segments)),
  has_hit-sort s (segment_hits p segments),
  has_hit-segment_hits s p,
)

-- A segment is asked for exactly if one of the patterns writes it.
pub contains-editable_segments :
    (s : Segment) (ps : List Text) → contains_segment s (editable_segments ps) ≡ any (writes s) ps
unfolding editable_segments
contains-editable_segments s ps =
    contains-editable_from s [] ps ∙ ap (λ x. x || any (writes s) ps) (contains-nil s)

-- A pattern that has a text in it has it at some place.
begins_append : (t post : Text) → begins (t ++ post) t ≡ true
unfolding begins
begins_append [] post = refl
begins_append (c ∷ t) post = rw (==_refl c) (begins_append t post)

found-further : (o : Option ℕ) → found (one_further o) ≡ found o
found-further none = refl
found-further (some i) = refl

begun : (s t : Text) → begins s t ≡ true → found (find_text s t) ≡ true
unfolding find_text
begun [] t h = rw h refl
begun (c ∷ s) t h = rw h refl

find_text-cons :
    (c : ℕ) (s t : Text) → found (find_text s t) ≡ true → found (find_text (c ∷ s) t) ≡ true
unfolding find_text
find_text-cons c s t h = elim (Bool-cases (begins (c ∷ s) t)) [
  | inl e ↦ begun (c ∷ s) t e
  | inr e ↦ rw e (found-further (find_text s t) ∙ h)
]

find_text-append : (pre t post : Text) → found (find_text (pre ++ (t ++ post)) t) ≡ true
find_text-append [] t post = begun (t ++ post) t (begins_append t post)
find_text-append (c ∷ pre) t post =
    find_text-cons c (pre ++ (t ++ post)) t (find_text-append pre t post)

pub writes-placeholder :
    (s : Segment) (pre post : Text) → writes s (pre ++ (placeholder s ++ post)) ≡ true
writes-placeholder s pre post = find_text-append pre (placeholder s) post

not_in_nil : (t : Text) → begins [] t ≡ false → found (find_text [] t) ≡ false
unfolding find_text
not_in_nil t e = rw e refl

found_later :
    (c : ℕ) (s t : Text)
    → begins (c ∷ s) t ≡ false
    → found (find_text (c ∷ s) t) ≡ true
    → found (find_text s t) ≡ true
unfolding find_text
found_later c s t e h =
    sym (found-further (find_text s t))
    ∙ subst (λ b. found (if b then some 0 else one_further (find_text s t)) ≡ true) e h

begins-split : (s t : Text) → begins s t ≡ true → (post : Text) × (s ≡ t ++ post)
unfolding begins
begins-split s [] h = (s, refl)
begins-split [] (d ∷ t) h = cc
begins-split (c ∷ s) (d ∷ t) h =
    let same_head : c ≡ d = ground (arith, h) in
    let (post, e) = begins-split s t (ground (arith, h)) in (post, cc (same_head, e))

find_text-split :
    (s t : Text)
    → found (find_text s t) ≡ true
    → (pre : Text) × (post : Text) × (s ≡ pre ++ (t ++ post))
find_text-split [] t h = elim (Bool-cases (begins [] t)) [
  | inl e ↦ let (post, k) = begins-split [] t e in ([], post, k)
  | inr e ↦ cc (not_in_nil t e, h)
]
find_text-split (c ∷ s) t h = elim (Bool-cases (begins (c ∷ s) t)) [
  | inl e ↦ let (post, k) = begins-split (c ∷ s) t e in ([], post, k)
  | inr e ↦
      let (pre, post, k) = find_text-split s t (found_later c s t e h) in
      (c ∷ pre, post, ap (◌∷◌ c) k)
]

-- The text around a placeholder that the pattern writes.
pub placeholder-split :
    (s : Segment) (p : Text)
    → writes s p ≡ true
    → (pre : Text) × (post : Text) × (p ≡ pre ++ (placeholder s ++ post))
placeholder-split s p h = find_text-split p (placeholder s) h
