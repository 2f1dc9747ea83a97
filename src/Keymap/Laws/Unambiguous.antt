-- ===== src/Keymap/Laws/Unambiguous.antt =====
-- What the validation of a keymap rules out.
use gwm_cli.Base.{
  ◌<◌, ◌≡◌, ◌≢◌, ◌↔◌, ◌⊎◌, refl, sym, ◌∙◌, inl, inr, Bool, true, false, ◌&&◌, ◌||◌, List, [], ◌∷◌,
  ◌++◌, none, arith, map, length, Bool-cases, is_discrete_eq_iff,
}
use gwm_cli.Keymap.Actions.{Action, Action-discrete, action_eq}
use gwm_cli.Keymap.Strokes.{KeyStroke, KeyStroke-discrete}
use gwm_cli.Keymap.Bindings.{
  Chord, Binding, Keymap, stroke_eq, chord_eq, starts_with, chord_in, has_empty, first_empty,
  bound_to, all_chords, clash, clash_with, first_clash, validate,
}

pub action_eq_iff : (a b : Action) → (action_eq a b ≡ true) ↔ (a ≡ b)
unfolding action_eq
action_eq_iff = is_discrete_eq_iff Action-discrete

pub stroke_eq_iff : (a b : KeyStroke) → (stroke_eq a b ≡ true) ↔ (a ≡ b)
unfolding stroke_eq
stroke_eq_iff = is_discrete_eq_iff KeyStroke-discrete

pub chord_eq_iff : (a b : Chord) → (chord_eq a b ≡ true) ↔ (a ≡ b)
unfolding chord_eq
chord_eq_iff (k ∷ c) (l ∷ d) = ground (arith, stroke_eq_iff k l, chord_eq_iff c d)
chord_eq_iff _ _ = ground arith

pub starts_with-append : (c d : Chord) → starts_with (c ++ d) c ≡ true
unfolding starts_with
starts_with-append [] d = refl
starts_with-append (k ∷ c) d = ground (arith, stroke_eq_iff k k, starts_with-append c d)

pub starts_with-eq : (c d : Chord) → starts_with c d ≡ true → (c ≡ d) ⊎ (length d < length c)
unfolding starts_with
starts_with-eq [] [] h = inl refl
starts_with-eq (k ∷ c) [] h = inr (omega arith)
starts_with-eq [] (l ∷ d) h = ground arith
starts_with-eq (k ∷ c) (l ∷ d) h =
    let e : k ≡ l = ground (arith, stroke_eq_iff k l) in
    elim (starts_with-eq c d (ground arith)) [
      | inl t ↦ inl (rw (e, t) refl)
      | inr n ↦ inr (omega arith)
    ]

-- A chord is bound to an action by some binding of the list.
abbrev pub is_bound : Chord → Action → List Binding → Bool
is_bound c a [] = false
is_bound c a (b ∷ bs) = action_eq b.action a && chord_in c b.chords || is_bound c a bs

abbrev binds : Chord → Action → List (Chord × Action) → Bool
binds c a [] = false
binds c a ((d, b) ∷ ps) = chord_eq c d && action_eq b a || binds c a ps

abbrev pub layer : Binding → Action × List Chord
layer b = (b.action, b.chords)

-- The keymap passes its own validation.
abbrev pub Valid : Keymap → Type 0
Valid m = validate (map layer m.entries) ≡ none

binds-append :
    (c : Chord) (a : Action) (ps qs : List (Chord × Action))
    → binds c a (ps ++ qs) ≡ (binds c a ps || binds c a qs)
binds-append c a [] qs = refl
binds-append c a ((d, b) ∷ ps) qs = ground (arith, binds-append c a ps qs)

binds-bound_to :
    (c : Chord) (a b : Action) (ds : List Chord)
    → binds c a (bound_to b ds) ≡ (action_eq b a && chord_in c ds)
unfolding chord_in
binds-bound_to c a b [] = ground arith
binds-bound_to c a b (d ∷ ds) = ground (arith, binds-bound_to c a b ds)

binds-all_chords :
    (c : Chord) (a : Action) (bs : List Binding)
    → binds c a (all_chords (map layer bs)) ≡ is_bound c a bs
unfolding all_chords
binds-all_chords c a [] = refl
binds-all_chords c a (b ∷ bs) = ground (
  arith,
  binds-append c a (bound_to b.action b.chords) (all_chords (map layer bs)),
  binds-bound_to c a b.action b.chords,
  binds-all_chords c a bs,
)

-- Two bindings, neither of which is a prefix of the other unless they are the same.
record Compatible (c : Chord) (a : Action) (d : Chord) (b : Action) : Type 0 where
  forth : starts_with d c ≡ true → (c ≡ d) × (a ≡ b)
  back : starts_with c d ≡ true → (c ≡ d) × (a ≡ b)

module _ (c : Chord) (a : Action) (d : Chord) (b : Action) (h : clash (c, a) (d, b) ≡ none) where
  clash-same : chord_eq c d ≡ true → action_eq a b ≡ true
  unfolding clash
  clash-same e = ground arith

  clash-longer : length c < length d → starts_with d c ≡ true → chord_eq c d ≡ true
  unfolding clash
  clash-longer n s = ground arith

  clash-shorter : length d < length c → starts_with c d ≡ true → chord_eq c d ≡ true
  unfolding clash
  clash-shorter n s = ground arith

  same_binding : chord_eq c d ≡ true → (c ≡ d) × (a ≡ b)
  same_binding e = ((chord_eq_iff c d).0 e, (action_eq_iff a b).0 (clash-same e))

  clash-Compatible : Compatible c a d b
  clash-Compatible = record {
    forth = λ s. elim (starts_with-eq d c s) [
      | inl e ↦ same_binding ((chord_eq_iff c d).1 (sym e))
      | inr n ↦ same_binding (clash-longer n s)
    ];
    back = λ s. elim (starts_with-eq c d s) [
      | inl e ↦ same_binding ((chord_eq_iff c d).1 e)
      | inr n ↦ same_binding (clash-shorter n s)
    ];
  }

Compatible-sym :
    (c : Chord) (a : Action) (d : Chord) (b : Action) → Compatible c a d b → Compatible d b c a
Compatible-sym c a d b h = record {
  forth = λ s. let e = h.back s in (sym e.0, sym e.1);
  back = λ s. let e = h.forth s in (sym e.0, sym e.1);
}

Compatible-self : (c : Chord) (a : Action) → Compatible c a c a
Compatible-self c a = record { forth = λ s. (refl, refl); back = λ s. (refl, refl) }

clash_with-cons :
    (p q : Chord × Action) (ps : List (Chord × Action))
    → clash_with p (q ∷ ps) ≡ none
    → (clash p q ≡ none) × (clash_with p ps ≡ none)
unfolding clash_with
clash_with-cons p q ps h = ground arith

first_clash-cons :
    (p : Chord × Action) (ps : List (Chord × Action))
    → first_clash (p ∷ ps) ≡ none
    → (clash_with p ps ≡ none) × (first_clash ps ≡ none)
unfolding first_clash
first_clash-cons p ps h = ground arith

-- A binding of a list is its first one or is bound by the rest.
binds-cons :
    (c : Chord) (a : Action) (d : Chord) (b : Action) (ps : List (Chord × Action))
    → binds c a ((d, b) ∷ ps) ≡ true
    → ((c ≡ d) × (a ≡ b)) ⊎ (binds c a ps ≡ true)
binds-cons c a d b ps h = elim (Bool-cases (binds c a ps)) [
  | inl t ↦ inr t
  | inr n ↦ inl ((chord_eq_iff c d).0 (ground arith), sym ((action_eq_iff b a).0 (ground arith)))
]

clash_with-Compatible :
    (c : Chord) (a : Action) (d : Chord) (b : Action) (ps : List (Chord × Action))
    → clash_with (c, a) ps ≡ none
    → binds d b ps ≡ true
    → Compatible c a d b
clash_with-Compatible c a d b [] h i = absurd (ground arith)
clash_with-Compatible c a d b ((e, x) ∷ ps) h i =
    let both = clash_with-cons (c, a) (e, x) ps h in
    elim (binds-cons d b e x ps i) [
      | inl s ↦ rw (s.0, s.1) (clash-Compatible c a e x both.0)
      | inr t ↦ clash_with-Compatible c a d b ps both.1 t
    ]

first_clash-Compatible :
    (c : Chord) (a : Action) (d : Chord) (b : Action) (ps : List (Chord × Action))
    → first_clash ps ≡ none
    → binds c a ps ≡ true
    → binds d b ps ≡ true
    → Compatible c a d b
first_clash-Compatible c a d b [] h i j = absurd (ground arith)
first_clash-Compatible c a d b ((e, x) ∷ ps) h i j =
    let both = first_clash-cons (e, x) ps h in
    elim (binds-cons c a e x ps i) [
      | inl s ↦ elim (binds-cons d b e x ps j) [
        | inl t ↦ rw (s.0, s.1, t.0, t.1) (Compatible-self e x)
        | inr t ↦ rw (s.0, s.1) (clash_with-Compatible e x d b ps both.0 t)
      ]
      | inr s ↦ elim (binds-cons d b e x ps j) [
        | inl t ↦ rw (t.0, t.1) (Compatible-sym e x c a (clash_with-Compatible e x c a ps both.0 s))
        | inr t ↦ first_clash-Compatible c a d b ps both.1 s t
      ]
    ]

has_empty-chord_in :
    (c : Chord) (cs : List Chord) → has_empty cs ≡ false → chord_in c cs ≡ true → c ≢ []
unfolding has_empty chord_in
has_empty-chord_in c [] h i = absurd (ground arith)
has_empty-chord_in c ([] ∷ cs) h i = absurd (ground arith)
has_empty-chord_in c ((k ∷ d) ∷ cs) h i = elim (Bool-cases (chord_in c cs)) [
  | inl t ↦ has_empty-chord_in c cs h t
  | inr n ↦ rw ((chord_eq_iff c (k ∷ d)).0 (ground arith)) (λ e. cc)
]

first_empty-bound :
    (c : Chord) (a : Action) (bs : List Binding)
    → first_empty (map layer bs) ≡ none
    → is_bound c a bs ≡ true
    → c ≢ []
unfolding first_empty
first_empty-bound c a [] h i = absurd (ground arith)
first_empty-bound c a (b ∷ bs) h i = elim (Bool-cases (is_bound c a bs)) [
  | inl t ↦ first_empty-bound c a bs (ground arith) t
  | inr n ↦ has_empty-chord_in c b.chords (ground arith) (ground arith)
]

validate-both :
    (es : List (Action × List Chord))
    → validate es ≡ none
    → (first_empty es ≡ none) × (first_clash (all_chords es) ≡ none)
unfolding validate
validate-both es h = ground arith

module _ (m : Keymap) (v : Valid m) where
  pub bound-non_empty : (c : Chord) (a : Action) → is_bound c a m.entries ≡ true → c ≢ []
  bound-non_empty c a h =
      first_empty-bound c a m.entries (validate-both (map layer m.entries) v).0 h

  -- A bound chord that starts another bound chord is that chord, of the same action.
  pub unambiguous :
      (c : Chord) (a : Action) (d : Chord) (b : Action)
      → is_bound c a m.entries ≡ true
      → is_bound d b m.entries ≡ true
      → starts_with d c ≡ true
      → (c ≡ d) × (a ≡ b)
  unambiguous c a d b h i s =
      (first_clash-Compatible c a d b (all_chords (map layer m.entries))
          (validate-both (map layer m.entries) v).1 (binds-all_chords c a m.entries ∙ h)
          (binds-all_chords d b m.entries ∙ i)).forth
        s
