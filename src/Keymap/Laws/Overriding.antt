-- ===== src/Keymap/Laws/Overriding.antt =====
-- An override gives its action the chords asked for, and takes no other chord from any action.
use gwm_cli.Base.{
  ◌≡◌, ◌⊎◌, refl, ap, ◌∙◌, inl, inr, true, false, not, ◌&&◌, List, none, some, arith, map,
  if◌then◌else◌, Bool-cases, Option-cases,
}
use gwm_cli.Keymap.Actions.{Action, action_eq}
use gwm_cli.Keymap.Bindings.{
  Chord, Keymap, KeymapError, chord_in, candidate, vacate, replace_or_push, apply_override,
  validate,
}
use gwm_cli.Keymap.Laws.Unambiguous.{action_eq_iff, is_bound, unambiguous}
use gwm_cli.Keymap.Laws.Resolving.{starts_with_self}
use gwm_cli.Keymap.Laws.Replacing.{
  Loaded, layers-candidate, count-other, count-own, bound-other, bound-own,
}

module _ (m : Keymap) (a : Action) (cs : List Chord) where
  abbrev overridden : Keymap
  overridden = record { entries = replace_or_push a cs (map (vacate a cs) m.entries) }

  override-ok :
      validate (candidate a cs m.entries) ≡ none → apply_override m a cs ≡ (overridden, none)
  unfolding apply_override
  override-ok e = rw (apply_override, e) refl

  override-error :
      (x : KeymapError)
      → validate (candidate a cs m.entries) ≡ some x
      → apply_override m a cs ≡ (m, some x)
  unfolding apply_override
  override-error x e = rw (apply_override, e) refl

  overridden-Loaded : Loaded m → validate (candidate a cs m.entries) ≡ none → Loaded overridden
  overridden-Loaded l e = record {
    valid = rw (layers-candidate a cs m.entries (l.once a)) e;
    once = λ x. elim (Bool-cases (action_eq a x)) [
      | inl t ↦ rw (← (action_eq_iff a x).0 t) (count-own a cs m.entries (l.once a))
      | inr n ↦ rw (count-other a cs x m.entries n) (l.once x)
    ];
  }

  -- An override, refused or not, leaves a keymap that passes its validation, with one binding for
  -- an action at most; a refused one leaves the keymap as it was.
  pub apply_override-Loaded :
      Loaded m
      → Loaded (apply_override m a cs).0
        × (((apply_override m a cs).1 ≡ none) ⊎ ((apply_override m a cs).0 ≡ m))
  apply_override-Loaded l = elim (Option-cases (validate (candidate a cs m.entries))) [
    | inl e ↦ rw (override-ok e) (overridden-Loaded l e, inl refl)
    | inr (x, e) ↦ rw (override-error x e) (l, inr refl)
  ]

  accepted : (apply_override m a cs).1 ≡ none → validate (candidate a cs m.entries) ≡ none
  accepted h = elim (Option-cases (validate (candidate a cs m.entries))) [
    | inl e ↦ e
    | inr (x, e) ↦ absurd (ground (arith, h, ap (λ r. r.1) (override-error x e)))
  ]

  -- A claimed chord is bound to no other action.
  claimed_free :
      Loaded m
      → validate (candidate a cs m.entries) ≡ none
      → (c : Chord) (x : Action) → action_eq a x ≡ false
      → chord_in c cs ≡ true
      → is_bound c x overridden.entries ≡ false
  claimed_free l e c x n i = elim (Bool-cases (is_bound c x overridden.entries)) [
    | inl t ↦
        let own = bound-own a cs c m.entries (l.once a) ∙ i in
        let same =
          (unambiguous overridden (overridden-Loaded l e).valid c a c x own t
            (starts_with_self c)).1 in
        absurd (ground (arith, n, (action_eq_iff a x).1 same))
    | inr f ↦ f
  ]

  -- After an override that is accepted, its action has the chords asked for and no other, and
  -- every other action has the chords it had, less those.
  pub apply_override-bound :
      Loaded m
      → (apply_override m a cs).1 ≡ none
      → (c : Chord) (x : Action)
      → is_bound c x (apply_override m a cs).0.entries
        ≡ (if action_eq a x then chord_in c cs else is_bound c x m.entries && not (chord_in c cs))
  apply_override-bound l h c x =
      let e = accepted h in
      rw (override-ok e) (elim (Bool-cases (action_eq a x)) [
        | inl t ↦ rw t (rw (← (action_eq_iff a x).0 t) (bound-own a cs c m.entries (l.once a)))
        | inr n ↦ rw n (elim (Bool-cases (chord_in c cs)) [
          | inl i ↦ rw i (claimed_free l e c x n i ∙ ground arith)
          | inr f ↦ bound-other a cs c x m.entries n f ∙ ground arith
        ])
      ])
