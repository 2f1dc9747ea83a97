-- ===== src/Keymap/Laws/Replacing.antt =====
-- The bindings after an override, one by one.
use gwm_cli.Base.{
  ◌+◌, ◌≤◌, ◌≡◌, refl, ap, sym, ◌∙◌, inl, inr, true, false, not, ◌&&◌, List, [], ◌∷◌, ◌++◌, arith,
  map, any, ltb, if◌then◌else◌, Bool-cases, ℕ,
}
use gwm_cli.Keymap.Actions.{Action, action_eq}
use gwm_cli.Keymap.Bindings.{
  Chord, Binding, Keymap, user_config, chord_in, chord_eq, unclaimed, is_built_in, candidate_entry,
  candidate, vacate, replace_or_push,
}
use gwm_cli.Keymap.Laws.Unambiguous.{action_eq_iff, chord_eq_iff, is_bound, layer, Valid}

-- How many bindings an action has.
abbrev pub count_action : Action → List Binding → ℕ
count_action a [] = 0
count_action a (b ∷ bs) = (if action_eq b.action a then 1 else 0) + count_action a bs

-- The keymap passes its validation and has one binding for an action at most.
pub record Loaded (m : Keymap) : Type 0 where
  pub valid : Valid m
  pub once : (a : Action) → count_action a m.entries ≤ 1

cons_eq : {A : Type 0} {x y : A} {xs ys : List A} → x ≡ y → xs ≡ ys → x ∷ xs ≡ y ∷ ys
cons_eq e h = rw (e, h) refl

module _ (a : Action) (cs : List Chord) where
  any-listed :
      (bs : List Binding)
      → any (λ e. action_eq e.0 a) (map (candidate_entry a cs) bs) ≡ ltb 0 (count_action a bs)
  unfolding candidate_entry
  any-listed [] = refl
  any-listed (b ∷ bs) = ground (arith, any-listed bs)

  layer-vacate :
      (b : Binding) → action_eq b.action a ≡ false → layer (vacate a cs b) ≡ candidate_entry a cs b
  unfolding vacate candidate_entry
  layer-vacate b n = elim (Bool-cases (is_built_in b.source)) [
    | inl t ↦ rw (n, t) refl
    | inr f ↦ rw (n, f) refl
  ]

  layers-vacate :
      (bs : List Binding)
      → count_action a bs ≡ 0
      → map layer (map (vacate a cs) bs) ≡ map (candidate_entry a cs) bs
  layers-vacate [] h = refl
  layers-vacate (b ∷ bs) h =
      cons_eq (layer-vacate b (ground arith)) (layers-vacate bs (ground arith))

  vacate_self : (b : Binding) → action_eq b.action a ≡ true → vacate a cs b ≡ b
  unfolding vacate
  vacate_self b t = rw (vacate, t) refl

  action-vacate : (b : Binding) → (vacate a cs b).action ≡ b.action
  unfolding vacate
  action-vacate b = elim (Bool-cases (not (action_eq b.action a) && is_built_in b.source)) [
    | inl t ↦ rw (vacate, t) refl
    | inr f ↦ rw (vacate, f) refl
  ]

  push_hit :
      (b : Binding) (bs : List Binding)
      → action_eq b.action a ≡ true
      → replace_or_push a cs (vacate a cs b ∷ bs)
        ≡ record b { chords = cs; source = user_config } ∷ bs
  unfolding replace_or_push
  push_hit b bs t = rw (vacate_self b t) (rw (replace_or_push, t) refl)

  push_skip :
      (b : Binding) (bs : List Binding)
      → action_eq b.action a ≡ false
      → replace_or_push a cs (vacate a cs b ∷ bs) ≡ vacate a cs b ∷ replace_or_push a cs bs
  unfolding replace_or_push
  push_skip b bs n =
      let e : action_eq (vacate a cs b).action a ≡ false =
        ap (λ x. action_eq x a) (action-vacate b) ∙ n in
      rw (replace_or_push, e) refl

  candidate_entry_self :
      (b : Binding) → action_eq b.action a ≡ true → candidate_entry a cs b ≡ (b.action, cs)
  unfolding candidate_entry
  candidate_entry_self b t = rw (candidate_entry, t) refl

  layers-absent :
      (bs : List Binding)
      → count_action a bs ≡ 0
      → map layer (replace_or_push a cs (map (vacate a cs) bs))
        ≡ map (candidate_entry a cs) bs ++ ((a, cs) ∷ [])
  layers-absent [] h = unfold replace_or_push in refl
  layers-absent (b ∷ bs) h =
      let n : action_eq b.action a ≡ false = ground arith in
      ap (map layer) (push_skip b (map (vacate a cs) bs) n)
      ∙ cons_eq (layer-vacate b n) (layers-absent bs (ground arith))

  layers-present :
      (bs : List Binding)
      → count_action a bs ≡ 1
      → map layer (replace_or_push a cs (map (vacate a cs) bs)) ≡ map (candidate_entry a cs) bs
  layers-present [] h = absurd (ground arith)
  layers-present (b ∷ bs) h = elim (Bool-cases (action_eq b.action a)) [
    | inl t ↦
        ap (map layer) (push_hit b (map (vacate a cs) bs) t)
        ∙ cons_eq (sym (candidate_entry_self b t)) (layers-vacate bs (ground arith))
    | inr n ↦
        ap (map layer) (push_skip b (map (vacate a cs) bs) n)
        ∙ cons_eq (layer-vacate b n) (layers-present bs (ground arith))
  ]

  pub layers-candidate :
      (bs : List Binding)
      → count_action a bs ≤ 1
      → map layer (replace_or_push a cs (map (vacate a cs) bs)) ≡ candidate a cs bs
  unfolding candidate
  layers-candidate bs h = elim (Bool-cases (ltb 0 (count_action a bs))) [
    | inl t ↦ layers-present bs (ground arith) ∙ rw (any-listed bs, t) refl
    | inr n ↦ layers-absent bs (ground arith) ∙ rw (any-listed bs, n) refl
  ]

  count-vacate :
      (x : Action) (bs : List Binding) → count_action x (map (vacate a cs) bs) ≡ count_action x bs
  count-vacate x [] = refl
  count-vacate x (b ∷ bs) = rw (action-vacate b, count-vacate x bs) refl

  own_action :
      (b : Binding) (x : Action)
      → action_eq b.action a ≡ true
      → action_eq b.action x ≡ action_eq a x
  own_action b x t = ap (λ y. action_eq y x) ((action_eq_iff b.action a).0 t)

  pub count-other :
      (x : Action) (bs : List Binding)
      → action_eq a x ≡ false
      → count_action x (replace_or_push a cs (map (vacate a cs) bs)) ≡ count_action x bs
  count-other x [] o = unfold replace_or_push in ground arith
  count-other x (b ∷ bs) o = elim (Bool-cases (action_eq b.action a)) [
    | inl t ↦
        ap (count_action x) (push_hit b (map (vacate a cs) bs) t) ∙ rw (count-vacate x bs) refl
    | inr n ↦
        ap (count_action x) (push_skip b (map (vacate a cs) bs) n)
        ∙ rw (action-vacate b, count-other x bs o) refl
  ]

  pub count-own :
      (bs : List Binding)
      → count_action a bs ≤ 1
      → count_action a (replace_or_push a cs (map (vacate a cs) bs)) ≤ 1
  count-own [] h = unfold replace_or_push in ground arith
  count-own (b ∷ bs) h = elim (Bool-cases (action_eq b.action a)) [
    | inl t ↦ rw (push_hit b (map (vacate a cs) bs) t) (ground (arith, count-vacate a bs))
    | inr n ↦
        rw (push_skip b (map (vacate a cs) bs) n, action-vacate b) (ground (arith, count-own bs))
  ]

  chord_in-unclaimed :
      (c : Chord) (ds : List Chord)
      → chord_in c cs ≡ false
      → chord_in c (unclaimed cs ds) ≡ chord_in c ds
  unfolding chord_in unclaimed
  chord_in-unclaimed c [] n = refl
  chord_in-unclaimed c (d ∷ ds) n = elim (Bool-cases (chord_eq c d)) [
    | inl t ↦
        ground (arith, ap (λ x. chord_in x cs) ((chord_eq_iff c d).0 t), chord_in-unclaimed c ds n)
    | inr f ↦ ground (arith, chord_in-unclaimed c ds n)
  ]

  chord_in-vacate :
      (c : Chord) (b : Binding)
      → chord_in c cs ≡ false
      → chord_in c (vacate a cs b).chords ≡ chord_in c b.chords
  unfolding vacate
  chord_in-vacate c b n = elim (Bool-cases (not (action_eq b.action a) && is_built_in b.source)) [
    | inl t ↦ rw (vacate, t) (chord_in-unclaimed c b.chords n)
    | inr f ↦ rw (vacate, f) refl
  ]

  bound-vacate :
      (c : Chord) (x : Action) (bs : List Binding)
      → chord_in c cs ≡ false
      → is_bound c x (map (vacate a cs) bs) ≡ is_bound c x bs
  bound-vacate c x [] n = refl
  bound-vacate c x (b ∷ bs) n =
      rw (action-vacate b, chord_in-vacate c b n, bound-vacate c x bs n) refl

  pub bound-other :
      (c : Chord) (x : Action) (bs : List Binding)
      → action_eq a x ≡ false
      → chord_in c cs ≡ false
      → is_bound c x (replace_or_push a cs (map (vacate a cs) bs)) ≡ is_bound c x bs
  bound-other c x [] o n = unfold replace_or_push in ground arith
  bound-other c x (b ∷ bs) o n = elim (Bool-cases (action_eq b.action a)) [
    | inl t ↦
        ap (is_bound c x) (push_hit b (map (vacate a cs) bs) t)
        ∙ ground (arith, own_action b x t, bound-vacate c x bs n)
    | inr f ↦
        ap (is_bound c x) (push_skip b (map (vacate a cs) bs) f)
        ∙ rw (action-vacate b, chord_in-vacate c b n, bound-other c x bs o n) refl
  ]

  bound-none :
      (c : Chord) (bs : List Binding)
      → count_action a bs ≡ 0
      → is_bound c a (map (vacate a cs) bs) ≡ false
  bound-none c [] h = refl
  bound-none c (b ∷ bs) h = rw (action-vacate b) (ground (arith, bound-none c bs))

  pub bound-own :
      (c : Chord) (bs : List Binding)
      → count_action a bs ≤ 1
      → is_bound c a (replace_or_push a cs (map (vacate a cs) bs)) ≡ chord_in c cs
  bound-own c [] h = unfold replace_or_push in ground (arith, action_eq_iff a a)
  bound-own c (b ∷ bs) h = elim (Bool-cases (action_eq b.action a)) [
    | inl t ↦
        ap (is_bound c a) (push_hit b (map (vacate a cs) bs) t) ∙ ground (arith, bound-none c bs)
    | inr f ↦
        ap (is_bound c a) (push_skip b (map (vacate a cs) bs) f)
        ∙ rw (action-vacate b) (ground (arith, bound-own c bs))
  ]
