-- ===== src/Keymap/Laws/Toggling.antt =====
-- Inside a modal: the keys of a chord of its own action fire at the last key, and wait before it.
use gwm_cli.Base.{
  ◌≡◌, ◌≢◌, refl, ap, ◌∙◌, inl, inr, true, List, [], ◌∷◌, ◌++◌, arith, map, any, Bool-cases,
}
use gwm_cli.Keymap.Actions.{Action}
use gwm_cli.Keymap.Bindings.{Chord, Binding, Keymap, chord_eq, chord_in, chords_of, chords_for}
use gwm_cli.Keymap.Dispatch.{
  KeyEvent, from_event, KeyApp, sync_legacy_pending_flag, ToggleStroke, fired, pending,
  resolve_toggle_buffer, modal_toggle_stroke,
}
use gwm_cli.Keymap.Laws.Unambiguous.{
  starts_with-append, is_bound, Valid, unambiguous, bound-non_empty,
}
use gwm_cli.Keymap.Laws.Resolving.{
  chord_eq-sym, any_longer, is_longer-append, append-ne, append_one,
}

any_equal : (c : Chord) (cs : List Chord) → any (λ d. chord_eq d c) cs ≡ chord_in c cs
unfolding chord_in
any_equal c [] = refl
any_equal c (d ∷ cs) = ground (arith, chord_eq-sym d c, any_equal c cs)

chord_in-bound :
    (c : Chord) (a : Action) (bs : List Binding)
    → chord_in c (chords_of a bs) ≡ true
    → is_bound c a bs ≡ true
unfolding chords_of
chord_in-bound c a [] h = absurd (unfold chord_in in ground (arith, h))
chord_in-bound c a (b ∷ bs) h = ground (arith, chord_in-bound c a bs)

module _ (action : Action) (a : KeyApp) (v : Valid a.keymap) where
  resolve_toggle-fired :
      (c : Chord)
      → chord_in c (chords_for a.keymap action) ≡ true
      → resolve_toggle_buffer action c a ≡ (a, fired)
  unfolding resolve_toggle_buffer
  resolve_toggle-fired c h =
      rw (resolve_toggle_buffer, any_equal c (chords_for a.keymap action), h) refl

  resolve_toggle-pending :
      (keys rest : Chord)
      → rest ≢ []
      → chord_in (keys ++ rest) (chords_for a.keymap action) ≡ true
      → resolve_toggle_buffer action keys a ≡ (record a { pending_chord = keys }, pending)
  unfolding resolve_toggle_buffer chords_for
  resolve_toggle-pending keys rest n h =
      let cs = chords_of action a.keymap.entries in
      let longer = any_longer keys (keys ++ rest) cs (is_longer-append keys rest n) h in
      elim (Bool-cases (chord_in keys cs)) [
        | inl t ↦ absurd (
            append-ne keys rest n
              (unambiguous a.keymap v keys action (keys ++ rest) action
                (chord_in-bound keys action a.keymap.entries t)
                (chord_in-bound (keys ++ rest) action a.keymap.entries h)
                (starts_with-append keys rest)).0)
        | inr f ↦ rw (resolve_toggle_buffer, any_equal keys cs, f, longer) refl
      ]

-- The keys of a run inside the modal of an action, each with what it does.
abbrev pub toggle_all : Action → List KeyEvent → KeyApp → KeyApp × List ToggleStroke
toggle_all action [] a = (a, [])
toggle_all action (ev ∷ evs) a =
    let done = modal_toggle_stroke action ev a in
    let rest = toggle_all action evs done.0 in (rest.0, done.1 ∷ rest.1)

abbrev pub last_toggles : List KeyEvent → List ToggleStroke
last_toggles [] = []
last_toggles (ev ∷ []) = fired ∷ []
last_toggles (ev ∷ ev' ∷ evs) = pending ∷ last_toggles (ev' ∷ evs)

pub record Toggled (m : Keymap) (outcome : List ToggleStroke) (r : KeyApp × List ToggleStroke)
    : Type 0 where
  pub same_keymap : r.0.keymap ≡ m
  pub nothing_pending : r.0.pending_chord ≡ []
  pub fires : r.1 ≡ outcome

toggle-fired :
    (action : Action) (ev : KeyEvent) (a : KeyApp)
    → resolve_toggle_buffer action (a.pending_chord ++ (from_event ev ∷ [])) a ≡ (a, fired)
    → ((modal_toggle_stroke action ev a).0.keymap ≡ a.keymap)
      × ((modal_toggle_stroke action ev a).0.pending_chord ≡ [])
      × ((modal_toggle_stroke action ev a).1 ≡ fired)
unfolding modal_toggle_stroke sync_legacy_pending_flag
toggle-fired action ev a e = rw e (refl, refl, refl)

toggle-pending :
    (action : Action) (ev : KeyEvent) (a : KeyApp) (c : Chord)
    → resolve_toggle_buffer action (a.pending_chord ++ (from_event ev ∷ [])) a
      ≡ (record a { pending_chord = c }, pending)
    → ((modal_toggle_stroke action ev a).0.keymap ≡ a.keymap)
      × ((modal_toggle_stroke action ev a).0.pending_chord ≡ c)
      × ((modal_toggle_stroke action ev a).1 ≡ pending)
unfolding modal_toggle_stroke sync_legacy_pending_flag
toggle-pending action ev a c e = rw e (refl, refl, refl)

toggle_all-pending :
    (action : Action) (ev : KeyEvent) (evs : List KeyEvent) (a : KeyApp)
    → Valid a.keymap
    → chord_in (a.pending_chord ++ map from_event (ev ∷ evs)) (chords_for a.keymap action) ≡ true
    → Toggled a.keymap (last_toggles (ev ∷ evs)) (toggle_all action (ev ∷ evs) a)
toggle_all-pending action ev [] a v h =
    let d =
      toggle-fired action ev a
        (resolve_toggle-fired action a v (a.pending_chord ++ (from_event ev ∷ [])) h) in
    record { same_keymap = d.0; nothing_pending = d.1; fires = ap (λ o. o ∷ []) d.2 }
toggle_all-pending action ev (ev' ∷ evs) a v h =
    let k = from_event ev in
    let later = map from_event (ev' ∷ evs) in
    let joined = append_one a.pending_chord later k in
    let keys = a.pending_chord ++ (k ∷ []) in
    let d =
      toggle-pending action ev a keys
        (resolve_toggle-pending action a v keys later (λ e. cc) (rw joined h)) in
    let b = (modal_toggle_stroke action ev a).0 in
    let rest = toggle_all-pending action ev' evs b (rw d.0 v) (rw (d.0, d.1, joined) h) in
    record {
      same_keymap = rest.same_keymap ∙ d.0;
      nothing_pending = rest.nothing_pending;
      fires = rw (d.2, rest.fires) refl;
    }

-- In a keymap that passes its validation, with nothing pending, the keys of a chord of the
-- modal's action wait, each but the last, which fires; nothing is left pending.
pub toggle_all-bound :
    (action : Action) (evs : List KeyEvent) (a : KeyApp)
    → Valid a.keymap
    → a.pending_chord ≡ []
    → chord_in (map from_event evs) (chords_for a.keymap action) ≡ true
    → Toggled a.keymap (last_toggles evs) (toggle_all action evs a)
toggle_all-bound action [] a v p h = absurd (
    bound-non_empty a.keymap v [] action
      (unfold chords_for in chord_in-bound [] action a.keymap.entries h) refl)
toggle_all-bound action (ev ∷ evs) a v p h = toggle_all-pending action ev evs a v (rw p h)
