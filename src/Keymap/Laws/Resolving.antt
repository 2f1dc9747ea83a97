-- ===== src/Keymap/Laws/Resolving.antt =====
-- Typing a bound chord: every stroke but the last waits, the last one fires the action.
use gwm_cli.Base.{
  ◌<◌, ◌≡◌, ◌≢◌, refl, ap, sym, ◌∙◌, inl, inr, Bool, true, false, ◌||◌, List, [], ◌∷◌, ◌++◌, Option,
  none, some, arith, map, length, any, if◌then◌else◌, Bool-cases, Option-cases, length-append,
}
use gwm_cli.Keymap.Actions.{Action}
use gwm_cli.Keymap.Strokes.{KeyStroke}
use gwm_cli.Keymap.Bindings.{Chord, Binding, Keymap, chord_eq, starts_with, chord_in}
use gwm_cli.Keymap.Dispatch.{
  ChordResolution, matched, pending_prefix, no_match, is_longer, scan_chords, scan_entries, lookup,
  KeyEvent, from_event, KeyApp, sync_legacy_pending_flag, resolve_stroke, dispatch_key,
}
use gwm_cli.Keymap.Laws.Unambiguous.{
  action_eq_iff, chord_eq_iff, stroke_eq_iff, starts_with-append, is_bound, Valid, unambiguous,
  bound-non_empty,
}

pub chord_eq-sym : (c d : Chord) → chord_eq c d ≡ chord_eq d c
chord_eq-sym c d = elim (Bool-cases (chord_eq c d)) [
  | inl t ↦ t ∙ sym ((chord_eq_iff d c).1 (sym ((chord_eq_iff c d).0 t)))
  | inr n ↦ elim (Bool-cases (chord_eq d c)) [
    | inl t ↦ absurd (ground (arith, n, (chord_eq_iff c d).1 (sym ((chord_eq_iff d c).0 t))))
    | inr n' ↦ n ∙ sym n'
  ]
]

scan_chords-eq :
    (keys : Chord) (cs : List Chord) (p : Bool)
    → scan_chords keys cs p
      ≡ (if chord_in keys cs then none else some (p || any (is_longer keys) cs))
unfolding scan_chords chord_in
scan_chords-eq keys [] true = refl
scan_chords-eq keys [] false = refl
scan_chords-eq keys (c ∷ cs) p =
    ground (arith, chord_eq-sym c keys, scan_chords-eq keys cs (p || is_longer keys c))

-- The first binding of a list that has a chord.
abbrev first_bound : Chord → List Binding → Option Action
first_bound keys [] = none
first_bound keys (b ∷ bs) = if chord_in keys b.chords then some b.action else first_bound keys bs

-- A chord of the list has the keys as a strict prefix.
abbrev continues : Chord → List Binding → Bool
continues keys [] = false
continues keys (b ∷ bs) = any (is_longer keys) b.chords || continues keys bs

abbrev resolution : Option Action → Bool → ChordResolution
resolution (some a) p = matched a
resolution none true = pending_prefix
resolution none false = no_match

scan_entries-eq :
    (keys : Chord) (bs : List Binding) (p : Bool)
    → scan_entries keys bs p ≡ resolution (first_bound keys bs) (p || continues keys bs)
unfolding scan_entries
scan_entries-eq keys [] true = refl
scan_entries-eq keys [] false = refl
scan_entries-eq keys (b ∷ bs) p = ground (
  arith,
  scan_chords-eq keys b.chords p,
  scan_entries-eq keys bs (p || any (is_longer keys) b.chords),
)

first_bound-is_bound :
    (keys : Chord) (a : Action) (bs : List Binding)
    → first_bound keys bs ≡ some a
    → is_bound keys a bs ≡ true
first_bound-is_bound keys a [] h = cc
first_bound-is_bound keys a (b ∷ bs) h = elim (Bool-cases (chord_in keys b.chords)) [
  | inl t ↦ ground (arith, action_eq_iff b.action a)
  | inr n ↦ ground (arith, first_bound-is_bound keys a bs)
]

first_bound-none :
    (keys : Chord) (a : Action) (bs : List Binding)
    → first_bound keys bs ≡ none
    → is_bound keys a bs ≡ false
first_bound-none keys a [] h = refl
first_bound-none keys a (b ∷ bs) h = ground (arith, first_bound-none keys a bs)

pub any_longer :
    (keys c : Chord) (cs : List Chord)
    → is_longer keys c ≡ true
    → chord_in c cs ≡ true
    → any (is_longer keys) cs ≡ true
unfolding chord_in
any_longer keys c [] l h = cc
any_longer keys c (d ∷ cs) l h = elim (Bool-cases (chord_eq c d)) [
  | inl t ↦ ground (arith, ap (is_longer keys) ((chord_eq_iff c d).0 t))
  | inr n ↦ ground (arith, any_longer keys c cs l)
]

continues-bound :
    (keys c : Chord) (a : Action) (bs : List Binding)
    → is_longer keys c ≡ true
    → is_bound c a bs ≡ true
    → continues keys bs ≡ true
continues-bound keys c a [] l h = cc
continues-bound keys c a (b ∷ bs) l h =
    ground (arith, any_longer keys c b.chords l, continues-bound keys c a bs l)

pos-length : (c : Chord) → c ≢ [] → 0 < length c
pos-length [] n = absurd (n refl)
pos-length (k ∷ c) n = omega arith

pub is_longer-append : (keys rest : Chord) → rest ≢ [] → is_longer keys (keys ++ rest) ≡ true
is_longer-append keys rest n =
    ground (arith, starts_with-append keys rest, length-append keys rest, pos-length rest n)

pub append-ne : (keys rest : Chord) → rest ≢ [] → keys ≢ keys ++ rest
append-ne keys rest n e = omega (arith, ap length e, length-append keys rest, pos-length rest n)

pub starts_with_self : (c : Chord) → starts_with c c ≡ true
unfolding starts_with
starts_with_self [] = refl
starts_with_self (k ∷ c) = ground (arith, stroke_eq_iff k k, starts_with_self c)

module _ (m : Keymap) (v : Valid m) where
  lookup-bound : (c : Chord) (a : Action) → is_bound c a m.entries ≡ true → lookup m c ≡ matched a
  unfolding lookup
  lookup-bound c a h =
      scan_entries-eq c m.entries false ∙ elim (Option-cases (first_bound c m.entries)) [
        | inl e ↦ absurd (ground (arith, first_bound-none c a m.entries e))
        | inr (b, e) ↦ rw e (
            ap matched
              (unambiguous m v c b c a (first_bound-is_bound c b m.entries e) h
                (starts_with_self c)).1)
      ]

  lookup-prefix :
      (keys rest : Chord) (a : Action)
      → rest ≢ []
      → is_bound (keys ++ rest) a m.entries ≡ true
      → lookup m keys ≡ pending_prefix
  unfolding lookup
  lookup-prefix keys rest a n h =
      scan_entries-eq keys m.entries false ∙ elim (Option-cases (first_bound keys m.entries)) [
        | inl e ↦
            rw (e, continues-bound keys (keys ++ rest) a m.entries (is_longer-append keys rest n) h)
              refl
        | inr (b, e) ↦ absurd (
            append-ne keys rest n
              (unambiguous m v keys b (keys ++ rest) a (first_bound-is_bound keys b m.entries e) h
                (starts_with-append keys rest)).0)
      ]

-- The keys of a run, each with what it fires.
abbrev pub press_all : List KeyEvent → KeyApp → KeyApp × List (Option Action)
press_all [] a = (a, [])
press_all (ev ∷ evs) a =
    let done = dispatch_key ev a in let rest = press_all evs done.0 in (rest.0, done.1 ∷ rest.1)

-- Only the last key of a run fires.
abbrev pub last_fires : Action → List KeyEvent → List (Option Action)
last_fires a [] = []
last_fires a (ev ∷ []) = some a ∷ []
last_fires a (ev ∷ ev' ∷ evs) = none ∷ last_fires a (ev' ∷ evs)

pub record Fired (m : Keymap) (outcome : List (Option Action)) (r : KeyApp × List (Option Action))
    : Type 0 where
  pub same_keymap : r.0.keymap ≡ m
  pub nothing_pending : r.0.pending_chord ≡ []
  pub fires : r.1 ≡ outcome

resolve_stroke-matched :
    (k : KeyStroke) (a : KeyApp) (x : Action)
    → lookup a.keymap (a.pending_chord ++ (k ∷ [])) ≡ matched x
    → resolve_stroke k a ≡ (record a { pending_chord = [] }, some x)
unfolding resolve_stroke
resolve_stroke-matched k a x h = rw (resolve_stroke, h) refl

resolve_stroke-pending :
    (k : KeyStroke) (a : KeyApp)
    → lookup a.keymap (a.pending_chord ++ (k ∷ [])) ≡ pending_prefix
    → resolve_stroke k a ≡ (record a { pending_chord = a.pending_chord ++ (k ∷ []) }, none)
unfolding resolve_stroke
resolve_stroke-pending k a h = rw (resolve_stroke, h) refl

-- What the flag of older tests leaves alone.
dispatch_done :
    (ev : KeyEvent) (a b : KeyApp) (o : Option Action)
    → resolve_stroke (from_event ev) a ≡ (b, o)
    → ((dispatch_key ev a).0.keymap ≡ b.keymap)
      × ((dispatch_key ev a).0.pending_chord ≡ b.pending_chord)
      × ((dispatch_key ev a).1 ≡ o)
unfolding dispatch_key sync_legacy_pending_flag
dispatch_done ev a b o e = (ap (λ d. d.0.keymap) e, ap (λ d. d.0.pending_chord) e, ap (λ d. d.1) e)

pub append_one : (p c : Chord) (k : KeyStroke) → (p ++ (k ∷ [])) ++ c ≡ p ++ (k ∷ c)
append_one [] c k = refl
append_one (x ∷ p) c k = ap (◌∷◌ x) (append_one p c k)

press_all-pending :
    (x : Action) (ev : KeyEvent) (evs : List KeyEvent) (a : KeyApp)
    → Valid a.keymap
    → is_bound (a.pending_chord ++ map from_event (ev ∷ evs)) x a.keymap.entries ≡ true
    → Fired a.keymap (last_fires x (ev ∷ evs)) (press_all (ev ∷ evs) a)
press_all-pending x ev [] a v h =
    let k = from_event ev in
    let found = lookup-bound a.keymap v (a.pending_chord ++ (k ∷ [])) x h in
    let d =
      dispatch_done ev a (record a { pending_chord = [] }) (some x)
        (resolve_stroke-matched k a x found) in
    record { same_keymap = d.0; nothing_pending = d.1; fires = ap (λ o. o ∷ []) d.2 }
press_all-pending x ev (ev' ∷ evs) a v h =
    let k = from_event ev in
    let later = map from_event (ev' ∷ evs) in
    let joined = append_one a.pending_chord later k in
    let found =
      lookup-prefix a.keymap v (a.pending_chord ++ (k ∷ [])) later x (λ e. cc) (rw joined h) in
    let d =
      dispatch_done ev a (record a { pending_chord = a.pending_chord ++ (k ∷ []) }) none
        (resolve_stroke-pending k a found) in
    let b = (dispatch_key ev a).0 in
    let rest = press_all-pending x ev' evs b (rw d.0 v) (rw (d.0, d.1, joined) h) in
    record {
      same_keymap = rest.same_keymap ∙ d.0;
      nothing_pending = rest.nothing_pending;
      fires = rw (d.2, rest.fires) refl;
    }

-- In a keymap that passes its validation, with nothing pending, the keys of a chord that is bound
-- fire its action at the last key and nothing before, and leave nothing pending.
pub press_all-bound :
    (x : Action) (evs : List KeyEvent) (a : KeyApp)
    → Valid a.keymap
    → a.pending_chord ≡ []
    → is_bound (map from_event evs) x a.keymap.entries ≡ true
    → Fired a.keymap (last_fires x evs) (press_all evs a)
press_all-bound x [] a v p h = absurd (bound-non_empty a.keymap v [] x h refl)
press_all-bound x (ev ∷ evs) a v p h = press_all-pending x ev evs a v (rw p h)
