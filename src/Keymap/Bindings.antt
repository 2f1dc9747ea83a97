-- ===== src/Keymap/Bindings.antt =====
-- src/tui/keymap.rs: the bindings of a keymap, their validation and an override of one action.
-- An error is the data of its message. A set of chords is a list.
use gwm_cli.Base.{
  Bool, true, false, not, ◌&&◌, ◌||◌, List, [], ◌∷◌, ◌++◌, Option, none, some, map, any, length,
  ltb, if◌then◌else◌, is_discrete_eq,
}
use gwm_cli.Keymap.Actions.{Action, action_eq}
use gwm_cli.Keymap.Strokes.{KeyStroke, KeyStroke-discrete}

abbrev pub Chord : Type 0
Chord = List KeyStroke

pub data Source : Type 0 where
  built_in user_config : Source

pub record Binding : Type 0 where
  pub action : Action
  pub chords : List Chord
  pub source : Source

pub record Keymap : Type 0 where
  pub entries : List Binding

pub data KeymapError : Type 0 where
  empty_chord : Action → KeymapError
  conflict : Chord → Action → Action → KeymapError
  is_prefix : Chord → Action → Chord → Action → KeymapError

unfoldable pub stroke_eq : KeyStroke → KeyStroke → Bool
stroke_eq = is_discrete_eq KeyStroke-discrete

unfoldable pub chord_eq : Chord → Chord → Bool
chord_eq [] [] = true
chord_eq (k ∷ c) (l ∷ d) = stroke_eq k l && chord_eq c d
chord_eq _ _ = false

-- `long.starts_with(short)`.
unfoldable pub starts_with : Chord → Chord → Bool
starts_with c [] = true
starts_with [] (l ∷ d) = false
starts_with (k ∷ c) (l ∷ d) = stroke_eq k l && starts_with c d

unfoldable pub chord_in : Chord → List Chord → Bool
chord_in c [] = false
chord_in c (d ∷ ds) = chord_eq c d || chord_in c ds

-- The first action with an empty chord.
unfoldable pub has_empty : List Chord → Bool
has_empty [] = false
has_empty ([] ∷ cs) = true
has_empty ((k ∷ c) ∷ cs) = has_empty cs

unfoldable pub first_empty : List (Action × List Chord) → Option KeymapError
first_empty [] = none
first_empty ((a, cs) ∷ es) =
    let rest = first_empty es in if has_empty cs then some (empty_chord a) else rest

abbrev pub bound_to : Action → List Chord → List (Chord × Action)
bound_to a [] = []
bound_to a (c ∷ cs) = (c, a) ∷ bound_to a cs

-- Every chord with its action, in order.
unfoldable pub all_chords : List (Action × List Chord) → List (Chord × Action)
all_chords [] = []
all_chords ((a, cs) ∷ es) = bound_to a cs ++ all_chords es

unfoldable pub clash : Chord × Action → Chord × Action → Option KeymapError
clash (c, a) (d, b) =
    if chord_eq c d
    then (if action_eq a b then none else some (conflict c a b))
    else if ltb (length c) (length d)
    then (if starts_with d c then some (is_prefix c a d b) else none)
    else if ltb (length d) (length c) && starts_with c d
    then some (is_prefix d b c a)
    else none

unfoldable pub clash_with : Chord × Action → List (Chord × Action) → Option KeymapError
clash_with p [] = none
clash_with p (q ∷ qs) =
    let rest = clash_with p qs in elim (clash p q) [ some e ↦ some e | none ↦ rest ]

-- The pairs `i < j`, in the order of the two loops.
unfoldable pub first_clash : List (Chord × Action) → Option KeymapError
first_clash [] = none
first_clash (p ∷ ps) =
    let rest = first_clash ps in elim (clash_with p ps) [ some e ↦ some e | none ↦ rest ]

unfoldable pub validate : List (Action × List Chord) → Option KeymapError
validate es = elim (first_empty es) [ some e ↦ some e | none ↦ first_clash (all_chords es) ]

-- The chords that no override claims.
unfoldable pub unclaimed : List Chord → List Chord → List Chord
unclaimed claimed [] = []
unclaimed claimed (c ∷ cs) =
    let rest = unclaimed claimed cs in if chord_in c claimed then rest else c ∷ rest

abbrev pub is_built_in : Source → Bool
is_built_in built_in = true
is_built_in user_config = false

unfoldable pub candidate_entry : Action → List Chord → Binding → Action × List Chord
candidate_entry action chords b =
    if action_eq b.action action
    then (b.action, chords)
    else if is_built_in b.source
    then (b.action, unclaimed chords b.chords)
    else (b.action, b.chords)

unfoldable pub candidate : Action → List Chord → List Binding → List (Action × List Chord)
candidate action chords entries =
    let listed = map (candidate_entry action chords) entries in
    if any (λ e. action_eq e.0 action) listed then listed else listed ++ ((action, chords) ∷ [])

-- A default binding of another action loses the claimed chords.
unfoldable pub vacate : Action → List Chord → Binding → Binding
vacate action claimed b =
    if not (action_eq b.action action) && is_built_in b.source
    then record b { chords = unclaimed claimed b.chords }
    else b

-- The first binding of the action is replaced, or one is added at the end.
unfoldable pub replace_or_push : Action → List Chord → List Binding → List Binding
replace_or_push action claimed [] =
    record { action = action; chords = claimed; source = user_config } ∷ []
replace_or_push action claimed (b ∷ bs) =
    let rest = replace_or_push action claimed bs in
    if action_eq b.action action
    then record b { chords = claimed; source = user_config } ∷ bs
    else b ∷ rest

unfoldable pub apply_override : Keymap → Action → List Chord → Keymap × Option KeymapError
apply_override m action chords = elim (validate (candidate action chords m.entries)) [
  | some e ↦ (m, some e)
  | none ↦ (
    record { entries = replace_or_push action chords (map (vacate action chords) m.entries) },
    none,
  )
]

-- The first binding of the action has its chords.
unfoldable pub chords_of : Action → List Binding → List Chord
chords_of action [] = []
chords_of action (b ∷ bs) =
    let rest = chords_of action bs in if action_eq b.action action then b.chords else rest

unfoldable pub chords_for : Keymap → Action → List Chord
chords_for m action = chords_of action m.entries
