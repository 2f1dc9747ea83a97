-- ===== src/Notes/Laws.antt =====
-- A branch and its note's file determine each other, and no note stands in another's way.
use gwm_cli.Base.{
  ◌-◌, ◌≡◌, ◌≢◌, refl, ap, sym, ◌∙◌, Bool, true, false, ◌||◌, List, [], ◌∷◌, ◌++◌, some, arith, any,
  all, map, is_empty, length, length-append, take, drop, Text, text_eq_refl, split, join-split,
  split-ne-nil,
}
use gwm_cli.Notes.{
  lower, to_ascii_lowercase, note_ext, ends_with, strip_suffix, component_is_portable, parents_of,
  with_ext, is_note_named, relative_path, normal, names_of, without_ext, branch_from_relative,
}

take-append : (t s : Text) → take (length t) (t ++ s) ≡ t
take-append [] s = refl
take-append (c ∷ t) s = ap (◌∷◌ c) (take-append t s)

drop-append : (t s : Text) → drop (length t) (t ++ s) ≡ s
drop-append [] s = refl
drop-append (c ∷ t) s = drop-append t s

ends_with-append : (t s : Text) → ends_with (t ++ s) s ≡ true
unfolding ends_with
ends_with-append t s =
    let l : length (t ++ s) - length s ≡ length t = omega (arith, length-append t s) in
    rw (l, drop-append t s) (ground (arith, text_eq_refl s, length-append t s))

strip_suffix-append : (t s : Text) → strip_suffix (t ++ s) s ≡ some t
unfolding strip_suffix
strip_suffix-append t s =
    let l : length (t ++ s) - length s ≡ length t = omega (arith, length-append t s) in
    rw (strip_suffix, ends_with-append t s, l, take-append t s) refl

names_of-normal : (ts : List Text) → names_of (map normal ts) ≡ some ts
unfolding names_of
names_of-normal [] = refl
names_of-normal (t ∷ ts) = rw (names_of-normal ts) refl

portable-non_empty : (t : Text) → component_is_portable t ≡ true → is_empty t ≡ false
unfolding component_is_portable
portable-non_empty t h = ground (arith, h)

without_ext-one :
    (t : Text) → is_empty t ≡ false → without_ext ((t ++ note_ext) ∷ []) ≡ some (t ∷ [])
unfolding without_ext
without_ext-one t n = rw (without_ext, strip_suffix-append t note_ext, n) refl

without_ext-cons :
    (t : Text) (xs : List Text) {ys : List Text}
    → without_ext xs ≡ some ys
    → without_ext (t ∷ xs) ≡ some (t ∷ ys)
unfolding without_ext
without_ext-cons t [] h = absurd (ground (arith, h))
without_ext-cons t (x ∷ xs) h = rw (without_ext, h) refl

without_ext-with_ext :
    (ts : List Text)
    → ts ≢ []
    → all component_is_portable ts ≡ true
    → without_ext (with_ext ts) ≡ some ts
unfolding with_ext
without_ext-with_ext [] n h = absurd (n refl)
without_ext-with_ext (t ∷ []) n h = without_ext-one t (portable-non_empty t (ground (arith, h)))
without_ext-with_ext (t ∷ u ∷ ts) n h =
    without_ext-cons t (with_ext (u ∷ ts))
      (without_ext-with_ext (u ∷ ts) (λ e. cc) (ground (arith, h)))

-- What a path says of its branch.
record Derived (branch : Text) (p : List Text) : Type 0 where
  filled : split b'/' branch ≢ []
  portable : all component_is_portable (split b'/' branch) ≡ true
  parents : any is_note_named (parents_of (split b'/' branch)) ≡ false
  path : p ≡ with_ext (split b'/' branch)

relative_path-Derived :
    (branch : Text) {p : List Text} → relative_path branch ≡ some p → Derived branch p
unfolding relative_path
relative_path-Derived branch {p} h =
    let cs = split b'/' branch in
    let a : all component_is_portable cs ≡ true = ground (arith, h) in
    let e : is_empty cs ≡ false = ground (arith, h) in
    let n : any is_note_named (parents_of cs) ≡ false = ground (arith, h) in
    record {
      filled = split-ne-nil b'/' branch;
      portable = a;
      parents = n;
      path = ground (arith, h, a, e, n);
    }

-- The file of a branch's note leads back to the branch: two branches never share a file name.
pub branch_from_relative-relative_path :
    (branch : Text) {p : List Text}
    → relative_path branch ≡ some p
    → branch_from_relative (map normal p) ≡ some branch
unfolding branch_from_relative
branch_from_relative-relative_path branch {p} h =
    let d = relative_path-Derived branch h in
    let cs = split b'/' branch in
    rw
      (branch_from_relative, names_of-normal p, d.path, without_ext-with_ext cs d.filled d.portable)
      (ap some (join-split b'/' branch))

lowered-append :
    (t s : Text) → to_ascii_lowercase (t ++ s) ≡ to_ascii_lowercase t ++ to_ascii_lowercase s
lowered-append [] s = refl
lowered-append (c ∷ t) s = ap (◌∷◌ (lower c)) (lowered-append t s)

is_note_named-ext : (t : Text) → is_note_named (t ++ note_ext) ≡ true
unfolding is_note_named
is_note_named-ext t =
    ap (λ x. ends_with x note_ext) (lowered-append t note_ext)
    ∙ ends_with-append (to_ascii_lowercase t) note_ext

any_named-with_ext : (ts : List Text) → ts ≢ [] → any is_note_named (with_ext ts) ≡ true
unfolding with_ext
any_named-with_ext [] n = absurd (n refl)
any_named-with_ext (t ∷ []) n = rw (is_note_named-ext t) refl
any_named-with_ext (t ∷ u ∷ ts) n = ground (arith, any_named-with_ext (u ∷ ts) (λ e. cc))

parents_of-with_ext : (ts : List Text) → parents_of (with_ext ts) ≡ parents_of ts
unfolding parents_of with_ext
parents_of-with_ext [] = refl
parents_of-with_ext (t ∷ []) = refl
parents_of-with_ext (t ∷ u ∷ []) = refl
parents_of-with_ext (t ∷ u ∷ v ∷ ts) = ap (◌∷◌ t) (parents_of-with_ext (u ∷ v ∷ ts))

parents_of-append : (xs ys : List Text) → ys ≢ [] → parents_of (xs ++ ys) ≡ xs ++ parents_of ys
unfolding parents_of
parents_of-append [] ys n = refl
parents_of-append (x ∷ []) [] n = absurd (n refl)
parents_of-append (x ∷ []) (y ∷ ys) n = refl
parents_of-append (x ∷ z ∷ xs) ys n = ap (◌∷◌ x) (parents_of-append (z ∷ xs) ys n)

any-append : (q : Text → Bool) (xs ys : List Text) → any q (xs ++ ys) ≡ (any q xs || any q ys)
any-append q [] ys = refl
any-append q (x ∷ xs) ys = ground (arith, any-append q xs ys)

abbrev is_lower_note : Text → Bool
is_lower_note t = ends_with t note_ext

any_lowered :
    (ts : List Text) → any is_lower_note (map to_ascii_lowercase ts) ≡ any is_note_named ts
unfolding is_note_named
any_lowered [] = refl
any_lowered (t ∷ ts) = ground (arith, any_lowered ts)

parents_of-map :
    (ts : List Text)
    → parents_of (map to_ascii_lowercase ts) ≡ map to_ascii_lowercase (parents_of ts)
unfolding parents_of
parents_of-map [] = refl
parents_of-map (t ∷ []) = refl
parents_of-map (t ∷ u ∷ ts) = ap (◌∷◌ (to_ascii_lowercase t)) (parents_of-map (u ∷ ts))

-- The file of one branch's note is never a directory on the way to another's, not even where the
-- file system takes capital and small ASCII letters as one.
pub relative_path_disjoint :
    (branch other : Text) {p q : List Text} (rest : List Text)
    → relative_path branch ≡ some p
    → relative_path other ≡ some q
    → map to_ascii_lowercase p ++ rest ≡ map to_ascii_lowercase q
    → rest ≡ []
relative_path_disjoint branch other [] h k e = refl
relative_path_disjoint branch other {p} {q} (r ∷ rest) h k e =
    let d = relative_path-Derived branch h in
    let d' = relative_path-Derived other k in
    let cs = split b'/' branch in
    let low = map to_ascii_lowercase p in
    let named : any is_lower_note low ≡ true =
      any_lowered p ∙ ap (any is_note_named) d.path ∙ any_named-with_ext cs d.filled in
    let unnamed : any is_lower_note (parents_of (map to_ascii_lowercase q)) ≡ false =
      ap (any is_lower_note) (parents_of-map q)
      ∙ any_lowered (parents_of q)
      ∙ ap (λ x. any is_note_named (parents_of x)) d'.path
      ∙ ap (any is_note_named) (parents_of-with_ext (split b'/' other))
      ∙ d'.parents in
    let within : any is_lower_note (parents_of (map to_ascii_lowercase q))
        ≡ (any is_lower_note low || any is_lower_note (parents_of (r ∷ rest))) =
      ap (λ x. any is_lower_note (parents_of x)) (sym e)
      ∙ ap (any is_lower_note) (parents_of-append low (r ∷ rest) (λ z. cc))
      ∙ any-append is_lower_note low (parents_of (r ∷ rest)) in
    absurd (ground (arith, named, unnamed, within))
