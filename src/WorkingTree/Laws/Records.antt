-- ===== src/WorkingTree/Laws/Records.antt =====
-- The parser reads back what `git status -z` prints, and the badge agrees with the category.
use gwm_cli.Base.{
  ℕ, ◌≡◌, ◌↔◌, refl, ap, Bool, true, false, not, ◌||◌, ◌&&◌, List, [], ◌∷◌, ◌++◌, some, ◌==◌, arith,
  Text, split, all, map,
}
use gwm_cli.WorkingTree.Status.{
  created, modified, deleted, working_tree_category, status_badge, StatusRecord, record_of,
  has_source, push_record, parse_tokens, parse_status_z,
}

-- What git prints of one entry: the pair, a space, the path, NUL; then, for a rename or a copy,
-- the source and NUL.
pub record Entry : Type 0 where
  pub status : StatusRecord
  pub source : Text

-- `R` is a rename and `C` a copy, in the index or in the working tree.
abbrev pub is_move : ℕ → Bool
is_move c = c == b'R' || c == b'C'

abbrev pub is_moved : StatusRecord → Bool
is_moved r = is_move r.x || is_move r.y

has_source_moved : (r : StatusRecord) → has_source (some r) ≡ is_moved r
unfolding has_source
has_source_moved r = ground arith

abbrev pub print_source : Bool → Text → Text → Text
print_source true source rest = source ++ (0 ∷ rest)
print_source false source rest = rest

abbrev pub print : List Entry → Text
print [] = []
print (e ∷ es) =
    e.status.x
    ∷ e.status.y
    ∷ 32
    ∷ (e.status.path ++ (0 ∷ print_source (is_moved e.status) e.source (print es)))

abbrev pub no_nul : Text → Bool
no_nul t = all (λ c. not (c == 0)) t

abbrev pub nonempty : Text → Bool
nonempty [] = false
nonempty (c ∷ t) = true

abbrev pub printable : Entry → Bool
printable e =
    not (e.status.x == 0)
    && not (e.status.y == 0)
    && nonempty e.status.path
    && no_nul e.status.path
    && no_nul e.source

split_at_nul : (t rest : Text) → no_nul t ≡ true → split 0 (t ++ (0 ∷ rest)) ≡ t ∷ split 0 rest
unfolding split
split_at_nul [] rest h = refl
split_at_nul (c ∷ t) rest h =
    let n : (c == 0) ≡ false = ground arith in rw (n, split_at_nul t rest (ground arith)) refl

split_entry :
    (x y : ℕ) (path rest : Text)
    → (x == 0) ≡ false
    → (y == 0) ≡ false
    → no_nul path ≡ true
    → split 0 (x ∷ y ∷ 32 ∷ (path ++ (0 ∷ rest))) ≡ (x ∷ y ∷ 32 ∷ path) ∷ split 0 rest
split_entry x y path rest hx hy hp = split_at_nul (x ∷ y ∷ 32 ∷ path) rest (rw (hx, hy, hp) refl)

record_of-printed :
    (x y : ℕ) (path : Text)
    → nonempty path ≡ true
    → record_of (x ∷ y ∷ 32 ∷ path) ≡ some (record { x = x; y = y; path = path })
unfolding record_of
record_of-printed x y [] h = ground arith
record_of-printed x y (c ∷ path) h = refl

parse_source :
    (b : Bool) (source rest : Text)
    → no_nul source ≡ true
    → parse_tokens b (split 0 (print_source b source rest)) ≡ parse_tokens false (split 0 rest)
unfolding parse_tokens
parse_source true source rest h = rw (split_at_nul source rest h) refl
parse_source false source rest h = refl

parse_nothing : parse_tokens false (split 0 []) ≡ []
unfolding parse_tokens split record_of push_record
parse_nothing = refl

-- The parser gives back the entries that were printed, whatever characters but NUL their paths
-- hold: each one once, in order, and the source of a rename or a copy as no entry of its own.
pub parse_status_z-print :
    (es : List Entry) → all printable es ≡ true → parse_status_z (print es) ≡ map (λ e. e.status) es
unfolding parse_status_z parse_tokens push_record
parse_status_z-print [] h = parse_nothing
parse_status_z-print (e ∷ es) h =
    let s = is_moved e.status in
    rw
      (
        split_entry e.status.x e.status.y e.status.path (print_source s e.source (print es))
            (ground arith) (ground arith) (ground arith),
        record_of-printed e.status.x e.status.y e.status.path (ground arith),
        has_source_moved e.status,
        parse_source s e.source (print es) (ground arith),
      )
      (ap (◌∷◌ e.status) (parse_status_z-print es (ground arith)))

-- The badge of a pair tells its category: `?` and `A` are created files, `D` deleted ones, `M`
-- all others.
pub status_badge-category :
    (x y : ℕ)
    → ((working_tree_category x y ≡ created)
        ↔ ((status_badge x y == b'?' || status_badge x y == b'A') ≡ true))
      × ((working_tree_category x y ≡ deleted) ↔ (status_badge x y ≡ b'D'))
      × ((working_tree_category x y ≡ modified) ↔ (status_badge x y ≡ b'M'))
unfolding working_tree_category status_badge
status_badge-category x y = ground arith
