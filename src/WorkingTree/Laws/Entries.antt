-- ===== src/WorkingTree/Laws/Entries.antt =====
-- The builder as a map from paths to leaves.
use gwm_cli.Base.{
  ◌≡◌, ◌≢◌, refl, Bool, true, false, ◌&&◌, List, [], ◌∷◌, Option, none, some, if◌then◌else◌, arith,
  Text, text_eq, text_eq_iff,
}
use gwm_cli.WorkingTree.Builder.{
  FileLeaf, DirBuilder, builder, Dirs, no_dirs, entry, put_file, get_dir, put_dir, insert_segments,
}

abbrev pub file_at : Text → List (Text × FileLeaf) → Option FileLeaf
file_at name [] = none
file_at name ((n, l) ∷ fs) = if text_eq name n then some l else file_at name fs

-- The leaf at a path.
abbrev pub find : List Text → DirBuilder → Option FileLeaf
find [] b = none
find (seg ∷ []) (builder ds fs) = file_at seg fs
find (seg ∷ next ∷ segs) (builder ds fs) = find (next ∷ segs) (get_dir seg ds)

abbrev pub path_eq : List Text → List Text → Bool
path_eq [] [] = true
path_eq (s ∷ p) (t ∷ q) = text_eq s t && path_eq p q
path_eq _ _ = false

file_at-put_file :
    (q name : Text) (leaf : FileLeaf) (fs : List (Text × FileLeaf))
    → file_at q (put_file name leaf fs) ≡ (if text_eq name q then some leaf else file_at q fs)
unfolding put_file
file_at-put_file q name leaf [] = ground (arith, text_eq_iff q name, text_eq_iff name q)
file_at-put_file q name leaf ((n, l) ∷ fs) = ground (
  arith,
  file_at-put_file q name leaf fs,
  text_eq_iff q name,
  text_eq_iff name q,
  text_eq_iff q n,
  text_eq_iff name n,
)

get_dir-put_dir :
    (q name : Text) (b : DirBuilder) (ds : Dirs)
    → get_dir q (put_dir name b ds) ≡ (if text_eq name q then b else get_dir q ds)
unfolding put_dir get_dir
get_dir-put_dir q name b no_dirs = ground (arith, text_eq_iff q name, text_eq_iff name q)
get_dir-put_dir q name b (entry n d ds) = ground (
  arith,
  get_dir-put_dir q name b ds,
  text_eq_iff q name,
  text_eq_iff name q,
  text_eq_iff q n,
  text_eq_iff name n,
)

find_same :
    (next : Text) (segs : List Text) (name q : Text) (b : DirBuilder) (ds : Dirs)
    (fs : List (Text × FileLeaf))
    → find (q ∷ next ∷ segs) (builder (put_dir name b ds) fs)
      ≡ (if text_eq name q then find (next ∷ segs) b else find (q ∷ next ∷ segs) (builder ds fs))
find_same next segs name q b ds fs = rw (get_dir-put_dir q name b ds) (find_if (text_eq name q))
  where
    find_if :
        (c : Bool)
        → find (next ∷ segs) (if c then b else get_dir q ds)
          ≡ (if c then find (next ∷ segs) b else find (next ∷ segs) (get_dir q ds))
    find_if true = refl
    find_if false = refl

-- After an insertion the leaf is at its path, and every other path has the leaf it had.
pub find-insert_segments :
    (p q : List Text) (leaf : FileLeaf) (b : DirBuilder)
    → p ≢ []
    → find q (insert_segments p leaf b) ≡ (if path_eq p q then some leaf else find q b)
unfolding insert_segments
find-insert_segments [] q leaf b h = absurd (h refl)
find-insert_segments (s ∷ []) [] leaf (builder ds fs) h = refl
find-insert_segments (s ∷ []) (t ∷ []) leaf (builder ds fs) h =
    ground (arith, file_at-put_file t s leaf fs)
find-insert_segments (s ∷ []) (t ∷ u ∷ q) leaf (builder ds fs) h = ground arith
find-insert_segments (s ∷ r ∷ p) [] leaf (builder ds fs) h = refl
find-insert_segments (s ∷ r ∷ p) (t ∷ []) leaf (builder ds fs) h = ground arith
find-insert_segments (s ∷ r ∷ p) (t ∷ u ∷ q) leaf (builder ds fs) h = ground (
  arith,
  find_same u q s t (insert_segments (r ∷ p) leaf (get_dir s ds)) ds fs,
  find-insert_segments (r ∷ p) (u ∷ q) leaf (get_dir s ds) (λ e. cc),
  text_eq_iff s t,
)
