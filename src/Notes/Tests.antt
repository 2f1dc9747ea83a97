-- ===== src/Notes/Tests.antt =====
-- The notes of two branches.
use gwm_cli.Base.{◌≡◌, refl, List, [], ◌∷◌, some, map, Text, codes, text_eq, split}
use gwm_cli.Notes.{
  ends_with, stem_of, is_windows_reserved_segment, is_forbidden, component_is_portable, parents_of,
  with_ext, is_note_named, relative_path, normal, branch_from_relative,
}
use gwm_cli.Notes.Laws.{branch_from_relative-relative_path, relative_path_disjoint}

abbrev feature : List Text
feature = codes "feat" ∷ codes "#515-Notes.md" ∷ []

feature_path : relative_path (codes "feat/#515-Notes") ≡ some feature
unfolding relative_path split component_is_portable text_eq ends_with is_forbidden
    is_windows_reserved_segment stem_of parents_of with_ext is_note_named
feature_path = refl

branch_from_relative-relative_path_example :
    branch_from_relative (map normal feature) ≡ some (codes "feat/#515-Notes")
branch_from_relative-relative_path_example =
    branch_from_relative-relative_path (codes "feat/#515-Notes") feature_path

abbrev nothing : List Text
nothing = []

abbrev shouted : List Text
shouted = codes "FEAT" ∷ codes "#515-notes.md" ∷ []

shouted_path : relative_path (codes "FEAT/#515-notes") ≡ some shouted
unfolding relative_path split component_is_portable text_eq ends_with is_forbidden
    is_windows_reserved_segment stem_of parents_of with_ext is_note_named
shouted_path = refl

relative_path_disjoint_example : nothing ≡ []
relative_path_disjoint_example =
    relative_path_disjoint (codes "feat/#515-Notes") (codes "FEAT/#515-notes") nothing feature_path
      shouted_path refl
