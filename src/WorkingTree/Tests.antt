-- ===== src/WorkingTree/Tests.antt =====
-- A status of three entries, one of them a rename.
use gwm_cli.Base.{◌≡◌, refl, some, List, [], ◌∷◌, Text, codes, if◌then◌else◌, map}
use gwm_cli.WorkingTree.Status.{modified, parse_status_z}
use gwm_cli.WorkingTree.Builder.{FileLeaf, new_builder, insert_segments, insert_all, into_nodes}
use gwm_cli.WorkingTree.Laws.Records.{Entry, print, parse_status_z-print}
use gwm_cli.WorkingTree.Laws.Entries.{find, path_eq, find-insert_segments}
use gwm_cli.WorkingTree.Laws.Colours.{ColouredAll, into_nodes-Coloured}

abbrev entries : List Entry
entries =
    record { status = record { x = b'M'; y = b' '; path = codes "src/a.rs" }; source = [] }
    ∷ record {
      status = record { x = b'R'; y = b' '; path = codes "src/new name.rs" };
      source = codes "src/old.rs";
    }
    ∷ record { status = record { x = b'?'; y = b'?'; path = codes "README.md" }; source = [] }
    ∷ []

parse_status_z-print_example : parse_status_z (print entries) ≡ map (λ e. e.status) entries
parse_status_z-print_example = parse_status_z-print entries refl

abbrev path : List Text
path = codes "src" ∷ codes "a.rs" ∷ []

abbrev leaf : FileLeaf
leaf = record { icon = 1; badge = b'M'; category = modified }

find-insert_segments_example :
    find path (insert_segments path leaf new_builder)
    ≡ (if path_eq path path then some leaf else find path new_builder)
find-insert_segments_example = find-insert_segments path path leaf new_builder (λ e. cc)

into_nodes-Coloured_example :
    ColouredAll (into_nodes (insert_all (map (λ e. e.status) entries) new_builder))
into_nodes-Coloured_example =
    into_nodes-Coloured (insert_all (map (λ e. e.status) entries) new_builder)
