-- ===== src/WorkingTree/Builder.antt =====
-- src/tui/wt_tree.rs: `DirBuilder` and the tree of nodes that it is lowered into.
-- A `BTreeMap` is the list of its entries in the order of their keys; texts are ordered by their
-- scalar values, as the bytes of UTF-8 order them.
use gwm_cli.Base.{
  ℕ, ◌-◌, min, Bool, true, false, ◌||◌, ◌&&◌, List, [], ◌∷◌, ◌++◌, Option, none, some, ◌==◌, ltb,
  if◌then◌else◌, Text, text_eq, split, is_empty, length, take,
}
use gwm_cli.WorkingTree.Status.{
  WtCategory, created, modified, deleted, StatusRecord, file_icon, status_badge,
  working_tree_category, parse_status_z,
}

pub record FileLeaf : Type 0 where
  pub icon : ℕ
  pub badge : ℕ
  pub category : WtCategory

mutual
  pub data DirBuilder : Type 0 where
    builder : Dirs → List (Text × FileLeaf) → DirBuilder

  pub data Dirs : Type 0 where
    no_dirs : Dirs
    entry : Text → DirBuilder → Dirs → Dirs

mutual
  pub data WtNode : Type 0 where
    dir : Text → WtNodes → Option WtCategory → WtNode
    file : Text → FileLeaf → WtNode

  pub data WtNodes : Type 0 where
    no_nodes : WtNodes
    node : WtNode → WtNodes → WtNodes

unfoldable pub text_lt : Text → Text → Bool
text_lt [] [] = false
text_lt [] (d ∷ t) = true
text_lt (c ∷ s) [] = false
text_lt (c ∷ s) (d ∷ t) = ltb c d || (c == d && text_lt s t)

-- `BTreeMap::insert`.
unfoldable pub put_file : Text → FileLeaf → List (Text × FileLeaf) → List (Text × FileLeaf)
put_file name leaf [] = (name, leaf) ∷ []
put_file name leaf ((n, l) ∷ fs) =
    let rest = put_file name leaf fs in
    if text_eq name n
    then (name, leaf) ∷ fs
    else if text_lt name n
    then (name, leaf) ∷ (n, l) ∷ fs
    else (n, l) ∷ rest

unfoldable pub new_builder : DirBuilder
new_builder = builder no_dirs []

-- `entry(..).or_default()`: the directory of that name, or a new one; then its place in the map.
unfoldable pub get_dir : Text → Dirs → DirBuilder
get_dir name no_dirs = new_builder
get_dir name (entry n d ds) = if text_eq name n then d else get_dir name ds

unfoldable pub put_dir : Text → DirBuilder → Dirs → Dirs
put_dir name b no_dirs = entry name b no_dirs
put_dir name b (entry n d ds) =
    let rest = put_dir name b ds in
    if text_eq name n
    then entry n b ds
    else if text_lt name n
    then entry name b (entry n d ds)
    else entry n d rest

unfoldable pub insert_segments : List Text → FileLeaf → DirBuilder → DirBuilder
insert_segments [] leaf b = b
insert_segments (seg ∷ []) leaf (builder ds fs) = builder ds (put_file seg leaf fs)
insert_segments (seg ∷ next ∷ segs) leaf (builder ds fs) =
    builder (put_dir seg (insert_segments (next ∷ segs) leaf (get_dir seg ds)) ds) fs

unfoldable pub non_empty : List Text → List Text
non_empty [] = []
non_empty (t ∷ ts) = let rest = non_empty ts in if is_empty t then rest else t ∷ rest

-- The leaf's icon is that of the last segment.
unfoldable pub last_segment : List Text → Text
last_segment [] = []
last_segment (t ∷ []) = t
last_segment (t ∷ u ∷ ts) = last_segment (u ∷ ts)

unfoldable pub leaf_of : Text → ℕ → ℕ → FileLeaf
leaf_of seg x y = record {
  icon = file_icon seg;
  badge = status_badge x y;
  category = working_tree_category x y;
}

unfoldable pub segments_of : Text → List Text
segments_of path = non_empty (split b'/' path)

unfoldable pub insert : DirBuilder → Text → ℕ → ℕ → DirBuilder
insert b path x y =
    insert_segments (segments_of path) (leaf_of (last_segment (segments_of path)) x y) b

unfoldable pub category_eq : WtCategory → WtCategory → Bool
category_eq created created = true
category_eq modified modified = true
category_eq deleted deleted = true
category_eq _ _ = false

unfoldable pub node_category : WtNode → Option WtCategory
node_category (dir name children category) = category
node_category (file name leaf) = some leaf.category

-- One child of the loop. The state is what was found so far, or `none` after the return of a
-- mixed directory.
unfoldable pub meet : Option (Option WtCategory) → Option WtCategory → Option (Option WtCategory)
meet none child = none
meet (some found) none = none
meet (some none) (some cat) = some (some cat)
meet (some (some f)) (some cat) = if category_eq f cat then some (some f) else none

unfoldable pub aggregate_from : Option (Option WtCategory) → WtNodes → Option (Option WtCategory)
aggregate_from found no_nodes = found
aggregate_from found (node n ns) = aggregate_from (meet found (node_category n)) ns

unfoldable pub flat : Option (Option WtCategory) → Option WtCategory
flat none = none
flat (some found) = found

unfoldable pub aggregate_category : WtNodes → Option WtCategory
aggregate_category children = flat (aggregate_from (some none) children)

unfoldable pub file_nodes : List (Text × FileLeaf) → WtNodes
file_nodes [] = no_nodes
file_nodes ((name, leaf) ∷ fs) = node (file name leaf) (file_nodes fs)

unfoldable pub dir_of : Text → WtNodes → WtNode
dir_of name children = dir name children (aggregate_category children)

-- A directory that holds one directory and no file is one row with it.
unfoldable mutual
  pub dir_nodes : Dirs → WtNodes → WtNodes
  dir_nodes no_dirs rest = rest
  dir_nodes (entry name d ds) rest = node (dir_row name d) (dir_nodes ds rest)

  pub dir_row : Text → DirBuilder → WtNode
  dir_row name (builder (entry child d no_dirs) []) = dir_row (name ++ (b'/' ∷ child)) d
  dir_row name (builder no_dirs fs) = dir_of name (file_nodes fs)
  dir_row name (builder ds fs) = dir_of name (dir_nodes ds (file_nodes fs))

unfoldable pub into_nodes : DirBuilder → WtNodes
into_nodes (builder ds fs) = dir_nodes ds (file_nodes fs)

unfoldable pub insert_all : List StatusRecord → DirBuilder → DirBuilder
insert_all [] b = b
insert_all (r ∷ rs) b = insert_all rs (insert b r.path r.x r.y)

-- The nodes of the first `max` records, and how many records are left out.
unfoldable pub build_capped_tree : List StatusRecord → ℕ → WtNodes × ℕ
build_capped_tree records max =
    let shown = min (length records) max in
    (into_nodes (insert_all (take shown records) new_builder), length records - shown)

-- `usize::MAX` is past every length.
unfoldable pub build_tree : Text → WtNodes
build_tree status_z =
    let records = parse_status_z status_z in (build_capped_tree records (length records)).0
