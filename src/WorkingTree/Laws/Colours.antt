-- ===== src/WorkingTree/Laws/Colours.antt =====
-- The colour of a directory row is that of everything below it.
use gwm_cli.Base.{
  ◌≡◌, refl, Bool, true, ◌&&◌, List, [], ◌∷◌, ◌++◌, Option, none, some, arith, Text, ◌∙◌, inl, inr,
  ◌⊎◌, ap, sym,
}
use gwm_cli.WorkingTree.Status.{WtCategory}
use gwm_cli.WorkingTree.Builder.{
  FileLeaf, DirBuilder, builder, Dirs, no_dirs, entry, WtNode, WtNodes, dir, file, no_nodes, node,
  category_eq, node_category, meet, aggregate_from, flat, aggregate_category, file_nodes, dir_of,
  dir_nodes, dir_row, into_nodes,
}

-- All files below are of one category.
abbrev mutual
  pub only : WtCategory → WtNode → Bool
  only c (dir name children category) = only_all c children
  only c (file name leaf) = category_eq c leaf.category

  pub only_all : WtCategory → WtNodes → Bool
  only_all c no_nodes = true
  only_all c (node n ns) = only c n && only_all c ns

-- Every directory row with a category has only files of that category below it.
abbrev mutual
  pub Coloured : WtNode → Type 0
  Coloured (dir name children category) =
      ((c : WtCategory) → category ≡ some c → only_all c children ≡ true) × ColouredAll children
  Coloured (file name leaf) = Unit

  pub ColouredAll : WtNodes → Type 0
  ColouredAll no_nodes = Unit
  ColouredAll (node n ns) = Coloured n × ColouredAll ns

category_eq_refl : (c : WtCategory) → category_eq c c ≡ true
unfolding category_eq
category_eq_refl c = ground arith

only-of_category :
    (n : WtNode) (c : WtCategory) → Coloured n → node_category n ≡ some c → only c n ≡ true
unfolding node_category
only-of_category (dir name children category) c w h = w.0 c h
only-of_category (file name leaf) c w h = ground (arith, category_eq_refl c)

aggregate_mixed : (ns : WtNodes) → aggregate_from none ns ≡ none
unfolding aggregate_from meet
aggregate_mixed no_nodes = refl
aggregate_mixed (node n ns) = aggregate_mixed ns

meet-some :
    (f c : WtCategory) (child : Option WtCategory)
    → (meet (some (some f)) child ≡ none)
      ⊎ ((child ≡ some f) × (meet (some (some f)) child ≡ some (some f)))
unfolding meet category_eq
meet-some f c none = inl refl
meet-some f c (some cat) = ground arith

mixed_none : (ns : WtNodes) (c : WtCategory) → ¬ (flat (aggregate_from none ns) ≡ some c)
unfolding flat
mixed_none ns c h = let e = aggregate_mixed ns in ground (arith, ap flat e)

only_all-aggregate_from :
    (ns : WtNodes) (f c : WtCategory)
    → ColouredAll ns
    → flat (aggregate_from (some (some f)) ns) ≡ some c
    → (f ≡ c) × (only_all c ns ≡ true)
unfolding aggregate_from flat
only_all-aggregate_from no_nodes f c w h = (ground arith, refl)
only_all-aggregate_from (node n ns) f c w h = elim (meet-some f c (node_category n)) [
  | inl e ↦
      let m : flat (aggregate_from none ns) ≡ some c =
        ap (λ x. flat (aggregate_from x ns)) (sym e) ∙ h in
      absurd (mixed_none ns c m)
  | inr (k, e) ↦
      let m : flat (aggregate_from (some (some f)) ns) ≡ some c =
        ap (λ x. flat (aggregate_from x ns)) (sym e) ∙ h in
      let r = only_all-aggregate_from ns f c w.1 m in
      let o = only-of_category n f w.0 k in (r.0, ground (arith, r.0, r.1, ap (λ x. only x n) r.0))
]

only_all-aggregate_category :
    (ns : WtNodes) (c : WtCategory)
    → ColouredAll ns
    → aggregate_category ns ≡ some c
    → only_all c ns ≡ true
unfolding aggregate_category aggregate_from meet
only_all-aggregate_category no_nodes c w h = refl
only_all-aggregate_category (node n ns) c w h = first_child (node_category n) refl
  where
    first_child : (o : Option WtCategory) → node_category n ≡ o → only_all c (node n ns) ≡ true
    first_child none e =
        absurd
          (mixed_none ns c (ap (λ x. flat (aggregate_from (meet (some none) x) ns)) (sym e) ∙ h))
    first_child (some f) e =
        let m : flat (aggregate_from (some (some f)) ns) ≡ some c =
          ap (λ x. flat (aggregate_from (meet (some none) x) ns)) (sym e) ∙ h in
        let r = only_all-aggregate_from ns f c w.1 m in
        let o = only-of_category n f w.0 e in ground (arith, r.0, r.1, ap (λ x. only x n) r.0)

dir_of-Coloured : (name : Text) (ns : WtNodes) → ColouredAll ns → Coloured (dir_of name ns)
unfolding dir_of
dir_of-Coloured name ns w = (λ c h. only_all-aggregate_category ns c w h, w)

file_nodes-Coloured : (fs : List (Text × FileLeaf)) → ColouredAll (file_nodes fs)
unfolding file_nodes
file_nodes-Coloured [] = tt
file_nodes-Coloured ((name, leaf) ∷ fs) = (tt, file_nodes-Coloured fs)

mutual
  unfolding dir_nodes dir_row

  dir_nodes-Coloured :
      (ds : Dirs) (rest : WtNodes) → ColouredAll rest → ColouredAll (dir_nodes ds rest)
  dir_nodes-Coloured no_dirs rest w = w
  dir_nodes-Coloured (entry name d ds) rest w =
      (dir_row-Coloured name d, dir_nodes-Coloured ds rest w)

  dir_row-Coloured : (name : Text) (d : DirBuilder) → Coloured (dir_row name d)
  dir_row-Coloured name (builder no_dirs fs) =
      dir_of-Coloured name (file_nodes fs) (file_nodes-Coloured fs)
  dir_row-Coloured name (builder (entry child d no_dirs) []) =
      dir_row-Coloured (name ++ (b'/' ∷ child)) d
  dir_row-Coloured name (builder (entry child d no_dirs) (f ∷ fs)) =
      dir_of-Coloured name (node (dir_row child d) (file_nodes (f ∷ fs)))
        (dir_row-Coloured child d, file_nodes-Coloured (f ∷ fs))
  dir_row-Coloured name (builder (entry child d (entry c2 d2 ds)) fs) =
      dir_of-Coloured name (dir_nodes (entry child d (entry c2 d2 ds)) (file_nodes fs)) (
        dir_row-Coloured child d,
        (dir_row-Coloured c2 d2, dir_nodes-Coloured ds (file_nodes fs) (file_nodes-Coloured fs)),
      )

-- In the tree of any builder, a directory row that has a category has only files of that category
-- below it, at any depth.
pub into_nodes-Coloured : (b : DirBuilder) → ColouredAll (into_nodes b)
unfolding into_nodes
into_nodes-Coloured (builder ds fs) = dir_nodes-Coloured ds (file_nodes fs) (file_nodes-Coloured fs)
