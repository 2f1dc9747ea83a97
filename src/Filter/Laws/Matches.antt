-- ===== src/Filter/Laws/Matches.antt =====
-- Which rows the filter shows, and how often.
use gwm_cli.Base.{
  ℕ, zero, suc, ◌+◌, ◌<◌, ◌≡◌, refl, ap, Bool, true, false, not, ◌||◌, ◌&&◌, List, [], ◌∷◌, Option,
  none, some, ◌==◌, leb, ltb, if◌then◌else◌, length, arith, Text, is_empty, map, get_elem?,
}
use gwm_cli.Filter.{
  WorktreeInfo, range, rank_insert, rank, keep_if, main_row, push_score, scored_from,
  fuzzy_match_indices, visible_indices,
}

abbrev pub one_if : Bool → ℕ
one_if b = if b then 1 else 0

-- How often an index is shown.
abbrev pub times : ℕ → List ℕ → ℕ
times i [] = 0
times i (j ∷ js) = one_if (i == j) + times i js

abbrev times_scored : ℕ → List (ℕ × ℕ) → ℕ
times_scored i [] = 0
times_scored i (s ∷ ss) = one_if (i == s.1) + times_scored i ss

times-range : (i k n : ℕ) → times i (range k n) ≡ one_if (leb k i && ltb i (k + n))
unfolding range
times-range i k zero = ground arith
times-range i k (suc n) = ground (arith, times-range i (suc k) n)

times-rank_insert :
    (i : ℕ) (a : ℕ × ℕ) (bs : List (ℕ × ℕ))
    → times_scored i (rank_insert a bs) ≡ one_if (i == a.1) + times_scored i bs
unfolding rank_insert
times-rank_insert i a [] = refl
times-rank_insert i a (b ∷ bs) = ground (arith, times-rank_insert i a bs)

times-rank : (i : ℕ) (ss : List (ℕ × ℕ)) → times_scored i (rank ss) ≡ times_scored i ss
unfolding rank
times-rank i [] = refl
times-rank i (a ∷ ss) = omega (arith, times-rank_insert i a (rank ss), times-rank i ss)

times-map : (i : ℕ) (ss : List (ℕ × ℕ)) → times i (map (λ s. s.1) ss) ≡ times_scored i ss
times-map i [] = refl
times-map i (a ∷ ss) = omega (arith, times-map i ss)

times-keep_if :
    (i : ℕ) (p : ℕ → Bool) (is : List ℕ) → times i (keep_if p is) ≡ (if p i then times i is else 0)
unfolding keep_if
times-keep_if i p [] = ground arith
times-keep_if i p (j ∷ is) = ground (arith, times-keep_if i p is)

module _ (score : Text → Text → Option ℕ) where
  abbrev pub scores : Text → Option WorktreeInfo → Bool
  scores query none = false
  scores query (some w) = elim (score query w.name) [ none ↦ false | some _ ↦ true ]

  scores_in :
      (query : Text) (ws : List WorktreeInfo) (i : ℕ)
      → scores query (get_elem? ws i) ≡ true
      → i < length ws
  scores_in query [] i h = ground arith
  scores_in query (w ∷ ws) zero h = omega arith
  scores_in query (w ∷ ws) (suc i) h = omega (arith, scores_in query ws i h)

  times-push_score :
      (i k : ℕ) (o : Option ℕ) (rest : List (ℕ × ℕ))
      → times_scored i (push_score score o k rest)
        ≡ one_if (i == k && elim o [ none ↦ false | some _ ↦ true ]) + times_scored i rest
  unfolding push_score
  times-push_score i k none rest = ground arith
  times-push_score i k (some s) rest = ground arith

  scored_before :
      (query : Text) (i k : ℕ) (ws : List WorktreeInfo)
      → i < k
      → times_scored i (scored_from score query k ws) ≡ 0
  unfolding scored_from
  scored_before query i k [] h = refl
  scored_before query i k (w ∷ ws) h = ground (
    arith,
    times-push_score i k (score query w.name) (scored_from score query (suc k) ws),
    scored_before query i (suc k) ws,
  )

  scored_at :
      (query : Text) (k j : ℕ) (ws : List WorktreeInfo)
      → times_scored (k + j) (scored_from score query k ws) ≡ one_if (scores query (get_elem? ws j))
  unfolding scored_from
  scored_at query k j [] = refl
  scored_at query k zero (w ∷ ws) = ground (
    arith,
    times-push_score (k + 0) k (score query w.name) (scored_from score query (suc k) ws),
    scored_before query (k + 0) (suc k) ws,
  )
  scored_at query k (suc j) (w ∷ ws) =
      let e : k + suc j ≡ suc k + j = omega arith in
      ground (
        arith,
        times-push_score (k + suc j) k (score query w.name) (scored_from score query (suc k) ws),
        scored_at query (suc k) j ws,
        ap (λ i. times_scored i (scored_from score query (suc k) ws)) e,
      )

  times-fuzzy_match_indices :
      (query : Text) (ws : List WorktreeInfo) (i : ℕ)
      → times i (fuzzy_match_indices score query ws)
        ≡ one_if (ltb i (length ws) && (is_empty query || scores query (get_elem? ws i)))
  unfolding fuzzy_match_indices
  times-fuzzy_match_indices [] ws i = ground (arith, times-range i 0 (length ws))
  times-fuzzy_match_indices (c ∷ query) ws i =
      let ss = scored_from score (c ∷ query) 0 ws in
      ground (
        arith,
        times-map i (rank ss),
        times-rank i ss,
        scored_at (c ∷ query) 0 i ws,
        scores_in (c ∷ query) ws i,
      )

  -- A row is shown at most once. Under a query it is shown if its name scores; with no query, if
  -- it is a main worktree or its group is not folded. No index past the list is shown.
  pub times-visible_indices :
      (query : Text) (ws : List WorktreeInfo) (collapsed : ℕ → Bool) (i : ℕ)
      → times i (visible_indices score query ws collapsed)
        ≡ one_if (
            ltb i (length ws)
            && (if is_empty query
                then main_row (get_elem? ws i) || not (collapsed i)
                else scores query (get_elem? ws i)))
  unfolding visible_indices
  times-visible_indices [] ws collapsed i = ground (
    arith,
    times-keep_if i (λ i. main_row (get_elem? ws i) || not (collapsed i))
        (fuzzy_match_indices score [] ws),
    times-fuzzy_match_indices [] ws i,
  )
  times-visible_indices (c ∷ query) ws collapsed i =
      ground (arith, times-fuzzy_match_indices (c ∷ query) ws i)
