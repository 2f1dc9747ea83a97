-- ===== src/Filter/Laws/Cache.antt =====
-- The memoised indices are those that the matcher would compute now.
use gwm_cli.Base.{
  ℕ, ◌≡◌, refl, List, [], ◌∷◌, Option, none, some, length, arith, Text, is_empty, ==_refl, if_both,
}
use gwm_cli.Filter.{
  FilterState, new_filter, push_char, pop_char, set_query, clear, open_bar, close_keep,
  close_cancel, invalidate, filtered_from, without_last, hot_cache, filtered_indices, snapshot_from,
  snapshot_indices,
}

module _ {W : Type 0} (compute : Text → List W → List ℕ) where
  -- What the program does with the filter. `refresh_op` is a new list of worktrees, with the
  -- flush that goes with it; `read_op` a lookup through the cache.
  pub data Op : Type 0 where
    push_op : ℕ → Op
    pop_op clear_op open_op keep_op cancel_op invalidate_op read_op : Op
    query_op : Text → Op
    refresh_op : List W → Op

  pub record App : Type 0 where
    pub filter : FilterState
    pub worktrees : List W

  abbrev pub step : Op → App → App
  step (push_op c) a = record a { filter = push_char a.filter c }
  step pop_op a = record a { filter = pop_char a.filter }
  step clear_op a = record a { filter = clear a.filter }
  step open_op a = record a { filter = open_bar a.filter }
  step keep_op a = record a { filter = close_keep a.filter }
  step cancel_op a = record a { filter = close_cancel a.filter }
  step invalidate_op a = record a { filter = invalidate a.filter }
  step read_op a = record a { filter = (filtered_indices compute a.filter a.worktrees).0 }
  step (query_op q) a = record a { filter = set_query a.filter q }
  step (refresh_op ws) a = record a { filter = invalidate a.filter; worktrees = ws }

  abbrev pub run : List Op → App → App
  run [] a = a
  run (op ∷ ops) a = run ops (step op a)

  -- A cache is cold, or holds what the matcher finds for the query.
  abbrev FreshCache : Option (List ℕ) → Text → List W → Type 0
  FreshCache none query ws = Unit
  FreshCache (some cached) query ws = cached ≡ compute query ws

  abbrev Fresh : App → Type 0
  Fresh a = FreshCache (hot_cache compute a.filter a.worktrees) a.filter.query a.worktrees

  cold_hot :
      (s : FilterState) (ws : List W) → s.cached_indices ≡ none → hot_cache compute s ws ≡ none
  unfolding hot_cache
  cold_hot s ws h = ground arith

  cold_Fresh : (a : App) → a.filter.cached_indices ≡ none → Fresh a
  cold_Fresh a h = rw (cold_hot a.filter a.worktrees h) tt

  hot_refilled :
      (s : FilterState) (ws : List W)
      → hot_cache compute (filtered_from compute s ws none).0 ws ≡ some (compute s.query ws)
  unfolding hot_cache filtered_from
  hot_refilled s ws = ground (arith, ==_refl (length ws))

  read_from :
      (s : FilterState) (ws : List W) (o : Option (List ℕ))
      → hot_cache compute s ws ≡ o
      → FreshCache o s.query ws
      → FreshCache (hot_cache compute (filtered_from compute s ws o).0 ws) s.query ws
  unfolding filtered_from
  read_from s ws none e f = rw (hot_refilled s ws) refl
  read_from s ws (some cached) e f = rw e f

  query-filtered_from :
      (s : FilterState) (ws : List W) (o : Option (List ℕ))
      → (filtered_from compute s ws o).0.query ≡ s.query
  unfolding filtered_from
  query-filtered_from s ws none = refl
  query-filtered_from s ws (some cached) = refl

  step-Fresh : (op : Op) (a : App) → Fresh a → Fresh (step op a)
  unfolding push_char pop_char set_query clear open_bar close_keep close_cancel invalidate
      filtered_indices hot_cache
  step-Fresh (push_op c) a f = cold_Fresh (step (push_op c) a) refl
  step-Fresh pop_op a f =
      let s = record a.filter { query = without_last a.filter.query; cached_indices = none } in
      if_both (λ s. Fresh (record a { filter = s })) (is_empty a.filter.query) a.filter s f
        (cold_Fresh (record a { filter = s }) refl)
  step-Fresh clear_op a f = cold_Fresh (step clear_op a) refl
  step-Fresh open_op a f = f
  step-Fresh keep_op a f = f
  step-Fresh cancel_op a f = cold_Fresh (step cancel_op a) refl
  step-Fresh invalidate_op a f = cold_Fresh (step invalidate_op a) refl
  step-Fresh read_op a f =
      let o = hot_cache compute a.filter a.worktrees in
      rw (query-filtered_from a.filter a.worktrees o) (read_from a.filter a.worktrees o refl f)
  step-Fresh (query_op q) a f = cold_Fresh (step (query_op q) a) refl
  step-Fresh (refresh_op ws) a f = cold_Fresh (step (refresh_op ws) a) refl

  run-Fresh : (ops : List Op) (a : App) → Fresh a → Fresh (run ops a)
  run-Fresh [] a f = f
  run-Fresh (op ∷ ops) a f = run-Fresh ops (step op a) (step-Fresh op a f)

  lookup_from :
      (s : FilterState) (ws : List W) (o : Option (List ℕ))
      → FreshCache o s.query ws
      → ((filtered_from compute s ws o).1 ≡ compute s.query ws)
        × (snapshot_from compute s ws o ≡ compute s.query ws)
  unfolding filtered_from snapshot_from
  lookup_from s ws none f = (refl, refl)
  lookup_from s ws (some cached) f = (f, f)

  -- Whatever is typed, opened, closed, flushed, refreshed and looked up from a new filter on, both
  -- lookups return what the matcher computes for the present query and the present list.
  pub lookups_fresh :
      (ws : List W) (ops : List Op)
      → let now = run ops (record { filter = new_filter; worktrees = ws }) in
        ((filtered_indices compute now.filter now.worktrees).1
          ≡ compute now.filter.query now.worktrees)
        × (snapshot_indices compute now.filter now.worktrees
            ≡ compute now.filter.query now.worktrees)
  unfolding filtered_indices snapshot_indices new_filter
  lookups_fresh ws ops =
      let first : App = record { filter = new_filter; worktrees = ws } in
      let now = run ops first in
      lookup_from now.filter now.worktrees (hot_cache compute now.filter now.worktrees)
        (run-Fresh ops first (cold_Fresh first refl))
