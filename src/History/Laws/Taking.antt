-- ===== src/History/Laws/Taking.antt =====
-- An undo takes the last entry of its own repository.
use gwm_cli.Base.{
  ℕ, ◌≡◌, ◌≢◌, ◌↔◌, refl, ap, sym, ◌∙◌, Bool, true, false, not, ◌||◌, [], ◌∷◌, ◌++◌, Option, none,
  some, arith, ltb, leb, all, text_eq_iff,
}
use mathlib.Core.Path.{subst}
use gwm_cli.History.{
  FilePath, path_eq, OpEntry, Journal, of_repo, is_newest, chosen, filter, popped_at,
  entries_for_repo, Pop, nothing, popped, panicked, pop_last_for_repo,
}
use gwm_cli.History.Laws.Choosing.{Found, chosen-Found, all_imp, remove_at-Chosen}

is_newest-over :
    (x b y : OpEntry) → is_newest x b ≡ true → is_newest b y ≡ true → is_newest x y ≡ true
unfolding is_newest
is_newest-over x b y h k = ground arith

is_newest-across :
    (x b y : OpEntry) → is_newest x b ≡ true → is_newest y b ≡ false → is_newest x y ≡ true
unfolding is_newest
is_newest-across x b y h k = ground arith

-- What taking the last entry of `repo_root` comes to: the entry it takes is of that repository,
-- as young as all of it before, younger than all of it behind, and nothing else goes.
pub record TakesLast (repo_root : FilePath) (entries : Journal) (e : OpEntry) (rest : Journal)
    : Type 0 where
  pub before : Journal
  pub after : Journal
  pub whole : entries ≡ before ++ e ∷ after
  pub others : rest ≡ before ++ after
  pub own : path_eq e.repo_root repo_root ≡ true
  pub none_younger : all (λ y. not (path_eq y.repo_root repo_root) || leb y.ts e.ts) before ≡ true
  pub all_older : all (λ y. not (path_eq y.repo_root repo_root) || ltb y.ts e.ts) after ≡ true

abbrev pub TakesLastOrNone : FilePath → Journal → Pop → Type 0
TakesLastOrNone repo_root entries nothing =
    all (λ (y : OpEntry). not (path_eq y.repo_root repo_root)) entries ≡ true
TakesLastOrNone repo_root entries (popped e rest) = TakesLast repo_root entries e rest
TakesLastOrNone repo_root entries panicked = ⊥

popped_at-TakesLast :
    (repo_root : FilePath) (entries : Journal) (c : Option (ℕ × OpEntry))
    → Found (of_repo repo_root) is_newest entries c
    → TakesLastOrNone repo_root entries (popped_at c entries)
unfolding is_newest
popped_at-TakesLast repo_root entries none h = h
popped_at-TakesLast repo_root entries (some (i, e)) h = rw (remove_at-Chosen h) (record {
  before = h.before;
  after = h.after;
  whole = h.whole;
  others = refl;
  own = h.kept;
  none_younger = h.beaten;
  all_older = all_imp _ _ h.after (λ y q. ground (arith, q)) h.unbeaten;
})

-- The undo of a repository takes the last of its entries that are youngest, and leaves all others
-- where they are; with no entry of it there is nothing to take.
pub pop_last_for_repo-TakesLast :
    (repo_root : FilePath) (entries : Journal)
    → TakesLastOrNone repo_root entries (pop_last_for_repo repo_root entries)
unfolding pop_last_for_repo
pop_last_for_repo-TakesLast repo_root entries =
    popped_at-TakesLast repo_root entries (chosen (of_repo repo_root) is_newest entries)
      (chosen-Found (of_repo repo_root) is_newest is_newest-over is_newest-across entries)

filter_drop :
    (q : OpEntry → Bool) (xs : Journal) (e : OpEntry) (ys : Journal)
    → q e ≡ false
    → filter q (xs ++ e ∷ ys) ≡ filter q (xs ++ ys)
unfolding filter
filter_drop q [] e ys h = ground (arith, h)
filter_drop q (x ∷ xs) e ys h = ground (arith, filter_drop q xs e ys h)

pub path_eq_iff : (p q : FilePath) → (path_eq p q ≡ true) ↔ (p ≡ q)
unfolding path_eq
path_eq_iff [] [] = ground arith
path_eq_iff [] (d ∷ q) = ground arith
path_eq_iff (c ∷ p) [] = ground arith
path_eq_iff (c ∷ p) (d ∷ q) = ground (arith, path_eq_iff p q, text_eq_iff c d)

-- What an undo in one repository takes leaves the entries of every other as they are.
pub entries_for_repo-pop :
    (repo_root other : FilePath) (entries : Journal) {e : OpEntry} {rest : Journal}
    → repo_root ≢ other
    → pop_last_for_repo repo_root entries ≡ popped e rest
    → entries_for_repo other rest ≡ entries_for_repo other entries
unfolding entries_for_repo
entries_for_repo-pop repo_root other entries {e} {rest} ne h =
    let t : TakesLast repo_root entries e rest =
      subst (TakesLastOrNone repo_root entries) h (pop_last_for_repo-TakesLast repo_root entries) in
    let foreign : path_eq e.repo_root other ≡ false =
      ground (arith, path_eq_iff e.repo_root other, path_eq_iff e.repo_root repo_root, t.own) in
    ap (filter (of_repo other)) t.others
    ∙ sym (filter_drop (of_repo other) t.before e t.after foreign)
    ∙ ap (filter (of_repo other)) (sym t.whole)
