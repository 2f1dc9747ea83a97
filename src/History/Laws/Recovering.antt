-- ===== src/History/Laws/Recovering.antt =====
-- An undo takes back what was recorded last.
use gwm_cli.Base.{
  ◌<◌, ◌≡◌, ◌≢◌, refl, ap, ◌∙◌, true, not, ◌||◌, List, [], ◌∷◌, ◌++◌, some, arith, ltb, leb, length,
  length-append, all,
}
use mathlib.Core.Path.{subst}
use mathlib.Core.List.{append-nil}
use gwm_cli.History.{
  path_eq, max_entries, OpEntry, Journal, append, Pop, nothing, popped, panicked, pop_last_for_repo,
}
use gwm_cli.History.Laws.Choosing.{all-append}
use gwm_cli.History.Laws.Taking.{
  path_eq_iff, TakesLast, TakesLastOrNone, pop_last_for_repo-TakesLast,
}

-- Where the last element of a list stands in a list with a marked element.
data Snoc {ℓ} {A : Type ℓ} (xs : List A) (x : A) (b : List A) (e : A) (a : List A) : Type ℓ where
  at_end : a ≡ [] → e ≡ x → b ≡ xs → Snoc xs x b e a
  further : (c : List A) → a ≡ c ++ x ∷ [] → xs ≡ b ++ e ∷ c → Snoc xs x b e a

Snoc-cons {ℓ} :
    {A : Type ℓ} {xs b a : List A} {x e : A} (y : A) → Snoc xs x b e a → Snoc (y ∷ xs) x (y ∷ b) e a
Snoc-cons y (at_end p q r) = at_end p q (ap (◌∷◌ y) r)
Snoc-cons y (further c p q) = further c p (ap (◌∷◌ y) q)

append-cons-ne-nil {ℓ} : {A : Type ℓ} (b : List A) (e : A) (a : List A) → b ++ e ∷ a ≢ []
append-cons-ne-nil [] e a = cc
append-cons-ne-nil (c ∷ b) e a = cc

Snoc-eq {ℓ} :
    {A : Type ℓ} (xs b : List A) (x e : A) (a : List A)
    → xs ++ x ∷ [] ≡ b ++ e ∷ a
    → Snoc xs x b e a
Snoc-eq [] [] x e a h = at_end (cc) (cc) refl
Snoc-eq (y ∷ xs) [] x e a h = further xs (cc) (cc)
Snoc-eq [] (c ∷ b) x e a h = absurd (append-cons-ne-nil b e a (cc))
Snoc-eq (y ∷ xs) (c ∷ b) x e a h =
    let y_c : y ≡ c = cc in
    subst (λ z. Snoc (y ∷ xs) x (z ∷ b) e a) y_c (Snoc-cons y (Snoc-eq xs b x e a (cc)))

-- No entry of the repository is younger than the new one.
abbrev pub IsLatest : OpEntry → Journal → Type 0
IsLatest entry entries =
    all (λ y. not (path_eq y.repo_root entry.repo_root) || leb y.ts entry.ts) entries ≡ true

not_further :
    (entry e : OpEntry) (b c : Journal)
    → path_eq e.repo_root entry.repo_root ≡ true
    → all (λ y. not (path_eq y.repo_root entry.repo_root) || ltb y.ts e.ts) (c ++ entry ∷ []) ≡ true
    → IsLatest entry (b ++ e ∷ c)
    → ⊥
not_further entry e b c own older latest = ground (
  arith,
  path_eq_iff entry.repo_root entry.repo_root,
  all-append (λ y. not (path_eq y.repo_root entry.repo_root) || ltb y.ts e.ts) c (entry ∷ []),
  all-append (λ y. not (path_eq y.repo_root entry.repo_root) || leb y.ts entry.ts) b (e ∷ c),
)

takes_new :
    (entry e : OpEntry) (entries rest : Journal)
    → IsLatest entry entries
    → (t : TakesLast entry.repo_root (entries ++ entry ∷ []) e rest)
    → Snoc entries entry t.before e t.after
    → popped e rest ≡ popped entry entries
takes_new entry e entries rest k t (at_end p q r) =
    ap (λ z. popped z rest) q
    ∙ ap (popped entry) (t.others ∙ ap (λ z. t.before ++ z) p ∙ append-nil t.before ∙ r)
takes_new entry e entries rest k t (further c p q) = absurd (
    not_further entry e t.before c t.own
      (subst (λ z. all (λ y. not (path_eq y.repo_root entry.repo_root) || ltb y.ts e.ts) z ≡ true) p
        t.all_older)
      (subst (IsLatest entry) q k))

pops_new :
    (entry : OpEntry) (entries : Journal) (p : Pop)
    → IsLatest entry entries
    → TakesLastOrNone entry.repo_root (entries ++ entry ∷ []) p
    → p ≡ popped entry entries
pops_new entry entries nothing k t = absurd (
    ground (
      arith,
      path_eq_iff entry.repo_root entry.repo_root,
      all-append (λ (y : OpEntry). not (path_eq y.repo_root entry.repo_root)) entries (entry ∷ []),
    ))
pops_new entry entries panicked k t = elim t [ ]
pops_new entry entries (popped e rest) k t =
    takes_new entry e entries rest k t (Snoc-eq entries t.before entry e t.after t.whole)

-- What a record adds to a journal with room, the next undo of its repository takes back, if no
-- entry of that repository is younger: it gets the entry, and leaves the journal of before.
pub pop-append :
    (entry : OpEntry) (entries : Journal)
    → length entries < max_entries
    → IsLatest entry entries
    → (j : Journal) × (append entry entries ≡ some j)
      × (pop_last_for_repo entry.repo_root j ≡ popped entry entries)
unfolding append
pop-append entry entries h k = (
  entries ++ entry ∷ [],
  ground (arith, length-append {0} entries (entry ∷ [])),
  pops_new entry entries (pop_last_for_repo entry.repo_root (entries ++ entry ∷ [])) k
      (pop_last_for_repo-TakesLast entry.repo_root (entries ++ entry ∷ [])),
)
