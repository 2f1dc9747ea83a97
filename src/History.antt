-- ===== src/History.antt =====
-- src/history.rs: the journal of destructive operations in memory, and one record of it on disk.
pub mod Laws
mod Tests
use gwm_cli.Base.{
  ℕ, suc, Bool, true, false, ◌&&◌, List, [], ◌∷◌, ◌++◌, Option, none, some, if◌then◌else◌, ltb, leb,
  length, remove_at, Text, text_eq,
}

-- A path is the list of its components, by which `Path` compares.
abbrev pub FilePath : Type 0
FilePath = List Text

unfoldable pub path_eq : FilePath → FilePath → Bool
path_eq [] [] = true
path_eq (c ∷ p) (d ∷ q) = text_eq c d && path_eq p q
path_eq _ _ = false

abbrev pub max_entries : ℕ
max_entries = 100

pub data OpKind : Type 0 where
  remove create : OpKind

-- A time is the number of nanoseconds since a fixed instant.
pub record OpEntry : Type 0 where
  pub ts : ℕ
  pub kind : OpKind
  pub worktree : Text
  pub branch : Option Text
  pub branch_oid : Option Text
  pub path : FilePath
  pub deleted_branch : Bool
  pub repo_root : FilePath
  pub undone : Bool

abbrev pub Journal : Type 0
Journal = List OpEntry

module _ {ℓ} {A : Type ℓ} where
  unfoldable pub enumerate_from : ℕ → List A → List (ℕ × A)
  enumerate_from i [] = []
  enumerate_from i (x ∷ xs) = (i, x) ∷ enumerate_from (suc i) xs

  unfoldable pub filter : (A → Bool) → List A → List A
  filter keeps [] = []
  filter keeps (x ∷ xs) = let rest = filter keeps xs in if keeps x then x ∷ rest else rest

  -- `min_by_key` and `max_by_key`: the first element stays until a later one beats it.
  unfoldable pub select : (A → A → Bool) → Option A → List A → Option A
  select beats best [] = best
  select beats none (x ∷ xs) = select beats (some x) xs
  select beats (some b) (x ∷ xs) = select beats (some (if beats x b then x else b)) xs

-- `min_by_key(ts)` keeps the first of several that are least.
unfoldable pub is_older : OpEntry → OpEntry → Bool
is_older x best = ltb x.ts best.ts

-- `max_by_key(ts)` takes the last of several that are greatest.
unfoldable pub is_newest : OpEntry → OpEntry → Bool
is_newest x best = leb best.ts x.ts

abbrev pub every : OpEntry → Bool
every e = true

abbrev pub of_repo : FilePath → OpEntry → Bool
of_repo repo_root e = path_eq e.repo_root repo_root

unfoldable pub by_entry : (OpEntry → OpEntry → Bool) → ℕ × OpEntry → ℕ × OpEntry → Bool
by_entry beats x best = beats x.1 best.1

unfoldable pub chosen :
    (OpEntry → Bool) → (OpEntry → OpEntry → Bool) → Journal → Option (ℕ × OpEntry)
chosen keeps beats entries =
    select (by_entry beats) none
      (filter (λ (x : ℕ × OpEntry). keeps x.1) (enumerate_from 0 entries))

abbrev pub evicted : Option (ℕ × OpEntry) → Journal → Option Journal
evicted none entries = some entries
evicted (some (i, e)) entries = elim (remove_at entries i) [
  | none ↦ none
  | some (x, rest) ↦ some rest
]

-- `none` is a panic of `Vec::remove`.
unfoldable pub append : OpEntry → Journal → Option Journal
append entry entries =
    let all_of_them = entries ++ entry ∷ [] in
    if ltb max_entries (length all_of_them)
    then evicted (chosen every is_older all_of_them) all_of_them
    else some all_of_them

unfoldable pub entries_for_repo : FilePath → Journal → Journal
entries_for_repo repo_root entries = filter (of_repo repo_root) entries

unfoldable pub last_for_repo : FilePath → Journal → Option OpEntry
last_for_repo repo_root entries = select is_newest none (entries_for_repo repo_root entries)

-- What `pop_last_for_repo` does: there is nothing to take, or it took an entry, or it panicked.
pub data Pop : Type 0 where
  nothing : Pop
  popped : OpEntry → Journal → Pop
  panicked : Pop

abbrev pub pop_result : Option (OpEntry × Journal) → Pop
pop_result none = panicked
pop_result (some (e, rest)) = popped e rest

abbrev pub popped_at : Option (ℕ × OpEntry) → Journal → Pop
popped_at none entries = nothing
popped_at (some (i, e)) entries = pop_result (remove_at entries i)

unfoldable pub pop_last_for_repo : FilePath → Journal → Pop
pop_last_for_repo repo_root entries =
    popped_at (chosen (of_repo repo_root) is_newest entries) entries
