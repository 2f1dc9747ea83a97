-- ===== src/CommitGraph/Laws/Spots.antt =====
-- The search for a free column ends, on the first one.
use gwm_cli.Base.{
  ℕ, zero, suc, ◌≤◌, ◌<◌, ◌≡◌, true, false, ◌||◌, List, [], ◌∷◌, ◌++◌, leb, length, arith,
  if◌then◌else◌,
}
use gwm_cli.CommitGraph.Pipes.{has, free_from, next_free, next_free_for_new}

-- How many spots are at or after a column.
abbrev above : ℕ → List ℕ → ℕ
above i [] = 0
above i (x ∷ xs) = if leb i x then suc (above i xs) else above i xs

above-suc : (i : ℕ) (xs : List ℕ) → above (suc i) xs ≤ above i xs
above-suc i [] = omega arith
above-suc i (x ∷ xs) = ground (arith, above-suc i xs)

above-has : (i : ℕ) (xs : List ℕ) → has i xs ≡ true → above (suc i) xs < above i xs
above-has i [] h = ground arith
above-has i (x ∷ xs) h = ground (arith, above-suc i xs, above-has i xs)

above-le-length : (i : ℕ) (xs : List ℕ) → above i xs ≤ length xs
above-le-length i [] = omega arith
above-le-length i (x ∷ xs) = ground (arith, above-le-length i xs)

above_zero : (i : ℕ) (xs : List ℕ) → above i xs ≤ 0 → has i xs ≡ false
above_zero i [] h = ground arith
above_zero i (x ∷ xs) h = ground (arith, above_zero i xs)

free_from-free :
    (fuel i : ℕ) (spots : List ℕ)
    → above i spots ≤ fuel
    → has (free_from fuel i spots) spots ≡ false
unfolding free_from
free_from-free zero i spots h = above_zero i spots h
free_from-free (suc fuel) i spots h =
    ground (arith, above-has i spots, free_from-free fuel (suc i) spots)

free_from-first :
    (fuel i j : ℕ) (spots : List ℕ) → i ≤ j → j < free_from fuel i spots → has j spots ≡ true
unfolding free_from
free_from-first zero i j spots l h = ground arith
free_from-first (suc fuel) i j spots l h = ground (arith, free_from-first fuel (suc i) j spots)

has-append : (i : ℕ) (xs ys : List ℕ) → has i (xs ++ ys) ≡ (has i xs || has i ys)
has-append i [] ys = ground arith
has-append i (x ∷ xs) ys = ground (arith, has-append i xs ys)

-- The column that the search finds is not taken, and every column before it is: the loop ends, at
-- the first free column.
pub next_free_first :
    (spots : List ℕ)
    → (has (next_free spots) spots ≡ false) × ((j : ℕ) → j < next_free spots → has j spots ≡ true)
unfolding next_free
next_free_first spots = (
  free_from-free (length spots) 0 spots (above-le-length 0 spots),
  λ j h. free_from-first (length spots) 0 j spots (omega arith) h,
)

-- A new column for a parent of a merge commit is neither one that a pipe of the row has taken nor
-- one that a continuing pipe comes from.
pub next_free_for_new_fresh :
    (taken continuing : List ℕ)
    → (has (next_free_for_new taken continuing) taken ≡ false)
      × (has (next_free_for_new taken continuing) continuing ≡ false)
unfolding next_free_for_new
next_free_for_new_fresh taken continuing =
    let n = next_free (taken ++ continuing) in
    ground (arith, (next_free_first (taken ++ continuing)).0, has-append n taken continuing)
