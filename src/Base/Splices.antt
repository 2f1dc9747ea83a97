-- ===== src/Base/Splices.antt =====
-- What the panicking list operations return in bounds, as total functions with their laws.
use Prim.Native.Nat.{ℕ, zero, suc, ◌<◌, ◌≤◌}
use mathlib.Core.Path.{◌≡◌, refl, ap}
use mathlib.Core.List.{List, [], ◌∷◌}
use mathlib.Core.Option.{some}
use native.Mathlib.Omega.{arith}
use gwm_cli.Base.Lists.{length, get_elem?, set, drop, insert_at, remove_at, put_at}

module _ {ℓ} {A : Type ℓ} where
  abbrev pub insert_nth : ℕ → A → List A → List A
  insert_nth zero v xs = v ∷ xs
  insert_nth (suc i) v [] = v ∷ []
  insert_nth (suc i) v (x ∷ xs) = x ∷ insert_nth i v xs

  abbrev pub erase_nth : ℕ → List A → List A
  erase_nth i [] = []
  erase_nth zero (x ∷ xs) = xs
  erase_nth (suc i) (x ∷ xs) = x ∷ erase_nth i xs

  pub put_at-set : (xs : List A) (i : ℕ) (v : A) → i < length xs → put_at xs i v ≡ some (set xs i v)
  put_at-set [] i v h = elim h [ ]
  put_at-set (x ∷ xs) zero v h = refl
  put_at-set (x ∷ xs) (suc i) v h = ground (arith, put_at-set xs i v)

  pub insert_at-insert_nth :
      (xs : List A) (i : ℕ) (v : A) → i ≤ length xs → insert_at xs i v ≡ some (insert_nth i v xs)
  insert_at-insert_nth xs zero v h = refl
  insert_at-insert_nth [] (suc i) v h = elim h [ ]
  insert_at-insert_nth (x ∷ xs) (suc i) v h = ground (arith, insert_at-insert_nth xs i v)

  pub remove_at-erase_nth :
      (xs : List A) (i : ℕ) {a : A}
      → get_elem? xs i ≡ some a
      → remove_at xs i ≡ some (a, erase_nth i xs)
  remove_at-erase_nth [] i h = cc
  remove_at-erase_nth (x ∷ xs) zero h = ground arith
  remove_at-erase_nth (x ∷ xs) (suc i) h = rw (remove_at-erase_nth xs i h)

  pub length-insert_nth :
      (i : ℕ) (v : A) (xs : List A) → length (insert_nth i v xs) ≡ suc (length xs)
  length-insert_nth zero v xs = refl
  length-insert_nth (suc i) v [] = refl
  length-insert_nth (suc i) v (x ∷ xs) = ap suc (length-insert_nth i v xs)

  pub length-erase_nth :
      (i : ℕ) (xs : List A) → i < length xs → suc (length (erase_nth i xs)) ≡ length xs
  length-erase_nth i [] h = elim h [ ]
  length-erase_nth zero (x ∷ xs) h = refl
  length-erase_nth (suc i) (x ∷ xs) h = ap suc (length-erase_nth i xs (omega arith))

  pub get_elem?-insert_nth :
      (i : ℕ) (v : A) (xs : List A) → i ≤ length xs → get_elem? (insert_nth i v xs) i ≡ some v
  get_elem?-insert_nth zero v xs h = refl
  get_elem?-insert_nth (suc i) v [] h = elim h [ ]
  get_elem?-insert_nth (suc i) v (x ∷ xs) h = get_elem?-insert_nth i v xs (omega arith)

  -- What stands before an erased element stays, and what stood behind it moves up.
  pub get_elem?-erase_nth_lt :
      (i j : ℕ) (xs : List A) → j < i → get_elem? (erase_nth i xs) j ≡ get_elem? xs j
  get_elem?-erase_nth_lt i j [] h = refl
  get_elem?-erase_nth_lt zero j (x ∷ xs) h = elim h [ ]
  get_elem?-erase_nth_lt (suc i) zero (x ∷ xs) h = refl
  get_elem?-erase_nth_lt (suc i) (suc j) (x ∷ xs) h = get_elem?-erase_nth_lt i j xs (omega arith)

  pub erase_nth-insert_nth :
      (i : ℕ) (v : A) (xs : List A) → i ≤ length xs → erase_nth i (insert_nth i v xs) ≡ xs
  erase_nth-insert_nth zero v xs h = refl
  erase_nth-insert_nth (suc i) v [] h = elim h [ ]
  erase_nth-insert_nth (suc i) v (x ∷ xs) h = ap (◌∷◌ x) (erase_nth-insert_nth i v xs (omega arith))

  pub set-set : (i : ℕ) (v w : A) (xs : List A) → set (set xs i v) i w ≡ set xs i w
  set-set i v w [] = refl
  set-set zero v w (x ∷ xs) = refl
  set-set (suc i) v w (x ∷ xs) = ap (◌∷◌ x) (set-set i v w xs)

  pub set_self : (i : ℕ) (xs : List A) {v : A} → get_elem? xs i ≡ some v → set xs i v ≡ xs
  set_self i [] h = refl
  set_self zero (x ∷ xs) h = ground arith
  set_self (suc i) (x ∷ xs) h = ap (◌∷◌ x) (set_self i xs h)

  pub drop-cons :
      (i : ℕ) (xs : List A) {a : A} → get_elem? xs i ≡ some a → drop i xs ≡ a ∷ drop (suc i) xs
  drop-cons i [] h = cc
  drop-cons zero (x ∷ xs) h = ground arith
  drop-cons (suc i) (x ∷ xs) h = drop-cons i xs h

  pub get_elem?-of_drop :
      (i : ℕ) (xs : List A) {a : A} {r : List A}
      → drop i xs ≡ a ∷ r
      → (get_elem? xs i ≡ some a) × (drop (suc i) xs ≡ r)
  get_elem?-of_drop zero [] h = (cc, cc)
  get_elem?-of_drop (suc i) [] h = (cc, cc)
  get_elem?-of_drop zero (x ∷ xs) h = (cc, cc)
  get_elem?-of_drop (suc i) (x ∷ xs) h = get_elem?-of_drop i xs h
