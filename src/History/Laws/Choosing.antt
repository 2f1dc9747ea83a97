-- ===== src/History/Laws/Choosing.antt =====
-- Which entry the journal's scans pick, and where it stands.
use gwm_cli.Base.{
  ℕ, suc, ◌≡◌, refl, ap, sym, ◌∙◌, Bool, true, false, not, ◌&&◌, ◌||◌, List, [], ◌∷◌, ◌++◌, Option,
  none, some, arith, if◌then◌else◌, length, all, remove_at, inl, inr, Bool-cases,
}
use mathlib.Core.List.{append_assoc, append-nil}
use gwm_cli.History.{OpEntry, Journal, enumerate_from, filter, select, by_entry, chosen}

pub all-append {ℓ} :
    {A : Type ℓ} (q : A → Bool) (xs ys : List A) → all q (xs ++ ys) ≡ (all q xs && all q ys)
all-append q [] ys = refl
all-append q (x ∷ xs) ys = ground (arith, all-append q xs ys)

pub all_imp {ℓ} :
    {A : Type ℓ} (q r : A → Bool) (xs : List A)
    → ((x : A) → q x ≡ true → r x ≡ true)
    → all q xs ≡ true
    → all r xs ≡ true
all_imp q r [] h k = refl
all_imp q r (x ∷ xs) h k = ground (arith, h x, all_imp q r xs h)

length-snoc {ℓ} : {A : Type ℓ} (xs : List A) (x : A) → length (xs ++ x ∷ []) ≡ suc (length xs)
length-snoc [] x = refl
length-snoc (y ∷ xs) x = ap suc (length-snoc xs x)

pub remove_at-append {ℓ} :
    {A : Type ℓ} (xs : List A) (x : A) (ys : List A)
    → remove_at (xs ++ x ∷ ys) (length xs) ≡ some (x, xs ++ ys)
remove_at-append [] x ys = refl
remove_at-append (y ∷ xs) x ys = rw (remove_at-append xs x ys)

-- The entry `e` at index `i` satisfies `keeps`; it beats all such before it, and none behind it
-- beats it.
pub record Chosen (keeps : OpEntry → Bool) (beats : OpEntry → OpEntry → Bool) (entries : Journal)
    (i : ℕ) (e : OpEntry) : Type 0 where
  pub before : Journal
  pub after : Journal
  pub whole : entries ≡ before ++ e ∷ after
  pub index : length before ≡ i
  pub kept : keeps e ≡ true
  pub beaten : all (λ y. not (keeps y) || beats e y) before ≡ true
  pub unbeaten : all (λ y. not (keeps y) || not (beats y e)) after ≡ true

pub remove_at-Chosen :
    {keeps : OpEntry → Bool} {beats : OpEntry → OpEntry → Bool} {entries : Journal} {i : ℕ}
    {e : OpEntry} (c : Chosen keeps beats entries i e)
    → remove_at entries i ≡ some (e, c.before ++ c.after)
remove_at-Chosen {entries} {i} {e} c =
    ap (λ xs. remove_at xs i) c.whole
    ∙ ap (remove_at (c.before ++ e ∷ c.after)) (sym c.index)
    ∙ remove_at-append c.before e c.after

abbrev pub Found :
    (OpEntry → Bool) → (OpEntry → OpEntry → Bool) → Journal → Option (ℕ × OpEntry) → Type 0
Found keeps beats entries none = all (λ y. not (keeps y)) entries ≡ true
Found keeps beats entries (some (i, e)) = Chosen keeps beats entries i e

module _ (keeps : OpEntry → Bool) (beats : OpEntry → OpEntry → Bool)
    (over : (x b y : OpEntry) → beats x b ≡ true → beats b y ≡ true → beats x y ≡ true)
    (across : (x b y : OpEntry) → beats x b ≡ true → beats y b ≡ false → beats x y ≡ true) where
  -- An entry that does not count, or does not beat the best, goes behind it.
  behind :
      (pre : Journal) (x : OpEntry) (i : ℕ) (e : OpEntry)
      → (not (keeps x) || not (beats x e)) ≡ true
      → Chosen keeps beats pre i e
      → Chosen keeps beats (pre ++ x ∷ []) i e
  behind pre x i e h c = record {
    before = c.before;
    after = c.after ++ x ∷ [];
    whole = ap (λ p. p ++ x ∷ []) c.whole ∙ append_assoc c.before (e ∷ c.after) (x ∷ []);
    index = c.index;
    kept = c.kept;
    beaten = c.beaten;
    unbeaten =
        all-append (λ y. not (keeps y) || not (beats y e)) c.after (x ∷ [])
        ∙ ground (arith, c.unbeaten, h);
  }

  -- What is beaten by the best, the best itself and what does not beat it: `x` beats them all.
  ahead :
      (pre : Journal) (x : OpEntry) (i : ℕ) (e : OpEntry)
      → keeps x ≡ true
      → beats x e ≡ true
      → Chosen keeps beats pre i e
      → Chosen keeps beats (pre ++ x ∷ []) (length pre) x
  ahead pre x i e k h c = record {
    before = pre;
    after = [];
    whole = refl;
    index = refl;
    kept = k;
    beaten =
        ap (all (λ y. not (keeps y) || beats x y)) c.whole
        ∙ all-append (λ y. not (keeps y) || beats x y) c.before (e ∷ c.after)
        ∙ ground (
          arith,
          h,
          all_imp (λ y. not (keeps y) || beats e y) (λ y. not (keeps y) || beats x y) c.before
              (λ y b. ground (arith, over x e y h)) c.beaten,
          all_imp (λ y. not (keeps y) || not (beats y e)) (λ y. not (keeps y) || beats x y) c.after
              (λ y b. ground (arith, across x e y h)) c.unbeaten,
        );
    unbeaten = refl;
  }

  first :
      (pre : Journal) (x : OpEntry)
      → keeps x ≡ true
      → all (λ y. not (keeps y)) pre ≡ true
      → Chosen keeps beats (pre ++ x ∷ []) (length pre) x
  first pre x k h = record {
    before = pre;
    after = [];
    whole = refl;
    index = refl;
    kept = k;
    beaten =
        all_imp (λ y. not (keeps y)) (λ y. not (keeps y) || beats x y) pre
          (λ y b. ground (arith, b)) h;
    unbeaten = refl;
  }

  none_kept :
      (pre : Journal) (x : OpEntry)
      → keeps x ≡ false
      → all (λ y. not (keeps y)) pre ≡ true
      → all (λ y. not (keeps y)) (pre ++ x ∷ []) ≡ true
  none_kept pre x k h = all-append (λ y. not (keeps y)) pre (x ∷ []) ∙ ground (arith, h, k)

  abbrev scanned : Option (ℕ × OpEntry) → ℕ → Journal → Option (ℕ × OpEntry)
  scanned best n xs =
      select (by_entry beats) best (filter (λ (x : ℕ × OpEntry). keeps x.1) (enumerate_from n xs))

  -- The entry that the scan has behind one more entry.
  next : Option (ℕ × OpEntry) → ℕ → OpEntry → Option (ℕ × OpEntry)
  next none n x = if keeps x then some (n, x) else none
  next (some (i, e)) n x = if keeps x && beats x e then some (n, x) else some (i, e)

  scanned-cons :
      (best : Option (ℕ × OpEntry)) (n : ℕ) (x : OpEntry) (xs : Journal)
      → scanned best n (x ∷ xs) ≡ scanned (next best n x) (suc n) xs
  unfolding select filter enumerate_from by_entry next
  scanned-cons none n x xs = ground arith
  scanned-cons (some (i, e)) n x xs = ground arith

  next-Found :
      (best : Option (ℕ × OpEntry)) (pre : Journal) (x : OpEntry)
      → Found keeps beats pre best
      → Found keeps beats (pre ++ x ∷ []) (next best (length pre) x)
  unfolding next
  next-Found none pre x h = elim (Bool-cases (keeps x)) [
    | inl k ↦ rw k (first pre x k h)
    | inr k ↦ rw k (none_kept pre x k h)
  ]
  next-Found (some (i, e)) pre x h = elim (Bool-cases (keeps x && beats x e)) [
    | inl k ↦ rw k (ahead pre x i e (ground (arith, k)) (ground (arith, k)) h)
    | inr k ↦ rw k (behind pre x i e (ground (arith, k)) h)
  ]

  scanned-Found :
      (xs pre : Journal) (best : Option (ℕ × OpEntry))
      → Found keeps beats pre best
      → Found keeps beats (pre ++ xs) (scanned best (length pre) xs)
  scanned-Found [] pre best h = rw (append-nil pre) (unfold select filter enumerate_from in h)
  scanned-Found (x ∷ xs) pre best h =
      rw (scanned-cons best (length pre) x xs, ← append_assoc pre (x ∷ []) xs, ← length-snoc pre x)
        (scanned-Found xs (pre ++ x ∷ []) (next best (length pre) x) (next-Found best pre x h))

  -- The scan over a whole journal finds the entry if there is one.
  pub chosen-Found : (entries : Journal) → Found keeps beats entries (chosen keeps beats entries)
  unfolding chosen
  chosen-Found entries = scanned-Found entries [] none refl
