-- ===== src/Aliases/Laws/Expanding.antt =====
-- Both expansions of the command line agree.
use gwm_cli.Base.{
  ℕ, zero, suc, ◌+◌, ◌≡◌, refl, ap, ◌∙◌, List, [], ◌∷◌, ◌++◌, Option, none, some, arith, ltb, map,
  take, drop, length, length-map, get_elem?, Text, Bool-cases, inl, inr,
}
use mathlib.Core.List.{map-append}
use gwm_cli.Aliases.{
  ResolvedAliases, lookup, find_word, unicode, first_byte_is_dash, to_str, find_word_os, splice,
  substituted, tokens_of, at_word, at_index, expand_argv, at_word_os, at_index_os, expand_argv_os,
}

abbrev pub map_option {ℓ κ} : {A : Type ℓ} {B : Type κ} → (A → B) → Option A → Option B
map_option f none = none
map_option f (some a) = some (f a)

module _ {ℓ κ} {A : Type ℓ} {B : Type κ} (f : A → B) where
  get_elem?-map : (xs : List A) (i : ℕ) → get_elem? (map f xs) i ≡ map_option f (get_elem? xs i)
  get_elem?-map [] i = refl
  get_elem?-map (x ∷ xs) zero = refl
  get_elem?-map (x ∷ xs) (suc i) = get_elem?-map xs i

  take-map : (n : ℕ) (xs : List A) → take n (map f xs) ≡ map f (take n xs)
  take-map zero xs = refl
  take-map (suc n) [] = refl
  take-map (suc n) (x ∷ xs) = ap (◌∷◌ (f x)) (take-map n xs)

  drop-map : (n : ℕ) (xs : List A) → drop n (map f xs) ≡ map f (drop n xs)
  drop-map zero xs = refl
  drop-map (suc n) [] = refl
  drop-map (suc n) (x ∷ xs) = drop-map n xs

find_word_os-unicode :
    (i : ℕ) (toks : List Text) → find_word_os i (map unicode toks) ≡ find_word i toks
unfolding find_word_os find_word first_byte_is_dash
find_word_os-unicode i [] = refl
find_word_os-unicode i (tok ∷ toks) = ground (arith, find_word_os-unicode (suc i) toks)

module _ (shell_split : Text → Option (List Text)) (aliases : ResolvedAliases) where
  splice-unicode :
      (argv : List Text) (i : ℕ) (tokens : List Text)
      → splice shell_split aliases (map unicode argv) i (map unicode tokens)
        ≡ map unicode (splice shell_split aliases argv i tokens)
  splice-unicode argv i tokens =
      rw
        (
          take-map unicode i argv,
          drop-map unicode (i + 1) argv,
          map-append unicode (take i argv) (tokens ++ drop (i + 1) argv),
          map-append unicode tokens (drop (i + 1) argv),
        )
        refl

  substituted-unicode :
      (argv : List Text) (i : ℕ) (tokens : Option (List Text))
      → substituted shell_split aliases (map unicode) (map unicode argv) i tokens
        ≡ map unicode (substituted shell_split aliases (λ t. t) argv i tokens)
  substituted-unicode argv i none = refl
  substituted-unicode argv i (some tokens) = splice-unicode argv i tokens

  at_word-unicode :
      (argv : List Text) (i : ℕ) (tok : Option Text)
      → at_word_os shell_split aliases (map unicode argv) i (map_option unicode tok)
        ≡ map_option (map unicode) (at_word shell_split aliases argv i tok)
  unfolding to_str
  at_word-unicode argv i none = refl
  at_word-unicode argv i (some tok) =
      ap some (substituted-unicode argv i (tokens_of shell_split aliases (lookup aliases tok)))

  at_index-unicode :
      (argv : List Text) (i : Option ℕ)
      → at_index_os shell_split aliases (map unicode argv) i
        ≡ map_option (map unicode) (at_index shell_split aliases argv i)
  at_index-unicode argv none = refl
  at_index-unicode argv (some i) =
      ap (at_word_os shell_split aliases (map unicode argv) i) (get_elem?-map unicode argv i)
      ∙ at_word-unicode argv i (get_elem? argv i)

  -- On arguments that are Unicode both expansions do the same.
  pub expand_argv_os-unicode :
      (argv : List Text)
      → expand_argv_os shell_split aliases (map unicode argv)
        ≡ map_option (map unicode) (expand_argv shell_split aliases argv)
  unfolding expand_argv_os expand_argv
  expand_argv_os-unicode argv = elim (Bool-cases (ltb (length argv) 2)) [
    | inl e ↦ rw (length-map unicode argv, e) refl
    | inr e ↦
        rw (length-map unicode argv, e)
          (ap (λ ts. at_index_os shell_split aliases (map unicode argv) (find_word_os 1 ts))
              (drop-map unicode 1 argv)
            ∙ ap (at_index_os shell_split aliases (map unicode argv))
                (find_word_os-unicode 1 (drop 1 argv))
            ∙ at_index-unicode argv (find_word 1 (drop 1 argv)))
  ]
