-- ===== src/Hooks/Laws/Pieces.antt =====
-- The placeholders are replaced in one pass: no value is read again.
use gwm_cli.Base.{
  ℕ, Option, Bool-cases, if◌then◌else◌, inl, inr, ◌≡◌, refl, ap, ◌∙◌, Bool, true, false, not, ◌&&◌,
  List, [], ◌∷◌, ◌++◌, none, some, arith, ◌==◌, all, Text,
}
use mathlib.Core.List.{append_assoc}
use gwm_cli.Hooks.Expanding.{HookContext, placeholder_value, substitute, expand_from, expand}

-- A template in pieces: text without an open brace, or braces round text without a closing one.
pub data Piece : Type 0 where
  literal braces : Text → Piece

abbrev lacks : ℕ → Text → Bool
lacks c [] = true
lacks c (d ∷ s) = not (d == c) && lacks c s

abbrev pub is_piece : Piece → Bool
is_piece (literal t) = lacks b'{' t
is_piece (braces t) = lacks b'}' t

abbrev pub token_of : Text → Text
token_of t = (b'{' ∷ t) ++ (b'}' ∷ [])

abbrev pub piece_text : Piece → Text
piece_text (literal t) = t
piece_text (braces t) = token_of t

abbrev pub template_of : List Piece → Text
template_of [] = []
template_of (p ∷ ps) = piece_text p ++ template_of ps

module _ (quote : Text → Text) (ctx : HookContext) (escape : Bool) where
  abbrev pub token_meaning : Text → Option Text → Text
  token_meaning token none = token
  token_meaning token (some []) = []
  token_meaning token (some (c ∷ value)) = if escape then quote (c ∷ value) else c ∷ value

  -- What a piece stands for: a known token for its value, quoted if the text goes to a shell and
  -- the value is not empty; any other piece for itself.
  abbrev pub meaning : Piece → Text
  meaning (literal t) = t
  meaning (braces t) = token_meaning (token_of t) (placeholder_value (token_of t) ctx)

  substitute-token_meaning :
      (token : Text) (o : Option Text) → substitute quote ctx escape token o ≡ token_meaning token o
  unfolding substitute
  substitute-token_meaning token none = refl
  substitute-token_meaning token (some []) = ground arith
  substitute-token_meaning token (some (c ∷ value)) = elim (Bool-cases escape) [
    | inl t ↦ rw t refl
    | inr n ↦ rw n refl
  ]

  abbrev pub meanings : List Piece → Text
  meanings [] = []
  meanings (p ∷ ps) = meaning p ++ meanings ps

  plain_step :
      (c : ℕ) (s : Text)
      → c == b'{' ≡ false
      → expand_from quote ctx escape none (c ∷ s) ≡ c ∷ expand_from quote ctx escape none s
  unfolding expand_from
  plain_step c s n = rw (expand_from, n) refl

  token_step :
      (r : Text) (c : ℕ) (s : Text)
      → c == b'}' ≡ false
      → expand_from quote ctx escape (some r) (c ∷ s)
        ≡ expand_from quote ctx escape (some (r ++ (c ∷ []))) s
  unfolding expand_from
  token_step r c s n = rw (expand_from, n) refl

  expand_from-literal :
      (t s : Text)
      → lacks b'{' t ≡ true
      → expand_from quote ctx escape none (t ++ s) ≡ t ++ expand_from quote ctx escape none s
  expand_from-literal [] s h = refl
  expand_from-literal (c ∷ t) s h =
      let n : c == b'{' ≡ false = ground (arith, h) in
      plain_step c (t ++ s) n ∙ ap (◌∷◌ c) (expand_from-literal t s (ground (arith, h)))

  expand_from-token :
      (r t s : Text)
      → lacks b'}' t ≡ true
      → expand_from quote ctx escape (some r) (t ++ (b'}' ∷ s))
        ≡ substitute quote ctx escape
            (r ++ (t ++ (b'}' ∷ [])))
            (placeholder_value (r ++ (t ++ (b'}' ∷ []))) ctx)
          ++ expand_from quote ctx escape none s
  unfolding expand_from
  expand_from-token r [] s h = refl
  expand_from-token r (c ∷ t) s h =
      let n : c == b'}' ≡ false = ground (arith, h) in
      token_step r c (t ++ (b'}' ∷ s)) n
      ∙ (expand_from-token (r ++ (c ∷ [])) t s (ground (arith, h))
          ∙ ap
              (λ x.
                substitute quote ctx escape x (placeholder_value x ctx)
                ++ expand_from quote ctx escape none s)
              (append_assoc r (c ∷ []) (t ++ (b'}' ∷ []))))

  opened :
      (t s : Text)
      → expand_from quote ctx escape none (b'{' ∷ (t ++ (b'}' ∷ s)))
        ≡ expand_from quote ctx escape (some (b'{' ∷ [])) (t ++ (b'}' ∷ s))
  unfolding expand_from
  opened t s = refl

  expand_from-pieces :
      (ps : List Piece)
      → all is_piece ps ≡ true
      → expand_from quote ctx escape none (template_of ps) ≡ meanings ps
  expand_from-pieces [] h = unfold expand_from in refl
  expand_from-pieces (literal t ∷ ps) h =
      expand_from-literal t (template_of ps) (ground (arith, h))
      ∙ ap (λ x. t ++ x) (expand_from-pieces ps (ground (arith, h)))
  expand_from-pieces (braces t ∷ ps) h =
      ap (expand_from quote ctx escape none) (append_assoc (b'{' ∷ t) (b'}' ∷ []) (template_of ps))
      ∙ opened t (template_of ps)
      ∙ expand_from-token (b'{' ∷ []) t (template_of ps) (ground (arith, h))
      ∙ ap (λ x. x ++ expand_from quote ctx escape none (template_of ps))
          (substitute-token_meaning (token_of t) (placeholder_value (token_of t) ctx))
      ∙ ap (λ x. meaning (braces t) ++ x) (expand_from-pieces ps (ground (arith, h)))

  -- A template made of text without braces and of tokens in braces is expanded piece by piece: a
  -- known token gives its value as it is, or quoted for a shell unless it is empty, whatever
  -- braces the value holds; an unknown token gives itself.
  pub expand-pieces :
      (ps : List Piece)
      → all is_piece ps ≡ true
      → expand quote ctx escape (template_of ps) ≡ meanings ps
  unfolding expand
  expand-pieces ps h = expand_from-pieces ps h
