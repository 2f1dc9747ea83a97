-- ===== src/Naming/Laws/Splits.antt =====
-- Two captures whose boundary cannot shift are read back in one way only.
use gwm_cli.Base.{
  ℕ, zero, suc, ◌+◌, ◌-◌, ◌≤◌, ◌<◌, ◌≡◌, ◌≢◌, inl, inr, refl, ap, sym, ◌∙◌, Bool, true, false, ◌&&◌,
  [], ◌∷◌, ◌++◌, arith, ◌==◌, any, all, take, drop, length, length-append, is_empty, Text, text_eq,
  text_eq_refl, Bool-cases,
}
use mathlib.Core.Path.{subst}
use mathlib.Core.List.{append-nil}
use gwm_cli.Naming.Boundaries.{
  Segment, type_segment, issue_segment, desc_segment, segment_accepts, segment_starts,
  segment_can_start_with, witnesses, range_from, shifts_by, boundary_can_shift,
}

-- What a capture group matches.
abbrev pub IsValue : Segment → Text → Type 0
IsValue segment v = (v ≢ []) × (segment_can_start_with segment v ≡ true)

accepts_of_starts : (s : Segment) (c : ℕ) → segment_starts s c ≡ true → segment_accepts s c ≡ true
unfolding segment_starts segment_accepts
accepts_of_starts type_segment c h = h
accepts_of_starts issue_segment c h = h
accepts_of_starts desc_segment c h = ground (arith, h)

-- A character of two different segments can begin either.
starts_of_both :
    (l r : Segment) (c : ℕ)
    → l ≢ r
    → segment_accepts l c ≡ true
    → segment_accepts r c ≡ true
    → segment_starts r c ≡ true
unfolding segment_starts segment_accepts
starts_of_both l type_segment c n h k = k
starts_of_both l issue_segment c n h k = k
starts_of_both type_segment desc_segment c n h k = ground (arith, h, k)
starts_of_both issue_segment desc_segment c n h k = ground (arith, h, k)
starts_of_both desc_segment desc_segment c n h k = absurd (n refl)

-- The witnesses stand for all characters.
witness_of :
    (l r : Segment) (c : ℕ)
    → segment_accepts l c ≡ true
    → segment_starts r c ≡ true
    → any (λ d. segment_accepts l d && segment_starts r d) witnesses ≡ true
unfolding segment_starts segment_accepts
witness_of type_segment type_segment c h k = refl
witness_of type_segment issue_segment c h k = ground (arith, h, k)
witness_of type_segment desc_segment c h k = refl
witness_of issue_segment type_segment c h k = ground (arith, h, k)
witness_of issue_segment issue_segment c h k = refl
witness_of issue_segment desc_segment c h k = refl
witness_of desc_segment type_segment c h k = refl
witness_of desc_segment issue_segment c h k = refl
witness_of desc_segment desc_segment c h k = refl

all-append_left :
    (q : ℕ → Bool) (a b : Text) → all q (a ++ b) ≡ true → (all q a ≡ true) × (all q b ≡ true)
all-append_left q [] b h = (refl, h)
all-append_left q (c ∷ a) b h = ground (arith, all-append_left q a b)

all_accepted :
    (s : Segment) (v : Text) → segment_can_start_with s v ≡ true → all (segment_accepts s) v ≡ true
unfolding segment_can_start_with
all_accepted s [] h = refl
all_accepted s (c ∷ v) h = ground (arith, h, accepts_of_starts s c)

can_start_with_prefix :
    (s : Segment) (p q : Text)
    → segment_can_start_with s (p ++ q) ≡ true
    → segment_can_start_with s p ≡ true
unfolding segment_can_start_with
can_start_with_prefix s [] q h = refl
can_start_with_prefix s (c ∷ p) q h = ground (arith, h, all-append_left (segment_accepts s) p q)

any_in_range :
    (q : ℕ → Bool) (i n d : ℕ) → i ≤ d → d < i + n → q d ≡ true → any q (range_from i n) ≡ true
any_in_range q i zero d a b h = absurd (omega arith)
any_in_range q i (suc n) d a b h = elim (Bool-cases (i == d)) [
  | inl e ↦ let same : i ≡ d = ground (arith, e) in rw same (ground (arith, h))
  | inr e ↦ ground (arith, any_in_range q (suc i) n d (ground (arith, e)) (omega arith) h)
]

-- Of two texts that begin a text one begins the other.
data Overlap (a b c d : Text) : Type 0 where
  longer : (x : Text) → c ≡ a ++ x → b ≡ x ++ d → Overlap a b c d
  shorter : (x : Text) → a ≡ c ++ x → d ≡ x ++ b → Overlap a b c d

Overlap-cons : {a b c d : Text} (k : ℕ) → Overlap a b c d → Overlap (k ∷ a) b (k ∷ c) d
Overlap-cons k (longer x p q) = longer x (ap (◌∷◌ k) p) q
Overlap-cons k (shorter x p q) = shorter x (ap (◌∷◌ k) p) q

overlap : (a b c d : Text) → a ++ b ≡ c ++ d → Overlap a b c d
overlap [] b c d h = longer c refl h
overlap (k ∷ a) b [] d h = shorter (k ∷ a) refl (sym h)
overlap (k ∷ a) b (m ∷ c) d h =
    let same : k ≡ m = cc in
    subst (λ z. Overlap (k ∷ a) b (z ∷ c) d) same (Overlap-cons k (overlap a b c d (cc)))

take-append_length : (a b : Text) → take (length a) (a ++ b) ≡ a
take-append_length [] b = refl
take-append_length (c ∷ a) b = ap (◌∷◌ c) (take-append_length a b)

drop-append_length : (a b : Text) → drop (length a) (a ++ b) ≡ b
drop-append_length [] b = refl
drop-append_length (c ∷ a) b = drop-append_length a b

-- The shorter of two texts that begin a text is a slice of the longer.
slice :
    (a b c d : Text)
    → length c ≤ length a
    → a ++ b ≡ c ++ d
    → (take (length c) a ≡ c) × (d ≡ drop (length c) a ++ b)
slice a b [] d n h = (refl, sym h)
slice [] b (m ∷ c) d n h = elim n [ ]
slice (k ∷ a) b (m ∷ c) d n h = let (p, q) = slice a b c d (omega arith) (cc) in (cc p, q)

length-pos : (x : Text) → x ≢ [] → 1 ≤ length x
length-pos [] h = absurd (h refl)
length-pos (c ∷ x) h = omega arith

drop_same : (a b c : Text) → a ++ b ≡ a ++ c → b ≡ c
drop_same [] b c h = h
drop_same (k ∷ a) b c h = drop_same a b c (cc)

nil_of_is_empty : (a : Text) → is_empty a ≡ true → a ≡ []
nil_of_is_empty [] h = refl
nil_of_is_empty (c ∷ a) h = cc

filled_of_is_empty : (a : Text) → is_empty a ≡ false → a ≢ []
filled_of_is_empty [] h = cc
filled_of_is_empty (c ∷ a) h = cc

module _ (left right : Segment) (differ : left ≢ right) (sep : Text) where
  can_start_with_both :
      (v : Text)
      → all (segment_accepts left) v ≡ true
      → all (segment_accepts right) v ≡ true
      → segment_can_start_with right v ≡ true
  unfolding segment_can_start_with
  can_start_with_both [] h k = refl
  can_start_with_both (c ∷ v) h k = ground (arith, h, k, starts_of_both left right c differ)

  -- The split moved by a part of the separator.
  shifted_within :
      (x y r r' : Text)
      → x ≢ []
      → all (segment_accepts left) x ≡ true
      → segment_can_start_with right r ≡ true
      → sep ≡ x ++ y
      → sep ++ r' ≡ y ++ r
      → shifts_by left sep right (length x) ≡ true
  unfolding shifts_by
  shifted_within x y r r' ne hx hr e k =
      let n : length sep ≡ length x + length y = ap length e ∙ length-append {0} x y in
      let len : length sep - length x ≡ length y = omega (arith, n) in
      let front : take (length x) sep ≡ x = ap (take (length x)) e ∙ take-append_length x y in
      let back : drop (length x) sep ≡ y = ap (drop (length x)) e ∙ drop-append_length x y in
      let (same, rest) = slice sep r' y r (omega (arith, n)) k in
      let starts : segment_can_start_with right (drop (length y) sep) ≡ true =
        can_start_with_prefix right (drop (length y) sep) r'
          (subst (λ z. segment_can_start_with right z ≡ true) rest hr) in
      rw (front, back, len, same, hx, text_eq_refl y, starts) refl

  shifted_past :
      (y r r' : Text)
      → sep ≢ []
      → all (segment_accepts left) sep ≡ true
      → segment_can_start_with right r ≡ true
      → r ≡ y ++ (sep ++ r')
      → shifts_by left sep right (length sep) ≡ true
  unfolding shifts_by text_eq
  shifted_past y r r' ne hs hr e =
      let whole : all (segment_accepts right) (y ++ (sep ++ r')) ≡ true =
        subst (λ z. all (segment_accepts right) z ≡ true) e (all_accepted right r hr) in
      let fits =
        (all-append_left (segment_accepts right) sep r'
          (all-append_left (segment_accepts right) y (sep ++ r') whole).1).0 in
      let front : take (length sep) sep ≡ sep =
        sym (ap (take (length sep)) (append-nil sep)) ∙ take-append_length sep [] in
      let back : drop (length sep) sep ≡ [] =
        sym (ap (drop (length sep)) (append-nil sep)) ∙ drop-append_length sep [] in
      let none_left : length sep - length sep ≡ 0 = omega arith in
      rw (none_left, front, back, hs, can_start_with_both sep hs fits) refl

  shifted_adjacent :
      (x r r' : Text)
      → x ≢ []
      → all (segment_accepts left) x ≡ true
      → segment_can_start_with right r ≡ true
      → r ≡ x ++ r'
      → any (λ d. segment_accepts left d && segment_starts right d) witnesses ≡ true
  unfolding segment_can_start_with
  shifted_adjacent [] r r' ne hx hr e = absurd (ne refl)
  shifted_adjacent (c ∷ x) r r' ne hx hr e =
      let first : segment_can_start_with right (c ∷ (x ++ r')) ≡ true =
        subst (λ z. segment_can_start_with right z ≡ true) e hr in
      witness_of left right c (ground (arith, hx)) (ground (arith, first))

  inside :
      (x r r' : Text)
      → sep ≢ []
      → x ≢ []
      → all (segment_accepts left) x ≡ true
      → segment_can_start_with right r ≡ true
      → Overlap sep r x (sep ++ r')
      → any (shifts_by left sep right) (range_from 1 (length sep)) ≡ true
  inside x r r' filled ne hx hr (longer y e k) =
      any_in_range (shifts_by left sep right) 1 (length sep) (length sep) (length-pos sep filled)
        (omega arith)
        (shifted_past y r r' filled
          (all-append_left (segment_accepts left) sep y
            (subst (λ z. all (segment_accepts left) z ≡ true) e hx)).0
          hr k)
  inside x r r' filled ne hx hr (shorter y e k) =
      any_in_range (shifts_by left sep right) 1 (length sep) (length x) (length-pos x ne)
        (omega (arith, ap length e, length-append {0} x y)) (shifted_within x y r r' ne hx hr e k)

  -- A left value that reaches further, with the separator behind it, betrays a shift.
  shifted :
      (x r r' : Text)
      → x ≢ []
      → all (segment_accepts left) x ≡ true
      → segment_can_start_with right r ≡ true
      → sep ++ r ≡ x ++ (sep ++ r')
      → boundary_can_shift left sep right ≡ true
  unfolding boundary_can_shift
  shifted x r r' ne hx hr k = elim (Bool-cases (is_empty sep)) [
    | inl e ↦
        let nil = nil_of_is_empty sep e in
        rw e (shifted_adjacent x r r' ne hx hr (subst (λ z. z ++ r ≡ x ++ (z ++ r')) nil k))
    | inr e ↦
        rw e (inside x r r' (filled_of_is_empty sep e) ne hx hr (overlap sep r x (sep ++ r') k))
  ]

  read_one_way :
      (l r l' r' : Text)
      → boundary_can_shift left sep right ≡ false
      → IsValue left l
      → IsValue left l'
      → IsValue right r
      → IsValue right r'
      → Overlap l (sep ++ r) l' (sep ++ r')
      → (l ≡ l') × (r ≡ r')
  read_one_way l r l' r' fixed vl vl' vr vr' (longer [] e k) =
      (sym (e ∙ append-nil l), drop_same sep r r' k)
  read_one_way l r l' r' fixed vl vl' vr vr' (shorter [] e k) =
      (e ∙ append-nil l', sym (drop_same sep r' r k))
  read_one_way l r l' r' fixed vl vl' vr vr' (longer (c ∷ x) e k) = cc (
      shifted (c ∷ x) r r' (cc)
        (all-append_left (segment_accepts left) l (c ∷ x)
          (subst (λ z. all (segment_accepts left) z ≡ true) e (all_accepted left l' vl'.1))).1
        vr.1 k)
  read_one_way l r l' r' fixed vl vl' vr vr' (shorter (c ∷ x) e k) = cc (
      shifted (c ∷ x) r' r (cc)
        (all-append_left (segment_accepts left) l' (c ∷ x)
          (subst (λ z. all (segment_accepts left) z ≡ true) e (all_accepted left l vl.1))).1
        vr'.1 k)

-- Two different segments with a separator whose boundary cannot shift: if two pairs of their values
-- give the same name, they are the same pair. A digit is an ASCII digit.
pub boundary_can_shift_unique :
    (left right : Segment) (sep l r l' r' : Text)
    → left ≢ right
    → boundary_can_shift left sep right ≡ false
    → IsValue left l
    → IsValue left l'
    → IsValue right r
    → IsValue right r'
    → l ++ (sep ++ r) ≡ l' ++ (sep ++ r')
    → (l ≡ l') × (r ≡ r')
boundary_can_shift_unique left right sep l r l' r' differ fixed vl vl' vr vr' k =
    read_one_way left right differ sep l r l' r' fixed vl vl' vr vr'
      (overlap l (sep ++ r) l' (sep ++ r') k)
