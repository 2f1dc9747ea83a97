-- ===== src/Base/Tests.antt =====
-- Boolean tests on the native numbers, the conditional, and the splits on computed values.
use Prim.Native.Nat.{ℕ, ◌≤◌, ◌<◌, compare, Ordering}
use mathlib.Core.Path.{◌≡◌, refl}
use mathlib.Core.Logic.{◌↔◌, ◌⊎◌, inl, inr}
use mathlib.Core.Bool.{Bool, true, false, ◌&&◌}
use mathlib.Core.Option.{Option, none, some}
use mathlib.Core.List.{List, [], ◌∷◌}
use native.Mathlib.Omega.{arith}

abbrev pub ltb : ℕ → ℕ → Bool
ltb a b = elim (compare a b) [ Ordering.lt ↦ true | _ ↦ false ]

abbrev pub leb : ℕ → ℕ → Bool
leb a b = elim (compare a b) [ Ordering.gt ↦ false | _ ↦ true ]

infix 50 ◌==◌
abbrev pub ◌==◌ : ℕ → ℕ → Bool
a == b = elim (compare a b) [ Ordering.eq ↦ true | _ ↦ false ]

infix 1 if◌then◌else◌
abbrev pub if◌then◌else◌ {ℓ} : {A : Type ℓ} → Bool → A → A → A
if true then x else y = x
if false then x else y = y

pub ==_iff : (a b : ℕ) → ((a == b) ≡ true) ↔ (a ≡ b)
==_iff a b = ground arith

pub ==_refl : (a : ℕ) → (a == a) ≡ true
==_refl a = ground arith

pub leb→le : (a b : ℕ) → leb a b ≡ true → a ≤ b
leb→le a b h = ground arith

pub ltb→lt : (a b : ℕ) → ltb a b ≡ true → a < b
ltb→lt a b h = ground arith

pub Bool-cases : (b : Bool) → (b ≡ true) ⊎ (b ≡ false)
Bool-cases true = inl refl
Bool-cases false = inr refl

pub Option-cases {ℓ} : {A : Type ℓ} (o : Option A) → (o ≡ none) ⊎ ((a : A) × (o ≡ some a))
Option-cases none = inl refl
Option-cases (some a) = inr (a, refl)

-- Texts are lists of Unicode scalar values.
abbrev pub Text : Type 0
Text = List ℕ

-- Equality of two texts, as the source's `==`.
unfoldable pub text_eq : Text → Text → Bool
text_eq [] [] = true
text_eq (x ∷ xs) (y ∷ ys) = x == y && text_eq xs ys
text_eq _ _ = false

pub text_eq_iff : (a b : Text) → (text_eq a b ≡ true) ↔ (a ≡ b)
unfolding text_eq
text_eq_iff (x ∷ a) (y ∷ b) = ground (arith, text_eq_iff a b)
text_eq_iff _ _ = ground arith

pub text_eq_refl : (a : Text) → text_eq a a ≡ true
text_eq_refl a = (text_eq_iff a a).1 refl

-- What holds of both branches holds of the conditional. `Holds` keeps the value in sight where
-- `P` computes.
pub record Holds {ℓ} {A : Type ℓ} (P : A → Type 0) (a : A) : Type 0 where
  pub proof : P a

module _ {ℓ} {A : Type ℓ} (P : A → Type 0) where
  pub if_both : (b : Bool) (x y : A) → P x → P y → P (if b then x else y)
  if_both true x y h k = h
  if_both false x y h k = k

  pub if_Holds : (b : Bool) (x y : A) → P x → Holds P y → Holds P (if b then x else y)
  if_Holds true x y h k = record { proof = h }
  if_Holds false x y h k = k

-- The equality test of a type with decidable equality.
unfoldable pub is_discrete_eq {ℓ} : {A : Type ℓ} → Discrete A → A → A → Bool
is_discrete_eq d a b = elim (d a b) [ yes _ ↦ true | no _ ↦ false ]

pub is_discrete_eq_iff {ℓ} :
    {A : Type ℓ} (d : Discrete A) (a b : A) → (is_discrete_eq d a b ≡ true) ↔ (a ≡ b)
unfolding is_discrete_eq
is_discrete_eq_iff d a b =
    elim (d a b)
      as (λ t. (elim t as (λ _. Bool) [ yes _ ↦ true | no _ ↦ false ] ≡ true) ↔ (a ≡ b)) [
        | yes p ↦ (λ _. p, λ _. refl)
        | no n ↦ (λ h. cc, λ e. absurd (n e))
      ]
