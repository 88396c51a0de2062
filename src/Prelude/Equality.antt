-- ===== src/Prelude/Equality.antt =====
-- Equality tests as an interface: Go's `==` on numbers, strings and texts.
use Prim.Native.Nat.{ℕ}
use Prim.Native.String.{String}
use mathlib.Core.Path.{◌≡◌, refl}
use mathlib.Core.Logic.{◌↔◌}
use mathlib.Core.Bool.{Bool, true, false, ◌&&◌}
use mathlib.Core.List.{List, [], ◌∷◌}
use mathlib.Core.Option.{Option, none, some}
use native.Mathlib.Omega.{arith}
use text.Mathlib.Text.{◌==◌ as str_eq}
use text.Mathlib.TextEquality.{eq_iff}
use mathlib.Core.Bool.{decide, decide_iff, false≢true}
use mathlib.Core.Path.{sym, ◌∙◌}
use mathlib.Core.Logic.{inl, inr}
use arandu_whatsapp.Prelude.Tests.{nat_eq, nat_eq_iff, Bool-cases}

pub record Eq {ℓ} (A : Type ℓ) : Type ℓ where
  pub test : A → A → Bool
  pub test_iff : (x y : A) → (test x y ≡ true) ↔ (x ≡ y)

instance abbrev pub String-eq : Eq String
String-eq = record { test = str_eq; test_iff = eq_iff }

instance abbrev pub ℕ-eq : Eq ℕ
ℕ-eq = record { test = nat_eq; test_iff = nat_eq_iff }

module _ {ℓ} {A : Type ℓ} ⦃compare : Eq A⦄ where
  infix 50 ◌==◌
  abbrev pub ◌==◌ : A → A → Bool
  ◌==◌ x y = compare.test x y

  pub ==_iff : (x y : A) → ((x == y) ≡ true) ↔ (x ≡ y)
  ==_iff x y = compare.test_iff x y

  pub ==_refl : (x : A) → (x == x) ≡ true
  ==_refl x = (==_iff x x).1 refl

-- The comparison of two texts, element by element.
unfoldable pub list_eq {ℓ} : {A : Type ℓ} ⦃e : Eq A⦄ → List A → List A → Bool
list_eq [] [] = true
list_eq (x ∷ xs) (y ∷ ys) = x == y && list_eq xs ys
list_eq [] (y ∷ ys) = false
list_eq (x ∷ xs) [] = false

pub list_eq_iff {ℓ} : {A : Type ℓ} ⦃e : Eq A⦄ (a b : List A) → (list_eq a b ≡ true) ↔ (a ≡ b)
unfolding list_eq
list_eq_iff [] [] = ground arith
list_eq_iff ⦃e⦄ (x ∷ xs) (y ∷ ys) = ground (arith, e.test_iff x y, list_eq_iff xs ys)
list_eq_iff [] (y ∷ ys) = ground arith
list_eq_iff (x ∷ xs) [] = ground arith

instance abbrev pub List-eq {ℓ} : {A : Type ℓ} ⦃e : Eq A⦄ → Eq (List A)
List-eq = record { test = list_eq; test_iff = list_eq_iff }

unfoldable pub String-discrete : Discrete String
String-discrete a b = elim (Bool-cases (str_eq a b)) [
  | inl e ↦ yes ((eq_iff a b).0 e)
  | inr e ↦ no (λ p. false≢true (sym e ∙ (eq_iff a b).1 p))
]

-- The test of a type whose equality is decidable.
abbrev pub eq_of_discrete {ℓ} : {A : Type ℓ} → Discrete A → Eq A
eq_of_discrete d = record { test = λ a b. decide (d a b); test_iff = λ a b. decide_iff (d a b) }

-- The comparison of a column that may be NULL with a value, as in `column = ?`.
abbrev pub option_eq {ℓ} : {A : Type ℓ} ⦃e : Eq A⦄ → Option A → Option A → Bool
option_eq none none = true
option_eq (some a) (some b) = a == b
option_eq _ _ = false

pub option_eq_iff {ℓ} : {A : Type ℓ} ⦃e : Eq A⦄ (a b : Option A) → (option_eq a b ≡ true) ↔ (a ≡ b)
option_eq_iff none none = ground arith
option_eq_iff ⦃e⦄ (some a) (some b) = ground (arith, e.test_iff a b)
option_eq_iff none (some b) = ground arith
option_eq_iff (some a) none = ground arith

instance abbrev pub Option-eq {ℓ} : {A : Type ℓ} ⦃e : Eq A⦄ → Eq (Option A)
Option-eq = record { test = option_eq; test_iff = option_eq_iff }
