-- ===== src/Common/Tests.antt =====
-- Boolean tests on numbers and texts, the conditional, and the case lemmas to split on them.
use Prim.Native.Nat.{ℕ, compare, Ordering}
use Prim.Native.String.{String}
use mathlib.Core.Path.{◌≡◌, refl}
use mathlib.Core.Logic.{◌↔◌, ◌⊎◌, inl, inr}
use mathlib.Core.Bool.{Bool, true, false, false≢true, decide, decide_iff}
use mathlib.Core.Option.{Option, none, some}
use native.Mathlib.Omega.{arith}
use text.Mathlib.Text.{◌==◌ as str_eq}
use text.Mathlib.TextEquality.{eq_iff}

abbrev pub ltb : ℕ → ℕ → Bool
ltb a b = elim (compare a b) [ Ordering.lt ↦ true | _ ↦ false ]

abbrev pub leb : ℕ → ℕ → Bool
leb a b = elim (compare a b) [ Ordering.gt ↦ false | _ ↦ true ]

infix 1 if◌then◌else◌
abbrev pub if◌then◌else◌ {ℓ} : {A : Type ℓ} → Bool → A → A → A
if true then x else y = x
if false then x else y = y

-- Rust's `PartialEq`, for the types that the program compares.
pub record PartialEq {ℓ} (T : Type ℓ) : Type ℓ where
  pub same : T → T → Bool
  pub same_iff : (x y : T) → (same x y ≡ true) ↔ (x ≡ y)

infix 50 ◌==◌
abbrev pub ◌==◌ {ℓ} : {T : Type ℓ} ⦃p : PartialEq T⦄ → T → T → Bool
◌==◌ ⦃p⦄ x y = p.same x y

instance abbrev pub text_partial_eq : PartialEq String
text_partial_eq = record { same = str_eq; same_iff = eq_iff }

abbrev pub same_number : ℕ → ℕ → Bool
same_number m n = elim (compare m n) [ Ordering.eq ↦ true | _ ↦ false ]

pub same_number_iff : (m n : ℕ) → (same_number m n ≡ true) ↔ (m ≡ n)
same_number_iff m n = ground arith

instance abbrev pub number_partial_eq : PartialEq ℕ
number_partial_eq = record { same = same_number; same_iff = same_number_iff }

abbrev pub dec_of_beq {ℓ} : {A : Type ℓ} {a b : A} (t : Bool) → (t ≡ true) ↔ (a ≡ b) → Dec (a ≡ b)
dec_of_beq true h = yes (h.0 refl)
dec_of_beq false h = no (λ e. false≢true (h.1 e))

abbrev pub String-discrete : Discrete String
String-discrete a b = dec_of_beq (str_eq a b) (eq_iff a b)

-- A derived `PartialEq`: the equality of the fields.
abbrev pub derived {ℓ} : {A : Type ℓ} → Discrete A → PartialEq A
derived d = record { same = λ a b. decide (d a b); same_iff = λ a b. decide_iff (d a b) }

-- To split on a computed value and keep the equation.
pub Bool-cases : (b : Bool) → (b ≡ true) ⊎ (b ≡ false)
Bool-cases true = inl refl
Bool-cases false = inr refl

pub Option-cases {ℓ} : {A : Type ℓ} (o : Option A) → (o ≡ none) ⊎ ((a : A) × (o ≡ some a))
Option-cases none = inl refl
Option-cases (some a) = inr (a, refl)
