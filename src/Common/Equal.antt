-- ===== src/Common/Equal.antt =====
-- The derived equality and order of Rust's options, pairs, lists and texts.
use Prim.Native.String.{String}
use mathlib.Core.Path.{◌≡◌, refl, ap}
use mathlib.Core.Logic.{◌↔◌}
use mathlib.Core.Bool.{Bool, true, false, ◌&&◌}
use mathlib.Core.Option.{Option, none, some}
use mathlib.Core.List.{List, [], ◌∷◌}
use native.Mathlib.Omega.{arith}
use kubimo.Common.Tests.{PartialEq, ◌==◌, ltb, number_partial_eq, if◌then◌else◌}
use kubimo.Common.Text.{Text, codes}

module _ {A : Type 0} ⦃p : PartialEq A⦄ where
  abbrev pub same_option : Option A → Option A → Bool
  same_option none none = true
  same_option (some a) (some b) = a == b
  same_option _ _ = false

  abbrev pub same_list : List A → List A → Bool
  same_list [] [] = true
  same_list (a ∷ xs) (b ∷ ys) = (a == b) && same_list xs ys
  same_list _ _ = false

  pub same_option_iff : (x y : Option A) → (same_option x y ≡ true) ↔ (x ≡ y)
  same_option_iff none none = (λ _. refl, λ _. refl)
  same_option_iff none (some b) = (λ h. cc, λ h. cc)
  same_option_iff (some a) none = (λ h. cc, λ h. cc)
  same_option_iff (some a) (some b) =
      (λ h. ap some ((p.same_iff a b).0 h), λ h. (p.same_iff a b).1 cc)

  pub same_list_iff : (x y : List A) → (same_list x y ≡ true) ↔ (x ≡ y)
  same_list_iff [] [] = (λ _. refl, λ _. refl)
  same_list_iff [] (b ∷ ys) = (λ h. cc, λ h. cc)
  same_list_iff (a ∷ xs) [] = (λ h. cc, λ h. cc)
  same_list_iff (a ∷ xs) (b ∷ ys) = ground (arith, p.same_iff a b, same_list_iff xs ys)

  instance abbrev pub option_partial_eq : PartialEq (Option A)
  option_partial_eq = record { same = same_option; same_iff = same_option_iff }

  instance abbrev pub list_partial_eq : PartialEq (List A)
  list_partial_eq = record { same = same_list; same_iff = same_list_iff }

module _ {A B : Type 0} ⦃p : PartialEq A⦄ ⦃q : PartialEq B⦄ where
  abbrev pub same_pair : A × B → A × B → Bool
  same_pair (a, b) (c, d) = (a == c) && (b == d)

  pub same_pair_iff : (x y : A × B) → (same_pair x y ≡ true) ↔ (x ≡ y)
  same_pair_iff (a, b) (c, d) = ground (arith, p.same_iff a c, q.same_iff b d)

  instance abbrev pub pair_partial_eq : PartialEq (A × B)
  pair_partial_eq = record { same = same_pair; same_iff = same_pair_iff }

-- The order of texts is that of their code points; none is first.
abbrev pub le_codes : Text → Text → Bool
le_codes [] _ = true
le_codes (_ ∷ _) [] = false
le_codes (a ∷ s) (b ∷ t) = let rest = le_codes s t in if ltb a b then true else (a == b) && rest

abbrev pub le_text : String → String → Bool
le_text s t = le_codes (codes s) (codes t)

abbrev pub le_option {ℓ} : {A : Type ℓ} → (A → A → Bool) → Option A → Option A → Bool
le_option le none _ = true
le_option le (some _) none = false
le_option le (some a) (some b) = le a b

-- Pairs by the first part, and by the second where the first parts are the same.
abbrev pub le_pair {ℓ} : {A B : Type ℓ} → (A → A → Bool) → (B → B → Bool) → A × B → A × B → Bool
le_pair le le' (a, b) (c, d) = if le a c then (if le c a then le' b d else true) else false
