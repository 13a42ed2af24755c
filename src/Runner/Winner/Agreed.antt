-- ===== src/Runner/Winner/Agreed.antt =====
-- The winner of a double claim is the same for all that see the same pods.
use mathlib.Core.List.{Memᴰ}
use mathlib.Core.List.Memᴰ
use Prim.Native.Char.{code}
use Prim.Native.Nat.{compare, Ordering}
use Prim.Native.String.{String}
use text.Mathlib.TextEquality.{codes_equal}
use kubimo.Common.{
  same_number_iff, ℕ, Bool, true, false, ◌≡◌, ◌⊎◌, inl, inr, refl, ap, Option, none, some, List, [],
  ◌∷◌, Bool-cases, arith, number_partial_eq,
}
use kubimo.Common.Int.{ℤ, le_int}
use kubimo.Common.Text.{Text, codes}
use kubimo.Common.Equal.{le_codes, le_text, le_option, le_pair}
use kubimo.Api.Pod.{Pod}
use kubimo.Runner.Winner.{claim_winner, least, key_of, le_key}

-- A test of "at most" that is total and transitive.
record Order {A : Type 0} (le : A → A → Bool) : Type 0 where
  total : (a b : A) → (le a b ≡ true) ⊎ (le b a ≡ true)
  trans : (a b c : A) → le a b ≡ true → le b c ≡ true → le a c ≡ true

int-Order : Order le_int
int-Order = record { total = λ a b. ground arith; trans = λ a b c p q. ground arith }

codes_total : (s t : Text) → (le_codes s t ≡ true) ⊎ (le_codes t s ≡ true)
codes_total [] t = inl refl
codes_total (a ∷ s) [] = inr refl
codes_total (a ∷ s) (b ∷ t) = ground (arith, codes_total s t)

codes_trans : (s t u : Text) → le_codes s t ≡ true → le_codes t u ≡ true → le_codes s u ≡ true
codes_trans [] t u p q = refl
codes_trans (a ∷ s) [] u p q = cc
codes_trans (a ∷ s) (b ∷ t) [] p q = cc
codes_trans (a ∷ s) (b ∷ t) (c ∷ u) p q = ground (arith, codes_trans s t u)

text-Order : Order le_text
text-Order = record {
  total = λ s t. codes_total (codes s) (codes t);
  trans = λ s t u. codes_trans (codes s) (codes t) (codes u);
}

module _ {A : Type 0} (le : A → A → Bool) (order : Order le) where
  option_total : (a b : Option A) → (le_option le a b ≡ true) ⊎ (le_option le b a ≡ true)
  option_total none b = inl refl
  option_total (some a) none = inr refl
  option_total (some a) (some b) = order.total a b

  option_trans :
      (a b c : Option A)
      → le_option le a b ≡ true
      → le_option le b c ≡ true
      → le_option le a c ≡ true
  option_trans none b c p q = refl
  option_trans (some a) none c p q = cc
  option_trans (some a) (some b) none p q = cc
  option_trans (some a) (some b) (some c) p q = order.trans a b c p q

  option-Order : Order (le_option le)
  option-Order = record { total = option_total; trans = option_trans }

module _ {A B : Type 0} (le : A → A → Bool) (le' : B → B → Bool) (order : Order le)
    (order' : Order le') where
  pair-Order : Order (le_pair le le')
  pair-Order = record {
    total = λ (a, b) (c, d). ground (arith, order.total a c, order'.total b d);
    trans = λ (a, b) (c, d) (e, f) p q.
        ground (arith, order.trans a c e, order.trans c e a, order.trans e a c, order'.trans b d f);
  }

key-Order : Order le_key
key-Order = pair-Order _ _ (option-Order le_int int-Order) (option-Order le_text text-Order)

Least : Pod → List Pod → Type 0
Least best pods =
    Memᴰ best pods × ((pod : Pod) → Memᴰ pod pods → le_key (key_of best) (key_of pod) ≡ true)

key_refl : (k : Option ℤ × Option String) → le_key k k ≡ true
key_refl k = elim (key-Order.total k k) [ inl e ↦ e | inr e ↦ e ]

Least-cons :
    (w best pod : Pod) (pods : List Pod)
    → le_key (key_of best) (key_of pod) ≡ true
    → Least w (best ∷ pods)
    → Least w (best ∷ pod ∷ pods)
unfolding Least
Least-cons w best pod pods e (mem, h) = (
  elim (Memᴰ.cases_cons mem) [ inl m ↦ Memᴰ.head m | inr m ↦ Memᴰ.tail (Memᴰ.tail m) ],
  λ x m. elim (Memᴰ.cases_cons m) [
    | inl f ↦ h x (Memᴰ.head f)
    | inr n ↦ elim (Memᴰ.cases_cons n) [
      | inl f ↦
          rw f (key-Order.trans (key_of w) (key_of best) (key_of pod) (h best (Memᴰ.head refl)) e)
      | inr n' ↦ h x (Memᴰ.tail n')
    ]
  ],
)

Least-tail :
    (w best pod : Pod) (pods : List Pod)
    → le_key (key_of pod) (key_of best) ≡ true
    → Least w (pod ∷ pods)
    → Least w (best ∷ pod ∷ pods)
unfolding Least
Least-tail w best pod pods e (mem, h) = (
  Memᴰ.tail mem,
  λ x m. elim (Memᴰ.cases_cons m) [
    | inl f ↦
        rw f (key-Order.trans (key_of w) (key_of pod) (key_of best) (h pod (Memᴰ.head refl)) e)
    | inr n ↦ h x n
  ],
)

flipped : (k k' : Option ℤ × Option String) → le_key k k' ≡ false → le_key k' k ≡ true
flipped k k' e = elim (key-Order.total k k') [ inl t ↦ cc | inr t ↦ t ]

least-Least : (best : Pod) (pods : List Pod) → Least (least best pods) (best ∷ pods)
unfolding least Least
least-Least best [] = (
  Memᴰ.head refl,
  λ x m. elim (Memᴰ.cases_cons m) [
    | inl f ↦ rw f (key_refl (key_of best))
    | inr n ↦ absurd (Memᴰ.not-nil n)
  ],
)
least-Least best (pod ∷ pods) = elim (Bool-cases (le_key (key_of best) (key_of pod))) [
  | inl e ↦ rw e (Least-cons _ best pod pods e (least-Least best pods))
  | inr e ↦
      rw e
        (Least-tail _ best pod pods (flipped (key_of best) (key_of pod) e) (least-Least pod pods))
]

compare_same : (m n : ℕ) → m ≡ n → compare m n ≡ Ordering.eq
compare_same m n e = ground arith

heads : {a b : ℕ} {s t : Text} → ◌≡◌ {A = Text} (a ∷ s) (b ∷ t) → a ≡ b
heads e = cc

tails : {a b : ℕ} {s t : Text} → ◌≡◌ {A = Text} (a ∷ s) (b ∷ t) → s ≡ t
tails e = cc

codes-codes : (s t : String) → codes s ≡ codes t → s ≡ t
codes-codes String.[] String.[] e = refl
codes-codes String.[] (String.◌∷◌ d t) e = cc
codes-codes (String.◌∷◌ c s) String.[] e = cc
codes-codes (String.◌∷◌ c s) (String.◌∷◌ d t) e =
    cc (codes_equal c d (compare_same (code c) (code d) (heads e)), codes-codes s t (tails e))

codes_antisym : (s t : Text) → le_codes s t ≡ true → le_codes t s ≡ true → s ≡ t
codes_antisym [] [] p q = refl
codes_antisym [] (b ∷ t) p q = cc
codes_antisym (a ∷ s) [] p q = cc
codes_antisym (a ∷ s) (b ∷ t) p q = ground (arith, codes_antisym s t, same_number_iff a b)

name_antisym :
    (a b : Option String) → le_option le_text a b ≡ true → le_option le_text b a ≡ true → a ≡ b
name_antisym none none p q = refl
name_antisym none (some b) p q = cc
name_antisym (some a) none p q = cc
name_antisym (some a) (some b) p q =
    ap some (codes-codes a b (codes_antisym (codes a) (codes b) p q))

key_antisym :
    (k k' : Option ℤ × Option String) → le_key k k' ≡ true → le_key k' k ≡ true → k.1 ≡ k'.1
key_antisym (a, b) (c, d) p q = ground (arith, name_antisym b d)

-- Every controller that sees the same pods of a workspace, in any order, takes the same one for
-- the winner.
pub claim_winner_agreed :
    (xs ys : List Pod)
    → ((pod : Pod) → Memᴰ pod xs → Memᴰ pod ys)
    → ((pod : Pod) → Memᴰ pod ys → Memᴰ pod xs)
    → claim_winner xs ≡ claim_winner ys
unfolding claim_winner Least key_of
claim_winner_agreed [] [] to from = refl
claim_winner_agreed [] (y ∷ ys) to from = absurd (Memᴰ.not-nil (from y (Memᴰ.head refl)))
claim_winner_agreed (x ∷ xs) [] to from = absurd (Memᴰ.not-nil (to x (Memᴰ.head refl)))
claim_winner_agreed (x ∷ xs) (y ∷ ys) to from =
    let (mx, hx) = least-Least x xs in
    let (my, hy) = least-Least y ys in
    key_antisym (key_of (least x xs)) (key_of (least y ys)) (hx _ (from _ my)) (hy _ (to _ mx))
