-- ===== src/Common/Effect.antt =====
-- Handlers that call the cluster: the calls made, in order, beside the result.
use mathlib.Core.List.{List, [], ◌∷◌, ◌++◌}
use mathlib.Core.Path.{◌≡◌, refl}
use mathlib.Core.Logic.{inl, inr}
use mathlib.Core.Bool.{Bool, false}
use native.Mathlib.Omega.{arith}
use kubimo.Common.Lists.{any, any-append}
use kubimo.Common.Result.{Result, ok, err, Result-cases}

-- What a handler did: its calls stay made when a later one fails.
pub record Run {ℓ} (C E A : Type ℓ) : Type ℓ where
  pub calls : List C
  pub result : Result E A

module _ {ℓ} {C E A : Type ℓ} where
  abbrev pub pure : A → Run C E A
  pure a = record { calls = []; result = ok a }

  -- An answer that needs no call which changes anything.
  abbrev pub answer : Result E A → Run C E A
  answer r = record { calls = []; result = r }

  abbrev pub call : C → Result E A → Run C E A
  call c r = record { calls = c ∷ []; result = r }

infixl 5 ◌>>=◌ ◌>>◌
abbrev pub ◌>>=◌ {ℓ} : {C E A B : Type ℓ} → Run C E A → (A → Run C E B) → Run C E B
m >>= f = elim m.result [
  | ok a ↦ record { calls = m.calls ++ (f a).calls; result = (f a).result }
  | err e ↦ record { calls = m.calls; result = err e }
]

abbrev pub ◌>>◌ {ℓ} : {C E A B : Type ℓ} → Run C E A → Run C E B → Run C E B
m >> n = m >>= λ _. n

-- The calls of a bind are the first part's, and those of the rest if the first part succeeded.
pub calls-bind_quiet {ℓ} :
    {C E A B : Type ℓ} (p : C → Bool) (m : Run C E A) (f : A → Run C E B)
    → ((a : A) → any p (f a).calls ≡ false)
    → any p (m >>= f).calls ≡ any p m.calls
calls-bind_quiet p m f h = elim (Result-cases m.result) [
  | inl (a, e) ↦ rw e (rw (any-append p m.calls (f a).calls) (ground (arith, h a)))
  | inr (x, e) ↦ rw e
]

-- A call with nothing after it that could fail or call again is the only one.
pub calls-last {ℓ} :
    {C E A B : Type ℓ} (c : C) (r : Result E A) (b : B) → (call c r >> pure b).calls ≡ c ∷ []
calls-last c (ok a) b = refl
calls-last c (err e) b = refl
