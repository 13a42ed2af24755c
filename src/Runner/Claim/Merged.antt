-- ===== src/Runner/Claim/Merged.antt =====
-- The flattening of the sidecars' Secrets: no key is taken from two of them.
use kubimo.Common.{
  String, true, false, ◌≡◌, ◌⊎◌, inl, inr, refl, sym, ◌∙◌, ap, Option, none, some, [], ◌∷◌, lookup,
  is_some, or, Dict, ◌==◌, text_partial_eq, Bool-cases, eq_iff,
}
use kubimo.Common.Result.{Result, ok, err}
use kubimo.Api.Meta.{Error}
use kubimo.Api.Pool.{PoolClaim}
use kubimo.Api.Runner.{Runner}
use kubimo.Runner.Eligible.{Context}
use kubimo.Runner.Claim.{merged, collision}

-- No key of the second dictionary is in the first, or in the second twice.
pub Apart : Dict String → Dict String → Type 0
Apart into [] = Unit
Apart into ((key, value) ∷ rest) = (lookup key into ≡ none) × Apart ((key, value) ∷ into) rest

-- A key that is in the first dictionary, or that comes twice in the second.
pub Shared : Dict String → Dict String → String → Type 0
Shared into [] key = ⊥
Shared into ((k, v) ∷ rest) key =
    ((k ≡ key) × (is_some (lookup k into) ≡ true)) ⊎ Shared ((k, v) ∷ into) rest key

or_none : {A : Type 0} (o : Option A) (d : Option A) → is_some o ≡ false → or o d ≡ d
or_none none d h = refl
or_none (some a) d h = cc

not-is_some : {A : Type 0} (o : Option A) → is_some o ≡ false → o ≡ none
not-is_some none h = refl
not-is_some (some a) h = cc

or_nothing : {A : Type 0} (o : Option A) → o ≡ or o none
or_nothing none = refl
or_nothing (some a) = refl

-- What a lookup finds does not depend on which of the two an entry is in.
lookup_moved :
    (k v key : String) (into rest : Dict String)
    → is_some (lookup k into) ≡ false
    → or (lookup key ((k, v) ∷ into)) (lookup key rest)
      ≡ or (lookup key into) (lookup key ((k, v) ∷ rest))
lookup_moved k v key into rest h = elim (Bool-cases (k == key)) [
  | inr e ↦ rw e refl
  | inl e ↦ rw e (
      sym (
        or_none (lookup key into) (some v)
          (ap (λ x. is_some (lookup x into)) (sym ((eq_iff k key).0 e)) ∙ h)))
]

module _ (ctx : Context) (debug : String → String) (to_json : PoolClaim → Result Error String) where
  -- Either no key is shared, and every key has its value from the one dictionary that has it; or
  -- the error names a key that is shared.
  pub merged_lem :
      (runner : Runner) (into rest : Dict String)
      → (Apart into rest
          × ((out : Dict String) × (merged ctx debug to_json runner into rest ≡ ok out)
              × ((key : String) → lookup key out ≡ or (lookup key into) (lookup key rest))))
        ⊎ ((key : String) × Shared into rest key
            × (merged ctx debug to_json runner into rest
                ≡ err (collision ctx debug to_json runner key)))
  unfolding merged Apart Shared
  merged_lem runner into [] = inl (tt, (into, refl, λ key. or_nothing (lookup key into)))
  merged_lem runner into ((k, v) ∷ rest) = elim (Bool-cases (is_some (lookup k into))) [
    | inl e ↦ inr (k, inl (refl, e), rw e refl)
    | inr e ↦ elim (merged_lem runner ((k, v) ∷ into) rest) [
      | inl (apart, (out, is, found)) ↦ inl (
        (not-is_some (lookup k into) e, apart),
        (out, rw e is, λ key. found key ∙ lookup_moved k v key into rest e),
      )
      | inr (key, shared, is) ↦ inr (key, inr shared, rw e is)
    ]
  ]
