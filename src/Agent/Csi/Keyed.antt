-- ===== src/Agent/Csi/Keyed.antt =====
-- Maps with text keys, as the plugin keeps them by workspace.
use kubimo.Common.{
  false, ◌≡◌, refl, ap, ◌∙◌, Option, none, some, List, [], ◌∷◌, ◌==◌, if◌then◌else◌, Bool-cases,
  inl, inr,
}
use kubimo.Common.Text.{Text, codes_partial_eq, same_text, same_text_iff}

module _ {ℓ} {V : Type ℓ} where
  abbrev pub get : Text → List (Text × V) → Option V
  get key [] = none
  get key ((other, v) ∷ rest) = if other == key then some v else get key rest

  abbrev pub remove : Text → List (Text × V) → List (Text × V)
  remove key [] = []
  remove key ((other, v) ∷ rest) =
      let kept = remove key rest in if other == key then kept else (other, v) ∷ kept

  -- `HashMap::insert`
  abbrev pub insert : Text → V → List (Text × V) → List (Text × V)
  insert key v entries = (key, v) ∷ remove key entries

  pub get-insert_same :
      (key : Text) (v : V) (entries : List (Text × V)) → get key (insert key v entries) ≡ some v
  get-insert_same key v entries = rw ((same_text_iff key key).1 refl)

  pub get-remove_same :
      (key : Text) (entries : List (Text × V)) → get key (remove key entries) ≡ none
  get-remove_same key [] = refl
  get-remove_same key ((other, v) ∷ rest) = elim (Bool-cases (same_text other key)) [
    | inl e ↦ rw e (get-remove_same key rest)
    | inr e ↦ rw (e, e) (get-remove_same key rest)
  ]

  pub get-remove_other :
      (key other : Text) (entries : List (Text × V))
      → same_text key other ≡ false
      → get other (remove key entries) ≡ get other entries
  get-remove_other key other [] n = refl
  get-remove_other key other ((k, v) ∷ rest) n = elim (Bool-cases (same_text k key)) [
    | inl e ↦
        rw (e, ap (λ t. same_text t other) ((same_text_iff k key).0 e) ∙ n)
          (get-remove_other key other rest n)
    | inr e ↦ rw (e, get-remove_other key other rest n) refl
  ]

  pub get-insert_other :
      (key other : Text) (v : V) (entries : List (Text × V))
      → same_text key other ≡ false
      → get other (insert key v entries) ≡ get other entries
  get-insert_other key other v entries n = rw n (get-remove_other key other entries n)
