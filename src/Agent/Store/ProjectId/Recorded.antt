-- ===== src/Agent/Store/ProjectId/Recorded.antt =====
-- The project ids that the files of the index record.
use kubimo.Common.{
  ℕ, ◌+◌, ◌≤◌, ◌<◌, ◌≡◌, refl, ◌⊎◌, inl, inr, Option, none, some, List, [], ◌∷◌, arith, leb,
  Bool-cases,
}
use kubimo.Common.Text.{Text, same_text, codes_partial_eq}
use kubimo.Agent.Volume.{File, put_file}
use kubimo.Agent.Store.Names.{counter_path}
use kubimo.Agent.Store.ProjectId.{recorded_id, larger, highest_issued_project_id}

abbrev pub Below : ℕ → Option ℕ → Type 0
Below limit none = Unit
Below limit (some n) = n < limit

-- Every id that a `projid-` file records is below the limit.
abbrev pub AllBelow : ℕ → List (Text × File) → Type 0
AllBelow limit [] = Unit
AllBelow limit (f ∷ fs) = Below limit (recorded_id f) × AllBelow limit fs

Below-le : (o : Option ℕ) (a c : ℕ) → a ≤ c → Below a o → Below c o
Below-le none a c h b = tt
Below-le (some n) a c h b = omega (arith, h, b)

pub AllBelow-le : (fs : List (Text × File)) (a c : ℕ) → a ≤ c → AllBelow a fs → AllBelow c fs
AllBelow-le [] a c h b = tt
AllBelow-le (f ∷ fs) a c h (x, b) = (Below-le (recorded_id f) a c h x, AllBelow-le fs a c h b)

-- The counter is no `projid-` file.
pub AllBelow-put :
    (limit : ℕ) (f : File) (fs : List (Text × File))
    → AllBelow limit fs
    → AllBelow limit (put_file counter_path f fs)
unfolding recorded_id
AllBelow-put limit f [] b = (tt, tt)
AllBelow-put limit f ((name, g) ∷ fs) (x, b) = elim (Bool-cases (same_text name counter_path)) [
  | inl e ↦ rw e (tt, b)
  | inr e ↦ rw e (x, AllBelow-put limit f fs b)
]

highest-next :
    (a b : Option ℕ) (l : ℕ) (fs : List (Text × File))
    → Below l a
    → ((b ≡ none) × AllBelow 0 fs) ⊎ ((m : ℕ) × (b ≡ some m) × (m < l) × AllBelow (m + 1) fs)
    → ((larger a b ≡ none) × (a ≡ none) × AllBelow 0 fs)
      ⊎ ((m : ℕ) × (larger a b ≡ some m) × (m < l) × Below (m + 1) a × AllBelow (m + 1) fs)
unfolding larger
highest-next none b l fs x (inl (e, h)) = inl (e, refl, h)
highest-next none b l fs x (inr (m, e, lt, h)) = inr (m, e, lt, tt, h)
highest-next (some n) b l fs x (inl (e, h)) =
    inr (n, rw e refl, x, omega arith, AllBelow-le fs 0 (n + 1) (omega arith) h)
highest-next (some n) b l fs x (inr (m, e, lt, h)) = elim (Bool-cases (leb n m)) [
  | inl c ↦ inr (m, rw (e, c) refl, lt, ground arith, h)
  | inr c ↦ inr (n, rw (e, c) refl, x, omega arith, AllBelow-le fs (m + 1) (n + 1) (ground arith) h)
]

pub highest_lem :
    (fs : List (Text × File)) (l : ℕ)
    → AllBelow l fs
    → ((highest_issued_project_id fs ≡ none) × AllBelow 0 fs)
      ⊎ ((m : ℕ) × (highest_issued_project_id fs ≡ some m) × (m < l) × AllBelow (m + 1) fs)
unfolding highest_issued_project_id
highest_lem [] l h = inl (refl, tt)
highest_lem (f ∷ fs) l (x, h) =
    elim (highest-next (recorded_id f) (highest_issued_project_id fs) l fs x (highest_lem fs l h)) [
      | inl (e, a, b) ↦ inl (e, rw a (tt, b))
      | inr (m, e, lt, y, b) ↦ inr (m, e, lt, (y, b))
    ]
