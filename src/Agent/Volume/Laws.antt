-- ===== src/Agent/Volume/Laws.antt =====
-- What the operations on the volume do when they succeed.
use kubimo.Common.{
  ◌≡◌, ◌⊎◌, refl, sym, ap, ◌∙◌, Bool, true, false, none, some, List, [], ◌∷◌, String, Bool-cases,
  inl, inr,
}
use kubimo.Common.Result.{Result, ok, err}
use kubimo.Common.Text.{Text, codes_partial_eq, same_text, same_text_iff}
use kubimo.Agent.Volume.{
  File, Volume, Store, StoreError, get_file, put_file, drop_file, attempt, attempt_with, continue,
  read_opt, read_file, read_content, ◌>>=◌,
}

pub get-put_same :
    (name : Text) (f : File) (fs : List (Text × File)) → get_file name (put_file name f fs) ≡ some f
get-put_same name f [] = rw ((same_text_iff name name).1 refl)
get-put_same name f ((other, g) ∷ fs) = elim (Bool-cases (same_text other name)) [
  | inl e ↦ rw (e, (same_text_iff name name).1 refl)
  | inr e ↦ rw (e, e, get-put_same name f fs)
]

pub get-put_other :
    (name other : Text) (f : File) (fs : List (Text × File))
    → same_text name other ≡ false
    → get_file other (put_file name f fs) ≡ get_file other fs
get-put_other name other f [] h = rw h
get-put_other name other f ((third, g) ∷ fs) h = elim (Bool-cases (same_text third name)) [
  | inl e ↦
      let same = (same_text_iff third name).0 e in
      let not_third : same_text third other ≡ false = rw same h in rw (e, h, not_third)
  | inr e ↦ rw (e, get-put_other name other f fs h)
]

continue_parts :
    {A B : Type 0} (r : Result StoreError A) (f : A → Store B) (v w : Volume) (b : B)
    → continue r f v ≡ (ok b, w)
    → (a : A) × (r ≡ ok a) × (f a v ≡ (ok b, w))
continue_parts (ok a) f v w b h = (a, refl, h)
continue_parts (err e) f v w b h = absurd (cc (ap (λ p. p.0) h))

-- The parts of a run that succeeds.
pub bind_parts :
    {A B : Type 0} (m : Store A) (f : A → Store B) (v w : Volume) (b : B)
    → (m >>= f) v ≡ (ok b, w)
    → (a : A) × ((m v).0 ≡ ok a) × (f a (m v).1 ≡ (ok b, w))
bind_parts m f v w b h = continue_parts ((m v).0) f ((m v).1) w b h

pub bind-ok :
    {A B : Type 0} (m : Store A) (f : A → Store B) (v w : Volume) (a : A)
    → m v ≡ (ok a, w)
    → (m >>= f) v ≡ f a w
bind-ok m f v w a h = ap (λ p. continue p.0 f p.1) h

attempt_with-ok :
    (faults : List Bool) (context : String) (change : Volume → Volume) (v w : Volume)
    → attempt_with faults context change v ≡ (ok tt, w)
    → (w.files ≡ (change v).files) × (w.slots ≡ (change v).slots)
attempt_with-ok [] context change v w h =
    let same : change v ≡ w = ap (λ p. p.1) h in
    (ap (λ x. x.files) (sym same), ap (λ x. x.slots) (sym same))
attempt_with-ok (false ∷ rest) context change v w h =
    let same : record (change v) { faults = rest } ≡ w = ap (λ p. p.1) h in
    (ap (λ x. x.files) (sym same), ap (λ x. x.slots) (sym same))
attempt_with-ok (true ∷ rest) context change v w h = absurd (cc (ap (λ p. p.0) h))

-- A change that succeeds is made.
pub attempt-ok :
    (context : String) (change : Volume → Volume) (v w : Volume)
    → attempt context change v ≡ (ok tt, w)
    → (w.files ≡ (change v).files) × (w.slots ≡ (change v).slots)
unfolding attempt
attempt-ok context change v w h = attempt_with-ok v.faults context change v w h

pub read_opt-some :
    (context : String) (name : Text) (v : Volume) (f : File) (text : Text)
    → get_file name v.files ≡ some f
    → f.content ≡ some text
    → read_opt context name v ≡ (ok (some text), v)
unfolding read_opt read_file read_content
read_opt-some context name v f text g c =
    ap (λ o. (read_file context o, v)) g ∙ ap (λ t. (read_content context t, v)) c

-- A store operation that only reads.
abbrev pub Quiet : {A : Type 0} → Store A → Type 0
Quiet m = (v : Volume) → (m v).1 ≡ v

continue-Quiet :
    {A B : Type 0} (r : Result StoreError A) (f : A → Store B)
    → ((a : A) → Quiet (f a))
    → (v : Volume) → (continue r f v).1 ≡ v
continue-Quiet (ok a) f r v = r a v
continue-Quiet (err e) f r v = refl

pub bind-Quiet :
    {A B : Type 0} (m : Store A) (f : A → Store B)
    → Quiet m
    → ((a : A) → Quiet (f a))
    → Quiet (m >>= f)
bind-Quiet m f q r v = continue-Quiet ((m v).0) f r ((m v).1) ∙ q v

pub get-drop_same :
    (name : Text) (fs : List (Text × File)) → get_file name (drop_file name fs) ≡ none
get-drop_same name [] = refl
get-drop_same name ((other, g) ∷ fs) = elim (Bool-cases (same_text other name)) [
  | inl e ↦ rw e (get-drop_same name fs)
  | inr e ↦ rw (e, e) (get-drop_same name fs)
]

pub get-drop_other :
    (name other : Text) (fs : List (Text × File))
    → same_text name other ≡ false
    → get_file other (drop_file name fs) ≡ get_file other fs
get-drop_other name other [] h = refl
get-drop_other name other ((third, g) ∷ fs) h = elim (Bool-cases (same_text third name)) [
  | inl e ↦
      let same = (same_text_iff third name).0 e in
      let not_third : same_text third other ≡ false = rw same h in
      rw (e, not_third) (get-drop_other name other fs h)
  | inr e ↦ rw (e, get-drop_other name other fs h)
]

-- A change that is tried is made, or nothing but a fault is used up.
attempt_with-cases :
    (faults : List Bool) (context : String) (change : Volume → Volume) (v : Volume)
    → (((attempt_with faults context change v).1.files ≡ (change v).files)
        × ((attempt_with faults context change v).1.slots ≡ (change v).slots))
      ⊎ (((attempt_with faults context change v).1.files ≡ v.files)
          × ((attempt_with faults context change v).1.slots ≡ v.slots))
attempt_with-cases [] context change v = inl (refl, refl)
attempt_with-cases (false ∷ rest) context change v = inl (refl, refl)
attempt_with-cases (true ∷ rest) context change v = inr (refl, refl)

pub attempt-cases :
    (context : String) (change : Volume → Volume) (v : Volume)
    → (((attempt context change v).1.files ≡ (change v).files)
        × ((attempt context change v).1.slots ≡ (change v).slots))
      ⊎ (((attempt context change v).1.files ≡ v.files)
          × ((attempt context change v).1.slots ≡ v.slots))
unfolding attempt
attempt-cases context change v = attempt_with-cases v.faults context change v
