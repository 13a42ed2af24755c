-- ===== src/Kube/Single.antt =====
-- A server of one pod, that keeps the laws.
use mathlib.Core.List.{Memᴰ}
use mathlib.Core.List.Memᴰ
use mathlib.Core.Path.{fun_ext}
use kubimo.Common.{
  String, Bool, true, false, ◌≡◌, ◌≢◌, ◌⊎◌, refl, sym, ◌∙◌, ap, inl, inr, Option, none, some, List,
  [], ◌∷◌, all, lookup, or, ◌==◌, text_partial_eq, if◌then◌else◌, Dict, Bool-cases, eq_iff, arith,
  some-some, is_some_and_iff, &&_iff,
}
use kubimo.Common.Int.{pos}
use kubimo.Common.Result.{Result, ok, err, ok-ok}
use kubimo.Api.Meta.{Error, api}
use kubimo.Api.Budget.{has_label}
use kubimo.Api.Pod.{Pod}
use kubimo.Api.Pool.{Pool}
use kubimo.Kube.Request.{
  PatchOperation, test_label, put_label, add_label, put_owners, add_annotation, Request, get_pod,
  list_pods, patch_pod, apply_pod, delete_pod, get_secret, create_secret, apply_secret, get_pool,
  patch_pool_status, patch_runner_status, Answer, label_of,
}
use kubimo.Kube.Server.{
  Labels, Life, unborn, gone, alive, Server, Lawful, written, subject, labels_of,
}

pub data Cell : Type 0 where
  missing removed : Cell
  present : Dict String → Cell

module _ (the_name : String) (the_pool : Option Pool) where
  abbrev pub pod_with : Dict String → Pod
  pod_with labels = record {
    metadata = record {
      name = some the_name;
      uid = some "1";
      namespace = some "team";
      labels = some labels;
      annotations = none;
      creation_timestamp = none;
      deletion_timestamp = none;
      generation = none;
    };
    status = none;
  }

  abbrev life_of : Cell → Life
  life_of missing = unborn
  life_of removed = gone
  life_of (present d) = alive (λ key. lookup key d)

  abbrev single_life : Cell → String → Life
  single_life cell name = if name == the_name then life_of cell else unborn

  abbrev passes : Dict String → PatchOperation → Bool
  passes d (test_label key value) = has_label d (key, value)
  passes d _ = true

  abbrev patch_labels : List PatchOperation → Dict String → Dict String
  patch_labels [] d = d
  patch_labels (put_label k v ∷ ops) d = patch_labels ops ((k, v) ∷ d)
  patch_labels (add_label k v ∷ ops) d = patch_labels ops ((k, v) ∷ d)
  patch_labels (_ ∷ ops) d = patch_labels ops d

  abbrev refusal : Error
  refusal = api (pos 422) "refused"

  abbrev patch_if : Bool → List PatchOperation → Dict String → Result Error Pod × Cell
  patch_if true ops d = (ok (pod_with (patch_labels ops d)), present (patch_labels ops d))
  patch_if false ops d = (err refusal, present d)

  abbrev patch_cell : List PatchOperation → Cell → Result Error Pod × Cell
  patch_cell ops (present d) = patch_if (all (passes d) ops) ops d
  patch_cell ops cell = (err (api (pos 404) "no such pod"), cell)

  abbrev list_cell : List (String × String) → Cell → List Pod
  list_cell labels (present d) = if all (has_label d) labels then pod_with d ∷ [] else []
  list_cell labels _ = []

  abbrev delete_cell : Cell → Cell
  delete_cell (present d) = removed
  delete_cell cell = cell

  abbrev get_cell : Cell → Option Pod
  get_cell (present d) = some (pod_with d)
  get_cell _ = none

  abbrev single_serve : (q : Request) → Cell → Result Error (Answer q) × Cell
  single_serve (get_pod name) cell = (ok (if name == the_name then get_cell cell else none), cell)
  single_serve (list_pods labels) cell = (ok (list_cell labels cell), cell)
  single_serve (patch_pod name ops) cell =
      if name == the_name then patch_cell ops cell else (err refusal, cell)
  single_serve (apply_pod _) cell = (err refusal, cell)
  single_serve (delete_pod name) cell =
      if name == the_name then (ok tt, delete_cell cell) else (ok tt, cell)
  single_serve (get_secret _) cell = (err refusal, cell)
  single_serve (create_secret _) cell = (ok tt, cell)
  single_serve (apply_secret _) cell = (ok tt, cell)
  single_serve (get_pool _) cell = (ok the_pool, cell)
  single_serve (patch_pool_status _) cell = (ok tt, cell)
  single_serve (patch_runner_status _) cell = (ok tt, cell)

  abbrev pub single : Server Cell
  single = record { life = single_life; serve = single_serve }

  or-none : (w e : Option String) → or w e ≡ or (or w none) e
  or-none none e = refl
  or-none (some v) e = refl

  or-if :
      (w : Option String) (b : Bool) (v : String) (e : Option String)
      → or w (if b then some v else e) ≡ or (or w (if b then some v else none)) e
  or-if none true v e = refl
  or-if none false v e = refl
  or-if (some x) b v e = refl

  lookup-patch :
      (ops : List PatchOperation) (d : Dict String) (key : String)
      → lookup key (patch_labels ops d) ≡ or (written ops key) (lookup key d)
  lookup-patch [] d key = refl
  lookup-patch (put_label k v ∷ ops) d key =
      lookup-patch ops ((k, v) ∷ d) key ∙ or-if (written ops key) (k == key) v (lookup key d)
  lookup-patch (add_label k v ∷ ops) d key =
      lookup-patch ops ((k, v) ∷ d) key ∙ or-if (written ops key) (k == key) v (lookup key d)
  lookup-patch (test_label k v ∷ ops) d key =
      lookup-patch ops d key ∙ or-none (written ops key) (lookup key d)
  lookup-patch (put_owners k ∷ ops) d key =
      lookup-patch ops d key ∙ or-none (written ops key) (lookup key d)
  lookup-patch (add_annotation k v ∷ ops) d key =
      lookup-patch ops d key ∙ or-none (written ops key) (lookup key d)

  -- Another name has no pod.
  life_elsewhere :
      (cell cell' : Cell) (target name : String)
      → some target ≢ some name
      → single_life (if target == the_name then cell' else cell) name ≡ single_life cell name
  life_elsewhere cell cell' target name h = elim (Bool-cases (name == the_name)) [
    | inr e ↦ rw e refl
    | inl e ↦ elim (Bool-cases (target == the_name)) [
      | inr t ↦ rw t refl
      | inl t ↦
          absurd (h (ap some ((eq_iff target the_name).0 t ∙ sym ((eq_iff name the_name).0 e))))
    ]
  ]

  patched_cell :
      (name : String) (ops : List PatchOperation) (cell : Cell)
      → (single_serve (patch_pod name ops) cell).1
        ≡ (if name == the_name then (patch_cell ops cell).1 else cell)
  patched_cell name ops cell = ground arith

  deleted_cell :
      (name : String) (cell : Cell)
      → (single_serve (delete_pod name) cell).1
        ≡ (if name == the_name then delete_cell cell else cell)
  deleted_cell name cell = ground arith

  single-elsewhere :
      (q : Request) (cell : Cell) (name : String)
      → subject q ≢ some name
      → single_life (single_serve q cell).1 name ≡ single_life cell name
  single-elsewhere (patch_pod target ops) cell name h =
      rw (patched_cell target ops cell) (life_elsewhere cell (patch_cell ops cell).1 target name h)
  single-elsewhere (delete_pod target) cell name h =
      rw (deleted_cell target cell) (life_elsewhere cell (delete_cell cell) target name h)
  single-elsewhere (get_pod _) cell name h = refl
  single-elsewhere (list_pods _) cell name h = refl
  single-elsewhere (apply_pod _) cell name h = refl
  single-elsewhere (get_secret _) cell name h = refl
  single-elsewhere (create_secret _) cell name h = refl
  single-elsewhere (apply_secret _) cell name h = refl
  single-elsewhere (get_pool _) cell name h = refl
  single-elsewhere (patch_pool_status _) cell name h = refl
  single-elsewhere (patch_runner_status _) cell name h = refl

  has_label_value :
      (d : Dict String) (key value : String)
      → has_label d (key, value) ≡ true
      → lookup key d ≡ some value
  has_label_value d key value h =
      let (v, e, t) = (is_some_and_iff (λ v. v == value) (lookup key d)).0 h in
      e ∙ ap some ((eq_iff v value).0 t)

  has_label-lookup :
      (labels d : Dict String) (key value : String)
      → all (has_label d) labels ≡ true
      → Memᴰ (key, value) labels
      → lookup key d ≡ some value
  has_label-lookup [] d key value h mem = absurd (Memᴰ.not-nil mem)
  has_label-lookup (label ∷ labels) d key value h (Memᴰ.head e) =
      has_label_value d key value (ap (has_label d) e ∙ ((&&_iff _ _).0 h).0)
  has_label-lookup (label ∷ labels) d key value h (Memᴰ.tail m) =
      has_label-lookup labels d key value ((&&_iff _ _).0 h).1 m

  here : {name : String} → some the_name ≡ some name → (name == the_name) ≡ true
  here {name} e = (eq_iff name the_name).1 (sym (some-some e))

  listed_present :
      (labels : List (String × String)) (d : Dict String) (pod : Pod) (b : Bool)
      → all (has_label d) labels ≡ b
      → Memᴰ pod (if b then pod_with d ∷ [] else [])
      → ((name : String)
          → pod.metadata.name ≡ some name
          → single_life (present d) name ≡ alive (labels_of pod))
        × ((key value : String) → Memᴰ (key, value) labels → label_of key pod ≡ some value)
  listed_present labels d pod false t mem = absurd (Memᴰ.not-nil mem)
  listed_present labels d pod true t (Memᴰ.tail mem) = absurd (Memᴰ.not-nil mem)
  listed_present labels d pod true t (Memᴰ.head e) =
      rw e (λ name h. rw (here h) refl, λ key value m. has_label-lookup labels d key value t m)

  single-listed :
      (labels : List (String × String)) (cell : Cell) (pod : Pod)
      → Memᴰ pod (list_cell labels cell)
      → ((name : String)
          → pod.metadata.name ≡ some name
          → single_life cell name ≡ alive (labels_of pod))
        × ((key value : String) → Memᴰ (key, value) labels → label_of key pod ≡ some value)
  single-listed labels (present d) pod mem = listed_present labels d pod _ refl mem
  single-listed labels missing pod mem = absurd (Memᴰ.not-nil mem)
  single-listed labels removed pod mem = absurd (Memᴰ.not-nil mem)

  in_list :
      {xs ys : List Pod} {pod : Pod}
      → ◌≡◌ {A = Result Error (List Pod)} (ok xs) (ok ys)
      → Memᴰ pod ys
      → Memᴰ pod xs
  in_list e mem = rw (ok-ok e) mem

  Patched : String → List PatchOperation → Cell → Cell → Pod → Type 0
  Patched name ops cell cell' pod =
      (pod.metadata.name ≡ some name)
      × ((l : Labels) × (single_life cell name ≡ alive l)
          × (single_life cell' name ≡ alive (λ k. or (written ops k) (l k)))
          × ((key value : String) (rest : List PatchOperation)
              → ops ≡ test_label key value ∷ rest
              → l key ≡ some value))

  patch_present :
      (name : String) (ops : List PatchOperation) (d : Dict String) (pod : Pod) (b : Bool)
      → all (passes d) ops ≡ b
      → (name == the_name) ≡ true
      → (patch_if b ops d).0 ≡ ok pod
      → Patched name ops (present d) (patch_if b ops d).1 pod
  unfolding Patched
  patch_present name ops d pod false t e h = cc
  patch_present name ops d pod true t e h = (
    ap (λ p. p.metadata.name) (sym (ok-ok h)) ∙ ap some (sym ((eq_iff name the_name).0 e)),
    (
      λ k. lookup k d,
      rw e refl,
      rw e (ap alive (fun_ext (lookup-patch ops d))),
      λ key value rest starts.
          has_label_value d key value ((&&_iff _ _).0 (ap (all (passes d)) (sym starts) ∙ t)).0,
    ),
  )

  err-ok : {A : Type 0} {e : Error} {a : A} → ◌≡◌ {A = Result Error A} (err e) (ok a) → ⊥
  err-ok h = cc

  patch_cell-Patched :
      (name : String) (ops : List PatchOperation) (cell : Cell) (pod : Pod)
      → (name == the_name) ≡ true
      → (patch_cell ops cell).0 ≡ ok pod
      → Patched name ops cell (patch_cell ops cell).1 pod
  patch_cell-Patched name ops (present d) pod e h = patch_present name ops d pod _ refl e h
  patch_cell-Patched name ops missing pod e h = absurd (err-ok h)
  patch_cell-Patched name ops removed pod e h = absurd (err-ok h)

  serve_here :
      (name : String) (ops : List PatchOperation) (cell : Cell)
      → (name == the_name) ≡ true
      → single_serve (patch_pod name ops) cell ≡ patch_cell ops cell
  serve_here name ops cell e = rw e refl

  serve_other :
      (name : String) (ops : List PatchOperation) (cell : Cell)
      → (name == the_name) ≡ false
      → single_serve (patch_pod name ops) cell ≡ (err refusal, cell)
  serve_other name ops cell e = rw e refl

  single-Patched :
      (name : String) (ops : List PatchOperation) (cell : Cell) (pod : Pod)
      → (single_serve (patch_pod name ops) cell).0 ≡ ok pod
      → Patched name ops cell (single_serve (patch_pod name ops) cell).1 pod
  single-Patched name ops cell pod h = elim (Bool-cases (name == the_name)) [
    | inr e ↦ absurd (err-ok (ap (λ x. x.0) (sym (serve_other name ops cell e)) ∙ h))
    | inl e ↦ rw (serve_here name ops cell e) (
        patch_cell-Patched name ops cell pod e
          (ap (λ x. x.0) (sym (serve_here name ops cell e)) ∙ h))
  ]

  ok-err : {A : Type 0} {e : Error} {a : A} → ◌≡◌ {A = Result Error A} (ok a) (err e) → ⊥
  ok-err h = cc

  refused_if :
      (ops : List PatchOperation) (d : Dict String) (b : Bool) {e : Error}
      → (patch_if b ops d).0 ≡ err e
      → (patch_if b ops d).1 ≡ present d
  refused_if ops d true h = absurd (ok-err h)
  refused_if ops d false h = refl

  refused_here :
      (ops : List PatchOperation) (cell : Cell) {e : Error}
      → (patch_cell ops cell).0 ≡ err e
      → (patch_cell ops cell).1 ≡ cell
  refused_here ops (present d) h = refused_if ops d (all (passes d) ops) h
  refused_here ops missing h = refl
  refused_here ops removed h = refl

  single-refused :
      (name : String) (ops : List PatchOperation) (cell : Cell) (e : Error)
      → (single_serve (patch_pod name ops) cell).0 ≡ err e
      → single_life (single_serve (patch_pod name ops) cell).1 name ≡ single_life cell name
  single-refused name ops cell e h = elim (Bool-cases (name == the_name)) [
    | inr t ↦ rw (serve_other name ops cell t) refl
    | inl t ↦ rw (serve_here name ops cell t) (
        ap (λ c. single_life c name)
          (refused_here ops cell (ap (λ x. x.0) (sym (serve_here name ops cell t)) ∙ h)))
  ]

  deleted_here :
      (name : String) (cell : Cell)
      → (name == the_name) ≡ true
      → (life_of (delete_cell cell) ≡ life_of cell) ⊎ (life_of (delete_cell cell) ≡ gone)
  deleted_here name missing e = inl refl
  deleted_here name removed e = inl refl
  deleted_here name (present d) e = inr refl

  single-deleted :
      (name : String) (cell : Cell)
      → (single_life (single_serve (delete_pod name) cell).1 name ≡ single_life cell name)
        ⊎ (single_life (single_serve (delete_pod name) cell).1 name ≡ gone)
  single-deleted name cell = elim (Bool-cases (name == the_name)) [
    | inr e ↦ inl (rw e refl)
    | inl e ↦ rw e (deleted_here name cell e)
  ]

  pub single-Lawful : Lawful single
  unfolding Patched
  single-Lawful = record {
    elsewhere = λ q s name h. single-elsewhere q s name h;
    listed = λ labels s pods h pod mem. single-listed labels s pod (in_list h mem);
    patched = λ name ops s pod h. single-Patched name ops s pod h;
    refused = λ name ops s e h. single-refused name ops s e h;
    applied = λ pod name s named new. inl new;
    deleted = λ name s. single-deleted name s;
  }
