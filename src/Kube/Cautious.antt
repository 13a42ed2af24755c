-- ===== src/Kube/Cautious.antt =====
-- Handlers that delete only what is theirs: pods that they have withdrawn from the pool, or that
-- carry the name of their runner; that move a pod between states only by a patch that tests for a
-- warm one; and that mint pods without a runner's name.
use mathlib.Core.List.{Memᴰ}
use kubimo.Common.{
  String, Bool, true, false, if◌then◌else◌, none, some, List, ◌∷◌, ◌≡◌, ◌⊎◌, inl, inr, refl,
}
use kubimo.Common.Result.{Result, ok, err}
use kubimo.Api.Meta.{Error, name_label}
use kubimo.Api.Pod.{Pod}
use kubimo.Api.Pool.{pool_state_label, pool_state_warm, pool_state_claimed, pool_state_retiring}
use kubimo.Kube.Request.{
  get_pod, get_secret, create_secret, apply_secret, get_pool, patch_pool_status,
  patch_runner_status, PatchOperation, test_label, Request, list_pods, patch_pod, apply_pod,
  delete_pod, Answer, label_of, Program, done, ask, Handler, answer, call, ◌>>=◌,
}
use kubimo.Kube.Server.{Labels, labels_of, written}

pub data Who : Type 0 where
  pool : Who
  runner : String → Who

abbrev pub Owns : Who → Labels → Type 0
Owns pool l = l pool_state_label ≡ some pool_state_retiring
Owns (runner name) l = l name_label ≡ some name

-- The names that an answer shows to be one's own.
abbrev pub Learned : Who → (q : Request) → Result Error (Answer q) → String → Type 0
Learned who (list_pods _) (ok pods) name =
    (pod : Pod) × Memᴰ pod pods × (pod.metadata.name ≡ some name) × Owns who (labels_of pod)
Learned who (patch_pod target ops) (ok _) name = (target ≡ name) × Owns who (written ops)
Learned who q r name = ⊥

abbrev pub Plausible : (q : Request) → Result Error (Answer q) → Type 0
Plausible (list_pods labels) (ok pods) =
    (pod : Pod)
    → Memᴰ pod pods
    → (key value : String) → Memᴰ (key, value) labels
    → label_of key pod ≡ some value
Plausible (patch_pod name _) (ok pod) = pod.metadata.name ≡ some name
Plausible q r = Unit

abbrev pub TestsWarm : List PatchOperation → Type 0
TestsWarm (test_label key value ∷ _) = (key ≡ pool_state_label) × (value ≡ pool_state_warm)
TestsWarm _ = ⊥

-- From warm to claimed or retiring, and only from warm.
abbrev pub Guarded : List PatchOperation → Type 0
Guarded ops =
    TestsWarm ops
    × ((written ops pool_state_label ≡ some pool_state_claimed)
        ⊎ (written ops pool_state_label ≡ some pool_state_retiring))

abbrev pub Allowed : Who → (String → Type 0) → Request → Type 0
Allowed who own (patch_pod _ ops) = Guarded ops
Allowed who own (apply_pod pod) = label_of name_label pod ≡ none
Allowed who own (delete_pod name) = own name
Allowed who own _ = Unit

module _ {A : Type 0} where
  abbrev pub Cautious : Who → (String → Type 0) → Program A → Type 0
  Cautious who own (done a) = Unit
  Cautious who own (ask q k) =
      Allowed who own q
      × ((r : Result Error (Answer q))
          → Plausible q r
          → Cautious who (λ name. own name ⊎ Learned who q r name) (k r))

abbrev Sub : (String → Type 0) → (String → Type 0) → Type 0
Sub P Q = (name : String) → P name → Q name

Allowed-Sub :
    (who : Who) {P Q : String → Type 0} (q : Request) → Sub P Q → Allowed who P q → Allowed who Q q
Allowed-Sub who (get_pod _) le h = h
Allowed-Sub who (list_pods _) le h = h
Allowed-Sub who (patch_pod _ _) le h = h
Allowed-Sub who (apply_pod _) le h = h
Allowed-Sub who (delete_pod name) le h = le name h
Allowed-Sub who (get_secret _) le h = h
Allowed-Sub who (create_secret _) le h = h
Allowed-Sub who (apply_secret _) le h = h
Allowed-Sub who (get_pool _) le h = h
Allowed-Sub who (patch_pool_status _) le h = h
Allowed-Sub who (patch_runner_status _) le h = h

sum_map : {X Y Z : Type 0} → (X → Y) → X ⊎ Z → Y ⊎ Z
sum_map f (inl x) = inl (f x)
sum_map f (inr z) = inr z

module _ {A : Type 0} (who : Who) where
  pub Cautious-Sub :
      (m : Program A) (P Q : String → Type 0) → Sub P Q → Cautious who P m → Cautious who Q m
  Cautious-Sub (done a) P Q le h = tt
  Cautious-Sub (ask q k) P Q le (may, after) = (
    Allowed-Sub who q le may,
    λ r p. Cautious-Sub (k r) _ _ (λ name. sum_map (le name)) (after r p),
  )

-- A handler is cautious if its parts are.
module _ {A B : Type 0} (who : Who) where
  pub Cautious-bind :
      (m : Handler A) (f : A → Handler B) (P : String → Type 0)
      → Cautious who P m
      → ((a : A) → Cautious who P (f a))
      → Cautious who P (m >>= f)
  Cautious-bind (done (ok a)) f P h rest = rest a
  Cautious-bind (done (err e)) f P h rest = tt
  Cautious-bind (ask q k) f P (may, after) rest = (
    may,
    λ r p.
        Cautious-bind (k r) f _ (after r p)
          (λ a. Cautious-Sub who (f a) P _ (λ name h. inl h) (rest a)),
  )

module _ {A B : Type 0} (who : Who) where
  -- A part that asks nothing: the rest may use what it is.
  pub Cautious-answer :
      (r : Result Error A) (f : A → Handler B) (P : String → Type 0)
      → ((a : A) → r ≡ ok a → Cautious who P (f a))
      → Cautious who P (answer r >>= f)
  Cautious-answer (ok a) f P h = h a refl
  Cautious-answer (err e) f P h = tt

-- A request first: the rest may delete what the answer shows to be one's own.
module _ {B : Type 0} (who : Who) where
  pub Cautious-call :
      (q : Request) (f : Answer q → Handler B) (P : String → Type 0)
      → Allowed who P q
      → ((a : Answer q)
          → Plausible q (ok a)
          → Cautious who (λ name. P name ⊎ Learned who q (ok a) name) (f a))
      → Cautious who P (call q >>= f)
  Cautious-call q f P may h = (may, λ r p. after r p)
    where
      after :
          (r : Result Error (Answer q))
          → Plausible q r
          → Cautious who (λ name. P name ⊎ Learned who q r name) (answer r >>= f)
      after (ok a) p = h a p
      after (err e) p = tt

  pub Cautious-then :
      (q : Request) (f : Answer q → Handler B) (P : String → Type 0)
      → Allowed who P q
      → ((a : Answer q) → Cautious who P (f a))
      → Cautious who P (call q >>= f)
  Cautious-then q f P may h =
      Cautious-call q f P may (λ a p. Cautious-Sub who (f a) P _ (λ name own. inl own) (h a))

-- A test inside a handler.
module _ {A : Type 0} (who : Who) where
  pub Cautious-if :
      (b : Bool) (m n : Program A) (P : String → Type 0)
      → Cautious who P m
      → Cautious who P n
      → Cautious who P (if b then m else n)
  Cautious-if true m n P h k = h
  Cautious-if false m n P h k = k
