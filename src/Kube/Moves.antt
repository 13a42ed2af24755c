-- ===== src/Kube/Moves.antt =====
-- How a request of a cautious handler changes a pod, and what stays true of the pods of a handler.
use kubimo.Common.{
  String, Option, none, some, List, [], ◌∷◌, ◌≡◌, ◌≢◌, ◌⊎◌, inl, inr, refl, sym, ◌∙◌, ap, or,
  String-discrete,
}
use kubimo.Common.Result.{Result, ok, err, Result-cases}
use kubimo.Api.Meta.{Error, name_label}
use kubimo.Api.Pod.{Pod}
use kubimo.Api.Pool.{pool_state_label, pool_state_warm, pool_state_claimed, pool_state_retiring}
use kubimo.Kube.Request.{
  PatchOperation, test_label, put_label, add_label, put_owners, add_annotation, Request, get_pod,
  list_pods, patch_pod, apply_pod, delete_pod, get_secret, create_secret, apply_secret, get_pool,
  patch_pool_status, patch_runner_status,
}
use kubimo.Kube.Server.{
  Labels, Life, unborn, gone, alive, Server, Lawful, written, subject, labels_of,
}
use kubimo.Kube.Cautious.{Who, pool, runner, Owns, Learned, Plausible, Allowed, Guarded, TestsWarm}
use kubimo.Kube.System.{Fresh, Change, stays, ends, relabels, starts}

-- What a request may do to a pod: a deletion is one that `Deleted` says.
pub data Move (Deleted : Type 0) : Life → Life → Type 0 where
  keeps : {x : Life} → Move Deleted x x
  drops : {x : Life} → Deleted → Move Deleted x gone
  mints : {l : Labels} → l name_label ≡ none → Move Deleted unborn (alive l)
  takes :
      {l l' : Labels}
      → l pool_state_label ≡ some pool_state_warm
      → (l' pool_state_label ≡ some pool_state_claimed)
        ⊎ (l' pool_state_label ≡ some pool_state_retiring)
      → Move Deleted (alive l) (alive l')

retarget : {D : Type 0} {x y y' : Life} → y' ≡ y → Move D x y → Move D x y'
retarget e m = rw e m

-- A named pod is not warm.
abbrev pub Unnamed : Life → Type 0
Unnamed x =
    (l : Labels) → x ≡ alive l → l pool_state_label ≡ some pool_state_warm → l name_label ≡ none

abbrev pub Held : Who → Life → Type 0
Held who x = (x ≡ gone) ⊎ ((l : Labels) × (x ≡ alive l) × Owns who l)

some-claimed-warm : some pool_state_claimed ≢ some pool_state_warm
some-claimed-warm e = cc

pub alive-alive : {l l' : Labels} → alive l ≡ alive l' → l ≡ l'
alive-alive e = cc

pub Move-Unnamed : {D : Type 0} {x y : Life} → Move D x y → Unnamed x → Unnamed y
Move-Unnamed keeps h = h
Move-Unnamed (drops _) h = λ l e w. cc
Move-Unnamed (mints e) h = λ l e' w. cc
Move-Unnamed (takes w (inl c)) h = λ l e' w'. cc
Move-Unnamed (takes w (inr c)) h = λ l e' w'. cc

-- A pod that is one's own is not warm, so that no request changes it but a deletion.
Owns-not_warm :
    (who : Who) (l : Labels)
    → (l pool_state_label ≡ some pool_state_warm → l name_label ≡ none)
    → Owns who l
    → l pool_state_label ≢ some pool_state_warm
Owns-not_warm pool l h o w = cc
Owns-not_warm (runner name) l h o w = cc (h w)

pub Move-Held :
    {D : Type 0} {x y : Life} (who : Who) → Move D x y → Unnamed x → Held who x → Held who y
Move-Held who keeps h held = held
Move-Held who (drops _) h held = inl refl
Move-Held who (mints e) h (inl g) = cc
Move-Held who (mints e) h (inr (l, e', o)) = cc
Move-Held who (takes w to) h (inl g) = cc
Move-Held who (takes {l = l} w to) h (inr (l', e, o)) =
    absurd
      (Owns-not_warm who l' (h l' e) o (ap (λ f. f pool_state_label) (sym (alive-alive e)) ∙ w))

pub Change-Unnamed : {x y : Life} → Change x y → Unnamed x → Unnamed y
Change-Unnamed stays h = h
Change-Unnamed ends h = λ l e w. cc
Change-Unnamed (relabels {l = l} same named) h = λ k e w.
    ap (λ f. f name_label) (sym (alive-alive e))
    ∙ (named ∙ h l refl (sym same ∙ (ap (λ f. f pool_state_label) (alive-alive e) ∙ w)))
Change-Unnamed (starts none_) h = λ l e w. cc

pub Change-Held : {x y : Life} (who : Who) → Change x y → Held who x → Held who y
Change-Held who stays held = held
Change-Held who ends held = inl refl
Change-Held who (relabels same named) (inl g) = cc
Change-Held pool (relabels {l' = l'} same named) (inr (k, e, o)) =
    inr (l', refl, cc (alive-alive e))
Change-Held (runner r) (relabels {l' = l'} same named) (inr (k, e, o)) =
    inr (l', refl, cc (alive-alive e))
Change-Held who (starts none_) (inl g) = cc
Change-Held who (starts none_) (inr (l, e, o)) = cc

starts_with_test :
    (ops : List PatchOperation)
    → TestsWarm ops
    → (rest : List PatchOperation) × (ops ≡ test_label pool_state_label pool_state_warm ∷ rest)
starts_with_test [] h = absurd h
starts_with_test (test_label key value ∷ rest) (k, v) = (rest, cc)
starts_with_test (put_label _ _ ∷ _) h = absurd h
starts_with_test (add_label _ _ ∷ _) h = absurd h
starts_with_test (put_owners _ ∷ _) h = absurd h
starts_with_test (add_annotation _ _ ∷ _) h = absurd h

or-some : {A : Type 0} {o : Option A} {a : A} (d : Option A) → o ≡ some a → or o d ≡ some a
or-some d e = rw e

taken :
    (ops : List PatchOperation) (l : Labels)
    → (written ops pool_state_label ≡ some pool_state_claimed)
      ⊎ (written ops pool_state_label ≡ some pool_state_retiring)
    → (or (written ops pool_state_label) (l pool_state_label) ≡ some pool_state_claimed)
      ⊎ (or (written ops pool_state_label) (l pool_state_label) ≡ some pool_state_retiring)
taken ops l (inl e) = inl (or-some _ e)
taken ops l (inr e) = inr (or-some _ e)

module _ {S : Type 0} (server : Server S) (laws : Lawful server) where
  open server use {life, serve}
  open laws use {elsewhere, listed, patched, refused, applied, deleted}

  patch-Move :
      (name : String) (ops : List PatchOperation) (s : S) {D : Type 0}
      → Guarded ops
      → Move D (life s name) (life (serve (patch_pod name ops) s).1 name)
  patch-Move name ops s (tests, to) = elim (Result-cases (serve (patch_pod name ops) s).0) [
    | inr (e, r) ↦ retarget (refused name ops s e r) keeps
    | inl (pod, r) ↦
        let (_, (l, was, is, held)) = patched name ops s pod r in
        let (rest, e) = starts_with_test ops tests in
        rw was (retarget is (takes (held _ _ rest e) (taken ops l to)))
  ]

  apply-Move :
      (pod : Pod) (name : String) (s : S) {D : Type 0}
      → pod.metadata.name ≡ some name
      → life s name ≡ unborn
      → labels_of pod name_label ≡ none
      → Move D (life s name) (life (serve (apply_pod pod) s).1 name)
  apply-Move pod name s named new unnamed = elim (applied pod name s named new) [
    | inl e ↦ retarget (e ∙ sym new) keeps
    | inr e ↦ rw new (retarget e (mints unnamed))
  ]

  delete-Move :
      (name : String) (s : S) {D : Type 0}
      → D
      → Move D (life s name) (life (serve (delete_pod name) s).1 name)
  delete-Move name s d = elim (deleted name s) [
    | inl e ↦ retarget e keeps
    | inr e ↦ retarget e (drops d)
  ]

  other-Move :
      (q : Request) (name : String) (s : S) {D : Type 0}
      → subject q ≢ some name
      → Move D (life s name) (life (serve q s).1 name)
  other-Move q name s h = retarget (elsewhere q s name h) keeps

  option-discrete : Discrete (Option String)
  option-discrete = hlevel String-discrete

  none-other : {name : String} {o : Option String} → o ≡ none → o ≢ some name
  none-other e f = cc

  -- Every request that an author may make moves every pod by one of the moves.
  pub serve-Move :
      (q : Request) (name : String) (s : S) (who : Who) (own : String → Type 0)
      → Allowed who own q
      → Fresh server s q
      → Move (q ≡ delete_pod name) (life s name) (life (serve q s).1 name)
  serve-Move (patch_pod target ops) name s who own may new = elim (String-discrete target name) [
    | yes e ↦ rw (sym e) (patch-Move target ops s may)
    | no h ↦ other-Move (patch_pod target ops) name s (λ e. h cc)
  ]
  serve-Move (delete_pod target) name s who own may new = elim (String-discrete target name) [
    | yes e ↦ rw (sym e) (delete-Move target s refl)
    | no h ↦ other-Move (delete_pod target) name s (λ e. h cc)
  ]
  serve-Move (apply_pod pod) name s who own may new =
      elim (option-discrete pod.metadata.name (some name)) [
        | yes e ↦ apply-Move pod name s e (new name e) may
        | no h ↦ other-Move (apply_pod pod) name s h
      ]
  serve-Move (get_pod _) name s who own may new = other-Move (get_pod _) name s (none-other refl)
  serve-Move (list_pods _) name s who own may new =
      other-Move (list_pods _) name s (none-other refl)
  serve-Move (get_secret _) name s who own may new =
      other-Move (get_secret _) name s (none-other refl)
  serve-Move (create_secret _) name s who own may new =
      other-Move (create_secret _) name s (none-other refl)
  serve-Move (apply_secret _) name s who own may new =
      other-Move (apply_secret _) name s (none-other refl)
  serve-Move (get_pool _) name s who own may new = other-Move (get_pool _) name s (none-other refl)
  serve-Move (patch_pool_status _) name s who own may new =
      other-Move (patch_pool_status _) name s (none-other refl)
  serve-Move (patch_runner_status _) name s who own may new =
      other-Move (patch_runner_status _) name s (none-other refl)

  list-Plausible :
      (labels : List (String × String)) (s : S) (r : Result Error (List Pod))
      → (serve (list_pods labels) s).0 ≡ r
      → Plausible (list_pods labels) r
  list-Plausible labels s (err e) h = tt
  list-Plausible labels s (ok pods) h = λ pod mem. (listed labels s pods h pod mem).1

  patch-Plausible :
      (name : String) (ops : List PatchOperation) (s : S) (r : Result Error Pod)
      → (serve (patch_pod name ops) s).0 ≡ r
      → Plausible (patch_pod name ops) r
  patch-Plausible name ops s (err e) h = tt
  patch-Plausible name ops s (ok pod) h = (patched name ops s pod h).0

  pub serve-Plausible : (q : Request) (s : S) → Plausible q (serve q s).0
  serve-Plausible (list_pods labels) s = list-Plausible labels s _ refl
  serve-Plausible (patch_pod name ops) s = patch-Plausible name ops s _ refl
  serve-Plausible (apply_pod _) s = tt
  serve-Plausible (delete_pod _) s = tt
  serve-Plausible (get_pod _) s = tt
  serve-Plausible (get_secret _) s = tt
  serve-Plausible (create_secret _) s = tt
  serve-Plausible (apply_secret _) s = tt
  serve-Plausible (get_pool _) s = tt
  serve-Plausible (patch_pool_status _) s = tt
  serve-Plausible (patch_runner_status _) s = tt

  list-Learned :
      (who : Who) (labels : List (String × String)) (name : String) (s : S)
      (r : Result Error (List Pod))
      → (serve (list_pods labels) s).0 ≡ r
      → Learned who (list_pods labels) r name
      → Held who (life (serve (list_pods labels) s).1 name)
  list-Learned who labels name s (err e) h k = absurd k
  list-Learned who labels name s (ok pods) h (pod, mem, named, own) = inr (
    labels_of pod,
    elsewhere (list_pods labels) s name (none-other refl)
        ∙ (listed labels s pods h pod mem).0 name named,
    own,
  )

  Owns-or : (who : Who) (w l : Labels) → Owns who w → Owns who (λ k. or (w k) (l k))
  Owns-or pool w l h = or-some _ h
  Owns-or (runner name) w l h = or-some _ h

  patch-Learned :
      (who : Who) (target : String) (ops : List PatchOperation) (name : String) (s : S)
      (r : Result Error Pod)
      → (serve (patch_pod target ops) s).0 ≡ r
      → Learned who (patch_pod target ops) r name
      → Held who (life (serve (patch_pod target ops) s).1 name)
  patch-Learned who target ops name s (err e) h k = absurd k
  patch-Learned who target ops name s (ok pod) h (same, own) =
      let (_, (l, _, is, _)) = patched target ops s pod h in
      rw (sym same) (inr (_, is, Owns-or who (written ops) l own))

  pub serve-Learned :
      (who : Who) (q : Request) (name : String) (s : S)
      → Learned who q (serve q s).0 name
      → Held who (life (serve q s).1 name)
  serve-Learned who (list_pods labels) name s h = list-Learned who labels name s _ refl h
  serve-Learned who (patch_pod target ops) name s h = patch-Learned who target ops name s _ refl h
  serve-Learned who (apply_pod _) name s h = absurd h
  serve-Learned who (delete_pod _) name s h = absurd h
  serve-Learned who (get_pod _) name s h = absurd h
  serve-Learned who (get_secret _) name s h = absurd h
  serve-Learned who (create_secret _) name s h = absurd h
  serve-Learned who (apply_secret _) name s h = absurd h
  serve-Learned who (get_pool _) name s h = absurd h
  serve-Learned who (patch_pool_status _) name s h = absurd h
  serve-Learned who (patch_runner_status _) name s h = absurd h
