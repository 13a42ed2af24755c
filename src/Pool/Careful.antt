-- ===== src/Pool/Careful.antt =====
-- The pool controller is cautious: it deletes only what it has withdrawn or found withdrawn.
use mathlib.Core.List.{Memᴰ}
use kubimo.Common.{
  ℕ, zero, suc, String, ◌≡◌, refl, sym, ◌⊎◌, inl, inr, ap, Option, none, some, List, [], ◌∷◌, ◌==◌,
  text_partial_eq, Bool-cases, is_some, eq_iff, length,
}
use kubimo.Common.Result.{Result, ok, err, ok_parts, ok_or_parts, ok-ok}
use kubimo.Api.Meta.{
  Error, Timestamp, name_label, require_name, require_namespace, static_controller_owner_ref,
}
use kubimo.Api.Pod.{Pod}
use kubimo.Api.Pool.{
  Pool, pool_label, pool_state_label, pool_state_warm, pool_state_claimed, pool_state_retiring,
}
use kubimo.Kube.Request.{
  list_pods, patch_pod, apply_pod, delete_pod, create_secret, apply_secret, patch_pool_status,
  label_of, has_code, try_call,
}
use kubimo.Kube.Cautious.{
  pool, Cautious, Plausible, Learned, Cautious-bind, Cautious-answer, Cautious-call, Cautious-then,
  Cautious-if,
}
use kubimo.Pool.Fleet.{Fleet, classify, place, split_warm}
use kubimo.Pool.WarmPod.{
  Config, Fingerprint, template_hash, claim_secret, build_warm_pod, WarmPodIdentity,
}
use kubimo.Pool.Reconcile.{
  retire, withdrawn, retire_patch, retire_all, delete_all, created_or_there, restore_secrets,
  mint_all, minted, reported, apply,
}

All : (Pod → Type 0) → List Pod → Type 0
All Q [] = Unit
All Q (pod ∷ pods) = Q pod × All Q pods

place-All :
    (Q : Pod → Type 0) (pod : Pod) (o : Option String) (fleet : Fleet)
    → (o ≡ some pool_state_retiring → Q pod)
    → All Q fleet.retiring
    → All Q (place pod o fleet).retiring
unfolding place All
place-All Q pod none fleet h all = all
place-All Q pod (some state) fleet h all = elim (Bool-cases (state == pool_state_warm)) [
  | inl e ↦ rw e all
  | inr e ↦ rw e (elim (Bool-cases (state == pool_state_claimed)) [
    | inl e' ↦ rw e' all
    | inr e' ↦ rw e' (elim (Bool-cases (state == pool_state_retiring)) [
      | inl t ↦ rw t (h (ap some ((eq_iff state pool_state_retiring).0 t)), all)
      | inr t ↦ rw t all
    ])
  ])
]

retiring-All :
    (Q : Pod → Type 0) (pods : List Pod)
    → ((pod : Pod)
        → Memᴰ pod pods
        → label_of pool_state_label pod ≡ some pool_state_retiring
        → Q pod)
    → All Q (classify pods).retiring
unfolding classify All
retiring-All Q [] h = tt
retiring-All Q (pod ∷ pods) h =
    let rest = retiring-All Q pods (λ p m. h p (Memᴰ.tail m)) in
    elim (Bool-cases (is_some pod.metadata.deletion_timestamp)) [
      | inl e ↦ rw e rest
      | inr e ↦ rw e (
          place-All Q pod (label_of pool_state_label pod) (classify pods) (h pod (Memᴰ.head refl))
            rest)
    ]

Named : (String → Type 0) → Pod → Type 0
Named P pod = (name : String) → pod.metadata.name ≡ some name → P name

require_name_lem :
    (pod : Pod) {name : String}
    → require_name pod.metadata ≡ ok name
    → pod.metadata.name ≡ some name
unfolding require_name
require_name_lem pod h = ok_or_parts pod.metadata.name _ h

retire-Cautious : (name : String) (P : String → Type 0) → Cautious pool P (retire name)
unfolding retire retire_patch withdrawn
retire-Cautious name P = (((refl, refl), inr refl), after)
  where
    after :
        (r : Result Error Pod)
        → Plausible (patch_pod name retire_patch) r
        → Cautious pool
            (λ n. P n ⊎ Learned pool (patch_pod name retire_patch) r n)
            (withdrawn name r)
    after (ok pod) p = Cautious-then pool (delete_pod name) _ _ (inr (refl, refl)) (λ _. tt)
    after (err e) p =
        Cautious-if pool (has_code 422 e) _ _ _ tt (Cautious-if pool (has_code 404 e) _ _ _ tt tt)

retire_all-Cautious : (pods : List Pod) (P : String → Type 0) → Cautious pool P (retire_all pods)
unfolding retire_all
retire_all-Cautious [] P = tt
retire_all-Cautious (pod ∷ pods) P = Cautious-answer pool (require_name pod.metadata) _ P (λ name _.
    Cautious-bind pool (retire name) _ P (retire-Cautious name P) (λ _. retire_all-Cautious pods P))

delete_all-Cautious :
    (pods : List Pod) (P : String → Type 0) → All (Named P) pods → Cautious pool P (delete_all pods)
unfolding delete_all All Named
delete_all-Cautious [] P h = tt
delete_all-Cautious (pod ∷ pods) P (mine, rest) =
    Cautious-answer pool (require_name pod.metadata) _ P (λ name named.
      Cautious-then pool (delete_pod name) _ P (mine name (require_name_lem pod named))
        (λ _. delete_all-Cautious pods P rest))

restore_secrets-Cautious :
    (pods : List Pod) (P : String → Type 0) → Cautious pool P (restore_secrets pods)
unfolding restore_secrets created_or_there
restore_secrets-Cautious [] P = tt
restore_secrets-Cautious (pod ∷ pods) P = Cautious-answer pool (claim_secret pod) _ P (λ secret _.
    Cautious-bind pool (try_call (create_secret secret)) _ P (tt, λ r p. tt)
      (λ r.
        Cautious-bind pool (created_or_there r) _ P (there r)
          (λ _. restore_secrets-Cautious pods P)))
  where
    there : (r : Result Error Unit) → Cautious pool P (created_or_there r)
    there (ok _) = tt
    there (err e) = Cautious-if pool (has_code 409 e) _ _ _ tt tt

module _ (digest : Fingerprint → List ℕ) (path : String → String) (draw : ℕ → List ℕ × List ℕ) where
  built-unnamed :
      (config : Config) (p : Pool) (identity : WarmPodIdentity) (pod : Pod)
      → build_warm_pod digest path config p identity ≡ ok pod
      → label_of name_label pod ≡ none
  unfolding build_warm_pod
  built-unnamed config p identity pod h =
      let (pool_name, _, h') = ok_parts (require_name p.metadata) _ h in
      let (namespace, _, h'') = ok_parts (require_namespace p.metadata) _ h' in
      let (owner, _, e) = ok_parts (static_controller_owner_ref "Pool" p.metadata) _ h'' in
      (ap (label_of name_label) (sym (ok-ok e)))

  mint_all-Cautious :
      (config : Config) (p : Pool) (name : String) (n : ℕ) (P : String → Type 0)
      → Cautious pool P (mint_all digest path draw config p name n)
  unfolding mint_all
  mint_all-Cautious config p name zero P = tt
  mint_all-Cautious config p name (suc n) P =
      Cautious-answer pool (build_warm_pod digest path config p (minted digest path draw name n)) _
        P
        (λ pod built.
          Cautious-then pool (apply_pod pod) _ P (built-unnamed config p _ pod built) (λ created.
            Cautious-answer pool (claim_secret created) _ P (λ secret _.
              Cautious-then pool (apply_secret secret) _ P tt
                (λ _. mint_all-Cautious config p name n P))))

  -- What the list of a pool's pods has shown to be the controller's own.
  ListedOwn : (String → Type 0) → String → List Pod → String → Type 0
  ListedOwn P pool_name pods name =
      P name ⊎ Learned pool (list_pods ((pool_label, pool_name) ∷ [])) (ok pods) name

  retiring-own :
      (P : String → Type 0) (pool_name : String) (pods : List Pod)
      → All (Named (ListedOwn P pool_name pods)) (classify pods).retiring
  unfolding Named ListedOwn
  retiring-own P pool_name pods =
      retiring-All (Named (ListedOwn P pool_name pods)) pods
        (λ pod mem state name named. inr (pod, mem, named, state))

  pub apply-Cautious :
      (now : Timestamp) (config : Config) (p : Pool) (P : String → Type 0)
      → Cautious pool P (apply digest path draw now config p)
  unfolding apply ListedOwn
  apply-Cautious now config p P = Cautious-answer pool (require_namespace p.metadata) _ P (λ _ _.
      Cautious-answer pool (require_name p.metadata) _ P (λ name _.
        Cautious-call pool (list_pods ((pool_label, name) ∷ [])) _ P tt (λ pods seen.
          Cautious-bind pool (retire_all _) _ _ (retire_all-Cautious _ _) (λ _.
            Cautious-bind pool (delete_all (classify pods).retiring) _ _
              (delete_all-Cautious _ _ (retiring-own P name pods))
              (λ _. Cautious-bind pool (restore_secrets _) _ _ (restore_secrets-Cautious _ _) (λ _.
                Cautious-bind pool (mint_all digest path draw config p name _) _ _
                  (mint_all-Cautious config p name _ _)
                  (λ _.
                    Cautious-then pool
                      (patch_pool_status (
                        reported now p (classify pods).claimed (
                          length
                            (split_warm (template_hash digest path config p) p.spec.replicas
                              (classify pods).warm).kept)))
                      _ _ tt (λ _. tt))))))))
