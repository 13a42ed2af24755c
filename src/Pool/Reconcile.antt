-- ===== src/Pool/Reconcile.antt =====
-- One pass of the pool controller: controller/src/controllers/pool/mod.rs.
use kubimo.Common.{
  ℕ, zero, suc, ◌-◌, ◌%◌, ◌^◌, String, Bool, true, false, Option, none, some, List, [], ◌∷◌, ◌==◌,
  text_partial_eq, if◌then◌else◌, and_then, find, length,
}
use kubimo.Common.Result.{Result, ok, err}
use kubimo.Api.Meta.{Condition, Timestamp, Error, require_name, require_namespace}
use kubimo.Api.Pod.{Pod}
use kubimo.Api.Pool.{
  Pool, PoolStatus, pool_label, pool_state_label, pool_state_warm, pool_state_retiring,
}
use kubimo.Kube.Request.{
  PatchOperation, test_label, put_label, list_pods, patch_pod, apply_pod, delete_pod, create_secret,
  apply_secret, patch_pool_status, Handler, pure, answer, call, try_call, has_code, ◌>>=◌, ◌>>◌,
}
use kubimo.Pool.Fleet.{classify, split_warm}
use kubimo.Pool.WarmPod.{
  Config, Fingerprint, WarmPodIdentity, template_hash, mint_identity, build_warm_pod, claim_secret,
}

-- In seconds.
abbrev pub refresh_interval : ℕ
refresh_interval = 30

abbrev ready_type : String
ready_type = "Ready"

unfoldable pub retire_patch : List PatchOperation
retire_patch =
    test_label pool_state_label pool_state_warm
    ∷ put_label pool_state_label pool_state_retiring
    ∷ []

-- A pod that was claimed first, or is gone, is not an error.
unfoldable pub withdrawn : String → Result Error Pod → Handler Unit
withdrawn name (ok _) = do call (delete_pod name); pure tt
withdrawn name (err e) =
    if has_code 422 e then pure tt else if has_code 404 e then pure tt else answer (err e)

unfoldable pub retire : String → Handler Unit
unfolding withdrawn retire_patch
retire name = do r ← try_call (patch_pod name retire_patch); withdrawn name r

unfoldable pub retire_all : List Pod → Handler Unit
unfolding retire
retire_all [] = pure tt
retire_all (pod ∷ pods) = do name ← answer (require_name pod.metadata); retire name; retire_all pods

unfoldable pub delete_all : List Pod → Handler Unit
delete_all [] = pure tt
delete_all (pod ∷ pods) = do
  name ← answer (require_name pod.metadata)
  call (delete_pod name)
  delete_all pods

-- A Secret that exists already is left untouched.
unfoldable pub created_or_there : Result Error Unit → Handler Unit
created_or_there (ok _) = pure tt
created_or_there (err e) = if has_code 409 e then pure tt else answer (err e)

unfoldable pub restore_secrets : List Pod → Handler Unit
unfolding created_or_there
restore_secrets [] = pure tt
restore_secrets (pod ∷ pods) = do
  secret ← answer (claim_secret pod)
  r ← try_call (create_secret secret)
  created_or_there r
  restore_secrets pods

previous_ready : Pool → Option Condition
previous_ready pool =
    and_then pool.status (λ s. and_then s.conditions (find (λ c. c.type_ == ready_type)))

-- The time of the last transition: the recorded one if the status is the same.
since : Timestamp → String → Option Condition → Timestamp
since now status none = now
since now status (some previous) =
    if previous.status == status then previous.last_transition_time else now

unfoldable pub ready_condition : Timestamp → Pool → Bool → Condition
unfolding previous_ready since
ready_condition now pool ready =
    let status = if ready then "True" else "False" in
    record {
      type_ = ready_type;
      status = status;
      reason = if ready then "Ready" else "Filling";
      message = if ready then "All warm pods are minted" else "Minting warm pods up to replicas";
      observed_generation = pool.metadata.generation;
      last_transition_time = since now status (previous_ready pool);
    }

abbrev pub is_zero : ℕ → Bool
is_zero zero = true
is_zero (suc _) = false

-- The status of a pool with so many claimed and kept pods.
unfoldable pub reported : Timestamp → Pool → ℕ → ℕ → PoolStatus
reported now pool claimed kept = record {
  conditions = some (ready_condition now pool (is_zero (pool.spec.replicas - kept)) ∷ []);
  warm = some (kept % 2 ^ 32);
  claimed = some claimed;
}

module _ (digest : Fingerprint → List ℕ) (ingress_path_from_name : String → String)
    (draw : ℕ → List ℕ × List ℕ) where
  -- The name and the token of the next pod, from the bytes drawn for it.
  unfoldable pub minted : String → ℕ → WarmPodIdentity
  minted pool_name n = mint_identity digest ingress_path_from_name pool_name (draw n).0 (draw n).1

  unfoldable pub mint_all : Config → Pool → String → ℕ → Handler Unit
  mint_all config pool pool_name zero = pure tt
  mint_all config pool pool_name (suc n) = do
    pod ← answer (build_warm_pod digest ingress_path_from_name config pool (minted pool_name n))
    created ← call (apply_pod pod)
    secret ← answer (claim_secret created)
    call (apply_secret secret)
    mint_all config pool pool_name n

  unfoldable pub apply : Timestamp → Config → Pool → Handler ℕ
  apply now config pool = do
    answer (require_namespace pool.metadata)
    name ← answer (require_name pool.metadata)
    pods ← call (list_pods ((pool_label, name) ∷ []))
    let fleet = classify pods
    let split =
        split_warm (template_hash digest ingress_path_from_name config pool) pool.spec.replicas
          fleet.warm
    retire_all split.excess
    delete_all fleet.retiring
    restore_secrets split.kept
    mint_all config pool name (pool.spec.replicas - length split.kept)
    call (patch_pool_status (reported now pool fleet.claimed (length split.kept)))
    pure refresh_interval
