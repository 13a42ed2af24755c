-- ===== src/Runner/Claim.antt =====
-- The claim of a warm pod: controller/src/controllers/runner/apply_claim.rs.
pub mod Merged
use Prim.Native.String.{◌++◌ as append}
use kubimo.Common.{
  String, Bool, true, false, not, ◌&&◌, ◌||◌, ◌++◌, Option, none, some, List, [], ◌∷◌, and_then,
  unwrap_or, is_some, find, filter, lookup, sort_by, ◌==◌, PartialEq, derived, text_partial_eq,
  String-discrete, if◌then◌else◌, Dict,
}
use kubimo.Common.Equal.{option_partial_eq, le_text}
use kubimo.Common.Result.{Result, ok, err}
use kubimo.Api.Meta.{
  name_label, workspace_label, Error, custom, OwnerReference, require_name, require_namespace,
  static_controller_owner_ref,
}
use kubimo.Api.Pod.{Pod, Container, EnvVar, EnvFromSource}
use kubimo.Api.Workspace.{Workspace, WorkspacePythonRuntime}
use kubimo.Api.Runner.{Runner, RunnerClaim, RunnerStatus}
use kubimo.Api.Pool.{
  Pool, PoolClaim, pool_label, pool_state_label, pool_state_warm, pool_state_claimed,
  claim_annotation, claim_state_annotation, claim_state_bound, claim_state_failed,
  warm_base_url_annotation, warm_token_annotation,
}
use kubimo.Kube.Request.{
  PatchOperation, test_label, put_label, add_label, put_owners, add_annotation, get_pod, list_pods,
  patch_pod, delete_pod, get_secret, apply_secret, get_pool, patch_runner_status, Handler, pure,
  answer, call, try_call, has_code, ◌>>=◌, ◌>>◌,
}
use kubimo.Pool.Fleet.{not_younger}
use kubimo.Pool.WarmPod.{claim_secret}
use kubimo.Runner.Sources.{pool_claim}
use kubimo.Runner.Eligible.{Context, eligible}
use kubimo.Runner.Winner.{has_label_key, may_hold_a_slot, claim_winner}

-- `acked` is whether the agent has bound the slot.
pub data ClaimOutcome : Type 0 where
  claimed : (acked : Bool) → ClaimOutcome
  cold_path : ClaimOutcome

instance abbrev pub claim_partial_eq : PartialEq RunnerClaim
claim_partial_eq = derived (hlevel String-discrete)

unfoldable pub recorded_claim : Runner → Option RunnerClaim
recorded_claim runner = and_then runner.status (λ s. s.claim)

unfoldable pub with_claim : Option RunnerClaim → Option RunnerStatus → RunnerStatus
with_claim claim none = record {
  conditions = none;
  last_active = none;
  marimo_version = none;
  claim = claim;
}
with_claim claim (some status) = record status { claim = claim }

unfoldable pub record_claim : Runner → Option RunnerClaim → Handler Unit
unfolding with_claim
record_claim runner claim = do
  answer (require_namespace runner.metadata)
  call (patch_runner_status (with_claim claim runner.status))
  pure tt

-- Whether a claim was recorded, and is now dropped.
unfoldable pub clear_stale_claim : Runner → Handler Bool
unfolding record_claim recorded_claim
clear_stale_claim runner =
    if not (is_some (recorded_claim runner))
    then pure false
    else (record_claim runner none >> pure true)

secret_of_var : EnvVar → List String → List String
secret_of_var var names = elim (and_then var.value_from (λ source. source.secret_key_ref)) [
  | none ↦ names
  | some ref ↦ ref.name ∷ names
]

secrets_of_vars : List EnvVar → List String
unfolding secret_of_var
secrets_of_vars [] = []
secrets_of_vars (var ∷ vars) = secret_of_var var (secrets_of_vars vars)

secret_of_source : EnvFromSource → List String → List String
secret_of_source source names = elim source.secret_ref [ none ↦ names | some name ↦ name ∷ names ]

secrets_of_sources : List EnvFromSource → List String
unfolding secret_of_source
secrets_of_sources [] = []
secrets_of_sources (source ∷ sources) = secret_of_source source (secrets_of_sources sources)

dedup_after : String → List String → List String
dedup_after last [] = []
dedup_after last (name ∷ names) =
    let rest = dedup_after name names in if name == last then rest else name ∷ rest

-- `Vec::dedup`: of equal neighbours the first.
dedup : List String → List String
unfolding dedup_after
dedup [] = []
dedup (name ∷ names) = name ∷ dedup_after name names

secrets_of : List Container → List String
unfolding secrets_of_vars secrets_of_sources
secrets_of [] = []
secrets_of (c ∷ cs) =
    secrets_of_vars (unwrap_or c.env [])
    ++ (secrets_of_sources (unwrap_or c.env_from []) ++ secrets_of cs)

unfoldable pub sidecar_secret_names : List Container → List String
unfolding secrets_of dedup
sidecar_secret_names sidecars = dedup (sort_by le_text (secrets_of sidecars))

unfoldable pub claim_patch : String → String → OwnerReference → String → List PatchOperation
claim_patch runner_name workspace owner claim_json =
    test_label pool_state_label pool_state_warm
    ∷ put_label pool_state_label pool_state_claimed
    ∷ add_label name_label runner_name
    ∷ add_label workspace_label workspace
    ∷ put_owners (owner ∷ [])
    ∷ add_annotation claim_annotation claim_json
    ∷ []

unfoldable pub annotation_of : String → Pod → Option String
annotation_of key pod = and_then pod.metadata.annotations (lookup key)

-- A lost race: the next pod is tried.
unfoldable pub is_lost : Error → Bool
is_lost e = has_code 422 e || has_code 404 e || has_code 409 e

unfoldable pub claimed_here : Pod → Bool
unfolding has_label_key may_hold_a_slot
claimed_here pod =
    has_label_key pod pool_label
    && not (is_some pod.metadata.deletion_timestamp)
    && may_hold_a_slot pod

unfoldable pub is_rival : Option String → String → Bool
is_rival none name = false
is_rival (some winner) name = not (winner == name)

unfoldable pub claim_of : String → String → Pod → RunnerClaim
unfolding annotation_of
claim_of pool_name pod_name pod = record {
  pool = pool_name;
  pod_name = pod_name;
  ingress_path = unwrap_or (annotation_of warm_base_url_annotation pod) "";
  token = annotation_of warm_token_annotation pod;
}

unfoldable pub is_empty : List Pod → Bool
is_empty [] = true
is_empty (_ ∷ _) = false

unfoldable pub claim_if : Result String Unit → Handler ClaimOutcome → Handler ClaimOutcome
claim_if (ok _) next = next
claim_if (err reason) next = pure cold_path

unfoldable pub is_mine : Pod → Bool
is_mine pod = has_label_key pod pool_label && not (is_some pod.metadata.deletion_timestamp)

-- How a text is shown by `{:?}`, and the JSON of a claim.
module _ (ctx : Context) (debug : String → String) (to_json : PoolClaim → Result Error String) where
  unfoldable pub collision : Runner → String → Error
  collision runner key = elim (require_name runner.metadata) [
    | err e ↦ e
    | ok name ↦ custom (
        append "sidecar Secrets of runner " (
          append name (
            append " share the key "
              (append (debug key) "; cannot flatten them into the claim Secret"))))
  ]

  -- A key that two Secrets share is an error.
  unfoldable pub merged : Runner → Dict String → Dict String → Result Error (Dict String)
  unfolding collision
  merged runner into [] = ok into
  merged runner into ((key, value) ∷ rest) =
      if is_some (lookup key into)
      then err (collision runner key)
      else merged runner ((key, value) ∷ into) rest

  unfoldable pub gather : Runner → Dict String → List String → Handler (Dict String)
  unfolding merged
  gather runner into [] = pure into
  gather runner into (name ∷ names) = do
    secret ← call (get_secret name)
    into' ← answer (merged runner into (unwrap_or secret.contents []))
    gather runner into' names

  unfoldable pub copy_secrets : Runner → Pod → List String → Handler Unit
  unfolding gather
  copy_secrets runner pod [] = pure tt
  copy_secrets runner pod (name ∷ names) = do
    answer (require_namespace runner.metadata)
    contents ← gather runner [] (name ∷ names)
    secret ← answer (claim_secret pod)
    call (apply_secret (record secret { contents = some contents }))
    pure tt

  unfoldable pub copy_sidecar_secrets : Runner → Pod → Handler Unit
  unfolding copy_secrets
  copy_sidecar_secrets runner pod =
      copy_secrets runner pod (sidecar_secret_names (unwrap_or runner.spec.sidecars []))

  -- The status is written if it does not hold the claim.
  unfoldable pub heal : Runner → RunnerClaim → Handler Unit
  unfolding recorded_claim
  heal runner claim =
      if recorded_claim runner == some claim then pure tt else record_claim runner (some claim)

  unfoldable pub bind_claim : Runner → String → Pod → String → Handler ClaimOutcome
  unfolding heal claim_of annotation_of
  bind_claim runner pool_name pod pod_name = do
    heal runner (claim_of pool_name pod_name pod)
    copy_sidecar_secrets runner pod
    pure (claimed (annotation_of claim_state_annotation pod == some claim_state_bound))

  unfoldable pub settle : Runner → String → Pod → List Pod → Handler ClaimOutcome
  unfolding bind_claim is_rival claimed_here
  settle runner pool_name pod others = do
    pod_name ← answer (require_name pod.metadata)
    if is_rival (claim_winner (filter claimed_here others)) pod_name
        then (call (delete_pod pod_name) >> pure cold_path)
        else bind_claim runner pool_name pod pod_name

  unfoldable pub give_up : Runner → Pod → Handler ClaimOutcome
  give_up runner pod = do
    pod_name ← answer (require_name pod.metadata)
    call (delete_pod pod_name)
    record_claim runner none
    pure cold_path

  -- A failed claim is given up; of two claims of a workspace one concedes.
  unfoldable pub adopt_claimed_pod : Runner → String → Pod → Handler ClaimOutcome
  unfolding settle annotation_of give_up
  adopt_claimed_pod runner pool_name pod = do
    answer (require_namespace runner.metadata)
    if annotation_of claim_state_annotation pod == some claim_state_failed
        then give_up runner pod
        else (call (list_pods ((workspace_label, runner.spec.workspace) ∷ []))
            >>= settle runner pool_name pod)

  unfoldable pub after_patch :
      Runner → String → Result Error Pod → Handler ClaimOutcome → Handler ClaimOutcome
  unfolding is_lost
  after_patch runner pool_name (ok pod) next = adopt_claimed_pod runner pool_name pod
  after_patch runner pool_name (err e) next = if is_lost e then next else answer (err e)

  unfoldable pub claim_first : Runner → String → String → String → List Pod → Handler ClaimOutcome
  unfolding after_patch claim_patch
  claim_first runner runner_name pool_name claim_json [] = pure cold_path
  claim_first runner runner_name pool_name claim_json (pod ∷ pods) = do
    pod_name ← answer (require_name pod.metadata)
    owner ← answer (static_controller_owner_ref "Runner" runner.metadata)
    r ←
        try_call
          (patch_pod pod_name (claim_patch runner_name runner.spec.workspace owner claim_json))
    after_patch runner pool_name r (claim_first runner runner_name pool_name claim_json pods)

  unfoldable pub claim_warm : Runner → Workspace → String → String → Handler ClaimOutcome
  claim_warm runner workspace runner_name pool_name = do
    warm ← call (list_pods ((pool_label, pool_name) ∷ (pool_state_label, pool_state_warm) ∷ []))
    claim_json ← answer (to_json (pool_claim ctx.float64 runner workspace))
    claim_first runner runner_name pool_name claim_json
        (sort_by not_younger (filter (λ pod. not (is_some pod.metadata.deletion_timestamp)) warm))

  -- Any pod that may hold the slot of the workspace keeps the runner cold.
  unfoldable pub claim_unshared : Runner → Workspace → String → String → Handler ClaimOutcome
  unfolding claim_warm is_empty
  claim_unshared runner workspace runner_name pool_name = do
    pods ← call (list_pods ((workspace_label, runner.spec.workspace) ∷ []))
    if is_empty (filter may_hold_a_slot pods)
        then claim_warm runner workspace runner_name pool_name
        else pure cold_path

  unfoldable pub claim_from :
      Runner
      → Workspace
      → WorkspacePythonRuntime
      → String
      → String
      → Option Pool
      → Handler ClaimOutcome
  unfolding claim_if claim_unshared
  claim_from runner workspace runtime runner_name pool_name none = pure cold_path
  claim_from runner workspace runtime runner_name pool_name (some pool) =
      claim_if (eligible ctx runner workspace pool runtime)
        (claim_unshared runner workspace runner_name pool_name)

  unfoldable pub claim_or_adopt :
      Runner
      → Workspace
      → WorkspacePythonRuntime
      → String
      → String
      → Option Pod
      → Handler ClaimOutcome
  unfolding claim_from
  claim_or_adopt runner workspace runtime runner_name pool_name (some pod) =
      adopt_claimed_pod runner pool_name pod
  claim_or_adopt runner workspace runtime runner_name pool_name none =
      call (get_pool pool_name) >>= claim_from runner workspace runtime runner_name pool_name

  -- A pod of the runner's own name was started cold.
  unfoldable pub claim_unless_cold :
      Runner
      → Workspace
      → WorkspacePythonRuntime
      → String
      → String
      → Option Pod
      → Handler ClaimOutcome
  unfolding claim_or_adopt is_mine
  claim_unless_cold runner workspace runtime runner_name pool_name (some _) = pure cold_path
  claim_unless_cold runner workspace runtime runner_name pool_name none = do
    mine ← call (list_pods ((name_label, runner_name) ∷ []))
    claim_or_adopt runner workspace runtime runner_name pool_name (find is_mine mine)

  unfoldable pub claim_in :
      Runner → Workspace → WorkspacePythonRuntime → Option String → Handler ClaimOutcome
  unfolding claim_unless_cold
  claim_in runner workspace runtime none = pure cold_path
  claim_in runner workspace runtime (some pool_name) = do
    answer (require_namespace runner.metadata)
    runner_name ← answer (require_name runner.metadata)
    cold ← call (get_pod runner_name)
    claim_unless_cold runner workspace runtime runner_name pool_name cold

  unfoldable pub apply_claim : Runner → Workspace → WorkspacePythonRuntime → Handler ClaimOutcome
  unfolding claim_in
  apply_claim runner workspace runtime = claim_in runner workspace runtime runner.spec.pool
