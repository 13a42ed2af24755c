-- ===== src/RunnerStatus/Bound.antt =====
-- Whether a runner's storage is bound, in the three ways of conditions.rs: by the volume claim, by
-- the slot that its pod mounted, and by the agent's answer to a claim of a warm pod.
use Prim.Native.String.{◌++◌}
use kubimo.Common.{
  String, Bool, false, ◌||◌, Option, none, some, List, [], any, and_then, unwrap_or, is_some,
  is_some_and, lookup, ◌==◌, text_partial_eq, if◌then◌else◌,
}
use kubimo.Common.Int.{ℤ, pos, lt_int}
use kubimo.Api.Meta.{Condition, Timestamp, pvc_bound}
use kubimo.Api.Pod.{Pod, PersistentVolumeClaim, ContainerStatus, ContainerState}
use kubimo.Api.Pool.{
  claim_state_annotation, claim_state_bound, claim_state_failed, claim_error_annotation,
}
use kubimo.RunnerStatus.Detail.{Format, Detail, detail, condition, container_state_detail}

phase_detail : Option String → Detail
phase_detail none = detail "False" "Pending" "PersistentVolumeClaim is pending"
phase_detail (some phase) =
    if phase == "Bound"
    then detail "True" "Bound" "PersistentVolumeClaim is bound"
    else if phase == "Lost"
    then detail "False" "Lost" "PersistentVolumeClaim is lost"
    else detail "False" "Pending" "PersistentVolumeClaim is pending"

pvc_bound_detail : Format → String → Option PersistentVolumeClaim → Detail
unfolding phase_detail
pvc_bound_detail fmt pvc_name none =
    detail "False" "NotFound" ("PersistentVolumeClaim " ++ fmt.debug pvc_name ++ " not found")
pvc_bound_detail fmt pvc_name (some pvc) = phase_detail (and_then pvc.status (λ s. s.phase))

unfoldable pub pvc_bound_condition :
    Format → Timestamp → String → Option PersistentVolumeClaim → Option ℤ → Condition
unfolding pvc_bound_detail condition
pvc_bound_condition fmt now pvc_name pvc observed_generation =
    condition now pvc_bound (pvc_bound_detail fmt pvc_name pvc) observed_generation

is_up : ContainerState → Bool
is_up state = is_some state.running || is_some state.terminated

-- Has the container ever started, which it cannot before its volumes are mounted?
unfoldable pub has_started : ContainerStatus → Bool
unfolding is_up
has_started c =
    unwrap_or c.started false
    || lt_int (pos 0) c.restart_count
    || is_some_and (λ s. is_some s.terminated) c.last_state
    || is_some_and is_up c.state

unfoldable pub container_statuses : Pod → List ContainerStatus
container_statuses pod = unwrap_or (and_then pod.status (λ s. s.container_statuses)) []

slot_bound_detail : Format → Option Pod → Detail
unfolding has_started container_statuses
slot_bound_detail fmt none = detail "False" "Pending" "Waiting for the runner pod to be created"
slot_bound_detail fmt (some pod) =
    if any has_started (container_statuses pod)
    then detail "True" "Bound" "Workspace slot is mounted"
    else unwrap_or (container_state_detail fmt pod)
        (detail "False" "Pending" "Waiting for the workspace slot to be mounted")

unfoldable pub slot_bound_condition : Format → Timestamp → Option Pod → Option ℤ → Condition
unfolding slot_bound_detail condition
slot_bound_condition fmt now pod observed_generation =
    condition now pvc_bound (slot_bound_detail fmt pod) observed_generation

unfoldable pub pod_annotation : String → Pod → Option String
pod_annotation key pod = and_then pod.metadata.annotations (lookup key)

claim_state_detail : Pod → Option String → Detail
unfolding pod_annotation
claim_state_detail pod none =
    detail "False" "ClaimPending" "Waiting for the agent to hydrate the claimed slot"
claim_state_detail pod (some state) =
    if state == claim_state_bound
    then detail "True" "Bound" "Workspace slot is hydrated and bound"
    else if state == claim_state_failed
    then detail "False" "ClaimFailed" (
        unwrap_or (pod_annotation claim_error_annotation pod)
          "The agent could not bind the claimed slot")
    else detail "False" "ClaimPending" "Waiting for the agent to hydrate the claimed slot"

claim_bound_detail : Option Pod → Detail
unfolding claim_state_detail pod_annotation
claim_bound_detail none = detail "False" "Pending" "Waiting for the claimed pod"
claim_bound_detail (some pod) = claim_state_detail pod (pod_annotation claim_state_annotation pod)

unfoldable pub claim_bound_condition : Timestamp → Option Pod → Option ℤ → Condition
unfolding claim_bound_detail condition
claim_bound_condition now pod observed_generation =
    condition now pvc_bound (claim_bound_detail pod) observed_generation
