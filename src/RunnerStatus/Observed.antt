-- ===== src/RunnerStatus/Observed.antt =====
-- The conditions that repeat what the cluster reports of a runner's workspace and pod:
-- controller/src/controllers/runner_status/conditions.rs.
use Prim.Native.String.{◌++◌}
use kubimo.Common.{
  String, Option, none, some, List, find, and_then, unwrap_or, ◌==◌, text_partial_eq, if◌then◌else◌,
}
use kubimo.Common.Int.{ℤ}
use kubimo.Api.Meta.{Condition, Timestamp, workspace_ready, pod_scheduled, pod_ready}
use kubimo.Api.Pod.{Pod, PodCondition}
use kubimo.Api.Workspace.{Workspace}
use kubimo.RunnerStatus.Detail.{Format, Detail, detail, condition, container_state_detail}

-- The condition of a type in a list: the first, where there are several.
unfoldable pub find_condition : String → List Condition → Option Condition
find_condition type_ = find (λ c. c.type_ == type_)

unfoldable pub find_pod_condition : String → Pod → Option PodCondition
find_pod_condition type_ pod =
    and_then pod.status (λ s. and_then s.conditions (find (λ c. c.type_ == type_)))

workspace_ready_detail : Format → String → Option Workspace → Detail
unfolding find_condition
workspace_ready_detail fmt workspace_name none =
    detail "False" "NotFound" ("Workspace " ++ fmt.debug workspace_name ++ " not found")
workspace_ready_detail fmt workspace_name (some w) =
    elim (and_then w.status (λ s. and_then s.conditions (find_condition "Ready"))) [
      | none ↦ detail "False" "Pending" "Workspace has no Ready condition yet"
      | some ready ↦ detail ready.status ready.reason ready.message
    ]

unfoldable pub workspace_ready_condition :
    Format → Timestamp → String → Option Workspace → Option ℤ → Condition
unfolding workspace_ready_detail condition
workspace_ready_condition fmt now workspace_name workspace observed_generation =
    condition now workspace_ready (workspace_ready_detail fmt workspace_name workspace)
      observed_generation

scheduled_detail : Option PodCondition → Detail
scheduled_detail none = detail "False" "Pending" "Pod has not been scheduled yet"
scheduled_detail (some c) =
    if c.status == "True"
    then detail "True" "Scheduled" "Pod has been scheduled"
    else detail "False" (unwrap_or c.reason "Pending")
        (unwrap_or c.message "Pod has not been scheduled yet")

pod_scheduled_detail : Option Pod → Detail
unfolding scheduled_detail find_pod_condition
pod_scheduled_detail none = detail "False" "NotPresent" "Pod not created yet"
pod_scheduled_detail (some pod) = scheduled_detail (find_pod_condition "PodScheduled" pod)

unfoldable pub pod_scheduled_condition : Timestamp → Option Pod → Option ℤ → Condition
unfolding pod_scheduled_detail condition
pod_scheduled_condition now pod observed_generation =
    condition now pod_scheduled (pod_scheduled_detail pod) observed_generation

ready_detail : Format → Pod → Option PodCondition → Detail
ready_detail fmt pod none = detail "False" "NotStarted" "Not started"
ready_detail fmt pod (some ready) =
    if ready.status == "True"
    then detail "True" "Ready" "Ready"
    else unwrap_or (container_state_detail fmt pod) (detail "False" "NotReady" "Not ready")

pod_ready_detail : Format → Option Pod → Detail
unfolding ready_detail find_pod_condition
pod_ready_detail fmt none = detail "False" "NotPresent" "Not present"
pod_ready_detail fmt (some pod) = ready_detail fmt pod (find_pod_condition "Ready" pod)

unfoldable pub pod_ready_condition : Format → Timestamp → Option Pod → Option ℤ → Condition
unfolding pod_ready_detail condition
pod_ready_condition fmt now pod observed_generation =
    condition now pod_ready (pod_ready_detail fmt pod) observed_generation
