-- ===== src/RunnerStatus/Startup.antt =====
-- The startup conditions of a runner, computed from the cluster:
-- controller/src/controllers/runner_status/apply_conditions.rs.
pub mod Complete
pub mod Stable
use kubimo.Common.{String, Bool, Option, none, some, List, [], and_then, map_or, unwrap_or}
use kubimo.Common.Int.{ℤ}
use kubimo.Common.Result.{Result, ok, ◌>>=◌, ◌>>◌}
use kubimo.Api.Meta.{Condition, Timestamp, Error, require_name, require_namespace}
use kubimo.Api.Pod.{Pod, PersistentVolumeClaim}
use kubimo.Api.Workspace.{Workspace, WorkspaceMode, dedicated, pooled, effective_mode}
use kubimo.Api.Runner.{Runner, RunnerStatus, RunnerClaim}
use kubimo.RunnerStatus.Detail.{Format}
use kubimo.RunnerStatus.Bound.{pvc_bound_condition, slot_bound_condition, claim_bound_condition}
use kubimo.RunnerStatus.Observed.{
  workspace_ready_condition, pod_scheduled_condition, pod_ready_condition,
}
use kubimo.RunnerStatus.Upsert.{upsert_condition, startup_complete}

-- What the API server answers to `get_opt` in the runner's namespace.
pub record Cluster : Type 0 where
  pub pods : String → Result Error (Option Pod)
  pub pvcs : String → Result Error (Option PersistentVolumeClaim)
  pub workspaces : String → Result Error (Option Workspace)

unfoldable pub claim_of : Runner → Option RunnerClaim
claim_of runner = and_then runner.status (λ s. s.claim)

-- A claimed runner's pod is the warm pod that it adopted.
pod_name_of : Runner → String → String
unfolding claim_of
pod_name_of runner name = map_or name (λ c. c.pod_name) (claim_of runner)

-- The objects that one reconcile reads.
pub record Snapshot : Type 0 where
  pub pod : Option Pod
  pub pvc : Option PersistentVolumeClaim
  pub workspace : Option Workspace

-- The three reads of `try_join!`.
unfoldable pub observe : Cluster → Runner → Result Error Snapshot
unfolding pod_name_of require_name require_namespace
observe cluster runner = do
  require_namespace runner.metadata
  name ← require_name runner.metadata
  pod ← cluster.pods (pod_name_of runner name)
  pvc ← cluster.pvcs runner.spec.workspace
  workspace ← cluster.workspaces runner.spec.workspace
  ok (record { pod = pod; pvc = pvc; workspace = workspace })

unfoldable pub mode_of : WorkspaceMode → Option Workspace → WorkspaceMode
unfolding effective_mode
mode_of default_mode workspace = map_or default_mode (λ w. effective_mode w default_mode) workspace

module _ (fmt : Format) (default_mode : WorkspaceMode) (now : Timestamp) where
  volume_for : Runner → Snapshot → WorkspaceMode → Option RunnerClaim → Condition
  unfolding pvc_bound_condition claim_bound_condition slot_bound_condition
  volume_for runner seen dedicated _ =
      pvc_bound_condition fmt now runner.spec.workspace seen.pvc runner.metadata.generation
  volume_for runner seen pooled (some _) =
      claim_bound_condition now seen.pod runner.metadata.generation
  volume_for runner seen pooled none =
      slot_bound_condition fmt now seen.pod runner.metadata.generation

  -- The source of truth that fits the workspace's mode.
  unfoldable pub volume_condition : Runner → Snapshot → Condition
  unfolding volume_for mode_of claim_of
  volume_condition runner seen =
      volume_for runner seen (mode_of default_mode seen.workspace) (claim_of runner)

  unfoldable pub workspace_condition : Runner → Snapshot → Condition
  unfolding workspace_ready_condition
  workspace_condition runner seen =
      workspace_ready_condition fmt now runner.spec.workspace seen.workspace
        runner.metadata.generation

  unfoldable pub scheduled_condition : Runner → Snapshot → Condition
  unfolding pod_scheduled_condition
  scheduled_condition runner seen = pod_scheduled_condition now seen.pod runner.metadata.generation

  unfoldable pub ready_condition : Runner → Snapshot → Condition
  unfolding pod_ready_condition
  ready_condition runner seen = pod_ready_condition fmt now seen.pod runner.metadata.generation

  unfoldable pub update_conditions : Runner → Snapshot → List Condition → List Condition
  update_conditions runner seen conditions =
      upsert_condition
        (upsert_condition
          (upsert_condition (upsert_condition conditions (volume_condition runner seen))
            (workspace_condition runner seen))
          (scheduled_condition runner seen))
        (ready_condition runner seen)

  -- The status with its conditions up to date, and whether startup is complete.
  unfoldable pub apply_startup_conditions :
      Cluster → Runner → RunnerStatus → Result Error (RunnerStatus × Bool)
  unfolding update_conditions
  apply_startup_conditions cluster runner status = do
    seen ← observe cluster runner
    let conditions = update_conditions runner seen (unwrap_or status.conditions [])
    ok (record status { conditions = some conditions }, startup_complete conditions)
