-- ===== src/RunnerStatus/Reconcile.antt =====
-- One reconcile of a runner's status: `apply` of controller/src/controllers/runner_status/mod.rs.
pub mod Quiet
pub mod Collection
use kubimo.Common.{
  ℕ, Bool, true, false, ◌||◌, ◌&&◌, not, Option, none, some, unwrap_or, is_some, if◌then◌else◌,
}
use kubimo.Common.Result.{Result, ok, err}
use kubimo.Common.Effect.{Run, pure, answer, call, ◌>>=◌, ◌>>◌}
use kubimo.Api.Meta.{Timestamp, Error, require_name, require_namespace}
use kubimo.Api.Workspace.{WorkspaceMode}
use kubimo.Api.Runner.{Runner, RunnerStatus, RunnerCommand, edit, run, render, status_eq}
use kubimo.RunnerStatus.Detail.{Format}
use kubimo.RunnerStatus.Upsert.{volume_is_bound, startup_requeue_interval}
use kubimo.RunnerStatus.Startup.{Cluster, claim_of, apply_startup_conditions}
use kubimo.RunnerStatus.Poll.{
  Action, requeue, await_change, Call, patch_status, Answers, conditions_of, poll_api_status,
}

pub record Config : Type 0 where
  pub default_workspace_mode : WorkspaceMode
  pub interval_secs : ℕ

is_render : RunnerCommand → Bool
is_render render = true
is_render edit = false
is_render run = false

-- A claim that the agent has not answered yet.
claim_pending : Runner → RunnerStatus → Bool
unfolding claim_of conditions_of volume_is_bound
claim_pending runner status =
    is_some (claim_of runner) && not (volume_is_bound (conditions_of status))

unfoldable pub is_unpolled : Runner → RunnerStatus → Bool
unfolding is_render claim_pending
is_unpolled runner status = is_render runner.spec.command || claim_pending runner status

abbrev pub empty_status : RunnerStatus
empty_status = record { conditions = none; last_active = none; marimo_version = none; claim = none }

poll_unless :
    Bool
    → Answers
    → Timestamp
    → ℕ
    → Runner
    → RunnerStatus
    → Run Call Error (RunnerStatus × Option Action)
poll_unless true answers now interval runner status = pure (status, some await_change)
poll_unless false answers now interval runner status =
    poll_api_status answers now interval runner status

patch_if_changed : Answers → Runner → RunnerStatus → Run Call Error (Unit {0})
unfolding require_namespace require_name
patch_if_changed answers runner status =
    if status_eq (some status) runner.status then pure tt else do
      answer (require_namespace runner.metadata)
      answer (require_name runner.metadata)
      call (patch_status status) answers.patched

finish :
    Answers → Timestamp → ℕ → Runner → Bool → RunnerStatus × Option Action → Run Call Error Action
unfolding patch_if_changed conditions_of
finish answers now interval runner complete (status, none) = pure await_change
finish answers now interval runner complete (status, some action) = do
  let wait = startup_requeue_interval (conditions_of status) now interval
  patch_if_changed answers runner status
  pure (if complete then action else requeue wait)

-- The rest of `apply`, with the status that has its startup conditions and whether they hold.
proceed : Config → Answers → Timestamp → Runner → RunnerStatus × Bool → Run Call Error Action
unfolding poll_unless finish
proceed config answers now runner (status, complete) = do
  outcome ← poll_unless (is_unpolled runner status) answers now config.interval_secs runner status
  finish answers now config.interval_secs runner complete outcome

unfoldable pub apply :
    Format → Config → Cluster → Answers → Timestamp → Runner → Run Call Error Action
unfolding proceed
apply fmt config cluster answers now runner = do
  started ← answer (
      apply_startup_conditions fmt config.default_workspace_mode now cluster runner
        (unwrap_or runner.status empty_status))
  proceed config answers now runner started
