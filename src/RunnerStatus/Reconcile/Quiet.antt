-- ===== src/RunnerStatus/Reconcile/Quiet.antt =====
-- A reconcile that finds nothing new writes nothing.
use kubimo.Common.{Bool, true, ◌≡◌, refl, sym, some, [], unwrap_or}
use kubimo.Common.Result.{ok}
use kubimo.Api.Meta.{Timestamp}
use kubimo.Api.Runner.{Runner, RunnerStatus, status_eq_iff}
use kubimo.RunnerStatus.Detail.{Format}
use kubimo.RunnerStatus.Startup.{Cluster, claim_of, apply_startup_conditions}
use kubimo.RunnerStatus.Startup.Stable.{with_status, apply_startup_conditions_idem}
use kubimo.RunnerStatus.Poll.{Answers}
use kubimo.RunnerStatus.Reconcile.{Config, empty_status, is_unpolled, proceed, apply}

module _ (config : Config) (answers : Answers) (now : Timestamp) (runner : Runner) where
  proceed_quiet :
      (status : RunnerStatus) (complete : Bool)
      → runner.status ≡ some status
      → is_unpolled runner status ≡ true
      → (proceed config answers now runner (status, complete)).calls ≡ []
  unfolding proceed
  proceed_quiet status complete e u =
      rw u (rw ((status_eq_iff (some status) runner.status).1 (sym e)))

calls-apply_eq :
    (fmt : Format) (config : Config) (cluster : Cluster) (answers : Answers) (now : Timestamp)
    (runner : Runner) (started : RunnerStatus × Bool)
    → apply_startup_conditions fmt config.default_workspace_mode now cluster runner
        (unwrap_or runner.status empty_status)
      ≡ ok started
    → (apply fmt config cluster answers now runner).calls
      ≡ (proceed config answers now runner started).calls
unfolding apply
calls-apply_eq fmt config cluster answers now runner started e = rw e

-- If a pass over the cluster gave a status that is now on the runner, the runner's claim has not
-- changed and the runner is not one to poll, then a reconcile at any later time, with the same
-- answers from the cluster, calls nothing.
pub apply_quiet :
    (fmt : Format) (config : Config) (cluster : Cluster) (answers : Answers) (now later : Timestamp)
    (runner : Runner) (written : RunnerStatus) (complete : Bool)
    → apply_startup_conditions fmt config.default_workspace_mode now cluster runner
        (unwrap_or runner.status empty_status)
      ≡ ok (written, complete)
    → written.claim ≡ claim_of runner
    → is_unpolled (with_status runner written) written ≡ true
    → (apply fmt config cluster answers later (with_status runner written)).calls ≡ []
apply_quiet fmt config cluster answers now later runner written complete h c u =
    rw (calls-apply_eq fmt config cluster answers later (with_status runner written) _ again)
      (proceed_quiet config answers later (with_status runner written) written complete refl u)
  where
    again :
        apply_startup_conditions fmt config.default_workspace_mode later cluster
          (with_status runner written)
          written
        ≡ ok (written, complete)
    again =
        apply_startup_conditions_idem fmt config.default_workspace_mode now later cluster runner
          (unwrap_or runner.status empty_status) written complete h c
