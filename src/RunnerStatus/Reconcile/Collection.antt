-- ===== src/RunnerStatus/Reconcile/Collection.antt =====
-- Which runners a reconcile may delete: `apply` of controller/src/controllers/runner_status/mod.rs.
use mathlib.Core.Bool.{false≢true}
use kubimo.Common.{
  Bool, true, false, ◌≡◌, ◌⊎◌, inl, inr, refl, Option, none, some, [], arith, any, unwrap_or,
  Bool-cases, ◌∙◌, sym,
}
use kubimo.Common.Result.{ok, err, Result-cases}
use kubimo.Common.Effect.{calls-bind_quiet}
use kubimo.Api.Meta.{Timestamp, Error}
use kubimo.Api.Runner.{Runner, RunnerStatus, RunnerClaim, render}
use kubimo.RunnerStatus.Detail.{Format}
use kubimo.RunnerStatus.Upsert.{startup_complete, pod_is_ready}
use kubimo.RunnerStatus.Upsert.Lookup.{Unique}
use kubimo.RunnerStatus.Startup.{
  Cluster, Snapshot, observe, claim_of, volume_condition, ready_condition, update_conditions,
  apply_startup_conditions,
}
use kubimo.RunnerStatus.Startup.Complete.{says_true, ready-update, volume-update}
use kubimo.RunnerStatus.Poll.{Call, patch_status, Action, Answers, conditions_of}
use kubimo.RunnerStatus.Poll.Collection.{Collectable, is_delete, deletes, poll-deletes}
use kubimo.RunnerStatus.Reconcile.{
  Config, empty_status, is_unpolled, poll_unless, finish, proceed, apply,
}

-- A call to the runner, or one that deletes it: all but the write of its status.
abbrev pub is_poll : Call → Bool
is_poll (patch_status status) = false
is_poll _ = true

module _ (fmt : Format) (config : Config) (cluster : Cluster) (answers : Answers) (now : Timestamp)
    (runner : Runner) where
  abbrev before : RunnerStatus
  before = unwrap_or runner.status empty_status

  -- The status after the startup conditions have been computed from what was read.
  abbrev pub started : Snapshot → RunnerStatus
  started seen = record before {
    conditions = some (
        update_conditions fmt config.default_workspace_mode now runner seen
          (unwrap_or before.conditions []));
  }

  finish-deletes :
      (complete : Bool) (outcome : RunnerStatus × Option Action)
      → deletes (finish answers now config.interval_secs runner complete outcome).calls ≡ false
  unfolding finish
  finish-deletes complete (status, none) = refl
  finish-deletes complete (status, some action) = ground arith

  unless-deletes :
      (unpolled : Bool) (status : RunnerStatus)
      → deletes (poll_unless unpolled answers now config.interval_secs runner status).calls ≡ true
      → (unpolled ≡ false) × Collectable answers.connections (conditions_of status) runner now
  unfolding poll_unless
  unless-deletes true status h = cc
  unless-deletes false status h =
      (refl, poll-deletes answers now config.interval_secs runner status h)

  proceed-deletes :
      (status : RunnerStatus) (complete : Bool)
      → deletes (proceed config answers now runner (status, complete)).calls
        ≡ deletes
            (poll_unless
              (is_unpolled runner status)
              answers
              now
              config.interval_secs
              runner
              status).calls
  unfolding proceed
  proceed-deletes status complete =
      calls-bind_quiet {E = Error} {B = Action} is_delete
        (poll_unless (is_unpolled runner status) answers now config.interval_secs runner status)
        (λ outcome. finish answers now config.interval_secs runner complete outcome)
        (finish-deletes complete)

  calls-apply :
      (seen : Snapshot)
      → observe cluster runner ≡ ok seen
      → (apply fmt config cluster answers now runner).calls
        ≡ (proceed config answers now runner
            (started seen, startup_complete (conditions_of (started seen)))).calls
  unfolding apply_startup_conditions conditions_of apply
  calls-apply seen o = rw o

  calls-apply_failed :
      (e : Error)
      → observe cluster runner ≡ err e
      → (apply fmt config cluster answers now runner).calls ≡ []
  unfolding apply_startup_conditions apply
  calls-apply_failed e o = rw o

  -- A reconcile that deletes the runner has read the cluster and is one that polls, and the runner
  -- is collectable by the conditions that this reconcile computed: not active, past its deadline,
  -- and if it could not be reached, unready for the grace period.
  pub apply-deletes :
      deletes (apply fmt config cluster answers now runner).calls ≡ true
      → (seen : Snapshot) × (observe cluster runner ≡ ok seen)
        × (is_unpolled runner (started seen) ≡ false)
        × Collectable answers.connections (conditions_of (started seen)) runner now
  apply-deletes h = elim (Result-cases (observe cluster runner)) [
    | inr (e, failed) ↦ absurd (false≢true (rw (calls-apply_failed e failed) at h))
    | inl (seen, o) ↦
        let polls =
          proceed-deletes (started seen) (startup_complete (conditions_of (started seen))) in
        let called = sym polls ∙ (rw (calls-apply seen o) at h) in
        let grounds = unless-deletes (is_unpolled runner (started seen)) (started seen) called in
        (seen, o, grounds.0, grounds.1)
  ]

  ready-started :
      (seen : Snapshot)
      → Unique (unwrap_or before.conditions [])
      → pod_is_ready (conditions_of (started seen))
        ≡ says_true (ready_condition fmt config.default_workspace_mode now runner seen)
  unfolding conditions_of
  ready-started seen u =
      ready-update fmt config.default_workspace_mode now runner seen
        (unwrap_or before.conditions []) u

  unpolled-started :
      (seen : Snapshot)
      → Unique (unwrap_or before.conditions [])
      → (runner.spec.command ≡ render)
        ⊎ (((c : RunnerClaim) × (claim_of runner ≡ some c))
            × (says_true (volume_condition fmt config.default_workspace_mode now runner seen)
                ≡ false))
      → is_unpolled runner (started seen) ≡ true
  unfolding is_unpolled
  unpolled-started seen u which = ground (
    arith,
    which,
    volume-update fmt config.default_workspace_mode now runner seen (unwrap_or before.conditions [])
        u,
  )

  proceed-polls :
      (status : RunnerStatus) (complete : Bool)
      → is_unpolled runner status ≡ true
      → any is_poll (proceed config answers now runner (status, complete)).calls ≡ false
  unfolding proceed
  proceed-polls status complete h = rw h (ground arith)

  -- A runner whose pod is ready when the cluster is read is not deleted by a reconcile that cannot
  -- reach it, if the recorded conditions have distinct types.
  pub ready-kept :
      (seen : Snapshot) (e : Error)
      → observe cluster runner ≡ ok seen
      → Unique (unwrap_or before.conditions [])
      → says_true (ready_condition fmt config.default_workspace_mode now runner seen) ≡ true
      → answers.connections ≡ err e
      → deletes (apply fmt config cluster answers now runner).calls ≡ false
  ready-kept seen e o u ready unreachable =
      elim (Bool-cases (deletes (apply fmt config cluster answers now runner).calls)) [
        | inr kept ↦ kept
        | inl deleted ↦
            let (seen', o', polled, grounds) = apply-deletes deleted in
            let same : seen' ≡ seen = cc (o', o) in
            let unready = (grounds.unhealthy e unreachable).0 in
            absurd (false≢true (sym (rw same at unready) ∙ ready-started seen u ∙ ready))
      ]

  -- A runner that renders, or whose claimed storage is not bound when the cluster is read, is left
  -- alone: the reconcile asks nothing of it and does not delete it. The recorded conditions are to
  -- have distinct types.
  pub render_or_claimed-kept :
      (seen : Snapshot)
      → observe cluster runner ≡ ok seen
      → Unique (unwrap_or before.conditions [])
      → (runner.spec.command ≡ render)
        ⊎ (((c : RunnerClaim) × (claim_of runner ≡ some c))
            × (says_true (volume_condition fmt config.default_workspace_mode now runner seen)
                ≡ false))
      → any is_poll (apply fmt config cluster answers now runner).calls ≡ false
  render_or_claimed-kept seen o u which =
      rw (calls-apply seen o) (proceed-polls (started seen) _ (unpolled-started seen u which))
