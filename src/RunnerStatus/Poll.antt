-- ===== src/RunnerStatus/Poll.antt =====
-- Polling a runner for activity and collecting an idle one:
-- controller/src/controllers/runner_status/mod.rs.
pub mod Collection
use kubimo.Common.{
  ℕ, ◌*◌, String, Bool, true, false, ◌&&◌, ◌||◌, not, Option, none, some, List, [], map_or, or,
  and_then, unwrap_or, is_some, is_some_and, if◌then◌else◌, ltb,
}
use kubimo.Common.Int.{ℤ, pos, ◌+ℤ◌, ◌-ℤ◌, lt_int, le_int}
use kubimo.Common.Result.{Result, ok, err, to_option}
use kubimo.Common.Effect.{Run, pure, answer, call, ◌>>=◌, ◌>>◌}
use kubimo.Api.Meta.{ObjectMeta, Condition, Timestamp, Error, require_name, require_namespace}
use kubimo.Api.Runner.{Runner, RunnerStatus, RunnerLifecycle}
use kubimo.RunnerStatus.Upsert.{pod_is_ready, pod_ready_age_secs}

pub data Action : Type 0 where
  requeue : ℕ → Action
  await_change : Action

-- What a reconcile asks of the runner itself, and what it changes in the cluster.
pub data Call : Type 0 where
  get_connections : Call
  get_version : Call
  delete_runner : String → Call
  patch_status : RunnerStatus → Call

-- What the runner's own API and the API server answer. `build` stands for `RunnerApi::build`.
pub record Answers : Type 0 where
  pub build : Result Error (Unit {0})
  pub connections : Result Error ℕ
  pub version : Result Error String
  pub deleted : Result Error (Unit {0})
  pub patched : Result Error (Unit {0})

-- `Connections::is_active`
is_active : ℕ → Bool
is_active active = ltb 0 active

abbrev pub unreachable_gc_grace_secs : ℕ
unreachable_gc_grace_secs = 5 * 60

unfoldable pub unreachable_is_collectable : List Condition → Timestamp → Bool
unfolding ◌-ℤ◌
unreachable_is_collectable conditions now_secs =
    not (pod_is_ready conditions)
    && is_some_and (λ age. le_int (pos unreachable_gc_grace_secs) age)
        (pod_ready_age_secs conditions now_secs)

-- The last activity, or else the creation.
unfoldable pub idle_since : Runner → Option Timestamp
idle_since runner =
    or (and_then runner.status (λ s. s.last_active)) runner.metadata.creation_timestamp

-- Neither timestamp: nothing to measure against, so never collect.
unfoldable pub is_inactive_past_deadline : Runner → ℕ → Timestamp → Bool
unfolding idle_since
is_inactive_past_deadline runner delete_after_secs_inactive now_secs =
    is_some_and (λ since. lt_int (since +ℤ pos delete_after_secs_inactive) now_secs)
      (idle_since runner)

-- An interval that no `TimeDelta` holds is longer than any difference of two timestamps.
unfoldable pub polled_recently : Runner → ℕ → Timestamp → Bool
polled_recently runner interval now =
    is_some_and (λ last. lt_int (now -ℤ last) (pos interval))
      (and_then runner.status (λ s. s.last_active))

lacks_version : Runner → Bool
lacks_version runner = not (is_some (and_then runner.status (λ s. s.marimo_version)))

unfoldable pub deadline_of : Runner → Option ℕ
deadline_of runner = and_then runner.spec.lifecycle (λ l. l.delete_after_secs_inactive)

-- Is the runner to be collected, given the poll's answer and the conditions of this reconcile?
unfoldable pub is_collectable : Runner → List Condition → Option ℕ → Timestamp → Bool
unfolding is_active deadline_of
is_collectable runner conditions connections now =
    not (is_some_and is_active connections)
    && is_some_and
        (λ delete_after.
          (is_some connections || unreachable_is_collectable conditions now)
          && is_inactive_past_deadline runner delete_after now)
        (deadline_of runner)

unfoldable pub conditions_of : RunnerStatus → List Condition
conditions_of status = unwrap_or status.conditions []

-- What the poll writes into the status.
polled : Timestamp → Option ℕ → Option String → RunnerStatus → RunnerStatus
unfolding is_active
polled now connections version status = record status {
  last_active = if is_some_and is_active connections then some now else status.last_active;
  marimo_version = or version status.marimo_version;
}

-- The version is asked for only if the poll reached the runner and none is recorded.
ask_version : Bool → Answers → Run Call Error (Option String)
ask_version true answers = call get_version (ok (to_option answers.version))
ask_version false answers = pure none

collect : Bool → Runner → Answers → ℕ → RunnerStatus → Run Call Error (RunnerStatus × Option Action)
unfolding require_name require_namespace
collect false runner answers interval status = pure (status, some (requeue interval))
collect true runner answers interval status = do
  name ← answer (require_name runner.metadata)
  answer (require_namespace runner.metadata)
  call (delete_runner name) answers.deleted
  pure (status, none)

poll_now :
    Answers → Timestamp → ℕ → Runner → RunnerStatus → Run Call Error (RunnerStatus × Option Action)
unfolding polled ask_version collect conditions_of lacks_version
poll_now answers now interval runner status = do
  answer answers.build
  connections ← call get_connections (ok (to_option answers.connections))
  version ← ask_version (is_some connections && lacks_version runner) answers
  let status' = polled now connections version status
  collect (is_collectable runner (conditions_of status) connections now) runner answers interval
      status'

-- The new status and the action; no action means that the runner was deleted.
unfoldable pub poll_api_status :
    Answers → Timestamp → ℕ → Runner → RunnerStatus → Run Call Error (RunnerStatus × Option Action)
unfolding poll_now polled_recently
poll_api_status answers now interval runner status =
    if polled_recently runner interval now
    then pure (status, some (requeue interval))
    else poll_now answers now interval runner status
