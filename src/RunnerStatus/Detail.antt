-- ===== src/RunnerStatus/Detail.antt =====
-- What the conditions of a runner are made of (controller/src/controllers/runner_status/conditions.rs):
-- their status, reason and message, and why a pod's container is not ready.
use Prim.Native.String.{◌++◌}
use kubimo.Common.{
  String, ◌&&◌, not, Option, none, some, List, find, or, and_then, unwrap_or, ◌==◌, text_partial_eq,
}
use kubimo.Common.Int.{ℤ}
use kubimo.Api.Meta.{Condition, Timestamp}
use kubimo.Api.Pod.{
  Pod, ContainerStatus, ContainerState, ContainerStateWaiting, ContainerStateTerminated,
}

-- The formatting of the standard library: `{:?}` of a text, `{}` of an integer.
pub record Format : Type 0 where
  pub debug : String → String
  pub show_int : ℤ → String

pub record Detail : Type 0 where
  pub status : String
  pub reason : String
  pub message : String

abbrev pub detail : String → String → String → Detail
detail status reason message = record { status = status; reason = reason; message = message }

-- `condition`, with the time that `Timestamp::now()` gives.
unfoldable pub condition : Timestamp → String → Detail → Option ℤ → Condition
condition now type_ d observed_generation = record {
  type_ = type_;
  status = d.status;
  reason = d.reason;
  message = d.message;
  observed_generation = observed_generation;
  last_transition_time = now;
}

waiting_detail : ContainerStateWaiting → Option Detail
waiting_detail w =
    and_then w.reason (λ reason. some (detail "False" reason (unwrap_or w.message reason)))

terminated_detail : Format → ContainerStateTerminated → Detail
terminated_detail fmt t =
    detail "False" (unwrap_or t.reason "Terminated")
      ("Container terminated with exit code " ++ fmt.show_int t.exit_code)

starting_detail : Option (Unit {0}) → Option Detail
starting_detail none = none
starting_detail (some _) =
    some (detail "False" "Starting" "Container running, waiting for marimo health check")

-- The tests of the container's state, in the order of the code.
state_detail : Format → ContainerState → Option Detail
unfolding waiting_detail terminated_detail starting_detail
state_detail fmt state = elim state.waiting [
  | some w ↦ waiting_detail w
  | none ↦ elim state.terminated [
    | some t ↦ some (terminated_detail fmt t)
    | none ↦ starting_detail state.running
  ]
]

-- The "runner" container first, then the first that is not ready.
unready_container : List ContainerStatus → Option ContainerStatus
unready_container statuses =
    or (find (λ c. (c.name == "runner") && not c.ready) statuses) (find (λ c. not c.ready) statuses)

-- The pair of the source comes with the status "False" that each of its callers gives it.
unfoldable pub container_state_detail : Format → Pod → Option Detail
unfolding state_detail unready_container
container_state_detail fmt pod = and_then pod.status (λ s.
    and_then s.container_statuses (λ statuses.
      and_then (unready_container statuses) (λ c. and_then c.state (state_detail fmt))))
