-- ===== src/RunnerStatus/Upsert.antt =====
-- Writing a condition into a list, and reading the list: conditions.rs of the runner status.
pub mod Lookup
pub mod Recorded
pub mod Settled
use kubimo.Common.{
  ℕ, ◌*◌, String, Bool, ◌&&◌, not, Option, none, some, List, [], ◌∷◌, any, all, ◌==◌,
  text_partial_eq, if◌then◌else◌,
}
use kubimo.Common.Int.{ℤ, pos, ◌-ℤ◌, lt_int}
use kubimo.Api.Meta.{Condition, Timestamp, pvc_bound, pod_ready, startup_conditions}
use kubimo.RunnerStatus.Observed.{find_condition}

-- What an update makes of the entry that has its type.
unfoldable pub merge : Condition → Condition → Condition
merge current new =
    if not (current.status == new.status)
    then new
    else if not (current.reason == new.reason)
    then record current {
      reason = new.reason;
      message = new.message;
      observed_generation = new.observed_generation;
    }
    else current

unfoldable pub upsert_condition : List Condition → Condition → List Condition
unfolding merge
upsert_condition [] new = new ∷ []
upsert_condition (c ∷ cs) new =
    if c.type_ == new.type_ then merge c new ∷ cs else c ∷ upsert_condition cs new

-- Is there a condition of the type with the status "True"?
unfoldable pub is_true : String → List Condition → Bool
is_true type_ = any (λ c. (c.type_ == type_) && (c.status == "True"))

unfoldable pub startup_complete : List Condition → Bool
unfolding is_true
startup_complete conditions = all (λ type_. is_true type_ conditions) startup_conditions

unfoldable pub volume_is_bound : List Condition → Bool
unfolding is_true
volume_is_bound = is_true pvc_bound

unfoldable pub pod_is_ready : List Condition → Bool
unfolding is_true
pod_is_ready = is_true pod_ready

-- How long `PodReady` has held its status, in seconds.
unfoldable pub pod_ready_age_secs : List Condition → Timestamp → Option ℤ
unfolding find_condition ◌-ℤ◌
pod_ready_age_secs conditions now_secs = elim (find_condition pod_ready conditions) [
  | none ↦ none
  | some c ↦ some (now_secs -ℤ c.last_transition_time)
]

abbrev pub startup_requeue_secs : ℕ
startup_requeue_secs = 3

abbrev pub starting_window_secs : ℕ
starting_window_secs = 2 * 60

abbrev pub settled_window_secs : ℕ
settled_window_secs = 10 * 60

abbrev pub wedged_requeue_secs : ℕ
wedged_requeue_secs = 60

-- The wait before the next reconcile while the startup conditions are not all true, in seconds.
unfoldable pub startup_requeue_interval : List Condition → Timestamp → ℕ → ℕ
unfolding pod_ready_age_secs
startup_requeue_interval conditions now_secs poll_interval =
    elim (pod_ready_age_secs conditions now_secs) [
      | none ↦ startup_requeue_secs
      | some age ↦
          if lt_int age (pos starting_window_secs)
          then startup_requeue_secs
          else if lt_int age (pos settled_window_secs)
          then poll_interval
          else wedged_requeue_secs
    ]
