-- ===== src/Budget/Reconcile.antt =====
-- One reconcile of a budget: controller/src/controllers/budget/mod.rs.
pub mod Exceeded
use kubimo.Common.{
  ℕ, String, Bool, true, false, Option, none, some, List, [], ◌∷◌, find, and_then, is_some_and, ltb,
  ◌==◌, text_partial_eq, if◌then◌else◌,
}
use kubimo.Common.Result.{Result, ok, err}
use kubimo.Common.Effect.{Run, pure, answer, call, ◌>>=◌, ◌>>◌}
use kubimo.Api.Meta.{Condition, Timestamp, Error, require_name, require_namespace}
use kubimo.Api.Quantity.{Float64, to_bytes, of_bytes}
use kubimo.Api.Workspace.{WorkspaceMode}
use kubimo.Api.Budget.{Budget, BudgetStatus}
use kubimo.Budget.Sum.{Namespace, sum_workspace_storage}

abbrev pub exceeded_type : String
exceeded_type = "Exceeded"

-- In seconds.
abbrev pub refresh_interval : ℕ
refresh_interval = 30

pub data Call : Type 0 where
  patch_status : BudgetStatus → Call

pub data Action : Type 0 where
  requeue : ℕ → Action

unfoldable pub previous_condition : Budget → Option Condition
previous_condition budget =
    and_then budget.status (λ s. and_then s.conditions (find (λ c. c.type_ == exceeded_type)))

-- The time of the last transition: the recorded one if the status is the same.
transition_time : Timestamp → String → Option Condition → Timestamp
transition_time now status none = now
transition_time now status (some previous) =
    if previous.status == status then previous.last_transition_time else now

unfoldable pub exceeded_condition : Timestamp → Budget → Bool → Condition
unfolding transition_time
exceeded_condition now budget exceeded =
    let status = if exceeded then "True" else "False" in
    record {
      type_ = exceeded_type;
      status = status;
      reason = if exceeded then "Exceeded" else "WithinBudget";
      message =
          if exceeded
          then "Budget usage exceeds the configured limit"
          else "Budget usage is within the configured limit";
      observed_generation = budget.metadata.generation;
      last_transition_time = transition_time now status (previous_condition budget);
    }

module _ (fl : Float64) (default_mode : WorkspaceMode) where
  unfoldable pub is_exceeded : Budget → ℕ → Bool
  is_exceeded budget used =
      is_some_and (λ limit. ltb limit used) (and_then budget.spec.storage (to_bytes fl))

  status_for : Timestamp → Budget → ℕ → BudgetStatus
  unfolding is_exceeded exceeded_condition
  status_for now budget used = record {
    conditions = some (exceeded_condition now budget (is_exceeded budget used) ∷ []);
    storage = some (record { used = some (of_bytes fl used); limit = budget.spec.storage });
  }

  unfoldable pub apply :
      Namespace → Result Error (Unit {0}) → Timestamp → Budget → Run Call Error Action
  unfolding status_for require_name require_namespace
  apply ns patched now budget = do
    answer (require_namespace budget.metadata)
    used ← answer (sum_workspace_storage fl default_mode ns budget.spec.selector none)
    answer (require_name budget.metadata)
    call (patch_status (status_for now budget used)) patched
    pure (requeue refresh_interval)
