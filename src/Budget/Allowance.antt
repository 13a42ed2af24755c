-- ===== src/Budget/Allowance.antt =====
-- How much storage a workspace may hold under its budgets: controller/src/controllers/budget/mod.rs.
pub mod Exact
use kubimo.Common.{
  ℕ, zero, ◌+◌, ◌-◌, ◌≤◌, ◌<◌, String, Bool, true, false, ◌≡◌, ◌↔◌, refl, Option, none, some, List,
  [], ◌∷◌, arith, and_then, Dict, leb, if◌then◌else◌, inl, inr, Bool-cases, Option-cases,
}
use kubimo.Common.Result.{Result, ok, err, ok_parts, Result-cases, ◌>>=◌, ◌>>◌}
use kubimo.Api.Meta.{Error, require_name, require_namespace}
use kubimo.Api.Pod.{PersistentVolumeClaim}
use kubimo.Api.Quantity.{Float64, to_bytes}
use kubimo.Api.Workspace.{Workspace, WorkspaceMode}
use kubimo.Api.Budget.{Budget, matches}
use kubimo.Budget.Sum.{
  u64_max, saturated, Namespace, sum_workspace_storage, total_bytes, pvc_requests,
  sum_workspace_storage_lem,
}

module _ (fl : Float64) (default_mode : WorkspaceMode) (ns : Namespace) where
  -- `Ord::min`
  tighten : Option ℕ → ℕ → Option ℕ
  tighten none headroom = some headroom
  tighten (some current) headroom = some (if leb current headroom then current else headroom)

  -- The limit of a budget that governs the workspace; none for one that does not, or has none.
  unfoldable pub governing_cap : Workspace → Budget → Option ℕ
  governing_cap w budget =
      if matches budget.spec w.metadata.labels
      then and_then budget.spec.storage (to_bytes fl)
      else none

  allowance_step : String → Option ℕ → Budget → Option ℕ → Result Error (Option ℕ)
  unfolding tighten
  allowance_step name allowance budget none = ok allowance
  allowance_step name allowance budget (some cap) = do
    others ← sum_workspace_storage fl default_mode ns budget.spec.selector (some name)
    ok (tighten allowance (cap - others))

  allowance_loop : Workspace → String → Option ℕ → List Budget → Result Error (Option ℕ)
  unfolding allowance_step
  allowance_loop w name allowance [] = ok allowance
  allowance_loop w name allowance (budget ∷ rest) = do
    allowance' ← allowance_step name allowance budget (governing_cap w budget)
    allowance_loop w name allowance' rest

  unfoldable pub workspace_storage_allowance : Workspace → Result Error (Option ℕ)
  unfolding allowance_loop require_name require_namespace
  workspace_storage_allowance w = do
    require_namespace w.metadata
    name ← require_name w.metadata
    budgets ← ns.budgets
    allowance_loop w name none budgets
