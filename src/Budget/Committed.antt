-- ===== src/Budget/Committed.antt =====
-- What a workspace commits to its budget: controller/src/controllers/budget/mod.rs.
use kubimo.Common.{
  ℕ, String, Bool, ◌&&◌, Option, none, any, or, and_then, unwrap_or, is_some_and, lookup, ◌==◌,
  text_partial_eq, if◌then◌else◌,
}
use kubimo.Api.Meta.{Condition}
use kubimo.Api.Pod.{PersistentVolumeClaim}
use kubimo.Api.Quantity.{StorageQuantity, Float64, to_bytes}
use kubimo.Api.Workspace.{Workspace, WorkspaceMode, dedicated, pooled}

-- controller/src/controllers/workspace/apply_status.rs
abbrev pub budget_exceeded_reason : String
budget_exceeded_reason = "BudgetExceeded"

is_refusal : Condition → Bool
is_refusal cond =
    (cond.type_ == "Ready") && (cond.reason == budget_exceeded_reason) && (cond.status == "False")

-- Is the workspace refused because it does not fit its budget?
unfoldable pub is_budget_refused : Workspace → Bool
unfolding is_refusal
is_budget_refused w = is_some_and (any is_refusal) (and_then w.status (λ s. s.conditions))

-- The storage request of a volume claim: controller/src/controllers/workspace/apply_pvc.rs.
unfoldable pub pvc_storage_request : PersistentVolumeClaim → Option StorageQuantity
pvc_storage_request pvc =
    and_then pvc.spec (λ s. and_then s.resources (λ r. and_then r.requests (lookup "storage")))

module _ (fl : Float64) where
  unfoldable pub used_bytes : Workspace → Option ℕ
  used_bytes w =
      and_then w.status (λ s. and_then s.storage (λ storage. and_then storage.used (to_bytes fl)))

  unfoldable pub min_bytes : Workspace → Option ℕ
  min_bytes w = and_then w.spec.storage (λ storage. and_then storage.min (to_bytes fl))

  -- The bytes that a pooled workspace uses; of a dedicated one the request of its volume claim, or
  -- the minimum that it asks for, unless it is refused.
  unfoldable pub workspace_committed_bytes : Workspace → WorkspaceMode → Option ℕ → ℕ
  unfolding used_bytes min_bytes
  workspace_committed_bytes w pooled pvc_request = unwrap_or (used_bytes w) 0
  workspace_committed_bytes w dedicated pvc_request =
      unwrap_or (or pvc_request (if is_budget_refused w then none else min_bytes w)) 0
