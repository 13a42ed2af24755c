-- ===== src/Budget/Sum.antt =====
-- The committed storage of the workspaces that a selector matches:
-- controller/src/controllers/budget/mod.rs.
pub mod Excluded
use native.Mathlib.Nat.{zero-add}
use kubimo.Common.{
  inl, inr, ◌∙◌, Option-cases, ℕ, ◌+◌, ◌-◌, ◌^◌, ◌≤◌, String, ◌≡◌, Option, none, some, List, [],
  ◌∷◌, arith, and_then, is_some_and, lookup, Dict, ltb, ◌==◌, text_partial_eq, if◌then◌else◌,
}
use kubimo.Common.Result.{Result, ok, ok_parts, ◌>>=◌}
use kubimo.Api.Meta.{Error}
use kubimo.Api.Pod.{PersistentVolumeClaim}
use kubimo.Api.Quantity.{Float64, to_bytes}
use kubimo.Api.Workspace.{Workspace, WorkspaceMode, effective_mode}
use kubimo.Api.Budget.{Budget}
use kubimo.Budget.Committed.{pvc_storage_request, workspace_committed_bytes}

abbrev pub u64_max : ℕ
u64_max = 2 ^ 64 - 1

unfoldable pub saturating_add : ℕ → ℕ → ℕ
saturating_add a b = if ltb u64_max (a + b) then u64_max else a + b

-- What the API server lists in the namespace: the workspaces that a label selector matches, the
-- volume claims and the budgets.
pub record Namespace : Type 0 where
  pub workspaces : Dict String → Result Error (List Workspace)
  pub pvcs : Result Error (List PersistentVolumeClaim)
  pub budgets : Result Error (List Budget)

-- A number cut off at the largest u64.
abbrev pub saturated : ℕ → ℕ
saturated n = if ltb u64_max n then u64_max else n

saturated_step :
    (acc bytes rest : ℕ)
    → saturated (saturating_add acc bytes + rest) ≡ saturated (acc + (bytes + rest))
unfolding saturating_add
saturated_step acc bytes rest = ground arith

module _ (fl : Float64) where
  pvc_entry : Option String → Option ℕ → Dict ℕ → Dict ℕ
  pvc_entry (some name) (some bytes) requests = (name, bytes) ∷ requests
  pvc_entry (some name) none requests = requests
  pvc_entry none bytes requests = requests

  -- Collected into a map, so that a later claim replaces an earlier one of its name.
  unfoldable pub pvc_requests : Dict ℕ → List PersistentVolumeClaim → Dict ℕ
  unfolding pvc_entry
  pvc_requests requests [] = requests
  pvc_requests requests (pvc ∷ rest) =
      pvc_requests
        (pvc_entry pvc.metadata.name (and_then (pvc_storage_request pvc) (to_bytes fl)) requests)
        rest

module _ (fl : Float64) (default_mode : WorkspaceMode) where
  -- The bytes of one workspace in the loop; nothing for one with no name, and for the excluded one.
  unfoldable pub counted_bytes : Dict ℕ → Option String → Workspace → Option ℕ
  counted_bytes requests exclude w = and_then w.metadata.name (λ name.
      if is_some_and (λ e. name == e) exclude
      then none
      else some
          (workspace_committed_bytes fl w (effective_mode w default_mode) (lookup name requests)))

  sum_loop : Dict ℕ → Option String → ℕ → List Workspace → ℕ
  sum_loop requests exclude total [] = total
  sum_loop requests exclude total (w ∷ rest) =
      sum_loop requests exclude
        (elim (counted_bytes requests exclude w) [
          | none ↦ total
          | some bytes ↦ saturating_add total bytes
        ])
        rest

  unfoldable pub sum_workspace_storage : Namespace → Dict String → Option String → Result Error ℕ
  unfolding sum_loop
  sum_workspace_storage ns selector exclude = do
    workspaces ← ns.workspaces selector
    pvcs ← ns.pvcs
    ok (sum_loop (pvc_requests fl [] pvcs) exclude 0 workspaces)

  -- The sum with no bound on it.
  abbrev pub total_bytes : Dict ℕ → Option String → List Workspace → ℕ
  total_bytes requests exclude [] = 0
  total_bytes requests exclude (w ∷ rest) =
      (elim (counted_bytes requests exclude w) [ none ↦ 0 | some bytes ↦ bytes ])
      + total_bytes requests exclude rest

  sum_loop-eq :
      (requests : Dict ℕ) (exclude : Option String) (acc : ℕ) (ws : List Workspace)
      → acc ≤ u64_max
      → sum_loop requests exclude acc ws ≡ saturated (acc + total_bytes requests exclude ws)
  unfolding sum_loop saturating_add
  sum_loop-eq requests exclude acc [] h = ground arith
  sum_loop-eq requests exclude acc (w ∷ rest) h =
      elim (Option-cases (counted_bytes requests exclude w)) [
        | inl e ↦ rw (e, zero-add) (sum_loop-eq requests exclude acc rest h)
        | inr (bytes, e) ↦ rw e (
            sum_loop-eq requests exclude (saturating_add acc bytes) rest (ground arith)
            ∙ saturated_step acc bytes (total_bytes requests exclude rest))
      ]

  -- If the lists of workspaces and volume claims can be read, the sum is the number of bytes that
  -- the listed workspaces commit, those that are named and not excluded, cut off at the largest u64.
  pub sum_workspace_storage_lem :
      (ns : Namespace) (selector : Dict String) (exclude : Option String) (ws : List Workspace)
      (pvcs : List PersistentVolumeClaim)
      → ns.workspaces selector ≡ ok ws
      → ns.pvcs ≡ ok pvcs
      → sum_workspace_storage ns selector exclude
        ≡ ok (saturated (total_bytes (pvc_requests fl [] pvcs) exclude ws))
  unfolding sum_workspace_storage
  sum_workspace_storage_lem ns selector exclude ws pvcs l p =
      rw (l, p)
        (rw (sum_loop-eq (pvc_requests fl [] pvcs) exclude 0 ws (omega arith)) (rw zero-add))

  -- A sum that is computed has read the list of workspaces.
  pub sum-listed :
      (ns : Namespace) (selector : Dict String) (exclude : Option String) (n : ℕ)
      → sum_workspace_storage ns selector exclude ≡ ok n
      → (ws : List Workspace) × (ns.workspaces selector ≡ ok ws)
  unfolding sum_workspace_storage
  sum-listed ns selector exclude n h =
      let (ws, e, _) = ok_parts (ns.workspaces selector) _ h in (ws, e)
