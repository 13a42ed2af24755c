-- ===== src/Budget/Reconcile/Exceeded.antt =====
-- What the reconcile of a budget reports.
use kubimo.Common.{
  sym, ◌∙◌, ℕ, ◌<◌, String, Bool, true, false, ◌≡◌, ◌≢◌, ◌↔◌, ◌⊎◌, inl, inr, Bool-cases,
  text_partial_eq, ◌==◌, ltb, refl, Option, none, some, List, [], ◌∷◌, arith, and_then, eq_iff,
  is_some_and, if◌then◌else◌,
}
use kubimo.Common.Result.{Result, ok}
use kubimo.Common.Effect.{calls-last}
use kubimo.Api.Meta.{require_name, require_namespace, Condition, Timestamp, Error}
use kubimo.Api.Pod.{PersistentVolumeClaim}
use kubimo.Api.Quantity.{Float64, to_bytes, of_bytes}
use kubimo.Api.Workspace.{Workspace, WorkspaceMode}
use kubimo.Api.Budget.{Budget, BudgetStatus}
use kubimo.Budget.Sum.{
  Namespace, saturated, u64_max, total_bytes, pvc_requests, sum_workspace_storage_lem,
}
use kubimo.Budget.Reconcile.{
  transition_time, patch_status, previous_condition, is_exceeded, exceeded_condition, status_for,
  apply,
}

-- Since when a condition has the status, from the condition that was recorded before.
pub data Since (now : Timestamp) (status : String) : Option Condition → Timestamp → Type 0 where
  first : Since now status none now
  kept : (p : Condition) → p.status ≡ status → Since now status (some p) p.last_transition_time
  moved : (p : Condition) → p.status ≢ status → Since now status (some p) now

-- What a status reports of a budget whose workspaces commit `total` bytes.
pub record Reports (fl : Float64) (now : Timestamp) (budget : Budget) (total : ℕ)
    (status : BudgetStatus) : Type 0 where
  pub cond : Condition
  pub conditions : status.conditions ≡ some (cond ∷ [])
  pub exceeds : (cond.status ≡ "True") ↔ (
      (limit : ℕ) × (and_then budget.spec.storage (to_bytes fl) ≡ some limit)
      × (limit < total)
      × (limit < u64_max))
  pub binary : (cond.status ≡ "True") ⊎ (cond.status ≡ "False")
  pub since : Since now cond.status (previous_condition budget) cond.last_transition_time

transition_time-Since :
    (now : Timestamp) (status : String) (previous : Option Condition)
    → Since now status previous (transition_time now status previous)
unfolding transition_time
transition_time-Since now status none = first
transition_time-Since now status (some p) = elim (Bool-cases (p.status == status)) [
  | inl e ↦ rw e (kept p ((eq_iff p.status status).0 e))
  | inr e ↦ rw e (moved p (λ q. absurd (cc (sym e ∙ (eq_iff p.status status).1 q))))
]

flag_iff : (b : Bool) → (◌≡◌ {A = String} (if b then "True" else "False") "True") ↔ (b ≡ true)
flag_iff true = (λ _. refl, λ _. refl)
flag_iff false = (λ e. cc, λ e. cc)

limit_iff :
    (o : Option ℕ) (total : ℕ)
    → (is_some_and (λ limit. ltb limit (saturated total)) o ≡ true)
      ↔ ((limit : ℕ) × (o ≡ some limit) × (limit < total) × (limit < u64_max))
limit_iff none total = (λ h. cc, λ h. cc h.1)
limit_iff (some l) total =
    (λ h. (l, refl, ground arith, ground arith), λ (m, e, a, c). ground (arith, e, a, c))

module _ (fl : Float64) (default_mode : WorkspaceMode) where
  exceeds_iff :
      (now : Timestamp) (budget : Budget) (total : ℕ)
      → ((exceeded_condition now budget
            (is_exceeded fl default_mode budget (saturated total))).status
          ≡ "True")
        ↔ ((limit : ℕ) × (and_then budget.spec.storage (to_bytes fl) ≡ some limit)
            × (limit < total)
            × (limit < u64_max))
  unfolding is_exceeded exceeded_condition
  exceeds_iff now budget total =
      let flag = flag_iff (is_exceeded fl default_mode budget (saturated total)) in
      let limit = limit_iff (and_then budget.spec.storage (to_bytes fl)) total in
      (λ h. limit.0 (flag.0 h), λ h. flag.1 (limit.1 h))

  status_for-Reports :
      (now : Timestamp) (budget : Budget) (total : ℕ)
      → Reports fl now budget total (status_for fl default_mode now budget (saturated total))
  unfolding status_for is_exceeded exceeded_condition
  status_for-Reports now budget total = record {
    cond = exceeded_condition now budget (is_exceeded fl default_mode budget (saturated total));
    conditions = refl;
    exceeds = exceeds_iff now budget total;
    binary = elim (Bool-cases (is_exceeded fl default_mode budget (saturated total))) [
      | inl e ↦ inl (rw e refl)
      | inr e ↦ inr (rw e refl)
    ];
    since = transition_time-Since now _ (previous_condition budget);
  }

  -- If the workspaces and volume claims of the namespace can be listed, a reconcile of a budget that
  -- has a name and a namespace makes one call, a patch of the status: one condition, "True" exactly
  -- if the committed bytes, summed without any cut-off, are past a limit below the largest u64, and
  -- else "False"; its transition time is the recorded one while the status stays and now otherwise;
  -- and the used bytes are the sum, cut off at the largest u64.
  pub apply-Reports :
      (ns : Namespace) (patched : Result Error (Unit {0})) (now : Timestamp) (budget : Budget)
      (name namespace : String) (ws : List Workspace) (pvcs : List PersistentVolumeClaim)
      → budget.metadata.name ≡ some name
      → budget.metadata.namespace ≡ some namespace
      → ns.workspaces budget.spec.selector ≡ ok ws
      → ns.pvcs ≡ ok pvcs
      → (status : BudgetStatus) × ((apply fl default_mode ns patched now budget).calls
          ≡ patch_status status ∷ [])
        × Reports fl now budget
            (total_bytes fl default_mode (pvc_requests fl [] pvcs) none ws)
            status
        × (status.storage
            ≡ some (record {
              used = some (
                  of_bytes fl
                    (saturated (total_bytes fl default_mode (pvc_requests fl [] pvcs) none ws)));
              limit = budget.spec.storage;
            }))
  unfolding apply status_for require_name require_namespace previous_condition exceeded_condition
  apply-Reports ns patched now budget name namespace ws pvcs n m l p =
      let sum =
        sum_workspace_storage_lem fl default_mode ns budget.spec.selector none ws pvcs l p in
      let total : ℕ = total_bytes fl default_mode (pvc_requests fl [] pvcs) none ws in
      (
        status_for fl default_mode now budget (saturated total),
        rw (n, m, sum) (calls-last _ patched _),
        status_for-Reports now budget total,
        refl,
      )
