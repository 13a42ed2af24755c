-- ===== src/Budget/Sum/Excluded.antt =====
-- What leaving a workspace out of a budget's sum leaves out: controller/src/controllers/budget/mod.rs.
use native.Mathlib.Nat.{zero-add}
use kubimo.Common.{
  ℕ, ◌+◌, String, Bool, true, false, ◌≡◌, refl, ap, ◌∙◌, Option, none, some, List, [], ◌∷◌, arith,
  or, and_then, lookup, Dict, ◌==◌, text_partial_eq, if◌then◌else◌, eq_iff, is_some_and,
}
use kubimo.Common.Result.{ok}
use kubimo.Api.Pod.{PersistentVolumeClaim}
use kubimo.Api.Quantity.{Float64, to_bytes}
use kubimo.Api.Workspace.{Workspace, WorkspaceMode, effective_mode}
use kubimo.Budget.Committed.{pvc_storage_request, workspace_committed_bytes}
use kubimo.Budget.Sum.{
  Namespace, saturated, pvc_requests, pvc_entry, counted_bytes, total_bytes, sum_workspace_storage,
  sum_workspace_storage_lem,
}

abbrev pub is_named : String → Option String → Bool
is_named name = is_some_and (λ n. n == name)

module _ (fl : Float64) where
  -- The request of the last volume claim of the name that has one, else the one found before.
  pub request_named : String → Option ℕ → List PersistentVolumeClaim → Option ℕ
  request_named name found [] = found
  request_named name found (pvc ∷ rest) =
      request_named name
        (if is_named name pvc.metadata.name
          then or (and_then (pvc_storage_request pvc) (to_bytes fl)) found
          else found)
        rest

  lookup-entry :
      (name : String) (owner : Option String) (bytes : Option ℕ) (requests : Dict ℕ)
      → lookup name (pvc_entry fl owner bytes requests)
        ≡ (if is_named name owner then or bytes (lookup name requests) else lookup name requests)
  unfolding pvc_entry
  lookup-entry name none bytes requests = refl
  lookup-entry name (some n) none requests = ground arith
  lookup-entry name (some n) (some b) requests = ground (arith, eq_iff n name, eq_iff name n)

  lookup-pvc_requests :
      (name : String) (pvcs : List PersistentVolumeClaim) (requests : Dict ℕ)
      → lookup name (pvc_requests fl requests pvcs) ≡ request_named name (lookup name requests) pvcs
  unfolding pvc_requests request_named
  lookup-pvc_requests name [] requests = refl
  lookup-pvc_requests name (pvc ∷ rest) requests =
      lookup-pvc_requests name rest
        (pvc_entry fl pvc.metadata.name (and_then (pvc_storage_request pvc) (to_bytes fl)) requests)
      ∙ ap (λ found. request_named name found rest)
          (lookup-entry name pvc.metadata.name (and_then (pvc_storage_request pvc) (to_bytes fl))
            requests)

or_zero : Option ℕ → ℕ
or_zero o = elim o [ none ↦ 0 | some bytes ↦ bytes ]

counted_or_not :
    (t : Bool) (x y : ℕ)
    → (t ≡ true → x ≡ y)
    → x ≡ or_zero (if t then none else some x) + (if t then y else 0)
unfolding or_zero
counted_or_not true x y h = rw zero-add (h refl)
counted_or_not false x y h = ground arith

module _ (fl : Float64) (default_mode : WorkspaceMode) (pvcs : List PersistentVolumeClaim) where
  committed : String → Workspace → ℕ
  committed name w =
      workspace_committed_bytes fl w (effective_mode w default_mode)
        (request_named fl name none pvcs)

  -- The bytes that the workspaces of the name commit.
  pub bytes_named : String → List Workspace → ℕ
  unfolding committed
  bytes_named name [] = 0
  bytes_named name (w ∷ rest) =
      (if is_named name w.metadata.name then committed name w else 0) + bytes_named name rest

  counted_as : Dict ℕ → Option String → Option String → Workspace → Option ℕ
  counted_as requests exclude owner w = and_then owner (λ n.
      if is_some_and (λ e. n == e) exclude
      then none
      else some
          (workspace_committed_bytes fl w (effective_mode w default_mode) (lookup n requests)))

  counted_as-split :
      (name : String) (w : Workspace) (owner : Option String)
      → or_zero (counted_as (pvc_requests fl [] pvcs) none owner w)
        ≡ or_zero (counted_as (pvc_requests fl [] pvcs) (some name) owner w)
          + (if is_named name owner then committed name w else 0)
  unfolding counted_as committed or_zero
  counted_as-split name w none = refl
  counted_as-split name w (some n) = counted_or_not (n == name) _ _ (λ e.
      ap (workspace_committed_bytes fl w (effective_mode w default_mode)) (
        lookup-pvc_requests fl n pvcs []
        ∙ ap (λ m. request_named fl m none pvcs) ((eq_iff n name).0 e)))

  total-split :
      (name : String) (ws : List Workspace)
      → total_bytes fl default_mode (pvc_requests fl [] pvcs) none ws
        ≡ total_bytes fl default_mode (pvc_requests fl [] pvcs) (some name) ws + bytes_named name ws
  unfolding bytes_named or_zero counted_as counted_bytes
  total-split name [] = refl
  total-split name (w ∷ ws) =
      regroup _ _ _ _ _ _ (counted_as-split name w w.metadata.name) (total-split name ws)
    where
      regroup : (a b c d e f : ℕ) → a ≡ b + c → d ≡ e + f → a + d ≡ (b + e) + (c + f)
      regroup a b c d e f h k = omega (arith, h, k)

-- If the lists of workspaces and volume claims can be read, the sum without a workspace and what the
-- workspaces of its name commit make up the whole sum, each sum cut off at the largest u64; what a
-- workspace commits goes by the last volume claim of its name that has a request.
pub sum-excluded :
    (fl : Float64) (default_mode : WorkspaceMode) (ns : Namespace) (selector : Dict String)
    (name : String) (ws : List Workspace) (pvcs : List PersistentVolumeClaim)
    → ns.workspaces selector ≡ ok ws
    → ns.pvcs ≡ ok pvcs
    → (rest : ℕ) × (sum_workspace_storage fl default_mode ns selector (some name)
        ≡ ok (saturated rest))
      × (sum_workspace_storage fl default_mode ns selector none
          ≡ ok (saturated (rest + bytes_named fl default_mode pvcs name ws)))
sum-excluded fl default_mode ns selector name ws pvcs l p = (
  total_bytes fl default_mode (pvc_requests fl [] pvcs) (some name) ws,
  sum_workspace_storage_lem fl default_mode ns selector (some name) ws pvcs l p,
  sum_workspace_storage_lem fl default_mode ns selector none ws pvcs l p
      ∙ ap (λ n. ok (saturated n)) (total-split fl default_mode pvcs name ws),
)
