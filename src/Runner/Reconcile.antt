-- ===== src/Runner/Reconcile.antt =====
-- One reconcile of a runner: controller/src/controllers/runner/mod.rs. What the claim and the parts
-- that it applies come to are arguments; the parts that are applied together count as called
-- together. How Rust's `{:?}` shows a text and a name are arguments.
pub mod Withheld
mod Examples
use Prim.Native.String.{◌++◌ as append}
use kubimo.Common.{
  ℕ, String, Bool, true, false, ◌&&◌, Option, none, some, List, [], ◌∷◌, map, any, is_some,
  is_some_and, and_then, ◌==◌, text_partial_eq, if◌then◌else◌,
}
use kubimo.Common.Result.{Result, ok, err, ok_or}
use kubimo.Common.Effect.{Run, pure, answer, call, ◌>>=◌, ◌>>◌}
use kubimo.Api.Meta.{Error, custom, Condition, require_name, require_namespace}
use kubimo.Api.Workspace.{Workspace, WorkspacePythonRuntime}
use kubimo.Api.Runner.{Runner}
use kubimo.Kube.Request.{has_code}
use kubimo.Runner.Claim.{ClaimOutcome, claimed, cold_path, recorded_claim}

-- The parts that are applied, and the patch of the status that drops a recorded claim.
pub data Part : Type 0 where
  owner_reference pod service ingress : Part

pub data Call : Type 0 where
  apply_part : Part → Call
  drop_claim : Call

pub data Action : Type 0 where
  requeue : ℕ → Action
  await_change : Action

-- `joined` is what the parts come to that are applied together: whether a pod was replaced.
pub record Answers : Type 0 where
  pub workspace : Result Error (Option Workspace)
  pub claim : Workspace → WorkspacePythonRuntime → Result Error ClaimOutcome
  pub dropped : Result Error Unit
  pub owner : Result Error Unit
  pub joined : Result Error (List Bool)

is_ready : Condition → Bool
is_ready c = c.type_ == "Ready" && c.status == "True"

unfoldable pub is_workspace_ready : Workspace → Bool
unfolding is_ready
is_workspace_ready workspace =
    is_some_and
      (λ status. is_some_and (any is_ready) status.conditions && is_some status.python_runtime)
      workspace.status

together : List Part → Result Error (List Bool) → Run Call Error (List Bool)
together parts r = record { calls = map apply_part parts; result = r }

module _ (debug : String → String) (debug_name : Result Error String → String) (runner : Runner)
    (answers : Answers) where
  -- A pod of the same name that is still terminating, and a pod that was replaced, are waited for.
  -- The second is logged under the runner's name, which it is to have.
  finish : Result Error (List Bool) → Result Error Action
  finish (ok replaced) =
      if any (λ r. r) replaced
      then elim (require_name runner.metadata) [ ok _ ↦ ok (requeue 2) | err e ↦ err e ]
      else ok await_change
  finish (err e) = if has_code 409 e then ok (requeue 2) else err e

  cold : Run Call Error Action
  unfolding finish
  cold = record {
    calls = map apply_part (owner_reference ∷ pod ∷ service ∷ ingress ∷ []);
    result = finish answers.joined;
  }

  after_claim : ClaimOutcome → Run Call Error Action
  unfolding cold together recorded_claim
  after_claim (claimed false) = call (apply_part owner_reference) answers.owner >> pure (requeue 2)
  after_claim (claimed true) = do
    together (owner_reference ∷ service ∷ ingress ∷ []) answers.joined
    pure await_change
  after_claim cold_path =
      if is_some (recorded_claim runner)
      then (call drop_claim answers.dropped >> pure (requeue 1))
      else cold

  runtime_of : Workspace → Result Error WorkspacePythonRuntime
  runtime_of workspace = ok_or (and_then workspace.status (λ s. s.python_runtime)) (
      custom
        (append "Workspace has no python runtime: " (debug_name (require_name workspace.metadata))))

  with_workspace : Option Workspace → Run Call Error Action
  unfolding after_claim runtime_of is_workspace_ready
  with_workspace none = answer (
      err (
        custom
          (append "Runner bound to workspace that does not exist: " (debug runner.spec.workspace))))
  with_workspace (some workspace) =
      if is_workspace_ready workspace
      then (do
        runtime ← answer (runtime_of workspace)
        outcome ← answer (answers.claim workspace runtime)
        after_claim outcome)
      else pure (requeue 5)

  unfoldable pub apply : Run Call Error Action
  unfolding with_workspace
  apply = do
    answer (require_namespace runner.metadata)
    workspace ← answer answers.workspace
    with_workspace workspace
