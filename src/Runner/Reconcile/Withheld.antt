-- ===== src/Runner/Reconcile/Withheld.antt =====
-- When a reconcile exposes a runner.
use native.Mathlib.Omega.{arith}
use kubimo.Common.{
  String, Bool, true, false, ◌≡◌, ◌⊎◌, inl, inr, refl, Option, none, some, any, is_some,
  if◌then◌else◌,
}
use kubimo.Common.Result.{Result, ok, err}
use kubimo.Common.Effect.{Run, pure, answer, call, ◌>>=◌, ◌>>◌}
use kubimo.Api.Meta.{Error, require_namespace}
use kubimo.Api.Workspace.{Workspace, WorkspacePythonRuntime}
use kubimo.Api.Runner.{Runner}
use kubimo.Runner.Claim.{ClaimOutcome, claimed, cold_path, recorded_claim}
use kubimo.Runner.Reconcile.{
  Call, apply_part, requeue, drop_claim, owner_reference, service, ingress, Answers, apply,
  with_workspace, after_claim, runtime_of, is_workspace_ready,
}

-- A request that lets users reach the runner.
unfoldable pub exposes : Call → Bool
exposes (apply_part service) = true
exposes (apply_part ingress) = true
exposes _ = false

answer-exposes :
    {A B : Type 0} (r : Result Error A) (f : A → Run Call Error B)
    → any exposes (answer r >>= f).calls ≡ true
    → (a : A) × (r ≡ ok a) × (any exposes (f a).calls ≡ true)
answer-exposes (ok a) f h = (a, refl, h)
answer-exposes (err e) f h = cc

exposes-quiet :
    {A B P : Type 0} (c : Call) (r : Result Error A) (b : B)
    → exposes c ≡ false
    → any exposes (call c r >> pure b).calls ≡ true
    → P
exposes-quiet c (ok a) b q h = ground arith
exposes-quiet c (err e) b q h = ground arith

exposes-if :
    {A : Type 0} (b : Bool) (m n : Run Call Error A)
    → any exposes (if b then m else n).calls ≡ true
    → ((b ≡ true) × (any exposes m.calls ≡ true)) ⊎ ((b ≡ false) × (any exposes n.calls ≡ true))
exposes-if true m n h = inl (refl, h)
exposes-if false m n h = inr (refl, h)

module _ (debug : String → String) (debug_name : Result Error String → String) (runner : Runner)
    (answers : Answers) where
  abbrev pub May : ClaimOutcome → Type 0
  May outcome =
      (outcome ≡ claimed true) ⊎ ((outcome ≡ cold_path) × (is_some (recorded_claim runner) ≡ false))

  abbrev pub Ready : Type 0
  Ready =
      (workspace : Workspace) × (answers.workspace ≡ ok (some workspace))
      × (is_workspace_ready workspace ≡ true)
      × (runtime : WorkspacePythonRuntime) × (outcome : ClaimOutcome) × (answers.claim workspace
            runtime
          ≡ ok outcome)
      × May outcome

  after_claim-May :
      (outcome : ClaimOutcome)
      → any exposes (after_claim debug debug_name runner answers outcome).calls ≡ true
      → May outcome
  unfolding after_claim exposes
  after_claim-May (claimed false) h =
      exposes-quiet (apply_part owner_reference) answers.owner (requeue 2) refl h
  after_claim-May (claimed true) h = inl refl
  after_claim-May cold_path h = elim (exposes-if (is_some (recorded_claim runner)) _ _ h) [
    | inl (_, g) ↦ exposes-quiet drop_claim answers.dropped (requeue 1) refl g
    | inr (t, _) ↦ inr (refl, t)
  ]

  with_workspace-Ready :
      (workspace : Workspace)
      → any exposes (with_workspace debug debug_name runner answers (some workspace)).calls ≡ true
      → (is_workspace_ready workspace ≡ true)
        × (runtime : WorkspacePythonRuntime) × (outcome : ClaimOutcome) × (answers.claim workspace
              runtime
            ≡ ok outcome)
        × May outcome
  unfolding with_workspace
  with_workspace-Ready workspace h = elim (exposes-if (is_workspace_ready workspace) _ _ h) [
    | inl (t, g) ↦
        let (runtime, _, g1) =
          answer-exposes (runtime_of debug debug_name runner answers workspace) _ g in
        let (outcome, e, g2) = answer-exposes (answers.claim workspace runtime) _ g1 in
        (t, runtime, outcome, e, after_claim-May outcome g2)
    | inr (_, g) ↦ cc
  ]

  -- When a reconcile applies the service or the ingress of a runner, its workspace was found and
  -- is ready, and the claim came to a pod whose agent has acked it, or to the cold path with no
  -- claim recorded.
  pub apply-Ready : any exposes (apply debug debug_name runner answers).calls ≡ true → Ready
  unfolding apply with_workspace
  apply-Ready h =
      let (_, _, h1) = answer-exposes (require_namespace runner.metadata) _ h in
      let (found, e, h2) = answer-exposes answers.workspace _ h1 in in_workspace found e h2
    where
      in_workspace :
          (found : Option Workspace)
          → answers.workspace ≡ ok found
          → any exposes (with_workspace debug debug_name runner answers found).calls ≡ true
          → Ready
      in_workspace none e g = cc
      in_workspace (some workspace) e g =
          let (t, runtime, outcome, c, may) = with_workspace-Ready workspace g in
          (workspace, e, t, runtime, outcome, c, may)
