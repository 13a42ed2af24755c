-- ===== src/Runner/Races.antt =====
-- Passes of the pool controller and of runner controllers over one namespace, in any order: a
-- claim is exclusive, and a pod is claimed or withdrawn, never both.
use kubimo.Common.{ℕ, String, List, ◌≡◌, ◌≢◌, ◌⊎◌, some}
use kubimo.Common.Result.{Result, ok}
use kubimo.Api.Meta.{Error, Timestamp, name_label, require_name}
use kubimo.Api.Pool.{Pool, PoolClaim, pool_state_label, pool_state_claimed, pool_state_retiring}
use kubimo.Api.Runner.{Runner}
use kubimo.Api.Workspace.{Workspace, WorkspacePythonRuntime}
use kubimo.Kube.Request.{Request, Answer, Program, done, ask, forget}
use kubimo.Kube.Server.{Labels, Server, Lawful, alive}
use kubimo.Kube.Cautious.{Who, pool, runner, Cautious}
use kubimo.Kube.System.{System, Reach, Run, Fresh}
use kubimo.Kube.Exclusive.{claimed-kept}
use kubimo.Kube.Lifecycle.{phase, in_state, over, settled-stays}
use kubimo.Pool.WarmPod.{Config, Fingerprint}
use kubimo.Pool.Reconcile.{apply}
use kubimo.Pool.Careful.{apply-Cautious}
use kubimo.Runner.Eligible.{Context}
use kubimo.Runner.Claim.{apply_claim, clear_stale_claim}
use kubimo.Runner.Careful.{apply_claim-Cautious, clear_stale-Cautious}

forget-Cautious :
    {A : Type 0} (who : Who) (m : Program A) (P : String → Type 0)
    → Cautious who P m
    → Cautious who P (forget m)
unfolding forget
forget-Cautious who (done a) P h = tt
forget-Cautious who (ask q k) P (may, after) = (may, λ r p. forget-Cautious who (k r) _ (after r p))

module _ (digest : Fingerprint → List ℕ) (path : String → String) (config : Config) (ctx : Context)
    (debug : String → String) (to_json : PoolClaim → Result Error String) where
  -- The passes: of the pool controller, with what it draws, and of a named runner's controller.
  pub data Passes : Who → Program Unit → Type 0 where
    pool_pass :
        (draw : ℕ → List ℕ × List ℕ) (now : Timestamp) (p : Pool)
        → Passes pool (forget (apply digest path draw now config p))
    claim_pass :
        (r : Runner) (w : Workspace) (runtime : WorkspacePythonRuntime) (me : String)
        → require_name r.metadata ≡ ok me
        → Passes (runner me) (forget (apply_claim ctx debug to_json r w runtime))
    cold_pass :
        (r : Runner) (me : String)
        → require_name r.metadata ≡ ok me
        → Passes (runner me) (forget (clear_stale_claim r))

  Passes-Cautious : (who : Who) (p : Program Unit) → Passes who p → Cautious who (λ _. ⊥) p
  Passes-Cautious who p (pool_pass draw now q) =
      forget-Cautious pool _ _ (apply-Cautious digest path draw now config q _)
  Passes-Cautious who p (claim_pass r w runtime me named) =
      forget-Cautious (runner me) _ _
        (apply_claim-Cautious me ctx debug to_json r w runtime _ named)
  Passes-Cautious who p (cold_pass r me named) =
      forget-Cautious (runner me) _ _ (clear_stale-Cautious me r _)

  module _ {S : Type 0} (server : Server S) (laws : Lawful server) where
    open server use {life, serve}

    -- However the passes of the pool and the runner controllers interleave over a lawful API
    -- server, a pod that is claimed by a runner keeps its labels, and is not deleted, through the
    -- next request of any thread but that runner's, if minted names are fresh and at the start no
    -- warm pod had a runner's name.
    pub claims-exclusive :
        {s : S} {x : System S}
        → Reach server Passes s x
        → (name r : String) (l : Labels) → life x.state name ≡ alive l
        → l pool_state_label ≡ some pool_state_claimed
        → l name_label ≡ some r
        → (i : ℕ) (who : Who) (q : Request) (k : Result Error (Answer q) → Program Unit)
        → x.threads i ≡ (who, ask q k)
        → Fresh server x.state q
        → who ≢ runner r
        → life (serve q x.state).1 name ≡ alive l
    claims-exclusive = claimed-kept server laws Passes Passes-Cautious

    -- However the passes interleave over a lawful API server, a pod that is claimed, or that is
    -- withdrawn by the pool, in a reachable state is so in every later one, until it is gone: it
    -- never becomes the other, if minted names are fresh and at the start no warm pod had a runner's
    -- name.
    pub claimed_or_retired :
        {s : S} {x y : System S}
        → Reach server Passes s x
        → Run server Passes x y
        → (name state : String) → (state ≡ pool_state_claimed) ⊎ (state ≡ pool_state_retiring)
        → phase (life x.state name) ≡ in_state (some state)
        → (phase (life y.state name) ≡ in_state (some state)) ⊎ (phase (life y.state name) ≡ over)
    claimed_or_retired = settled-stays server laws Passes Passes-Cautious
