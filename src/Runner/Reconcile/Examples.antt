-- ===== src/Runner/Reconcile/Examples.antt =====
-- The theorem about the reconcile of a runner, at a runner with an acked claim.
use kubimo.Common.{String, true, none, some, [], ◌∷◌, refl}
use kubimo.Common.Int.{pos}
use kubimo.Common.Result.{ok}
use kubimo.Api.Meta.{Condition, ObjectMeta, require_namespace}
use kubimo.Api.Runner.{Runner, edit}
use kubimo.Api.Workspace.{Workspace, pooled, uv}
use kubimo.Runner.Claim.{claimed}
use kubimo.Runner.Reconcile.{Answers, apply, is_workspace_ready}
use kubimo.Runner.Reconcile.Withheld.{Ready, exposes, apply-Ready}

abbrev named : String → ObjectMeta
named name = record {
  name = some name;
  uid = some "1";
  namespace = some "team";
  labels = none;
  annotations = none;
  creation_timestamp = none;
  deletion_timestamp = none;
  generation = none;
}

abbrev lesson : Runner
lesson = record {
  metadata = named "lesson";
  spec = record {
    workspace = "desk";
    command = edit;
    log_level = none;
    memory = none;
    cpu = none;
    env = none;
    env_from = none;
    ingress = none;
    lifecycle = none;
    token = none;
    sidecars = none;
    pool = none;
  };
  status = none;
}

abbrev ready : Condition
ready = record {
  type_ = "Ready";
  status = "True";
  reason = "";
  message = "";
  observed_generation = none;
  last_transition_time = pos 0;
}

abbrev desk : Workspace
desk = record {
  metadata = named "desk";
  spec = record { mode = some pooled; storage = none; indexer = none; restore_from = none };
  status = some (record {
    conditions = some (ready ∷ []);
    storage = none;
    mode = none;
    slot = none;
    python_runtime = some uv;
  });
}

abbrev acked : Answers
acked = record {
  workspace = ok (some desk);
  claim = λ _ _. ok (claimed true);
  dropped = ok tt;
  owner = ok tt;
  joined = ok [];
}

apply-Ready_example : Ready (λ s. s) (λ _. "desk") lesson acked
unfolding apply is_workspace_ready require_namespace exposes
apply-Ready_example = apply-Ready (λ s. s) (λ _. "desk") lesson acked refl
