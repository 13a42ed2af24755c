-- ===== src/Runner/Sources.antt =====
-- Where the agent takes the contents of a slot from: controller/src/controllers/slot_volume.rs,
-- and the payload of a claim: controller/src/controllers/runner/apply_claim.rs.
use kubimo.Common.{ℕ, String, Option, none, some, List, [], ◌∷◌, and_then, unwrap_or, or}
use kubimo.Api.Quantity.{Float64, to_bytes}
use kubimo.Api.Pod.{EnvFromSource}
use kubimo.Api.Workspace.{
  Workspace, WorkspaceIndexer, WorkspaceRestoreFrom, WorkspaceRestoreSecrets, names_only,
}
use kubimo.Api.Runner.{Runner}
use kubimo.Api.Pool.{PoolClaim}

pub record Location : Type 0 where
  pub bucket : Option String
  pub key_prefix : Option String

pub record Seed : Type 0 where
  pub bucket : String
  pub key_prefix : Option String
  pub secrets : WorkspaceRestoreSecrets

pub record SlotSources : Type 0 where
  pub limit_bytes : Option ℕ
  pub archive : Option Location
  pub seed : Option Seed
  pub credentials_secret : Option String

first_secret : List EnvFromSource → Option String
first_secret [] = none
first_secret (source ∷ sources) = or source.secret_ref (first_secret sources)

unfoldable pub credentials_secret_name : WorkspaceIndexer → Option String
unfolding first_secret
credentials_secret_name indexer = and_then indexer.pod (λ pod. and_then pod.env_from first_secret)

archive_of : WorkspaceIndexer → Location
archive_of indexer = record { bucket = indexer.bucket; key_prefix = indexer.key_prefix }

seed_of : WorkspaceRestoreFrom → Seed
seed_of restore = record {
  bucket = restore.bucket;
  key_prefix = restore.key_prefix;
  secrets = unwrap_or restore.secrets names_only;
}

unfoldable pub from_workspace : Float64 → Workspace → SlotSources
unfolding archive_of seed_of credentials_secret_name
from_workspace fl workspace = record {
  limit_bytes = and_then workspace.spec.storage (λ storage. and_then storage.max (to_bytes fl));
  archive = and_then workspace.spec.indexer (λ i. some (archive_of i));
  seed = and_then workspace.spec.restore_from (λ r. some (seed_of r));
  credentials_secret = and_then workspace.spec.indexer credentials_secret_name;
}

unfoldable pub pool_claim : Float64 → Runner → Workspace → PoolClaim
unfolding from_workspace
pool_claim fl runner workspace =
    let sources = from_workspace fl workspace in
    record {
      workspace = runner.spec.workspace;
      bucket = and_then sources.archive (λ a. a.bucket);
      key_prefix = and_then sources.archive (λ a. a.key_prefix);
      seed_bucket = and_then sources.seed (λ s. some s.bucket);
      seed_key_prefix = and_then sources.seed (λ s. s.key_prefix);
      seed_secrets = and_then sources.seed (λ s. some s.secrets);
      limit_bytes = sources.limit_bytes;
    }
