-- ===== src/Api/Pool.antt =====
-- Pools of warm pods and the protocol of a claim: api/src/pool.rs, api/src/crd.rs.
use kubimo.Common.{ℕ, String, Option, List}
use kubimo.Api.Meta.{ObjectMeta, Condition}
use kubimo.Api.Quantity.{StorageQuantity}
use kubimo.Api.Pod.{Container, EnvVar}
use kubimo.Api.Workspace.{StorageRequirement, WorkspacePythonRuntime, WorkspaceRestoreSecrets}
use kubimo.Api.Runner.{RunnerCommand, LogLevel, CpuRequirement}

abbrev pub pool_label : String
pool_label = "kubimo.aqora.io/pool"

abbrev pub pool_state_label : String
pool_state_label = "kubimo.aqora.io/pool-state"

abbrev pub pool_state_warm : String
pool_state_warm = "warm"

abbrev pub pool_state_claimed : String
pool_state_claimed = "claimed"

abbrev pub pool_state_retiring : String
pool_state_retiring = "retiring"

abbrev pub claim_annotation : String
claim_annotation = "kubimo.aqora.io/claim"

abbrev pub claim_state_annotation : String
claim_state_annotation = "kubimo.aqora.io/claim-state"

abbrev pub claim_state_bound : String
claim_state_bound = "bound"

abbrev pub claim_state_failed : String
claim_state_failed = "failed"

abbrev pub claim_error_annotation : String
claim_error_annotation = "kubimo.aqora.io/claim-error"

abbrev pub warm_base_url_annotation : String
warm_base_url_annotation = "kubimo.aqora.io/warm-base-url"

abbrev pub warm_token_annotation : String
warm_token_annotation = "kubimo.aqora.io/warm-token"

abbrev pub pool_template_hash_annotation : String
pool_template_hash_annotation = "kubimo.aqora.io/pool-template-hash"

-- What the agent needs to turn the slot of a warm pod into the slot of the workspace.
pub record PoolClaim : Type 0 where
  pub workspace : String
  pub bucket : Option String
  pub key_prefix : Option String
  pub seed_bucket : Option String
  pub seed_key_prefix : Option String
  pub seed_secrets : Option WorkspaceRestoreSecrets
  pub limit_bytes : Option ℕ

pub record PoolStatus : Type 0 where
  pub conditions : Option (List Condition)
  pub warm : Option ℕ
  pub claimed : Option ℕ

pub record PoolSpec : Type 0 where
  pub replicas : ℕ
  pub command : RunnerCommand
  pub python_runtime : Option WorkspacePythonRuntime
  pub log_level : Option LogLevel
  pub memory : Option StorageRequirement
  pub cpu : Option CpuRequirement
  pub env : Option (List EnvVar)
  pub sidecars : Option (List Container)
  pub s3_secret_name : Option String
  pub storage : Option StorageQuantity

pub record Pool : Type 0 where
  pub metadata : ObjectMeta
  pub spec : PoolSpec
  pub status : Option PoolStatus
