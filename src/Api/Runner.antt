-- ===== src/Api/Runner.antt =====
-- Runners, with the fields that the status controller reads and writes: api/src/crd.rs.
use mathlib.Core.Bool.{decide, decide_iff}
use native.Mathlib.Decide.{ℕ_discrete}
use kubimo.Common.{ℕ, String, Bool, true, Option, List, ◌≡◌, ◌↔◌, String-discrete}
use kubimo.Api.Quantity.{CpuQuantity}
use kubimo.Api.Pod.{Container, EnvVar, EnvFromSource, SecretKeySelector}
use kubimo.Api.Workspace.{StorageRequirement}
use kubimo.Api.Meta.{ObjectMeta, Condition, Timestamp}

pub data LogLevel : Type 0 where
  debug info warn error critical : LogLevel

pub record CpuRequirement : Type 0 where
  pub min : Option CpuQuantity
  pub max : Option CpuQuantity

pub record RunnerTls : Type 0 where
  pub hosts : Option (List String)

pub record RunnerIngress : Type 0 where
  pub tls : Option RunnerTls

pub data RunnerCommand : Type 0 where
  edit run render : RunnerCommand

pub record RunnerClaim : Type 0 where
  pub pool : String
  pub pod_name : String
  pub ingress_path : String
  pub token : Option String

pub record RunnerStatus : Type 0 where
  pub conditions : Option (List Condition)
  pub last_active : Option Timestamp
  pub marimo_version : Option String
  pub claim : Option RunnerClaim

pub record RunnerToken : Type 0 where
  pub value : Option String
  pub secret_ref : Option SecretKeySelector

pub record RunnerLifecycle : Type 0 where
  pub delete_after_secs_inactive : Option ℕ

pub record RunnerSpec : Type 0 where
  pub workspace : String
  pub command : RunnerCommand
  pub log_level : Option LogLevel
  pub memory : Option StorageRequirement
  pub cpu : Option CpuRequirement
  pub env : Option (List EnvVar)
  pub env_from : Option (List EnvFromSource)
  pub ingress : Option RunnerIngress
  pub lifecycle : Option RunnerLifecycle
  pub token : Option RunnerToken
  pub sidecars : Option (List Container)
  pub pool : Option String

pub record Runner : Type 0 where
  pub metadata : ObjectMeta
  pub spec : RunnerSpec
  pub status : Option RunnerStatus

-- The derived `PartialEq` of a runner's status.
unfoldable pub RunnerStatus-discrete : Discrete (Option RunnerStatus)
unfolding ℕ_discrete
RunnerStatus-discrete = hlevel (ℕ_discrete, String-discrete)

unfoldable pub status_eq : Option RunnerStatus → Option RunnerStatus → Bool
unfolding RunnerStatus-discrete decide
status_eq a b = decide (RunnerStatus-discrete a b)

pub status_eq_iff : (a b : Option RunnerStatus) → (status_eq a b ≡ true) ↔ (a ≡ b)
unfolding status_eq
status_eq_iff a b = decide_iff (RunnerStatus-discrete a b)
