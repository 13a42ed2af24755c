-- ===== src/Api/Workspace.antt =====
-- Workspaces, with the fields that the modelled controllers read: api/src/crd.rs.
use kubimo.Common.{String, Option, List, or, unwrap_or, and_then}
use kubimo.Api.Meta.{ObjectMeta, Condition}
use kubimo.Api.Pod.{EnvFromSource}
use kubimo.Api.Quantity.{StorageQuantity}

pub data WorkspaceMode : Type 0 where
  dedicated pooled : WorkspaceMode

pub record StorageRequirement : Type 0 where
  pub min : Option StorageQuantity
  pub max : Option StorageQuantity

pub record WorkspaceStorageStatus : Type 0 where
  pub used : Option StorageQuantity

pub record WorkspaceSlotStatus : Type 0 where
  pub node : Option String

pub data WorkspaceRestoreSecrets : Type 0 where
  values names_only : WorkspaceRestoreSecrets

pub data WorkspacePythonRuntime : Type 0 where
  uv conda : WorkspacePythonRuntime

pub record WorkspaceIndexerPod : Type 0 where
  pub env_from : Option (List EnvFromSource)

pub record WorkspaceIndexer : Type 0 where
  pub bucket : Option String
  pub key_prefix : Option String
  pub pod : Option WorkspaceIndexerPod

pub record WorkspaceRestoreFrom : Type 0 where
  pub bucket : String
  pub key_prefix : Option String
  pub secrets : Option WorkspaceRestoreSecrets

pub record WorkspaceSpec : Type 0 where
  pub mode : Option WorkspaceMode
  pub storage : Option StorageRequirement
  pub indexer : Option WorkspaceIndexer
  pub restore_from : Option WorkspaceRestoreFrom

pub record WorkspaceStatus : Type 0 where
  pub conditions : Option (List Condition)
  pub storage : Option WorkspaceStorageStatus
  pub mode : Option WorkspaceMode
  pub slot : Option WorkspaceSlotStatus
  pub python_runtime : Option WorkspacePythonRuntime

pub record Workspace : Type 0 where
  pub metadata : ObjectMeta
  pub spec : WorkspaceSpec
  pub status : Option WorkspaceStatus

unfoldable pub effective_mode : Workspace → WorkspaceMode → WorkspaceMode
effective_mode w default_mode =
    unwrap_or (or (and_then w.status (λ s. s.mode)) w.spec.mode) default_mode
