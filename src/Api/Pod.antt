-- ===== src/Api/Pod.antt =====
-- Pods and volume claims of k8s_openapi, with the fields that the program reads or compares.
use kubimo.Common.{String, Bool, Option, List}
use kubimo.Common.Int.{ℤ}
use kubimo.Common.{Dict}
use kubimo.Api.Meta.{ObjectMeta, OwnerReference}
use kubimo.Api.Quantity.{StorageQuantity}

pub record SecretKeySelector : Type 0 where
  pub name : String
  pub key : String
  pub optional : Option Bool

pub record ConfigMapKeySelector : Type 0 where
  pub name : String
  pub key : String
  pub optional : Option Bool

pub record ObjectFieldSelector : Type 0 where
  pub api_version : Option String
  pub field_path : String

pub record ResourceFieldSelector : Type 0 where
  pub container_name : Option String
  pub divisor : Option String
  pub resource : String

pub record FileKeySelector : Type 0 where
  pub key : String
  pub optional : Option Bool
  pub path : String
  pub volume_name : String

pub record EnvVarSource : Type 0 where
  pub config_map_key_ref : Option ConfigMapKeySelector
  pub field_ref : Option ObjectFieldSelector
  pub file_key_ref : Option FileKeySelector
  pub resource_field_ref : Option ResourceFieldSelector
  pub secret_key_ref : Option SecretKeySelector

-- Whole, as variables are compared by all that they say.
pub record EnvVar : Type 0 where
  pub name : String
  pub value : Option String
  pub value_from : Option EnvVarSource

pub record EnvFromSource : Type 0 where
  pub secret_ref : Option String

pub record Container : Type 0 where
  pub name : String
  pub image : Option String
  pub env : Option (List EnvVar)
  pub env_from : Option (List EnvFromSource)

pub record Secret : Type 0 where
  pub metadata : ObjectMeta
  pub owner : OwnerReference
  pub contents : Option (Dict String)  -- `data`

pub record ContainerStateWaiting : Type 0 where
  pub reason : Option String
  pub message : Option String

pub record ContainerStateTerminated : Type 0 where
  pub reason : Option String
  pub exit_code : ℤ

-- The contents of `running` are never read, only whether it is there.
pub record ContainerState : Type 0 where
  pub waiting : Option ContainerStateWaiting
  pub running : Option (Unit {0})
  pub terminated : Option ContainerStateTerminated

pub record ContainerStatus : Type 0 where
  pub name : String
  pub ready : Bool
  pub started : Option Bool
  pub restart_count : ℤ
  pub state : Option ContainerState
  pub last_state : Option ContainerState

pub record PodCondition : Type 0 where
  pub type_ : String
  pub status : String
  pub reason : Option String
  pub message : Option String

pub record PodStatus : Type 0 where
  pub phase : Option String
  pub conditions : Option (List PodCondition)
  pub container_statuses : Option (List ContainerStatus)

pub record Pod : Type 0 where
  pub metadata : ObjectMeta
  pub status : Option PodStatus

pub record PersistentVolumeClaimStatus : Type 0 where
  pub phase : Option String

pub record VolumeResourceRequirements : Type 0 where
  pub requests : Option (Dict StorageQuantity)

pub record PersistentVolumeClaimSpec : Type 0 where
  pub resources : Option VolumeResourceRequirements

pub record PersistentVolumeClaim : Type 0 where
  pub metadata : ObjectMeta
  pub spec : Option PersistentVolumeClaimSpec
  pub status : Option PersistentVolumeClaimStatus
