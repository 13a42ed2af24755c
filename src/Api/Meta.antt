-- ===== src/Api/Meta.antt =====
-- Object metadata and conditions: api/src/meta.rs, api/src/conditions.rs. `Condition` and
-- `ObjectMeta` are types of k8s_openapi, here with the fields that the program reads or writes.
use kubimo.Common.{String, Option, none, some, List, [], ◌∷◌}
use kubimo.Common.Int.{ℤ}
use kubimo.Common.{Dict}
use kubimo.Common.Result.{Result, ok_or}

-- A point in time, in whole seconds from the Unix epoch.
abbrev pub Timestamp : Type 0
Timestamp = ℤ

pub record Condition : Type 0 where
  pub type_ : String
  pub status : String
  pub reason : String
  pub message : String
  pub observed_generation : Option ℤ
  pub last_transition_time : Timestamp

pub record ObjectMeta : Type 0 where
  pub name : Option String
  pub uid : Option String
  pub namespace : Option String
  pub labels : Option (Dict String)
  pub annotations : Option (Dict String)
  pub creation_timestamp : Option Timestamp
  pub deletion_timestamp : Option Timestamp
  pub generation : Option ℤ

-- A reference to the controller that owns an object.
pub record OwnerReference : Type 0 where
  pub kind : String
  pub name : String
  pub uid : String

-- The errors of the api crate that the handlers meet: a missing metadata field, or what the
-- cluster or another library answered, by its status code and text.
pub data Error : Type 0 where
  object_meta_missing : String → Error
  api : ℤ → String → Error
  custom : String → Error

unfoldable pub require_name : ObjectMeta → Result Error String
require_name meta = ok_or meta.name (object_meta_missing "name")

unfoldable pub require_namespace : ObjectMeta → Result Error String
require_namespace meta = ok_or meta.namespace (object_meta_missing "namespace")

-- `controller_owner_ref` of kube needs the name and the uid of the owner.
owner_ref : String → Option String → Option String → Option OwnerReference
owner_ref kind (some name) (some uid) = some (record { kind = kind; name = name; uid = uid })
owner_ref kind _ _ = none

unfoldable pub static_controller_owner_ref : String → ObjectMeta → Result Error OwnerReference
unfolding owner_ref
static_controller_owner_ref kind meta =
    ok_or (owner_ref kind meta.name meta.uid) (object_meta_missing "controller_owner_ref")

-- The labels that name the runner and the workspace of a pod.
abbrev pub name_label : String
name_label = "kubimo.aqora.io/name"

abbrev pub workspace_label : String
workspace_label = "kubimo.aqora.io/workspace"

-- The condition types that a runner reports as it starts up.
abbrev pub pvc_bound : String
pvc_bound = "PvcBound"

abbrev pub workspace_ready : String
workspace_ready = "WorkspaceReady"

abbrev pub pod_scheduled : String
pod_scheduled = "PodScheduled"

abbrev pub pod_ready : String
pod_ready = "PodReady"

abbrev pub startup_conditions : List String
startup_conditions = pvc_bound ∷ workspace_ready ∷ pod_scheduled ∷ pod_ready ∷ []
