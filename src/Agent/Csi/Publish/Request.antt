-- ===== src/Agent/Csi/Publish/Request.antt =====
-- What a publish asks for, read from the attributes of its volume: agent/src/csi.rs.
use Prim.Native.String.{◌++◌ as append}
use kubimo.Common.{ℕ, String, Bool, Option, none, some, List, is_some, if◌then◌else◌, ◌==◌}
use kubimo.Common.Result.{Result, ok, err, ok_or, ◌>>=◌, ◌>>◌}
use kubimo.Common.Text.{Text, codes, codes_partial_eq}
use kubimo.Common.Text.Decimal.{parse_u64}
use kubimo.Api.Workspace.{WorkspaceRestoreSecrets, values, names_only}
use kubimo.Agent.Csi.Keyed.{get}
use kubimo.Agent.Csi.Node.{Status, invalid_argument, ArchiveLocation, SeedArchive, Config, Answers}

abbrev pub map_some {ℓ} : {A B : Type ℓ} → (A → B) → Option A → Option B
map_some f none = none
map_some f (some a) = some (f a)

pub record PublishRequest : Type 0 where
  pub volume_id : Text
  pub target_path : Text
  pub readonly : Bool
  pub volume_context : List (Text × Text)
  pub secrets : List (Text × Text)

abbrev pub attr : String → PublishRequest → Option Text
attr name request = get (codes name) request.volume_context

-- `str::parse::<WorkspaceRestoreSecrets>`
unfoldable pub parse_secrets : Text → Option WorkspaceRestoreSecrets
parse_secrets raw =
    if raw == codes "values"
    then some values
    else if raw == codes "names-only"
    then some names_only
    else none

-- What a request asks for that is well formed.
pub record Wanted : Type 0 where
  pub workspace : Text
  pub namespace : Text
  pub limit_bytes : ℕ
  pub archive : Option ArchiveLocation
  pub seed : Option SeedArchive
  pub runtime : Option Text

pub record WantedPool : Type 0 where
  pub namespace : Text
  pub pod : Text
  pub pod_uid : Text
  pub limit_bytes : ℕ
  pub runtime : Option Text

-- A workspace's namespace comes from kubelet, as the pod's.
abbrev pub pod_namespace : String
pod_namespace = "csi.storage.k8s.io/pod.namespace"

abbrev pooled_why : String
pooled_why = " is required for a pooled volume; the CSIDriver must set podInfoOnMount"

archive_at : PublishRequest → String → Text → ArchiveLocation
archive_at request prefix bucket = record { bucket = bucket; key_prefix = attr prefix request }

module _ (config : Config) (world : Answers) where
  required : String → String → PublishRequest → Result Status Text
  required name why request =
      ok_or (attr name request)
        (invalid_argument (append "volume attribute " (append (world.debug (codes name)) why)))

  limit_of : Option Text → Result Status ℕ
  limit_of none = ok config.default_limit_bytes
  limit_of (some raw) = ok_or (parse_u64 raw) (
      invalid_argument
        (append "volume attribute \"limitBytes\" must be a byte count, got " (world.debug raw)))

  restore_mode : Option Text → Result Status WorkspaceRestoreSecrets
  unfolding parse_secrets
  restore_mode none = ok names_only
  restore_mode (some raw) = ok_or (parse_secrets raw) (
      invalid_argument (
        append "volume attribute \"seedSecrets\" must be \"values\" or \"names-only\", got "
          (world.debug raw)))

  -- The attributes of a workspace's volume.
  unfoldable pub read_request : PublishRequest → Result Status Wanted
  unfolding required limit_of restore_mode archive_at
  read_request request = do
    workspace ← required "workspace" " is required" request
    limit_bytes ← limit_of (attr "limitBytes" request)
    secrets ← restore_mode (attr "seedSecrets" request)
    namespace ← required pod_namespace " is required; the CSIDriver must set podInfoOnMount" request
    ok (record {
      workspace = workspace;
      namespace = namespace;
      limit_bytes = limit_bytes;
      archive = map_some (archive_at request "keyPrefix") (attr "bucket" request);
      seed =
          map_some
            (λ b. record { location = archive_at request "seedKeyPrefix" b; secrets = secrets })
            (attr "seedBucket" request);
      runtime = attr "python_runtime" request;
    })

  refuse_attribute : String → PublishRequest → Result Status (Unit {0})
  refuse_attribute name request =
      if is_some (attr name request)
      then err (
          invalid_argument (
            append "a pooled volume must not carry the "
              (append (world.debug (codes name)) " attribute")))
      else ok tt

  -- The attributes of a warm pod's volume.
  unfoldable pub read_pool_request : PublishRequest → Result Status WantedPool
  unfolding refuse_attribute required limit_of
  read_pool_request request = do
    refuse_attribute "workspace" request
    refuse_attribute "bucket" request
    refuse_attribute "seedBucket" request
    namespace ← required pod_namespace pooled_why request
    pod ← required "csi.storage.k8s.io/pod.name" pooled_why request
    pod_uid ← required "csi.storage.k8s.io/pod.uid" pooled_why request
    limit_bytes ← limit_of (attr "limitBytes" request)
    ok (record {
      namespace = namespace;
      pod = pod;
      pod_uid = pod_uid;
      limit_bytes = limit_bytes;
      runtime = attr "python_runtime" request;
    })
