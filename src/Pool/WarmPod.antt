-- ===== src/Pool/WarmPod.antt =====
-- Minting warm pods: controller/src/controllers/pool/warm_pod.rs. Of a pod only the metadata is
-- modelled. The random bytes, the percent encoding, and the digest of the template are arguments.
use Prim.Native.String.{◌++◌}
use kubimo.Common.{ℕ, zero, suc, ◌/◌, ◌%◌, String, Option, none, some, List, [], ◌∷◌, unwrap_or}
use kubimo.Common.Result.{Result, ok, ◌>>=◌, ◌>>◌}
use kubimo.Api.Meta.{Error, require_name, require_namespace, static_controller_owner_ref}
use kubimo.Api.Pod.{Pod, Secret, Container, EnvVar}
use kubimo.Api.Quantity.{StorageQuantity}
use kubimo.Api.Workspace.{StorageRequirement, WorkspacePythonRuntime, uv, conda}
use kubimo.Api.Runner.{RunnerCommand, LogLevel, CpuRequirement}
use kubimo.Api.Pool.{
  Pool, pool_label, pool_state_label, pool_state_warm, pool_template_hash_annotation,
  warm_base_url_annotation, warm_token_annotation,
}

pub record WarmPodIdentity : Type 0 where
  pub name : String
  pub token : String
  pub base_url : String

digit_at : ℕ → List String → String
digit_at n [] = ""
digit_at zero (d ∷ ds) = d
digit_at (suc n) (d ∷ ds) = digit_at n ds

hex_digit : ℕ → String
unfolding digit_at
hex_digit n = digit_at n (
    "0" ∷ "1" ∷ "2" ∷ "3" ∷ "4" ∷ "5" ∷ "6" ∷ "7" ∷ "8" ∷ "9" ∷ "a" ∷ "b" ∷ "c" ∷ "d" ∷ "e" ∷ "f"
    ∷ [])

-- Two lower-case digits a byte.
unfoldable pub hex : List ℕ → String
unfolding hex_digit
hex [] = ""
hex (b ∷ bytes) = hex_digit (b / 16) ++ hex_digit (b % 16) ++ hex bytes

unfoldable pub claim_secret_name : String → String
claim_secret_name pod_name = pod_name ++ "-claim"

unfoldable pub claim_secret : Pod → Result Error Secret
unfolding claim_secret_name
claim_secret pod = do
  name ← require_name pod.metadata
  owner ← static_controller_owner_ref "Pod" pod.metadata
  ok (record {
    metadata = record {
      name = some (claim_secret_name name);
      uid = none;
      namespace = pod.metadata.namespace;
      labels = none;
      annotations = none;
      creation_timestamp = none;
      deletion_timestamp = none;
      generation = none;
    };
    owner = owner;
    contents = none;
  })

-- The fields of the controller's configuration that a template depends on; the URL of the shared
-- assets is a function of the image.
pub record Config : Type 0 where
  pub marimo_image : String
  pub marimo_conda_image : String
  pub runner_hosts : List String
  pub runner_asset_url : String → Option String

unfoldable pub image_of : Config → WorkspacePythonRuntime → String
image_of config uv = config.marimo_image
image_of config conda = config.marimo_conda_image

abbrev pub first : {A : Type 0} → List A → Option A
first [] = none
first (x ∷ _) = some x

-- Everything that decides what a warm pod is: not the number of replicas, nor what is minted.
pub record Fingerprint : Type 0 where
  pub image : String
  pub command : RunnerCommand
  pub python_runtime : WorkspacePythonRuntime
  pub log_level : Option LogLevel
  pub cpu : Option CpuRequirement
  pub memory : Option StorageRequirement
  pub env : Option (List EnvVar)
  pub sidecars : Option (List Container)
  pub s3_secret_name : Option String
  pub storage : Option StorageQuantity
  pub origin : Option String
  pub asset_url : Option String

unfoldable pub fingerprint : Config → Pool → Fingerprint
unfolding image_of
fingerprint config pool =
    let runtime = unwrap_or pool.spec.python_runtime uv in
    let image = image_of config runtime in
    record {
      image = image;
      command = pool.spec.command;
      python_runtime = runtime;
      log_level = pool.spec.log_level;
      cpu = pool.spec.cpu;
      memory = pool.spec.memory;
      env = pool.spec.env;
      sidecars = pool.spec.sidecars;
      s3_secret_name = pool.spec.s3_secret_name;
      storage = pool.spec.storage;
      origin = first config.runner_hosts;
      asset_url = config.runner_asset_url image;
    }

-- The digest of a template as hexadecimal bytes, and the path of an ingress from a name.
module _ (digest : Fingerprint → List ℕ) (ingress_path_from_name : String → String) where
  unfoldable pub template_hash : Config → Pool → String
  template_hash config pool = hex (digest (fingerprint config pool))

  -- From four and sixteen random bytes.
  unfoldable pub mint_identity : String → List ℕ → List ℕ → WarmPodIdentity
  mint_identity pool_name suffix token =
      let name = pool_name ++ "-" ++ hex suffix in
      record { name = name; token = hex token; base_url = ingress_path_from_name name }

  unfoldable pub build_warm_pod : Config → Pool → WarmPodIdentity → Result Error Pod
  build_warm_pod config pool identity = do
    pool_name ← require_name pool.metadata
    namespace ← require_namespace pool.metadata
    static_controller_owner_ref "Pool" pool.metadata
    ok (record {
      metadata = record {
        name = some identity.name;
        uid = none;
        namespace = some namespace;
        labels = some ((pool_label, pool_name) ∷ (pool_state_label, pool_state_warm) ∷ []);
        annotations = some (
            (warm_base_url_annotation, identity.base_url)
            ∷ (warm_token_annotation, identity.token)
            ∷ (pool_template_hash_annotation, template_hash config pool)
            ∷ []);
        creation_timestamp = none;
        deletion_timestamp = none;
        generation = none;
      };
      status = none;
    })
