-- ===== src/Pool/Examples.antt =====
-- The theorems about pools at a pool of two warm pods.
use kubimo.Common.{
  ℕ, ◌≡◌, refl, String, Bool, true, List, [], ◌∷◌, ◌++◌, Option, none, some, all, length,
}
use kubimo.Common.Int.{pos}
use kubimo.Common.Result.{ok}
use kubimo.Api.Meta.{ObjectMeta, require_name, require_namespace, static_controller_owner_ref}
use kubimo.Api.Pod.{Pod}
use kubimo.Api.Pool.{
  Pool, pool_label, pool_state_label, pool_state_warm, warm_base_url_annotation,
  warm_token_annotation, pool_template_hash_annotation,
}
use kubimo.Api.Runner.{edit}
use kubimo.Pool.Fleet.{split_warm, is_fresh, min}
use kubimo.Pool.Fleet.Kept.{count, split_warm_lem}
use kubimo.Pool.Minted.{Counted, build_warm_pod-Counted}
use kubimo.Pool.WarmPod.{Config, WarmPodIdentity, build_warm_pod, template_hash, hex}

abbrev meta : String → Option ℕ → String → ObjectMeta
meta name born hash = record {
  name = some name;
  uid = some "1";
  namespace = some "team";
  labels = none;
  annotations = some ((pool_template_hash_annotation, hash) ∷ []);
  creation_timestamp = elim born [ none ↦ none | some t ↦ some (pos t) ];
  deletion_timestamp = none;
  generation = none;
}

abbrev pod : String → ℕ → String → Pod
pod name born hash = record { metadata = meta name (some born) hash; status = none }

-- Two fresh pods, the younger first, and one of an older template.
abbrev pods : List Pod
pods = pod "b" 20 "now" ∷ pod "a" 10 "now" ∷ pod "c" 5 "old" ∷ []

oldest_kept : (split_warm "now" 1 pods).kept ≡ pod "a" 10 "now" ∷ []
unfolding split_warm is_fresh min
oldest_kept = refl

split_warm_lem_example :
    ((p : Pod → Bool)
      → count p ((split_warm "now" 1 pods).kept ++ (split_warm "now" 1 pods).excess) ≡ count p pods)
    × (all (is_fresh "now") (split_warm "now" 1 pods).kept ≡ true)
    × (length (split_warm "now" 1 pods).kept ≡ min 1 (count (is_fresh "now") pods))
split_warm_lem_example = split_warm_lem "now" 1 pods

abbrev editors : Pool
editors = record {
  metadata = meta "editors" none "";
  spec = record {
    replicas = 2;
    command = edit;
    python_runtime = none;
    log_level = none;
    memory = none;
    cpu = none;
    env = none;
    sidecars = none;
    s3_secret_name = none;
    storage = none;
  };
  status = none;
}

abbrev config : Config
config = record {
  marimo_image = "marimo";
  marimo_conda_image = "conda";
  runner_hosts = "example.org" ∷ [];
  runner_asset_url = λ _. none;
}

abbrev identity : WarmPodIdentity
identity = record { name = "editors-01"; token = "ff"; base_url = "/editors-01" }

abbrev minted_pod : Pod
minted_pod = record {
  metadata = record {
    name = some "editors-01";
    uid = none;
    namespace = some "team";
    labels = some ((pool_label, "editors") ∷ (pool_state_label, pool_state_warm) ∷ []);
    annotations = some (
        (warm_base_url_annotation, "/editors-01")
        ∷ (warm_token_annotation, "ff")
        ∷ (pool_template_hash_annotation, "01")
        ∷ []);
    creation_timestamp = none;
    deletion_timestamp = none;
    generation = none;
  };
  status = none;
}

was_built : build_warm_pod (λ _. 1 ∷ []) (λ s. s) config editors identity ≡ ok minted_pod
unfolding build_warm_pod require_name require_namespace static_controller_owner_ref template_hash
    hex
was_built = refl

build_warm_pod-Counted_example : Counted (λ _. 1 ∷ []) (λ s. s) config editors minted_pod
build_warm_pod-Counted_example =
    build_warm_pod-Counted (λ _. 1 ∷ []) (λ s. s) config editors identity minted_pod was_built
