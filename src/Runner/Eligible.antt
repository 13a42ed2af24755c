-- ===== src/Runner/Eligible.antt =====
-- May a runner claim from a pool? controller/src/controllers/runner/apply_claim.rs.
pub mod Conditions
use kubimo.Common.{
  ℕ, String, Bool, true, false, not, ◌&&◌, Option, none, some, List, [], ◌∷◌, map, any, all, ltb,
  and_then, is_some_and, unwrap_or, sort_by, ◌==◌, PartialEq, derived, text_partial_eq,
  number_partial_eq, String-discrete, if◌then◌else◌,
}
use kubimo.Common.Equal.{
  option_partial_eq, list_partial_eq, pair_partial_eq, le_text, le_option, le_pair,
}
use kubimo.Common.Result.{Result, ok, err}
use kubimo.Api.Quantity.{
  Float64, Text, CpuQuantity, CpuUnit, core, milli, parse_cpu_unit, split_at_letter, to_bytes,
}
use kubimo.Api.Pod.{Container, EnvVar}
use kubimo.Api.Workspace.{
  Workspace, WorkspaceMode, WorkspacePythonRuntime, StorageRequirement, pooled, uv, effective_mode,
}
use kubimo.Api.Runner.{Runner, RunnerCommand, LogLevel, CpuRequirement}
use kubimo.Api.Pool.{Pool}
use kubimo.Pool.WarmPod.{first}
use kubimo.Runner.Sources.{from_workspace}

instance abbrev pub command_partial_eq : PartialEq RunnerCommand
command_partial_eq = derived (hlevel)

instance abbrev pub runtime_partial_eq : PartialEq WorkspacePythonRuntime
runtime_partial_eq = derived (hlevel)

instance abbrev pub mode_partial_eq : PartialEq WorkspaceMode
mode_partial_eq = derived (hlevel)

instance abbrev pub level_partial_eq : PartialEq LogLevel
level_partial_eq = derived (hlevel)

instance abbrev pub var_partial_eq : PartialEq EnvVar
var_partial_eq = derived (hlevel String-discrete)

amounts : {Q : Type 0} → (Q → Option ℕ) → Option Q → Option Q → Option ℕ × Option ℕ
amounts f min max = (and_then min f, and_then max f)

unfoldable pub storage_amounts : Float64 → Option StorageRequirement → Option ℕ × Option ℕ
unfolding amounts
storage_amounts fl none = (none, none)
storage_amounts fl (some r) = amounts (to_bytes fl) r.min r.max

unfoldable pub storage_requirements_match :
    Float64 → Option StorageRequirement → Option StorageRequirement → Bool
unfolding storage_amounts
storage_requirements_match fl a b = storage_amounts fl a == storage_amounts fl b

module _ (fl : Float64) where
  open fl use {F, trim, parse, of_u64, times, is_finite, is_negative, reaches_2_pow_64, to_u64}

  millis : F → Option ℕ
  millis value =
      if is_finite value && not (is_negative value) && not (reaches_2_pow_64 value)
      then some (to_u64 value)
      else none

  scaled : F → CpuUnit → Option ℕ
  unfolding millis
  scaled value core = millis (times value (of_u64 1000))
  scaled value milli = millis value

  with_cpu_unit : Option (Text × Text) → Option ℕ
  unfolding scaled
  with_cpu_unit none = none
  with_cpu_unit (some (value, unit)) =
      and_then (parse value) (λ v. and_then (parse_cpu_unit unit) (scaled v))

  -- A bare magnitude is cores.
  cpu_value : Text → Option F → Option ℕ
  unfolding with_cpu_unit
  cpu_value repr (some value) = millis (times value (of_u64 1000))
  cpu_value repr none = with_cpu_unit (split_at_letter repr)

  unfoldable pub cpu_millis : CpuQuantity → Option ℕ
  unfolding cpu_value
  cpu_millis q = let repr = trim q.quantity in cpu_value repr (parse repr)

  unfoldable pub cpu_amounts : Option CpuRequirement → Option ℕ × Option ℕ
  unfolding amounts
  cpu_amounts none = (none, none)
  cpu_amounts (some r) = amounts cpu_millis r.min r.max

  unfoldable pub cpu_requirements_match : Option CpuRequirement → Option CpuRequirement → Bool
  unfolding cpu_amounts
  cpu_requirements_match a b = cpu_amounts a == cpu_amounts b

unfoldable pub sidecar_key : Container → String × Option String
sidecar_key c = (c.name, c.image)

abbrev pub le_key : String × Option String → String × Option String → Bool
le_key = le_pair le_text (le_option le_text)

-- The same names and images, in any order.
unfoldable pub sidecars_match : List Container → List Container → Bool
unfolding sidecar_key
sidecars_match runner pool =
    sort_by le_key (map sidecar_key runner) == sort_by le_key (map sidecar_key pool)

unfoldable pub below : Option ℕ → Option ℕ → Bool
below (some limit) (some quota) = ltb limit quota
below _ _ = false

unfoldable pub is_nonempty : {A : Type 0} → List A → Bool
is_nonempty [] = false
is_nonempty (_ ∷ _) = true

unfoldable pub spec_host : Runner → Option String
spec_host runner = and_then runner.spec.ingress (λ i. and_then i.tls (λ t. and_then t.hosts first))

-- What is known beside the runner, the workspace and the pool.
pub record Context : Type 1 where
  pub float64 : Float64
  pub default_workspace_mode : WorkspaceMode
  pub runner_hosts : List String

-- The first reason not to claim, in the order of the code.
unfoldable pub check : List (Bool × String) → Result String Unit
check [] = ok tt
check ((refused, reason) ∷ rest) = if refused then err reason else check rest

unfoldable pub refusals :
    Context → Runner → Workspace → Pool → WorkspacePythonRuntime → List (Bool × String)
unfolding below is_nonempty spec_host from_workspace
refusals ctx runner workspace pool runtime =
    let fl = ctx.float64 in
    let sources = from_workspace fl workspace in
    let pool_env = unwrap_or pool.spec.env [] in
    (not (pool.spec.command == runner.spec.command), "command differs from the pool's")
    ∷ (
      not (unwrap_or pool.spec.python_runtime uv == runtime),
      "python runtime differs from the pool's",
    )
    ∷ (
      not (effective_mode workspace ctx.default_workspace_mode == pooled),
      "workspace is not Pooled",
    )
    ∷ (
      not (sources.credentials_secret == pool.spec.s3_secret_name),
      "workspace S3 credentials secret differs from the pool's",
    )
    ∷ (
      not (storage_requirements_match fl runner.spec.memory pool.spec.memory),
      "memory requirements differ from the pool's",
    )
    ∷ (
      not (cpu_requirements_match fl runner.spec.cpu pool.spec.cpu),
      "cpu requirements differ from the pool's",
    )
    ∷ (
      below sources.limit_bytes (and_then pool.spec.storage (to_bytes fl)),
      "workspace storage max is below the pool's slot quota",
    )
    ∷ (
      not (all (λ var. any (λ v. v == var) pool_env) (unwrap_or runner.spec.env [])),
      "env is not a subset of the pool's",
    )
    ∷ (is_some_and is_nonempty runner.spec.env_from, "envFrom cannot be honoured on a claimed pod")
    ∷ (
      not (sidecars_match (unwrap_or runner.spec.sidecars []) (unwrap_or pool.spec.sidecars [])),
      "sidecars differ from the pool template's",
    )
    ∷ (
      is_some_and (λ level. not (pool.spec.log_level == some level)) runner.spec.log_level,
      "log level differs from the pool's",
    )
    ∷ (
      is_some_and (λ host. not (first ctx.runner_hosts == some host)) (spec_host runner),
      "ingress host differs from the configured runner host",
    )
    ∷ []

unfoldable pub eligible :
    Context → Runner → Workspace → Pool → WorkspacePythonRuntime → Result String Unit
unfolding check refusals
eligible ctx runner workspace pool runtime = check (refusals ctx runner workspace pool runtime)
