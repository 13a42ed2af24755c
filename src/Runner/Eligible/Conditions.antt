-- ===== src/Runner/Eligible/Conditions.antt =====
-- What a runner must fulfil to claim from a pool, as propositions.
use mathlib.Core.List.{Memᴰ}
use mathlib.Core.List.Memᴰ
use kubimo.Common.{
  ℕ, String, Bool, true, false, not, ◌≡◌, ◌↔◌, refl, sym, ◌∙◌, some-some, List, [], ◌∷◌, Option,
  none, some, all, any, is_some_and, unwrap_or, ◌==◌, PartialEq, Bool-cases, inl, inr, and_then,
  arith, number_partial_eq, ◌≤◌, &&_iff, text_partial_eq, map, sort_by,
}
use kubimo.Common.Equal.{option_partial_eq, list_partial_eq, pair_partial_eq}
use kubimo.Common.Result.{ok}
use kubimo.Api.Quantity.{to_bytes}
use kubimo.Api.Pod.{EnvVar}
use kubimo.Api.Workspace.{Workspace, WorkspacePythonRuntime, uv, pooled, effective_mode}
use kubimo.Api.Runner.{Runner, LogLevel}
use kubimo.Api.Pool.{Pool}
use kubimo.Pool.WarmPod.{first}
use kubimo.Runner.Sources.{from_workspace}
use kubimo.Runner.Eligible.{
  Context, eligible, check, refusals, below, is_nonempty, spec_host, storage_requirements_match,
  cpu_requirements_match, sidecars_match, command_partial_eq, runtime_partial_eq, mode_partial_eq,
  level_partial_eq, var_partial_eq, storage_amounts, cpu_amounts, sidecar_key, le_key,
}

Held : List (Bool × String) → Type 0
Held [] = Unit
Held ((refused, _) ∷ rest) = (refused ≡ false) × Held rest

check_iff : (tests : List (Bool × String)) → (check tests ≡ ok tt) ↔ Held tests
unfolding check Held
check_iff [] = (λ _. tt, λ _. refl)
check_iff ((true, reason) ∷ rest) = (λ h. cc, λ (h, _). cc)
check_iff ((false, reason) ∷ rest) =
    (λ h. (refl, (check_iff rest).0 h), λ (_, h). (check_iff rest).1 h)

same_iff : {A : Type 0} ⦃p : PartialEq A⦄ (x y : A) → (not (x == y) ≡ false) ↔ (x ≡ y)
same_iff ⦃p⦄ x y = ground (arith, p.same_iff x y)

below_iff :
    (a b : Option ℕ)
    → (below a b ≡ false) ↔ ((limit quota : ℕ) → a ≡ some limit → b ≡ some quota → quota ≤ limit)
unfolding below
below_iff none b = (λ _ l q e f. cc, λ _. refl)
below_iff (some l) none = (λ _ l q e f. cc, λ _. refl)
below_iff (some l) (some q) =
    (λ h l' q' e f. ground (arith, some-some e, some-some f), λ h. ground (arith, h l q refl refl))

any_iff :
    {A : Type 0} ⦃p : PartialEq A⦄ (x : A) (ys : List A) → (any (λ y. y == x) ys ≡ true) ↔ Memᴰ x ys
any_iff ⦃p⦄ x [] = (λ h. cc, λ m. absurd (Memᴰ.not-nil m))
any_iff ⦃p⦄ x (y ∷ ys) = elim (Bool-cases (y == x)) [
  | inl e ↦ (λ _. Memᴰ.head (sym ((p.same_iff y x).0 e)), λ _. rw e refl)
  | inr e ↦ (
    λ h. Memᴰ.tail ((any_iff x ys).0 (ground (arith, h, e))),
    λ m. elim (Memᴰ.cases_cons m) [
      | inl f ↦ cc ((p.same_iff y x).1 (sym f))
      | inr n ↦ rw e ((any_iff x ys).1 n)
    ],
  )
]

subset_iff :
    {A : Type 0} ⦃p : PartialEq A⦄ (xs ys : List A)
    → (all (λ x. any (λ y. y == x) ys) xs ≡ true) ↔ ((x : A) → Memᴰ x xs → Memᴰ x ys)
subset_iff [] ys = (λ _ x m. absurd (Memᴰ.not-nil m), λ _. refl)
subset_iff (x ∷ xs) ys = (
  λ h z m. elim (Memᴰ.cases_cons m) [
    | inl e ↦ rw e ((any_iff x ys).0 ((&&_iff _ _).0 h).0)
    | inr n ↦ (subset_iff xs ys).0 ((&&_iff _ _).0 h).1 z n
  ],
  λ h.
      (&&_iff _ _).1
        ((any_iff x ys).1 (h x (Memᴰ.head refl)), (subset_iff xs ys).1 (λ z m. h z (Memᴰ.tail m))),
)

asked_iff :
    {A : Type 0} ⦃p : PartialEq A⦄ (asked there : Option A)
    → (is_some_and (λ a. not (there == some a)) asked ≡ false)
      ↔ ((a : A) → asked ≡ some a → there ≡ some a)
asked_iff none there = (λ _ a e. cc, λ _. refl)
asked_iff (some a) there =
    (λ h b e. (same_iff there (some a)).0 h ∙ e, λ h. (same_iff there (some a)).1 (h a refl))

empty_iff :
    {A : Type 0} (o : Option (List A)) → (is_some_and is_nonempty o ≡ false) ↔ (unwrap_or o [] ≡ [])
unfolding is_nonempty
empty_iff none = (λ _. refl, λ _. refl)
empty_iff (some []) = (λ _. refl, λ _. refl)
empty_iff (some (x ∷ xs)) = (λ h. cc, λ h. cc)

not_iff : (b : Bool) → (not b ≡ false) ↔ (b ≡ true)
not_iff b = ground arith

module _ (ctx : Context) (runner : Runner) (workspace : Workspace) (pool : Pool)
    (runtime : WorkspacePythonRuntime) where
  -- What cannot be changed on a running pod is as the runner asks for it.
  pub record MayClaim : Type 0 where
    pub same_command : pool.spec.command ≡ runner.spec.command
    pub same_runtime : unwrap_or pool.spec.python_runtime uv ≡ runtime
    pub is_pooled : effective_mode workspace ctx.default_workspace_mode ≡ pooled
    pub same_credentials :
        (from_workspace ctx.float64 workspace).credentials_secret ≡ pool.spec.s3_secret_name
    pub same_memory :
        storage_amounts ctx.float64 runner.spec.memory
        ≡ storage_amounts ctx.float64 pool.spec.memory
    pub same_cpu : cpu_amounts ctx.float64 runner.spec.cpu ≡ cpu_amounts ctx.float64 pool.spec.cpu
    pub quota_fits :
        (limit quota : ℕ)
        → (from_workspace ctx.float64 workspace).limit_bytes ≡ some limit
        → and_then pool.spec.storage (to_bytes ctx.float64) ≡ some quota
        → quota ≤ limit
    pub env_baked :
        (var : EnvVar)
        → Memᴰ var (unwrap_or runner.spec.env [])
        → Memᴰ var (unwrap_or pool.spec.env [])
    pub no_env_from : unwrap_or runner.spec.env_from [] ≡ []
    pub same_sidecars :
        sort_by le_key (map sidecar_key (unwrap_or runner.spec.sidecars []))
        ≡ sort_by le_key (map sidecar_key (unwrap_or pool.spec.sidecars []))
    pub log_level_baked :
        (level : LogLevel) → runner.spec.log_level ≡ some level → pool.spec.log_level ≡ some level
    pub host_baked :
        (host : String) → spec_host runner ≡ some host → first ctx.runner_hosts ≡ some host

  -- A runner is eligible exactly if its command, runtime, resources, sidecars and credentials are
  -- the pool's, its workspace is pooled with room for the pool's quota, its environment is within
  -- the pool's, and the log level and host that it asks for are the ones baked in.
  pub eligible_iff : (eligible ctx runner workspace pool runtime ≡ ok tt) ↔ MayClaim
  unfolding eligible refusals Held storage_requirements_match cpu_requirements_match sidecars_match
  eligible_iff = (λ h. may ((check_iff tests).0 h), λ m. (check_iff tests).1 (held m))
    where
      tests : List (Bool × String)
      tests = refusals ctx runner workspace pool runtime

      may : Held (refusals ctx runner workspace pool runtime) → MayClaim
      may (a, (b, (c, (d, (e, (f, (g, (h, (i, (j, (k, (l, _)))))))))))) = record {
        same_command = (same_iff _ _).0 a;
        same_runtime = (same_iff _ _).0 b;
        is_pooled = (same_iff _ _).0 c;
        same_credentials = (same_iff _ _).0 d;
        same_memory = (same_iff _ _).0 e;
        same_cpu = (same_iff _ _).0 f;
        quota_fits = (below_iff _ _).0 g;
        env_baked = (subset_iff _ _).0 ((not_iff _).0 h);
        no_env_from = (empty_iff _).0 i;
        same_sidecars = (same_iff _ _).0 j;
        log_level_baked = (asked_iff _ _).0 k;
        host_baked = (asked_iff _ _).0 l;
      }

      held : MayClaim → Held (refusals ctx runner workspace pool runtime)
      held m = (
        (same_iff _ _).1 m.same_command,
        (
          (same_iff _ _).1 m.same_runtime,
          (
            (same_iff _ _).1 m.is_pooled,
            (
              (same_iff _ _).1 m.same_credentials,
              (
                (same_iff _ _).1 m.same_memory,
                (
                  (same_iff _ _).1 m.same_cpu,
                  (
                    (below_iff _ _).1 m.quota_fits,
                    (
                      (not_iff _).1 ((subset_iff _ _).1 m.env_baked),
                      (
                        (empty_iff _).1 m.no_env_from,
                        (
                          (same_iff _ _).1 m.same_sidecars,
                          (
                            (asked_iff _ _).1 m.log_level_baked,
                            ((asked_iff _ _).1 m.host_baked, tt),
                          ),
                        ),
                      ),
                    ),
                  ),
                ),
              ),
            ),
          ),
        ),
      )
