-- ===== src/Runner/Examples.antt =====
-- The theorems about pools and claims at a pool with one warm pod.
use native.Mathlib.Decide.{ℕ_discrete}
use mathlib.Core.Bool.{decide}
use mathlib.Core.List.{Memᴰ}
use mathlib.Core.List.Memᴰ
use kubimo.Runner.Eligible.Conditions.{MayClaim, eligible_iff}
use kubimo.Runner.Winner.{claim_winner}
use kubimo.Runner.Winner.Agreed.{claim_winner_agreed}
use kubimo.Runner.Claim.{merged, collision}
use kubimo.Runner.Claim.Merged.{Apart, Shared, merged_lem}
use kubimo.Api.Pod.{Pod}
use kubimo.Common.{
  or, ◌↔◌, List, ℕ, ◌*◌, ◌^◌, ◌<◌, arith, String, [], ◌∷◌, ◌≡◌, ◌⊎◌, inl, inr, refl, none, some,
  true, false, Dict, Bool, Bool-cases, lookup, ap, sym, ◌∙◌, ◌==◌, text_partial_eq, if◌then◌else◌,
}
use kubimo.Common.Int.{pos}
use kubimo.Common.Result.{ok, err}
use kubimo.Api.Meta.{
  ObjectMeta, name_label, workspace_label, require_name, require_namespace,
  static_controller_owner_ref,
}
use kubimo.Api.Quantity.{Float64}
use kubimo.Api.Pool.{Pool, pool_label, pool_state_label, pool_state_warm, pool_state_claimed}
use kubimo.Api.Runner.{Runner, edit}
use kubimo.Api.Workspace.{Workspace, pooled, uv, effective_mode}
use kubimo.Kube.Request.{Program, done, ask, forget, patch_pod}
use kubimo.Kube.Server.{Labels, Server, alive, unborn}
use kubimo.Kube.Cautious.{Who, pool, runner}
use kubimo.Kube.System.{System, Reach, Fresh, start, later, begin, turn, stop, more, update}
use kubimo.Kube.Moves.{alive-alive}
use kubimo.Kube.Lifecycle.{phase, in_state, over}
use kubimo.Kube.Single.{Cell, present, single, single-Lawful}
use kubimo.Pool.WarmPod.{Config}
use kubimo.Pool.Fleet.{split_warm, classify}
use kubimo.Pool.Reconcile.{apply, retire_patch, retire, retire_all}
use kubimo.Runner.Eligible.{
  Context, eligible, storage_requirements_match, cpu_requirements_match, sidecars_match,
}
use kubimo.Runner.Claim.{apply_claim, claim_first}
use kubimo.Runner.Races.{Passes, pool_pass, claim_pass, claims-exclusive, claimed_or_retired}

abbrev meta : String → ObjectMeta
meta name = record {
  name = some name;
  uid = some "1";
  namespace = some "team";
  labels = none;
  annotations = none;
  creation_timestamp = none;
  deletion_timestamp = none;
  generation = none;
}

below : 0 < 2 ^ 64
below = omega arith

-- No amount is ever read.
abbrev no_floats : Float64
no_floats = record {
  F = ℕ;
  trim = λ s. s;
  parse = λ s. none;
  of_u64 = λ n. n;
  times = λ a c. a * c;
  is_finite = λ _. false;
  is_negative = λ _. false;
  reaches_2_pow_64 = λ _. false;
  to_u64 = λ n. 0;
  print = λ n. [];
  to_u64_fits = λ x h k. below;
}

abbrev editors : Pool
editors = record {
  metadata = meta "editors";
  spec = record {
    replicas = 0;
    command = edit;
    python_runtime = none;
    log_level = none;
    memory = none;
    cpu = none;
    env = none;
    sidecars = none;
    s3_secret_name = none;
    storage = none;
  };
  status = none;
}

abbrev book : Runner
book = record {
  metadata = meta "book";
  spec = record {
    workspace = "work";
    command = edit;
    log_level = none;
    memory = none;
    cpu = none;
    env = none;
    env_from = none;
    ingress = none;
    lifecycle = none;
    token = none;
    sidecars = none;
    pool = some "editors";
  };
  status = none;
}

abbrev work : Workspace
work = record {
  metadata = meta "work";
  spec = record { mode = some pooled; storage = none; indexer = none; restore_from = none };
  status = none;
}

abbrev config : Config
config = record {
  marimo_image = "marimo";
  marimo_conda_image = "conda";
  runner_hosts = [];
  runner_asset_url = λ _. none;
}

abbrev ctx : Context
ctx = record { float64 = no_floats; default_workspace_mode = pooled; runner_hosts = [] }

abbrev AllPasses : Who → Program Unit → Type 0
AllPasses = Passes (λ _. []) (λ s. s) config ctx (λ s. s) (λ _. ok "claim")

abbrev warm : Cell
warm = present ((pool_label, "editors") ∷ (pool_state_label, pool_state_warm) ∷ [])

abbrev server : Server Cell
server = single "editors-1" (some editors)

abbrev next_of : ℕ → System Cell → Who × Program Unit → System Cell
next_of i x (who, done _) = x
next_of i x (who, ask q k) = record {
  state = (server.serve q x.state).1;
  threads = update x.threads i (who, k (server.serve q x.state).0);
}

-- One turn of a thread.
abbrev next : ℕ → System Cell → System Cell
next i x = next_of i x (x.threads i)

abbrev launch : ℕ → Who → Program Unit → System Cell → System Cell
launch i who p x = record x { threads = update x.threads i (who, p) }

pool_program : Program Unit
pool_program = forget (apply (λ _. []) (λ s. s) (λ _. ([], [])) (pos 0) config editors)

claim_program : Program Unit
claim_program = forget (apply_claim ctx (λ s. s) (λ _. ok "claim") book work uv)

idle : System Cell
idle = record { state = warm; threads = λ _. (pool, done tt) }

-- The pool has listed its pods; then the runner claims one.
listed : System Cell
listed = next 0 (launch 0 pool pool_program idle)

raced : System Cell
raced =
    next 1
      (next 1 (next 1 (next 1 (next 1 (next 1 (launch 1 (runner "book") claim_program listed))))))

abbrev claimed_labels : Dict String
claimed_labels =
    (workspace_label, "work")
    ∷ (name_label, "book")
    ∷ (pool_state_label, pool_state_claimed)
    ∷ (pool_label, "editors")
    ∷ (pool_state_label, pool_state_warm)
    ∷ []

raced_state : raced.state ≡ present claimed_labels
unfolding raced listed idle pool_program claim_program forget apply apply_claim require_name
    ℕ_discrete require_namespace eligible decide effective_mode storage_requirements_match
    cpu_requirements_match sidecars_match claim_first static_controller_owner_ref
raced_state = refl

abbrev ReachedHere : System Cell → Type 0
ReachedHere = Reach server AllPasses warm

abbrev FreshThere : System Cell → Who × Program Unit → Type 0
FreshThere x (who, done _) = Unit
FreshThere x (who, ask q k) = Fresh server x.state q

next_of-Reach :
    (i : ℕ) (x : System Cell) (t : Who × Program Unit)
    → x.threads i ≡ t
    → FreshThere x t
    → ReachedHere x
    → ReachedHere (next_of i x t)
next_of-Reach i x (who, done _) e new r = r
next_of-Reach i x (who, ask q k) e new r = later r (turn i who q k e new)

next-Reach :
    (i : ℕ) (x : System Cell) → FreshThere x (x.threads i) → ReachedHere x → ReachedHere (next i x)
next-Reach i x new r = next_of-Reach i x (x.threads i) refl new r

unborn-alive : {l : Labels} → unborn ≡ alive l → ⊥
unborn-alive e = cc

if_true : {A : Type 0} {b : Bool} (x y : A) → b ≡ true → (if b then x else y) ≡ x
if_true x y e = rw e

if_false : {A : Type 0} {b : Bool} (x y : A) → b ≡ false → (if b then x else y) ≡ y
if_false x y e = rw e

unnamed :
    (name : String) (l : Labels)
    → server.life warm name ≡ alive l
    → l pool_state_label ≡ some pool_state_warm
    → l name_label ≡ none
unnamed name l e w = elim (Bool-cases (name == "editors-1")) [
  | inr t ↦ absurd (unborn-alive (sym (if_false _ unborn t) ∙ e))
  | inl t ↦ ap (λ f. f name_label) (sym (alive-alive (sym (if_true _ unborn t) ∙ e)))
]

idle-Reach : ReachedHere idle
unfolding idle
idle-Reach = start unnamed

listed-Reach : ReachedHere listed
unfolding listed pool_program forget apply apply_claim require_name ℕ_discrete require_namespace
    eligible decide effective_mode storage_requirements_match cpu_requirements_match sidecars_match
    claim_first static_controller_owner_ref
listed-Reach =
    next-Reach 0 (launch 0 pool pool_program idle) tt
      (later idle-Reach (begin 0 pool pool_program (pool_pass (λ _. ([], [])) (pos 0) editors)))

raced-Reach : ReachedHere raced
unfolding raced listed idle pool_program claim_program forget apply apply_claim require_name
    ℕ_discrete require_namespace eligible decide effective_mode storage_requirements_match
    cpu_requirements_match sidecars_match claim_first static_controller_owner_ref
raced-Reach = next-Reach 1 _ tt (
    next-Reach 1 _ tt (
      next-Reach 1 _ tt (
        next-Reach 1 _ tt (
          next-Reach 1 _ tt (
            next-Reach 1 _ tt (
              later listed-Reach
                (begin 1 (runner "book") claim_program (claim_pass book work uv "book" refl))))))))

-- The pool's patch comes after the claim, from the list that it read before.
claims-exclusive_example :
    server.life (server.serve (patch_pod "editors-1" retire_patch) raced.state).1 "editors-1"
    ≡ alive (λ key. lookup key claimed_labels)
unfolding raced listed idle pool_program claim_program retire_all retire split_warm classify forget
    apply apply_claim require_name ℕ_discrete require_namespace eligible decide effective_mode
    storage_requirements_match cpu_requirements_match sidecars_match claim_first
    static_controller_owner_ref
claims-exclusive_example =
    claims-exclusive (λ _. []) (λ s. s) config ctx (λ s. s) (λ _. ok "claim") server
      (single-Lawful "editors-1" (some editors)) raced-Reach "editors-1" "book"
      (λ key. lookup key claimed_labels) refl refl refl 0 pool (patch_pod "editors-1" retire_patch)
      _ refl tt (λ e. cc)

claimed_or_retired_example :
    (phase (server.life (next 0 raced).state "editors-1") ≡ in_state (some pool_state_claimed))
    ⊎ (phase (server.life (next 0 raced).state "editors-1") ≡ over)
unfolding raced listed idle pool_program claim_program retire_all retire split_warm classify phase
    forget apply apply_claim require_name ℕ_discrete require_namespace eligible decide
    effective_mode storage_requirements_match cpu_requirements_match sidecars_match claim_first
    static_controller_owner_ref
claimed_or_retired_example =
    claimed_or_retired (λ _. []) (λ s. s) config ctx (λ s. s) (λ _. ok "claim") server
      (single-Lawful "editors-1" (some editors)) raced-Reach
      (more stop (turn 0 pool (patch_pod "editors-1" retire_patch) _ refl tt)) "editors-1"
      pool_state_claimed (inl refl) refl

eligible_iff_example :
    (eligible ctx book work editors uv ≡ ok tt) ↔ MayClaim ctx book work editors uv
eligible_iff_example = eligible_iff ctx book work editors uv

-- A runner that asks for another host than the first.
abbrev hosted : Context
hosted = record ctx { runner_hosts = "notebooks.org" ∷ [] }

is_refused :
    eligible hosted
      (record book {
        spec = record book.spec {
          ingress = some (record { tls = some (record { hosts = some ("other.org" ∷ []) }) });
        };
      })
      work
      editors
      uv
    ≡ err "ingress host differs from the configured runner host"
unfolding eligible effective_mode storage_requirements_match cpu_requirements_match sidecars_match
    decide
is_refused = refl

abbrev aged : String → ℕ → Pod
aged name born = record {
  metadata = record (meta name) { creation_timestamp = some (pos born) };
  status = none;
}

abbrev rivals : List Pod
rivals = aged "b" 10 ∷ aged "c" 5 ∷ aged "a" 10 ∷ []

abbrev rivals' : List Pod
rivals' = aged "a" 10 ∷ aged "b" 10 ∷ aged "c" 5 ∷ aged "c" 5 ∷ []

the_oldest : claim_winner rivals ≡ some "c"
unfolding claim_winner
the_oldest = refl

there : (pod : Pod) → Memᴰ pod rivals → Memᴰ pod rivals'
there pod (Memᴰ.head e) = Memᴰ.tail (Memᴰ.head e)
there pod (Memᴰ.tail (Memᴰ.head e)) = Memᴰ.tail (Memᴰ.tail (Memᴰ.head e))
there pod (Memᴰ.tail (Memᴰ.tail (Memᴰ.head e))) = Memᴰ.head e
there pod (Memᴰ.tail (Memᴰ.tail (Memᴰ.tail m))) = absurd (Memᴰ.not-nil m)

back : (pod : Pod) → Memᴰ pod rivals' → Memᴰ pod rivals
back pod (Memᴰ.head e) = Memᴰ.tail (Memᴰ.tail (Memᴰ.head e))
back pod (Memᴰ.tail (Memᴰ.head e)) = Memᴰ.head e
back pod (Memᴰ.tail (Memᴰ.tail (Memᴰ.head e))) = Memᴰ.tail (Memᴰ.head e)
back pod (Memᴰ.tail (Memᴰ.tail (Memᴰ.tail (Memᴰ.head e)))) = Memᴰ.tail (Memᴰ.head e)
back pod (Memᴰ.tail (Memᴰ.tail (Memᴰ.tail (Memᴰ.tail m)))) = absurd (Memᴰ.not-nil m)

claim_winner_agreed_example : claim_winner rivals ≡ claim_winner rivals'
claim_winner_agreed_example = claim_winner_agreed rivals rivals' there back

abbrev keys : Dict String
keys = ("token", "1") ∷ ("key", "2") ∷ []

abbrev more_keys : Dict String
more_keys = ("url", "3") ∷ ("key", "4") ∷ []

merged_lem_example :
    (Apart keys more_keys
      × ((out : Dict String) × (merged ctx (λ s. s) (λ _. ok "claim") book keys more_keys ≡ ok out)
          × ((key : String) → lookup key out ≡ or (lookup key keys) (lookup key more_keys))))
    ⊎ ((key : String) × Shared keys more_keys key
        × (merged ctx (λ s. s) (λ _. ok "claim") book keys more_keys
            ≡ err (collision ctx (λ s. s) (λ _. ok "claim") book key)))
merged_lem_example = merged_lem ctx (λ s. s) (λ _. ok "claim") book keys more_keys
