-- ===== src/Agent/Csi/Node.antt =====
-- The state of the plugin, what it asks of the kernel, of S3 and of the cluster, and handlers over
-- both: agent/src/csi.rs. What is asked is kept in the order of asking, the newest first.
use Prim.Native.String.{◌++◌ as append}
use kubimo.Common.{
  ℕ, String, Bool, true, false, Option, none, some, List, [], ◌∷◌, ◌++◌, number_partial_eq,
  if◌then◌else◌,
}
use kubimo.Common.Result.{Result, ok, err}
use kubimo.Common.Text.{Text, codes}
use kubimo.Api.Workspace.{Workspace, WorkspaceRestoreSecrets}
use kubimo.Agent.Slot.{SlotId}
use kubimo.Agent.Volume.{Volume, Store, StoreError}
use kubimo.Agent.Csi.Keyed.{get, insert, remove}

pub data Status : Type 0 where
  unavailable invalid_argument failed_precondition internal : String → Status

pub data S3Client : Type 0 where
  from_env : S3Client
  from_options : List (Text × Text) → S3Client

-- `handle` is the number of a task.
pub record Watcher : Type 0 where
  pub handle : ℕ
  pub volumes : List Text

pub record ArchiveLocation : Type 0 where
  pub bucket : Text
  pub key_prefix : Option Text

pub record SeedArchive : Type 0 where
  pub location : ArchiveLocation
  pub secrets : WorkspaceRestoreSecrets

pub data Action : Type 0 where
  assign_project : SlotId → ℕ → Action
  set_project_limit : ℕ → ℕ → Action
  set_permissions chown chown_tree : SlotId → Action
  seed_from_template : SlotId → Option Text → Action
  hydrate_slot : SlotId → ArchiveLocation → S3Client → WorkspaceRestoreSecrets → Action
  spawn_watcher : SlotId → Text → ArchiveLocation → S3Client → Action
  flush_slot : SlotId → Text → ArchiveLocation → S3Client → Action
  patch_status : Text → Text → SlotId → Option ℕ → Option ArchiveLocation → Action
  bind : SlotId → Text → Bool → Action
  unbind remove_dir : Text → Action

pub record Config : Type 0 where
  pub node_id : String
  pub root : String
  pub default_limit_bytes : ℕ
  pub allow_unquotaed_slots : Bool
  pub has_env_credentials : Bool

-- `tasks` are the sync tasks that run, `spawned` is how many were begun.
pub record State : Type 0 where
  pub volume : Volume
  pub s3_clients : List (Text × S3Client)
  pub watchers : List (Text × Watcher)
  pub tasks : List ℕ
  pub spawned : ℕ
  pub trace : List Action

-- What the rest of the world comes to. An action that succeeds says whether it found something to
-- do: a restore whether there was an archive, a flush whether it was complete. `others` is what the
-- rest of the agent does while a handler holds no lock that keeps it out.
pub record Answers : Type 0 where
  pub fresh : Bool → SlotId
  pub quotas_enforced : Result String Bool
  pub does : List Action → Action → Result String Bool
  pub has_client : Text → Bool
  pub has_status_client : Text → Bool
  pub workspace : Text → Text → Result String (Option Workspace)
  pub others : State → State
  pub debug : Text → String
  pub show : StoreError → String

abbrev pub Handler : Type 0 → Type 0
Handler A = State → Result Status A × State

module _ {A : Type 0} where
  abbrev pub pure : A → Handler A
  pure a s = (ok a, s)

  abbrev pub fail : Status → Handler A
  fail e s = (err e, s)

  abbrev pub lift : Result Status A → Handler A
  lift r s = (r, s)

  abbrev pub gets : (State → A) → Handler A
  gets f s = (ok (f s), s)

abbrev pub modify : (State → State) → Handler (Unit {0})
modify f s = (ok tt, f s)

module _ {A B : Type 0} where
  abbrev pub continue : Result Status A → (A → Handler B) → Handler B
  continue (ok a) f s = f a s
  continue (err e) f s = (err e, s)

  infixl 5 ◌>>=◌ ◌>>◌
  abbrev pub ◌>>=◌ : Handler A → (A → Handler B) → Handler B
  m >>= f = λ s. let (r, s') = m s in continue r f s'

  abbrev pub ◌>>◌ : Handler A → Handler B → Handler B
  m >> n = m >>= λ _. n

abbrev pub on_volume : {A : Type 0} → Store A → State → State
on_volume m s = record s { volume = (m s.volume).1 }

-- An operation of the store, its error left to the caller.
abbrev pub stored : {A : Type 0} → Store A → Handler (Result StoreError A)
stored m s = (ok (m s.volume).0, on_volume m s)

abbrev pub internally : {E A : Type 0} → (E → String) → String → Result E A → Result Status A
internally show context (ok a) = ok a
internally show context (err e) = err (internal (append context (show e)))

module _ (world : Answers) where
  abbrev pub store : {A : Type 0} → String → Store A → Handler A
  store context m = do r ← stored m; lift (internally world.show context r)

  -- An action, its error left to the caller.
  abbrev pub try_act : Action → Handler (Result String Bool)
  try_act a s = (ok (world.does s.trace a), record s { trace = a ∷ s.trace })

  abbrev pub act : String → Action → Handler Bool
  act context a = do r ← try_act a; lift (internally (λ e. e) context r)

unfoldable pub slot_key : Text → Text → Text
slot_key namespace workspace = namespace ++ b'/' ∷ workspace

unfoldable pub pool_key : Text → Text → Text
pool_key namespace pod = codes "pool:" ++ (namespace ++ b'/' ∷ pod)

remember : Text → List (Text × Text) → State → State
remember key [] s = s
remember key (secret ∷ secrets) s = record s {
  s3_clients = insert key (from_options (secret ∷ secrets)) s.s3_clients;
}

unfoldable pub remember_credentials : Text → Text → List (Text × Text) → State → State
unfolding remember
remember_credentials namespace workspace secrets = remember (slot_key namespace workspace) secrets

unfoldable pub remember_pool_credentials : Text → Text → List (Text × Text) → State → State
unfolding remember
remember_pool_credentials namespace pod secrets = remember (pool_key namespace pod) secrets

unfoldable pub forget_credentials : Text → Text → State → State
forget_credentials namespace workspace s = record s {
  s3_clients = remove (slot_key namespace workspace) s.s3_clients;
}

unfoldable pub forget_pool_credentials : Text → Text → State → State
forget_pool_credentials namespace pod s = record s {
  s3_clients = remove (pool_key namespace pod) s.s3_clients;
}

-- The credentials of a pool pod become those of the workspace that adopts its slot. Were any held?
pub adopt_credentials : Text → Text → Text → Text → State → Bool × State
adopt_credentials pod_namespace pod namespace workspace s =
    elim (get (pool_key pod_namespace pod) s.s3_clients) [
      | none ↦ (false, s)
      | some client ↦ (
        true,
        record s {
          s3_clients =
              insert (slot_key namespace workspace) client
                (remove (pool_key pod_namespace pod) s.s3_clients);
        },
      )
    ]

-- The client of a workspace; else the agent's own, if it has credentials.
unfoldable pub s3_for : Config → State → Text → Text → Option S3Client
s3_for config s namespace workspace = elim (get (slot_key namespace workspace) s.s3_clients) [
  | some client ↦ some client
  | none ↦ if config.has_env_credentials then some from_env else none
]
