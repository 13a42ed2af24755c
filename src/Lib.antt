-- ===== src/Lib.antt =====
-- kubimo: notebooks as Kubernetes objects. A controller reconciles the custom resources Workspace,
-- Runner, Budget and Pool (types in api/, reconcilers in controller/), and an agent on each node
-- (agent/) keeps the slots, the working directories that runner pods mount.
--
-- Parts and files:
-- - Common: what the modules share. Common.Result is Rust's Result, Common.Effect a handler that
--   returns its calls of the cluster beside its result, Common.Int timestamps, Common.Text the
--   type str as code points, with `lines`, `trim` and decimal numbers.
-- - Api: the fields of the resources that the modelled code reads or writes (api/src/crd.rs,
--   meta.rs, conditions.rs, quantity.rs), of k8s_openapi types likewise; Selector is selector.rs,
--   Selector.Syntax the documented syntax of what it prints.
-- - RunnerStatus: controller/src/controllers/runner_status. Detail, Bound and Observed compute the
--   conditions, Upsert merges them into the status, Startup is apply_startup_conditions, Poll is
--   poll_api_status and Reconcile is apply.
-- - Budget: controller/src/controllers/budget/mod.rs. Committed is workspace_committed_bytes, Sum
--   is sum_workspace_storage, Allowance is workspace_storage_allowance, Reconcile is apply.
-- - Kube: the requests that a controller makes of the API server (api/src/api.rs) and handlers as
--   programs of requests (Request), the laws of a server (Server), handlers that delete only what is
--   theirs (Cautious), any number of threads over one server (System), their moves and invariant
--   (Moves, Exclusive), the life of a pod as a state machine (Lifecycle), a server of one pod (Single).
-- - Pool: controller/src/controllers/pool. Fleet and WarmPod are the parts of mod.rs and warm_pod.rs
--   without requests, Reconcile is apply and retire of mod.rs.
-- - Runner: controller/src/controllers/runner/apply_claim.rs with what it takes from slot_volume.rs
--   (Sources): Eligible is eligible, Winner is claim_winner, Claim is apply_claim, adopt_claimed_pod
--   and copy_sidecar_secrets; Races puts the passes of both controllers over one server. Reconcile
--   is apply of controller/src/controllers/runner/mod.rs.
-- - Agent: agent/src. Slot is slot.rs; Volume is the state of a node's data volume with the
--   operations of the file system that store.rs uses; Store is store.rs, by its topics; Reaper is
--   reaper.rs; Drain is drain.rs; Csi is csi.rs: Node is the state of the plugin and its handlers,
--   Watchers the sync tasks, Provision prepare_slot and what it calls, Publish and Unpublish the two
--   requests of kubelet.
-- - Indexer: indexer/src. Paths is the part of std::path that restore.rs uses to test and join
--   relative paths, Restore its plan_restore and what that calls, Dotenv the files `.env` of secrets.rs.
--
-- How code corresponds: a reconciler is a function of what it reads (Cluster, Answers, Namespace:
-- the results of its requests) that returns the list of changing calls and the result. One `now`
-- stands for the clock readings within one reconcile. Timestamps of the cluster are whole
-- seconds; the agent's clock counts nanoseconds. `f64` and its parser are the record Float64,
-- Rust's `{:?}` and `to_string` of numbers in messages are the record Format. A store operation
-- takes the volume and gives its result and the volume after it; each change of the volume takes
-- one entry of the list `faults`, and where that is true the change is not made and fails, so
-- every error path of a write is there, but for one: where a project id is allocated, the lock, the
-- writing and the sync of the counter are one change, so a sync that fails after the counter was
-- written is not among the faults. A partial write is not modelled but for what it can leave: any
-- file may hold any text. The random number generator of a slot id is an argument, and so is the id
-- where a slot is made. A pass of the pool or a
-- claim of a runner is instead a Program: each request waits for its answer, which may be any
-- result, and other threads may make requests in between. The API server is a parameter, a Server
-- with the laws Lawful: what a list returns is there and matches the selector, a JSON patch is
-- made as a whole and only if the test that it starts with holds, a deletion changes nothing but
-- its pod, and a request that fails has done nothing: an answer that is lost is covered only by
-- beginning the thread anew. The server of Single keeps these laws. A thread may be begun anew at any time, as
-- after a crash; the kubelet, the agent and the garbage collector change pods between requests
-- but do not write the two labels of the protocol. Minted names are fresh (the code draws 32
-- random bits). The digest of a template, percent encoding, the JSON of a claim and `{:?}` are
-- arguments. A handler of the plugin threads its state and
-- keeps a trace of what it asks of the kernel, S3 and the cluster, whose answers are an argument that
-- may depend on what was asked before; what the rest of the agent does where the handler holds no
-- lock is an argument too. The reaper's sweep takes as an argument what the rest of the agent does to the
-- volume before it holds a lock.
--
-- The wait of a drain is a recursion on fuel, and a theorem says how much is enough. Every other loop
-- of the modelled code runs over a list or a number and is structural.
--
-- Not modelled: the HTTP requests to a runner, logs, metrics, the watch and retry machinery of
-- kube, the async locks of the store (an operation runs as a whole), failures of listing the
-- index directory, the pod specs that the controllers build, the replacement of a drifted
-- runner pod, the workspace controller, the claim loop of the agent, and of the indexer
-- the upload, the watching and the download of a planned restore.
mod Common
pub mod Api
pub mod RunnerStatus
pub mod Budget
pub mod Kube
pub mod Pool
pub mod Runner
pub mod Agent
pub mod Indexer
