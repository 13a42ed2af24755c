-- ===== src/Agent/Csi/Watchers.antt =====
-- The sync tasks of the workspaces that are published on the node: agent/src/csi.rs.
pub mod Tracked
use kubimo.Common.{
  ℕ, suc, String, Bool, not, none, some, List, [], ◌∷◌, filter, any, if◌then◌else◌, ◌==◌,
  number_partial_eq,
}
use kubimo.Common.Result.{Result, ok, err}
use kubimo.Common.Text.{Text, codes_partial_eq}
use kubimo.Agent.Slot.{SlotId}
use kubimo.Agent.Csi.Keyed.{get, insert, remove}
use kubimo.Agent.Csi.Node.{
  Watcher, ArchiveLocation, Action, spawn_watcher, Config, State, Answers, s3_for, slot_key,
}

-- A set of volumes.
abbrev pub add_volume : Text → List Text → List Text
add_volume volume volumes = if any (λ v. v == volume) volumes then volumes else volume ∷ volumes

abbrev pub drop_volume : Text → List Text → List Text
drop_volume volume = filter (λ v. not (v == volume))

unfoldable pub abort : ℕ → State → State
abort handle s = record s { tasks = filter (λ t. not (t == handle)) s.tasks }

unfoldable pub spawn : State → State
spawn s = record s { tasks = s.spawned ∷ s.tasks; spawned = suc s.spawned }

-- One more volume for a task that runs.
unfoldable pub join : Text → Text → Watcher → State → State
join key volume_id watcher s = record s {
  watchers =
      insert key (record watcher { volumes = add_volume volume_id watcher.volumes }) s.watchers;
}

-- A task that was begun becomes the workspace's, unless another one has become so meanwhile.
unfoldable pub register : Text → Text → ℕ → State → State
unfolding join abort
register key volume_id handle s = elim (get key s.watchers) [
  | some watcher ↦ abort handle (join key volume_id watcher s)
  | none ↦ record s {
    watchers = insert key (record { handle = handle; volumes = volume_id ∷ [] }) s.watchers;
  }
]

spawned_as : Answers → Text → Text → Result String Bool → State → State
unfolding spawn register
spawned_as world key volume_id (err _) s = world.others s
spawned_as world key volume_id (ok _) s = register key volume_id s.spawned (world.others (spawn s))

ensure_task : Answers → Text → Text → Action → State → State
unfolding spawned_as join
ensure_task world key volume_id a s = elim (get key s.watchers) [
  | some watcher ↦ join key volume_id watcher s
  | none ↦ spawned_as world key volume_id (world.does s.trace a) (record s { trace = a ∷ s.trace })
]

unfoldable pub start_watcher :
    Config → Answers → Text → Text → Text → SlotId → ArchiveLocation → State → State
unfolding ensure_task
start_watcher config world volume_id namespace workspace slot archive s =
    if not (world.has_client namespace) then s else elim (s3_for config s namespace workspace) [
      | none ↦ s
      | some s3 ↦
          ensure_task world (slot_key namespace workspace) volume_id
            (spawn_watcher slot workspace archive s3) s
    ]

leave : Text → Text → Watcher → State → State
unfolding abort
leave key volume_id watcher s = elim (drop_volume volume_id watcher.volumes) [
  | [] ↦ abort watcher.handle (record s { watchers = remove key s.watchers })
  | v ∷ vs ↦ record s { watchers = insert key (record watcher { volumes = v ∷ vs }) s.watchers }
]

unfoldable pub stop_watcher : Text → Text → Text → State → State
unfolding leave
stop_watcher volume_id namespace workspace s =
    elim (get (slot_key namespace workspace) s.watchers) [
      | none ↦ s
      | some watcher ↦ leave (slot_key namespace workspace) volume_id watcher s
    ]
