-- ===== src/Agent/Csi/Publish.antt =====
-- `NodePublishVolume`: agent/src/csi.rs.
pub mod Request
pub mod Refused
use kubimo.Common.{
  Bool, true, false, Option, none, some, List, [], ◌∷◌, and_then, if◌then◌else◌, ◌==◌,
}
use kubimo.Common.Equal.{option_partial_eq}
use kubimo.Common.Result.{Result, ok, err}
use kubimo.Common.Text.{Text, codes, codes_partial_eq}
use kubimo.Agent.Slot.{SlotId}
use kubimo.Agent.Store.Names.{is_empty}
use kubimo.Agent.Store.Publish.{PublishedSlot, record_publish}
use kubimo.Agent.Store.Slots.{ResolvedSlot, is_draining}
use kubimo.Agent.Store.Pool.{PoolSlot, resolve_or_create_pool, remove_pool_slot}
use kubimo.Agent.Csi.Node.{
  Status, unavailable, invalid_argument, ArchiveLocation, Action, patch_status, bind, Config, State,
  Answers, Handler, pure, fail, lift, gets, modify, stored, store, try_act, act, internally,
  remember_credentials, remember_pool_credentials, forget_pool_credentials, ◌>>=◌, ◌>>◌,
}
use kubimo.Agent.Csi.Watchers.{start_watcher}
use kubimo.Agent.Csi.Provision.{prepare_slot, provision_slot_basics, refit}
use kubimo.Agent.Csi.Publish.Request.{
  PublishRequest, Wanted, WantedPool, attr, map_some, read_request, read_pool_request,
}

module _ (config : Config) (world : Answers) where
  -- The CR's status is written at best effort.
  publish_slot_status : Wanted → ResolvedSlot → Handler (Unit {0})
  publish_slot_status wanted slot s =
      if world.has_status_client wanted.namespace
      then (try_act world (
              patch_status wanted.namespace wanted.workspace slot.id (some wanted.limit_bytes)
                wanted.archive)
            >> pure tt)
          s
      else pure tt s

  watch : PublishRequest → Wanted → SlotId → Option ArchiveLocation → State → State
  watch request wanted slot none s = s
  watch request wanted slot (some archive) s =
      start_watcher config world request.volume_id wanted.namespace wanted.workspace slot archive s

  published_as : Wanted → SlotId → PublishedSlot
  published_as wanted slot = record {
    workspace = wanted.workspace;
    namespace = wanted.namespace;
    slot = slot;
    bucket = map_some (λ a. a.bucket) wanted.archive;
    key_prefix = and_then wanted.archive (λ a. a.key_prefix);
  }

  -- A publish that cannot be recorded is a publish all the same.
  unfoldable pub publish_workspace : PublishRequest → Wanted → Handler (Unit {0})
  unfolding publish_slot_status watch published_as
  publish_workspace request wanted = do
    modify (remember_credentials wanted.namespace wanted.workspace request.secrets)
    slot ←
        prepare_slot config world wanted.namespace wanted.workspace wanted.limit_bytes
          wanted.archive wanted.seed wanted.runtime
    publish_slot_status wanted slot
    stored (record_publish request.volume_id (published_as wanted slot.id))
    modify (watch request wanted slot.id wanted.archive)
    act world "publishing slot: " (bind slot.id request.target_path request.readonly)
    pure tt

  discard_pool : WantedPool → Handler (Unit {0}) → Handler (Unit {0})
  discard_pool wanted m s = elim (m s).0 [
    | ok _ ↦ m s
    | err e ↦
        (do
          stored (remove_pool_slot wanted.namespace wanted.pod)
          modify (forget_pool_credentials wanted.namespace wanted.pod)
          fail e)
          (m s).1
  ]

  fit_pool : WantedPool → PoolSlot → Bool → Handler (Unit {0})
  unfolding discard_pool
  fit_pool wanted slot quotas_enforced =
      if slot.created
      then discard_pool wanted (
          provision_slot_basics config world slot.id slot.project_id wanted.limit_bytes
            quotas_enforced wanted.runtime)
      else refit config world slot.project_id wanted.limit_bytes quotas_enforced

  unfoldable pub publish_pool_volume : PublishRequest → WantedPool → Handler (Unit {0})
  unfolding fit_pool
  publish_pool_volume request wanted = do
    modify (remember_pool_credentials wanted.namespace wanted.pod request.secrets)
    slot ← store world "resolving pool slot: " (
        resolve_or_create_pool (world.fresh false) wanted.namespace wanted.pod wanted.pod_uid
          request.volume_id)
    quotas_enforced ← lift (internally (λ e. e) "checking quota support: " world.quotas_enforced)
    fit_pool wanted slot quotas_enforced
    act world "publishing pool slot: " (bind slot.id request.target_path request.readonly)
    pure tt

  accepted : PublishRequest → Handler (Unit {0})
  unfolding publish_workspace publish_pool_volume
  accepted request =
      if attr "pooled" request == some (codes "true")
      then lift (read_pool_request config world request) >>= publish_pool_volume request
      else lift (read_request config world request) >>= publish_workspace request

  unfoldable pub node_publish_volume : PublishRequest → Handler (Unit {0})
  unfolding accepted
  node_publish_volume request s =
      if is_draining s.volume
      then fail (unavailable "node agent is draining") s
      else if is_empty request.target_path
      then fail (invalid_argument "target_path is required") s
      else accepted request s
