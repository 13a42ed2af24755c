-- ===== src/Agent/Csi/Unpublish.antt =====
-- `NodeUnpublishVolume`, with the final flush: agent/src/csi.rs.
pub mod Unblocked
pub mod Unmarked
use kubimo.Common.{
  Bool, true, false, not, Option, none, some, List, [], ◌∷◌, is_some, if◌then◌else◌, String,
}
use kubimo.Common.Result.{Result, ok, err}
use kubimo.Common.Text.{Text}
use kubimo.Api.Workspace.{Workspace}
use kubimo.Agent.Slot.{SlotId}
use kubimo.Agent.Volume.{StoreError, Store}
use kubimo.Agent.Store.Names.{is_empty}
use kubimo.Agent.Store.Publish.{
  PublishedSlot, lookup_publish, forget_publish, other_published_volumes,
}
use kubimo.Agent.Store.Slots.{mark_flushed, clear_flushed}
use kubimo.Agent.Store.Pool.{PoolSlot, lookup_pool_by_volume, remove_pool_slot}
use kubimo.Agent.Csi.Node.{
  Status, invalid_argument, S3Client, ArchiveLocation, Action, flush_slot, unbind, remove_dir,
  Config, State, Answers, Handler, pure, fail, act, on_volume, s3_for, forget_credentials,
  forget_pool_credentials, ◌>>=◌, ◌>>◌,
}
use kubimo.Agent.Csi.Watchers.{stop_watcher}

pub record UnpublishRequest : Type 0 where
  pub volume_id : Text
  pub target_path : Text

-- An error counts as still there.
unfoldable pub is_going_away : Result String (Option Workspace) → Bool
is_going_away (err _) = false
is_going_away (ok none) = true
is_going_away (ok (some found)) = is_some found.metadata.deletion_timestamp

module _ (config : Config) (world : Answers) where
  after_flush : PublishedSlot → Result String Bool → State → State
  after_flush published (err _) s = s
  after_flush published (ok false) s = s
  after_flush published (ok true) s =
      on_volume (mark_flushed published.namespace published.workspace) s

  -- The old marker goes before the flush, the new one comes after a complete one.
  flush_to : PublishedSlot → ArchiveLocation → S3Client → State → State
  unfolding after_flush
  flush_to published archive s3 s =
      let cleared = on_volume (clear_flushed published.namespace published.workspace) s in
      let a = flush_slot published.slot published.workspace archive s3 in
      after_flush published (world.does cleared.trace a)
        (record cleared { trace = a ∷ cleared.trace })

  -- The archive that a flush is to write, and the client to write it by, if there is to be a flush.
  unfoldable pub flush_target : PublishedSlot → State → Option (ArchiveLocation × S3Client)
  unfolding is_going_away
  flush_target published s = if is_empty published.namespace then none else elim published.bucket [
    | none ↦ none
    | some bucket ↦
        if not (world.has_client published.namespace)
        then none
        else if is_going_away (world.workspace published.namespace published.workspace)
        then none
        else elim (s3_for config s published.namespace published.workspace) [
          | none ↦ none
          | some s3 ↦ some (record { bucket = bucket; key_prefix = published.key_prefix }, s3)
        ]
  ]

  flush_if : PublishedSlot → Option (ArchiveLocation × S3Client) → State → State
  unfolding flush_to
  flush_if published none s = s
  flush_if published (some (archive, s3)) s = flush_to published archive s3 s

  unfoldable pub flush_published_slot : PublishedSlot → State → State
  unfolding flush_if
  flush_published_slot published s = flush_if published (flush_target published s) s

  reread : Text → State → Option PublishedSlot
  reread volume_id s = elim (lookup_publish volume_id s.volume).0 [
    | ok published ↦ published
    | err _ ↦ none
  ]

  -- Under the lock of the pool pod, after the rest of the agent may have claimed the slot.
  discard_locked : Text → State → Option PublishedSlot × State
  unfolding reread
  discard_locked volume_id s = elim (lookup_pool_by_volume volume_id s.volume).0 [
    | err _ ↦ (none, s)
    | ok none ↦ (reread volume_id s, s)
    | ok (some (namespace, pod, slot)) ↦
        (none, forget_pool_credentials namespace pod (on_volume (remove_pool_slot namespace pod) s))
  ]

  unfoldable pub discard_anonymous_slot : Text → State → Option PublishedSlot × State
  unfolding discard_locked
  discard_anonymous_slot volume_id s = elim (lookup_pool_by_volume volume_id s.volume).0 [
    | err _ ↦ (none, s)
    | ok none ↦ (reread volume_id s, s)
    | ok (some _) ↦ discard_locked volume_id (world.others s)
  ]

  -- A failure to read the record of the publish counts as none.
  find_published : Text → State → Option PublishedSlot × State
  unfolding reread discard_anonymous_slot
  find_published volume_id s = elim (reread volume_id s) [
    | some published ↦ (some published, s)
    | none ↦ discard_anonymous_slot volume_id s
  ]

  last_out : PublishedSlot → Result StoreError Bool → State → State
  unfolding flush_published_slot
  last_out published (ok true) s = s
  last_out published _ s =
      forget_credentials published.namespace published.workspace (flush_published_slot published s)

  -- Under the lock of the workspace.
  unfoldable pub release : Text → PublishedSlot → State → State
  unfolding last_out
  release volume_id published s =
      let stopped = stop_watcher volume_id published.namespace published.workspace s in
      let forgotten = on_volume (forget_publish volume_id) stopped in
      let siblings =
        other_published_volumes published.namespace published.workspace volume_id
          forgotten.volume in
      last_out published siblings.0 (record forgotten { volume = siblings.1 })

  -- The directory is kubelet's; that it cannot be removed is no error.
  tidy : Text → Bool → Handler (Unit {0})
  tidy target true s = (ok tt, record s { trace = remove_dir target ∷ s.trace })
  tidy target false s = (ok tt, s)

  unmount : UnpublishRequest → Handler (Unit {0})
  unfolding tidy
  unmount request = do
    unmounted ← act world "unpublishing slot: " (unbind request.target_path)
    tidy request.target_path unmounted

  released : Text → Option PublishedSlot → State → State
  unfolding release
  released volume_id none s = s
  released volume_id (some published) s = release volume_id published (world.others s)

  unfoldable pub node_unpublish_volume : UnpublishRequest → Handler (Unit {0})
  unfolding find_published released unmount
  node_unpublish_volume request s =
      if is_empty request.target_path
      then fail (invalid_argument "target_path is required") s
      else (let (published, found) = find_published request.volume_id s in
          unmount request (released request.volume_id published found))
