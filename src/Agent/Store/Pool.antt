-- ===== src/Agent/Store/Pool.antt =====
-- The slots of warm pool pods, and their adoption by a workspace: agent/src/store.rs.
use kubimo.Common.{
  ℕ, Bool, true, false, ◌++◌, Option, none, some, List, [], ◌∷◌, and_then, if◌then◌else◌, ◌==◌,
}
use kubimo.Common.Result.{to_option}
use kubimo.Common.Text.{Text, codes_partial_eq, strip_prefix, split_once, trim}
use kubimo.Common.Text.Lines.{lines}
use kubimo.Common.Text.Decimal.{print_u32}
use kubimo.Agent.Slot.{SlotId}
use kubimo.Agent.Volume.{
  File, Volume, Store, has_slot, gets, lift, pure, read_opt, write, try_remove, create_slot_dir,
  remove_slot_dir, ◌>>=◌, ◌>>◌,
}
use kubimo.Agent.Store.Names.{
  validate_workspace_name, validate_names, pool_prefix, pool_link, project_id_path, flushed_path,
}
use kubimo.Agent.Store.ProjectId.{allocate_project_id}
use kubimo.Agent.Store.Publish.{cons_some, next}
use kubimo.Agent.Store.Slots.{
  ResolvedSlot, first_line, parse_link, read_slot_id, read_project_id, record_slot,
}

pub record PoolSlot : Type 0 where
  pub id : SlotId
  pub project_id : ℕ
  pub volume_id : Text
  pub pod_uid : Text
  pub created : Bool

pool_slot_in : Text → List Text → SlotId → Bool → Store (Option PoolSlot)
pool_slot_in pod rest id false = pure none
pool_slot_in pod rest id true = do
  n ← read_project_id pod id
  pure (
      some (record {
        id = id;
        project_id = n;
        volume_id = trim (first_line rest);
        pod_uid = trim (first_line (next rest));
        created = false;
      }))

pool_slot_of : Text → Option Text → Store (Option PoolSlot)
unfolding pool_slot_in
pool_slot_of pod none = pure none
pool_slot_of pod (some raw) = do
  id ← lift (parse_link pod raw)
  is_dir ← gets (λ v. has_slot id.as_str v.slots)
  pool_slot_in pod (next (lines raw)) id is_dir

unfoldable pub read_pool_link : Text → Text → Store (Option PoolSlot)
unfolding pool_slot_of
read_pool_link link pod = do found ← read_opt "reading pool link" link; pool_slot_of pod found

unfoldable pub lookup_pool : Text → Text → Store (Option PoolSlot)
unfolding read_pool_link
lookup_pool namespace pod = do
  validate_names namespace pod
  read_pool_link (pool_link namespace pod) pod

drop_pool_slot : Text → Option SlotId → Store Bool
drop_pool_slot link none = do try_remove link; pure false
drop_pool_slot link (some id) = do
  remove_slot_dir id
  try_remove link
  try_remove (project_id_path id)
  try_remove (flushed_path id)
  pure true

unfoldable pub remove_pool_slot : Text → Text → Store Bool
unfolding drop_pool_slot
remove_pool_slot namespace pod = do
  validate_names namespace pod
  found ← read_slot_id (pool_link namespace pod) pod
  drop_pool_slot (pool_link namespace pod) found

-- The slot id, the volume id and the uid of the pod, one a line.
unfoldable pub pool_body : SlotId → Text → Text → Text
pool_body id volume_id pod_uid = id.as_str ++ b'\n' ∷ (volume_id ++ b'\n' ∷ pod_uid)

create_pool_slot : SlotId → Text → Text → Text → Text → Store PoolSlot
unfolding pool_body
create_pool_slot fresh namespace pod pod_uid volume_id = do
  n ← allocate_project_id
  write "writing project id" (project_id_path fresh) (print_u32 n)
  write "writing pool index" (pool_link namespace pod) (pool_body fresh volume_id pod_uid)
  create_slot_dir fresh
  pure (record {
    id = fresh;
    project_id = n;
    volume_id = volume_id;
    pod_uid = pod_uid;
    created = true;
  })

-- The slot is kept if its pod is the same.
reuse : SlotId → Text → Text → Text → Text → Option PoolSlot → Store PoolSlot
unfolding create_pool_slot
reuse fresh namespace pod pod_uid volume_id none =
    create_pool_slot fresh namespace pod pod_uid volume_id
reuse fresh namespace pod pod_uid volume_id (some existing) =
    if existing.pod_uid == pod_uid
    then pure existing
    else remove_pool_slot namespace pod >> create_pool_slot fresh namespace pod pod_uid volume_id

unfoldable pub resolve_or_create_pool : SlotId → Text → Text → Text → Text → Store PoolSlot
unfolding reuse
resolve_or_create_pool fresh namespace pod pod_uid volume_id = do
  validate_names namespace pod
  existing ← lookup_pool namespace pod
  reuse fresh namespace pod pod_uid volume_id existing

unfoldable pub linked_pod : Text × File → Option (Text × Text)
linked_pod (name, f) = and_then (strip_prefix pool_prefix name) (λ stripped.
    and_then (split_once b'.' stripped) (λ (namespace, pod).
      and_then (to_option (validate_workspace_name namespace))
        (λ _. and_then (to_option (validate_workspace_name pod)) (λ _. some (namespace, pod)))))

pods_of : List (Text × File) → List (Text × Text)
unfolding linked_pod
pods_of [] = []
pods_of (f ∷ fs) = cons_some (linked_pod f) (pods_of fs)

unfoldable pub pool_pods : Volume → List (Text × Text)
unfolding pods_of
pool_pods v = pods_of v.files

-- Is it the slot that was published under the volume id?
published_under : Text → Text × Text → Option PoolSlot → Option (Text × Text × PoolSlot)
published_under volume_id (namespace, pod) none = none
published_under volume_id (namespace, pod) (some slot) =
    if slot.volume_id == volume_id then some (namespace, pod, slot) else none

search_pods : Text → List (Text × Text) → Store (Option (Text × Text × PoolSlot))
unfolding published_under
search_pods volume_id [] = pure none
search_pods volume_id ((namespace, pod) ∷ rest) = do
  slot ← lookup_pool namespace pod
  elim (published_under volume_id (namespace, pod) slot) [
    | some found ↦ pure (some found)
    | none ↦ search_pods volume_id rest
  ]

unfoldable pub lookup_pool_by_volume : Text → Store (Option (Text × Text × PoolSlot))
unfolding search_pods
lookup_pool_by_volume volume_id = do pods ← gets pool_pods; search_pods volume_id pods

adopt : Text → Text → Text → Text → Option PoolSlot → Store (Option ResolvedSlot)
adopt pod_namespace pod namespace workspace none = pure none
adopt pod_namespace pod namespace workspace (some slot) = do
  record_slot namespace workspace slot.id slot.project_id
  try_remove (pool_link pod_namespace pod)
  pure (some (record { id = slot.id; project_id = slot.project_id; created = false }))

unfoldable pub adopt_pool_slot : Text → Text → Text → Text → Store (Option ResolvedSlot)
unfolding adopt
adopt_pool_slot pod_namespace pod namespace workspace = do
  validate_names namespace workspace
  slot ← lookup_pool pod_namespace pod
  adopt pod_namespace pod namespace workspace slot
