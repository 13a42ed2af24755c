-- ===== src/Agent/Store/Reclaim.antt =====
-- Which workspaces have slots on the node, and how a slot is dropped: agent/src/store.rs.
pub mod Gone
use kubimo.Common.{Bool, true, false, Option, none, some, List, [], ◌∷◌, and_then, if◌then◌else◌}
use kubimo.Common.Result.{to_option}
use kubimo.Common.Text.{Text, strip_prefix, split_once, trim}
use kubimo.Common.Text.Lines.{lines}
use kubimo.Agent.Slot.{SlotId}
use kubimo.Agent.Volume.{
  File, Volume, Store, get_file, pure, try_remove, remove_slot_dir, ◌>>=◌, ◌>>◌,
}
use kubimo.Agent.Store.Names.{
  validate_workspace_name, validate_names, workspace_prefix, workspace_link, legacy_link,
  project_id_path, flushed_path, is_empty,
}
use kubimo.Agent.Store.Publish.{cons_some, forget_publishes_for}
use kubimo.Agent.Store.Slots.{read_slot_id, lookup_slot_id}

second_line : List Text → Option Text
second_line (_ ∷ l ∷ _) = if is_empty (trim l) then none else some (trim l)
second_line _ = none

-- The namespace on the second line of a link that has none in its name.
unfoldable pub recorded_namespace : List (Text × File) → Text → Option Text
unfolding second_line
recorded_namespace files workspace =
    and_then (get_file (legacy_link workspace) files)
      (λ f. and_then f.content (λ raw. second_line (lines raw)))

split_link : List (Text × File) → Text → Option (Text × Text) → Option (Text × Text)
unfolding recorded_namespace
split_link files stripped (some (namespace, workspace)) =
    and_then (to_option (validate_workspace_name namespace)) (λ _.
      and_then (to_option (validate_workspace_name workspace)) (λ _. some (namespace, workspace)))
split_link files stripped none =
    and_then (to_option (validate_workspace_name stripped))
      (λ _. and_then (recorded_namespace files stripped) (λ namespace. some (namespace, stripped)))

unfoldable pub linked_workspace : List (Text × File) → Text × File → Option (Text × Text)
unfolding split_link
linked_workspace files (name, f) =
    and_then (strip_prefix workspace_prefix name)
      (λ stripped. split_link files stripped (split_once b'.' stripped))

workspaces_of : List (Text × File) → List (Text × File) → List (Text × Text)
unfolding linked_workspace
workspaces_of files [] = []
workspaces_of files (f ∷ fs) = cons_some (linked_workspace files f) (workspaces_of files fs)

-- The pairs of namespace and workspace that a link names.
unfoldable pub workspaces : Volume → List (Text × Text)
unfolding workspaces_of
workspaces v = workspaces_of v.files v.files

drop_slot : Text → SlotId → Store Bool
drop_slot link id = do
  remove_slot_dir id
  try_remove link
  try_remove (project_id_path id)
  try_remove (flushed_path id)
  pure true

remove_legacy : Text → Text → Option SlotId → Store Bool
unfolding drop_slot
remove_legacy namespace workspace (some id) = drop_slot (legacy_link workspace) id
remove_legacy namespace workspace none = do
  try_remove (workspace_link namespace workspace)
  try_remove (legacy_link workspace)
  pure false

remove_found : Text → Text → Option SlotId → Store Bool
unfolding drop_slot remove_legacy
remove_found namespace workspace (some id) = drop_slot (workspace_link namespace workspace) id
remove_found namespace workspace none = do
  legacy ← read_slot_id (legacy_link workspace) workspace
  remove_legacy namespace workspace legacy

-- Is there a slot, and is it gone?
unfoldable pub remove_slot : Text → Text → Store Bool
unfolding remove_found
remove_slot namespace workspace = do
  validate_names namespace workspace
  forget_publishes_for namespace workspace
  found ← lookup_slot_id namespace workspace
  remove_found namespace workspace found
