-- ===== src/Agent/Store/Slots.antt =====
-- The slots of workspaces: agent/src/store.rs.
pub mod Created
pub mod Apart
pub mod Resolve
pub mod Absent
pub mod Cleared
use kubimo.Common.{
  ℕ, ◌-◌, Bool, true, false, ◌++◌, Option, none, some, List, [], ◌∷◌, leb, is_some, and_then,
  if◌then◌else◌,
}
use kubimo.Common.Result.{Result, ok, err, ok_or}
use kubimo.Common.Text.{Text, trim}
use kubimo.Common.Text.Lines.{lines}
use kubimo.Common.Text.Decimal.{parse_u32, print_u32}
use kubimo.Agent.Slot.{SlotId, SlotIdError, missing_prefix, parse}
use kubimo.Agent.Volume.{
  StoreError, corrupt_index, File, Volume, Store, get_file, has_slot, gets, lift, pure, read_opt,
  read, write, remove_opt, create_slot_dir, ◌>>=◌, ◌>>◌,
}
use kubimo.Agent.Store.Names.{
  validate_names, workspace_link, project_id_path, flushed_path, draining_path,
}
use kubimo.Agent.Store.ProjectId.{allocate_project_id}

pub record ResolvedSlot : Type 0 where
  pub id : SlotId
  pub project_id : ℕ
  pub created : Bool

abbrev pub first_line : List Text → Text
first_line [] = []
first_line (l ∷ ls) = l

as_corrupt : Text → Result SlotIdError SlotId → Result StoreError SlotId
as_corrupt workspace (ok id) = ok id
as_corrupt workspace (err source) = err (corrupt_index workspace source)

-- The slot id on the first line of a link.
unfoldable pub parse_link : Text → Text → Result StoreError SlotId
unfolding as_corrupt
parse_link workspace raw = as_corrupt workspace (parse (trim (first_line (lines raw))))

slot_id_in : Text → Option Text → Store (Option SlotId)
unfolding parse_link
slot_id_in workspace none = pure none
slot_id_in workspace (some raw) = do id ← lift (parse_link workspace raw); pure (some id)

-- The slot id that a link records, whether or not its directory exists.
unfoldable pub read_slot_id : Text → Text → Store (Option SlotId)
unfolding slot_id_in
read_slot_id link workspace = do
  found ← read_opt "reading slot link" link
  slot_id_in workspace found

unfoldable pub lookup_slot_id : Text → Text → Store (Option SlotId)
unfolding read_slot_id
lookup_slot_id namespace workspace = read_slot_id (workspace_link namespace workspace) workspace

-- The project id of a slot, reported as corrupt under the name of its owner.
unfoldable pub read_project_id : Text → SlotId → Store ℕ
read_project_id owner id = do
  raw ← read "reading project id" (project_id_path id)
  lift (ok_or (parse_u32 (trim raw)) (corrupt_index owner missing_prefix))

resolve_found : Text → SlotId → Bool → Store (Option ResolvedSlot)
unfolding read_project_id
resolve_found workspace id false = pure none
resolve_found workspace id true = do
  n ← read_project_id workspace id
  pure (some (record { id = id; project_id = n; created = false }))

lookup_id : Text → Option SlotId → Store (Option ResolvedSlot)
unfolding resolve_found
lookup_id workspace none = pure none
lookup_id workspace (some id) = do
  is_dir ← gets (λ v. has_slot id.as_str v.slots)
  resolve_found workspace id is_dir

unfoldable pub lookup : Text → Text → Store (Option ResolvedSlot)
unfolding lookup_id lookup_slot_id
lookup namespace workspace = do
  validate_names namespace workspace
  found ← lookup_slot_id namespace workspace
  lookup_id workspace found

-- The slot id, then the namespace.
unfoldable pub link_body : Text → SlotId → Text
link_body namespace id = id.as_str ++ b'\n' ∷ namespace

unfoldable pub record_slot : Text → Text → SlotId → ℕ → Store (Unit {0})
unfolding link_body
record_slot namespace workspace id n = do
  write "writing project id" (project_id_path id) (print_u32 n)
  write "writing workspace index" (workspace_link namespace workspace) (link_body namespace id)

-- `fresh` is the id that `SlotId::generate` gives.
unfoldable pub create_slot : SlotId → Text → Text → Store ResolvedSlot
unfolding record_slot
create_slot fresh namespace workspace = do
  n ← allocate_project_id
  record_slot namespace workspace fresh n
  create_slot_dir fresh
  pure (record { id = fresh; project_id = n; created = true })

existing_or_new : SlotId → Text → Text → Option ResolvedSlot → Store ResolvedSlot
unfolding create_slot
existing_or_new fresh namespace workspace (some slot) = pure slot
existing_or_new fresh namespace workspace none = create_slot fresh namespace workspace

unfoldable pub resolve_or_create : SlotId → Text → Text → Store ResolvedSlot
unfolding existing_or_new lookup
resolve_or_create fresh namespace workspace = do
  validate_names namespace workspace
  existing ← lookup namespace workspace
  existing_or_new fresh namespace workspace existing

unfoldable pub mark_draining : Store (Unit {0})
mark_draining = write "marking draining" draining_path []

unfoldable pub is_draining : Volume → Bool
is_draining v = is_some (get_file draining_path v.files)

unfoldable pub mark_flushed : Text → Text → Store (Unit {0})
unfolding lookup_slot_id
mark_flushed namespace workspace = do
  validate_names namespace workspace
  found ← lookup_slot_id namespace workspace
  elim found [ none ↦ pure tt | some id ↦ write "writing flush marker" (flushed_path id) [] ]

-- The age of a file; none if it was written in the future.
unfoldable pub age_of : ℕ → File → Option ℕ
age_of now f = if leb f.modified now then some (now - f.modified) else none

unfoldable pub flushed_ago : Text → Text → Store (Option ℕ)
unfolding lookup_slot_id age_of
flushed_ago namespace workspace = do
  validate_names namespace workspace
  found ← lookup_slot_id namespace workspace
  elim found [
    | none ↦ pure none
    | some id ↦ gets (λ v. and_then (get_file (flushed_path id) v.files) (age_of v.clock))
  ]

-- A missing marker is as good as a removed one.
unfoldable pub clear_flushed : Text → Text → Store (Unit {0})
unfolding lookup_slot_id
clear_flushed namespace workspace = do
  validate_names namespace workspace
  found ← lookup_slot_id namespace workspace
  elim found [ none ↦ pure tt | some id ↦ remove_opt "clearing flush marker" (flushed_path id) ]
