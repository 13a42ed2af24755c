-- ===== src/Agent/Csi/Examples.antt =====
-- The theorems about the node plugin at a node with one workspace.
use kubimo.Common.{String, Bool, true, false, ◌≡◌, ◌⊎◌, refl, none, some, List, [], ◌∷◌}
use kubimo.Common.Result.{Result, ok, err}
use kubimo.Common.Text.{Text, codes, as_bytes, trim_end, is_whitespace}
use kubimo.Common.Text.Lines.{lines}
use kubimo.Common.Text.Decimal.{parse_u32, digits_value}
use kubimo.Agent.Slot.{SlotId, parse}
use kubimo.Agent.Volume.{Volume, StoreError, File, read_opt, read_file, read_content, read}
use kubimo.Agent.Volume.{write, attempt, create_slot_dir, remove_opt}
use kubimo.Agent.Store.Names.{
  validate_names, validate_workspace_name, is_invalid_name, is_empty, workspace_link,
  project_id_path, flushed_path,
}
use kubimo.Agent.Store.ProjectId.{allocate_project_id, next_project_id, checked_next, opened}
use kubimo.Agent.Store.Publish.{PublishedSlot}
use kubimo.Agent.Store.Slots.{
  ResolvedSlot, read_slot_id, lookup_slot_id, lookup, parse_link, read_project_id,
  resolve_or_create, record_slot, clear_flushed, is_draining,
}
use kubimo.Agent.Store.Reclaim.{remove_slot}
use kubimo.Agent.Reaper.{reclaim_locked, idle}
use kubimo.Agent.Csi.Node.{
  unavailable, internal, from_env, ArchiveLocation, Action, unbind, Config, State, Answers, s3_for,
}
use kubimo.Agent.Csi.Provision.{
  resolve, slot_is_superseded, prepare_slot, provision_new_slot, provision_slot_basics,
}
use kubimo.Agent.Csi.Provision.Kept.{Superseded, prepare_slot-kept}
use kubimo.Agent.Csi.Provision.Discarded.{prepare_slot-discarded}
use kubimo.Agent.Csi.Publish.{node_publish_volume}
use kubimo.Agent.Csi.Publish.Request.{PublishRequest}
use kubimo.Agent.Csi.Publish.Refused.{publish-refused}
use kubimo.Agent.Csi.Unpublish.{
  UnpublishRequest, flush_target, flush_published_slot, is_going_away, node_unpublish_volume,
}
use kubimo.Agent.Csi.Watchers.Tracked.{
  Operation, start, stop, Tracked, carry_out, carry_out-Tracked,
}
use kubimo.Agent.Csi.Unpublish.Unblocked.{unpublish-ok}
use kubimo.Agent.Csi.Unpublish.Unmarked.{flush_published_slot-kept}

abbrev slot_id : SlotId
slot_id = record { as_str = codes "slot-0123456789abcdefghjkmnpqrs" }

abbrev config : Config
config = record {
  node_id = "node-1";
  root = "/data";
  default_limit_bytes = 1000;
  allow_unquotaed_slots = false;
  has_env_credentials = true;
}

-- Slots can be unmounted, and nothing else works.
only_unbinds : List Action → Action → Result String Bool
only_unbinds trace (unbind target) = ok true
only_unbinds trace _ = err "down"

abbrev world : Answers
world = record {
  fresh = λ _. slot_id;
  quotas_enforced = ok true;
  does = only_unbinds;
  has_client = λ _. true;
  has_status_client = λ _. true;
  workspace = λ _ _. err "down";
  others = λ s. s;
  debug = λ _. "";
  show = λ _. "";
}

abbrev state : Volume → State
state v = record { volume = v; s3_clients = []; watchers = []; tasks = []; spawned = 0; trace = [] }

abbrev empty : Volume
empty = record { files = []; slots = []; clock = 50; faults = [] }

abbrev written : Text → File
written body = record { content = some body; modified = 10 }

-- The slot of the workspace `demo`, with a marker of an earlier flush.
filled : Volume
filled = record {
  files =
      (workspace_link (codes "team") (codes "demo"), written slot_id.as_str)
      ∷ (project_id_path slot_id, written (codes "1000"))
      ∷ (flushed_path slot_id, written [])
      ∷ [];
  slots = slot_id.as_str ∷ [];
  clock = 50;
  faults = [];
}

abbrev leaving : UnpublishRequest
leaving = record { volume_id = codes "csi-1"; target_path = codes "/pods/1" }

unbinds :
    (trace : List Action) → (b : Bool) × (only_unbinds trace (unbind (codes "/pods/1")) ≡ ok b)
unfolding only_unbinds
unbinds trace = (true, refl)

unpublish-ok_example : (node_unpublish_volume config world leaving (state filled)).0 ≡ ok tt
unfolding is_empty
unpublish-ok_example = unpublish-ok config world leaving (state filled) refl unbinds

abbrev draining : Volume
draining = record empty { files = (codes "draining", written []) ∷ [] }

abbrev coming : PublishRequest
coming = record {
  volume_id = codes "csi-1";
  target_path = codes "/pods/1";
  readonly = false;
  volume_context = (codes "workspace", codes "demo") ∷ [];
  secrets = [];
}

publish-refused_example :
    (node_publish_volume config world coming (state draining)).1 ≡ state draining
unfolding node_publish_volume is_draining
publish-refused_example =
    publish-refused config world coming (state draining) (unavailable "node agent is draining") tt
      refl

abbrev published : PublishedSlot
published = record {
  workspace = codes "demo";
  namespace = codes "team";
  slot = slot_id;
  bucket = some (codes "archive");
  key_prefix = none;
}

abbrev archive : ArchiveLocation
archive = record { bucket = codes "archive"; key_prefix = none }

was_cleared : (clear_flushed (codes "team") (codes "demo") filled).0 ≡ ok tt
unfolding filled clear_flushed validate_names validate_workspace_name is_invalid_name as_bytes
    lookup_slot_id read_slot_id read_opt read_file read_content parse_link parse trim_end remove_opt
    attempt workspace_link flushed_path lines is_whitespace project_id_path
was_cleared = refl

flush_published_slot-kept_example :
    reclaim_locked idle 9
      (codes "team")
      (codes "demo")
      (flush_published_slot config world published (state filled)).volume
    ≡ (0, (flush_published_slot config world published (state filled)).volume)
unfolding flush_target is_going_away s3_for only_unbinds is_empty
flush_published_slot-kept_example =
    flush_published_slot-kept config world published (state filled) archive from_env idle 9 refl
      was_cleared (λ e. cc) (λ e. cc)

abbrev found : ResolvedSlot
found = record { id = slot_id; project_id = 1000; created = false }

was_found : (lookup (codes "team") (codes "demo") filled).0 ≡ ok (some found)
unfolding filled lookup validate_names validate_workspace_name is_invalid_name as_bytes
    lookup_slot_id read_slot_id read_opt read_file read_content parse_link parse trim_end
    read_project_id read parse_u32 digits_value workspace_link project_id_path flushed_path lines
    is_whitespace
was_found = refl

prepare_slot-kept_example :
    ((prepare_slot config world
        (codes "team")
        (codes "demo")
        1000
        none
        none
        none
        (state filled)).1.volume
      ≡ filled)
    ⊎ Superseded config world (codes "team") (codes "demo") filled
prepare_slot-kept_example =
    prepare_slot-kept config world (codes "team") (codes "demo") 1000 none none none (state filled)
      found was_found

new : ResolvedSlot
new = record { id = slot_id; project_id = 1000; created = true }

created : State
unfolding resolve resolve_or_create
created = (resolve config world (codes "team") (codes "demo") (state empty)).1

was_resolved : resolve config world (codes "team") (codes "demo") (state empty) ≡ (ok new, created)
unfolding new created resolve slot_is_superseded resolve_or_create lookup lookup_slot_id
    read_slot_id read_opt read_file validate_names validate_workspace_name is_invalid_name as_bytes
    allocate_project_id attempt opened read next_project_id parse_u32 trim_end checked_next
    record_slot write create_slot_dir workspace_link
was_resolved = refl

was_refused :
    (prepare_slot config world (codes "team") (codes "demo") 1000 none none none (state empty)).0
    ≡ err (internal "assigning project: down")
unfolding new resolve slot_is_superseded resolve_or_create lookup lookup_slot_id read_slot_id
    read_opt read_file validate_names validate_workspace_name is_invalid_name as_bytes
    allocate_project_id attempt opened read next_project_id parse_u32 trim_end checked_next
    record_slot write create_slot_dir workspace_link prepare_slot provision_new_slot
    provision_slot_basics only_unbinds remove_slot
was_refused = refl

prepare_slot-discarded_example :
    ((d : StoreError) × ((remove_slot (codes "team") (codes "demo") created.volume).0 ≡ err d))
    ⊎ ((lookup
          (codes "team")
          (codes "demo")
          (prepare_slot config world
            (codes "team")
            (codes "demo")
            1000
            none
            none
            none
            (state empty)).1.volume).0
        ≡ ok none)
unfolding new
prepare_slot-discarded_example =
    prepare_slot-discarded config world (codes "team") (codes "demo") 1000 none none none
      (state empty) created new true (internal "assigning project: down") was_resolved refl refl
      was_refused

abbrev willing : Answers
willing = record world { does = λ _ _. ok true }

-- Two publishes of a workspace and the end of the first.
abbrev operations : List Operation
operations =
    start (codes "csi-1") (codes "team") (codes "demo") slot_id archive
    ∷ start (codes "csi-2") (codes "team") (codes "demo") slot_id archive
    ∷ stop (codes "csi-1") (codes "team") (codes "demo")
    ∷ []

carry_out-Tracked_example : Tracked [] (carry_out config willing operations (state empty))
carry_out-Tracked_example =
    carry_out-Tracked config willing [] operations (state empty) (λ begun s t. t) (λ h a. cc)
