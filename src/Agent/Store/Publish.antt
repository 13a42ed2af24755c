-- ===== src/Agent/Store/Publish.antt =====
-- The records of published volumes: agent/src/store.rs.
pub mod RoundTrip
use kubimo.Common.{
  Bool, true, false, not, ◌&&◌, ◌||◌, ◌++◌, Option, none, some, List, [], ◌∷◌, map, any, is_some,
  and_then, if◌then◌else◌, unwrap_or, ◌==◌,
}
use kubimo.Common.Result.{Result, ok, err}
use kubimo.Common.Text.{Text, codes_partial_eq, strip_prefix}
use kubimo.Common.Text.Lines.{lines}
use kubimo.Agent.Slot.{SlotId, SlotIdError, parse}
use kubimo.Agent.Volume.{
  StoreError, corrupt_index, File, Volume, Store, gets, lift, pure, read_opt, write, try_remove,
  ◌>>=◌, ◌>>◌,
}
use kubimo.Agent.Store.Names.{
  validate_workspace_name, validate_names, publish_prefix, publish_path, is_empty,
}

pub record PublishedSlot : Type 0 where
  pub workspace : Text
  pub namespace : Text
  pub slot : SlotId
  pub bucket : Option Text
  pub key_prefix : Option Text

-- A record as it is read, with the name of its file; an old one has no namespace.
pub record PublishRecord : Type 0 where
  pub path : Text
  pub workspace : Text
  pub namespace : Text

-- Does the record name the workspace? One with no namespace does by the workspace alone.
unfoldable pub names : PublishRecord → Text → Text → Bool
names record_ namespace workspace =
    (record_.workspace == workspace)
    && (is_empty record_.namespace || (record_.namespace == namespace))

-- The line after the first four.
fifth_line : List Text → Text
fifth_line (_ ∷ _ ∷ _ ∷ _ ∷ l ∷ _) = l
fifth_line _ = []

as_record : Text → List Text → Option PublishRecord
unfolding fifth_line
as_record path [] = none
as_record path (workspace ∷ rest) =
    some (record { path = path; workspace = workspace; namespace = fifth_line (workspace ∷ rest) })

-- A file that is no publish record, cannot be read or is empty is skipped.
unfoldable pub publish_record : Text × File → Option PublishRecord
unfolding as_record
publish_record (name, f) =
    and_then (strip_prefix publish_prefix name)
      (λ _. and_then f.content (λ raw. as_record name (lines raw)))

abbrev pub cons_some {ℓ} : {A : Type ℓ} → Option A → List A → List A
cons_some none xs = xs
cons_some (some x) xs = x ∷ xs

unfoldable pub publish_records : List (Text × File) → List PublishRecord
unfolding publish_record
publish_records [] = []
publish_records (f ∷ fs) = cons_some (publish_record f) (publish_records fs)

unfoldable pub record_body : PublishedSlot → Text
record_body published =
    published.workspace
    ++ b'\n'
      ∷ (published.slot.as_str
          ++ b'\n'
            ∷ (unwrap_or published.bucket []
                ++ b'\n' ∷ (unwrap_or published.key_prefix [] ++ b'\n' ∷ published.namespace)))

unfoldable pub record_publish : Text → PublishedSlot → Store (Unit {0})
unfolding record_body
record_publish volume_id published = do
  lift (validate_workspace_name published.workspace)
  write "recording publish" (publish_path volume_id) (record_body published)

non_empty : List Text → Option Text
non_empty [] = none
non_empty (l ∷ _) = if is_empty l then none else some l

abbrev pub next : List Text → List Text
next [] = []
next (l ∷ ls) = ls

with_slot : Text → List Text → Result SlotIdError SlotId → Result StoreError (Option PublishedSlot)
unfolding non_empty
with_slot workspace rest (err source) = err (corrupt_index workspace source)
with_slot workspace rest (ok slot) = ok (
    some (record {
      workspace = workspace;
      slot = slot;
      bucket = non_empty rest;
      key_prefix = non_empty (next rest);
      namespace = unwrap_or (non_empty (next (next rest))) [];
    }))

unfoldable pub parse_record : List Text → Result StoreError (Option PublishedSlot)
unfolding with_slot
parse_record (workspace ∷ slot ∷ rest) = with_slot workspace rest (parse slot)
parse_record _ = ok none

found_record : Option Text → Store (Option PublishedSlot)
unfolding parse_record
found_record none = pure none
found_record (some raw) = lift (parse_record (lines raw))

unfoldable pub lookup_publish : Text → Store (Option PublishedSlot)
unfolding found_record
lookup_publish volume_id = do
  found ← read_opt "reading publish record" (publish_path volume_id)
  found_record found

unfoldable pub forget_publish : Text → Store (Unit {0})
forget_publish volume_id = try_remove (publish_path volume_id)

forget_each : Text → Text → List PublishRecord → Store (Unit {0})
forget_each namespace workspace [] = pure tt
forget_each namespace workspace (r ∷ rs) = do
  if names r namespace workspace then try_remove r.path else pure tt
  forget_each namespace workspace rs

unfoldable pub forget_publishes_for : Text → Text → Store (Unit {0})
unfolding forget_each
forget_publishes_for namespace workspace = do
  records ← gets (λ v. publish_records v.files)
  forget_each namespace workspace records

-- The pairs of namespace and workspace that have a record, as a list in place of a set.
unfoldable pub published_workspaces : Volume → List (Text × Text)
published_workspaces v = map (λ r. (r.namespace, r.workspace)) (publish_records v.files)

unfoldable pub is_published : Text → Text → Store Bool
is_published namespace workspace = do
  validate_names namespace workspace
  gets (λ v. any (λ r. names r namespace workspace) (publish_records v.files))

unfoldable pub other_published_volumes : Text → Text → Text → Store Bool
other_published_volumes namespace workspace excluding_volume_id = do
  validate_names namespace workspace
  gets (λ v.
      any (λ r. not (r.path == publish_path excluding_volume_id) && names r namespace workspace)
        (publish_records v.files))
