-- ===== src/Agent/Examples.antt =====
-- The theorems about the agent at concrete volumes.
use native.Mathlib.Nat.{mod-lt}
use kubimo.Common.{
  ℕ, ◌+◌, ◌%◌, ◌^◌, ◌<◌, true, false, ◌≡◌, ◌↔◌, ◌⊎◌, refl, none, some, [], ◌++◌, length, all,
}
use kubimo.Common.Result.{ok}
use kubimo.Common.Text.{Text, codes, trim, trim_end, as_bytes}
use kubimo.Common.Text.Decimal.{parse_u32}
use kubimo.Agent.Slot.{SlotId, slot_prefix, slot_random_len, generate, parse, in_alphabet}
use kubimo.Agent.Slot.Parse.{parse_iff}
use kubimo.Agent.Slot.Minted.{InRange, parse-generate}
use kubimo.Agent.Volume.{Volume, write, attempt, read}
use kubimo.Agent.Store.Names.{validate_workspace_name, is_invalid_name}
use kubimo.Agent.Store.Publish.{PublishedSlot, record_publish, lookup_publish}
use kubimo.Agent.Store.Publish.RoundTrip.{LinewiseSlot, lookup-record_publish}
use kubimo.Agent.Store.ProjectId.{allocate_project_id, checked_next, next_project_id, opened}
use kubimo.Agent.Store.ProjectId.Recorded.{AllBelow}
use kubimo.Agent.Store.ProjectId.Counter.{Holds, missing}
use kubimo.Agent.Store.ProjectId.Fresh.{allocate_fresh}
use kubimo.Agent.Volume.{read_opt, create_slot_dir}
use kubimo.Agent.Store.Names.{validate_names, workspace_link}
use kubimo.Agent.Store.Slots.{
  ResolvedSlot, lookup, lookup_slot_id, read_slot_id, record_slot, resolve_or_create,
}
use kubimo.Agent.Store.Slots.Resolve.{lookup-resolve_or_create}
use kubimo.Agent.Store.Names.{project_id_path}
use kubimo.Agent.Store.ProjectId.{drop_bytes}
use kubimo.Agent.Store.Slots.{create_slot, link_body}
use kubimo.Agent.Store.Slots.Created.{HasSlot, create-HasSlot}
use kubimo.Agent.Store.Slots.Apart.{Dotless, create_slot-HasSlot}
use kubimo.Common.{◌≢◌, inr}
use kubimo.Common.Text.{same_text_iff, is_whitespace}
use kubimo.Common.Text.Decimal.{digits_value, print_u32, print_padded}
use kubimo.Agent.Store.ProjectId.{overwritten}
use kubimo.Agent.Reaper.{Answers, remove_counted, sweep_one}
use kubimo.Agent.Reaper.Justified.{Justified, sweep_one-Justified}

abbrev empty : Volume
empty = record { files = []; slots = []; clock = 50; faults = [] }

abbrev slot : SlotId
slot = record { as_str = codes "slot-123456789abcdefghjkmnpqrsz" }

slot-parsed : parse slot.as_str ≡ ok slot
unfolding parse as_bytes
slot-parsed = refl

-- A generator of a run of numbers.
abbrev counting : ℕ → ℕ → ℕ
counting i n = i % n

counting-InRange : InRange counting
counting-InRange i n h = mod-lt i h

parse-generate_example :
    (id : SlotId) × (generate counting ≡ some id)
    × (parse id.as_str ≡ ok id)
    × ((other : ℕ → ℕ → ℕ)
        → generate other ≡ some id
        → (k : ℕ) → k < slot_random_len
        → counting k 32 ≡ other k 32)
parse-generate_example = parse-generate counting counting-InRange

parse_iff_example : (parse (codes "slot-") ≡ ok slot) ↔ (
    (random : Text) × (codes "slot-" ≡ slot_prefix ++ random)
    × (length random ≡ slot_random_len)
    × (all in_alphabet random ≡ true)
    × (slot.as_str ≡ codes "slot-"))
parse_iff_example = parse_iff (codes "slot-") slot

abbrev published : PublishedSlot
published = record {
  workspace = codes "demo";
  namespace = codes "team";
  slot = slot;
  bucket = some (codes "archive");
  key_prefix = none;
}

published-LinewiseSlot : LinewiseSlot published
published-LinewiseSlot = record {
  workspace = (refl, refl, (refl, refl, (refl, refl, (refl, refl, tt))));
  namespace = (refl, refl, (refl, refl, (refl, refl, (refl, refl, tt))));
  slot = slot-parsed;
  bucket = (
    refl,
    refl,
    (refl, refl, (refl, refl, (refl, refl, (refl, refl, (refl, refl, (refl, refl, tt)))))),
  );
  key_prefix = tt;
}

recorded : Volume
unfolding record_publish
recorded = (record_publish (codes "csi-1") published empty).1

was_recorded : record_publish (codes "csi-1") published empty ≡ (ok tt, recorded)
unfolding recorded record_publish validate_workspace_name is_invalid_name as_bytes write attempt
was_recorded = refl

lookup-record_publish_example :
    lookup_publish (codes "csi-1") recorded ≡ (ok (some published), recorded)
lookup-record_publish_example =
    lookup-record_publish (codes "csi-1") published empty recorded published-LinewiseSlot
      was_recorded

allocated : Volume
allocated = (allocate_project_id empty).1

was_allocated : allocate_project_id empty ≡ (ok 1000, allocated)
unfolding allocated allocate_project_id attempt opened read next_project_id parse_u32 trim_end
    checked_next
was_allocated = refl

allocate_fresh_example :
    (1000 + 1 < 2 ^ 32)
    × AllBelow 1000 []
    × AllBelow 1000 allocated.files
    × ((raw : Text) × Holds allocated.files raw × (parse_u32 (trim raw) ≡ some (1000 + 1)))
allocate_fresh_example = allocate_fresh empty allocated 1000 (missing refl tt) was_allocated

abbrev nobody : Answers
nobody = record { Fault = Unit; workspace = λ _ _. ok none; pod_exists = λ _ _. ok false }

sweep_one-Justified_example :
    (sweep_one nobody "node" 9 (λ v. v) [] (codes "team") (codes "demo") recorded ≡ (0, recorded))
    ⊎ (sweep_one nobody "node" 9 (λ v. v) [] (codes "team") (codes "demo") recorded ≡ (0, recorded))
    ⊎ (Justified nobody "node" 9 [] (codes "team") (codes "demo") recorded
        × (sweep_one nobody "node" 9 (λ v. v) [] (codes "team") (codes "demo") recorded
            ≡ remove_counted (codes "team") (codes "demo") recorded))
sweep_one-Justified_example =
    sweep_one-Justified nobody "node" 9 (λ v. v) [] (codes "team") (codes "demo") recorded

resolved : Volume
resolved = (resolve_or_create slot (codes "team") (codes "demo") empty).1

was_resolved :
    resolve_or_create slot (codes "team") (codes "demo") empty
    ≡ (ok (record { id = slot; project_id = 1000; created = true }), resolved)
unfolding resolved resolve_or_create lookup lookup_slot_id read_slot_id read_opt validate_names
    validate_workspace_name is_invalid_name as_bytes allocate_project_id attempt opened read
    next_project_id parse_u32 trim_end checked_next record_slot write create_slot_dir workspace_link
was_resolved = refl

lookup-resolve_or_create_example :
    lookup (codes "team") (codes "demo") resolved
    ≡ (ok (some (record { id = slot; project_id = 1000; created = false })), resolved)
lookup-resolve_or_create_example =
    lookup-resolve_or_create slot (codes "team") (codes "demo") empty resolved
      (record { id = slot; project_id = 1000; created = true }) (slot-parsed) was_resolved

-- A second slot, with the letters of the first but one.
abbrev other_slot : SlotId
other_slot = record { as_str = codes "slot-023456789abcdefghjkmnpqrsz" }

abbrev slot_of : SlotId → ℕ → ResolvedSlot
slot_of id n = record { id = id; project_id = n; created = true }

first_created : Volume
first_created = (create_slot slot (codes "team") (codes "demo") empty).1

was_first :
    create_slot slot (codes "team") (codes "demo") empty ≡ (ok (slot_of slot 1000), first_created)
unfolding first_created create_slot as_bytes allocate_project_id attempt opened read next_project_id
    parse_u32 trim_end checked_next record_slot write create_slot_dir
was_first = refl

second_created : Volume
second_created = (create_slot other_slot (codes "team") (codes "demo2") first_created).1

was_second :
    create_slot other_slot (codes "team") (codes "demo2") first_created
    ≡ (ok (slot_of other_slot 1001), second_created)
unfolding first_created second_created create_slot as_bytes allocate_project_id attempt opened read
    next_project_id parse_u32 digits_value trim_end is_whitespace checked_next record_slot write
    create_slot_dir overwritten print_padded project_id_path workspace_link link_body generate
    print_u32 drop_bytes
was_second = refl

team-Dotless : Dotless (codes "team")
team-Dotless = (λ e. cc, (λ e. cc, (λ e. cc, (λ e. cc, tt))))

ids-apart : other_slot.as_str ≢ slot.as_str
unfolding generate
ids-apart e = cc ((same_text_iff other_slot.as_str slot.as_str).1 e)

create_slot-HasSlot_example : HasSlot (codes "team") (codes "demo") slot 1000 second_created
create_slot-HasSlot_example =
    create_slot-HasSlot other_slot slot (codes "team") (codes "demo2") (codes "team") (codes "demo")
      1000 first_created second_created (slot_of other_slot 1001) team-Dotless team-Dotless
      (inr (λ e. cc ((same_text_iff (codes "demo2") (codes "demo")).1 e))) ids-apart
      (create-HasSlot slot (codes "team") (codes "demo") empty first_created (slot_of slot 1000)
        was_first).2
      was_second
