-- ===== src/Agent/Store/Publish/RoundTrip.antt =====
-- A publish record is read back as it was written.
use kubimo.Common.{◌≡◌, refl, ap, ◌∙◌, Option, none, some, List, [], ◌∷◌, ◌++◌, unwrap_or}
use kubimo.Common.Result.{ok}
use kubimo.Common.Text.{Text}
use kubimo.Common.Text.Lines.{lines, OneLine, lines-first, lines-last}
use kubimo.Agent.Slot.{parse}
use kubimo.Agent.Slot.Parse.{parse-Solid}
use kubimo.Agent.Volume.{Volume, read_opt, get_file, write, written, lift, File}
use kubimo.Agent.Volume.Laws.{get-put_same, bind_parts, bind-ok, attempt-ok, read_opt-some}
use kubimo.Agent.Store.Names.{validate_workspace_name, publish_path, is_empty}
use kubimo.Agent.Store.Publish.{
  PublishedSlot, record_body, record_publish, parse_record, with_slot, non_empty, found_record,
  lookup_publish,
}

-- A line that is there, if it is, has something in it.
abbrev pub FullLine : Option Text → Type 0
FullLine none = Unit
FullLine (some []) = ⊥
FullLine (some (c ∷ l)) = OneLine (c ∷ l)

-- The fields each stand in a line of their own.
pub record LinewiseSlot (published : PublishedSlot) : Type 0 where
  pub workspace : OneLine published.workspace
  pub namespace : OneLine published.namespace
  pub slot : parse published.slot.as_str ≡ ok published.slot
  pub bucket : FullLine published.bucket
  pub key_prefix : FullLine published.key_prefix

FullLine-OneLine : (o : Option Text) → FullLine o → OneLine (unwrap_or o [])
FullLine-OneLine none h = tt
FullLine-OneLine (some []) h = elim h [ ]
FullLine-OneLine (some (c ∷ l)) h = h

non_empty-FullLine :
    (o : Option Text) (rest : List Text) → FullLine o → non_empty (unwrap_or o [] ∷ rest) ≡ o
unfolding non_empty is_empty
non_empty-FullLine none rest h = refl
non_empty-FullLine (some []) rest h = elim h [ ]
non_empty-FullLine (some (c ∷ l)) rest h = refl

last_line : (l : Text) → OneLine l → unwrap_or (non_empty (lines l)) [] ≡ l
unfolding non_empty is_empty
last_line [] h = unfold lines in refl
last_line (c ∷ l) h = rw (lines-last c l h)

lines-record_body :
    (p : PublishedSlot)
    → LinewiseSlot p
    → lines (record_body p)
      ≡ p.workspace
        ∷ p.slot.as_str
        ∷ unwrap_or p.bucket []
        ∷ unwrap_or p.key_prefix []
        ∷ lines p.namespace
unfolding record_body
lines-record_body p h =
    let (_, slot, _) = parse-Solid p.slot.as_str p.slot h.slot in
    let fourth : Text = unwrap_or p.key_prefix [] ++ b'\n' ∷ p.namespace in
    let third : Text = unwrap_or p.bucket [] ++ b'\n' ∷ fourth in
    let second : Text = p.slot.as_str ++ b'\n' ∷ third in
    let four =
      lines-first (unwrap_or p.key_prefix []) p.namespace
        (FullLine-OneLine p.key_prefix h.key_prefix) in
    let three = lines-first (unwrap_or p.bucket []) fourth (FullLine-OneLine p.bucket h.bucket) in
    let two = lines-first p.slot.as_str third slot in
    let one = lines-first p.workspace second h.workspace in
    one
    ∙ ap (λ ls. p.workspace ∷ ls)
        (two ∙ ap (λ ls. p.slot.as_str ∷ ls) (three ∙ ap (λ ls. unwrap_or p.bucket [] ∷ ls) four))

parse-record_body :
    (p : PublishedSlot) → LinewiseSlot p → parse_record (lines (record_body p)) ≡ ok (some p)
unfolding parse_record with_slot
parse-record_body p h = rw (
  lines-record_body p h,
  h.slot,
  non_empty-FullLine p.bucket (unwrap_or p.key_prefix [] ∷ lines p.namespace) h.bucket,
  non_empty-FullLine p.key_prefix (lines p.namespace) h.key_prefix,
  last_line p.namespace h.namespace,
)

-- When a record has been written of a published slot whose fields stand in a line of their own, with
-- a valid slot id, and no empty bucket or key prefix, looking the volume up gives that slot.
pub lookup-record_publish :
    (volume_id : Text) (p : PublishedSlot) (v w : Volume)
    → LinewiseSlot p
    → record_publish volume_id p v ≡ (ok tt, w)
    → lookup_publish volume_id w ≡ (ok (some p), w)
unfolding record_publish lookup_publish found_record write
lookup-record_publish volume_id p v w h done =
    let (_, valid, wrote) =
      bind_parts (lift (validate_workspace_name p.workspace))
        (λ _. write "recording publish" (publish_path volume_id) (record_body p)) v w tt done in
    let (files, _) =
      attempt-ok "recording publish" (written (publish_path volume_id) (record_body p)) v w wrote in
    let file : File = record { content = some (record_body p); modified = v.clock } in
    let found =
      ap (get_file (publish_path volume_id)) files
      ∙ get-put_same (publish_path volume_id) file v.files in
    let text =
      read_opt-some "reading publish record" (publish_path volume_id) w file (record_body p) found
        refl in
    bind-ok (read_opt "reading publish record" (publish_path volume_id)) found_record w w
      (some (record_body p)) text
    ∙ ap (λ r. (r, w)) (parse-record_body p h)
