-- ===== src/Agent/Store/Slots/Created.antt =====
-- What the creation of a slot leaves on the volume.
use kubimo.Common.{
  ℕ, ◌^◌, ◌<◌, ◌≡◌, refl, sym, ap, ◌∙◌, true, false, inl, inr, some, List, ◌∷◌, Bool-cases,
  and_then, if◌then◌else◌,
}
use mathlib.Core.Path.{subst, subst₂}
use kubimo.Common.Result.{ok, ok_or}
use kubimo.Common.Text.{Text, codes_partial_eq, trim, trim-Solid, same_text, same_text_iff}
use kubimo.Common.Text.Lines.{lines-first}
use kubimo.Common.Text.Decimal.{parse_u32, print_u32, parse-trim_u32}
use kubimo.Agent.Slot.{SlotId, parse, missing_prefix}
use kubimo.Agent.Slot.Parse.{parse-Solid}
use kubimo.Agent.Volume.{
  File, Volume, StoreError, io, corrupt_index, get_file, put_file, has_slot, attempt, write,
  written, read_opt, read, create_slot_dir, lift, pure, ◌>>=◌, ◌>>◌,
}
use kubimo.Agent.Volume.Laws.{
  get-put_same, get-put_other, bind_parts, bind-ok, attempt-ok, read_opt-some,
}
use kubimo.Agent.Store.Names.{validate_names, workspace_link, project_id_path}
use kubimo.Agent.Store.ProjectId.{allocate_project_id}
use kubimo.Agent.Store.ProjectId.Fresh.{allocate-small}
use kubimo.Agent.Store.Slots.{
  ResolvedSlot, first_line, as_corrupt, parse_link, slot_id_in, read_slot_id, lookup_slot_id,
  read_project_id, resolve_found, lookup_id, lookup, link_body, record_slot, create_slot,
}

-- What a link that was written says.
parse_link-body :
    (namespace workspace : Text) (id : SlotId)
    → parse id.as_str ≡ ok id
    → parse_link workspace (link_body namespace id) ≡ ok id
unfolding parse_link link_body as_corrupt
parse_link-body namespace workspace id h =
    let (solid, line, _) = parse-Solid id.as_str id h in
    let first = ap first_line (lines-first id.as_str namespace line) in
    ap (λ t. as_corrupt workspace (parse (trim t))) first
    ∙ ap (λ t. as_corrupt workspace (parse t)) (trim-Solid id.as_str solid)
    ∙ ap (as_corrupt workspace) h

-- A volume where a workspace has a slot, by its link, its project id and its directory.
pub record HasSlot (namespace workspace : Text) (id : SlotId) (n : ℕ) (v : Volume) : Type 0 where
  pub link : File
  pub linked : get_file (workspace_link namespace workspace) v.files ≡ some link
  pub body : link.content ≡ some (link_body namespace id)
  pub number : File
  pub numbered : get_file (project_id_path id) v.files ≡ some number
  pub digits : number.content ≡ some (print_u32 n)
  pub dir : has_slot id.as_str v.slots ≡ true

read-number :
    (workspace : Text) (id : SlotId) (n : ℕ) (v : Volume) (file : File)
    → get_file (project_id_path id) v.files ≡ some file
    → file.content ≡ some (print_u32 n)
    → n < 2 ^ 32
    → read_project_id workspace id v ≡ (ok n, v)
unfolding read_project_id read
read-number workspace id n v file found text small =
    let failed : StoreError = io "reading project id" in
    bind-ok (read "reading project id" (project_id_path id))
      (λ raw. lift (ok_or (parse_u32 (trim raw)) (corrupt_index workspace missing_prefix))) v v
      (print_u32 n)
      (ap (λ o. (ok_or (and_then o (λ f. f.content)) failed, v)) found
        ∙ ap (λ t. (ok_or t failed, v)) text)
    ∙ ap (λ o. (ok_or o (corrupt_index workspace missing_prefix), v)) (parse-trim_u32 n small)

pub lookup-HasSlot :
    (namespace workspace : Text) (id : SlotId) (n : ℕ) (v : Volume)
    → parse id.as_str ≡ ok id
    → n < 2 ^ 32
    → validate_names namespace workspace v ≡ (ok tt, v)
    → HasSlot namespace workspace id n v
    → lookup namespace workspace v
      ≡ (ok (some (record { id = id; project_id = n; created = false })), v)
unfolding lookup lookup_slot_id read_slot_id slot_id_in lookup_id resolve_found read_project_id read
lookup-HasSlot namespace workspace id n v p small valid h =
    let link =
      read_opt-some "reading slot link" (workspace_link namespace workspace) v h.link
        (link_body namespace id) h.linked h.body in
    let found : lookup_slot_id namespace workspace v ≡ (ok (some id), v) =
      bind-ok (read_opt "reading slot link" (workspace_link namespace workspace))
        (slot_id_in workspace) v v (some (link_body namespace id)) link
      ∙ bind-ok (lift (parse_link workspace (link_body namespace id))) (λ i. pure (some i)) v v id
          (ap (λ r. (r, v)) (parse_link-body namespace workspace id p)) in
    let number : read_project_id workspace id v ≡ (ok n, v) =
      read-number workspace id n v h.number h.numbered h.digits small in
    bind-ok (validate_names namespace workspace)
      (λ _. lookup_slot_id namespace workspace >>= lookup_id workspace) v v tt valid
    ∙ bind-ok (lookup_slot_id namespace workspace) (lookup_id workspace) v v (some id) found
    ∙ ap (λ d. resolve_found workspace id d v) h.dir
    ∙ bind-ok (read_project_id workspace id)
        (λ m. pure (some (record { id = id; project_id = m; created = false }))) v v n number

-- The link and the project id are different files.
pub link-apart :
    (namespace workspace : Text) (id : SlotId)
    → same_text (workspace_link namespace workspace) (project_id_path id) ≡ false
unfolding workspace_link project_id_path
link-apart namespace workspace id = refl

-- The files after a slot was recorded.
pub recorded_files :
    (namespace workspace : Text) (id : SlotId) (n : ℕ) (v w : Volume)
    → record_slot namespace workspace id n v ≡ (ok tt, w)
    → (number : File) × (link : File) × (number.content ≡ some (print_u32 n))
      × (link.content ≡ some (link_body namespace id))
      × (w.files
          ≡ put_file
              (workspace_link namespace workspace)
              link
              (put_file (project_id_path id) number v.files))
      × (w.slots ≡ v.slots)
unfolding record_slot write
recorded_files namespace workspace id n v w h =
    let first = written (project_id_path id) (print_u32 n) in
    let second = written (workspace_link namespace workspace) (link_body namespace id) in
    let (_, done, rest) =
      bind_parts (attempt "writing project id" first)
        (λ _. attempt "writing workspace index" second) v w tt h in
    let v' : Volume = (attempt "writing project id" first v).1 in
    let (files, slots) = attempt-ok "writing project id" first v v' (ap (λ r. (r, v')) done) in
    let (files', slots') = attempt-ok "writing workspace index" second v' w rest in
    (
      record { content = some (print_u32 n); modified = v.clock },
      record { content = some (link_body namespace id); modified = v'.clock },
      refl,
      refl,
      files'
          ∙ ap
              (put_file (workspace_link namespace workspace)
                (record { content = some (link_body namespace id); modified = v'.clock }))
              files,
      slots' ∙ slots,
    )

pub has_created :
    (id : Text) (slots : List Text)
    → has_slot id (if has_slot id slots then slots else id ∷ slots) ≡ true
has_created id slots = elim (Bool-cases (has_slot id slots)) [
  | inl e ↦ rw (e, e)
  | inr e ↦ rw (e, (same_text_iff id id).1 refl)
]

-- What a creation that succeeds leaves.
pub create-HasSlot :
    (fresh : SlotId) (namespace workspace : Text) (v w : Volume) (r : ResolvedSlot)
    → create_slot fresh namespace workspace v ≡ (ok r, w)
    → (r.id ≡ fresh) × (r.project_id < 2 ^ 32) × HasSlot namespace workspace r.id r.project_id w
unfolding create_slot create_slot_dir
create-HasSlot fresh namespace workspace v w r h =
    let slot : ℕ → ResolvedSlot = λ n. record { id = fresh; project_id = n; created = true } in
    let (n, got, rest) =
      bind_parts allocate_project_id
        (λ n. record_slot namespace workspace fresh n >> (create_slot_dir fresh >> pure (slot n))) v
        w r h in
    let v1 : Volume = (allocate_project_id v).1 in
    let small = allocate-small v v1 n (ap (λ x. (x, v1)) got) in
    let (_, rec, rest') =
      bind_parts (record_slot namespace workspace fresh n)
        (λ _. create_slot_dir fresh >> pure (slot n)) v1 w r rest in
    let v2 : Volume = (record_slot namespace workspace fresh n v1).1 in
    let (number, link, digits, body, files, _) =
      recorded_files namespace workspace fresh n v1 v2 (ap (λ x. (x, v2)) rec) in
    let (_, made, last) = bind_parts (create_slot_dir fresh) (λ _. pure (slot n)) v2 w r rest' in
    let v3 : Volume = (create_slot_dir fresh v2).1 in
    let (kept, slots) =
      attempt-ok "creating slot dir"
        (λ u. record u {
          slots = if has_slot fresh.as_str u.slots then u.slots else fresh.as_str ∷ u.slots;
        })
        v2 v3 (ap (λ x. (x, v3)) made) in
    let same_slot : slot n ≡ r = cc (ap (λ x. x.0) last) in
    let all_files = kept ∙ files in
    let link_path = workspace_link namespace workspace in
    let number_path = project_id_path fresh in
    let has : HasSlot namespace workspace fresh n v3 = record {
      link = link;
      linked =
          ap (get_file link_path) all_files
          ∙ get-put_same link_path link (put_file number_path number v1.files);
      body = body;
      number = number;
      numbered =
          ap (get_file number_path) all_files
          ∙ get-put_other link_path number_path link (put_file number_path number v1.files)
              (link-apart namespace workspace fresh)
          ∙ get-put_same number_path number v1.files;
      digits = digits;
      dir = ap (has_slot fresh.as_str) slots ∙ has_created fresh.as_str v2.slots;
    } in
    (
      ap (λ x. x.id) (sym same_slot),
      subst (λ x. x.project_id < 2 ^ 32) same_slot small,
      subst₂ (λ x u. HasSlot namespace workspace x.id x.project_id u) same_slot (ap (λ x. x.1) last)
          has,
    )
