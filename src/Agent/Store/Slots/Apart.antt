-- ===== src/Agent/Store/Slots/Apart.antt =====
-- The slot of one workspace is left alone when one is created for another.
use kubimo.Common.{
  ℕ, ◌≡◌, ◌≢◌, ◌⊎◌, refl, sym, ap, ◌∙◌, true, false, inl, inr, List, [], ◌∷◌, ◌++◌, arith,
  Bool-cases, if◌then◌else◌,
}
use kubimo.Common.Result.{ok}
use kubimo.Common.Text.{Text, codes_partial_eq, same_text, same_text_iff}
use kubimo.Agent.Slot.{SlotId}
use kubimo.Agent.Volume.{Volume, get_file, put_file, has_slot, create_slot_dir, pure, ◌>>◌}
use kubimo.Agent.Volume.Laws.{get-put_other, bind_parts, attempt-ok}
use kubimo.Agent.Store.Names.{workspace_link, project_id_path, counter_path}
use kubimo.Agent.Store.ProjectId.{allocate_project_id}
use kubimo.Agent.Store.ProjectId.Fresh.{allocate-other}
use kubimo.Agent.Store.Slots.{ResolvedSlot, record_slot, create_slot}
use kubimo.Agent.Store.Slots.Created.{HasSlot, recorded_files, link-apart}

-- A namespace has no dot in it.
abbrev pub Dotless : Text → Type 0
Dotless [] = Unit
Dotless (c ∷ s) = (c ≢ b'.') × Dotless s

-- The join of a namespace and a workspace gives both back.
join-injective :
    (n n' w w' : Text)
    → Dotless n
    → Dotless n'
    → n ++ b'.' ∷ w ≡ n' ++ b'.' ∷ w'
    → (n ≡ n') × (w ≡ w')
join-injective [] [] w w' d d' e = (refl, cc)
join-injective [] (c ∷ n') w w' d (ne, _) e = absurd (ne (cc))
join-injective (c ∷ n) [] w w' (ne, _) d' e = absurd (ne (cc))
join-injective (c ∷ n) (c' ∷ n') w w' (_, d) (_, d') e =
    let head : c ≡ c' = cc in
    let tail : n ++ b'.' ∷ w ≡ n' ++ b'.' ∷ w' = cc in
    let (same, rest) = join-injective n n' w w' d d' tail in (cc (head, same), rest)

-- The links of two workspaces in namespaces with no dot are the same file only if the workspaces
-- and the namespaces are the same.
pub workspace_link-injective :
    (n n' w w' : Text)
    → Dotless n
    → Dotless n'
    → workspace_link n w ≡ workspace_link n' w'
    → (n ≡ n') × (w ≡ w')
unfolding workspace_link
workspace_link-injective n n' w w' d d' e =
    let join : n ++ b'.' ∷ w ≡ n' ++ b'.' ∷ w' = cc in join-injective n n' w w' d d' join

created_dir-other :
    (id other : Text) (slots : List Text)
    → has_slot other slots ≡ true
    → has_slot other (if has_slot id slots then slots else id ∷ slots) ≡ true
created_dir-other id other slots h = elim (Bool-cases (has_slot id slots)) [
  | inl e ↦ rw (e, h)
  | inr e ↦ rw (e, h) (ground arith)
]

apart : (s t : Text) → s ≢ t → same_text s t ≡ false
apart s t ne = elim (Bool-cases (same_text s t)) [
  | inl e ↦ absurd (ne ((same_text_iff s t).0 e))
  | inr e ↦ e
]

id_path-apart :
    (id id' : SlotId)
    → id.as_str ≢ id'.as_str
    → same_text (project_id_path id) (project_id_path id') ≡ false
unfolding project_id_path
id_path-apart id id' ne = apart id.as_str id'.as_str ne

counter-id_path : (id : SlotId) → same_text counter_path (project_id_path id) ≡ false
unfolding project_id_path
counter-id_path id = refl

counter-link :
    (namespace workspace : Text)
    → same_text counter_path (workspace_link namespace workspace) ≡ false
unfolding workspace_link
counter-link namespace workspace = refl

id_path-link :
    (id : SlotId) (namespace workspace : Text)
    → same_text (project_id_path id) (workspace_link namespace workspace) ≡ false
unfolding workspace_link project_id_path
id_path-link id namespace workspace = refl

-- What a creation leaves of the files that are neither the counter nor its own, and of the slots.
create_slot-other :
    (fresh : SlotId) (namespace workspace name : Text) (v w : Volume) (r : ResolvedSlot)
    → same_text counter_path name ≡ false
    → same_text (project_id_path fresh) name ≡ false
    → same_text (workspace_link namespace workspace) name ≡ false
    → create_slot fresh namespace workspace v ≡ (ok r, w)
    → (get_file name w.files ≡ get_file name v.files)
      × (w.slots ≡ (if has_slot fresh.as_str v.slots then v.slots else fresh.as_str ∷ v.slots))
unfolding create_slot create_slot_dir
create_slot-other fresh namespace workspace name v w r c p l h =
    let slot : ℕ → ResolvedSlot = λ n. record { id = fresh; project_id = n; created = true } in
    let added : List Text → List Text =
      λ ss. if has_slot fresh.as_str ss then ss else fresh.as_str ∷ ss in
    let (n, got, rest) =
      bind_parts allocate_project_id
        (λ n. record_slot namespace workspace fresh n >> (create_slot_dir fresh >> pure (slot n))) v
        w r h in
    let v1 : Volume = (allocate_project_id v).1 in
    let (file1, slots1) = allocate-other name v v1 n c (ap (λ x. (x, v1)) got) in
    let (_, rec, rest') =
      bind_parts (record_slot namespace workspace fresh n)
        (λ _. create_slot_dir fresh >> pure (slot n)) v1 w r rest in
    let v2 : Volume = (record_slot namespace workspace fresh n v1).1 in
    let (number, link, _, _, files, slots2) =
      recorded_files namespace workspace fresh n v1 v2 (ap (λ x. (x, v2)) rec) in
    let (_, made, last) = bind_parts (create_slot_dir fresh) (λ _. pure (slot n)) v2 w r rest' in
    let v3 : Volume = (create_slot_dir fresh v2).1 in
    let (files3, slots3) =
      attempt-ok "creating slot dir" (λ u. record u { slots = added u.slots }) v2 v3
        (ap (λ x. (x, v3)) made) in
    let end : v3 ≡ w = ap (λ x. x.1) last in
    let link_path = workspace_link namespace workspace in
    (
      ap (λ u. get_file name u.files) (sym end)
          ∙ ap (get_file name) (files3 ∙ files)
          ∙ get-put_other link_path name link (put_file (project_id_path fresh) number v1.files) l
          ∙ get-put_other (project_id_path fresh) name number v1.files p
          ∙ file1,
      ap (λ u. u.slots) (sym end) ∙ slots3 ∙ ap added (slots2 ∙ slots1),
    )

-- A workspace keeps its slot, with its project id and its directory, when one is created for
-- another workspace under another slot id, as long as neither namespace has a dot in it.
pub create_slot-HasSlot :
    (fresh id : SlotId) (namespace workspace namespace' workspace' : Text) (n : ℕ) (v w : Volume)
    (r : ResolvedSlot)
    → Dotless namespace
    → Dotless namespace'
    → ((namespace ≢ namespace') ⊎ (workspace ≢ workspace'))
    → fresh.as_str ≢ id.as_str
    → HasSlot namespace' workspace' id n v
    → create_slot fresh namespace workspace v ≡ (ok r, w)
    → HasSlot namespace' workspace' id n w
create_slot-HasSlot fresh id namespace workspace namespace' workspace' n v w r d d' other ne has h =
    let different : workspace_link namespace workspace ≢ workspace_link namespace' workspace' = λ e.
      let (same, same') =
        workspace_link-injective namespace namespace' workspace workspace' d d' e in
      elim other [ inl x ↦ x same | inr y ↦ y same' ] in
    let number =
      create_slot-other fresh namespace workspace (project_id_path id) v w r (counter-id_path id)
        (id_path-apart fresh id ne) (link-apart namespace workspace id) h in
    let link =
      create_slot-other fresh namespace workspace (workspace_link namespace' workspace') v w r
        (counter-link namespace' workspace') (id_path-link fresh namespace' workspace')
        (apart (workspace_link namespace workspace) (workspace_link namespace' workspace')
          different)
        h in
    record {
      link = has.link;
      linked = link.0 ∙ has.linked;
      body = has.body;
      number = has.number;
      numbered = number.0 ∙ has.numbered;
      digits = has.digits;
      dir =
          ap (has_slot id.as_str) number.1
          ∙ created_dir-other fresh.as_str id.as_str v.slots has.dir;
    }
