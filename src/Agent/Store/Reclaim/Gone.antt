-- ===== src/Agent/Store/Reclaim/Gone.antt =====
-- A slot that was dropped is not found again: agent/src/store.rs.
use kubimo.Common.{
  Bool, true, false, not, ◌≡◌, refl, sym, ap, ◌∙◌, ◌⊎◌, inl, inr, Option, none, some, List, [], ◌∷◌,
  filter, arith, ◌==◌, Bool-cases,
}
use mathlib.Core.Path.{subst}
use kubimo.Common.Result.{ok}
use kubimo.Common.Text.{Text, codes_partial_eq, same_text, same_text_iff}
use kubimo.Agent.Slot.{SlotId}
use kubimo.Agent.Volume.{
  File, Volume, get_file, drop_file, has_slot, removed, try_remove, remove_slot_dir, pure, ◌>>=◌,
  ◌>>◌,
}
use kubimo.Agent.Volume.Laws.{bind_parts, get-drop_same, get-drop_other, attempt-cases, attempt-ok}
use kubimo.Agent.Store.Names.{
  validate_names, workspace_link, legacy_link, project_id_path, flushed_path,
}
use kubimo.Agent.Store.Publish.{forget_publishes_for}
use kubimo.Agent.Store.Slots.{read_slot_id, lookup_slot_id, lookup}
use kubimo.Agent.Store.Slots.Absent.{
  read_slot_id-Quiet, read_slot_id-same, read_slot_id-none, missing-none, lookup-unlinked,
  lookup-no_dir,
}
use kubimo.Agent.Store.Reclaim.{drop_slot, remove_legacy, remove_found, remove_slot}

-- What is lost on the way from one volume to another: a file may go, a directory may go.
record Fewer (link : Text) (v w : Volume) : Type 0 where
  file : (get_file link w.files ≡ none) ⊎ (get_file link w.files ≡ get_file link v.files)
  dirs : (id : Text) → has_slot id v.slots ≡ false → has_slot id w.slots ≡ false

Fewer-refl : (link : Text) (v : Volume) → Fewer link v v
Fewer-refl link v = record { file = inr refl; dirs = λ id h. h }

Fewer-trans : (link : Text) {u v w : Volume} → Fewer link u v → Fewer link v w → Fewer link u w
Fewer-trans link a b = record {
  file = elim b.file [
    | inl gone ↦ inl gone
    | inr same ↦ elim a.file [ inl gone ↦ inl (same ∙ gone) | inr old ↦ inr (same ∙ old) ]
  ];
  dirs = λ id h. b.dirs id (a.dirs id h);
}

drop-cases :
    (name link : Text) (fs : List (Text × File))
    → (get_file link (drop_file name fs) ≡ none)
      ⊎ (get_file link (drop_file name fs) ≡ get_file link fs)
drop-cases name link fs = elim (Bool-cases (same_text name link)) [
  | inl e ↦
      let same = (same_text_iff name link).0 e in
      inl (ap (λ n. get_file n (drop_file name fs)) (sym same) ∙ get-drop_same name fs)
  | inr e ↦ inr (get-drop_other name link fs e)
]

try_remove-Fewer : (link name : Text) (v : Volume) → Fewer link v (try_remove name v).1
unfolding try_remove
try_remove-Fewer link name v = elim (attempt-cases "removing a file" (removed name) v) [
  | inl (files, slots) ↦ record {
    file = elim (drop-cases name link v.files) [
      | inl gone ↦ inl (ap (get_file link) files ∙ gone)
      | inr same ↦ inr (ap (get_file link) files ∙ same)
    ];
    dirs = λ id h. ap (has_slot id) slots ∙ h;
  }
  | inr (files, slots) ↦ record {
    file = inr (ap (get_file link) files);
    dirs = λ id h. ap (has_slot id) slots ∙ h;
  }
]

has-filter_other :
    (id other : Text) (slots : List Text)
    → has_slot id slots ≡ false
    → has_slot id (filter (λ s. not (s == other)) slots) ≡ false
has-filter_other id other [] h = refl
has-filter_other id other (s ∷ slots) h = ground (arith, has-filter_other id other slots)

has-filter_same :
    (id : Text) (slots : List Text) → has_slot id (filter (λ s. not (s == id)) slots) ≡ false
has-filter_same id [] = refl
has-filter_same id (s ∷ slots) = ground (arith, has-filter_same id slots)

remove_dir-Fewer :
    (link : Text) (id : SlotId) (v w : Volume)
    → remove_slot_dir id v ≡ (ok tt, w)
    → Fewer link v w × (has_slot id.as_str w.slots ≡ false)
unfolding remove_slot_dir
remove_dir-Fewer link id v w h = elim (Bool-cases (has_slot id.as_str v.slots)) [
  | inl e ↦
      let (files, slots) =
        attempt-ok "removing slot dir"
          (λ u. record u { slots = filter (λ s. not (s == id.as_str)) u.slots }) v w (rw e at h) in
      (
        record {
          file = inr (ap (get_file link) files);
          dirs = λ other q. ap (has_slot other) slots ∙ has-filter_other other id.as_str v.slots q;
        },
        ap (has_slot id.as_str) slots ∙ has-filter_same id.as_str v.slots,
      )
  | inr e ↦
      let same : v ≡ w = ap (λ x. x.1) (rw e at h) in
      (
        subst (Fewer link v) same (Fewer-refl link v),
        ap (λ u. has_slot id.as_str u.slots) (sym same) ∙ e,
      )
]

-- The files that go with a slot's directory.
drop_slot-Fewer :
    (link other : Text) (id : SlotId) (v w : Volume) (b : Bool)
    → drop_slot other id v ≡ (ok b, w)
    → Fewer link v w × (has_slot id.as_str w.slots ≡ false)
unfolding drop_slot try_remove
drop_slot-Fewer link other id v w b h =
    let (_, gone, rest) =
      bind_parts (remove_slot_dir id)
        (λ _. do
          try_remove other
          try_remove (project_id_path id)
          try_remove (flushed_path id)
          pure true)
        v w b h in
    let v1 = (remove_slot_dir id v).1 in
    let (first, absent) = remove_dir-Fewer link id v v1 (λ i. (gone i, v1)) in
    let v2 = (try_remove other v1).1 in
    let v3 = (try_remove (project_id_path id) v2).1 in
    let v4 = (try_remove (flushed_path id) v3).1 in
    let later : Fewer link v1 v4 = Fewer-trans link (try_remove-Fewer link other v1) (
      Fewer-trans link (try_remove-Fewer link (project_id_path id) v2)
        (try_remove-Fewer link (flushed_path id) v3)) in
    let same : v4 ≡ w = ap (λ x. x.1) rest in
    (
      subst (Fewer link v) same (Fewer-trans link first later),
      ap (λ u. has_slot id.as_str u.slots) (sym same) ∙ later.dirs id.as_str absent,
    )

remove_legacy-Fewer :
    (link namespace workspace : Text) (found : Option SlotId) (v w : Volume) (b : Bool)
    → remove_legacy namespace workspace found v ≡ (ok b, w)
    → Fewer link v w
unfolding remove_legacy try_remove
remove_legacy-Fewer link namespace workspace (some id) v w b h =
    (drop_slot-Fewer link (legacy_link workspace) id v w b h).0
remove_legacy-Fewer link namespace workspace none v w b h =
    let v1 = (try_remove (workspace_link namespace workspace) v).1 in
    subst (Fewer link v) (ap (λ x. x.1) h) (
      Fewer-trans link (try_remove-Fewer link (workspace_link namespace workspace) v)
        (try_remove-Fewer link (legacy_link workspace) v1))

module _ (namespace workspace : Text) where
  whole :
      (v : Volume) (o : Option SlotId)
      → (lookup_slot_id namespace workspace v).0 ≡ ok o
      → lookup_slot_id namespace workspace v ≡ (ok o, v)
  unfolding lookup_slot_id
  whole v o e =
      let quiet = read_slot_id-Quiet (workspace_link namespace workspace) workspace v in
      λ i. (e i, quiet i)

  gone :
      (found : Option SlotId) (v w : Volume) (b : Bool)
      → validate_names namespace workspace w ≡ (ok tt, w)
      → (lookup_slot_id namespace workspace v).0 ≡ ok found
      → remove_found namespace workspace found v ≡ (ok b, w)
      → (lookup namespace workspace w).0 ≡ ok none
  unfolding remove_found lookup_slot_id
  gone (some id) v w b valid e h =
      let (fewer, absent) = drop_slot-Fewer (workspace_link namespace workspace) _ id v w b h in
      elim fewer.file [
        | inl missing ↦
            lookup-unlinked namespace workspace w valid
              (whole w none (missing-none (workspace_link namespace workspace) workspace w missing))
        | inr same ↦
            lookup-no_dir namespace workspace w valid id
              (whole w (some id)
                (read_slot_id-same (workspace_link namespace workspace) workspace v w same ∙ e))
              absent
      ]
  gone none v w b valid e h =
      let link = workspace_link namespace workspace in
      let unlinked = read_slot_id-none link workspace v e in
      let (legacy, _, rest) =
        bind_parts (read_slot_id (legacy_link workspace) workspace)
          (remove_legacy namespace workspace) v w b h in
      let fewer = remove_legacy-Fewer link namespace workspace legacy _ w b rest in
      let quiet = read_slot_id-Quiet (legacy_link workspace) workspace v in
      let missing : get_file link w.files ≡ none = elim fewer.file [
        | inl missing ↦ missing
        | inr same ↦ same ∙ ap (λ u. get_file link u.files) quiet ∙ unlinked
      ] in
      lookup-unlinked namespace workspace w valid
        (whole w none (missing-none link workspace w missing))

  -- After a removal that succeeds there is no slot of the workspace to be found.
  pub lookup-remove_slot :
      (v w : Volume) (b : Bool)
      → remove_slot namespace workspace v ≡ (ok b, w)
      → (lookup namespace workspace w).0 ≡ ok none
  unfolding remove_slot validate_names lookup_slot_id
  lookup-remove_slot v w b h =
      let (_, valid, rest) =
        bind_parts (validate_names namespace workspace)
          (λ _. do
            forget_publishes_for namespace workspace
            found ← lookup_slot_id namespace workspace
            remove_found namespace workspace found)
          v w b h in
      let (_, _, last) =
        bind_parts (forget_publishes_for namespace workspace)
          (λ _. lookup_slot_id namespace workspace >>= remove_found namespace workspace) v w b
          rest in
      let v1 = (forget_publishes_for namespace workspace v).1 in
      let (found, e, removal) =
        bind_parts (lookup_slot_id namespace workspace) (remove_found namespace workspace) v1 w b
          last in
      gone found v1 w b (ap (λ x. (x, w)) valid) e (
        subst (λ u. remove_found namespace workspace found u ≡ (ok b, w))
          (read_slot_id-Quiet (workspace_link namespace workspace) workspace v1) removal)
