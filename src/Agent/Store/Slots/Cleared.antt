-- ===== src/Agent/Store/Slots/Cleared.antt =====
-- A cleared flush marker is not read again: agent/src/store.rs.
use mathlib.Core.Path.{subst}
use kubimo.Common.{
  ℕ, false, ◌≡◌, refl, sym, ap, ◌∙◌, inl, inr, Option, none, some, is_some, and_then, Bool-cases,
}
use kubimo.Common.Result.{ok}
use kubimo.Common.Text.{Text, same_text}
use kubimo.Agent.Slot.{SlotId}
use kubimo.Agent.Volume.{Volume, Store, get_file, removed, remove_opt, pure, gets, ◌>>=◌}
use kubimo.Agent.Volume.Laws.{bind_parts, bind-ok, get-drop_same, get-drop_other, attempt-ok}
use kubimo.Agent.Store.Names.{validate_names, workspace_link, flushed_path}
use kubimo.Agent.Store.Slots.{lookup_slot_id, clear_flushed, flushed_ago, age_of}
use kubimo.Agent.Store.Slots.Absent.{read_slot_id-Quiet, read_slot_id-same}

apart :
    (id : SlotId) (namespace workspace : Text)
    → same_text (flushed_path id) (workspace_link namespace workspace) ≡ false
unfolding flushed_path workspace_link
apart id namespace workspace = refl

none_of : {A : Type 0} (o : Option A) → is_some o ≡ false → o ≡ none
none_of none h = refl
none_of (some a) h = cc

-- A file that was removed is missing, and the others stay.
remove_opt-ok :
    (name other : Text) (v w : Volume)
    → same_text name other ≡ false
    → remove_opt "clearing flush marker" name v ≡ (ok tt, w)
    → (get_file name w.files ≡ none) × (get_file other w.files ≡ get_file other v.files)
unfolding remove_opt
remove_opt-ok name other v w d h = elim (Bool-cases (is_some (get_file name v.files))) [
  | inl e ↦
      let (files, _) = attempt-ok "clearing flush marker" (removed name) v w (rw e at h) in
      (
        ap (get_file name) files ∙ get-drop_same name v.files,
        ap (get_file other) files ∙ get-drop_other name other v.files d,
      )
  | inr e ↦
      let same : v ≡ w = ap (λ x. x.1) (rw e at h) in
      (
        ap (λ u. get_file name u.files) (sym same) ∙ none_of (get_file name v.files) e,
        ap (λ u. get_file other u.files) (sym same),
      )
]

module _ (namespace workspace : Text) where
  whole :
      (v : Volume) (o : Option SlotId)
      → (lookup_slot_id namespace workspace v).0 ≡ ok o
      → lookup_slot_id namespace workspace v ≡ (ok o, v)
  unfolding lookup_slot_id
  whole v o e =
      let quiet = read_slot_id-Quiet (workspace_link namespace workspace) workspace v in
      λ i. (e i, quiet i)

  age_in : Option SlotId → Store (Option ℕ)
  age_in found = elim found [
    | none ↦ pure none
    | some id ↦ gets (λ v. and_then (get_file (flushed_path id) v.files) (age_of v.clock))
  ]

  read :
      (v : Volume) (o : Option SlotId)
      → validate_names namespace workspace v ≡ (ok tt, v)
      → lookup_slot_id namespace workspace v ≡ (ok o, v)
      → flushed_ago namespace workspace v ≡ age_in o v
  unfolding flushed_ago age_in
  read v o valid e =
      bind-ok (validate_names namespace workspace)
        (λ _. lookup_slot_id namespace workspace >>= age_in) v v tt valid
      ∙ bind-ok (lookup_slot_id namespace workspace) age_in v v o e

  clear : Option SlotId → Store (Unit {0})
  clear found = elim found [
    | none ↦ pure tt
    | some id ↦ remove_opt "clearing flush marker" (flushed_path id)
  ]

  cleared :
      (o : Option SlotId) (v w : Volume)
      → validate_names namespace workspace w ≡ (ok tt, w)
      → (lookup_slot_id namespace workspace v).0 ≡ ok o
      → clear o v ≡ (ok tt, w)
      → (flushed_ago namespace workspace w).0 ≡ ok none
  unfolding clear age_in lookup_slot_id
  cleared none v w valid e h =
      let found =
        subst (λ u. (lookup_slot_id namespace workspace u).0 ≡ ok none) (ap (λ x. x.1) h) e in
      ap (λ x. x.0) (read w none valid (whole w none found))
  cleared (some id) v w valid e h =
      let link = workspace_link namespace workspace in
      let (missing, same) =
        remove_opt-ok (flushed_path id) link v w (apart id namespace workspace) h in
      let found = whole w (some id) (read_slot_id-same link workspace v w same ∙ e) in
      ap (λ x. x.0) (read w (some id) valid found)
      ∙ ap (λ o. ok (and_then o (age_of w.clock))) missing

  -- After the marker of a workspace was cleared, none is read.
  pub flushed_ago-clear_flushed :
      (v w : Volume)
      → clear_flushed namespace workspace v ≡ (ok tt, w)
      → (flushed_ago namespace workspace w).0 ≡ ok none
  unfolding clear clear_flushed validate_names lookup_slot_id
  flushed_ago-clear_flushed v w h =
      let (_, valid, rest) =
        bind_parts (validate_names namespace workspace)
          (λ _. lookup_slot_id namespace workspace >>= clear) v w tt h in
      let (o, e, last) = bind_parts (lookup_slot_id namespace workspace) clear v w tt rest in
      let quiet = read_slot_id-Quiet (workspace_link namespace workspace) workspace v in
      cleared o v w (ap (λ x. (x, w)) valid) e (subst (λ u. clear o u ≡ (ok tt, w)) quiet last)
