-- ===== src/Agent/Store/Slots/Absent.antt =====
-- When a workspace has no slot: agent/src/store.rs.
use kubimo.Common.{false, ◌≡◌, refl, ap, ◌∙◌, Option, none, some}
use kubimo.Common.Result.{Result, ok, err}
use kubimo.Common.Text.{Text}
use kubimo.Agent.Slot.{SlotId}
use kubimo.Agent.Volume.{
  File, Volume, StoreError, get_file, Store, has_slot, continue, read_file, read_content, read_opt,
  lift, pure, ◌>>=◌,
}
use kubimo.Agent.Volume.Laws.{bind-ok, Quiet, bind-Quiet}
use kubimo.Agent.Store.Names.{validate_names}
use kubimo.Agent.Store.Slots.{
  parse_link, slot_id_in, read_slot_id, lookup_slot_id, resolve_found, lookup_id, lookup,
}

given-same :
    {A : Type 0} (r : Result StoreError A) (v w : Volume)
    → (continue r (λ a. pure (some a)) w).0 ≡ (continue r (λ a. pure (some a)) v).0
given-same (ok a) v w = refl
given-same (err e) v w = refl

slot_id_in-same :
    (workspace : Text) (found : Option Text) (v w : Volume)
    → (slot_id_in workspace found w).0 ≡ (slot_id_in workspace found v).0
unfolding slot_id_in
slot_id_in-same workspace none v w = refl
slot_id_in-same workspace (some raw) v w = given-same (parse_link workspace raw) v w

then-same :
    {A B : Type 0} (r : Result StoreError A) (f : A → Store B) (v w : Volume)
    → ((a : A) → (f a w).0 ≡ (f a v).0)
    → (continue r f w).0 ≡ (continue r f v).0
then-same (ok a) f v w h = h a
then-same (err e) f v w h = refl

-- What a link says depends on its file alone.
pub read_slot_id-same :
    (link workspace : Text) (v w : Volume)
    → get_file link w.files ≡ get_file link v.files
    → (read_slot_id link workspace w).0 ≡ (read_slot_id link workspace v).0
unfolding read_slot_id read_opt
read_slot_id-same link workspace v w e =
    ap (λ o. (continue (read_file "reading slot link" o) (slot_id_in workspace) w).0) e
    ∙ then-same (read_file "reading slot link" (get_file link v.files)) (slot_id_in workspace) v w
        (λ found. slot_id_in-same workspace found v w)

slot_id_in-none :
    (workspace : Text) (found : Option Text) (v : Volume)
    → (slot_id_in workspace found v).0 ≡ ok none
    → found ≡ none
unfolding slot_id_in
slot_id_in-none workspace none v h = refl
slot_id_in-none workspace (some raw) v h = absurd (never (parse_link workspace raw) h)
  where
    never : (r : Result StoreError SlotId) → (continue r (λ a. pure (some a)) v).0 ≡ ok none → ⊥
    never (ok a) h = cc
    never (err e) h = cc

read_none :
    (link workspace : Text) (o : Option File) (v : Volume)
    → (continue (read_file "reading slot link" o) (slot_id_in workspace) v).0 ≡ ok none
    → o ≡ none
unfolding read_file read_content
read_none link workspace none v h = refl
read_none link workspace (some f) v h = absurd (never f.content h)
  where
    never :
        (c : Option Text)
        → (continue (read_content "reading slot link" c) (slot_id_in workspace) v).0 ≡ ok none
        → ⊥
    never none h = cc
    never (some raw) h = cc (slot_id_in-none workspace (some raw) v h)

-- A link says nothing only if it is not there.
pub read_slot_id-none :
    (link workspace : Text) (v : Volume)
    → (read_slot_id link workspace v).0 ≡ ok none
    → get_file link v.files ≡ none
unfolding read_slot_id read_opt
read_slot_id-none link workspace v h = read_none link workspace (get_file link v.files) v h

pub missing-none :
    (link workspace : Text) (v : Volume)
    → get_file link v.files ≡ none
    → (read_slot_id link workspace v).0 ≡ ok none
unfolding read_slot_id read_opt read_file slot_id_in
missing-none link workspace v h = rw h refl

slot_id_in-Quiet : (workspace : Text) (found : Option Text) → Quiet (slot_id_in workspace found)
unfolding slot_id_in
slot_id_in-Quiet workspace none = λ v. refl
slot_id_in-Quiet workspace (some raw) =
    bind-Quiet (lift (parse_link workspace raw)) _ (λ _. refl) (λ _ _. refl)

pub read_slot_id-Quiet : (link workspace : Text) → Quiet (read_slot_id link workspace)
unfolding read_slot_id read_opt
read_slot_id-Quiet link workspace =
    bind-Quiet (read_opt "reading slot link" link) _ (λ _. refl) (slot_id_in-Quiet workspace)

module _ (namespace workspace : Text) (v : Volume)
    (valid : validate_names namespace workspace v ≡ (ok tt, v)) where
  in_lookup :
      (found : Option SlotId)
      → lookup_slot_id namespace workspace v ≡ (ok found, v)
      → lookup namespace workspace v ≡ lookup_id workspace found v
  unfolding lookup
  in_lookup found e =
      bind-ok (validate_names namespace workspace)
        (λ _. lookup_slot_id namespace workspace >>= lookup_id workspace) v v tt valid
      ∙ bind-ok (lookup_slot_id namespace workspace) (lookup_id workspace) v v found e

  -- No slot is found without a link, nor by a link to no directory.
  pub lookup-unlinked :
      lookup_slot_id namespace workspace v ≡ (ok none, v)
      → (lookup namespace workspace v).0 ≡ ok none
  unfolding lookup_id
  lookup-unlinked e = ap (λ x. x.0) (in_lookup none e)

  pub lookup-no_dir :
      (id : SlotId)
      → lookup_slot_id namespace workspace v ≡ (ok (some id), v)
      → has_slot id.as_str v.slots ≡ false
      → (lookup namespace workspace v).0 ≡ ok none
  unfolding lookup_id resolve_found
  lookup-no_dir id e gone = ap (λ x. x.0) (in_lookup (some id) e) ∙ rw gone refl
