-- ===== src/Agent/Store/Slots/Resolve.antt =====
-- A slot that was resolved is found again.
use kubimo.Agent.Store.Slots.Created.{lookup-HasSlot, create-HasSlot}
use kubimo.Agent.Store.Slots.Absent.{read_slot_id-Quiet}
use kubimo.Common.{◌≡◌, refl, sym, ap, ◌∙◌, true, false, Bool, Option, none, some}
use mathlib.Core.Path.{subst, subst₂}
use kubimo.Common.Result.{ok}
use kubimo.Common.Text.{Text, codes_partial_eq}
use kubimo.Agent.Slot.{SlotId, parse}
use kubimo.Agent.Volume.{Volume, has_slot, read, pure, ◌>>=◌}
use kubimo.Agent.Volume.Laws.{bind_parts, bind-ok, Quiet, bind-Quiet}
use kubimo.Agent.Store.Names.{validate_names, workspace_link, project_id_path}
use kubimo.Agent.Store.Slots.{
  ResolvedSlot, lookup_slot_id, read_project_id, resolve_found, lookup_id, lookup, existing_or_new,
  resolve_or_create,
}

validate_names-Quiet : (namespace workspace : Text) → Quiet (validate_names namespace workspace)
unfolding validate_names
validate_names-Quiet namespace workspace v = refl

resolve_found-Quiet :
    (workspace : Text) (id : SlotId) (d : Bool) → Quiet (resolve_found workspace id d)
unfolding resolve_found read_project_id read
resolve_found-Quiet workspace id false = λ v. refl
resolve_found-Quiet workspace id true =
    bind-Quiet (read_project_id workspace id) _
      (bind-Quiet (read "reading project id" (project_id_path id)) _ (λ _. refl) (λ _ _. refl))
      (λ _ _. refl)

lookup_id-Quiet : (workspace : Text) (found : Option SlotId) → Quiet (lookup_id workspace found)
unfolding lookup_id
lookup_id-Quiet workspace none v = refl
lookup_id-Quiet workspace (some id) v =
    resolve_found-Quiet workspace id (has_slot id.as_str v.slots) v

-- A lookup changes nothing on the volume, whether it succeeds or fails.
pub lookup-Quiet : (namespace workspace : Text) → Quiet (lookup namespace workspace)
unfolding lookup lookup_slot_id
lookup-Quiet namespace workspace =
    bind-Quiet (validate_names namespace workspace) _ (validate_names-Quiet namespace workspace)
      (λ _.
        bind-Quiet (lookup_slot_id namespace workspace) _
          (read_slot_id-Quiet (workspace_link namespace workspace) workspace)
          (lookup_id-Quiet workspace))

resolve_found-some :
    (workspace : Text) (id : SlotId) (d : Bool) (v w : Volume) (r : ResolvedSlot)
    → resolve_found workspace id d v ≡ (ok (some r), w)
    → r.created ≡ false
unfolding resolve_found
resolve_found-some workspace id false v w r h = absurd (cc (ap (λ x. x.0) h))
resolve_found-some workspace id true v w r h =
    let (n, _, last) =
      bind_parts (read_project_id workspace id)
        (λ n. pure (some (record { id = id; project_id = n; created = false }))) v w (some r) h in
    let same : record { id = id; project_id = n; created = false } ≡ r = cc (ap (λ x. x.0) last) in
    ap (λ x. x.created) (sym same)

lookup_id-some :
    (workspace : Text) (found : Option SlotId) (v w : Volume) (r : ResolvedSlot)
    → lookup_id workspace found v ≡ (ok (some r), w)
    → r.created ≡ false
unfolding lookup_id
lookup_id-some workspace none v w r h = absurd (cc (ap (λ x. x.0) h))
lookup_id-some workspace (some id) v w r h =
    resolve_found-some workspace id (has_slot id.as_str v.slots) v w r h

lookup-existing :
    (namespace workspace : Text) (v w : Volume) (r : ResolvedSlot)
    → lookup namespace workspace v ≡ (ok (some r), w)
    → r.created ≡ false
unfolding lookup validate_names
lookup-existing namespace workspace v w r h =
    let (_, _, rest) =
      bind_parts (validate_names namespace workspace)
        (λ _. lookup_slot_id namespace workspace >>= lookup_id workspace) v w (some r) h in
    let (found, _, last) =
      bind_parts (lookup_slot_id namespace workspace) (lookup_id workspace) v w (some r) rest in
    lookup_id-some workspace found (lookup_slot_id namespace workspace v).1 w r last

resolved :
    (fresh : SlotId) (namespace workspace : Text) (existing : Option ResolvedSlot) (v w : Volume)
    (r : ResolvedSlot)
    → parse fresh.as_str ≡ ok fresh
    → (validate_names namespace workspace w ≡ (ok tt, w))
    → lookup namespace workspace v ≡ (ok existing, v)
    → existing_or_new fresh namespace workspace existing v ≡ (ok r, w)
    → lookup namespace workspace w ≡ (ok (some (record r { created = false })), w)
unfolding existing_or_new
resolved fresh namespace workspace (some slot) v w r p valid found h =
    let same_slot : slot ≡ r = cc (ap (λ x. x.0) h) in
    let same : v ≡ w = ap (λ x. x.1) h in
    let old : slot.created ≡ false = lookup-existing namespace workspace v v slot found in
    subst₂ (λ x u. lookup namespace workspace u ≡ (ok (some (record x { created = false })), u))
      same_slot same (found ∙ ap (λ c. (ok (some (record slot { created = c })), v)) old)
resolved fresh namespace workspace none v w r p valid found h =
    let (id, small, has) = create-HasSlot fresh namespace workspace v w r h in
    lookup-HasSlot namespace workspace r.id r.project_id w
      (subst (λ i. parse i.as_str ≡ ok i) (sym id) p) small valid has

-- After a resolution that succeeds, with a fresh id that the parser accepts, a lookup of the
-- workspace gives the slot that was resolved, as one that was not created by it.
pub lookup-resolve_or_create :
    (fresh : SlotId) (namespace workspace : Text) (v w : Volume) (r : ResolvedSlot)
    → parse fresh.as_str ≡ ok fresh
    → resolve_or_create fresh namespace workspace v ≡ (ok r, w)
    → lookup namespace workspace w ≡ (ok (some (record r { created = false })), w)
unfolding resolve_or_create validate_names
lookup-resolve_or_create fresh namespace workspace v w r p h =
    let (_, valid, rest) =
      bind_parts (validate_names namespace workspace)
        (λ _. lookup namespace workspace >>= existing_or_new fresh namespace workspace) v w r h in
    let (existing, found, last) =
      bind_parts (lookup namespace workspace) (existing_or_new fresh namespace workspace) v w r
        rest in
    let same = lookup-Quiet namespace workspace v in
    resolved fresh namespace workspace existing v w r p (ap (λ x. (x, w)) valid)
      (ap (λ x. (x, (lookup namespace workspace v).1)) found ∙ ap (λ u. (ok existing, u)) same)
      (subst (λ u. existing_or_new fresh namespace workspace existing u ≡ (ok r, w)) same last)

given :
    (fresh : SlotId) (namespace workspace : Text) (slot : ResolvedSlot) (v : Volume)
    → existing_or_new fresh namespace workspace (some slot) v ≡ (ok slot, v)
unfolding existing_or_new
given fresh namespace workspace slot v = refl

-- A slot that is found is what a resolution gives, and nothing is changed.
pub resolve_or_create-existing :
    (fresh : SlotId) (namespace workspace : Text) (v : Volume) (slot : ResolvedSlot)
    → (lookup namespace workspace v).0 ≡ ok (some slot)
    → (resolve_or_create fresh namespace workspace v ≡ (ok slot, v)) × (slot.created ≡ false)
unfolding resolve_or_create validate_names lookup
resolve_or_create-existing fresh namespace workspace v slot h =
    let quiet = lookup-Quiet namespace workspace v in
    let found : lookup namespace workspace v ≡ (ok (some slot), v) = λ i. (h i, quiet i) in
    let (_, valid, _) =
      bind_parts (validate_names namespace workspace)
        (λ _. lookup_slot_id namespace workspace >>= lookup_id workspace) v v (some slot) found in
    let start =
      bind-ok (validate_names namespace workspace)
        (λ _. lookup namespace workspace >>= existing_or_new fresh namespace workspace) v v tt
        (ap (λ x. (x, v)) valid) in
    (
      start
          ∙ bind-ok (lookup namespace workspace) (existing_or_new fresh namespace workspace) v v
              (some slot) found
          ∙ given fresh namespace workspace slot v,
      lookup-existing namespace workspace v v slot found,
    )
