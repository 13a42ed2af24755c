-- ===== src/Agent/Csi/Provision/Kept.antt =====
-- A slot that is in use or that holds unsaved work is served as it is: agent/src/csi.rs.
use kubimo.Common.{
  ℕ, String, Bool, true, false, ◌&&◌, &&_iff, ◌≡◌, refl, ap, ◌⊎◌, inl, inr, Option, none, some,
  Bool-cases,
}
use kubimo.Common.Result.{Result, ok, err}
use kubimo.Common.Text.{Text}
use kubimo.Api.Workspace.{Workspace}
use kubimo.Agent.Volume.{Volume, StoreError}
use kubimo.Agent.Store.Publish.{is_published}
use kubimo.Agent.Store.Slots.{ResolvedSlot, lookup, flushed_ago}
use kubimo.Agent.Store.Slots.Resolve.{resolve_or_create-existing}
use kubimo.Agent.Reaper.{is_superseded}
use kubimo.Agent.Volume.Laws.{bind-Quiet}
use kubimo.Agent.Store.Names.{validate_names}
use kubimo.Agent.Csi.Node.{
  set_project_limit, ArchiveLocation, SeedArchive, Config, State, Answers, Handler, internally,
  lift, pure, ◌>>=◌, ◌>>◌,
}
use kubimo.Agent.Csi.Keeps.{
  Keeps, bind-Keeps, pure-Keeps, fail-Keeps, lift-Keeps, if-Keeps, act-then,
}
use kubimo.Agent.Csi.Provision.{
  unquotaed_refusal, elsewhere, is_flushed, slot_is_superseded, published_here, replace,
  unless_superseded, resolve, refit, fit, prepare_slot,
}

-- The slot's marker says that it is saved, the workspace is known to have moved to another node, and
-- no volume of it is known to be published here.
pub record Superseded (config : Config) (world : Answers) (namespace workspace : Text) (v : Volume)
    : Type 0 where
  pub age : ℕ
  pub flushed : (flushed_ago namespace workspace v).0 ≡ ok (some age)
  pub found : Workspace
  pub answered : world.workspace namespace workspace ≡ ok (some found)
  pub moved : is_superseded config.node_id found ≡ true
  pub unmounted : (is_published namespace workspace v).0 ≡ ok false

module _ (config : Config) (world : Answers) where
  flushed-some :
      (r : Result StoreError (Option ℕ))
      → is_flushed config world r ≡ true
      → (age : ℕ) × (r ≡ ok (some age))
  unfolding is_flushed
  flushed-some (ok (some age)) h = (age, refl)
  flushed-some (ok none) h = cc
  flushed-some (err e) h = cc

  elsewhere-some :
      (r : Result String (Option Workspace))
      → elsewhere config world r ≡ true
      → (found : Workspace) × (r ≡ ok (some found)) × (is_superseded config.node_id found ≡ true)
  unfolding elsewhere
  elsewhere-some (ok (some found)) h = (found, refl, h)
  elsewhere-some (ok none) h = cc
  elsewhere-some (err e) h = cc

  known : (r : Result StoreError Bool) → published_here config world r ≡ false → r ≡ ok false
  unfolding published_here
  known (ok b) h = ap ok h
  known (err e) h = cc

  superseded :
      (namespace workspace : Text) (v : Volume)
      → slot_is_superseded config world namespace workspace v ≡ true
      → (is_published namespace workspace v).0 ≡ ok false
      → Superseded config world namespace workspace v
  unfolding slot_is_superseded
  superseded namespace workspace v h out =
      let marked = is_flushed config world (flushed_ago namespace workspace v).0 in
      let (flushed, rest) =
        (&&_iff (marked && world.has_client namespace)
            (elsewhere config world (world.workspace namespace workspace))).0
          h in
      let (age, e) = flushed-some _ ((&&_iff marked (world.has_client namespace)).0 flushed).0 in
      let (found, answered, moved) = elsewhere-some _ rest in
      record {
        age = age;
        flushed = e;
        found = found;
        answered = answered;
        moved = moved;
        unmounted = out;
      }

  refit-Keeps : (n limit : ℕ) (enforced : Bool) → Keeps (refit config world n limit enforced)
  unfolding refit
  refit-Keeps n limit true = act-then world _ (set_project_limit n limit) _ (λ _. pure-Keeps tt)
  refit-Keeps n limit false =
      if-Keeps config.allow_unquotaed_slots _ _ (pure-Keeps tt)
        (fail-Keeps (unquotaed_refusal config world))

  module _ (namespace workspace : Text) (limit : ℕ) (archive : Option ArchiveLocation)
      (seed : Option SeedArchive) (runtime : Option Text) where
    prepared : ResolvedSlot → Handler ResolvedSlot
    prepared slot = do
      enforced ← lift (internally (λ e. e) "checking quota support: " world.quotas_enforced)
      fit config world namespace workspace limit archive seed runtime slot enforced
      pure slot

    prepared-Keeps : (slot : ResolvedSlot) → slot.created ≡ false → Keeps (prepared slot)
    unfolding prepared fit
    prepared-Keeps slot old =
        bind-Keeps
          (lift (internally (λ (x : String). x) "checking quota support: " world.quotas_enforced)) _
          (lift-Keeps _)
          (λ enforced.
            bind-Keeps
              (fit config world namespace workspace limit archive seed runtime slot enforced) _
              (rw old (refit-Keeps slot.project_id limit enforced)) (λ _. pure-Keeps slot))

    is_published-Quiet : (v : Volume) → (is_published namespace workspace v).1 ≡ v
    unfolding is_published validate_names
    is_published-Quiet = bind-Quiet (validate_names namespace workspace) _ (λ v. refl) (λ _ v. refl)

    resolve-cases :
        (s : State) (slot : ResolvedSlot)
        → (lookup namespace workspace s.volume).0 ≡ ok (some slot)
        → (resolve config world namespace workspace s ≡ (ok slot, s))
          ⊎ Superseded config world namespace workspace s.volume
    unfolding resolve unless_superseded replace
    resolve-cases s slot h =
        let (given, old) =
          resolve_or_create-existing (world.fresh false) namespace workspace s.volume slot h in
        elim (Bool-cases (slot_is_superseded config world namespace workspace s.volume)) [
          | inl e ↦
              elim (Bool-cases
                (published_here config world (is_published namespace workspace s.volume).0)) [
                  | inl q ↦ inl (rw (given, old, e, q, is_published-Quiet s.volume) refl)
                  | inr q ↦ inr (superseded namespace workspace s.volume e (known _ q))
                ]
          | inr e ↦ inl (rw (given, old, e) refl)
        ]

    -- Where the store finds a slot of the workspace, preparing it leaves the volume as it is, whether
    -- it succeeds or fails, unless the slot is superseded.
    pub prepare_slot-kept :
        (s : State) (slot : ResolvedSlot)
        → (lookup namespace workspace s.volume).0 ≡ ok (some slot)
        → ((prepare_slot config world namespace workspace limit archive seed runtime s).1.volume
            ≡ s.volume)
          ⊎ Superseded config world namespace workspace s.volume
    unfolding prepare_slot prepared Keeps
    prepare_slot-kept s slot h =
        let (_, old) =
          resolve_or_create-existing (world.fresh false) namespace workspace s.volume slot h in
        elim (resolve-cases s slot h) [
          | inl e ↦ inl (rw e (prepared-Keeps slot old s))
          | inr e ↦ inr e
        ]
