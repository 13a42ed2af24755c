-- ===== src/Agent/Csi/Provision.antt =====
-- How the slot of a published workspace comes to be: agent/src/csi.rs.
pub mod Failing
pub mod Kept
pub mod Discarded
use Prim.Native.String.{◌++◌ as append}
use kubimo.Common.{
  ℕ, String, Bool, true, false, not, ◌&&◌, ◌||◌, Option, none, some, List, is_some, is_some_and,
  and_then, if◌then◌else◌, ◌==◌, text_partial_eq,
}
use kubimo.Common.Result.{Result, ok, err}
use kubimo.Common.Text.{Text}
use kubimo.Api.Workspace.{Workspace, values}
use kubimo.Agent.Slot.{SlotId}
use kubimo.Agent.Volume.{Volume, StoreError}
use kubimo.Agent.Store.Publish.{is_published}
use kubimo.Agent.Store.Slots.{ResolvedSlot, resolve_or_create, flushed_ago}
use kubimo.Agent.Store.Reclaim.{remove_slot}
use kubimo.Agent.Reaper.{is_superseded}
use kubimo.Agent.Csi.Node.{
  Status, failed_precondition, internal, S3Client, ArchiveLocation, SeedArchive, Action,
  assign_project, set_project_limit, set_permissions, chown, chown_tree, seed_from_template,
  hydrate_slot, Config, State, Answers, Handler, pure, fail, lift, gets, stored, store, try_act,
  act, internally, s3_for, ◌>>=◌, ◌>>◌,
}

module _ (config : Config) (world : Answers) where
  unfoldable pub unquotaed_refusal : Status
  unquotaed_refusal = failed_precondition (
      append config.root
        " is not mounted with project-quota enforcement (`prjquota`), so slots would have no capacity limit. Mount the data volume with `prjquota`, or pass --allow-unquotaed-slots to accept unlimited slots.")

  limited : SlotId → ℕ → ℕ → Bool → Handler (Unit {0})
  unfolding unquotaed_refusal
  limited id project_id limit_bytes true = do
    act world "assigning project: " (assign_project id project_id)
    act world "setting quota: " (set_project_limit project_id limit_bytes)
    pure tt
  limited id project_id limit_bytes false =
      if config.allow_unquotaed_slots then pure tt else fail unquotaed_refusal

  unfoldable pub provision_slot_basics : SlotId → ℕ → ℕ → Bool → Option Text → Handler (Unit {0})
  unfolding limited
  provision_slot_basics id project_id limit_bytes quotas_enforced python_runtime = do
    limited id project_id limit_bytes quotas_enforced
    act world "setting slot permissions: " (set_permissions id)
    act world "chowning slot: " (chown id)
    try_act world (seed_from_template id python_runtime)
    pure tt

  from_archive : SlotId → Option ArchiveLocation → S3Client → Handler Bool
  from_archive id none s3 = pure false
  from_archive id (some archive) s3 =
      act world "hydrating slot: " (hydrate_slot id archive s3 values)

  from_seed : SlotId → Option SeedArchive → S3Client → Bool → Handler Bool
  from_seed id _ s3 true = pure true
  from_seed id none s3 false = pure false
  from_seed id (some seed) s3 false =
      act world "seeding slot: " (hydrate_slot id seed.location s3 seed.secrets)

  unfoldable pub hydrate_new_slot :
      SlotId → Option ArchiveLocation → Option SeedArchive → Option S3Client → Handler Bool
  unfolding from_archive from_seed
  hydrate_new_slot id archive seed none = pure false
  hydrate_new_slot id archive seed (some s3) = do
    restored ← from_archive id archive s3
    from_seed id seed s3 restored

  owned : SlotId → Bool → Handler (Unit {0})
  owned id false = pure tt
  owned id true = do act world "chowning hydrated slot: " (chown_tree id); pure tt

  unfoldable pub provision_new_slot :
      Text
      → Text
      → ResolvedSlot
      → ℕ
      → Bool
      → Option ArchiveLocation
      → Option SeedArchive
      → Option Text
      → Handler (Unit {0})
  unfolding provision_slot_basics hydrate_new_slot owned
  provision_new_slot namespace workspace resolved limit_bytes quotas_enforced archive seed runtime =
      do
        provision_slot_basics resolved.id resolved.project_id limit_bytes quotas_enforced runtime
        s3 ← gets (λ s. s3_for config s namespace workspace)
        restored ← hydrate_new_slot resolved.id archive seed s3
        owned resolved.id restored

  elsewhere : Result String (Option Workspace) → Bool
  elsewhere (err _) = false
  elsewhere (ok none) = false
  elsewhere (ok (some found)) = is_superseded config.node_id found

  is_flushed : Result StoreError (Option ℕ) → Bool
  is_flushed (err _) = false
  is_flushed (ok flushed) = is_some flushed

  unfoldable pub slot_is_superseded : Text → Text → Volume → Bool
  unfolding elsewhere is_flushed
  slot_is_superseded namespace workspace v =
      is_flushed (flushed_ago namespace workspace v).0
      && world.has_client namespace
      && elsewhere (world.workspace namespace workspace)

  -- A state of publishing that cannot be read counts as published.
  published_here : Result StoreError Bool → Bool
  published_here (err _) = true
  published_here (ok published) = published

  replace : Text → Text → ResolvedSlot → Bool → Handler ResolvedSlot
  replace namespace workspace resolved true = pure resolved
  replace namespace workspace resolved false = do
    store world "dropping superseded slot: " (remove_slot namespace workspace)
    store world "resolving slot: " (resolve_or_create (world.fresh true) namespace workspace)

  unless_superseded : Text → Text → ResolvedSlot → Bool → Handler ResolvedSlot
  unfolding replace published_here
  unless_superseded namespace workspace resolved false = pure resolved
  unless_superseded namespace workspace resolved true = do
    published ← stored (is_published namespace workspace)
    replace namespace workspace resolved (published_here published)

  unfoldable pub resolve : Text → Text → Handler ResolvedSlot
  unfolding unless_superseded slot_is_superseded
  resolve namespace workspace = do
    resolved ←
        store world "resolving slot: " (resolve_or_create (world.fresh false) namespace workspace)
    superseded ← gets (λ s. not resolved.created && slot_is_superseded namespace workspace s.volume)
    unless_superseded namespace workspace resolved superseded

  -- A new slot that fails is dropped, and its failure is the result.
  unfoldable pub or_discard : Text → Text → Handler (Unit {0}) → Handler (Unit {0})
  or_discard namespace workspace m s = elim (m s).0 [
    | ok _ ↦ m s
    | err e ↦ (stored (remove_slot namespace workspace) >> fail e) (m s).1
  ]

  -- The limit is set again at each publish; without quotas a slot that is there is left alone.
  unfoldable pub refit : ℕ → ℕ → Bool → Handler (Unit {0})
  unfolding unquotaed_refusal
  refit project_id limit_bytes true = do
    act world "setting quota: " (set_project_limit project_id limit_bytes)
    pure tt
  refit project_id limit_bytes false =
      if config.allow_unquotaed_slots then pure tt else fail unquotaed_refusal

  fit :
      Text
      → Text
      → ℕ
      → Option ArchiveLocation
      → Option SeedArchive
      → Option Text
      → ResolvedSlot
      → Bool
      → Handler (Unit {0})
  unfolding or_discard provision_new_slot refit
  fit namespace workspace limit_bytes archive seed runtime resolved quotas_enforced =
      if resolved.created
      then or_discard namespace workspace (
          provision_new_slot namespace workspace resolved limit_bytes quotas_enforced archive seed
            runtime)
      else refit resolved.project_id limit_bytes quotas_enforced

  unfoldable pub prepare_slot :
      Text
      → Text
      → ℕ
      → Option ArchiveLocation
      → Option SeedArchive
      → Option Text
      → Handler ResolvedSlot
  unfolding resolve fit
  prepare_slot namespace workspace limit_bytes archive seed runtime = do
    resolved ← resolve namespace workspace
    quotas_enforced ← lift (internally (λ e. e) "checking quota support: " world.quotas_enforced)
    fit namespace workspace limit_bytes archive seed runtime resolved quotas_enforced
    pure resolved
