-- ===== src/Agent/Csi/Provision/Failing.antt =====
-- The slot of a workspace fails to be prepared by a failure of the work alone: agent/src/csi.rs.
use kubimo.Common.{
  not, ◌&&◌, ℕ, String, Bool, true, false, ◌≡◌, ◌∙◌, sym, refl, Option, none, some, inl, inr,
}
use kubimo.Common.Result.{Result-cases}
use kubimo.Common.Text.{Text}
use kubimo.Agent.Slot.{SlotId}
use kubimo.Agent.Store.Publish.{is_published}
use kubimo.Agent.Store.Slots.{ResolvedSlot, resolve_or_create}
use kubimo.Agent.Store.Reclaim.{remove_slot}
use kubimo.Agent.Csi.Node.{
  S3Client, ArchiveLocation, SeedArchive, assign_project, set_project_limit, set_permissions, chown,
  Config, State, Answers, Handler, lift, internally, store, seed_from_template, chown_tree, s3_for,
}
use kubimo.Agent.Csi.Late.{
  IsLate, Late, bind-Late, pure-Late, fail-Late, act-Late, store-Late, checked-Late, act-then,
  if-Late, try-then, gets-then, stored-then,
}
use kubimo.Agent.Csi.Provision.{
  limited, provision_slot_basics, from_archive, from_seed, hydrate_new_slot, owned,
  provision_new_slot, replace, unless_superseded, resolve, or_discard, refit, fit, prepare_slot,
  unquotaed_refusal, published_here, slot_is_superseded,
}

module _ (config : Config) (world : Answers) where
  refusal-IsLate : IsLate (unquotaed_refusal config world)
  unfolding unquotaed_refusal
  refusal-IsLate = tt

  limited-Late :
      (id : SlotId) (n limit : ℕ) (enforced : Bool)
      → Late (limited config world id n limit enforced)
  unfolding limited
  limited-Late id n limit true =
      act-then world _ (assign_project id n) _
        (λ _. act-then world _ (set_project_limit n limit) _ (λ _. pure-Late tt))
  limited-Late id n limit false =
      if-Late config.allow_unquotaed_slots _ _ (pure-Late tt) (fail-Late _ refusal-IsLate)

  pub basics-Late :
      (id : SlotId) (n limit : ℕ) (enforced : Bool) (runtime : Option Text)
      → Late (provision_slot_basics config world id n limit enforced runtime)
  unfolding provision_slot_basics
  basics-Late id n limit enforced runtime =
      bind-Late (limited config world id n limit enforced) _ (limited-Late id n limit enforced)
        (λ _. act-then world _ (set_permissions id) _ (λ _.
          act-then world _ (chown id) _
            (λ _. try-then world (seed_from_template id runtime) _ (λ _. pure-Late tt))))

  pub refit-Late : (n limit : ℕ) (enforced : Bool) → Late (refit config world n limit enforced)
  unfolding refit
  refit-Late n limit true = act-then world _ (set_project_limit n limit) _ (λ _. pure-Late tt)
  refit-Late n limit false =
      if-Late config.allow_unquotaed_slots _ _ (pure-Late tt) (fail-Late _ refusal-IsLate)

  from_archive-Late :
      (id : SlotId) (archive : Option ArchiveLocation) (s3 : S3Client)
      → Late (from_archive config world id archive s3)
  unfolding from_archive
  from_archive-Late id none s3 = pure-Late false
  from_archive-Late id (some archive) s3 = act-Late world _ _

  from_seed-Late :
      (id : SlotId) (seed : Option SeedArchive) (s3 : S3Client) (restored : Bool)
      → Late (from_seed config world id seed s3 restored)
  unfolding from_seed
  from_seed-Late id none s3 true = pure-Late true
  from_seed-Late id (some seed) s3 true = pure-Late true
  from_seed-Late id none s3 false = pure-Late false
  from_seed-Late id (some seed) s3 false = act-Late world _ _

  hydrate-Late :
      (id : SlotId) (archive : Option ArchiveLocation) (seed : Option SeedArchive)
      (s3 : Option S3Client)
      → Late (hydrate_new_slot config world id archive seed s3)
  unfolding hydrate_new_slot
  hydrate-Late id archive seed none = pure-Late false
  hydrate-Late id archive seed (some s3) =
      bind-Late (from_archive config world id archive s3) _ (from_archive-Late id archive s3)
        (from_seed-Late id seed s3)

  owned-Late : (id : SlotId) (restored : Bool) → Late (owned config world id restored)
  unfolding owned
  owned-Late id false = pure-Late tt
  owned-Late id true = act-then world _ (chown_tree id) _ (λ _. pure-Late tt)

  provision-Late :
      (namespace workspace : Text) (resolved : ResolvedSlot) (limit : ℕ) (enforced : Bool)
      (archive : Option ArchiveLocation) (seed : Option SeedArchive) (runtime : Option Text)
      → Late (
          provision_new_slot config world namespace workspace resolved limit enforced archive seed
            runtime)
  unfolding provision_new_slot
  provision-Late namespace workspace resolved limit enforced archive seed runtime =
      bind-Late
        (provision_slot_basics config world resolved.id resolved.project_id limit enforced runtime)
        _ (basics-Late resolved.id resolved.project_id limit enforced runtime)
        (λ _.
          gets-then (λ s. s3_for config s namespace workspace) _
            (λ s3.
              bind-Late (hydrate_new_slot config world resolved.id archive seed s3) _
                (hydrate-Late resolved.id archive seed s3) (owned-Late resolved.id)))

  replace-Late :
      (namespace workspace : Text) (resolved : ResolvedSlot) (published : Bool)
      → Late (replace config world namespace workspace resolved published)
  unfolding replace
  replace-Late namespace workspace resolved true = pure-Late resolved
  replace-Late namespace workspace resolved false =
      bind-Late (store world "dropping superseded slot: " (remove_slot namespace workspace)) _
        (store-Late world _ (remove_slot namespace workspace))
        (λ _. store-Late world _ (resolve_or_create (world.fresh true) namespace workspace))

  unless_superseded-Late :
      (namespace workspace : Text) (resolved : ResolvedSlot) (superseded : Bool)
      → Late (unless_superseded config world namespace workspace resolved superseded)
  unfolding unless_superseded
  unless_superseded-Late namespace workspace resolved false = pure-Late resolved
  unless_superseded-Late namespace workspace resolved true =
      stored-then (is_published namespace workspace) _
        (λ p. replace-Late namespace workspace resolved (published_here config world p))

  resolve-Late : (namespace workspace : Text) → Late (resolve config world namespace workspace)
  unfolding resolve
  resolve-Late namespace workspace =
      bind-Late
        (store world "resolving slot: " (resolve_or_create (world.fresh false) namespace workspace))
        _ (store-Late world _ (resolve_or_create (world.fresh false) namespace workspace))
        (λ resolved.
          gets-then
            (λ s.
              not resolved.created && slot_is_superseded config world namespace workspace s.volume)
            _ (unless_superseded-Late namespace workspace resolved))

  -- The result is that of the work, also where the slot is dropped.
  pub or_discard-result :
      (namespace workspace : Text) (m : Handler (Unit {0})) (s : State)
      → (or_discard config world namespace workspace m s).0 ≡ (m s).0
  unfolding or_discard
  or_discard-result namespace workspace m s = elim (Result-cases (m s).0) [
    | inl (a, q) ↦ rw (q, or_discard) q
    | inr (d, q) ↦ rw (q, or_discard) refl
  ]

  or_discard-Late :
      (namespace workspace : Text) (m : Handler (Unit {0}))
      → Late m
      → Late (or_discard config world namespace workspace m)
  or_discard-Late namespace workspace m late = record {
    late = λ s e h. late.late s e (sym (or_discard-result namespace workspace m s) ∙ h);
  }

  fit-Late :
      (namespace workspace : Text) (limit : ℕ) (archive : Option ArchiveLocation)
      (seed : Option SeedArchive) (runtime : Option Text) (resolved : ResolvedSlot)
      (enforced : Bool)
      → Late (fit config world namespace workspace limit archive seed runtime resolved enforced)
  unfolding fit
  fit-Late namespace workspace limit archive seed runtime resolved enforced =
      if-Late resolved.created _ _
        (or_discard-Late namespace workspace _
          (provision-Late namespace workspace resolved limit enforced archive seed runtime))
        (refit-Late resolved.project_id limit enforced)

  pub prepare-Late :
      (namespace workspace : Text) (limit : ℕ) (archive : Option ArchiveLocation)
      (seed : Option SeedArchive) (runtime : Option Text)
      → Late (prepare_slot config world namespace workspace limit archive seed runtime)
  unfolding prepare_slot
  prepare-Late namespace workspace limit archive seed runtime =
      bind-Late (resolve config world namespace workspace) _ (resolve-Late namespace workspace)
        (λ resolved.
          bind-Late
            (lift (internally (λ (x : String). x) "checking quota support: " world.quotas_enforced))
            _ (checked-Late world (λ (x : String). x) _ world.quotas_enforced)
            (λ enforced.
              bind-Late
                (fit config world namespace workspace limit archive seed runtime resolved enforced)
                _ (fit-Late namespace workspace limit archive seed runtime resolved enforced)
                (λ _. pure-Late resolved)))
