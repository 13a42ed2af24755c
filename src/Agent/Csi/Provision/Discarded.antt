-- ===== src/Agent/Csi/Provision/Discarded.antt =====
-- A new slot that could not be provisioned is dropped: agent/src/csi.rs.
use kubimo.Common.{
  ℕ, String, Bool, true, false, ◌≡◌, refl, sym, ap, ◌∙◌, ◌⊎◌, inl, inr, Option, none, some,
  if◌then◌else◌,
}
use kubimo.Common.Result.{Result, ok, err, Result-cases}
use kubimo.Common.Text.{Text}
use kubimo.Agent.Slot.{SlotId}
use kubimo.Agent.Volume.{StoreError}
use kubimo.Agent.Store.Slots.{ResolvedSlot, lookup}
use kubimo.Agent.Store.Reclaim.{remove_slot}
use kubimo.Agent.Store.Reclaim.Gone.{lookup-remove_slot}
use kubimo.Agent.Csi.Node.{
  Status, S3Client, ArchiveLocation, SeedArchive, assign_project, set_project_limit,
  set_permissions, chown, chown_tree, seed_from_template, Config, State, Answers, Handler, lift,
  internally, pure, s3_for, continue, ◌>>=◌, ◌>>◌,
}
use kubimo.Agent.Csi.Keeps.{
  Keeps, bind-Keeps, pure-Keeps, fail-Keeps, gets-then, if-Keeps, act-Keeps, act-then, try-then,
}
use kubimo.Agent.Csi.Provision.Failing.{or_discard-result}
use kubimo.Agent.Csi.Provision.{
  limited, provision_slot_basics, from_archive, from_seed, hydrate_new_slot, owned,
  provision_new_slot, resolve, or_discard, refit, fit, prepare_slot, unquotaed_refusal,
}

module _ (config : Config) (world : Answers) where
  limited-Keeps :
      (id : SlotId) (n limit : ℕ) (enforced : Bool)
      → Keeps (limited config world id n limit enforced)
  unfolding limited
  limited-Keeps id n limit true =
      act-then world _ (assign_project id n) _
        (λ _. act-then world _ (set_project_limit n limit) _ (λ _. pure-Keeps tt))
  limited-Keeps id n limit false =
      if-Keeps config.allow_unquotaed_slots _ _ (pure-Keeps tt)
        (fail-Keeps (unquotaed_refusal config world))

  basics-Keeps :
      (id : SlotId) (n limit : ℕ) (enforced : Bool) (runtime : Option Text)
      → Keeps (provision_slot_basics config world id n limit enforced runtime)
  unfolding provision_slot_basics
  basics-Keeps id n limit enforced runtime =
      bind-Keeps (limited config world id n limit enforced) _ (limited-Keeps id n limit enforced)
        (λ _. act-then world _ (set_permissions id) _ (λ _.
          act-then world _ (chown id) _
            (λ _. try-then world (seed_from_template id runtime) _ (λ _. pure-Keeps tt))))

  from_archive-Keeps :
      (id : SlotId) (archive : Option ArchiveLocation) (s3 : S3Client)
      → Keeps (from_archive config world id archive s3)
  unfolding from_archive
  from_archive-Keeps id none s3 = pure-Keeps false
  from_archive-Keeps id (some archive) s3 = act-Keeps world _ _

  from_seed-Keeps :
      (id : SlotId) (seed : Option SeedArchive) (s3 : S3Client) (restored : Bool)
      → Keeps (from_seed config world id seed s3 restored)
  unfolding from_seed
  from_seed-Keeps id none s3 true = pure-Keeps true
  from_seed-Keeps id (some seed) s3 true = pure-Keeps true
  from_seed-Keeps id none s3 false = pure-Keeps false
  from_seed-Keeps id (some seed) s3 false = act-Keeps world _ _

  hydrate-Keeps :
      (id : SlotId) (archive : Option ArchiveLocation) (seed : Option SeedArchive)
      (s3 : Option S3Client)
      → Keeps (hydrate_new_slot config world id archive seed s3)
  unfolding hydrate_new_slot
  hydrate-Keeps id archive seed none = pure-Keeps false
  hydrate-Keeps id archive seed (some s3) =
      bind-Keeps (from_archive config world id archive s3) _ (from_archive-Keeps id archive s3)
        (from_seed-Keeps id seed s3)

  owned-Keeps : (id : SlotId) (restored : Bool) → Keeps (owned config world id restored)
  unfolding owned
  owned-Keeps id false = pure-Keeps tt
  owned-Keeps id true = act-then world _ (chown_tree id) _ (λ _. pure-Keeps tt)

  module _ (namespace workspace : Text) (limit : ℕ) (archive : Option ArchiveLocation)
      (seed : Option SeedArchive) (runtime : Option Text) where
    provision-Keeps :
        (resolved : ResolvedSlot) (enforced : Bool)
        → Keeps (
            provision_new_slot config world namespace workspace resolved limit enforced archive seed
              runtime)
    unfolding provision_new_slot
    provision-Keeps resolved enforced =
        bind-Keeps
          (provision_slot_basics config world resolved.id resolved.project_id limit enforced
            runtime)
          _ (basics-Keeps resolved.id resolved.project_id limit enforced runtime)
          (λ _.
            gets-then (λ s. s3_for config s namespace workspace) _
              (λ s3.
                bind-Keeps (hydrate_new_slot config world resolved.id archive seed s3) _
                  (hydrate-Keeps resolved.id archive seed s3) (owned-Keeps resolved.id)))

    dropped :
        (m : Handler (Unit {0})) (s : State) (e : Status)
        → Keeps m
        → (or_discard config world namespace workspace m s).0 ≡ err e
        → ((d : StoreError) × ((remove_slot namespace workspace s.volume).0 ≡ err d))
          ⊎ ((lookup namespace workspace
                (or_discard config world namespace workspace m s).1.volume).0
              ≡ ok none)
    unfolding Keeps or_discard remove_slot
    dropped m s e keeps h = elim (Result-cases (m s).0) [
      | inl (a, q) ↦ absurd (cc (or_discard-result config world namespace workspace m s, q, h))
      | inr (d, q) ↦
          let volume : (or_discard config world namespace workspace m s).1.volume
              ≡ (remove_slot namespace workspace s.volume).1 =
            rw (q, or_discard) (ap (λ u. (remove_slot namespace workspace u).1) (keeps s)) in
          elim (Result-cases (remove_slot namespace workspace s.volume).0) [
            | inr failed ↦ inl failed
            | inl (b, removed) ↦
                let w = (remove_slot namespace workspace s.volume).1 in
                inr (
                  ap (λ u. (lookup namespace workspace u).0) volume
                  ∙ lookup-remove_slot namespace workspace s.volume w b (λ i. (removed i, w)))
          ]
    ]

    finished :
        (m : Handler (Unit {0})) (r : ResolvedSlot) (s : State) (e : Status)
        → ((or_discard config world namespace workspace m >> pure r) s).0 ≡ err e
        → ((d : Status) × ((or_discard config world namespace workspace m s).0 ≡ err d))
          × (((or_discard config world namespace workspace m >> pure r) s).1
              ≡ (or_discard config world namespace workspace m s).1)
    finished m r s e h = elim (Result-cases (or_discard config world namespace workspace m s).0) [
      | inl (a, q) ↦ absurd (cc (rw q at h))
      | inr (d, q) ↦ ((d, q), rw q refl)
    ]

    of_new :
        (s t : State) (r : ResolvedSlot) (enforced : Bool)
        → resolve config world namespace workspace s ≡ (ok r, t)
        → r.created ≡ true
        → world.quotas_enforced ≡ ok enforced
        → prepare_slot config world namespace workspace limit archive seed runtime s
          ≡ (or_discard config world namespace workspace (
                  provision_new_slot config world namespace workspace r limit enforced archive seed
                    runtime)
                >> pure r)
              t
    unfolding prepare_slot fit
    of_new s t r enforced res created quotas =
        let work = λ (slot : ResolvedSlot) (q : Bool).
          fit config world namespace workspace limit archive seed runtime slot q >> pure slot in
        let checked = λ (slot : ResolvedSlot) (q : Result String Bool).
          lift (internally (λ (x : String). x) "checking quota support: " q) >>= work slot in
        ap
          (λ (x : Result Status ResolvedSlot × State).
            continue x.0 (λ slot. checked slot world.quotas_enforced) x.1)
          res
        ∙ ap (λ q. checked r q t) quotas
        ∙ ap
            (λ (c : Bool).
              ((if c
                    then or_discard config world namespace workspace (
                        provision_new_slot config world namespace workspace r limit enforced archive
                          seed runtime)
                    else refit config world r.project_id limit enforced)
                  >> pure r)
                t)
            created

    -- If preparing a slot that was just created fails, once it is known whether quotas are enforced,
    -- then either the store fails to remove the slot, or no slot of the workspace is left for a retry
    -- to find.
    pub prepare_slot-discarded :
        (s t : State) (r : ResolvedSlot) (enforced : Bool) (e : Status)
        → resolve config world namespace workspace s ≡ (ok r, t)
        → r.created ≡ true
        → world.quotas_enforced ≡ ok enforced
        → (prepare_slot config world namespace workspace limit archive seed runtime s).0 ≡ err e
        → ((d : StoreError) × ((remove_slot namespace workspace t.volume).0 ≡ err d))
          ⊎ ((lookup namespace workspace
                (prepare_slot config world namespace workspace limit archive seed runtime
                  s).1.volume).0
              ≡ ok none)
    prepare_slot-discarded s t r enforced e res created quotas h =
        let whole = of_new s t r enforced res created quotas in
        let m =
          provision_new_slot config world namespace workspace r limit enforced archive seed
            runtime in
        let ((d, q), same) = finished m r t e (sym (ap (λ x. x.0) whole) ∙ h) in
        rw (whole, same) (dropped m t d (provision-Keeps r enforced) q)
