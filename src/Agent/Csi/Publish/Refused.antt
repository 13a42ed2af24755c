-- ===== src/Agent/Csi/Publish/Refused.antt =====
-- A publish that is refused leaves nothing behind: agent/src/csi.rs.
use kubimo.Common.{String, false, ◌≡◌, refl, sym, ◌∙◌, some, ◌==◌, Bool-cases, inl, inr}
use kubimo.Common.Equal.{option_partial_eq}
use kubimo.Common.Result.{Result, ok, err, Result-cases}
use kubimo.Common.Text.{codes, codes_partial_eq}
use kubimo.Agent.Store.Names.{is_empty}
use kubimo.Agent.Store.Publish.{record_publish}
use kubimo.Agent.Store.Slots.{ResolvedSlot, is_draining}
use kubimo.Agent.Store.Pool.{resolve_or_create_pool}
use kubimo.Agent.Csi.Node.{
  Status, unavailable, invalid_argument, bind, Config, State, Answers, Handler, internally, store,
  lift, modify, remember_credentials, remember_pool_credentials, continue, ◌>>=◌,
}
use kubimo.Agent.Csi.Late.{
  IsLate, Late, bind-Late, pure-Late, act-then, store-Late, checked-Late, stored-then, if-Late,
}
use kubimo.Agent.Csi.Provision.{prepare_slot}
use kubimo.Agent.Csi.Provision.Failing.{prepare-Late, basics-Late, refit-Late}
use kubimo.Agent.Csi.Publish.{
  publish_slot_status, published_as, watch, publish_workspace, discard_pool, fit_pool,
  publish_pool_volume, accepted, node_publish_volume,
}
use kubimo.Agent.Csi.Publish.Request.{
  PublishRequest, Wanted, WantedPool, attr, read_request, read_pool_request,
}

-- The request itself is at fault, or the agent is shutting down.
abbrev pub IsRefusal : Status → Type 0
IsRefusal (unavailable _) = Unit
IsRefusal (invalid_argument _) = Unit
IsRefusal _ = ⊥

refusal-not_late : (e : Status) → IsRefusal e → IsLate e → ⊥
refusal-not_late (unavailable _) r l = l
refusal-not_late (invalid_argument _) r l = l
refusal-not_late _ r l = r

modify-then : {A : Type 0} (g : State → State) (m : Handler A) → Late m → Late (modify g >>= λ _. m)
modify-then g m rest = record { late = λ s e h. rest.late (g s) e h }

module _ (config : Config) (world : Answers) where
  status-ok :
      (wanted : Wanted) (slot : ResolvedSlot) (s : State)
      → (publish_slot_status config world wanted slot s).0 ≡ ok tt
  unfolding publish_slot_status
  status-ok wanted slot s = elim (Bool-cases (world.has_status_client wanted.namespace)) [
    | inl c ↦ rw c refl
    | inr c ↦ rw c refl
  ]

  status-Late :
      (wanted : Wanted) (slot : ResolvedSlot) → Late (publish_slot_status config world wanted slot)
  status-Late wanted slot = record { late = λ s e h. absurd (cc (status-ok wanted slot s, h)) }

  workspace-Late :
      (request : PublishRequest) (wanted : Wanted)
      → Late (publish_workspace config world request wanted)
  unfolding publish_workspace
  workspace-Late request wanted =
      modify-then (remember_credentials wanted.namespace wanted.workspace request.secrets) _ (
        bind-Late
          (prepare_slot config world wanted.namespace wanted.workspace wanted.limit_bytes
            wanted.archive wanted.seed wanted.runtime)
          _
          (prepare-Late config world wanted.namespace wanted.workspace wanted.limit_bytes
            wanted.archive wanted.seed wanted.runtime)
          (λ slot.
            bind-Late (publish_slot_status config world wanted slot) _ (status-Late wanted slot)
              (λ _.
                stored-then
                  (record_publish request.volume_id (published_as config world wanted slot.id)) _
                  (λ _. modify-then (watch config world request wanted slot.id wanted.archive) _ (
                    act-then world "publishing slot: "
                      (bind slot.id request.target_path request.readonly) _ (λ _. pure-Late tt))))))

  discard_pool-result :
      (wanted : WantedPool) (m : Handler (Unit {0})) (s : State)
      → (discard_pool config world wanted m s).0 ≡ (m s).0
  unfolding discard_pool
  discard_pool-result wanted m s = elim (Result-cases (m s).0) [
    | inl (a, q) ↦ rw (q, discard_pool) q
    | inr (d, q) ↦ rw (q, discard_pool) refl
  ]

  discard_pool-Late :
      (wanted : WantedPool) (m : Handler (Unit {0}))
      → Late m
      → Late (discard_pool config world wanted m)
  discard_pool-Late wanted m late = record {
    late = λ s e h. late.late s e (sym (discard_pool-result wanted m s) ∙ h);
  }

  pool-Late :
      (request : PublishRequest) (wanted : WantedPool)
      → Late (publish_pool_volume config world request wanted)
  unfolding publish_pool_volume fit_pool
  pool-Late request wanted =
      modify-then (remember_pool_credentials wanted.namespace wanted.pod request.secrets) _ (
        bind-Late
          (store world "resolving pool slot: " (
            resolve_or_create_pool (world.fresh false) wanted.namespace wanted.pod wanted.pod_uid
              request.volume_id))
          _
          (store-Late world _ (
            resolve_or_create_pool (world.fresh false) wanted.namespace wanted.pod wanted.pod_uid
              request.volume_id))
          (λ slot.
            bind-Late
              (lift
                (internally (λ (x : String). x) "checking quota support: " world.quotas_enforced))
              _ (checked-Late world (λ (x : String). x) _ world.quotas_enforced)
              (λ enforced.
                bind-Late (fit_pool config world wanted slot enforced) _
                  (if-Late slot.created _ _
                    (discard_pool-Late wanted _ (
                      basics-Late config world slot.id slot.project_id wanted.limit_bytes enforced
                        wanted.runtime))
                    (refit-Late config world slot.project_id wanted.limit_bytes enforced))
                  (λ _.
                    act-then world "publishing pool slot: "
                      (bind slot.id request.target_path request.readonly) _ (λ _. pure-Late tt)))))

  read_then :
      {A : Type 0} (r : Result Status A) (f : A → Handler (Unit {0})) (s : State) (e : Status)
      → ((a : A) → Late (f a))
      → IsRefusal e
      → (continue r f s).0 ≡ err e
      → (continue r f s).1 ≡ s
  read_then (ok a) f s e late refused h = absurd (refusal-not_late e refused ((late a).late s e h))
  read_then (err d) f s e late refused h = refl

  -- A publish that fails because of its request, or because the agent is shutting down, has changed
  -- nothing and asked for nothing.
  pub publish-refused :
      (request : PublishRequest) (s : State) (e : Status)
      → IsRefusal e
      → (node_publish_volume config world request s).0 ≡ err e
      → (node_publish_volume config world request s).1 ≡ s
  unfolding node_publish_volume accepted
  publish-refused request s e refused h = elim (Bool-cases (is_draining s.volume)) [
    | inl d ↦ rw d refl
    | inr d ↦ elim (Bool-cases (is_empty request.target_path)) [
      | inl t ↦ rw (d, t) refl
      | inr t ↦ elim (Bool-cases (attr "pooled" request == some (codes "true"))) [
        | inl p ↦
            rw (d, t, p)
              (read_then (read_pool_request config world request) _ s e (pool-Late request) refused
                (rw (d, t, p) at h))
        | inr p ↦
            rw (d, t, p)
              (read_then (read_request config world request) _ s e (workspace-Late request) refused
                (rw (d, t, p) at h))
      ]
    ]
  ]
