-- ===== src/RunnerStatus/Startup/Stable.antt =====
-- A second pass over the same cluster changes no condition: the status is not rewritten for a new
-- time of day.
use mathlib.Core.Path.{subst₂}
use kubimo.Common.{
  ap, ◌∙◌, String, ◌≡◌, ◌≢◌, refl, Bool, false, Option, none, some, List, [], arith, unwrap_or,
  ◌==◌, text_partial_eq, eq_iff,
}
use kubimo.Common.Result.{ok, ok_parts}
use kubimo.Api.Meta.{Condition, Timestamp, pvc_bound, workspace_ready, pod_scheduled, pod_ready}
use kubimo.Api.Workspace.{WorkspaceMode, dedicated, pooled}
use kubimo.Api.Runner.{Runner, RunnerStatus, RunnerClaim}
use kubimo.RunnerStatus.Detail.{Format}
use kubimo.RunnerStatus.Upsert.{upsert_condition, startup_complete}
use kubimo.RunnerStatus.Upsert.Settled.{Holds, upsert-Holds, Holds-upsert, upsert-eq_of_Holds}
use kubimo.RunnerStatus.Startup.{
  Cluster, Snapshot, observe, claim_of, volume_for, volume_condition, workspace_condition,
  scheduled_condition, ready_condition, update_conditions, apply_startup_conditions,
}
use kubimo.RunnerStatus.Startup.Complete.{
  type_-volume_condition, type_-workspace_condition, type_-scheduled_condition,
  type_-ready_condition,
}

-- The conditions of two times differ in the time alone.
record SameButTime (c d : Condition) : Type 0 where
  type_ : d.type_ ≡ c.type_
  status : d.status ≡ c.status
  reason : d.reason ≡ c.reason

upsert-Holds_same :
    (cs : List Condition) (c d : Condition) → SameButTime c d → Holds (upsert_condition cs c) d
upsert-Holds_same cs c d s = upsert-Holds cs c d s.type_ s.status s.reason

upsert_settled : (cs : List Condition) (d : Condition) → Holds cs d → upsert_condition cs d ≡ cs
upsert_settled cs d h = upsert-eq_of_Holds cs d h.entry h.found h.status h.reason

type_-ne :
    (c d : Condition) (s t : String)
    → c.type_ ≡ s
    → d.type_ ≡ t
    → (s == t) ≡ false
    → c.type_ ≢ d.type_
type_-ne c d s t p q e h = ground (arith, eq_iff s t)

abbrev update4 : List Condition → Condition → Condition → Condition → Condition → List Condition
update4 cs a b c d =
    upsert_condition (upsert_condition (upsert_condition (upsert_condition cs a) b) c) d

module _ (a b c d a' b' c' d' : Condition) (sa : SameButTime a a') (sb : SameButTime b b')
    (sc : SameButTime c c') (sd : SameButTime d d') where
  update4_settled :
      (cs : List Condition)
      → a'.type_ ≡ pvc_bound
      → b.type_ ≡ workspace_ready
      → b'.type_ ≡ workspace_ready
      → c.type_ ≡ pod_scheduled
      → c'.type_ ≡ pod_scheduled
      → d.type_ ≡ pod_ready
      → update4 (update4 cs a b c d) a' b' c' d' ≡ update4 cs a b c d
  update4_settled cs v w w' p p' r = rw (upsert_settled all a' holds_a) (
      rw (upsert_settled all b' holds_b)
        (rw (upsert_settled all c' holds_c) (upsert_settled all d' holds_d)))
    where
      all1 : List Condition
      all1 = upsert_condition cs a

      all2 : List Condition
      all2 = upsert_condition all1 b

      all3 : List Condition
      all3 = upsert_condition all2 c

      all : List Condition
      all = upsert_condition all3 d

      holds_a : Holds all a'
      holds_a = Holds-upsert all3 d a' (type_-ne d a' pod_ready pvc_bound r v refl) (
          Holds-upsert all2 c a' (type_-ne c a' pod_scheduled pvc_bound p v refl) (
            Holds-upsert all1 b a' (type_-ne b a' workspace_ready pvc_bound w v refl)
              (upsert-Holds_same cs a a' sa)))

      holds_b : Holds all b'
      holds_b = Holds-upsert all3 d b' (type_-ne d b' pod_ready workspace_ready r w' refl) (
          Holds-upsert all2 c b' (type_-ne c b' pod_scheduled workspace_ready p w' refl)
            (upsert-Holds_same all1 b b' sb))

      holds_c : Holds all c'
      holds_c =
          Holds-upsert all3 d c' (type_-ne d c' pod_ready pod_scheduled r p' refl)
            (upsert-Holds_same all2 c c' sc)

      holds_d : Holds all d'
      holds_d = upsert-Holds_same all3 d d' sd

-- The runner as the next reconcile reads it, with the status that was written.
abbrev pub with_status : Runner → RunnerStatus → Runner
with_status runner status = record runner { status = some status }

module _ (fmt : Format) (default_mode : WorkspaceMode) (now later : Timestamp)
    (runner next : Runner) (seen : Snapshot) (spec : next.spec ≡ runner.spec)
    (metadata : next.metadata ≡ runner.metadata) (claim : claim_of next ≡ claim_of runner) where
  volume_for_same :
      (mode : WorkspaceMode) (c : Option RunnerClaim)
      → SameButTime
          (volume_for fmt default_mode now runner seen mode c)
          (volume_for fmt default_mode later next seen mode c)
  unfolding volume_for
  volume_for_same dedicated c = ground arith
  volume_for_same pooled none = ground arith
  volume_for_same pooled (some c) = ground arith

  volume_same :
      SameButTime
        (volume_condition fmt default_mode now runner seen)
        (volume_condition fmt default_mode later next seen)
  unfolding volume_condition
  volume_same = rw claim (volume_for_same _ _)

  workspace_same :
      SameButTime
        (workspace_condition fmt default_mode now runner seen)
        (workspace_condition fmt default_mode later next seen)
  unfolding workspace_condition
  workspace_same = ground arith

  scheduled_same :
      SameButTime
        (scheduled_condition fmt default_mode now runner seen)
        (scheduled_condition fmt default_mode later next seen)
  unfolding scheduled_condition
  scheduled_same = ground arith

  ready_same :
      SameButTime
        (ready_condition fmt default_mode now runner seen)
        (ready_condition fmt default_mode later next seen)
  unfolding ready_condition
  ready_same = ground arith

  update-update :
      (cs : List Condition)
      → update_conditions fmt default_mode later next seen
          (update_conditions fmt default_mode now runner seen cs)
        ≡ update_conditions fmt default_mode now runner seen cs
  unfolding update_conditions
  update-update cs =
      update4_settled _ _ _ _ _ _ _ _ volume_same workspace_same scheduled_same ready_same cs
        (type_-volume_condition fmt default_mode later next seen)
        (type_-workspace_condition fmt default_mode now runner seen)
        (type_-workspace_condition fmt default_mode later next seen)
        (type_-scheduled_condition fmt default_mode now runner seen)
        (type_-scheduled_condition fmt default_mode later next seen)
        (type_-ready_condition fmt default_mode now runner seen)

observe-with_status :
    (cluster : Cluster) (runner : Runner) (written : RunnerStatus)
    → written.claim ≡ claim_of runner
    → observe cluster (with_status runner written) ≡ observe cluster runner
unfolding observe claim_of
observe-with_status cluster runner written c = rw c

module _ (fmt : Format) (default_mode : WorkspaceMode) (now later : Timestamp) (cluster : Cluster)
    (runner : Runner) (seen : Snapshot) where
  abbrev updated : RunnerStatus → RunnerStatus
  updated status = record status {
    conditions =
        some (update_conditions fmt default_mode now runner seen (unwrap_or status.conditions []));
  }

  again :
      (status : RunnerStatus)
      → observe cluster runner ≡ ok seen
      → status.claim ≡ claim_of runner
      → apply_startup_conditions fmt default_mode later cluster
          (with_status runner (updated status))
          (updated status)
        ≡ ok (
          updated status,
          startup_complete
              (update_conditions fmt default_mode now runner seen (unwrap_or status.conditions [])),
        )
  unfolding apply_startup_conditions claim_of
  again status o c =
      rw (observe-with_status cluster runner (updated status) c, o)
        (rw (
          update-update fmt default_mode now later runner (with_status runner (updated status)) seen
            refl refl c (unwrap_or status.conditions [])))

-- If a pass over the cluster gives a status, and the next pass, at any later time, finds that
-- status on the runner and the same answers of the cluster, with the runner's claim unchanged, then
-- it gives the same status and the same verdict.
pub apply_startup_conditions_idem :
    (fmt : Format) (default_mode : WorkspaceMode) (now later : Timestamp) (cluster : Cluster)
    (runner : Runner) (status written : RunnerStatus) (complete : Bool)
    → apply_startup_conditions fmt default_mode now cluster runner status ≡ ok (written, complete)
    → written.claim ≡ claim_of runner
    → apply_startup_conditions fmt default_mode later cluster (with_status runner written) written
      ≡ ok (written, complete)
unfolding apply_startup_conditions
apply_startup_conditions_idem fmt default_mode now later cluster runner status written complete h
      c =
    let (seen, o, e) = ok_parts (observe cluster runner) _ h in
    let p : updated fmt default_mode now later cluster runner seen status ≡ written = cc in
    let q : startup_complete
          (update_conditions fmt default_mode now runner seen (unwrap_or status.conditions []))
        ≡ complete =
      cc in
    let kept : status.claim ≡ claim_of runner = ap (λ (s : RunnerStatus). s.claim) p ∙ c in
    subst₂
      (λ (w : RunnerStatus) (b : Bool).
        apply_startup_conditions fmt default_mode later cluster (with_status runner w) w
        ≡ ok (w, b))
      p q (again fmt default_mode now later cluster runner seen status o kept)
