-- ===== src/RunnerStatus/Startup/Complete.antt =====
-- When startup is complete: `apply_startup_conditions` against the four conditions that it observes.
use kubimo.Common.{
  String, ◌≡◌, ◌≢◌, sym, ◌∙◌, false, eq_iff, refl, Bool, ◌&&◌, some, List, [], arith, unwrap_or,
  if◌then◌else◌, ◌==◌, text_partial_eq,
}
use kubimo.Common.Result.{ok}
use kubimo.Api.Meta.{Condition, Timestamp, pvc_bound, workspace_ready, pod_scheduled, pod_ready}
use kubimo.Api.Workspace.{WorkspaceMode}
use kubimo.Api.Runner.{Runner, RunnerStatus}
use kubimo.RunnerStatus.Detail.{Format}
use kubimo.RunnerStatus.Observed.{find_condition}
use kubimo.RunnerStatus.Upsert.{
  upsert_condition, startup_complete, is_true, pod_is_ready, volume_is_bound,
}
use kubimo.RunnerStatus.Upsert.Lookup.{Unique, upsert-Unique, is_true-upsert}
use kubimo.RunnerStatus.Upsert.Recorded.{
  Recorded, upsert-Recorded, Recorded-later, Recorded-earlier, find-upsert_other,
}
use kubimo.RunnerStatus.Startup.{
  Cluster, Snapshot, observe, volume_condition, workspace_condition, scheduled_condition,
  ready_condition, update_conditions, apply_startup_conditions,
}

abbrev pub says_true : Condition → Bool
says_true c = c.status == "True"

module _ (fmt : Format) (default_mode : WorkspaceMode) (now : Timestamp) (runner : Runner)
    (seen : Snapshot) where
  pub type_-volume_condition : (volume_condition fmt default_mode now runner seen).type_ ≡ pvc_bound
  unfolding volume_condition
  type_-volume_condition = ground arith

  pub type_-workspace_condition :
      (workspace_condition fmt default_mode now runner seen).type_ ≡ workspace_ready
  unfolding workspace_condition
  type_-workspace_condition = refl

  pub type_-scheduled_condition :
      (scheduled_condition fmt default_mode now runner seen).type_ ≡ pod_scheduled
  unfolding scheduled_condition
  type_-scheduled_condition = refl

  pub type_-ready_condition : (ready_condition fmt default_mode now runner seen).type_ ≡ pod_ready
  unfolding ready_condition
  type_-ready_condition = refl

  pub update-Unique :
      (cs : List Condition)
      → Unique cs
      → Unique (update_conditions fmt default_mode now runner seen cs)
  unfolding update_conditions
  update-Unique cs u =
      upsert-Unique _ _ (upsert-Unique _ _ (upsert-Unique _ _ (upsert-Unique cs _ u)))

  is_true-update :
      (t : String) (cs : List Condition)
      → Unique cs
      → is_true t (update_conditions fmt default_mode now runner seen cs) ≡ (
          if pod_ready == t
          then says_true (ready_condition fmt default_mode now runner seen)
          else if pod_scheduled == t
          then says_true (scheduled_condition fmt default_mode now runner seen)
          else if workspace_ready == t
          then says_true (workspace_condition fmt default_mode now runner seen)
          else if pvc_bound == t
          then says_true (volume_condition fmt default_mode now runner seen)
          else is_true t cs)
  unfolding update_conditions
  is_true-update t cs u =
      let v = volume_condition fmt default_mode now runner seen in
      let w = workspace_condition fmt default_mode now runner seen in
      let p = scheduled_condition fmt default_mode now runner seen in
      let r = ready_condition fmt default_mode now runner seen in
      let u1 = upsert-Unique cs v u in
      let u2 = upsert-Unique (upsert_condition cs v) w u1 in
      let u3 = upsert-Unique (upsert_condition (upsert_condition cs v) w) p u2 in
      rw (is_true-upsert t _ r u3, type_-ready_condition)
        (rw (is_true-upsert t _ p u2, type_-scheduled_condition)
          (rw (is_true-upsert t _ w u1, type_-workspace_condition)
            (rw (is_true-upsert t cs v u, type_-volume_condition))))

  -- The list has `PodReady` true exactly if the pod is ready now, and `PvcBound` if the storage is.
  pub ready-update :
      (cs : List Condition)
      → Unique cs
      → pod_is_ready (update_conditions fmt default_mode now runner seen cs)
        ≡ says_true (ready_condition fmt default_mode now runner seen)
  unfolding pod_is_ready
  ready-update cs u = is_true-update pod_ready cs u

  pub volume-update :
      (cs : List Condition)
      → Unique cs
      → volume_is_bound (update_conditions fmt default_mode now runner seen cs)
        ≡ says_true (volume_condition fmt default_mode now runner seen)
  unfolding volume_is_bound
  volume-update cs u = is_true-update pvc_bound cs u

  complete-update :
      (cs : List Condition)
      → Unique cs
      → startup_complete (update_conditions fmt default_mode now runner seen cs) ≡ (
          says_true (volume_condition fmt default_mode now runner seen)
          && says_true (workspace_condition fmt default_mode now runner seen)
          && says_true (scheduled_condition fmt default_mode now runner seen)
          && says_true (ready_condition fmt default_mode now runner seen))
  unfolding startup_complete
  complete-update cs u =
      rw (is_true-update pvc_bound cs u, is_true-update workspace_ready cs u)
        (rw (is_true-update pod_scheduled cs u, is_true-update pod_ready cs u) (ground arith))

module _ (fmt : Format) (default_mode : WorkspaceMode) (now : Timestamp) (runner : Runner)
    (seen : Snapshot) where
  -- The list `after` has for each of the four observed types what an update by the computed condition
  -- makes of its entry in `before`, and of every other type the same entry.
  pub record AllRecorded (before after : List Condition) : Type 0 where
    pub volume : Recorded before after (volume_condition fmt default_mode now runner seen)
    pub workspace : Recorded before after (workspace_condition fmt default_mode now runner seen)
    pub scheduled : Recorded before after (scheduled_condition fmt default_mode now runner seen)
    pub ready : Recorded before after (ready_condition fmt default_mode now runner seen)
    pub others :
        (t : String)
        → t ≢ pvc_bound
        → t ≢ workspace_ready
        → t ≢ pod_scheduled
        → t ≢ pod_ready
        → find_condition t after ≡ find_condition t before

  apart :
      (a b : Condition) (s t : String)
      → a.type_ ≡ s
      → b.type_ ≡ t
      → (s == t) ≡ false
      → a.type_ ≢ b.type_
  apart a b s t e f n same = cc ((eq_iff s t).1 (sym e ∙ same ∙ f), n)

  update-AllRecorded :
      (cs : List Condition) → AllRecorded cs (update_conditions fmt default_mode now runner seen cs)
  unfolding update_conditions
  update-AllRecorded cs =
      let v = volume_condition fmt default_mode now runner seen in
      let w = workspace_condition fmt default_mode now runner seen in
      let p = scheduled_condition fmt default_mode now runner seen in
      let r = ready_condition fmt default_mode now runner seen in
      let tv = type_-volume_condition fmt default_mode now runner seen in
      let tw = type_-workspace_condition fmt default_mode now runner seen in
      let tp = type_-scheduled_condition fmt default_mode now runner seen in
      let tr = type_-ready_condition fmt default_mode now runner seen in
      let c1 = upsert_condition cs v in
      let c2 = upsert_condition c1 w in
      let c3 = upsert_condition c2 p in
      record {
        volume = Recorded-later cs c3 v r (apart r v _ _ tr tv refl) (
            Recorded-later cs c2 v p (apart p v _ _ tp tv refl)
              (Recorded-later cs c1 v w (apart w v _ _ tw tv refl) (upsert-Recorded cs v)));
        workspace = Recorded-earlier cs _ w v (apart v w _ _ tv tw refl) (
            Recorded-later c1 c3 w r (apart r w _ _ tr tw refl)
              (Recorded-later c1 c2 w p (apart p w _ _ tp tw refl) (upsert-Recorded c1 w)));
        scheduled = Recorded-earlier cs _ p v (apart v p _ _ tv tp refl) (
            Recorded-earlier c1 _ p w (apart w p _ _ tw tp refl)
              (Recorded-later c2 c3 p r (apart r p _ _ tr tp refl) (upsert-Recorded c2 p)));
        ready = Recorded-earlier cs _ r v (apart v r _ _ tv tr refl) (
            Recorded-earlier c1 _ r w (apart w r _ _ tw tr refl)
              (Recorded-earlier c2 _ r p (apart p r _ _ tp tr refl) (upsert-Recorded c3 r)));
        others = λ t nv nw np nr.
            find-upsert_other t c3 r (λ e. nr (sym e ∙ tr))
            ∙ find-upsert_other t c2 p (λ e. np (sym e ∙ tp))
            ∙ find-upsert_other t c1 w (λ e. nw (sym e ∙ tw))
            ∙ find-upsert_other t cs v (λ e. nv (sym e ∙ tv));
      }

-- If the three reads succeed and the recorded conditions have distinct types, the pass gives a list
-- with distinct types, in which the entry of each of the four observed types is the one before it
-- updated by the condition that is computed from what was read, or that condition where there was
-- none, and every other entry is as before; and startup is complete exactly if each of the four
-- computed conditions has the status "True".
pub apply_startup_conditions_lem :
    (fmt : Format) (default_mode : WorkspaceMode) (now : Timestamp) (cluster : Cluster)
    (runner : Runner) (status : RunnerStatus) (seen : Snapshot)
    → observe cluster runner ≡ ok seen
    → Unique (unwrap_or status.conditions [])
    → (cs : List Condition) × (apply_startup_conditions fmt default_mode now cluster runner status
        ≡ ok (
          record status { conditions = some cs },
          says_true (volume_condition fmt default_mode now runner seen)
              && says_true (workspace_condition fmt default_mode now runner seen)
              && says_true (scheduled_condition fmt default_mode now runner seen)
              && says_true (ready_condition fmt default_mode now runner seen),
        ))
      × AllRecorded fmt default_mode now runner seen (unwrap_or status.conditions []) cs
      × Unique cs
unfolding apply_startup_conditions
apply_startup_conditions_lem fmt default_mode now cluster runner status seen o u =
    let cs = unwrap_or status.conditions [] in
    (
      update_conditions fmt default_mode now runner seen cs,
      rw (o, complete-update fmt default_mode now runner seen cs u),
      update-AllRecorded fmt default_mode now runner seen cs,
      update-Unique fmt default_mode now runner seen cs u,
    )
