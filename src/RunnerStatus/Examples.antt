-- ===== src/RunnerStatus/Examples.antt =====
-- The theorems about the runner status at concrete runners, pods and clusters.
use kubimo.Common.{
  String, true, false, ◌≡◌, ◌≢◌, ◌↔◌, ◌&&◌, refl, inl, none, some, List, [], ◌∷◌, any,
}
use kubimo.Common.Int.{pos, ◌+ℤ◌}
use kubimo.Common.Result.{ok, err}
use kubimo.Api.Meta.{ObjectMeta, Condition, api, pvc_bound, pod_ready}
use kubimo.Api.Pod.{Pod}
use kubimo.Api.Workspace.{Workspace, dedicated, pooled}
use kubimo.Api.Runner.{Runner, RunnerStatus, edit, render}
use kubimo.RunnerStatus.Detail.{Format}
use kubimo.RunnerStatus.Observed.{find_condition}
use kubimo.RunnerStatus.Upsert.{upsert_condition, startup_complete, startup_requeue_interval}
use kubimo.RunnerStatus.Upsert.Lookup.{Updated, Unique, upsert-Updated}
use kubimo.RunnerStatus.Startup.{
  Cluster, Snapshot, observe, claim_of, volume_condition, workspace_condition, scheduled_condition,
  ready_condition, update_conditions, apply_startup_conditions,
}
use kubimo.RunnerStatus.Startup.Complete.{AllRecorded, says_true, apply_startup_conditions_lem}
use kubimo.RunnerStatus.Startup.Stable.{with_status, apply_startup_conditions_idem}
use kubimo.RunnerStatus.Poll.{
  Answers, is_collectable, is_inactive_past_deadline, conditions_of, poll_api_status,
  polled_recently,
}
use kubimo.RunnerStatus.Poll.Collection.{Collectable, deletes, poll-deletes_iff}
use kubimo.RunnerStatus.Reconcile.{Config, empty_status, is_unpolled, apply}
use kubimo.RunnerStatus.Reconcile.Collection.{
  is_poll, started, apply-deletes, ready-kept, render_or_claimed-kept,
}
use kubimo.RunnerStatus.Reconcile.Quiet.{apply_quiet}

abbrev plain : Format
plain = record { debug = λ s. s; show_int = λ n. "0" }

abbrev unready : Condition
unready = record {
  type_ = pod_ready;
  status = "False";
  reason = "NotPresent";
  message = "Not present";
  observed_generation = none;
  last_transition_time = pos 100;
}

abbrev crashing : Condition
crashing = record unready { reason = "CrashLoopBackOff"; last_transition_time = pos 900 }

upsert-Updated_example :
    ((cur : Condition) × (find_condition pod_ready (upsert_condition (unready ∷ []) crashing)
        ≡ some cur)
      × Updated unready crashing cur)
    × ((t : String)
        → pod_ready ≢ t
        → find_condition t (upsert_condition (unready ∷ []) crashing)
          ≡ find_condition t (unready ∷ []))
upsert-Updated_example =
    upsert-Updated (unready ∷ []) crashing unready (unfold find_condition in refl)

-- 700 seconds after the pod became unready, the reconciles are a minute apart.
wedged : startup_requeue_interval (unready ∷ []) (pos 800) 15 ≡ 60
unfolding startup_requeue_interval
wedged = refl

abbrev meta : String → ObjectMeta
meta name = record {
  name = some name;
  uid = none;
  namespace = some "team";
  labels = none;
  annotations = none;
  creation_timestamp = some (pos 100);
  deletion_timestamp = none;
  generation = some (pos 1);
}

abbrev ready_pod : Pod
ready_pod = record {
  metadata = meta "book";
  status = some (record {
    phase = some "Running";
    conditions = some (
        record { type_ = "Ready"; status = "True"; reason = none; message = none }
        ∷ record { type_ = "PodScheduled"; status = "True"; reason = none; message = none }
        ∷ []);
    container_statuses = some (
        record {
          name = "runner";
          ready = true;
          started = some true;
          restart_count = pos 0;
          state = none;
          last_state = none;
        }
        ∷ []);
  });
}

abbrev ready_workspace : Workspace
ready_workspace = record {
  metadata = meta "work";
  spec = record { mode = none; storage = none; indexer = none; restore_from = none };
  status = some (record {
    conditions =
        some (record unready { type_ = "Ready"; status = "True"; reason = "JobComplete" } ∷ []);
    storage = none;
    mode = some pooled;
    slot = none;
    python_runtime = none;
  });
}

abbrev healthy : Cluster
healthy = record {
  pods = λ name. ok (some ready_pod);
  pvcs = λ name. ok none;
  workspaces = λ name. ok (some ready_workspace);
}

abbrev seen_healthy : Snapshot
seen_healthy = record { pod = some ready_pod; pvc = none; workspace = some ready_workspace }

abbrev book : Runner
book = record {
  metadata = meta "book";
  spec = record {
    workspace = "work";
    command = edit;
    log_level = none;
    memory = none;
    cpu = none;
    env = none;
    env_from = none;
    ingress = none;
    sidecars = none;
    pool = none;
    lifecycle = some (record { delete_after_secs_inactive = some 600 });
    token = none;
  };
  status = none;
}

abbrev page : Runner
page = record book { spec = record (book.spec) { command = render } }

observe-book : observe healthy book ≡ ok seen_healthy
unfolding observe
observe-book = refl

apply_startup_conditions_lem_example :
    (cs : List Condition) × (apply_startup_conditions plain dedicated
        (pos 900)
        healthy
        book
        empty_status
      ≡ ok (
        record empty_status { conditions = some cs },
        says_true (volume_condition plain dedicated (pos 900) book seen_healthy)
            && says_true (workspace_condition plain dedicated (pos 900) book seen_healthy)
            && says_true (scheduled_condition plain dedicated (pos 900) book seen_healthy)
            && says_true (ready_condition plain dedicated (pos 900) book seen_healthy),
      ))
    × AllRecorded plain dedicated (pos 900) book seen_healthy [] cs
    × Unique cs
apply_startup_conditions_lem_example =
    apply_startup_conditions_lem plain dedicated (pos 900) healthy book empty_status seen_healthy
      observe-book tt

abbrev settled_status : RunnerStatus
settled_status = record empty_status {
  conditions = some (
      record {
        type_ = pvc_bound;
        status = "True";
        reason = "Bound";
        message = "Workspace slot is mounted";
        observed_generation = some (pos 1);
        last_transition_time = pos 900;
      }
      ∷ record {
        type_ = "WorkspaceReady";
        status = "True";
        reason = "JobComplete";
        message = "Not present";
        observed_generation = some (pos 1);
        last_transition_time = pos 900;
      }
      ∷ record {
        type_ = "PodScheduled";
        status = "True";
        reason = "Scheduled";
        message = "Pod has been scheduled";
        observed_generation = some (pos 1);
        last_transition_time = pos 900;
      }
      ∷ record {
        type_ = "PodReady";
        status = "True";
        reason = "Ready";
        message = "Ready";
        observed_generation = some (pos 1);
        last_transition_time = pos 900;
      }
      ∷ []);
}

first_pass :
    apply_startup_conditions plain dedicated (pos 900) healthy page empty_status
    ≡ ok (settled_status, true)
unfolding apply_startup_conditions observe update_conditions upsert_condition startup_complete
    volume_condition workspace_condition scheduled_condition ready_condition
first_pass = refl

apply_startup_conditions_idem_example :
    apply_startup_conditions plain dedicated
      (pos 999)
      healthy
      (with_status page settled_status)
      settled_status
    ≡ ok (settled_status, true)
unfolding claim_of
apply_startup_conditions_idem_example =
    apply_startup_conditions_idem plain dedicated (pos 900) (pos 999) healthy page empty_status
      settled_status true first_pass refl

abbrev config : Config
config = record { default_workspace_mode = dedicated; interval_secs = 15 }

-- The runner answers nothing: an outage of the ingress, say.
abbrev outage : Answers
outage = record {
  build = ok tt;
  connections = err (api (pos 502) "bad gateway");
  version = err (api (pos 502) "bad gateway");
  deleted = ok tt;
  patched = ok tt;
}

apply_quiet_example :
    (apply plain config healthy outage (pos 999) (with_status page settled_status)).calls ≡ []
unfolding claim_of is_unpolled
apply_quiet_example =
    apply_quiet plain config healthy outage (pos 900) (pos 999) page settled_status true first_pass
      refl refl

ready-kept_example : deletes (apply plain config healthy outage (pos 9000) book).calls ≡ false
unfolding ready_condition
ready-kept_example =
    ready-kept plain config healthy outage (pos 9000) book seen_healthy _ observe-book tt refl refl

render_or_claimed-kept_example :
    any is_poll (apply plain config healthy outage (pos 9000) page).calls ≡ false
render_or_claimed-kept_example =
    render_or_claimed-kept plain config healthy outage (pos 9000) page seen_healthy
      (unfold observe in refl) tt (inl refl)

-- Nobody is connected, and the runner is 8900 seconds old.
abbrev idle : Answers
idle = record outage { connections = ok 0; version = ok "0.1" }

idle_deleted : deletes (apply plain config healthy idle (pos 9000) book).calls ≡ true
unfolding apply apply_startup_conditions observe update_conditions upsert_condition startup_complete
    volume_condition workspace_condition scheduled_condition ready_condition is_unpolled
    poll_api_status is_collectable conditions_of is_inactive_past_deadline ◌+ℤ◌
idle_deleted = refl

apply-deletes_example :
    (seen : Snapshot) × (observe healthy book ≡ ok seen)
    × (is_unpolled book (started plain config healthy idle (pos 9000) book seen) ≡ false)
    × Collectable
        (ok 0)
        (conditions_of (started plain config healthy idle (pos 9000) book seen))
        book
        (pos 9000)
apply-deletes_example = apply-deletes plain config healthy idle (pos 9000) book idle_deleted

poll-deletes_iff_example :
    (deletes (poll_api_status idle (pos 9000) 15 book settled_status).calls ≡ true)
    ↔ Collectable (ok 0) (conditions_of settled_status) book (pos 9000)
unfolding polled_recently
poll-deletes_iff_example =
    poll-deletes_iff idle (pos 9000) 15 book settled_status "book" "team" refl refl refl refl
