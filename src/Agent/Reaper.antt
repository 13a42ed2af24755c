-- ===== src/Agent/Reaper.antt =====
-- The sweeps that drop slots: agent/src/reaper.rs.
pub mod Justified
pub mod Unmarked
use kubimo.Common.{
  ℕ, suc, ◌+◌, String, Bool, true, false, not, ◌&&◌, Option, none, some, List, [], ◌∷◌, any,
  is_some, is_some_and, and_then, if◌then◌else◌, leb, ◌==◌, text_partial_eq, number_partial_eq,
}
use kubimo.Common.Result.{Result, ok, err}
use kubimo.Common.Text.{Text, codes_partial_eq}
use kubimo.Api.Workspace.{Workspace}
use kubimo.Agent.Volume.{Volume, StoreError}
use kubimo.Agent.Store.Publish.{published_workspaces, is_published}
use kubimo.Agent.Store.Slots.{flushed_ago}
use kubimo.Agent.Store.Reclaim.{workspaces, remove_slot}
use kubimo.Agent.Store.Pool.{pool_pods, lookup_pool, remove_pool_slot}

-- Why a slot is dropped.
pub data Reclaim : Type 0 where
  deleted idle superseded : Reclaim

-- What the API server answers: an error, no such object, or the object. No client for a namespace
-- counts as an error.
pub record Answers : Type 1 where
  pub Fault : Type 0
  pub workspace : Text → Text → Result Fault (Option Workspace)
  pub pod_exists : Text → Text → Result Fault Bool

-- In nanoseconds; zero turns eviction off.
unfoldable pub idle_expired : Option ℕ → ℕ → Bool
idle_expired flushed idle_ttl = not (idle_ttl == 0) && is_some_and (λ age. leb idle_ttl age) flushed

unfoldable pub is_superseded : String → Workspace → Bool
is_superseded node_name found =
    is_some_and (λ node. not (node == node_name))
      (and_then found.status (λ s. and_then s.slot (λ slot. slot.node)))

reason : Bool → ℕ → Result StoreError (Option ℕ) → Option Reclaim
reason is_superseded_ idle_ttl (err e) = none
reason is_superseded_ idle_ttl (ok flushed) =
    if is_superseded_ && is_some flushed
    then some superseded
    else if idle_expired flushed idle_ttl
    then some idle
    else none

decide :
    {Fault : Type 0}
    → Volume
    → String
    → ℕ
    → Text
    → Text
    → Result Fault (Option Workspace)
    → Option Reclaim
unfolding reason
decide v node_name idle_ttl namespace workspace (err e) = none
decide v node_name idle_ttl namespace workspace (ok none) = some deleted
decide v node_name idle_ttl namespace workspace (ok (some found)) =
    reason (is_superseded node_name found) idle_ttl ((flushed_ago namespace workspace v).0)

-- May the slot be dropped, and why?
pub was_published : List (Text × Text) → Text → Text → Bool
was_published published namespace workspace =
    any (λ (n, w). (n == namespace) && (w == workspace)) published

unfoldable pub should_reclaim :
    Answers → Volume → String → ℕ → List (Text × Text) → Text → Text → Option Reclaim
unfolding decide was_published
should_reclaim answers v node_name idle_ttl published namespace workspace =
    if was_published published namespace workspace
    then none
    else decide v node_name idle_ttl namespace workspace (answers.workspace namespace workspace)

-- Does the reason still hold when the flush marker is read again?
unfoldable pub still_holds : Reclaim → ℕ → Option ℕ → Bool
unfolding idle_expired
still_holds deleted idle_ttl flushed = true
still_holds idle idle_ttl flushed = idle_expired flushed idle_ttl
still_holds superseded idle_ttl flushed = is_some flushed

counted : Result StoreError Bool → ℕ
counted (ok true) = 1
counted (ok false) = 0
counted (err e) = 0

pub remove_counted : Text → Text → Volume → ℕ × Volume
unfolding counted
remove_counted namespace workspace v =
    let (r, v') = remove_slot namespace workspace v in (counted r, v')

recheck : Reclaim → ℕ → Result StoreError (Option ℕ) → Result StoreError Bool
unfolding still_holds
recheck why idle_ttl (err e) = err e
recheck why idle_ttl (ok flushed) = ok (still_holds why idle_ttl flushed)

checked_marker : Reclaim → ℕ → Text → Text → Volume → Result StoreError Bool
unfolding recheck
checked_marker deleted idle_ttl namespace workspace v = ok true
checked_marker why idle_ttl namespace workspace v =
    recheck why idle_ttl ((flushed_ago namespace workspace v).0)

-- The slot is dropped if the workspace is known to be unpublished and the reason is known to hold.
drop_if : Result StoreError Bool → Result StoreError Bool → Text → Text → Volume → ℕ × Volume
unfolding remove_counted
drop_if (ok false) (ok true) namespace workspace v = remove_counted namespace workspace v
drop_if (ok false) _ namespace workspace v = (0, v)
drop_if (ok true) _ namespace workspace v = (0, v)
drop_if (err e) _ namespace workspace v = (0, v)

-- What is done under the lock of the workspace, on the volume as it is then.
unfoldable pub reclaim_locked : Reclaim → ℕ → Text → Text → Volume → ℕ × Volume
unfolding checked_marker drop_if
reclaim_locked why idle_ttl namespace workspace v =
    drop_if ((is_published namespace workspace v).0)
      (checked_marker why idle_ttl namespace workspace v) namespace workspace v

turn : Option Reclaim → ℕ → (Volume → Volume) → Text → Text → Volume → ℕ × Volume
unfolding reclaim_locked
turn none idle_ttl others namespace workspace v = (0, v)
turn (some why) idle_ttl others namespace workspace v =
    reclaim_locked why idle_ttl namespace workspace (others v)

-- One turn of the sweep. `others` is what the rest of the agent does to the volume between the
-- decision and the moment that the workspace's lock is taken.
unfoldable pub sweep_one :
    Answers
    → String
    → ℕ
    → (Volume → Volume)
    → List (Text × Text)
    → Text
    → Text
    → Volume
    → ℕ × Volume
unfolding turn
sweep_one answers node_name idle_ttl others published namespace workspace v =
    turn (should_reclaim answers v node_name idle_ttl published namespace workspace) idle_ttl others
      namespace workspace v

sweep_loop :
    Answers
    → String
    → ℕ
    → (Text → Text → Volume → Volume)
    → List (Text × Text)
    → List (Text × Text)
    → Volume
    → ℕ × Volume
unfolding sweep_one
sweep_loop answers node_name idle_ttl others published [] v = (0, v)
sweep_loop answers node_name idle_ttl others published ((n, w) ∷ rest) v =
    let (here, v') = sweep_one answers node_name idle_ttl (others n w) published n w v in
    let (there, v'') = sweep_loop answers node_name idle_ttl others published rest v' in
    (here + there, v'')

-- One pass: the number of slots reclaimed, and the volume after it.
unfoldable pub sweep : Answers → String → ℕ → (Text → Text → Volume → Volume) → Volume → ℕ × Volume
unfolding sweep_loop
sweep answers node_name idle_ttl others v =
    sweep_loop answers node_name idle_ttl others (published_workspaces v) (workspaces v) v

-- A pool pod's slot is dropped under its lock, if the pod is known to be gone and the slot is there.
unfoldable pub sweep_pool_slot : Answers → (Volume → Volume) → Text → Text → Volume → Volume
sweep_pool_slot answers others namespace pod v = elim (answers.pod_exists namespace pod) [
  | err _ ↦ v
  | ok true ↦ v
  | ok false ↦ elim ((lookup_pool namespace pod (others v)).0) [
    | err _ ↦ others v
    | ok none ↦ others v
    | ok (some _) ↦ (remove_pool_slot namespace pod (others v)).1
  ]
]

sweep_pool_loop : Answers → (Text → Text → Volume → Volume) → List (Text × Text) → Volume → Volume
unfolding sweep_pool_slot
sweep_pool_loop answers others [] v = v
sweep_pool_loop answers others ((n, p) ∷ rest) v =
    sweep_pool_loop answers others rest (sweep_pool_slot answers (others n p) n p v)

unfoldable pub sweep_orphaned_pool_slots :
    Answers → (Text → Text → Volume → Volume) → Volume → Volume
unfolding sweep_pool_loop
sweep_orphaned_pool_slots answers others v = sweep_pool_loop answers others (pool_pods v) v
