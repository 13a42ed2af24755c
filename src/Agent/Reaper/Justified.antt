-- ===== src/Agent/Reaper/Justified.antt =====
-- When a sweep drops a slot.
use kubimo.Common.{
  ℕ, ◌<◌, ◌≤◌, String, Bool, true, false, not, ◌&&◌, ◌≡◌, ◌≢◌, ◌⊎◌, inl, inr, refl, Option, none,
  some, List, is_some, is_some_and, arith, Bool-cases, ◌==◌, number_partial_eq, &&_iff, and_then,
  text_partial_eq, eq_iff,
}
use kubimo.Common.Result.{Result, ok, err}
use kubimo.Common.Text.{Text, codes_partial_eq}
use kubimo.Api.Workspace.{Workspace}
use kubimo.Agent.Volume.{Volume, StoreError}
use kubimo.Agent.Store.Publish.{is_published}
use kubimo.Agent.Store.Slots.{flushed_ago}
use kubimo.Agent.Reaper.{
  Reclaim, deleted, idle, superseded, Answers, idle_expired, is_superseded, reason, decide,
  should_reclaim, still_holds, recheck, checked_marker, remove_counted, was_published, drop_if,
  turn, reclaim_locked, sweep_one,
}

-- A reason to drop the slot of a workspace: it is gone; or the slot's flush marker is there, and older
-- than the time to live or on a node that the workspace has left.
pub data Reason (answers : Answers) (node_name : String) (idle_ttl : ℕ) (namespace workspace : Text)
    (v : Volume) : Type 0 where
  gone :
      answers.workspace namespace workspace ≡ ok none
      → Reason answers node_name idle_ttl namespace workspace v
  aged :
      (found : Workspace) (age : ℕ)
      → answers.workspace namespace workspace ≡ ok (some found)
      → (flushed_ago namespace workspace v).0 ≡ ok (some age)
      → 0 < idle_ttl
      → idle_ttl ≤ age
      → Reason answers node_name idle_ttl namespace workspace v
  moved :
      (found : Workspace) (age : ℕ) (node : String)
      → answers.workspace namespace workspace ≡ ok (some found)
      → (flushed_ago namespace workspace v).0 ≡ ok (some age)
      → and_then found.status (λ s. and_then s.slot (λ slot. slot.node)) ≡ some node
      → node ≢ node_name
      → Reason answers node_name idle_ttl namespace workspace v

-- What the answer must be for each reason.
pub data Chosen {Fault : Type 0} (node_name : String)
    : Result Fault (Option Workspace) → Reclaim → Type 0 where
  none_found : Chosen node_name (ok none) deleted
  too_old : (found : Workspace) → Chosen node_name (ok (some found)) idle
  elsewhere :
      (found : Workspace)
      → is_superseded node_name found ≡ true
      → Chosen node_name (ok (some found)) superseded

reason-Chosen :
    {Fault : Type 0} (node_name : String) (found : Workspace) (idle_ttl : ℕ)
    (r : Result StoreError (Option ℕ)) (why : Reclaim)
    → reason (is_superseded node_name found) idle_ttl r ≡ some why
    → Chosen {Fault = Fault} node_name (ok (some found)) why
unfolding reason
reason-Chosen node_name found idle_ttl (err e) why h = cc
reason-Chosen node_name found idle_ttl (ok flushed) why h =
    elim (Bool-cases (is_superseded node_name found && is_some flushed)) [
      | inl e ↦
          let same : superseded ≡ why = cc (rw e at h) in
          rw (← same)
            (elsewhere found (((&&_iff (is_superseded node_name found) (is_some flushed)).0 e).0))
      | inr e ↦ elim (Bool-cases (idle_expired flushed idle_ttl)) [
        | inl f ↦ let same : idle ≡ why = cc (rw (e, f) at h) in rw (← same) (too_old found)
        | inr f ↦ cc (rw (e, f) at h)
      ]
    ]

decide-Chosen :
    {Fault : Type 0} (v : Volume) (node_name : String) (idle_ttl : ℕ) (namespace workspace : Text)
    (answer : Result Fault (Option Workspace)) (why : Reclaim)
    → decide v node_name idle_ttl namespace workspace answer ≡ some why
    → Chosen node_name answer why
unfolding decide
decide-Chosen v node_name idle_ttl namespace workspace (err e) why h = cc
decide-Chosen v node_name idle_ttl namespace workspace (ok none) why h =
    let same : deleted ≡ why = cc in rw (← same) none_found
decide-Chosen v node_name idle_ttl namespace workspace (ok (some found)) why h =
    reason-Chosen node_name found idle_ttl ((flushed_ago namespace workspace v).0) why h

idle-age :
    (idle_ttl : ℕ) (r : Result StoreError (Option ℕ))
    → recheck idle idle_ttl r ≡ ok true
    → (age : ℕ) × (r ≡ ok (some age)) × (0 < idle_ttl) × (idle_ttl ≤ age)
unfolding recheck still_holds idle_expired
idle-age idle_ttl (err e) h = cc
idle-age idle_ttl (ok none) h = ground (arith, h)
idle-age idle_ttl (ok (some age)) h = (age, refl, ground (arith, h), ground (arith, h))

superseded-age :
    (idle_ttl : ℕ) (r : Result StoreError (Option ℕ))
    → recheck superseded idle_ttl r ≡ ok true
    → (age : ℕ) × (r ≡ ok (some age))
unfolding recheck still_holds
superseded-age idle_ttl (err e) h = cc
superseded-age idle_ttl (ok none) h = cc
superseded-age idle_ttl (ok (some age)) h = (age, refl)

other_node :
    (node_name : String) (o : Option String)
    → is_some_and (λ node. not (node == node_name)) o ≡ true
    → (node : String) × (o ≡ some node) × (node ≢ node_name)
other_node node_name none h = cc
other_node node_name (some node) h =
    (node, refl, λ e. ground (arith, h, (eq_iff node node_name).1 e))

-- The reason with what the flush marker says under the lock.
marker-Reason :
    (answers : Answers) (node_name : String) (idle_ttl : ℕ) (namespace workspace : Text)
    (v : Volume) (answer : Result answers.Fault (Option Workspace)) (why : Reclaim)
    → answers.workspace namespace workspace ≡ answer
    → Chosen node_name answer why
    → checked_marker why idle_ttl namespace workspace v ≡ ok true
    → Reason answers node_name idle_ttl namespace workspace v
unfolding checked_marker is_superseded
marker-Reason answers node_name idle_ttl namespace workspace v _ _ a none_found h = gone a
marker-Reason answers node_name idle_ttl namespace workspace v _ _ a (too_old found) h =
    let (age, e, pos, le) = idle-age idle_ttl ((flushed_ago namespace workspace v).0) h in
    aged found age a e pos le
marker-Reason answers node_name idle_ttl namespace workspace v _ _ a (elsewhere found s) h =
    let (age, e) = superseded-age idle_ttl ((flushed_ago namespace workspace v).0) h in
    let (node, n, ne) =
      other_node node_name (and_then found.status (λ st. and_then st.slot (λ slot. slot.node))) s in
    moved found age node a e n ne

-- What holds when a slot is dropped: it was not published at the start of the sweep, it is not
-- published now that the lock is held, and there is a reason.
pub record Justified (answers : Answers) (node_name : String) (idle_ttl : ℕ)
    (published : List (Text × Text)) (namespace workspace : Text) (v : Volume) : Type 0 where
  pub absent : was_published published namespace workspace ≡ false
  pub unmounted : (is_published namespace workspace v).0 ≡ ok false
  pub reason : Reason answers node_name idle_ttl namespace workspace v

drop_if-cases :
    (p m : Result StoreError Bool) (namespace workspace : Text) (v : Volume)
    → (drop_if p m namespace workspace v ≡ (0, v))
      ⊎ ((p ≡ ok false)
          × (m ≡ ok true)
          × (drop_if p m namespace workspace v ≡ remove_counted namespace workspace v))
unfolding drop_if
drop_if-cases (err _) m namespace workspace v = inl refl
drop_if-cases (ok true) m namespace workspace v = inl refl
drop_if-cases (ok false) (err _) namespace workspace v = inl refl
drop_if-cases (ok false) (ok false) namespace workspace v = inl refl
drop_if-cases (ok false) (ok true) namespace workspace v = inr (refl, refl, refl)

turn-Justified :
    (answers : Answers) (node_name : String) (idle_ttl : ℕ) (others : Volume → Volume)
    (published : List (Text × Text)) (namespace workspace : Text) (v : Volume)
    (choice : Option Reclaim)
    → should_reclaim answers v node_name idle_ttl published namespace workspace ≡ choice
    → (turn choice idle_ttl others namespace workspace v ≡ (0, v))
      ⊎ (turn choice idle_ttl others namespace workspace v ≡ (0, others v))
      ⊎ (Justified answers node_name idle_ttl published namespace workspace (others v)
          × (turn choice idle_ttl others namespace workspace v
              ≡ remove_counted namespace workspace (others v)))
unfolding turn reclaim_locked should_reclaim
turn-Justified answers node_name idle_ttl others published namespace workspace v none h = inl refl
turn-Justified answers node_name idle_ttl others published namespace workspace v (some why) h =
    elim (Bool-cases (was_published published namespace workspace)) [
      | inl p ↦ cc (rw p at h)
      | inr p ↦
          let chosen =
            decide-Chosen v node_name idle_ttl namespace workspace
              (answers.workspace namespace workspace) why (rw p at h) in
          elim (drop_if-cases ((is_published namespace workspace (others v)).0)
            (checked_marker why idle_ttl namespace workspace (others v)) namespace workspace
            (others v)) [
              | inl k ↦ inr (inl k)
              | inr (unmounted, marker, k) ↦ inr (
                  inr (
                    record {
                      absent = p;
                      unmounted = unmounted;
                      reason =
                          marker-Reason answers node_name idle_ttl namespace workspace (others v)
                            (answers.workspace namespace workspace) why refl chosen marker;
                    },
                    k,
                  ))
            ]
    ]

-- One turn of a sweep leaves the volume as it was, or as the rest of the agent made it before the
-- lock was taken, or it drops the slot; and that it does only if the workspace was in no publish
-- record at the start of the sweep and is in none under the lock, and the API server said that
-- it is gone, or the slot is flushed and the marker as read under the lock is at least a nonzero
-- time to live old or the API server gave another node for it.
pub sweep_one-Justified :
    (answers : Answers) (node_name : String) (idle_ttl : ℕ) (others : Volume → Volume)
    (published : List (Text × Text)) (namespace workspace : Text) (v : Volume)
    → (sweep_one answers node_name idle_ttl others published namespace workspace v ≡ (0, v))
      ⊎ (sweep_one answers node_name idle_ttl others published namespace workspace v
          ≡ (0, others v))
      ⊎ (Justified answers node_name idle_ttl published namespace workspace (others v)
          × (sweep_one answers node_name idle_ttl others published namespace workspace v
              ≡ remove_counted namespace workspace (others v)))
unfolding sweep_one
sweep_one-Justified answers node_name idle_ttl others published namespace workspace v =
    turn-Justified answers node_name idle_ttl others published namespace workspace v
      (should_reclaim answers v node_name idle_ttl published namespace workspace) refl
