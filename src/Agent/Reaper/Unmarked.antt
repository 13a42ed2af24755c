-- ===== src/Agent/Reaper/Unmarked.antt =====
-- A slot without a flush marker is no cache: agent/src/reaper.rs.
use kubimo.Common.{
  ℕ, Bool, true, false, ◌≡◌, ◌≢◌, refl, none, ◌==◌, number_partial_eq, Bool-cases, inl, inr,
}
use kubimo.Common.Result.{Result, ok, err}
use kubimo.Common.Text.{Text}
use kubimo.Agent.Volume.{Volume, StoreError}
use kubimo.Agent.Store.Publish.{is_published}
use kubimo.Agent.Store.Slots.{flushed_ago}
use kubimo.Agent.Reaper.{
  Reclaim, deleted, idle, superseded, idle_expired, still_holds, recheck, checked_marker, drop_if,
  reclaim_locked,
}

unheld-kept :
    (published : Result StoreError Bool) (namespace workspace : Text) (v : Volume)
    → drop_if published (ok false) namespace workspace v ≡ (0, v)
unfolding drop_if
unheld-kept (ok true) namespace workspace v = refl
unheld-kept (ok false) namespace workspace v = refl
unheld-kept (err e) namespace workspace v = refl

idle_unmarked : (idle_ttl : ℕ) → idle_expired none idle_ttl ≡ false
unfolding idle_expired
idle_unmarked idle_ttl = elim (Bool-cases (idle_ttl == 0)) [ inl e ↦ rw e refl | inr e ↦ rw e refl ]

pub unmarked-kept :
    (why : Reclaim) (idle_ttl : ℕ) (namespace workspace : Text) (v : Volume)
    → why ≢ deleted
    → (flushed_ago namespace workspace v).0 ≡ ok none
    → reclaim_locked why idle_ttl namespace workspace v ≡ (0, v)
unfolding reclaim_locked checked_marker recheck still_holds
unmarked-kept deleted idle_ttl namespace workspace v alive unmarked = absurd (alive refl)
unmarked-kept idle idle_ttl namespace workspace v alive unmarked =
    rw (unmarked, idle_unmarked idle_ttl)
      (unheld-kept (is_published namespace workspace v).0 namespace workspace v)
unmarked-kept superseded idle_ttl namespace workspace v alive unmarked =
    rw unmarked (unheld-kept (is_published namespace workspace v).0 namespace workspace v)
