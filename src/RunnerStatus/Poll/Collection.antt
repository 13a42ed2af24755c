-- ===== src/RunnerStatus/Poll/Collection.antt =====
-- When the poll deletes a runner: controller/src/controllers/runner_status/mod.rs.
use kubimo.Common.{
  ap, ℕ, String, Bool, true, false, ◌&&◌, ◌||◌, not, ◌≡◌, ◌↔◌, refl, some, List, arith, any,
  is_some, is_some_and, is_some_and_iff, &&_iff,
}
use kubimo.Common.Int.{ℤ, pos, ◌+ℤ◌, ◌<ℤ◌, ◌≤ℤ◌, lt_int_iff, le_int_iff}
use kubimo.Common.Result.{Result, ok, err, to_option}
use kubimo.Api.Meta.{Condition, Timestamp, Error}
use kubimo.Api.Runner.{Runner, RunnerStatus}
use kubimo.RunnerStatus.Upsert.{pod_is_ready, pod_ready_age_secs}
use kubimo.RunnerStatus.Poll.{
  Call, delete_runner, Answers, is_active, is_collectable, deadline_of, idle_since,
  is_inactive_past_deadline, unreachable_is_collectable, conditions_of, polled_recently, poll_now,
  poll_api_status,
}

abbrev pub is_delete : Call → Bool
is_delete (delete_runner name) = true
is_delete _ = false

abbrev pub deletes : List Call → Bool
deletes = any is_delete

-- What must be so for a runner to be collected, in the orders of the integers.
pub record Collectable (connections : Result Error ℕ) (conditions : List Condition)
    (runner : Runner) (now : Timestamp) : Type 0 where
  pub inactive : (n : ℕ) → connections ≡ ok n → n ≡ 0
  pub limit : ℕ
  pub deadline : deadline_of runner ≡ some limit
  pub since : ℤ
  pub idle : idle_since runner ≡ some since
  pub past : since +ℤ pos limit <ℤ now
  pub unhealthy :
      (e : Error)
      → connections ≡ err e
      → (pod_is_ready conditions ≡ false)
        × ((age : ℤ) × (pod_ready_age_secs conditions now ≡ some age) × (pos 300 ≤ℤ age))

inactive_past_iff :
    (runner : Runner) (limit : ℕ) (now : Timestamp)
    → (is_inactive_past_deadline runner limit now ≡ true)
      ↔ ((since : ℤ) × (idle_since runner ≡ some since) × (since +ℤ pos limit <ℤ now))
unfolding is_inactive_past_deadline
inactive_past_iff runner limit now = (
  λ h.
      let (since, e, lt) = (is_some_and_iff _ (idle_since runner)).0 h in
      (since, e, (lt_int_iff (since +ℤ pos limit) now).0 lt),
  λ (since, e, lt).
      (is_some_and_iff _ (idle_since runner)).1
        (since, e, (lt_int_iff (since +ℤ pos limit) now).1 lt),
)

not-true : (b : Bool) → not b ≡ true → b ≡ false
not-true b h = ground arith

reached_or :
    (r : Result Error ℕ) (b : Bool)
    → ((e : Error) → r ≡ err e → b ≡ true)
    → (is_some (to_option r) || b) ≡ true
reached_or (ok n) b h = refl
reached_or (err e) b h = h e refl

inactive_of :
    (r : Result Error ℕ)
    → ((n : ℕ) → r ≡ ok n → n ≡ 0)
    → not (is_some_and is_active (to_option r)) ≡ true
unfolding is_active
inactive_of (ok n) h = ground (arith, h n refl)
inactive_of (err e) h = refl

unreachable_iff :
    (conditions : List Condition) (now : Timestamp)
    → (unreachable_is_collectable conditions now ≡ true) ↔ (
        (pod_is_ready conditions ≡ false)
        × ((age : ℤ) × (pod_ready_age_secs conditions now ≡ some age) × (pos 300 ≤ℤ age)))
unfolding unreachable_is_collectable
unreachable_iff conditions now = (
  λ h.
      let (unready, old) = (&&_iff _ _).0 h in
      let (age, e, le) = (is_some_and_iff _ (pod_ready_age_secs conditions now)).0 old in
      (not-true _ unready, (age, e, (le_int_iff (pos 300) age).0 le)),
  λ (unready, (age, e, le)). (&&_iff _ _).1 (
    ap not unready,
    (is_some_and_iff _ (pod_ready_age_secs conditions now)).1
        (age, e, (le_int_iff (pos 300) age).1 le),
  ),
)

module _ (answers : Answers) (now : Timestamp) (interval : ℕ) (runner : Runner)
    (status : RunnerStatus) where
  abbrev reply : Result Error ℕ
  reply = answers.connections

  abbrev due : List Condition → ℕ → Bool
  due conditions limit =
      (is_some (to_option reply) || unreachable_is_collectable conditions now)
      && is_inactive_past_deadline runner limit now

  is_collectable_iff :
      (conditions : List Condition)
      → (is_collectable runner conditions (to_option reply) now ≡ true)
        ↔ Collectable reply conditions runner now
  unfolding is_collectable
  is_collectable_iff conditions = (
    λ h.
        let (idle, rest) = (&&_iff (not (is_some_and is_active (to_option reply))) _).0 h in
        let (limit, e, both) = (is_some_and_iff (due conditions) (deadline_of runner)).0 rest in
        let (reached, gone) =
          (&&_iff (is_some (to_option reply) || unreachable_is_collectable conditions now) _).0
            both in
        let (since, s, lt) = (inactive_past_iff runner limit now).0 gone in
        record {
          inactive = λ n r. unfold is_active in ground (arith, idle);
          limit = limit;
          deadline = e;
          since = since;
          idle = s;
          past = lt;
          unhealthy = λ x r. (unreachable_iff conditions now).0 (ground (arith, reached));
        },
    λ c. (&&_iff _ _).1 (
      inactive_of reply c.inactive,
      (is_some_and_iff _ (deadline_of runner)).1 (
        c.limit,
        c.deadline,
        (&&_iff _ _).1 (
          reached_or reply _ (λ x r. (unreachable_iff conditions now).1 (c.unhealthy x r)),
          (inactive_past_iff runner c.limit now).1 (c.since, c.idle, c.past),
        ),
      ),
    ),
  )

  delete_now :
      (name namespace : String)
      → answers.build ≡ ok tt
      → runner.metadata.name ≡ some name
      → runner.metadata.namespace ≡ some namespace
      → deletes (poll_now answers now interval runner status).calls
        ≡ is_collectable runner (conditions_of status) (to_option reply) now
  unfolding poll_now
  delete_now name namespace b n ns = ground arith

  delete_only :
      deletes (poll_now answers now interval runner status).calls ≡ true
      → is_collectable runner (conditions_of status) (to_option reply) now ≡ true
  unfolding poll_now
  delete_only h = ground arith

  -- Unless the runner was polled less than an interval ago, and as long as its API can be addressed
  -- and it has a name and a namespace, the poll deletes the runner exactly if `Collectable` holds.
  pub poll-deletes_iff :
      (name namespace : String)
      → polled_recently runner interval now ≡ false
      → answers.build ≡ ok tt
      → runner.metadata.name ≡ some name
      → runner.metadata.namespace ≡ some namespace
      → (deletes (poll_api_status answers now interval runner status).calls ≡ true)
        ↔ Collectable reply (conditions_of status) runner now
  unfolding poll_api_status
  poll-deletes_iff name namespace r b n ns =
      rw r (rw (delete_now name namespace b n ns) (is_collectable_iff (conditions_of status)))

  -- Whatever is answered, a poll that deletes the runner had grounds for it.
  pub poll-deletes :
      deletes (poll_api_status answers now interval runner status).calls ≡ true
      → Collectable reply (conditions_of status) runner now
  unfolding poll_api_status
  poll-deletes h = (is_collectable_iff (conditions_of status)).0 (delete_only (ground (arith, h)))
