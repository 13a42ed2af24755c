-- ===== src/Agent/Drain/Examples.antt =====
-- The theorems about draining at a node with two pods.
use kubimo.Common.{
  ℕ, ◌*◌, ◌≤◌, ◌<◌, ◌≡◌, refl, String, Bool, true, none, some, List, [], ◌∷◌, length, arith, leb,
  if◌then◌else◌,
}
use kubimo.Common.Result.{Result, ok, err}
use kubimo.Common.Text.{Text, codes}
use kubimo.Agent.Drain.{SlotPod, Deletion, driver_name, delete_slot_pods, wait, run}
use kubimo.Agent.Drain.Ends.{Reason, Waiting, wait-Ended}
use kubimo.Agent.Drain.Independent.{delete_slot_pods_fair}

abbrev slot_pod : String → SlotPod
slot_pod name = record {
  metadata = record {
    name = some name;
    uid = none;
    namespace = some "team";
    labels = none;
    annotations = none;
    creation_timestamp = none;
    deletion_timestamp = none;
    generation = none;
  };
  volumes = some (none ∷ some driver_name ∷ []);
}

abbrev pods : List SlotPod
pods = slot_pod "book" ∷ record (slot_pod "web") { volumes = none } ∷ slot_pod "page" ∷ []

abbrev refuse : Deletion → Result String Unit
refuse _ = err "forbidden"

-- The last volume goes before the third poll.
abbrev published : ℕ → Result String (List (Text × Text))
published i = if leb 2 i then ok [] else ok ((codes "team", codes "demo") ∷ [])

abbrev clock : ℕ → ℕ
clock i = 5 * i

run_drained : run (ok tt) (ok pods) (λ _. ok tt) 30 published clock 60 20 ≡ (
  record { namespace = "team"; name = "book"; grace_period_seconds = 30 }
      ∷ record { namespace = "team"; name = "page"; grace_period_seconds = 30 }
      ∷ [],
  ok (some (record { deleted = 2; drained = true })),
)
unfolding run delete_slot_pods wait
run_drained = refl

wait-Ended_example :
    (drained : Bool) × (j : ℕ) × (wait published clock 60 61 0 ≡ some drained)
    × (0 ≤ j)
    × ((k : ℕ) → 0 ≤ k → k < j → Waiting published clock 60 k)
    × Reason published clock 60 drained j
wait-Ended_example = wait-Ended published clock 60 (λ i. omega arith) 60 0 (omega arith)

delete_slot_pods_fair_example :
    ((delete_slot_pods String refuse 30 pods).calls
      ≡ (delete_slot_pods String (λ _. ok tt) 30 pods).calls)
    × ((delete_slot_pods String refuse 30 pods).count
        ≤ length (delete_slot_pods String refuse 30 pods).calls)
delete_slot_pods_fair_example = delete_slot_pods_fair String refuse (λ _. ok tt) 30 pods
