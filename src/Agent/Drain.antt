-- ===== src/Agent/Drain.antt =====
-- Draining a node before the agent goes: agent/src/drain.rs. What the API server and the store
-- answer are arguments; the wait is a recursion on fuel.
pub mod Ends
pub mod Independent
mod Examples
use kubimo.Common.{
  ℕ, zero, suc, ◌+◌, ◌^◌, ◌-◌, String, Bool, true, false, Option, none, some, List, [], ◌∷◌, any,
  unwrap_or, is_some, is_some_and, leb, ◌==◌, text_partial_eq, if◌then◌else◌,
}
use kubimo.Common.Result.{Result, ok, err}
use kubimo.Common.Text.{Text}
use kubimo.Api.Meta.{ObjectMeta}

-- Of a pod its metadata and, for each volume of its spec, the CSI driver if it has one.
pub record SlotPod : Type 0 where
  pub metadata : ObjectMeta
  pub volumes : Option (List (Option String))

pub record Summary : Type 0 where
  pub deleted : ℕ
  pub drained : Bool

abbrev pub driver_name : String
driver_name = "kubimo.aqora.io"

unfoldable pub holds_a_slot : SlotPod → Bool
holds_a_slot pod = is_some_and (any (is_some_and (λ d. d == driver_name))) pod.volumes

-- The seconds of grace are a `u32`.
unfoldable pub grace_period : ℕ → ℕ
grace_period secs = if leb secs (2 ^ 32 - 1) then secs else 2 ^ 32 - 1

pub record Deletion : Type 0 where
  pub namespace : String
  pub name : String
  pub grace_period_seconds : ℕ

-- The deletions that were asked for, and how many were granted.
pub record Deleted : Type 0 where
  pub calls : List Deletion
  pub count : ℕ

module _ (E : Type 0) (delete : Deletion → Result E Unit) (grace_secs : ℕ) where
  granted : Result E Unit → ℕ
  granted (ok _) = 1
  granted (err _) = 0

  deletion_of : SlotPod → String → Deletion
  unfolding grace_period
  deletion_of pod name = record {
    namespace = unwrap_or pod.metadata.namespace "default";
    name = name;
    grace_period_seconds = grace_period grace_secs;
  }

  delete_named : SlotPod → Option String → Deleted → Deleted
  unfolding granted deletion_of
  delete_named pod none rest = rest
  delete_named pod (some name) rest = record {
    calls = deletion_of pod name ∷ rest.calls;
    count = granted (delete (deletion_of pod name)) + rest.count;
  }

  -- A pod that cannot be deleted does not keep the others.
  unfoldable pub delete_slot_pods : List SlotPod → Deleted
  unfolding delete_named holds_a_slot
  delete_slot_pods [] = record { calls = []; count = 0 }
  delete_slot_pods (pod ∷ pods) =
      let rest = delete_slot_pods pods in
      if holds_a_slot pod
      then (if is_some pod.metadata.deletion_timestamp
          then rest
          else delete_named pod pod.metadata.name rest)
      else rest

-- What the store says at each poll, and the clock then.
module _ {E : Type 0} (published : ℕ → Result E (List (Text × Text))) (clock : ℕ → ℕ)
    (deadline : ℕ) where
  poll_with : Result E (List (Text × Text)) → Bool → Option Bool → Option Bool
  poll_with (ok []) late rest = some true
  poll_with (ok (_ ∷ _)) late rest = if late then some false else rest
  poll_with (err _) late rest = some false

  -- Whether the node drained; none if the fuel ran out.
  unfoldable pub wait : ℕ → ℕ → Option Bool
  unfolding poll_with
  wait zero i = none
  wait (suc fuel) i =
      let rest = wait fuel (suc i) in poll_with (published i) (leb deadline (clock i)) rest

summary_of : ℕ → Option Bool → Option Summary
summary_of deleted none = none
summary_of deleted (some drained) = some (record { deleted = deleted; drained = drained })

-- First the node is marked as draining, so that nothing new is published; then the pods are
-- listed and deleted, and the wait begins. The deletions asked for stand beside the result.
unfoldable pub run :
    {E : Type 0} (marked : Result E Unit) (listed : Result E (List SlotPod))
    (delete : Deletion → Result E Unit) (grace_secs : ℕ)
    (published : ℕ → Result E (List (Text × Text))) (clock : ℕ → ℕ) (deadline fuel : ℕ)
    → List Deletion × Result E (Option Summary)
unfolding summary_of
run (err e) listed delete grace_secs published clock deadline fuel = ([], err e)
run (ok _) (err e) delete grace_secs published clock deadline fuel = ([], err e)
run {E} (ok _) (ok pods) delete grace_secs published clock deadline fuel =
    let deleted = delete_slot_pods E delete grace_secs pods in
    (deleted.calls, ok (summary_of deleted.count (wait published clock deadline fuel 0)))
