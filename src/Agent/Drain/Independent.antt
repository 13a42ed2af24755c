-- ===== src/Agent/Drain/Independent.antt =====
-- Whether a pod can be deleted has no bearing on the other deletions.
use kubimo.Common.{
  ℕ, ◌≤◌, ◌≡◌, refl, ap, inl, inr, Option, none, some, String, List, [], ◌∷◌, length, arith,
  is_some, Bool-cases,
}
use kubimo.Common.Result.{Result, ok, err}
use kubimo.Agent.Drain.{
  SlotPod, Deletion, Deleted, holds_a_slot, delete_named, delete_slot_pods, deletion_of, granted,
}

-- Each kind of result of the deletions: the same calls, and no more granted than asked for.
Fair : Deleted → Deleted → Type 0
Fair a b = (a.calls ≡ b.calls) × (a.count ≤ length a.calls)

module _ (E : Type 0) (delete delete' : Deletion → Result E Unit) (grace_secs : ℕ) where
  granted_le : (r : Result E Unit) → granted E delete grace_secs r ≤ 1
  unfolding granted
  granted_le (ok _) = omega arith
  granted_le (err _) = omega arith

  named-Fair :
      (pod : SlotPod) (name : Option String) (a b : Deleted)
      → Fair a b
      → Fair
          (delete_named E delete grace_secs pod name a)
          (delete_named E delete' grace_secs pod name b)
  unfolding Fair delete_named
  named-Fair pod none a b h = h
  named-Fair pod (some name) a b (same, le) = (
    ap (λ calls. deletion_of E delete grace_secs pod name ∷ calls) same,
    omega (arith, le, granted_le (delete (deletion_of E delete grace_secs pod name))),
  )

  -- The deletions that a drain asks for are the same whatever each of them comes to, and no more
  -- are counted than were asked for.
  pub delete_slot_pods_fair :
      (pods : List SlotPod)
      → ((delete_slot_pods E delete grace_secs pods).calls
          ≡ (delete_slot_pods E delete' grace_secs pods).calls)
        × ((delete_slot_pods E delete grace_secs pods).count
            ≤ length (delete_slot_pods E delete grace_secs pods).calls)
  unfolding delete_slot_pods Fair
  delete_slot_pods_fair [] = (refl, omega arith)
  delete_slot_pods_fair (pod ∷ pods) = elim (Bool-cases (holds_a_slot pod)) [
    | inr e ↦ rw e (delete_slot_pods_fair pods)
    | inl e ↦ rw e (elim (Bool-cases (is_some pod.metadata.deletion_timestamp)) [
      | inl t ↦ rw t (delete_slot_pods_fair pods)
      | inr t ↦ rw t (named-Fair pod pod.metadata.name _ _ (delete_slot_pods_fair pods))
    ])
  ]
