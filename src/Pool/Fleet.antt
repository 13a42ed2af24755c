-- ===== src/Pool/Fleet.antt =====
-- The pods of a pool by their state, and which warm pods are kept:
-- controller/src/controllers/pool/mod.rs.
pub mod Kept
use kubimo.Common.{
  ℕ, String, Bool, not, ◌+◌, ◌%◌, ◌^◌, Option, none, some, List, [], ◌∷◌, ◌++◌, ◌==◌,
  text_partial_eq, if◌then◌else◌, is_some, is_some_and, and_then, lookup, filter, sort_by, take,
  drop, length, leb,
}
use kubimo.Common.Int.{le_int}
use kubimo.Common.Equal.{le_option}
use kubimo.Api.Pod.{Pod}
use kubimo.Api.Pool.{
  pool_state_label, pool_state_warm, pool_state_claimed, pool_state_retiring,
  pool_template_hash_annotation,
}
use kubimo.Kube.Request.{label_of}

-- `claimed` is a `u32`.
pub record Fleet : Type 0 where
  pub warm : List Pod
  pub claimed : ℕ
  pub retiring : List Pod

-- A pod without a state, or with another one, is left alone.
unfoldable pub place : Pod → Option String → Fleet → Fleet
place pod none fleet = fleet
place pod (some state) fleet =
    if state == pool_state_warm
    then record fleet { warm = pod ∷ fleet.warm }
    else if state == pool_state_claimed
    then record fleet { claimed = (fleet.claimed + 1) % 2 ^ 32 }
    else if state == pool_state_retiring
    then record fleet { retiring = pod ∷ fleet.retiring }
    else fleet

unfoldable pub classify : List Pod → Fleet
unfolding place
classify [] = record { warm = []; claimed = 0; retiring = [] }
classify (pod ∷ pods) =
    let fleet = classify pods in
    if is_some pod.metadata.deletion_timestamp
    then fleet
    else place pod (label_of pool_state_label pod) fleet

abbrev pub not_younger : Pod → Pod → Bool
not_younger p q = le_option le_int p.metadata.creation_timestamp q.metadata.creation_timestamp

unfoldable pub is_fresh : String → Pod → Bool
is_fresh template_hash pod =
    is_some_and (λ h. h == template_hash)
      (and_then pod.metadata.annotations (lookup pool_template_hash_annotation))

unfoldable pub min : ℕ → ℕ → ℕ
min a b = if leb a b then a else b

-- The kept pods are the oldest fresh ones, as many as replicas; the others are excess.
pub record Split : Type 0 where
  pub kept : List Pod
  pub excess : List Pod

unfoldable pub split_warm : String → ℕ → List Pod → Split
unfolding is_fresh min
split_warm template_hash replicas pods =
    let warm = sort_by not_younger pods in
    let fresh = filter (is_fresh template_hash) warm in
    let drifted = filter (λ p. not (is_fresh template_hash p)) warm in
    let keep = min replicas (length fresh) in
    record { kept = take keep fresh; excess = drifted ++ drop keep fresh }
