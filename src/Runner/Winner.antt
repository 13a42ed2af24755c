-- ===== src/Runner/Winner.antt =====
-- Which claimed pod of a workspace stays: controller/src/controllers/runner/apply_claim.rs.
pub mod Agreed
use kubimo.Common.{
  String, Bool, not, ◌||◌, Option, none, List, [], ◌∷◌, and_then, is_some_and, is_some, ◌==◌,
  text_partial_eq, if◌then◌else◌,
}
use kubimo.Common.Int.{ℤ, le_int}
use kubimo.Common.Equal.{le_text, le_option, le_pair}
use kubimo.Api.Pod.{Pod}
use kubimo.Kube.Request.{label_of}

unfoldable pub has_label_key : Pod → String → Bool
has_label_key pod key = is_some (label_of key pod)

unfoldable pub may_hold_a_slot : Pod → Bool
may_hold_a_slot pod = not (
    is_some_and (λ phase. phase == "Succeeded" || phase == "Failed")
      (and_then pod.status (λ s. s.phase)))

-- The oldest, by name among those of the same age.
unfoldable pub key_of : Pod → Option ℤ × Option String
key_of pod = (pod.metadata.creation_timestamp, pod.metadata.name)

abbrev pub le_key : Option ℤ × Option String → Option ℤ × Option String → Bool
le_key = le_pair (le_option le_int) (le_option le_text)

-- `Iterator::min_by_key`: the first of the least.
unfoldable pub least : Pod → List Pod → Pod
unfolding key_of
least best [] = best
least best (pod ∷ pods) =
    let next = if le_key (key_of best) (key_of pod) then best else pod in least next pods

unfoldable pub claim_winner : List Pod → Option String
unfolding least
claim_winner [] = none
claim_winner (pod ∷ pods) = (least pod pods).metadata.name
