-- ===== src/Runner/Careful.antt =====
-- The runner controller is cautious when it claims: it deletes only pods with its runner's name.
use mathlib.Core.List.{Memᴰ}
use kubimo.Common.{
  String, Bool, ◌≡◌, refl, sym, ◌∙◌, ◌⊎◌, inl, inr, Option, none, some, List, [], ◌∷◌, ◌==◌, not,
  find, filter, unwrap_or, is_some, Dict, Bool-cases, some-some, find_here, find_there,
  text_partial_eq,
}
use kubimo.Common.Result.{Result, ok, err, ok_or_parts}
use kubimo.Common.Equal.{option_partial_eq}
use kubimo.Api.Meta.{
  Error, OwnerReference, name_label, workspace_label, require_name, require_namespace,
  static_controller_owner_ref,
}
use kubimo.Api.Pod.{Pod}
use kubimo.Api.Runner.{Runner, RunnerClaim}
use kubimo.Api.Workspace.{Workspace, WorkspacePythonRuntime}
use kubimo.Api.Pool.{
  PoolClaim, Pool, pool_label, pool_state_label, pool_state_warm, claim_state_annotation,
  claim_state_failed,
}
use kubimo.Kube.Request.{
  get_pod, list_pods, patch_pod, delete_pod, get_secret, apply_secret, get_pool,
  patch_runner_status, Handler,
}
use kubimo.Kube.Cautious.{
  runner, Cautious, Plausible, Learned, Cautious-Sub, Cautious-bind, Cautious-answer, Cautious-call,
  Cautious-then, Cautious-if,
}
use kubimo.Pool.WarmPod.{claim_secret}
use kubimo.Runner.Sources.{pool_claim}
use kubimo.Runner.Eligible.{Context, eligible}
use kubimo.Runner.Winner.{claim_winner, may_hold_a_slot}
use kubimo.Runner.Claim.{
  claim_partial_eq, ClaimOutcome, record_claim, with_claim, clear_stale_claim, recorded_claim,
  copy_sidecar_secrets, copy_secrets, gather, merged, heal, bind_claim, settle, give_up,
  adopt_claimed_pod, after_patch, claim_first, claim_patch, claim_warm, claim_unshared, is_empty,
  claim_if, claim_from, is_mine, claim_or_adopt, claim_unless_cold, claim_in, apply_claim, claim_of,
  annotation_of, is_rival, claimed_here, is_lost,
}

-- The names of a pod are one's own.
Named : (String → Type 0) → Pod → Type 0
Named P pod = (name : String) → pod.metadata.name ≡ some name → P name

Named-required :
    (P : String → Type 0) (pod : Pod) {name : String}
    → Named P pod
    → require_name pod.metadata ≡ ok name
    → P name
unfolding Named require_name
Named-required P pod h e = h _ (ok_or_parts pod.metadata.name _ e)

find-Mem : (p : Pod → Bool) (pods : List Pod) {pod : Pod} → find p pods ≡ some pod → Memᴰ pod pods
find-Mem p [] e = cc
find-Mem p (pod ∷ pods) e = elim (Bool-cases (p pod)) [
  | inl t ↦ Memᴰ.head (some-some (sym e ∙ find_here p pod pods t))
  | inr t ↦ Memᴰ.tail (find-Mem p pods (sym (find_there p pod pods t) ∙ e))
]

module _ (me : String) where
  record-Cautious :
      (r : Runner) (claim : Option RunnerClaim) (P : String → Type 0)
      → Cautious (runner me) P (record_claim r claim)
  unfolding record_claim
  record-Cautious r claim P = Cautious-answer (runner me) (require_namespace r.metadata) _ P (λ _ _.
      Cautious-then (runner me) (patch_runner_status (with_claim claim r.status)) _ P tt (λ _. tt))

  pub clear_stale-Cautious :
      (r : Runner) (P : String → Type 0) → Cautious (runner me) P (clear_stale_claim r)
  unfolding clear_stale_claim
  clear_stale-Cautious r P =
      Cautious-if (runner me) (not (is_some (recorded_claim r))) _ _ P tt
        (Cautious-bind (runner me) (record_claim r none) _ P (record-Cautious r none P) (λ _. tt))

  module _ (ctx : Context) (debug : String → String)
      (to_json : PoolClaim → Result Error String) where
    gather-Cautious :
        (r : Runner) (into : Dict String) (names : List String) (P : String → Type 0)
        → Cautious (runner me) P (gather ctx debug to_json r into names)
    unfolding gather
    gather-Cautious r into [] P = tt
    gather-Cautious r into (name ∷ names) P =
        Cautious-then (runner me) (get_secret name) _ P tt (λ secret.
          Cautious-answer (runner me)
            (merged ctx debug to_json r into (unwrap_or secret.contents [])) _ P
            (λ into' _. gather-Cautious r into' names P))

    copy-Cautious :
        (r : Runner) (pod : Pod) (names : List String) (P : String → Type 0)
        → Cautious (runner me) P (copy_secrets ctx debug to_json r pod names)
    unfolding copy_secrets
    copy-Cautious r pod [] P = tt
    copy-Cautious r pod (name ∷ names) P =
        Cautious-answer (runner me) (require_namespace r.metadata) _ P (λ _ _.
          Cautious-bind (runner me) (gather ctx debug to_json r [] (name ∷ names)) _ P
            (gather-Cautious r [] (name ∷ names) P)
            (λ contents. Cautious-answer (runner me) (claim_secret pod) _ P (λ secret _.
              Cautious-then (runner me) (apply_secret (record secret { contents = some contents }))
                _ P tt (λ _. tt))))

    bind-Cautious :
        (r : Runner) (pool_name : String) (pod : Pod) (pod_name : String) (P : String → Type 0)
        → Cautious (runner me) P (bind_claim ctx debug to_json r pool_name pod pod_name)
    unfolding bind_claim heal copy_sidecar_secrets
    bind-Cautious r pool_name pod pod_name P =
        Cautious-bind (runner me) (heal ctx debug to_json r (claim_of pool_name pod_name pod)) _ P
          (Cautious-if (runner me) (recorded_claim r == some (claim_of pool_name pod_name pod)) _ _
            P tt (record-Cautious r _ P))
          (λ _.
            Cautious-bind (runner me) (copy_sidecar_secrets ctx debug to_json r pod) _ P
              (copy-Cautious r pod _ P) (λ _. tt))

    settle-Cautious :
        (r : Runner) (pool_name : String) (pod : Pod) (others : List Pod) (P : String → Type 0)
        → Named P pod
        → Cautious (runner me) P (settle ctx debug to_json r pool_name pod others)
    unfolding settle
    settle-Cautious r pool_name pod others P own =
        Cautious-answer (runner me) (require_name pod.metadata) _ P (λ pod_name named.
          Cautious-if (runner me) (is_rival (claim_winner (filter claimed_here others)) pod_name) _
            _ P
            (Cautious-then (runner me) (delete_pod pod_name) _ P (Named-required P pod own named)
              (λ _. tt))
            (bind-Cautious r pool_name pod pod_name P))

    give_up-Cautious :
        (r : Runner) (pod : Pod) (P : String → Type 0)
        → Named P pod
        → Cautious (runner me) P (give_up ctx debug to_json r pod)
    unfolding give_up
    give_up-Cautious r pod P own =
        Cautious-answer (runner me) (require_name pod.metadata) _ P (λ pod_name named.
          Cautious-then (runner me) (delete_pod pod_name) _ P (Named-required P pod own named) (λ _.
            Cautious-bind (runner me) (record_claim r none) _ P (record-Cautious r none P)
              (λ _. tt)))

    adopt-Cautious :
        (r : Runner) (pool_name : String) (pod : Pod) (P : String → Type 0)
        → Named P pod
        → Cautious (runner me) P (adopt_claimed_pod ctx debug to_json r pool_name pod)
    unfolding adopt_claimed_pod
    adopt-Cautious r pool_name pod P own =
        Cautious-answer (runner me) (require_namespace r.metadata) _ P (λ _ _.
          Cautious-if (runner me)
            (annotation_of claim_state_annotation pod == some claim_state_failed) _ _ P
            (give_up-Cautious r pod P own)
            (Cautious-then (runner me) (list_pods ((workspace_label, r.spec.workspace) ∷ [])) _ P tt
              (λ others. settle-Cautious r pool_name pod others P own)))

    patched-Cautious :
        (r : Runner) (pool_name claim_json : String) (next : Handler ClaimOutcome)
        (P : String → Type 0) (pod_name : String) (owner : OwnerReference)
        (reply : Result Error Pod)
        → Plausible (patch_pod pod_name (claim_patch me r.spec.workspace owner claim_json)) reply
        → Cautious (runner me) P next
        → Cautious
            (runner me)
            (λ name.
              P name
              ⊎ Learned
                  (runner me)
                  (patch_pod pod_name (claim_patch me r.spec.workspace owner claim_json))
                  reply
                  name)
            (after_patch ctx debug to_json r pool_name reply next)
    unfolding after_patch claim_patch Named
    patched-Cautious r pool_name claim_json next P pod_name owner (ok pod) named h =
        adopt-Cautious r pool_name pod _ (λ name e. inr (some-some (sym named ∙ e), refl))
    patched-Cautious r pool_name claim_json next P pod_name owner (err e) named h =
        Cautious-if (runner me) (is_lost e) _ _ _
          (Cautious-Sub (runner me) next P _ (λ name own. inl own) h) tt

    claim_first-Cautious :
        (r : Runner) (pool_name claim_json : String) (pods : List Pod) (P : String → Type 0)
        → Cautious (runner me) P (claim_first ctx debug to_json r me pool_name claim_json pods)
    unfolding claim_first claim_patch
    claim_first-Cautious r pool_name claim_json [] P = tt
    claim_first-Cautious r pool_name claim_json (pod ∷ pods) P =
        Cautious-answer (runner me) (require_name pod.metadata) _ P (λ pod_name _.
          Cautious-answer (runner me) (static_controller_owner_ref "Runner" r.metadata) _ P
            (λ owner _. (
              ((refl, refl), inl refl),
              λ reply plausible.
                  patched-Cautious r pool_name claim_json
                    (claim_first ctx debug to_json r me pool_name claim_json pods) P pod_name owner
                    reply plausible (claim_first-Cautious r pool_name claim_json pods P),
            )))

    is_mine-own :
        (mine : List Pod) (pod : Pod)
        → Plausible (list_pods ((name_label, me) ∷ [])) (ok mine)
        → find is_mine mine ≡ some pod
        → (P : String → Type 0)
        → Named
            (λ name.
              P name ⊎ Learned (runner me) (list_pods ((name_label, me) ∷ [])) (ok mine) name)
            pod
    unfolding Named
    is_mine-own mine pod plausible found P name named =
        let mem = find-Mem is_mine mine found in
        inr (pod, mem, named, plausible pod mem name_label me (Memᴰ.head refl))

    warm-Cautious :
        (r : Runner) (w : Workspace) (pool_name : String) (P : String → Type 0)
        → Cautious (runner me) P (claim_warm ctx debug to_json r w me pool_name)
    unfolding claim_warm
    warm-Cautious r w pool_name P =
        Cautious-then (runner me)
          (list_pods ((pool_label, pool_name) ∷ (pool_state_label, pool_state_warm) ∷ [])) _ P tt
          (λ warm.
            Cautious-answer (runner me) (to_json (pool_claim ctx.float64 r w)) _ P
              (λ claim_json _. claim_first-Cautious r pool_name claim_json _ P))

    unshared-Cautious :
        (r : Runner) (w : Workspace) (pool_name : String) (P : String → Type 0)
        → Cautious (runner me) P (claim_unshared ctx debug to_json r w me pool_name)
    unfolding claim_unshared
    unshared-Cautious r w pool_name P =
        Cautious-then (runner me) (list_pods ((workspace_label, r.spec.workspace) ∷ [])) _ P tt
          (λ pods.
            Cautious-if (runner me) (is_empty (filter may_hold_a_slot pods)) _ _ P
              (warm-Cautious r w pool_name P) tt)

    if-Cautious :
        (verdict : Result String Unit) (next : Handler ClaimOutcome) (P : String → Type 0)
        → Cautious (runner me) P next
        → Cautious (runner me) P (claim_if verdict next)
    unfolding claim_if
    if-Cautious (ok _) next P h = h
    if-Cautious (err reason) next P h = tt

    from-Cautious :
        (r : Runner) (w : Workspace) (runtime : WorkspacePythonRuntime) (pool_name : String)
        (found : Option Pool) (P : String → Type 0)
        → Cautious (runner me) P (claim_from ctx debug to_json r w runtime me pool_name found)
    unfolding claim_from
    from-Cautious r w runtime pool_name none P = tt
    from-Cautious r w runtime pool_name (some pool) P =
        if-Cautious (eligible ctx r w pool runtime) _ P (unshared-Cautious r w pool_name P)

    or_adopt-Cautious :
        (r : Runner) (w : Workspace) (runtime : WorkspacePythonRuntime) (pool_name : String)
        (mine : List Pod) (found : Option Pod) (P : String → Type 0)
        → Plausible (list_pods ((name_label, me) ∷ [])) (ok mine)
        → find is_mine mine ≡ found
        → Cautious
            (runner me)
            (λ name.
              P name ⊎ Learned (runner me) (list_pods ((name_label, me) ∷ [])) (ok mine) name)
            (claim_or_adopt ctx debug to_json r w runtime me pool_name found)
    unfolding claim_or_adopt
    or_adopt-Cautious r w runtime pool_name mine (some pod) P plausible found =
        adopt-Cautious r pool_name pod _ (is_mine-own mine pod plausible found P)
    or_adopt-Cautious r w runtime pool_name mine none P plausible found =
        Cautious-then (runner me) (get_pool pool_name) _ _ tt
          (λ pool. from-Cautious r w runtime pool_name pool _)

    unless_cold-Cautious :
        (r : Runner) (w : Workspace) (runtime : WorkspacePythonRuntime) (pool_name : String)
        (cold : Option Pod) (P : String → Type 0)
        → Cautious (runner me) P (claim_unless_cold ctx debug to_json r w runtime me pool_name cold)
    unfolding claim_unless_cold
    unless_cold-Cautious r w runtime pool_name (some _) P = tt
    unless_cold-Cautious r w runtime pool_name none P =
        Cautious-call (runner me) (list_pods ((name_label, me) ∷ [])) _ P tt (λ mine plausible.
          or_adopt-Cautious r w runtime pool_name mine (find is_mine mine) P plausible refl)

    in-Cautious :
        (r : Runner) (w : Workspace) (runtime : WorkspacePythonRuntime) (pool_name : Option String)
        (P : String → Type 0)
        → require_name r.metadata ≡ ok me
        → Cautious (runner me) P (claim_in ctx debug to_json r w runtime pool_name)
    unfolding claim_in
    in-Cautious r w runtime none P named = tt
    in-Cautious r w runtime (some pool_name) P named =
        Cautious-answer (runner me) (require_namespace r.metadata) _ P (λ _ _. rw named (
          Cautious-then (runner me) (get_pod me) _ P tt
            (λ cold. unless_cold-Cautious r w runtime pool_name cold P)))

    pub apply_claim-Cautious :
        (r : Runner) (w : Workspace) (runtime : WorkspacePythonRuntime) (P : String → Type 0)
        → require_name r.metadata ≡ ok me
        → Cautious (runner me) P (apply_claim ctx debug to_json r w runtime)
    unfolding apply_claim
    apply_claim-Cautious r w runtime P named = in-Cautious r w runtime r.spec.pool P named
