-- ===== src/Pool/Minted.antt =====
-- A pod that the controller mints is one that its next pass keeps.
use kubimo.Common.{ℕ, String, true, ◌≡◌, refl, sym, List, [], ◌∷◌, eq_refl, text_partial_eq}
use kubimo.Common.Result.{ok, ok_parts, ok-ok, ok_or_parts}
use kubimo.Api.Meta.{require_name, require_namespace, static_controller_owner_ref}
use kubimo.Api.Pod.{Pod}
use kubimo.Api.Pool.{Pool, pool_label}
use kubimo.Kube.Request.{label_of}
use kubimo.Pool.Fleet.{classify, place, is_fresh}
use kubimo.Pool.WarmPod.{
  Config, Fingerprint, WarmPodIdentity, build_warm_pod, template_hash, fingerprint,
}

with_replicas : ℕ → Pool → Pool
with_replicas n pool = record pool { spec = record pool.spec { replicas = n } }

module _ (digest : Fingerprint → List ℕ) (path : String → String) where
  -- What a pass makes of a pod.
  pub Counted : Config → Pool → Pod → Type 0
  Counted config pool pod =
      (label_of pool_label pod ≡ pool.metadata.name)
      × ((classify (pod ∷ [])).warm ≡ pod ∷ [])
      × ((n : ℕ) → is_fresh (template_hash digest path config (with_replicas n pool)) pod ≡ true)

  -- A warm pod that is built has the label of the pool, and is warm and fresh for any later pass
  -- under the same template, whatever the number of replicas is then.
  pub build_warm_pod-Counted :
      (config : Config) (pool : Pool) (identity : WarmPodIdentity) (pod : Pod)
      → build_warm_pod digest path config pool identity ≡ ok pod
      → Counted config pool pod
  unfolding build_warm_pod Counted classify place is_fresh template_hash fingerprint with_replicas
      require_name
  build_warm_pod-Counted config pool identity pod h =
      let (pool_name, named, h') = ok_parts (require_name pool.metadata) _ h in
      let (namespace, _, h'') = ok_parts (require_namespace pool.metadata) _ h' in
      let (owner, _, e) = ok_parts (static_controller_owner_ref "Pool" pool.metadata) _ h'' in
      rw (sym (ok-ok e)) (
        sym (ok_or_parts pool.metadata.name _ named),
        refl,
        λ n. eq_refl (template_hash digest path config pool),
      )
