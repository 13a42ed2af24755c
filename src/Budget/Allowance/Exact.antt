-- ===== src/Budget/Allowance/Exact.antt =====
-- What the allowance of a workspace means: the sizes that fit all its budgets.
use mathlib.Core.Path.{subst₂}
use kubimo.Common.{
  and_then, ◌⊎◌, sym, ◌∙◌, ℕ, ◌+◌, ◌-◌, ◌≤◌, ◌<◌, String, ◌≡◌, ◌↔◌, Option, none, some, List, [],
  true, false, refl, Bool-cases, ◌∷◌, arith, inl, inr, Option-cases, and_then_parts, ◌^◌,
}
use kubimo.Common.Result.{ok, ok_parts}
use kubimo.Api.Meta.{require_name, require_namespace}
use kubimo.Api.Pod.{PersistentVolumeClaim}
use kubimo.Api.Quantity.{Float64, to_bytes}
use kubimo.Api.Quantity.Bounds.{to_bytes-lt}
use kubimo.Api.Workspace.{Workspace, WorkspaceMode}
use kubimo.Api.Budget.{Budget, matches}
use kubimo.Budget.Sum.{
  u64_max, saturated, Namespace, sum_workspace_storage, total_bytes, pvc_requests,
  sum_workspace_storage_lem, sum-listed,
}
use kubimo.Budget.Allowance.{
  tighten, governing_cap, allowance_step, allowance_loop, workspace_storage_allowance,
}

module _ (fl : Float64) (default_mode : WorkspaceMode) (ns : Namespace) where
  -- Does a size fit under an allowance? Without one it always does.
  abbrev pub Allows : Option ℕ → ℕ → Type 0
  Allows none s = Unit
  Allows (some a) s = s ≤ a

  -- The budget does not match the workspace or has no limit, or the size fits with what the other
  -- workspaces of the budget commit.
  abbrev pub Fits : Workspace → String → List PersistentVolumeClaim → Budget → ℕ → Type 0
  Fits w name pvcs budget s =
      ((matches budget.spec w.metadata.labels ≡ false)
        ⊎ (and_then budget.spec.storage (to_bytes fl) ≡ none))
      ⊎ ((cap : ℕ) × (ws : List Workspace) × (matches budget.spec w.metadata.labels ≡ true)
          × (and_then budget.spec.storage (to_bytes fl) ≡ some cap)
          × (ns.workspaces budget.spec.selector ≡ ok ws)
          × (total_bytes fl default_mode (pvc_requests fl [] pvcs) (some name) ws + s ≤ cap))

  abbrev pub FitsAll : Workspace → String → List PersistentVolumeClaim → List Budget → ℕ → Type 0
  FitsAll w name pvcs [] s = Unit
  FitsAll w name pvcs (budget ∷ rest) s = Fits w name pvcs budget s × FitsAll w name pvcs rest s

  governing_none :
      (w : Workspace) (b : Budget)
      → (governing_cap fl default_mode ns w b ≡ none) ↔ (
          (matches b.spec w.metadata.labels ≡ false)
          ⊎ (and_then b.spec.storage (to_bytes fl) ≡ none))
  unfolding governing_cap
  governing_none w b = elim (Bool-cases (matches b.spec w.metadata.labels)) [
    | inl e ↦ rw e (λ h. inr h, λ o. elim o [ inl f ↦ cc | inr h ↦ h ])
    | inr e ↦ rw e (λ _. inl refl, λ _. refl)
  ]

  governing_some :
      (w : Workspace) (b : Budget) (cap : ℕ)
      → (governing_cap fl default_mode ns w b ≡ some cap) ↔ (
          (matches b.spec w.metadata.labels ≡ true)
          × (and_then b.spec.storage (to_bytes fl) ≡ some cap))
  unfolding governing_cap
  governing_some w b cap = elim (Bool-cases (matches b.spec w.metadata.labels)) [
    | inl e ↦ rw e (λ h. (refl, h), λ (_, h). h)
    | inr e ↦ rw e (λ h. cc, λ (f, _). cc)
  ]

  governing_cap-le :
      (w : Workspace) (b : Budget) (cap : ℕ)
      → governing_cap fl default_mode ns w b ≡ some cap
      → cap ≤ u64_max
  unfolding governing_cap
  governing_cap-le w b cap h =
      let limit : and_then b.spec.storage (to_bytes fl) ≡ some cap = ground arith in
      let (q, _, e) = and_then_parts b.spec.storage (to_bytes fl) limit in
      let fits : cap < 2 ^ 64 = to_bytes-lt fl q cap e in omega arith

  tighten_iff :
      (acc : Option ℕ) (headroom s : ℕ)
      → Allows (tighten fl default_mode ns acc headroom) s ↔ (Allows acc s × (s ≤ headroom))
  unfolding tighten
  tighten_iff none headroom s = ground arith
  tighten_iff (some a) headroom s = ground arith

  headroom_iff :
      (cap total s : ℕ) → cap ≤ u64_max → 0 < s → (s ≤ cap - saturated total) ↔ (total + s ≤ cap)
  headroom_iff cap total s c p = ground arith

  fitting :
      (w : Workspace) (name : String) (pvcs : List PersistentVolumeClaim) (s : ℕ) (budget : Budget)
      (limit : ℕ) (ws : List Workspace)
      → governing_cap fl default_mode ns w budget ≡ some limit
      → ns.workspaces budget.spec.selector ≡ ok ws
      → Fits w name pvcs budget s
      → total_bytes fl default_mode (pvc_requests fl [] pvcs) (some name) ws + s ≤ limit
  fitting w name pvcs s budget limit ws e listed (inl g) =
      absurd (cc (sym e ∙ (governing_none w budget).1 g))
  fitting w name pvcs s budget limit ws e listed (inr (limit', ws', m, g, l, le)) =
      subst₂
        (λ c (x : List Workspace).
          total_bytes fl default_mode (pvc_requests fl [] pvcs) (some name) x + s ≤ c)
        (cc (sym ((governing_some w budget limit').1 (m, g)) ∙ e)) (cc (sym l ∙ listed)) le

  step_iff :
      (w : Workspace) (name : String) (pvcs : List PersistentVolumeClaim) (s : ℕ) (budget : Budget)
      (acc acc' : Option ℕ)
      → ns.pvcs ≡ ok pvcs
      → 0 < s
      → allowance_step fl default_mode ns name acc budget
          (governing_cap fl default_mode ns w budget)
        ≡ ok acc'
      → Allows acc' s ↔ (Allows acc s × Fits w name pvcs budget s)
  unfolding allowance_step
  step_iff w name pvcs s budget acc acc' p pos h =
      elim (Option-cases (governing_cap fl default_mode ns w budget)) [
        | inl e ↦
            let same : acc ≡ acc' = cc (rw e at h) in
            (λ a. (rw same a, inl ((governing_none w budget).0 e)), λ both. rw (← same) both.0)
        | inr (cap, e) ↦ step_some cap e (rw e at h)
      ]
    where
      step_some :
          (cap : ℕ)
          → governing_cap fl default_mode ns w budget ≡ some cap
          → allowance_step fl default_mode ns name acc budget (some cap) ≡ ok acc'
          → Allows acc' s ↔ (Allows acc s × Fits w name pvcs budget s)
      step_some cap e h' =
          let (n, sum, tight) =
            ok_parts (sum_workspace_storage fl default_mode ns budget.spec.selector (some name)) _
              h' in
          let (ws, listed) = sum-listed fl default_mode ns budget.spec.selector (some name) n sum in
          let total : ℕ = total_bytes fl default_mode (pvc_requests fl [] pvcs) (some name) ws in
          let value : n ≡ saturated total = cc (
            sum_workspace_storage_lem fl default_mode ns budget.spec.selector (some name) ws pvcs
                listed p,
            sum,
          ) in
          let same : tighten fl default_mode ns acc (cap - saturated total) ≡ acc' =
            cc (tight, value) in
          let room = headroom_iff cap total s (governing_cap-le w budget cap e) pos in
          let both = tighten_iff acc (cap - saturated total) s in
          (
            λ a.
                let (old, fits) = both.0 (rw same a) in
                let (m, limit) = (governing_some w budget cap).0 e in
                (old, inr (cap, ws, m, limit, listed, room.0 fits)),
            λ (old, fits).
                rw (← same)
                  (both.1 (old, room.1 (fitting w name pvcs s budget cap ws e listed fits))),
          )

  loop_iff :
      (w : Workspace) (name : String) (pvcs : List PersistentVolumeClaim) (s : ℕ)
      (budgets : List Budget) (acc acc' : Option ℕ)
      → ns.pvcs ≡ ok pvcs
      → 0 < s
      → allowance_loop fl default_mode ns w name acc budgets ≡ ok acc'
      → Allows acc' s ↔ (Allows acc s × FitsAll w name pvcs budgets s)
  unfolding allowance_loop
  loop_iff w name pvcs s [] acc acc' p pos h =
      let same : acc ≡ acc' = cc in (λ a. (rw same a, tt), λ both. rw (← same) both.0)
  loop_iff w name pvcs s (budget ∷ rest) acc acc' p pos h =
      let (mid, one, more) =
        ok_parts
          (allowance_step fl default_mode ns name acc budget
            (governing_cap fl default_mode ns w budget))
          _ h in
      let here = step_iff w name pvcs s budget acc mid p pos one in
      let there = loop_iff w name pvcs s rest mid acc' p pos more in
      (
        λ a. let (m, r) = there.0 a in let (o, f) = here.0 m in (o, (f, r)),
        λ (o, (f, r)). there.1 (here.1 (o, f), r),
      )

  allowance_looped :
      (w : Workspace) (name : String) (budgets : List Budget) (allowance : Option ℕ)
      → w.metadata.name ≡ some name
      → ns.budgets ≡ ok budgets
      → workspace_storage_allowance fl default_mode ns w ≡ ok allowance
      → allowance_loop fl default_mode ns w name none budgets ≡ ok allowance
  unfolding workspace_storage_allowance
  allowance_looped w name budgets allowance n b h =
      let (_, _, named) = ok_parts (require_namespace w.metadata) _ h in
      let (name', e, listed) = ok_parts (require_name w.metadata) _ named in
      let (budgets', l, looped) = ok_parts ns.budgets _ listed in
      let same_name : name' ≡ name = cc (rw (n, require_name) at e) in
      let same_budgets : budgets' ≡ budgets = cc (sym l ∙ b) in
      subst₂ (λ x (bs : List Budget). allowance_loop fl default_mode ns w x none bs ≡ ok allowance)
        same_name same_budgets looped

  -- Whenever an allowance is computed for a named workspace, and the volume claims can be listed, a
  -- positive size is within it (any size is, if there is none) exactly if for each budget that
  -- governs the workspace and has a limit the size and what the other matching workspaces commit,
  -- summed without any cut-off, are together within the limit.
  pub allowance_exact :
      (w : Workspace) (name : String) (budgets : List Budget) (pvcs : List PersistentVolumeClaim)
      (allowance : Option ℕ) (s : ℕ)
      → w.metadata.name ≡ some name
      → ns.budgets ≡ ok budgets
      → ns.pvcs ≡ ok pvcs
      → workspace_storage_allowance fl default_mode ns w ≡ ok allowance
      → 0 < s
      → Allows allowance s ↔ FitsAll w name pvcs budgets s
  allowance_exact w name budgets pvcs allowance s n b p h pos =
      let looped = allowance_looped w name budgets allowance n b h in
      let both = loop_iff w name pvcs s budgets none allowance p pos looped in
      (λ a. (both.0 a).1, λ f. both.1 (tt, f))
