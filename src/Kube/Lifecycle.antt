-- ===== src/Kube/Lifecycle.antt =====
-- The life of a pod of a pool as a small state machine, which every step of the system follows.
use kubimo.Common.{String, Option, some, ◌≡◌, ◌⊎◌, inl, inr, refl, ap}
use kubimo.Api.Pool.{pool_state_label, pool_state_warm, pool_state_claimed, pool_state_retiring}
use kubimo.Kube.Request.{Program}
use kubimo.Kube.Server.{Life, unborn, gone, alive, Server, Lawful}
use kubimo.Kube.Cautious.{Who, Cautious}
use kubimo.Kube.System.{
  System, Change, stays, ends, relabels, starts, Step, Run, stop, more, begin, turn, outside, Reach,
  later,
}
use kubimo.Kube.Moves.{Move, keeps, drops, mints, takes}
use kubimo.Kube.Exclusive.{turn-Move}

-- Not there yet, there with a state or without one, or over.
pub data Phase : Type 0 where
  coming over : Phase
  in_state : Option String → Phase

unfoldable pub phase : Life → Phase
phase unborn = coming
phase gone = over
phase (alive l) = in_state (l pool_state_label)

pub data Next : Phase → Phase → Type 0 where
  same : {p : Phase} → Next p p
  removed : {p : Phase} → Next p over
  created : {state : Option String} → Next coming (in_state state)
  claimed : Next (in_state (some pool_state_warm)) (in_state (some pool_state_claimed))
  retired : Next (in_state (some pool_state_warm)) (in_state (some pool_state_retiring))

Next-eq : {p q q' : Phase} → q' ≡ q → Next p q → Next p q'
Next-eq e n = rw e n

taken :
    {p q : Option String}
    → p ≡ some pool_state_warm
    → (q ≡ some pool_state_claimed) ⊎ (q ≡ some pool_state_retiring)
    → Next (in_state p) (in_state q)
taken w (inl c) = rw (w, c) claimed
taken w (inr r) = rw (w, r) retired

Move-Next : {D : Type 0} {x y : Life} → Move D x y → Next (phase x) (phase y)
unfolding phase
Move-Next keeps = same
Move-Next (drops _) = removed
Move-Next (mints _) = created
Move-Next (takes w to) = taken w to

Change-Next : {x y : Life} → Change x y → Next (phase x) (phase y)
unfolding phase
Change-Next stays = same
Change-Next ends = removed
Change-Next (relabels e _) = Next-eq (ap in_state e) same
Change-Next (starts _) = created

module _ {S : Type 0} (server : Server S) (laws : Lawful server)
    (Runs : Who → Program Unit → Type 0)
    (careful : (who : Who) (p : Program Unit) → Runs who p → Cautious who (λ _. ⊥) p) where
  open server use {life}

  -- A step from a reachable state.
  pub Step-Next :
      {s : S} {x y : System S}
      → Reach server Runs s x
      → Step server Runs x y
      → (name : String) → Next (phase (life x.state name)) (phase (life y.state name))
  Step-Next reach (begin i who p runs) name = same
  Step-Next reach (outside t change) name = Change-Next (change name)
  Step-Next reach (turn i who q k here new) name =
      Move-Next (turn-Move server laws Runs careful reach i who q k here new name)

  Run-Reach :
      {s : S} {x y : System S} → Reach server Runs s x → Run server Runs x y → Reach server Runs s y
  Run-Reach reach stop = reach
  Run-Reach reach (more r st) = later (Run-Reach reach r) st

  settled :
      {p q : Phase} (state : String)
      → (state ≡ pool_state_claimed) ⊎ (state ≡ pool_state_retiring)
      → (p ≡ in_state (some state)) ⊎ (p ≡ over)
      → Next p q
      → (q ≡ in_state (some state)) ⊎ (q ≡ over)
  settled state which at same = at
  settled state which at removed = inr refl
  settled state which (inl e) created = cc
  settled state which (inr e) created = cc
  settled state (inl c) (inl e) claimed = cc
  settled state (inr c) (inl e) claimed = cc
  settled state which (inr e) claimed = cc
  settled state (inl c) (inl e) retired = cc
  settled state (inr c) (inl e) retired = cc
  settled state which (inr e) retired = cc

  -- A pod that has been claimed, or has been withdrawn, in a reachable state is so in every later
  -- one, until it is gone: it never is the other.
  pub settled-stays :
      {s : S} {x y : System S}
      → Reach server Runs s x
      → Run server Runs x y
      → (name state : String) → (state ≡ pool_state_claimed) ⊎ (state ≡ pool_state_retiring)
      → phase (life x.state name) ≡ in_state (some state)
      → (phase (life y.state name) ≡ in_state (some state)) ⊎ (phase (life y.state name) ≡ over)
  settled-stays reach stop name state which at = inl at
  settled-stays reach (more r st) name state which at =
      settled state which (settled-stays reach r name state which at)
        (Step-Next (Run-Reach reach r) st name)
