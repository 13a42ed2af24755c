-- ===== src/Agent/Drain/Ends.antt =====
-- A drain ends, and says that it drained only if nothing was published any more.
use mathlib.Core.Path.{subst}
use kubimo.Common.{
  ◌<◌, ℕ, zero, suc, ◌+◌, ◌≤◌, ◌≡◌, ◌⊎◌, inl, inr, refl, Bool, true, false, Option, some, List, [],
  ◌∷◌, leb, arith, Bool-cases,
}
use kubimo.Common.Result.{Result, ok, err}
use kubimo.Common.Text.{Text}
use kubimo.Agent.Drain.{wait, poll_with}

module _ {E : Type 0} (published : ℕ → Result E (List (Text × Text))) (clock : ℕ → ℕ)
    (deadline : ℕ) where
  -- Volumes are published at the poll, and the deadline has not come.
  pub Waiting : ℕ → Type 0
  Waiting i =
      ((volume : Text × Text) × (rest : List (Text × Text)) × (published i ≡ ok (volume ∷ rest)))
      × (clock i < deadline)

  -- What the poll says for a wait to end at it.
  pub Reason : Bool → ℕ → Type 0
  Reason true i = published i ≡ ok []
  Reason false i =
      (((volume : Text × Text) × (rest : List (Text × Text)) × (published i ≡ ok (volume ∷ rest)))
        × (deadline ≤ clock i))
      ⊎ ((e : E) × (published i ≡ err e))

  -- The wait that begins at poll `i` ends at poll `j`, and at none before.
  pub Ended : ℕ → Option Bool → Type 0
  Ended i o =
      (drained : Bool) × (j : ℕ) × (o ≡ some drained)
      × (i ≤ j)
      × ((k : ℕ) → i ≤ k → k < j → Waiting k)
      × Reason drained j

  at-Ended : (i : ℕ) (drained : Bool) → Reason drained i → Ended i (some drained)
  unfolding Ended
  at-Ended i drained r = (drained, i, refl, ground arith, λ k h l. absurd (ground (arith, h, l)), r)

  later-Ended : (i : ℕ) (o : Option Bool) → Waiting i → Ended (suc i) o → Ended i o
  unfolding Ended
  later-Ended i o w (drained, j, e, le, waiting, r) = (
    drained,
    j,
    e,
    omega (arith, le),
    λ k h l. elim (at_or_past i k h) [
      | inl same ↦ subst Waiting same w
      | inr past ↦ waiting k past l
    ],
    r,
  )
    where
      at_or_past : (i k : ℕ) → i ≤ k → (i ≡ k) ⊎ (suc i ≤ k)
      at_or_past i k h = ground (arith, h)

  poll-Ended :
      (i : ℕ) (r : Result E (List (Text × Text))) (rest : Option Bool)
      → published i ≡ r
      → (clock i < deadline → Ended (suc i) rest)
      → Ended i (poll_with published clock deadline r (leb deadline (clock i)) rest)
  unfolding poll_with Reason Waiting
  poll-Ended i (ok []) rest e later = at-Ended i true e
  poll-Ended i (err x) rest e later = at-Ended i false (inr (x, e))
  poll-Ended i (ok (p ∷ ps)) rest e later = elim (Bool-cases (leb deadline (clock i))) [
    | inl t ↦ rw t (at-Ended i false (inl ((p, ps, e), ground (arith, t))))
    | inr t ↦
        let early : clock i < deadline = ground (arith, t) in
        rw t (later-Ended i rest ((p, ps, e), early) (later early))
  ]

  -- If the clock moves on between the polls, a wait that begins at poll `i`, with as much fuel as
  -- there is time to the deadline, and one more, ends at a poll `j`, and with the result of that poll:
  -- as drained when nothing is published at it, and as not drained when something is published at or
  -- past the deadline, or the records cannot be read. At each poll before, something is published and
  -- the deadline has not come.
  pub wait-Ended :
      ((i : ℕ) → clock i + 1 ≤ clock (suc i))
      → (fuel i : ℕ) → deadline ≤ clock i + fuel
      → (drained : Bool) × (j : ℕ) × (wait published clock deadline (suc fuel) i ≡ some drained)
        × (i ≤ j)
        × ((k : ℕ) → i ≤ k → k < j → Waiting k)
        × Reason drained j
  unfolding wait Ended
  wait-Ended ticks zero i h =
      poll-Ended i (published i) _ refl (λ early. absurd (omega (arith, early, h)))
  wait-Ended ticks (suc fuel) i h =
      poll-Ended i (published i) _ refl
        (λ _. wait-Ended ticks fuel (suc i) (omega (arith, ticks i)))
