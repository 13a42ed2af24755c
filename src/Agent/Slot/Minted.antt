-- ===== src/Agent/Slot/Minted.antt =====
-- The slot ids that the agent mints: agent/src/slot.rs.
use mathlib.Core.Path.{subst}
use kubimo.Common.{
  ℕ, zero, suc, ◌+◌, ◌<◌, Bool, true, ◌≡◌, refl, sym, ap, ◌∙◌, some, some-some, List, [], ◌∷◌, ◌++◌,
  all, length, arith, &&_iff, Bool-cases, inl, inr, ◌==◌, number_partial_eq, same_number_iff, any,
  not, ◌&&◌, Option-cases, ◌≤◌, ◌⊎◌, and_then_parts,
}
use kubimo.Common.Result.{ok}
use kubimo.Common.Text.{Text}
use kubimo.Agent.Slot.{
  SlotId, slot_alphabet, slot_prefix, slot_random_len, letter, draw, draw_letters, generate,
  in_alphabet, parse,
}
use kubimo.Agent.Slot.Parse.{parse_iff}

letter-some :
    (p : ℕ → Bool) (cs : List ℕ) (n : ℕ)
    → all p cs ≡ true
    → n < length cs
    → (c : ℕ) × (letter cs n ≡ some c) × (p c ≡ true)
unfolding letter
letter-some p [] n h lt = absurd (omega (arith, lt))
letter-some p (c ∷ cs) zero h lt = (c, refl, ((&&_iff (p c) (all p cs)).0 h).0)
letter-some p (c ∷ cs) (suc n) h lt =
    letter-some p cs n ((&&_iff (p c) (all p cs)).0 h).1 (omega (arith, lt))

distinct : List ℕ → Bool
distinct [] = true
distinct (c ∷ cs) = not (any (λ d. d == c) cs) && distinct cs

letter-any : (cs : List ℕ) (n c : ℕ) → letter cs n ≡ some c → any (λ d. d == c) cs ≡ true
unfolding letter
letter-any [] n c h = cc
letter-any (d ∷ cs) zero c h = rw ((same_number_iff d c).1 (some-some h)) refl
letter-any (d ∷ cs) (suc n) c h = elim (Bool-cases (d == c)) [
  | inl e ↦ rw e refl
  | inr e ↦ rw (e, letter-any cs n c h) refl
]

first_only :
    (c : ℕ) (cs : List ℕ) (n d : ℕ)
    → distinct (c ∷ cs) ≡ true
    → some c ≡ some d
    → letter cs n ≡ some d
    → ⊥
unfolding distinct
first_only c cs n d h e f = let there = letter-any cs n c (f ∙ sym e) in ground (arith, h, there)

letter-injective :
    (cs : List ℕ) (n m c : ℕ)
    → distinct cs ≡ true
    → letter cs n ≡ some c
    → letter cs m ≡ some c
    → n ≡ m
unfolding letter distinct
letter-injective [] n m c h e f = cc
letter-injective (d ∷ cs) zero zero c h e f = refl
letter-injective (d ∷ cs) zero (suc m) c h e f = absurd (first_only d cs m c h e f)
letter-injective (d ∷ cs) (suc n) zero c h e f = absurd (first_only d cs n c h f e)
letter-injective (d ∷ cs) (suc n) (suc m) c h e f =
    ap suc
      (letter-injective cs n m c ((&&_iff (not (any (λ x. x == d) cs)) (distinct cs)).0 h).1 e f)

draw_letters-parts :
    (random_range : ℕ → ℕ → ℕ) (n i : ℕ) (s : Text)
    → draw_letters random_range (suc n) i ≡ some s
    → (c : ℕ) × (rest : Text) × (draw random_range i ≡ some c)
      × (draw_letters random_range n (suc i) ≡ some rest)
      × (s ≡ c ∷ rest)
unfolding draw_letters
draw_letters-parts random_range n i s h = elim (Option-cases (draw random_range i)) [
  | inl e ↦ cc (rw e at h)
  | inr (c, e) ↦ elim (Option-cases (draw_letters random_range n (suc i))) [
    | inl f ↦ cc (rw (e, f) at h)
    | inr (rest, f) ↦ (c, rest, e, f, sym (some-some (rw (e, f) at h)))
  ]
]

at_or_past : (i k : ℕ) → i ≤ k → (i ≡ k) ⊎ (suc i ≤ k)
at_or_past i k h = ground (arith, h)

draw_letters-same :
    (one other : ℕ → ℕ → ℕ) (n i : ℕ) (s : Text)
    → draw_letters one n i ≡ some s
    → draw_letters other n i ≡ some s
    → (k : ℕ) → i ≤ k
    → k < i + n
    → one k 32 ≡ other k 32
unfolding draw distinct
draw_letters-same one other zero i s h g k le l = absurd (omega (arith, le, l))
draw_letters-same one other (suc n) i s h g k le l =
    let (c, rest, e, f, same) = draw_letters-parts one n i s h in
    let (d, rest', e', f', same') = draw_letters-parts other n i s g in
    let heads : d ≡ c = cc (same, same') in
    let tails : rest' ≡ rest = cc (same, same') in
    elim (at_or_past i k le) [
      | inl here ↦
          subst (λ j. one j 32 ≡ other j 32) here
            (letter-injective slot_alphabet (one i 32) (other i 32) c refl e (e' ∙ ap some heads))
      | inr past ↦
          draw_letters-same one other n (suc i) rest f (f' ∙ ap some tails) k past
            (omega (arith, l))
    ]

-- A generator that stays in the range it is asked for.
abbrev pub InRange : (ℕ → ℕ → ℕ) → Type 0
InRange random_range = (i n : ℕ) → 0 < n → random_range i n < n

module _ (random_range : ℕ → ℕ → ℕ) (in_range : InRange random_range) where
  draw-some : (i : ℕ) → (c : ℕ) × (draw random_range i ≡ some c) × (in_alphabet c ≡ true)
  unfolding draw in_alphabet
  draw-some i =
      letter-some in_alphabet slot_alphabet _ refl
        (in_range i (length slot_alphabet) (ground arith))

  draw_letters-some :
      (n i : ℕ)
      → (s : Text) × (draw_letters random_range n i ≡ some s)
        × (length s ≡ n)
        × (all in_alphabet s ≡ true)
  unfolding draw_letters
  draw_letters-some zero i = ([], refl, refl, refl)
  draw_letters-some (suc n) i =
      let (c, e, here) = draw-some i in
      let (s, f, l, rest) = draw_letters-some n (suc i) in
      (c ∷ s, rw (e, f) refl, ap suc l, rw here rest)

  -- If the random number generator stays in the range that it is asked for, an id is generated, it is
  -- accepted as it stands, and another generator that gives the same id has given the same number for
  -- each of the letters.
  pub parse-generate :
      (id : SlotId) × (generate random_range ≡ some id)
      × (parse id.as_str ≡ ok id)
      × ((other : ℕ → ℕ → ℕ)
          → generate other ≡ some id
          → (k : ℕ) → k < slot_random_len
          → random_range k 32 ≡ other k 32)
  unfolding generate
  parse-generate =
      let (s, e, l, a) = draw_letters-some slot_random_len 0 in
      let id : SlotId = record { as_str = slot_prefix ++ s } in
      (
        id,
        rw e refl,
        (parse_iff id.as_str id).1 (s, refl, l, a, refl),
        λ other h k l.
            let (s', e', g) = and_then_parts (draw_letters other slot_random_len 0) _ h in
            let ids : slot_prefix ++ s' ≡ slot_prefix ++ s = ap (λ i. i.as_str) (some-some g) in
            let same : s' ≡ s = cc ids in
            draw_letters-same random_range other slot_random_len 0 s e (e' ∙ ap some same) k
              (ground arith) l,
      )
