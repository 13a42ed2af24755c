-- ===== src/Indexer/Paths/Inside.antt =====
-- The paths that pass the tests stay inside: indexer/src/restore.rs.
use kubimo.Common.{
  ℕ, true, false, ◌≡◌, refl, sym, ap, ◌∙◌, List, [], ◌∷◌, ◌++◌, all, ◌==◌, number_partial_eq,
  if◌then◌else◌, Bool-cases, inl, inr, arith,
}
use mathlib.Core.List.{append_assoc}
use kubimo.Common.Result.{ok}
use kubimo.Common.Text.{Text, codes, same_text}
use kubimo.Indexer.Paths.{
  Component, root_dir, cur_dir, parent_dir, normal, push, pieces, component_of, later, at_start,
  starts_slash, ends_slash, components, is_normal, join, safe_relative_path, is_single,
  safe_entry_path,
}

-- The path is relative and goes down by names only.
abbrev pub Inside : Text → Type 0
Inside path = all is_normal (components path) ≡ true

pub safe_relative-Inside :
    (path found : Text) → safe_relative_path path ≡ ok found → (found ≡ path) × Inside path
unfolding safe_relative_path
safe_relative-Inside path found h = elim (Bool-cases (all is_normal (components path))) [
  | inl e ↦ (sym (cc (rw e at h)), e)
  | inr e ↦ cc (rw e at h)
]

all-append :
    (xs ys : List Component)
    → all is_normal xs ≡ true
    → all is_normal ys ≡ true
    → all is_normal (xs ++ ys) ≡ true
all-append [] ys h k = k
all-append (x ∷ xs) ys h k = ground (arith, all-append xs ys)

all-parts :
    (xs ys : List Component)
    → all is_normal (xs ++ ys) ≡ true
    → (all is_normal xs ≡ true) × (all is_normal ys ≡ true)
all-parts [] ys h = (refl, h)
all-parts (x ∷ xs) ys h = ground (arith, all-parts xs ys)

later-append : (ps qs : List Text) → later (ps ++ qs) ≡ later ps ++ later qs
unfolding later
later-append [] qs = refl
later-append (p ∷ ps) qs =
    ap (λ cs. component_of p ++ cs) (later-append ps qs)
    ∙ sym (append_assoc (component_of p) (later ps) (later qs))

-- There is a first piece.
cut : (s : Text) → (p : Text) × (ps : List Text) × (pieces s ≡ p ∷ ps)
unfolding pieces push
cut [] = ([], [], refl)
cut (c ∷ s) = elim (Bool-cases (c == b'/')) [
  | inl e ↦ ([], pieces s, rw e refl)
  | inr e ↦ let (p, ps, q) = cut s in (c ∷ p, ps, rw (e, q) refl)
]

pieces-slash : (d n : Text) → pieces (d ++ (b'/' ∷ n)) ≡ pieces d ++ pieces n
unfolding pieces push
pieces-slash [] n = refl
pieces-slash (c ∷ d) n = elim (Bool-cases (c == b'/')) [
  | inl e ↦ rw (e, pieces-slash d n) refl
  | inr e ↦ let (p, ps, q) = cut d in rw (e, pieces-slash d n, q) refl
]

-- A separator at the end is followed by an empty piece.
pieces-ends :
    (c : ℕ) (d n : Text)
    → ends_slash (c ∷ d) ≡ true
    → (p : Text) × (ps : List Text) × (pieces ((c ∷ d) ++ n) ≡ p ∷ (ps ++ pieces n))
      × (pieces (c ∷ d) ≡ p ∷ (ps ++ ([] ∷ [])))
unfolding pieces push ends_slash
pieces-ends c [] n h = ([], [], rw h refl, rw h refl)
pieces-ends c (e ∷ d) n h =
    let (p, ps, q, r) = pieces-ends e d n h in
    elim (Bool-cases (c == b'/')) [
      | inl s ↦ ([], p ∷ ps, rw (s, q) refl, rw (s, r) refl)
      | inr s ↦ (c ∷ p, ps, rw (s, q) refl, rw (s, r) refl)
    ]

-- No piece after the first leads up, and the first is no dot.
at_start-later :
    (p : Text) (ps : List Text)
    → all is_normal (at_start (p ∷ ps)) ≡ true
    → (all is_normal (later (p ∷ ps)) ≡ true) × (same_text p (codes ".") ≡ false)
unfolding at_start is_normal
at_start-later p ps h = elim (Bool-cases (same_text p (codes "."))) [
  | inl e ↦ cc (rw e at h)
  | inr e ↦ (rw e at h, e)
]

extended :
    (p : Text) (ps rest : List Text)
    → all is_normal (at_start (p ∷ ps)) ≡ true
    → all is_normal (later rest) ≡ true
    → all is_normal (at_start (p ∷ (ps ++ rest))) ≡ true
unfolding at_start
extended p ps rest h k =
    let (all_later, no_dot) = at_start-later p ps h in
    rw no_dot (
      ap (all is_normal) (later-append (p ∷ ps) rest)
      ∙ all-append (later (p ∷ ps)) (later rest) all_later k)

relative : (path : Text) → Inside path → starts_slash path ≡ false
unfolding components is_normal
relative path h = elim (Bool-cases (starts_slash path)) [ inl e ↦ cc (rw e at h) | inr e ↦ e ]

at_start-Inside : (path : Text) → Inside path → all is_normal (at_start (pieces path)) ≡ true
unfolding components
at_start-Inside path h = let r = relative path h in rw r at h

later-Inside : (path : Text) → Inside path → all is_normal (later (pieces path)) ≡ true
later-Inside path h =
    let (p, ps, q) = cut path in
    let start = at_start-Inside path h in rw q (at_start-later p ps (rw q at start)).0

joined :
    (p : Text) (ps rest : List Text)
    → same_text p (codes ".") ≡ false
    → all is_normal (later (p ∷ ps)) ≡ true
    → all is_normal (later rest) ≡ true
    → all is_normal (at_start (p ∷ (ps ++ rest))) ≡ true
unfolding at_start
joined p ps rest no_dot h k =
    rw no_dot (
      ap (all is_normal) (later-append (p ∷ ps) rest)
      ∙ all-append (later (p ∷ ps)) (later rest) h k)

of_pieces :
    (c : ℕ) (s : Text)
    → starts_slash (c ∷ s) ≡ false
    → all is_normal (at_start (pieces (c ∷ s))) ≡ true
    → Inside (c ∷ s)
unfolding components
of_pieces c s r h =
    ap
      (λ b.
        all is_normal (if b then root_dir ∷ later (pieces (c ∷ s)) else at_start (pieces (c ∷ s))))
      r
    ∙ h

single-Inside : (cs : List Component) → is_single cs ≡ true → all is_normal cs ≡ true
unfolding is_single is_normal
single-Inside (normal x ∷ []) h = refl
single-Inside (normal x ∷ d ∷ cs) h = cc
single-Inside (root_dir ∷ cs) h = cc
single-Inside (cur_dir ∷ cs) h = cc
single-Inside (parent_dir ∷ cs) h = cc
single-Inside [] h = cc

below :
    (c : ℕ) (s name : Text)
    → Inside (c ∷ s)
    → Inside name
    → Inside (if ends_slash (c ∷ s) then (c ∷ s) ++ name else (c ∷ s) ++ (b'/' ∷ name))
below c s name h k = elim (Bool-cases (ends_slash (c ∷ s))) [
  | inl e ↦
      let (p, ps, q, r) = pieces-ends c s name e in
      let start = at_start-Inside (c ∷ s) h in
      let (all_later, no_dot) = at_start-later p (ps ++ ([] ∷ [])) (rw r at start) in
      let split = later-append (p ∷ ps) ([] ∷ []) in
      let (firsts, _) = all-parts (later (p ∷ ps)) (later ([] ∷ [])) (rw split at all_later) in
      rw e (
        of_pieces c (s ++ name) (slash c s name (relative (c ∷ s) h))
          (rw q (joined p ps (pieces name) no_dot firsts (later-Inside name k))))
  | inr e ↦
      let (p, ps, q) = cut (c ∷ s) in
      let start = at_start-Inside (c ∷ s) h in
      let (firsts, no_dot) = at_start-later p ps (rw q at start) in
      rw e (
        of_pieces c (s ++ (b'/' ∷ name)) (slash c s (b'/' ∷ name) (relative (c ∷ s) h)) (
          rw (pieces-slash (c ∷ s) name, q)
            (joined p ps (pieces name) no_dot firsts (later-Inside name k))))
]
  where
    slash :
        (c : ℕ) (s t : Text) → starts_slash (c ∷ s) ≡ false → starts_slash (c ∷ (s ++ t)) ≡ false
    slash c s t h = unfold starts_slash in h

join-Inside : (dir name : Text) → Inside dir → Inside name → Inside (join dir name)
unfolding join
join-Inside [] name h k = rw (relative name k) k
join-Inside (c ∷ s) name h k = rw (relative name k) (below c s name h k)

-- An entry of a directory that is inside is inside too.
pub safe_entry-Inside :
    (dir name found : Text) → Inside dir → safe_entry_path dir name ≡ ok found → Inside found
unfolding safe_entry_path
safe_entry-Inside dir name found h e = elim (Bool-cases (is_single (components name))) [
  | inl s ↦
      let same : join dir name ≡ found = cc (rw s at e) in
      rw (← same) (join-Inside dir name h (single-Inside (components name) s))
  | inr s ↦ cc (rw s at e)
]
