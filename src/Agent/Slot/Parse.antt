-- ===== src/Agent/Slot/Parse.antt =====
-- Which texts are slot ids: agent/src/slot.rs.
use mathlib.Core.Path.{subst}
use kubimo.Common.{
  ◌≢◌, ◌+◌, ◌/◌, ◌%◌, ℕ, Bool, true, false, ◌≡◌, ◌↔◌, refl, sym, ap, ◌∙◌, none, some, List, [], ◌∷◌,
  ◌++◌, any, all, find, not, length, ◌==◌, number_partial_eq, arith, inl, inr, Option-cases,
  Bool-cases, ltb, ◌&&◌, same_number_iff, &&_iff,
}
use kubimo.Common.Result.{ok}
use kubimo.Common.Text.{Text, strip_prefix, as_bytes, utf8, is_whitespace, Solid}
use kubimo.Common.Text.Lines.{OneLine}
use kubimo.Agent.Slot.{
  SlotId, slot_alphabet, slot_prefix, slot_random_len, in_alphabet, parse, check_random,
  check_letters,
}

-- A letter that is one byte, and neither white space nor the end of a line.
is_plain : ℕ → Bool
unfolding is_whitespace
is_plain c =
    in_alphabet c && ltb c 0x80 && not (is_whitespace c) && not (c == b'\n') && not (c == b'\r')

any-all :
    (p : ℕ → Bool) (cs : List ℕ) (b : ℕ)
    → all p cs ≡ true
    → any (λ a. a == b) cs ≡ true
    → p b ≡ true
any-all p [] b h m = cc
any-all p (c ∷ cs) b h m =
    let (here, rest) = (&&_iff (p c) (all p cs)).0 h in
    elim (Bool-cases (c == b)) [
      | inl e ↦ rw (← ((same_number_iff c b).0 e)) here
      | inr e ↦ any-all p cs b rest (rw e at m)
    ]

alphabet-ascii : (b : ℕ) → in_alphabet b ≡ true → ltb b 0x80 ≡ true
unfolding in_alphabet
alphabet-ascii b h = any-all (λ c. ltb c 0x80) slot_alphabet b refl h

alphabet-plain : (b : ℕ) → in_alphabet b ≡ true → is_plain b ≡ true
unfolding in_alphabet is_plain is_whitespace
alphabet-plain b h = any-all is_plain slot_alphabet b refl h

ascii_bytes : (s : Text) → all in_alphabet s ≡ true → as_bytes s ≡ s
unfolding as_bytes
ascii_bytes [] h = refl
ascii_bytes (c ∷ s) h =
    let (here, rest) = (&&_iff (in_alphabet c) (all in_alphabet s)).0 h in
    rw (alphabet-ascii c here, ascii_bytes s rest)

bad : ℕ → Bool
bad b = not (in_alphabet b)

wide-bad : (b : ℕ) (rest : List ℕ) → ltb b 0x80 ≡ false → find bad (b ∷ rest) ≢ none
unfolding bad
wide-bad b rest h e = elim (Bool-cases (in_alphabet b)) [
  | inl i ↦ absurd (cc (sym h ∙ alphabet-ascii b i))
  | inr i ↦ cc (rw i at e)
]

wide_bytes-bad : (c : ℕ) (rest : List ℕ) → ltb c 0x80 ≡ false → find bad (utf8 c ++ rest) ≢ none
wide_bytes-bad c rest h = elim (Bool-cases (ltb c 0x800)) [
  | inl e ↦ rw (h, e) (wide-bad (0xC0 + c / 64) ((128 + c % 64) ∷ rest) (ground arith))
  | inr e ↦ elim (Bool-cases (ltb c 0x10000)) [
    | inl f ↦
        rw (h, e, f)
          (wide-bad (0xE0 + c / 4096) ((128 + c / 64 % 64) ∷ (128 + c % 64) ∷ rest) (ground arith))
    | inr f ↦
        rw (h, e, f)
          (wide-bad (0xF0 + c / 262144)
            ((128 + c / 4096 % 64) ∷ (128 + c / 64 % 64) ∷ (128 + c % 64) ∷ rest) (ground arith))
  ]
]

narrow :
    (c : ℕ) (bytes s : List ℕ)
    → (find bad bytes ≡ none) ↔ (all in_alphabet s ≡ true)
    → (find bad (c ∷ bytes) ≡ none) ↔ ((in_alphabet c && all in_alphabet s) ≡ true)
unfolding bad
narrow c bytes s ih = elim (Bool-cases (in_alphabet c)) [
  | inl e ↦ rw e ih
  | inr e ↦ rw e (λ h. cc, λ h. cc)
]

-- The byte test of the source finds nothing exactly if every character is in the alphabet.
no_bad_iff : (s : Text) → (find bad (as_bytes s) ≡ none) ↔ (all in_alphabet s ≡ true)
unfolding as_bytes bad
no_bad_iff [] = (λ _. refl, λ _. refl)
no_bad_iff (c ∷ s) = elim (Bool-cases (ltb c 0x80)) [
  | inl e ↦ rw e (narrow c (as_bytes s) s (no_bad_iff s))
  | inr e ↦ (
    λ h. absurd (wide_bytes-bad c (as_bytes s) e h),
    λ h.
        absurd
          (cc (sym e ∙ alphabet-ascii c (((&&_iff (in_alphabet c) (all in_alphabet s)).0 h).0))),
  )
]

prefix-split : (p s rest : Text) → strip_prefix p s ≡ some rest → s ≡ p ++ rest
prefix-split [] s rest h = ground (arith, h)
prefix-split (a ∷ p) [] rest h = cc
prefix-split (a ∷ p) (c ∷ s) rest h = elim (Bool-cases (c == a)) [
  | inl e ↦
      let more : strip_prefix p s ≡ some rest = rw e at h in
      cc ((same_number_iff c a).0 e, prefix-split p s rest more)
  | inr e ↦ absurd (cc (rw e at h))
]

pub strip_prefix-append : (p rest : Text) → strip_prefix p (p ++ rest) ≡ some rest
strip_prefix-append [] rest = refl
strip_prefix-append (a ∷ p) rest =
    let same : (a == a) ≡ true = (same_number_iff a a).1 refl in
    rw (same, strip_prefix-append p rest)

check-letters :
    (raw random : Text) (id : SlotId)
    → (check_random raw (some random) ≡ ok id)
      ↔ ((length random ≡ slot_random_len) × (all in_alphabet random ≡ true) × (id.as_str ≡ raw))
unfolding check_random check_letters bad
check-letters raw random id = (
  λ h. elim (Bool-cases (length (as_bytes random) == slot_random_len)) [
    | inr e ↦ cc (rw e at h)
    | inl e ↦ elim (Option-cases (find bad (as_bytes random))) [
      | inl f ↦
          let a = (no_bad_iff random).0 f in
          let n = (same_number_iff (length (as_bytes random)) slot_random_len).0 e in
          (ap length (sym (ascii_bytes random a)) ∙ n, a, cc (rw (e, f) at h))
      | inr (b, f) ↦ cc (rw (e, f) at h)
    ]
  ],
  λ (n, a, i).
      let same =
        (same_number_iff (length (as_bytes random)) slot_random_len).1
          (ap length (ascii_bytes random a) ∙ n) in
      rw (same, (no_bad_iff random).1 a) (ap (λ t. ok (record { as_str = t })) (sym i)),
)

-- A text is accepted exactly if it is the prefix and 26 letters of the alphabet, and the id is the
-- text as it stands.
pub parse_iff :
    (raw : Text) (id : SlotId)
    → (parse raw ≡ ok id) ↔ (
        (random : Text) × (raw ≡ slot_prefix ++ random)
        × (length random ≡ slot_random_len)
        × (all in_alphabet random ≡ true)
        × (id.as_str ≡ raw))
unfolding parse
parse_iff raw id = (
  λ h. elim (Option-cases (strip_prefix slot_prefix raw)) [
    | inl e ↦
        let none_parsed : check_random raw none ≡ ok id = sym (ap (check_random raw) e) ∙ h in cc
    | inr (random, e) ↦
        let (n, a, i) = (check-letters raw random id).0 (sym (ap (check_random raw) e) ∙ h) in
        (random, prefix-split slot_prefix raw random e, n, a, i)
  ],
  λ (random, e, n, a, i).
      let split : strip_prefix slot_prefix raw ≡ some random =
        ap (strip_prefix slot_prefix) e ∙ strip_prefix-append slot_prefix random in
      ap (check_random raw) split ∙ (check-letters raw random id).1 (n, a, i),
)

all_five :
    (a b c d e : Bool)
    → (a && b && not c && not d && not e) ≡ true
    → (c ≡ false) × (d ≡ false) × (e ≡ false)
all_five a b c d e h = ground arith

plain_parts :
    (c : ℕ)
    → is_plain c ≡ true
    → (is_whitespace c ≡ false) × ((c == b'\n') ≡ false) × ((c == b'\r') ≡ false)
unfolding is_plain
plain_parts c h =
    all_five (in_alphabet c) (ltb c 0x80) (is_whitespace c) (c == b'\n') (c == b'\r') h

Solid-random : (s : Text) → all in_alphabet s ≡ true → Solid s × OneLine s
Solid-random [] h = (tt, tt)
Solid-random (c ∷ s) h =
    let (here, rest) = (&&_iff (in_alphabet c) (all in_alphabet s)).0 h in
    let (so, on) = Solid-random s rest in
    let (blank, feed, return) = plain_parts c (alphabet-plain c here) in
    ((blank, so), (feed, return, on))

-- An id that was accepted is one line with no white space in it, and is accepted again.
pub parse-Solid :
    (raw : Text) (id : SlotId)
    → parse raw ≡ ok id
    → Solid id.as_str × OneLine id.as_str × (parse id.as_str ≡ ok id)
unfolding is_whitespace
parse-Solid raw id h =
    let (random, e, n, a, i) = (parse_iff raw id).0 h in
    let (so, on) = Solid-random random a in
    let whole : slot_prefix ++ random ≡ id.as_str = sym (i ∙ e) in
    (
      subst Solid whole (refl, (refl, (refl, (refl, (refl, so))))),
      subst OneLine whole (refl, refl, (refl, refl, (refl, refl, (refl, refl, (refl, refl, on))))),
      (parse_iff id.as_str id).1 (random, i ∙ e, n, a, refl),
    )
