-- ===== src/Agent/Slot.antt =====
-- Slot ids: agent/src/slot.rs.
pub mod Parse
pub mod Minted
use kubimo.Common.{
  ℕ, zero, suc, ◌<◌, String, Bool, true, false, ◌≡◌, refl, Option, none, some, List, [], ◌∷◌, ◌++◌,
  map, any, find, not, length, ◌==◌, number_partial_eq, if◌then◌else◌, arith, and_then,
}
use kubimo.Common.Result.{Result, ok, err}
use kubimo.Common.Text.{Text, codes, strip_prefix, as_bytes, utf8, is_whitespace, Solid}
use kubimo.Common.Text.Lines.{OneLine}

abbrev pub slot_random_len : ℕ
slot_random_len = 26

abbrev pub slot_prefix : Text
slot_prefix = codes "slot-"

abbrev pub slot_alphabet : List ℕ
slot_alphabet = codes "0123456789abcdefghjkmnpqrstvwxyz"

pub data SlotIdError : Type 0 where
  missing_prefix : SlotIdError
  bad_length : ℕ → ℕ → SlotIdError
  illegal_character : ℕ → SlotIdError

pub record SlotId : Type 0 where
  pub as_str : Text

-- Indexing; none where the source would panic.
letter : List ℕ → ℕ → Option ℕ
letter [] n = none
letter (c ∷ cs) zero = some c
letter (c ∷ cs) (suc n) = letter cs n

-- `random_range i n` is what the generator gives at its call `i` for the range `0..n`.
module _ (random_range : ℕ → ℕ → ℕ) where
  draw : ℕ → Option ℕ
  unfolding letter
  draw i = letter slot_alphabet (random_range i (length slot_alphabet))

  -- As many letters, from call `i` on.
  draw_letters : ℕ → ℕ → Option Text
  unfolding draw
  draw_letters zero i = some []
  draw_letters (suc n) i =
      let rest = draw_letters n (suc i) in
      and_then (draw i) (λ c. and_then rest (λ random. some (c ∷ random)))

  unfoldable pub generate : Option SlotId
  unfolding draw_letters
  generate =
      and_then (draw_letters slot_random_len 0)
        (λ random. some (record { as_str = slot_prefix ++ random }))

pub in_alphabet : ℕ → Bool
in_alphabet byte = any (λ a. a == byte) slot_alphabet

check_letters : Text → Option ℕ → Result SlotIdError SlotId
check_letters raw none = ok (record { as_str = raw })
check_letters raw (some bad) = err (illegal_character bad)

check_random : Text → Option Text → Result SlotIdError SlotId
unfolding check_letters in_alphabet
check_random raw none = err missing_prefix
check_random raw (some random) =
    let bytes = as_bytes random in
    if not (length bytes == slot_random_len)
    then err (bad_length slot_random_len (length bytes))
    else check_letters raw (find (λ byte. not (in_alphabet byte)) bytes)

unfoldable pub parse : Text → Result SlotIdError SlotId
unfolding check_random
parse raw = check_random raw (strip_prefix slot_prefix raw)
