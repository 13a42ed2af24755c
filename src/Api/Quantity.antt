-- ===== src/Api/Quantity.antt =====
-- Quantities: api/src/quantity.rs. A quantity is its text, here a list of code points.
pub mod Bounds
use kubimo.Common.{
  ℕ, ◌%◌, ◌^◌, ◌<◌, Bool, true, false, ◌&&◌, ◌||◌, not, ◌≡◌, Option, none, some, List, [], ◌∷◌, leb,
  ◌==◌, number_partial_eq, if◌then◌else◌, and_then,
}

abbrev pub Text : Type 0
Text = List ℕ

pub data StorageUnit : Type 0 where
  b ki mi gi ti pi ei : StorageUnit

unfoldable pub exponent : StorageUnit → ℕ
exponent b = 0
exponent ki = 10
exponent mi = 20
exponent gi = 30
exponent ti = 40
exponent pi = 50
exponent ei = 60

-- The shift of a `u64`: bits past the 64th would be lost.
unfoldable pub multiplier : StorageUnit → ℕ
unfolding exponent
multiplier unit = 2 ^ exponent unit % 2 ^ 64

-- strum's `EnumString` of the unit: the spelling that the attributes of the enum give.
unfoldable pub parse_unit : Text → Option StorageUnit
parse_unit [] = some b
parse_unit (p ∷ q ∷ []) =
    if not (q == b'i')
    then none
    else if p == b'K'
    then some ki
    else if p == b'M'
    then some mi
    else if p == b'G'
    then some gi
    else if p == b'T'
    then some ti
    else if p == b'P'
    then some pi
    else if p == b'E'
    then some ei
    else none
parse_unit _ = none

-- The `f64` of the standard library, its parser and `str::trim`, as far as `to_bytes` uses them.
-- The cast `as u64` of a number that is finite and below 2^64 fits in a `u64`.
pub record Float64 : Type 1 where
  pub F : Type 0
  pub trim : Text → Text
  pub parse : Text → Option F
  pub of_u64 : ℕ → F
  pub times : F → F → F
  pub is_finite : F → Bool
  pub is_negative : F → Bool
  pub reaches_2_pow_64 : F → Bool
  pub to_u64 : F → ℕ
  pub print : F → Text
  pub to_u64_fits : (x : F) → is_finite x ≡ true → reaches_2_pow_64 x ≡ false → to_u64 x < 2 ^ 64

pub record StorageQuantity : Type 0 where
  pub quantity : Text

pub data CpuUnit : Type 0 where
  core milli : CpuUnit

pub record CpuQuantity : Type 0 where
  pub quantity : Text

-- strum's `EnumString` of the unit
unfoldable pub parse_cpu_unit : Text → Option CpuUnit
parse_cpu_unit [] = some core
parse_cpu_unit (c ∷ []) = if c == b'm' then some milli else none
parse_cpu_unit _ = none

unfoldable pub is_ascii_alphabetic : ℕ → Bool
is_ascii_alphabetic c = leb b'A' c && leb c b'Z' || leb b'a' c && leb c b'z'

abbrev pub split_from : Bool → ℕ → Text → Option (Text × Text) → Option (Text × Text)
split_from true c s rest = some ([], c ∷ s)
split_from false c s none = none
split_from false c s (some (before, after)) = some (c ∷ before, after)

-- The text before the first ASCII letter, and the text from it on, if there is one.
unfoldable pub split_at_letter : Text → Option (Text × Text)
unfolding is_ascii_alphabetic
split_at_letter [] = none
split_at_letter (c ∷ s) = split_from (is_ascii_alphabetic c) c s (split_at_letter s)

module _ (fl : Float64) where
  open fl use {F, trim, parse, of_u64, times, is_finite, is_negative, reaches_2_pow_64, to_u64}

  with_unit : Option (Text × Text) → Option (F × StorageUnit)
  with_unit none = none
  with_unit (some (value, unit)) =
      and_then (parse value) (λ v. and_then (parse_unit unit) (λ u. some (v, u)))

  -- A bare magnitude parses whole; only when that fails is a unit split off.
  magnitude : Text → Option (F × StorageUnit)
  unfolding with_unit split_at_letter
  magnitude s = elim (parse s) [ some v ↦ some (v, b) | none ↦ with_unit (split_at_letter s) ]

  in_range : F → Option ℕ
  in_range bytes =
      if not (is_finite bytes) || is_negative bytes || reaches_2_pow_64 bytes
      then none
      else some (to_u64 bytes)

  unfoldable pub to_bytes : StorageQuantity → Option ℕ
  unfolding magnitude in_range multiplier
  to_bytes q =
      and_then (magnitude (trim q.quantity))
        (λ (value, unit). in_range (times value (of_u64 (multiplier unit))))

  -- `StorageQuantity::new(bytes as f64, StorageUnit::B)`
  unfoldable pub of_bytes : ℕ → StorageQuantity
  of_bytes bytes = record { quantity = fl.print (of_u64 bytes) }
