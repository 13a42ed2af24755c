-- ===== src/Common/Text/Decimal.antt =====
-- Decimal numbers: `format!`, `to_string` and `parse` of a `u32`.
use Prim.Native.Nat.{ℕ, zero, suc, ◌+◌, ◌*◌, ◌-◌, ◌/◌, ◌%◌, ◌^◌, ◌<◌, ◌≤◌}
use mathlib.Core.Path.{◌≡◌, refl, ap, sym, ◌∙◌}
use mathlib.Core.Logic.{◌≢◌, inl, inr}
use mathlib.Core.Bool.{Bool, true, false, ◌&&◌}
use mathlib.Core.Option.{Option, none, some}
use mathlib.Core.List.{[], ◌∷◌}
use native.Mathlib.Omega.{arith}
use native.Mathlib.Nat.{
  div-add-mod, mod-lt, mod-one, mod-eq_of_lt, mul-add-mod_self_left, mul-le-mul_right, pow-suc,
  mul-add, add-mul, mul_assoc, mul_comm,
}
use kubimo.Common.Tests.{Bool-cases, ◌==◌, number_partial_eq, ltb, leb, if◌then◌else◌}
use kubimo.Common.Lists.{and_then}
use kubimo.Common.Text.{Text, is_whitespace, trim, Solid, trim-Solid}

-- Padded with zeros to a width that the number fits.
unfoldable pub print_padded : ℕ → ℕ → Text
print_padded zero n = []
print_padded (suc w) n = (b'0' + n / 10 ^ w % 10) ∷ print_padded w n

unpadded : Text → Text
unpadded [] = []
unpadded (c ∷ []) = c ∷ []
unpadded (c ∷ d ∷ s) = let rest = unpadded (d ∷ s) in if c == b'0' then rest else c ∷ d ∷ s

-- A u32 has at most ten digits.
unfoldable pub print_u32 : ℕ → Text
unfolding unpadded
print_u32 n = unpadded (print_padded 10 n)

unfoldable pub is_digit : ℕ → Bool
is_digit c = leb b'0' c && leb c b'9'

unfoldable pub digits_value : ℕ → Text → Option ℕ
unfolding is_digit
digits_value acc [] = some acc
digits_value acc (c ∷ s) =
    let rest = digits_value (acc * 10 + (c - b'0')) s in if is_digit c then rest else none

fits_u32 : ℕ → Option ℕ
fits_u32 n = if ltb n (2 ^ 32) then some n else none

-- `str::parse::<u32>`: an optional plus sign, and at least one digit.
unfoldable pub parse_u32 : Text → Option ℕ
unfolding fits_u32
parse_u32 [] = none
parse_u32 (c ∷ []) = and_then (digits_value 0 (c ∷ [])) fits_u32
parse_u32 (c ∷ d ∷ s) =
    if c == b'+'
    then and_then (digits_value 0 (d ∷ s)) fits_u32
    else and_then (digits_value 0 (c ∷ d ∷ s)) fits_u32

unsigned : Text → Option ℕ
unsigned [] = none
unsigned (c ∷ []) = digits_value 0 (c ∷ [])
unsigned (c ∷ d ∷ s) = digits_value 0 (if c == b'+' then d ∷ s else c ∷ d ∷ s)

-- `str::parse::<u64>`
unfoldable pub parse_u64 : Text → Option ℕ
unfolding unsigned
parse_u64 s = and_then (unsigned s) (λ n. if ltb n (2 ^ 64) then some n else none)

split_digit : (n p : ℕ) → 0 < p → n % (p * 10) ≡ n / p % 10 * p + n % p
split_digit n p pos =
    let high : n / p ≡ 10 * (n / p / 10) + n / p % 10 = omega arith in
    let whole : p * (n / p) + n % p ≡ n = div-add-mod n p in
    let low : n % p < p = mod-lt n pos in
    let small : n / p % 10 * p ≤ 9 * p = mul-le-mul_right p (omega arith) in
    let parts : n ≡ p * 10 * (n / p / 10) + (n / p % 10 * p + n % p) = omega (
      arith,
      whole,
      ap (λ x. p * x) high,
      mul-add p (10 * (n / p / 10)) (n / p % 10),
      mul_assoc p 10 (n / p / 10),
      mul_comm (n / p % 10) p,
    ) in
    ap (λ x. x % (p * 10)) parts
    ∙ mul-add-mod_self_left (p * 10) (n / p / 10) (n / p % 10 * p + n % p)
    ∙ mod-eq_of_lt (omega (arith, low, small))

shift : (acc d p r : ℕ) → (acc * 10 + d) * p + r ≡ acc * (p * 10) + (d * p + r)
shift acc d p r = omega (arith, add-mul (acc * 10) d p, mul_assoc acc 10 p, mul_comm 10 p)

push_digit :
    (d acc : ℕ) (s : Text)
    → d < 10
    → digits_value acc ((b'0' + d) ∷ s) ≡ digits_value (acc * 10 + d) s
unfolding digits_value is_digit
push_digit d acc s h =
    let is : is_digit (b'0' + d) ≡ true = ground arith in
    let value : b'0' + d - b'0' ≡ d = omega arith in rw (is, value)

ten_pow_pos : (w : ℕ) → 0 < 10 ^ w
ten_pow_pos zero = omega arith
ten_pow_pos (suc w) = omega (arith, pow-suc 10 w, ten_pow_pos w)

value_padded :
    (w acc n : ℕ) → digits_value acc (print_padded w n) ≡ some (acc * 10 ^ w + n % 10 ^ w)
unfolding digits_value print_padded is_digit
value_padded zero acc n = ap some (omega (arith, mod-one n))
value_padded (suc w) acc n =
    let digit : n / 10 ^ w % 10 < 10 = omega arith in
    push_digit (n / 10 ^ w % 10) acc (print_padded w n) digit
    ∙ value_padded w (acc * 10 + n / 10 ^ w % 10) n
    ∙ ap some (
        shift acc (n / 10 ^ w % 10) (10 ^ w) (n % 10 ^ w)
        ∙ sym (
            ap (λ x. acc * x + n % x) (pow-suc 10 w)
            ∙ ap (λ x. acc * (10 ^ w * 10) + x) (split_digit n (10 ^ w) (ten_pow_pos w))))

value_unpadded : (s : Text) → digits_value 0 (unpadded s) ≡ digits_value 0 s
unfolding digits_value unpadded is_digit
value_unpadded [] = refl
value_unpadded (c ∷ []) = refl
value_unpadded (c ∷ d ∷ s) = ground (arith, value_unpadded (d ∷ s))

-- A text of digits, not empty, parses to its value.
parse_digits :
    (s : Text) (n : ℕ) → s ≢ [] → digits_value 0 s ≡ some n → n < 2 ^ 32 → parse_u32 s ≡ some n
unfolding parse_u32 digits_value is_digit
parse_digits [] n ne h lt = absurd (ne refl)
parse_digits (c ∷ []) n ne h lt = rw h (ground arith)
parse_digits (c ∷ d ∷ s) n ne h lt =
    let plain : (c == b'+') ≡ false = ground arith in rw plain (rw h (ground arith))

unpadded-full : (c : ℕ) (s : Text) → unpadded (c ∷ s) ≢ []
unfolding unpadded
unpadded-full c [] e = cc
unpadded-full c (d ∷ s) e = ground (arith, unpadded-full d s)

-- What is printed of a u32 is parsed back, whether padded to ten digits or not.
pub parse-padded : (n : ℕ) → n < 2 ^ 32 → parse_u32 (print_padded 10 n) ≡ some n
unfolding print_padded
parse-padded n h =
    parse_digits (print_padded 10 n) n (λ e. cc) (value_padded 10 0 n ∙ ap some (omega arith)) h

pub parse-print_u32 : (n : ℕ) → n < 2 ^ 32 → parse_u32 (print_u32 n) ≡ some n
unfolding print_u32 print_padded
parse-print_u32 n h =
    parse_digits (print_u32 n) n (unpadded-full (b'0' + n / 10 ^ 9 % 10) (print_padded 9 n))
      (value_unpadded (print_padded 10 n) ∙ value_padded 10 0 n ∙ ap some (omega arith)) h

padded-Solid : (w n : ℕ) → Solid (print_padded w n)
unfolding print_padded is_whitespace
padded-Solid zero n = tt
padded-Solid (suc w) n = (ground arith, padded-Solid w n)

unpadded-Solid : (s : Text) → Solid s → Solid (unpadded s)
unfolding unpadded
unpadded-Solid [] h = tt
unpadded-Solid (c ∷ []) h = h
unpadded-Solid (c ∷ d ∷ s) (h, hs) = elim (Bool-cases (c == b'0')) [
  | inl e ↦ rw e (unpadded-Solid (d ∷ s) hs)
  | inr e ↦ rw e (h, hs)
]

-- So it is, too, with the white space around it trimmed off.
pub parse-trim_padded : (n : ℕ) → n < 2 ^ 32 → parse_u32 (trim (print_padded 10 n)) ≡ some n
parse-trim_padded n h = rw (trim-Solid (print_padded 10 n) (padded-Solid 10 n)) (parse-padded n h)

pub parse-trim_u32 : (n : ℕ) → n < 2 ^ 32 → parse_u32 (trim (print_u32 n)) ≡ some n
parse-trim_u32 n h =
    let solid : Solid (print_u32 n) =
      unfold print_u32 in unpadded-Solid (print_padded 10 n) (padded-Solid 10 n) in
    rw (trim-Solid (print_u32 n) solid) (parse-print_u32 n h)
