-- ===== src/Common/Text.antt =====
-- Rust's `str` as the list of its code points.
pub mod Lines
pub mod Decimal
use Prim.Native.Char.{code}
use Prim.Native.Nat.{ℕ, suc, ◌+◌, ◌*◌, ◌/◌, ◌%◌}
use Prim.Native.String.{String}
use mathlib.Core.Path.{◌≡◌, refl}
use mathlib.Core.Logic.{◌↔◌}
use mathlib.Core.Bool.{Bool, true, false, ◌&&◌, ◌||◌}
use mathlib.Core.Option.{Option, none, some}
use mathlib.Core.List.{List, [], ◌∷◌, ◌++◌}
use native.Mathlib.Omega.{arith}
use kubimo.Common.Tests.{
  PartialEq, ◌==◌, number_partial_eq, same_number_iff, ltb, leb, if◌then◌else◌, Bool-cases,
}
use kubimo.Common.Lists.{and_then}

abbrev pub Text : Type 0
Text = List ℕ

abbrev pub codes : String → Text
codes String.[] = []
codes (String.◌∷◌ c s) = code c ∷ codes s

abbrev pub same_text : Text → Text → Bool
same_text [] [] = true
same_text [] (_ ∷ _) = false
same_text (_ ∷ _) [] = false
same_text (a ∷ s) (c ∷ t) = (a == c) && same_text s t

pub same_text_iff : (s t : Text) → (same_text s t ≡ true) ↔ (s ≡ t)
same_text_iff [] [] = (λ _. refl, λ _. refl)
same_text_iff [] (_ ∷ _) = (λ h. cc, λ h. cc)
same_text_iff (_ ∷ _) [] = (λ h. cc, λ h. cc)
same_text_iff (a ∷ s) (c ∷ t) = ground (arith, same_number_iff a c, same_text_iff s t)

instance abbrev pub codes_partial_eq : PartialEq Text
codes_partial_eq = record { same = same_text; same_iff = same_text_iff }

-- `str::strip_prefix`
abbrev pub strip_prefix : Text → Text → Option Text
strip_prefix [] s = some s
strip_prefix (p ∷ ps) [] = none
strip_prefix (p ∷ ps) (c ∷ s) = let rest = strip_prefix ps s in if c == p then rest else none

-- `str::split_once` at one character
abbrev pub split_once : ℕ → Text → Option (Text × Text)
split_once sep [] = none
split_once sep (c ∷ s) =
    let rest = and_then (split_once sep s) (λ (before, after). some (c ∷ before, after)) in
    if c == sep then some ([], s) else rest

-- The bytes of one character in UTF-8, and of a text: `str::as_bytes`.
abbrev pub utf8 : ℕ → List ℕ
utf8 c =
    if ltb c 0x80
    then c ∷ []
    else if ltb c 0x800
    then (0xC0 + c / 64) ∷ (0x80 + c % 64) ∷ []
    else if ltb c 0x10000
    then (0xE0 + c / 4096) ∷ (0x80 + c / 64 % 64) ∷ (0x80 + c % 64) ∷ []
    else (0xF0 + c / 262144) ∷ (0x80 + c / 4096 % 64) ∷ (0x80 + c / 64 % 64) ∷ (0x80 + c % 64) ∷ []

unfoldable pub as_bytes : Text → List ℕ
as_bytes [] = []
as_bytes (c ∷ s) = utf8 c ++ as_bytes s

-- `char::is_whitespace`: the Unicode property White_Space
unfoldable pub is_whitespace : ℕ → Bool
is_whitespace c =
    leb 9 c && leb c 13
    || c == 0x20
    || c == 0x85
    || c == 0xA0
    || c == 0x1680
    || leb 0x2000 c && leb c 0x200A
    || c == 0x2028
    || c == 0x2029
    || c == 0x202F
    || c == 0x205F
    || c == 0x3000

abbrev pub trim_start : Text → Text
trim_start [] = []
trim_start (c ∷ s) = let rest = trim_start s in if is_whitespace c then rest else c ∷ s

keep_end : Bool → ℕ → Text → Text
keep_end blank c [] = if blank then [] else c ∷ []
keep_end blank c (d ∷ s) = c ∷ d ∷ s

unfoldable pub trim_end : Text → Text
unfolding keep_end
trim_end [] = []
trim_end (c ∷ s) = keep_end (is_whitespace c) c (trim_end s)

-- `str::trim`
abbrev pub trim : Text → Text
trim s = trim_end (trim_start s)

-- A text with no white space in it.
abbrev pub Solid : Text → Type 0
Solid [] = Unit
Solid (c ∷ s) = (is_whitespace c ≡ false) × Solid s

pub trim_end-Solid : (s : Text) → Solid s → trim_end s ≡ s
unfolding trim_end
trim_end-Solid [] _ = refl
trim_end-Solid (c ∷ []) (h, _) = rw h
trim_end-Solid (c ∷ d ∷ s) (h, hs) = rw (trim_end-Solid (d ∷ s) hs)

pub trim-Solid : (s : Text) → Solid s → trim s ≡ s
trim-Solid [] _ = unfold trim_end in refl
trim-Solid (c ∷ s) (h, hs) = rw h (trim_end-Solid (c ∷ s) (h, hs))
