-- ===== src/Common/Text/Lines.antt =====
-- `str::lines`: a line ends before a line feed, and before a carriage return in front of one.
use Prim.Native.Nat.{ℕ}
use mathlib.Core.Path.{◌≡◌, refl}
use mathlib.Core.Bool.{Bool, false, ◌&&◌}
use mathlib.Core.List.{List, [], ◌∷◌, ◌++◌}
use kubimo.Common.Tests.{◌==◌, number_partial_eq, if◌then◌else◌}
use kubimo.Common.Text.{Text}

starts_line_feed : Text → Bool
starts_line_feed [] = false
starts_line_feed (c ∷ s) = c == b'\n'

push : ℕ → List Text → List Text
push c [] = (c ∷ []) ∷ []
push c (l ∷ ls) = (c ∷ l) ∷ ls

unfoldable pub lines : Text → List Text
unfolding starts_line_feed push
lines [] = []
lines (c ∷ s) =
    let rest = lines s in
    if c == b'\n'
    then [] ∷ rest
    else if (c == b'\r') && starts_line_feed s
    then rest
    else push c rest

-- A text in one line, with no carriage return.
abbrev pub OneLine : Text → Type 0
OneLine [] = Unit
OneLine (c ∷ s) = ((c == b'\n') ≡ false) × ((c == b'\r') ≡ false) × OneLine s

-- A line in front of a line feed is the first of the lines.
pub lines-first : (l rest : Text) → OneLine l → lines (l ++ b'\n' ∷ rest) ≡ l ∷ lines rest
unfolding lines
lines-first [] rest _ = refl
lines-first (c ∷ l) rest (n, r, h) = rw (n, r, lines-first l rest h)

pub lines-last : (c : ℕ) (l : Text) → OneLine (c ∷ l) → lines (c ∷ l) ≡ (c ∷ l) ∷ []
unfolding lines
lines-last c [] (n, r, h) = rw (n, r)
lines-last c (d ∷ l) (n, r, h) = rw (n, r, lines-last d l h)
