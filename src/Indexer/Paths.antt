-- ===== src/Indexer/Paths.antt =====
-- Relative paths as indexer/src/restore.rs tests and joins them, by the components of
-- `std::path::Path`: repeated and trailing separators, and a dot that is not at the start, count
-- for nothing.
pub mod Inside
use kubimo.Common.{
  ℕ, Bool, true, false, Option, none, some, List, [], ◌∷◌, ◌++◌, all, and_then, ◌==◌,
  number_partial_eq, if◌then◌else◌,
}
use kubimo.Common.Result.{Result, ok, err}
use kubimo.Common.Text.{Text, codes, same_text}

pub data Component : Type 0 where
  root_dir cur_dir parent_dir : Component
  normal : Text → Component

-- What stands between the separators.
pub push : ℕ → List Text → List Text
push c [] = (c ∷ []) ∷ []
push c (p ∷ ps) = (c ∷ p) ∷ ps

unfoldable pub pieces : Text → List Text
unfolding push
pieces [] = [] ∷ []
pieces (c ∷ s) = let rest = pieces s in if c == b'/' then [] ∷ rest else push c rest

unfoldable pub component_of : Text → List Component
component_of [] = []
component_of (c ∷ s) =
    if same_text (c ∷ s) (codes ".")
    then []
    else if same_text (c ∷ s) (codes "..")
    then parent_dir ∷ []
    else normal (c ∷ s) ∷ []

unfoldable pub later : List Text → List Component
unfolding component_of
later [] = []
later (p ∷ ps) = component_of p ++ later ps

unfoldable pub at_start : List Text → List Component
unfolding later
at_start [] = []
at_start (p ∷ ps) = if same_text p (codes ".") then cur_dir ∷ later ps else later (p ∷ ps)

unfoldable pub starts_slash : Text → Bool
starts_slash [] = false
starts_slash (c ∷ s) = c == b'/'

unfoldable pub ends_slash : Text → Bool
ends_slash [] = false
ends_slash (c ∷ []) = c == b'/'
ends_slash (c ∷ d ∷ s) = ends_slash (d ∷ s)

-- `Path::components`
unfoldable pub components : Text → List Component
unfolding pieces at_start starts_slash
components path =
    if starts_slash path then root_dir ∷ later (pieces path) else at_start (pieces path)

unfoldable pub is_normal : Component → Bool
is_normal (normal _) = true
is_normal _ = false

-- `Path::join`
unfoldable pub join : Text → Text → Text
unfolding starts_slash ends_slash
join dir name = if starts_slash name then name else elim dir [
  | [] ↦ name
  | c ∷ s ↦ if ends_slash (c ∷ s) then (c ∷ s) ++ name else (c ∷ s) ++ (b'/' ∷ name)
]

pub data PlanError : Type 0 where
  unsafe_path : Text → PlanError
  foreign_content : Text → Text → PlanError

unfoldable pub safe_relative_path : Text → Result PlanError Text
unfolding components is_normal
safe_relative_path path =
    if all is_normal (components path) then ok path else err (unsafe_path path)

is_single : List Component → Bool
is_single (normal _ ∷ []) = true
is_single _ = false

unfoldable pub safe_entry_path : Text → Text → Result PlanError Text
unfolding components is_single join
safe_entry_path dir name =
    if is_single (components name) then ok (join dir name) else err (unsafe_path name)
