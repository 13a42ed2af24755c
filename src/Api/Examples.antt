-- ===== src/Api/Examples.antt =====
-- The theorems about the api crate at concrete values.
use kubimo.Common.{◌≡◌, refl, some, List, [], ◌∷◌}
use kubimo.Common.Text.{codes}
use kubimo.Api.Selector.{Expression, eq, not_exists, in_, print_selector}
use kubimo.Api.Selector.Syntax.{
  is_letter, read_selector, AllWellFormed, read_selector-print_selector,
}

-- The selector of the pods of a pool that no runner has, in one of two states.
abbrev rest : List Expression
rest =
    not_exists (codes "kubimo.aqora.io/name")
    ∷ in_ (codes "state") (codes "claimed" ∷ codes "warm" ∷ [])
    ∷ []

are_well_formed : AllWellFormed (eq (codes "pool") (codes "editors") ∷ rest)
unfolding is_letter
are_well_formed = ((refl, refl), (refl, ((refl, (refl, (refl, tt))), tt)))

read_selector-print_selector_example :
    read_selector 3 (print_selector (eq (codes "pool") (codes "editors") ∷ rest))
    ≡ some (eq (codes "pool") (codes "editors") ∷ rest)
read_selector-print_selector_example =
    read_selector-print_selector (eq (codes "pool") (codes "editors")) rest are_well_formed
