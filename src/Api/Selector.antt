-- ===== src/Api/Selector.antt =====
-- Label selectors and how they are printed: api/src/selector.rs. A set of values is a sorted list.
pub mod Syntax
use kubimo.Common.{List, [], ◌∷◌, ◌++◌}
use kubimo.Common.Text.{Text, codes}

pub data Expression : Type 0 where
  eq neq : (key value : Text) → Expression
  in_ not_in : (key : Text) → (values : List Text) → Expression
  exists not_exists : (key : Text) → Expression

unfoldable pub join_values : List Text → Text
join_values [] = []
join_values (value ∷ []) = value
join_values (value ∷ next ∷ rest) = value ++ b',' ∷ join_values (next ∷ rest)

unfoldable pub print_expression : Expression → Text
unfolding join_values
print_expression (eq key value) = key ++ codes "=" ++ value
print_expression (neq key value) = key ++ codes "!=" ++ value
print_expression (in_ key values) = key ++ codes " in (" ++ join_values values ++ codes ")"
print_expression (not_in key values) = key ++ codes " notin (" ++ join_values values ++ codes ")"
print_expression (exists key) = key
print_expression (not_exists key) = codes "!" ++ key

unfoldable pub print_selector : List Expression → Text
unfolding print_expression
print_selector [] = []
print_selector (expr ∷ []) = print_expression expr
print_selector (expr ∷ next ∷ rest) = print_expression expr ++ b',' ∷ print_selector (next ∷ rest)
