-- ===== src/Api/Budget.antt =====
-- Budgets: api/src/crd.rs.
use kubimo.Common.{
  String, Bool, true, false, Option, none, some, List, [], ◌∷◌, all, is_some_and, lookup, Dict,
  ◌==◌, text_partial_eq,
}
use kubimo.Api.Meta.{ObjectMeta, Condition}
use kubimo.Api.Quantity.{StorageQuantity}

pub record BudgetResourceStatus : Type 0 where
  pub used : Option StorageQuantity
  pub limit : Option StorageQuantity

pub record BudgetStatus : Type 0 where
  pub conditions : Option (List Condition)
  pub storage : Option BudgetResourceStatus

pub record BudgetSpec : Type 0 where
  pub selector : Dict String
  pub storage : Option StorageQuantity

pub record Budget : Type 0 where
  pub metadata : ObjectMeta
  pub spec : BudgetSpec
  pub status : Option BudgetStatus

is_empty : Dict String → Bool
is_empty [] = true
is_empty (_ ∷ _) = false

-- `labels.get(key) == Some(value)`
abbrev pub has_label : Dict String → String × String → Bool
has_label labels (key, value) = is_some_and (λ v. v == value) (lookup key labels)

-- Do the labels satisfy every entry of the selector?
unfoldable pub matches : BudgetSpec → Option (Dict String) → Bool
unfolding is_empty
matches spec none = is_empty spec.selector
matches spec (some labels) = all (has_label labels) spec.selector
