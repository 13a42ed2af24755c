-- ===== src/Budget/Examples.antt =====
-- The theorems about budgets at concrete budgets and workspaces.
use kubimo.Common.{
  ℕ, ◌*◌, ◌<◌, ◌+◌, ◌-◌, ◌^◌, ◌↔◌, String, true, false, ◌≡◌, refl, Option, none, some, [], ◌∷◌, ltb,
  leb, arith, if◌then◌else◌, not,
}
use kubimo.Common.Int.{pos}
use kubimo.Common.Result.{ok}
use kubimo.Api.Meta.{ObjectMeta}
use kubimo.Api.Quantity.{Text, Float64, StorageQuantity, to_bytes, of_bytes}
use kubimo.Api.Workspace.{Workspace, dedicated, pooled, effective_mode}
use kubimo.Api.Budget.{Budget, BudgetStatus, matches}
use kubimo.Budget.Sum.{
  Namespace, counted_bytes, sum_workspace_storage, total_bytes, pvc_requests, saturated,
  saturating_add,
}
use kubimo.Budget.Sum.Excluded.{bytes_named, sum-excluded}
use kubimo.Budget.Committed.{workspace_committed_bytes, is_budget_refused, min_bytes}
use kubimo.Budget.Allowance.{governing_cap, workspace_storage_allowance}
use kubimo.Budget.Allowance.Exact.{Allows, FitsAll, allowance_exact}
use kubimo.Budget.Reconcile.{apply, patch_status}
use kubimo.Budget.Reconcile.Exceeded.{Reports, apply-Reports}

-- Whole numbers as floats: the text is one digit.
digit : Text → Option ℕ
digit (c ∷ []) = if leb b'0' c then some (c - b'0') else none
digit _ = none

whole_fits : (x : ℕ) → true ≡ true → not (ltb x (2 ^ 64)) ≡ false → x < 2 ^ 64
whole_fits x _ h = ground arith

abbrev whole : Float64
whole = record {
  F = ℕ;
  trim = λ s. s;
  parse = digit;
  of_u64 = λ n. n;
  times = λ a c. a * c;
  is_finite = λ _. true;
  is_negative = λ _. false;
  reaches_2_pow_64 = λ n. not (ltb n (2 ^ 64));
  to_u64 = λ n. n;
  print = λ n. (b'0' + n) ∷ [];
  to_u64_fits = whole_fits;
}

abbrev meta_named : String → ObjectMeta
meta_named name = record {
  name = some name;
  uid = none;
  namespace = some "team";
  labels = some (("app", "kubimo") ∷ []);
  annotations = none;
  creation_timestamp = none;
  deletion_timestamp = none;
  generation = none;
}

abbrev bytes : ℕ → StorageQuantity
bytes n = record { quantity = n ∷ [] }

-- A dedicated workspace that asks for a minimum.
abbrev asks : String → ℕ → Workspace
asks name n = record {
  metadata = meta_named name;
  spec = record {
    mode = some dedicated;
    storage = some (record { min = some (bytes n); max = none });
    indexer = none;
    restore_from = none;
  };
  status = none;
}

abbrev budget : Budget
budget = record {
  metadata = meta_named "budget";
  spec = record { selector = ("app", "kubimo") ∷ []; storage = some (bytes b'7') };
  status = none;
}

abbrev team : Namespace
team = record {
  workspaces = λ _. ok (asks "one" b'4' ∷ asks "two" b'2' ∷ []);
  pvcs = ok [];
  budgets = ok (budget ∷ []);
}

sum-excluded_example :
    (rest : ℕ) × (sum_workspace_storage whole pooled team [] (some "two") ≡ ok (saturated rest))
    × (sum_workspace_storage whole pooled team [] none
        ≡ ok (
            saturated
              (rest + bytes_named whole pooled [] "two" (asks "one" b'4' ∷ asks "two" b'2' ∷ []))))
sum-excluded_example =
    sum-excluded whole pooled team [] "two" (asks "one" b'4' ∷ asks "two" b'2' ∷ []) [] refl refl

sum : sum_workspace_storage whole pooled team [] (some "two") ≡ ok 4
unfolding sum_workspace_storage counted_bytes saturating_add workspace_committed_bytes
    effective_mode pvc_requests is_budget_refused to_bytes min_bytes digit
sum = refl

allowance : workspace_storage_allowance whole pooled team (asks "two" b'2') ≡ ok (some 3)
unfolding sum_workspace_storage counted_bytes saturating_add workspace_committed_bytes
    effective_mode pvc_requests is_budget_refused to_bytes min_bytes workspace_storage_allowance
    matches governing_cap digit
allowance = refl

allowance_exact_example :
    Allows whole pooled team (some 3) 2
    ↔ FitsAll whole pooled team (asks "two" b'2') "two" [] (budget ∷ []) 2
allowance_exact_example =
    allowance_exact whole pooled team (asks "two" b'2') "two" (budget ∷ []) [] (some 3) 2 refl refl
      refl allowance (omega arith)

apply-Reports_example :
    (status : BudgetStatus) × ((apply whole pooled team (ok tt) (pos 9) budget).calls
      ≡ patch_status status ∷ [])
    × Reports whole
        (pos 9)
        budget
        (total_bytes whole pooled
          (pvc_requests whole [] [])
          none
          (asks "one" b'4' ∷ asks "two" b'2' ∷ []))
        status
    × (status.storage
        ≡ some (record {
          used = some (
              of_bytes whole (
                saturated (
                  total_bytes whole pooled
                    (pvc_requests whole [] [])
                    none
                    (asks "one" b'4' ∷ asks "two" b'2' ∷ []))));
          limit = some (bytes b'7');
        }))
apply-Reports_example =
    apply-Reports whole pooled team (ok tt) (pos 9) budget "budget" "team"
      (asks "one" b'4' ∷ asks "two" b'2' ∷ []) [] refl refl refl refl
