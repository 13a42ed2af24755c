-- ===== src/RunnerStatus/Upsert/Recorded.antt =====
-- What several updates make of a list of conditions: conditions.rs of the runner status.
use mathlib.Core.Path.{subst}
use kubimo.Common.{
  String, ◌≡◌, ◌≢◌, refl, ◌∙◌, Option, none, some, List, arith, eq_iff, eq_refl, text_partial_eq,
}
use kubimo.Api.Meta.{Condition}
use kubimo.RunnerStatus.Observed.{find_condition}
use kubimo.RunnerStatus.Upsert.{upsert_condition}
use kubimo.RunnerStatus.Upsert.Lookup.{Updated, merged, merge-Updated, find-upsert, find-type_}

-- What an update by `new` makes of the entry of its type; where there is none, it is the entry.
pub After : Option Condition → Condition → Condition → Type 0
After none new cur = cur ≡ new
After (some old) new cur = Updated old new cur

-- The list `after` has, for the type of `new`, what an update by it makes of the entry in `before`.
abbrev pub Recorded : List Condition → List Condition → Condition → Type 0
Recorded before after new =
    (cur : Condition) × (find_condition new.type_ after ≡ some cur)
    × After (find_condition new.type_ before) new cur

merged-After :
    (cs : List Condition) (new : Condition) (o : Option Condition)
    → find_condition new.type_ cs ≡ o
    → After o new (merged o new)
unfolding After
merged-After cs new none h = refl
merged-After cs new (some old) h = merge-Updated old new (find-type_ new.type_ cs old h)

pub upsert-Recorded :
    (cs : List Condition) (new : Condition) → Recorded cs (upsert_condition cs new) new
upsert-Recorded cs new = (
  merged (find_condition new.type_ cs) new,
  rw find-upsert (rw (eq_refl new.type_) refl),
  merged-After cs new (find_condition new.type_ cs) refl,
)

pub find-upsert_other :
    (t : String) (cs : List Condition) (new : Condition)
    → new.type_ ≢ t
    → find_condition t (upsert_condition cs new) ≡ find_condition t cs
find-upsert_other t cs new ne = rw find-upsert (ground (arith, eq_iff new.type_ t))

pub Recorded-later :
    (before after : List Condition) (new other : Condition)
    → other.type_ ≢ new.type_
    → Recorded before after new
    → Recorded before (upsert_condition after other) new
Recorded-later before after new other ne (cur, f, a) =
    (cur, find-upsert_other new.type_ after other ne ∙ f, a)

pub Recorded-earlier :
    (before after : List Condition) (new other : Condition)
    → other.type_ ≢ new.type_
    → Recorded (upsert_condition before other) after new
    → Recorded before after new
Recorded-earlier before after new other ne (cur, f, a) =
    (cur, f, subst (λ o. After o new cur) (find-upsert_other new.type_ before other ne) a)
