-- ===== src/RunnerStatus/Upsert/Settled.antt =====
-- An update that brings the status and the reason that are there already changes nothing.
use kubimo.Common.{
  ◌≡◌, ◌≢◌, refl, Option, none, some, List, [], ◌∷◌, arith, eq_iff, eq_refl, text_partial_eq,
}
use kubimo.Api.Meta.{Condition}
use kubimo.RunnerStatus.Observed.{find_condition}
use kubimo.RunnerStatus.Upsert.{merge, upsert_condition}
use kubimo.RunnerStatus.Upsert.Lookup.{merged, find-upsert}

-- The list has a condition with the type, the status and the reason of `c`.
pub record Holds (cs : List Condition) (c : Condition) : Type 0 where
  pub entry : Condition
  pub found : find_condition c.type_ cs ≡ some entry
  pub status : entry.status ≡ c.status
  pub reason : entry.reason ≡ c.reason

pub upsert-eq_of_Holds :
    (cs : List Condition) (c x : Condition)
    → find_condition c.type_ cs ≡ some x
    → x.status ≡ c.status
    → x.reason ≡ c.reason
    → upsert_condition cs c ≡ cs
unfolding find_condition upsert_condition merge
upsert-eq_of_Holds [] c x f s r = cc
upsert-eq_of_Holds (d ∷ ds) c x f s r = ground (
  arith,
  upsert-eq_of_Holds ds c x,
  eq_iff d.type_ c.type_,
  eq_iff d.status c.status,
  eq_iff d.reason c.reason,
)

merged-Holds :
    (o : Option Condition) (c : Condition)
    → ((merged o c).status ≡ c.status) × ((merged o c).reason ≡ c.reason)
unfolding merge
merged-Holds none c = (refl, refl)
merged-Holds (some x) c = ground (arith, eq_iff x.status c.status, eq_iff x.reason c.reason)

-- After an update by `c`, for every later `d` that repeats its type, status and reason.
pub upsert-Holds :
    (cs : List Condition) (c d : Condition)
    → d.type_ ≡ c.type_
    → d.status ≡ c.status
    → d.reason ≡ c.reason
    → Holds (upsert_condition cs c) d
upsert-Holds cs c d t s r = record {
  entry = merged (find_condition c.type_ cs) c;
  found = rw t (rw find-upsert (ground (arith, eq_refl c.type_)));
  status = ground (arith, merged-Holds (find_condition c.type_ cs) c);
  reason = ground (arith, merged-Holds (find_condition c.type_ cs) c);
}

pub Holds-upsert :
    (cs : List Condition) (c d : Condition)
    → c.type_ ≢ d.type_
    → Holds cs d
    → Holds (upsert_condition cs c) d
Holds-upsert cs c d ne h = record {
  entry = h.entry;
  found = rw find-upsert (ground (arith, h.found, eq_iff c.type_ d.type_));
  status = h.status;
  reason = h.reason;
}
