-- ===== src/RunnerStatus/Upsert/Lookup.antt =====
-- What an update of a condition list changes, and what it leaves.
use kubimo.Common.{
  Bool-cases, inl, inr, sym, ◌∙◌, String, Bool, false, ◌≡◌, ◌≢◌, refl, Option, none, some, List, [],
  ◌∷◌, arith, map_or, eq_iff, eq_refl, ◌==◌, text_partial_eq, if◌then◌else◌,
}
use kubimo.Api.Meta.{Condition}
use kubimo.RunnerStatus.Observed.{find_condition}
use kubimo.RunnerStatus.Upsert.{merge, upsert_condition, is_true}

-- What an update by `new` makes of the entry `old` of its type.
pub record Updated (old new cur : Condition) : Type 0 where
  pub type_ : cur.type_ ≡ old.type_
  pub status : cur.status ≡ new.status
  pub reason : cur.reason ≡ new.reason
  pub changed : old.status ≢ new.status → cur ≡ new
  pub held : old.status ≡ new.status → cur.last_transition_time ≡ old.last_transition_time
  pub settled : old.status ≡ new.status → old.reason ≡ new.reason → cur ≡ old
  pub explained :
      old.status ≡ new.status
      → old.reason ≢ new.reason
      → (cur.message ≡ new.message) × (cur.observed_generation ≡ new.observed_generation)

pub merge-Updated : (old new : Condition) → old.type_ ≡ new.type_ → Updated old new (merge old new)
unfolding merge
merge-Updated old new h = ground (arith, eq_iff old.status new.status, eq_iff old.reason new.reason)

-- The entry after an update, by the entry before it.
abbrev pub merged : Option Condition → Condition → Condition
merged none new = new
merged (some old) new = merge old new

pub status-merged : (o : Option Condition) (new : Condition) → (merged o new).status ≡ new.status
unfolding merge
status-merged none new = refl
status-merged (some old) new = ground (arith, eq_iff old.status new.status)

type_-merge : (c new : Condition) → c.type_ ≡ new.type_ → (merge c new).type_ ≡ new.type_
unfolding merge
type_-merge c new h = ground arith

pub find-upsert :
    (t : String) (cs : List Condition) (new : Condition)
    → find_condition t (upsert_condition cs new) ≡ (
        if new.type_ == t
        then some (merged (find_condition new.type_ cs) new)
        else find_condition t cs)
unfolding find_condition upsert_condition
find-upsert t [] new = ground arith
find-upsert t (c ∷ cs) new = ground (
  arith,
  find-upsert t cs new,
  eq_iff c.type_ new.type_,
  eq_iff c.type_ t,
  eq_iff new.type_ t,
  eq_iff (merge c new).type_ t,
  type_-merge c new,
)

pub find-type_ :
    (t : String) (cs : List Condition) (c : Condition) → find_condition t cs ≡ some c → c.type_ ≡ t
unfolding find_condition
find-type_ t [] c e = cc
find-type_ t (d ∷ ds) c e = ground (arith, find-type_ t ds c, eq_iff d.type_ t)

-- An update of an entry that is there gives the entry that `Updated` describes, and every
-- condition of another type is found as before.
pub upsert-Updated :
    (cs : List Condition) (new old : Condition)
    → find_condition new.type_ cs ≡ some old
    → ((cur : Condition) × (find_condition new.type_ (upsert_condition cs new) ≡ some cur)
        × Updated old new cur)
      × ((t : String)
          → new.type_ ≢ t
          → find_condition t (upsert_condition cs new) ≡ find_condition t cs)
upsert-Updated cs new old h = (
  (
    merge old new,
    rw find-upsert (ground (arith, eq_refl new.type_)),
    merge-Updated old new (find-type_ new.type_ cs old h),
  ),
  λ t ne. rw find-upsert (ground (arith, eq_iff new.type_ t)),
)

-- No two conditions of the list have one type.
abbrev pub Unique : List Condition → Type 0
Unique [] = Unit
Unique (c ∷ cs) = (find_condition c.type_ cs ≡ none) × Unique cs

pub upsert-Unique :
    (cs : List Condition) (new : Condition) → Unique cs → Unique (upsert_condition cs new)
unfolding upsert_condition find_condition
upsert-Unique [] new u = (refl, tt)
upsert-Unique (c ∷ cs) new u = elim (Bool-cases (c.type_ == new.type_)) [
  | inl e ↦
      let same : c.type_ ≡ new.type_ = (eq_iff c.type_ new.type_).0 e in
      rw e (rw (type_-merge c new same ∙ sym same) u.0, u.1)
  | inr e ↦ rw e (
    rw (find-upsert c.type_ cs new)
        (ground (arith, u.0, eq_iff c.type_ new.type_, eq_iff new.type_ c.type_)),
    upsert-Unique cs new u.1,
  )
]

abbrev status_is_true : Condition → Bool
status_is_true c = c.status == "True"

pub is_true-eq-find :
    (t : String) (cs : List Condition)
    → Unique cs
    → is_true t cs ≡ map_or false status_is_true (find_condition t cs)
unfolding is_true find_condition
is_true-eq-find t [] u = refl
is_true-eq-find t (c ∷ cs) u = ground (arith, is_true-eq-find t cs, eq_iff c.type_ t)

-- Reading a type's status after an update: the new one, or the one before.
pub is_true-upsert :
    (t : String) (cs : List Condition) (new : Condition)
    → Unique cs
    → is_true t (upsert_condition cs new)
      ≡ (if new.type_ == t then new.status == "True" else is_true t cs)
is_true-upsert t cs new u =
    rw (is_true-eq-find t (upsert_condition cs new) (upsert-Unique cs new u)) (
      rw (find-upsert t cs new)
        (ground (arith, is_true-eq-find t cs u, status-merged (find_condition new.type_ cs) new)))
