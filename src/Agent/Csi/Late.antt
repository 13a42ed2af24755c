-- ===== src/Agent/Csi/Late.antt =====
-- Handlers that fail, if they do, by a failure of the work: agent/src/csi.rs.
use mathlib.Core.Path.{subst}
use kubimo.Common.{◌∷◌, String, Bool, true, false, ◌≡◌, if◌then◌else◌}
use kubimo.Common.Result.{Result, ok, err}
use kubimo.Agent.Volume.{Store, StoreError}
use kubimo.Agent.Csi.Node.{
  Status, unavailable, invalid_argument, failed_precondition, internal, Action, State, Answers,
  Handler, internally, act, try_act, gets, stored, on_volume, store, lift, fail, pure, continue,
  ◌>>=◌,
}

-- A failure of the work, not a refusal of the request.
abbrev pub IsLate : Status → Type 0
IsLate (internal _) = Unit
IsLate (failed_precondition _) = Unit
IsLate _ = ⊥

pub record Late {A : Type 0} (m : Handler A) : Type 0 where
  pub late : (s : State) (e : Status) → (m s).0 ≡ err e → IsLate e

continue-Late :
    {A B : Type 0} (r : Result Status A) (f : A → Handler B) (s : State) (e : Status)
    → ((e : Status) → r ≡ err e → IsLate e)
    → ((a : A) → Late (f a))
    → (continue r f s).0 ≡ err e
    → IsLate e
continue-Late (ok a) f s e first rest h = (rest a).late s e h
continue-Late (err d) f s e first rest h = first e (cc)

pub bind-Late :
    {A B : Type 0} (m : Handler A) (f : A → Handler B)
    → Late m
    → ((a : A) → Late (f a))
    → Late (m >>= f)
bind-Late m f first rest = record {
  late = λ s e h. continue-Late (m s).0 f (m s).1 e (λ d. first.late s d) rest h;
}

pub internally-IsLate :
    {E A : Type 0} (show : E → String) (context : String) (r : Result E A) (e : Status)
    → internally show context r ≡ err e
    → IsLate e
internally-IsLate show context (ok a) e h = absurd (cc)
internally-IsLate show context (err d) (internal _) h = tt
internally-IsLate show context (err d) (failed_precondition _) h = tt
internally-IsLate show context (err d) (unavailable _) h = cc
internally-IsLate show context (err d) (invalid_argument _) h = cc

pub pure-Late : {A : Type 0} (a : A) → Late (pure a)
pure-Late a = record { late = λ s e h. absurd (cc) }

err-err : {A : Type 0} {d e : Status} → ◌≡◌ {A = Result Status A} (err d) (err e) → d ≡ e
err-err h = cc

pub fail-Late : {A : Type 0} (d : Status) → IsLate d → Late (fail {A = A} d)
fail-Late {A} d t = record { late = λ s e h. subst IsLate (err-err {A = A} h) t }

module _ (world : Answers) where
  pub act-Late : (context : String) (a : Action) → Late (act world context a)
  act-Late context a = record {
    late = λ s e h. internally-IsLate (λ (x : String). x) context (world.does s.trace a) e h;
  }

  pub store-Late : {A : Type 0} (context : String) (m : Store A) → Late (store world context m)
  store-Late context m = record {
    late = λ s e h. internally-IsLate world.show context (m s.volume).0 e h;
  }

  pub checked-Late :
      {E A : Type 0} (show : E → String) (context : String) (r : Result E A)
      → Late (lift (internally show context r))
  checked-Late show context r = record { late = λ s e h. internally-IsLate show context r e h }

  pub try-then :
      {A : Type 0} (a : Action) (f : Result String Bool → Handler A)
      → ((r : Result String Bool) → Late (f r))
      → Late (try_act world a >>= f)
  try-then a f rest = record {
    late = λ s e h. (rest (world.does s.trace a)).late (record s { trace = a ∷ s.trace }) e h;
  }

  pub act-then :
      {A : Type 0} (context : String) (a : Action) (f : Bool → Handler A)
      → ((b : Bool) → Late (f b))
      → Late (act world context a >>= f)
  act-then context a f rest = bind-Late (act world context a) f (act-Late context a) rest

pub stored-then :
    {A B : Type 0} (m : Store A) (f : Result StoreError A → Handler B)
    → ((r : Result StoreError A) → Late (f r))
    → Late (stored m >>= f)
stored-then m f rest = record { late = λ s e h. (rest (m s.volume).0).late (on_volume m s) e h }

pub gets-then :
    {A B : Type 0} (g : State → A) (f : A → Handler B)
    → ((a : A) → Late (f a))
    → Late (gets g >>= f)
gets-then g f rest = record { late = λ s e h. (rest (g s)).late s e h }

pub if-Late :
    {A : Type 0} (b : Bool) (m n : Handler A) → Late m → Late n → Late (if b then m else n)
if-Late true m n l k = l
if-Late false m n l k = k
