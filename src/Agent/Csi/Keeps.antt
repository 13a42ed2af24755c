-- ===== src/Agent/Csi/Keeps.antt =====
-- Handlers that leave the data volume as it is: agent/src/csi.rs.
use kubimo.Common.{Bool, true, false, String, ◌≡◌, refl, ◌∙◌, ◌∷◌, if◌then◌else◌}
use kubimo.Common.Result.{Result, ok, err}
use kubimo.Agent.Csi.Node.{
  Status, Action, State, Answers, Handler, act, try_act, lift, gets, fail, pure, continue, ◌>>=◌,
}

-- With the volume as it was, whether they succeed or fail.
unfoldable pub Keeps : {A : Type 0} → Handler A → Type 0
Keeps m = (s : State) → (m s).1.volume ≡ s.volume

after :
    {A B : Type 0} (r : Result Status A) (f : A → Handler B) (s : State)
    → ((a : A) → Keeps (f a))
    → (continue r f s).1.volume ≡ s.volume
unfolding Keeps
after (ok a) f s k = k a s
after (err e) f s k = refl

pub bind-Keeps :
    {A B : Type 0} (m : Handler A) (f : A → Handler B)
    → Keeps m
    → ((a : A) → Keeps (f a))
    → Keeps (m >>= f)
unfolding Keeps
bind-Keeps m f first rest s = after (m s).0 f (m s).1 rest ∙ first s

pub pure-Keeps : {A : Type 0} (a : A) → Keeps (pure a)
unfolding Keeps
pure-Keeps a s = refl

pub fail-Keeps : (e : Status) → Keeps (fail {A = Unit {0}} e)
unfolding Keeps
fail-Keeps e s = refl

pub lift-Keeps : {A : Type 0} (r : Result Status A) → Keeps (lift r)
unfolding Keeps
lift-Keeps r s = refl

pub gets-then :
    {A B : Type 0} (g : State → A) (f : A → Handler B)
    → ((a : A) → Keeps (f a))
    → Keeps (gets g >>= f)
unfolding Keeps
gets-then g f k s = k (g s) s

pub if-Keeps :
    {A : Type 0} (b : Bool) (m n : Handler A) → Keeps m → Keeps n → Keeps (if b then m else n)
if-Keeps true m n k l = k
if-Keeps false m n k l = l

module _ (world : Answers) where
  pub act-Keeps : (context : String) (a : Action) → Keeps (act world context a)
  unfolding Keeps
  act-Keeps context a s = refl

  pub act-then :
      {A : Type 0} (context : String) (a : Action) (f : Bool → Handler A)
      → ((b : Bool) → Keeps (f b))
      → Keeps (act world context a >>= f)
  act-then context a f k = bind-Keeps (act world context a) f (act-Keeps context a) k

  pub try-then :
      {A : Type 0} (a : Action) (f : Result String Bool → Handler A)
      → ((r : Result String Bool) → Keeps (f r))
      → Keeps (try_act world a >>= f)
  unfolding Keeps
  try-then a f k s = k (world.does s.trace a) (record s { trace = a ∷ s.trace })
