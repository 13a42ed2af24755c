-- ===== src/Kube/System.antt =====
-- Any number of handlers over one server, one request at a time, in any order. A thread may be
-- begun anew at any time, as after a crash. Beside them the kubelet, the agent and the garbage
-- collector end pods, relabel them and start others.
use mathlib.Core.Logic.{ite}
use native.Mathlib.Decide.{ℕ_discrete}
use kubimo.Common.{ℕ, String, none, some, ◌≡◌}
use kubimo.Api.Pool.{pool_state_label, pool_state_warm}
use kubimo.Common.Result.{Result}
use kubimo.Api.Meta.{Error, name_label}
use kubimo.Kube.Request.{Request, apply_pod, Answer, Program, done, ask}
use kubimo.Kube.Server.{Labels, Life, unborn, gone, alive, Server}
use kubimo.Kube.Cautious.{Who, pool}

-- What others than the handlers may do to a pod.
pub data Change : Life → Life → Type 0 where
  stays : {x : Life} → Change x x
  ends : {l : Labels} → Change (alive l) gone
  relabels :
      {l l' : Labels}
      → l' pool_state_label ≡ l pool_state_label
      → l' name_label ≡ l name_label
      → Change (alive l) (alive l')
  starts : {l : Labels} → l pool_state_label ≡ none → Change unborn (alive l)

abbrev pub update : {A : Type 0} → (ℕ → A) → ℕ → A → ℕ → A
update f i a j = ite (ℕ_discrete i j) a (f j)

pub record System (S : Type 0) : Type 0 where
  pub state : S
  pub threads : ℕ → Who × Program Unit

module _ {S : Type 0} (server : Server S) where
  open server use {life}

  -- A pod is minted under a name that no pod has had.
  abbrev pub Fresh : S → Request → Type 0
  Fresh s (apply_pod pod) = (name : String) → pod.metadata.name ≡ some name → life s name ≡ unborn
  Fresh s _ = Unit

module _ {S : Type 0} (server : Server S) (Runs : Who → Program Unit → Type 0) where
  open server use {life, serve}

  pub data Step (s : System S) : System S → Type 0 where
    begin :
        (i : ℕ) (who : Who) (p : Program Unit)
        → Runs who p
        → Step s (record s { threads = update s.threads i (who, p) })
    turn :
        (i : ℕ) (who : Who) (q : Request) (k : Result Error (Answer q) → Program Unit)
        → s.threads i ≡ (who, ask q k)
        → Fresh server s.state q
        → Step s (record {
          state = (serve q s.state).1;
          threads = update s.threads i (who, k (serve q s.state).0);
        })
    outside :
        (t : S)
        → ((name : String) → Change (life s.state name) (life t name))
        → Step s (record s { state = t })

  -- From a state in which no warm pod carries the name of a runner, with every thread at its end.
  pub data Reach (s : S) : System S → Type 0 where
    start :
        ((name : String) (l : Labels)
          → life s name ≡ alive l
          → l pool_state_label ≡ some pool_state_warm
          → l name_label ≡ none)
        → Reach s (record { state = s; threads = λ _. (pool, done tt) })
    later : {x y : System S} → Reach s x → Step x y → Reach s y

  -- The states that can be reached from a reachable state.
  pub data Run (x : System S) : System S → Type 0 where
    stop : Run x x
    more : {y z : System S} → Run x y → Step y z → Run x z
