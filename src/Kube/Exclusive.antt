-- ===== src/Kube/Exclusive.antt =====
-- The invariant of many cautious handlers over one server, and that a claim is exclusive.
use mathlib.Core.Logic.{if_pos, if_neg}
use native.Mathlib.Decide.{ℕ_discrete}
use kubimo.Common.{ℕ, String, some, ◌≡◌, ◌≢◌, ◌⊎◌, inl, inr, sym, ◌∙◌}
use kubimo.Common.Result.{Result}
use kubimo.Api.Meta.{Error, name_label}
use kubimo.Api.Pool.{pool_state_label, pool_state_claimed}
use kubimo.Kube.Request.{Request, delete_pod, Answer, Program, ask}
use kubimo.Kube.Server.{Labels, Life, alive, Server, Lawful}
use kubimo.Kube.Cautious.{Who, pool, runner, Allowed, Cautious, Learned}
use kubimo.Kube.System.{System, Fresh, Step, begin, turn, outside, Reach, start, later, update}
use kubimo.Kube.Moves.{
  Move, keeps, drops, mints, takes, Unnamed, Held, Move-Unnamed, Move-Held, Change-Unnamed,
  Change-Held, alive-alive, serve-Move, serve-Plausible, serve-Learned,
}

update_all {ℓ} :
    {A : Type 0} (P : A → Type ℓ) (f : ℕ → A) (i : ℕ) (a : A)
    → P a
    → ((j : ℕ) → P (f j))
    → (j : ℕ) → P (update f i a j)
update_all P f i a here there j = elim (ℕ_discrete i j) [
  | yes e ↦ rw (if_pos (ℕ_discrete i j) e) here
  | no h ↦ rw (if_neg (ℕ_discrete i j) h) (there j)
]

Allowed-eq :
    (who : Who) (own : String → Type 0) (q q' : Request)
    → q ≡ q'
    → Allowed who own q
    → Allowed who own q'
Allowed-eq who own q q' e h = rw (sym e) h

module _ {S : Type 0} (server : Server S) where
  open server use {life}

  -- What a thread may delete is its own, and it deletes nothing else.
  pub record Careful (s : S) (t : Who × Program Unit) : Type 1 where
    pub own : String → Type 0
    pub cautious : Cautious t.0 own t.1
    pub held : (name : String) → own name → Held t.0 (life s name)

  pub record Inv (x : System S) : Type 1 where
    pub unnamed : (name : String) → Unnamed (life x.state name)
    pub careful : (i : ℕ) → Careful x.state (x.threads i)

module _ {S : Type 0} (server : Server S) (laws : Lawful server)
    (Runs : Who → Program Unit → Type 0)
    (careful : (who : Who) (p : Program Unit) → Runs who p → Cautious who (λ _. ⊥) p) where
  open server use {life, serve}

  fresh-Careful : (s : S) (who : Who) (p : Program Unit) → Runs who p → Careful server s (who, p)
  fresh-Careful s who p runs = record {
    own = λ _. ⊥;
    cautious = careful who p runs;
    held = λ name h. absurd h;
  }

  -- The other threads keep what they hold.
  kept-Careful :
      (s t : S) (th : Who × Program Unit)
      → ((name : String) → Held th.0 (life s name) → Held th.0 (life t name))
      → Careful server s th
      → Careful server t th
  kept-Careful s t th keep c = record {
    own = c.own;
    cautious = c.cautious;
    held = λ name o. keep name (c.held name o);
  }

  next-Careful :
      (s : S) (who : Who) (q : Request) (k : Result Error (Answer q) → Program Unit)
      → Fresh server s q
      → ((name : String) → Unnamed (life s name))
      → Careful server s (who, ask q k)
      → Careful server (serve q s).1 (who, k (serve q s).0)
  next-Careful s who q k new unnamed c = record {
    own = λ name. c.own name ⊎ Learned who q (serve q s).0 name;
    cautious = c.cautious.1 (serve q s).0 (serve-Plausible server laws q s);
    held = λ name. hold name;
  }
    where
      hold :
          (name : String)
          → c.own name ⊎ Learned who q (serve q s).0 name
          → Held who (life (serve q s).1 name)
      hold name (inl o) =
          Move-Held who (serve-Move server laws q name s who c.own c.cautious.0 new) (unnamed name)
            (c.held name o)
      hold name (inr l) = serve-Learned server laws who q name s l

  Step-Inv : {x y : System S} → Step server Runs x y → Inv server x → Inv server y
  Step-Inv {x} (begin i who p runs) inv = record {
    unnamed = inv.unnamed;
    careful =
        update_all (Careful server x.state) x.threads i (who, p) (fresh-Careful x.state who p runs)
          inv.careful;
  }
  Step-Inv {x} (outside t change) inv = record {
    unnamed = λ name. Change-Unnamed (change name) (inv.unnamed name);
    careful = λ i.
        kept-Careful x.state t (x.threads i) (λ name. Change-Held _ (change name)) (inv.careful i);
  }
  Step-Inv {x} (turn i who q k here new) inv = record {
    unnamed = λ name. Move-Unnamed (moves name) (inv.unnamed name);
    careful =
        update_all (Careful server (serve q x.state).1) x.threads i (who, k (serve q x.state).0)
          (next-Careful x.state who q k new inv.unnamed mine)
          (λ j.
            kept-Careful x.state _ (x.threads j)
              (λ name. Move-Held _ (moves name) (inv.unnamed name)) (inv.careful j));
  }
    where
      mine : Careful server x.state (who, ask q k)
      mine = rw (sym here) (inv.careful i)

      moves :
          (name : String)
          → Move (q ≡ delete_pod name) (life x.state name) (life (serve q x.state).1 name)
      moves name = serve-Move server laws q name x.state who mine.own mine.cautious.0 new

  pub Reach-Inv : {s : S} {x : System S} → Reach server Runs s x → Inv server x
  Reach-Inv {s} (start none_) = record {
    unnamed = none_;
    careful = λ i. record { own = λ _. ⊥; cautious = tt; held = λ name h. absurd h };
  }
  Reach-Inv (later r st) = Step-Inv st (Reach-Inv r)

  thread-Careful :
      {s : S} {x : System S}
      → Reach server Runs s x
      → (i : ℕ) (t : Who × Program Unit) → x.threads i ≡ t
      → Careful server x.state t
  thread-Careful reach i t here = rw (sym here) ((Reach-Inv reach).careful i)

  pub turn-Move :
      {s : S} {x : System S}
      → Reach server Runs s x
      → (i : ℕ) (who : Who) (q : Request) (k : Result Error (Answer q) → Program Unit)
      → x.threads i ≡ (who, ask q k)
      → Fresh server x.state q
      → (name : String)
      → Move (q ≡ delete_pod name) (life x.state name) (life (serve q x.state).1 name)
  turn-Move {x} reach i who q k here new name =
      serve-Move server laws q name x.state who mine.own mine.cautious.0 new
    where
      mine : Careful server x.state (who, ask q k)
      mine = thread-Careful reach i (who, ask q k) here

  own-claimed :
      (who : Who) (r : String) (x : Life) (l : Labels)
      → x ≡ alive l
      → l pool_state_label ≡ some pool_state_claimed
      → l name_label ≡ some r
      → who ≢ runner r
      → Held who x
      → ⊥
  own-claimed who r x l is c n other (inl g) = cc
  own-claimed pool r x l is c n other (inr (l', e, o)) = cc (alive-alive (sym e ∙ is))
  own-claimed (runner r') r x l is c n other (inr (l', e, o)) =
      other (cc (alive-alive (sym e ∙ is)))

  Move-claimed :
      (D : Type 0) (x y : Life) (l : Labels)
      → Move D x y
      → x ≡ alive l
      → l pool_state_label ≡ some pool_state_claimed
      → (D → ⊥)
      → y ≡ alive l
  Move-claimed D x y l keeps e c no_ = e
  Move-claimed D x y l (drops d) e c no_ = absurd (no_ d)
  Move-claimed D x y l (mints _) e c no_ = cc
  Move-claimed D x y l (takes w _) e c no_ = cc (alive-alive e)

  -- In every reachable state, a pod that is claimed by a runner stays as it is, labels and all,
  -- through any request that a thread other than that runner's makes next.
  pub claimed-kept :
      {s : S} {x : System S}
      → Reach server Runs s x
      → (name r : String) (l : Labels) → life x.state name ≡ alive l
      → l pool_state_label ≡ some pool_state_claimed
      → l name_label ≡ some r
      → (i : ℕ) (who : Who) (q : Request) (k : Result Error (Answer q) → Program Unit)
      → x.threads i ≡ (who, ask q k)
      → Fresh server x.state q
      → who ≢ runner r
      → life (serve q x.state).1 name ≡ alive l
  claimed-kept {x} reach name r l is c n i who q k here new other =
      Move-claimed (q ≡ delete_pod name) _ _ l (turn-Move reach i who q k here new name) is c
        (λ d. own-claimed who r _ l is c n other (mine.held name (deletes d)))
    where
      mine : Careful server x.state (who, ask q k)
      mine = thread-Careful reach i (who, ask q k) here

      deletes : q ≡ delete_pod name → mine.own name
      deletes d = Allowed-eq who mine.own q (delete_pod name) d mine.cautious.0
