-- ===== src/Kube/Request.antt =====
-- Requests to the API server, in the namespace of the reconciled object, and handlers as programs
-- that make requests and go on by the answers: what controller/src/ calls of api/src/api.rs.
use kubimo.Common.{ℕ, String, Bool, false, Option, List, ◌==◌, number_partial_eq, and_then, lookup}
use kubimo.Common.Int.{pos}
use kubimo.Common.Result.{Result, ok, err}
use kubimo.Api.Meta.{Error, api, OwnerReference}
use kubimo.Api.Pod.{Pod, Secret}
use kubimo.Api.Pool.{Pool, PoolStatus}
use kubimo.Api.Runner.{RunnerStatus}

-- The operations of a JSON patch: `test!`, `put!` and `add!` at a label, and at the other paths
-- that the handlers write.
pub data PatchOperation : Type 0 where
  test_label put_label add_label : (key value : String) → PatchOperation
  put_owners : List OwnerReference → PatchOperation
  add_annotation : (key value : String) → PatchOperation

-- `get_pod` and `get_pool` are `get_opt`, `get_secret` is `get`, the `apply_` requests are `patch`
-- (server-side apply), `delete_pod` is `delete_opt`.
pub data Request : Type 0 where
  get_pod : String → Request
  list_pods : (labels : List (String × String)) → Request
  patch_pod : String → List PatchOperation → Request
  apply_pod : Pod → Request
  delete_pod : String → Request
  get_secret : String → Request
  create_secret apply_secret : Secret → Request
  get_pool : String → Request
  patch_pool_status : PoolStatus → Request
  patch_runner_status : RunnerStatus → Request

abbrev pub Answer : Request → Type 0
Answer (get_pod _) = Option Pod
Answer (list_pods _) = List Pod
Answer (patch_pod _ _) = Pod
Answer (apply_pod _) = Pod
Answer (delete_pod _) = Unit
Answer (get_secret _) = Secret
Answer (create_secret _) = Unit
Answer (apply_secret _) = Unit
Answer (get_pool _) = Option Pool
Answer (patch_pool_status _) = Unit
Answer (patch_runner_status _) = Unit

pub data Program (A : Type 0) : Type 0 where
  done : A → Program A
  ask : (q : Request) → (Result Error (Answer q) → Program A) → Program A

-- A handler ends with a result.
abbrev pub Handler : Type 0 → Type 0
Handler A = Program (Result Error A)

abbrev pub pure : {A : Type 0} → A → Handler A
pure a = done (ok a)

abbrev pub answer : {A : Type 0} → Result Error A → Handler A
answer r = done r

abbrev pub call : (q : Request) → Handler (Answer q)
call q = ask q done

-- A request whose error the handler looks at.
abbrev pub try_call : (q : Request) → Handler (Result Error (Answer q))
try_call q = ask q (λ r. done (ok r))

infixl 5 ◌>>=◌ ◌>>◌
abbrev pub ◌>>=◌ : {A B : Type 0} → Handler A → (A → Handler B) → Handler B
done (ok a) >>= f = f a
done (err e) >>= f = done (err e)
ask q k >>= f = ask q (λ r. k r >>= f)

abbrev pub ◌>>◌ : {A B : Type 0} → Handler A → Handler B → Handler B
m >> n = m >>= λ _. n

-- Is it the answer of the API server with this status code?
abbrev pub has_code : ℕ → Error → Bool
has_code code (api (pos n) _) = n == code
has_code code _ = false

abbrev pub label_of : String → Pod → Option String
label_of key pod = and_then pod.metadata.labels (lookup key)

-- A handler as a thread: what it returns is not looked at.
unfoldable pub forget : {A : Type 0} → Program A → Program Unit
forget (done a) = done tt
forget (ask q k) = ask q (λ r. forget (k r))
