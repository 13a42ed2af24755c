-- ===== src/Kube/Server.antt =====
-- What the handlers rely on of the API server, as laws over an abstract state: the labels of the
-- pods of a namespace, and how each request may change them.
use mathlib.Core.List.{Memᴰ}
use kubimo.Common.{
  String, Option, none, some, List, [], ◌∷◌, ◌≡◌, ◌≢◌, ◌⊎◌, or, if◌then◌else◌, ◌==◌,
  text_partial_eq,
}
use kubimo.Common.Result.{Result, ok, err}
use kubimo.Api.Meta.{Error}
use kubimo.Api.Pod.{Pod}
use kubimo.Kube.Request.{
  PatchOperation, test_label, put_label, add_label, Request, list_pods, patch_pod, apply_pod,
  delete_pod, Answer, label_of,
}

abbrev pub Labels : Type 0
Labels = String → Option String

abbrev pub labels_of : Pod → Labels
labels_of pod key = label_of key pod

-- A name that no pod has had, the labels of the pod of that name, or a pod that is gone.
pub data Life : Type 0 where
  unborn gone : Life
  alive : Labels → Life

abbrev pub value_at : String → PatchOperation → Option String
value_at key (put_label k v) = if k == key then some v else none
value_at key (add_label k v) = if k == key then some v else none
value_at key _ = none

-- The value that a patch leaves at a label, if it writes it.
abbrev pub written : List PatchOperation → Labels
written [] key = none
written (op ∷ ops) key = or (written ops key) (value_at key op)

-- The name of the pod that a request may change.
abbrev pub subject : Request → Option String
subject (patch_pod name _) = some name
subject (apply_pod pod) = pod.metadata.name
subject (delete_pod name) = some name
subject _ = none

pub record Server (S : Type 0) : Type 0 where
  pub life : S → String → Life
  pub serve : (q : Request) → S → Result Error (Answer q) × S

module _ {S : Type 0} (server : Server S) where
  open server use {life, serve}

  pub record Lawful : Type 0 where
    pub elsewhere :
        (q : Request) (s : S) (name : String)
        → subject q ≢ some name
        → life (serve q s).1 name ≡ life s name
    pub listed :
        (labels : List (String × String)) (s : S) (pods : List Pod)
        → (serve (list_pods labels) s).0 ≡ ok pods
        → (pod : Pod) → Memᴰ pod pods
        → ((name : String) → pod.metadata.name ≡ some name → life s name ≡ alive (labels_of pod))
          × ((key value : String) → Memᴰ (key, value) labels → label_of key pod ≡ some value)
    -- A patch is made as a whole or not at all; a test that it starts with held before it.
    pub patched :
        (name : String) (ops : List PatchOperation) (s : S) (pod : Pod)
        → (serve (patch_pod name ops) s).0 ≡ ok pod
        → (pod.metadata.name ≡ some name)
          × ((l : Labels) × (life s name ≡ alive l)
              × (life (serve (patch_pod name ops) s).1 name ≡ alive (λ k. or (written ops k) (l k)))
              × ((key value : String) (rest : List PatchOperation)
                  → ops ≡ test_label key value ∷ rest
                  → l key ≡ some value))
    pub refused :
        (name : String) (ops : List PatchOperation) (s : S) (e : Error)
        → (serve (patch_pod name ops) s).0 ≡ err e
        → life (serve (patch_pod name ops) s).1 name ≡ life s name
    pub applied :
        (pod : Pod) (name : String) (s : S)
        → pod.metadata.name ≡ some name
        → life s name ≡ unborn
        → (life (serve (apply_pod pod) s).1 name ≡ unborn)
          ⊎ (life (serve (apply_pod pod) s).1 name ≡ alive (labels_of pod))
    pub deleted :
        (name : String) (s : S)
        → (life (serve (delete_pod name) s).1 name ≡ life s name)
          ⊎ (life (serve (delete_pod name) s).1 name ≡ gone)
