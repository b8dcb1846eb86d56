-- ===== src/Kube.antt =====
-- What the controllers read of the Kubernetes objects, and how the API server answers them. The
-- server itself (sigs.k8s.io/controller-runtime's client) is a parameter of each controller: a
-- record of functions from the calls made so far to the next answer, so that it may answer
-- anything, and differently each time.
use kubeocean.Dict.{StrMap}
use kubeocean.Prelude.{ℕ, Bool, List, String}

-- metav1.ObjectMeta; `deleting` says that there is a DeletionTimestamp. A nil map is the empty one.
pub record Meta : Type 0 where
  pub namespace : String
  pub name : String
  pub uid : String
  pub labels : StrMap
  pub annotations : StrMap
  pub finalizers : List String
  pub deleting : Bool

-- The answer to a Get or a List: `missing` is an error for which IsNotFound holds.
pub data Fetch (A : Type 0) : Type 0 where
  found : A → Fetch A
  missing : Fetch A
  failed : Fetch A

-- The answer to a Create, an Update, a Patch or a Delete.
pub data Reply : Type 0 where
  done not_found already_exists refused : Reply

-- ctrl.Result with its error: the seconds after which to come back, 0 for none.
pub data Outcome : Type 0 where
  requeue_after : ℕ → Outcome
  error : Outcome
