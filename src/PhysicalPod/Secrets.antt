-- ===== src/PhysicalPod/Secrets.antt =====
-- physical_pod_controller.go: deleteServiceAccountTokenSecretsFromSpec, and the interface to the
-- two API servers.
use text.Mathlib.Text.{starts_with}
use kubeocean.Dict.{StrMap, has, ◌at◌}
use kubeocean.Effect.{M, ◌>>=◌, return, call}
use kubeocean.Kube.{Fetch, found, missing, failed, Reply, not_found, done, already_exists, refused}
use kubeocean.PhysicalPod.Defs.{Pod, Volume, label_service_account_token}
use kubeocean.Prelude.{
  ◌≡◌, refl, Bool, true, false, ◌&&◌, Option, none, some, List, [], ◌∷◌, String, ◌==◌,
  if◌then◌else◌, All, Any, All-map, inl, inr,
}

pub data Call (Payload : Type 0) : Type 0 where
  get_physical_pod get_virtual_pod get_secret : String → String → Call Payload
  delete_pod : String → String → String → Call Payload
  delete_secret : String → String → Call Payload
  update_status : Pod Payload → Call Payload

-- The answers of the API servers, and the clock. A pod is deleted by its namespace, its name and
-- its UID as the precondition.
pub record Api (Payload : Type 0) : Type 0 where
  pub physical_pod : List (Call Payload) → String → String → Fetch (Pod Payload)
  pub virtual_pod : List (Call Payload) → String → String → Fetch (Pod Payload)
  pub secret_labels : List (Call Payload) → String → String → Fetch StrMap
  pub pod_deleted : List (Call Payload) → String → String → String → Reply
  pub secret_deleted : List (Call Payload) → String → String → Reply
  pub status_updated : List (Call Payload) → Pod Payload → Reply
  pub now : List (Call Payload) → String

-- The secret of a projected volume: the last source that has one.
abbrev last_secret : String → List (Option String) → String
last_secret name [] = name
last_secret name (none ∷ sources) = last_secret name sources
last_secret name (some secret ∷ sources) = last_secret secret sources

projected_secret : Option (List (Option String)) → String
projected_secret none = ""
projected_secret (some sources) = last_secret "" sources

pub secret_name : Volume → String
unfolding projected_secret
secret_name v = elim v.secret [ some name ↦ name | none ↦ projected_secret v.projected ]

abbrev pub is_token_secret : StrMap → Bool
is_token_secret labels =
    has label_service_account_token labels && labels at label_service_account_token == "true"

module _ {Payload : Type 0} (api : Api Payload) (namespace : String) where
  open api use {secret_labels, secret_deleted}

  -- Whether the answer names a secret to delete; every error is passed over.
  abbrev token_found : Fetch StrMap → Bool
  token_found (found labels) = is_token_secret labels
  token_found missing = false
  token_found failed = false

  check_secret : String → M (Call Payload) Bool
  check_secret name = if name == "" then return false else (do
    answer ← call (get_secret namespace name) (λ log. secret_labels log namespace name)
    return (token_found answer))

  abbrev is_api_access : Volume → Bool
  is_api_access v = starts_with v.name "kube-api-access-"

  check_volume : Volume → M (Call Payload) Bool
  unfolding check_secret
  check_volume v = if is_api_access v then check_secret (secret_name v) else return false

  -- The first loop: the names of the secrets to delete, in the order of the volumes.
  collect_secrets : List Volume → M (Call Payload) (List String)
  collect_secrets [] = return []
  collect_secrets (v ∷ volumes) = do
    found_token ← check_volume v
    names ← collect_secrets volumes
    return (if found_token then secret_name v ∷ names else names)

  after_secret : Reply → M (Call Payload) Bool → M (Call Payload) Bool
  after_secret done rest = rest
  after_secret not_found rest = rest
  after_secret _ rest = return false

  -- Whether all went well: the first refusal ends the loop.
  delete_secrets : List String → M (Call Payload) Bool
  unfolding after_secret
  delete_secrets [] = return true
  delete_secrets (name ∷ names) = do
    reply ← call (delete_secret namespace name) (λ log. secret_deleted log namespace name)
    after_secret reply (delete_secrets names)

  pub delete_service_account_token_secrets : List Volume → M (Call Payload) Bool
  unfolding collect_secrets delete_secrets
  delete_service_account_token_secrets volumes = do
    names ← collect_secrets volumes
    delete_secrets names

  -- A secret that the deletion is about: a token volume of the pod names it, and the server showed
  -- it with the label of a service-account token.
  abbrev pub IsTokenSecret : List Volume → String → Type 0
  IsTokenSecret volumes name =
      Any (λ v. (is_api_access v ≡ true) × (secret_name v ≡ name)) volumes
      × ((log : List (Call Payload)) × (labels : StrMap) × (secret_labels log namespace name
            ≡ found labels)
          × (is_token_secret labels ≡ true))

  token_found-found :
      (log : List (Call Payload)) (name : String)
      → token_found (secret_labels log namespace name) ≡ true
      → (log' : List (Call Payload)) × (labels : StrMap) × (secret_labels log' namespace name
          ≡ found labels)
        × (is_token_secret labels ≡ true)
  token_found-found log name h = by_answer (secret_labels log namespace name) refl h
    where
      by_answer :
          (a : Fetch StrMap)
          → secret_labels log namespace name ≡ a
          → token_found a ≡ true
          → (log' : List (Call Payload)) × (labels : StrMap) × (secret_labels log' namespace name
              ≡ found labels)
            × (is_token_secret labels ≡ true)
      by_answer (found labels) e t = (log, labels, e, t)
      by_answer missing e t = absurd (cc)
      by_answer failed e t = absurd (cc)

  check_volume_sound :
      (v : Volume) (log : List (Call Payload))
      → (check_volume v log).0 ≡ true
      → (is_api_access v ≡ true)
        × ((log' : List (Call Payload)) × (labels : StrMap) × (secret_labels log' namespace
                (secret_name v)
              ≡ found labels)
            × (is_token_secret labels ≡ true))
  unfolding check_volume
  check_volume_sound v log h = by_tests (is_api_access v) (secret_name v == "") refl h
    where
      by_tests :
          (a e : Bool)
          → is_api_access v ≡ a
          → ((if a
                then (if e then return false else (do
                  answer ←
                      call
                        (get_secret namespace (secret_name v))
                        (λ log. secret_labels log namespace (secret_name v))
                  return (token_found answer)))
                else return false)
              log).0
            ≡ true
          → (is_api_access v ≡ true)
            × ((log' : List (Call Payload)) × (labels : StrMap) × (secret_labels log' namespace
                    (secret_name v)
                  ≡ found labels)
                × (is_token_secret labels ≡ true))
      by_tests false e p q = absurd (cc)
      by_tests true true p q = absurd (cc)
      by_tests true false p q = (p, token_found-found log (secret_name v) q)

  collect_secrets-IsTokenSecret :
      (volumes : List Volume) (log : List (Call Payload))
      → All (IsTokenSecret volumes) (collect_secrets volumes log).0
  unfolding collect_secrets
  collect_secrets-IsTokenSecret [] log = tt
  collect_secrets-IsTokenSecret (v ∷ volumes) log =
      by_check (check_volume v log).0 refl (collect_secrets volumes (check_volume v log).1).0
        (collect_secrets-IsTokenSecret volumes (check_volume v log).1)
    where
      by_check :
          (b : Bool)
          → (check_volume v log).0 ≡ b
          → (names : List String) → All (IsTokenSecret volumes) names
          → All (IsTokenSecret (v ∷ volumes)) (if b then secret_name v ∷ names else names)
      by_check b e names a = add b e (All-map names (λ name t. (inr t.0, t.1)) a)
        where
          add :
              (b : Bool)
              → (check_volume v log).0 ≡ b
              → All (IsTokenSecret (v ∷ volumes)) names
              → All (IsTokenSecret (v ∷ volumes)) (if b then secret_name v ∷ names else names)
          add false e a = a
          add true e a =
              let (access, shown) = check_volume_sound v log e in ((inl (access, refl), shown), a)

  module _ (P : Call Payload → Type 0)
      (reads : (name : String) → P (get_secret namespace name)) where
    check_volume-All :
        (v : Volume) (log : List (Call Payload)) → All P log → All P (check_volume v log).1
    unfolding check_volume
    check_volume-All v log a = by_tests (is_api_access v) (secret_name v == "")
      where
        by_tests :
            (x e : Bool)
            → All P
                ((if x
                    then (if e then return false else (do
                      answer ←
                          call
                            (get_secret namespace (secret_name v))
                            (λ log. secret_labels log namespace (secret_name v))
                      return (token_found answer)))
                    else return false)
                  log).1
        by_tests false e = a
        by_tests true true = a
        by_tests true false = (reads (secret_name v), a)

    collect_secrets-All :
        (volumes : List Volume) (log : List (Call Payload))
        → All P log
        → All P (collect_secrets volumes log).1
    unfolding collect_secrets
    collect_secrets-All [] log a = a
    collect_secrets-All (v ∷ volumes) log a =
        collect_secrets-All volumes (check_volume v log).1 (check_volume-All v log a)

    delete_secrets-All :
        (names : List String) (log : List (Call Payload))
        → All (λ name. P (delete_secret namespace name)) names
        → All P log
        → All P (delete_secrets names log).1
    unfolding delete_secrets
    delete_secrets-All [] log n a = a
    delete_secrets-All (name ∷ names) log n a =
        by_reply (secret_deleted log namespace name)
          (delete_secrets-All names (delete_secret namespace name ∷ log) n.1 (n.0, a))
      where
        by_reply :
            (r : Reply)
            → All P (delete_secrets names (delete_secret namespace name ∷ log)).1
            → All P (after_secret r (delete_secrets names) (delete_secret namespace name ∷ log)).1
        by_reply done h = h
        by_reply not_found h = h
        by_reply already_exists h = (n.0, a)
        by_reply refused h = (n.0, a)

    pub token_secrets-All :
        (volumes : List Volume) (log : List (Call Payload))
        → ((name : String) → IsTokenSecret volumes name → P (delete_secret namespace name))
        → All P log
        → All P (delete_service_account_token_secrets volumes log).1
    unfolding delete_service_account_token_secrets
    token_secrets-All volumes log f a =
        delete_secrets-All (collect_secrets volumes log).0 (collect_secrets volumes log).1
          (All-map (collect_secrets volumes log).0 f (collect_secrets-IsTokenSecret volumes log))
          (collect_secrets-All volumes log a)
