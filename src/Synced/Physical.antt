-- ===== src/Synced/Physical.antt =====
-- common.go: the labels and annotations of a physical resource, the check that it exists, and its
-- deletion.
use kubeocean.Dict.{StrMap, put, copy_but}
use kubeocean.Effect.{M, ◌>>=◌, return, call}
use kubeocean.Kube.{Meta, Fetch, found, missing, failed, Reply, done, not_found}
use kubeocean.Prelude.{
  ◌≡◌, refl, Bool, true, false, Option, none, some, List, [], ◌∷◌, String, ◌==◌, any, ◌⊎◌, inl, inr,
  ◌≢◌, ◌↔◌,
}
use kubeocean.Synced.Marks.{managed_by, synced_by, physical_name, physical_namespace}

abbrev pub virtual_name : String
virtual_name = "kubeocean.io/virtual-name"

abbrev pub virtual_namespace : String
virtual_namespace = "kubeocean.io/virtual-namespace"

pub build_physical_resource_labels : Meta → StrMap
build_physical_resource_labels obj = put managed_by "kubeocean" obj.labels

pub build_physical_resource_labels_with_cluster_id : Meta → String → StrMap
unfolding build_physical_resource_labels
build_physical_resource_labels_with_cluster_id obj cluster_id =
    put (synced_by cluster_id) "true" (build_physical_resource_labels obj)

abbrev pub is_internal : String → Bool
is_internal k =
    any (λ e. k == e)
      ("kubeocean.io/physical-pod-namespace" ∷ "kubeocean.io/physical-pod-name"
        ∷ "kubeocean.io/physical-pod-uid" ∷ physical_namespace ∷ physical_name
        ∷ "kubeocean.io/last-sync-time" ∷ [])

pub build_physical_resource_annotations : Meta → StrMap
build_physical_resource_annotations obj =
    put virtual_name obj.name
      (put virtual_namespace obj.namespace (copy_but is_internal obj.annotations))

-- ResourceType; another text is refused.
pub data ResourceType : Type 0 where
  config_map secret pvc pv unsupported : ResourceType

pub data Call : Type 0 where
  get_cached get_direct : ResourceType → String → String → Call
  delete_resource : ResourceType → String → String → String → Call

-- A resource is read by its namespace and name, and deleted with its UID as the precondition.
pub record Api : Type 0 where
  pub cached : List Call → ResourceType → String → String → Fetch Meta
  pub direct : List Call → ResourceType → String → String → Fetch Meta
  pub deleted : List Call → ResourceType → String → String → String → Reply

module _ (api : Api) where
  open api use {cached, direct, deleted}

  -- A PersistentVolume has no namespace.
  abbrev read_direct : ResourceType → String → String → M Call (Fetch Meta)
  read_direct unsupported name namespace = return failed
  read_direct pv name namespace = call (get_direct pv "" name) (λ log. direct log pv "" name)
  read_direct config_map name namespace =
      call (get_direct config_map namespace name) (λ log. direct log config_map namespace name)
  read_direct secret name namespace =
      call (get_direct secret namespace name) (λ log. direct log secret namespace name)
  read_direct pvc name namespace =
      call (get_direct pvc namespace name) (λ log. direct log pvc namespace name)

  after_cache : ResourceType → String → String → Fetch Meta → M Call (Fetch Meta)
  after_cache kind name namespace (found obj) = return (found obj)
  after_cache kind name namespace missing = read_direct kind name namespace
  after_cache kind name namespace failed = return failed

  -- `missing` is the answer that there is no such resource, without an error.
  pub check_physical_resource_exists : ResourceType → String → String → M Call (Fetch Meta)
  unfolding after_cache
  check_physical_resource_exists kind name namespace = do
    answer ← call (get_cached kind namespace name) (λ log. cached log kind namespace name)
    after_cache kind name namespace answer

  accepted : Reply → M Call Bool
  accepted done = return true
  accepted not_found = return true
  accepted _ = return false

  delete_seen : ResourceType → String → String → Meta → M Call Bool
  unfolding accepted
  delete_seen unsupported name namespace obj = return false
  delete_seen pv name namespace obj = do
    reply ← call (delete_resource pv "" name obj.uid) (λ log. deleted log pv "" name obj.uid)
    accepted reply
  delete_seen kind name namespace obj = do
    reply ←
        call (delete_resource kind namespace name obj.uid)
          (λ log. deleted log kind namespace name obj.uid)
    accepted reply

  pub delete_physical_resource : ResourceType → String → String → Option Meta → M Call Bool
  unfolding delete_seen
  delete_physical_resource kind name namespace none = return true
  delete_physical_resource kind name namespace (some obj) = delete_seen kind name namespace obj

  abbrev pub namespace_of : ResourceType → String → String
  namespace_of pv namespace = ""
  namespace_of _ namespace = namespace

  -- A resource of a kind that is supported is said to be absent exactly if both the cache and the API
  -- server say so, and is found exactly if the cache shows it, or if the cache does not know it and
  -- the server shows it. One of another kind is an error, unless the cache shows it.
  pub check_physical_resource_exists-answers :
      (kind : ResourceType) (name namespace : String) (log : List Call)
      → let answer = (check_physical_resource_exists kind name namespace log).0 in
        let at_first = cached log kind namespace name in
        let at_last =
          direct (get_cached kind namespace name ∷ log) kind (namespace_of kind namespace) name in
        ((answer ≡ missing) ↔ ((kind ≢ unsupported) × (at_first ≡ missing) × (at_last ≡ missing)))
        × ((obj : Meta)
            → (answer ≡ found obj) ↔ (
                (at_first ≡ found obj)
                ⊎ ((kind ≢ unsupported) × (at_first ≡ missing) × (at_last ≡ found obj))))
  unfolding check_physical_resource_exists after_cache
  check_physical_resource_exists-answers kind name namespace log =
      by_answer kind (cached log kind namespace name)
    where
      not_missing : (o : Meta) → ◌≡◌ {A = Fetch Meta} (found o) missing → ⊥
      not_missing o e = cc

      not_failed : ◌≡◌ {A = Fetch Meta} failed missing → ⊥
      not_failed e = cc

      asked :
          (kind : ResourceType)
          → kind ≢ unsupported
          → {answer : Fetch Meta}
          → ((answer ≡ missing) ↔ (
              (kind ≢ unsupported) × (◌≡◌ {A = Fetch Meta} missing missing) × (answer ≡ missing)))
            × ((obj : Meta)
                → (answer ≡ found obj) ↔ (
                    (◌≡◌ {A = Fetch Meta} missing (found obj))
                    ⊎ ((kind ≢ unsupported)
                        × (◌≡◌ {A = Fetch Meta} missing missing)
                        × (answer ≡ found obj))))
      asked kind n = (
        ((λ e. (n, refl, e)), λ (m, e, l). l),
        λ o. ((λ e. inr (n, refl, e)), λ s. elim s [ inl e ↦ absurd (cc) | inr p ↦ p.2 ]),
      )

      by_answer :
          (kind : ResourceType) (a : Fetch Meta)
          → let log' = get_cached kind namespace name ∷ log in
            let answer = (after_cache kind name namespace a log').0 in
            let at_last = direct log' kind (namespace_of kind namespace) name in
            ((answer ≡ missing) ↔ ((kind ≢ unsupported) × (a ≡ missing) × (at_last ≡ missing)))
            × ((obj : Meta)
                → (answer ≡ found obj) ↔ (
                    (a ≡ found obj)
                    ⊎ ((kind ≢ unsupported) × (a ≡ missing) × (at_last ≡ found obj))))
      by_answer kind (found obj) = (
        ((λ e. absurd (cc)), λ (n, e, l). absurd (cc)),
        λ o. ((λ e. inl e), λ s. elim s [ inl e ↦ e | inr p ↦ absurd (not_missing obj p.1) ]),
      )
      by_answer kind failed = (
        ((λ e. absurd (cc)), λ (n, e, l). absurd (cc)),
        λ o. (
          (λ e. absurd (cc)),
          λ s. elim s [ inl e ↦ absurd (cc) | inr p ↦ absurd (not_failed p.1) ],
        ),
      )
      by_answer config_map missing = asked config_map (λ e. cc)
      by_answer secret missing = asked secret (λ e. cc)
      by_answer pvc missing = asked pvc (λ e. cc)
      by_answer pv missing = asked pv (λ e. cc)
      by_answer unsupported missing = (
        ((λ e. absurd (cc)), λ (n, e, l). absurd (n refl)),
        λ o. ((λ e. absurd (cc)), λ s. elim s [ inl e ↦ absurd (cc) | inr p ↦ absurd (p.0 refl) ]),
      )
