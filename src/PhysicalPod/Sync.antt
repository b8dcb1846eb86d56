-- ===== src/PhysicalPod/Sync.antt =====
-- physical_pod_controller.go: buildSyncPod, mergeConditions and isPodsStatusEqual.
-- `deep_equal` is reflect.DeepEqual on the two statuses.
use kubeocean.Dict.{
  StrMap, lookup-insert, insert-insert, insert-IsUnique, put, ◌at◌, IsUnique, copy_but,
  copy_but-IsUnique, same_map, same_map_refl,
}
use kubeocean.PhysicalPod.Defs.{
  Pod, PodStatus, Condition, label_virtual_namespace, label_workload_type, label_workload_name,
  virtual_pod_namespace, virtual_pod_name, virtual_pod_uid, physical_pod_namespace,
  physical_pod_name, physical_pod_uid, virtual_node_name, last_sync_time, expected_metadata,
}
use kubeocean.Prelude.{
  ◌≡◌, refl, ap, Bool, true, false, not, ◌&&◌, Option, none, some, List, [], ◌∷◌, arith, String,
  str_dec, ◌==◌, is_yes, if◌then◌else◌, select, find, any,
}

abbrev excluded_label : String → Bool
excluded_label k =
    any (λ e. k == e) (label_virtual_namespace ∷ label_workload_type ∷ label_workload_name ∷ [])

abbrev excluded_annotation : String → Bool
excluded_annotation k =
    any (λ e. k == e)
      (virtual_pod_namespace ∷ virtual_pod_name ∷ virtual_pod_uid ∷ physical_pod_namespace
        ∷ physical_pod_name ∷ physical_pod_uid ∷ virtual_node_name ∷ expected_metadata ∷ [])

-- The four annotations that the controller writes, over a map.
written : StrMap → String → String → String → String → StrMap
written m namespace name uid time =
    put last_sync_time time (
      put physical_pod_uid uid
        (put physical_pod_name name (put physical_pod_namespace namespace m)))

synced_annotations : StrMap → StrMap → String → StrMap
synced_annotations physical virtual physical_uid =
    written (copy_but excluded_annotation physical) (virtual at physical_pod_namespace)
      (virtual at physical_pod_name)
      (if virtual at physical_pod_uid == "" then physical_uid else virtual at physical_pod_uid)
      (virtual at last_sync_time)

written_at :
    (m : StrMap) (namespace name uid time : String)
    → let w = written m namespace name uid time in
      (w at last_sync_time ≡ time)
      × (w at physical_pod_uid ≡ uid)
      × (w at physical_pod_name ≡ name)
      × (w at physical_pod_namespace ≡ namespace)
unfolding written str_dec
written_at m namespace name uid time =
    (simp lookup-insert, simp lookup-insert, simp lookup-insert, simp lookup-insert)

uid_again : (v u : String) → let x = if v == "" then u else v in (if x == "" then u else x) ≡ x
uid_again v u = ground arith

stamp-written :
    (m : StrMap) (namespace name uid old time : String)
    → put last_sync_time time (written m namespace name uid old) ≡ written m namespace name uid time
unfolding written
stamp-written m namespace name uid old time = insert-insert str_dec last_sync_time time old _

written-ap :
    (m : StrMap) {n n' a a' u u' t t' : String}
    → n ≡ n'
    → a ≡ a'
    → u ≡ u'
    → t ≡ t'
    → written m n a u t ≡ written m n' a' u' t'
written-ap m p q r s = cc

written-IsUnique :
    (m : StrMap) (namespace name uid time : String)
    → IsUnique str_dec m
    → IsUnique str_dec (written m namespace name uid time)
unfolding written
written-IsUnique m namespace name uid time u = insert-IsUnique str_dec _ time _ (
    insert-IsUnique str_dec _ uid _
      (insert-IsUnique str_dec _ name _ (insert-IsUnique str_dec _ namespace m u)))

synced_annotations-again :
    (physical virtual : StrMap) (uid time : String)
    → let a = put last_sync_time time (synced_annotations physical virtual uid) in
      synced_annotations physical a uid ≡ a
unfolding synced_annotations
synced_annotations-again physical virtual uid time =
    rw (stamp-written copied namespace name new_uid (virtual at last_sync_time) time)
      (written-ap copied values.3 values.2 (uid_kept values.1) values.0)
  where
    copied : StrMap
    copied = copy_but excluded_annotation physical

    namespace : String
    namespace = virtual at physical_pod_namespace

    name : String
    name = virtual at physical_pod_name

    new_uid : String
    new_uid = if virtual at physical_pod_uid == "" then uid else virtual at physical_pod_uid

    values :
        let w = written copied namespace name new_uid time in
        (w at last_sync_time ≡ time)
        × (w at physical_pod_uid ≡ new_uid)
        × (w at physical_pod_name ≡ name)
        × (w at physical_pod_namespace ≡ namespace)
    values = written_at copied namespace name new_uid time

    uid_kept : {x : String} → x ≡ new_uid → (if x == "" then uid else x) ≡ new_uid
    uid_kept e = rw e (uid_again (virtual at physical_pod_uid) uid)

stamped-IsUnique :
    (physical virtual : StrMap) (uid time : String)
    → IsUnique str_dec physical
    → IsUnique str_dec (put last_sync_time time (synced_annotations physical virtual uid))
unfolding synced_annotations
stamped-IsUnique physical virtual uid time u =
    insert-IsUnique str_dec last_sync_time time _
      (written-IsUnique _ _ _ _ _ (copy_but-IsUnique excluded_annotation physical u))

module _ {Payload : Type 0} where
  abbrev is_pod_scheduled : Condition Payload → Bool
  is_pod_scheduled c = c.kind == "PodScheduled"

  merge_with : Option (Condition Payload) → List (Condition Payload) → List (Condition Payload)
  merge_with none physical = physical
  merge_with (some scheduled) physical = scheduled ∷ select (λ c. not (is_pod_scheduled c)) physical

  -- The virtual pod's PodScheduled condition, where it has one, before the physical pod's others.
  pub merge_conditions :
      List (Condition Payload) → List (Condition Payload) → List (Condition Payload)
  unfolding merge_with
  merge_conditions virtual physical = merge_with (find is_pod_scheduled virtual) physical

  synced_status : PodStatus Payload → PodStatus Payload → PodStatus Payload
  synced_status physical virtual = record physical {
    conditions = merge_conditions virtual.conditions physical.conditions;
    kept = virtual.kept;
  }

  pub build_sync_pod : Pod Payload → Pod Payload → Pod Payload
  build_sync_pod physical virtual = record virtual {
    meta = record (virtual.meta) {
      labels = copy_but excluded_label physical.labels;
      annotations = synced_annotations physical.annotations virtual.annotations physical.uid;
    };
    status = synced_status physical.status virtual.status;
  }

  module _ (deep_equal : Discrete (PodStatus Payload)) where
    unfoldable pub is_pods_status_equal : Pod Payload → Pod Payload → Bool
    is_pods_status_equal a b =
        is_yes (deep_equal a.status b.status)
        && same_map a.annotations b.annotations
        && same_map a.labels b.labels

  find-scheduled :
      (cs : List (Condition Payload)) {s : Condition Payload}
      → find is_pod_scheduled cs ≡ some s
      → is_pod_scheduled s ≡ true
  find-scheduled [] h = cc
  find-scheduled (c ∷ cs) {s} h = ground (arith, find-scheduled cs {s = s})

  merge_conditions-again :
      (v p : List (Condition Payload)) {s : Condition Payload}
      → find is_pod_scheduled v ≡ some s
      → merge_conditions (merge_conditions v p) p ≡ merge_conditions v p
  unfolding merge_conditions
  merge_conditions-again v p {s} h = rw (h, merge_with) (rw (find-scheduled v h) refl)

  synced_status-again :
      (p v : PodStatus Payload) {s : Condition Payload}
      → find is_pod_scheduled v.conditions ≡ some s
      → synced_status p (synced_status p v) ≡ synced_status p v
  unfolding synced_status
  synced_status-again p v h =
      ap (λ c. record p { conditions = c; kept = v.kept })
        (merge_conditions-again v.conditions p.conditions h)

  -- The virtual pod as the controller writes it, `time` being the time of the update.
  pub stamp : String → Pod Payload → Pod Payload
  stamp time pod = record pod {
    meta = record (pod.meta) { annotations = put last_sync_time time pod.annotations };
  }

  module _ (deep_equal : Discrete (PodStatus Payload)) where
    deep_equal_refl : {a b : PodStatus Payload} → a ≡ b → is_yes (deep_equal a b) ≡ true
    deep_equal_refl {a} {b} e = ground arith

    -- Once a virtual pod that the scheduler has marked PodScheduled was updated, the same physical
    -- pod leads to no second update: what would be written is what is there.
    pub build_sync_pod_stable :
        (physical virtual : Pod Payload) (time : String) {s : Condition Payload}
        → IsUnique str_dec physical.labels
        → IsUnique str_dec physical.annotations
        → find is_pod_scheduled virtual.status.conditions ≡ some s
        → let updated = stamp time (build_sync_pod physical virtual) in
          is_pods_status_equal deep_equal (build_sync_pod physical updated) updated ≡ true
    unfolding is_pods_status_equal build_sync_pod stamp
    build_sync_pod_stable physical virtual time l a h =
        rw
          (
            deep_equal_refl (synced_status-again physical.status virtual.status h),
            same_map_refl _ (copy_but-IsUnique excluded_label physical.labels l),
            synced_annotations-again physical.annotations virtual.annotations physical.uid time,
            same_map_refl _
                (stamped-IsUnique physical.annotations virtual.annotations physical.uid time a),
          )
          refl

    pub phase-differs :
        (physical virtual : Pod Payload)
        → ¬ (physical.status.phase ≡ virtual.status.phase)
        → is_pods_status_equal deep_equal (build_sync_pod physical virtual) virtual ≡ false
    unfolding is_pods_status_equal build_sync_pod synced_status
    phase-differs physical virtual n =
        by_decision (deep_equal (synced_status physical.status virtual.status) virtual.status)
      where
        by_decision :
            (d : Dec (synced_status physical.status virtual.status ≡ virtual.status))
            → (is_yes d
                && same_map
                    (synced_annotations physical.annotations virtual.annotations physical.uid)
                    virtual.annotations
                && same_map (copy_but excluded_label physical.labels) virtual.labels)
              ≡ false
        by_decision (yes e) = absurd (n (ap (λ s. s.phase) e))
        by_decision (no m) = refl
