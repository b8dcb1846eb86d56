-- ===== src/VirtualPod/Metadata.antt =====
-- virtual_pod_controller.go: syncMetadata, the filters of a virtual pod's metadata, and the update
-- that syncVirtualPodMetadataAndSpecToPhysicalPod decides on. `encode` and `decode` are
-- encoding/json with encoding/base64.
pub mod Laws
pub mod Stable
use kubeocean.Dict.{StrMap, lookup, put, delete, ◌at◌, has, copy_but}
use kubeocean.PhysicalPod.Defs.{
  label_managed_by, last_sync_time, physical_pod_namespace, physical_pod_name, physical_pod_uid,
  expected_metadata,
}
use kubeocean.Prelude.{
  ℕ, Bool, true, false, not, ◌&&◌, ◌||◌, Option, none, some, List, [], ◌∷◌, String, str_dec, ◌==◌,
  ◌≠?◌, any, is_yes, if◌then◌else◌,
}
use kubeocean.VirtualPod.Defs.{Pod}

abbrev pub is_kubeocean_annotation : String → Bool
is_kubeocean_annotation k =
    any (λ e. k == e)
      (last_sync_time ∷ physical_pod_name ∷ physical_pod_namespace ∷ physical_pod_uid ∷ [])

abbrev pub filter_virtual_pod_annotations : StrMap → StrMap
filter_virtual_pod_annotations annotations = copy_but is_kubeocean_annotation annotations

abbrev pub filter_virtual_pod_labels : StrMap → StrMap
filter_virtual_pod_labels labels = copy_but (λ k. k == label_managed_by) labels

-- One round of the first loop: whether the target was changed before, and is now.
abbrev pub set_entry : StrMap → String → String → StrMap × Bool → StrMap × Bool
set_entry previous k v s = if previous at k ≠? v && s.0 at k ≠? v then (put k v s.0, true) else s

unfoldable pub set_current : StrMap → StrMap → StrMap × Bool → StrMap × Bool
set_current previous [] s = s
set_current previous ((k, v) ∷ current) s = set_current previous current (set_entry previous k v s)

abbrev pub drop_entry : StrMap → String → StrMap × Bool → StrMap × Bool
drop_entry current k s =
    if not (has k current) && has k s.0 then (delete str_dec k s.0, true) else s

unfoldable pub drop_previous : StrMap → StrMap → StrMap × Bool → StrMap × Bool
drop_previous current [] s = s
drop_previous current ((k, v) ∷ previous) s =
    drop_previous current previous (drop_entry current k s)

-- The target as it becomes, and whether it was changed.
unfoldable pub sync_metadata : StrMap → StrMap → StrMap → StrMap × Bool
sync_metadata target previous current =
    drop_previous current previous (set_current previous current (target, false))

-- ExpectedPodMetadata
pub record Expected : Type 0 where
  pub annotations : StrMap
  pub labels : StrMap

-- What is to be done to a physical pod: nothing as it bears no expected metadata, an error, or, with
-- the pod as it should be, whether an update is needed.
pub data Plan (Ephemeral : Type 0) : Type 0 where
  skip failure : Plan Ephemeral
  keep update : Pod Ephemeral → Plan Ephemeral

module _ {Ephemeral : Type 0} (encode : Expected → String) (decode : String → Option Expected)
    (deadline_dec : Discrete (Option ℕ)) where
  abbrev pub current_expected : Pod Ephemeral → Expected
  current_expected pod = record {
    annotations = filter_virtual_pod_annotations pod.annotations;
    labels = filter_virtual_pod_labels pod.labels;
  }

  -- The metadata and the spec of a physical pod, given what was expected of it and what is now.
  unfoldable pub synced_pod : Pod Ephemeral → Pod Ephemeral → Expected → Expected → Pod Ephemeral
  synced_pod virtual physical previous current = record physical {
    meta = record (physical.meta) {
      annotations =
          put expected_metadata (encode current)
            (sync_metadata physical.annotations previous.annotations current.annotations).0;
      labels = (sync_metadata physical.labels previous.labels current.labels).0;
    };
    active_deadline = virtual.active_deadline;
  }

  unfoldable pub needs_update : Pod Ephemeral → Pod Ephemeral → Expected → Expected → Bool
  needs_update virtual physical previous current =
      let (annotations, annotations_changed) =
        sync_metadata physical.annotations previous.annotations current.annotations in
      annotations_changed
      || (sync_metadata physical.labels previous.labels current.labels).1
      || encode current ≠? (annotations at expected_metadata)
      || not (is_yes (deadline_dec physical.active_deadline virtual.active_deadline))

  unfoldable pub plan_with : Pod Ephemeral → Pod Ephemeral → Option Expected → Plan Ephemeral
  plan_with virtual physical none = failure
  plan_with virtual physical (some previous) =
      let current = current_expected virtual in
      let next = synced_pod virtual physical previous current in
      if needs_update virtual physical previous current then update next else keep physical

  unfoldable pub plan_sync : Pod Ephemeral → Pod Ephemeral → Plan Ephemeral
  unfolding plan_with
  plan_sync virtual physical =
      if physical.annotations at expected_metadata == ""
      then skip
      else plan_with virtual physical (decode (physical.annotations at expected_metadata))
