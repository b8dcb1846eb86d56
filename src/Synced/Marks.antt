-- ===== src/Synced/Marks.antt =====
-- common.go: the labels, annotations and finalizer that mark a virtual resource as synchronised
-- to a cluster (UpdateVirtualResourceLabelsAndAnnotations), and their removal
-- (RemoveSyncedResourceFinalizerAndLabels). A nil map is the empty one.
pub mod Laws
use Prim.Native.String.{◌++◌ as join}
use text.Mathlib.Text.{starts_with}
use kubeocean.Dict.{StrMap, put, delete, ◌at◌}
use kubeocean.Kube.{Meta}
use kubeocean.Prelude.{
  Bool, true, false, not, ◌&&◌, ◌||◌, Option, none, some, List, [], ◌∷◌, ◌++◌, String, str_dec,
  ◌==◌, ◌≠?◌, any, select, if◌then◌else◌,
}

abbrev pub managed_by : String
managed_by = "kubeocean.io/managed-by"

abbrev pub used_by_pv : String
used_by_pv = "kubeocean.io/used-by-pv"

abbrev pub physical_name : String
physical_name = "kubeocean.io/physical-name"

abbrev pub physical_namespace : String
physical_namespace = "kubeocean.io/physical-namespace"

abbrev pub synced_by_prefix : String
synced_by_prefix = "kubeocean.io/synced-by-"

abbrev pub finalizer_prefix : String
finalizer_prefix = "kubeocean.io/finalizer-"

-- GetManagedByClusterIDLabel, GetClusterSpecificFinalizer, GetClusterBindingDeletingAnnotation
abbrev pub synced_by : String → String
synced_by cluster_id = join synced_by_prefix cluster_id

abbrev pub cluster_finalizer : String → String
cluster_finalizer cluster_id = join finalizer_prefix cluster_id

abbrev pub deleting_annotation : String → String
deleting_annotation cluster_id = join "kubeocean.io/deleting-" cluster_id

-- controllerutil.ContainsFinalizer, AddFinalizer and RemoveFinalizer
abbrev pub contains_finalizer : String → Meta → Bool
contains_finalizer f obj = any (λ g. g == f) obj.finalizers

abbrev pub remove_finalizer : String → List String → List String
remove_finalizer f finalizers = select (λ g. g ≠? f) finalizers

-- What is to be done to a virtual resource: nothing, an error, or an update.
pub data Change : Type 0 where
  unchanged clashing : Change
  write : Meta → Change

module _ (cluster_id name namespace : String) (is_pv_secret : Bool) where
  unfoldable pub all_fields_match : Meta → Bool
  all_fields_match obj =
      (obj.annotations at physical_name == name)
      && ((obj.annotations at physical_namespace == namespace)
          && ((obj.labels at managed_by == "kubeocean")
              && ((obj.labels at synced_by cluster_id == "true")
                  && (contains_finalizer (cluster_finalizer cluster_id) obj
                      && (not is_pv_secret || (obj.labels at used_by_pv == "true"))))))

  unfoldable pub with_marks : Meta → Meta
  with_marks obj = record obj {
    labels =
        (if is_pv_secret
          then put used_by_pv "true"
              (put (synced_by cluster_id) "true" (put managed_by "kubeocean" obj.labels))
          else put (synced_by cluster_id) "true" (put managed_by "kubeocean" obj.labels));
    annotations = put physical_namespace namespace (put physical_name name obj.annotations);
    finalizers =
        if contains_finalizer (cluster_finalizer cluster_id) obj
        then obj.finalizers
        else obj.finalizers ++ (cluster_finalizer cluster_id ∷ []);
  }

  unfoldable pub update_virtual_resource : Meta → Change
  update_virtual_resource obj =
      if all_fields_match obj
      then unchanged
      else if obj.annotations at physical_name ≠? "" && obj.annotations at physical_name ≠? name
      then clashing
      else write (with_marks obj)

module _ (cluster_id : String) where
  -- The finalizers of other clusters.
  abbrev pub is_other_cluster : String → Bool
  is_other_cluster f = starts_with f finalizer_prefix && f ≠? cluster_finalizer cluster_id

  unfoldable pub remove_labels : Bool → List String → StrMap → StrMap
  remove_labels finalizer_exists finalizers labels =
      let shared = delete str_dec used_by_pv (delete str_dec (synced_by cluster_id) labels) in
      if finalizer_exists && not (any is_other_cluster finalizers)
      then delete str_dec managed_by shared
      else shared

  unfoldable pub remove_annotations : StrMap → StrMap
  remove_annotations annotations =
      delete str_dec (deleting_annotation cluster_id)
        (delete str_dec physical_namespace (delete str_dec physical_name annotations))

  unfoldable pub nothing_to_remove : Meta → Bool
  nothing_to_remove obj =
      not (contains_finalizer (cluster_finalizer cluster_id) obj)
      && (not (obj.labels at synced_by cluster_id ≠? "")
          && (not (obj.labels at used_by_pv ≠? "")
              && (not (obj.annotations at physical_name ≠? "")
                  && not (obj.annotations at physical_namespace ≠? ""))))

  unfoldable pub without_marks : Meta → Meta
  without_marks obj =
      let finalizers = remove_finalizer (cluster_finalizer cluster_id) obj.finalizers in
      record obj {
        labels =
            remove_labels (contains_finalizer (cluster_finalizer cluster_id) obj) finalizers
              obj.labels;
        annotations = remove_annotations obj.annotations;
        finalizers = finalizers;
      }

  unfoldable pub remove_synced_resource_finalizer_and_labels : Meta → Change
  remove_synced_resource_finalizer_and_labels obj =
      if nothing_to_remove obj then unchanged else write (without_marks obj)

  -- RemoveSyncedResourceFinalizerWithClusterID
  pub remove_synced_resource_finalizer : Meta → Change
  remove_synced_resource_finalizer obj =
      if not (contains_finalizer (cluster_finalizer cluster_id) obj)
      then unchanged
      else write (record obj {
        finalizers = remove_finalizer (cluster_finalizer cluster_id) obj.finalizers;
      })

  pub add_cluster_binding_deleting_annotation : String → Meta → Change
  add_cluster_binding_deleting_annotation binding obj =
      if obj.annotations at deleting_annotation cluster_id == binding
      then unchanged
      else write (record obj {
        annotations = put (deleting_annotation cluster_id) binding obj.annotations;
      })
