-- ===== src/Synced/Roundtrip.antt =====
-- common.go: UpdateVirtualResourceLabelsAndAnnotations followed by
-- RemoveSyncedResourceFinalizerAndLabels.
use kubeocean.Dict.{lookup, lookup-insert, put}
use kubeocean.Kube.{Meta}
use kubeocean.Prelude.{
  ◌≡◌, refl, ap, ◌∙◌, Bool, true, false, ◌&&◌, ◌||◌, none, List, [], ◌∷◌, ◌++◌, arith, String,
  str_dec, ◌==◌, if◌then◌else◌,
}
use kubeocean.Synced.Marks.{
  managed_by, used_by_pv, physical_name, physical_namespace, synced_by, cluster_finalizer,
  contains_finalizer, remove_finalizer, write, with_marks, nothing_to_remove, without_marks,
  remove_synced_resource_finalizer_and_labels,
}
use kubeocean.Synced.Marks.Laws.{label_removed, annotation_removed, contains_added}
use kubeocean.Synced.Removal.{IsUnmarked, not_contained, remove_added, no_other, was_last}

module _ (cluster_id name namespace : String) (is_pv_secret : Bool) (obj : Meta)
    (clean : IsUnmarked cluster_id obj) where
  marked_obj : Meta
  marked_obj = with_marks cluster_id name namespace is_pv_secret obj

  finalizers_added : marked_obj.finalizers ≡ obj.finalizers ++ (cluster_finalizer cluster_id ∷ [])
  unfolding marked_obj with_marks
  finalizers_added = rw (not_contained cluster_id obj.finalizers clean.no_finalizer) refl

  contained : contains_finalizer (cluster_finalizer cluster_id) marked_obj ≡ true
  unfolding marked_obj with_marks
  contained = contains_added (cluster_finalizer cluster_id) obj.finalizers

  finalizers_back :
      remove_finalizer (cluster_finalizer cluster_id) marked_obj.finalizers ≡ obj.finalizers
  finalizers_back =
      ap (remove_finalizer (cluster_finalizer cluster_id)) finalizers_added
      ∙ remove_added cluster_id (cluster_finalizer cluster_id) obj.finalizers
          (not_contained cluster_id obj.finalizers clean.no_finalizer)

  last_one : was_last cluster_id marked_obj ≡ true
  last_one =
      rw (contained, finalizers_back, no_other cluster_id obj.finalizers clean.no_finalizer) refl

  labels_back :
      (k : String)
      → lookup str_dec k (without_marks cluster_id marked_obj).labels ≡ lookup str_dec k obj.labels
  unfolding marked_obj with_marks
  labels_back k = label_removed cluster_id marked_obj k ∙ cleared last_one
    where
      managed : List (String × String)
      managed = put managed_by "kubeocean" obj.labels

      synced : List (String × String)
      synced = put (synced_by cluster_id) "true" managed

      cleared :
          {last : Bool}
          → last ≡ true
          → (if k == used_by_pv || (k == synced_by cluster_id || (last && k == managed_by))
              then none
              else lookup str_dec k marked_obj.labels)
            ≡ lookup str_dec k obj.labels
      cleared e = ground (
        arith,
        lookup-insert str_dec used_by_pv k "true" synced,
        lookup-insert str_dec (synced_by cluster_id) k "true" managed,
        lookup-insert str_dec managed_by k "kubeocean" obj.labels,
        clean.no_managed,
        clean.no_synced,
        clean.no_pv,
      )

  annotations_back :
      (k : String)
      → lookup str_dec k (without_marks cluster_id marked_obj).annotations
        ≡ lookup str_dec k obj.annotations
  unfolding marked_obj with_marks
  annotations_back k =
      annotation_removed cluster_id marked_obj k
      ∙ ground (
        arith,
        lookup-insert str_dec physical_namespace k namespace
            (put physical_name name obj.annotations),
        lookup-insert str_dec physical_name k name obj.annotations,
        clean.no_name,
        clean.no_namespace,
        clean.no_deletion,
      )

  removable : nothing_to_remove cluster_id marked_obj ≡ false
  unfolding nothing_to_remove
  removable = rw contained refl

-- A resource that bears no marks, marked for a cluster and then cleared of the marks, is what it
-- was: the same labels, annotations and finalizers.
pub mark-remove_roundtrip :
    (cluster_id name namespace : String) (is_pv_secret : Bool) (obj : Meta)
    → IsUnmarked cluster_id obj
    → (m : Meta) × (remove_synced_resource_finalizer_and_labels cluster_id
          (with_marks cluster_id name namespace is_pv_secret obj)
        ≡ write m)
      × ((k : String) → lookup str_dec k m.labels ≡ lookup str_dec k obj.labels)
      × ((k : String) → lookup str_dec k m.annotations ≡ lookup str_dec k obj.annotations)
      × (m.finalizers ≡ obj.finalizers)
unfolding marked_obj remove_synced_resource_finalizer_and_labels without_marks
mark-remove_roundtrip cluster_id name namespace is_pv_secret obj clean = (
  without_marks cluster_id (marked_obj cluster_id name namespace is_pv_secret obj clean),
  rw (removable cluster_id name namespace is_pv_secret obj clean) refl,
  labels_back cluster_id name namespace is_pv_secret obj clean,
  annotations_back cluster_id name namespace is_pv_secret obj clean,
  finalizers_back cluster_id name namespace is_pv_secret obj clean,
)
