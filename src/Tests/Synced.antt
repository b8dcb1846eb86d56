-- ===== src/Tests/Synced.antt =====
-- A secret that is synchronised to a cluster.
use kubeocean.Dict.{lookup}
use kubeocean.Kube.{Meta, Reply, found, missing}
use kubeocean.Prelude.{
  ◌≡◌, refl, true, false, ◌&&◌, ◌||◌, none, List, [], ◌∷◌, String, str_dec, ◌==◌, if◌then◌else◌,
  ◌⊎◌, not, select, ◌≢◌, ◌↔◌,
}
use kubeocean.Synced.Marks.{
  unchanged, write, with_marks, update_virtual_resource, without_marks, cluster_finalizer,
  remove_synced_resource_finalizer_and_labels, managed_by, used_by_pv, synced_by,
  contains_finalizer, deleting_annotation, physical_namespace, physical_name, all_fields_match,
  nothing_to_remove,
}
use kubeocean.Synced.Marks.Laws.{update_virtual_resource-again}
use kubeocean.Synced.Physical.{
  Api, pv, unsupported, check_physical_resource_exists, check_physical_resource_exists-answers,
}
use kubeocean.Synced.Removal.{
  IsUnmarked, was_last, remove_synced_resource_finalizer_and_labels-exact,
}
use kubeocean.Synced.Roundtrip.{mark-remove_roundtrip}

abbrev secret_of : List (String × String) → List String → Meta
secret_of labels finalizers = record {
  namespace = "default";
  name = "password";
  uid = "s1";
  labels = labels;
  annotations = ("note", "mine") ∷ [];
  finalizers = finalizers;
  deleting = false;
}

abbrev plain : Meta
plain = secret_of (("app", "web") ∷ []) []

update_virtual_resource-again_example :
    update_virtual_resource "c1" "password-1f" "mount" true
      (with_marks "c1" "password-1f" "mount" true plain)
    ≡ unchanged
unfolding update_virtual_resource lookup str_dec all_fields_match
update_virtual_resource-again_example =
    update_virtual_resource-again "c1" "password-1f" "mount" true plain
      (with_marks "c1" "password-1f" "mount" true plain) refl

abbrev held : Meta
held =
    secret_of ((managed_by, "kubeocean") ∷ [])
      (cluster_finalizer "c1" ∷ cluster_finalizer "c2" ∷ [])

remove_synced_resource_finalizer_and_labels-exact_example :
    (lookup str_dec managed_by (without_marks "c1" held).labels ≡ (
      if managed_by == used_by_pv
        || (managed_by == synced_by "c1" || (was_last "c1" held && managed_by == managed_by))
      then none
      else lookup str_dec managed_by held.labels))
    × (lookup str_dec managed_by (without_marks "c1" held).annotations ≡ (
        if managed_by == deleting_annotation "c1"
          || (managed_by == physical_namespace || managed_by == physical_name)
        then none
        else lookup str_dec managed_by held.annotations))
    × (contains_finalizer (cluster_finalizer "c1") (without_marks "c1" held) ≡ false)
    × (select (λ f. not (f == cluster_finalizer "c1")) (without_marks "c1" held).finalizers
        ≡ select (λ f. not (f == cluster_finalizer "c1")) held.finalizers)
unfolding remove_synced_resource_finalizer_and_labels str_dec nothing_to_remove
remove_synced_resource_finalizer_and_labels-exact_example =
    remove_synced_resource_finalizer_and_labels-exact "c1" held (without_marks "c1" held) managed_by
      refl

plain-IsUnmarked : IsUnmarked "c1" plain
unfolding lookup str_dec
plain-IsUnmarked = record {
  no_managed = refl;
  no_synced = refl;
  no_pv = refl;
  no_name = refl;
  no_namespace = refl;
  no_deletion = refl;
  no_finalizer = refl;
}

mark-remove_roundtrip_example :
    (m : Meta) × (remove_synced_resource_finalizer_and_labels "c1"
        (with_marks "c1" "password-1f" "mount" true plain)
      ≡ write m)
    × ((k : String) → lookup str_dec k m.labels ≡ lookup str_dec k plain.labels)
    × ((k : String) → lookup str_dec k m.annotations ≡ lookup str_dec k plain.annotations)
    × (m.finalizers ≡ plain.finalizers)
mark-remove_roundtrip_example =
    mark-remove_roundtrip "c1" "password-1f" "mount" true plain plain-IsUnmarked

-- The cache lags behind the server.
abbrev api : Api
api = record {
  cached = λ log kind namespace name. missing;
  direct = λ log kind namespace name. found plain;
  deleted = λ log kind namespace name uid. Reply.done;
}

check_physical_resource_exists-answers_example :
    let answer = (check_physical_resource_exists api pv "disk" "" []).0 in
    ((answer ≡ missing)
      ↔ ((pv ≢ unsupported) × (api.cached [] pv "" "disk" ≡ missing) × (found plain ≡ missing)))
    × ((obj : Meta)
        → (answer ≡ found obj) ↔ (
            (api.cached [] pv "" "disk" ≡ found obj)
            ⊎ ((pv ≢ unsupported)
                × (api.cached [] pv "" "disk" ≡ missing)
                × (found plain ≡ found obj))))
check_physical_resource_exists-answers_example =
    check_physical_resource_exists-answers api pv "disk" "" []
