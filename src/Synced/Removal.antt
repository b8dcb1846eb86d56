-- ===== src/Synced/Removal.antt =====
-- common.go: what RemoveSyncedResourceFinalizerAndLabels leaves of a resource, and what it undoes.
use text.Mathlib.Text.{starts_with}
use text.Mathlib.TextPositions.{starts_with-append}
use kubeocean.Dict.{lookup}
use kubeocean.Kube.{Meta}
use kubeocean.Prelude.{
  ◌≡◌, refl, sym, ap, ◌∙◌, Bool, true, false, not, ◌&&◌, ◌||◌, none, List, [], ◌∷◌, ◌++◌, arith,
  String, str_dec, is_yes, ◌==◌, any, if◌then◌else◌, to_==, select,
}
use kubeocean.Synced.Marks.{
  managed_by, used_by_pv, physical_name, physical_namespace, synced_by, finalizer_prefix,
  cluster_finalizer, deleting_annotation, contains_finalizer, remove_finalizer, Change, unchanged,
  clashing, write, nothing_to_remove, without_marks, is_other_cluster,
  remove_synced_resource_finalizer_and_labels,
}
use kubeocean.Synced.Marks.Laws.{contains_removed, label_removed, annotation_removed}

module _ (cluster_id : String) where
  meta_of : Meta → Change → Meta
  meta_of obj unchanged = obj
  meta_of obj clashing = obj
  meta_of obj (write m) = m

  removed :
      (obj m : Meta)
      → remove_synced_resource_finalizer_and_labels cluster_id obj ≡ write m
      → m ≡ without_marks cluster_id obj
  unfolding remove_synced_resource_finalizer_and_labels meta_of
  removed obj m h = by_test (nothing_to_remove cluster_id obj) h
    where
      is_write : Change → Bool
      is_write (write m) = true
      is_write _ = false

      clash : false ≡ true → ⊥
      clash e = cc

      by_test :
          (b : Bool)
          → (if b then unchanged else write (without_marks cluster_id obj)) ≡ write m
          → m ≡ without_marks cluster_id obj
      by_test true e = absurd (clash (ap is_write e))
      by_test false e = sym (ap (meta_of obj) e)

  others_kept :
      (f : String) (fs : List String)
      → select (λ g. not (g == f)) (remove_finalizer f fs) ≡ select (λ g. not (g == f)) fs
  others_kept f [] = refl
  others_kept f (g ∷ fs) = ground (arith, others_kept f fs)

  -- The label that is shared with other clusters goes only with the last of their finalizers.
  abbrev pub was_last : Meta → Bool
  was_last obj =
      contains_finalizer (cluster_finalizer cluster_id) obj
      && not (
          any (is_other_cluster cluster_id)
            (remove_finalizer (cluster_finalizer cluster_id) obj.finalizers))

  -- A removal takes exactly the marks: of the labels that of the cluster, that of the volumes and,
  -- with the last finalizer of a cluster, the shared one; of the annotations the two physical
  -- names and the cluster's note of deletion; and the cluster's finalizer. All other labels,
  -- annotations and finalizers stay, the finalizers in their order.
  pub remove_synced_resource_finalizer_and_labels-exact :
      (obj m : Meta) (k : String)
      → remove_synced_resource_finalizer_and_labels cluster_id obj ≡ write m
      → (lookup str_dec k m.labels ≡ (
          if k == used_by_pv || (k == synced_by cluster_id || (was_last obj && k == managed_by))
          then none
          else lookup str_dec k obj.labels))
        × (lookup str_dec k m.annotations ≡ (
            if k == deleting_annotation cluster_id
              || (k == physical_namespace || k == physical_name)
            then none
            else lookup str_dec k obj.annotations))
        × (contains_finalizer (cluster_finalizer cluster_id) m ≡ false)
        × (select (λ f. not (f == cluster_finalizer cluster_id)) m.finalizers
            ≡ select (λ f. not (f == cluster_finalizer cluster_id)) obj.finalizers)
  unfolding without_marks
  remove_synced_resource_finalizer_and_labels-exact obj m k h = rw (removed obj m h) (
    ground (arith, label_removed cluster_id obj k),
    annotation_removed cluster_id obj k,
    contains_removed cluster_id (cluster_finalizer cluster_id) obj.finalizers,
    others_kept (cluster_finalizer cluster_id) obj.finalizers,
  )

  -- No mark of this cluster or of another one.
  pub record IsUnmarked (obj : Meta) : Type 0 where
    pub no_managed : lookup str_dec managed_by obj.labels ≡ none
    pub no_synced : lookup str_dec (synced_by cluster_id) obj.labels ≡ none
    pub no_pv : lookup str_dec used_by_pv obj.labels ≡ none
    pub no_name : lookup str_dec physical_name obj.annotations ≡ none
    pub no_namespace : lookup str_dec physical_namespace obj.annotations ≡ none
    pub no_deletion : lookup str_dec (deleting_annotation cluster_id) obj.annotations ≡ none
    pub no_finalizer : any (λ f. starts_with f finalizer_prefix) obj.finalizers ≡ false

  pub not_contained :
      (fs : List String)
      → any (λ f. starts_with f finalizer_prefix) fs ≡ false
      → any (λ g. g == cluster_finalizer cluster_id) fs ≡ false
  not_contained [] h = refl
  not_contained (g ∷ fs) h =
      by_equal (str_dec g (cluster_finalizer cluster_id)) (not_contained fs (second _ _ h))
    where
      second : (a b : Bool) → (a || b) ≡ false → b ≡ false
      second a b e = ground arith

      first_of : (a b : Bool) → (a || b) ≡ false → a ≡ false
      first_of a b e = ground arith

      clash : {b : Bool} → b ≡ true → b ≡ false → ⊥
      clash e f = cc

      by_equal :
          (d : Dec (g ≡ cluster_finalizer cluster_id))
          → any (λ x. x == cluster_finalizer cluster_id) fs ≡ false
          → (is_yes d || any (λ x. x == cluster_finalizer cluster_id) fs) ≡ false
      by_equal (no n) r = r
      by_equal (yes e) r = absurd (
          clash
            (ap (λ x. starts_with x finalizer_prefix) e
              ∙ starts_with-append finalizer_prefix cluster_id)
            (first_of _ _ h))

  pub remove_added :
      (f : String) (fs : List String)
      → any (λ g. g == f) fs ≡ false
      → remove_finalizer f (fs ++ (f ∷ [])) ≡ fs
  remove_added f [] h = ground (arith, to_== f f refl)
  remove_added f (g ∷ fs) h = ground (arith, remove_added f fs)

  pub no_other :
      (fs : List String)
      → any (λ f. starts_with f finalizer_prefix) fs ≡ false
      → any (is_other_cluster cluster_id) fs ≡ false
  no_other [] h = refl
  no_other (g ∷ fs) h = ground (arith, no_other fs)
