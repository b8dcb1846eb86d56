-- ===== src/Synced/Marks/Laws.antt =====
-- Marking a resource twice, and marking it and removing the marks.
use Prim.Native.String.{◌++◌ as join}
use text.Mathlib.Text.{starts_with}
use text.Mathlib.TextPositions.{starts_with-append}
use kubeocean.Dict.{lookup, lookup-insert, lookup-delete, put, delete, ◌at◌}
use kubeocean.Kube.{Meta}
use kubeocean.Prelude.{
  ◌≡◌, ◌≢◌, refl, sym, ap, ◌∙◌, Bool, true, false, not, ◌&&◌, ◌||◌, none, List, [], ◌∷◌, ◌++◌,
  arith, String, str_dec, ◌==◌, any, any-append, if◌then◌else◌, text_ne, to_==, Bool-cases, inl,
  inr,
}
use kubeocean.Synced.Marks.{
  managed_by, used_by_pv, physical_name, physical_namespace, synced_by, synced_by_prefix,
  cluster_finalizer, deleting_annotation, contains_finalizer, remove_finalizer, Change, unchanged,
  clashing, write, all_fields_match, with_marks, update_virtual_resource, remove_labels,
  remove_annotations, without_marks, is_other_cluster,
}

-- A key with a prefix that a text does not have is not that text.
apart : (p t s : String) → starts_with t p ≡ false → join p s ≢ t
apart p t s h e = absurd (clash (sym (ap (λ x. starts_with x p) e) ∙ starts_with-append p s))
  where
    clash : starts_with t p ≡ true → ⊥
    clash k = ground arith

pub synced_by_managed : (id : String) → synced_by id ≢ managed_by
synced_by_managed id = apart synced_by_prefix managed_by id refl

pub synced_by_pv : (id : String) → synced_by id ≢ used_by_pv
synced_by_pv id = apart synced_by_prefix used_by_pv id refl

pub deleting_name : (id : String) → deleting_annotation id ≢ physical_name
deleting_name id = apart "kubeocean.io/deleting-" physical_name id refl

pub deleting_namespace : (id : String) → deleting_annotation id ≢ physical_namespace
deleting_namespace id = apart "kubeocean.io/deleting-" physical_namespace id refl

pub name_namespace : physical_name ≢ physical_namespace
name_namespace = text_ne physical_name physical_namespace refl

pub pv_managed : used_by_pv ≢ managed_by
pv_managed = text_ne used_by_pv managed_by refl

pub contains_added :
    (f : String) (fs : List String)
    → any (λ g. g == f) (if any (λ g. g == f) fs then fs else fs ++ (f ∷ [])) ≡ true
contains_added f fs = elim (Bool-cases (any (λ g. g == f) fs)) [
  | inl t ↦ rw t t
  | inr t ↦ rw t (ground (arith, any-append (λ g. g == f) fs (f ∷ []), to_== f f refl))
]

module _ (cluster_id name namespace : String) (is_pv_secret : Bool) where
  marks_match :
      (obj : Meta)
      → all_fields_match cluster_id name namespace is_pv_secret
          (with_marks cluster_id name namespace is_pv_secret obj)
        ≡ true
  unfolding all_fields_match with_marks
  marks_match obj =
      rw
        (
          name_there,
          namespace_there,
          managed_there,
          synced_there,
          contains_added (cluster_finalizer cluster_id) obj.finalizers,
        )
        pv_there
    where
      marked : Meta
      marked = with_marks cluster_id name namespace is_pv_secret obj

      managed : List (String × String)
      managed = put managed_by "kubeocean" obj.labels

      synced : List (String × String)
      synced = put (synced_by cluster_id) "true" managed

      name_there : (marked.annotations at physical_name == name) ≡ true
      name_there = ground (
        arith,
        lookup-insert str_dec physical_namespace physical_name namespace
            (put physical_name name obj.annotations),
        lookup-insert str_dec physical_name physical_name name obj.annotations,
        name_namespace,
      )

      namespace_there : (marked.annotations at physical_namespace == namespace) ≡ true
      namespace_there = ground (
        arith,
        lookup-insert str_dec physical_namespace physical_namespace namespace
            (put physical_name name obj.annotations),
      )

      managed_there : (marked.labels at managed_by == "kubeocean") ≡ true
      managed_there = ground (
        arith,
        lookup-insert str_dec used_by_pv (managed_by) "true" synced,
        lookup-insert str_dec (synced_by cluster_id) (managed_by) "true" managed,
        lookup-insert str_dec managed_by (managed_by) "kubeocean" obj.labels,
        synced_by_managed cluster_id,
        synced_by_pv cluster_id,
        pv_managed,
      )

      synced_there : (marked.labels at synced_by cluster_id == "true") ≡ true
      synced_there = ground (
        arith,
        lookup-insert str_dec used_by_pv (synced_by cluster_id) "true" synced,
        lookup-insert str_dec (synced_by cluster_id) (synced_by cluster_id) "true" managed,
        lookup-insert str_dec managed_by (synced_by cluster_id) "kubeocean" obj.labels,
        synced_by_managed cluster_id,
        synced_by_pv cluster_id,
        pv_managed,
      )

      pv_there : (not is_pv_secret || (marked.labels at used_by_pv == "true")) ≡ true
      pv_there = ground (
        arith,
        lookup-insert str_dec used_by_pv (used_by_pv) "true" synced,
        lookup-insert str_dec (synced_by cluster_id) (used_by_pv) "true" managed,
        lookup-insert str_dec managed_by (used_by_pv) "kubeocean" obj.labels,
        synced_by_managed cluster_id,
        synced_by_pv cluster_id,
        pv_managed,
      )

  -- A resource that was marked for a cluster needs no second update for the same name there.
  pub update_virtual_resource-again :
      (obj marked : Meta)
      → update_virtual_resource cluster_id name namespace is_pv_secret obj ≡ write marked
      → update_virtual_resource cluster_id name namespace is_pv_secret marked ≡ unchanged
  unfolding update_virtual_resource
  update_virtual_resource-again obj marked h =
      rw
        (written (all_fields_match cluster_id name namespace is_pv_secret obj) _ h, marks_match obj)
        refl
    where
      marks_of : Change → Meta
      marks_of unchanged = obj
      marks_of clashing = obj
      marks_of (write m) = m

      is_write : Change → Bool
      is_write (write m) = true
      is_write _ = false

      clash : false ≡ true → ⊥
      clash e = cc

      written :
          (match other : Bool)
          → (if match
              then unchanged
              else if other
              then clashing
              else write (with_marks cluster_id name namespace is_pv_secret obj))
            ≡ write marked
          → marked ≡ with_marks cluster_id name namespace is_pv_secret obj
      written true o e = absurd (clash (ap is_write e))
      written false true e = absurd (clash (ap is_write e))
      written false false e = sym (ap marks_of e)

module _ (cluster_id : String) where
  pub contains_removed :
      (f : String) (fs : List String) → any (λ g. g == f) (remove_finalizer f fs) ≡ false
  contains_removed f [] = refl
  contains_removed f (g ∷ fs) = ground (arith, contains_removed f fs)

  pub label_removed :
      (obj : Meta) (k : String)
      → lookup str_dec k (without_marks cluster_id obj).labels ≡ (
          if k == used_by_pv
            || (k == synced_by cluster_id
                || ((contains_finalizer (cluster_finalizer cluster_id) obj
                      && not (
                          any
                            (is_other_cluster cluster_id)
                            (remove_finalizer (cluster_finalizer cluster_id) obj.finalizers)))
                    && k == managed_by))
          then none
          else lookup str_dec k obj.labels)
  unfolding without_marks remove_labels
  label_removed obj k = by_flags (contains_finalizer (cluster_finalizer cluster_id) obj) (
      any (is_other_cluster cluster_id)
        (remove_finalizer (cluster_finalizer cluster_id) obj.finalizers))
    where
      one : List (String × String)
      one = delete str_dec (synced_by cluster_id) obj.labels

      two : List (String × String)
      two = delete str_dec used_by_pv one

      by_flags :
          (b o : Bool)
          → lookup str_dec k (if b && not o then delete str_dec managed_by two else two) ≡ (
              if k == used_by_pv || (k == synced_by cluster_id || ((b && not o) && k == managed_by))
              then none
              else lookup str_dec k obj.labels)
      by_flags b o = ground (
        arith,
        lookup-delete str_dec managed_by k two,
        lookup-delete str_dec used_by_pv k one,
        lookup-delete str_dec (synced_by cluster_id) k obj.labels,
      )

  pub annotation_removed :
      (obj : Meta) (k : String)
      → lookup str_dec k (without_marks cluster_id obj).annotations ≡ (
          if k == deleting_annotation cluster_id || (k == physical_namespace || k == physical_name)
          then none
          else lookup str_dec k obj.annotations)
  unfolding without_marks remove_annotations
  annotation_removed obj k = ground (
    arith,
    lookup-delete str_dec (deleting_annotation cluster_id) k
        (delete str_dec physical_namespace (delete str_dec physical_name obj.annotations)),
    lookup-delete str_dec physical_namespace k (delete str_dec physical_name obj.annotations),
    lookup-delete str_dec physical_name k obj.annotations,
  )
