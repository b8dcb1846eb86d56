-- ===== src/Node/Expected.antt =====
-- physical_node_controller.go: preserveUserCustomizations, the metadata that it expects and keeps
-- in an annotation, and the part of createOrUpdateVirtualNode that merges an existing node.
use kubeocean.Dict.{StrMap, lookup, lookup-insert, insert-IsUnique, put, has, IsUnique}
use kubeocean.Node.Defs.{Node, Taint, node_metadata}
use kubeocean.Node.Merge.{
  merge_labels, merge_annotations, merge_taints, lookup-merge_labels, lookup-merge_annotations,
  or_else,
}
use kubeocean.Prelude.{
  ◌≡◌, refl, sym, ◌∙◌, ap, Option, none, some, List, [], map, arith, String, str_dec, if◌then◌else◌,
}

-- ExpectedNodeMetadata.
pub record Expected : Type 0 where
  pub labels : StrMap
  pub annotations : StrMap
  pub taints : List Taint

-- encoding/json with encoding/base64.
pub record Codec : Type 0 where
  pub encode : Expected → String
  pub decode : String → Option Expected

module _ (codec : Codec) where
  open codec use {encode, decode}

  abbrev pub expected_of : Node → Expected
  expected_of n = record { labels = n.labels; annotations = n.annotations; taints = n.taints }

  -- What is written is read again. The time of a taint is written in seconds, so that of the taints
  -- only the keys are said to come back.
  pub record IsReadAgain (x : Expected) : Type 0 where
    pub again : Expected
    pub reads : decode (encode x) ≡ some again
    pub same_labels : again.labels ≡ x.labels
    pub same_annotations : again.annotations ≡ x.annotations
    pub same_keys : map (λ t. t.key) again.taints ≡ map (λ t. t.key) x.taints

  abbrev nothing_expected : Expected
  nothing_expected = record { labels = []; annotations = []; taints = [] }

  abbrev decode_annotation : Option String → Option Expected
  decode_annotation none = some nothing_expected
  decode_annotation (some text) = decode text

  -- none is a failure to decode.
  pub get_expected_metadata : Node → Option Expected
  get_expected_metadata n = decode_annotation (lookup str_dec node_metadata n.annotations)

  save_expected_metadata : Node → Expected → Node
  save_expected_metadata n expected = record n {
    meta = record (n.meta) { annotations = put node_metadata (encode expected) n.annotations };
  }

  -- The three merges, into the node that was built.
  merge_with_user_customizations : Node → Node → Expected → Expected → Node
  merge_with_user_customizations existing new previous current = record new {
    meta = record (new.meta) {
      labels = merge_labels existing.labels new.labels previous.labels current.labels;
      annotations =
          merge_annotations existing.annotations new.annotations previous.annotations
            current.annotations;
    };
    taints = merge_taints existing.taints previous.taints current.taints;
  }

  merge_after : Node → Node → Option Expected → Option Node
  unfolding save_expected_metadata merge_with_user_customizations
  merge_after existing new none = none
  merge_after existing new (some previous) = some (
      merge_with_user_customizations existing (save_expected_metadata new (expected_of new))
        previous (expected_of new))

  -- The previous expectation is read from `existing`; a failure to read it is a failure of all.
  pub preserve_user_customizations : Node → Node → Option Node
  unfolding get_expected_metadata merge_after
  preserve_user_customizations existing new =
      merge_after existing new (get_expected_metadata existing)

  -- What createOrUpdateVirtualNode does with the metadata of a node that exists: `built` is what
  -- is expected of it now.
  pub update_metadata : Node → Node → Option Node
  unfolding preserve_user_customizations
  update_metadata existing built =
      preserve_user_customizations existing (save_expected_metadata built (expected_of built))

  -- An update fails only where the annotation cannot be decoded.
  pub update_metadata_total :
      (existing built : Node)
      → ((text : String) → (x : Expected) × (decode text ≡ some x))
      → (updated : Node) × (update_metadata existing built ≡ some updated)
  unfolding update_metadata preserve_user_customizations get_expected_metadata merge_after
  update_metadata_total existing built f =
      by_previous (decode_annotation (lookup str_dec node_metadata existing.annotations))
        (readable (lookup str_dec node_metadata existing.annotations))
    where
      readable : (o : Option String) → (x : Expected) × (decode_annotation o ≡ some x)
      readable none = (nothing_expected, refl)
      readable (some text) = f text

      by_previous :
          (o : Option Expected)
          → (x : Expected) × (o ≡ some x)
          → (updated : Node) × (merge_after existing
                (save_expected_metadata built (expected_of built))
                o
              ≡ some updated)
      by_previous none (x, e) = absurd (cc)
      by_previous (some x) _ = (_, refl)

  abbrev labels_of : Option Node → StrMap
  labels_of none = []
  labels_of (some n) = n.labels

  abbrev annotations_of : Option Node → StrMap
  annotations_of none = []
  annotations_of (some n) = n.annotations

  module _ (existing built updated : Node) (labels_unique : IsUnique str_dec existing.labels)
      (built_labels_unique : IsUnique str_dec built.labels) where
    labels_given :
        (previous : Option Expected)
        → merge_after existing (save_expected_metadata built (expected_of built)) previous
          ≡ some updated
        → (x : Expected) × (previous ≡ some x)
          × (updated.labels ≡ merge_labels existing.labels built.labels x.labels built.labels)
    unfolding merge_after save_expected_metadata merge_with_user_customizations
    labels_given none h = absurd (cc)
    labels_given (some x) h = (x, refl, ap labels_of (sym h))

    merged :
        (x : Expected) (k : String)
        → lookup str_dec k (merge_labels existing.labels built.labels x.labels built.labels)
          ≡ or_else
              (lookup str_dec k built.labels)
              (if has k x.labels then none else lookup str_dec k existing.labels)
    merged x k = ground (
      arith,
      lookup-merge_labels existing.labels built.labels x.labels built.labels k labels_unique
          built_labels_unique,
    )

    -- A label of an updated node: the one that is expected now; else none if it was expected
    -- before; else the one that the node has, which the user gave it.
    pub update_metadata-labels :
        (k : String)
        → update_metadata existing built ≡ some updated
        → (previous : Expected) × (get_expected_metadata existing ≡ some previous)
          × (lookup str_dec k updated.labels
              ≡ or_else
                  (lookup str_dec k built.labels)
                  (if has k previous.labels then none else lookup str_dec k existing.labels))
    unfolding update_metadata preserve_user_customizations
    update_metadata-labels k h =
        let (x, e, l) = labels_given (get_expected_metadata existing) h in (x, e, rw l (merged x k))

  module _ (existing built updated : Node)
      (annotations_unique : IsUnique str_dec existing.annotations)
      (built_annotations_unique : IsUnique str_dec built.annotations) where
    saved : Node
    saved = save_expected_metadata built (expected_of built)

    saved_lookup :
        lookup str_dec node_metadata saved.annotations ≡ some (encode (expected_of built))
    unfolding saved save_expected_metadata
    saved_lookup = ground (
      arith,
      lookup-insert str_dec node_metadata node_metadata (encode (expected_of built))
          built.annotations,
    )

    saved-IsUnique : IsUnique str_dec saved.annotations
    unfolding saved save_expected_metadata
    saved-IsUnique =
        insert-IsUnique str_dec node_metadata _ built.annotations built_annotations_unique

    kept :
        (previous : Option Expected)
        → merge_after existing saved previous ≡ some updated
        → lookup str_dec node_metadata updated.annotations ≡ some (encode (expected_of built))
    unfolding merge_after merge_with_user_customizations
    kept none h = absurd (cc)
    kept (some x) h = rw (ap annotations_of (sym h)) (
        ground (
          arith,
          lookup-merge_annotations existing.annotations
              (save_expected_metadata saved (expected_of saved)).annotations x.annotations
              saved.annotations node_metadata annotations_unique saved-IsUnique,
          saved_lookup,
        ))

    -- What an updated node is next expected to have had is what was built for it, and not the
    -- metadata of that metadata: the merge restores the first of the two encodings.
    pub update_metadata-remembers :
        update_metadata existing built ≡ some updated
        → get_expected_metadata updated ≡ decode (encode (expected_of built))
    unfolding update_metadata preserve_user_customizations get_expected_metadata saved
    update_metadata-remembers h = ap decode_annotation (kept (get_expected_metadata existing) h)

  -- Two updates in turn, with any edit of the labels between them: a label that the second expects
  -- is there; one that only the first expected is gone; and any other is what the edited node had.
  pub update_metadata-twice :
      (existing first updated edited second result : Node) (k : String)
      → IsReadAgain (expected_of first)
      → IsUnique str_dec existing.annotations
      → IsUnique str_dec first.annotations
      → IsUnique str_dec edited.labels
      → IsUnique str_dec second.labels
      → update_metadata existing first ≡ some updated
      → edited.annotations ≡ updated.annotations
      → update_metadata edited second ≡ some result
      → lookup str_dec k result.labels
        ≡ or_else
            (lookup str_dec k second.labels)
            (if has k first.labels then none else lookup str_dec k edited.labels)
  unfolding get_expected_metadata
  update_metadata-twice existing first updated edited second result k codes ue uf ud us h a h' =
      let (previous, e, l) = update_metadata-labels edited second result ud us k h' in
      let read = ap (λ m. decode_annotation (lookup str_dec node_metadata m)) a in
      let remembered = update_metadata-remembers existing first updated ue uf h in
      let previous_labels =
        ap expected_labels (sym e ∙ (read ∙ (remembered ∙ codes.reads))) ∙ codes.same_labels in
      l ∙ ap by_previous previous_labels
    where
      expected_labels : Option Expected → StrMap
      expected_labels none = []
      expected_labels (some x) = x.labels

      by_previous : StrMap → Option String
      by_previous m =
          or_else (lookup str_dec k second.labels)
            (if has k m then none else lookup str_dec k edited.labels)
