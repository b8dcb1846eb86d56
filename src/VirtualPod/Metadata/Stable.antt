-- ===== src/VirtualPod/Metadata/Stable.antt =====
-- What an update of a physical pod writes, and that it stays as it is.
use kubeocean.Dict.{
  StrMap, or_empty, is_some, lookup, lookup-insert, put, ◌at◌, has, IsUnique, copy_but-IsUnique,
}
use kubeocean.PhysicalPod.Defs.{expected_metadata, label_managed_by}
use kubeocean.Prelude.{
  ℕ, ◌≡◌, ◌≢◌, refl, sym, ap, ◌∙◌, Bool, true, false, not, ◌&&◌, ◌||◌, Option, none, some, [], ◌∷◌,
  arith, String, str_dec, ◌==◌, ◌≠?◌, is_yes, if◌then◌else◌,
}
use kubeocean.VirtualPod.Defs.{Pod}
use kubeocean.VirtualPod.Metadata.{
  set_entry, set_current, drop_entry, drop_previous, sync_metadata, Expected, Plan, skip, keep,
  update, current_expected, synced_pod, needs_update, plan_with, plan_sync, is_kubeocean_annotation,
}
use kubeocean.VirtualPod.Metadata.Laws.{sync_metadata-lookup}

-- Where nothing is new, nothing is done.
set_current-same :
    (previous current : StrMap) (s : StrMap × Bool)
    → ((k v : String) → lookup str_dec k current ≡ some v → previous at k ≡ v)
    → IsUnique str_dec current
    → set_current previous current s ≡ s
unfolding set_current lookup
set_current-same previous [] s h u = refl
set_current-same previous ((j, v) ∷ current) s h u =
    rw (same) (set_current-same previous current s later u.1)
  where
    same : set_entry previous j v s ≡ s
    same = ground (arith, h j v)

    later : (k w : String) → lookup str_dec k current ≡ some w → previous at k ≡ w
    later k w e = ground (arith, h k w, u.0)

drop_previous-same :
    (current previous : StrMap) (s : StrMap × Bool)
    → ((k : String) → has k previous ≡ true → has k current ≡ true)
    → drop_previous current previous s ≡ s
unfolding drop_previous lookup
drop_previous-same current [] s h = refl
drop_previous-same current ((j, v) ∷ previous) s h =
    rw (same) (drop_previous-same current previous s later)
  where
    same : drop_entry current j s ≡ s
    same = ground (arith, h j)

    later : (k : String) → has k previous ≡ true → has k current ≡ true
    later k e = ground (arith, h k)

sync_metadata-again :
    (target current : StrMap)
    → IsUnique str_dec current
    → sync_metadata target current current ≡ (target, false)
unfolding sync_metadata
sync_metadata-again target current u =
    rw (set_current-same current current (target, false) (λ k v e. rw e refl) u)
      (drop_previous-same current current (target, false) (λ k e. e))

other_key :
    (k : String) (m : StrMap) (t : String)
    → k ≢ expected_metadata
    → lookup str_dec k (put expected_metadata t m) ≡ lookup str_dec k m
other_key k m t n = ground (arith, lookup-insert str_dec expected_metadata k t m, n)

expected_at : (m : StrMap) (t : String) → (put expected_metadata t m) at expected_metadata ≡ t
expected_at m t = ground (arith, lookup-insert str_dec expected_metadata expected_metadata t m)

-- The value of a key of the written metadata: that of a key which the virtual pod has, if it is
-- neither what was expected before nor what the physical pod has; none for a key that only was
-- expected before; and else that of the physical pod.
abbrev pub merged : Option String → Option String → Option String → Option String
merged (some v) before there = if or_empty before ≠? v && or_empty there ≠? v then some v else there
merged none none there = there
merged none (some b) there = none

merged_lem :
    (target previous current : StrMap) (k : String)
    → IsUnique str_dec current
    → lookup str_dec k (sync_metadata target previous current).0
      ≡ merged (lookup str_dec k current) (lookup str_dec k previous) (lookup str_dec k target)
merged_lem target previous current k u =
    sync_metadata-lookup target previous current k u
    ∙ by_values (lookup str_dec k current) (lookup str_dec k previous) (lookup str_dec k target)
  where
    by_values :
        (c p t : Option String)
        → elim c [
          | none ↦ if is_some p then none else t
          | some v ↦ if or_empty p ≠? v && or_empty t ≠? v then some v else t
        ]
          ≡ merged c p t
    by_values (some v) p t = refl
    by_values none none t = refl
    by_values none (some b) t = refl

module _ {Ephemeral : Type 0} (encode : Expected → String) (decode : String → Option Expected)
    (deadline_dec : Discrete (Option ℕ)) where
  -- An update writes the pod that the synchronisation makes.
  planned_pod :
      (virtual physical written : Pod Ephemeral) (previous : Expected)
      → decode (physical.annotations at expected_metadata) ≡ some previous
      → plan_sync encode decode deadline_dec virtual physical ≡ update written
      → written
        ≡ synced_pod encode decode deadline_dec virtual physical previous
            (current_expected encode decode deadline_dec virtual)
  unfolding plan_sync plan_with
  planned_pod virtual physical written previous d = rw d (
      by_tests (physical.annotations at expected_metadata == "") (
        needs_update encode decode deadline_dec virtual physical previous
          (current_expected encode decode deadline_dec virtual)))
    where
      next : Pod Ephemeral
      next =
          synced_pod encode decode deadline_dec virtual physical previous
            (current_expected encode decode deadline_dec virtual)

      pod_of : Plan Ephemeral → Pod Ephemeral
      pod_of (update p) = p
      pod_of _ = next

      is_update : Plan Ephemeral → Bool
      is_update (update p) = true
      is_update _ = false

      clash : false ≡ true → ⊥
      clash e = cc

      by_tests :
          (a b : Bool)
          → (if a then skip else (if b then update next else keep physical)) ≡ update written
          → written ≡ next
      by_tests true b e = absurd (clash (ap is_update e))
      by_tests false true e = sym (ap pod_of e)
      by_tests false false e = absurd (clash (ap is_update e))

  no_need :
      (virtual physical : Pod Ephemeral)
      → let current = current_expected encode decode deadline_dec virtual in
        IsUnique str_dec current.annotations
        → IsUnique str_dec current.labels
        → physical.annotations at expected_metadata ≡ encode current
        → physical.active_deadline ≡ virtual.active_deadline
        → needs_update encode decode deadline_dec virtual physical current current ≡ false
  unfolding needs_update
  no_need virtual physical ua ul e d =
      rw (sync_metadata-again physical.annotations _ ua, sync_metadata-again physical.labels _ ul)
        (settled (str_dec (encode current) (physical.annotations at expected_metadata))
          (deadline_dec physical.active_deadline virtual.active_deadline))
    where
      current : Expected
      current = current_expected encode decode deadline_dec virtual

      settled :
          (a : Dec (encode current ≡ physical.annotations at expected_metadata))
          (b : Dec (physical.active_deadline ≡ virtual.active_deadline))
          → (not (is_yes a) || not (is_yes b)) ≡ false
      settled (yes p) (yes q) = refl
      settled (no n) b = absurd (n (sym e))
      settled (yes p) (no n) = absurd (n d)

  -- What the synchronisation makes.
  deadline_synced :
      (virtual physical : Pod Ephemeral) (previous current : Expected)
      → (synced_pod encode decode deadline_dec virtual physical previous current).active_deadline
        ≡ virtual.active_deadline
  unfolding synced_pod
  deadline_synced virtual physical previous current = refl

  noted :
      (virtual physical : Pod Ephemeral) (previous current : Expected)
      → (synced_pod encode decode deadline_dec virtual physical previous current).annotations
          at expected_metadata
        ≡ encode current
  unfolding synced_pod
  noted virtual physical previous current = expected_at _ _

  labels_synced :
      (virtual physical : Pod Ephemeral) (previous current : Expected) (k : String)
      → IsUnique str_dec current.labels
      → lookup str_dec k
          (synced_pod encode decode deadline_dec virtual physical previous current).labels
        ≡ merged
            (lookup str_dec k current.labels)
            (lookup str_dec k previous.labels)
            (lookup str_dec k physical.labels)
  unfolding synced_pod
  labels_synced virtual physical previous current k u =
      merged_lem physical.labels previous.labels current.labels k u

  annotations_synced :
      (virtual physical : Pod Ephemeral) (previous current : Expected) (k : String)
      → IsUnique str_dec current.annotations
      → k ≢ expected_metadata
      → lookup str_dec k
          (synced_pod encode decode deadline_dec virtual physical previous current).annotations
        ≡ merged
            (lookup str_dec k current.annotations)
            (lookup str_dec k previous.annotations)
            (lookup str_dec k physical.annotations)
  unfolding synced_pod
  annotations_synced virtual physical previous current k u n =
      other_key k _ _ n
      ∙ merged_lem physical.annotations previous.annotations current.annotations k u

  nothing_left :
      (virtual written : Pod Ephemeral)
      → let current = current_expected encode decode deadline_dec virtual in
        IsUnique str_dec virtual.annotations
        → IsUnique str_dec virtual.labels
        → decode (encode current) ≡ some current
        → encode current ≢ ""
        → written.annotations at expected_metadata ≡ encode current
        → written.active_deadline ≡ virtual.active_deadline
        → plan_sync encode decode deadline_dec virtual written ≡ keep written
  unfolding plan_sync plan_with
  nothing_left virtual written ua ul back full e d = rw e (
      rw (not_empty, back)
        (rw
          (no_need virtual written
            (copy_but-IsUnique is_kubeocean_annotation virtual.annotations ua)
            (copy_but-IsUnique (λ k. k == label_managed_by) virtual.labels ul) e d)
          refl))
    where
      not_empty : (encode (current_expected encode decode deadline_dec virtual) == "") ≡ false
      not_empty = ground (arith, full)

  -- An update makes the physical pod as it should be. Its deadline is that of the virtual pod, its
  -- note of the expected metadata is the encoding of the virtual pod's labels and annotations that
  -- count, and every other label and annotation has the value that the virtual pod asks for, where
  -- that is neither what was expected before nor what is there, is gone where the virtual pod no longer
  -- has it, and else is as it was. And for the pod that was written, with the same virtual pod, no
  -- update is needed. The metadata of the virtual pod is to have an encoding that is not empty and
  -- that is read back.
  pub plan_sync_stable :
      (virtual physical written : Pod Ephemeral) (previous : Expected) (k : String)
      → IsUnique str_dec virtual.annotations
      → IsUnique str_dec virtual.labels
      → decode (physical.annotations at expected_metadata) ≡ some previous
      → decode (encode (current_expected encode decode deadline_dec virtual))
        ≡ some (current_expected encode decode deadline_dec virtual)
      → encode (current_expected encode decode deadline_dec virtual) ≢ ""
      → plan_sync encode decode deadline_dec virtual physical ≡ update written
      → let current = current_expected encode decode deadline_dec virtual in
        (plan_sync encode decode deadline_dec virtual written ≡ keep written)
        × (written.active_deadline ≡ virtual.active_deadline)
        × (written.annotations at expected_metadata ≡ encode current)
        × (lookup str_dec k written.labels
            ≡ merged
                (lookup str_dec k current.labels)
                (lookup str_dec k previous.labels)
                (lookup str_dec k physical.labels))
        × (k ≢ expected_metadata
            → lookup str_dec k written.annotations
              ≡ merged
                  (lookup str_dec k current.annotations)
                  (lookup str_dec k previous.annotations)
                  (lookup str_dec k physical.annotations))
  plan_sync_stable virtual physical written previous k ua ul before back full h =
      rw (planned_pod virtual physical written previous before h) (
        settled,
        deadline_synced virtual physical previous current,
        noted virtual physical previous current,
        labels_synced virtual physical previous current k
            (copy_but-IsUnique (λ k. k == label_managed_by) virtual.labels ul),
        annotations_synced virtual physical previous current k
            (copy_but-IsUnique is_kubeocean_annotation virtual.annotations ua),
      )
    where
      current : Expected
      current = current_expected encode decode deadline_dec virtual

      settled :
          plan_sync encode decode deadline_dec virtual
            (synced_pod encode decode deadline_dec virtual physical previous current)
          ≡ keep (synced_pod encode decode deadline_dec virtual physical previous current)
      settled =
          nothing_left virtual
            (synced_pod encode decode deadline_dec virtual physical previous current) ua ul back
            full (noted virtual physical previous current)
            (deadline_synced virtual physical previous current)
