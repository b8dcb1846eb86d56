-- ===== src/Node/Deletion/Safety.antt =====
-- handleNodeDeletion: when each of its calls is justified, and in which order they come.
use kubeocean.Dict.{has}
use kubeocean.Effect.{◌>>=◌, return, call}
use kubeocean.Kube.{Fetch, found, missing, failed, Reply, done, not_found, already_exists, refused}
use kubeocean.Node.Calls.{
  Api, Call, BoundPod, get_physical_node, get_virtual_node, list_pods, update_node, delete_node,
  delete_pod, start_lease, stop_lease, release_port, holds_node,
}
use kubeocean.Node.Defs.{Node, seconds}
use kubeocean.Node.Deletion.{
  vnode_name, marked, without_finalizer, has_deletion_taint, handle_node_deletion,
  add_deletion_taint, remove_policy_applied_label, ends_well, finish, release_node, after_eviction,
  evict_now, evict_in_time, reclaim, is_zero_period, delete_or_reclaim, after_mark,
  with_virtual_node, clear_label, after_patch, after_label, label_policy_applied,
}
use kubeocean.Node.Evict.{
  Each, Listed, force_evict-Each, check_pods_on_virtual_node, force_evict_pods_on_virtual_node,
  any_holds,
}
use kubeocean.Prelude.{
  ◌≡◌, refl, Bool, true, false, not, Option, none, some, List, [], ◌∷◌, String, any, ◌⊎◌, inl, inr,
  Bool-cases, ◌==◌, if◌then◌else◌, subst,
}
use kubeocean.Prelude.Int.{ℤ, ltb_ℤ, ◌-ℤ◌}

not_none : {A : Type 0} {a : A} → none ≡ some a → ⊥
not_none e = cc

of_some : {A : Type 0} {a b : A} → some a ≡ some b → a ≡ b
of_some e = cc

module _ (api : Api) (md5_hex : String → String) (parse_time : String → Option ℤ)
    (format_time : ℤ → String) (cluster_id vname : String) (read_at : List Call) where
  open api use {physical_node, virtual_node, label_patched, pods, node_updated, node_deleted, now}

  -- The pods of the virtual node were just listed, and none of them holds it.
  abbrev pub Emptied : List Call → Type 0
  Emptied log =
      (before : List Call) × (log ≡ list_pods vname ∷ before)
      × (list : List BoundPod) × (pods before vname ≡ some list)
      × (any (holds_node vname) list ≡ false)

  -- The virtual node, as it was read after the calls `read_at`, or as it was then marked.
  abbrev pub Seen : Node → Type 0
  Seen n =
      (read : Node) × (virtual_node read_at vname ≡ found read)
      × ((n ≡ read)
          ⊎ ((time : ℤ) × (n ≡ marked api md5_hex parse_time format_time cluster_id read time)))

  -- When a call is justified by the calls before it.
  abbrev pub Justified : Call → List Call → Type 0
  Justified (update_node next) log =
      ((n : Node) × (time : ℤ) × Seen n
        × (next ≡ marked api md5_hex parse_time format_time cluster_id n time))
      ⊎ ((n : Node) × Seen n
          × (n.deleting ≡ true)
          × (next ≡ without_finalizer n)
          × (before : List Call) × (log ≡ release_port vname ∷ stop_lease vname ∷ before)
          × Emptied before)
  Justified (delete_node name uid) log =
      (n : Node) × Seen n × (n.deleting ≡ false) × (name ≡ n.name) × (uid ≡ n.uid)
  Justified (delete_pod pod) log = Listed api vname false pod log
  Justified (stop_lease name) log = (name ≡ vname) × Emptied log
  Justified (release_port name) log =
      (name ≡ vname) × ((before : List Call) × (log ≡ stop_lease vname ∷ before) × Emptied before)
  Justified (start_lease name) log = ⊥
  Justified _ log = Unit

  abbrev Fine : List Call → Type 0
  Fine = Each api Justified

  ends_well-Fine :
      (r : Reply) (log : List Call)
      → Fine log
      → Fine (ends_well api md5_hex parse_time format_time cluster_id r log).1
  unfolding ends_well
  ends_well-Fine done log e = e
  ends_well-Fine not_found log e = e
  ends_well-Fine already_exists log e = e
  ends_well-Fine refused log e = e

  module _ (n : Node) (seen : Seen n) (deleting : n.deleting ≡ true) where
    finish-Fine :
        (before : List Call) (o : Option (List BoundPod))
        → pods before vname ≡ o
        → Fine before
        → Fine
            (finish api md5_hex parse_time format_time cluster_id vname n
              (any_holds api vname o)
              (list_pods vname ∷ before)).1
    unfolding finish release_node
    finish-Fine before none h e = (tt, e)
    finish-Fine before (some list) h e = by_held (any (holds_node vname) list) refl
      where
        emptied : any (holds_node vname) list ≡ false → Emptied (list_pods vname ∷ before)
        emptied t = (before, refl, list, h, t)

        by_held :
            (b : Bool)
            → any (holds_node vname) list ≡ b
            → Fine
                (finish api md5_hex parse_time format_time cluster_id vname n
                  (some b)
                  (list_pods vname ∷ before)).1
        by_held true t = (tt, e)
        by_held false t = ends_well-Fine (node_updated _ (without_finalizer n)) _ (
          inr (n, seen, deleting, refl, list_pods vname ∷ before, refl, emptied t),
          ((refl, (list_pods vname ∷ before, refl, emptied t)), ((refl, emptied t), (tt, e))),
        )

    after_eviction-Fine :
        (well : Bool) (log : List Call)
        → Fine log
        → Fine (after_eviction api md5_hex parse_time format_time cluster_id vname n well log).1
    unfolding after_eviction check_pods_on_virtual_node
    after_eviction-Fine false log e = e
    after_eviction-Fine true log e = finish-Fine log (pods log vname) refl e

    evict_now-Fine :
        (log : List Call)
        → Fine log
        → Fine (evict_now api md5_hex parse_time format_time cluster_id vname n log).1
    unfolding evict_now
    evict_now-Fine log e =
        after_eviction-Fine (force_evict_pods_on_virtual_node api vname false log).0 _
          (force_evict-Each api Justified vname false (λ l. tt) (λ p l h. h) log e)

    evict_in_time-Fine :
        (graceful : ℤ) (since : Option ℤ) (log : List Call)
        → Fine log
        → Fine
            (evict_in_time api md5_hex parse_time format_time cluster_id vname n graceful since
              log).1
    unfolding evict_in_time
    evict_in_time-Fine graceful none log e = e
    evict_in_time-Fine graceful (some since) log e =
        elim (Bool-cases (ltb_ℤ (now log -ℤ since) (seconds graceful))) [
          | inl t ↦ rw t e
          | inr t ↦ rw t (evict_now-Fine log e)
        ]

    reclaim-Fine :
        (force : Bool) (graceful : ℤ) (log : List Call)
        → Fine log
        → Fine (reclaim api md5_hex parse_time format_time cluster_id vname n force graceful log).1
    unfolding reclaim
    reclaim-Fine false graceful log e = after_eviction-Fine true log e
    reclaim-Fine true graceful log e = elim (Bool-cases (is_zero_period graceful)) [
      | inl t ↦ rw t (evict_now-Fine log e)
      | inr t ↦ rw t (evict_in_time-Fine graceful _ log e)
    ]

  delete_or_reclaim-Fine :
      (force : Bool) (graceful : ℤ) (o : Option Node) (log : List Call)
      → ((n : Node) → o ≡ some n → Seen n)
      → Fine log
      → Fine
          (delete_or_reclaim api md5_hex parse_time format_time cluster_id vname force graceful o
            log).1
  unfolding delete_or_reclaim
  delete_or_reclaim-Fine force graceful none log s e = e
  delete_or_reclaim-Fine force graceful (some n) log s e = by_deleting n.deleting refl
    where
      by_deleting :
          (b : Bool)
          → n.deleting ≡ b
          → Fine
              ((if not b
                  then (do
                    reply ← call (delete_node n.name n.uid) (λ l. node_deleted l n.name n.uid)
                    ends_well api md5_hex parse_time format_time cluster_id reply)
                  else reclaim api md5_hex parse_time format_time cluster_id vname n force graceful)
                log).1
      by_deleting true t = reclaim-Fine n (s n refl) t force graceful log e
      by_deleting false t =
          ends_well-Fine (node_deleted log n.name n.uid) _ ((n, s n refl, t, refl, refl), e)

  after_mark-Fine :
      (n next : Node) (r : Reply) (force : Bool) (graceful : ℤ) (log : List Call)
      → Seen next
      → Fine log
      → let (o, log') = after_mark api md5_hex parse_time format_time cluster_id next r log in
        Fine
          (delete_or_reclaim api md5_hex parse_time format_time cluster_id vname force graceful o
            log').1
  unfolding after_mark
  after_mark-Fine n next done force graceful log s e =
      delete_or_reclaim-Fine force graceful (some next) log (λ m p. subst Seen (of_some p) s) e
  after_mark-Fine n next not_found force graceful log s e =
      delete_or_reclaim-Fine force graceful none log (λ m p. absurd (not_none p)) e
  after_mark-Fine n next already_exists force graceful log s e =
      delete_or_reclaim-Fine force graceful none log (λ m p. absurd (not_none p)) e
  after_mark-Fine n next refused force graceful log s e =
      delete_or_reclaim-Fine force graceful none log (λ m p. absurd (not_none p)) e

  with_virtual_node-Fine :
      (force : Bool) (graceful : ℤ) (answer : Fetch Node) (log : List Call)
      → virtual_node read_at vname ≡ answer
      → Fine log
      → Fine
          (with_virtual_node api md5_hex parse_time format_time cluster_id vname force graceful
            answer log).1
  unfolding with_virtual_node add_deletion_taint
  with_virtual_node-Fine force graceful missing log h e = e
  with_virtual_node-Fine force graceful failed log h e = e
  with_virtual_node-Fine force graceful (found n) log h e = by_taint (has_deletion_taint n) refl
    where
      seen : Seen n
      seen = (n, h, inl refl)

      next : Node
      next = marked api md5_hex parse_time format_time cluster_id n (now log)

      by_taint :
          (b : Bool)
          → has_deletion_taint n ≡ b
          → let (o, log') =
              (if b
                  then return (some n)
                  else add_deletion_taint api md5_hex parse_time format_time cluster_id n)
                log in
            Fine
              (delete_or_reclaim api md5_hex parse_time format_time cluster_id vname force graceful
                o log').1
      by_taint true t =
          delete_or_reclaim-Fine force graceful (some n) log (λ m p. subst Seen (of_some p) seen) e
      by_taint false t = rw t (
          after_mark-Fine n next (node_updated log next) force graceful (update_node next ∷ log)
            (n, h, inr (now log, refl)) (inl (n, now log, seen, refl), e))

  after_label-Fine :
      (force : Bool) (graceful : ℤ) (cleared : Bool)
      → Fine read_at
      → Fine
          (after_label api md5_hex parse_time format_time cluster_id vname force graceful cleared
            read_at).1
  unfolding after_label
  after_label-Fine force graceful false e = e
  after_label-Fine force graceful true e =
      with_virtual_node-Fine force graceful (virtual_node read_at vname)
        (get_virtual_node vname ∷ read_at) refl (tt, e)

  after_patch-Fine :
      (r : Reply) (log : List Call)
      → Fine log
      → Fine (after_patch api md5_hex parse_time format_time cluster_id r log).1
  unfolding after_patch
  after_patch-Fine done log e = e
  after_patch-Fine not_found log e = e
  after_patch-Fine already_exists log e = e
  after_patch-Fine refused log e = e

  clear_label-Fine :
      (physical_name : String) (answer : Fetch Node) (log : List Call)
      → Fine log
      → Fine (clear_label api md5_hex parse_time format_time cluster_id physical_name answer log).1
  unfolding clear_label
  clear_label-Fine physical_name missing log e = e
  clear_label-Fine physical_name failed log e = e
  clear_label-Fine physical_name (found n) log e =
      elim (Bool-cases (has label_policy_applied n.labels)) [
        | inr t ↦ rw t e
        | inl t ↦ rw t (after_patch-Fine (label_patched log physical_name none) _ (tt, e))
      ]

module _ (api : Api) (md5_hex : String → String) (parse_time : String → Option ℤ)
    (format_time : ℤ → String) (cluster_id physical_name : String) (force : Bool)
    (graceful : ℤ) where
  abbrev pub virtual_name : String
  virtual_name = vnode_name api md5_hex parse_time format_time cluster_id physical_name

  -- The calls that come before the virtual node is read.
  abbrev pub label_calls : List Call
  label_calls =
      (remove_policy_applied_label api md5_hex parse_time format_time cluster_id physical_name []).1

  -- Every call of a deletion is justified by those before it, whatever the API servers answer. The
  -- finalizer of the virtual node is removed only from a node that is already being deleted, and
  -- directly after a list of its pods that holds no pending or running one outside the system
  -- namespaces, the stop of its lease and the release of its port, in this order; and the lease is
  -- stopped and the port released only there. The node is otherwise written only to mark it; it is
  -- deleted only while it is not being deleted, by its own UID; each of these is the node that was
  -- read after the label was cleared, or that node marked; and a pod is evicted only if an earlier
  -- call listed it on the node, and it is not already being deleted.
  pub handle_node_deletion-Justified :
      Each api
        (Justified api md5_hex parse_time format_time cluster_id virtual_name label_calls)
        (handle_node_deletion api md5_hex parse_time format_time cluster_id physical_name force
          graceful []).1
  unfolding handle_node_deletion remove_policy_applied_label
  handle_node_deletion-Justified = elim (Bool-cases (cluster_id == "")) [
    | inl t ↦ rw t tt
    | inr t ↦ rw t (
        after_label-Fine api md5_hex parse_time format_time cluster_id virtual_name label_calls
          force graceful
          (remove_policy_applied_label api md5_hex parse_time format_time cluster_id physical_name
            []).0
          (clear_label-Fine api md5_hex parse_time format_time cluster_id virtual_name label_calls
            physical_name (api.physical_node [] physical_name)
            (get_physical_node physical_name ∷ []) (tt, tt)))
  ]
