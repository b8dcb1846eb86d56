-- ===== src/Node/Deletion/Release.antt =====
-- handleNodeDeletion: that a virtual node which is empty goes.
use kubeocean.Effect.{◌>>=◌, call}
use kubeocean.Kube.{missing, found, Reply, done, not_found, already_exists, refused}
use kubeocean.Node.Calls.{
  Api, Call, BoundPod, get_physical_node, get_virtual_node, list_pods, update_node, stop_lease,
  release_port, holds_node, delete_node,
}
use kubeocean.Node.Defs.{Node, Outcome, finished, retry, vnode}
use kubeocean.Node.Deletion.{
  vnode_name, without_finalizer, has_deletion_taint, handle_node_deletion,
  remove_policy_applied_label, ends_well, finish, release_node, after_eviction, reclaim,
  delete_or_reclaim, with_virtual_node, clear_label, after_label,
}
use kubeocean.Node.Evict.{check_pods_on_virtual_node}
use kubeocean.Prelude.{
  ◌≡◌, refl, Bool, true, false, Option, some, List, [], ◌∷◌, String, any, arith, ◌==◌, ◌≠?◌, select,
  not, if◌then◌else◌,
}
use kubeocean.Prelude.Int.{ℤ}

no_finalizer : (fs : List String) → any (λ f. f == vnode) (select (λ f. f ≠? vnode) fs) ≡ false
no_finalizer [] = refl
no_finalizer (f ∷ fs) = ground (arith, no_finalizer fs)

others_kept :
    (fs : List String)
    → select (λ f. not (f == vnode)) (select (λ f. f ≠? vnode) fs)
      ≡ select (λ f. not (f == vnode)) fs
others_kept [] = refl
others_kept (f ∷ fs) = ground (arith, others_kept fs)

-- The outcome of an update that the server answers.
abbrev pub update_outcome : Reply → Outcome
update_outcome done = finished
update_outcome not_found = finished
update_outcome already_exists = retry
update_outcome refused = retry

module _ (api : Api) (md5_hex : String → String) (parse_time : String → Option ℤ)
    (format_time : ℤ → String) (cluster_id physical_name : String) where
  open api use {physical_node, virtual_node, pods, node_updated, node_deleted}

  ends_well_outcome :
      (r : Reply) (log : List Call)
      → ends_well api md5_hex parse_time format_time cluster_id r log ≡ (update_outcome r, log)
  unfolding ends_well
  ends_well_outcome done log = refl
  ends_well_outcome not_found log = refl
  ends_well_outcome already_exists log = refl
  ends_well_outcome refused log = refl

  delete_or_reclaim_releases :
      (vname : String) (n : Node) (list : List BoundPod) (graceful : ℤ) (log : List Call)
      → n.deleting ≡ true
      → pods log vname ≡ some list
      → any (holds_node vname) list ≡ false
      → let released = release_port vname ∷ stop_lease vname ∷ list_pods vname ∷ log in
        delete_or_reclaim api md5_hex parse_time format_time cluster_id vname false graceful
          (some n)
          log
        ≡ (
          update_outcome (node_updated released (without_finalizer n)),
          update_node (without_finalizer n) ∷ released,
        )
  unfolding delete_or_reclaim reclaim after_eviction check_pods_on_virtual_node finish release_node
  delete_or_reclaim_releases vname n list graceful log deleting listed empty =
      by_deleting n.deleting deleting
    where
      released : List Call
      released = release_port vname ∷ stop_lease vname ∷ list_pods vname ∷ log

      by_deleting :
          (b : Bool)
          → b ≡ true
          → (if not b
                then (do
                  reply ← call (delete_node n.name n.uid) (λ l. node_deleted l n.name n.uid)
                  ends_well api md5_hex parse_time format_time cluster_id reply)
                else reclaim api md5_hex parse_time format_time cluster_id vname n false graceful)
              log
            ≡ (
              update_outcome (node_updated released (without_finalizer n)),
              update_node (without_finalizer n) ∷ released,
            )
      by_deleting false e = absurd (cc)
      by_deleting true e =
          rw listed (rw empty (ends_well_outcome (node_updated released (without_finalizer n)) _))

  -- For a binding with a cluster id, a virtual node of a physical node that is gone, which has the
  -- taint of the deletion, is being deleted and is held by no pod of the list, is let go by one
  -- deletion without force. The pods are listed, the lease is stopped, the port released and the
  -- node written without the virtual node's finalizer, with its other finalizers in their order and
  -- with its name and UID; the deletion ends well exactly if the server accepts that update or no
  -- longer knows the node.
  pub handle_node_deletion_releases :
      (n : Node) (list : List BoundPod) (graceful : ℤ)
      → (cluster_id == "") ≡ false
      → physical_node [] physical_name ≡ missing
      → let vname = vnode_name api md5_hex parse_time format_time cluster_id physical_name in
        let reads = get_virtual_node vname ∷ get_physical_node physical_name ∷ [] in
        let released = release_port vname ∷ stop_lease vname ∷ list_pods vname ∷ reads in
        virtual_node (get_physical_node physical_name ∷ []) vname ≡ found n
        → has_deletion_taint n ≡ true
        → n.deleting ≡ true
        → pods reads vname ≡ some list
        → any (holds_node vname) list ≡ false
        → (written : Node) × (handle_node_deletion api md5_hex parse_time format_time cluster_id
              physical_name false graceful []
            ≡ (update_outcome (node_updated released written), update_node written ∷ released))
          × (any (λ f. f == vnode) written.finalizers ≡ false)
          × (select (λ f. not (f == vnode)) written.finalizers
              ≡ select (λ f. not (f == vnode)) n.finalizers)
          × (written.name ≡ n.name)
          × (written.uid ≡ n.uid)
  unfolding handle_node_deletion remove_policy_applied_label clear_label after_label
      with_virtual_node without_finalizer
  handle_node_deletion_releases n list graceful known gone seen tainted deleting listed empty = (
    without_finalizer n,
    rw (known, gone)
        (rw seen (
          rw tainted (
            delete_or_reclaim_releases
              (vnode_name api md5_hex parse_time format_time cluster_id physical_name) n list
              graceful _ deleting listed empty))),
    no_finalizer n.finalizers,
    others_kept n.finalizers,
    refl,
    refl,
  )
