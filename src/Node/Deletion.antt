-- ===== src/Node/Deletion.antt =====
-- physical_node_controller.go: handleNodeDeletion with addDeletionTaint, getDeletionTaintTime and
-- removePolicyAppliedLabel. `parse_time` and `format_time` are time.Parse and time.Format for
-- RFC 3339. The object that an Update returns is taken to be the one that was written, and the
-- clock to stand still between two calls.
pub mod Safety
pub mod Release
use kubeocean.Dict.{lookup, put, has}
use kubeocean.Effect.{M, ◌>>=◌, ◌>>◌, return, call}
use kubeocean.Kube.{Fetch, found, missing, failed, Reply, done, not_found, already_exists, refused}
use kubeocean.Names.{generate_virtual_node_name}
use kubeocean.Node.Calls.{
  Api, Call, get_physical_node, get_virtual_node, patch_policy_label, update_node, delete_node,
  stop_lease, release_port,
}
use kubeocean.Node.Defs.{
  Node, Taint, Outcome, finished, again, retry, seconds, vnode_deleting, deletion_taint_time, vnode,
}
use kubeocean.Node.Evict.{check_pods_on_virtual_node, force_evict_pods_on_virtual_node}
use kubeocean.Node.Merge.{has_key}
use kubeocean.Prelude.{
  Bool, true, false, not, ◌&&◌, Option, none, some, List, [], ◌∷◌, ◌++◌, String, str_dec, ◌==◌,
  ◌≠?◌, select, if◌then◌else◌,
}
use kubeocean.Prelude.Int.{ℤ, pos, ltb_ℤ, ◌-ℤ◌}

abbrev pub label_policy_applied : String
label_policy_applied = "kubeocean.io/policy-applied"

abbrev pub has_deletion_taint : Node → Bool
has_deletion_taint n = has_key vnode_deleting n.taints

-- controllerutil.RemoveFinalizer
unfoldable pub without_finalizer : Node → Node
without_finalizer n = record n {
  meta = record (n.meta) { finalizers = select (λ f. f ≠? vnode) n.finalizers };
}

abbrev pub is_zero_period : ℤ → Bool
is_zero_period z = not (ltb_ℤ z (pos 0)) && not (ltb_ℤ (pos 0) z)

module _ (api : Api) (md5_hex : String → String) (parse_time : String → Option ℤ)
    (format_time : ℤ → String) (cluster_id : String) where
  open api use {physical_node, virtual_node, label_patched, node_updated, node_deleted, now}

  abbrev pub vnode_name : String → String
  vnode_name physical_name = generate_virtual_node_name md5_hex cluster_id physical_name

  -- The node with the taint, shut to the scheduler, and with the time of it.
  unfoldable pub marked : Node → ℤ → Node
  marked n time = record n {
    meta = record (n.meta) {
      annotations = put deletion_taint_time (format_time time) n.annotations;
    };
    taints =
        if has_deletion_taint n
        then n.taints
        else n.taints
          ++ (record {
            key = vnode_deleting;
            value = "true";
            effect = "NoSchedule";
            time_added = none;
          }
              ∷ []);
    unschedulable = true;
  }

  after_mark : Node → Reply → M Call (Option Node)
  after_mark n done = return (some n)
  after_mark n _ = return none

  -- none is a failure to update.
  pub add_deletion_taint : Node → M Call (Option Node)
  unfolding after_mark
  add_deletion_taint n log =
      if has_deletion_taint n && n.unschedulable
      then return (some n) log
      else (let next = marked n (now log) in
          (do
            reply ← call (update_node next) (λ log'. node_updated log' next)
            after_mark next reply)
            log)

  pub get_deletion_taint_time : Node → Option ℤ
  get_deletion_taint_time n = elim (lookup str_dec deletion_taint_time n.annotations) [
    | none ↦ none
    | some text ↦ parse_time text
  ]

  after_patch : Reply → M Call Bool
  after_patch done = return true
  after_patch _ = return false

  clear_label : String → Fetch Node → M Call Bool
  unfolding after_patch
  clear_label physical_name missing = return true
  clear_label physical_name failed = return false
  clear_label physical_name (found n) =
      if not (has label_policy_applied n.labels) then return true else (do
        reply ←
            call (patch_policy_label physical_name none)
              (λ log. label_patched log physical_name none)
        after_patch reply)

  pub remove_policy_applied_label : String → M Call Bool
  unfolding clear_label
  remove_policy_applied_label physical_name = do
    answer ← call (get_physical_node physical_name) (λ log. physical_node log physical_name)
    clear_label physical_name answer

  ends_well : Reply → M Call Outcome
  ends_well done = return finished
  ends_well not_found = return finished
  ends_well _ = return retry

  -- Step 4.
  release_node : String → Node → M Call Outcome
  unfolding ends_well
  release_node vname n = do
    _ ← call (stop_lease vname) (λ log. tt)
    _ ← call (release_port vname) (λ log. tt)
    reply ← call (update_node (without_finalizer n)) (λ log. node_updated log (without_finalizer n))
    ends_well reply

  -- Step 3.
  finish : String → Node → Option Bool → M Call Outcome
  unfolding release_node
  finish vname n none = return retry
  finish vname n (some true) = return (again (seconds (pos 10)))
  finish vname n (some false) = release_node vname n

  after_eviction : String → Node → Bool → M Call Outcome
  unfolding finish
  after_eviction vname n false = return retry
  after_eviction vname n true = do held ← check_pods_on_virtual_node api vname; finish vname n held

  evict_now : String → Node → M Call Outcome
  unfolding after_eviction
  evict_now vname n = do
    well ← force_evict_pods_on_virtual_node api vname false
    after_eviction vname n well

  evict_in_time : String → Node → ℤ → Option ℤ → M Call Outcome
  unfolding evict_now
  evict_in_time vname n graceful none log = return retry log
  evict_in_time vname n graceful (some since) log =
      let elapsed = now log -ℤ since in
      if ltb_ℤ elapsed (seconds graceful)
      then return (again (seconds graceful -ℤ elapsed)) log
      else evict_now vname n log

  -- Step 2.
  reclaim : String → Node → Bool → ℤ → M Call Outcome
  unfolding evict_in_time
  reclaim vname n force graceful =
      if not force
      then after_eviction vname n true
      else if is_zero_period graceful
      then evict_now vname n
      else evict_in_time vname n graceful (get_deletion_taint_time n)

  -- Steps 1.5 and on, for a node that has the taint.
  delete_or_reclaim : String → Bool → ℤ → Option Node → M Call Outcome
  unfolding reclaim ends_well
  delete_or_reclaim vname force graceful none = return retry
  delete_or_reclaim vname force graceful (some n) =
      if not n.deleting
      then (do
        reply ← call (delete_node n.name n.uid) (λ log. node_deleted log n.name n.uid)
        ends_well reply)
      else reclaim vname n force graceful

  -- Step 1.
  with_virtual_node : String → Bool → ℤ → Fetch Node → M Call Outcome
  unfolding delete_or_reclaim
  with_virtual_node vname force graceful missing = return finished
  with_virtual_node vname force graceful failed = return retry
  with_virtual_node vname force graceful (found n) = do
    tainted ← if has_deletion_taint n then return (some n) else add_deletion_taint n
    delete_or_reclaim vname force graceful tainted

  after_label : String → Bool → ℤ → Bool → M Call Outcome
  unfolding with_virtual_node
  after_label vname force graceful false = return retry
  after_label vname force graceful true = do
    answer ← call (get_virtual_node vname) (λ log. virtual_node log vname)
    with_virtual_node vname force graceful answer

  pub handle_node_deletion : String → Bool → ℤ → M Call Outcome
  unfolding after_label
  handle_node_deletion physical_name force graceful = if cluster_id == "" then return retry else (do
    cleared ← remove_policy_applied_label physical_name
    after_label (vnode_name physical_name) force graceful cleared)
