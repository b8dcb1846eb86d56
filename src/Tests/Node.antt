-- ===== src/Tests/Node.antt =====
-- A virtual node that is merged, tainted and deleted.
use kubeocean.Dict.{lookup, has}
use kubeocean.Kube.{found, missing, done}
use kubeocean.Names.{generate_virtual_node_name}
use kubeocean.Node.Calls.{
  Api, BoundPod, get_virtual_node, get_physical_node, list_pods, update_node, stop_lease,
  release_port, holds_node, is_system_namespace,
}
use kubeocean.Node.Defs.{vnode, Node, Taint, Policy, out_of_time_windows, vnode_deleting}
use kubeocean.Node.Deletion.Release.{handle_node_deletion_releases, update_outcome}
use kubeocean.Node.Deletion.{handle_node_deletion, vnode_name}
use kubeocean.Node.Deletion.Safety.{
  Justified, handle_node_deletion-Justified, virtual_name, label_calls,
}
use kubeocean.Node.Evict.{Each}
use kubeocean.Node.Expected.{
  Codec, IsReadAgain, expected_of, update_metadata, update_metadata_total, update_metadata-twice,
}
use kubeocean.Node.Merge.{merge_taints, taint_time, has_key, or_else}
use kubeocean.Node.Taints.{
  transform_taints, transform_taints-windows, is_outside, merge_taints-keeps_time,
}
use kubeocean.Prelude.{
  any, not, select, ◌==◌, ◌≡◌, refl, true, false, Option, none, some, List, [], ◌∷◌, String,
  str_dec, All, if◌then◌else◌,
}
use kubeocean.Prelude.Int.{ℤ, pos}

abbrev taint_of : String → Option ℤ → Taint
taint_of key time = record { key = key; value = ""; effect = "NoSchedule"; time_added = time }

abbrev node_of : List (String × String) → List Taint → Node
node_of labels taints = record {
  meta = record {
    namespace = "";
    name = "vnode-c1-n1";
    uid = "u1";
    labels = labels;
    annotations = [];
    finalizers = "kubeocean.io/vnode" ∷ [];
    deleting = true;
  };
  taints = taints;
  unschedulable = false;
}

abbrev doomed : Node
doomed = node_of [] (taint_of vnode_deleting none ∷ [])

-- One pod that has ended, and that no list shows twice.
abbrev ended_pod : BoundPod
ended_pod = record {
  namespace = "default";
  name = "job";
  uid = "p1";
  node_name = "vnode-c1-n1";
  phase = "Succeeded";
  deleting = false;
  tolerations = [];
}

abbrev api : Api
api = record {
  physical_node = λ log name. missing;
  virtual_node = λ log name. found doomed;
  pods = λ log name. some (ended_pod ∷ []);
  label_patched = λ log name value. done;
  node_updated = λ log n. done;
  node_deleted = λ log name uid. done;
  pod_deleted = λ log pod. done;
  now = λ log. pos 0;
}

handle_node_deletion-Justified_example :
    Each api
      (Justified api
        (λ s. s)
        (λ s. none)
        (λ t. "")
        "c1"
        (virtual_name api (λ s. s) (λ s. none) (λ t. "") "c1" "n1" true (pos 0))
        (label_calls api (λ s. s) (λ s. none) (λ t. "") "c1" "n1" true (pos 0)))
      (handle_node_deletion api (λ s. s) (λ s. none) (λ t. "") "c1" "n1" true (pos 0) []).1
handle_node_deletion-Justified_example =
    handle_node_deletion-Justified api (λ s. s) (λ s. none) (λ t. "") "c1" "n1" true (pos 0)

abbrev policy : Policy String
policy = record {
  name = "night";
  created = pos 1;
  deleting = false;
  cluster = "c1";
  node_selector = none;
  time_windows = record { start = 48 ∷ []; end = 49 ∷ []; days = "monday" ∷ [] } ∷ [];
  force_reclaim = true;
  graceful_period = pos 60;
}

transform_taints-windows_example :
    has_key out_of_time_windows (
      transform_taints
        (λ s. s)
        (taint_of out_of_time_windows none ∷ [])
        false
        (some policy)
        "sunday"
        (48 ∷ [])
        (pos 7))
    ≡ is_outside (λ s. s) (some policy) "sunday" (48 ∷ [])
transform_taints-windows_example =
    transform_taints-windows (λ s. s) (taint_of out_of_time_windows none ∷ []) false (some policy)
      "sunday" (48 ∷ []) (pos 7)

merge_taints-keeps_time_example :
    let merged =
      merge_taints
        (taint_of out_of_time_windows (some (pos 5)) ∷ taint_of "mine" none ∷ [])
        []
        (taint_of out_of_time_windows (some (pos 9)) ∷ []) in
    (has_key out_of_time_windows merged ≡ true)
    × All (λ x. x.key ≡ out_of_time_windows → x.time_added ≡ some (pos 5)) merged
unfolding taint_time str_dec
merge_taints-keeps_time_example =
    merge_taints-keeps_time
      (taint_of out_of_time_windows (some (pos 5)) ∷ taint_of "mine" none ∷ []) []
      (taint_of out_of_time_windows (some (pos 9)) ∷ []) (pos 5) refl refl

abbrev first_node : Node
first_node = node_of (("zone", "a") ∷ []) []

abbrev second_node : Node
second_node = node_of [] []

-- A codec for the one value that is written.
abbrev codec : Codec
codec = record {
  encode = λ x. "e";
  decode = λ text. some (record { labels = ("zone", "a") ∷ []; annotations = []; taints = [] });
}

abbrev read_again : IsReadAgain codec (expected_of codec first_node)
read_again = record {
  again = record { labels = ("zone", "a") ∷ []; annotations = []; taints = [] };
  reads = refl;
  same_labels = refl;
  same_annotations = refl;
  same_keys = refl;
}

abbrev first_update : (n : Node) × (update_metadata codec second_node first_node ≡ some n)
first_update = update_metadata_total codec second_node first_node (λ text. (_, refl))

-- The user takes the zone for something else, and adds a label.
abbrev edited_node : Node
edited_node = record (first_update.0) {
  meta = record (first_update.0.meta) { labels = ("zone", "b") ∷ ("mine", "1") ∷ [] };
}

abbrev second_update : (n : Node) × (update_metadata codec edited_node second_node ≡ some n)
second_update = update_metadata_total codec edited_node second_node (λ text. (_, refl))

update_metadata-twice_example :
    lookup str_dec "mine" second_update.0.labels
    ≡ or_else
        (lookup str_dec "mine" second_node.labels)
        (if has "mine" first_node.labels then none else lookup str_dec "mine" edited_node.labels)
unfolding lookup str_dec
update_metadata-twice_example =
    update_metadata-twice codec second_node first_node first_update.0 edited_node second_node
      second_update.0 "mine" read_again tt tt (refl, (refl, tt)) tt first_update.1 refl
      second_update.1

handle_node_deletion_releases_example :
    let vname = vnode_name api (λ s. s) (λ s. none) (λ t. "") "c1" "n1" in
    let reads = get_virtual_node vname ∷ get_physical_node "n1" ∷ [] in
    let released = release_port vname ∷ stop_lease vname ∷ list_pods vname ∷ reads in
    (written : Node) × (handle_node_deletion api
        (λ s. s)
        (λ s. none)
        (λ t. "")
        "c1"
        "n1"
        false
        (pos 0)
        []
      ≡ (update_outcome (api.node_updated released written), update_node written ∷ released))
    × (any (λ f. f == vnode) written.finalizers ≡ false)
    × (select (λ f. not (f == vnode)) written.finalizers
        ≡ select (λ f. not (f == vnode)) doomed.finalizers)
    × (written.name ≡ doomed.name)
    × (written.uid ≡ doomed.uid)
unfolding str_dec holds_node is_system_namespace generate_virtual_node_name
handle_node_deletion_releases_example =
    handle_node_deletion_releases api (λ s. s) (λ s. none) (λ t. "") "c1" "n1" doomed
      (ended_pod ∷ []) (pos 0) refl refl refl refl refl refl refl
