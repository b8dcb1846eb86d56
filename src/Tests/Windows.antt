-- ===== src/Tests/Windows.antt =====
-- The choice of a policy, and a node outside its time windows.
use Prim.Native.String.{compare}
use text.Mathlib.Text.{is_lt}
use kubeocean.Kube.{Reply, found}
use kubeocean.Node.Calls.{Api, BoundPod, get_virtual_node, delete_pod, tolerates_windows}
use kubeocean.Node.Defs.{Node, Taint, Policy, again, retry, seconds, out_of_time_windows}
use kubeocean.Node.Evict.{force_evict_pods_on_virtual_node}
use kubeocean.Node.Selection.{
  Term, get_applicable_policies, select_policy, Applies, is_earlier, IsSorted, matches_selector,
  selected_policy-IsEarliest, node_matches_combined_selector,
}
use kubeocean.Node.Windows.{
  handle_out_of_time_windows, handle_out_of_time_windows-evicts, sync_interval,
}
use kubeocean.Prelude.{
  ◌≡◌, refl, true, false, none, some, List, [], ◌∷◌, String, str_dec, Any, inl, inr, if◌then◌else◌,
  subst, All,
}
use kubeocean.Prelude.Int.{ℤ, pos, ◌-ℤ◌, ltb_ℤ}

abbrev policy_of : String → ℤ → Policy (List (Term String))
policy_of name created = record {
  name = name;
  created = created;
  deleting = false;
  cluster = "c1";
  node_selector = none;
  time_windows = [];
  force_reclaim = true;
  graceful_period = pos 60;
}

abbrev tainted_node : Node
tainted_node = record {
  meta = record {
    namespace = "";
    name = "vnode-c1-n1";
    uid = "u1";
    labels = [];
    annotations = [];
    finalizers = [];
    deleting = false;
  };
  taints =
      record {
        key = out_of_time_windows;
        value = "true";
        effect = "NoExecute";
        time_added = some (pos 0);
      }
      ∷ [];
  unschedulable = false;
}

abbrev api_at : ℤ → Api
api_at time = record {
  physical_node = λ log name. found tainted_node;
  virtual_node = λ log name. found tainted_node;
  pods = λ log name. some [];
  label_patched = λ log name value. Reply.done;
  node_updated = λ log n. Reply.done;
  node_deleted = λ log name uid. Reply.done;
  pod_deleted = λ log pod. Reply.done;
  now = λ log. time;
}

abbrev first_taint : Taint
first_taint = record {
  key = out_of_time_windows;
  value = "true";
  effect = "NoExecute";
  time_added = some (pos 0);
}

handle_out_of_time_windows-evicts_example :
    let (well, calls) =
      force_evict_pods_on_virtual_node
        (api_at (seconds (pos 90)))
        "vnode-c1-n1"
        true
        (get_virtual_node "vnode-c1-n1" ∷ []) in
    (handle_out_of_time_windows
        (api_at (seconds (pos 90)))
        "vnode-c1-n1"
        (policy_of "night" (pos 1))
        []
      ≡ ((if well then again sync_interval else retry), calls))
    × ((list : List BoundPod) (pod : BoundPod)
        → some [] ≡ some list
        → Any (λ p. p ≡ pod) list
        → pod.node_name ≡ "vnode-c1-n1"
        → pod.deleting ≡ false
        → tolerates_windows pod ≡ false
        → Any (λ c. c ≡ delete_pod pod) calls)
unfolding str_dec ◌-ℤ◌
handle_out_of_time_windows-evicts_example =
    handle_out_of_time_windows-evicts (api_at (seconds (pos 90))) "vnode-c1-n1"
      (policy_of "night" (pos 1)) tainted_node first_taint (pos 0) [] refl refl refl refl refl refl

abbrev older : Policy (List (Term String))
older = policy_of "b" (pos 1)

abbrev newer : Policy (List (Term String))
newer = policy_of "a" (pos 2)

-- The order of two policies that came the other way round.
abbrev sort : List (Policy (List (Term String))) → List (Policy (List (Term String)))
sort policies = older ∷ newer ∷ []

swap :
    (P : Policy (List (Term String)) → Type 0) (a b : Policy (List (Term String)))
    → Any P (a ∷ b ∷ [])
    → Any P (b ∷ a ∷ [])
swap P a b (inl x) = inr (inl x)
swap P a b (inr (inl y)) = inl y
swap P a b (inr (inr z)) = elim z [ ]

abbrev Ordered : List (Policy (List (Term String))) → Type 0
Ordered [] = Unit
Ordered (p ∷ rest) = All (λ q. is_earlier q p ≡ false) rest

sorted : IsSorted (newer ∷ older ∷ []) (sort (newer ∷ older ∷ []))
sorted = record {
  kept = λ p. (swap (λ q. q ≡ p) older newer, swap (λ q. q ≡ p) newer older);
  ordered = λ p rest e. subst Ordered e (refl, tt);
}

selected_policy-IsEarliest_example :
    Any (λ q. q ≡ older) (newer ∷ older ∷ [])
    × Applies (λ r n. true) (λ r n. true) "c1" tainted_node none older
    × ((q : Policy (List (Term String)))
        → Any (λ r. r ≡ q) (newer ∷ older ∷ [])
        → Applies (λ r n. true) (λ r n. true) "c1" tainted_node none q
        → (ltb_ℤ q.created (pos 1) ≡ false)
          × (q.created ≡ pos 1 → is_lt (compare q.name "b") ≡ false))
unfolding get_applicable_policies select_policy node_matches_combined_selector matches_selector
    str_dec
selected_policy-IsEarliest_example =
    selected_policy-IsEarliest (λ r n. true) (λ r n. true) sort "c1" tainted_node none
      (newer ∷ older ∷ []) (newer ∷ older ∷ []) older refl sorted refl
