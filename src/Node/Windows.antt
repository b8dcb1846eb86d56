-- ===== src/Node/Windows.antt =====
-- physical_node_controller.go: handleOutOfTimeWindows. The interval after which a node is looked at
-- again is DefaultNodeSyncInterval.
use kubeocean.Effect.{M, ◌>>=◌, return, call}
use kubeocean.Kube.{Fetch, found, missing, failed}
use kubeocean.Node.Calls.{Api, Call, BoundPod, get_virtual_node, delete_pod, tolerates_windows}
use kubeocean.Node.Defs.{Node, Taint, Policy, Outcome, finished, again, retry, seconds}
use kubeocean.Node.Deletion.{is_zero_period}
use kubeocean.Node.Evict.{force_evict_pods_on_virtual_node, force_evict-made}
use kubeocean.Node.Merge.{is_out_of_windows}
use kubeocean.Prelude.{
  ◌≡◌, refl, Bool, true, false, not, Option, none, some, List, ◌∷◌, String, arith, find, Any, to_==,
  if◌then◌else◌,
}
use kubeocean.Prelude.Int.{ℤ, pos, ltb_ℤ, ◌-ℤ◌}

abbrev pub sync_interval : ℤ
sync_interval = seconds (pos 300)

module _ (api : Api) where
  open api use {virtual_node, now}

  after_window_eviction : Bool → M Call Outcome
  after_window_eviction true = return (again sync_interval)
  after_window_eviction false = return retry

  -- Pods that tolerate the taint stay, since they would only be made again.
  evict_intolerant : String → M Call Outcome
  unfolding after_window_eviction
  evict_intolerant vname = do
    well ← force_evict_pods_on_virtual_node api vname true
    after_window_eviction well

  -- By the first taint of the time windows that the node has.
  by_window_taint : String → ℤ → Option Taint → M Call Outcome
  unfolding evict_intolerant
  by_window_taint vname graceful none log = return retry log
  by_window_taint vname graceful (some taint) log = elim taint.time_added [
    | none ↦ evict_intolerant vname log
    | some added ↦
        (let elapsed = now log -ℤ added in
          if not (ltb_ℤ elapsed (seconds graceful))
          then evict_intolerant vname log
          else return (again (seconds graceful -ℤ elapsed)) log)
  ]

module _ {Selector : Type 0} (api : Api) where
  open api use {virtual_node, now, pods}

  handle_found : String → Policy Selector → Node → M Call Outcome
  unfolding by_window_taint
  handle_found vname policy n =
      if not policy.force_reclaim
      then return (again sync_interval)
      else if is_zero_period policy.graceful_period
      then evict_intolerant api vname
      else by_window_taint api vname policy.graceful_period (find is_out_of_windows n.taints)

  handle_answer : String → Policy Selector → Fetch Node → M Call Outcome
  unfolding handle_found
  handle_answer vname policy missing = return finished
  handle_answer vname policy failed = return retry
  handle_answer vname policy (found n) = handle_found vname policy n

  pub handle_out_of_time_windows : String → Policy Selector → M Call Outcome
  unfolding handle_answer
  handle_out_of_time_windows vname policy = do
    answer ← call (get_virtual_node vname) (λ log. virtual_node log vname)
    handle_answer vname policy answer

  -- Under a policy that forces the reclaim after a graceful period that is not zero, once the
  -- period since the time of the node's taint is over: the handler makes the calls of one forced
  -- eviction, and looks at the node again after the interval if every eviction went well, and else
  -- retries. In these calls each listed pod of the node that is not being deleted and does not tolerate
  -- the taint is asked to be deleted, whatever the server answers for the others.
  pub handle_out_of_time_windows-evicts :
      (vname : String) (policy : Policy Selector) (n : Node) (taint : Taint) (added : ℤ)
      (log : List Call)
      → virtual_node log vname ≡ found n
      → policy.force_reclaim ≡ true
      → is_zero_period policy.graceful_period ≡ false
      → find is_out_of_windows n.taints ≡ some taint
      → taint.time_added ≡ some added
      → ltb_ℤ (now (get_virtual_node vname ∷ log) -ℤ added) (seconds policy.graceful_period) ≡ false
      → let (well, calls) =
          force_evict_pods_on_virtual_node api vname true (get_virtual_node vname ∷ log) in
        (handle_out_of_time_windows vname policy log
          ≡ ((if well then again sync_interval else retry), calls))
        × ((list : List BoundPod) (pod : BoundPod)
            → pods (get_virtual_node vname ∷ log) vname ≡ some list
            → Any (λ p. p ≡ pod) list
            → pod.node_name ≡ vname
            → pod.deleting ≡ false
            → tolerates_windows pod ≡ false
            → Any (λ c. c ≡ delete_pod pod) calls)
  unfolding handle_out_of_time_windows handle_found by_window_taint evict_intolerant
  handle_out_of_time_windows-evicts vname policy n taint added log seen forces positive tainted
        timed late =
      (
        rw seen (
            rw (forces, positive)
              (rw tainted (
                rw timed (
                  rw late (
                    by_result (
                      force_evict_pods_on_virtual_node api vname true
                        (get_virtual_node vname ∷ log))))))),
        λ list pod listed m at alive bad.
            force_evict-made api vname true list pod (get_virtual_node vname ∷ log) listed m
              (ground (arith, to_== pod.node_name vname at, alive, bad)),
      )
    where
      by_result :
          (r : Bool × List Call)
          → after_window_eviction api r.0 r.1 ≡ ((if r.0 then again sync_interval else retry), r.1)
      by_result (true, calls) = refl
      by_result (false, calls) = refl
