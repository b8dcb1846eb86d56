-- ===== src/VirtualPod/Checks/Safe.antt =====
-- What the tests of the controller of virtual pods call, and what follows from their results.
use kubeocean.Effect.Keeps.{Keeps, if-Keeps}
use kubeocean.Effect.{return}
use kubeocean.Prelude.{
  ◌≡◌, Bool, true, false, not, ◌||◌, List, ◌∷◌, String, ◌==◌, arith, if◌then◌else◌,
}
use kubeocean.VirtualPod.Allowed.{IsQuiet}
use kubeocean.VirtualPod.Build.{Env}
use kubeocean.VirtualPod.Checks.{
  is_system_pod, is_daemon_set_pod, is_fake, managed, managed_by_node, elsewhere,
  should_manage_virtual_pod, is_running_daemonset_by_default, should_create_physical_pod,
  by_default,
}
use kubeocean.VirtualPod.Defs.{Pod, Call, get_virtual_node, get_cluster_binding}

module _ {Ephemeral : Type 0} (env : Env Ephemeral) (virtual : Pod Ephemeral) where
  open env use {config, api}
  open config use {cluster_name}
  open api use {virtual_node, runs_daemonsets}

  pub managed_by_node-result :
      (node : String) (log : List (Call Ephemeral))
      → (should_manage_virtual_pod env virtual log).0 ≡ managed node
      → managed_by_node env (virtual_node log virtual.node_name) ≡ managed node
  unfolding should_manage_virtual_pod
  managed_by_node-result node log e = by_name (virtual.node_name == "") e
    where
      by_name :
          (b : Bool)
          → ((if b then return elsewhere else (λ l. (
            managed_by_node env (virtual_node l virtual.node_name),
            get_virtual_node virtual.node_name ∷ l,
          )))
              log).0
            ≡ managed node
          → managed_by_node env (virtual_node log virtual.node_name) ≡ managed node
      by_name true h = absurd (ground (arith, h))
      by_name false h = h

  -- A physical pod is made neither for a system pod nor for one that only holds host ports.
  pub should_create-result :
      (log : List (Call Ephemeral))
      → (should_create_physical_pod env virtual log).0 ≡ true
      → (is_system_pod virtual ≡ false) × (is_fake env virtual ≡ false)
  unfolding should_create_physical_pod
  should_create-result log e =
      by_tests (virtual.node_name == "") (is_system_pod virtual) (is_daemon_set_pod virtual) e
    where
      by_tests :
          (n s d : Bool)
          → ((if n || s
                then return false
                else if d
                then (λ l. (
                  by_default env virtual (is_running_daemonset_by_default env l).0,
                  (is_running_daemonset_by_default env l).1,
                ))
                else return (not (is_fake env virtual)))
              log).0
            ≡ true
          → (s ≡ false) × (is_fake env virtual ≡ false)
      by_tests n s d h = ground (arith, h)

  module _ (P : Call Ephemeral → Type 0) (quiet : (c : Call Ephemeral) → IsQuiet c → P c) where
    pub should_manage-Keeps : Keeps P (should_manage_virtual_pod env virtual)
    unfolding should_manage_virtual_pod
    should_manage-Keeps =
        if-Keeps P (virtual.node_name == "") _ _ (λ e log h. h)
          (λ e log h. (quiet (get_virtual_node virtual.node_name) tt, h))

    is_running-Keeps : Keeps P (is_running_daemonset_by_default env)
    unfolding is_running_daemonset_by_default
    is_running-Keeps =
        if-Keeps P (cluster_name == "") _ _ (λ e log h. h)
          (λ e log h. (quiet (get_cluster_binding cluster_name) tt, h))

    pub should_create-Keeps : Keeps P (should_create_physical_pod env virtual)
    unfolding should_create_physical_pod
    should_create-Keeps =
        if-Keeps P (virtual.node_name == "" || is_system_pod virtual) _ _ (λ e log h. h)
          (λ e.
            if-Keeps P (is_daemon_set_pod virtual) _ _ (λ e1 log h. is_running-Keeps log h)
              (λ e1 log h. h))
