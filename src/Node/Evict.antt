-- ===== src/Node/Evict.antt =====
-- physical_node_controller.go: checkPodsOnVirtualNode and forceEvictPodsOnVirtualNode.
use kubeocean.Effect.{M, ◌>>=◌, return, call}
use kubeocean.Kube.{Reply, done, not_found}
use kubeocean.Node.Calls.{Api, Call, BoundPod, list_pods, delete_pod, holds_node, tolerates_windows}
use kubeocean.Prelude.{
  ◌⊎◌, ◌≡◌, refl, Bool, true, false, not, ◌&&◌, Option, none, some, List, [], ◌∷◌, String, ◌==◌,
  any, if◌then◌else◌, Bool-cases, inl, inr, Any, ap,
}

module _ (api : Api) where
  open api use {pods, pod_deleted}

  abbrev pub any_holds : String → Option (List BoundPod) → Option Bool
  any_holds vname none = none
  any_holds vname (some list) = some (any (holds_node vname) list)

  -- none is a failure to list.
  unfoldable pub check_pods_on_virtual_node : String → M Call (Option Bool)
  check_pods_on_virtual_node vname = do
    list ← call (list_pods vname) (λ log. pods log vname)
    return (any_holds vname list)

  abbrev pub is_evicted : String → Bool → BoundPod → Bool
  is_evicted vname skip pod =
      pod.node_name == vname && (not pod.deleting && not (skip && tolerates_windows pod))

  abbrev accepted : Reply → Bool
  accepted done = true
  accepted not_found = true
  accepted _ = false

  evict_pod : String → Bool → BoundPod → M Call Bool
  evict_pod vname skip pod =
      if is_evicted vname skip pod
      then (do reply ← call (delete_pod pod) (λ log. pod_deleted log pod); return (accepted reply))
      else return true

  -- The loop goes on after a failure; whether all went well is known at its end.
  evict_all : String → Bool → List BoundPod → M Call Bool
  unfolding evict_pod
  evict_all vname skip [] = return true
  evict_all vname skip (pod ∷ list) = do
    well ← evict_pod vname skip pod
    rest ← evict_all vname skip list
    return (well && rest)

  evict_listed : String → Bool → Option (List BoundPod) → M Call Bool
  unfolding evict_all
  evict_listed vname skip none = return false
  evict_listed vname skip (some list) = evict_all vname skip list

  pub force_evict_pods_on_virtual_node : String → Bool → M Call Bool
  unfolding evict_listed
  force_evict_pods_on_virtual_node vname skip = do
    list ← call (list_pods vname) (λ log. pods log vname)
    evict_listed vname skip list

  -- A property of every call, given the calls before it.
  abbrev pub Each : (Call → List Call → Type 0) → List Call → Type 0
  Each J [] = Unit
  Each J (c ∷ log) = J c log × Each J log

  -- The calls `before` were made, and perhaps others after them.
  abbrev pub Follows : List Call → List Call → Type 0
  Follows before [] = before ≡ []
  Follows before (c ∷ log) = (before ≡ c ∷ log) ⊎ Follows before log

  -- The pod was listed for the node by one of the calls, and is one to evict.
  abbrev pub Listed : String → Bool → BoundPod → List Call → Type 0
  Listed vname skip pod log =
      (before : List Call) × Follows (list_pods vname ∷ before) log
      × (list : List BoundPod) × (pods before vname ≡ some list)
      × Any (λ p. p ≡ pod) list
      × (is_evicted vname skip pod ≡ true)

  module _ (J : Call → List Call → Type 0) (vname : String) (skip : Bool)
      (reads : (log : List Call) → J (list_pods vname) log)
      (evicts : (pod : BoundPod) (log : List Call)
        → Listed vname skip pod log
        → J (delete_pod pod) log) where
    module _ (before : List Call) (listed : List BoundPod)
        (answered : pods before vname ≡ some listed) where
      evict_all-Each :
          (list : List BoundPod) (log : List Call)
          → ((pod : BoundPod) → Any (λ p. p ≡ pod) list → Any (λ p. p ≡ pod) listed)
          → Follows (list_pods vname ∷ before) log
          → Each J log
          → Each J (evict_all vname skip list log).1
      unfolding evict_all evict_pod
      evict_all-Each [] log f s e = e
      evict_all-Each (pod ∷ list) log f s e = elim (Bool-cases (is_evicted vname skip pod)) [
        | inl t ↦ rw t (
            evict_all-Each list (delete_pod pod ∷ log) (λ p a. f p (inr a)) (inr s)
              (evicts pod log (before, s, listed, answered, f pod (inl refl), t), e))
        | inr t ↦ rw t (evict_all-Each list log (λ p a. f p (inr a)) s e)
      ]

    pub force_evict-Each :
        (log : List Call) → Each J log → Each J (force_evict_pods_on_virtual_node vname skip log).1
    unfolding force_evict_pods_on_virtual_node evict_listed
    force_evict-Each log e = by_list (pods log vname) refl
      where
        by_list :
            (o : Option (List BoundPod))
            → pods log vname ≡ o
            → Each J (evict_listed vname skip o (list_pods vname ∷ log)).1
        by_list none h = (reads log, e)
        by_list (some list) h =
            evict_all-Each log list h list (list_pods vname ∷ log) (λ p a. a) (inl refl)
              (reads log, e)

  -- A call that was made is still there after more of them.
  kept_made :
      (vname : String) (skip : Bool) (c : Call) (list : List BoundPod) (log : List Call)
      → Any (λ d. d ≡ c) log
      → Any (λ d. d ≡ c) (evict_all vname skip list log).1
  unfolding evict_all evict_pod
  kept_made vname skip c [] log m = m
  kept_made vname skip c (pod ∷ list) log m = elim (Bool-cases (is_evicted vname skip pod)) [
    | inl t ↦ rw t (kept_made vname skip c list (delete_pod pod ∷ log) (inr m))
    | inr t ↦ rw t (kept_made vname skip c list log m)
  ]

  evict_all-made :
      (vname : String) (skip : Bool) (pod : BoundPod) (list : List BoundPod) (log : List Call)
      → Any (λ p. p ≡ pod) list
      → is_evicted vname skip pod ≡ true
      → Any (λ d. d ≡ delete_pod pod) (evict_all vname skip list log).1
  unfolding evict_all evict_pod
  evict_all-made vname skip pod [] log m t = elim m [ ]
  evict_all-made vname skip pod (x ∷ list) log (inl e) t =
      let h : is_evicted vname skip x ≡ true = rw e t in
      rw h (kept_made vname skip (delete_pod pod) list (delete_pod x ∷ log) (inl (ap delete_pod e)))
  evict_all-made vname skip pod (x ∷ list) log (inr m) t =
      elim (Bool-cases (is_evicted vname skip x)) [
        | inl u ↦ rw u (evict_all-made vname skip pod list (delete_pod x ∷ log) m t)
        | inr u ↦ rw u (evict_all-made vname skip pod list log m t)
      ]

  -- Each pod of the list that is to be evicted is asked to be deleted, whatever the server answers
  -- for the others.
  pub force_evict-made :
      (vname : String) (skip : Bool) (list : List BoundPod) (pod : BoundPod) (log : List Call)
      → pods log vname ≡ some list
      → Any (λ p. p ≡ pod) list
      → is_evicted vname skip pod ≡ true
      → Any (λ d. d ≡ delete_pod pod) (force_evict_pods_on_virtual_node vname skip log).1
  unfolding force_evict_pods_on_virtual_node evict_listed
  force_evict-made vname skip list pod log h m t =
      rw h (evict_all-made vname skip pod list (list_pods vname ∷ log) m t)
