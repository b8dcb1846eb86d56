-- ===== src/Node/Taints.antt =====
-- physical_node_controller.go: transformTaints, and what it and mergeTaints keep of the taint of
-- the time windows. `outside` is the answer of isWithinTimeWindows, negated.
use kubeocean.Node.Defs.{
  Taint, Policy, out_of_time_windows, unschedulable_key, physical_node_unschedulable, vnode,
  vnode_deleting,
}
use kubeocean.Node.Merge.{merge_taints, taint_time, is_out_of_windows, has_key, keep_time}
use kubeocean.Policy.TimeOfDay.{Bytes}
use kubeocean.Policy.Windows.{is_within_time_windows}
use kubeocean.Prelude.{
  ◌≡◌, refl, ap, ◌∙◌, Bool, true, false, not, ◌&&◌, ◌||◌, Option, none, some, List, [], ◌∷◌, ◌++◌,
  map, arith, String, ◌==◌, if◌then◌else◌, any, any-append, All, All-append, All-select, text_ne,
}
use kubeocean.Prelude.Int.{ℤ}

-- The loop over the physical node's taints.
transformed : List Taint → List Taint
transformed [] = []
transformed (t ∷ taints) =
    let rest = transformed taints in
    if t.key == out_of_time_windows
    then rest
    else if t.key == unschedulable_key
    then record {
      key = physical_node_unschedulable;
      value = t.value;
      effect = t.effect;
      time_added = none;
    }
      ∷ rest
    else t ∷ rest

abbrev default_taints : Bool → List Taint
default_taints true = []
default_taints false =
    record { key = vnode; value = ""; effect = "NoSchedule"; time_added = none } ∷ []

abbrev window_taint : Bool → ℤ → Taint
window_taint force_reclaim now = record {
  key = out_of_time_windows;
  value = "true";
  effect = if force_reclaim then "NoExecute" else "NoSchedule";
  time_added = some now;
}

transformed_windows : (ts : List Taint) → has_key out_of_time_windows (transformed ts) ≡ false
unfolding transformed
transformed_windows [] = refl
transformed_windows (t ∷ ts) =
    ground
      (arith, transformed_windows ts, text_ne physical_node_unschedulable out_of_time_windows refl)

module _ {Selector : Type 0} (to_lower : String → String) where
  abbrev pub is_outside : Option (Policy Selector) → String → Bytes → Bool
  is_outside none day time = false
  is_outside (some policy) day time =
      not (is_within_time_windows to_lower policy.time_windows day time)

  abbrev pub forces : Option (Policy Selector) → Bool
  forces none = false
  forces (some policy) = policy.force_reclaim

  pub transform_taints :
      List Taint → Bool → Option (Policy Selector) → String → Bytes → ℤ → List Taint
  unfolding transformed
  transform_taints physical disable_default policy day time now =
      (transformed physical ++ default_taints disable_default)
      ++ (if is_outside policy day time then window_taint (forces policy) now ∷ [] else [])

  -- The taint of the time windows is on the virtual node exactly while the policy is outside them,
  -- whatever the physical node has.
  pub transform_taints-windows :
      (physical : List Taint) (disable_default : Bool) (policy : Option (Policy Selector))
      (day : String) (time : Bytes) (now : ℤ)
      → has_key out_of_time_windows (transform_taints physical disable_default policy day time now)
        ≡ is_outside policy day time
  unfolding transform_taints
  transform_taints-windows physical disable_default policy day time now =
      any-append is_out_of_windows (transformed physical ++ default_taints disable_default) _
      ∙ (rw
          (
            any-append is_out_of_windows (transformed physical) (default_taints disable_default),
            transformed_windows physical,
          )
          (by_flags disable_default (is_outside policy day time)))
    where
      by_flags :
          (d o : Bool)
          → (any is_out_of_windows (default_taints d)
              || any is_out_of_windows (if o then window_taint (forces policy) now ∷ [] else []))
            ≡ o
      by_flags true true = ground (arith, text_ne vnode out_of_time_windows refl)
      by_flags true false = ground (arith, text_ne vnode out_of_time_windows refl)
      by_flags false true = ground (arith, text_ne vnode out_of_time_windows refl)
      by_flags false false = ground (arith, text_ne vnode out_of_time_windows refl)

-- The taints of a merge, where the wanted ones have the taint of the time windows and the node has
-- one with a time: the taint is there, and every taint of that key carries the first time that the
-- node had on it, so that the graceful period runs on.
pub merge_taints-keeps_time :
    (existing previous current : List Taint) (t : ℤ)
    → has_key out_of_time_windows current ≡ true
    → taint_time existing ≡ some t
    → (has_key out_of_time_windows (merge_taints existing previous current) ≡ true)
      × All
          (λ x. x.key ≡ out_of_time_windows → x.time_added ≡ some t)
          (merge_taints existing previous current)
unfolding merge_taints
merge_taints-keeps_time existing previous current t c e = rw e (
  any-append is_out_of_windows (map (keep_time (some t)) current) _
      ∙ ground (arith, kept current, c),
  All-append (λ x. x.key ≡ out_of_time_windows → x.time_added ≡ some t)
      (map (keep_time (some t)) current) _ (stamped current)
      (All-select (λ x. x.key ≡ out_of_time_windows → x.time_added ≡ some t)
        (λ x.
          not (has_key x.key current)
          && not (x.key == vnode_deleting)
          && not (has_key x.key previous))
        existing (λ x q k. absurd (not_selected x k q))),
)
  where
    kept :
        (ts : List Taint)
        → any is_out_of_windows (map (keep_time (some t)) ts) ≡ any is_out_of_windows ts
    kept [] = refl
    kept (x ∷ ts) = ground (arith, kept ts)

    stamped :
        (ts : List Taint)
        → All
            (λ x. x.key ≡ out_of_time_windows → x.time_added ≡ some t)
            (map (keep_time (some t)) ts)
    stamped [] = tt
    stamped (x ∷ ts) = (ground arith, stamped ts)

    clash : {b : Bool} → b ≡ true → not b ≡ true → ⊥
    clash p q = ground arith

    first_of : (a b c : Bool) → (a && b && c) ≡ true → a ≡ true
    first_of a b c p = ground arith

    not_selected :
        (x : Taint)
        → x.key ≡ out_of_time_windows
        → (not (has_key x.key current)
            && not (x.key == vnode_deleting)
            && not (has_key x.key previous))
          ≡ true
        → ⊥
    not_selected x k q = absurd (clash (ap (λ key. has_key key current) k ∙ c) (first_of _ _ _ q))
