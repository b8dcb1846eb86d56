-- ===== src/Node/Merge.antt =====
-- physical_node_controller.go: mergeLabels, mergeAnnotations and mergeTaints.
use kubeocean.Dict.{StrMap, lookup, lookup-insert, put, has, IsUnique}
use kubeocean.Node.Defs.{Taint, vnode_deleting, deletion_taint_time, out_of_time_windows}
use kubeocean.Prelude.{
  ◌≡◌, refl, Bool, not, ◌&&◌, ◌||◌, Option, none, some, List, [], ◌∷◌, ◌++◌, map, arith, String,
  str_dec, ◌==◌, if◌then◌else◌, any, select,
}
use kubeocean.Prelude.Int.{ℤ}

-- The loop that writes every entry of a map into another.
put_all : StrMap → StrMap → StrMap
put_all [] m = m
put_all ((k, v) ∷ src) m = put_all src (put k v m)

-- The loop over what is there: an entry that is not skipped is the user's, and is written.
add_user : (String → Bool) → StrMap → StrMap → StrMap
add_user skip [] m = m
add_user skip ((k, v) ∷ existing) m =
    let next = if skip k then m else put k v m in add_user skip existing next

-- `existing` is what the node has, `new` what is built for it.
pub merge_labels : StrMap → StrMap → StrMap → StrMap → StrMap
unfolding put_all add_user
merge_labels existing new previous current =
    add_user (λ k. has k current || has k previous) existing (put_all current new)

pub merge_annotations : StrMap → StrMap → StrMap → StrMap → StrMap
unfolding put_all add_user
merge_annotations existing new previous current =
    add_user (λ k. has k current || k == deletion_taint_time || has k previous) existing
      (put_all current new)

abbrev pub or_else {ℓ} : {A : Type ℓ} → Option A → Option A → Option A
or_else none b = b
or_else (some a) b = some a

lookup-put_all :
    (k : String) (src m : StrMap)
    → IsUnique str_dec src
    → lookup str_dec k (put_all src m) ≡ or_else (lookup str_dec k src) (lookup str_dec k m)
unfolding put_all lookup
lookup-put_all k [] m u = refl
lookup-put_all k ((j, v) ∷ src) m u =
    ground (arith, lookup-put_all k src (put j v m) u.1, lookup-insert str_dec j k v m, u.0)

lookup-add_user :
    (skip : String → Bool) (k : String) (existing m : StrMap)
    → IsUnique str_dec existing
    → lookup str_dec k (add_user skip existing m) ≡ (
        if skip k
        then lookup str_dec k m
        else or_else (lookup str_dec k existing) (lookup str_dec k m))
unfolding add_user lookup
lookup-add_user skip k [] m u = ground arith
lookup-add_user skip k ((j, v) ∷ existing) m u = ground (
  arith,
  lookup-add_user skip k existing m u.1,
  lookup-add_user skip k existing (put j v m) u.1,
  lookup-insert str_dec j k v m,
  u.0,
)

-- A label of the merge: the one that is wanted now; else none or the built one if it was wanted
-- before; else the one that the node has.
pub lookup-merge_labels :
    (existing new previous current : StrMap) (k : String)
    → IsUnique str_dec existing
    → IsUnique str_dec current
    → lookup str_dec k (merge_labels existing new previous current)
      ≡ or_else (lookup str_dec k current) (
          if has k previous
          then lookup str_dec k new
          else or_else (lookup str_dec k existing) (lookup str_dec k new))
unfolding merge_labels
lookup-merge_labels existing new previous current k ue uc = ground (
  arith,
  lookup-add_user (λ k. has k current || has k previous) k existing (put_all current new) ue,
  lookup-put_all k current new uc,
)

pub lookup-merge_annotations :
    (existing new previous current : StrMap) (k : String)
    → IsUnique str_dec existing
    → IsUnique str_dec current
    → lookup str_dec k (merge_annotations existing new previous current)
      ≡ or_else (lookup str_dec k current) (
          if k == deletion_taint_time || has k previous
          then lookup str_dec k new
          else or_else (lookup str_dec k existing) (lookup str_dec k new))
unfolding merge_annotations
lookup-merge_annotations existing new previous current k ue uc = ground (
  arith,
  lookup-add_user (λ k. has k current || k == deletion_taint_time || has k previous) k existing
      (put_all current new) ue,
  lookup-put_all k current new uc,
)

abbrev pub is_out_of_windows : Taint → Bool
is_out_of_windows t = t.key == out_of_time_windows

-- `_, ok := taintsToMap(taints)[key]`
abbrev pub has_key : String → List Taint → Bool
has_key key = any (λ t. t.key == key)

-- The time of the first taint of the key that has one.
unfoldable pub taint_time : List Taint → Option ℤ
taint_time [] = none
taint_time (t ∷ existing) =
    let rest = taint_time existing in
    if is_out_of_windows t then or_else t.time_added rest else rest

abbrev pub keep_time : Option ℤ → Taint → Taint
keep_time none t = t
keep_time (some time) t = if is_out_of_windows t then record t { time_added = some time } else t

unfoldable pub merge_taints : List Taint → List Taint → List Taint → List Taint
unfolding taint_time
merge_taints existing previous current =
    map (keep_time (taint_time existing)) current
    ++ select
        (λ t.
          not (has_key t.key current)
          && not (t.key == vnode_deleting)
          && not (has_key t.key previous))
        existing
