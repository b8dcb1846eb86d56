-- ===== src/VirtualPod/Metadata/Laws.antt =====
-- What syncMetadata leaves of a target.
use kubeocean.Dict.{StrMap, lookup, lookup-insert, lookup-delete, ◌at◌, has, IsUnique}
use kubeocean.Prelude.{
  ◌≡◌, refl, Bool, false, not, ◌&&◌, none, some, [], ◌∷◌, arith, String, str_dec, ◌≠?◌,
  if◌then◌else◌,
}
use kubeocean.VirtualPod.Metadata.{set_entry, set_current, drop_entry, drop_previous, sync_metadata}

lookup-set_current :
    (k : String) (previous current : StrMap) (s : StrMap × Bool)
    → IsUnique str_dec current
    → lookup str_dec k (set_current previous current s).0 ≡ elim (lookup str_dec k current) [
      | none ↦ lookup str_dec k s.0
      | some v ↦ if previous at k ≠? v && s.0 at k ≠? v then some v else lookup str_dec k s.0
    ]
unfolding set_current lookup
lookup-set_current k previous [] s u = refl
lookup-set_current k previous ((j, v) ∷ current) s u = ground (
  arith,
  lookup-set_current k previous current (set_entry previous j v s) u.1,
  lookup-insert str_dec j k v s.0,
  u.0,
)

lookup-drop_previous :
    (k : String) (current previous : StrMap) (s : StrMap × Bool)
    → lookup str_dec k (drop_previous current previous s).0
      ≡ (if has k previous && not (has k current) then none else lookup str_dec k s.0)
unfolding drop_previous lookup
lookup-drop_previous k current [] s = refl
lookup-drop_previous k current ((j, v) ∷ previous) s = ground (
  arith,
  lookup-drop_previous k current previous (drop_entry current j s),
  lookup-delete str_dec j k s.0,
)

-- The value that a key has after a synchronisation. A key that the virtual pod has gets its value
-- there if that is neither what was last expected nor what the physical pod has, a missing key
-- counting as an empty text; a key that was expected and that the virtual pod no longer has goes;
-- and any other key is left alone.
pub sync_metadata-lookup :
    (target previous current : StrMap) (k : String)
    → IsUnique str_dec current
    → lookup str_dec k (sync_metadata target previous current).0 ≡ elim (lookup str_dec k current) [
      | none ↦ if has k previous then none else lookup str_dec k target
      | some v ↦ if previous at k ≠? v && target at k ≠? v then some v else lookup str_dec k target
    ]
unfolding sync_metadata
sync_metadata-lookup target previous current k u = ground (
  arith,
  lookup-drop_previous k current previous (set_current previous current (target, false)),
  lookup-set_current k previous current (target, false) u,
)
