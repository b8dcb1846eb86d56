-- ===== src/Names.antt =====
-- pkg/utils/node.go and pkg/syncer/topdown/common/common.go: the names of virtual nodes and of
-- physical resources. `md5_hex` is crypto/md5 printed in hexadecimal. Lengths and prefixes are in
-- bytes, which are the characters of a Kubernetes name.
use Prim.Native.String.{len, slice, ◌++◌ as join}
use kubeocean.Prelude.{String, ltb, if◌then◌else◌}

module _ (md5_hex : String → String) where
  unfoldable pub generate_virtual_node_name : String → String → String
  generate_virtual_node_name cluster_id physical_name =
      let original = join "vnode-" (join cluster_id (join "-" physical_name)) in
      if ltb (len original) 64
      then original
      else join (slice original 0 30) (join "-" (md5_hex original))

  -- The two parts of a name are a digest of the whole and a prefix that people can read.
  unfoldable pub generate_physical_resource_name : String → String → String
  generate_physical_resource_name name namespace =
      join (if ltb 30 (len name) then slice name 0 30 else name)
        (join "-" (md5_hex (join namespace (join "/" name))))
