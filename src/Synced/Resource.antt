-- ===== src/Synced/Resource.antt =====
-- common.go: BuildPhysicalResource, and the options of a synchronisation.
use kubeocean.Dict.{StrMap, put}
use kubeocean.Kube.{Meta}
use kubeocean.Prelude.{Bool, false, Option, none, some, [], String, ◌==◌, if◌then◌else◌}
use kubeocean.Synced.Marks.{used_by_pv}
use kubeocean.Synced.Physical.{
  ResourceType, config_map, secret, pvc, pv, unsupported, build_physical_resource_labels,
  build_physical_resource_annotations,
}

-- A ConfigMap, a Secret, a claim or a volume. `content` is what is only copied: data, or a spec
-- without the fields that are listed. The secret of a volume's CSI driver is a namespace and a name.
pub record Resource (Content : Type 0) : Type 0 where
  pub meta : Meta
  pub content : Content
  pub phase : String
  pub volume_name : String
  pub storage_class : Option String
  pub claim_ref : Option String
  pub reclaim_policy : String
  pub csi_secret : Option (String × String)

-- SyncResourceOpt; a nil pointer is `no_opt`.
pub record Opt : Type 0 where
  pub physical_pv_name : String
  pub is_pv_ref_secret : Bool
  pub physical_pv_secret : String

abbrev pub no_opt : Opt
no_opt = record { physical_pv_name = ""; is_pv_ref_secret = false; physical_pv_secret = "" }

abbrev pub rename_csi_secret : String → Option (String × String) → Option (String × String)
rename_csi_secret name none = none
rename_csi_secret name (some (namespace, n)) = some (namespace, if name == "" then n else name)

module _ {Content : Type 0} where
  abbrev pub built : Resource Content → String → String → StrMap → Resource Content
  built r name namespace labels = record r {
    meta = record {
      namespace = namespace;
      name = name;
      uid = "";
      labels = labels;
      annotations = build_physical_resource_annotations r.meta;
      finalizers = [];
      deleting = false;
    };
  }

  unfoldable pub build_physical_resource :
      ResourceType → Resource Content → String → String → Opt → Option (Resource Content)
  build_physical_resource config_map r name namespace opt =
      some (built r name namespace (build_physical_resource_labels r.meta))
  build_physical_resource secret r name namespace opt =
      let labels = build_physical_resource_labels r.meta in
      some (
        built r name namespace
          (if opt.is_pv_ref_secret then put used_by_pv "true" labels else labels))
  build_physical_resource pvc r name namespace opt =
      some (record (built r name namespace (build_physical_resource_labels r.meta)) {
        storage_class = none;
        phase = "Pending";
        volume_name = if opt.physical_pv_name == "" then r.volume_name else opt.physical_pv_name;
      })
  build_physical_resource pv r name namespace opt =
      some (record (built r name "" (build_physical_resource_labels r.meta)) {
        phase = "";
        claim_ref = none;
        reclaim_policy = "Retain";
        csi_secret = rename_csi_secret opt.physical_pv_secret r.csi_secret;
      })
  build_physical_resource unsupported r name namespace opt = none
