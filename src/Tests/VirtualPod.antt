-- ===== src/Tests/VirtualPod.antt =====
-- A virtual pod and the physical pod that is made for it.
use kubeocean.Dict.{◌at◌, StrMap, lookup, insert, delete, copy_but}
use kubeocean.Effect.{return}
use kubeocean.Kube.{Meta, found, missing, done}
use kubeocean.PhysicalPod.Defs.{expected_metadata}
use kubeocean.Prelude.{
  ◌≢◌, not, ◌&&◌, any, all, select, find, ◌≡◌, refl, ℕ, ℕ_discrete, true, false, Option, none, some,
  [], ◌∷◌, String, str_dec, text_ne,
}
use kubeocean.Prelude.Maybe.{Succeeds}
use kubeocean.VirtualPod.Allowed.{Allowed}
use kubeocean.VirtualPod.Build.{Env}
use kubeocean.Names.{generate_physical_resource_name}
use kubeocean.Synced.Marks.{update_virtual_resource, all_fields_match, with_marks}
use kubeocean.Synced.Resource.{Resource}
use kubeocean.VirtualPod.Dependents.{
  sync_dependent_resources, with_config_maps, with_secrets, with_claims, with_tokens,
  poll_physical_resources, poll, poll_round, with_poll,
}
use kubeocean.VirtualPod.Dependents.Suffices.{sync_dependent_resources-Succeeds}
use kubeocean.VirtualPod.PodSpec.{service_host, service_port, hostname_var, is_named, plain, inject}
use kubeocean.VirtualPod.PodSpec.Env.{has_value, is_injected}
use kubeocean.VirtualPod.PodSpec.Inject.{value_of, inject_lem}
use kubeocean.VirtualPod.Resources.{
  sync_refs, sync_named, sync_resource, with_virtual_resource, check_physical_resource,
  after_cached_resource, with_physical_resource, mark_and_create, run_change, sync_claims,
}
use kubeocean.VirtualPod.Defs.{Pod, Api}
use kubeocean.VirtualPod.Metadata.{
  Expected, keep, plan_sync, sync_metadata, set_current, drop_previous, synced_pod, needs_update,
  plan_with,
}
use kubeocean.VirtualPod.Metadata.Laws.{sync_metadata-lookup}
use kubeocean.VirtualPod.Metadata.Stable.{plan_sync_stable, merged}
use kubeocean.VirtualPod.Spec.{
  Container, Refs, Spec, ResourceMapping, collect_config_map_refs, collect_secret_refs,
  collect_claims, replace_resource_names,
}

sync_metadata-lookup_example :
    lookup str_dec "a" (sync_metadata (("a", "1") ∷ []) (("a", "1") ∷ []) (("a", "2") ∷ [])).0
    ≡ some "2"
unfolding lookup str_dec
sync_metadata-lookup_example =
    sync_metadata-lookup (("a", "1") ∷ []) (("a", "1") ∷ []) (("a", "2") ∷ []) "a" (refl, tt)

abbrev no_refs : Refs
no_refs = record { config_map_ref = none; secret_ref = none }

-- A volume with a ConfigMap and a projected token, and a claim.
abbrev spec : Spec
spec = record {
  volumes =
      record {
        name = "config";
        refs = record {
          config_map_ref = some (record { name = "settings"; optional = none });
          secret_ref = none;
        };
        claim = none;
        projected = some (
            record {
              refs = no_refs;
              downward = none;
              token = some (record { path = "token"; audience = ""; expiration = none });
              items = [];
            }
            ∷ []);
        downward = none;
      }
      ∷ record {
        name = "data";
        refs = no_refs;
        claim = some "disk";
        projected = none;
        downward = none;
      }
      ∷ [];
  containers = record { env = []; env_from = no_refs ∷ [] } ∷ [];
  init_containers = [];
  image_pull_secrets = "registry" ∷ [];
  service_account = "builder";
  affinity = none;
  node_selector = [];
  scheduler_name = "default-scheduler";
  priority_class_name = "";
  priority = none;
  preemption_policy = none;
  hostname = "";
  host_aliases = [];
  dns_policy = "ClusterFirst";
  dns_config = none;
}

abbrev mapping : ResourceMapping
mapping = record {
  config_maps = ("settings", "settings-1") ∷ [];
  secrets = ("registry", "registry-2") ∷ [];
  claims = ("disk", "disk-3") ∷ [];
  tokens = ("config", "token-4") ∷ [];
}

abbrev meta_of : String → String → String → StrMap → Meta
meta_of ns n uid annotations = record {
  namespace = ns;
  name = n;
  uid = uid;
  labels = [];
  annotations = annotations;
  finalizers = [];
  deleting = false;
}

-- The ephemeral containers are a text.
abbrev pod_of : Meta → String → Pod String
pod_of meta node = record {
  meta = meta;
  owners = [];
  node_name = node;
  spec = spec;
  created = none;
  active_deadline = none;
  ephemeral = "";
  phase = "";
  reason = "";
  message = "";
}

abbrev named : Pod String
named =
    pod_of
      (meta_of "default" "web" "v1" (
        ("kubeocean.io/physical-pod-namespace", "mount")
        ∷ ("kubeocean.io/physical-pod-name", "web-1f")
        ∷ []))
      "vnode-c1-n1"

abbrev virtual_node : Meta
virtual_node = record {
  namespace = "";
  name = "vnode-c1-n1";
  uid = "n";
  labels =
      ("kubeocean.io/managed-by", "kubeocean")
      ∷ ("kubeocean.io/physical-cluster-id", "c1")
      ∷ ("kubeocean.io/physical-node-name", "n1")
      ∷ [];
  annotations = [];
  finalizers = [];
  deleting = false;
}

-- A ConfigMap, and what was made of it in the physical cluster.
abbrev resource_of : Meta → Resource String
resource_of meta = record {
  meta = meta;
  content = "";
  phase = "";
  volume_name = "";
  storage_class = none;
  claim_ref = none;
  reclaim_policy = "";
  csi_secret = none;
}

abbrev settings : Resource String
settings = resource_of (meta_of "default" "settings" "s1" [])

abbrev settings_copy : Resource String
settings_copy = resource_of (
    meta_of "mount" "settings-1f" "s2" (
      ("kubeocean.io/virtual-name", "settings")
      ∷ ("kubeocean.io/virtual-namespace", "default")
      ∷ []))

-- The virtual pod is there, and no physical pod is.
abbrev api : Api String
api = record {
  virtual_pod = λ log ns n. found named;
  cached_pod = λ log ns n. missing;
  direct_pod = λ log ns n. missing;
  virtual_node = λ log n. found virtual_node;
  runs_daemonsets = λ log n. found false;
  replica_set = λ log ns n. missing;
  virtual_deleted = λ log ns n uid. done;
  virtual_updated = λ log pod. done;
  physical_created = λ log pod. done;
  physical_updated = λ log pod. done;
  ephemeral_patched = λ log pod. done;
  physical_deleted = λ log ns n. done;
  secret = λ log ns n. missing;
  secret_created = λ log s. done;
  secret_updated = λ log s. done;
  secret_deleted = λ log ns n. done;
  token = λ log ns account t n uid. some "token";
  resource = λ log k ns n. found settings;
  cached_resource = λ log k ns n. found settings_copy;
  direct_resource = λ log k ns n. missing;
  resource_updated = λ log k r. done;
  resource_created = λ log k r. done;
  service = λ log ns n. missing;
  binding = λ log n. missing;
  priority_class = λ log n. missing;
  priority_class_created = λ log n. done;
  poll_rounds = λ log. 11;
  now = λ log. 0;
}

abbrev no_metadata : Expected
no_metadata = record { annotations = []; labels = [] }

unfoldable deadline_dec : Discrete (Option ℕ)
deadline_dec = hlevel (ℕ_discrete)

abbrev env : Env String
env = record {
  md5_hex = λ t. "1f";
  base64 = λ t. t;
  to_lower = λ t. t;
  encode = λ e. "metadata";
  decode = λ t. some no_metadata;
  deadline_dec = deadline_dec;
  ephemeral_dec = str_dec;
  config = record {
    cluster_name = "c";
    cluster_id = "c1";
    mount_namespace = "mount";
    intranet = none;
    dns_ip = "";
  };
  api = api;
  builder = record {
    sync_dependent_resources = λ pod. return none;
    build_physical_pod_spec = λ pod node m. return none;
  };
}

abbrev trim : String → String → String
trim t cut = t

-- A pod whose one container takes the ConfigMap as a whole.
abbrev simple : Pod String
simple = record named {
  spec = record spec {
    volumes = [];
    containers =
        record {
          env = [];
          env_from =
              record {
                config_map_ref = some (record { name = "settings"; optional = none });
                secret_ref = none;
              }
              ∷ [];
        }
        ∷ [];
    image_pull_secrets = [];
    service_account = "";
  };
}

abbrev simple_mapping : ResourceMapping
simple_mapping = record {
  config_maps = ("settings", "settings-1f") ∷ [];
  secrets = [];
  claims = [];
  tokens = [];
}

simple_run :
    (sync_dependent_resources (λ t. "1f") (λ t. t) api (env.config) simple []).0
    ≡ some simple_mapping
unfolding sync_dependent_resources with_config_maps with_secrets with_claims with_tokens
    poll_physical_resources poll poll_round with_poll sync_refs sync_named sync_resource
    with_virtual_resource check_physical_resource after_cached_resource with_physical_resource
    mark_and_create run_change sync_claims collect_config_map_refs collect_secret_refs
    collect_claims lookup insert str_dec generate_physical_resource_name update_virtual_resource
    all_fields_match with_marks
simple_run = refl

sync_dependent_resources-Succeeds_example :
    Succeeds (replace_resource_names simple_mapping simple.spec)
sync_dependent_resources-Succeeds_example =
    sync_dependent_resources-Succeeds (λ t. "1f") (λ t. t) api (env.config) simple simple_mapping []
      simple_run

-- A physical pod that was made before the virtual pod got a deadline.
abbrev made : Pod String
made =
    pod_of (meta_of "mount" "web-1f" "p1" (("kubeocean.io/expected-metadata", "metadata") ∷ []))
      "n1"

abbrev limited : Pod String
limited = record named { active_deadline = some 60 }

abbrev synced : Pod String
synced = record made { active_deadline = some 60 }

plan_sync_stable_example :
    (plan_sync (λ e. "metadata") (λ t. some no_metadata) deadline_dec limited synced ≡ keep synced)
    × (synced.active_deadline ≡ limited.active_deadline)
    × (synced.annotations at expected_metadata ≡ "metadata")
    × (lookup str_dec "app" synced.labels
        ≡ merged
            (lookup str_dec "app" no_metadata.labels)
            (lookup str_dec "app" no_metadata.labels)
            (lookup str_dec "app" made.labels))
    × ("app" ≢ expected_metadata
        → lookup str_dec "app" synced.annotations
          ≡ merged
              (lookup str_dec "app" no_metadata.annotations)
              (lookup str_dec "app" no_metadata.annotations)
              (lookup str_dec "app" made.annotations))
unfolding plan_sync plan_with synced_pod needs_update sync_metadata set_current drop_previous
    copy_but lookup insert delete str_dec deadline_dec
plan_sync_stable_example =
    plan_sync_stable (λ e. "metadata") (λ t. some no_metadata) deadline_dec limited made synced
      no_metadata "app" (refl, (refl, tt)) tt refl refl (text_ne "metadata" "" refl) refl

-- A container that has a host of its own and one other variable.
abbrev client : Container
client = record {
  env = plain "KUBERNETES_SERVICE_HOST" "10.0.0.1" ∷ plain "MODE" "fast" ∷ [];
  env_from = [];
}

inject_lem_example :
    let env' = (inject "1.2.3.4" "443" "web" client).env in
    (all (λ e. has_value service_host "1.2.3.4" e && has_value service_port "443" e) env' ≡ true)
    × (any (is_named service_host) env' ≡ true)
    × (any (is_named service_port) env' ≡ true)
    × (select (λ e. not (is_injected e)) env' ≡ select (λ e. not (is_injected e)) (client.env))
    × (value_of (find (is_named hostname_var) env') ≡ some ("web", true))
inject_lem_example = inject_lem "1.2.3.4" "443" "web" client
