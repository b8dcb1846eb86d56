-- ===== src/VirtualPod/Spec.antt =====
-- virtual_pod_controller.go: the ConfigMaps, Secrets and claims that the spec of a virtual pod
-- names, how they are collected (CollectConfigMapRefs, CollectSecretRefs, syncPVCs) and how
-- buildPhysicalPodSpec replaces them by the names in the physical cluster.
pub mod Mapped
pub mod Total
pub mod Relation
pub mod Renamed
use kubeocean.Dict.{StrMap, lookup, put}
use kubeocean.PhysicalPod.Defs.{virtual_pod_namespace, virtual_pod_name, virtual_node_name}
use kubeocean.Prelude.{
  ℕ, Bool, true, false, not, Option, none, some, List, [], ◌∷◌, map, String, str_dec, ◌==◌,
  if◌then◌else◌, any,
}
use kubeocean.Prelude.Int.{ℤ}
use kubeocean.Prelude.Maybe.{◌>>=◌, traverse}

-- A reference by name; `optional` is a pointer.
pub record Ref : Type 0 where
  pub name : String
  pub optional : Option Bool

pub data Kind : Type 0 where
  config_map secret : Kind

-- The reference to a ConfigMap and the one to a Secret that one element of a spec can have.
pub record Refs : Type 0 where
  pub config_map_ref : Option Ref
  pub secret_ref : Option Ref

-- A service-account token that is projected to a path. An expiration is in seconds.
pub record Token : Type 0 where
  pub path : String
  pub audience : String
  pub expiration : Option ℕ

-- A source of a projected volume: `downward` holds the field paths of its items, and `items` the
-- keys of a secret with their paths.
pub record Source : Type 0 where
  pub refs : Refs
  pub downward : Option (List (Option String))
  pub token : Option Token
  pub items : List (String × String)

pub record Volume : Type 0 where
  pub name : String
  pub refs : Refs
  pub claim : Option String
  pub projected : Option (List Source)
  pub downward : Option (List (Option String))

-- What an environment variable takes its value from.
pub record ValueFrom : Type 0 where
  pub refs : Refs
  pub field_path : Option String

pub record EnvVar : Type 0 where
  pub name : String
  pub value : String
  pub from : Option ValueFrom

pub record Container : Type 0 where
  pub env : List EnvVar
  pub env_from : List Refs

-- A node affinity that asks for one node by its name, or any other affinity.
pub data Affinity : Type 0 where
  on_node : String → Affinity
  other_affinity : Affinity

pub record DnsConfig : Type 0 where
  pub nameservers : List String
  pub searches : List String
  pub options : StrMap

-- corev1.PodSpec; a host alias is an IP with its names.
pub record Spec : Type 0 where
  pub volumes : List Volume
  pub containers : List Container
  pub init_containers : List Container
  pub image_pull_secrets : List String
  pub service_account : String
  pub affinity : Option Affinity
  pub node_selector : StrMap
  pub scheduler_name : String
  pub priority_class_name : String
  pub priority : Option ℤ
  pub preemption_policy : Option String
  pub hostname : String
  pub host_aliases : List (String × List String)
  pub dns_policy : String
  pub dns_config : Option DnsConfig

abbrev pub pick : Kind → Refs → Option Ref
pick config_map r = r.config_map_ref
pick secret r = r.secret_ref

-- A Go loop over a slice that updates one value.
abbrev pub each : {A S : Type 0} → (A → S → S) → List A → S → S
each f [] s = s
each f (x ∷ xs) s = each f xs (f x s)

abbrev pub when_some : {A S : Type 0} → (A → S → S) → Option A → S → S
when_some f none s = s
when_some f (some a) s = f a s

-- Whether each name is required.
abbrev pub Required : Type 0
Required = List (String × Bool)

-- ptr.Deref(ref.Optional, false)
abbrev pub is_optional : Option Bool → Bool
is_optional none = false
is_optional (some b) = b

abbrev pub add_ref : Ref → Required → Required
add_ref r m = put r.name (not (is_optional r.optional)) m

abbrev pub add_refs : Kind → Refs → Required → Required
add_refs kind r m = when_some add_ref (pick kind r) m

abbrev pub collect_volume : Kind → Volume → Required → Required
collect_volume kind v m =
    when_some (λ sources. each (λ (s : Source). add_refs kind s.refs) sources) v.projected
      (add_refs kind v.refs m)

abbrev pub collect_env : Kind → EnvVar → Required → Required
collect_env kind e m = when_some (λ (f : ValueFrom). add_refs kind f.refs) e.from m

abbrev pub collect_container : Kind → Container → Required → Required
collect_container kind c m = each (add_refs kind) c.env_from (each (collect_env kind) c.env m)

abbrev pub collect_spec : Kind → Spec → Required → Required
collect_spec kind spec m =
    each (collect_container kind) spec.init_containers
      (each (collect_container kind) spec.containers (each (collect_volume kind) spec.volumes m))

unfoldable pub collect_config_map_refs : Spec → Required
collect_config_map_refs spec = collect_spec config_map spec []

abbrev pub collect_image_pull_secrets : List String → Required → Required
collect_image_pull_secrets = each (λ name m. put name true m)

unfoldable pub collect_secret_refs : Spec → Required
collect_secret_refs spec =
    collect_image_pull_secrets spec.image_pull_secrets (collect_spec secret spec [])

unfoldable pub collect_claims : Spec → Required
collect_claims spec =
    each (λ (v : Volume). when_some (λ name m. put name true m) v.claim) spec.volumes []

-- From the names in the virtual cluster to those in the physical one; `tokens` goes from volumes.
pub record ResourceMapping : Type 0 where
  pub config_maps : StrMap
  pub secrets : StrMap
  pub claims : StrMap
  pub tokens : StrMap

-- none is the error that there is no mapping.
abbrev pub rename : StrMap → Option Ref → Option (Option Ref)
rename m none = some none
rename m (some r) = do name ← lookup str_dec r.name m; some (some (record r { name = name }))

abbrev pub rename_claim : StrMap → Option String → Option (Option String)
rename_claim m none = some none
rename_claim m (some name) = do physical ← lookup str_dec name m; some (some physical)

abbrev pub replace_refs : ResourceMapping → Refs → Option Refs
replace_refs m r = do
  config_map' ← rename m.config_maps r.config_map_ref
  secret' ← rename m.secrets r.secret_ref
  some (record { config_map_ref = config_map'; secret_ref = secret' })

abbrev pub annotation_path : String → String
annotation_path key =
    Prim.Native.String.◌++◌ "metadata.annotations['" (Prim.Native.String.◌++◌ key "']")

-- The path of a field by which a pod in the physical cluster still sees the virtual pod.
abbrev pub replace_field_path : String → String
replace_field_path path =
    if path == "metadata.namespace"
    then annotation_path virtual_pod_namespace
    else if path == "metadata.name"
    then annotation_path virtual_pod_name
    else if path == "spec.nodeName"
    then annotation_path virtual_node_name
    else path

abbrev pub over : {A : Type 0} → (A → A) → Option A → Option A
over f none = none
over f (some a) = some (f a)

abbrev pub replace_downward : Option (List (Option String)) → Option (List (Option String))
replace_downward = over (map (over replace_field_path))

abbrev pub replace_source : ResourceMapping → Source → Option Source
replace_source m s = do
  refs' ← replace_refs m s.refs
  some (record s { refs = refs'; downward = replace_downward s.downward })

-- The first source that projects a token becomes one of the secret that holds it.
abbrev pub replace_token : String → List Source → List Source
replace_token secret_name [] = []
replace_token secret_name (s ∷ sources) = elim s.token [
  | none ↦ s ∷ replace_token secret_name sources
  | some t ↦
      record s {
        refs = record (s.refs) {
          secret_ref = some (record { name = secret_name; optional = none });
        };
        token = none;
        items = ("token", t.path) ∷ [];
      }
      ∷ sources
]

abbrev pub has_token : Source → Bool
has_token s = elim s.token [ none ↦ false | some t ↦ true ]

-- One replacement for each source that projects a token.
abbrev pub replace_tokens : String → List Source → List Source → List Source
replace_tokens secret_name [] sources = sources
replace_tokens secret_name (s ∷ rest) sources =
    replace_tokens secret_name rest
      (if has_token s then replace_token secret_name sources else sources)

abbrev pub replace_token_volume :
    ResourceMapping → Bool → String → List Source → Option (List Source)
replace_token_volume m has_account volume sources =
    if not has_account
    then some sources
    else if not (any has_token sources)
    then some sources
    else (do
      secret_name ← lookup str_dec volume m.tokens
      some (replace_tokens secret_name sources sources))

abbrev pub replace_projected :
    ResourceMapping → Bool → String → Option (List Source) → Option (Option (List Source))
replace_projected m has_account volume none = some none
replace_projected m has_account volume (some sources) = do
  renamed ← traverse (replace_source m) sources
  with_tokens ← replace_token_volume m has_account volume renamed
  some (some with_tokens)

abbrev pub replace_volume : ResourceMapping → Bool → Volume → Option Volume
replace_volume m has_account v = do
  refs' ← replace_refs m v.refs
  claim' ← rename_claim m.claims v.claim
  projected' ← replace_projected m has_account v.name v.projected
  some (record v {
    refs = refs';
    claim = claim';
    projected = projected';
    downward = replace_downward v.downward;
  })

abbrev pub replace_from : ResourceMapping → Option ValueFrom → Option (Option ValueFrom)
replace_from m none = some none
replace_from m (some f) = do
  refs' ← replace_refs m f.refs
  some (some (record { refs = refs'; field_path = over replace_field_path f.field_path }))

abbrev pub replace_env : ResourceMapping → EnvVar → Option EnvVar
replace_env m e = do from' ← replace_from m e.from; some (record e { from = from' })

abbrev pub replace_container : ResourceMapping → Container → Option Container
replace_container m c = do
  env' ← traverse (replace_env m) c.env
  env_from' ← traverse (replace_refs m) c.env_from
  some (record { env = env'; env_from = env_from' })

abbrev pub replace_containers : ResourceMapping → List Container → Option (List Container)
replace_containers m = traverse (replace_container m)

abbrev pub replace_image_pull_secrets : ResourceMapping → List String → Option (List String)
replace_image_pull_secrets m = traverse (λ name. lookup str_dec name m.secrets)

-- The four replacements of buildPhysicalPodSpec, which also clears the service account before them
-- but tests that of the virtual pod.
unfoldable pub replace_resource_names : ResourceMapping → Spec → Option Spec
replace_resource_names m spec = do
  volumes' ← traverse (replace_volume m (not (spec.service_account == ""))) spec.volumes
  containers' ← replace_containers m spec.containers
  init_containers' ← replace_containers m spec.init_containers
  image_pull_secrets' ← replace_image_pull_secrets m spec.image_pull_secrets
  some (record spec {
    volumes = volumes';
    containers = containers';
    init_containers = init_containers';
    image_pull_secrets = image_pull_secrets';
    service_account = "";
  })
