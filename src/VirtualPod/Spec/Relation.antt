-- ===== src/VirtualPod/Spec/Relation.antt =====
-- The spec that names in the physical cluster what another one names in the virtual cluster.
use kubeocean.Dict.{StrMap, lookup}
use kubeocean.Prelude.{
  ◌≡◌, Bool, true, false, not, Option, none, some, List, [], ◌∷◌, String, str_dec, ◌==◌, any, ◌⊎◌,
}
use kubeocean.VirtualPod.Spec.{
  Ref, Refs, Source, Volume, ValueFrom, EnvVar, Container, Spec, ResourceMapping, replace_downward,
  has_token, over, replace_field_path,
}

-- Two lists of one length, whose elements are related in their order.
abbrev pub Pairwise : {A B : Type 0} → (A → B → Type 0) → List A → List B → Type 0
Pairwise R [] [] = Unit
Pairwise R (x ∷ xs) (y ∷ ys) = R x y × Pairwise R xs ys
Pairwise R [] (y ∷ ys) = ⊥
Pairwise R (x ∷ xs) [] = ⊥

-- A reference to a name, and the one to the name that the map has for it.
abbrev pub RefTo : StrMap → Option Ref → Option Ref → Type 0
RefTo m none none = Unit
RefTo m (some a) (some b) = (lookup str_dec a.name m ≡ some b.name) × (b.optional ≡ a.optional)
RefTo m none (some b) = ⊥
RefTo m (some a) none = ⊥

abbrev pub ClaimTo : StrMap → Option String → Option String → Type 0
ClaimTo m none none = Unit
ClaimTo m (some a) (some b) = lookup str_dec a m ≡ some b
ClaimTo m none (some b) = ⊥
ClaimTo m (some a) none = ⊥

abbrev pub RefsTo : ResourceMapping → Refs → Refs → Type 0
RefsTo m a b =
    RefTo m.config_maps a.config_map_ref b.config_map_ref
    × RefTo m.secrets a.secret_ref b.secret_ref

abbrev pub FromTo : ResourceMapping → Option ValueFrom → Option ValueFrom → Type 0
FromTo m none none = Unit
FromTo m (some a) (some b) =
    RefsTo m a.refs b.refs × (b.field_path ≡ over replace_field_path a.field_path)
FromTo m none (some b) = ⊥
FromTo m (some a) none = ⊥

abbrev pub EnvTo : ResourceMapping → EnvVar → EnvVar → Type 0
EnvTo m a b = (b.name ≡ a.name) × (b.value ≡ a.value) × FromTo m a.from b.from

abbrev pub ContainerTo : ResourceMapping → Container → Container → Type 0
ContainerTo m a b = Pairwise (EnvTo m) a.env b.env × Pairwise (RefsTo m) a.env_from b.env_from

-- A source whose secret has the name in the physical cluster, or that was a token and is now the
-- secret with the volume's token.
abbrev pub SourceTo : ResourceMapping → String → Source → Source → Type 0
SourceTo m volume a b =
    RefTo m.config_maps a.refs.config_map_ref b.refs.config_map_ref
    × (RefTo m.secrets a.refs.secret_ref b.refs.secret_ref
        ⊎ ((has_token a ≡ true)
            × ((name : String) × (lookup str_dec volume m.tokens ≡ some name)
                × (b.refs.secret_ref ≡ some (record { name = name; optional = none })))))
    × (has_token b ≡ true → has_token a ≡ true)
    × (b.downward ≡ replace_downward a.downward)

-- With a service account, no token is left.
abbrev pub ProjectedTo :
    ResourceMapping → Bool → String → Option (List Source) → Option (List Source) → Type 0
ProjectedTo m has_account volume none none = Unit
ProjectedTo m has_account volume (some a) (some b) =
    Pairwise (SourceTo m volume) a b × (has_account ≡ true → any has_token b ≡ false)
ProjectedTo m has_account volume none (some b) = ⊥
ProjectedTo m has_account volume (some a) none = ⊥

abbrev pub VolumeTo : ResourceMapping → Bool → Volume → Volume → Type 0
VolumeTo m has_account a b =
    (b.name ≡ a.name)
    × RefsTo m a.refs b.refs
    × ClaimTo m.claims a.claim b.claim
    × ProjectedTo m has_account a.name a.projected b.projected
    × (b.downward ≡ replace_downward a.downward)

-- The spec that names in the physical cluster what another one names in the virtual cluster.
pub record IsRenamed (m : ResourceMapping) (spec result : Spec) : Type 0 where
  pub volumes_renamed :
      Pairwise (VolumeTo m (not (spec.service_account == ""))) spec.volumes result.volumes
  pub containers_renamed : Pairwise (ContainerTo m) spec.containers result.containers
  pub inits_renamed : Pairwise (ContainerTo m) spec.init_containers result.init_containers
  pub pull_secrets_renamed :
      Pairwise
        (λ n p. lookup str_dec n m.secrets ≡ some p)
        spec.image_pull_secrets
        result.image_pull_secrets
  pub no_account : result.service_account ≡ ""
