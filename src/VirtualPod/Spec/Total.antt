-- ===== src/VirtualPod/Spec/Total.antt =====
-- Where every collected name has a mapping, the names of a spec are replaced without an error.
use kubeocean.Dict.{StrMap, lookup, put, has}
use kubeocean.Prelude.{
  ◌≡◌, refl, sym, ◌∙◌, Bool, true, false, not, Option, none, some, List, [], ◌∷◌, arith, String,
  str_dec, ◌==◌, any, All, All-map, if◌then◌else◌,
}
use kubeocean.Prelude.Maybe.{◌>>=◌, traverse, Succeeds, bind-Succeeds, traverse-Succeeds}
use kubeocean.VirtualPod.Spec.{
  Kind, config_map, secret, Ref, Refs, Source, Volume, ValueFrom, EnvVar, Container, Spec, Required,
  pick, each, when_some, add_ref, add_refs, collect_volume, collect_env, collect_container,
  collect_spec, collect_config_map_refs, collect_secret_refs, collect_claims, ResourceMapping,
  rename, rename_claim, replace_refs, replace_source, has_token, replace_token_volume,
  replace_projected, replace_volume, replace_from, replace_env, replace_container,
  replace_resource_names,
}
use kubeocean.VirtualPod.Spec.Mapped.{
  Grows, IsMapped, put-Grows, each-Grows, when_some-Grows, outer, inner, each-IsMapped,
  put-IsMapped, All-both, add_refs-Grows, collect_sources-Grows, collect_volume-Grows,
  collect_container-Grows, BothMapped, each-BothMapped, rename_claim-Succeeds,
  replace_refs-Succeeds, replace_source-Succeeds, replace_container-Succeeds,
}

-- The replacement of names leaves the tokens that a source projects.
has_token-replace_source :
    (m : ResourceMapping) (s t : Source) → replace_source m s ≡ some t → has_token t ≡ has_token s
has_token-replace_source m s t e = by_refs (replace_refs m s.refs) e
  where
    by_refs :
        (o : Option Refs)
        → (o >>= (λ r. some (record s {
          refs = r;
          downward = kubeocean.VirtualPod.Spec.replace_downward s.downward;
        })))
          ≡ some t
        → has_token t ≡ has_token s
    by_refs none h = absurd (ground (arith, h))
    by_refs (some r) h = ground (arith, h)

any-traverse :
    {A B : Type 0} (f : A → Option B) (p : A → Bool) (q : B → Bool) (xs : List A) (ys : List B)
    → ((x : A) (y : B) → f x ≡ some y → q y ≡ p x)
    → traverse f xs ≡ some ys
    → any q ys ≡ any p xs
any-traverse f p q [] ys g e = ground (arith, e)
any-traverse {A} {B} f p q (x ∷ xs) ys g e =
    by_head (f x) refl (traverse f xs) (λ zs. any-traverse f p q xs zs g) e
  where
    by_head :
        (a : Option B)
        → f x ≡ a
        → (b : Option (List B)) → ((zs : List B) → b ≡ some zs → any q zs ≡ any p xs)
        → (a >>= (λ y. b >>= (λ zs. some (y ∷ zs)))) ≡ some ys
        → any q ys ≡ any p (x ∷ xs)
    by_head none ea b eb h = absurd (ground (arith, h))
    by_head (some y) ea none eb h = absurd (ground (arith, h))
    by_head (some y) ea (some zs) eb h = ground (arith, h, g x y ea, eb zs refl)

-- A token for a volume that projects one, where the pod has a service account.
abbrev pub TokenFor : ResourceMapping → Bool → String → Option (List Source) → Type 0
TokenFor m has_account name none = Unit
TokenFor m has_account name (some sources) =
    has_account ≡ true → any has_token sources ≡ true → Succeeds (lookup str_dec name m.tokens)

abbrev pub HasToken : ResourceMapping → Bool → Volume → Type 0
HasToken m has_account v = TokenFor m has_account v.name v.projected

replace_token_volume-Succeeds :
    (m : ResourceMapping) (has_account : Bool) (name : String) (sources : List Source)
    → (has_account ≡ true → any has_token sources ≡ true → Succeeds (lookup str_dec name m.tokens))
    → Succeeds (replace_token_volume m has_account name sources)
replace_token_volume-Succeeds m false name sources h = (sources, refl)
replace_token_volume-Succeeds m true name sources h = by_token (any has_token sources) (h refl)
  where
    by_token :
        (b : Bool)
        → (b ≡ true → Succeeds (lookup str_dec name m.tokens))
        → Succeeds (
            if not b
            then some sources
            else lookup str_dec name m.tokens
              >>= (λ n. some (kubeocean.VirtualPod.Spec.replace_tokens n sources sources)))
    by_token false g = (sources, refl)
    by_token true g = bind-Succeeds (lookup str_dec name m.tokens) _ (g refl) (λ n. (_, refl))

-- Also what is found is known.
bind-Succeeds_with :
    {A B : Type 0} (o : Option A) (f : A → Option B)
    → Succeeds o
    → ((a : A) → o ≡ some a → Succeeds (f a))
    → Succeeds (o >>= f)
bind-Succeeds_with o f (a, e) g = rw e (g a e)

replace_projected-Succeeds :
    (m : ResourceMapping) (has_account : Bool) (v : Volume)
    → BothMapped m
        (λ kind. when_some (λ sources. each (λ (s : Source). add_refs kind s.refs) sources))
        v.projected
    → HasToken m has_account v
    → Succeeds (replace_projected m has_account v.name v.projected)
replace_projected-Succeeds m has_account v = by_sources v.projected
  where
    by_sources :
        (o : Option (List Source))
        → BothMapped m
            (λ kind. when_some (λ sources. each (λ (s : Source). add_refs kind s.refs) sources))
            o
        → TokenFor m has_account v.name o
        → Succeeds (replace_projected m has_account v.name o)
    by_sources none c t = (none, refl)
    by_sources (some sources) c t =
        bind-Succeeds_with (traverse (replace_source m) sources) _
          (traverse-Succeeds (replace_source m) sources (
            All-map sources (replace_source-Succeeds m) (
              each-BothMapped m (λ kind (s : Source). add_refs kind s.refs)
                (λ kind s. add_refs-Grows kind s.refs) sources c)))
          (λ renamed e.
            bind-Succeeds (replace_token_volume m has_account v.name renamed) _
              (replace_token_volume-Succeeds m has_account v.name renamed (λ a h. t a (
                sym (
                  any-traverse (replace_source m) has_token has_token sources renamed
                    (has_token-replace_source m) e)
                ∙ h)))
              (λ ss. (_, refl)))

replace_volume-Succeeds :
    (m : ResourceMapping) (has_account : Bool) (v : Volume)
    → BothMapped m collect_volume v
    → IsMapped m.claims (when_some (λ name r. put name true r) v.claim)
    → HasToken m has_account v
    → Succeeds (replace_volume m has_account v)
replace_volume-Succeeds m has_account v (a, b) c t =
    bind-Succeeds (replace_refs m v.refs) _
      (replace_refs-Succeeds m v.refs (
        inner m.config_maps _ (add_refs config_map v.refs)
            (collect_sources-Grows config_map v.projected) a,
        inner m.secrets _ (add_refs secret v.refs) (collect_sources-Grows secret v.projected) b,
      ))
      (λ r.
        bind-Succeeds (rename_claim m.claims v.claim) _ (rename_claim-Succeeds m.claims v.claim c)
          (λ claim.
            bind-Succeeds (replace_projected m has_account v.name v.projected) _
              (replace_projected-Succeeds m has_account v
                (
                  outer m.config_maps _ (add_refs config_map v.refs) a,
                  outer m.secrets _ (add_refs secret v.refs) b,
                )
                t)
              (λ p. (_, refl))))

image_pull_secrets-Succeeds :
    (r : StrMap) (names : List String)
    → IsMapped r (each (λ name m. put name true m) names)
    → Succeeds (traverse (λ name. lookup str_dec name r) names)
image_pull_secrets-Succeeds r names c = traverse-Succeeds _ names (
    All-map names (λ n. put-IsMapped r n true)
      (each-IsMapped r (λ name. put name true) (λ n. put-Grows n true) names c))

containers-Succeeds :
    (m : ResourceMapping) (cs : List Container)
    → BothMapped m (λ kind. each (collect_container kind)) cs
    → Succeeds (traverse (replace_container m) cs)
containers-Succeeds m cs c = traverse-Succeeds (replace_container m) cs (
    All-map cs (replace_container-Succeeds m)
      (each-BothMapped m collect_container collect_container-Grows cs c))

-- The parts of a spec, from what is collected of the whole.
spec-BothMapped :
    (m : ResourceMapping) (spec : Spec)
    → BothMapped m collect_spec spec
    → BothMapped m (λ kind. each (collect_volume kind)) spec.volumes
      × BothMapped m (λ kind. each (collect_container kind)) spec.containers
      × BothMapped m (λ kind. each (collect_container kind)) spec.init_containers
spec-BothMapped m spec (a, b) =
    let a' = without_inits config_map m.config_maps a in
    let b' = without_inits secret m.secrets b in
    (
      (
        inner m.config_maps _ (volumes config_map) (containers config_map spec.containers) a',
        inner m.secrets _ (volumes secret) (containers secret spec.containers) b',
      ),
      (outer m.config_maps _ (volumes config_map) a', outer m.secrets _ (volumes secret) b'),
      (
        outer m.config_maps _
            (λ r. each (collect_container config_map) spec.containers (volumes config_map r)) a,
        outer m.secrets _ (λ r. each (collect_container secret) spec.containers (volumes secret r))
            b,
      ),
    )
  where
    volumes : Kind → Required → Required
    volumes kind = each (collect_volume kind) spec.volumes

    containers : (kind : Kind) (cs : List Container) → Grows (each (collect_container kind) cs)
    containers kind = each-Grows _ (collect_container-Grows kind)

    without_inits :
        (kind : Kind) (r : StrMap)
        → IsMapped r (collect_spec kind spec)
        → IsMapped r (λ n. each (collect_container kind) spec.containers (volumes kind n))
    without_inits kind r =
        inner r _ (λ n. each (collect_container kind) spec.containers (volumes kind n))
          (containers kind spec.init_containers)

-- Where the mapping names each ConfigMap, Secret and claim that is collected from a spec, and, for a
-- pod with a service account, has a token for each volume that projects one, the
-- replacement of the names of the spec meets no error.
pub replace_resource_names-Succeeds :
    (m : ResourceMapping) (spec : Spec)
    → ((k : String) → has k (collect_config_map_refs spec) ≡ true → has k m.config_maps ≡ true)
    → ((k : String) → has k (collect_secret_refs spec) ≡ true → has k m.secrets ≡ true)
    → ((k : String) → has k (collect_claims spec) ≡ true → has k m.claims ≡ true)
    → All (HasToken m (not (spec.service_account == ""))) spec.volumes
    → Succeeds (replace_resource_names m spec)
unfolding replace_resource_names collect_config_map_refs collect_secret_refs collect_claims
replace_resource_names-Succeeds m spec hc hs hv ht =
    let (vs, cs, is) = spec-BothMapped m spec (
      ([], hc),
      inner m.secrets _ (collect_spec secret spec)
          (each-Grows _ (λ n. put-Grows n true) spec.image_pull_secrets) ([], hs),
    ) in
    bind-Succeeds (traverse (replace_volume m (not (spec.service_account == ""))) spec.volumes) _
      (traverse-Succeeds _ spec.volumes (
        All-map spec.volumes (λ v c. replace_volume-Succeeds m _ v c.0 c.1.0 c.1.1)
          (All-both _ _ spec.volumes
            (each-BothMapped m collect_volume collect_volume-Grows spec.volumes vs)
            (All-both _ _ spec.volumes (each-IsMapped m.claims _ claim-Grows spec.volumes ([], hv))
              ht))))
      (λ v.
        bind-Succeeds (traverse (replace_container m) spec.containers) _
          (containers-Succeeds m spec.containers cs)
          (λ c.
            bind-Succeeds (traverse (replace_container m) spec.init_containers) _
              (containers-Succeeds m spec.init_containers is)
              (λ i.
                bind-Succeeds
                  (traverse (λ name. lookup str_dec name m.secrets) spec.image_pull_secrets) _
                  (image_pull_secrets-Succeeds m.secrets spec.image_pull_secrets
                    (outer m.secrets _ (collect_spec secret spec) ([], hs)))
                  (λ p. (_, refl)))))
  where
    claim-Grows : (v : Volume) → Grows (when_some (λ name m. put name true m) v.claim)
    claim-Grows v = when_some-Grows _ (λ n. put-Grows n true) v.claim
