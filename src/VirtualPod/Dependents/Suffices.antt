-- ===== src/VirtualPod/Dependents/Suffices.antt =====
-- What is synchronised for a pod is what the replacement of the names in its spec needs.
use kubeocean.Dict.{StrMap}
use kubeocean.Prelude.{
  ◌≡◌, refl, subst, Bool, true, false, ◌||◌, Option, none, some, List, [], arith, String,
}
use kubeocean.Prelude.Maybe.{Succeeds}
use kubeocean.Synced.Physical.{config_map, secret}
use kubeocean.VirtualPod.Defs.{Pod, Call, Api, Config}
use kubeocean.VirtualPod.Dependents.{
  mapping_of, poll_physical_resources, with_poll, with_tokens, sync_pod_tokens, with_claims,
  with_secrets, sync_secrets, sync_config_maps, with_config_maps, sync_dependent_resources,
}
use kubeocean.VirtualPod.Dependents.Enough.{
  sync_refs-has, sync_claims-has, tokens-HasToken, sync_pod_tokens-has,
}
use kubeocean.VirtualPod.Resources.{sync_refs, sync_claims}
use kubeocean.VirtualPod.Spec.{
  ResourceMapping, collect_config_map_refs, collect_secret_refs, collect_claims,
  replace_resource_names,
}
use kubeocean.VirtualPod.Spec.Total.{replace_resource_names-Succeeds}
use kubeocean.VirtualPod.Tokens.{Synced, synced, absent, broken}

module _ {Ephemeral : Type 0} (md5_hex base64 : String → String) (api : Api Ephemeral)
    (config : Config) (pod : Pod Ephemeral) where
  -- A result of one of the four synchronisations.
  abbrev ConfigMaps : StrMap → Type 0
  ConfigMaps r =
      (log : List (Call Ephemeral)) × ((sync_refs md5_hex api config config_map pod.namespace
          (collect_config_map_refs pod.spec) [] log).0
        ≡ some r)

  abbrev Secrets : StrMap → Type 0
  Secrets r =
      (log : List (Call Ephemeral)) × ((sync_refs md5_hex api config secret pod.namespace
          (collect_secret_refs pod.spec) [] log).0
        ≡ some r)

  abbrev Claims : StrMap → Type 0
  Claims r =
      (log : List (Call Ephemeral)) × ((sync_claims md5_hex api config pod.namespace
          (collect_claims pod.spec) [] log).0
        ≡ some r)

  abbrev Tokens : StrMap → Type 0
  Tokens r =
      (log : List (Call Ephemeral)) × ((sync_pod_tokens md5_hex base64 api config pod log).0
        ≡ synced r)

  -- The goal, of the mapping that is returned.
  module _ (Goal : ResourceMapping → Type 0)
      (enough : (a b c d : StrMap)
        → ConfigMaps a
        → Secrets b
        → Claims c
        → Tokens d
        → Goal (mapping_of a b c d)) where
    with_poll-Goal :
        (m r : ResourceMapping) (ok : Bool) (log : List (Call Ephemeral))
        → (with_poll md5_hex base64 api config pod m ok log).0 ≡ some r
        → Goal m
        → Goal r
    unfolding with_poll
    with_poll-Goal m r true log e g = subst (λ o. elim o [ none ↦ Unit | some x ↦ Goal x ]) e g
    with_poll-Goal m r false log e g = absurd (cc)

    with_tokens-Goal :
        (a b c : StrMap) (s : Synced StrMap) (r : ResourceMapping) (log : List (Call Ephemeral))
        → (with_tokens md5_hex base64 api config pod a b c s log).0 ≡ some r
        → ((d : StrMap) → s ≡ synced d → Goal (mapping_of a b c d))
        → Goal r
    unfolding with_tokens
    with_tokens-Goal a b c (synced d) r log e g =
        with_poll-Goal (mapping_of a b c d) r
          (poll_physical_resources md5_hex base64 api config pod (mapping_of a b c d) log).0
          (poll_physical_resources md5_hex base64 api config pod (mapping_of a b c d) log).1 e
          (g d refl)
    with_tokens-Goal a b c absent r log e g = absurd (cc)
    with_tokens-Goal a b c broken r log e g = absurd (cc)

    with_claims-Goal :
        (a b : StrMap) (o : Option StrMap) (r : ResourceMapping) (log : List (Call Ephemeral))
        → (with_claims md5_hex base64 api config pod a b o log).0 ≡ some r
        → ConfigMaps a
        → Secrets b
        → ((c : StrMap) → o ≡ some c → Claims c)
        → Goal r
    unfolding with_claims
    with_claims-Goal a b none r log e x y z = absurd (cc)
    with_claims-Goal a b (some c) r log e x y z =
        with_tokens-Goal a b c (sync_pod_tokens md5_hex base64 api config pod log).0 r
          (sync_pod_tokens md5_hex base64 api config pod log).1 e
          (λ d s. enough a b c d x y (z c refl) (log, s))

    with_secrets-Goal :
        (a : StrMap) (o : Option StrMap) (r : ResourceMapping) (log : List (Call Ephemeral))
        → (with_secrets md5_hex base64 api config pod a o log).0 ≡ some r
        → ConfigMaps a
        → ((b : StrMap) → o ≡ some b → Secrets b)
        → Goal r
    unfolding with_secrets
    with_secrets-Goal a none r log e x y = absurd (cc)
    with_secrets-Goal a (some b) r log e x y =
        with_claims-Goal a b
          (sync_claims md5_hex api config pod.namespace (collect_claims pod.spec) [] log).0 r
          (sync_claims md5_hex api config pod.namespace (collect_claims pod.spec) [] log).1 e x
          (y b refl) (λ c z. (log, z))

    with_config_maps-Goal :
        (o : Option StrMap) (r : ResourceMapping) (log : List (Call Ephemeral))
        → (with_config_maps md5_hex base64 api config pod o log).0 ≡ some r
        → ((a : StrMap) → o ≡ some a → ConfigMaps a)
        → Goal r
    unfolding with_config_maps
    with_config_maps-Goal none r log e x = absurd (cc)
    with_config_maps-Goal (some a) r log e x =
        with_secrets-Goal a (sync_secrets md5_hex base64 api config pod log).0 r
          (sync_secrets md5_hex base64 api config pod log).1 e (x a refl) (λ b y. (_, y))

    sync_dependent-Goal :
        (r : ResourceMapping) (log : List (Call Ephemeral))
        → (sync_dependent_resources md5_hex base64 api config pod log).0 ≡ some r
        → Goal r
    unfolding sync_dependent_resources
    sync_dependent-Goal r log e =
        with_config_maps-Goal (sync_config_maps md5_hex base64 api config pod log).0 r
          (sync_config_maps md5_hex base64 api config pod log).1 e (λ a x. (_, x))

  enough-Succeeds :
      (a b c d : StrMap)
      → ConfigMaps a
      → Secrets b
      → Claims c
      → Tokens d
      → Succeeds (replace_resource_names (mapping_of a b c d) pod.spec)
  enough-Succeeds a b c d (la, x) (lb, y) (lc, z) (ld, t) =
      replace_resource_names-Succeeds (mapping_of a b c d) pod.spec
        (λ k h.
          sync_refs-has md5_hex api config config_map pod.namespace k
            (collect_config_map_refs pod.spec) [] a la x (left _ h))
        (λ k h.
          sync_refs-has md5_hex api config secret pod.namespace k (collect_secret_refs pod.spec) []
            b lb y (left _ h))
        (λ k h.
          sync_claims-has md5_hex api config pod.namespace k (collect_claims pod.spec) [] c lc z
            (left _ h))
        (tokens-HasToken (mapping_of a b c d) _ pod.spec.volumes
          (λ e k i. sync_pod_tokens-has md5_hex base64 api config pod k d ld t e i))
    where
      left : {p : Bool} (q : Bool) → p ≡ true → (p || q) ≡ true
      left {p} q h = ground (arith, h)

  -- If syncDependentResources ends well for a pod, then with the mapping that it returns the
  -- replacement of the names in the pod's spec meets no error.
  pub sync_dependent_resources-Succeeds :
      (mapping : ResourceMapping) (log : List (Call Ephemeral))
      → (sync_dependent_resources md5_hex base64 api config pod log).0 ≡ some mapping
      → Succeeds (replace_resource_names mapping pod.spec)
  sync_dependent_resources-Succeeds =
      sync_dependent-Goal (λ m. Succeeds (replace_resource_names m pod.spec)) enough-Succeeds
