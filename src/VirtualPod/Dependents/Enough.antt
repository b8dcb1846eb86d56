-- ===== src/VirtualPod/Dependents/Enough.antt =====
-- The names that the loops of a synchronisation find.
use kubeocean.Dict.{StrMap, lookup, lookup-insert, put, has}
use kubeocean.Effect.{return}
use kubeocean.Prelude.{
  ◌≡◌, refl, ◌⊎◌, inl, inr, Bool, true, false, not, ◌||◌, Option, none, some, List, [], ◌∷◌, ◌++◌,
  arith, String, str_dec, ◌==◌, any, Any, All, if◌then◌else◌,
}
use kubeocean.Prelude.Maybe.{Succeeds}
use kubeocean.Synced.Physical.{ResourceType}
use kubeocean.VirtualPod.Defs.{Pod, Call, Api, Config}
use kubeocean.VirtualPod.Dependents.{sync_pod_tokens}
use kubeocean.VirtualPod.Resources.{
  sync_refs, sync_named, sync_claims, sync_pvc, add_synced, add_claim,
}
use kubeocean.VirtualPod.Spec.{Source, Volume, Token, Required, ResourceMapping, has_token}
use kubeocean.VirtualPod.Spec.Total.{TokenFor, HasToken}
use kubeocean.VirtualPod.Tokens.{
  Synced, synced, absent, broken, source_tokens, volume_tokens, projected_tokens, add_name,
  sync_tokens, sync_service_account_token, sync_service_account_tokens,
}

-- A later name keeps the earlier ones.
put_step :
    (n v k : String) (b : Bool) (refs : Required) (names : StrMap)
    → (has k ((n, b) ∷ refs) || has k names) ≡ true
    → (has k refs || has k (put n v names)) ≡ true
unfolding lookup
put_step n v k b refs names h = ground (arith, h, lookup-insert str_dec n k v names)

module _ {Ephemeral : Type 0} (md5_hex : String → String) (api : Api Ephemeral)
    (config : Config) where
  pub sync_refs-has :
      (kind : ResourceType) (ns k : String) (refs : Required) (names r : StrMap)
      (log : List (Call Ephemeral))
      → (sync_refs md5_hex api config kind ns refs names log).0 ≡ some r
      → (has k refs || has k names) ≡ true
      → has k r ≡ true
  unfolding sync_refs lookup
  sync_refs-has kind ns k [] names r log e h = ground (arith, e, h)
  sync_refs-has kind ns k ((n, required) ∷ refs) names r log e h =
      by_result (sync_named md5_hex api config kind ns n log).0
        (sync_named md5_hex api config kind ns n log).1
        (λ v log' e'.
          sync_refs-has kind ns k refs (put n v names) r log' e'
            (put_step n v k required refs names h))
        e
    where
      by_result :
          (s : Synced String) (log' : List (Call Ephemeral))
          → ((v : String) (l : List (Call Ephemeral))
              → (sync_refs md5_hex api config kind ns refs (put n v names) l).0 ≡ some r
              → has k r ≡ true)
          → (add_synced md5_hex api config ns n required
              (λ m. sync_refs md5_hex api config kind ns refs m)
              names
              s
              log').0
            ≡ some r
          → has k r ≡ true
      by_result (synced v) log' f e' = f v log' e'
      by_result broken log' f e' = absurd (cc)
      by_result absent log' f e' = by_flag required e'
        where
          by_flag :
              (b : Bool)
              → ((if b
                    then return none
                    else sync_refs md5_hex api config kind ns refs (
                        put n (kubeocean.Names.generate_physical_resource_name md5_hex n ns) names))
                  log').0
                ≡ some r
              → has k r ≡ true
          by_flag true e'' = absurd (cc)
          by_flag false e'' = f _ log' e''

  pub sync_claims-has :
      (ns k : String) (refs : Required) (names r : StrMap) (log : List (Call Ephemeral))
      → (sync_claims md5_hex api config ns refs names log).0 ≡ some r
      → (has k refs || has k names) ≡ true
      → has k r ≡ true
  unfolding sync_claims lookup
  sync_claims-has ns k [] names r log e h = ground (arith, e, h)
  sync_claims-has ns k ((n, required) ∷ refs) names r log e h =
      by_result (sync_pvc md5_hex api config ns n log).0 (sync_pvc md5_hex api config ns n log).1
        (λ v log' e'.
          sync_claims-has ns k refs (put n v names) r log' e'
            (put_step n v k required refs names h))
        e
    where
      by_result :
          (s : Synced String) (log' : List (Call Ephemeral))
          → ((v : String) (l : List (Call Ephemeral))
              → (sync_claims md5_hex api config ns refs (put n v names) l).0 ≡ some r
              → has k r ≡ true)
          → (add_claim md5_hex api config n
              (λ m. sync_claims md5_hex api config ns refs m)
              names
              s
              log').0
            ≡ some r
          → has k r ≡ true
      by_result (synced v) log' f e' = f v log' e'
      by_result broken log' f e' = absurd (cc)
      by_result absent log' f e' = absurd (cc)

-- The tokens of a volume are among those of all.
source_tokens-Any :
    (name : String) (sources : List Source)
    → any has_token sources ≡ true
    → Any (λ (e : String × Token). e.0 ≡ name) (source_tokens name sources)
source_tokens-Any name [] h = absurd (cc)
source_tokens-Any name (s ∷ sources) h = by_token s.token (source_tokens-Any name sources) h
  where
    by_token :
        (o : Option Token)
        → (any has_token sources ≡ true
            → Any (λ (e : String × Token). e.0 ≡ name) (source_tokens name sources))
        → ((elim o [ none ↦ false | some t ↦ true ]) || any has_token sources) ≡ true
        → Any
            (λ (e : String × Token). e.0 ≡ name)
            (elim o [
              | none ↦ source_tokens name sources
              | some t ↦ (name, t) ∷ source_tokens name sources
            ])
    by_token none f e = f e
    by_token (some t) f e = inl refl

append-Any : {A : Type 0} (P : A → Type 0) (xs ys : List A) → Any P xs ⊎ Any P ys → Any P (xs ++ ys)
append-Any P [] ys (inl a) = absurd a
append-Any P [] ys (inr a) = a
append-Any P (x ∷ xs) ys (inl (inl p)) = inl p
append-Any P (x ∷ xs) ys (inl (inr a)) = inr (append-Any P xs ys (inl a))
append-Any P (x ∷ xs) ys (inr a) = inr (append-Any P xs ys (inr a))

-- A volume has its token, if those of all volumes are there.
pub tokens-HasToken :
    (m : ResourceMapping) (has_account : Bool) (volumes : List Volume)
    → (has_account ≡ true
        → (k : String) → Any (λ (e : String × Token). e.0 ≡ k) (projected_tokens volumes)
        → has k m.tokens ≡ true)
    → All (HasToken m has_account) volumes
tokens-HasToken m has_account [] f = tt
tokens-HasToken m has_account (v ∷ volumes) f = (
  by_sources v.projected
      (λ a k x. f a k (append-Any _ (volume_tokens v) (projected_tokens volumes) (inl x))),
  tokens-HasToken m has_account volumes
      (λ a k x. f a k (append-Any _ (volume_tokens v) (projected_tokens volumes) (inr x))),
)
  where
    found_in : (o : Option String) → kubeocean.Dict.is_some o ≡ true → Succeeds o
    found_in none e = absurd (cc)
    found_in (some t) e = (t, refl)

    by_sources :
        (o : Option (List Source))
        → (has_account ≡ true
            → (k : String)
            → Any
                (λ (e : String × Token). e.0 ≡ k)
                (elim o [ none ↦ [] | some sources ↦ source_tokens v.name sources ])
            → has k m.tokens ≡ true)
        → TokenFor m has_account v.name o
    by_sources none g = tt
    by_sources (some sources) g =
        λ a h. found_in _ (g a v.name (source_tokens-Any v.name sources h))

module _ {Ephemeral : Type 0} (md5_hex base64 : String → String) (api : Api Ephemeral)
    (config : Config) (pod : Pod Ephemeral) where
  sync_tokens-has :
      (k : String) (create : Bool) (tokens : List (String × Token)) (names r : StrMap)
      (log : List (Call Ephemeral))
      → (sync_tokens md5_hex base64 api config pod create tokens names log).0 ≡ synced r
      → Any (λ (e : String × Token). e.0 ≡ k) tokens ⊎ (has k names ≡ true)
      → has k r ≡ true
  unfolding sync_tokens lookup
  sync_tokens-has k create [] names r log e (inl a) = absurd a
  sync_tokens-has k create [] names r log e (inr h) = ground (arith, e, h)
  sync_tokens-has k create ((n, t) ∷ tokens) names r log e a =
      by_result (sync_service_account_token md5_hex base64 api config pod create n t log).0
        (sync_service_account_token md5_hex base64 api config pod create n t log).1
        (λ v log' e'. sync_tokens-has k create tokens (put n v names) r log' e' (step v a)) e
    where
      step :
          (v : String)
          → (n ≡ k ⊎ Any (λ (e : String × Token). e.0 ≡ k) tokens) ⊎ (has k names ≡ true)
          → Any (λ (e : String × Token). e.0 ≡ k) tokens ⊎ (has k (put n v names) ≡ true)
      step v (inl (inl p)) = inr (ground (arith, p, lookup-insert str_dec n k v names))
      step v (inl (inr x)) = inl x
      step v (inr h) = inr (ground (arith, h, lookup-insert str_dec n k v names))

      by_result :
          (s : Synced String) (log' : List (Call Ephemeral))
          → ((v : String) (l : List (Call Ephemeral))
              → (sync_tokens md5_hex base64 api config pod create tokens (put n v names) l).0
                ≡ synced r
              → has k r ≡ true)
          → (add_name md5_hex base64 api config pod create n
              (λ m. sync_tokens md5_hex base64 api config pod create tokens m)
              names
              s
              log').0
            ≡ synced r
          → has k r ≡ true
      by_result (synced v) log' f e' = f v log' e'
      by_result broken log' f e' = absurd (cc)
      by_result absent log' f e' = by_flag create e'
        where
          by_flag :
              (b : Bool)
              → (return {Call = Call Ephemeral} (if b then broken else absent) log').0 ≡ synced r
              → has k r ≡ true
          by_flag true e'' = absurd (cc)
          by_flag false e'' = absurd (cc)

  -- The tokens of a pod that has a service account.
  pub sync_pod_tokens-has :
      (k : String) (r : StrMap) (log : List (Call Ephemeral))
      → (sync_pod_tokens md5_hex base64 api config pod log).0 ≡ synced r
      → not (pod.spec.service_account == "") ≡ true
      → Any (λ (e : String × Token). e.0 ≡ k) (projected_tokens pod.spec.volumes)
      → has k r ≡ true
  unfolding sync_service_account_tokens
  sync_pod_tokens-has k r log e a x = by_account (pod.spec.service_account == "") a e
    where
      by_account :
          (b : Bool)
          → not b ≡ true
          → ((if b
                then return (synced [])
                else sync_service_account_tokens md5_hex base64 api config pod true)
              log).0
            ≡ synced r
          → has k r ≡ true
      by_account true n e' = absurd (ground (arith, n))
      by_account false n e' =
          sync_tokens-has k true (projected_tokens pod.spec.volumes) [] r log e' (inl x)
