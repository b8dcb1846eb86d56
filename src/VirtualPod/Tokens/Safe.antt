-- ===== src/VirtualPod/Tokens/Safe.antt =====
-- What the handling of token secrets calls.
use kubeocean.Effect.{M}
use kubeocean.Effect.Keeps.{Keeps, if-Keeps}
use kubeocean.Dict.{StrMap}
use kubeocean.Kube.{Fetch, found, missing, failed}
use kubeocean.Prelude.{
  not, ◌≡◌, refl, ◌⊎◌, inl, inr, Bool, Option, none, some, List, [], ◌∷◌, String, ◌==◌, Any,
}
use kubeocean.VirtualPod.Defs.{
  Pod, TokenSecret, Call, forget_tokens, get_token, get_secret, create_secret, update_secret,
  delete_secret, Api, Config,
}
use kubeocean.VirtualPod.Reasons.{IsToken, MayStore, MayRefresh}
use kubeocean.VirtualPod.Spec.{Token}
use kubeocean.VirtualPod.Tokens.{
  projected_tokens, Synced, synced, absent, broken, token_secret_name, old_secret_name, is_gone,
  store_token, delete_service_account_token_secret, delete_volume_secrets,
  cleanup_service_account_token, with_token, sync_service_account_token, sync_tokens, add_name,
  sync_service_account_tokens,
}

-- The two ways to be a secret of the pod's tokens.
abbrev pub IsTokenName :
    {Ephemeral : Type 0}
    → (String → String)
    → (String → String)
    → Api Ephemeral
    → Config
    → Pod Ephemeral
    → String
    → Type 0
IsTokenName md5_hex base64 api config pod n =
    (n ≡ old_secret_name md5_hex base64 api config pod)
    ⊎ Any (λ (e : String × Token). n ≡ token_secret_name md5_hex base64 api config pod e.0)
        (projected_tokens pod.spec.volumes)

module _ {Ephemeral : Type 0} (md5_hex base64 : String → String) (api : Api Ephemeral)
    (config : Config) (pod : Pod Ephemeral) (P : Call Ephemeral → Type 0) where
  open config use {mount_namespace}
  open api use {secret, secret_deleted, token}

  module _ (forgets : P (forget_tokens pod.uid)) where
    delete_secret-Keeps :
        (name : String) (rest : M (Call Ephemeral) Bool)
        → P (delete_secret mount_namespace name)
        → Keeps P rest
        → Keeps P (delete_service_account_token_secret md5_hex base64 api config pod name rest)
    unfolding delete_service_account_token_secret
    delete_secret-Keeps name rest p k log h =
        if-Keeps P (is_gone md5_hex base64 api config pod (secret_deleted log mount_namespace name))
          _ _ (λ e. k) (λ e log' h'. h') _ (p, h)

    delete_volume_secrets-Keeps :
        (tokens : List (String × Token))
        → ((n : String)
            → Any
                (λ (e : String × Token). n ≡ token_secret_name md5_hex base64 api config pod e.0)
                tokens
            → P (delete_secret mount_namespace n))
        → Keeps P (delete_volume_secrets md5_hex base64 api config pod tokens)
    unfolding delete_volume_secrets
    delete_volume_secrets-Keeps [] p = λ log h. h
    delete_volume_secrets-Keeps ((volume, t) ∷ tokens) p =
        delete_secret-Keeps _ _ (p _ (inl refl))
          (delete_volume_secrets-Keeps tokens (λ n a. p n (inr a)))

    pub cleanup_service_account_token-Keeps :
        ((n : String)
          → IsTokenName md5_hex base64 api config pod n
          → P (delete_secret mount_namespace n))
        → Keeps P (cleanup_service_account_token md5_hex base64 api config pod)
    unfolding cleanup_service_account_token
    cleanup_service_account_token-Keeps p =
        if-Keeps P (pod.spec.service_account == "") _ _ (λ e log h. h)
          (λ e log h.
            delete_secret-Keeps _ _ (p _ (inl refl))
              (delete_volume_secrets-Keeps (projected_tokens pod.spec.volumes) (λ n a. p n (inr a)))
              _ (forgets, h))

  module _
      (gets : (t : Token) → P (get_token pod.namespace pod.spec.service_account t pod.name pod.uid))
      (reads : (n : String) → P (get_secret mount_namespace n))
      (updates : (s : TokenSecret)
        → MayRefresh md5_hex base64 api config pod s
        → P (update_secret s))
      (create : Bool)
      (creates : (s : TokenSecret)
        → MayStore md5_hex base64 api config pod s
        → P (create_secret s)) where
    store_token-Keeps :
        (volume text : String) (answer : Fetch TokenSecret)
        → IsToken md5_hex base64 api config pod volume text
        → (log : List (Call Ephemeral)) × (secret log mount_namespace
              (token_secret_name md5_hex base64 api config pod volume)
            ≡ answer)
        → Keeps P (store_token md5_hex base64 api config pod create volume text answer)
    unfolding store_token
    store_token-Keeps volume text failed i a = λ log h. h
    store_token-Keeps volume text missing i a =
        if-Keeps P (not create) _ _ (λ e log h. h)
          (λ e log h. (
            creates _ (record {
              volume = volume;
              text = text;
              is_token = i;
              log = a.0;
              is_absent = a.1;
              is_secret = refl;
            }),
            h,
          ))
    store_token-Keeps volume text (found existing) i a =
        if-Keeps P (existing.token == base64 text) _ _ (λ e log h. h)
          (λ e log h. (
            updates _ (record {
              volume = volume;
              text = text;
              existing = existing;
              is_token = i;
              log = a.0;
              is_there = a.1;
              differs = e;
              only_token = refl;
            }),
            h,
          ))

    with_token-Keeps :
        (volume : String) (text : Option String)
        → ((t : String) → text ≡ some t → IsToken md5_hex base64 api config pod volume t)
        → Keeps P (with_token md5_hex base64 api config pod create volume text)
    unfolding with_token
    with_token-Keeps volume none i = λ log h. h
    with_token-Keeps volume (some text) i =
        λ log h. store_token-Keeps volume text _ (i text refl) (log, refl) _ (reads _, h)

    one-Keeps :
        (volume : String) (t : Token)
        → Any (λ e. e ≡ (volume, t)) (projected_tokens pod.spec.volumes)
        → Keeps P (sync_service_account_token md5_hex base64 api config pod create volume t)
    unfolding sync_service_account_token
    one-Keeps volume t m log h =
        with_token-Keeps volume
          (token log pod.namespace pod.spec.service_account t pod.name pod.uid)
          (λ text e. record { projection = t; projected = m; log = log; answered = e })
          (get_token pod.namespace pod.spec.service_account t pod.name pod.uid ∷ log) (gets t, h)

    sync_tokens-Keeps :
        (tokens : List (String × Token)) (names : StrMap)
        → ((e : String × Token)
            → Any (λ x. x ≡ e) tokens
            → Any (λ x. x ≡ e) (projected_tokens pod.spec.volumes))
        → Keeps P (sync_tokens md5_hex base64 api config pod create tokens names)
    unfolding sync_tokens
    sync_tokens-Keeps [] names f = λ log h. h
    sync_tokens-Keeps ((volume, t) ∷ tokens) names f = λ log h.
        by_result (sync_service_account_token md5_hex base64 api config pod create volume t log).0
          (λ m. sync_tokens-Keeps tokens m (λ e a. f e (inr a))) _
          (one-Keeps volume t (f (volume, t) (inl refl)) log h)
      where
        by_result :
            (r : Synced String)
            → ((m : StrMap) → Keeps P (sync_tokens md5_hex base64 api config pod create tokens m))
            → Keeps P (
                add_name md5_hex base64 api config pod create volume
                  (λ m. sync_tokens md5_hex base64 api config pod create tokens m)
                  names
                  r)
        by_result (synced n) k = k _
        by_result absent k = λ log h. h
        by_result broken k = λ log h. h

    pub sync_service_account_tokens-Keeps :
        Keeps P (sync_service_account_tokens md5_hex base64 api config pod create)
    unfolding sync_service_account_tokens
    sync_service_account_tokens-Keeps =
        sync_tokens-Keeps (projected_tokens pod.spec.volumes) [] (λ e a. a)
