-- ===== src/Tests/TokenManager.antt =====
-- A token that is kept, refreshed and cleaned up.
use kubeocean.Dict.{lookup, insert}
use kubeocean.Prelude.{◌*◌, ◌≡◌, refl, ◌⊎◌, false, none, some, List, [], ◌∷◌, str_dec}
use kubeocean.TokenManager.{
  second, TokenRequest, expired, get_service_account_token, Operation, get, delete_pod, clean, run,
  cleanup, delete_service_account_token,
}
use kubeocean.TokenManager.Laws.{get_service_account_token-expired}

-- A token for an hour, which ends at the second 3600.
abbrev hourly : TokenRequest
hourly = record {
  audiences = [];
  expiration = some 3600;
  bound_uid = "v1";
  token = "t1";
  expires_at = 3600 * second;
}

abbrev history : List Operation
history =
    clean (20 * second)
    ∷ delete_pod "v2"
    ∷ get (10 * second) 3 "builder" none
    ∷ get 0 3 "builder" (some hourly)
    ∷ []

handed_out :
    (get_service_account_token (30 * second) 3 "builder" none (run history)).0 ≡ some hourly
unfolding run get_service_account_token cleanup delete_service_account_token lookup insert str_dec
handed_out = refl

get_service_account_token-expired_example :
    (none ≡ some hourly) ⊎ (expired (30 * second) hourly ≡ false)
get_service_account_token-expired_example =
    get_service_account_token-expired history (30 * second) 3 "builder" none hourly
      (tt, (tt, (tt, ((λ e. absurd (cc)), tt)))) handed_out
